-- ===== src/Keepalive/Deaf.antt =====
-- The loop of `main` with what `sig_handler` brings into the pipe: nothing.
use mathlib.Core.Path.{subst}
use mathlib.Core.List.{append_assoc, append-nil}
use my_linux_demo.Base.{
  ℕ, ◌<◌, ◌≤◌, ◌≡◌, refl, sym, ap, ◌∙◌, Bool, true, false, not, Option, none, some, List, [], ◌∷◌,
  ◌++◌, if◌then◌else◌, arith, length, All, All-split, Returns, Returns-then, Returns-both,
  IfReturns-of,
}
use my_linux_demo.TimerList.Spec.{Cells}
use my_linux_demo.Keepalive.{
  Server, Action, Event, connect, signalled, readable, other, sig_handler, sent_before, delivered,
  on_event, on_batch, on_timeout, Waited, epoll_fail, batch, main_loop,
}
use my_linux_demo.Keepalive.Invariant.{IsOwned, IsHealthy, IsPossible, Healthy, clock, timers_after}
use my_linux_demo.Keepalive.Steps.{on_event-Healthy}
use my_linux_demo.Keepalive.Serving.{calls_of, is_last, IsPlain, Called, Served, on_event-Served}
use my_linux_demo.Keepalive.Loop.{
  IsBatch, IsTimed, IsRun, IsTimedRun, most, most_of_run, rest-Returns, then-Returns, stop-Returns,
  IsList-same, timers_after-le, most-le, most_of_run-le, Healthy-le, on_batch-Healthy,
}

-- The calls for a batch, up to an EAGAIN, and for the batches up to an error of `epoll_wait`.
abbrev pub calls_of_batch : (epollfd : ℕ) → List Event → List Action
calls_of_batch epollfd [] = []
calls_of_batch epollfd (e ∷ es) =
    let rest = calls_of_batch epollfd es in calls_of epollfd e ++ (if is_last e then [] else rest)

abbrev pub calls_of_run : (epollfd : ℕ) → List Waited → List Action
calls_of_run epollfd [] = []
calls_of_run epollfd (epoll_fail ∷ ws) = []
calls_of_run epollfd (batch es cur ∷ ws) = calls_of_batch epollfd es ++ calls_of_run epollfd ws

-- The bytes in the pipe are those that `sig_handler` sends for signals, whose numbers are at most 64.
abbrev pub IsRaised : (memory : ℕ → Option ℕ) → Event → Type 0
IsRaised memory (connect connfd timer cur) = Unit
IsRaised memory (signalled sigs) =
    (raised : List ℕ) × All (λ sig. sig ≤ 64) raised × (sigs ≡ delivered memory raised)
IsRaised memory (readable sockfd r cur) = Unit
IsRaised memory other = Unit

abbrev pub AreRaised : (memory : ℕ → Option ℕ) → List Waited → Type 0
AreRaised memory [] = Unit
AreRaised memory (epoll_fail ∷ ws) = AreRaised memory ws
AreRaised memory (batch es cur ∷ ws) = All (IsRaised memory) es × AreRaised memory ws

Called-next :
    (s s' u : Server) (a b : List Action) → Called s a s' → Called s' b u → Called s (a ++ b) u
Called-next s s' u a b (acts, t, stop, fd) (acts', t', stop', fd') = (
  acts' ∙ ap (λ (v : List Action). v ++ b) acts ∙ append_assoc s.actions a b,
  t' ∙ t,
  stop' ∙ stop,
  fd' ∙ fd,
)

module _ (memory : ℕ → Option ℕ)
    (unmapped : (address : ℕ) → address < 4096 → memory address ≡ none) where
  delivered-none : (raised : List ℕ) → All (λ sig. sig ≤ 64) raised → delivered memory raised ≡ []
  unfolding delivered sig_handler
  delivered-none [] h = refl
  delivered-none (sig ∷ raised) h =
      ap (λ byte. sent_before byte (delivered memory raised)) (unmapped sig (omega (arith, h.0)))
      ∙ delivered-none raised h.1

  possible-IsPlain :
      (now : ℕ) (s : Server) (xs : Cells) (e : Event)
      → IsHealthy now xs s
      → IsPossible now xs e
      → IsRaised memory e
      → IsPlain s e
  possible-IsPlain now s xs (connect connfd a cur) h p r = tt
  possible-IsPlain now s xs (signalled sigs) h p (raised, small, e) =
      e ∙ delivered-none raised small
  possible-IsPlain now s xs (readable sockfd r cur) h (l, c) q =
      let (f, g) =
        All-split (IsOwned s.user_timer s.user_sockfd) c.front ((c.address, c.timer) ∷ c.rear)
          (subst (λ ys. All (IsOwned s.user_timer s.user_sockfd) ys) c.here h.owned) in
      ap s.user_sockfd (sym c.is_user) ∙ g.0.1 ∙ c.is_user
  possible-IsPlain now s xs other h p r = tt

  on_batch-Called :
      (fuel now cur n : ℕ) (s : Server) (es : List Event)
      → Healthy now n s
      → most n es < fuel
      → IsTimed now es cur
      → IsBatch fuel now s es
      → All (IsRaised memory) es
      → Returns (Called s (calls_of_batch s.epollfd es)) (on_batch fuel s es)
  unfolding on_batch
  on_batch-Called fuel now cur n s [] h f t b q = (sym (append-nil s.actions), refl, refl, refl)
  on_batch-Called fuel now cur n s (e ∷ es) (xs, h, l) f t ((ys, listed, p), next) (q, qs) =
      let (_, grows) = timers_after-le (length xs) n e l in
      let (room, _) = timers_after-le (length xs) (length xs) e (omega arith) in
      let fits = most-le (timers_after n e) (timers_after n e) es (omega arith) in
      let possible =
        subst (λ (zs : Cells). IsPossible now zs e) (IsList-same s.timer_list ys xs listed h.listed)
          p in
      let healthy =
        on_event-Healthy fuel now s xs e h (omega (arith, room, grows, fits, f)) possible in
      let IsKept : Server × Bool → Type 0 =
        λ r. Healthy (clock now e) (timers_after (length xs) e) r.0 in
      rest-Returns (λ r. IsKept r × Served s e r) (λ s'. IsBatch fuel (clock now e) s' es)
        (Called s (calls_of_batch s.epollfd (e ∷ es))) (on_event fuel s e)
        (λ s'. on_batch fuel s' es)
        (Returns-both IsKept (Served s e) (on_event fuel s e) healthy
          (on_event-Served fuel s e (possible-IsPlain now s xs e h possible q)))
        next
        (λ s' (g, (c, on)) b.
          Returns-then (Called s' (calls_of_batch s'.epollfd es))
            (Called s (calls_of_batch s.epollfd (e ∷ es))) (on_batch fuel s' es)
            (on_batch-Called fuel (clock now e) cur (timers_after n e) s' es
              (Healthy-le (clock now e) (clock now e) (timers_after (length xs) e)
                (timers_after n e) s' (omega arith) grows g)
              f t.1 b qs)
            λ u d.
              let more : is_last e ≡ false = not_true (is_last e) on in
              rw more (
                Called-next s s' u (calls_of s.epollfd e) (calls_of_batch s.epollfd es) c
                  (subst (λ fd. Called s' (calls_of_batch fd es) u) c.3 d)))
        λ s' (g, (c, out)).
          let last : is_last e ≡ true = not_false (is_last e) out in
          rw (last, append-nil (calls_of s.epollfd e)) c
    where
      not_true : (b : Bool) → true ≡ not b → b ≡ false
      not_true true e = cc
      not_true false e = refl

      not_false : (b : Bool) → false ≡ not b → b ≡ true
      not_false true e = refl
      not_false false e = cc

  main_loop-calls :
      (fuel now n : ℕ) (s : Server) (ws : List Waited)
      → Healthy now n s
      → most_of_run n ws < fuel
      → IsTimedRun now ws
      → IsRun fuel now s ws
      → AreRaised memory ws
      → s.timeout ≡ false
      → s.stop_server ≡ false
      → Returns (Called s (calls_of_run s.epollfd ws)) (main_loop fuel s ws)
  unfolding main_loop
  main_loop-calls fuel now n s [] h f t r q idle on = (sym (append-nil s.actions), refl, refl, refl)
  main_loop-calls fuel now n s (epoll_fail ∷ ws) h f t r q idle on =
      (sym (append-nil s.actions), refl, refl, refl)
  main_loop-calls fuel now n s (batch es cur ∷ ws) h f t r (q, qs) idle on =
      let fits = most_of_run-le (most n es) ws in
      let Behind : Server → Type 0 =
        λ u. Healthy cur (most n es) u × Called s (calls_of_batch s.epollfd es) u in
      stop-Returns (Called s (calls_of_run s.epollfd (batch es cur ∷ ws))) _ s.stop_server s _ r
        (λ stop. cc)
        λ (b, next).
          then-Returns Behind _ (Called s (calls_of_run s.epollfd (batch es cur ∷ ws)))
            (on_batch fuel s es) _
            (Returns-both (Healthy cur (most n es)) (Called s (calls_of_batch s.epollfd es))
              (on_batch fuel s es)
              (on_batch-Healthy fuel now cur n s es h (omega (arith, f, fits)) t.0 b)
              (IfReturns-of (Called s (calls_of_batch s.epollfd es)) (on_batch fuel s es)
                (on_batch-Called fuel now cur n s es h (omega (arith, f, fits)) t.0 b q)))
            next
            λ s' (g, c) next'.
              let same : on_timeout fuel cur s' ≡ some s' =
                unfold on_timeout in simp (c.1 ∙ idle) in
              then-Returns Behind _ (Called s (calls_of_run s.epollfd (batch es cur ∷ ws)))
                (on_timeout fuel cur s') _ (rw same (g, c)) next'
                λ u (k, d) b'.
                  Returns-then (Called u (calls_of_run u.epollfd ws))
                    (Called s (calls_of_run s.epollfd (batch es cur ∷ ws))) (main_loop fuel u ws)
                    (main_loop-calls fuel cur (most n es) u ws k f t.1 b' qs (d.1 ∙ idle)
                      (d.2 ∙ on))
                    λ v a.
                      Called-next s u v (calls_of_batch s.epollfd es) (calls_of_run s.epollfd ws) d
                        (subst (λ fd. Called u (calls_of_run fd ws) v) d.3 a)

-- The loop of main with what sig_handler brings into the pipe, which is nothing, as no page below
-- the address 4096 is mapped and the number of a signal, at most 64, is the address that send
-- gets. Under the conditions of main_loop-Healthy, and with timeout and stop_server still false,
-- the loop returns, and whatever signals are raised it has made just these calls, in order: it has
-- watched each new client, and has taken each client whose connection has ended or failed out of
-- the set of descriptor 0 and closed it; each batch up to a read that gives EAGAIN. It sets no
-- alarm and closes no idle client, and timeout and stop_server stay false.
pub main_loop-Called :
    (memory : ℕ → Option ℕ)
    → ((address : ℕ) → address < 4096 → memory address ≡ none)
    → (fuel now n : ℕ) (s : Server) (ws : List Waited) → Healthy now n s
    → most_of_run n ws < fuel
    → IsTimedRun now ws
    → IsRun fuel now s ws
    → AreRaised memory ws
    → s.timeout ≡ false
    → s.stop_server ≡ false
    → Returns (Called s (calls_of_run s.epollfd ws)) (main_loop fuel s ws)
main_loop-Called = main_loop-calls
