-- ===== src/SignalServer/Stopping.antt =====
-- When the server ends.
use mathlib.Core.List.{append_assoc, append-nil}
use my_linux_demo.Base.{
  ℕ, ◌≡◌, refl, sym, ap, ◌∙◌, Bool, true, false, ◌||◌, none, some, List, [], ◌∷◌, ◌++◌, ◌==◌, map,
  All, arith,
}
use my_linux_demo.SignalServer.{
  sigint, sigterm, SignalEvent, arrived, signalled, no_signal, other, Waited, failed, interrupted,
  batch, SignalAction, watch, Fds, on_signal, on_signals, on_event, on_batch, closing, main_loop,
}

abbrev pub member : ℕ → List ℕ → Bool
member x [] = false
member x (y ∷ ys) = (y == x) || member x ys

-- The signals of a batch, and its new clients.
unfoldable pub signals_of : List SignalEvent → List ℕ
signals_of [] = []
signals_of (signalled sigs ∷ es) = sigs ++ signals_of es
signals_of (e ∷ es) = signals_of es

unfoldable pub clients_of : List SignalEvent → List ℕ
clients_of [] = []
clients_of (arrived connfd ∷ es) = connfd ∷ clients_of es
clients_of (e ∷ es) = clients_of es

-- Whether a result of `epoll_wait` ends the server: an error, or a SIGTERM or SIGINT in the batch.
abbrev pub stops : Waited → Bool
stops failed = true
stops interrupted = false
stops (batch es) = member sigterm (signals_of es) || member sigint (signals_of es)

unfoldable pub all_clients : List Waited → List ℕ
all_clients [] = []
all_clients (batch es ∷ ws) = clients_of es ++ all_clients ws
all_clients (w ∷ ws) = all_clients ws

member-append : (x : ℕ) (ys zs : List ℕ) → member x (ys ++ zs) ≡ (member x ys || member x zs)
member-append x [] zs = refl
member-append x (y ∷ ys) zs = ground (arith, member-append x ys zs)

on_signals-member :
    (stop : Bool) (sigs : List ℕ)
    → on_signals stop sigs ≡ (stop || (member sigterm sigs || member sigint sigs))
unfolding on_signals on_signal
on_signals-member stop [] = ground arith
on_signals-member stop (sig ∷ sigs) = ground (arith, on_signals-member (on_signal stop sig) sigs)

on_batch-signals :
    (stop : Bool) (es : List SignalEvent) → (on_batch stop es).0 ≡ (stop || stops (batch es))
unfolding on_batch on_event signals_of
on_batch-signals stop [] = ground arith
on_batch-signals stop (arrived c ∷ es) = on_batch-signals stop es
on_batch-signals stop (no_signal ∷ es) = on_batch-signals stop es
on_batch-signals stop (other ∷ es) = on_batch-signals stop es
on_batch-signals stop (signalled sigs ∷ es) = ground (
  arith,
  on_batch-signals (on_signals stop sigs) es,
  on_signals-member stop sigs,
  member-append sigterm sigs (signals_of es),
  member-append sigint sigs (signals_of es),
)

on_batch-clients :
    (stop : Bool) (es : List SignalEvent) → (on_batch stop es).1 ≡ map watch (clients_of es)
unfolding on_batch on_event clients_of
on_batch-clients stop [] = refl
on_batch-clients stop (arrived c ∷ es) =
    ap (λ (out : List SignalAction). watch c ∷ out) (on_batch-clients stop es)
on_batch-clients stop (no_signal ∷ es) = on_batch-clients stop es
on_batch-clients stop (other ∷ es) = on_batch-clients stop es
on_batch-clients stop (signalled sigs ∷ es) = on_batch-clients (on_signals stop sigs) es

map-append : (xs ys : List ℕ) → map watch (xs ++ ys) ≡ map watch xs ++ map watch ys
map-append [] ys = refl
map-append (x ∷ xs) ys = ap (λ (out : List SignalAction). watch x ∷ out) (map-append xs ys)

on_stop :
    (fds : Fds) (w : Waited) (after : List Waited)
    → stops w ≡ true
    → main_loop fds false (w ∷ after) ≡ some (map watch (all_clients (w ∷ [])) ++ closing fds)
unfolding main_loop all_clients
on_stop fds failed after h = refl
on_stop fds interrupted after h = absurd cc
on_stop fds (batch es) after h =
    let e : (on_batch false es).0 ≡ true = on_batch-signals false es ∙ h in
    rw (e, on_batch-clients false es, append-nil (clients_of es)) refl

-- The server serves all batches up to and including the first one with a SIGTERM or SIGINT among
-- its signals, or up to the first error of epoll_wait other than EINTR, watches every client that
-- arrives in them, in order, then closes listenfd and both ends of the pipe, and does nothing with
-- what would come after.
pub main_loop-stops :
    (fds : Fds) (before after : List Waited) (w : Waited)
    → All (λ v. stops v ≡ false) before
    → stops w ≡ true
    → main_loop fds false (before ++ w ∷ after)
      ≡ some (map watch (all_clients (before ++ w ∷ [])) ++ closing fds)
unfolding main_loop all_clients
main_loop-stops fds [] after w q h = on_stop fds w after h
main_loop-stops fds (failed ∷ before) after w q h = absurd cc
main_loop-stops fds (interrupted ∷ before) after w q h = main_loop-stops fds before after w q.1 h
main_loop-stops fds (batch es ∷ before) after w q h =
    let e : (on_batch false es).0 ≡ false = on_batch-signals false es ∙ q.0 in
    rw
      (
        e,
        on_batch-clients false es,
        main_loop-stops fds before after w q.1 h,
        map-append (clients_of es) (all_clients (before ++ w ∷ [])),
      )
      (ap some (
        sym (
          append_assoc (map watch (clients_of es)) (map watch (all_clients (before ++ w ∷ [])))
            (closing fds))))

-- As long as nothing ends it, the server waits.
pub main_loop-waits :
    (fds : Fds) (ws : List Waited) → All (λ v. stops v ≡ false) ws → main_loop fds false ws ≡ none
unfolding main_loop
main_loop-waits fds [] q = refl
main_loop-waits fds (failed ∷ ws) q = absurd cc
main_loop-waits fds (interrupted ∷ ws) q = main_loop-waits fds ws q.1
main_loop-waits fds (batch es ∷ ws) q =
    let e : (on_batch false es).0 ≡ false = on_batch-signals false es ∙ q.0 in
    rw (e, main_loop-waits fds ws q.1) refl
