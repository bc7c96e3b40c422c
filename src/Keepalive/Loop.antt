-- ===== src/Keepalive/Loop.antt =====
-- The invariant over whole batches, and over the loop of `main`.
use mathlib.Core.Path.{subst}
use my_linux_demo.Base.{
  ℕ, ◌+◌, ◌*◌, ◌<◌, ◌≤◌, ◌≡◌, refl, sym, ap, ◌∙◌, Bool, true, false, Option, none, some, List, [],
  ◌∷◌, ◌>>=◌, if◌then◌else◌, arith, length, Returns, Returns-then,
}
use my_linux_demo.Mem.{Ptr, Mem, null, node}
use my_linux_demo.Mem.Links.{Links, first}
use my_linux_demo.TimerList.{Timer, TimeList}
use my_linux_demo.TimerList.Spec.{Cells, IsList}
use my_linux_demo.Keepalive.{
  Server, timeslot, Event, connect, signalled, readable, other, on_event, on_batch, on_timeout,
  Waited, epoll_fail, batch, main_loop,
}
use my_linux_demo.Keepalive.Invariant.{IsPossible, Healthy, clock, timers_after, Until-le}
use my_linux_demo.Keepalive.Steps.{on_event-Healthy, on_timeout-Healthy}

-- A heap and a first node determine the list.
Links-same :
    (m : Mem Timer) (before : Ptr) (xs ys : Cells)
    → Links m before xs null
    → Links m before ys null
    → first xs null ≡ first ys null
    → xs ≡ ys
Links-same m before [] [] k l e = refl
Links-same m before [] ((b, y) ∷ ys) k l e = absurd (l.0 (sym e))
Links-same m before ((a, x) ∷ xs) [] k l e = absurd (k.0 e)
Links-same m before ((a, x) ∷ xs) ((b, y) ∷ ys) k l e =
    let here : m a ≡ some (node y before (first ys null)) = ap m e ∙ l.1 in
    let same : some (node x before (first xs null)) ≡ some (node y before (first ys null)) =
      sym k.1 ∙ here in
    let rest : xs ≡ ys =
      Links-same m a xs ys k.2 (subst (λ (p : Ptr). Links m p ys null) (sym e) l.2)
        (ground (arith, same)) in
    let payload : x ≡ y = ground (arith, same) in cc

pub IsList-same : (l : TimeList) (xs ys : Cells) → IsList l xs → IsList l ys → xs ≡ ys
IsList-same l xs ys f g = Links-same l.mem null xs ys f.links g.links (sym f.head_is ∙ g.head_is)

-- `P` holds of the server with which the loop over a batch goes on, if it does.
abbrev pub GoesOn : (Server → Type 0) → Option (Server × Bool) → Type 0
GoesOn P none = Unit
GoesOn P (some (s, goes_on)) = if goes_on then P s else Unit

-- The events of a batch can occur, each with the timers that are in the list when it is its turn.
abbrev pub IsBatch : (fuel now : ℕ) → Server → List Event → Type 0
IsBatch fuel now s [] = Unit
IsBatch fuel now s (e ∷ es) =
    ((xs : Cells) × IsList s.timer_list xs × IsPossible now xs e)
    × GoesOn (λ s'. IsBatch fuel (clock now e) s' es) (on_event fuel s e)

-- Time does not go back from `now` over a batch to `cur`.
abbrev pub IsTimed : (now : ℕ) → List Event → (cur : ℕ) → Type 0
IsTimed now [] cur = now ≤ cur
IsTimed now (e ∷ es) cur = (now ≤ clock now e) × IsTimed (clock now e) es cur

-- The most timers there can be after a batch.
abbrev pub most : ℕ → List Event → ℕ
most n [] = n
most n (e ∷ es) = most (timers_after n e) es

pub timers_after-le :
    (m n : ℕ) (e : Event) → m ≤ n → (m ≤ timers_after n e) × (timers_after m e ≤ timers_after n e)
timers_after-le m n (connect fd a cur) l = (omega (arith, l), omega (arith, l))
timers_after-le m n (signalled sigs) l = (l, l)
timers_after-le m n (readable fd r cur) l = (l, l)
timers_after-le m n other l = (l, l)

pub most-le : (m n : ℕ) (es : List Event) → m ≤ n → m ≤ most n es
most-le m n [] l = l
most-le m n (e ∷ es) l = most-le m (timers_after n e) es (timers_after-le m n e l).0

timed-le : (now cur : ℕ) (es : List Event) → IsTimed now es cur → now ≤ cur
timed-le now cur [] t = t
timed-le now cur (e ∷ es) t = omega (arith, t.0, timed-le (clock now e) cur es t.1)

pub Healthy-le :
    (now later m n : ℕ) (s : Server) → now ≤ later → m ≤ n → Healthy now m s → Healthy later n s
Healthy-le now later m n s l k (xs, h, f) = (
  xs,
  record {
    listed = h.listed;
    sorted = h.sorted;
    near = Until-le (now + 3 * timeslot) (later + 3 * timeslot) xs (omega (arith, l)) h.near;
    owned = h.owned;
  },
  omega (arith, f, k),
)

-- The rest of a batch behind an event.
pub rest-Returns :
    (Before : Server × Bool → Type 0) (IsNext After : Server → Type 0) (o : Option (Server × Bool))
    (rest : Server → Option Server)
    → Returns Before o
    → GoesOn IsNext o
    → ((s : Server) → Before (s, true) → IsNext s → Returns After (rest s))
    → ((s : Server) → Before (s, false) → After s)
    → Returns After (o >>= λ r. if r.1 then rest r.0 else some r.0)
rest-Returns Before IsNext After none rest h g on out = absurd h
rest-Returns Before IsNext After (some (s, true)) rest h g on out = on s h g
rest-Returns Before IsNext After (some (s, false)) rest h g on out = out s h

pub on_batch-Healthy :
    (fuel now cur n : ℕ) (s : Server) (es : List Event)
    → Healthy now n s
    → most n es < fuel
    → IsTimed now es cur
    → IsBatch fuel now s es
    → Returns (Healthy cur (most n es)) (on_batch fuel s es)
unfolding on_batch
on_batch-Healthy fuel now cur n s [] h f t b = Healthy-le now cur n n s t (omega arith) h
on_batch-Healthy fuel now cur n s (e ∷ es) (xs, h, l) f t ((ys, listed, p), next) =
    let (_, grows) = timers_after-le (length xs) n e l in
    let (room, _) = timers_after-le (length xs) (length xs) e (omega arith) in
    let fits = most-le (timers_after n e) (timers_after n e) es (omega arith) in
    let possible =
      subst (λ (zs : Cells). IsPossible now zs e) (IsList-same s.timer_list ys xs listed h.listed)
        p in
    rest-Returns (λ r. Healthy (clock now e) (timers_after (length xs) e) r.0)
      (λ s'. IsBatch fuel (clock now e) s' es) (Healthy cur (most (timers_after n e) es))
      (on_event fuel s e) (λ s'. on_batch fuel s' es)
      (on_event-Healthy fuel now s xs e h (omega (arith, room, grows, fits, f)) possible) next
      (λ s' k b.
        on_batch-Healthy fuel (clock now e) cur (timers_after n e) s' es
          (Healthy-le (clock now e) (clock now e) (timers_after (length xs) e) (timers_after n e) s'
            (omega arith) grows k)
          f t.1 b)
      λ s' k.
        Healthy-le (clock now e) cur (timers_after (length xs) e) (most (timers_after n e) es) s'
          (timed-le (clock now e) cur es t.1) (omega (arith, grows, fits)) k

-- The same over the loop of `main`: the batches that it gets to, the times, and the timers.
abbrev pub Goes : (Server → Type 0) → Option Server → Type 0
Goes P none = Unit
Goes P (some s) = P s

abbrev pub IsRun : (fuel now : ℕ) → Server → List Waited → Type 0
IsRun fuel now s [] = Unit
IsRun fuel now s (epoll_fail ∷ ws) = Unit
IsRun fuel now s (batch es cur ∷ ws) =
    if s.stop_server
    then Unit
    else IsBatch fuel now s es
      × Goes (λ s'. Goes (λ s''. IsRun fuel cur s'' ws) (on_timeout fuel cur s'))
          (on_batch fuel s es)

abbrev pub IsTimedRun : (now : ℕ) → List Waited → Type 0
IsTimedRun now [] = Unit
IsTimedRun now (epoll_fail ∷ ws) = IsTimedRun now ws
IsTimedRun now (batch es cur ∷ ws) = IsTimed now es cur × IsTimedRun cur ws

abbrev pub last_time : ℕ → List Waited → ℕ
last_time now [] = now
last_time now (epoll_fail ∷ ws) = last_time now ws
last_time now (batch es cur ∷ ws) = last_time cur ws

abbrev pub most_of_run : ℕ → List Waited → ℕ
most_of_run n [] = n
most_of_run n (epoll_fail ∷ ws) = most_of_run n ws
most_of_run n (batch es cur ∷ ws) = most_of_run (most n es) ws

last_time-le : (now : ℕ) (ws : List Waited) → IsTimedRun now ws → now ≤ last_time now ws
last_time-le now [] t = omega arith
last_time-le now (epoll_fail ∷ ws) t = last_time-le now ws t
last_time-le now (batch es cur ∷ ws) t =
    omega (arith, timed-le now cur es t.0, last_time-le cur ws t.1)

pub most_of_run-le : (n : ℕ) (ws : List Waited) → n ≤ most_of_run n ws
most_of_run-le n [] = omega arith
most_of_run-le n (epoll_fail ∷ ws) = most_of_run-le n ws
most_of_run-le n (batch es cur ∷ ws) =
    omega (arith, most-le n n es (omega arith), most_of_run-le (most n es) ws)

pub then-Returns :
    (P IsNext Q : Server → Type 0) (o : Option Server) (rest : Server → Option Server)
    → Returns P o
    → Goes IsNext o
    → ((s : Server) → P s → IsNext s → Returns Q (rest s))
    → Returns Q (o >>= rest)
then-Returns P IsNext Q none rest h g on = absurd h
then-Returns P IsNext Q (some s) rest h g on = on s h g

pub stop-Returns :
    (Q : Server → Type 0) (R : Type 0) (stop : Bool) (s : Server) (run : Option Server)
    → (if stop then Unit else R)
    → (stop ≡ true → Q s)
    → (R → Returns Q run)
    → Returns Q (if stop then some s else run)
stop-Returns Q R true s run r h on = h refl
stop-Returns Q R false s run r h on = on r

-- From a healthy server on (well-linked timers in the order of their times, at most three time
-- slots ahead, each the timer of the client that it names, whose entry lies within users), the
-- loop of main returns over any batches and leaves the server healthy, with at most as many timers
-- as it had, and one for every new client in the batches; where every event that the loop gets to
-- can occur when it is its turn (a new client has an unused descriptor below FD_LIMIT and an
-- unused timer address, data comes on a descriptor of a client), time does not go back, and there
-- is more fuel than that many timers.
pub main_loop-Healthy :
    (fuel now n : ℕ) (s : Server) (ws : List Waited)
    → Healthy now n s
    → most_of_run n ws < fuel
    → IsTimedRun now ws
    → IsRun fuel now s ws
    → Returns (Healthy (last_time now ws) (most_of_run n ws)) (main_loop fuel s ws)
unfolding main_loop
main_loop-Healthy fuel now n s [] h f t r = h
main_loop-Healthy fuel now n s (epoll_fail ∷ ws) h f t r =
    Healthy-le now (last_time now ws) n (most_of_run n ws) s (last_time-le now ws t)
      (most_of_run-le n ws) h
main_loop-Healthy fuel now n s (batch es cur ∷ ws) h f t r =
    stop-Returns (Healthy (last_time cur ws) (most_of_run (most n es) ws)) _ s.stop_server s _ r
      (λ _.
        Healthy-le now (last_time cur ws) n (most_of_run (most n es) ws) s
          (last_time-le now (batch es cur ∷ ws) t) (most_of_run-le n (batch es cur ∷ ws)) h)
      λ (b, next).
        then-Returns (Healthy cur (most n es)) _ _ (on_batch fuel s es) _
          (on_batch-Healthy fuel now cur n s es h (omega (arith, f, most_of_run-le (most n es) ws))
            t.0 b)
          next
          λ s' (xs, k, l) next'.
            then-Returns (Healthy cur (most n es)) _ _ (on_timeout fuel cur s') _
              (Returns-then (Healthy cur (length xs)) (Healthy cur (most n es))
                (on_timeout fuel cur s')
                (on_timeout-Healthy fuel cur cur s' xs k
                  (omega (arith, f, l, most_of_run-le (most n es) ws)))
                λ u m. Healthy-le cur cur (length xs) (most n es) u (omega arith) l m)
              next' λ s'' m b'. main_loop-Healthy fuel cur (most n es) s'' ws m f t.1 b'
