-- ===== src/Keepalive/Steps.antt =====
-- Every step of the server's loop keeps the invariant.
use mathlib.Core.Path.{subst}
use my_linux_demo.Base.{
  All-split, All-append, ℕ, suc, ◌+◌, ◌*◌, ◌<◌, ◌≤◌, ◌≡◌, sym, ap, ◌∙◌, Bool, some, List, ◌∷◌, ◌++◌,
  leb, false, arith, length, length-append, All, Returns, Returns-then, Returns-bind, Bool-cases,
  inl, inr,
}
use my_linux_demo.Mem.{Ptr}
use my_linux_demo.TimerList.{Timer}
use my_linux_demo.TimerList.Spec.{Cells, IsList, IsSorted, insert}
use my_linux_demo.TimerList.Order.{Until, waiting}
use my_linux_demo.Keepalive.{
  Server, timeslot, fd_limit, timer_for, set_user, accept_client, refresh, drop_client, on_read,
  on_event, on_timeout, on_signals, Event, connect, signalled, readable, other, Read, again, failed,
  ended, arrived,
}
use my_linux_demo.Keepalive.Signals.{on_signals-flagged}
use my_linux_demo.Keepalive.Connections.{
  Connected, accept_client-Connected, renewed, Renewed, refresh-Renewed, Dropped,
  drop_client-Dropped,
}
use my_linux_demo.Keepalive.Expiry.{Closed, on_timeout-Closed}
use my_linux_demo.Keepalive.Invariant.{
  IsOwned, IsHealthy, IsClient, IsPossible, Healthy, timers_after, length-insert, length-waiting,
  clock, Until-le, All-insert, All-waiting, without-IsSorted, waiting-IsSorted, others-IsOwned,
}

module _ (fuel now : ℕ) (s : Server) (xs : Cells) (h : IsHealthy now xs s)
    (f : length xs < fuel) where
  accept_client-Healthy :
      (fd a cur : ℕ)
      → IsPossible now xs (connect fd a cur)
      → Returns (Healthy cur (suc (length xs))) (accept_client fuel s fd a cur)
  accept_client-Healthy fd a cur (l, ne, out, new, small) =
      Returns-then (Connected s fd a cur xs) (Healthy cur (suc (length xs)))
        (accept_client fuel s fd a cur)
        (accept_client-Connected fuel s fd a cur xs h.listed h.sorted ne out f small)
        λ s' r. (
          insert (a, timer_for fd cur) xs,
          record {
            listed = r.0;
            sorted = r.1;
            near =
                All-insert (λ y. y.1.expire ≤ cur + 3 * timeslot) (a, timer_for fd cur) xs
                  (omega arith)
                  (Until-le (now + 3 * timeslot) (cur + 3 * timeslot) xs (omega arith) h.near);
            owned =
                rw (r.2, r.3)
                  (All-insert (IsOwned (set_user s.user_timer fd a) (set_user s.user_sockfd fd fd))
                    (a, timer_for fd cur) xs (ground arith, ground arith, small)
                    (others-IsOwned s.user_timer s.user_sockfd fd a xs new h.owned));
          },
          omega (arith, length-insert (a, timer_for fd cur) xs),
        )

  -- The event concerns the timer `t` of the client `fd`, at the address `a`.
  module _ (fd cur : ℕ) (l : now ≤ cur) (us : Cells) (a : Ptr) (t : Timer) (bs : Cells)
      (here : xs ≡ us ++ (a, t) ∷ bs) (user : t.user_data ≡ fd) where
    near_here : Until (cur + 3 * timeslot) (us ++ (a, t) ∷ bs)
    near_here =
        subst (λ ys. Until (cur + 3 * timeslot) ys) here
          (Until-le (now + 3 * timeslot) (cur + 3 * timeslot) xs (omega arith) h.near)

    here-IsOwned : All (IsOwned s.user_timer s.user_sockfd) (us ++ (a, t) ∷ bs)
    here-IsOwned = subst (λ ys. All (IsOwned s.user_timer s.user_sockfd) ys) here h.owned

    listed_here : IsList s.timer_list (us ++ (a, t) ∷ bs)
    listed_here = subst (λ ys. IsList s.timer_list ys) here h.listed

    here-IsSorted : IsSorted (us ++ bs)
    here-IsSorted = without-IsSorted us (a, t) bs (subst (λ ys. IsSorted ys) here h.sorted)

    length_here : length xs ≡ length us + suc (length bs)
    length_here = ap (λ (ys : Cells). length ys) here ∙ length-append us ((a, t) ∷ bs)

    timer_here : s.user_timer fd ≡ a
    timer_here =
        ap s.user_timer (sym user)
        ∙ (All-split (IsOwned s.user_timer s.user_sockfd) us ((a, t) ∷ bs) here-IsOwned).1.0.0

    drop_client-Healthy : Returns (Healthy cur (length xs)) (drop_client s fd)
    drop_client-Healthy =
        Returns-then (Dropped s fd us bs) (Healthy cur (length xs)) (drop_client s fd)
          (drop_client-Dropped s fd us a t bs listed_here timer_here)
          λ s' r.
            let (n, m) =
              All-split (λ y. y.1.expire ≤ cur + 3 * timeslot) us ((a, t) ∷ bs) near_here in
            let (o, q) =
              All-split (IsOwned s.user_timer s.user_sockfd) us ((a, t) ∷ bs) here-IsOwned in
            (
              us ++ bs,
              record {
                listed = r.0;
                sorted = here-IsSorted;
                near = All-append (λ y. y.1.expire ≤ cur + 3 * timeslot) us bs n m.1;
                owned = rw (r.1, r.2) (All-append (IsOwned s.user_timer s.user_sockfd) us bs o q.1);
              },
              omega (arith, length_here, length-append us bs),
            )

    refresh-Healthy : Returns (Healthy cur (length xs)) (refresh fuel s fd cur)
    refresh-Healthy =
        let u = renewed t (cur + 3 * timeslot) in
        let (n, m) = All-split (λ y. y.1.expire ≤ cur + 3 * timeslot) us ((a, t) ∷ bs) near_here in
        let (o, q) = All-split (IsOwned s.user_timer s.user_sockfd) us ((a, t) ∷ bs) here-IsOwned in
        Returns-then (Renewed s cur us (a, t) bs) (Healthy cur (length xs)) (refresh fuel s fd cur)
          (refresh-Renewed fuel s fd cur us a t bs listed_here timer_here here-IsSorted n
            (omega (arith, f, length_here)))
          λ s' r. (
            us ++ insert (a, u) bs,
            record {
              listed = r.0;
              sorted = r.1;
              near =
                  All-append (λ y. y.1.expire ≤ cur + 3 * timeslot) us (insert (a, u) bs) n
                    (All-insert (λ y. y.1.expire ≤ cur + 3 * timeslot) (a, u) bs (omega arith) m.1);
              owned =
                  rw (r.2, r.3)
                    (All-append (IsOwned s.user_timer s.user_sockfd) us (insert (a, u) bs) o
                      (All-insert (IsOwned s.user_timer s.user_sockfd) (a, u) bs q.0 q.1));
            },
            omega
                (arith, length_here, length-append us (insert (a, u) bs), length-insert (a, u) bs),
          )

signals-Healthy :
    (now n : ℕ) (s : Server) (sigs : List ℕ) → Healthy now n s → Healthy now n (on_signals s sigs)
signals-Healthy now n s sigs (xs, h, l) =
    rw (on_signals-flagged s sigs)
      (xs, record { listed = h.listed; sorted = h.sorted; near = h.near; owned = h.owned }, l)

-- A step of one event keeps the server healthy.
abbrev pub Kept : (now n : ℕ) → Server × Bool → Type 0
Kept now n (s, goes_on) = Healthy now n s

on_read-Healthy :
    (fuel now : ℕ) (s : Server) (xs : Cells) (fd : ℕ) (r : Read) (cur : ℕ)
    → IsHealthy now xs s
    → length xs < fuel
    → IsPossible now xs (readable fd r cur)
    → Returns (Kept cur (length xs)) (on_read fuel s fd r cur)
unfolding on_read
on_read-Healthy fuel now s xs fd again cur h f (l, c) = (
  xs,
  record {
    listed = h.listed;
    sorted = h.sorted;
    near = Until-le (now + 3 * timeslot) (cur + 3 * timeslot) xs (omega arith) h.near;
    owned = h.owned;
  },
  omega arith,
)
on_read-Healthy fuel now s xs fd failed cur h f (l, c) =
    Returns-bind (Healthy cur (length xs)) (Kept cur (length xs)) (drop_client s fd) _
      (drop_client-Healthy fuel now s xs h f fd cur l c.front c.address c.timer c.rear c.here
        c.is_user)
      λ s' r. r
on_read-Healthy fuel now s xs fd ended cur h f (l, c) =
    Returns-bind (Healthy cur (length xs)) (Kept cur (length xs)) (drop_client s fd) _
      (drop_client-Healthy fuel now s xs h f fd cur l c.front c.address c.timer c.rear c.here
        c.is_user)
      λ s' r. r
on_read-Healthy fuel now s xs fd arrived cur h f (l, c) =
    Returns-bind (Healthy cur (length xs)) (Kept cur (length xs)) (refresh fuel s fd cur) _
      (refresh-Healthy fuel now s xs h f fd cur l c.front c.address c.timer c.rear c.here c.is_user)
      λ s' r. r

-- A client has an entry in `users`.
pub client_known :
    (now : ℕ) (s : Server) (xs : Cells) (fd : ℕ)
    → IsHealthy now xs s
    → IsClient fd xs
    → leb fd_limit fd ≡ false
client_known now s xs fd h c =
    let (f, g) =
      All-split (IsOwned s.user_timer s.user_sockfd) c.front ((c.address, c.timer) ∷ c.rear)
        (subst (λ ys. All (IsOwned s.user_timer s.user_sockfd) ys) c.here h.owned) in
    ground (arith, g.0.2, c.is_user)

-- One event keeps the server healthy: well-linked timers in the order of their times, at most
-- three time slots ahead, each the timer of the client that it names. It holds for every kind of
-- event that can occur: a new client with an unused descriptor and timer address, a read on a
-- descriptor of a client, signals; where time does not go back and with more fuel than timers. Only
-- a new client adds a timer.
pub on_event-Healthy :
    (fuel now : ℕ) (s : Server) (xs : Cells) (e : Event)
    → IsHealthy now xs s
    → length xs < fuel
    → IsPossible now xs e
    → Returns (Kept (clock now e) (timers_after (length xs) e)) (on_event fuel s e)
unfolding on_event
on_event-Healthy fuel now s xs (connect fd a cur) h f p =
    Returns-bind (Healthy cur (suc (length xs))) (Kept cur (suc (length xs)))
      (accept_client fuel s fd a cur) _ (accept_client-Healthy fuel now s xs h f fd a cur p)
      λ s' r. r
on_event-Healthy fuel now s xs (signalled sigs) h f p =
    signals-Healthy now (length xs) s sigs (xs, h, omega arith)
on_event-Healthy fuel now s xs (readable fd r cur) h f p =
    simp (client_known now s xs fd h p.1) (on_read-Healthy fuel now s xs fd r cur h f p)
on_event-Healthy fuel now s xs other h f p = (xs, h, omega arith)

-- With more fuel than timers, what the server does behind a batch of events keeps it healthy,
-- whether the alarm has gone off or not, and adds no timer.
pub on_timeout-Healthy :
    (fuel now cur : ℕ) (s : Server) (xs : Cells)
    → IsHealthy now xs s
    → length xs < fuel
    → Returns (Healthy now (length xs)) (on_timeout fuel cur s)
on_timeout-Healthy fuel now cur s xs h f = elim (Bool-cases s.timeout) [
  | inl due ↦
      Returns-then (Closed cur s xs) (Healthy now (length xs)) (on_timeout fuel cur s)
        (on_timeout-Closed fuel cur s xs h.listed h.sorted f due)
        λ s' r. (
          waiting cur xs,
          record {
            listed = r.0;
            sorted = waiting-IsSorted cur xs h.sorted;
            near = All-waiting (λ y. y.1.expire ≤ now + 3 * timeslot) cur xs h.near;
            owned = rw (r.5, r.6) (All-waiting (IsOwned s.user_timer s.user_sockfd) cur xs h.owned);
          },
          length-waiting cur xs,
        )
  | inr idle ↦
      let same : on_timeout fuel cur s ≡ some s = unfold on_timeout in simp idle in
      rw same (xs, h, omega arith)
]
