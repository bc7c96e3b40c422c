-- ===== src/Keepalive/Connections.antt =====
-- The connections and their timers: a new client, and data from a client.

use my_linux_demo.Base.{
  ℕ, ◌+◌, ◌*◌, ◌<◌, ◌≡◌, ◌≢◌, refl, sym, ◌∙◌, false, some, [], ◌∷◌, ◌++◌, ◌==◌, leb, arith, length,
  Returns, Returns-bind,
}
use my_linux_demo.Mem.{Ptr, null, node, update}
use my_linux_demo.Mem.Links.{first, last, has, Links-frame, Links-append, Links-split, first-append}
use my_linux_demo.Mem.Split.{SameOutside, Distinct-split, Distinct-append}
use my_linux_demo.TimerList.{Timer, TimeList, with_mem, add_timer, adjust_timer, del_timer}
use my_linux_demo.TimerList.Delete.{Deleted, del_timer-removes}
use my_linux_demo.TimerList.Insert.{add_timer-insert}
use my_linux_demo.TimerList.Adjust.{Adjusted, adjust_timer-insert}
use my_linux_demo.TimerList.Spec.{insert, Cells, IsList, IsSorted}
use my_linux_demo.TimerList.Context.{TailIs-append}
use my_linux_demo.TimerList.Order.{Until, insert-IsSorted, append-insert-IsSorted}
use my_linux_demo.Keepalive.{
  Server, add_fd, delete_fd, close_fd, cb_func, drop_client, timeslot, timer_for, set_user,
  set_expire, refresh, accept_client, fd_limit, global_epollfd,
}

-- A node that no timer of the list stands in survives in any heap that differs there only.
IsList-allocated :
    (l : TimeList) (a : Ptr) (t : Timer) (xs : Cells)
    → IsList l xs
    → has a xs ≡ false
    → IsList (with_mem l (update l.mem a (some (node t null null)))) xs
IsList-allocated l a t xs is out = record {
  links = Links-frame l.mem _ null null xs is.links λ p h. ground (arith, out);
  distinct = is.distinct;
  head_is = is.head_is;
  tail_is = is.tail_is;
}

-- The client is known, its timer is in the list in the order of the times, and its descriptor is
-- watched.
abbrev pub Connected : Server → (connfd timer cur : ℕ) → Cells → Server → Type 0
Connected s connfd timer cur xs s' =
    IsList s'.timer_list (insert (timer, timer_for connfd cur) xs)
    × IsSorted (insert (timer, timer_for connfd cur) xs)
    × (s'.user_timer ≡ set_user s.user_timer connfd timer)
    × (s'.user_sockfd ≡ set_user s.user_sockfd connfd connfd)
    × (s'.actions ≡ s.actions ++ add_fd s.epollfd connfd ∷ [])

-- With a sorted, well-linked list and more fuel than timers, a new client below FD_LIMIT gets a timer at an
-- address that the list does not use, which expires three time slots from now; it is inserted in
-- the order of the times and the list stays sorted, the entry of the client leads to the timer, no
-- other entry changes, and the descriptor is watched.
pub accept_client-Connected :
    (fuel : ℕ) (s : Server) (connfd timer cur : ℕ) (xs : Cells)
    → IsList s.timer_list xs
    → IsSorted xs
    → timer ≢ null
    → has timer xs ≡ false
    → length xs < fuel
    → connfd < fd_limit
    → Returns (Connected s connfd timer cur xs) (accept_client fuel s connfd timer cur)
unfolding accept_client
accept_client-Connected fuel s connfd timer cur xs is sorted ne out f small =
    let t = timer_for connfd cur in
    let m = update s.timer_list.mem timer (some (node t null null)) in
    let fits : leb fd_limit connfd ≡ false = ground (arith, small) in
    simp fits (
      Returns-bind (λ l. IsList l (insert (timer, t) xs) × SameOutside ((timer, t) ∷ xs) m l.mem)
        (Connected s connfd timer cur xs) (add_timer fuel (with_mem s.timer_list m) timer) _
        (add_timer-insert fuel (with_mem s.timer_list m) timer t xs
          (IsList-allocated s.timer_list timer t xs is out)
          (record { ne_null = ne; held = ground arith; outside = out }) f)
        λ l h. (h.0, insert-IsSorted (timer, t) xs sorted, refl, refl, refl))

abbrev pub renewed : Timer → ℕ → Timer
renewed t e = record t { expire = e }

-- Another payload in a node leaves the list linked.
IsList-renewed :
    (l : TimeList) (us : Cells) (a : Ptr) (t u : Timer) (bs : Cells)
    → IsList l (us ++ (a, t) ∷ bs)
    → IsList
        (with_mem l (update l.mem a (some (node u (last us null) (first bs null)))))
        (us ++ (a, u) ∷ bs)
IsList-renewed l us a t u bs is =
    let g = update l.mem a (some (node u (last us null) (first bs null))) in
    let (front, here) = Links-split l.mem null null us ((a, t) ∷ bs) is.links in
    let (d, e, out) = Distinct-split us ((a, t) ∷ bs) is.distinct in
    record {
      links =
          Links-append g null null us ((a, u) ∷ bs)
            (Links-frame l.mem g null a us front λ p i. ground (arith, out p i))
            (here.0, ground arith, Links-frame l.mem g a null bs here.2 λ p i. ground (arith, e.0));
      distinct = Distinct-append us ((a, u) ∷ bs) d e out;
      head_is =
          is.head_is
          ∙ first-append null us ((a, t) ∷ bs)
          ∙ sym (first-append null us ((a, u) ∷ bs));
      tail_is = (TailIs-append l.tail us a u bs).1 ((TailIs-append l.tail us a t bs).0 is.tail_is);
    }

set_expire-renewed :
    (l : TimeList) (us : Cells) (a : Ptr) (t : Timer) (bs : Cells) (e : ℕ)
    → IsList l (us ++ (a, t) ∷ bs)
    → set_expire l.mem a e
      ≡ some (update l.mem a (some (node (renewed t e) (last us null) (first bs null))))
unfolding set_expire
set_expire-renewed l us a t bs e is =
    let (_, here) = Links-split l.mem null null us ((a, t) ∷ bs) is.links in
    let na : (a == null) ≡ false = ground (arith, here.0) in rw (na, here.1) refl

-- The timer of the client expires three time slots from `cur`; nothing else has changed.
abbrev pub Renewed : Server → (cur : ℕ) → Cells → Ptr × Timer → Cells → Server → Type 0
Renewed s cur us c bs s' =
    IsList s'.timer_list (us ++ insert (c.0, renewed c.1 (cur + 3 * timeslot)) bs)
    × IsSorted (us ++ insert (c.0, renewed c.1 (cur + 3 * timeslot)) bs)
    × (s'.user_timer ≡ s.user_timer)
    × (s'.user_sockfd ≡ s.user_sockfd)
    × (s'.actions ≡ s.actions)

-- Data from a client with a timer in the well-linked list, with more fuel than timers behind it,
-- sets the timer to three time slots from now and moves it behind the timers that do not expire
-- later; the list is sorted then, if the others were sorted and no timer in front expires later
-- than that. No other timer and no entry of a client changes, and no system call is made.
pub refresh-Renewed :
    (fuel : ℕ) (s : Server) (sockfd cur : ℕ) (us : Cells) (a : Ptr) (t : Timer) (bs : Cells)
    → IsList s.timer_list (us ++ (a, t) ∷ bs)
    → s.user_timer sockfd ≡ a
    → IsSorted (us ++ bs)
    → Until (cur + 3 * timeslot) us
    → length bs < fuel
    → Returns (Renewed s cur us (a, t) bs) (refresh fuel s sockfd cur)
unfolding refresh
refresh-Renewed fuel s sockfd cur us a t bs is at sorted late f =
    let u = renewed t (cur + 3 * timeslot) in
    let (_, here) = Links-split s.timer_list.mem null null us ((a, t) ∷ bs) is.links in
    let na : (a == null) ≡ false = ground (arith, here.0) in
    let g = update s.timer_list.mem a (some (node u (last us null) (first bs null))) in
    simp (at, na, set_expire-renewed s.timer_list us a t bs (cur + 3 * timeslot) is)
      (Returns-bind (Adjusted (with_mem s.timer_list g) us (a, u) bs) (Renewed s cur us (a, t) bs)
        (adjust_timer fuel (with_mem s.timer_list g) a) _
        (adjust_timer-insert fuel (with_mem s.timer_list g) us a u bs
          (IsList-renewed s.timer_list us a t u bs is) f)
        λ l h. (h.0, append-insert-IsSorted us (a, u) bs sorted late, refl, refl, refl))

-- The client's descriptor is closed and its timer is out of the list; the others are as they were.
abbrev pub Dropped : Server → (sockfd : ℕ) → Cells → Cells → Server → Type 0
Dropped s sockfd us bs s' =
    IsList s'.timer_list (us ++ bs)
    × (s'.user_timer ≡ s.user_timer)
    × (s'.user_sockfd ≡ s.user_sockfd)
    × (s'.actions
        ≡ s.actions
          ++ delete_fd global_epollfd (s.user_sockfd sockfd) ∷ close_fd (s.user_sockfd sockfd) ∷ [])

-- At the end of a connection, or after an error, the server closes the descriptor and takes the
-- timer of the client out of the well-linked list, wherever it stands there; the other timers are
-- as they were.
pub drop_client-Dropped :
    (s : Server) (sockfd : ℕ) (us : Cells) (a : Ptr) (t : Timer) (bs : Cells)
    → IsList s.timer_list (us ++ (a, t) ∷ bs)
    → s.user_timer sockfd ≡ a
    → Returns (Dropped s sockfd us bs) (drop_client s sockfd)
unfolding drop_client cb_func
drop_client-Dropped s sockfd us a t bs is at =
    let (_, here) = Links-split s.timer_list.mem null null us ((a, t) ∷ bs) is.links in
    let na : (a == null) ≡ false = ground (arith, here.0) in
    simp (at, na)
      (Returns-bind (Deleted s.timer_list us (a, t) bs) (Dropped s sockfd us bs)
        (del_timer s.timer_list a) _ (del_timer-removes s.timer_list us a t bs is)
        λ l h. (h.0, refl, refl, refl))
