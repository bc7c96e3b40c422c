-- ===== src/Keepalive/Serving.antt =====
-- What the server asks of the system in an event that brings no signal.
use mathlib.Core.List.{append-nil}
use my_linux_demo.Base.{
  ℕ, ◌+◌, ◌*◌, ◌≡◌, refl, sym, inl, inr, Bool, true, false, not, List, [], ◌∷◌, ◌++◌, ◌==◌, leb,
  IfReturns, IfReturns-any, IfReturns-bind, Bool-cases,
}
use my_linux_demo.Mem.{null}
use my_linux_demo.TimerList.{with_mem, add_timer, del_timer, adjust_timer}
use my_linux_demo.Keepalive.{
  Server, Action, add_fd, delete_fd, close_fd, fd_limit, global_epollfd, timeslot, accept_client,
  refresh, drop_client, set_expire, cb_func, on_read, on_event, on_signals, Event, connect,
  signalled, readable, other, Read, again, failed, ended, arrived,
}

abbrev pub calls_of_read : (sockfd : ℕ) → Read → List Action
calls_of_read sockfd again = []
calls_of_read sockfd failed = delete_fd global_epollfd sockfd ∷ close_fd sockfd ∷ []
calls_of_read sockfd ended = delete_fd global_epollfd sockfd ∷ close_fd sockfd ∷ []
calls_of_read sockfd arrived = []

abbrev pub calls_of : (epollfd : ℕ) → Event → List Action
calls_of epollfd (connect connfd timer cur) = add_fd epollfd connfd ∷ []
calls_of epollfd (signalled sigs) = []
calls_of epollfd (readable sockfd r cur) = calls_of_read sockfd r
calls_of epollfd other = []

-- The loop over the batch ends at the event.
abbrev pub ends_read : Read → Bool
ends_read again = true
ends_read r = false

abbrev pub is_last : Event → Bool
is_last (readable sockfd r cur) = ends_read r
is_last e = false

-- No signal comes, and data come on a descriptor whose entry in `users` names it.
abbrev pub IsPlain : Server → Event → Type 0
IsPlain s (connect connfd timer cur) = Unit
IsPlain s (signalled sigs) = sigs ≡ []
IsPlain s (readable sockfd r cur) = s.user_sockfd sockfd ≡ sockfd
IsPlain s other = Unit

-- The server has made the calls, and nothing that steers its loop has changed.
abbrev pub Called : Server → List Action → Server → Type 0
Called s calls s' =
    (s'.actions ≡ s.actions ++ calls)
    × (s'.timeout ≡ s.timeout)
    × (s'.stop_server ≡ s.stop_server)
    × (s'.epollfd ≡ s.epollfd)

abbrev pub Served : Server → Event → Server × Bool → Type 0
Served s e (s', goes_on) = Called s (calls_of s.epollfd e) s' × (goes_on ≡ not (is_last e))

module _ (fuel : ℕ) (s : Server) where
  accept_client-Called :
      (connfd a cur : ℕ)
      → IfReturns (Called s (add_fd s.epollfd connfd ∷ [])) (accept_client fuel s connfd a cur)
  unfolding accept_client
  accept_client-Called connfd a cur = elim (Bool-cases (leb fd_limit connfd)) [
    | inl behind ↦ simp behind tt
    | inr within ↦ simp within (
        IfReturns-bind (λ l. Unit) (Called s (add_fd s.epollfd connfd ∷ [])) (add_timer fuel _ a) _
          (IfReturns-any (add_timer fuel _ a)) λ l _. (refl, refl, refl, refl))
  ]

  cb_func-Called :
      (sockfd : ℕ)
      → s.user_sockfd sockfd ≡ sockfd
      → Called s (delete_fd global_epollfd sockfd ∷ close_fd sockfd ∷ []) (cb_func s sockfd)
  unfolding cb_func
  cb_func-Called sockfd e = simp e (refl, refl, refl, refl)

  drop_client-Called :
      (sockfd : ℕ)
      → s.user_sockfd sockfd ≡ sockfd
      → IfReturns
          (Called s (delete_fd global_epollfd sockfd ∷ close_fd sockfd ∷ []))
          (drop_client s sockfd)
  unfolding drop_client
  drop_client-Called sockfd e = elim (Bool-cases (s.user_timer sockfd == null)) [
    | inl missing ↦ simp missing (cb_func-Called sockfd e)
    | inr there ↦ simp there (
        IfReturns-bind (λ l. Unit)
          (Called s (delete_fd global_epollfd sockfd ∷ close_fd sockfd ∷ []))
          (del_timer (cb_func s sockfd).timer_list (s.user_timer sockfd)) _
          (IfReturns-any (del_timer (cb_func s sockfd).timer_list (s.user_timer sockfd)))
          λ l _. cb_func-Called sockfd e)
  ]

  refresh-Called : (sockfd cur : ℕ) → IfReturns (Called s []) (refresh fuel s sockfd cur)
  unfolding refresh
  refresh-Called sockfd cur = elim (Bool-cases (s.user_timer sockfd == null)) [
    | inl missing ↦ simp missing (sym (append-nil s.actions), refl, refl, refl)
    | inr there ↦ simp there (
        IfReturns-bind (λ m. Unit) (Called s [])
          (set_expire s.timer_list.mem (s.user_timer sockfd) (cur + 3 * timeslot)) _
          (IfReturns-any (set_expire s.timer_list.mem (s.user_timer sockfd) (cur + 3 * timeslot)))
          λ m _.
            IfReturns-bind (λ l. Unit) (Called s [])
              (adjust_timer fuel (with_mem s.timer_list m) (s.user_timer sockfd)) _
              (IfReturns-any (adjust_timer fuel (with_mem s.timer_list m) (s.user_timer sockfd)))
              λ l _. (sym (append-nil s.actions), refl, refl, refl))
  ]

  on_read-Served :
      (sockfd : ℕ) (r : Read) (cur : ℕ)
      → s.user_sockfd sockfd ≡ sockfd
      → IfReturns (Served s (readable sockfd r cur)) (on_read fuel s sockfd r cur)
  unfolding on_read
  on_read-Served sockfd again cur e = ((sym (append-nil s.actions), refl, refl, refl), refl)
  on_read-Served sockfd failed cur e =
      IfReturns-bind (Called s (calls_of_read sockfd failed))
        (Served s (readable sockfd failed cur)) (drop_client s sockfd) _
        (drop_client-Called sockfd e) λ s' c. (c, refl)
  on_read-Served sockfd ended cur e =
      IfReturns-bind (Called s (calls_of_read sockfd ended)) (Served s (readable sockfd ended cur))
        (drop_client s sockfd) _ (drop_client-Called sockfd e) λ s' c. (c, refl)
  on_read-Served sockfd arrived cur e =
      IfReturns-bind (Called s []) (Served s (readable sockfd arrived cur))
        (refresh fuel s sockfd cur) _ (refresh-Called sockfd cur) λ s' c. (c, refl)

  -- What one event without a signal makes the server do.
  pub on_event-Served : (e : Event) → IsPlain s e → IfReturns (Served s e) (on_event fuel s e)
  unfolding on_event on_signals
  on_event-Served (connect connfd a cur) p =
      IfReturns-bind (Called s (add_fd s.epollfd connfd ∷ [])) (Served s (connect connfd a cur))
        (accept_client fuel s connfd a cur) _ (accept_client-Called connfd a cur) λ s' c. (c, refl)
  on_event-Served (signalled sigs) p = rw p ((sym (append-nil s.actions), refl, refl, refl), refl)
  on_event-Served (readable sockfd r cur) p = elim (Bool-cases (leb fd_limit sockfd)) [
    | inl behind ↦ simp behind tt
    | inr within ↦ simp within (on_read-Served sockfd r cur p)
  ]
  on_event-Served other p = ((sym (append-nil s.actions), refl, refl, refl), refl)
