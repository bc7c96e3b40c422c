-- ===== src/Chatroom/Inbox.antt =====
-- What a client gets over a whole batch of events, while other clients join.
use my_linux_demo.Base.{
  ℕ, ◌≡◌, refl, sym, true, false, ◌||◌, List, [], ◌∷◌, ◌++◌, ◌==◌, if◌then◌else◌, arith, Bool-cases,
  inl, inr, ==-eq, ==-ne,
}
use my_linux_demo.Chatroom.{ChatEvent, joined, readable, other, read_loop, on_events}
use my_linux_demo.Chatroom.Delivery.{
  member, Single, sent_to, sent_to-append, messages, read_loop-messages, read_loop-sender,
}

-- The messages of all clients but `fd`, in the order of the events.
unfoldable pub inbox : ℕ → List ChatEvent → List (List ℕ)
inbox fd [] = []
inbox fd (joined c ∷ es) = inbox fd es
inbox fd (readable c rs ∷ es) = if c == fd then inbox fd es else messages rs ++ inbox fd es
inbox fd (other ∷ es) = inbox fd es

-- A client that joins has a descriptor that is not in `client_list_fd`.
abbrev pub IsFresh : List ℕ → List ChatEvent → Type 0
IsFresh fds [] = Unit
IsFresh fds (joined c ∷ es) = (member c fds ≡ false) × IsFresh (fds ++ c ∷ []) es
IsFresh fds (e ∷ es) = IsFresh fds es

member-snoc : (x c : ℕ) (fds : List ℕ) → member x (fds ++ c ∷ []) ≡ (member x fds || c == x)
member-snoc x c [] = ground arith
member-snoc x c (fd ∷ fds) = ground (arith, member-snoc x c fds)

snoc-Single : (fds : List ℕ) (c : ℕ) → Single fds → member c fds ≡ false → Single (fds ++ c ∷ [])
snoc-Single [] c s h = (refl, tt)
snoc-Single (fd ∷ fds) c s h =
    (ground (arith, member-snoc fd c fds, s.0), snoc-Single fds c s.1 (ground arith))

-- Over a batch of events, a client in client_list_fd, when no descriptor occurs twice there and
-- every client that joins has a descriptor not yet in the list, is sent exactly what the server
-- reads of the other clients before a failure of each read loop, those that have just joined
-- included, once and in the order of the events, and nothing of what it writes itself.
pub on_events-inbox :
    (fd : ℕ) (fds : List ℕ) (es : List ChatEvent)
    → Single fds
    → member fd fds ≡ true
    → IsFresh fds es
    → sent_to fd (on_events fds es).1 ≡ inbox fd es
unfolding on_events inbox sent_to
on_events-inbox fd fds [] s h f = refl
on_events-inbox fd fds (joined c ∷ es) s h f =
    on_events-inbox fd (fds ++ c ∷ []) es (snoc-Single fds c s f.0)
      (ground (arith, member-snoc fd c fds)) f.1
on_events-inbox fd fds (readable c rs ∷ es) s h f = elim (Bool-cases (c == fd)) [
  | inl e ↦
      rw
        (
          e,
          ==-eq c fd e,
          sent_to-append fd (read_loop fds fd rs) (on_events fds es).1,
          read_loop-sender fd fds rs,
        )
        (on_events-inbox fd fds es s h f)
  | inr n ↦
      rw
        (
          n,
          sent_to-append fd (read_loop fds c rs) (on_events fds es).1,
          read_loop-messages fd c fds rs s h (λ q. ==-ne c fd n (sym q)),
          on_events-inbox fd fds es s h f,
        )
        refl
]
on_events-inbox fd fds (other ∷ es) s h f = on_events-inbox fd fds es s h f
