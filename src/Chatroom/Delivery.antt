-- ===== src/Chatroom/Delivery.antt =====
-- Who gets which messages.

use my_linux_demo.Base.{
  ℕ, ◌≡◌, ◌≢◌, refl, Bool, true, false, ◌||◌, List, [], ◌∷◌, ◌++◌, ◌==◌, if◌then◌else◌, arith,
  Bool-cases, inl, inr,
}
use my_linux_demo.Socket.{Received, would_block, broken, ended, content}
use my_linux_demo.Chatroom.{ChatAction, watch, close, send, broadcast, read_loop}

abbrev pub member : ℕ → List ℕ → Bool
member fd [] = false
member fd (c ∷ cs) = (c == fd) || member fd cs

-- No descriptor occurs twice.
abbrev pub Single : List ℕ → Type 0
Single [] = Unit
Single (c ∷ cs) = (member c cs ≡ false) × Single cs

-- What is sent to a descriptor.
unfoldable pub sent_to : ℕ → List ChatAction → List (List ℕ)
sent_to fd [] = []
sent_to fd (send c buf ∷ out) = if c == fd then buf ∷ sent_to fd out else sent_to fd out
sent_to fd (watch c ∷ out) = sent_to fd out
sent_to fd (close c ∷ out) = sent_to fd out

-- What the server reads of a client before the first failure.
unfoldable pub messages : List Received → List (List ℕ)
messages [] = []
messages (would_block ∷ rs) = []
messages (broken ∷ rs) = []
messages (ended ∷ rs) = messages rs
messages (content buf ∷ rs) = buf ∷ messages rs

pub sent_to-append :
    (fd : ℕ) (xs ys : List ChatAction) → sent_to fd (xs ++ ys) ≡ sent_to fd xs ++ sent_to fd ys
unfolding sent_to
sent_to-append fd [] ys = refl
sent_to-append fd (send c buf ∷ xs) ys = ground (arith, sent_to-append fd xs ys)
sent_to-append fd (watch c ∷ xs) ys = sent_to-append fd xs ys
sent_to-append fd (close c ∷ xs) ys = sent_to-append fd xs ys

sent_to-stranger :
    (fd sender : ℕ) (fds : List ℕ) (buf : List ℕ)
    → member fd fds ≡ false
    → sent_to fd (broadcast fds sender buf) ≡ []
unfolding sent_to broadcast
sent_to-stranger fd sender [] buf h = refl
sent_to-stranger fd sender (c ∷ fds) buf h = elim (Bool-cases (c == sender)) [
  | inl e ↦ rw e (sent_to-stranger fd sender fds buf (ground arith))
  | inr e ↦ rw e (ground (arith, sent_to-stranger fd sender fds buf))
]

sent_to-sender :
    (sender : ℕ) (fds : List ℕ) (buf : List ℕ) → sent_to sender (broadcast fds sender buf) ≡ []
unfolding sent_to broadcast
sent_to-sender sender [] buf = refl
sent_to-sender sender (c ∷ fds) buf = elim (Bool-cases (c == sender)) [
  | inl e ↦ rw e (sent_to-sender sender fds buf)
  | inr e ↦ rw (e, e) (sent_to-sender sender fds buf)
]

sent_to-member :
    (fd sender : ℕ) (fds : List ℕ) (buf : List ℕ)
    → Single fds
    → member fd fds ≡ true
    → fd ≢ sender
    → sent_to fd (broadcast fds sender buf) ≡ buf ∷ []
unfolding sent_to broadcast
sent_to-member fd sender [] buf s h n = cc
sent_to-member fd sender (c ∷ fds) buf s h n = elim (Bool-cases (c == fd)) [
  | inl e ↦
      let z : (c == sender) ≡ false = ground arith in
      let o : member fd fds ≡ false = ground (arith, s.0) in
      rw (z, e, sent_to-stranger fd sender fds buf o) refl
  | inr e ↦ elim (Bool-cases (c == sender)) [
    | inl k ↦ rw k (sent_to-member fd sender fds buf s.1 (ground arith) n)
    | inr k ↦ rw (k, e) (sent_to-member fd sender fds buf s.1 (ground arith) n)
  ]
]

-- Every client in client_list_fd other than the sender, when no descriptor occurs twice there, is
-- sent exactly what the server reads of the sender before the first failure, once and in order.
pub read_loop-messages :
    (fd sender : ℕ) (fds : List ℕ) (rs : List Received)
    → Single fds
    → member fd fds ≡ true
    → fd ≢ sender
    → sent_to fd (read_loop fds sender rs) ≡ messages rs
unfolding sent_to read_loop messages
read_loop-messages fd sender fds [] s h n = refl
read_loop-messages fd sender fds (would_block ∷ rs) s h n = refl
read_loop-messages fd sender fds (broken ∷ rs) s h n = refl
read_loop-messages fd sender fds (ended ∷ rs) s h n = read_loop-messages fd sender fds rs s h n
read_loop-messages fd sender fds (content buf ∷ rs) s h n =
    rw
      (
        sent_to-append fd (broadcast fds sender buf) (read_loop fds sender rs),
        sent_to-member fd sender fds buf s h n,
        read_loop-messages fd sender fds rs s h n,
      )
      refl

-- The sender itself is sent nothing of what it writes.
pub read_loop-sender :
    (sender : ℕ) (fds : List ℕ) (rs : List Received) → sent_to sender (read_loop fds sender rs) ≡ []
unfolding sent_to read_loop
read_loop-sender sender fds [] = refl
read_loop-sender sender fds (would_block ∷ rs) = refl
read_loop-sender sender fds (broken ∷ rs) = refl
read_loop-sender sender fds (ended ∷ rs) = read_loop-sender sender fds rs
read_loop-sender sender fds (content buf ∷ rs) =
    rw
      (
        sent_to-append sender (broadcast fds sender buf) (read_loop fds sender rs),
        sent_to-sender sender fds buf,
        read_loop-sender sender fds rs,
      )
      refl
