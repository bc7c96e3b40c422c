-- ===== src/EchoServer/Replies.antt =====
-- What `echo` sends back and prints.
use mathlib.Core.Path.{subst}
use my_linux_demo.Base.{
  ℕ, ◌-◌, ◌≤◌, ◌≡◌, refl, sym, ap, Bool, true, false, ◌||◌, not, some, List, [], ◌∷◌, if◌then◌else◌,
  arith, length, take, All, Bool-cases, inl, inr,
}
use my_linux_demo.EchoServer.{
  Input, interrupted, broken, ended, content, ChildCall, reply, print, read_error, is_lower,
  capitalise, overwritten, preceded, echo,
}

-- What is read before `echo` returns.
abbrev pub heard : List Input → List (List ℕ)
heard [] = []
heard (interrupted ∷ rs) = heard rs
heard (broken ∷ rs) = []
heard (ended ∷ rs) = []
heard (content bytes ∷ rs) = bytes ∷ heard rs

-- How `echo` ends: with a message, at the end of the connection, or not yet.
abbrev pub ending : List Input → List ChildCall × Bool
ending [] = ([], false)
ending (interrupted ∷ rs) = ending rs
ending (broken ∷ rs) = (read_error ∷ [], true)
ending (ended ∷ rs) = ([], true)
ending (content bytes ∷ rs) = ending rs

-- The lower-case letters in front of the first other byte, in upper case.
abbrev pub capitalised : List ℕ → List ℕ
capitalised [] = []
capitalised (c ∷ cs) = if is_lower c then (c - 32) ∷ capitalised cs else c ∷ cs

-- A byte among them is no lower-case letter.
abbrev pub has_other : List ℕ → Bool
has_other [] = false
has_other (c ∷ cs) = not (is_lower c) || has_other cs

-- The calls on what is heard.
abbrev pub echoes : List (List ℕ) → List ChildCall
echoes [] = []
echoes (bytes ∷ rest) = reply bytes ∷ print (capitalised bytes) ∷ echoes rest

-- The bytes fit into a buffer, and one of them is no lower-case letter.
abbrev pub IsPiece : (size : ℕ) → List ℕ → Type 0
IsPiece size bytes = (length bytes ≤ size) × (has_other bytes ≡ true)

length-overwritten :
    (bytes buf : List ℕ) → length bytes ≤ length buf → length (overwritten bytes buf) ≡ length buf
unfolding overwritten
length-overwritten [] buf l = refl
length-overwritten (c ∷ bytes) [] l = refl
length-overwritten (c ∷ bytes) (b ∷ buf) l =
    omega (arith, length-overwritten bytes buf (omega arith))

take-overwritten :
    (bytes buf : List ℕ)
    → length bytes ≤ length buf
    → take (length bytes) (overwritten bytes buf) ≡ bytes
unfolding overwritten
take-overwritten [] buf l = refl
take-overwritten (c ∷ bytes) [] l = absurd (omega arith)
take-overwritten (c ∷ bytes) (b ∷ buf) l =
    ap (λ xs. c ∷ xs) (take-overwritten bytes buf (omega arith))

-- The loop ends within what has been read.
capitalise-overwritten :
    (bytes buf : List ℕ)
    → IsPiece (length buf) bytes
    → (shown : List ℕ) × (capitalise (overwritten bytes buf) ≡ some shown)
      × (take (length bytes) shown ≡ capitalised bytes)
      × (length shown ≡ length buf)
unfolding overwritten capitalise
capitalise-overwritten [] buf (l, h) = absurd (ground (arith, h))
capitalise-overwritten (c ∷ bytes) [] (l, h) = absurd (omega arith)
capitalise-overwritten (c ∷ bytes) (b ∷ buf) (l, h) = elim (Bool-cases (is_lower c)) [
  | inl low ↦
      let (shown, e, t, k) =
        capitalise-overwritten bytes buf (omega arith, ground (arith, low, h)) in
      rw (low, e) ((c - 32) ∷ shown, refl, ap (λ xs. (c - 32) ∷ xs) t, omega (arith, k))
  | inr other ↦ rw other (
    c ∷ overwritten bytes buf,
    refl,
    ap (λ xs. c ∷ xs) (take-overwritten bytes buf (omega arith)),
    omega (arith, length-overwritten bytes buf (omega arith)),
  )
]

-- Pieces that fit into the buffer, each with a byte that is no lower-case letter, are sent back
-- unchanged, in order, up to a failure other than EINTR or the end; and each is printed with its
-- leading lower-case letters in upper case. A failure is reported.
pub echo-replies :
    (buf : List ℕ) (rs : List Input)
    → All (IsPiece (length buf)) (heard rs)
    → echo buf rs ≡ some (preceded (echoes (heard rs)) (ending rs))
unfolding echo
echo-replies buf [] h = refl
echo-replies buf (interrupted ∷ rs) h = echo-replies buf rs h
echo-replies buf (broken ∷ rs) h = refl
echo-replies buf (ended ∷ rs) h = refl
echo-replies buf (content bytes ∷ rs) (piece, h) =
    let (shown, e, t, k) = capitalise-overwritten bytes buf piece in
    let rest : echo shown rs ≡ some (preceded (echoes (heard rs)) (ending rs)) =
      echo-replies shown rs (subst (λ n. All (IsPiece n) (heard rs)) (sym k) h) in
    rw (e, rest, t, take-overwritten bytes buf piece.0) refl
