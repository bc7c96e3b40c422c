-- ===== src/Pipes/Order.antt =====
-- No byte is lost, doubled or moved in front of another.
use mathlib.Core.List.{append_assoc}
use mathlib.Core.Path.{subst}
use my_linux_demo.Base.{
  ℕ, zero, suc, ◌+◌, leb, ◌<◌, ◌≡◌, refl, ap, ◌∙◌, some, List, [], ◌∷◌, ◌++◌, map, arith, length,
  Bool-cases, Option-cases, inl, inr,
}
use my_linux_demo.Pipes.{
  Parent, reading, sending, receiving, printing, ended, Child, listening, answering, finished,
  killed, System, is_ended, is_gone, split, moved, pushed, sent, printed, answered, read_input,
  read_answer, parent_step, read_request, child_step, the_parent, the_child, step, Reach, start,
  next,
}

pub split-append :
    (n : ℕ) (xs a b : List ℕ) → split n xs ≡ some (a, b) → (xs ≡ a ++ b) × (length a ≡ n)
unfolding split
split-append zero xs a b e = ground arith
split-append (suc n) [] a b e = absurd cc
split-append (suc n) (x ∷ xs) a b e = elim (Option-cases (split n xs)) [
  | inl stuck ↦ absurd (ground arith)
  | inr ((front, rest), q) ↦
      let (whole, len) = split-append n xs front rest q in ground (arith, whole, len)
]

-- What a transfer takes and leaves.
pub moved-split :
    (n : ℕ) (xs : List ℕ) (after : List ℕ → List ℕ → System) (t : System)
    → moved n xs after ≡ some t
    → (a : List ℕ) × (b : List ℕ) × (xs ≡ a ++ b) × (0 < length a) × (after a b ≡ t)
unfolding moved
moved-split n xs after t e = elim (Option-cases (split n xs)) [
  | inl stuck ↦ absurd (ground arith)
  | inr ((front, rest), q) ↦
      let (whole, len) = split-append n xs front rest q in
      (front, rest, whole, ground arith, ground arith)
]

pub moved-all :
    (P : System → Type 0) (n : ℕ) (xs : List ℕ) (after : List ℕ → List ℕ → System) (t : System)
    → moved n xs after ≡ some t
    → ((a b : List ℕ) → xs ≡ a ++ b → 0 < length a → P (after a b))
    → P t
moved-all P n xs after t e all =
    let (a, b, q, l, z) = moved-split n xs after t e in subst P z (all a b q l)

pub pushed-all :
    (P : System → Type 0) (capacity n : ℕ) (pipe xs : List ℕ) (after : List ℕ → List ℕ → System)
    (t : System)
    → pushed capacity n pipe xs after ≡ some t
    → ((a b : List ℕ) → xs ≡ a ++ b → 0 < length a → P (after a b))
    → P t
unfolding pushed
pushed-all P capacity n pipe xs after t e all = elim (Bool-cases (leb (length pipe + n) capacity)) [
  | inl room ↦ moved-all P n xs after t (rw room at e) all
  | inr full ↦ absurd (ground (arith, full, e))
]

-- What a process has read and not yet passed on.
abbrev pub unsent : Parent → List ℕ
unsent (sending buf) = buf
unsent p = []

abbrev pub unprinted : Parent → List ℕ
unprinted (printing buf) = buf
unprinted p = []

abbrev pub unanswered : Child → List ℕ
unanswered (answering buf) = buf
unanswered (killed buf) = buf
unanswered c = []

-- What is between the input and the output, in the order in which it has to arrive.
abbrev pub under_way : (ℕ → ℕ) → System → List ℕ
under_way upper s =
    unprinted s.parent
    ++ (s.pipe2 ++ (unanswered s.child ++ map upper (s.pipe1 ++ (unsent s.parent ++ s.input))))

abbrev pub flow : (ℕ → ℕ) → System → List ℕ
flow upper s = s.output ++ under_way upper s

map-append : (f : ℕ → ℕ) (xs ys : List ℕ) → map f (xs ++ ys) ≡ map f xs ++ map f ys
map-append f [] ys = refl
map-append f (x ∷ xs) ys = ap (λ (zs : List ℕ). f x ∷ zs) (map-append f xs ys)

sent-held : (b : List ℕ) → (unsent (sent b) ≡ b) × (unprinted (sent b) ≡ [])
sent-held [] = (refl, refl)
sent-held (x ∷ xs) = (refl, refl)

printed-held : (b : List ℕ) → (unprinted (printed b) ≡ b) × (unsent (printed b) ≡ [])
printed-held [] = (refl, refl)
printed-held (x ∷ xs) = (refl, refl)

answered-held : (b : List ℕ) → unanswered (answered b) ≡ b
answered-held [] = refl
answered-held (x ∷ xs) = refl

module _ (capacity : ℕ) (upper : ℕ → ℕ) (n : ℕ) (s t : System) where
  abbrev Same : System → Type 0
  Same u = flow upper u ≡ flow upper s

  read_input-flow :
      (xs : List ℕ) → s.input ≡ xs → s.parent ≡ reading → read_input n s xs ≡ some t → Same t
  unfolding read_input
  read_input-flow [] i e h =
      let z : record s { parent = ended } ≡ t = ground arith in subst Same z (rw e refl)
  read_input-flow (x ∷ xs) i e h = moved-all Same n (x ∷ xs) _ t h λ a b q l. rw (e, i ∙ q) refl

  read_answer-flow :
      (xs : List ℕ) → s.pipe2 ≡ xs → s.parent ≡ receiving → read_answer n s xs ≡ some t → Same t
  unfolding read_answer
  read_answer-flow [] i e h = elim (Bool-cases (is_gone s.child)) [
    | inl gone ↦
        let z : record s { parent = reading } ≡ t = ground arith in subst Same z (rw e refl)
    | inr here ↦ absurd (ground arith)
  ]
  read_answer-flow (x ∷ xs) i e h =
      moved-all Same n (x ∷ xs) _ t h λ a b q l. rw (e, i ∙ q) (simp (append_assoc {A = ℕ}) refl)

  read_request-flow :
      (xs : List ℕ)
      → s.pipe1 ≡ xs
      → s.child ≡ listening
      → read_request upper n s xs ≡ some t
      → Same t
  unfolding read_request
  read_request-flow [] i e h = elim (Bool-cases (is_ended s.parent)) [
    | inl gone ↦
        let z : record s { child = finished } ≡ t = ground arith in subst Same z (rw e refl)
    | inr here ↦ absurd (ground arith)
  ]
  read_request-flow (x ∷ xs) i e h =
      moved-all Same n (x ∷ xs) _ t h
        λ a b q l. rw (e, i ∙ q) (simp (append_assoc {A = ℕ}, map-append) refl)

  parent_step-flow : (p : Parent) → s.parent ≡ p → parent_step capacity n s p ≡ some t → Same t
  unfolding parent_step
  parent_step-flow reading e h = read_input-flow s.input refl e h
  parent_step-flow (sending buf) e h =
      pushed-all Same capacity n s.pipe1 buf _ t h
        λ a b q l. let (u, v) = sent-held b in rw (e, u, v, q) (simp (append_assoc {A = ℕ}) refl)
  parent_step-flow receiving e h = read_answer-flow s.pipe2 refl e h
  parent_step-flow (printing buf) e h =
      moved-all Same n buf _ t h
        λ a b q l. let (u, v) = printed-held b in rw (e, u, v, q) (simp (append_assoc {A = ℕ}) refl)
  parent_step-flow ended e h = absurd cc

  child_step-flow : (c : Child) → s.child ≡ c → child_step capacity upper n s c ≡ some t → Same t
  unfolding child_step
  child_step-flow listening e h = read_request-flow s.pipe1 refl e h
  child_step-flow (answering buf) e h = elim (Bool-cases (is_ended s.parent)) [
    | inl dead ↦
        let z : record s { child = killed buf } ≡ t = ground arith in subst Same z (rw e refl)
    | inr alive ↦
        pushed-all Same capacity n s.pipe2 buf _ t (rw alive at h)
          λ a b q l. rw (e, answered-held b, q) (simp (append_assoc {A = ℕ}) refl)
  ]
  child_step-flow finished e h = absurd cc
  child_step-flow (killed buf) e h = absurd cc

-- In every reachable state, however reads and writes are cut into transfers, and with pipes of any
-- capacity, what has been printed, followed by what is under way in the processes and the pipes,
-- is the whole input in upper case: no byte is lost, doubled or moved in front of another.
pub output-under_way :
    {capacity : ℕ} {upper : ℕ → ℕ} {input : List ℕ} {s : System}
    → Reach capacity upper input s
    → s.output ++ under_way upper s ≡ map upper input
unfolding step
output-under_way {capacity} {upper} start = refl
output-under_way {capacity} {upper} (next {s} {t} the_parent n r e) =
    parent_step-flow capacity upper n s t s.parent refl e ∙ output-under_way r
output-under_way {capacity} {upper} (next {s} {t} the_child n r e) =
    child_step-flow capacity upper n s t s.child refl e ∙ output-under_way r
