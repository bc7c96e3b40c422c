-- ===== src/ArgPipe/Flow.antt =====
-- What has been printed and what is under way is the argument, and the processes end.
use mathlib.Core.List.{append_assoc, append-nil}
use my_linux_demo.Base.{
  ℕ, ◌+◌, ◌*◌, ◌<◌, ◌≤◌, ◌≡◌, refl, sym, ap, ◌∙◌, ◌⊎◌, inl, inr, ◌&&◌, some, List, [], ◌∷◌, ◌++◌,
  ltb, leb, arith, length, length-append, IfReturns, IfReturns-bind, IfReturns-some, Bool-cases,
  Option-cases,
}
use my_linux_demo.Pipes.{split}
use my_linux_demo.Pipes.Order.{split-append}
use my_linux_demo.ArgPipe.{
  bye, buffsize, Parent, writing, waiting, ended, Child, reading, printing, finished, System,
  parent_step, read_pipe, child_step, Actor, the_parent, the_child, step, Reach, start, next,
}

abbrev pub unwritten : Parent → List ℕ
unwritten (writing cs) = cs
unwritten p = []

-- What is still to be printed, with `bs` under way behind the child.
abbrev pub unprinted : Child → (bs : List ℕ) → List ℕ
unprinted reading bs = bs ++ bye
unprinted (printing buf) bs = buf ++ bs ++ bye
unprinted finished bs = []

abbrev pub under_way : System → List ℕ
under_way s = unprinted s.child (s.pipe ++ unwritten s.parent)

-- What is left to do.
abbrev parent_work : Parent → ℕ
parent_work (writing cs) = 3 * length cs + 2
parent_work waiting = 1
parent_work ended = 0

abbrev child_work : Child → ℕ
child_work reading = 1
child_work (printing buf) = 2
child_work finished = 0

abbrev pub work : System → ℕ
work s = parent_work s.parent + 2 * length s.pipe + child_work s.child

-- A step loses nothing and gets on.
abbrev pub Stepped : System → System → Type 0
Stepped s t = (t.output ++ under_way t ≡ s.output ++ under_way s) × (work t < work s)

split-IfReturns :
    (n : ℕ) (xs : List ℕ) → IfReturns (λ (a, b). (xs ≡ a ++ b) × (length a ≡ n)) (split n xs)
split-IfReturns n xs = elim (Option-cases (split n xs)) [
  | inl stuck ↦ rw stuck tt
  | inr ((a, b), q) ↦ rw q (split-append n xs a b q)
]

abbrev at : Parent → Child → (pipe output : List ℕ) → System
at p ch pipe output = record { parent = p; child = ch; pipe = pipe; output = output }

-- The length of what a transfer takes and leaves.
length_split : (xs a b : List ℕ) → xs ≡ a ++ b → length xs ≡ length a + length b
length_split xs a b e = ap (λ (u : List ℕ). length u) e ∙ length-append a b

parent_step-Stepped :
    (n : ℕ) (p : Parent) (ch : Child) (pipe output : List ℕ)
    → IfReturns (Stepped (at p ch pipe output)) (parent_step n (at p ch pipe output) p)
unfolding parent_step
parent_step-Stepped n (writing []) ch pipe output = (refl, omega arith)
parent_step-Stepped n (writing (c ∷ cs)) ch pipe output =
    let s = at (writing (c ∷ cs)) ch pipe output in
    IfReturns-bind (λ (a, b). (c ∷ cs ≡ a ++ b) × (length a ≡ n)) (Stepped s) (split n (c ∷ cs)) _
      (split-IfReturns n (c ∷ cs))
      λ (a, b) (whole, len). elim (Bool-cases (ltb 0 n)) [
        | inl some_bytes ↦ simp some_bytes (
          ap (λ u. output ++ unprinted ch u)
              (append_assoc pipe a b ∙ ap (λ u. pipe ++ u) (sym whole)),
          ground (arith, length_split (c ∷ cs) a b whole, length-append pipe a, len, some_bytes),
        )
        | inr nothing ↦ simp nothing tt
      ]
parent_step-Stepped n waiting reading pipe output = tt
parent_step-Stepped n waiting (printing buf) pipe output = tt
parent_step-Stepped n waiting finished pipe output = (refl, omega arith)
parent_step-Stepped n ended ch pipe output = tt

read_pipe-Stepped :
    (n : ℕ) (p : Parent) (pipe output : List ℕ)
    → IfReturns (Stepped (at p reading pipe output)) (read_pipe n (at p reading pipe output) pipe)
unfolding read_pipe
read_pipe-Stepped n (writing cs) [] output = tt
read_pipe-Stepped n waiting [] output = (append-nil (output ++ bye), omega arith)
read_pipe-Stepped n ended [] output = (append-nil (output ++ bye), omega arith)
read_pipe-Stepped n p (c ∷ cs) output =
    let s = at p reading (c ∷ cs) output in
    IfReturns-bind (λ (a, b). (c ∷ cs ≡ a ++ b) × (length a ≡ n)) (Stepped s) (split n (c ∷ cs)) _
      (split-IfReturns n (c ∷ cs))
      λ (a, b) (whole, len). elim (Bool-cases (ltb 0 n && leb n buffsize)) [
        | inl fits ↦ simp fits (
          ap (λ u. output ++ (u ++ bye))
              (sym (append_assoc a b (unwritten p)) ∙ ap (λ u. u ++ unwritten p) (sym whole)),
          ground (arith, length_split (c ∷ cs) a b whole, len, fits),
        )
        | inr not_so ↦ simp not_so tt
      ]

child_step-Stepped :
    (n : ℕ) (p : Parent) (ch : Child) (pipe output : List ℕ)
    → IfReturns (Stepped (at p ch pipe output)) (child_step n (at p ch pipe output) ch)
unfolding child_step
child_step-Stepped n p reading pipe output = read_pipe-Stepped n p pipe output
child_step-Stepped n p (printing buf) pipe output = (
  append_assoc output buf ((pipe ++ unwritten p) ++ bye)
      ∙ ap (λ u. output ++ u) (sym (append_assoc buf (pipe ++ unwritten p) bye)),
  omega arith,
)
child_step-Stepped n p finished pipe output = tt

step-Stepped : (s : System) (x : Actor) (n : ℕ) → IfReturns (Stepped s) (step s x n)
unfolding step
step-Stepped s the_parent n = parent_step-Stepped n s.parent s.child s.pipe s.output
step-Stepped s the_child n = child_step-Stepped n s.parent s.child s.pipe s.output

-- A process can step, or both have ended.
abbrev pub GetsOn : System → Type 0
GetsOn s = (x : Actor) × (n : ℕ) × (t : System) × (step s x n ≡ some t)

get_on :
    (p : Parent) (ch : Child) (pipe output : List ℕ)
    → GetsOn (at p ch pipe output) ⊎ ((p ≡ ended) × (ch ≡ finished))
unfolding step parent_step child_step read_pipe split
get_on (writing []) ch pipe output = inl (the_parent, 1, _, refl)
get_on (writing (c ∷ cs)) ch pipe output = inl (the_parent, 1, _, refl)
get_on p (printing buf) pipe output = inl (the_child, 1, _, refl)
get_on waiting finished pipe output = inl (the_parent, 1, _, refl)
get_on ended finished pipe output = inr (refl, refl)
get_on waiting reading [] output = inl (the_child, 1, _, refl)
get_on ended reading [] output = inl (the_child, 1, _, refl)
get_on waiting reading (c ∷ cs) output = inl (the_child, 1, _, refl)
get_on ended reading (c ∷ cs) output = inl (the_child, 1, _, refl)

reached :
    (argument : List ℕ) (k : ℕ) (s : System)
    → Reach argument k s
    → (s.output ++ under_way s ≡ argument ++ bye) × (k + work s ≤ 3 * length argument + 3)
reached argument _ _ start = (refl, omega arith)
reached argument _ t (next {k = k} {s = s} x n r e) =
    let (same, bound) = reached argument k s r in
    let (kept, less) = IfReturns-some (Stepped s) (step s x n) t (step-Stepped s x n) e in
    (kept ∙ same, omega (arith, bound, less))

-- In every state that is reached in k steps on an argument of n bytes, however the transfers are
-- cut and the processes take turns: what has been printed, followed by what is still to be
-- printed, is the argument and then the farewell; k is at most 3 * n + 3; and a process can step
-- or both have ended.
pub printed-under_way :
    (argument : List ℕ) (k : ℕ) (s : System)
    → Reach argument k s
    → (s.output ++ under_way s ≡ argument ++ bye)
      × (k ≤ 3 * length argument + 3)
      × (GetsOn s ⊎ ((s.parent ≡ ended) × (s.child ≡ finished)))
printed-under_way argument k s r =
    let (same, bound) = reached argument k s r in
    (same, omega (arith, bound), get_on s.parent s.child s.pipe s.output)
