-- ===== src/Pipes/Ending.antt =====
-- Every run ends, and where the pipes hold the whole input only with both processes ended.
use mathlib.Core.Path.{subst}
use my_linux_demo.Pipes.Order.{unsent, unprinted, unanswered, under_way, output-under_way}
use my_linux_demo.Base.{
  ℕ, suc, ◌<◌, ◌≤◌, ◌+◌, ◌*◌, ◌≡◌, ◌⊎◌, ◌≢◌, refl, ap, ◌∙◌, true, false, none, some, List, [], ◌∷◌,
  ◌++◌, map, leb, length-append, ltb, arith, length, Bool-cases, Option-cases, inl, inr,
}
use my_linux_demo.Pipes.{
  Parent, reading, sending, receiving, printing, ended, Child, listening, answering, finished,
  killed, System, is_ended, is_gone, split, moved, pushed, read_input, read_answer, parent_step,
  read_request, child_step, Actor, the_parent, the_child, step, Reach, start, next,
}
use my_linux_demo.Pipes.Invariant.{
  IsParentAt, IsChildAt, Inv, owed, work, length-map, step-IsNext, Reach-Inv,
}

-- A step that can be taken.
abbrev pub CanStep : (capacity : ℕ) → (ℕ → ℕ) → System → Type 0
CanStep capacity upper s =
    (a : Actor) × (n : ℕ) × (t : System) × (step capacity upper s a n ≡ some t)

-- The number of steps of a run.
abbrev pub run_length :
    {capacity : ℕ} {upper : ℕ → ℕ} {input : List ℕ} {s : System} → Reach capacity upper input s → ℕ
run_length start = 0
run_length (next a n r e) = suc (run_length r)

run_length-work :
    {capacity : ℕ} {upper : ℕ → ℕ} {input : List ℕ} {s : System} (r : Reach capacity upper input s)
    → run_length r + work s ≤ 6 * length input + 2
run_length-work {capacity} {upper} start = omega arith
run_length-work {capacity} {upper} (next {s} {t} a n r e) =
    omega (arith, run_length-work r, (step-IsNext capacity upper s t a n (Reach-Inv r) e).1)

-- The pipes have room for what the processes write.
abbrev HasRoom : (capacity : ℕ) → System → Type 0
HasRoom capacity s =
    (length s.pipe1 + length (unsent s.parent) ≤ capacity)
    × (length s.pipe2 + length (unanswered s.child) ≤ capacity)

-- No more than the input is under way.
reached-HasRoom :
    {capacity : ℕ} {upper : ℕ → ℕ} {input : List ℕ} {s : System}
    → Reach capacity upper input s
    → length input ≤ capacity
    → HasRoom capacity s
reached-HasRoom {capacity} {upper} {input} {s} r fits =
    let unsent_left = unsent s.parent ++ s.input in
    let requests = s.pipe1 ++ unsent_left in
    let answers = unanswered s.child ++ map upper requests in
    let all_of : length (s.output ++ under_way upper s) ≡ length input =
      ap (λ (u : List ℕ). length u) (output-under_way r) ∙ length-map upper input in
    let whole = length-append s.output (under_way upper s) in
    let shown = length-append (unprinted s.parent) (s.pipe2 ++ answers) in
    let answered = length-append s.pipe2 answers in
    let child = length-append (unanswered s.child) (map upper requests) in
    let same = length-map upper requests in
    let requested = length-append s.pipe1 unsent_left in
    let parent = length-append (unsent s.parent) s.input in
    (
      omega (arith, all_of, fits, whole, shown, answered, child, same, requested, parent),
      omega (arith, all_of, fits, whole, shown, answered, child, same, requested, parent),
    )

module _ (capacity : ℕ) (upper : ℕ → ℕ) (s : System) (room : HasRoom capacity s) where
  parent-CanStep :
      (p : Parent) → s.parent ≡ p → parent_step capacity 1 s p ≢ none → CanStep capacity upper s
  unfolding step
  parent-CanStep p e moves = elim (Option-cases (parent_step capacity 1 s p)) [
    | inl stuck ↦ absurd (moves stuck)
    | inr (t, q) ↦ (the_parent, 1, t, ap (λ (p : Parent). parent_step capacity 1 s p) e ∙ q)
  ]

  child-CanStep :
      (c : Child) → s.child ≡ c → child_step capacity upper 1 s c ≢ none → CanStep capacity upper s
  unfolding step
  child-CanStep c e moves = elim (Option-cases (child_step capacity upper 1 s c)) [
    | inl stuck ↦ absurd (moves stuck)
    | inr (t, q) ↦ (the_child, 1, t, ap (λ (c : Child). child_step capacity upper 1 s c) e ∙ q)
  ]

  input-moves : (xs : List ℕ) → read_input 1 s xs ≢ none
  unfolding read_input moved split
  input-moves [] h = cc
  input-moves (x ∷ xs) h = cc

  answer-moves : (xs : List ℕ) → 0 < length xs → read_answer 1 s xs ≢ none
  unfolding read_answer moved split
  answer-moves [] l h = absurd (omega (arith, l))
  answer-moves (x ∷ xs) l h = cc

  request-moves : (xs : List ℕ) → 0 < length xs → read_request upper 1 s xs ≢ none
  unfolding read_request moved split
  request-moves [] l h = absurd (omega (arith, l))
  request-moves (x ∷ xs) l h = cc

  transfer-moves :
      (xs : List ℕ) (after : List ℕ → List ℕ → System) → 0 < length xs → moved 1 xs after ≢ none
  unfolding moved split
  transfer-moves [] after l h = absurd (omega (arith, l))
  transfer-moves (x ∷ xs) after l h = cc

  push-moves :
      (pipe xs : List ℕ) (after : List ℕ → List ℕ → System)
      → 0 < length xs
      → length pipe + length xs ≤ capacity
      → pushed capacity 1 pipe xs after ≢ none
  unfolding pushed
  push-moves pipe xs after l fits =
      let free : leb (length pipe + 1) capacity ≡ true = ground (arith, l, fits) in
      rw free (transfer-moves xs after l)

  over-moves : (xs : List ℕ) → is_ended s.parent ≡ true → read_request upper 1 s xs ≢ none
  unfolding read_request moved split
  over-moves [] e h = ground arith
  over-moves (x ∷ xs) e h = cc

  parent_at : (p : Parent) → s.parent ≡ p → Inv s → IsParentAt (owed s) p
  parent_at p e inv = subst (λ (p : Parent). IsParentAt (owed s) p) e inv.parent_at

  child_at : (c : Child) → s.child ≡ c → Inv s → IsChildAt s.parent c
  child_at c e inv = subst (λ (c : Child). IsChildAt s.parent c) e inv.child_at

  -- While the parent waits for an answer, the child can go on.
  child-serves :
      (c : Child)
      → s.child ≡ c
      → s.parent ≡ receiving
      → Inv s
      → ltb 0 (length s.pipe2) ≡ false
      → CanStep capacity upper s
  unfolding child_step
  child-serves listening e r inv empty =
      let owes : 0 < length s.pipe1 + (length (unanswered listening) + length s.pipe2) =
        subst (λ (c : Child). 0 < length s.pipe1 + (length (unanswered c) + length s.pipe2)) e
          (parent_at receiving r inv) in
      child-CanStep listening e (request-moves s.pipe1 (ground (arith, owes)))
  child-serves (answering buf) e r inv empty =
      let l : 0 < length buf = child_at (answering buf) e inv in
      let alive : is_ended s.parent ≡ false = rw r refl in
      child-CanStep (answering buf) e (
        rw alive (
          push-moves s.pipe2 buf _ l
            (subst (λ c. length s.pipe2 + length (unanswered c) ≤ capacity) e room.1)))
  child-serves finished e r inv empty = absurd (let over = child_at finished e inv in ground arith)
  child-serves (killed buf) e r inv empty =
      absurd (let over = child_at (killed buf) e inv in ground arith)

  waiting-moves : s.parent ≡ receiving → Inv s → CanStep capacity upper s
  unfolding parent_step
  waiting-moves r inv = elim (Bool-cases (ltb 0 (length s.pipe2))) [
    | inl here ↦ parent-CanStep receiving r (answer-moves s.pipe2 (ground arith))
    | inr empty ↦ child-serves s.child refl r inv empty
  ]

  child-moves :
      (c : Child)
      → s.child ≡ c
      → is_ended s.parent ≡ true
      → CanStep capacity upper s ⊎ (is_gone s.child ≡ true)
  unfolding child_step
  child-moves listening e h = inl (child-CanStep listening e (over-moves s.pipe1 h))
  child-moves (answering buf) e h = inl (child-CanStep (answering buf) e λ q. ground arith)
  child-moves finished e h = inr (ground arith)
  child-moves (killed buf) e h = inr (ground arith)

  progress :
      (p : Parent)
      → s.parent ≡ p
      → Inv s
      → CanStep capacity upper s ⊎ ((is_ended s.parent ≡ true) × (is_gone s.child ≡ true))
  unfolding parent_step
  progress reading e inv = inl (parent-CanStep reading e (input-moves s.input))
  progress (sending buf) e inv = inl (
      parent-CanStep (sending buf) e (
        push-moves s.pipe1 buf _ (parent_at (sending buf) e inv)
          (subst (λ p. length s.pipe1 + length (unsent p) ≤ capacity) e room.0)))
  progress receiving e inv = inl (waiting-moves e inv)
  progress (printing buf) e inv =
      inl (parent-CanStep (printing buf) e (transfer-moves buf _ (parent_at (printing buf) e inv)))
  progress ended e inv =
      let over : is_ended s.parent ≡ true = rw e refl in
      elim (child-moves s.child refl over) [ inl more ↦ inl more | inr gone ↦ inr (over, gone) ]

-- Where each pipe holds n bytes at least, a run on n bytes of input has at most 6 * n + 2 steps,
-- and in every reachable state a process can step or both have ended: parent and child do not wait
-- for each other forever.
pub processes_end :
    {capacity : ℕ} {upper : ℕ → ℕ} {input : List ℕ} {s : System} (r : Reach capacity upper input s)
    → length input ≤ capacity
    → (run_length r ≤ 6 * length input + 2)
      × (CanStep capacity upper s ⊎ ((is_ended s.parent ≡ true) × (is_gone s.child ≡ true)))
processes_end {capacity} {upper} {input} {s} r fits = (
  omega (arith, run_length-work r),
  progress capacity upper s (reached-HasRoom r fits) s.parent refl (Reach-Inv r),
)
