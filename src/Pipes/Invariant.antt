-- ===== src/Pipes/Invariant.antt =====
-- What holds in every state of the two processes, and what is left of a run.
use mathlib.Core.Path.{subst}
use my_linux_demo.Base.{
  ℕ, suc, ◌<◌, ◌≤◌, ◌+◌, ◌*◌, ◌≡◌, refl, ap, ◌∙◌, true, false, some, List, [], ◌∷◌, ◌++◌, map,
  arith, length, length-append, Bool-cases, inl, inr,
}
use my_linux_demo.Pipes.{
  Parent, reading, sending, receiving, printing, ended, Child, listening, answering, finished,
  killed, System, init, is_ended, is_gone, sent, printed, answered, read_input, read_answer,
  parent_step, read_request, child_step, Actor, the_parent, the_child, step, Reach, start, next,
}
use my_linux_demo.Pipes.Order.{moved-all, pushed-all, unsent, unprinted, unanswered}

-- The bytes that the parent may still get for what it has written.
abbrev pub owed : System → ℕ
owed s = length s.pipe1 + (length (unanswered s.child) + length s.pipe2)

abbrev pub IsParentAt : (owed : ℕ) → Parent → Type 0
IsParentAt n (sending buf) = 0 < length buf
IsParentAt n receiving = 0 < n
IsParentAt n (printing buf) = 0 < length buf
IsParentAt n p = Unit

abbrev pub IsChildAt : Parent → Child → Type 0
IsChildAt p listening = Unit
IsChildAt p (answering buf) = 0 < length buf
IsChildAt p c = is_ended p ≡ true

pub record Inv (s : System) : Type 0 where
  pub parent_at : IsParentAt (owed s) s.parent
  pub child_at : IsChildAt s.parent s.child

-- A byte moves six times at most; the two ends of the processes are one step each.
abbrev pub left_of_parent : Parent → ℕ
left_of_parent ended = 0
left_of_parent p = 5 * length (unsent p) + length (unprinted p) + 1

abbrev pub left_of_child : Child → ℕ
left_of_child listening = 1
left_of_child (answering buf) = 3 * length buf + 1
left_of_child c = 0

abbrev pub work : System → ℕ
work s =
    6 * length s.input
    + (left_of_parent s.parent
        + (4 * length s.pipe1 + (left_of_child s.child + 2 * length s.pipe2)))

pub length-map : (f : ℕ → ℕ) (xs : List ℕ) → length (map f xs) ≡ length xs
length-map f [] = refl
length-map f (x ∷ xs) = ap (λ (n : ℕ). suc n) (length-map f xs)

sent-at :
    (n : ℕ) (b : List ℕ)
    → 0 < n
    → IsParentAt n (sent b) × (left_of_parent (sent b) ≡ 5 * length b + 1)
sent-at n [] h = (h, omega arith)
sent-at n (x ∷ xs) h = (omega arith, omega arith)

printed-at :
    (n : ℕ) (b : List ℕ) → IsParentAt n (printed b) × (left_of_parent (printed b) ≡ length b + 1)
printed-at n [] = (tt, omega arith)
printed-at n (x ∷ xs) = (omega arith, omega arith)

answered-at :
    (p : Parent) (b : List ℕ)
    → IsChildAt p (answered b)
      × (left_of_child (answered b) ≡ 3 * length b + 1)
      × (length (unanswered (answered b)) ≡ length b)
answered-at p [] = (tt, omega arith, refl)
answered-at p (x ∷ xs) = (omega arith, omega arith, refl)

parent-kept : (m n : ℕ) (p : Parent) → m ≤ n → IsParentAt m p → IsParentAt n p
parent-kept m n reading l h = tt
parent-kept m n (sending buf) l h = h
parent-kept m n receiving l h = omega (arith, l, h)
parent-kept m n (printing buf) l h = h
parent-kept m n ended l h = tt

pub gone-ended : (p : Parent) (c : Child) → IsChildAt p c → is_gone c ≡ true → is_ended p ≡ true
gone-ended p listening h g = absurd cc
gone-ended p (answering buf) h g = absurd cc
gone-ended p finished h g = h
gone-ended p (killed buf) h g = h

-- The child does not depend on a parent that has not ended, nor the parent on where bytes are.
child-kept : (p q : Parent) (c : Child) → is_ended p ≡ false → IsChildAt p c → IsChildAt q c
child-kept p q listening e h = tt
child-kept p q (answering buf) e h = h
child-kept p q finished e h = absurd cc
child-kept p q (killed buf) e h = absurd cc

taken : (xs a b : List ℕ) → xs ≡ a ++ b → length xs ≡ length a + length b
taken xs a b q = ap (λ (ys : List ℕ). length ys) q ∙ length-append a b

module _ (capacity : ℕ) (upper : ℕ → ℕ) (n : ℕ) (s t : System) (inv : Inv s) where
  -- A state that keeps the invariant and has less work left.
  abbrev IsNext : System → Type 0
  IsNext u = Inv u × (work u < work s)

  -- What the child is in does not depend on the parent's next state.
  child_at : (p q : Parent) → s.parent ≡ p → is_ended p ≡ false → IsChildAt q s.child
  child_at p q e alive = child-kept s.parent q s.child (rw e alive) inv.child_at

  read_input-IsNext :
      (xs : List ℕ) → s.input ≡ xs → s.parent ≡ reading → read_input n s xs ≡ some t → IsNext t
  unfolding read_input
  read_input-IsNext [] i e h =
      let z : record s { parent = ended } ≡ t = ground arith in
      subst IsNext z
        (record { parent_at = tt; child_at = child_at reading ended e refl }, rw e (omega arith))
  read_input-IsNext (x ∷ xs) i e h = moved-all IsNext n (x ∷ xs) _ t h λ a b q l. (
    record { parent_at = l; child_at = child_at reading (sending a) e refl },
    rw e (omega (arith, taken s.input a b (i ∙ q))),
  )

  read_answer-IsNext :
      (xs : List ℕ) → s.pipe2 ≡ xs → s.parent ≡ receiving → read_answer n s xs ≡ some t → IsNext t
  unfolding read_answer
  read_answer-IsNext [] i e h = elim (Bool-cases (is_gone s.child)) [
    | inl gone ↦ let over = gone-ended s.parent s.child inv.child_at gone in absurd (ground arith)
    | inr here ↦ absurd (ground arith)
  ]
  read_answer-IsNext (x ∷ xs) i e h = moved-all IsNext n (x ∷ xs) _ t h λ a b q l. (
    record { parent_at = l; child_at = child_at receiving (printing a) e refl },
    rw e (omega (arith, taken s.pipe2 a b (i ∙ q))),
  )

  parent_step-IsNext : (p : Parent) → s.parent ≡ p → parent_step capacity n s p ≡ some t → IsNext t
  unfolding parent_step
  parent_step-IsNext reading e h = read_input-IsNext s.input refl e h
  parent_step-IsNext (sending buf) e h = pushed-all IsNext capacity n s.pipe1 buf _ t h λ a b q l.
      let more = length-append s.pipe1 a in
      let (at, len) =
        sent-at (length (s.pipe1 ++ a) + (length (unanswered s.child) + length s.pipe2)) b
          (omega (arith, more, l)) in
      (
        record { parent_at = at; child_at = child_at (sending buf) (sent b) e refl },
        rw e (omega (arith, more, len, l, taken buf a b q)),
      )
  parent_step-IsNext receiving e h = read_answer-IsNext s.pipe2 refl e h
  parent_step-IsNext (printing buf) e h = moved-all IsNext n buf _ t h λ a b q l.
      let (at, len) = printed-at (owed s) b in
      (
        record { parent_at = at; child_at = child_at (printing buf) (printed b) e refl },
        rw e (omega (arith, len, l, taken buf a b q)),
      )
  parent_step-IsNext ended e h = absurd cc

  read_request-IsNext :
      (xs : List ℕ)
      → s.pipe1 ≡ xs
      → s.child ≡ listening
      → read_request upper n s xs ≡ some t
      → IsNext t
  unfolding read_request
  read_request-IsNext [] i e h = elim (Bool-cases (is_ended s.parent)) [
    | inl gone ↦
        let z : record s { child = finished } ≡ t = ground arith in
        subst IsNext z (
          record {
            parent_at =
                parent-kept (owed s) (owed (record s { child = finished })) s.parent
                  (rw e (omega arith)) inv.parent_at;
            child_at = gone;
          },
          rw e (omega arith),
        )
    | inr here ↦ absurd (ground arith)
  ]
  read_request-IsNext (x ∷ xs) i e h = moved-all IsNext n (x ∷ xs) _ t h λ a b q l. (
    record {
      parent_at =
          parent-kept (owed s) (owed (record s { pipe1 = b; child = answering (map upper a) }))
            s.parent (rw e (omega (arith, length-map upper a, taken s.pipe1 a b (i ∙ q))))
            inv.parent_at;
      child_at = omega (arith, l, length-map upper a);
    },
    rw e (omega (arith, l, length-map upper a, taken s.pipe1 a b (i ∙ q))),
  )

  child_step-IsNext :
      (c : Child) → s.child ≡ c → child_step capacity upper n s c ≡ some t → IsNext t
  unfolding child_step
  child_step-IsNext listening e h = read_request-IsNext s.pipe1 refl e h
  child_step-IsNext (answering buf) e h = elim (Bool-cases (is_ended s.parent)) [
    | inl dead ↦
        let z : record s { child = killed buf } ≡ t = ground arith in
        subst IsNext z (
          record {
            parent_at =
                parent-kept (owed s) (owed (record s { child = killed buf })) s.parent
                  (rw e (omega arith)) inv.parent_at;
            child_at = dead;
          },
          rw e (omega arith),
        )
    | inr alive ↦ pushed-all IsNext capacity n s.pipe2 buf _ t (rw alive at h) λ a b q l.
        let (at, len, held) = answered-at s.parent b in
        let more = length-append s.pipe2 a in
        (
          record {
            parent_at =
                parent-kept (owed s) (owed (record s { pipe2 = s.pipe2 ++ a; child = answered b }))
                  s.parent (rw e (omega (arith, held, taken buf a b q, more))) inv.parent_at;
            child_at = at;
          },
          rw e (omega (arith, l, len, taken buf a b q, more)),
        )
  ]
  child_step-IsNext finished e h = absurd cc
  child_step-IsNext (killed buf) e h = absurd cc

init-Inv : (input : List ℕ) → Inv (init input)
init-Inv input = record { parent_at = tt; child_at = tt }

pub step-IsNext :
    (capacity : ℕ) (upper : ℕ → ℕ) (s t : System) (a : Actor) (n : ℕ)
    → Inv s
    → step capacity upper s a n ≡ some t
    → Inv t × (work t < work s)
unfolding step
step-IsNext capacity upper s t the_parent n inv e =
    parent_step-IsNext capacity upper n s t inv s.parent refl e
step-IsNext capacity upper s t the_child n inv e =
    child_step-IsNext capacity upper n s t inv s.child refl e

pub Reach-Inv :
    {capacity : ℕ} {upper : ℕ → ℕ} {input : List ℕ} {s : System}
    → Reach capacity upper input s
    → Inv s
Reach-Inv {capacity} {upper} {input} start = init-Inv input
Reach-Inv {capacity} {upper} (next {s} {t} a n r e) =
    (step-IsNext capacity upper s t a n (Reach-Inv r) e).0
