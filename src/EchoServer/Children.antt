-- ===== src/EchoServer/Children.antt =====
-- `sig_chld` of unp/my_echo_ser.c and the children that end while it runs. SIGCHLD is not queued: a
-- signal that comes while another is pending is lost.
use my_linux_demo.Base.{
  ℕ, zero, suc, ◌+◌, ◌*◌, ◌≤◌, ◌≡◌, ◌≢◌, refl, ap, ◌⊎◌, inl, inr, Bool, true, false, not, ◌&&◌,
  ◌||◌, Option, none, some, List, [], ◌∷◌, ◌>>=◌, if◌then◌else◌, arith, length, Bool-cases,
  IfReturns, IfReturns-bind, IfReturns-some,
}

-- The children that have ended and are not waited for, whether SIGCHLD is pending and whether
-- `sig_chld` runs; and how many children have ended, and how many messages it has printed.
pub record Children : Type 0 where
  pub zombies : List ℕ
  pub pending : Bool
  pub handling : Bool
  pub exited : ℕ
  pub reported : ℕ

abbrev pub none_yet : Children
none_yet = record { zombies = []; pending = false; handling = false; exited = 0; reported = 0 }

-- A child ends, `sig_chld` is called, and it calls `waitpid`, which may take any of the zombies.
pub data ChildEvent : Type 0 where
  ends : (pid : ℕ) → ChildEvent
  signal : ChildEvent
  waits : (i : ℕ) → ChildEvent

unfoldable pub without : List ℕ → ℕ → Option (List ℕ)
without [] i = none
without (pid ∷ zs) zero = some zs
without (pid ∷ zs) (suc i) = do rest ← without zs i; some (pid ∷ rest)

-- `waitpid` with WNOHANG: it gives 0, or -1, when there is no zombie, and `sig_chld` returns.
unfoldable pub sig_chld : Children → List ℕ → (i : ℕ) → Option Children
sig_chld s [] i = some (record s { handling = false })
sig_chld s (pid ∷ zs) i = do
  rest ← without (pid ∷ zs) i
  some (record s { zombies = rest; reported = suc s.reported })

unfoldable pub step : Children → ChildEvent → Option Children
step s (ends pid) =
    some (record s { zombies = pid ∷ s.zombies; pending = true; exited = suc s.exited })
step s signal =
    if s.pending && not s.handling
    then some (record s { pending = false; handling = true })
    else none
step s (waits i) = if s.handling then sig_chld s s.zombies i else none

-- The events of the handler.
abbrev pub handler_steps : ChildEvent → ℕ
handler_steps (ends pid) = 0
handler_steps signal = 1
handler_steps (waits i) = 1

-- The states that are reached with `n` steps of the handler.
pub data Reach : (n : ℕ) → Children → Type 0 where
  start : Reach 0 none_yet
  next :
      {n : ℕ} {s t : Children} (e : ChildEvent)
      → Reach n s
      → step s e ≡ some t
      → Reach (handler_steps e + n) t

-- Who is not yet waited for will be, and the messages are counted.
pub record IsAwaited (s : Children) : Type 0 where
  pub awaited : length s.zombies ≢ 0 → s.pending || s.handling ≡ true
  pub counted : s.reported + length s.zombies ≡ s.exited

-- A zombie is taken.
length-without :
    (zs : List ℕ) (i : ℕ) → IfReturns (λ rest. suc (length rest) ≡ length zs) (without zs i)
unfolding without
length-without [] i = tt
length-without (z ∷ zs) zero = refl
length-without (z ∷ zs) (suc i) =
    IfReturns-bind (λ rest. suc (length rest) ≡ length zs)
      (λ rest. suc (length rest) ≡ suc (length zs)) (without zs i) _ (length-without zs i)
      λ rest e. omega (arith, e)

-- What is left to do for the handler.
abbrev pub work : Children → ℕ
work s = 2 * length s.zombies + (if s.pending then 2 else 0) + (if s.handling then 1 else 0)

-- A step keeps the invariant, and a step of the handler is paid for by an ended child.
abbrev pub Stepped : Children → (steps : ℕ) → Children → Type 0
Stepped s n t = IsAwaited t × (n + work t + 4 * s.exited ≤ work s + 4 * t.exited)

sig_chld-Stepped :
    (s : Children) (zs : List ℕ) (i : ℕ)
    → IsAwaited s
    → s.zombies ≡ zs
    → s.handling ≡ true
    → IfReturns (Stepped s 1) (sig_chld s zs i)
unfolding sig_chld
sig_chld-Stepped s [] i h e on =
    let len : length s.zombies ≡ 0 = ap (λ (l : List ℕ). length l) e in
    (record { awaited = λ n. absurd (n len); counted = h.counted }, ground (arith, on))
sig_chld-Stepped s (z ∷ zs) i h e on =
    let len : length s.zombies ≡ suc (length zs) = ap (λ (l : List ℕ). length l) e in
    IfReturns-bind (λ rest. suc (length rest) ≡ suc (length zs)) (Stepped s 1) (without (z ∷ zs) i)
      _ (length-without (z ∷ zs) i)
      λ rest l. (
        record { awaited = λ n. ground (arith, on); counted = omega (arith, h.counted, l, len) },
        omega (arith, l, len),
      )

step-Stepped :
    (s : Children) (e : ChildEvent)
    → IsAwaited s
    → IfReturns (Stepped s (handler_steps e)) (step s e)
unfolding step
step-Stepped s (ends pid) h =
    (record { awaited = λ n. refl; counted = omega (arith, h.counted) }, ground arith)
step-Stepped s signal h = elim (Bool-cases (s.pending && not s.handling)) [
  | inl due ↦
      rw due
        (record { awaited = λ n. ground (arith, due); counted = h.counted }, ground (arith, due))
  | inr idle ↦ rw idle tt
]
step-Stepped s (waits i) h = elim (Bool-cases s.handling) [
  | inl on ↦ simp on (sig_chld-Stepped s s.zombies i h refl on)
  | inr off ↦ rw off tt
]

-- The invariant, and the bound on the steps of the handler, in a reachable state.
reached-IsAwaited : (n : ℕ) (s : Children) → Reach n s → IsAwaited s × (n + work s ≤ 4 * s.exited)
reached-IsAwaited _ _ start =
    (record { awaited = λ n. absurd (n refl); counted = refl }, omega arith)
reached-IsAwaited _ t (next {n = n} {s = s} e r q) =
    let (h, l) = reached-IsAwaited n s r in
    let (k, m) = IfReturns-some (Stepped s (handler_steps e)) (step s e) t (step-Stepped s e h) q in
    (k, omega (arith, l, m))

-- The handler has a step.
abbrev pub GetsOn : Children → Type 0
GetsOn s = (e : ChildEvent) × (t : Children) × (handler_steps e ≡ 1) × (step s e ≡ some t)

first_waited : (s : Children) (zs : List ℕ) → (t : Children) × (sig_chld s zs 0 ≡ some t)
unfolding sig_chld without
first_waited s [] = (_, refl)
first_waited s (z ∷ zs) = (_, refl)

waits-GetsOn : (s : Children) → s.handling ≡ true → GetsOn s
waits-GetsOn s on =
    let (t, e) = first_waited s s.zombies in (waits 0, t, refl, unfold step in simp on e)

-- In every reachable state, however the ends of children fall between the steps of sig_chld and
-- whatever signals are lost while another is pending: sig_chld has taken at most four steps for
-- each child that has ended; and either every child that has ended has been waited for and
-- reported, once each, or sig_chld is to be called or can go on.
pub zombies_end :
    (n : ℕ) (s : Children)
    → Reach n s
    → (n ≤ 4 * s.exited) × ((length s.zombies ≡ 0) × (s.reported ≡ s.exited) ⊎ GetsOn s)
zombies_end n s r =
    let (h, l) = reached-IsAwaited n s r in
    (
      omega (arith, l),
      elim (Bool-cases s.handling) [
        | inl on ↦ inr (waits-GetsOn s on)
        | inr off ↦ elim (Bool-cases s.pending) [
          | inl due ↦ inr (
            signal,
            record s { pending = false; handling = true },
            refl,
            unfold step in simp (due, off),
          )
          | inr idle ↦
              let gone : length s.zombies ≡ 0 = ground (arith, h.awaited, idle, off) in
              inl (gone, omega (arith, gone, h.counted))
        ]
      ],
    )
