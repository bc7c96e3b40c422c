-- ===== src/SelectServer/Bounds.antt =====
-- The loop stays within the table and `allset`, where `allset` has a bit for each new client.
use my_linux_demo.Base.{
  ℕ, zero, suc, ◌+◌, ◌-◌, ◌<◌, ◌≡◌, ◌≢◌, true, Option, none, some, List, [], ◌∷◌, arith, leb,
  get_elem?, length, Returns, Returns-then, Returns-bind, Option-cases, Bool-cases, inl, inr,
}
use my_linux_demo.SelectServer.{Select, Turn, Call, accept, on_ready, scan, turn}
use my_linux_demo.SelectServer.Room.{occurs}
use my_linux_demo.SelectServer.Table.{IsValid, accept-IsValid, on_ready-IsValid, on_ready-same}

get_elem?-lt : (xs : List (Option ℕ)) (i : ℕ) → i < length xs → get_elem? xs i ≢ none
get_elem?-lt [] i l = absurd (omega arith)
get_elem?-lt (x ∷ xs) zero l = λ h. cc
get_elem?-lt (x ∷ xs) (suc i) l = get_elem?-lt xs i (omega arith)

-- The data fit together, and no descriptor has been taken out of `allset`.
abbrev pub Turned : (cap : ℕ) → Select → Select × List Call → Type 0
Turned cap s (s', calls) = IsValid cap s' × ((fd : ℕ) → s.allset fd ≡ true → s'.allset fd ≡ true)

scan-Turned :
    (cap : ℕ) (rounds : ℕ) (s : Select) (t : Turn) (i n : ℕ)
    → IsValid cap s
    → rounds + i ≡ s.limit
    → Returns (Turned cap s) (scan rounds s t i n)
unfolding scan
scan-Turned cap zero s t i n v e = (v, λ fd h. h)
scan-Turned cap (suc rounds) s t i n v e = elim (Option-cases (get_elem? s.client i)) [
  | inl out ↦ absurd (get_elem?-lt s.client i (omega (arith, v.sized, v.limit_le)) out)
  | inr (none, h) ↦ rw h (scan-Turned cap rounds s t (i + 1) n v (omega arith))
  | inr (some fd, h) ↦
      let r = t.read fd in
      let v' = on_ready-IsValid cap s i fd r v in
      let (same, watched) = on_ready-same s i fd r in
      rw h (elim (Bool-cases (t.rset fd)) [
        | inr skip ↦ rw skip (scan-Turned cap rounds s t (i + 1) n v (omega arith))
        | inl ready ↦ rw ready (elim (Bool-cases (leb n 1)) [
          | inl last ↦ rw last (v', λ k q. rw watched q)
          | inr more ↦ rw more (
              Returns-bind (Turned cap (on_ready s i fd r).0) (Turned cap s)
                (scan rounds (on_ready s i fd r).0 t (i + 1) (n - 1)) _
                (scan-Turned cap rounds (on_ready s i fd r).0 t (i + 1) (n - 1) v'
                  (omega (arith, same)))
                λ q k. (k.0, λ fd' w. k.1 fd' (rw watched w)))
        ])
      ])
]

-- On valid data, where a descriptor that accept gives is below FD_SETSIZE and not one that the
-- table holds, a turn of the loop reads and writes nothing behind client and allset, and the data
-- are valid behind it: the entries from maxi + 1 on are free, no descriptor is in two entries,
-- every one is in allset, nothing in allset is above maxfd or from FD_SETSIZE on. No descriptor is
-- ever taken out of allset, not even one that is closed.
pub turn-Turned :
    (cap listenfd : ℕ) (s : Select) (t : Turn)
    → IsValid cap s
    → (t.rset listenfd ≡ true → (t.connfd < cap) × (occurs t.connfd s.client ≡ 0))
    → Returns (Turned cap s) (turn listenfd s t)
unfolding turn
turn-Turned cap listenfd s t v fits = elim (Bool-cases (t.rset listenfd)) [
  | inr old ↦ rw old (scan-Turned cap s.limit s t 0 t.nready v (omega arith))
  | inl new ↦ rw new (elim (Bool-cases t.named) [
    | inr nameless ↦ simp nameless (v, λ fd h. h)
    | inl named ↦ simp named (
        Returns-bind (λ s'. IsValid cap s' × ((fd : ℕ) → s.allset fd ≡ true → s'.allset fd ≡ true))
          (Turned cap s) (accept s t.connfd) _
          (accept-IsValid cap s t.connfd v (fits new).0 (fits new).1)
          λ s' (v', grown). elim (Bool-cases (leb t.nready 1)) [
            | inl last ↦ simp last (v', grown)
            | inr more ↦ simp more (
                Returns-then (Turned cap s') (Turned cap s) (scan s'.limit s' t 0 (t.nready - 1))
                  (scan-Turned cap s'.limit s' t 0 (t.nready - 1) v' (omega arith))
                  λ q k. (k.0, λ fd w. k.1 fd (grown fd w)))
          ])
  ])
]
