-- ===== src/SelectServer/Table.antt =====
-- The table of clients.
use my_linux_demo.Base.{
  ℕ, zero, suc, ◌+◌, ◌<◌, ◌≤◌, ◌≡◌, refl, ap, ◌∙◌, Bool, true, Option, none, some, List, [], ◌∷◌,
  arith, leb, if◌then◌else◌, length, assign, ltb, Returns, ◌==◌, Bool-cases, inl, inr,
}
use my_linux_demo.SelectServer.Room.{
  has_free, occurs, AreBelow, has_free-new, occurs-place, occurs-vacate,
}
use my_linux_demo.SelectServer.{
  Select, ReadResult, eof, failed, bytes, place, vacate, accept, on_ready,
}

-- No entry from `n` on is in use.
abbrev pub IsFreeFrom : ℕ → List (Option ℕ) → Type 0
IsFreeFrom n [] = Unit
IsFreeFrom zero (x ∷ xs) = (x ≡ none) × IsFreeFrom zero xs
IsFreeFrom (suc n) (x ∷ xs) = IsFreeFrom n xs

-- Every client is watched.
abbrev pub IsWatched : (ℕ → Bool) → List (Option ℕ) → Type 0
IsWatched f [] = Unit
IsWatched f (none ∷ xs) = IsWatched f xs
IsWatched f (some fd ∷ xs) = (f fd ≡ true) × IsWatched f xs

-- The server's data fit together: the table has `cap` entries, those in use lie below `limit`,
-- differ and are watched, `maxfd` bounds what is watched, and `allset` has a bit for it.
pub record IsValid (cap : ℕ) (s : Select) : Type 0 where
  pub sized : length s.client ≡ cap
  pub limit_le : s.limit ≤ cap
  pub free_above : IsFreeFrom s.limit s.client
  pub once : (fd : ℕ) → occurs fd s.client ≤ 1
  pub watched : IsWatched s.allset s.client
  pub bounded : (fd : ℕ) → s.allset fd ≡ true → (fd ≤ s.maxfd) × (fd < cap)

pub length-place : (xs : List (Option ℕ)) (c : ℕ) → length (place xs c).0 ≡ length xs
unfolding place
length-place [] c = refl
length-place (none ∷ xs) c = refl
length-place (some fd ∷ xs) c = ap suc (length-place xs c)

pub place-lt : (xs : List (Option ℕ)) (c : ℕ) → has_free xs ≡ true → (place xs c).1 < length xs
unfolding place
place-lt [] c h = cc
place-lt (none ∷ xs) c h = omega arith
place-lt (some fd ∷ xs) c h = omega (arith, place-lt xs c h)

IsFreeFrom-le : (m n : ℕ) (xs : List (Option ℕ)) → m ≤ n → IsFreeFrom m xs → IsFreeFrom n xs
IsFreeFrom-le m n [] l f = tt
IsFreeFrom-le zero zero (x ∷ xs) l f = f
IsFreeFrom-le zero (suc n) (x ∷ xs) l f = IsFreeFrom-le zero n xs (omega arith) f.1
IsFreeFrom-le (suc m) zero (x ∷ xs) l f = absurd (omega arith)
IsFreeFrom-le (suc m) (suc n) (x ∷ xs) l f = IsFreeFrom-le m n xs (omega arith) f

place-IsFreeFrom :
    (n : ℕ) (xs : List (Option ℕ)) (c : ℕ)
    → IsFreeFrom n xs
    → (place xs c).1 < n
    → IsFreeFrom n (place xs c).0
unfolding place
place-IsFreeFrom n [] c f l = tt
place-IsFreeFrom zero (x ∷ xs) c f l = absurd (omega arith)
place-IsFreeFrom (suc n) (none ∷ xs) c f l = f
place-IsFreeFrom (suc n) (some fd ∷ xs) c f l = place-IsFreeFrom n xs c f (omega arith)

IsWatched-assign :
    (f : ℕ → Bool) (c : ℕ) (xs : List (Option ℕ)) → IsWatched f xs → IsWatched (assign f c true) xs
IsWatched-assign f c [] w = tt
IsWatched-assign f c (none ∷ xs) w = IsWatched-assign f c xs w
IsWatched-assign f c (some fd ∷ xs) w = (ground (arith, w.0), IsWatched-assign f c xs w.1)

place-IsWatched :
    (f : ℕ → Bool) (c : ℕ) (xs : List (Option ℕ))
    → f c ≡ true
    → IsWatched f xs
    → IsWatched f (place xs c).0
unfolding place
place-IsWatched f c [] h w = tt
place-IsWatched f c (none ∷ xs) h w = (h, w)
place-IsWatched f c (some fd ∷ xs) h w = (w.0, place-IsWatched f c xs h w.1)

IsWatched-AreBelow :
    (f : ℕ → Bool) (n : ℕ) (xs : List (Option ℕ))
    → ((fd : ℕ) → f fd ≡ true → fd < n)
    → IsWatched f xs
    → AreBelow n xs
IsWatched-AreBelow f n [] l w = tt
IsWatched-AreBelow f n (none ∷ xs) l w = IsWatched-AreBelow f n xs l w
IsWatched-AreBelow f n (some fd ∷ xs) l w = (l fd w.0, IsWatched-AreBelow f n xs l w.1)

-- A descriptor that `allset` has a bit for, and no entry holds, finds a free entry.
IsValid-room :
    (cap : ℕ) (s : Select) (c : ℕ)
    → IsValid cap s
    → c < cap
    → occurs c s.client ≡ 0
    → has_free s.client ≡ true
IsValid-room cap s c v l new =
    has_free-new c s.client v.once
      (IsWatched-AreBelow s.allset (length s.client) s.client
        (λ fd q. omega (arith, (v.bounded fd q).1, v.sized)) v.watched)
      (omega (arith, v.sized)) new

occurs-new :
    (d c : ℕ) (xs : List (Option ℕ))
    → occurs d xs ≤ 1
    → occurs c xs ≡ 0
    → occurs d (place xs c).0 ≤ 1
occurs-new d c xs l new = elim (Bool-cases (c == d)) [
  | inl same ↦
      let absent : occurs d xs ≡ 0 = grind (arith, same, new) in
      ground (arith, occurs-place d c xs, absent)
  | inr other ↦ ground (arith, occurs-place d c xs, other, l)
]

-- A new client is stored below `limit`.
pub accept-IsValid :
    (cap : ℕ) (s : Select) (c : ℕ)
    → IsValid cap s
    → c < cap
    → occurs c s.client ≡ 0
    → Returns
        (λ s'. IsValid cap s' × ((fd : ℕ) → s.allset fd ≡ true → s'.allset fd ≡ true))
        (accept s c)
unfolding accept
accept-IsValid cap s c v l new =
    let h = IsValid-room cap s c v l new in
    let i = (place s.client c).1 in
    let n = if leb s.limit i then i + 1 else s.limit in
    let fits : ltb c (length s.client) ≡ true = ground (arith, v.sized, l) in
    let once : (fd : ℕ) → occurs fd (place s.client c).0 ≤ 1 =
      λ fd. occurs-new fd c s.client (v.once fd) new in
    simp fits (
      record {
        sized = length-place s.client c ∙ v.sized;
        limit_le = ground (arith, place-lt s.client c h, v.limit_le, v.sized);
        free_above =
            place-IsFreeFrom n s.client c
              (IsFreeFrom-le s.limit n s.client (ground arith) v.free_above) (ground arith);
        once = once;
        watched =
            place-IsWatched (assign s.allset c true) c s.client (ground arith)
              (IsWatched-assign s.allset c s.client v.watched);
        bounded = λ fd q. (ground (arith, v.bounded fd), ground (arith, v.bounded fd, l));
      },
      λ fd q. ground (arith, q),
    )

length-vacate : (xs : List (Option ℕ)) (i : ℕ) → length (vacate xs i) ≡ length xs
unfolding vacate
length-vacate [] i = refl
length-vacate (x ∷ xs) zero = refl
length-vacate (x ∷ xs) (suc i) = ap suc (length-vacate xs i)

vacate-IsFreeFrom : (n i : ℕ) (xs : List (Option ℕ)) → IsFreeFrom n xs → IsFreeFrom n (vacate xs i)
unfolding vacate
vacate-IsFreeFrom n i [] f = tt
vacate-IsFreeFrom zero zero (x ∷ xs) f = (refl, f.1)
vacate-IsFreeFrom zero (suc i) (x ∷ xs) f = (f.0, vacate-IsFreeFrom zero i xs f.1)
vacate-IsFreeFrom (suc n) zero (x ∷ xs) f = f
vacate-IsFreeFrom (suc n) (suc i) (x ∷ xs) f = vacate-IsFreeFrom n i xs f

vacate-IsWatched :
    (g : ℕ → Bool) (i : ℕ) (xs : List (Option ℕ)) → IsWatched g xs → IsWatched g (vacate xs i)
unfolding vacate
vacate-IsWatched g i [] w = tt
vacate-IsWatched g zero (none ∷ xs) w = w
vacate-IsWatched g zero (some fd ∷ xs) w = w.1
vacate-IsWatched g (suc i) (none ∷ xs) w = vacate-IsWatched g i xs w
vacate-IsWatched g (suc i) (some fd ∷ xs) w = (w.0, vacate-IsWatched g i xs w.1)

pub on_ready-IsValid :
    (cap : ℕ) (s : Select) (i fd : ℕ) (r : ReadResult)
    → IsValid cap s
    → IsValid cap (on_ready s i fd r).0
unfolding on_ready
on_ready-IsValid cap s i fd eof v = record {
  sized = length-vacate s.client i ∙ v.sized;
  limit_le = v.limit_le;
  free_above = vacate-IsFreeFrom s.limit i s.client v.free_above;
  once = λ d. omega (arith, occurs-vacate d i s.client, v.once d);
  watched = vacate-IsWatched s.allset i s.client v.watched;
  bounded = v.bounded;
}
on_ready-IsValid cap s i fd failed v = v
on_ready-IsValid cap s i fd (bytes buf) v = v

-- The other fields stay as they are.
pub on_ready-same :
    (s : Select) (i fd : ℕ) (r : ReadResult)
    → ((on_ready s i fd r).0.limit ≡ s.limit) × ((on_ready s i fd r).0.allset ≡ s.allset)
unfolding on_ready
on_ready-same s i fd eof = (refl, refl)
on_ready-same s i fd failed = (refl, refl)
on_ready-same s i fd (bytes buf) = (refl, refl)
