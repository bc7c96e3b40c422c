-- ===== src/EchoServer/Connections.antt =====
-- The clients of the parent: a child for each, and what the parent keeps open.
use mathlib.Core.List.{append_assoc, append-nil}
use my_linux_demo.Base.{
  ℕ, ◌≡◌, ◌≢◌, ◌⊎◌, refl, sym, ◌∙◌, Bool, true, false, some, List, [], ◌∷◌, ◌++◌, if◌then◌else◌,
  arith, length, All, Returns, Returns-then, assign, ◌==◌, ==-eq, ==-ne, Bool-cases, inl, inr,
}
use my_linux_demo.EchoServer.{
  Input, ChildCall, close_fd, child, Attempt, accept_failed, forked, fork_failed, clilen, Parent,
  turn, main_loop,
}
use my_linux_demo.EchoServer.Replies.{heard, ending, echoes, IsPiece, echo-replies}

-- The calls of the child that reads `rs`.
abbrev pub life : (listenfd clifd : ℕ) → List Input → List ChildCall
life listenfd clifd rs =
    close_fd listenfd ∷ (echoes (heard rs) ++ (ending rs).0)
    ++ (if (ending rs).1 then close_fd clifd ∷ [] else [])

-- The children of the turns, and the clients.
abbrev pub lives : (listenfd : ℕ) → List Attempt → List (List ChildCall)
lives listenfd [] = []
lives listenfd (accept_failed ∷ ts) = lives listenfd ts
lives listenfd (forked clifd rs ∷ ts) = life listenfd clifd rs ∷ lives listenfd ts
lives listenfd (fork_failed clifd ∷ ts) = lives listenfd ts

abbrev pub clients : List Attempt → List ℕ
clients [] = []
clients (accept_failed ∷ ts) = clients ts
clients (forked clifd rs ∷ ts) = clifd ∷ clients ts
clients (fork_failed clifd ∷ ts) = clifd ∷ clients ts

-- What the children read comes in pieces that `echo` can work on.
abbrev pub IsRead : (size : ℕ) → Attempt → Type 0
IsRead size accept_failed = Unit
IsRead size (forked clifd rs) = All (IsPiece size) (heard rs)
IsRead size (fork_failed clifd) = Unit

child-life :
    (listenfd clifd : ℕ) (buf : List ℕ) (rs : List Input)
    → All (IsPiece (length buf)) (heard rs)
    → child listenfd clifd buf rs ≡ some (life listenfd clifd rs)
unfolding child
child-life listenfd clifd buf rs h = rw (echo-replies buf rs h) refl

-- The children, and the open descriptors, behind some turns.
abbrev pub Served : (listenfd : ℕ) → Parent → List Attempt → Parent → Type 0
Served listenfd s ts s' =
    (s'.children ≡ s.children ++ lives listenfd ts)
    × All (λ fd. (fd ≡ clilen) ⊎ (s'.is_open fd ≡ true)) (clients ts)

abbrev StaysOpen : Parent → Parent → Type 0
StaysOpen s s' = (fd : ℕ) → fd ≢ clilen → s.is_open fd ≡ true → s'.is_open fd ≡ true

now_open :
    (s : Parent) (fd : ℕ)
    → (fd ≢ clilen → s.is_open fd ≡ true)
    → (fd ≡ clilen) ⊎ (s.is_open fd ≡ true)
now_open s fd h = elim (Bool-cases (fd == clilen)) [
  | inl e ↦ inl (==-eq fd clilen e)
  | inr n ↦ inr (h (==-ne fd clilen n))
]

-- The parent behind a turn.
abbrev with_client : Parent → (clifd : ℕ) → List (List ChildCall) → Parent
with_client s clifd children = record {
  is_open = assign (assign s.is_open clifd true) clilen false;
  children = children;
}

client-stays :
    (is_open : ℕ → Bool) (clifd fd : ℕ)
    → fd ≢ clilen
    → (fd ≡ clifd) ⊎ (is_open fd ≡ true)
    → assign (assign is_open clifd true) clilen false fd ≡ true
client-stays is_open clifd fd n (inl here) = ground (arith, n, here)
client-stays is_open clifd fd n (inr before) = ground (arith, n, before)

main_loop-kept :
    (listenfd : ℕ) (buf : List ℕ) (s : Parent) (ts : List Attempt)
    → All (IsRead (length buf)) ts
    → Returns (λ s'. Served listenfd s ts s' × StaysOpen s s') (main_loop listenfd buf s ts)
unfolding main_loop turn
main_loop-kept listenfd buf s [] h = ((sym (append-nil s.children), tt), λ fd n o. o)
main_loop-kept listenfd buf s (accept_failed ∷ ts) (_, h) = main_loop-kept listenfd buf s ts h
main_loop-kept listenfd buf s (forked clifd rs ∷ ts) (r, h) =
    rw (child-life listenfd clifd buf rs r) (
      let s' = with_client s clifd (s.children ++ life listenfd clifd rs ∷ []) in
      Returns-then (λ u. Served listenfd s' ts u × StaysOpen s' u)
        (λ u. Served listenfd s (forked clifd rs ∷ ts) u × StaysOpen s u)
        (main_loop listenfd buf s' ts) (main_loop-kept listenfd buf s' ts h)
        λ u ((c, now), later). (
          (
            c ∙ append_assoc s.children (life listenfd clifd rs ∷ []) (lives listenfd ts),
            (
              now_open u clifd λ n. later clifd n (client-stays s.is_open clifd clifd n (inl refl)),
              now,
            ),
          ),
          λ fd n o. later fd n (client-stays s.is_open clifd fd n (inr o)),
        ))
main_loop-kept listenfd buf s (fork_failed clifd ∷ ts) (_, h) =
    let s' = with_client s clifd s.children in
    Returns-then (λ u. Served listenfd s' ts u × StaysOpen s' u)
      (λ u. Served listenfd s (fork_failed clifd ∷ ts) u × StaysOpen s u)
      (main_loop listenfd buf s' ts) (main_loop-kept listenfd buf s' ts h)
      λ u ((c, now), later). (
        (
          c,
          (
            now_open u clifd λ n. later clifd n (client-stays s.is_open clifd clifd n (inl refl)),
            now,
          ),
        ),
        λ fd n o. later fd n (client-stays s.is_open clifd fd n (inr o)),
      )

-- Whatever accept and fork give, where what each child reads comes in pieces that fit into the
-- buffer, each with a byte that is no lower-case letter: main serves every client for which fork
-- succeeds in a child of its own, in the order of their arrival, and each child closes listenfd,
-- sends back what it reads of its own client, piece by piece, and closes the client once echo has
-- returned. The parent closes none of its descriptors but the one numbered clilen: every other
-- client stays open in it.
pub main_loop-Served :
    (listenfd : ℕ) (buf : List ℕ) (s : Parent) (ts : List Attempt)
    → All (IsRead (length buf)) ts
    → Returns (Served listenfd s ts) (main_loop listenfd buf s ts)
main_loop-Served listenfd buf s ts h =
    Returns-then (λ u. Served listenfd s ts u × StaysOpen s u) (Served listenfd s ts)
      (main_loop listenfd buf s ts) (main_loop-kept listenfd buf s ts h) λ u r. r.0
