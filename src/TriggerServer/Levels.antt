-- ===== src/TriggerServer/Levels.antt =====
-- Edge triggering reads in one event what level triggering reads in several.
use mathlib.Core.List.{append_assoc}
use my_linux_demo.Base.{
  ℕ, ◌≡◌, refl, sym, ap, ◌∙◌, true, Option, none, some, List, [], ◌∷◌, ◌++◌, All, length,
  before_nul,
}
use my_linux_demo.Socket.{Received, would_block, broken, ended, content}
use my_linux_demo.TriggerServer.{
  TriggerEvent, arrived, readable, other, TriggerAction, addfd, close, printed, event_target_once,
  read_later, something_else, wait_error, read_once, use_lt, read_all, use_et, main_loop,
}

-- Results of `recv` that end with the first failure, which is not the end of the connection.
abbrev pub IsDrained : List Received → Type 0
IsDrained [] = ⊥
IsDrained (content buf ∷ rs) = IsDrained rs
IsDrained (would_block ∷ rs) = rs ≡ []
IsDrained (broken ∷ rs) = rs ≡ []
IsDrained (ended ∷ rs) = ⊥

abbrev pub IsServed : TriggerEvent → Type 0
IsServed (readable fd rs) = IsDrained rs
IsServed e = Unit

-- The events that are reported when the same happens under level triggering: one for every `recv`
-- that has something to give.
unfoldable pub levels : (fd : ℕ) → List Received → List TriggerEvent
levels fd [] = []
levels fd (would_block ∷ rs) = []
levels fd (r ∷ rs) = readable fd (r ∷ []) ∷ levels fd rs

unfoldable pub as_levels : List TriggerEvent → List TriggerEvent
as_levels [] = []
as_levels (readable fd rs ∷ es) = levels fd rs ++ as_levels es
as_levels (e ∷ es) = e ∷ as_levels es

-- All batches, up to an error of `epoll_wait`.
unfoldable pub batches : List (Option (List TriggerEvent)) → List TriggerEvent
batches [] = []
batches (none ∷ bs) = []
batches (some es ∷ bs) = es ++ batches bs

-- The actions without the two messages that tell how often the loop comes round, and without the
-- mode that a descriptor is watched in.
unfoldable pub work : List TriggerAction → List TriggerAction
work [] = []
work (addfd fd enable_et ∷ out) = addfd fd true ∷ work out
work (event_target_once ∷ out) = work out
work (read_later ∷ out) = work out
work (close fd ∷ out) = close fd ∷ work out
work (printed ret text ∷ out) = printed ret text ∷ work out
work (something_else ∷ out) = something_else ∷ work out
work (wait_error ∷ out) = wait_error ∷ work out

read_all-levels :
    (fd : ℕ) (rs : List Received) (es : List TriggerEvent) (out : List TriggerAction)
    → IsDrained rs
    → work out ≡ work (use_lt es)
    → work (read_all fd rs ++ out) ≡ work (use_lt (levels fd rs ++ es))
unfolding use_lt levels read_all read_once work
read_all-levels fd [] es out d h = absurd d
read_all-levels fd (would_block ∷ rs) es out d h = h
read_all-levels fd (broken ∷ rs) es out d h = rw d (ap (λ (u : List TriggerAction). close fd ∷ u) h)
read_all-levels fd (ended ∷ rs) es out d h = absurd d
read_all-levels fd (content buf ∷ rs) es out d h =
    ap (λ (u : List TriggerAction). printed (length buf) (before_nul buf) ∷ u)
      (read_all-levels fd rs es out d h)

use_et-levels :
    (es : List TriggerEvent) → All IsServed es → work (use_et es) ≡ work (use_lt (as_levels es))
unfolding use_et use_lt as_levels work
use_et-levels [] h = refl
use_et-levels (arrived c ∷ es) h =
    ap (λ (out : List TriggerAction). addfd c true ∷ out) (use_et-levels es h.1)
use_et-levels (readable fd rs ∷ es) h =
    read_all-levels fd rs (as_levels es) (use_et es) h.0 (use_et-levels es h.1)
use_et-levels (other ∷ es) h =
    ap (λ (out : List TriggerAction). something_else ∷ out) (use_et-levels es h.1)

work-append : (xs ys : List TriggerAction) → work (xs ++ ys) ≡ work xs ++ work ys
unfolding work
work-append [] ys = refl
work-append (addfd fd enable_et ∷ xs) ys = ap (λ u. addfd fd true ∷ u) (work-append xs ys)
work-append (event_target_once ∷ xs) ys = work-append xs ys
work-append (read_later ∷ xs) ys = work-append xs ys
work-append (close fd ∷ xs) ys = ap (λ u. close fd ∷ u) (work-append xs ys)
work-append (printed ret text ∷ xs) ys = ap (λ u. printed ret text ∷ u) (work-append xs ys)
work-append (something_else ∷ xs) ys = ap (λ u. something_else ∷ u) (work-append xs ys)
work-append (wait_error ∷ xs) ys = ap (λ u. wait_error ∷ u) (work-append xs ys)

use_et-append : (xs ys : List TriggerEvent) → use_et (xs ++ ys) ≡ use_et xs ++ use_et ys
unfolding use_et
use_et-append [] ys = refl
use_et-append (arrived c ∷ xs) ys =
    ap (λ (out : List TriggerAction). addfd c true ∷ out) (use_et-append xs ys)
use_et-append (readable fd rs ∷ xs) ys = rw (use_et-append xs ys) (
    ap (λ (out : List TriggerAction). event_target_once ∷ out)
      (sym (append_assoc (read_all fd rs) (use_et xs) (use_et ys))))
use_et-append (other ∷ xs) ys =
    ap (λ (out : List TriggerAction). something_else ∷ out) (use_et-append xs ys)

-- What `main` does when `epoll_wait` fails.
abbrev pub ending : (listenfd : ℕ) → List (Option (List TriggerEvent)) → List TriggerAction
ending listenfd [] = []
ending listenfd (none ∷ bs) = wait_error ∷ close listenfd ∷ []
ending listenfd (some es ∷ bs) = ending listenfd bs

main_loop-batches :
    (listenfd : ℕ) (bs : List (Option (List TriggerEvent)))
    → main_loop listenfd bs ≡ use_et (batches bs) ++ ending listenfd bs
unfolding main_loop batches use_et
main_loop-batches listenfd [] = refl
main_loop-batches listenfd (none ∷ bs) = refl
main_loop-batches listenfd (some es ∷ bs) =
    rw (main_loop-batches listenfd bs, use_et-append es (batches bs))
      (sym (append_assoc (use_et es) (use_et (batches bs)) (ending listenfd bs)))

-- When no client ends its connection and every read event lasts until EAGAIN or an error, the
-- edge-triggered loop of main makes the same calls and prints the same, in the same order, as
-- use_LT on the events that level triggering reports, one for each recv that gives something: the
-- number and the text of all that is received, and each unknown event. The comparison leaves out
-- the lines "event target once" and "read later", the mode in which new clients are watched, and
-- what follows an error of epoll_wait.
pub main_loop-levels :
    (listenfd : ℕ) (bs : List (Option (List TriggerEvent)))
    → All IsServed (batches bs)
    → work (main_loop listenfd bs)
      ≡ work (use_lt (as_levels (batches bs))) ++ work (ending listenfd bs)
main_loop-levels listenfd bs h =
    ap work (main_loop-batches listenfd bs)
    ∙ work-append (use_et (batches bs)) (ending listenfd bs)
    ∙ ap (λ (out : List TriggerAction). out ++ work (ending listenfd bs))
        (use_et-levels (batches bs) h)
