-- ===== src/SelectClient/Copying.antt =====
-- What the client copies, and when it may return.

use my_linux_demo.Base.{
  ℕ, ◌≡◌, refl, ap, Bool, true, false, Option, none, some, List, [], ◌∷◌, ◌++◌, if◌then◌else◌,
}
use my_linux_demo.SelectServer.{ReadResult, eof, failed, bytes}
use my_linux_demo.SelectClient.{
  Ready, ClientCall, print, send, Outcome, returned, quit, on_socket, on_input, str_cli,
}

-- What is printed, and what is sent.
unfoldable pub all_printed : List ClientCall → List ℕ
all_printed [] = []
all_printed (print buf ∷ cs) = buf ++ all_printed cs
all_printed (c ∷ cs) = all_printed cs

unfoldable pub all_sent : List ClientCall → List ℕ
all_sent [] = []
all_sent (send buf ∷ cs) = buf ++ all_sent cs
all_sent (c ∷ cs) = all_sent cs

abbrev pub data_of : Option ReadResult → List ℕ
data_of (some (bytes buf)) = buf
data_of r = []

abbrev pub at_end : Option ReadResult → Bool
at_end (some eof) = true
at_end r = false

-- What the server writes before it closes the connection.
unfoldable pub from_server : List Ready → List ℕ
from_server [] = []
from_server (t ∷ ts) = if at_end t.socket then [] else data_of t.socket ++ from_server ts

-- What is read of the input before its end, in the turns in which the connection is open.
unfoldable pub from_input : List Ready → List ℕ
from_input [] = []
from_input (t ∷ ts) =
    if at_end t.socket then [] else if at_end t.input then [] else data_of t.input ++ from_input ts

-- Whether the input ends before the server closes the connection: `none` if it does not close it.
unfoldable pub closing : (ended : Bool) → List Ready → Option Bool
closing ended [] = none
closing ended (t ∷ ts) =
    if at_end t.socket
    then some ended
    else if at_end t.input
    then closing true ts
    else closing ended ts

-- The ends of `str_cli`.
abbrev pub outcome_of : Option Bool → Option Outcome
outcome_of none = none
outcome_of (some true) = some returned
outcome_of (some false) = some quit

-- What `str_cli` does from some turn on.
abbrev IsCopied : (ended : Bool) → List Ready → Type 0
IsCopied ended ts =
    (all_printed (str_cli ended ts).0 ≡ from_server ts)
    × (all_sent (str_cli ended ts).0 ≡ (if ended then [] else from_input ts))
    × ((str_cli ended ts).1 ≡ outcome_of (closing ended ts))

turn-IsCopied :
    (ended : Bool) (r i : Option ReadResult) (ts : List Ready)
    → ((ended : Bool) → IsCopied ended ts)
    → IsCopied ended (record { socket = r; input = i } ∷ ts)
unfolding str_cli on_socket on_input all_printed all_sent from_server from_input closing
turn-IsCopied true (some eof) i ts next = (refl, refl, refl)
turn-IsCopied false (some eof) i ts next = (refl, refl, refl)
turn-IsCopied true none none ts next = let n = next true in (n.0, n.1, n.2)
turn-IsCopied true none (some eof) ts next = let n = next true in (n.0, n.1, n.2)
turn-IsCopied true none (some failed) ts next = let n = next true in (n.0, n.1, n.2)
turn-IsCopied true none (some (bytes inp)) ts next = let n = next true in (n.0, n.1, n.2)
turn-IsCopied false none none ts next = let n = next false in (n.0, n.1, n.2)
turn-IsCopied false none (some eof) ts next = let n = next true in (n.0, n.1, n.2)
turn-IsCopied false none (some failed) ts next = let n = next false in (n.0, n.1, n.2)
turn-IsCopied false none (some (bytes inp)) ts next =
    let n = next false in (n.0, ap (λ (xs : List ℕ). inp ++ xs) n.1, n.2)
turn-IsCopied true (some failed) none ts next = let n = next true in (n.0, n.1, n.2)
turn-IsCopied true (some failed) (some eof) ts next = let n = next true in (n.0, n.1, n.2)
turn-IsCopied true (some failed) (some failed) ts next = let n = next true in (n.0, n.1, n.2)
turn-IsCopied true (some failed) (some (bytes inp)) ts next = let n = next true in (n.0, n.1, n.2)
turn-IsCopied false (some failed) none ts next = let n = next false in (n.0, n.1, n.2)
turn-IsCopied false (some failed) (some eof) ts next = let n = next true in (n.0, n.1, n.2)
turn-IsCopied false (some failed) (some failed) ts next = let n = next false in (n.0, n.1, n.2)
turn-IsCopied false (some failed) (some (bytes inp)) ts next =
    let n = next false in (n.0, ap (λ (xs : List ℕ). inp ++ xs) n.1, n.2)
turn-IsCopied true (some (bytes buf)) none ts next =
    let n = next true in (ap (λ (xs : List ℕ). buf ++ xs) n.0, n.1, n.2)
turn-IsCopied true (some (bytes buf)) (some eof) ts next =
    let n = next true in (ap (λ (xs : List ℕ). buf ++ xs) n.0, n.1, n.2)
turn-IsCopied true (some (bytes buf)) (some failed) ts next =
    let n = next true in (ap (λ (xs : List ℕ). buf ++ xs) n.0, n.1, n.2)
turn-IsCopied true (some (bytes buf)) (some (bytes inp)) ts next =
    let n = next true in (ap (λ (xs : List ℕ). buf ++ xs) n.0, n.1, n.2)
turn-IsCopied false (some (bytes buf)) none ts next =
    let n = next false in (ap (λ (xs : List ℕ). buf ++ xs) n.0, n.1, n.2)
turn-IsCopied false (some (bytes buf)) (some eof) ts next =
    let n = next true in (ap (λ (xs : List ℕ). buf ++ xs) n.0, n.1, n.2)
turn-IsCopied false (some (bytes buf)) (some failed) ts next =
    let n = next false in (ap (λ (xs : List ℕ). buf ++ xs) n.0, n.1, n.2)
turn-IsCopied false (some (bytes buf)) (some (bytes inp)) ts next =
    let n = next false in
    (ap (λ (xs : List ℕ). buf ++ xs) n.0, ap (λ (xs : List ℕ). inp ++ xs) n.1, n.2)

all-IsCopied : (ended : Bool) (ts : List Ready) → IsCopied ended ts
unfolding str_cli all_printed all_sent from_server from_input closing
all-IsCopied true [] = (refl, refl, refl)
all-IsCopied false [] = (refl, refl, refl)
all-IsCopied ended (t ∷ ts) = turn-IsCopied ended t.socket t.input ts λ b. all-IsCopied b ts

-- str_cli prints exactly what is read of the socket before the connection is closed, and sends
-- exactly what is read of the input before its end or that of the connection, both in order; when
-- the server closes the connection it returns if the input had ended before, and quits with an
-- error otherwise.
pub str_cli-copies :
    (ts : List Ready)
    → (all_printed (str_cli false ts).0 ≡ from_server ts)
      × (all_sent (str_cli false ts).0 ≡ from_input ts)
      × ((str_cli false ts).1 ≡ outcome_of (closing false ts))
str_cli-copies ts = all-IsCopied false ts
