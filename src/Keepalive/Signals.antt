-- ===== src/Keepalive/Signals.antt =====
-- The signals that the pipe brings.

use my_linux_demo.Base.{
  ℕ, ◌≡◌, ◌∙◌, Bool, false, ◌||◌, List, [], ◌∷◌, ◌==◌, arith, Bool-cases, inl, inr,
}
use my_linux_demo.Keepalive.{Server, sigalrm, sigterm, on_signal, on_signals}

-- The signal is among those received.
unfoldable pub received : ℕ → List ℕ → Bool
received sig [] = false
received sig (c ∷ sigs) = (c == sig) || received sig sigs

abbrev pub flagged : Server → (timeout stop_server : Bool) → Server
flagged s t e = record s { timeout = t; stop_server = e }

on_signal-flagged :
    (s : Server) (c : ℕ) (t e : Bool)
    → flagged (on_signal s c) ((on_signal s c).timeout || t) ((on_signal s c).stop_server || e)
      ≡ flagged s (s.timeout || ((c == sigalrm) || t)) (s.stop_server || ((c == sigterm) || e))
unfolding on_signal
on_signal-flagged s c t e = elim (Bool-cases s.timeout) [
  | inl h ↦ elim (Bool-cases s.stop_server) [
    | inl k ↦ ground (arith, h, k)
    | inr k ↦ ground (arith, h, k)
  ]
  | inr h ↦ elim (Bool-cases s.stop_server) [
    | inl k ↦ ground (arith, h, k)
    | inr k ↦ ground (arith, h, k)
  ]
]

-- Whatever the order of the signals in the pipe, a SIGALRM among them sets timeout, a SIGTERM
-- among them sets stop_server, and nothing else of the server changes.
pub on_signals-flagged :
    (s : Server) (sigs : List ℕ)
    → on_signals s sigs
      ≡ flagged s (s.timeout || received sigalrm sigs) (s.stop_server || received sigterm sigs)
unfolding on_signals on_signal received
on_signals-flagged s [] = elim (Bool-cases s.timeout) [
  | inl t ↦ ground (arith, t)
  | inr f ↦ ground (arith, f)
]
on_signals-flagged s (c ∷ sigs) =
    on_signals-flagged (on_signal s c) sigs
    ∙ on_signal-flagged s c (received sigalrm sigs) (received sigterm sigs)
