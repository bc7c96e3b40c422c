-- ===== src/ChatClient/Relay.antt =====
-- Two clients of the chat room: what one of them types, the other prints.
use mathlib.Core.List.{append_assoc}
use my_linux_demo.Base.{
  IsText, before_nul-IsText, All-split, ℕ, ◌≡◌, ◌≢◌, refl, sym, ap, Option, none, some, List, [],
  ◌∷◌, ◌++◌,
}
use my_linux_demo.Socket.{Received, would_block, broken, ended, content}
use my_linux_demo.Chatroom
use my_linux_demo.Chatroom.{ChatEvent}
use my_linux_demo.Chatroom.Delivery.{messages}
use my_linux_demo.ChatClient.{
  TalkEvent, typed, input_failed, readable, other, TalkAction, send, print, send_failed, close,
  receive_loop, on_talk, talk_batch, talk_loop,
}

-- The bytes of messages, one behind the other.
unfoldable pub flat : List (List ℕ) → List ℕ
flat [] = []
flat (m ∷ ms) = m ++ flat ms

flat-append : (xs ys : List (List ℕ)) → flat (xs ++ ys) ≡ flat xs ++ flat ys
unfolding flat
flat-append [] ys = refl
flat-append (x ∷ xs) ys = rw (flat-append xs ys) (sym (append_assoc x (flat xs) (flat ys)))

-- What a client prints, and what it sends.
unfoldable pub all_printed : List TalkAction → List ℕ
all_printed [] = []
all_printed (print num2 text ∷ out) = text ++ all_printed out
all_printed (a ∷ out) = all_printed out

unfoldable pub all_sent : List TalkAction → List ℕ
all_sent [] = []
all_sent (send buf ∷ out) = buf ++ all_sent out
all_sent (a ∷ out) = all_sent out

-- What a client gets from the server, and what is typed, up to an error of `epoll_wait`.
unfoldable pub heard_in : List TalkEvent → List ℕ
heard_in [] = []
heard_in (readable rs ∷ es) = flat (messages rs) ++ heard_in es
heard_in (e ∷ es) = heard_in es

unfoldable pub heard : List (Option (List TalkEvent)) → List ℕ
heard [] = []
heard (none ∷ bs) = []
heard (some es ∷ bs) = heard_in es ++ heard bs

unfoldable pub said_in : List TalkEvent → List ℕ
said_in [] = []
said_in (typed buffer ∷ es) = buffer ++ said_in es
said_in (e ∷ es) = said_in es

unfoldable pub said : List (Option (List TalkEvent)) → List ℕ
said [] = []
said (none ∷ bs) = []
said (some es ∷ bs) = said_in es ++ said bs

all_printed-append :
    (xs ys : List TalkAction) → all_printed (xs ++ ys) ≡ all_printed xs ++ all_printed ys
unfolding all_printed
all_printed-append [] ys = refl
all_printed-append (print num2 text ∷ xs) ys =
    rw (all_printed-append xs ys) (sym (append_assoc text (all_printed xs) (all_printed ys)))
all_printed-append (send buf ∷ xs) ys = all_printed-append xs ys
all_printed-append (send_failed ∷ xs) ys = all_printed-append xs ys
all_printed-append (close ∷ xs) ys = all_printed-append xs ys

all_sent-append : (xs ys : List TalkAction) → all_sent (xs ++ ys) ≡ all_sent xs ++ all_sent ys
unfolding all_sent
all_sent-append [] ys = refl
all_sent-append (send buf ∷ xs) ys =
    rw (all_sent-append xs ys) (sym (append_assoc buf (all_sent xs) (all_sent ys)))
all_sent-append (print num2 text ∷ xs) ys = all_sent-append xs ys
all_sent-append (send_failed ∷ xs) ys = all_sent-append xs ys
all_sent-append (close ∷ xs) ys = all_sent-append xs ys

receive_loop-copies :
    (rs : List Received)
    → IsText (flat (messages rs))
    → all_printed (receive_loop rs) ≡ flat (messages rs)
unfolding receive_loop all_printed messages flat
receive_loop-copies [] h = refl
receive_loop-copies (would_block ∷ rs) h = refl
receive_loop-copies (broken ∷ rs) h = refl
receive_loop-copies (ended ∷ rs) h = receive_loop-copies rs h
receive_loop-copies (content buf ∷ rs) h =
    let (here, rest) = All-split (λ c. c ≢ 0) buf (flat (messages rs)) h in
    rw (before_nul-IsText buf here, receive_loop-copies rs rest) refl

talk_batch-copies :
    (es : List TalkEvent) → IsText (heard_in es) → all_printed (talk_batch es) ≡ heard_in es
unfolding talk_batch on_talk all_printed heard_in
talk_batch-copies [] h = refl
talk_batch-copies (typed buffer ∷ es) h = talk_batch-copies es h
talk_batch-copies (input_failed ∷ es) h = talk_batch-copies es h
talk_batch-copies (other ∷ es) h = talk_batch-copies es h
talk_batch-copies (readable rs ∷ es) h =
    let (here, rest) = All-split (λ c. c ≢ 0) (flat (messages rs)) (heard_in es) h in
    rw
      (
        all_printed-append (receive_loop rs) (talk_batch es),
        receive_loop-copies rs here,
        talk_batch-copies es rest,
      )
      refl

-- A client prints what it gets, where it has no NUL.
pub talk_loop-copies :
    (bs : List (Option (List TalkEvent)))
    → IsText (heard bs)
    → all_printed (talk_loop bs) ≡ heard bs
unfolding talk_loop all_printed heard
talk_loop-copies [] h = refl
talk_loop-copies (none ∷ bs) h = refl
talk_loop-copies (some es ∷ bs) h =
    let (here, rest) = All-split (λ c. c ≢ 0) (heard_in es) (heard bs) h in
    rw
      (
        all_printed-append (talk_batch es) (talk_loop bs),
        talk_batch-copies es here,
        talk_loop-copies bs rest,
      )
      refl

receive_loop-sends : (rs : List Received) → all_sent (receive_loop rs) ≡ []
unfolding receive_loop all_sent
receive_loop-sends [] = refl
receive_loop-sends (would_block ∷ rs) = refl
receive_loop-sends (broken ∷ rs) = refl
receive_loop-sends (ended ∷ rs) = receive_loop-sends rs
receive_loop-sends (content buf ∷ rs) = receive_loop-sends rs

talk_batch-sends : (es : List TalkEvent) → all_sent (talk_batch es) ≡ said_in es
unfolding talk_batch on_talk all_sent said_in
talk_batch-sends [] = refl
talk_batch-sends (typed buffer ∷ es) = ap (λ (xs : List ℕ). buffer ++ xs) (talk_batch-sends es)
talk_batch-sends (input_failed ∷ es) = talk_batch-sends es
talk_batch-sends (other ∷ es) = talk_batch-sends es
talk_batch-sends (readable rs ∷ es) =
    rw
      (
        all_sent-append (receive_loop rs) (talk_batch es),
        receive_loop-sends rs,
        talk_batch-sends es,
      )
      refl

-- A client sends what is typed.
pub talk_loop-sends : (bs : List (Option (List TalkEvent))) → all_sent (talk_loop bs) ≡ said bs
unfolding talk_loop all_sent said
talk_loop-sends [] = refl
talk_loop-sends (none ∷ bs) = refl
talk_loop-sends (some es ∷ bs) =
    rw (all_sent-append (talk_batch es) (talk_loop bs), talk_batch-sends es, talk_loop-sends bs)
      refl

-- What the server reads in a batch, and that only the client `c` writes.
unfoldable pub read_by_server : List ChatEvent → List (List ℕ)
read_by_server [] = []
read_by_server (Chatroom.readable c rs ∷ es) = messages rs ++ read_by_server es
read_by_server (e ∷ es) = read_by_server es

abbrev pub IsOnlyFrom : ℕ → List ChatEvent → Type 0
IsOnlyFrom c [] = Unit
IsOnlyFrom c (Chatroom.readable fd rs ∷ es) = (fd ≡ c) × IsOnlyFrom c es
IsOnlyFrom c (e ∷ es) = IsOnlyFrom c es
