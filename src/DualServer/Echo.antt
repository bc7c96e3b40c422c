-- ===== src/DualServer/Echo.antt =====
-- Everything that is received is sent back.
use mathlib.Core.List.{append_assoc, append-nil}
use my_linux_demo.Base.{
  ℕ, zero, suc, ◌≤◌, ◌≡◌, ◌-◌, map, refl, sym, ap, Option, none, some, List, [], ◌∷◌, ◌++◌, ◌==◌,
  if◌then◌else◌, arith, length, All, Bool-cases, inl, inr,
}
use my_linux_demo.Socket.{Received, would_block, broken, ended, content}
use my_linux_demo.DualServer.{
  udp_size, EchoEvent, arrived, datagram, no_datagram, readable, other, EchoAction, watch, close,
  send, sendto, in_buffer, answer_udp, echo, on_event, on_batch, main_loop,
}

-- The bytes that are sent to a client.
unfoldable pub sent_bytes : ℕ → List EchoAction → List ℕ
sent_bytes fd [] = []
sent_bytes fd (send c buf ∷ out) = if c == fd then buf ++ sent_bytes fd out else sent_bytes fd out
sent_bytes fd (a ∷ out) = sent_bytes fd out

-- The answers that are sent to a UDP address.
unfoldable pub datagrams_to : ℕ → List EchoAction → List (List ℕ)
datagrams_to a [] = []
datagrams_to a (sendto c buf ∷ out) =
    if c == a then buf ∷ datagrams_to a out else datagrams_to a out
datagrams_to a (x ∷ out) = datagrams_to a out

-- What `recv` gives before it fails.
unfoldable pub stream : List Received → List ℕ
stream [] = []
stream (would_block ∷ rs) = []
stream (broken ∷ rs) = []
stream (ended ∷ rs) = stream rs
stream (content buf ∷ rs) = buf ++ stream rs

-- The events up to an error of `epoll_wait`.
unfoldable pub served : List (Option (List EchoEvent)) → List EchoEvent
served [] = []
served (none ∷ bs) = []
served (some es ∷ bs) = es ++ served bs

-- What a client writes, over all events.
unfoldable pub written : ℕ → List EchoEvent → List ℕ
written fd [] = []
written fd (readable c rs ∷ es) = if c == fd then stream rs ++ written fd es else written fd es
written fd (e ∷ es) = written fd es

-- The datagrams from an address, none of them empty.
unfoldable pub datagrams_from : ℕ → List EchoEvent → List (List ℕ)
datagrams_from a [] = []
datagrams_from a (datagram c (b ∷ bs) ∷ es) =
    if c == a then (b ∷ bs) ∷ datagrams_from a es else datagrams_from a es
datagrams_from a (e ∷ es) = datagrams_from a es

sent_bytes-append :
    (fd : ℕ) (xs ys : List EchoAction)
    → sent_bytes fd (xs ++ ys) ≡ sent_bytes fd xs ++ sent_bytes fd ys
unfolding sent_bytes
sent_bytes-append fd [] ys = refl
sent_bytes-append fd (send c buf ∷ xs) ys = elim (Bool-cases (c == fd)) [
  | inl e ↦
      rw (e, sent_bytes-append fd xs ys)
        (sym (append_assoc buf (sent_bytes fd xs) (sent_bytes fd ys)))
  | inr e ↦ rw e (sent_bytes-append fd xs ys)
]
sent_bytes-append fd (sendto c buf ∷ xs) ys = sent_bytes-append fd xs ys
sent_bytes-append fd (watch c ∷ xs) ys = sent_bytes-append fd xs ys
sent_bytes-append fd (close c ∷ xs) ys = sent_bytes-append fd xs ys

sent_bytes-echo :
    (fd c : ℕ) (rs : List Received)
    → sent_bytes fd (echo c rs) ≡ (if c == fd then stream rs else [])
unfolding sent_bytes echo stream
sent_bytes-echo fd c [] = ground arith
sent_bytes-echo fd c (would_block ∷ rs) = ground arith
sent_bytes-echo fd c (broken ∷ rs) = ground arith
sent_bytes-echo fd c (ended ∷ rs) = sent_bytes-echo fd c rs
sent_bytes-echo fd c (content buf ∷ rs) = elim (Bool-cases (c == fd)) [
  | inl e ↦ rw (e, sent_bytes-echo fd c rs, e) refl
  | inr e ↦ rw (e, sent_bytes-echo fd c rs, e) refl
]

sent_bytes-answer_udp : (fd a : ℕ) (bs : List ℕ) → sent_bytes fd (answer_udp a bs) ≡ []
unfolding sent_bytes answer_udp
sent_bytes-answer_udp fd a [] = refl
sent_bytes-answer_udp fd a (b ∷ bs) = refl

sent_bytes-on_batch : (fd : ℕ) (es : List EchoEvent) → sent_bytes fd (on_batch es) ≡ written fd es
unfolding on_batch on_event written sent_bytes
sent_bytes-on_batch fd [] = refl
sent_bytes-on_batch fd (arrived c ∷ es) = sent_bytes-on_batch fd es
sent_bytes-on_batch fd (datagram a bs ∷ es) =
    rw (sent_bytes-append fd (answer_udp a bs) (on_batch es), sent_bytes-answer_udp fd a bs)
      (sent_bytes-on_batch fd es)
sent_bytes-on_batch fd (no_datagram ∷ es) = sent_bytes-on_batch fd es
sent_bytes-on_batch fd (other ∷ es) = sent_bytes-on_batch fd es
sent_bytes-on_batch fd (readable c rs ∷ es) =
    rw
      (
        sent_bytes-append fd (echo c rs) (on_batch es),
        sent_bytes-echo fd c rs,
        sent_bytes-on_batch fd es,
      )
      (elim (Bool-cases (c == fd)) [ inl e ↦ rw e refl | inr e ↦ rw e refl ])

-- What a UDP client is sent for a datagram: the bytes of the datagram, and zeros behind them.
unfoldable pub zeros : ℕ → List ℕ
zeros zero = []
zeros (suc n) = 0 ∷ zeros n

abbrev pub padded : List ℕ → List ℕ
padded bs = bs ++ zeros (udp_size - length bs)

in_buffer-zeros :
    (n : ℕ) (bs : List ℕ) → length bs ≤ n → in_buffer n bs ≡ bs ++ zeros (n - length bs)
unfolding in_buffer zeros
in_buffer-zeros zero [] l = refl
in_buffer-zeros zero (b ∷ bs) l = absurd (omega (arith, l))
in_buffer-zeros (suc n) [] l =
    let step : suc n - 0 ≡ suc (n - 0) = omega arith in
    rw step (ap (λ (xs : List ℕ). 0 ∷ xs) (in_buffer-zeros n [] (omega arith)))
in_buffer-zeros (suc n) (b ∷ bs) l =
    let step : suc n - suc (length bs) ≡ n - length bs = omega arith in
    rw step (ap (λ (xs : List ℕ). b ∷ xs) (in_buffer-zeros n bs (omega (arith, l))))

-- A datagram has at most the length that `recvfrom` asks for.
abbrev pub Fits : EchoEvent → Type 0
Fits (datagram a bs) = length bs ≤ udp_size
Fits e = Unit

datagrams_to-append :
    (a : ℕ) (xs ys : List EchoAction)
    → datagrams_to a (xs ++ ys) ≡ datagrams_to a xs ++ datagrams_to a ys
unfolding datagrams_to
datagrams_to-append a [] ys = refl
datagrams_to-append a (sendto c buf ∷ xs) ys = elim (Bool-cases (c == a)) [
  | inl e ↦ rw (e, datagrams_to-append a xs ys) refl
  | inr e ↦ rw e (datagrams_to-append a xs ys)
]
datagrams_to-append a (send c buf ∷ xs) ys = datagrams_to-append a xs ys
datagrams_to-append a (watch c ∷ xs) ys = datagrams_to-append a xs ys
datagrams_to-append a (close c ∷ xs) ys = datagrams_to-append a xs ys

datagrams_to-echo : (a c : ℕ) (rs : List Received) → datagrams_to a (echo c rs) ≡ []
unfolding datagrams_to echo
datagrams_to-echo a c [] = refl
datagrams_to-echo a c (would_block ∷ rs) = refl
datagrams_to-echo a c (broken ∷ rs) = refl
datagrams_to-echo a c (ended ∷ rs) = datagrams_to-echo a c rs
datagrams_to-echo a c (content buf ∷ rs) = datagrams_to-echo a c rs

datagrams_to-on_batch :
    (a : ℕ) (es : List EchoEvent)
    → All Fits es
    → datagrams_to a (on_batch es) ≡ map padded (datagrams_from a es)
unfolding on_batch on_event answer_udp datagrams_to datagrams_from
datagrams_to-on_batch a [] f = refl
datagrams_to-on_batch a (arrived c ∷ es) f = datagrams_to-on_batch a es f.1
datagrams_to-on_batch a (no_datagram ∷ es) f = datagrams_to-on_batch a es f.1
datagrams_to-on_batch a (other ∷ es) f = datagrams_to-on_batch a es f.1
datagrams_to-on_batch a (readable c rs ∷ es) f =
    rw (datagrams_to-append a (echo c rs) (on_batch es), datagrams_to-echo a c rs)
      (datagrams_to-on_batch a es f.1)
datagrams_to-on_batch a (datagram c [] ∷ es) f = datagrams_to-on_batch a es f.1
datagrams_to-on_batch a (datagram c (b ∷ bs) ∷ es) f = elim (Bool-cases (c == a)) [
  | inl e ↦ rw (e, in_buffer-zeros udp_size (b ∷ bs) f.0, datagrams_to-on_batch a es f.1) refl
  | inr e ↦ rw e (datagrams_to-on_batch a es f.1)
]

on_batch-append : (xs ys : List EchoEvent) → on_batch (xs ++ ys) ≡ on_batch xs ++ on_batch ys
unfolding on_batch
on_batch-append [] ys = refl
on_batch-append (e ∷ xs) ys =
    rw (on_batch-append xs ys) (sym (append_assoc (on_event e) (on_batch xs) (on_batch ys)))

-- The whole run, with what an error of `epoll_wait` adds.
main_loop-served :
    (listenfd : ℕ) (bs : List (Option (List EchoEvent)))
    → (end : List EchoAction) × (main_loop listenfd bs ≡ on_batch (served bs) ++ end)
      × ((fd : ℕ) → sent_bytes fd end ≡ [])
      × ((a : ℕ) → datagrams_to a end ≡ [])
unfolding main_loop served sent_bytes datagrams_to on_batch
main_loop-served listenfd [] = ([], refl, λ fd. refl, λ a. refl)
main_loop-served listenfd (none ∷ bs) = (close listenfd ∷ [], refl, λ fd. refl, λ a. refl)
main_loop-served listenfd (some es ∷ bs) =
    let (end, e, s, d) = main_loop-served listenfd bs in
    (
      end,
      rw (e, on_batch-append es (served bs))
          (sym (append_assoc (on_batch es) (on_batch (served bs)) end)),
      s,
      d,
    )

-- Over all batches up to an error of epoll_wait, with no datagram longer than UDP_BUFFER_SIZE - 1,
-- every TCP client is sent exactly the bytes that recv gives of it before a failure, in order,
-- whatever events of other clients lie in between; a UDP address gets one answer for each non-
-- empty datagram, in order: the datagram, filled up with zeros to UDP_BUFFER_SIZE - 1 bytes.
pub main_loop-echoes :
    (listenfd fd a : ℕ) (bs : List (Option (List EchoEvent)))
    → All Fits (served bs)
    → (sent_bytes fd (main_loop listenfd bs) ≡ written fd (served bs))
      × (datagrams_to a (main_loop listenfd bs) ≡ map padded (datagrams_from a (served bs)))
main_loop-echoes listenfd fd a bs f =
    let (end, e, s, d) = main_loop-served listenfd bs in
    rw
      (
        e,
        sent_bytes-append fd (on_batch (served bs)) end,
        s fd,
        sent_bytes-on_batch fd (served bs),
        datagrams_to-append a (on_batch (served bs)) end,
        d a,
        datagrams_to-on_batch a (served bs) f,
      )
      (append-nil (written fd (served bs)), append-nil (map padded (datagrams_from a (served bs))))
