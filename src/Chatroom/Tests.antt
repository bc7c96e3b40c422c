-- ===== src/Chatroom/Tests.antt =====
-- Runs of the chat room, and the theorems at three clients.
use my_linux_demo.Base.{◌≡◌, refl, List, [], ◌∷◌}
use my_linux_demo.Socket.{would_block, content, Received}
use my_linux_demo.Chatroom.{joined, readable, watch, send, broadcast, read_loop, on_events}
use my_linux_demo.Chatroom.Inbox.{inbox, on_events-inbox}
use my_linux_demo.Chatroom.Delivery.{sent_to}

abbrev reads : List Received
reads = content (1 ∷ []) ∷ content (2 ∷ 3 ∷ []) ∷ would_block ∷ []

-- A client joins and writes.
events_run :
    on_events (5 ∷ []) (joined 6 ∷ readable 6 reads ∷ [])
    ≡ (5 ∷ 6 ∷ [], watch 6 ∷ send 5 (1 ∷ []) ∷ send 5 (2 ∷ 3 ∷ []) ∷ [])
unfolding on_events read_loop broadcast
events_run = refl

-- Descriptor 5 is a client from the start, 6 joins.
on_events-inbox_example :
    sent_to 5 (on_events (5 ∷ []) (joined 6 ∷ readable 6 reads ∷ readable 5 reads ∷ [])).1
    ≡ inbox 5 (joined 6 ∷ readable 6 reads ∷ readable 5 reads ∷ [])
on_events-inbox_example =
    on_events-inbox 5 (5 ∷ []) (joined 6 ∷ readable 6 reads ∷ readable 5 reads ∷ []) (refl, tt) refl
      (refl, tt)
