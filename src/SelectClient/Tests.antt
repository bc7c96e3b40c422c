-- ===== src/SelectClient/Tests.antt =====
-- A run of the client.
use my_linux_demo.Base.{◌≡◌, refl, false, none, some, List, [], ◌∷◌}
use my_linux_demo.SelectServer.{eof, bytes}
use my_linux_demo.SelectClient.{
  Ready, print, send, shutdown_write, returned, quit, on_socket, on_input, str_cli,
}
use my_linux_demo.SelectClient.Copying.{
  all_printed, all_sent, from_server, from_input, closing, outcome_of, str_cli-copies,
}

-- The input ends, and then the server closes the connection.
abbrev turns : List Ready
turns =
    record { socket = none; input = some (bytes (1 ∷ 2 ∷ [])) }
    ∷ record { socket = some (bytes (1 ∷ [])); input = some eof }
    ∷ record { socket = some (bytes (2 ∷ [])); input = none }
    ∷ record { socket = some eof; input = none }
    ∷ []

whole_turns :
    str_cli false turns
    ≡ (send (1 ∷ 2 ∷ []) ∷ print (1 ∷ []) ∷ shutdown_write ∷ print (2 ∷ []) ∷ [], some returned)
unfolding str_cli on_socket on_input
whole_turns = refl

early_close : (str_cli false (record { socket = some eof; input = some eof } ∷ [])).1 ≡ some quit
unfolding str_cli on_socket on_input
early_close = refl

str_cli-copies_example :
    (all_printed (str_cli false turns).0 ≡ from_server turns)
    × (all_sent (str_cli false turns).0 ≡ from_input turns)
    × ((str_cli false turns).1 ≡ outcome_of (closing false turns))
str_cli-copies_example = str_cli-copies turns
