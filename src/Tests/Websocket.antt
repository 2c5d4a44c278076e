-- ===== src/Tests/Websocket.antt =====
-- Messages over a websocket, and histories of its adaptor.
use warpcoil.Base.{◌≡◌, refl, List, [], ◌∷◌, ◌++◌, none, some, true, false, arith, run_events}
use warpcoil.Parse.Integer.{write_integer, write_bytes, integer_parser}
use warpcoil.Parse.Variant.Reading.{index}
use warpcoil.Types.Syntax.{count}
use warpcoil.Wire.Values.{find_suitable_uint_cpp_type, generate_parser_type}
use warpcoil.Wire.Serialize.{generate_value_serialization}
use warpcoil.Receive.{begin_parse_value, start, on_read, ReadEvent}
use warpcoil.Receive.Chunks.{Delivers}
use warpcoil.Tests.Parse.{ascii}
use warpcoil.Tests.Wire.{record_type, record_value, record_bytes, record_solid}
use warpcoil.Websocket.{
  Adaptor, AdaptorEvent, reads, received, writes, sent, new_adaptor, no_error, binary, text, close,
  closed, ping, adaptor_step, AdaptorAction, async_read_some, read_over, async_write_some,
  write_over, read_called, write_called, read_begun, write_begun,
}
use warpcoil.Websocket.Bytes.{delivered, arrived, run_events-delivered}
use warpcoil.Websocket.Handlers.{
  readers, readers_called, writers, writers_called, messages, written, run_events-called,
}
use warpcoil.Websocket.Reading.{Message, read_all, next_read, next_read-has_error}
use warpcoil.Websocket.Reading.Content.{Pieces, read_all-content}
use warpcoil.Websocket.Messages.{transfer_over_websocket}

-- A read for two bytes gets the first of three; the next one finds the third.
abbrev history : List AdaptorEvent
history =
    reads 10 2
    ∷ writes 20 (7 ∷ 8 ∷ [])
    ∷ received no_error binary (1 ∷ 2 ∷ 3 ∷ [])
    ∷ reads 11 2
    ∷ sent (record { value = 5; is_websocket_error = false })
    ∷ reads 12 2
    ∷ received no_error ping (4 ∷ [])
    ∷ []

abbrev after_history : Adaptor
after_history = record {
  received_opcode = some ping;
  receive_buffer = 4 ∷ [];
  reading = none;
  writing = none;
}

abbrev done : List AdaptorAction
done =
    read_begun
    ∷ write_begun (7 ∷ 8 ∷ [])
    ∷ read_called 10 no_error (1 ∷ 2 ∷ [])
    ∷ read_called 11 no_error (3 ∷ [])
    ∷ write_called 20 (record { value = 5; is_websocket_error = false }) 0
    ∷ read_begun
    ∷ read_called 12 (record { value = 1; is_websocket_error = true }) []
    ∷ []

history_runs : run_events adaptor_step history (new_adaptor []) ≡ some (after_history, done)
unfolding adaptor_step async_read_some read_over async_write_some write_over
history_runs = refl

run_events-delivered_example : delivered done ++ after_history.receive_buffer ≡ arrived history
unfolding adaptor_step async_read_some read_over async_write_some write_over
run_events-delivered_example = run_events-delivered history (new_adaptor [])

run_events-called_example :
    (readers_called done ++ [] ≡ readers history)
    × (writers_called done ++ [] ≡ writers history)
    × (messages done ≡ written history)
unfolding adaptor_step async_read_some read_over async_write_some write_over
run_events-called_example = run_events-called history (new_adaptor [])

-- `record_bytes` and two more, in three messages, one of them empty.
abbrev arriving : List Message
arriving =
    record { error = no_error; opcode = binary; content = 44 ∷ 2 ∷ 104 ∷ [] }
    ∷ record { error = no_error; opcode = text; content = [] }
    ∷ record { error = no_error; opcode = binary; content = 105 ∷ 1 ∷ 1 ∷ 7 ∷ 8 ∷ 9 ∷ [] }
    ∷ []

read_all-content_example :
    Pieces (read_all 13 2 (new_adaptor (1 ∷ [])) arriving) (record_bytes ++ 8 ∷ 9 ∷ [])
read_all-content_example =
    read_all-content 13 2 (1 ∷ []) arriving (omega arith) (omega arith)
      ((refl, refl), ((refl, refl), ((refl, refl), tt)))

transfer_over_websocket_example :
    Delivers
      (generate_parser_type ascii record_type)
      (begin_parse_value
        (generate_parser_type ascii record_type)
        []
        (read_all 13 2 (new_adaptor (1 ∷ [])) arriving))
      record_value
      (8 ∷ 9 ∷ [])
unfolding generate_value_serialization count index write_integer write_bytes
    find_suitable_uint_cpp_type
transfer_over_websocket_example =
    transfer_over_websocket ascii record_type record_solid record_value refl 13 2 (1 ∷ []) arriving
      (8 ∷ 9 ∷ []) (omega arith) (omega arith) ((refl, refl), ((refl, refl), ((refl, refl), tt)))
      refl

abbrev closing : Message
closing = record { error = no_error; opcode = close; content = [] }

-- The parse operation goes on after the close.
next_read-has_error_example :
    (event : ReadEvent) × (after : Adaptor) × (next_read 512 (new_adaptor []) (closing ∷ [])
      ≡ some (event, after, []))
    × (on_read (integer_parser 2) (integer_parser 2).start [] event
        ≡ start (integer_parser 2) (integer_parser 2).start [])
next_read-has_error_example =
    next_read-has_error (integer_parser 2) (integer_parser 2).start [] 512 closing [] closed
      (omega arith) refl refl
