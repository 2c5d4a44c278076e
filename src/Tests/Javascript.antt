-- ===== src/Tests/Javascript.antt =====
-- The script for small types: what it reads, writes and receives.
use warpcoil.Base.{◌^◌, ◌<◌, ◌≤◌, ◌≡◌, refl, ◌⊎◌, [], ◌∷◌, ◌++◌, some, arith, replicate}
use warpcoil.Types.Syntax.{
  WireType, integer, tuple, structure, nil, cons, end, field, parameter_types, clone,
  get_parameter_type,
}
use warpcoil.Parse.Integer.{write_integer, write_bytes}
use warpcoil.Wire.Values.{ValueOf}
use warpcoil.Generated.Interface.{find_method, equal}
use warpcoil.Generated.Server.{on_result}
use warpcoil.Javascript.Values.{pos, number, text, array, item, none_left, long, push}
use warpcoil.Javascript.Parsing.{
  parse_int, call_closure, generate_parser_creation, find_number_of_bytes_required, Returns, Throws,
}
use warpcoil.Javascript.Parsing.{parse_text, parse_content, content_called}
use warpcoil.Javascript.Texts.{decode_utf8}
use warpcoil.Parse.Interface.{need_more_input, parse_complete, consumed}
use warpcoil.Javascript.Peer.Input.{receive_byte}
use warpcoil.Javascript.Integers.{Accepted, parse_int-write_integer}
use warpcoil.Javascript.Writing.{
  generate_serialization, generate_size_of_value, at_place, set_bytes, items_of, plus, to_uint,
  to_utf8,
}
use warpcoil.Javascript.Peer.{
  set_pending, Peer, returned, thrown, initial_state, bytes_sent, method_called,
}
use warpcoil.Javascript.Peer.Requests.{call_client, call_callback, request_buffer}
use warpcoil.Javascript.Receiving.{receive_bytes}
use warpcoil.Tests.Generated.{two_bytes, short_text, repeat_method, definition}

abbrev four_bytes : WireType
four_bytes = integer (record { minimum = 0; maximum = 0xffffffff })

-- A 4-byte integer from 2^31 on is negative in the script, and refused.
parse_int-write_integer_example :
    (Accepted 0 0xffffffff (2 ^ 31)
      × Returns (parse_int 4 0 0xffffffff 0 0) (write_integer 4 (2 ^ 31)) (number (pos (2 ^ 31))))
    ⊎ (((2 ^ 31 < 0) ⊎ ((0xffffffff < 2 ^ 31) ⊎ (2 ^ 31 ≤ 2 ^ 31)))
        × Throws (parse_int 4 0 0xffffffff 0 0) (write_integer 4 (2 ^ 31)))
parse_int-write_integer_example =
    parse_int-write_integer 4 0 0xffffffff (omega arith) (2 ^ 31) (omega arith) (omega arith)

abbrev pair_type : WireType
pair_type = structure (field short_text (116 ∷ []) (field two_bytes (110 ∷ []) end))

abbrev pair_value : ValueOf pair_type
pair_value = (104 ∷ 105 ∷ [], (300, tt))

abbrev awaiting : Peer
awaiting = record {
  next_request_id = 8;
  pending_requests =
      (
        (pos 0, pos 7),
        record { argument_parser = parse_text (parse_int 1 0 255 0 0); on_result = 10 },
      )
      ∷ [];
  state = initial_state;
  effects = [];
}

-- The parser of a text that is empty waits for more: the next byte is swallowed.
empty_text : (call_closure (parse_content 0 0 []) 65) ≡ (need_more_input, parse_content 0 1 [])
unfolding call_closure content_called
empty_text = refl

-- The two bytes of the letter é, which is one code unit: the parser of the script makes two code
-- units of them, and `to_utf8` makes one byte of the code unit.
accent : decode_utf8 (0xc3 ∷ 0xa9 ∷ []) ≡ 0xe9 ∷ []
unfolding decode_utf8
accent = refl

accent_received :
    (call_closure (parse_content 2 1 (0xc3 ∷ [])) 0xa9).0
    ≡ parse_complete (text (0xc3 ∷ 0xa9 ∷ [])) consumed
unfolding call_closure content_called
accent_received = refl

accent_sent : to_utf8 (text (0xe9 ∷ [])) ≡ 0xe9 ∷ []
unfolding to_utf8
accent_sent = refl

-- A tuple in a tuple is written to the start of the buffer.
nested_tuple :
    generate_serialization
      (tuple (cons (tuple (cons two_bytes nil)) nil))
      (array (item (array (item (number (pos 300)) none_left)) none_left))
      (at_place 9)
      (replicate 11 0)
    ≡ some (1 ∷ 44 ∷ replicate 9 0)
unfolding generate_serialization generate_size_of_value items_of plus set_bytes to_uint
    write_integer write_bytes find_number_of_bytes_required
nested_tuple = refl

-- A message of an unknown type is refused, and so is the argument of a method without parameters.
no_parameters :
    (receive_bytes definition (0 ∷ (write_integer 8 7 ++ 1 ∷ 97 ∷ 0 ∷ [])) (returned, awaiting)).0
    ≡ thrown
unfolding receive_byte write_integer write_bytes generate_parser_creation get_parameter_type
    parameter_types find_method equal call_closure
no_parameters = refl

-- The method is called with the arguments, and the response has its id.
served :
    receive_bytes definition
      (0 ∷ (write_integer 8 7 ++ 1 ∷ 109 ∷ 2 ∷ 104 ∷ 105 ∷ 1 ∷ 44 ∷ []))
      (returned, awaiting)
    ≡ (
      returned,
      record awaiting {
        effects =
            method_called
              (109 ∷ [])
              (item (text (104 ∷ 105 ∷ [])) (item (number (pos 300)) none_left))
              (long (pos 0) (pos 7))
            ∷ [];
      },
    )
unfolding receive_byte write_integer write_bytes generate_parser_creation get_parameter_type
    parameter_types clone find_method equal call_closure push
served = refl

responded_to : call_callback short_text (long (pos 0) (pos 7)) (text (104 ∷ [])) awaiting ≡ (
  returned,
  record awaiting { effects = bytes_sent (1 ∷ (write_integer 8 7 ++ 1 ∷ 104 ∷ [])) ∷ [] },
)
unfolding call_callback write_integer write_bytes generate_size_of_value generate_serialization
    find_number_of_bytes_required set_bytes to_utf8 plus to_uint equal
responded_to = refl

requested_from :
    call_client
      (109 ∷ [])
      repeat_method
      (item (text (104 ∷ 105 ∷ [])) (item (number (pos 300)) none_left))
      11
      awaiting
    ≡ some (
      returned,
      record awaiting {
        next_request_id = 9;
        pending_requests =
            awaiting.pending_requests
            ++ (
              (pos 0, pos 8),
              record { argument_parser = parse_text (parse_int 1 0 255 0 0); on_result = 11 },
            )
              ∷ [];
        effects =
            bytes_sent (0 ∷ (write_integer 8 8 ++ 1 ∷ 109 ∷ 2 ∷ 104 ∷ 105 ∷ 1 ∷ 44 ∷ [])) ∷ [];
      },
    )
unfolding call_client write_integer write_bytes generate_size_of_value generate_serialization
    generate_parser_creation request_buffer set_bytes to_utf8 plus to_uint equal
    find_number_of_bytes_required set_pending
requested_from = refl
