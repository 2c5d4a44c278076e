-- ===== src/Javascript/Peer/Requests.antt =====
-- `generate_client`, and the callback that `generate_request_parsing` prints: the buffers that are sent.
use warpcoil.Base.{ℕ, suc, ◌+◌, List, [], ◌∷◌, ◌++◌, Option, none, some, length, replicate}
use warpcoil.Types.Syntax.{Identifier, WireType, Parameter, integer, utf8}
use warpcoil.Generated.Interface.{Method}
use warpcoil.Javascript.Values.{pos, Value, Values, number, text, long}
use warpcoil.Javascript.Parsing.{Closure, generate_parser_creation}
use warpcoil.Javascript.Writing.{
  Script, at_place, element_of, rest_of, generate_size_of_value, generate_serialization, then_size,
  and_then, with_size,
}
use warpcoil.Javascript.Peer.{bytes_sent, Peer, Outcome, returned, thrown, set_pending, perform}

abbrev pub byte_type : WireType
byte_type = integer (record { minimum = 0; maximum = 255 })

abbrev pub id_type : WireType
id_type = integer (record { minimum = 0; maximum = 0xffffffffffffffff })

abbrev pub name_type : WireType
name_type = utf8 (record { minimum = 0; maximum = 255 })

unfoldable pub size_of_parameters : List Parameter → Values → Option ℕ
unfolding then_size
size_of_parameters [] values = some 0
size_of_parameters (p ∷ ps) values =
    then_size (generate_size_of_value p.type_ (element_of values))
      (size_of_parameters ps (rest_of values))

-- `write_pointer` moves on between the parameters.
unfoldable pub serialize_parameters : List Parameter → Values → (write_pointer : ℕ) → Script
unfolding and_then with_size
serialize_parameters [] values write_pointer buffer = some buffer
serialize_parameters (p ∷ []) values write_pointer buffer =
    generate_serialization p.type_ (element_of values) (at_place write_pointer) buffer
serialize_parameters (p ∷ q ∷ ps) values write_pointer buffer =
    and_then (generate_serialization p.type_ (element_of values) (at_place write_pointer) buffer) (
      with_size (generate_size_of_value p.type_ (element_of values))
        (λ n. serialize_parameters (q ∷ ps) (rest_of values) (write_pointer + n)))

-- The type of the message and the id.
unfoldable pub serialize_header : (message_type : ℕ) → (request_id : Value) → Script
unfolding and_then
serialize_header message_type request_id buffer =
    and_then (generate_serialization byte_type (number (pos message_type)) (at_place 0) buffer)
      (generate_serialization id_type request_id (at_place 1))

unfoldable pub request_bytes :
    Identifier → List Parameter → Values → (request_id : Value) → Option ℕ → Option (List ℕ)
unfolding and_then serialize_header serialize_parameters
request_bytes name ps arguments request_id none = none
request_bytes name ps arguments request_id (some n) =
    and_then (serialize_header 0 request_id (replicate (1 + 8 + 1 + length name + n) 0)) (λ b.
      and_then (generate_serialization name_type (text name) (at_place (1 + 8)) b)
        (serialize_parameters ps arguments (1 + 8 + (1 + length name))))

-- `request_buffer`, when it is sent.
unfoldable pub request_buffer :
    Identifier → List Parameter → Values → (next_request_id : ℕ) → Option (List ℕ)
unfolding request_bytes size_of_parameters
request_buffer name ps arguments next_request_id =
    request_bytes name ps arguments (long (pos 0) (pos next_request_id))
      (size_of_parameters ps arguments)

-- The size is computed before `++next_request_id`, the buffer is written after it.
requested : (on_result : ℕ) → (size : Option ℕ) → Option (List ℕ) → Closure → Peer → Outcome × Peer
unfolding set_pending
requested on_result none buffer parser p = (thrown, p)
requested on_result (some n) none parser p =
    (thrown, record p { next_request_id = suc p.next_request_id })
requested on_result (some n) (some bytes) parser p = (
  returned,
  record p {
    next_request_id = suc p.next_request_id;
    pending_requests =
        set_pending (pos 0, pos p.next_request_id)
          (record { argument_parser = parser; on_result = on_result }) p.pending_requests;
    effects = p.effects ++ bytes_sent bytes ∷ [];
  },
)

with_parser : Option Closure → (Closure → Outcome × Peer) → Option (Outcome × Peer)
with_parser none f = none
with_parser (some c) f = some (f c)

-- A method of the client. `none` is the exception of the generator for its result type.
unfoldable pub call_client :
    Identifier → Method → (arguments : Values) → (on_result : ℕ) → Peer → Option (Outcome × Peer)
unfolding requested with_parser size_of_parameters
call_client name m arguments on_result p =
    with_parser (generate_parser_creation m.result) (λ parser.
      requested on_result (size_of_parameters m.parameters arguments)
        (request_buffer name m.parameters arguments p.next_request_id) parser p)

callback_result : Option (List ℕ) → Peer → Outcome × Peer
callback_result none p = (thrown, p)
callback_result (some bytes) p = (returned, perform (bytes_sent bytes) p)

response_bytes : WireType → (request_id result : Value) → Option ℕ → Option (List ℕ)
unfolding and_then serialize_header
response_bytes t request_id result none = none
response_bytes t request_id result (some n) =
    and_then (serialize_header 1 request_id (replicate (1 + 8 + n) 0))
      (generate_serialization t result (at_place (1 + 8)))

-- The callback that a method of `server_implementation` is given.
unfoldable pub call_callback : WireType → (request_id result : Value) → Peer → Outcome × Peer
unfolding callback_result response_bytes
call_callback t request_id result p =
    callback_result (response_bytes t request_id result (generate_size_of_value t result)) p
