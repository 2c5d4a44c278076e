-- ===== src/Javascript/Peer/Input.antt =====
-- `generate_input_receiver`, with `generate_request_parsing` and `generate_response_parsing`: what a
-- byte does to the variable `state`.
use warpcoil.Base.{ℕ, Option, none, some, ◌==◌, if◌then◌else◌}
use warpcoil.Types.Syntax.{Identifier, get_parameter_type}
use warpcoil.Parse.Interface.{ParseResult, parse_complete, need_more_input, invalid_input}
use warpcoil.Generated.Interface.{Method, InterfaceDefinition, find_method}
use warpcoil.Javascript.Values.{Value, number, text, array, object, property, none_left}
use warpcoil.Javascript.Parsing.{
  Closure, missing, parse_int_8, parse_text, parse_int, call_closure, generate_parser_creation,
}
use warpcoil.Javascript.Peer.{
  Key, PendingRequest, result_given, method_called, InputState, initial_state, request_id_expected,
  method_name_expected, parameters_expected, response_id_expected, result_expected, Peer, Outcome,
  returned, thrown, find_pending, delete_pending, perform,
}

unfoldable pub key_of : Value → Option Key
key_of (object (property high (number h) (property low (number l) rest))) = some (h, l)
key_of _ = none

-- An empty result needs no parser.
unfoldable pub await_result : PendingRequest → Closure → Peer → Outcome × Peer
await_result request missing p = (
  returned,
  perform (result_given request.on_result (array none_left)) (record p { state = initial_state }),
)
await_result request c p = (returned, record p { state = result_expected request c })

unfoldable pub response_found : Key → Option PendingRequest → Peer → Outcome × Peer
unfolding delete_pending await_result
response_found key none p = (thrown, p)
response_found key (some request) p =
    await_result request request.argument_parser
      (record p { pending_requests = delete_pending key p.pending_requests })

unfoldable pub response_id_received : Option Key → Peer → Outcome × Peer
unfolding find_pending response_found
response_id_received none p = (thrown, p)
response_id_received (some key) p = response_found key (find_pending key p.pending_requests) p

-- The result of the parser that `state` calls, and what follows if it is a value.
unfoldable pub parsed :
    (Closure → InputState)
    → (Value → Peer → Outcome × Peer)
    → ParseResult Value × Closure
    → Peer
    → Outcome × Peer
parsed waiting next (need_more_input, c) p = (returned, record p { state = waiting c })
parsed waiting next (invalid_input, c) p = (thrown, record p { state = waiting c })
parsed waiting next (parse_complete v k, c) p = next v (record p { state = waiting c })

await_parameters : Identifier → Value → Option Closure → Peer → Outcome × Peer
await_parameters name request_id none p = (thrown, p)
await_parameters name request_id (some c) p =
    (returned, record p { state = parameters_expected name request_id c })

method_found : Identifier → Value → Option Method → Peer → Outcome × Peer
unfolding await_parameters
method_found name request_id none p = (thrown, p)
method_found name request_id (some m) p =
    await_parameters name request_id (generate_parser_creation (get_parameter_type m.parameters)) p

unfoldable pub method_name_received : InterfaceDefinition → Value → Value → Peer → Outcome × Peer
unfolding method_found
method_name_received definition request_id (text name) p =
    method_found name request_id (find_method name definition) p
method_name_received definition request_id _ p = (thrown, p)

unfoldable pub parameters_received : Identifier → Value → Value → Peer → Outcome × Peer
parameters_received name request_id (array values) p =
    (returned, perform (method_called name values request_id) (record p { state = initial_state }))
parameters_received name request_id _ p = (thrown, p)

receive_in : InterfaceDefinition → InputState → ℕ → Peer → Outcome × Peer
unfolding parsed response_id_received method_name_received parameters_received key_of
receive_in definition initial_state input p =
    if input == 0
    then (returned, record p { state = request_id_expected (parse_int_8 0 0 0) })
    else if input == 1
    then (returned, record p { state = response_id_expected (parse_int_8 0 0 0) })
    else (thrown, p)
receive_in definition (request_id_expected c) input p =
    parsed request_id_expected
      (λ v p. (
        returned,
        record p { state = method_name_expected v (parse_text (parse_int 1 0 255 0 0)) },
      ))
      (call_closure c input) p
receive_in definition (method_name_expected request_id c) input p =
    parsed (method_name_expected request_id) (method_name_received definition request_id)
      (call_closure c input) p
receive_in definition (parameters_expected name request_id c) input p =
    parsed (parameters_expected name request_id) (parameters_received name request_id)
      (call_closure c input) p
receive_in definition (response_id_expected c) input p =
    parsed response_id_expected (λ v. response_id_received (key_of v)) (call_closure c input) p
receive_in definition (result_expected request c) input p =
    parsed (result_expected request)
      (λ v p.
        (returned, perform (result_given request.on_result v) (record p { state = initial_state })))
      (call_closure c input) p

-- The function that `generate_input_receiver` returns, called with a byte.
unfoldable pub receive_byte : InterfaceDefinition → ℕ → Peer → Outcome × Peer
unfolding receive_in
receive_byte definition input p = receive_in definition p.state input p
