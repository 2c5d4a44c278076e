-- ===== src/Javascript/Peer.antt =====
-- The two objects that the script makes for an interface: the client, whose methods send requests,
-- and the input receiver, which is called with every byte that comes in. They share the object
-- `pending_requests`.
--
-- `effects` are the calls of `send_bytes`, of the handlers `on_result` (a handler is a number) and
-- of the methods of `server_implementation`, with the request id in place of the callback. An
-- exception of the script is `thrown`; the changes before it stay. The names of methods are ASCII,
-- and the parameters are named differently from the variables of the script.
pub mod Requests
pub mod Input
use warpcoil.Base.{
  ℕ, suc, ◌+◌, ◌-◌, ◌^◌, Bool, true, false, not, ◌&&◌, List, [], ◌∷◌, ◌++◌, Option, none, some,
  ◌==◌, if◌then◌else◌, length, replicate,
}
use warpcoil.Types.Syntax.{Identifier, WireType, Parameter, integer, utf8, get_parameter_type}
use warpcoil.Parse.Interface.{ParseResult, parse_complete, need_more_input, invalid_input}
use warpcoil.Generated.Interface.{Method, InterfaceDefinition, find_method}
use warpcoil.Javascript.Values.{
  ℤ, pos, negsuc, Value, Values, number, text, array, object, property, none_left, item, long,
}
use warpcoil.Javascript.Parsing.{
  Closure, missing, parse_int_8, parse_text, parse_int, call_closure, generate_parser_creation,
}
use warpcoil.Javascript.Writing.{
  Script, at_place, element_of, rest_of, generate_size_of_value, generate_serialization, then_size,
  and_then, with_size,
}

-- `JSON.stringify(request_id)`: the two numbers.
abbrev pub Key : Type 0
Key = ℤ × ℤ

pub record PendingRequest : Type 0 where
  pub argument_parser : Closure
  pub on_result : ℕ

pub data Action : Type 0 where
  bytes_sent : List ℕ → Action
  result_given : (on_result : ℕ) → Value → Action
  method_called : (name : Identifier) → (arguments : Values) → (request_id : Value) → Action

-- The function in the variable `state`, with the variables that it refers to.
pub data InputState : Type 0 where
  initial_state : InputState
  request_id_expected : Closure → InputState
  method_name_expected : (request_id : Value) → Closure → InputState
  parameters_expected : (name : Identifier) → (request_id : Value) → Closure → InputState
  response_id_expected : Closure → InputState
  result_expected : PendingRequest → Closure → InputState

pub record Peer : Type 0 where
  pub next_request_id : ℕ
  pub pending_requests : List (Key × PendingRequest)
  pub state : InputState
  pub effects : List Action

pub data Outcome : Type 0 where
  returned thrown : Outcome

equal_number : ℤ → ℤ → Bool
equal_number (pos m) (pos n) = m == n
equal_number (negsuc m) (negsuc n) = m == n
equal_number _ _ = false

equal_key : Key → Key → Bool
unfolding equal_number
equal_key (high, low) (high', low') = equal_number high high' && equal_number low low'

-- `pending_requests[key]`
unfoldable pub find_pending : Key → List (Key × PendingRequest) → Option PendingRequest
unfolding equal_key
find_pending key [] = none
find_pending key ((k, request) ∷ rest) =
    let later = find_pending key rest in if equal_key key k then some request else later

-- `pending_requests[key] = …`
unfoldable pub set_pending :
    Key → PendingRequest → List (Key × PendingRequest) → List (Key × PendingRequest)
unfolding equal_key
set_pending key new [] = (key, new) ∷ []
set_pending key new ((k, request) ∷ rest) =
    let later = set_pending key new rest in
    if equal_key key k then (k, new) ∷ rest else (k, request) ∷ later

-- `delete pending_requests[key]`
unfoldable pub delete_pending : Key → List (Key × PendingRequest) → List (Key × PendingRequest)
unfolding equal_key
delete_pending key [] = []
delete_pending key ((k, request) ∷ rest) =
    let later = delete_pending key rest in if equal_key key k then rest else (k, request) ∷ later

abbrev pub perform : Action → Peer → Peer
perform e p = record p { effects = p.effects ++ e ∷ [] }
