-- ===== src/Generated/Server.antt =====
-- generate_serialization_server.hpp: the generated server. A request is read, dispatched by the name
-- of its method, its arguments are read, the implementation is called, and its result is written.
--
-- `results` are the calls of the handlers of `serve_one_request`. A failed assertion and the
-- exception for an unknown method are `none`.
use warpcoil.Base.{ℕ, Bool, List, [], ◌∷◌, ◌++◌, Option, none, some}
use warpcoil.Types.Syntax.{
  WireType, integer, variant, tuple, vector, utf8, structure, nil, cons, end, field,
  get_parameter_type,
}
use warpcoil.Parse.Interface.{Parser}
use warpcoil.Parse.Integer.{write_integer}
use warpcoil.Receive.{
  ErrorCode, ErrorOr, value, error, invalid_input_error, ReadEvent, Progress, called, reading,
  start, on_read,
}
use warpcoil.Wire.Values.{ValueOf, generate_parser_type}
use warpcoil.Wire.Serialize.{
  Statements, RequestStatus, ok, failure, skip, generate_value_serialization,
}
use warpcoil.Writer.{Writer, append, send_buffer}
use warpcoil.Splitter.{Splitter, message_response, wait_for_request, lock_input, unlock_input}
use warpcoil.Generated.Interface.{Method, InterfaceDefinition, find_method}

pub data TypeEmptiness : Type 0 where
  empty non_empty : TypeEmptiness

-- What `generate_type` returns.
unfoldable pub emptiness : WireType → TypeEmptiness
emptiness (integer range) = non_empty
emptiness (variant nil) = empty
emptiness (variant (cons t ts)) = non_empty
emptiness (tuple nil) = empty
emptiness (tuple (cons t ts)) = non_empty
emptiness (vector range t) = non_empty
emptiness (utf8 code_units) = non_empty
emptiness (structure end) = empty
emptiness (structure (field t n fs)) = non_empty

-- The type and the id of a response.
unfoldable pub write_response_header : ℕ → Writer → Writer
unfolding append
write_response_header id w =
    append (append w (write_integer 1 message_response)) (write_integer 8 id)

module _ (is_valid : List ℕ → Bool) where
  serialize_nonempty : TypeEmptiness → (t : WireType) → ValueOf t → Statements
  serialize_nonempty empty t v = skip
  serialize_nonempty non_empty t v = generate_value_serialization is_valid t v

  unfoldable pub serialize_result : (t : WireType) → ValueOf t → Statements
  unfolding serialize_nonempty emptiness
  serialize_result t v = serialize_nonempty (emptiness t) t v

  abbrev pub parameter_parser : (m : Method) → Parser (ValueOf (get_parameter_type m.parameters))
  parameter_parser m = generate_parser_type is_valid (get_parameter_type m.parameters)

  -- What the server does for the request: it reads the header, reads the arguments, has called the
  -- implementation, or has called `send_buffer`.
  pub data Stage : Type 0 where
    idle waiting responding : Stage
    receiving : (m : Method) → (request_id : ℕ) → (parameter_parser m).State → Stage
    calling : (m : Method) → (request_id : ℕ) → ValueOf (get_parameter_type m.parameters) → Stage

  pub record Server : Type 0 where
    pub requests : Splitter is_valid
    pub responses : Writer
    pub stage : Stage
    pub results : List (Option ErrorCode)

module _ {is_valid : List ℕ → Bool} where
  -- The handler of `serve_one_request` is called.
  abbrev pub finish : Option ErrorCode → Server is_valid → Server is_valid
  finish e s = record s { stage = idle; results = s.results ++ e ∷ [] }

  header_awaited : Option (Splitter is_valid) → Server is_valid → Option (Server is_valid)
  header_awaited none s = none
  header_awaited (some r) s = some (record s { requests = r; stage = waiting })

  -- `begin_receive_request_header`
  unfoldable pub serve_one_request : Server is_valid → Option (Server is_valid)
  unfolding header_awaited
  serve_one_request s = header_awaited (wait_for_request s.requests) s

  argued :
      (m : Method)
      → ℕ
      → ErrorOr (ValueOf (get_parameter_type m.parameters))
      → Option (Splitter is_valid)
      → Server is_valid
      → Option (Server is_valid)
  argued m id a none s = none
  argued m id (error ec) (some r) s = some (finish (some ec) (record s { requests = r }))
  argued m id (value v) (some r) s = some (record s { requests = r; stage = calling m id v })

  -- A parse operation for the arguments has called its handler, or waits for a read.
  unfoldable pub argument_progress :
      (m : Method)
      → ℕ
      → Progress (parameter_parser is_valid m) × List ℕ
      → Server is_valid
      → Option (Server is_valid)
  unfolding argued
  argument_progress m id (reading p, buffer) s =
      some (record s { requests = record s.requests { buffer = buffer }; stage = receiving m id p })
  argument_progress m id (called a, buffer) s =
      argued m id a (unlock_input (record s.requests { buffer = buffer })) s

  begin_receive_method_argument :
      (m : Method) → ℕ → Option (Splitter is_valid) → Server is_valid → Option (Server is_valid)
  unfolding argument_progress
  begin_receive_method_argument m id none s = none
  begin_receive_method_argument m id (some r) s =
      argument_progress m id
        (start (parameter_parser is_valid m) (parameter_parser is_valid m).start r.buffer)
        (record s { requests = r })

  dispatch : ℕ → Option Method → Server is_valid → Option (Server is_valid)
  unfolding begin_receive_method_argument
  dispatch id none s = none
  dispatch id (some m) s = begin_receive_method_argument m id (lock_input s.requests) s

  -- The handler that is given to `wait_for_request`.
  unfoldable pub on_request :
      InterfaceDefinition → ErrorOr (ℕ × List ℕ) → Server is_valid → Option (Server is_valid)
  unfolding dispatch
  on_request definition (error ec) s = some (finish (some ec) s)
  on_request definition (value (id, name)) s = dispatch id (find_method name definition) s

  read_in : Stage is_valid → ReadEvent → Server is_valid → Option (Server is_valid)
  unfolding argument_progress
  read_in (receiving m id p) e s =
      argument_progress m id (on_read (parameter_parser is_valid m) p s.requests.buffer e) s
  read_in idle e s = none
  read_in waiting e s = none
  read_in responding e s = none
  read_in (calling m id v) e s = none

  -- The read of the parse operation for the arguments is over.
  unfoldable pub argument_read : ReadEvent → Server is_valid → Option (Server is_valid)
  unfolding read_in
  argument_read e s = read_in s.stage e s

  unfoldable pub respond : ℕ → List ℕ × RequestStatus → Server is_valid → Server is_valid
  respond id (bytes, ok) s = record s {
    responses = send_buffer (record s.responses { buffer = bytes }) id;
    stage = responding;
  }
  respond id (bytes, failure) s =
      finish (some invalid_input_error)
        (record s { responses = record s.responses { buffer = bytes } })

  -- The handler that is given to the implementation.
  unfoldable pub on_result :
      (m : Method) → ℕ → ErrorOr (ValueOf m.result) → Server is_valid → Server is_valid
  on_result m id (error ec) s = finish (some ec) s
  on_result m id (value r) s =
      let w = write_response_header id s.responses in
      respond id (serialize_result is_valid m.result r w.buffer) (record s { responses = w })

  -- The handler that is given to `send_buffer`.
  unfoldable pub response_sent : Option ErrorCode → Server is_valid → Server is_valid
  response_sent e s = finish e s
