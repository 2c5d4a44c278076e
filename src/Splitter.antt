-- ===== src/Splitter.antt =====
-- warpcoil/cpp/message_splitter.hpp and protocol.hpp: one reader of the stream, which hands the
-- headers of requests and of responses to the two handlers that wait for them.
--
-- A `std::function` member is a Boolean: whether it is set. The handlers are code of the user: a
-- call of one is logged in `delivered`, and what the caller does when the handler returns is kept
-- on the stack `frames`, since the handler may call the splitter's functions again. A failed
-- assertion and the call of an empty `std::function` are `none`.
pub mod Exclusion
pub mod Headers
pub mod Faults
pub mod State
pub use State.*
use warpcoil.Base.{
  ℕ, Bool, true, false, not, ◌&&◌, ◌||◌, List, [], ◌∷◌, ◌++◌, Option, none, some, if◌then◌else◌,
  ◌==◌,
}
use warpcoil.Parse.Interface.{Parser}
use warpcoil.Parse.Integer.{IntegerState, integer_parser}
use warpcoil.Parse.Utf8.{utf8_parser}
use warpcoil.Parse.Tuple.{Tuple, tuple_parser}
use warpcoil.Receive.{
  ErrorCode, ErrorOr, ReadEvent, value, error, invalid_input_error, Progress, called, reading,
  start, on_read,
}

module _ {is_valid : List ℕ → Bool} where
  abbrev deliver : Splitter is_valid → Delivery → Frame → Splitter is_valid
  deliver s d f = record s { delivered = s.delivered ++ d ∷ []; frames = f ∷ s.frames }

  -- The second half of `on_error`.
  unfoldable pub fail_request : Bool → ErrorCode → Splitter is_valid → Option (Splitter is_valid)
  fail_request false ec s = some s
  fail_request true ec s =
      if s.waiting_for_request
      then some (
          deliver (record s { waiting_for_request = false }) (request_failed ec)
            after_request_failed)
      else none

  unfoldable pub on_error : ErrorCode → Splitter is_valid → Option (Splitter is_valid)
  unfolding fail_request
  on_error ec s =
      if s.waiting_for_response
      then some (
          deliver (record s { waiting_for_response = false }) (response_failed ec)
            (after_response_failed s.waiting_for_request ec))
      else fail_request s.waiting_for_request ec s

  -- `parse_request_operation`, up to the call of the handler.
  unfoldable pub parse_request_operation :
      ErrorOr (Tuple (ℕ ∷ List ℕ ∷ [])) → Splitter is_valid → Option (Splitter is_valid)
  unfolding on_error
  parse_request_operation (error ec) s = if s.waiting_for_request then on_error ec s else none
  parse_request_operation (value (id, (name, _))) s =
      if s.waiting_for_request && s.parsing_header
      then some (
          deliver (record s { parsing_header = false; waiting_for_request = false })
            (request_received id name) (after_request s.waiting_for_response))
      else none

  unfoldable pub parse_response_operation :
      ErrorOr ℕ → Splitter is_valid → Option (Splitter is_valid)
  unfolding on_error
  parse_response_operation (error ec) s = if s.waiting_for_response then on_error ec s else none
  parse_response_operation (value id) s =
      if s.waiting_for_response && s.parsing_header
      then some (
          deliver (record s { parsing_header = false; waiting_for_response = false })
            (response_received id) (after_response s.waiting_for_request))
      else none

  -- A parse operation has called its handler, or waits for a read.
  request_progress :
      Splitter is_valid → Progress (request_parser is_valid) × List ℕ → Option (Splitter is_valid)
  unfolding parse_request_operation
  request_progress s (called r, buffer) =
      parse_request_operation r (record s { buffer = buffer; operation = no_operation })
  request_progress s (reading p, buffer) =
      some (record s { buffer = buffer; operation = parsing_request p })

  response_progress :
      Splitter is_valid → Progress (response_parser is_valid) × List ℕ → Option (Splitter is_valid)
  unfolding parse_response_operation
  response_progress s (called r, buffer) =
      parse_response_operation r (record s { buffer = buffer; operation = no_operation })
  response_progress s (reading p, buffer) =
      some (record s { buffer = buffer; operation = parsing_response p })

  -- `parse_message_type_operation`
  unfoldable pub parse_message_type_operation :
      ErrorOr ℕ → Splitter is_valid → Option (Splitter is_valid)
  unfolding request_progress response_progress on_error
  parse_message_type_operation (error ec) s = on_error ec s
  parse_message_type_operation (value type) s =
      if type == message_response
      then if s.waiting_for_response
        then response_progress s
            (start (response_parser is_valid) (response_parser is_valid).start s.buffer)
        else on_error invalid_input_error s
      else if type == message_request
      then if s.waiting_for_request
        then request_progress s
            (start (request_parser is_valid) (request_parser is_valid).start s.buffer)
        else on_error invalid_input_error s
      else on_error invalid_input_error s

  type_progress :
      Splitter is_valid → Progress (type_parser is_valid) × List ℕ → Option (Splitter is_valid)
  unfolding parse_message_type_operation
  type_progress s (called r, buffer) =
      parse_message_type_operation r (record s { buffer = buffer; operation = no_operation })
  type_progress s (reading p, buffer) =
      some (record s { buffer = buffer; operation = parsing_type p })

  -- The function is set, and its two assertions hold.
  abbrev pub can_begin : Splitter is_valid → Bool
  can_begin s =
      s.begin_parse_message
      && (not s.parsing_header && (s.waiting_for_response || s.waiting_for_request))

  -- A call of the member `begin_parse_message`: the function that `set_begin_parse_message` sets.
  unfoldable pub call_begin_parse_message : Splitter is_valid → Option (Splitter is_valid)
  unfolding type_progress
  call_begin_parse_message s =
      if can_begin s
      then if s.locked
        then some s
        else type_progress (record s { begin_parse_message = false; parsing_header = true })
            (start (type_parser is_valid) (type_parser is_valid).start s.buffer)
      else none

  unfoldable pub wait_for_response : Splitter is_valid → Option (Splitter is_valid)
  unfolding call_begin_parse_message
  wait_for_response s =
      let s' = record s { waiting_for_response = true; begin_parse_message = true } in
      if s.waiting_for_response
      then none
      else if s.parsing_header
      then some s'
      else call_begin_parse_message s'

  unfoldable pub wait_for_request : Splitter is_valid → Option (Splitter is_valid)
  unfolding call_begin_parse_message
  wait_for_request s =
      let s' = record s { waiting_for_request = true; begin_parse_message = true } in
      if s.waiting_for_request
      then none
      else if s.parsing_header
      then some s'
      else call_begin_parse_message s'

  unfoldable pub lock_input : Splitter is_valid → Option (Splitter is_valid)
  lock_input s =
      if not s.parsing_header && not s.locked then some (record s { locked = true }) else none

  unfoldable pub unlock_input : Splitter is_valid → Option (Splitter is_valid)
  unfolding call_begin_parse_message
  unlock_input s =
      let s' = record s { locked = false } in
      if not s.parsing_header && s.locked
      then if s.waiting_for_response || s.waiting_for_request
        then call_begin_parse_message s'
        else some s'
      else none

  -- What follows the return of the handler that was called last.
  resume : Frame → Splitter is_valid → Option (Splitter is_valid)
  unfolding call_begin_parse_message fail_request
  resume (after_request continue_) s =
      if continue_ && (s.waiting_for_response && not s.parsing_header)
      then call_begin_parse_message s
      else some s
  resume (after_response continue_) s =
      if continue_ && (s.waiting_for_request && not s.parsing_header)
      then call_begin_parse_message s
      else some s
  resume (after_response_failed is_waiting_for_request ec) s =
      fail_request is_waiting_for_request ec s
  resume after_request_failed s = some s

  pop : List Frame → Splitter is_valid → Option (Splitter is_valid)
  unfolding resume
  pop [] s = none
  pop (f ∷ fs) s = resume f (record s { frames = fs })

  unfoldable pub handler_returned : Splitter is_valid → Option (Splitter is_valid)
  unfolding pop
  handler_returned s = pop s.frames s

  read_into : Operation is_valid → ReadEvent → Splitter is_valid → Option (Splitter is_valid)
  unfolding type_progress request_progress response_progress
  read_into no_operation e s = none
  read_into (parsing_type p) e s = type_progress s (on_read (type_parser is_valid) p s.buffer e)
  read_into (parsing_response p) e s =
      response_progress s (on_read (response_parser is_valid) p s.buffer e)
  read_into (parsing_request p) e s =
      request_progress s (on_read (request_parser is_valid) p s.buffer e)

  -- The read of the operation that waits for one is over.
  unfoldable pub read_completed : ReadEvent → Splitter is_valid → Option (Splitter is_valid)
  unfolding read_into
  read_completed e s = read_into s.operation e s

-- What happens to a splitter: calls of its functions, the return of a handler that it called, the
-- end of the read that it waits for, and the use of the buffer by the holder of the lock.
pub data Call : Type 0 where
  waits_for_request waits_for_response locks unlocks returns : Call
  read_ends : ReadEvent → Call
  uses_buffer : List ℕ → Call

module _ {is_valid : List ℕ → Bool} where
  unfoldable pub use_buffer : List ℕ → Splitter is_valid → Option (Splitter is_valid)
  use_buffer buffer s = if s.locked then some (record s { buffer = buffer }) else none

  unfoldable pub call : Call → Splitter is_valid → Option (Splitter is_valid)
  call waits_for_request s = wait_for_request s
  call waits_for_response s = wait_for_response s
  call locks s = lock_input s
  call unlocks s = unlock_input s
  call returns s = handler_returned s
  call (read_ends e) s = read_completed e s
  call (uses_buffer buffer) s = use_buffer buffer s

  abbrev pub after : List Call → Option (Splitter is_valid) → Option (Splitter is_valid)
  after [] o = o
  after (c ∷ cs) none = none
  after (c ∷ cs) (some s) = after cs (call c s)
