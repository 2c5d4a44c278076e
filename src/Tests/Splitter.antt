-- ===== src/Tests/Splitter.antt =====
-- A splitter that gets one request, in two reads.
use warpcoil.Base.{ℕ, ◌≡◌, refl, true, false, ◌++◌, arith, length, List, [], ◌∷◌, some, none}
use warpcoil.Receive.{read_some, invalid_input_error, start, on_read}
use warpcoil.Parse.Integer.{parse_integer_byte, write_integer}
use warpcoil.Parse.Tuple.{check_tuple, parse_tuple_byte}
use warpcoil.Parse.Utf8.{parse_utf8_byte}
use warpcoil.Splitter.{
  Splitter, Call, waits_for_request, waits_for_response, locks, read_ends, returns, new_splitter,
  message_request, after_request, after_request_failed, request_failed, wait_for_response, after,
  call, request_received, lock_input, handler_returned, wait_for_request, read_completed,
  parsing_type,
}
use warpcoil.Splitter.Exclusion.{IsSound, IsSome, read_completed-IsSome}
use warpcoil.Splitter.Exclusion.Calls.{after-IsSound}
use warpcoil.Splitter.Headers.{wait_for_request-received, wait_for_request-failed}
use warpcoil.Splitter.Faults.{after-delivered}
use warpcoil.Tests.Parse.{ascii}

-- The request 5 of the method "m", then two bytes of its parameters.
abbrev one_request : List Call
one_request =
    waits_for_request
    ∷ read_ends (read_some (0 ∷ 0 ∷ 0 ∷ 0 ∷ 0 ∷ []))
    ∷ read_ends (read_some (0 ∷ 0 ∷ 0 ∷ 5 ∷ 1 ∷ 109 ∷ 42 ∷ 43 ∷ []))
    ∷ locks
    ∷ returns
    ∷ []

abbrev served : Splitter ascii
served = record (new_splitter ascii) {
  buffer = 42 ∷ 43 ∷ [];
  locked = true;
  delivered = request_received 5 (109 ∷ []) ∷ [];
}

one_request-served : after one_request (some (new_splitter ascii)) ≡ some served
unfolding call wait_for_request start read_completed on_read parse_integer_byte check_tuple
    parse_tuple_byte parse_utf8_byte lock_input handler_returned
one_request-served = refl

after-IsSound_example : IsSound served
after-IsSound_example = after-IsSound ascii one_request served one_request-served

abbrev waiting : Splitter ascii
waiting = record (new_splitter ascii) {
  waiting_for_request = true;
  parsing_header = true;
  operation = parsing_type (record { result = 0; bytes_received = 0 });
}

read_completed-IsSome_example : IsSome (read_completed (read_some (1 ∷ [])) waiting)
read_completed-IsSome_example =
    read_completed-IsSome (read_some (1 ∷ [])) waiting
      (record { exclusive = λ e. refl; fits = (refl, refl, tt) }) (λ e. cc)

abbrev method_name : List ℕ
method_name = 109 ∷ []

-- The header of the request 258 of the method "m" is in the buffer, then two bytes more.
abbrev with_request : Splitter ascii
with_request = record (new_splitter ascii) {
  buffer =
      message_request ∷ (write_integer 8 258 ++ length method_name ∷ method_name) ++ 42 ∷ 43 ∷ [];
}

wait_for_request-received_example :
    wait_for_request with_request
    ≡ some (record with_request {
      buffer = 42 ∷ 43 ∷ [];
      frames = after_request false ∷ [];
      delivered = request_received 258 (109 ∷ []) ∷ [];
    })
wait_for_request-received_example =
    wait_for_request-received ascii with_request 258 method_name (42 ∷ 43 ∷ []) refl refl refl
      (omega arith) (omega arith) refl refl

-- A response comes, but nobody waits for one.
abbrev with_wrong_type : Splitter ascii
with_wrong_type = record (new_splitter ascii) { buffer = 1 ∷ 42 ∷ [] }

abbrev failed : Splitter ascii
failed = record with_wrong_type {
  buffer = 42 ∷ [];
  parsing_header = true;
  frames = after_request_failed ∷ [];
  delivered = request_failed invalid_input_error ∷ [];
}

wait_for_request-failed_example : wait_for_request with_wrong_type ≡ some failed
wait_for_request-failed_example =
    wait_for_request-failed ascii with_wrong_type 1 (42 ∷ []) refl refl refl refl (omega arith)
      (λ e. absurd (omega arith)) refl

abbrev failed_again : Splitter ascii
failed_again = record failed { frames = []; begin_parse_message = true; waiting_for_request = true }

after-delivered_example : failed_again.delivered ≡ failed.delivered
unfolding call wait_for_request handler_returned
after-delivered_example =
    after-delivered (returns ∷ waits_for_request ∷ []) failed failed_again
      (record { parsing = refl; idle = refl; clean = tt; same = refl }) refl

-- Two requests while a response is awaited: the handler of the first waits again before it returns,
-- that of the second does not. The continuation for the response then calls an empty function.
abbrev emptied : List Call
emptied =
    waits_for_response
    ∷ waits_for_request
    ∷ read_ends (read_some (0 ∷ 0 ∷ 0 ∷ 0 ∷ 0 ∷ 0 ∷ 0 ∷ 0 ∷ 1 ∷ 1 ∷ 109 ∷ []))
    ∷ waits_for_request
    ∷ returns
    ∷ read_ends (read_some (0 ∷ 0 ∷ 0 ∷ 0 ∷ 0 ∷ 0 ∷ 0 ∷ 0 ∷ 2 ∷ 1 ∷ 109 ∷ []))
    ∷ []

emptied_lem : after (emptied ++ returns ∷ []) (some (new_splitter ascii)) ≡ none
unfolding call wait_for_request start read_completed on_read parse_integer_byte check_tuple
    parse_tuple_byte parse_utf8_byte lock_input handler_returned wait_for_response
emptied_lem = refl
