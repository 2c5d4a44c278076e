-- ===== src/Tests/Registry.antt =====
-- Two requests, of which the second is answered first.
use warpcoil.Base.{◌≡◌, ◌≢◌, ◌+◌, refl, List, [], ◌∷◌, none, some}
use warpcoil.Receive.{invalid_input_error, value}
use warpcoil.Registry.{
  Registry, Event, expects, header_read, result_read, returned, new_registry, run, step,
  expect_response, response_header, parse_result_operation, resume, find, insert, erase,
  parsing_header, not_expecting_response, parsing_result, waited_for_response, locked_input,
  unlocked_input, began_parse_value, handler_called, on_error, fail_rest,
}
use warpcoil.Registry.Requests.{
  total, one, all_given, AllRegular, run-total, parse_result_operation-lost,
}
use warpcoil.Registry.Awaited.{run-Awaits}

abbrev answered : List Event
answered = expects 0 10 ∷ expects 1 11 ∷ header_read (value 1) ∷ result_read none ∷ returned ∷ []

abbrev one_left : Registry
one_left = record {
  state = parsing_header;
  parsing = none;
  frames = [];
  expected_responses = (0, 10) ∷ [];
  effects =
      waited_for_response
      ∷ locked_input
      ∷ began_parse_value 11
      ∷ unlocked_input
      ∷ waited_for_response
      ∷ handler_called 11
      ∷ [];
}

answered-run : run answered (some new_registry) ≡ some one_left
unfolding step expect_response response_header parse_result_operation resume find insert erase
answered-run = refl

answered_regular : AllRegular answered (some new_registry)
unfolding step expect_response response_header parse_result_operation resume find insert erase
answered_regular = (refl, (refl, (tt, (tt, (tt, tt)))))

run-total_example : total 11 one_left ≡ all_given 11 answered
run-total_example = run-total 11 answered one_left answered_regular answered-run

run-Awaits_example : one_left.state ≢ not_expecting_response
run-Awaits_example = run-Awaits answered one_left answered-run (λ e. cc)

abbrev parsing_one : Registry
parsing_one = record new_registry { state = parsing_result; parsing = some 10 }

abbrev lost_one : Registry
lost_one = record new_registry { frames = fail_rest invalid_input_error [] ∷ [] }

parse_result_operation-lost_example : total 10 lost_one + one 10 10 ≡ total 10 parsing_one
unfolding parse_result_operation on_error
parse_result_operation-lost_example =
    parse_result_operation-lost 10 10 invalid_input_error parsing_one lost_one refl refl
