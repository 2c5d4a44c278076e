-- ===== src/Registry.antt =====
-- warpcoil/cpp/expected_response_registry.hpp: the requests that wait for a response, by their ids.
--
-- A result handler is a number. The registry reads through a message splitter and parse operations:
-- its calls of them, and of the handlers, are logged in `effects` in the order in which they are
-- made. Any of these calls can lead to further calls of the registry before it returns, so what
-- follows a call is kept on the stack `frames`. A failed assertion is `none`. A handler that
-- `unlock_input` calls before it returns counts as called before the result.
pub mod Requests
pub mod Awaited
use warpcoil.Base.{
  ℕ, ◌+◌, ◌%◌, ◌^◌, List, [], ◌∷◌, ◌++◌, Bool, true, false, Option, none, some, ltb, ◌==◌,
  if◌then◌else◌, ◌≡◌,
}
use warpcoil.Receive.{ErrorCode, ErrorOr, value, error, invalid_input_error}

pub data ResponseState : Type 0 where
  not_expecting_response parsing_header parsing_result : ResponseState

-- `expected_responses`, a `std::map`: in the order of the keys.
abbrev pub ExpectedResponses : Type 0
ExpectedResponses = List (ℕ × ℕ)

-- What the registry does to the splitter, the parse operations and the handlers.
pub data Effect : Type 0 where
  waited_for_response locked_input unlocked_input : Effect
  began_parse_value : (handler : ℕ) → Effect
  handler_failed : (handler : ℕ) → ErrorCode → Effect
  handler_called : (handler : ℕ) → Effect

-- What follows a call: the loop of `on_error` over the rest of the requests, or the call of the
-- handler at the end of `parse_result_operation`.
pub data Frame : Type 0 where
  fail_rest : ErrorCode → ExpectedResponses → Frame
  call_handler : (handler : ℕ) → Frame

-- `parsing` is the handler in the parse operation that runs.
pub record Registry : Type 0 where
  pub state : ResponseState
  pub parsing : Option ℕ
  pub frames : List Frame
  pub expected_responses : ExpectedResponses
  pub effects : List Effect

abbrev pub new_registry : Registry
new_registry = record {
  state = not_expecting_response;
  parsing = none;
  frames = [];
  expected_responses = [];
  effects = [];
}

-- `std::map::insert`: a key that is there keeps its entry.
unfoldable pub insert : ℕ → ℕ → ExpectedResponses → ExpectedResponses
insert request handler [] = (request, handler) ∷ []
insert request handler ((key, other) ∷ rest) =
    let later = insert request handler rest in
    if ltb request key
    then (request, handler) ∷ (key, other) ∷ rest
    else if request == key
    then (key, other) ∷ rest
    else (key, other) ∷ later

unfoldable pub find : ℕ → ExpectedResponses → Option ℕ
find request [] = none
find request ((key, handler) ∷ rest) =
    let later = find request rest in if request == key then some handler else later

unfoldable pub erase : ℕ → ExpectedResponses → ExpectedResponses
erase request [] = []
erase request ((key, handler) ∷ rest) =
    let later = erase request rest in if request == key then rest else (key, handler) ∷ later

abbrev pub emit : List Effect → Registry → Registry
emit es r = record r { effects = r.effects ++ es }

-- The splitter's `wait_for_response` is called last.
unfoldable pub parse_header : Registry → Registry
parse_header r = emit (waited_for_response ∷ []) (record r { state = parsing_header })

continue_expecting : ResponseState → Registry → Registry
continue_expecting not_expecting_response r = parse_header r
continue_expecting parsing_header r = r
continue_expecting parsing_result r = r

unfoldable pub expect_response : ℕ → ℕ → Registry → Registry
unfolding continue_expecting parse_header
expect_response request handler r =
    continue_expecting r.state
      (record r { expected_responses = insert request handler r.expected_responses })

-- The map moves out of the registry; the loop over it is a frame.
unfoldable pub on_error : ErrorCode → Registry → Registry
on_error ec r = record r {
  state = not_expecting_response;
  expected_responses = [];
  frames = fail_rest ec r.expected_responses ∷ r.frames;
}

-- `lock_input` asserts that the input is not locked; the parse operation that runs holds the lock.
lock_and_parse : ℕ → ℕ → Option ℕ → Registry → Option Registry
lock_and_parse request handler (some other) r = none
lock_and_parse request handler none r = some (
    emit (locked_input ∷ began_parse_value handler ∷ []) (record r {
      state = parsing_result;
      parsing = some handler;
      expected_responses = erase request r.expected_responses;
    }))

found_entry : ℕ → Option ℕ → Registry → Option Registry
unfolding on_error lock_and_parse
found_entry request none r = some (on_error invalid_input_error r)
found_entry request (some handler) r = lock_and_parse request handler r.parsing r

-- `assert(state == response_state::…)`
abbrev pub is_parsing_header : ResponseState → Bool
is_parsing_header parsing_header = true
is_parsing_header _ = false

abbrev pub is_parsing_result : ResponseState → Bool
is_parsing_result parsing_result = true
is_parsing_result _ = false

-- The handler that `parse_header` gives to `wait_for_response`. `parse_result` locks the input and
-- begins to parse.
unfoldable pub response_header : ErrorOr ℕ → Registry → Option Registry
unfolding on_error found_entry
response_header (error ec) r = if is_parsing_header r.state then some (on_error ec r) else none
response_header (value request) r =
    if is_parsing_header r.state
    then found_entry request (find request r.expected_responses) r
    else none

expect_more : ExpectedResponses → Registry → Registry
unfolding parse_header
expect_more [] r = record r { state = not_expecting_response }
expect_more (entry ∷ rest) r = parse_header r

-- `parse_result_operation`, called with or without an error. With a result the next header is asked
-- for before the handler is called; with an error the handler in the operation is dropped.
finish_parsing : Option ℕ → Option ErrorCode → Registry → Option Registry
unfolding on_error expect_more
finish_parsing none e r = none
finish_parsing (some handler) (some ec) r = some (on_error ec (record r { parsing = none }))
finish_parsing (some handler) none r = some (
    expect_more r.expected_responses (
      emit (unlocked_input ∷ [])
        (record r { parsing = none; frames = call_handler handler ∷ r.frames })))

unfoldable pub parse_result_operation : Option ErrorCode → Registry → Option Registry
unfolding finish_parsing
parse_result_operation e r =
    if is_parsing_result r.state then finish_parsing r.parsing e r else none

-- What follows the return of a call.
unfoldable pub resume : List Frame → Registry → Option Registry
resume [] r = none
resume (fail_rest ec [] ∷ fs) r = some (record r { frames = fs })
resume (fail_rest ec ((request, handler) ∷ rest) ∷ fs) r =
    some (emit (handler_failed handler ec ∷ []) (record r { frames = fail_rest ec rest ∷ fs }))
resume (call_handler handler ∷ fs) r =
    some (emit (handler_called handler ∷ []) (record r { frames = fs }))

-- What happens to a registry.
pub data Event : Type 0 where
  expects : (request : ℕ) → (handler : ℕ) → Event
  fails : ErrorCode → Event
  header_read : ErrorOr ℕ → Event
  result_read : Option ErrorCode → Event
  returned : Event

unfoldable pub step : Event → Registry → Option Registry
step (expects request handler) r = some (expect_response request handler r)
step (fails ec) r = some (on_error ec r)
step (header_read request) r = response_header request r
step (result_read e) r = parse_result_operation e r
step returned r = resume r.frames r

abbrev pub run : List Event → Option Registry → Option Registry
run [] o = o
run (e ∷ es) none = none
run (e ∷ es) (some r) = run es (step e r)
