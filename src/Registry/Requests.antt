-- ===== src/Registry/Requests.antt =====
-- Every handler that the registry was given is called once at most, and none gets lost.
use warpcoil.Base.{
  ℕ, ◌+◌, ◌≡◌, refl, subst, List, [], ◌∷◌, ◌++◌, Option, none, some, arith, ◌==◌, if◌then◌else◌,
  if-either,
}
use warpcoil.Receive.{ErrorCode, ErrorOr, value, error, invalid_input_error}
use warpcoil.Registry.{
  Registry, ExpectedResponses, Effect, waited_for_response, locked_input, unlocked_input,
  began_parse_value, handler_failed, handler_called, Frame, fail_rest, call_handler, Event, expects,
  fails, header_read, result_read, returned, insert, find, erase, emit, parse_header,
  expect_response, on_error, lock_and_parse, found_entry, response_header, expect_more,
  finish_parsing, parse_result_operation, resume, step, run, new_registry, is_parsing_header,
  is_parsing_result,
}

-- How often the handler `h` occurs in each part of the state.
abbrev pub one : ℕ → ℕ → ℕ
one h x = if h == x then 1 else 0

abbrev waiting : ℕ → ExpectedResponses → ℕ
waiting h [] = 0
waiting h ((request, handler) ∷ rest) = one h handler + waiting h rest

abbrev reported : ℕ → List Effect → ℕ
reported h [] = 0
reported h (handler_failed x ec ∷ es) = one h x + reported h es
reported h (handler_called x ∷ es) = one h x + reported h es
reported h (e ∷ es) = reported h es

abbrev framed : ℕ → List Frame → ℕ
framed h [] = 0
framed h (fail_rest ec rest ∷ fs) = waiting h rest + framed h fs
framed h (call_handler x ∷ fs) = one h x + framed h fs

abbrev in_parsing : ℕ → Option ℕ → ℕ
in_parsing h none = 0
in_parsing h (some x) = one h x

abbrev pub total : ℕ → Registry → ℕ
total h r =
    reported h r.effects
    + (in_parsing h r.parsing + (framed h r.frames + waiting h r.expected_responses))

abbrev given : ℕ → Event → ℕ
given h (expects request handler) = one h handler
given h _ = 0

abbrev pub all_given : ℕ → List Event → ℕ
all_given h [] = 0
all_given h (e ∷ es) = given h e + all_given h es

-- The id of a new request is not in use, and no response fails to parse.
abbrev pub IsRegular : Event → Registry → Type 0
IsRegular (expects request handler) r = find request r.expected_responses ≡ none
IsRegular (result_read (some ec)) r = ⊥
IsRegular _ r = Unit {0}

abbrev pub AllRegular : List Event → Option Registry → Type 0
AllRegular [] o = Unit {0}
AllRegular (e ∷ es) none = Unit {0}
AllRegular (e ∷ es) (some r) = IsRegular e r × AllRegular es (step e r)

reported-append :
    (h : ℕ) (xs ys : List Effect) → reported h (xs ++ ys) ≡ reported h xs + reported h ys
reported-append h [] ys = omega arith
reported-append h (waited_for_response ∷ xs) ys = reported-append h xs ys
reported-append h (locked_input ∷ xs) ys = reported-append h xs ys
reported-append h (unlocked_input ∷ xs) ys = reported-append h xs ys
reported-append h (began_parse_value x ∷ xs) ys = reported-append h xs ys
reported-append h (handler_failed x ec ∷ xs) ys = omega (arith, reported-append h xs ys)
reported-append h (handler_called x ∷ xs) ys = omega (arith, reported-append h xs ys)

waiting-insert :
    (h request handler : ℕ) (m : ExpectedResponses)
    → find request m ≡ none
    → waiting h (insert request handler m) ≡ one h handler + waiting h m
unfolding find insert
waiting-insert h request handler [] e = refl
waiting-insert h request handler ((key, other) ∷ rest) e =
    ground (arith, waiting-insert h request handler rest)

waiting-erase :
    (h request handler : ℕ) (m : ExpectedResponses)
    → find request m ≡ some handler
    → waiting h m ≡ one h handler + waiting h (erase request m)
unfolding find erase
waiting-erase h request handler [] e = cc
waiting-erase h request handler ((key, other) ∷ rest) e =
    ground (arith, waiting-erase h request handler rest)

abbrev OnTotal : ℕ → ℕ → Option Registry → Type 0
OnTotal h n none = Unit {0}
OnTotal h n (some t) = total h t ≡ n

expect-total :
    (h request handler : ℕ) (r : Registry)
    → find request r.expected_responses ≡ none
    → total h (expect_response request handler r) ≡ total h r + one h handler
unfolding expect_response
expect-total h request handler r e = ground (
  arith,
  waiting-insert h request handler r.expected_responses e,
  reported-append h r.effects (waited_for_response ∷ []),
)

error-total : (h : ℕ) (ec : ErrorCode) (r : Registry) → total h (on_error ec r) ≡ total h r
unfolding on_error
error-total h ec r = omega arith

found-total :
    (h request : ℕ) (o : Option ℕ) (r : Registry)
    → find request r.expected_responses ≡ o
    → OnTotal h (total h r) (found_entry request o r)
unfolding found_entry lock_and_parse
found-total h request none r e = error-total h invalid_input_error r
found-total h request (some x) r e = ground (
  arith,
  waiting-erase h request x r.expected_responses e,
  reported-append h r.effects (locked_input ∷ began_parse_value x ∷ []),
)

header-total : (h : ℕ) (e : ErrorOr ℕ) (r : Registry) → OnTotal h (total h r) (response_header e r)
unfolding response_header
header-total h (error ec) r =
    if-either (OnTotal h (total h r)) (is_parsing_header r.state) (error-total h ec r) tt
header-total h (value request) r =
    if-either (OnTotal h (total h r)) (is_parsing_header r.state)
      (found-total h request (find request r.expected_responses) r refl) tt

more-total : (h : ℕ) (m : ExpectedResponses) (r : Registry) → total h (expect_more m r) ≡ total h r
unfolding expect_more parse_header
more-total h [] r = refl
more-total h (entry ∷ rest) r =
    omega (arith, reported-append h r.effects (waited_for_response ∷ []))

finish-total :
    (h : ℕ) (o : Option ℕ) (r : Registry)
    → r.parsing ≡ o
    → OnTotal h (total h r) (finish_parsing o none r)
unfolding finish_parsing
finish-total h none r e = tt
finish-total h (some x) r e = ground (
  arith,
  e,
  more-total h r.expected_responses (
      emit (unlocked_input ∷ []) (record r { parsing = none; frames = call_handler x ∷ r.frames })),
  reported-append h r.effects (unlocked_input ∷ []),
)

resume-total :
    (h : ℕ) (fs : List Frame) (r : Registry) → r.frames ≡ fs → OnTotal h (total h r) (resume fs r)
unfolding resume
resume-total h [] r e = tt
resume-total h (fail_rest ec [] ∷ fs) r e = ground (arith, e)
resume-total h (fail_rest ec ((request, x) ∷ rest) ∷ fs) r e =
    ground (arith, e, reported-append h r.effects (handler_failed x ec ∷ []))
resume-total h (call_handler x ∷ fs) r e =
    ground (arith, e, reported-append h r.effects (handler_called x ∷ []))

step-total :
    (h : ℕ) (e : Event) (r : Registry)
    → IsRegular e r
    → OnTotal h (total h r + given h e) (step e r)
unfolding step parse_result_operation
step-total h (expects request x) r k = expect-total h request x r k
step-total h (fails ec) r k = omega (arith, error-total h ec r)
step-total h (header_read e) r k =
    subst (λ n. OnTotal h n (response_header e r)) (omega arith) (header-total h e r)
step-total h (result_read none) r k =
    if-either (OnTotal h (total h r + 0)) (is_parsing_result r.state)
      (subst (λ n. OnTotal h n (finish_parsing r.parsing none r)) (omega arith)
        (finish-total h r.parsing r refl))
      tt
step-total h (result_read (some ec)) r k = absurd k
step-total h returned r k =
    subst (λ n. OnTotal h n (resume r.frames r)) (omega arith) (resume-total h r.frames r refl)

sum_of :
    (h n : ℕ) (e : Event) (es : List Event) (o : Option Registry) (m : ℕ)
    → OnTotal h (n + given h e + m) o
    → OnTotal h (n + (given h e + m)) o
sum_of h n e es o m k = subst (λ x. OnTotal h x o) (omega arith) k

after-total :
    (h : ℕ) (es : List Event) (o : Option Registry) (n : ℕ)
    → AllRegular es o
    → OnTotal h n o
    → OnTotal h (n + all_given h es) (run es o)
after-total h [] o n k i = subst (λ x. OnTotal h x o) (omega arith) i
after-total h (e ∷ es) none n k i = tt
after-total h (e ∷ es) (some r) n k i = sum_of h n e es (run es (step e r)) (all_given h es) (
    after-total h es (step e r) (n + given h e) k.1
      (subst (λ x. OnTotal h (x + given h e) (step e r)) i (step-total h e r k.0)))

-- In every history of a new registry in which no id is used again while its request waits and no
-- response fails to parse, each handler was given as often as it was called, with a result or an
-- error, is about to be called, waits for the end of a parse operation or waits for a response.
pub run-total :
    (h : ℕ) (es : List Event) (t : Registry)
    → AllRegular es (some new_registry)
    → run es (some new_registry) ≡ some t
    → total h t ≡ all_given h es
run-total h es t k e = subst (OnTotal h (all_given h es)) e (
    subst (λ x. OnTotal h x (run es (some new_registry))) (omega arith)
      (after-total h es (some new_registry) 0 k refl))

-- When the parse operation of a response fails, its handler occurs once less among those called,
-- about to be called, in a parse operation and waiting: it is dropped without a call.
pub parse_result_operation-lost :
    (h x : ℕ) (ec : ErrorCode) (r t : Registry)
    → r.parsing ≡ some x
    → parse_result_operation (some ec) r ≡ some t
    → total h t + one h x ≡ total h r
unfolding parse_result_operation finish_parsing on_error
parse_result_operation-lost h x ec r t p e = ground (arith, p, e)
