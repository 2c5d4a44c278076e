-- ===== src/Registry/Awaited.antt =====
-- While a request waits for its response, the registry waits for a header or for a result.
use warpcoil.Base.{ℕ, ◌≡◌, ◌≢◌, refl, subst, List, [], ◌∷◌, Option, none, some, arith, if-either}
use warpcoil.Receive.{ErrorCode, value, error}
use warpcoil.Registry.{
  Registry, ResponseState, not_expecting_response, parsing_header, parsing_result,
  ExpectedResponses, Frame, fail_rest, call_handler, Event, expects, fails, header_read,
  result_read, returned, find, parse_header, continue_expecting, expect_response, on_error,
  lock_and_parse, found_entry, response_header, expect_more, finish_parsing, parse_result_operation,
  resume, step, run, new_registry, is_parsing_header, is_parsing_result,
}

abbrev Awaits : Option Registry → Type 0
Awaits none = Unit {0}
Awaits (some t) = t.state ≡ not_expecting_response → t.expected_responses ≡ []

expect-Awaits :
    (request x : ℕ) (r : Registry) (s : ResponseState)
    → r.state ≡ s
    → Awaits (some (expect_response request x r))
unfolding expect_response continue_expecting parse_header
expect-Awaits request x r not_expecting_response e = λ h. ground (arith, e)
expect-Awaits request x r parsing_header e = λ h. ground (arith, e)
expect-Awaits request x r parsing_result e = λ h. ground (arith, e)

found-Awaits : (request : ℕ) (o : Option ℕ) (r : Registry) → Awaits (found_entry request o r)
unfolding found_entry lock_and_parse on_error
found-Awaits request none r = λ h. refl
found-Awaits request (some x) r = ground arith

more-Awaits :
    (m : ExpectedResponses) (r : Registry)
    → r.expected_responses ≡ m
    → Awaits (some (expect_more m r))
unfolding expect_more parse_header
more-Awaits [] r e = λ h. e
more-Awaits (entry ∷ rest) r e = λ h. cc

finish-Awaits : (o : Option ℕ) (e : Option ErrorCode) (r : Registry) → Awaits (finish_parsing o e r)
unfolding finish_parsing on_error
finish-Awaits none e r = tt
finish-Awaits (some x) (some ec) r = λ h. refl
finish-Awaits (some x) none r = more-Awaits r.expected_responses _ refl

resume-Awaits : (fs : List Frame) (r : Registry) → Awaits (some r) → Awaits (resume fs r)
unfolding resume
resume-Awaits [] r i = tt
resume-Awaits (fail_rest ec [] ∷ fs) r i = i
resume-Awaits (fail_rest ec ((request, x) ∷ rest) ∷ fs) r i = i
resume-Awaits (call_handler x ∷ fs) r i = i

step-Awaits : (e : Event) (r : Registry) → Awaits (some r) → Awaits (step e r)
unfolding step response_header parse_result_operation on_error
step-Awaits (expects request x) r i = expect-Awaits request x r r.state refl
step-Awaits (fails ec) r i = λ h. refl
step-Awaits (header_read (error ec)) r i =
    if-either Awaits (is_parsing_header r.state) (λ h. refl) tt
step-Awaits (header_read (value request)) r i =
    if-either Awaits (is_parsing_header r.state)
      (found-Awaits request (find request r.expected_responses) r) tt
step-Awaits (result_read e) r i =
    if-either Awaits (is_parsing_result r.state) (finish-Awaits r.parsing e r) tt
step-Awaits returned r i = resume-Awaits r.frames r i

after-Awaits : (es : List Event) (o : Option Registry) → Awaits o → Awaits (run es o)
after-Awaits [] o i = i
after-Awaits (e ∷ es) none i = i
after-Awaits (e ∷ es) (some r) i = after-Awaits es (step e r) (step-Awaits e r i)

-- In every history of a new registry that no failed assertion ends, while a request waits for
-- its response the registry waits for a header or parses a result.
pub run-Awaits :
    (es : List Event) (t : Registry)
    → run es (some new_registry) ≡ some t
    → t.expected_responses ≢ []
    → t.state ≢ not_expecting_response
run-Awaits es t e n = λ s. n (subst Awaits e (after-Awaits es (some new_registry) (λ h. refl)) s)
