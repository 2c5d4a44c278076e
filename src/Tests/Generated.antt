-- ===== src/Tests/Generated.antt =====
-- A call of a method with two parameters, from the client to the implementation and back.
use warpcoil.Base.{ℕ, ◌≡◌, refl, false, List, [], ◌∷◌, some, arith, inl}
use warpcoil.Types.Syntax.{
  WireType, integer, utf8, tuple, nil, parameter_types, clone, get_parameter_type,
}
use warpcoil.Types.Less.{less_name}
use warpcoil.Wire.Values.{ValueOf, generate_parser_type}
use warpcoil.Writer.{new_writer}
use warpcoil.Writer.Stream.{outgoing}
use warpcoil.Receive.{start, called, value}
use warpcoil.Splitter.{
  new_splitter, request_received, response_received, wait_for_response, after_response,
}
use warpcoil.Generated.Interface.{
  Method, InterfaceDefinition, add_method, add_parameter, find_method, equal,
}
use warpcoil.Generated.Stub.{call_method}
use warpcoil.Generated.Server.{
  Server, idle, calling, responding, serve_one_request, on_request, on_result,
}
use warpcoil.Generated.Calls.{as_declared}
use warpcoil.Generated.Calls.Request.{call_method-calls}
use warpcoil.Generated.Calls.Response.{on_result-answers}
use warpcoil.Tests.Parse.{ascii}
use warpcoil.Tests.Client.{new_client}

abbrev pub two_bytes : WireType
two_bytes = integer (record { minimum = 0; maximum = 0xffff })

abbrev pub short_text : WireType
short_text = utf8 (record { minimum = 0; maximum = 255 })

abbrev pub repeat_method : Method
repeat_method = record {
  result = short_text;
  parameters =
      record { name = 116 ∷ []; type_ = short_text }
      ∷ record { name = 110 ∷ []; type_ = two_bytes }
      ∷ [];
}

abbrev pub definition : InterfaceDefinition
definition =
    (97 ∷ [], record { result = tuple nil; parameters = [] }) ∷ (109 ∷ [], repeat_method) ∷ []

-- A name that is there already keeps its method.
definition_made :
    add_method (109 ∷ []) two_bytes (
      add_parameter
        (109 ∷ [])
        (record { name = 110 ∷ []; type_ = two_bytes })
        (add_parameter
          (109 ∷ [])
          (record { name = 116 ∷ []; type_ = short_text })
          (add_method (97 ∷ []) (tuple nil) (add_method (109 ∷ []) short_text []))))
    ≡ definition
unfolding add_method add_parameter equal less_name
definition_made = refl

pub found : find_method (109 ∷ []) definition ≡ some repeat_method
unfolding find_method equal
found = refl

abbrev pub arguments : ValueOf (get_parameter_type repeat_method.parameters)
unfolding get_parameter_type parameter_types clone
arguments = (104 ∷ 105 ∷ [], (300, tt))

abbrev pub serving : Server ascii
serving = record {
  requests = record (new_splitter ascii) {
    buffer =
        outgoing
          (call_method ascii (109 ∷ []) repeat_method.parameters
            (as_declared repeat_method.parameters arguments) 10 new_client).requests;
  };
  responses = new_writer;
  stage = idle;
  results = [];
}

call_method-calls_example :
    (received : Server ascii) × (serve_one_request serving ≡ some received)
    × (received.requests.delivered ≡ request_received 7 (109 ∷ []) ∷ [])
    × (on_request definition (value (7, 109 ∷ [])) received
        ≡ some (record received {
          requests = record received.requests { buffer = [] };
          stage = calling repeat_method 7 arguments;
        }))
unfolding get_parameter_type parameter_types clone
call_method-calls_example =
    call_method-calls ascii definition (109 ∷ []) repeat_method arguments 10 new_client serving
      found (inl (tt, (omega arith, (omega arith, tt))))
      ((((omega arith), (omega arith)), refl), (((omega arith), (omega arith)), tt)) (omega arith)
      refl (omega arith) refl refl

on_result-answers_example :
    (bytes : List ℕ) × ((on_result repeat_method 7 (value (104 ∷ [])) serving).stage ≡ responding)
    × (wait_for_response (record (new_splitter ascii) {
      buffer = outgoing (on_result repeat_method 7 (value (104 ∷ [])) serving).responses;
    })
        ≡ some (record (new_splitter ascii) {
          buffer = bytes;
          frames = after_response false ∷ [];
          delivered = response_received 7 ∷ [];
        }))
    × (start
          (generate_parser_type ascii short_text)
          (generate_parser_type ascii short_text).start
          bytes
        ≡ (called (value (104 ∷ [])), []))
on_result-answers_example =
    on_result-answers ascii repeat_method 7 (104 ∷ []) serving (inl (omega arith))
      ((omega arith, omega arith), refl) (omega arith) refl
