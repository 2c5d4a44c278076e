-- ===== src/Tests/Client.antt =====
-- A client that sends its first request.
use warpcoil.Base.{ℕ, ◌≡◌, ◌++◌, refl, false, List, [], ◌∷◌, some, arith, length}
use warpcoil.Parse.Integer.{write_integer}
use warpcoil.Wire.Serialize.{Statements, ok, failure}
use warpcoil.Writer.{new_writer}
use warpcoil.Writer.Stream.{outgoing}
use warpcoil.Registry.{new_registry}
use warpcoil.Splitter.{
  new_splitter, message_request, after_request, request_received, wait_for_request,
}
use warpcoil.Client.{Client, request}
use warpcoil.Client.Sending.{request-outgoing, request-served}
use warpcoil.Tests.Parse.{ascii}

abbrev pub new_client : Client
new_client = record { requests = new_writer; responses = new_registry; next_request_id = 7 }

abbrev method_name : List ℕ
method_name = 109 ∷ []

abbrev builder : Statements
builder sink = (sink ++ (length method_name ∷ (method_name ++ 42 ∷ [])), ok)

abbrev failing_builder : Statements
failing_builder sink = (sink ++ 1 ∷ 109 ∷ [], failure)

-- The type, the id and the name of a request that failed stay in front of the next one.
request-outgoing_example :
    outgoing (request failing_builder 10 new_client).requests
    ≡ [] ++ (message_request ∷ (write_integer 8 7 ++ 1 ∷ 109 ∷ []))
request-outgoing_example =
    request-outgoing failing_builder (1 ∷ 109 ∷ []) 10 new_client (λ sink. refl)

request-served_example :
    wait_for_request
      (record (new_splitter ascii) { buffer = outgoing (request builder 10 new_client).requests })
    ≡ some (record (new_splitter ascii) {
      buffer = 42 ∷ [];
      frames = after_request false ∷ [];
      delivered = request_received 7 method_name ∷ [];
    })
request-served_example =
    request-served ascii builder method_name (42 ∷ []) 10 new_client refl (omega arith)
      (omega arith) refl (λ sink. refl)
