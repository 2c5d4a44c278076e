-- ===== src/Client.antt =====
-- warpcoil/cpp/client_pipeline.hpp: a request goes into the writer's buffer behind its type and its
-- id, and its handler into the expected responses. `build_request` is the generated code that
-- appends the name of the method and the parameters.
pub mod Sending
use warpcoil.Base.{ℕ, ◌+◌, ◌%◌, ◌^◌, List, ◌∷◌, Option, none, some}
use warpcoil.Parse.Integer.{write_integer}
use warpcoil.Wire.Serialize.{Statements, RequestStatus, ok, failure}
use warpcoil.Writer.{Writer, append, send_buffer}
use warpcoil.Splitter.{message_request}
use warpcoil.Registry.{Registry, expect_response, on_error}
use warpcoil.Receive.{ErrorCode}

pub record Client : Type 0 where
  pub requests : Writer
  pub responses : Registry
  pub next_request_id : ℕ

-- What `request` writes before `build_request`.
unfoldable pub write_header : ℕ → Writer → Writer
unfolding append
write_header id w = append (append w (write_integer 1 message_request)) (write_integer 8 id)

-- The status of `build_request`, which has left `bytes` in the buffer. The handler of the write is
-- named by the id of the request.
built : List ℕ × RequestStatus → ℕ → Writer → Client → Client
built (bytes, ok) handler w c = record c {
  requests = send_buffer (record w { buffer = bytes }) c.next_request_id;
  responses = expect_response c.next_request_id handler c.responses;
  next_request_id = (c.next_request_id + 1) % 2 ^ 64;
}
built (bytes, failure) handler w c = record c {
  requests = record w { buffer = bytes };
  next_request_id = (c.next_request_id + 1) % 2 ^ 64;
}

unfoldable pub request : Statements → ℕ → Client → Client
unfolding built write_header
request build_request handler c =
    let w = write_header c.next_request_id c.requests in built (build_request w.buffer) handler w c

-- The handler that `request` gives to `send_buffer`.
unfoldable pub request_written : Option ErrorCode → Client → Client
request_written none c = c
request_written (some ec) c = record c { responses = on_error ec c.responses }
