-- ===== src/Client/Sending.antt =====
-- What a request puts on the stream, and what the splitter of the other side makes of it.
use warpcoil.Base.{
  ℕ, ◌<◌, ◌^◌, ◌≡◌, refl, sym, ◌∙◌, ap, Bool, true, false, List, [], ◌∷◌, ◌++◌, append_assoc, some,
  length,
}
use warpcoil.Parse.Integer.{write_integer, write_bytes}
use warpcoil.Wire.Serialize.{Statements, RequestStatus, ok, failure}
use warpcoil.Writer.{Writer, append, send_buffer}
use warpcoil.Writer.Stream.{outgoing, send_in-outgoing}
use warpcoil.Splitter.{
  new_splitter, message_request, after_request, request_received, wait_for_request,
}
use warpcoil.Splitter.Headers.{wait_for_request-received}
use warpcoil.Client.{Client, write_header, built, request}

type_byte : write_integer 1 message_request ≡ message_request ∷ []
unfolding write_integer write_bytes
type_byte = refl

header-outgoing :
    (id : ℕ) (w : Writer) (b : List ℕ)
    → w.sent ++ ((write_header id w).buffer ++ b)
      ≡ outgoing w ++ (message_request ∷ (write_integer 8 id ++ b))
unfolding write_header append
header-outgoing id w b =
    rw (type_byte, append_assoc, append_assoc)
      (sym (append_assoc w.sent w.buffer (message_request ∷ (write_integer 8 id ++ b))))

built-outgoing :
    (bytes b : List ℕ) (r : List ℕ × RequestStatus) (handler : ℕ) (w : Writer) (c : Client)
    → r.0 ≡ bytes
    → outgoing (built r handler w c).requests ≡ w.sent ++ bytes
unfolding built send_buffer
built-outgoing bytes b (sink, ok) handler w c e =
    send_in-outgoing w.state (record w { buffer = sink }) c.next_request_id
    ∙ ap (λ x. w.sent ++ x) e
built-outgoing bytes b (sink, failure) handler w c e = ap (λ x. w.sent ++ x) e

sent_kept : (id : ℕ) (w : Writer) → (write_header id w).sent ≡ w.sent
unfolding write_header append
sent_kept id w = refl

-- What a request puts behind what is going out, from what `build_request` does to its sink.
pub built_request-outgoing :
    (build_request : Statements) (b : List ℕ) (handler : ℕ) (c : Client)
    → (build_request (write_header c.next_request_id c.requests).buffer).0
      ≡ (write_header c.next_request_id c.requests).buffer ++ b
    → outgoing (request build_request handler c).requests
      ≡ outgoing c.requests ++ (message_request ∷ (write_integer 8 c.next_request_id ++ b))
unfolding request
built_request-outgoing build_request b handler c e =
    let w = write_header c.next_request_id c.requests in
    built-outgoing (w.buffer ++ b) b (build_request w.buffer) handler w c e
    ∙ header-outgoing c.next_request_id c.requests b

-- If build_request appends the bytes b, with an error or without, request appends to what goes
-- out the message type, the id of the request and b, in this order.
pub request-outgoing :
    (build_request : Statements) (b : List ℕ) (handler : ℕ) (c : Client)
    → ((sink : List ℕ) → (build_request sink).0 ≡ sink ++ b)
    → outgoing (request build_request handler c).requests
      ≡ outgoing c.requests ++ (message_request ∷ (write_integer 8 c.next_request_id ++ b))
request-outgoing build_request b handler c e =
    built_request-outgoing build_request b handler c
      (e (write_header c.next_request_id c.requests).buffer)

-- If nothing is going out yet, the next id is below 2^64 and build_request appends the length of
-- a valid name below 256 bytes, the name and the rest, then a new splitter that has in its
-- buffer what goes out after request hands the id and the name to the handler of
-- wait_for_request and leaves the rest in the buffer.
pub request-served :
    (is_valid : List ℕ → Bool) (build_request : Statements) (name rest : List ℕ) (handler : ℕ)
    (c : Client)
    → outgoing c.requests ≡ []
    → c.next_request_id < 2 ^ 64
    → length name < 256
    → is_valid name ≡ true
    → ((sink : List ℕ) → (build_request sink).0 ≡ sink ++ (length name ∷ (name ++ rest)))
    → wait_for_request (record (new_splitter is_valid) {
      buffer = outgoing (request build_request handler c).requests;
    })
      ≡ some (record (new_splitter is_valid) {
        buffer = rest;
        frames = after_request false ∷ [];
        delivered = request_received c.next_request_id name ∷ [];
      })
request-served is_valid build_request name rest handler c empty hid hlen valid e =
    wait_for_request-received is_valid
      (record (new_splitter is_valid) {
        buffer = outgoing (request build_request handler c).requests;
      })
      c.next_request_id name rest refl refl refl hid hlen valid
      (request-outgoing build_request (length name ∷ (name ++ rest)) handler c e
        ∙ rw (empty, append_assoc) refl)
