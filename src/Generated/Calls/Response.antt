-- ===== src/Generated/Calls/Response.antt =====
-- The response: from the result of the implementation to the parse operation of the client.
use warpcoil.Base.{
  ℕ, ◌<◌, ◌^◌, ◌≡◌, refl, sym, ◌∙◌, ap, Bool, List, [], ◌∷◌, ◌++◌, append_assoc, append-nil, some,
  false,
}
use warpcoil.Types.Syntax.{
  WireType, integer, variant, tuple, vector, utf8, structure, nil, cons, end, field,
}
use warpcoil.Parse.Integer.{write_integer, write_bytes}
use warpcoil.Wire.Values.{ValueOf, generate_parser_type}
use warpcoil.Wire.Serialize.{ok, generate_value_serialization}
use warpcoil.Wire.Conforms.{Conforms, generate_value_serialization-Conforms}
use warpcoil.Receive.{start, called, value}
use warpcoil.Writer.{Writer, append, send_buffer}
use warpcoil.Writer.Stream.{outgoing, send_in-outgoing}
use warpcoil.Splitter.{
  new_splitter, message_response, after_response, response_received, wait_for_response,
}
use warpcoil.Splitter.Headers.{wait_for_response-received}
use warpcoil.Generated.Interface.{Method}
use warpcoil.Generated.Server.{
  Server, responding, serialize_result, write_response_header, on_result, respond,
}
use warpcoil.Generated.Calls.{pair_eq, IsCarried, carried-IsSized, start-serialized}

type_byte : write_integer 1 message_response ≡ message_response ∷ []
unfolding write_integer write_bytes
type_byte = refl

header-outgoing :
    (id : ℕ) (w : Writer) (b : List ℕ)
    → w.sent ++ ((write_response_header id w).buffer ++ b)
      ≡ outgoing w ++ (message_response ∷ (write_integer 8 id ++ b))
unfolding write_response_header append
header-outgoing id w b =
    rw (type_byte, append_assoc, append_assoc)
      (sym (append_assoc w.sent w.buffer (message_response ∷ (write_integer 8 id ++ b))))

sent_off :
    {is_valid : List ℕ → Bool} (id : ℕ) (bytes : List ℕ) (s : Server is_valid)
    → outgoing (respond id (bytes, ok) s).responses ≡ s.responses.sent ++ bytes
unfolding respond send_buffer
sent_off id bytes s = send_in-outgoing s.responses.state (record s.responses { buffer = bytes }) id

now_responding :
    {is_valid : List ℕ → Bool} (id : ℕ) (bytes : List ℕ) (s : Server is_valid)
    → (respond id (bytes, ok) s).stage ≡ responding
unfolding respond
now_responding id bytes s = refl

module _ (is_valid : List ℕ → Bool) where
  -- The server writes nothing for an empty type, and so would the serializer.
  pub serialize_result-generate :
      (t : WireType) (v : ValueOf t) (sink : List ℕ)
      → serialize_result is_valid t v sink ≡ generate_value_serialization is_valid t v sink
  unfolding serialize_result generate_value_serialization
  serialize_result-generate (integer r) v sink = refl
  serialize_result-generate (variant nil) v sink = absurd v
  serialize_result-generate (variant (cons t ts)) v sink = refl
  serialize_result-generate (tuple nil) v sink = refl
  serialize_result-generate (tuple (cons t ts)) v sink = refl
  serialize_result-generate (vector r t) v sink = refl
  serialize_result-generate (utf8 r) v sink = refl
  serialize_result-generate (structure end) v sink = refl
  serialize_result-generate (structure (field t n fs)) v sink = refl

  -- What a result that serializes without an error puts behind what is going out.
  pub responded :
      (m : Method) (id : ℕ) (r : ValueOf m.result) (s : Server is_valid) (bytes : List ℕ)
      → serialize_result is_valid m.result r (write_response_header id s.responses).buffer
        ≡ ((write_response_header id s.responses).buffer ++ bytes, ok)
      → (outgoing (on_result m id (value r) s).responses
          ≡ outgoing s.responses ++ (message_response ∷ (write_integer 8 id ++ bytes)))
        × ((on_result m id (value r) s).stage ≡ responding)
  unfolding on_result write_response_header
  responded m id r s bytes e =
      let w = write_response_header id s.responses in
      let server = record s { responses = w } in
      (
        ap (λ x. outgoing (respond id x server).responses) e
            ∙ (sent_off id (w.buffer ++ bytes) server ∙ header-outgoing id s.responses bytes),
        ap (λ x. (respond id x server).stage) e ∙ now_responding id (w.buffer ++ bytes) server,
      )

  -- If a result conforms to its type (a solid or an empty one), its id is below 2^64 and nothing
  -- is going out yet, then on_result sends a response: a new splitter that has these bytes in
  -- its buffer hands the id to the handler of wait_for_response, and a parse operation for the
  -- type takes all the rest as the result.
  pub on_result-answers :
      (m : Method) (id : ℕ) (r : ValueOf m.result) (s : Server is_valid)
      → IsCarried m.result
      → Conforms is_valid m.result r
      → id < 2 ^ 64
      → outgoing s.responses ≡ []
      → (bytes : List ℕ) × ((on_result m id (value r) s).stage ≡ responding)
        × (wait_for_response (record (new_splitter is_valid) {
          buffer = outgoing (on_result m id (value r) s).responses;
        })
            ≡ some (record (new_splitter is_valid) {
              buffer = bytes;
              frames = after_response false ∷ [];
              delivered = response_received id ∷ [];
            }))
        × (start
              (generate_parser_type is_valid m.result)
              (generate_parser_type is_valid m.result).start
              bytes
            ≡ (called (value r), []))
  on_result-answers m id r s h k hid empty =
      let sink = (write_response_header id s.responses).buffer in
      let status =
        (generate_value_serialization-Conforms is_valid m.result (carried-IsSized m.result h) r
            sink).1
          k in
      let (bytes, w, st) = start-serialized is_valid m.result h r sink [] status in
      let (out, stage) =
        responded m id r s bytes (serialize_result-generate m.result r sink ∙ pair_eq _ w status) in
      (
        bytes,
        stage,
        wait_for_response-received is_valid
            (record (new_splitter is_valid) {
              buffer = outgoing (on_result m id (value r) s).responses;
            })
            id bytes refl refl refl hid (out ∙ rw empty refl),
        ap
              (λ l.
                start (generate_parser_type is_valid m.result)
                  (generate_parser_type is_valid m.result).start l)
              (sym (append-nil bytes))
            ∙ st,
      )
