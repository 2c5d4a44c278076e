-- ===== src/Generated/Stub.antt =====
-- generate_serialization_client.hpp: what the generated method of a client does.
use warpcoil.Base.{ℕ, Bool, List, [], ◌∷◌, length}
use warpcoil.Types.Syntax.{Identifier, Parameter}
use warpcoil.Types.Clone.{declared}
use warpcoil.Parse.Tuple.{Tuple}
use warpcoil.Receive.{invalid_input_error}
use warpcoil.Wire.Values.{element_values}
use warpcoil.Wire.Serialize.{
  Statements, RequestStatus, ok, failure, append, ◌>>◌, serialize_elements,
}
use warpcoil.Registry.{handler_failed, emit}
use warpcoil.Client.{Client, request, write_header}

-- The arguments of a method, with the types that its declaration gives them.
abbrev pub Arguments : List Parameter → Type 0
Arguments ps = Tuple (element_values (declared ps))

-- `handler(make_invalid_input_error())`, which the lambda calls before it returns a failure.
unfoldable pub report : RequestStatus → ℕ → Client → Client
report ok handler c = c
report failure handler c = record c {
  responses = emit (handler_failed handler invalid_input_error ∷ []) c.responses;
}

module _ (is_valid : List ℕ → Bool) where
  -- The lambda that is given to `request`. Names of more than 255 bytes are refused by the generator.
  unfoldable pub build_request : Identifier → (ps : List Parameter) → Arguments ps → Statements
  build_request name ps arguments =
      append (length name ∷ [])
      >> append name
      >> serialize_elements is_valid (declared ps) arguments

  unfoldable pub call_method :
      Identifier → (ps : List Parameter) → Arguments ps → (handler : ℕ) → Client → Client
  call_method name ps arguments handler c =
      let build = build_request name ps arguments in
      let sink = (write_header c.next_request_id c.requests).buffer in
      request build handler (report (build sink).1 handler c)
