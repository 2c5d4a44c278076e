-- ===== src/Generated/Calls/Request.antt =====
-- The request: from the generated method of the client to the call of the implementation.
use warpcoil.Base.{
  ℕ, ◌<◌, ◌^◌, ◌≡◌, refl, sym, ◌∙◌, ap, Bool, true, false, List, [], ◌∷◌, ◌++◌, append_assoc,
  append-nil, some, arith, length,
}
use warpcoil.Types.Syntax.{Identifier, Parameter, get_parameter_type}
use warpcoil.Parse.Integer.{write_integer}
use warpcoil.Wire.Values.{ValueOf, generate_parser_type}
use warpcoil.Wire.Serialize.{RequestStatus, ok, failure, generate_value_serialization}
use warpcoil.Wire.Conforms.{Conforms, generate_value_serialization-Conforms}
use warpcoil.Receive.{start, called, value}
use warpcoil.Writer.Stream.{outgoing}
use warpcoil.Splitter.{
  Splitter, new_splitter, message_request, after_request, request_received, wait_for_request,
  lock_input, unlock_input,
}
use warpcoil.Splitter.Headers.{wait_for_request-received}
use warpcoil.Client.{Client, write_header, request}
use warpcoil.Client.Sending.{built_request-outgoing}
use warpcoil.Generated.Interface.{Method, InterfaceDefinition, find_method}
use warpcoil.Generated.Stub.{Arguments, build_request, call_method, report}
use warpcoil.Generated.Server.{
  Server, calling, serve_one_request, on_request, parameter_parser, argument_progress, waiting,
}
use warpcoil.Generated.Calls.{
  pair_eq, IsCarried, carried-IsSized, start-serialized, as_declared, build_request_lem,
}

report_ok :
    (status : RequestStatus) (handler : ℕ) (c : Client) → status ≡ ok → report status handler c ≡ c
unfolding report
report_ok ok handler c e = refl
report_ok failure handler c e = cc

module _ (is_valid : List ℕ → Bool) where
  -- What the method sends if the serialization of its arguments does not fail.
  pub built_call-outgoing :
      (name : Identifier) (ps : List Parameter) (arguments : Arguments ps) (handler : ℕ)
      (c : Client) (r : List ℕ × RequestStatus) (bytes : List ℕ)
      → build_request is_valid name ps arguments (write_header c.next_request_id c.requests).buffer
        ≡ r
      → r.0
        ≡ (((write_header c.next_request_id c.requests).buffer ++ length name ∷ []) ++ name)
          ++ bytes
      → r.1 ≡ ok
      → outgoing (call_method is_valid name ps arguments handler c).requests
        ≡ outgoing c.requests
          ++ (message_request
              ∷ (write_integer 8 c.next_request_id ++ (length name ∷ (name ++ bytes))))
  unfolding call_method
  built_call-outgoing name ps arguments handler c r bytes b w status =
      let build = build_request is_valid name ps arguments in
      let sink = (write_header c.next_request_id c.requests).buffer in
      let e : build sink ≡ (sink ++ (length name ∷ (name ++ bytes)), ok) =
        b
        ∙ pair_eq _
            (w ∙ (append_assoc _ name bytes ∙ append_assoc sink (length name ∷ []) (name ++ bytes)))
            status in
      ap (λ x. outgoing (request build handler x).requests)
        (report_ok (build sink).1 handler c (ap (λ x. x.1) e))
      ∙ built_request-outgoing build (length name ∷ (name ++ bytes)) handler c (ap (λ x. x.0) e)

  -- The client's method sends the length of the name, the name and the arguments `v`, and the
  -- arguments are read back at once wherever these bytes stand.
  call_method-outgoing :
      (name : Identifier) (ps : List Parameter) (v : ValueOf (get_parameter_type ps)) (handler : ℕ)
      (c : Client)
      → IsCarried (get_parameter_type ps)
      → Conforms is_valid (get_parameter_type ps) v
      → (bytes : List ℕ) × (outgoing
            (call_method is_valid name ps (as_declared ps v) handler c).requests
          ≡ outgoing c.requests
            ++ (message_request
                ∷ (write_integer 8 c.next_request_id ++ (length name ∷ (name ++ bytes)))))
        × (start
              (generate_parser_type is_valid (get_parameter_type ps))
              (generate_parser_type is_valid (get_parameter_type ps)).start
              bytes
            ≡ (called (value v), []))
  call_method-outgoing name ps v handler c h k =
      let t = get_parameter_type ps in
      let sink = (write_header c.next_request_id c.requests).buffer in
      let status : (generate_value_serialization is_valid t v
            ((sink ++ length name ∷ []) ++ name)).1
          ≡ ok =
        (generate_value_serialization-Conforms is_valid t (carried-IsSized t h) v
            ((sink ++ length name ∷ []) ++ name)).1
          k in
      let (bytes, w, r) =
        start-serialized is_valid t h v ((sink ++ length name ∷ []) ++ name) [] status in
      (
        bytes,
        built_call-outgoing name ps (as_declared ps v) handler c _ bytes
            (build_request_lem is_valid name ps v sink) w status,
        ap (λ l. start (generate_parser_type is_valid t) (generate_parser_type is_valid t).start l)
              (sym (append-nil bytes))
            ∙ r,
      )

  -- With the arguments in the buffer as a whole and the input unlocked, the handler of
  -- wait_for_request calls the implementation at once.
  dispatched :
      (definition : InterfaceDefinition) (server : Server is_valid) (id : ℕ) (name : Identifier)
      (m : Method) (v : ValueOf (get_parameter_type m.parameters))
      → server.requests.parsing_header ≡ false
      → server.requests.locked ≡ false
      → server.requests.waiting_for_request ≡ false
      → server.requests.waiting_for_response ≡ false
      → find_method name definition ≡ some m
      → start
          (parameter_parser is_valid m)
          (parameter_parser is_valid m).start
          server.requests.buffer
        ≡ (called (value v), [])
      → on_request definition (value (id, name)) server
        ≡ some (record server {
          requests = record server.requests { buffer = [] };
          stage = calling m id v;
        })
  unfolding on_request lock_input argument_progress unlock_input
  dispatched definition server id name m v p l wq wp found st =
      ground (arith, found, p, l, st, wq, wp)

  header_in :
      (server : Server is_valid) (r : Splitter is_valid)
      → wait_for_request server.requests ≡ some r
      → serve_one_request server ≡ some (record server { requests = r; stage = waiting })
  unfolding serve_one_request
  header_in server r e = rw e refl

  -- If the arguments conform to the types of the parameters of a method of the interface (which
  -- are solid types, or there are no parameters), its name is valid and below 256 bytes, the
  -- next id is below 2^64 and nothing is going out yet, then a server whose splitter is new and
  -- has in its buffer what goes out after call_method receives the id and the name, and calls
  -- the implementation of this method at once with this id and these arguments; nothing stays in
  -- the buffer.
  pub call_method-calls :
      (definition : InterfaceDefinition) (name : Identifier) (m : Method)
      (v : ValueOf (get_parameter_type m.parameters)) (handler : ℕ) (c : Client)
      (server : Server is_valid)
      → find_method name definition ≡ some m
      → IsCarried (get_parameter_type m.parameters)
      → Conforms is_valid (get_parameter_type m.parameters) v
      → length name < 256
      → is_valid name ≡ true
      → c.next_request_id < 2 ^ 64
      → outgoing c.requests ≡ []
      → server.requests ≡ record (new_splitter is_valid) {
        buffer =
            outgoing
              (call_method is_valid name m.parameters
                (as_declared m.parameters v)
                handler
                c).requests;
      }
      → (received : Server is_valid) × (serve_one_request server ≡ some received)
        × (received.requests.delivered ≡ request_received c.next_request_id name ∷ [])
        × (on_request definition (value (c.next_request_id, name)) received
            ≡ some (record received {
              requests = record received.requests { buffer = [] };
              stage = calling m c.next_request_id v;
            }))
  call_method-calls definition name m v handler c server found h k hlen valid hid empty e =
      let id = c.next_request_id in
      let sending = call_method is_valid name m.parameters (as_declared m.parameters v) handler c in
      let (bytes, out, st) = call_method-outgoing name m.parameters v handler c h k in
      let r = record (new_splitter is_valid) {
        buffer = bytes;
        frames = after_request false ∷ [];
        delivered = request_received id name ∷ [];
      } in
      let received = record server { requests = r; stage = waiting } in
      let waited : wait_for_request server.requests ≡ some r =
        ap wait_for_request e
        ∙ wait_for_request-received is_valid
            (record (new_splitter is_valid) { buffer = outgoing sending.requests }) id name bytes
            refl refl refl hid hlen valid (out ∙ rw (empty, append_assoc) refl) in
      (
        received,
        header_in server r waited,
        refl,
        dispatched definition received id name m v refl refl refl refl found st,
      )
