-- ===== src/Javascript/Receiving.antt =====
-- The input receiver of the script, called with the bytes of a response.
use warpcoil.Base.{
  ℕ, ◌/◌, ◌%◌, ◌^◌, ◌<◌, ◌≡◌, refl, ◌∙◌, ap, List, [], ◌∷◌, ◌++◌, append-nil, Option, some, arith,
  lt→ltb,
}
use warpcoil.Parse.Interface.{last, more}
use warpcoil.Parse.Integer.{write_integer}
use warpcoil.Generated.Interface.{InterfaceDefinition}
use warpcoil.Javascript.Values.{pos, Value, to_int32, long}
use warpcoil.Javascript.Parsing.{
  Closure, missing, completed, parse_int, parse_int_8, parse_text, parse_content, parse_elements,
  parse_members, call_closure, Returns,
}
use warpcoil.Javascript.Integers.Long.{parse_int_8-Returns}
use warpcoil.Javascript.Peer.{
  Peer, PendingRequest, Outcome, returned, thrown, InputState, initial_state, response_id_expected,
  result_expected, result_given, Key, find_pending, delete_pending,
}
use warpcoil.Javascript.Peer.Input.{
  receive_byte, parsed, await_result, response_found, response_id_received, key_of,
}

module _ (definition : InterfaceDefinition) where
  -- The receiver is called with the bytes in turn, up to an exception.
  abbrev pub receive_bytes : List ℕ → Outcome × Peer → Outcome × Peer
  receive_bytes [] r = r
  receive_bytes (b ∷ bs) (returned, p) = receive_bytes bs (receive_byte definition b p)
  receive_bytes (b ∷ bs) (thrown, p) = (thrown, p)

  module _ (waiting : Closure → InputState) (next : Value → Peer → Outcome × Peer)
      (waits : (c : Closure) (b : ℕ) (p : Peer)
        → receive_byte definition b (record p { state = waiting c })
          ≡ parsed waiting next (call_closure c b) (record p { state = waiting c })) where
    -- A parser of the receiver gets its bytes.
    pub received :
        {c : Closure} {bytes : List ℕ} {v : Value} (rest : List ℕ) (p : Peer)
        → Returns c bytes v
        → (c' : Closure) × (receive_bytes (bytes ++ rest) (returned, record p { state = waiting c })
            ≡ receive_bytes rest (next v (record p { state = waiting c' })))
    unfolding parsed
    received {c} rest p (last {s' = c'} b e) =
        (c', ap (receive_bytes rest) (waits c b p ∙ rw e refl))
    received {c} rest p (more {s' = c'} b e r) =
        let (d, k) = received rest p r in (d, ap (receive_bytes _) (waits c b p ∙ rw e refl) ∙ k)

not_missing : {A : Type 0} {bytes : List ℕ} {v : Value} → Returns missing bytes v → A
unfolding call_closure
not_missing (last b e) = cc
not_missing (more b e r) = cc

result_awaited :
    (c : Closure) {bytes : List ℕ} {v : Value} (request : PendingRequest) (p : Peer)
    → Returns c bytes v
    → await_result request c p ≡ (returned, record p { state = result_expected request c })
unfolding await_result
result_awaited missing request p r = not_missing r
result_awaited completed request p r = refl
result_awaited (parse_int a b c d e) request p r = refl
result_awaited (parse_int_8 a b c) request p r = refl
result_awaited (parse_text c) request p r = refl
result_awaited (parse_content a b c) request p r = refl
result_awaited (parse_elements a b c) request p r = refl
result_awaited (parse_members a b c d) request p r = refl

id_key :
    (id : ℕ)
    → id < 2 ^ 31
    → key_of (long (to_int32 (id / 2 ^ 32)) (to_int32 (id % 2 ^ 32))) ≡ some (pos 0, pos id)
unfolding key_of
id_key id h =
    let high : id / 2 ^ 32 ≡ 0 = omega arith in
    let low : id % 2 ^ 32 ≡ id = omega arith in rw (high, low) (rw (lt→ltb id (2 ^ 31) h) refl)

id_received :
    (p : Peer) (o : Option Key) (key : Key) (request : PendingRequest) {bytes : List ℕ} {v : Value}
    → o ≡ some key
    → find_pending key p.pending_requests ≡ some request
    → Returns request.argument_parser bytes v
    → response_id_received o p ≡ (
      returned,
      record p {
        state = result_expected request request.argument_parser;
        pending_requests = delete_pending key p.pending_requests;
      },
    )
unfolding response_id_received response_found
id_received p o key request e found r =
    rw (e, found)
      (result_awaited request.argument_parser request
        (record p { pending_requests = delete_pending key p.pending_requests }) r)

module _ (definition : InterfaceDefinition) where
  after_result :
      (p : Peer) (request : PendingRequest) (c : Closure) (bytes : List ℕ) (v : Value)
      → Returns c bytes v
      → receive_bytes definition bytes (returned, record p { state = result_expected request c })
        ≡ (
          returned,
          record p {
            state = initial_state;
            effects = p.effects ++ result_given request.on_result v ∷ [];
          },
        )
  unfolding receive_byte
  after_result p request c bytes v r =
      let (d, k) =
        received definition (result_expected request)
          (λ v p. (
            returned,
            record p {
              state = initial_state;
              effects = p.effects ++ result_given request.on_result v ∷ [];
            },
          ))
          (λ c b p. refl) [] p r in
      rw append-nil at k

  after_id :
      (p : Peer) (id : ℕ) (request : PendingRequest) (bytes rest : List ℕ) (v : Value)
      → find_pending (pos 0, pos id) p.pending_requests ≡ some request
      → id < 2 ^ 31
      → Returns request.argument_parser bytes v
      → receive_bytes definition
          (write_integer 8 id ++ rest)
          (returned, record p { state = response_id_expected (parse_int_8 0 0 0) })
        ≡ receive_bytes definition rest (
          returned,
          record p {
            state = result_expected request request.argument_parser;
            pending_requests = delete_pending (pos 0, pos id) p.pending_requests;
          },
        )
  unfolding receive_byte
  after_id p id request bytes rest v found small r =
      let (d, k) =
        received definition response_id_expected (λ v. response_id_received (key_of v))
          (λ c b p. refl) rest p (parse_int_8-Returns id (omega (arith, small))) in
      k
      ∙ ap (receive_bytes definition rest) (
          id_received (record p { state = response_id_expected d }) _ (pos 0, pos id) request
            (id_key id small) found r)

  -- The receiver looks up the request by the id of the response and parses the result.
  pub response_bytes-received :
      (p : Peer) (id : ℕ) (request : PendingRequest) (bytes : List ℕ) (v : Value)
      → p.state ≡ initial_state
      → find_pending (pos 0, pos id) p.pending_requests ≡ some request
      → id < 2 ^ 31
      → Returns request.argument_parser bytes v
      → receive_bytes definition (1 ∷ (write_integer 8 id ++ bytes)) (returned, p) ≡ (
        returned,
        record p {
          state = initial_state;
          pending_requests = delete_pending (pos 0, pos id) p.pending_requests;
          effects = p.effects ++ result_given request.on_result v ∷ [];
        },
      )
  unfolding receive_byte
  response_bytes-received p id request bytes v initial found small r = rw initial (
      after_id p id request bytes bytes v found small r
      ∙ after_result
          (record p { pending_requests = delete_pending (pos 0, pos id) p.pending_requests })
          request request.argument_parser bytes v r)
