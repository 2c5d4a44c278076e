-- ===== src/Splitter/Headers.antt =====
-- What the splitter does with the header of a message that is in the buffer.
use warpcoil.Base.{
  ℕ, ◌<◌, ◌^◌, ◌≡◌, ◌≢◌, refl, Bool, true, false, List, [], ◌∷◌, ◌++◌, append-nil, some, arith, sym,
  ap, ◌∙◌, map, length,
}
use warpcoil.Parse.Interface.{Parser, Reads, last}
use warpcoil.Parse.Integer.{integer_parser, write_integer}
use warpcoil.Parse.Integer.Reading.{IsByte, integer_parser-write_integer, parse_integer_byte_single}
use warpcoil.Parse.Utf8.{utf8_parser}
use warpcoil.Parse.Utf8.Reading.{utf8_parser-Reads}
use warpcoil.Parse.Tuple.{check_tuple}
use warpcoil.Parse.Tuple.Reading.{basic_tuple_parser-Reads}
use warpcoil.Receive.{
  Progress, reading, ReadEvent, read_some, start, called, value, invalid_input_error,
  begin_parse_value, receive,
}
use warpcoil.Receive.Chunks.{concat, NeverImmediate, begin_parse_value-Reads}
use warpcoil.Splitter.{
  on_error, fail_request, after_request_failed, request_failed, Splitter, no_operation,
  message_request, message_response, type_parser, request_parser, response_parser, after_request,
  after_response, request_received, response_received, wait_for_request, wait_for_response,
}

receive-nil : {A : Type 0} (p : Parser A) (r : Progress p × List ℕ) → receive p r [] ≡ (r, [])
unfolding receive
receive-nil p (called r, buffer) = refl
receive-nil p (reading s, buffer) = refl

no_event : {A : Type 0} {e : ReadEvent} {es : List ReadEvent} → ([] ≡ e ∷ es) → A
no_event h = cc

all_read :
    {A : Type 0} (p : Parser A) (r : Progress p × List ℕ) (a : A) (buffer rest : List ℕ)
    (unread : List (List ℕ))
    → receive p r [] ≡ ((called (value a), buffer), map read_some unread)
    → buffer ++ concat unread ≡ rest
    → r ≡ (called (value a), rest)
all_read p r a buffer rest [] e h = cc (receive-nil p r, e, h, append-nil buffer)
all_read p r a buffer rest (c ∷ unread) e h = no_event (ap (λ x. x.1) (sym (receive-nil p r) ∙ e))

-- A message that is in the buffer as a whole is complete without a read.
pub start-Reads :
    {A : Type 0} (p : Parser A) (bytes : List ℕ) {a : A} (rest : List ℕ)
    → NeverImmediate p
    → Reads p p.start bytes a
    → start p p.start (bytes ++ rest) ≡ (called (value a), rest)
unfolding begin_parse_value
start-Reads p bytes {a} rest never r =
    let (buffer, unread, e, h) =
      begin_parse_value-Reads p never (bytes ++ rest) [] rest r (append-nil (bytes ++ rest)) in
    all_read p (start p p.start (bytes ++ rest)) a buffer rest unread e h

module _ (is_valid : List ℕ → Bool) where
  request_parser-Reads :
      (id : ℕ) (name : List ℕ)
      → id < 2 ^ 64
      → length name < 256
      → is_valid name ≡ true
      → Reads
          (request_parser is_valid)
          (request_parser is_valid).start
          (write_integer 8 id ++ length name ∷ name)
          (id, (name, tt))
  request_parser-Reads id name hid hlen ok =
      basic_tuple_parser-Reads ℕ (List ℕ ∷ [])
        (integer_parser 8, (utf8_parser is_valid (integer_parser 1), tt)) (id, (name, tt))
        (
          write_integer 8 id,
          length name ∷ name,
          refl,
          integer_parser-write_integer 8 id (omega arith) (omega arith),
          (
            length name ∷ name,
            [],
            sym (append-nil (length name ∷ name)),
            utf8_parser-Reads is_valid (integer_parser 1) {length_bytes = length name ∷ []} name
                (last (length name) (parse_integer_byte_single (length name) hlen)) ok,
            refl,
          ),
        )

  type_started :
      (b : ℕ) (rest : List ℕ)
      → IsByte b
      → start (type_parser is_valid) (type_parser is_valid).start (b ∷ rest)
        ≡ (called (value b), rest)
  type_started b rest h =
      start-Reads (type_parser is_valid) (b ∷ []) rest (λ s. refl)
        (last b (parse_integer_byte_single b h))

  request_started :
      (id : ℕ) (name rest : List ℕ)
      → id < 2 ^ 64
      → length name < 256
      → is_valid name ≡ true
      → start
          (request_parser is_valid)
          (request_parser is_valid).start
          ((write_integer 8 id ++ length name ∷ name) ++ rest)
        ≡ (called (value (id, (name, tt))), rest)
  unfolding check_tuple
  request_started id name rest hid hlen ok =
      start-Reads (request_parser is_valid) (write_integer 8 id ++ length name ∷ name) rest
        (λ s. refl) (request_parser-Reads id name hid hlen ok)

  -- With the header of a request in the buffer (a 64-bit id, a valid name below 256 bytes),
  -- nobody else waiting for one, the input unlocked and no header being read, wait_for_request
  -- calls its handler at once with the id and the name, leaves what follows the header in the
  -- buffer, and no header is being read any more.
  pub wait_for_request-received :
      (s : Splitter is_valid) (id : ℕ) (name rest : List ℕ)
      → s.waiting_for_request ≡ false
      → s.parsing_header ≡ false
      → s.locked ≡ false
      → id < 2 ^ 64
      → length name < 256
      → is_valid name ≡ true
      → s.buffer ≡ message_request ∷ (write_integer 8 id ++ length name ∷ name) ++ rest
      → wait_for_request s
        ≡ some (record s {
          buffer = rest;
          begin_parse_message = false;
          waiting_for_request = false;
          parsing_header = false;
          operation = no_operation;
          frames = after_request s.waiting_for_response ∷ s.frames;
          delivered = s.delivered ++ request_received id name ∷ [];
        })
  unfolding wait_for_request
  wait_for_request-received s id name rest w p l hid hlen ok h = ground (
    arith,
    w,
    p,
    l,
    h,
    type_started 0 ((write_integer 8 id ++ length name ∷ name) ++ rest) (omega arith),
    request_started id name rest hid hlen ok,
  )

  -- With the header of a response in the buffer, nobody else waiting for one, the input unlocked
  -- and no header being read, wait_for_response calls its handler at once with the id and leaves
  -- what follows the header in the buffer.
  pub wait_for_response-received :
      (s : Splitter is_valid) (id : ℕ) (rest : List ℕ)
      → s.waiting_for_response ≡ false
      → s.parsing_header ≡ false
      → s.locked ≡ false
      → id < 2 ^ 64
      → s.buffer ≡ message_response ∷ write_integer 8 id ++ rest
      → wait_for_response s
        ≡ some (record s {
          buffer = rest;
          begin_parse_message = false;
          waiting_for_response = false;
          parsing_header = false;
          operation = no_operation;
          frames = after_response s.waiting_for_request ∷ s.frames;
          delivered = s.delivered ++ response_received id ∷ [];
        })
  unfolding wait_for_response
  wait_for_response-received s id rest w p l hid h = ground (
    arith,
    w,
    p,
    l,
    h,
    type_started 1 (write_integer 8 id ++ rest) (omega arith),
    start-Reads (response_parser is_valid) (write_integer 8 id) rest (λ s. refl)
        (integer_parser-write_integer 8 id (omega arith) (omega arith)),
  )

  -- If the next byte is any message type but a request, nobody waits for a request or a
  -- response, the input is unlocked and no header is being read, wait_for_request calls its
  -- handler with the invalid input error; the byte is consumed and parsing_header stays set.
  pub wait_for_request-failed :
      (s : Splitter is_valid) (type : ℕ) (rest : List ℕ)
      → s.waiting_for_request ≡ false
      → s.waiting_for_response ≡ false
      → s.parsing_header ≡ false
      → s.locked ≡ false
      → IsByte type
      → type ≢ message_request
      → s.buffer ≡ type ∷ rest
      → wait_for_request s
        ≡ some (record s {
          buffer = rest;
          begin_parse_message = false;
          waiting_for_request = false;
          parsing_header = true;
          operation = no_operation;
          frames = after_request_failed ∷ s.frames;
          delivered = s.delivered ++ request_failed invalid_input_error ∷ [];
        })
  unfolding wait_for_request on_error fail_request
  wait_for_request-failed s type rest w v p l hb n h =
      ground (arith, w, v, p, l, h, n, type_started type rest hb)
