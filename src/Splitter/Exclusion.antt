-- ===== src/Splitter/Exclusion.antt =====
-- The stream has one reader at a time, and no read of a header ends in a failed assertion.
pub mod Calls
use warpcoil.Base.{
  ℕ, ◌≡◌, ◌≢◌, refl, sym, subst, Bool, true, false, not, ◌&&◌, ◌||◌, List, [], ◌∷◌, Option, none,
  some, ◌⊎◌, inl, inr, arith, if-either, if-cases, Bool-cases, if◌then◌else◌, ◌==◌,
}
use warpcoil.Parse.Tuple.{Tuple}
use warpcoil.Receive.{
  ErrorCode, ErrorOr, ReadEvent, value, error, invalid_input_error, Progress, called, reading,
  start, on_read,
}
use warpcoil.Splitter.{
  Splitter, Operation, no_operation, parsing_type, parsing_response, parsing_request, Frame,
  after_request, after_response, after_response_failed, after_request_failed, fail_request,
  on_error, parse_request_operation, parse_response_operation, request_progress, response_progress,
  parse_message_type_operation, type_progress, call_begin_parse_message, wait_for_request,
  wait_for_response, lock_input, unlock_input, resume, pop, handler_returned, read_into,
  read_completed, request_parser, response_parser, type_parser, can_begin, message_request,
  message_response,
}

-- No handler that is running was called with an error while the other handler was waiting.
abbrev pub IsClean : List Frame → Type 0
IsClean [] = Unit {0}
IsClean (after_response_failed is_waiting_for_request ec ∷ frames) = ⊥
IsClean (f ∷ frames) = IsClean frames

module _ {is_valid : List ℕ → Bool} where
  -- A header is being read, and nobody has locked the input.
  abbrev pub IsActive : Splitter is_valid → Type 0
  IsActive s = (s.parsing_header ≡ true) × (s.locked ≡ false) × IsClean s.frames

  -- What the operation in progress relies on: that its handler still waits.
  abbrev pub Fits : Operation is_valid → Splitter is_valid → Type 0
  Fits no_operation s = IsClean s.frames ⊎ (s.parsing_header ≡ true)
  Fits (parsing_type p) s = IsActive s
  Fits (parsing_response p) s = IsActive s × (s.waiting_for_response ≡ true)
  Fits (parsing_request p) s = IsActive s × (s.waiting_for_request ≡ true)

  pub record IsSound (s : Splitter is_valid) : Type 0 where
    pub exclusive : s.parsing_header ≡ true → s.locked ≡ false
    pub fits : Fits s.operation s

  abbrev pub OnSome : Option (Splitter is_valid) → Type 0
  OnSome none = Unit {0}
  OnSome (some t) = IsSound t

  -- The same, and there is a result.
  abbrev pub IsSome : Option (Splitter is_valid) → Type 0
  IsSome none = ⊥
  IsSome (some t) = IsSound t

  fail_request-IsSome :
      (ec : ErrorCode) (s : Splitter is_valid)
      → s.parsing_header ≡ true
      → s.locked ≡ false
      → s.operation ≡ no_operation
      → IsSome (fail_request s.waiting_for_request ec s)
  unfolding fail_request
  fail_request-IsSome ec s h l o = ground arith

  on_error-IsSome :
      (ec : ErrorCode) (s : Splitter is_valid)
      → s.parsing_header ≡ true
      → s.locked ≡ false
      → s.operation ≡ no_operation
      → IsSome (on_error ec s)
  unfolding on_error
  on_error-IsSome ec s h l o = ground arith

  parse_request_operation-IsSome :
      (r : ErrorOr (Tuple (ℕ ∷ List ℕ ∷ []))) (s : Splitter is_valid)
      → IsActive s
      → s.operation ≡ no_operation
      → s.waiting_for_request ≡ true
      → IsSome (parse_request_operation r s)
  unfolding parse_request_operation
  parse_request_operation-IsSome (error ec) s a o w = ground arith
  parse_request_operation-IsSome (value (id, (name, _))) s a o w = ground arith

  parse_response_operation-IsSome :
      (r : ErrorOr ℕ) (s : Splitter is_valid)
      → IsActive s
      → s.operation ≡ no_operation
      → s.waiting_for_response ≡ true
      → IsSome (parse_response_operation r s)
  unfolding parse_response_operation
  parse_response_operation-IsSome (error ec) s a o w = ground arith
  parse_response_operation-IsSome (value id) s a o w = ground arith

  request_progress-IsSome :
      (s : Splitter is_valid) (r : Progress (request_parser is_valid) × List ℕ)
      → IsActive s
      → s.waiting_for_request ≡ true
      → IsSome (request_progress s r)
  unfolding request_progress
  request_progress-IsSome s (called r, buffer) a w =
      parse_request_operation-IsSome r (record s { buffer = buffer; operation = no_operation }) a
        refl w
  request_progress-IsSome s (reading p, buffer) a w = record { exclusive = λ e. a.1; fits = (a, w) }

  response_progress-IsSome :
      (s : Splitter is_valid) (r : Progress (response_parser is_valid) × List ℕ)
      → IsActive s
      → s.waiting_for_response ≡ true
      → IsSome (response_progress s r)
  unfolding response_progress
  response_progress-IsSome s (called r, buffer) a w =
      parse_response_operation-IsSome r (record s { buffer = buffer; operation = no_operation }) a
        refl w
  response_progress-IsSome s (reading p, buffer) a w = record {
    exclusive = λ e. a.1;
    fits = (a, w);
  }

  parse_message_type_operation-IsSome :
      (r : ErrorOr ℕ) (s : Splitter is_valid)
      → IsActive s
      → s.operation ≡ no_operation
      → IsSome (parse_message_type_operation r s)
  unfolding parse_message_type_operation
  parse_message_type_operation-IsSome (error ec) s a o = on_error-IsSome ec s a.0 a.1 o
  parse_message_type_operation-IsSome (value type) s a o =
      let bad = on_error-IsSome invalid_input_error s a.0 a.1 o in
      if-either IsSome (type == message_response)
        (if-cases IsSome s.waiting_for_response (response_progress-IsSome s _ a) (λ n. bad))
        (if-either IsSome (type == message_request)
          (if-cases IsSome s.waiting_for_request (request_progress-IsSome s _ a) (λ n. bad)) bad)

  type_progress-IsSome :
      (s : Splitter is_valid) (r : Progress (type_parser is_valid) × List ℕ)
      → IsActive s
      → IsSome (type_progress s r)
  unfolding type_progress
  type_progress-IsSome s (called r, buffer) a =
      parse_message_type_operation-IsSome r (record s { buffer = buffer; operation = no_operation })
        a refl
  type_progress-IsSome s (reading p, buffer) a = record { exclusive = λ e. a.1; fits = a }

  pub Clean_of_idle :
      (o : Operation is_valid) (s : Splitter is_valid)
      → s.parsing_header ≡ false
      → Fits o s
      → (o ≡ no_operation) × IsClean s.frames
  Clean_of_idle no_operation s h (inl c) = (refl, c)
  Clean_of_idle no_operation s h (inr t) = cc
  Clean_of_idle (parsing_type p) s h f = cc (f.0)
  Clean_of_idle (parsing_response p) s h f = cc (f.0.0)
  Clean_of_idle (parsing_request p) s h f = cc (f.0.0)

  pub IsSome→OnSome : (o : Option (Splitter is_valid)) → IsSome o → OnSome o
  IsSome→OnSome none h = tt
  IsSome→OnSome (some t) h = h

  pub call_begin_parse_message-OnSome :
      (s : Splitter is_valid) → IsSound s → OnSome (call_begin_parse_message s)
  unfolding call_begin_parse_message
  call_begin_parse_message-OnSome s i =
      if-cases OnSome (can_begin s)
        (λ g.
          if-cases OnSome s.locked (λ l. i)
            (λ l. IsSome→OnSome _ (
              type_progress-IsSome (record s { begin_parse_message = false; parsing_header = true })
                (start (type_parser is_valid) (type_parser is_valid).start s.buffer)
                (refl, l, (Clean_of_idle s.operation s (ground arith) i.fits).1))))
        (λ n. tt)

  read_into-IsSome :
      (o : Operation is_valid) (e : ReadEvent) (s : Splitter is_valid)
      → Fits o s
      → o ≢ no_operation
      → IsSome (read_into o e s)
  unfolding read_into
  read_into-IsSome no_operation e s f n = absurd (n refl)
  read_into-IsSome (parsing_type p) e s f n =
      type_progress-IsSome s (on_read (type_parser is_valid) p s.buffer e) f
  read_into-IsSome (parsing_response p) e s f n =
      response_progress-IsSome s (on_read (response_parser is_valid) p s.buffer e) f.0 f.1
  read_into-IsSome (parsing_request p) e s f n =
      request_progress-IsSome s (on_read (request_parser is_valid) p s.buffer e) f.0 f.1

  -- In a sound state with an operation that waits for a read, whatever ends that read (bytes or
  -- an error), the splitter goes on to a sound state: no assertion fails and no empty function
  -- is called.
  pub read_completed-IsSome :
      (e : ReadEvent) (s : Splitter is_valid)
      → IsSound s
      → s.operation ≢ no_operation
      → IsSome (read_completed e s)
  unfolding read_completed
  read_completed-IsSome e s i o = read_into-IsSome s.operation e s i.fits o
