-- ===== src/Splitter/Exclusion/Calls.antt =====
-- Every function of the splitter keeps its state sound.
use warpcoil.Base.{
  ℕ, ◌≡◌, refl, sym, subst, Bool, true, false, not, ◌&&◌, ◌||◌, List, [], ◌∷◌, Option, none, some,
  inl, inr, arith, if-either, if-cases, if◌then◌else◌,
}
use warpcoil.Receive.{ErrorCode, ReadEvent}
use warpcoil.Splitter.{
  Splitter, Operation, no_operation, parsing_type, parsing_response, parsing_request, Frame,
  after_request, after_response, after_response_failed, after_request_failed, fail_request,
  call_begin_parse_message, wait_for_request, wait_for_response, lock_input, unlock_input, resume,
  pop, handler_returned, read_into, read_completed,
}
use warpcoil.Splitter.{
  Call, waits_for_request, waits_for_response, locks, unlocks, returns, read_ends, uses_buffer,
  use_buffer, call, after, new_splitter,
}
use warpcoil.Splitter.Exclusion.{
  IsClean, Fits, IsSound, OnSome, IsSome→OnSome, Clean_of_idle, call_begin_parse_message-OnSome,
  read_into-IsSome,
}

IsClean-tail : (f : Frame) (fs : List Frame) → IsClean (f ∷ fs) → IsClean fs
IsClean-tail (after_request c) fs h = h
IsClean-tail (after_response c) fs h = h
IsClean-tail (after_response_failed b ec) fs h = absurd h
IsClean-tail after_request_failed fs h = h

module _ {is_valid : List ℕ → Bool} where
  response_waits :
      (o : Operation is_valid) (s : Splitter is_valid)
      → Fits o s
      → Fits o (record s { waiting_for_response = true; begin_parse_message = true })
  response_waits no_operation s f = f
  response_waits (parsing_type p) s f = f
  response_waits (parsing_response p) s f = (f.0, refl)
  response_waits (parsing_request p) s f = f

  request_waits :
      (o : Operation is_valid) (s : Splitter is_valid)
      → Fits o s
      → Fits o (record s { waiting_for_request = true; begin_parse_message = true })
  request_waits no_operation s f = f
  request_waits (parsing_type p) s f = f
  request_waits (parsing_response p) s f = f
  request_waits (parsing_request p) s f = (f.0, refl)

  begun-OnSome :
      (s t : Splitter is_valid) (b : Bool)
      → IsSound t
      → OnSome (if b then none else if s.parsing_header then some t else call_begin_parse_message t)
  begun-OnSome s t b j =
      if-either OnSome b tt
        (if-either OnSome s.parsing_header j (call_begin_parse_message-OnSome t j))

  wait_for_response-OnSome : (s : Splitter is_valid) → IsSound s → OnSome (wait_for_response s)
  unfolding wait_for_response
  wait_for_response-OnSome s i =
      begun-OnSome s (record s { waiting_for_response = true; begin_parse_message = true })
        s.waiting_for_response
        (record { exclusive = i.exclusive; fits = response_waits s.operation s i.fits })

  wait_for_request-OnSome : (s : Splitter is_valid) → IsSound s → OnSome (wait_for_request s)
  unfolding wait_for_request
  wait_for_request-OnSome s i =
      begun-OnSome s (record s { waiting_for_request = true; begin_parse_message = true })
        s.waiting_for_request
        (record { exclusive = i.exclusive; fits = request_waits s.operation s i.fits })

  -- With no header being read the lock can change hands.
  relocked :
      (s : Splitter is_valid) (b : Bool)
      → s.parsing_header ≡ false
      → IsSound s
      → IsSound (record s { locked = b })
  relocked s b h i =
      let (o, c) = Clean_of_idle s.operation s h i.fits in
      record {
        exclusive = λ e. cc;
        fits = subst (λ x. Fits x (record s { locked = b })) (sym o) (inl c);
      }

  lock_input-OnSome : (s : Splitter is_valid) → IsSound s → OnSome (lock_input s)
  unfolding lock_input
  lock_input-OnSome s i =
      if-cases OnSome (not s.parsing_header && not s.locked) (λ g. relocked s true (ground arith) i)
        (λ n. tt)

  unlock_input-OnSome : (s : Splitter is_valid) → IsSound s → OnSome (unlock_input s)
  unfolding unlock_input
  unlock_input-OnSome s i =
      if-cases OnSome (not s.parsing_header && s.locked)
        (λ g.
          let j = relocked s false (ground arith) i in
          if-either OnSome (s.waiting_for_response || s.waiting_for_request)
            (call_begin_parse_message-OnSome (record s { locked = false }) j) j)
        (λ n. tt)

  popped :
      (o : Operation is_valid) (s : Splitter is_valid) (f : Frame) (fs : List Frame)
      → s.frames ≡ f ∷ fs
      → Fits o s
      → Fits o (record s { frames = fs })
  popped no_operation s f fs e (inl c) = inl (IsClean-tail f fs (subst IsClean e c))
  popped no_operation s f fs e (inr h) = inr h
  popped (parsing_type p) s f fs e a = (a.0, a.1, IsClean-tail f fs (subst IsClean e a.2))
  popped (parsing_response p) s f fs e a =
      ((a.0.0, a.0.1, IsClean-tail f fs (subst IsClean e a.0.2)), a.1)
  popped (parsing_request p) s f fs e a =
      ((a.0.0, a.0.1, IsClean-tail f fs (subst IsClean e a.0.2)), a.1)

  -- While a handler runs that was called with an error, the header stays unread for good.
  failing :
      (o : Operation is_valid) (s : Splitter is_valid) (b : Bool) (ec : ErrorCode) (fs : List Frame)
      → s.frames ≡ after_response_failed b ec ∷ fs
      → Fits o s
      → (o ≡ no_operation) × (s.parsing_header ≡ true)
  failing no_operation s b ec fs e (inl c) = absurd (subst IsClean e c)
  failing no_operation s b ec fs e (inr h) = (refl, h)
  failing (parsing_type p) s b ec fs e a = absurd (subst IsClean e a.2)
  failing (parsing_response p) s b ec fs e a = absurd (subst IsClean e a.0.2)
  failing (parsing_request p) s b ec fs e a = absurd (subst IsClean e a.0.2)

  fail_request-OnSome :
      (b : Bool) (ec : ErrorCode) (s : Splitter is_valid)
      → s.parsing_header ≡ true
      → s.operation ≡ no_operation
      → IsSound s
      → OnSome (fail_request b ec s)
  unfolding fail_request
  fail_request-OnSome false ec s h o i = i
  fail_request-OnSome true ec s h o i = ground arith

  resume-OnSome :
      (f : Frame) (fs : List Frame) (s : Splitter is_valid)
      → s.frames ≡ f ∷ fs
      → IsSound s
      → OnSome (resume f (record s { frames = fs }))
  unfolding resume
  resume-OnSome (after_request c) fs s e i =
      let j : IsSound (record s { frames = fs }) = record {
        exclusive = i.exclusive;
        fits = popped s.operation s _ fs e i.fits;
      } in
      if-either OnSome (c && (s.waiting_for_response && not s.parsing_header))
        {y = some (record s { frames = fs })}
        (call_begin_parse_message-OnSome (record s { frames = fs }) j) j
  resume-OnSome (after_response c) fs s e i =
      let j : IsSound (record s { frames = fs }) = record {
        exclusive = i.exclusive;
        fits = popped s.operation s _ fs e i.fits;
      } in
      if-either OnSome (c && (s.waiting_for_request && not s.parsing_header))
        {y = some (record s { frames = fs })}
        (call_begin_parse_message-OnSome (record s { frames = fs }) j) j
  resume-OnSome (after_response_failed b ec) fs s e i =
      let (o, h) = failing s.operation s b ec fs e i.fits in
      fail_request-OnSome b ec (record s { frames = fs }) h o
        (record { exclusive = i.exclusive; fits = popped s.operation s _ fs e i.fits })
  resume-OnSome after_request_failed fs s e i = record {
    exclusive = i.exclusive;
    fits = popped s.operation s _ fs e i.fits;
  }

  pop-OnSome :
      (fs : List Frame) (s : Splitter is_valid) → s.frames ≡ fs → IsSound s → OnSome (pop fs s)
  unfolding pop
  pop-OnSome [] s e i = tt
  pop-OnSome (f ∷ fs) s e i = resume-OnSome f fs s e i

  handler_returned-OnSome : (s : Splitter is_valid) → IsSound s → OnSome (handler_returned s)
  unfolding handler_returned
  handler_returned-OnSome s i = pop-OnSome s.frames s refl i

  read-OnSome :
      (o : Operation is_valid) (e : ReadEvent) (s : Splitter is_valid)
      → Fits o s
      → OnSome (read_into o e s)
  read-OnSome no_operation e s f = unfold read_into in tt
  read-OnSome (parsing_type p) e s f =
      IsSome→OnSome _ (read_into-IsSome (parsing_type p) e s f (λ n. cc))
  read-OnSome (parsing_response p) e s f =
      IsSome→OnSome _ (read_into-IsSome (parsing_response p) e s f (λ n. cc))
  read-OnSome (parsing_request p) e s f =
      IsSome→OnSome _ (read_into-IsSome (parsing_request p) e s f (λ n. cc))

  Fits-buffer :
      (o : Operation is_valid) (s : Splitter is_valid) (buffer : List ℕ)
      → Fits o s
      → Fits o (record s { buffer = buffer })
  Fits-buffer no_operation s buffer f = f
  Fits-buffer (parsing_type p) s buffer f = f
  Fits-buffer (parsing_response p) s buffer f = f
  Fits-buffer (parsing_request p) s buffer f = f

  use_buffer-OnSome :
      (buffer : List ℕ) (s : Splitter is_valid) → IsSound s → OnSome (use_buffer buffer s)
  unfolding use_buffer
  use_buffer-OnSome buffer s i =
      if-either OnSome s.locked
        (record { exclusive = i.exclusive; fits = Fits-buffer s.operation s buffer i.fits }) tt

  call-OnSome : (c : Call) (s : Splitter is_valid) → IsSound s → OnSome (call c s)
  unfolding call
  call-OnSome waits_for_request s i = wait_for_request-OnSome s i
  call-OnSome waits_for_response s i = wait_for_response-OnSome s i
  call-OnSome locks s i = lock_input-OnSome s i
  call-OnSome unlocks s i = unlock_input-OnSome s i
  call-OnSome returns s i = handler_returned-OnSome s i
  call-OnSome (read_ends e) s i = unfold read_completed in read-OnSome s.operation e s i.fits
  call-OnSome (uses_buffer buffer) s i = use_buffer-OnSome buffer s i

  after-OnSome : (cs : List Call) (o : Option (Splitter is_valid)) → OnSome o → OnSome (after cs o)
  after-OnSome [] o h = h
  after-OnSome (c ∷ cs) none h = h
  after-OnSome (c ∷ cs) (some s) h = after-OnSome cs (call c s) (call-OnSome c s h)

-- After any sequence of calls on a new splitter, those of its handlers included, that no failed
-- assertion ends: a header is read only while the input is unlocked, and the handler whose
-- header is being read still waits.
pub after-IsSound :
    (is_valid : List ℕ → Bool) (cs : List Call) (s : Splitter is_valid)
    → after cs (some (new_splitter is_valid)) ≡ some s
    → IsSound s
after-IsSound is_valid cs s e =
    subst OnSome e (
      after-OnSome cs (some (new_splitter is_valid))
        (record { exclusive = λ h. cc; fits = inl tt }))
