-- ===== src/Splitter/Faults.antt =====
-- What is left of a splitter after an error.
use warpcoil.Base.{ℕ, ◌≡◌, refl, subst, Bool, true, List, [], ◌∷◌, Option, none, some, arith}
use warpcoil.Splitter.{
  Splitter, no_operation, Frame, after_request, after_response, after_response_failed,
  after_request_failed, Delivery, Call, waits_for_request, waits_for_response, locks, unlocks,
  returns, read_ends, uses_buffer, wait_for_request, wait_for_response, lock_input, unlock_input,
  handler_returned, pop, resume, read_completed, read_into, use_buffer, call, after,
}
use warpcoil.Splitter.Exclusion.{IsClean}

module _ {is_valid : List ℕ → Bool} where
  -- A header counts as being read, but nothing reads it, and no handler that is running was called
  -- with an error while the other one was waiting; these handlers were called so far.
  pub record IsStuck (called : List Delivery) (s : Splitter is_valid) : Type 0 where
    pub parsing : s.parsing_header ≡ true
    pub idle : s.operation ≡ no_operation
    pub clean : IsClean s.frames
    pub same : s.delivered ≡ called

  abbrev StuckOnSome : List Delivery → Option (Splitter is_valid) → Type 0
  StuckOnSome d none = Unit {0}
  StuckOnSome d (some t) = IsStuck d t

  pop-Stuck :
      (d : List Delivery) (fs : List Frame) (s : Splitter is_valid)
      → s.frames ≡ fs
      → IsStuck d s
      → StuckOnSome d (pop fs s)
  unfolding pop resume
  pop-Stuck d [] s e i = tt
  pop-Stuck d (after_request c ∷ fs) s e i =
      let k : IsClean (after_request c ∷ fs) = subst IsClean e i.clean in
      ground (arith, k, i.parsing, i.idle, i.same)
  pop-Stuck d (after_response c ∷ fs) s e i =
      let k : IsClean (after_response c ∷ fs) = subst IsClean e i.clean in
      ground (arith, k, i.parsing, i.idle, i.same)
  pop-Stuck d (after_response_failed b ec ∷ fs) s e i = absurd (subst IsClean e i.clean)
  pop-Stuck d (after_request_failed ∷ fs) s e i =
      let k : IsClean (after_request_failed ∷ fs) = subst IsClean e i.clean in
      record { parsing = i.parsing; idle = i.idle; clean = k; same = i.same }

  call-Stuck :
      (d : List Delivery) (c : Call) (s : Splitter is_valid)
      → IsStuck d s
      → StuckOnSome d (call c s)
  unfolding call wait_for_request wait_for_response lock_input unlock_input handler_returned
      read_completed use_buffer
  call-Stuck d waits_for_request s i = ground (arith, i.parsing, i.idle, i.same, i.clean)
  call-Stuck d waits_for_response s i = ground (arith, i.parsing, i.idle, i.same, i.clean)
  call-Stuck d locks s i = ground (arith, i.parsing)
  call-Stuck d unlocks s i = ground (arith, i.parsing)
  call-Stuck d returns s i = pop-Stuck d s.frames s refl i
  call-Stuck d (read_ends e) s i = unfold read_into in rw i.idle tt
  call-Stuck d (uses_buffer b) s i = ground (arith, i.parsing, i.idle, i.same, i.clean)

  after-Stuck :
      (d : List Delivery) (cs : List Call) (o : Option (Splitter is_valid))
      → StuckOnSome d o
      → StuckOnSome d (after cs o)
  after-Stuck d [] o h = h
  after-Stuck d (c ∷ cs) none h = h
  after-Stuck d (c ∷ cs) (some s) h = after-Stuck d cs (call c s) (call-Stuck d c s h)

  -- Once a header counts as being read while no operation reads it, as after an error, and no
  -- running handler was called with an error while the other one waited, no handler is called
  -- any more, whatever is called on the splitter.
  pub after-delivered :
      (cs : List Call) (s t : Splitter is_valid)
      → IsStuck s.delivered s
      → after cs (some s) ≡ some t
      → t.delivered ≡ s.delivered
  after-delivered cs s t i e =
      (subst (StuckOnSome s.delivered) e (after-Stuck s.delivered cs (some s) i)).same
