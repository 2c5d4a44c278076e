-- ===== src/Websocket/Bytes.antt =====
-- Which bytes the reads give.
use warpcoil.Base.{
  ℕ, ◌≡◌, refl, ◌∙◌, arith, List, [], ◌∷◌, ◌++◌, append_assoc, append-nil, drop, take,
  take-append-drop, if-either, IfSome, run_events, run_events-IfSome,
}
use warpcoil.Websocket.{
  Adaptor, AdaptorEvent, reads, received, writes, sent, AdaptorAction, read_called, write_called,
  read_begun, write_begun, SystemErrorCode, Opcode, adaptor_step, async_read_some, read_over,
  write_over, async_write_some, ReadOperation, if_idle-IfSome, with_operation-IfSome, read_or_wait,
  switch_case, message_read, is_error, opcode_case, has_content, has_error, OpcodeCase,
}

-- The bytes that handlers of reads were called with, in order.
abbrev pub delivered : List AdaptorAction → List ℕ
delivered [] = []
delivered (read_called handler ec bytes ∷ actions) = bytes ++ delivered actions
delivered (_ ∷ actions) = delivered actions

-- What the websocket put in the buffer.
abbrev pub arrived : List AdaptorEvent → List ℕ
arrived [] = []
arrived (received ec opcode bytes ∷ events) = bytes ++ arrived events
arrived (_ ∷ events) = arrived events

delivered-append :
    (xs ys : List AdaptorAction) → delivered (xs ++ ys) ≡ delivered xs ++ delivered ys
delivered-append [] ys = refl
delivered-append (read_called handler ec bytes ∷ xs) ys =
    simp (delivered-append xs ys, append_assoc)
delivered-append (write_called handler ec count ∷ xs) ys = delivered-append xs ys
delivered-append (read_begun ∷ xs) ys = delivered-append xs ys
delivered-append (write_begun bytes ∷ xs) ys = delivered-append xs ys

-- Nothing is lost, repeated or moved.
abbrev IsConserved : List ℕ → Adaptor → Adaptor → List AdaptorAction → Type 0
IsConserved more a after actions =
    delivered actions ++ after.receive_buffer ≡ a.receive_buffer ++ more

copied-append :
    (buffers : ℕ) (bytes : List ℕ) → (take buffers bytes ++ []) ++ drop buffers bytes ≡ bytes ++ []
copied-append buffers bytes = rw (append-nil, append-nil) (take-append-drop buffers bytes)

read_or_wait-IsConserved :
    (operation : ReadOperation) (a b : Adaptor) (read : List ℕ)
    → (read ++ []) ++ b.receive_buffer ≡ a.receive_buffer ++ []
    → let (after, actions) = read_or_wait operation b read in IsConserved [] a after actions
unfolding read_or_wait
read_or_wait-IsConserved operation a b [] h = h
read_or_wait-IsConserved operation a b (x ∷ xs) h = h

async_read_some-IsConserved :
    (handler buffers : ℕ) (a : Adaptor)
    → let (after, actions) = async_read_some handler buffers a in IsConserved [] a after actions
unfolding async_read_some
async_read_some-IsConserved handler buffers a =
    read_or_wait-IsConserved (record { read_handler = handler; buffers = buffers }) a
      (record a { receive_buffer = drop buffers a.receive_buffer }) (take buffers a.receive_buffer)
      (copied-append buffers a.receive_buffer)

switch_case-IsConserved :
    (operation : ReadOperation) (ec : SystemErrorCode) (c : OpcodeCase) (a : Adaptor)
    → let (after, actions) = switch_case operation ec c a in IsConserved [] a after actions
unfolding switch_case
switch_case-IsConserved operation ec has_content a =
    copied-append operation.buffers a.receive_buffer
switch_case-IsConserved operation ec (has_error error) a = rw append-nil

read_over-IsConserved :
    (operation : ReadOperation) (ec : SystemErrorCode) (opcode : Opcode) (a : Adaptor)
    → let (after, actions) = read_over operation ec opcode a in IsConserved [] a after actions
unfolding read_over
read_over-IsConserved operation ec opcode a =
    if-either (λ (x : Adaptor × List AdaptorAction). IsConserved [] a x.0 x.1) (is_error ec)
      (rw append-nil) (switch_case-IsConserved operation ec (opcode_case opcode) a)

arrived-cons :
    (e : AdaptorEvent) (es : List AdaptorEvent) → arrived (e ∷ es) ≡ arrived (e ∷ []) ++ arrived es
arrived-cons (received ec opcode bytes) es = rw append-nil
arrived-cons (reads handler buffers) es = refl
arrived-cons (writes handler bytes) es = refl
arrived-cons (sent ec) es = refl

one_more :
    (e : AdaptorEvent) (es : List AdaptorEvent) (s t u : Adaptor) (log later : List AdaptorAction)
    → IsConserved (arrived (e ∷ [])) s t log
    → IsConserved (arrived es) t u later
    → IsConserved (arrived (e ∷ es)) s u (log ++ later)
one_more e es s t u log later q p =
    grind (arith, q, p, delivered-append log later, arrived-cons e es, append_assoc)

adaptor_step-IsConserved :
    (e : AdaptorEvent) (a : Adaptor)
    → IfSome (λ after actions. IsConserved (arrived (e ∷ [])) a after actions) (adaptor_step e a)
unfolding adaptor_step async_write_some write_over
adaptor_step-IsConserved (reads handler buffers) a =
    if_idle-IfSome _ a.reading (async_read_some handler buffers a)
      (λ h. async_read_some-IsConserved handler buffers a)
adaptor_step-IsConserved (received ec opcode bytes) a =
    with_operation-IfSome _ a.reading _ (λ operation h.
      read_over-IsConserved operation ec opcode (message_read opcode bytes a)
      ∙ append_assoc a.receive_buffer bytes [])
adaptor_step-IsConserved (writes handler bytes) a =
    if_idle-IfSome _ a.writing (async_write_some handler bytes a) (λ h. rw append-nil)
adaptor_step-IsConserved (sent ec) a =
    with_operation-IfSome _ a.writing _ (λ operation h. rw append-nil)

-- In every history of an adaptor that can occur, errors and all opcodes included, the bytes that
-- the handlers of reads were called with, in order, and then those left in the receive buffer
-- are the bytes of the receive buffer at the start and then those that the websocket put there.
pub run_events-delivered :
    (events : List AdaptorEvent) (a : Adaptor)
    → IfSome
        (λ after actions.
          delivered actions ++ after.receive_buffer ≡ a.receive_buffer ++ arrived events)
        (run_events adaptor_step events a)
run_events-delivered events a =
    run_events-IfSome adaptor_step (λ es s t log. IsConserved (arrived es) s t log)
      (λ e s t log. IsConserved (arrived (e ∷ [])) s t log) (λ s. rw append-nil)
      adaptor_step-IsConserved one_more events a
