-- ===== src/Websocket/Handlers.antt =====
-- Which handlers are called, and what is written.
use warpcoil.Base.{
  ℕ, ◌≡◌, refl, List, [], ◌∷◌, ◌++◌, append_assoc, append-nil, if-either, IfSome, run_events,
  run_events-IfSome, Option, none, some, arith, drop, take,
}
use warpcoil.Websocket.{
  Adaptor, AdaptorEvent, reads, received, writes, sent, AdaptorAction, read_called, write_called,
  read_begun, write_begun, SystemErrorCode, Opcode, adaptor_step, async_read_some, read_over,
  write_over, async_write_some, ReadOperation, WriteOperation, if_idle-IfSome,
  with_operation-IfSome, read_or_wait, switch_case, message_read, is_error, opcode_case,
  has_content, has_error, OpcodeCase,
}

-- The handlers given to reads, and those of reads that were called.
abbrev pub readers : List AdaptorEvent → List ℕ
readers [] = []
readers (reads handler buffers ∷ events) = handler ∷ readers events
readers (_ ∷ events) = readers events

abbrev pub readers_called : List AdaptorAction → List ℕ
readers_called [] = []
readers_called (read_called handler ec bytes ∷ actions) = handler ∷ readers_called actions
readers_called (_ ∷ actions) = readers_called actions

abbrev pub reader : Option ReadOperation → List ℕ
reader none = []
reader (some operation) = operation.read_handler ∷ []

-- The same for writes.
abbrev pub writers : List AdaptorEvent → List ℕ
writers [] = []
writers (writes handler bytes ∷ events) = handler ∷ writers events
writers (_ ∷ events) = writers events

abbrev pub writers_called : List AdaptorAction → List ℕ
writers_called [] = []
writers_called (write_called handler ec count ∷ actions) = handler ∷ writers_called actions
writers_called (_ ∷ actions) = writers_called actions

abbrev pub writer : Option WriteOperation → List ℕ
writer none = []
writer (some operation) = operation.write_handler ∷ []

-- The messages that the user writes, and those that the websocket is told to write.
abbrev pub written : List AdaptorEvent → List (List ℕ)
written [] = []
written (writes handler bytes ∷ events) = bytes ∷ written events
written (_ ∷ events) = written events

abbrev pub messages : List AdaptorAction → List (List ℕ)
messages [] = []
messages (write_begun bytes ∷ actions) = bytes ∷ messages actions
messages (_ ∷ actions) = messages actions

abbrev IsAccounted : List AdaptorEvent → Adaptor → Adaptor → List AdaptorAction → Type 0
IsAccounted es a after actions =
    (readers_called actions ++ reader after.reading ≡ reader a.reading ++ readers es)
    × (writers_called actions ++ writer after.writing ≡ writer a.writing ++ writers es)
    × (messages actions ≡ written es)

appended :
    (xs ys : List AdaptorAction)
    → (readers_called (xs ++ ys) ≡ readers_called xs ++ readers_called ys)
      × (writers_called (xs ++ ys) ≡ writers_called xs ++ writers_called ys)
      × (messages (xs ++ ys) ≡ messages xs ++ messages ys)
appended [] ys = (refl, refl, refl)
appended (read_called handler ec bytes ∷ xs) ys = let (r, w, m) = appended xs ys in (rw r, w, m)
appended (write_called handler ec count ∷ xs) ys = let (r, w, m) = appended xs ys in (r, rw w, m)
appended (read_begun ∷ xs) ys = appended xs ys
appended (write_begun bytes ∷ xs) ys = let (r, w, m) = appended xs ys in (r, w, rw m)

consed :
    (e : AdaptorEvent) (es : List AdaptorEvent)
    → (readers (e ∷ es) ≡ readers (e ∷ []) ++ readers es)
      × (writers (e ∷ es) ≡ writers (e ∷ []) ++ writers es)
      × (written (e ∷ es) ≡ written (e ∷ []) ++ written es)
consed (received ec opcode bytes) es = (refl, refl, refl)
consed (reads handler buffers) es = (refl, refl, refl)
consed (writes handler bytes) es = (refl, refl, refl)
consed (sent ec) es = (refl, refl, refl)

one_more :
    (e : AdaptorEvent) (es : List AdaptorEvent) (s t u : Adaptor) (log later : List AdaptorAction)
    → IsAccounted (e ∷ []) s t log
    → IsAccounted es t u later
    → IsAccounted (e ∷ es) s u (log ++ later)
one_more e es s t u log later (q0, q1, q2) (p0, p1, p2) =
    let (a0, a1, a2) = appended log later in
    let (c0, c1, c2) = consed e es in
    (
      grind (arith, q0, p0, a0, c0, append_assoc),
      grind (arith, q1, p1, a1, c1, append_assoc),
      grind (arith, q2, p2, a2, c2, append_assoc),
    )

read_or_wait-IsAccounted :
    (handler buffers : ℕ) (a b : Adaptor) (read : List ℕ)
    → a.reading ≡ none
    → b.reading ≡ none
    → a.writing ≡ b.writing
    → let (after, actions) =
        read_or_wait (record { read_handler = handler; buffers = buffers }) b read in
      IsAccounted (reads handler buffers ∷ []) a after actions
unfolding read_or_wait
read_or_wait-IsAccounted handler buffers a b [] h k w = (rw h, rw (w, append-nil), refl)
read_or_wait-IsAccounted handler buffers a b (x ∷ xs) h k w = (rw (h, k), rw (w, append-nil), refl)

switch_case-IsAccounted :
    (operation : ReadOperation) (ec : SystemErrorCode) (c : OpcodeCase) (opcode : Opcode)
    (bytes : List ℕ) (a : Adaptor)
    → a.reading ≡ some operation
    → let (after, actions) = switch_case operation ec c (message_read opcode bytes a) in
      IsAccounted (received ec opcode bytes ∷ []) a after actions
unfolding switch_case
switch_case-IsAccounted operation ec has_content opcode bytes a h = (rw h, rw append-nil, refl)
switch_case-IsAccounted operation ec (has_error error) opcode bytes a h =
    (rw h, rw append-nil, refl)

read_over-IsAccounted :
    (operation : ReadOperation) (ec : SystemErrorCode) (opcode : Opcode) (bytes : List ℕ)
    (a : Adaptor)
    → a.reading ≡ some operation
    → let (after, actions) = read_over operation ec opcode (message_read opcode bytes a) in
      IsAccounted (received ec opcode bytes ∷ []) a after actions
unfolding read_over
read_over-IsAccounted operation ec opcode bytes a h =
    if-either
      (λ (x : Adaptor × List AdaptorAction). IsAccounted (received ec opcode bytes ∷ []) a x.0 x.1)
      (is_error ec) (rw h, rw append-nil, refl)
      (switch_case-IsAccounted operation ec (opcode_case opcode) opcode bytes a h)

adaptor_step-IsAccounted :
    (e : AdaptorEvent) (a : Adaptor)
    → IfSome (λ after actions. IsAccounted (e ∷ []) a after actions) (adaptor_step e a)
unfolding adaptor_step async_read_some async_write_some write_over
adaptor_step-IsAccounted (reads handler buffers) a =
    if_idle-IfSome _ a.reading (async_read_some handler buffers a) (λ h.
      read_or_wait-IsAccounted handler buffers a
        (record a { receive_buffer = drop buffers a.receive_buffer })
        (take buffers a.receive_buffer) h h refl)
adaptor_step-IsAccounted (received ec opcode bytes) a =
    with_operation-IfSome _ a.reading _
      (λ operation h. read_over-IsAccounted operation ec opcode bytes a h)
adaptor_step-IsAccounted (writes handler bytes) a =
    if_idle-IfSome _ a.writing (async_write_some handler bytes a) (λ h. (rw append-nil, rw h, refl))
adaptor_step-IsAccounted (sent ec) a =
    with_operation-IfSome _ a.writing _ (λ operation h. (rw append-nil, rw h, refl))

-- In every history of an adaptor that can occur, the handlers of reads that were called, in
-- order, and then the one that waits are the one that waited at the start and then those that
-- were given; so for the handlers of writes; and the messages that the websocket was told to
-- write are those that were given, in order.
pub run_events-called :
    (events : List AdaptorEvent) (a : Adaptor)
    → IfSome
        (λ after actions.
          (readers_called actions ++ reader after.reading ≡ reader a.reading ++ readers events)
          × (writers_called actions ++ writer after.writing ≡ writer a.writing ++ writers events)
          × (messages actions ≡ written events))
        (run_events adaptor_step events a)
run_events-called events a =
    run_events-IfSome adaptor_step IsAccounted (λ e s t log. IsAccounted (e ∷ []) s t log)
      (λ s. (rw append-nil, rw append-nil, refl)) adaptor_step-IsAccounted one_more events a
