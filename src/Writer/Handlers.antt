-- ===== src/Writer/Handlers.antt =====
-- The state stays consistent, and every handler is called exactly once, in order.
use mathlib.Core.List.{reverse-cons, map-append}
use warpcoil.Base.{
  ℕ, ◌≡◌, ◌≢◌, refl, sym, ◌∙◌, ap, Bool, true, false, List, [], ◌∷◌, ◌++◌, map, reverse, Option,
  none, some, append-nil, append_assoc, arith,
}
use warpcoil.Receive.{ErrorCode}
use warpcoil.Writer.{
  Writer, SendState, not_sending, sending, Event, appended, send_buffer_called, write_completed,
  handlers_returned, CanOccur, AllCanOccur, append, send_buffer, send_in, finish_send,
  continue_send, step, run, queue_of, pending_handlers, async_write, new_writer,
}

-- Whoever waits in the queue waits for bytes in the buffer.
abbrev pub Fills : List ℕ → List ℕ → Type 0
Fills [] buffer = Unit {0}
Fills (h ∷ queue) [] = ⊥
Fills (h ∷ queue) (b ∷ buffer) = Unit {0}

-- A write is in flight exactly while the state is `sending` and `finish_send` is not in the middle
-- of its work.
abbrev pub Consistent : SendState → Option (List ℕ) → Bool → List ℕ → Type 0
Consistent not_sending none false buffer = Unit {0}
Consistent not_sending _ _ buffer = ⊥
Consistent (sending being_written queue) (some handlers) false buffer = Fills queue buffer
Consistent (sending being_written queue) none true buffer = (queue ≢ []) × Fills queue buffer
Consistent (sending being_written queue) _ _ buffer = ⊥

abbrev pub IsConsistent : Writer → Type 0
IsConsistent w = Consistent w.state w.pending w.resuming w.buffer

Fills-append : (queue buffer bytes : List ℕ) → Fills queue buffer → Fills queue (buffer ++ bytes)
Fills-append [] buffer bytes h = tt
Fills-append (q ∷ queue) [] bytes h = absurd h
Fills-append (q ∷ queue) (b ∷ buffer) bytes h = tt

append-Consistent :
    (s : SendState) (p : Option (List ℕ)) (r : Bool) (buffer bytes : List ℕ)
    → Consistent s p r buffer
    → Consistent s p r (buffer ++ bytes)
append-Consistent not_sending none false buffer bytes h = tt
append-Consistent not_sending none true buffer bytes h = absurd h
append-Consistent not_sending (some hs) r buffer bytes h = absurd h
append-Consistent (sending b q) none false buffer bytes h = absurd h
append-Consistent (sending b q) none true buffer bytes h = (h.0, Fills-append q buffer bytes h.1)
append-Consistent (sending b q) (some hs) true buffer bytes h = absurd h
append-Consistent (sending b q) (some hs) false buffer bytes h = Fills-append q buffer bytes h

send-Consistent :
    (w : Writer) (h : ℕ) → w.buffer ≢ [] → IsConsistent w → IsConsistent (send_buffer w h)
unfolding send_buffer
send-Consistent w h full c = ground arith

finish-Consistent :
    (w : Writer) (ec : ErrorCode) (hs : List ℕ)
    → w.pending ≡ some hs
    → IsConsistent w
    → IsConsistent (finish_send w ec hs)
unfolding finish_send
finish-Consistent w ec hs e c = ground arith

continue-Consistent :
    (w : Writer) → w.resuming ≡ true → IsConsistent w → IsConsistent (continue_send w)
unfolding continue_send
continue-Consistent w e c = ground arith

some_pending : (p : Option (List ℕ)) (hs : List ℕ) → p ≡ some hs → p ≡ some (pending_handlers p)
unfolding pending_handlers
some_pending p hs e = ground arith

pub step-Consistent :
    (w : Writer) (e : Event) → CanOccur w e → IsConsistent w → IsConsistent (step w e)
unfolding step
step-Consistent w (appended bytes) o c =
    unfold append in append-Consistent w.state w.pending w.resuming w.buffer bytes c
step-Consistent w (send_buffer_called h) o c = send-Consistent w h o c
step-Consistent w (write_completed ec) o c =
    finish-Consistent w ec _ (some_pending w.pending o.0 o.1) c
step-Consistent w handlers_returned o c = continue-Consistent w o c

-- From a consistent state every history that can occur leads to a consistent one: a write is in
-- flight, or finish_send is between its handlers and the next write, exactly while the state is
-- sending, and handlers are queued only while there are bytes in the buffer.
pub run-Consistent :
    (w : Writer) (es : List Event) → IsConsistent w → AllCanOccur w es → IsConsistent (run w es)
unfolding run
run-Consistent w [] c o = c
run-Consistent w (e ∷ es) c o = run-Consistent (step w e) es (step-Consistent w e o.0 c) o.1

abbrev pub reporter : ℕ × ErrorCode → ℕ
reporter r = r.0

abbrev pub called : Writer → List ℕ
called w = map reporter w.results

-- The handlers in the order in which they are called: those that were, those that the write in
-- flight reports to, and those in the queue, the oldest first.
unfoldable pub accounted : Writer → List ℕ
accounted w = called w ++ (pending_handlers w.pending ++ reverse (queue_of w.state))

abbrev pub handlers_of : Event → List ℕ
handlers_of (send_buffer_called handler) = handler ∷ []
handlers_of _ = []

abbrev pub all_handlers : List Event → List ℕ
all_handlers [] = []
all_handlers (e ∷ es) = handlers_of e ++ all_handlers es

pub map_reported : (ec : ErrorCode) (hs : List ℕ) → map reporter (map (λ h. (h, ec)) hs) ≡ hs
map_reported ec [] = refl
map_reported ec (h ∷ hs) = ap (◌∷◌ h) (map_reported ec hs)

send-accounted :
    (w : Writer) (s : SendState) (h : ℕ)
    → w.state ≡ s
    → IsConsistent w
    → accounted (send_in s w h) ≡ accounted w ++ h ∷ []
unfolding accounted send_in pending_handlers async_write
send-accounted w not_sending h e c =
    ground (arith, append-nil (called w), append_assoc (called w) [] (h ∷ []))
send-accounted w (sending b q) h e c = ground (
  arith,
  reverse-cons h q,
  append_assoc (pending_handlers w.pending) (reverse q) (h ∷ []),
  append_assoc (called w) (pending_handlers w.pending ++ reverse q) (h ∷ []),
)

finish-accounted :
    (w : Writer) (ec : ErrorCode) (hs : List ℕ)
    → w.pending ≡ some hs
    → IsConsistent w
    → accounted (finish_send w ec hs) ≡ accounted w
unfolding accounted finish_send pending_handlers
finish-accounted w ec hs e c = ground (
  arith,
  map-append reporter w.results (map (λ h. (h, ec)) hs),
  map_reported ec hs,
  append_assoc (called w) hs [],
  append_assoc (called w) hs (reverse (queue_of w.state)),
)

continue-accounted :
    (w : Writer) → w.resuming ≡ true → IsConsistent w → accounted (continue_send w) ≡ accounted w
unfolding accounted continue_send pending_handlers
continue-accounted w e c = ground (arith, append-nil (reverse (queue_of w.state)))

step-accounted :
    (w : Writer) (e : Event)
    → CanOccur w e
    → IsConsistent w
    → accounted (step w e) ≡ accounted w ++ handlers_of e
unfolding step
step-accounted w (appended bytes) o c = unfold accounted append in sym (append-nil _)
step-accounted w (send_buffer_called h) o c =
    unfold send_buffer in send-accounted w w.state h refl c
step-accounted w (write_completed ec) o c =
    finish-accounted w ec _ (some_pending w.pending o.0 o.1) c ∙ sym (append-nil (accounted w))
step-accounted w handlers_returned o c = continue-accounted w o c ∙ sym (append-nil (accounted w))

-- In every history that can occur from a consistent state, the handlers called, then those of
-- the write in flight, then the queued ones are those that were there before and all that
-- send_buffer was given, in order.
pub run-accounted :
    (w : Writer) (es : List Event)
    → IsConsistent w
    → AllCanOccur w es
    → accounted (run w es) ≡ accounted w ++ all_handlers es
unfolding run
run-accounted w [] c o = sym (append-nil (accounted w))
run-accounted w (e ∷ es) c o =
    run-accounted (step w e) es (step-Consistent w e o.0 c) o.1
    ∙ rw (step-accounted w e o.0 c) (append_assoc (accounted w) (handlers_of e) (all_handlers es))

-- In every history of a new writer that can occur, whenever no write is in flight and none is
-- about to start, the handlers called so far are those that were given to send_buffer, each once
-- and in order.
pub run-called :
    (es : List Event)
    → AllCanOccur new_writer es
    → (run new_writer es).state ≡ not_sending
    → called (run new_writer es) ≡ all_handlers es
unfolding accounted pending_handlers
run-called es o idle = ground (
  arith,
  run-accounted new_writer es tt o,
  run-Consistent new_writer es tt o,
  append-nil (called (run new_writer es)),
)
