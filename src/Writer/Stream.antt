-- ===== src/Writer/Stream.antt =====
-- What goes out: the bytes in the order in which they were appended.
use warpcoil.Base.{ℕ, ◌≡◌, refl, sym, ◌∙◌, List, [], ◌∷◌, ◌++◌, append-nil, append_assoc, arith}
use warpcoil.Writer.{
  Writer, SendState, not_sending, sending, Event, appended, send_buffer_called, write_completed,
  handlers_returned, append, send_buffer, send_in, finish_send, continue_send, step, run,
  async_write,
}
use warpcoil.Receive.{ErrorCode}

abbrev pub outgoing : Writer → List ℕ
outgoing w = w.sent ++ w.buffer

abbrev pub bytes_of : Event → List ℕ
bytes_of (appended bytes) = bytes
bytes_of _ = []

abbrev pub all_bytes : List Event → List ℕ
all_bytes [] = []
all_bytes (e ∷ es) = bytes_of e ++ all_bytes es

pub send_in-outgoing : (s : SendState) (w : Writer) (h : ℕ) → outgoing (send_in s w h) ≡ outgoing w
unfolding send_in async_write
send_in-outgoing not_sending w h = append-nil (w.sent ++ w.buffer)
send_in-outgoing (sending being_written queue) w h = refl

finish_send-outgoing :
    (w : Writer) (ec : ErrorCode) (hs : List ℕ) → outgoing (finish_send w ec hs) ≡ outgoing w
unfolding finish_send
finish_send-outgoing w ec hs = ground arith

step-outgoing : (w : Writer) (e : Event) → outgoing (step w e) ≡ outgoing w ++ bytes_of e
unfolding step append send_buffer send_in continue_send
step-outgoing w (appended bytes) = sym (append_assoc w.sent w.buffer bytes)
step-outgoing w (send_buffer_called h) =
    send_in-outgoing w.state w h ∙ sym (append-nil (outgoing w))
step-outgoing w (write_completed ec) = finish_send-outgoing w ec _ ∙ sym (append-nil (outgoing w))
step-outgoing w handlers_returned = refl

-- In every history what was handed to async_write followed by what is in the buffer is what was
-- there before and all appended bytes, in order.
pub run-outgoing : (w : Writer) (es : List Event) → outgoing (run w es) ≡ outgoing w ++ all_bytes es
unfolding run
run-outgoing w [] = sym (append-nil (outgoing w))
run-outgoing w (e ∷ es) =
    run-outgoing (step w e) es
    ∙ rw (step-outgoing w e) (append_assoc (outgoing w) (bytes_of e) (all_bytes es))
