-- ===== src/Writer.antt =====
-- warpcoil/cpp/buffered_writer.hpp: bytes are appended to a buffer, `send_buffer` has the buffer
-- written to the stream, and while a write is in flight further calls are queued for the next one.
--
-- A result handler is a number. A chain of `result_handler`s is the list of its handlers, the
-- newest first. `pending` and `results` stand for the world outside: the handlers that the write in
-- flight will report to, and the handlers that were called, in order. `sent` is all that was handed
-- to `async_write`, `written` the part of it whose write is over. A handler may append and call `send_buffer` while `finish_send` is running:
-- `resuming` marks the point between `on_result(ec)` and `continue_send`.
pub mod Stream
pub mod Handlers
pub mod Promises
use warpcoil.Base.{
  ℕ, Bool, true, false, List, [], ◌∷◌, ◌++◌, map, reverse, Option, none, some, if◌then◌else◌,
  is_empty, ◌≡◌, ◌≢◌,
}
use warpcoil.Receive.{ErrorCode}

-- `Si::variant<not_sending, sending>`, with `*buffer_handler_queue`.
pub data SendState : Type 0 where
  not_sending : SendState
  sending : (being_written : List ℕ) → (queue : List ℕ) → SendState

pub record Writer : Type 0 where
  pub buffer : List ℕ
  pub state : SendState
  pub pending : Option (List ℕ)
  pub resuming : Bool
  pub sent : List ℕ
  pub written : List ℕ
  pub results : List (ℕ × ErrorCode)

abbrev pub new_writer : Writer
new_writer = record {
  buffer = [];
  state = not_sending;
  pending = none;
  resuming = false;
  sent = [];
  written = [];
  results = [];
}

-- A write through `buffer_sink()`.
unfoldable pub append : Writer → List ℕ → Writer
append w bytes = record w { buffer = w.buffer ++ bytes }

-- The buffer moves into the state, with a new queue, and a new buffer is empty.
unfoldable pub prepare_send_state : Writer → Writer
prepare_send_state w = record w { buffer = []; state = sending w.buffer [] }

-- `prepare_send_state` and the `async_write` of what was the buffer; the write reports to
-- `handlers`.
unfoldable pub async_write : Writer → List ℕ → Writer
unfolding prepare_send_state
async_write w handlers = record (prepare_send_state w) {
  pending = some handlers;
  sent = w.sent ++ w.buffer;
}

unfoldable pub send_in : SendState → Writer → ℕ → Writer
send_in not_sending w handler = async_write w (handler ∷ [])
send_in (sending being_written queue) w handler = record w {
  state = sending being_written (handler ∷ queue);
}

unfoldable pub send_buffer : Writer → ℕ → Writer
unfolding send_in async_write
send_buffer w handler = send_in w.state w handler

-- `on_result(ec)`: `handle_result` calls the older handlers first.
unfoldable pub on_result : Writer → ErrorCode → List ℕ → Writer
on_result w ec handlers = record w { results = w.results ++ map (λ h. (h, ec)) handlers }

abbrev pub queue_of : SendState → List ℕ
queue_of not_sending = []
queue_of (sending being_written queue) = queue

-- `finish_send`, up to its return or to `continue_send`.
unfoldable pub finish_send : Writer → ErrorCode → List ℕ → Writer
unfolding on_result
finish_send w ec handlers =
    let over = record w { pending = none; written = w.sent } in
    if is_empty w.buffer
    then on_result (record over { state = not_sending }) ec handlers
    else if is_empty (queue_of w.state)
    then on_result (record over { state = not_sending }) ec handlers
    else on_result (record over { resuming = true }) ec handlers

-- The queued handlers are moved to the next write, which sends the whole buffer.
unfoldable pub continue_send : Writer → Writer
unfolding async_write
continue_send w = async_write (record w { resuming = false }) (reverse (queue_of w.state))

-- What happens to a writer: calls of its user, the end of the write in flight, and the return of
-- the handlers that `finish_send` called before `continue_send`.
pub data Event : Type 0 where
  appended : List ℕ → Event
  send_buffer_called : ℕ → Event
  write_completed : ErrorCode → Event
  handlers_returned : Event

unfoldable pub pending_handlers : Option (List ℕ) → List ℕ
pending_handlers none = []
pending_handlers (some handlers) = handlers

unfoldable pub step : Writer → Event → Writer
step w (appended bytes) = append w bytes
step w (send_buffer_called handler) = send_buffer w handler
step w (write_completed ec) = finish_send w ec (pending_handlers w.pending)
step w handlers_returned = continue_send w

-- When an event can occur: `send_buffer` asserts that there is something to send, a write completes
-- only if there is one, and `continue_send` follows `on_result` only.
abbrev pub CanOccur : Writer → Event → Type 0
CanOccur w (appended bytes) = Unit {0}
CanOccur w (send_buffer_called handler) = w.buffer ≢ []
CanOccur w (write_completed ec) = (handlers : List ℕ) × (w.pending ≡ some handlers)
CanOccur w handlers_returned = w.resuming ≡ true

unfoldable pub run : Writer → List Event → Writer
run w [] = w
run w (e ∷ es) = run (step w e) es

abbrev pub AllCanOccur : Writer → List Event → Type 0
AllCanOccur w [] = Unit {0}
AllCanOccur w (e ∷ es) = CanOccur w e × AllCanOccur (step w e) es
