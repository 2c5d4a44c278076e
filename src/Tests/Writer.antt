-- ===== src/Tests/Writer.antt =====
-- A history of a writer: two calls of `send_buffer` while a write is in flight share the next one.
use warpcoil.Base.{ℕ, ◌-◌, ◌≡◌, refl, List, [], ◌∷◌, ◌≤◌, All, length}
use warpcoil.Receive.{stream_error}
use warpcoil.Writer.{
  Event, appended, send_buffer_called, write_completed, handlers_returned, new_writer, run, step,
  AllCanOccur, append, send_buffer, finish_send, continue_send, pending_handlers,
}
use warpcoil.Writer.Handlers.{all_handlers, called, run-called}
use warpcoil.Writer.Promises.{run-reported}

abbrev history : List Event
history =
    appended (1 ∷ [])
    ∷ send_buffer_called 10
    ∷ appended (2 ∷ [])
    ∷ send_buffer_called 11
    ∷ appended (3 ∷ [])
    ∷ send_buffer_called 12
    ∷ write_completed (stream_error 0)
    ∷ handlers_returned
    ∷ write_completed (stream_error 0)
    ∷ []

history_CanOccur : AllCanOccur new_writer history
unfolding run step append send_buffer finish_send continue_send pending_handlers
history_CanOccur = (
  tt,
  (
    λ e. cc,
    (tt, (λ e. cc, (tt, (λ e. cc, ((10 ∷ [], refl), (refl, ((11 ∷ 12 ∷ [], refl), tt))))))),
  ),
)

history_results : called (run new_writer history) ≡ 10 ∷ 11 ∷ 12 ∷ []
unfolding run step append send_buffer finish_send continue_send pending_handlers
history_results = refl

run-called_example : called (run new_writer history) ≡ all_handlers history
unfolding run step append send_buffer finish_send continue_send pending_handlers
run-called_example = run-called history history_CanOccur refl

-- The bytes before each call: 1, 2 and 3.
abbrev due : ℕ → ℕ
due handler = handler - 9

run-reported_example :
    All (λ h. due h ≤ length (run new_writer history).written) (called (run new_writer history))
unfolding run step append send_buffer finish_send continue_send pending_handlers
run-reported_example =
    run-reported due history (tt, (refl, (tt, (refl, (tt, (refl, (tt, (tt, (tt, tt)))))))))
