-- ===== src/Writer/Promises.antt =====
-- A handler is called only when the bytes that were in the buffer at its `send_buffer` are written.
use mathlib.Core.List.{reverse-cons, map-append}
use warpcoil.Base.{
  ℕ, ◌+◌, ◌≤◌, ◌≡◌, refl, List, [], ◌∷◌, ◌++◌, map, reverse, arith, is_empty, length, length-append,
  All, All-append, if-either, subst,
}
use warpcoil.Receive.{ErrorCode}
use warpcoil.Writer.{
  Writer, SendState, not_sending, sending, Event, appended, send_buffer_called, write_completed,
  handlers_returned, append, send_buffer, send_in, finish_send, continue_send, step, run, queue_of,
  pending_handlers, async_write, new_writer,
}
use warpcoil.Writer.Handlers.{reporter, called, map_reported}

-- `due h` is the number of bytes that were appended before `send_buffer` was given `h`.
module _ (due : ℕ → ℕ) where
  abbrev Within : ℕ → List ℕ → Type 0
  Within n hs = All (λ h. due h ≤ n) hs

  Within-mono : (m n : ℕ) (hs : List ℕ) → m ≤ n → Within m hs → Within n hs
  Within-mono m n [] h w = tt
  Within-mono m n (x ∷ hs) h w = (omega arith, Within-mono m n hs h w.1)

  Within-reverse : (n : ℕ) (hs : List ℕ) → Within n hs → Within n (reverse hs)
  Within-reverse n [] w = tt
  Within-reverse n (x ∷ hs) w =
      rw reverse-cons
        (All-append (λ h. due h ≤ n) (reverse hs) (x ∷ []) (Within-reverse n hs w.1) (w.0, tt))

  pub record Kept (w : Writer) : Type 0 where
    pub reported : Within (length w.written) (called w)
    pub in_flight : Within (length w.sent) (pending_handlers w.pending)
    pub queued : Within (length w.sent + length w.buffer) (queue_of w.state)
    pub behind : length w.written ≤ length w.sent

  abbrev pub IsDue : Writer → Event → Type 0
  IsDue w (send_buffer_called h) = due h ≡ length w.sent + length w.buffer
  IsDue w _ = Unit {0}

  abbrev pub AllDue : Writer → List Event → Type 0
  AllDue w [] = Unit {0}
  AllDue w (e ∷ es) = IsDue w e × AllDue (step w e) es

  append-Kept : (w : Writer) (bytes : List ℕ) → Kept w → Kept (append w bytes)
  unfolding append
  append-Kept w bytes k = record {
    reported = k.reported;
    in_flight = k.in_flight;
    queued =
        Within-mono _ _ (queue_of w.state) (omega (arith, length-append w.buffer bytes)) k.queued;
    behind = k.behind;
  }

  send-Kept :
      (w : Writer) (s : SendState) (h : ℕ)
      → w.state ≡ s
      → due h ≡ length w.sent + length w.buffer
      → Kept w
      → Kept (send_in s w h)
  unfolding send_in async_write pending_handlers
  send-Kept w not_sending h e d k = record {
    reported = k.reported;
    in_flight = (omega (arith, length-append w.sent w.buffer), tt);
    queued = tt;
    behind = omega (arith, length-append w.sent w.buffer, k.behind);
  }
  send-Kept w (sending b q) h e d k = record {
    reported = k.reported;
    in_flight = k.in_flight;
    queued = (
      omega arith,
      subst (λ s. Within (length w.sent + length w.buffer) (queue_of s)) e k.queued,
    );
    behind = k.behind;
  }

  continue-Kept : (w : Writer) → Kept w → Kept (continue_send w)
  unfolding continue_send async_write pending_handlers
  continue-Kept w k = record {
    reported = k.reported;
    in_flight = Within-reverse _ (queue_of w.state) (rw (length-append w.sent w.buffer) k.queued);
    queued = tt;
    behind = omega (arith, length-append w.sent w.buffer, k.behind);
  }

  finish-Kept :
      (w : Writer) (ec : ErrorCode) → Kept w → Kept (finish_send w ec (pending_handlers w.pending))
  unfolding finish_send pending_handlers
  finish-Kept w ec k =
      if-either Kept (is_empty w.buffer)
        (record { reported = told; in_flight = tt; queued = tt; behind = omega arith })
        (if-either Kept (is_empty (queue_of w.state))
          (record { reported = told; in_flight = tt; queued = tt; behind = omega arith })
          (record { reported = told; in_flight = tt; queued = k.queued; behind = omega arith }))
    where
      told :
          Within
            (length w.sent)
            (map reporter (w.results ++ map (λ h. (h, ec)) (pending_handlers w.pending)))
      told =
          rw
            (
              map-append reporter w.results (map (λ h. (h, ec)) (pending_handlers w.pending)),
              map_reported ec (pending_handlers w.pending),
            )
            (All-append (λ h. due h ≤ length w.sent) (called w) (pending_handlers w.pending)
              (Within-mono _ _ (called w) k.behind k.reported) k.in_flight)

  step-Kept : (w : Writer) (e : Event) → IsDue w e → Kept w → Kept (step w e)
  unfolding step
  step-Kept w (appended bytes) d k = append-Kept w bytes k
  step-Kept w (send_buffer_called h) d k = unfold send_buffer in send-Kept w w.state h refl d k
  step-Kept w (write_completed ec) d k = finish-Kept w ec k
  step-Kept w handlers_returned d k = continue-Kept w k

  run-Kept : (w : Writer) (es : List Event) → AllDue w es → Kept w → Kept (run w es)
  unfolding run
  run-Kept w [] d k = k
  run-Kept w (e ∷ es) d k = run-Kept (step w e) es d.1 (step-Kept w e d.0 k)

  -- If due gives for each handler the number of bytes that had been appended when send_buffer
  -- got it, in every history of a new writer each handler that was called had no more bytes due
  -- than the writes that are over have sent: no handler is called before the write of its bytes
  -- is over.
  pub run-reported :
      (es : List Event)
      → AllDue new_writer es
      → All (λ h. due h ≤ length (run new_writer es).written) (called (run new_writer es))
  unfolding pending_handlers
  run-reported es d =
      (run-Kept new_writer es d
        (record { reported = tt; in_flight = tt; queued = tt; behind = omega arith })).reported
