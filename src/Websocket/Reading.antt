-- ===== src/Websocket/Reading.antt =====
-- warpcoil/cpp/begin_parse_value.hpp over the adaptor of warpcoil/beast.hpp: the reads of a parse
-- operation, one after another, with the messages that the websocket receives.
pub mod Content
use warpcoil.Base.{
  ℕ, zero, suc, ◌+◌, ◌≤◌, ◌<◌, ◌≡◌, refl, sym, ◌∙◌, ap, false, List, [], ◌∷◌, ◌++◌, map,
  append_assoc, append-nil, Option, none, some, if◌then◌else◌, length, drop, take, take-append-drop,
  length-drop_le, All, arith,
}
use warpcoil.Receive.{
  ReadEvent, read_some, read_failed, stream_error, Progress, called, error, start, on_read,
}
use warpcoil.Parse.Interface.{Parser}
use warpcoil.Receive.Chunks.{concat}
use warpcoil.Websocket.{
  Adaptor, new_adaptor, reads, received, AdaptorAction, read_called, SystemErrorCode,
  make_error_code, is_error, Opcode, opcode_case, has_content, has_error, WebsocketError, closed,
  unexpected_opcode, adaptor_step, if_idle, with_operation, async_read_some, read_over,
  read_or_wait, switch_case, WriteOperation,
}

-- The test in `parse_operation::operator()`.
abbrev pub read_event : SystemErrorCode → List ℕ → ReadEvent
read_event ec bytes = if is_error ec then read_failed (stream_error ec.value) else read_some bytes

-- How the websocket ends a read.
pub record Message : Type 0 where
  pub error : SystemErrorCode
  pub opcode : Opcode
  pub content : List ℕ

-- A text or binary message that came without an error.
abbrev pub IsContent : Message → Type 0
IsContent m = (is_error m.error ≡ false) × (opcode_case m.opcode ≡ has_content)

abbrev pub contents : List Message → List ℕ
contents [] = []
contents (m ∷ ms) = m.content ++ contents ms

-- The call of the handler of a read.
abbrev pub first_call : List AdaptorAction → Option ReadEvent
first_call (read_called handler ec bytes ∷ actions) = some (read_event ec bytes)
first_call _ = none

-- How a read ends, the adaptor after it, and the messages that have not been read.
abbrev pub ReadDone : Type 0
ReadDone = Option (ReadEvent × Adaptor × List Message)

abbrev ended : Option ReadEvent → Adaptor → List Message → ReadDone
ended none a ms = none
ended (some event) a ms = some (event, a, ms)

abbrev message_ended : Option (Adaptor × List AdaptorAction) → List Message → ReadDone
message_ended none ms = none
message_ended (some (a, actions)) ms = ended (first_call actions) a ms

abbrev wait_for_message : Adaptor → List Message → ReadDone
wait_for_message a [] = none
wait_for_message a (m ∷ ms) =
    message_ended (adaptor_step (received m.error m.opcode m.content) a) ms

abbrev begun : Option (Adaptor × List AdaptorAction) → List Message → ReadDone
begun none ms = none
begun (some (a, actions)) ms = elim (first_call actions) [
  | some event ↦ some (event, a, ms)
  | none ↦ wait_for_message a ms
]

-- One `async_read_some`; `none` if it waits for ever.
unfoldable pub next_read : (buffers : ℕ) → Adaptor → List Message → ReadDone
next_read buffers a ms = begun (adaptor_step (reads 0 buffers) a) ms

-- Reads, each begun when the one before is over.
unfoldable pub read_all : (fuel buffers : ℕ) → Adaptor → List Message → List ReadEvent
read_all zero buffers a ms = []
read_all (suc fuel) buffers a ms = elim (next_read buffers a ms) [
  | none ↦ []
  | some (event, after, rest) ↦ event ∷ read_all fuel buffers after rest
]

-- An adaptor that does not read.
abbrev pub idle : Option Opcode → List ℕ → Option WriteOperation → Adaptor
idle opcode buffer writing = record {
  received_opcode = opcode;
  receive_buffer = buffer;
  reading = none;
  writing = writing;
}

module _ {A : Type 0} (p : Parser A) (s : p.State) (buffer : List ℕ) where
  -- What a parse operation that waits makes of the errors of the adaptor.
  abbrev pub met : WebsocketError → Progress p × List ℕ
  met closed = start p s buffer
  met unexpected_opcode = (called (error (stream_error 1)), buffer)

  on_read-met :
      (e : WebsocketError) → on_read p s buffer (read_event (make_error_code e) []) ≡ met e
  unfolding on_read
  on_read-met closed = rw append-nil
  on_read-met unexpected_opcode = refl

  -- If a new adaptor with an empty buffer reads, with a size that is not 0, a message without an
  -- error of an opcode that the switch makes an error of, the read ends with an event, on which
  -- a parse operation that waits goes on as with no bytes if the opcode is close, and else calls
  -- its handler with the error.
  pub next_read-has_error :
      (buffers : ℕ) (m : Message) (ms : List Message) (e : WebsocketError)
      → 0 < buffers
      → is_error m.error ≡ false
      → opcode_case m.opcode ≡ has_error e
      → (event : ReadEvent) × (after : Adaptor) × (next_read buffers (new_adaptor []) (m ∷ ms)
          ≡ some (event, after, ms))
        × (on_read p s buffer event ≡ met e)
  unfolding next_read adaptor_step if_idle with_operation async_read_some read_or_wait read_over
      switch_case
  next_read-has_error zero m ms e b g c = absurd (omega arith)
  next_read-has_error (suc n) m ms e b g c = (
    read_event (make_error_code e) [],
    idle (some m.opcode) m.content none,
    rw (g, c) refl,
    on_read-met e,
  )
