-- ===== src/Websocket.antt =====
-- warpcoil/beast.hpp: `async_stream_adaptor` makes a stream of bytes of the messages of a websocket.
--
-- The websocket is a parameter: it is told to read or to write a message (`async_read`,
-- `async_write`), and an event says how that ended. A handler is a number, the buffers of a read
-- are their size. How a handler is invoked makes no difference to what it is called with, so the
-- hooks `asio_handler_invoke` are not modelled.
pub mod Bytes
pub mod Handlers
pub mod Messages
pub mod Reading
use warpcoil.Base.{
  ◌≡◌, refl, IfSome, ℕ, zero, suc, List, [], ◌∷◌, ◌++◌, Option, none, some, Bool, true, false, not,
  ◌==◌, if◌then◌else◌, length, drop, take,
}

pub data WebsocketError : Type 0 where
  closed : WebsocketError
  unexpected_opcode : WebsocketError

-- `::beast::websocket::opcode`, as the switch lists it.
pub data Opcode : Type 0 where
  cont : Opcode
  text : Opcode
  binary : Opcode
  rsv3 : Opcode
  rsv4 : Opcode
  rsv5 : Opcode
  rsv6 : Opcode
  rsv7 : Opcode
  close : Opcode
  ping : Opcode
  pong : Opcode
  crsvb : Opcode
  crsvc : Opcode
  crsvd : Opcode
  crsve : Opcode
  crsvf : Opcode

-- A `boost::system::error_code`: its value, and whether it is of the category of this file.
pub record SystemErrorCode : Type 0 where
  pub value : ℕ
  pub is_websocket_error : Bool

-- The enumerators, in order.
abbrev to_int : WebsocketError → ℕ
to_int closed = 0
to_int unexpected_opcode = 1

abbrev pub make_error_code : WebsocketError → SystemErrorCode
make_error_code error = record { value = to_int error; is_websocket_error = true }

abbrev pub no_error : SystemErrorCode
no_error = record { value = 0; is_websocket_error = false }

-- `!!ec`: as that of the standard library, an error code is an error if its value is not 0.
abbrev pub is_error : SystemErrorCode → Bool
is_error ec = not (ec.value == 0)

pub record ReadOperation : Type 0 where
  pub read_handler : ℕ
  pub buffers : ℕ

pub record WriteOperation : Type 0 where
  pub write_handler : ℕ
  pub bytes_transferred : ℕ

-- The members, and the operations that the websocket has not ended yet.
pub record Adaptor : Type 0 where
  pub received_opcode : Option Opcode
  pub receive_buffer : List ℕ
  pub reading : Option ReadOperation
  pub writing : Option WriteOperation

-- The constructor.
abbrev pub new_adaptor : List ℕ → Adaptor
new_adaptor buffer = record {
  received_opcode = none;
  receive_buffer = buffer;
  reading = none;
  writing = none;
}

-- What the adaptor does: calls of handlers and of the websocket.
pub data AdaptorAction : Type 0 where
  read_called : (handler : ℕ) → SystemErrorCode → List ℕ → AdaptorAction
  write_called : (handler : ℕ) → SystemErrorCode → ℕ → AdaptorAction
  read_begun : AdaptorAction
  write_begun : List ℕ → AdaptorAction

-- `read_from_receive_buffer`: the bytes that were copied.
abbrev pub read_from_receive_buffer : ℕ → Adaptor → Adaptor × List ℕ
read_from_receive_buffer buffers a =
    (record a { receive_buffer = drop buffers a.receive_buffer }, take buffers a.receive_buffer)

-- The test of what was copied: the handler is called, or the websocket has to read.
read_or_wait : ReadOperation → Adaptor → List ℕ → Adaptor × List AdaptorAction
read_or_wait operation a [] = (record a { reading = some operation }, read_begun ∷ [])
read_or_wait operation a (b ∷ bs) = (a, read_called operation.read_handler no_error (b ∷ bs) ∷ [])

unfoldable pub async_read_some : (handler buffers : ℕ) → Adaptor → Adaptor × List AdaptorAction
unfolding read_or_wait
async_read_some handler buffers a =
    let (after, read) = read_from_receive_buffer buffers a in
    read_or_wait (record { read_handler = handler; buffers = buffers }) after read

-- What the switch of `read_operation::operator()` tells apart.
pub data OpcodeCase : Type 0 where
  has_content : OpcodeCase
  has_error : WebsocketError → OpcodeCase

abbrev pub opcode_case : Opcode → OpcodeCase
opcode_case binary = has_content
opcode_case text = has_content
opcode_case close = has_error closed
opcode_case _ = has_error unexpected_opcode

-- The cases of the switch.
switch_case : ReadOperation → SystemErrorCode → OpcodeCase → Adaptor → Adaptor × List AdaptorAction
switch_case operation ec has_content a =
    let (after, read) = read_from_receive_buffer operation.buffers a in
    (after, read_called operation.read_handler ec read ∷ [])
switch_case operation ec (has_error error) a =
    (a, read_called operation.read_handler (make_error_code error) [] ∷ [])

-- `read_operation::operator()`
unfoldable pub read_over :
    ReadOperation → SystemErrorCode → Opcode → Adaptor → Adaptor × List AdaptorAction
unfolding switch_case
read_over operation ec opcode a =
    if is_error ec
    then (a, read_called operation.read_handler ec [] ∷ [])
    else switch_case operation ec (opcode_case opcode) a

unfoldable pub async_write_some : (handler : ℕ) → List ℕ → Adaptor → Adaptor × List AdaptorAction
async_write_some handler buffers a = (
  record a {
    writing = some (record { write_handler = handler; bytes_transferred = length buffers });
  },
  write_begun buffers ∷ [],
)

-- `write_operation::operator()`
unfoldable pub write_over : WriteOperation → SystemErrorCode → List AdaptorAction
write_over operation ec =
    write_called operation.write_handler ec (if is_error ec then 0 else operation.bytes_transferred)
    ∷ []

-- Calls of the user, and the ends of what the websocket was told to do: a read with what it put in
-- the buffer and its opcode, and a write.
pub data AdaptorEvent : Type 0 where
  reads : (handler buffers : ℕ) → AdaptorEvent
  received : SystemErrorCode → Opcode → List ℕ → AdaptorEvent
  writes : (handler : ℕ) → List ℕ → AdaptorEvent
  sent : SystemErrorCode → AdaptorEvent

-- What the websocket does to the members when it ends a read.
abbrev message_read : Opcode → List ℕ → Adaptor → Adaptor
message_read opcode bytes a = record a {
  received_opcode = some opcode;
  receive_buffer = a.receive_buffer ++ bytes;
  reading = none;
}

-- At most one read and one write at a time, as the websocket demands; else `none`.
if_idle : {A B : Type 0} → Option A → B → Option B
if_idle none b = some b
if_idle (some operation) b = none

with_operation : {A B : Type 0} → Option A → (A → B) → Option B
with_operation none f = none
with_operation (some operation) f = some (f operation)

unfoldable pub adaptor_step : AdaptorEvent → Adaptor → Option (Adaptor × List AdaptorAction)
unfolding if_idle with_operation
adaptor_step (reads handler buffers) a = if_idle a.reading (async_read_some handler buffers a)
adaptor_step (received ec opcode bytes) a =
    with_operation a.reading
      λ operation. read_over operation ec opcode (message_read opcode bytes a)
adaptor_step (writes handler bytes) a = if_idle a.writing (async_write_some handler bytes a)
adaptor_step (sent ec) a =
    with_operation a.writing λ operation. (record a { writing = none }, write_over operation ec)

if_idle-IfSome :
    {A : Type 0} (P : Adaptor → List AdaptorAction → Type 0) (o : Option A)
    (x : Adaptor × List AdaptorAction)
    → (o ≡ none → P x.0 x.1)
    → IfSome P (if_idle o x)
unfolding if_idle
if_idle-IfSome P none x h = h refl
if_idle-IfSome P (some operation) x h = tt

with_operation-IfSome :
    {A : Type 0} (P : Adaptor → List AdaptorAction → Type 0) (o : Option A)
    (f : A → Adaptor × List AdaptorAction)
    → ((operation : A) → o ≡ some operation → P (f operation).0 (f operation).1)
    → IfSome P (with_operation o f)
unfolding with_operation
with_operation-IfSome P none f h = tt
with_operation-IfSome P (some operation) f h = h operation refl
