-- ===== src/Receive.antt =====
-- warpcoil/cpp/begin_parse_value.hpp: a `parse_operation` runs a parser over the receive buffer and
-- over what it reads from the stream until the parser is done. The buffer (a `beast::streambuf`) is
-- the list of its bytes, its pieces joined in order. The stream is the list of what its reads
-- return. Whether a handler is called directly or through `asio_handler_invoke` makes no difference
-- to what it is called with, so `IsSurelyCalledInHandlerContext` is not modelled.
pub mod Chunks
pub mod Messages
use warpcoil.Base.{ℕ, suc, ◌+◌, List, [], ◌∷◌, ◌++◌, Option, none, some, drop}
use warpcoil.Parse.Interface.{
  Parser, InputConsumption, ParseResult, parse_complete, need_more_input, invalid_input, consumed,
  does_not_consume,
}

-- `boost::system::error_code`: `make_invalid_input_error()`, or an error of the stream.
pub data ErrorCode : Type 0 where
  invalid_input_error : ErrorCode
  stream_error : ℕ → ErrorCode

-- `Si::error_or<T>`
pub data ErrorOr (A : Type 0) : Type 0 where
  value : A → ErrorOr A
  error : ErrorCode → ErrorOr A

-- What completes `async_read_some`.
pub data ReadEvent : Type 0 where
  read_failed : ErrorCode → ReadEvent
  read_some : List ℕ → ReadEvent

module _ {A : Type 0} (p : Parser A) where
  -- How the loop over the buffer ends: complete after consuming so many bytes, refused, or at the
  -- end of the buffer.
  pub data Scan : Type 0 where
    finished : A → ℕ → Scan
    refused : Scan
    exhausted : p.State → ℕ → Scan

  -- The operation has called its handler, or waits for a read.
  pub data Progress : Type 0 where
    called : ErrorOr A → Progress
    reading : p.State → Progress

abbrev pub consume_last : InputConsumption → ℕ → ℕ
consume_last consumed n = suc n
consume_last does_not_consume n = n

module _ {A : Type 0} (p : Parser A) where
  -- The loops over the bytes of the buffer's pieces, `n` the variable `consumed`.
  unfoldable pub scan : p.State → List ℕ → ℕ → Scan p
  scan s [] n = exhausted s n
  scan s (b ∷ bs) n =
      let (r, s') = p.parse_byte s b in
      elim r [
        | parse_complete a input ↦ finished a (consume_last input n)
        | need_more_input ↦ scan s' bs (suc n)
        | invalid_input ↦ refused
      ]

  after_scan : List ℕ → Scan p → Progress p × List ℕ
  after_scan buffer (finished a n) = (called (value a), drop n buffer)
  after_scan buffer refused = (called (error invalid_input_error), buffer)
  after_scan buffer (exhausted s n) = (reading s, drop n buffer)

  -- `start()`: what the handler is called with or the parser that waits, and the buffer left.
  unfoldable pub start : p.State → List ℕ → Progress p × List ℕ
  unfolding scan after_scan
  start s buffer = elim (p.check_for_immediate_completion s) [
    | some a ↦ (called (value a), buffer)
    | none ↦ after_scan buffer (scan s buffer 0)
  ]

  -- `operator()`
  unfoldable pub on_read : p.State → List ℕ → ReadEvent → Progress p × List ℕ
  on_read s buffer (read_failed ec) = (called (error ec), buffer)
  on_read s buffer (read_some bytes) = start s (buffer ++ bytes)

  -- The operation with the reads of the stream. Once the handler is called no read is pending, and
  -- what the stream has left is returned.
  unfoldable pub receive :
      Progress p × List ℕ → List ReadEvent → (Progress p × List ℕ) × List ReadEvent
  receive (called r, buffer) events = ((called r, buffer), events)
  receive (reading s, buffer) [] = ((reading s, buffer), [])
  receive (reading s, buffer) (e ∷ events) = receive (on_read s buffer e) events

  unfoldable pub begin_parse_value :
      List ℕ → List ReadEvent → (Progress p × List ℕ) × List ReadEvent
  begin_parse_value buffer events = receive (start p.start buffer) events
