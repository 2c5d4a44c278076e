-- ===== src/Websocket/Messages.antt =====
-- A value that one side serializes arrives over a websocket.
use warpcoil.Base.{ℕ, ◌≤◌, ◌<◌, ◌≡◌, List, [], ◌++◌, Bool, All}
use warpcoil.Types.Syntax.{WireType}
use warpcoil.Wire.Values.{ValueOf, generate_parser_type}
use warpcoil.Wire.Serialize.{ok, generate_value_serialization}
use warpcoil.Wire.RoundTrip.{IsSolid}
use warpcoil.Receive.{begin_parse_value}
use warpcoil.Receive.Chunks.{Delivers}
use warpcoil.Receive.Messages.{transfer}
use warpcoil.Websocket.{new_adaptor}
use warpcoil.Websocket.Reading.{Message, IsContent, contents, read_all}
use warpcoil.Websocket.Reading.Content.{count_reads, read_all-content}

-- If a value of a solid type (no empty tuple or structure at any depth, at most 256 alternatives
-- in a variant, upper bounds below 2^64) is serialized without an error, and the receive buffer
-- of a new adaptor and then text and binary messages without an error hold these bytes and
-- others behind them, cut in any way, then a parse operation over the reads of the adaptor (of a
-- fixed size that is not 0, as many as the bytes and messages at least) calls its handler with
-- the value and leaves the others in its buffer and the reads.
pub transfer_over_websocket :
    (is_valid : List ℕ → Bool) (t : WireType)
    → IsSolid t
    → (v : ValueOf t) → (generate_value_serialization is_valid t v []).1 ≡ ok
    → (fuel buffers : ℕ) (buffer : List ℕ) (ms : List Message) (rest : List ℕ) → 0 < buffers
    → count_reads buffer ms ≤ fuel
    → All IsContent ms
    → buffer ++ contents ms ≡ (generate_value_serialization is_valid t v []).0 ++ rest
    → Delivers
        (generate_parser_type is_valid t)
        (begin_parse_value
          (generate_parser_type is_valid t)
          []
          (read_all fuel buffers (new_adaptor buffer) ms))
        v
        rest
transfer_over_websocket is_valid t h v good fuel buffers buffer ms rest b f c e =
    let (chunks, events, all) = read_all-content fuel buffers buffer ms b f c in
    rw events (transfer is_valid t h v good [] chunks rest (rw all e))
