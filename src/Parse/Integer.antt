-- ===== src/Parse/Integer.antt =====
-- warpcoil/cpp/integer_parser.hpp and write_integer.hpp: unsigned integers, high byte first.
-- `size` is `sizeof(Unsigned)`.
pub mod Reading
use warpcoil.Base.{
  ℕ, zero, suc, ◌+◌, ◌-◌, ◌*◌, ◌/◌, ◌%◌, ◌^◌, ◌≡◌, List, [], ◌∷◌, none, bit_or, ◌==◌, if◌then◌else◌,
}
use warpcoil.Parse.Interface.{ParseResult, Parser, parse_complete, need_more_input, consumed}

pub record IntegerState : Type 0 where
  pub result : ℕ
  pub bytes_received : ℕ

unfoldable pub parse_integer_byte : ℕ → IntegerState → ℕ → ParseResult ℕ × IntegerState
parse_integer_byte size s input =
    let shifted = (s.result * 2 ^ 8) % 2 ^ (size * 8) in
    let result = bit_or shifted input % 2 ^ (size * 8) in
    let s' : IntegerState = record { result = result; bytes_received = suc s.bytes_received } in
    if suc s.bytes_received == size
    then (parse_complete result consumed, s')
    else (need_more_input, s')

abbrev pub integer_parser : ℕ → Parser ℕ
integer_parser size = record {
  State = IntegerState;
  start = record { result = 0; bytes_received = 0 };
  parse_byte = parse_integer_byte size;
  check_for_immediate_completion = λ s. none;
}

-- The loop of `write_integer` with `left` rounds to go, that is at `i = size - left`.
unfoldable pub write_bytes : ℕ → ℕ → List ℕ
write_bytes zero value = []
write_bytes (suc left) value = value / 2 ^ (left * 8) % 256 ∷ write_bytes left value

unfoldable pub write_integer : ℕ → ℕ → List ℕ
write_integer size value = write_bytes size value
