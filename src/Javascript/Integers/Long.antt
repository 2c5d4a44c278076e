-- ===== src/Javascript/Integers/Long.antt =====
-- The parser of the script for integers of 8 bytes.
use warpcoil.Base.{
  ℕ, suc, ◌+◌, ◌*◌, ◌/◌, ◌%◌, ◌^◌, ◌≤◌, ◌<◌, ◌≡◌, refl, List, [], ◌∷◌, ◌++◌, All, arith, length,
  ==_of_ne, lt→ltb, ltb-false,
}
use warpcoil.Parse.Interface.{last, more, need_more_input, parse_complete, consumed}
use warpcoil.Parse.Integer.{write_bytes, write_integer}
use warpcoil.Parse.Integer.Reading.{
  IsByte, big_endian, pow_byte, joined, length-write_bytes, write_bytes-IsByte,
  big_endian-write_integer,
}
use warpcoil.Javascript.Values.{to_int32, long, Value}
use warpcoil.Javascript.Parsing.{parse_int_8, call_closure, call_parse_int_8, Returns}

high_byte :
    (r n b : ℕ)
    → suc n ≤ 4
    → r < 2 ^ (n * 8)
    → IsByte b
    → call_closure (parse_int_8 r 0 n) b ≡ (need_more_input, parse_int_8 (r * 256 + b) 0 (suc n))
unfolding call_closure call_parse_int_8
high_byte r n b h hr hb =
    rw (joined 4 n r b h hr hb, lt→ltb n 4 h, ==_of_ne (suc n) 8 (omega arith)) refl

low_byte :
    (high r n parsed b : ℕ)
    → parsed ≡ 4 + n
    → suc n < 4
    → r < 2 ^ (n * 8)
    → IsByte b
    → call_closure (parse_int_8 high r parsed) b
      ≡ (need_more_input, parse_int_8 high (r * 256 + b) (suc parsed))
unfolding call_closure call_parse_int_8
low_byte high r n parsed b e h hr hb =
    rw
      (
        joined 4 n r b (omega arith) hr hb,
        ltb-false parsed 4 (omega arith),
        ==_of_ne (suc parsed) 8 (omega arith),
      )
      refl

last_byte :
    (high r b : ℕ)
    → r < 2 ^ (3 * 8)
    → IsByte b
    → call_closure (parse_int_8 high r 7) b ≡ (
      parse_complete (long (to_int32 high) (to_int32 (r * 256 + b))) consumed,
      parse_int_8 high (r * 256 + b) 8,
    )
unfolding call_closure call_parse_int_8
last_byte high r b hr hb = rw (joined 4 3 r b (omega arith) hr hb) refl

low_half :
    (high r n parsed b : ℕ) (bs : List ℕ)
    → parsed ≡ 4 + n
    → suc n + length bs ≡ 4
    → r < 2 ^ (n * 8)
    → All IsByte (b ∷ bs)
    → Returns
        (parse_int_8 high r parsed)
        (b ∷ bs)
        (long (to_int32 high) (to_int32 (big_endian r (b ∷ bs))))
unfolding big_endian
low_half high r n parsed b [] e h hr hb =
    let three : n ≡ 3 = omega arith in
    let seven : parsed ≡ 7 = omega arith in
    rw seven (last b (last_byte high r b (rw three at hr) hb.0))
low_half high r n parsed b (c ∷ bs) e h hr hb =
    more b (low_byte high r n parsed b e (omega arith) hr hb.0) (
      low_half high (r * 256 + b) (suc n) (suc parsed) c bs (omega arith) (omega arith)
        (omega (arith, pow_byte n)) hb.1)

high_half :
    (r n b : ℕ) (bs rest : List ℕ) {v : Value}
    → suc n + length bs ≡ 4
    → r < 2 ^ (n * 8)
    → All IsByte (b ∷ bs)
    → Returns (parse_int_8 (big_endian r (b ∷ bs)) 0 4) rest v
    → Returns (parse_int_8 r 0 n) ((b ∷ bs) ++ rest) v
unfolding big_endian
high_half r n b [] rest h hr hb k =
    more b (high_byte r n b (omega arith) hr hb.0) (let four : suc n ≡ 4 = omega arith in rw four k)
high_half r n b (c ∷ bs) rest h hr hb k =
    more b (high_byte r n b (omega arith) hr hb.0)
      (high_half (r * 256 + b) (suc n) c bs rest (omega arith) (omega (arith, pow_byte n)) hb.1 k)

pub halves :
    (value : ℕ)
    → value < 2 ^ 64
    → write_integer 8 value ≡ write_integer 4 (value / 2 ^ 32) ++ write_integer 4 (value % 2 ^ 32)
unfolding write_integer write_bytes
halves value h = ground arith

low_part :
    (high : ℕ) (bs : List ℕ)
    → length bs ≡ 4
    → All IsByte bs
    → Returns (parse_int_8 high 0 4) bs (long (to_int32 high) (to_int32 (big_endian 0 bs)))
low_part high [] e hb = absurd (omega arith)
low_part high (b ∷ bs) e hb = low_half high 0 0 4 b bs (omega arith) (omega arith) (omega arith) hb

high_part :
    (bs rest : List ℕ) (v : Value)
    → length bs ≡ 4
    → All IsByte bs
    → Returns (parse_int_8 (big_endian 0 bs) 0 4) rest v
    → Returns (parse_int_8 0 0 0) (bs ++ rest) v
high_part [] rest v e hb k = absurd (omega arith)
high_part (b ∷ bs) rest v e hb k = high_half 0 0 b bs rest (omega arith) (omega arith) hb k

both_parts :
    (high low : ℕ)
    → high < 2 ^ 32
    → low < 2 ^ 32
    → Returns
        (parse_int_8 0 0 0)
        (write_integer 4 high ++ write_integer 4 low)
        (long (to_int32 high) (to_int32 low))
unfolding write_integer
both_parts high low hh hl =
    high_part (write_bytes 4 high) (write_bytes 4 low) (long (to_int32 high) (to_int32 low))
      (length-write_bytes 4 high) (write_bytes-IsByte 4 high)
      (rw (big_endian-write_integer 4 high hh) (
        rw (big_endian-write_integer 4 low hl) at (
          low_part high (write_bytes 4 low) (length-write_bytes 4 low) (write_bytes-IsByte 4 low))))

-- Of 8 bytes the parser makes the two halves, as signed numbers.
pub parse_int_8-Returns :
    (value : ℕ)
    → value < 2 ^ 64
    → Returns
        (parse_int_8 0 0 0)
        (write_integer 8 value)
        (long (to_int32 (value / 2 ^ 32)) (to_int32 (value % 2 ^ 32)))
parse_int_8-Returns value h =
    rw (halves value h) (both_parts (value / 2 ^ 32) (value % 2 ^ 32) (omega arith) (omega arith))
