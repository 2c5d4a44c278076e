-- ===== src/Parse/Integer/Reading.antt =====
-- What `integer_parser` reads, and that it reads what `write_integer` wrote.
use native.Mathlib.Nat.{pow-suc, pow-le-pow_right, mod-eq_of_lt, div-eq_of_lt, div-div-eq-div-mul}
use warpcoil.Base.{
  ℕ, zero, suc, ◌+◌, ◌*◌, ◌/◌, ◌%◌, ◌^◌, ◌≤◌, ◌<◌, ◌≡◌, refl, ap, List, [], ◌∷◌, All, arith, bit_or,
  length, ==_of_eq, ==_of_ne,
}
use warpcoil.Base.Bits.{bit_or_byte}
use warpcoil.Parse.Interface.{Reads, last, more, parse_complete, consumed}
use warpcoil.Parse.Integer.{integer_parser, parse_integer_byte, write_bytes, write_integer}

abbrev pub IsByte : ℕ → Type 0
IsByte b = b < 256

-- The number that the bytes spell after the high part `high`.
unfoldable pub big_endian : ℕ → List ℕ → ℕ
big_endian high [] = high
big_endian high (b ∷ bs) = big_endian (high * 256 + b) bs

pub pow_byte : (n : ℕ) → 2 ^ (suc n * 8) ≡ 2 ^ (n * 8) * 256
pow_byte n = rw eight (simp pow-suc (omega arith))
  where
    eight : suc n * 8 ≡ suc (suc (suc (suc (suc (suc (suc (suc (n * 8))))))))
    eight = omega arith

-- The joined value of one round: nothing is cut off while there is room for a byte.
pub joined :
    (size n r b : ℕ)
    → suc n ≤ size
    → r < 2 ^ (n * 8)
    → IsByte b
    → bit_or ((r * 2 ^ 8) % 2 ^ (size * 8)) b % 2 ^ (size * 8) ≡ r * 256 + b
joined size n r b h hr hb =
    let room : 2 ^ (suc n * 8) ≤ 2 ^ (size * 8) = pow-le-pow_right (omega arith) (omega arith) in
    let fits : r * 256 + b < 2 ^ (size * 8) = omega (arith, pow_byte n, room) in
    ground (
      arith,
      mod-eq_of_lt {n = r * 256} {m = 2 ^ (size * 8)} (omega arith),
      bit_or_byte r b hb,
      mod-eq_of_lt fits,
    )

-- A parser of one byte is complete with it.
pub parse_integer_byte_single :
    (b : ℕ)
    → IsByte b
    → parse_integer_byte 1 (integer_parser 1).start b
      ≡ (parse_complete b consumed, record { result = b; bytes_received = 1 })
unfolding parse_integer_byte
parse_integer_byte_single b h = rw (joined 1 0 0 b (omega arith) (omega arith) h) (ground arith)

round_end :
    (size r b : ℕ) {n : ℕ}
    → suc n ≡ size
    → r < 2 ^ (n * 8)
    → IsByte b
    → Reads (integer_parser size) (record { result = r; bytes_received = n }) (b ∷ []) (r * 256 + b)
unfolding parse_integer_byte
round_end size r b {n} h hr hb =
    last {s' = record { result = r * 256 + b; bytes_received = suc n }} b
      (rw (joined size n r b (omega arith) hr hb, ==_of_eq (suc n) size h))

-- In the middle of an integer any bytes that fill it up are read.
reads_loop :
    (size r n b : ℕ) (bs : List ℕ)
    → suc n + length bs ≡ size
    → r < 2 ^ (n * 8)
    → All IsByte (b ∷ bs)
    → Reads
        (integer_parser size)
        (record { result = r; bytes_received = n })
        (b ∷ bs)
        (big_endian r (b ∷ bs))
unfolding big_endian parse_integer_byte
reads_loop size r n b [] h hr hb = round_end size r b (omega arith) hr hb.0
reads_loop size r n b (c ∷ bs) h hr hb =
    more b (rw (joined size n r b (omega arith) hr hb.0, ==_of_ne (suc n) size (omega arith)))
      (reads_loop size (r * 256 + b) (suc n) c bs (omega arith) (omega (arith, pow_byte n)) hb.1)

-- The parser of an integer of size bytes, size not 0, reads every string of that many bytes as
-- the number that it spells, high byte first.
pub integer_parser-Reads :
    (size : ℕ) (bs : List ℕ)
    → 0 < size
    → length bs ≡ size
    → All IsByte bs
    → Reads (integer_parser size) (integer_parser size).start bs (big_endian 0 bs)
integer_parser-Reads size [] h e hb = absurd (omega arith)
integer_parser-Reads size (b ∷ bs) h e hb = reads_loop size 0 0 b bs (omega arith) (omega arith) hb

pub length-write_bytes : (left value : ℕ) → length (write_bytes left value) ≡ left
unfolding write_bytes
length-write_bytes zero value = refl
length-write_bytes (suc left) value = ap suc (length-write_bytes left value)

pub write_bytes-IsByte : (left value : ℕ) → All IsByte (write_bytes left value)
unfolding write_bytes
write_bytes-IsByte zero value = tt
write_bytes-IsByte (suc left) value = (omega arith, write_bytes-IsByte left value)

-- The bytes of the low part, behind the high part, spell the whole.
big_endian-write_bytes :
    (left value : ℕ) → big_endian (value / 2 ^ (left * 8)) (write_bytes left value) ≡ value
unfolding big_endian write_bytes
big_endian-write_bytes zero value = omega arith
big_endian-write_bytes (suc left) value = rw (high, big_endian) (big_endian-write_bytes left value)
  where
    high : value / 2 ^ (suc left * 8) * 256 + value / 2 ^ (left * 8) % 256 ≡ value / 2 ^ (left * 8)
    high = rw (pow_byte left, ← div-div-eq-div-mul value (2 ^ (left * 8)) 256) (omega arith)

-- What `write_integer` writes spells the value.
pub big_endian-write_integer :
    (size value : ℕ) → value < 2 ^ (size * 8) → big_endian 0 (write_integer size value) ≡ value
unfolding write_integer
big_endian-write_integer size value h = rw (div-eq_of_lt h) at (big_endian-write_bytes size value)

-- The parser of an integer of size bytes, size not 0, reads what write_integer wrote of a value
-- below 2^(8 size) as that value.
pub integer_parser-write_integer :
    (size value : ℕ)
    → 0 < size
    → value < 2 ^ (size * 8)
    → Reads (integer_parser size) (integer_parser size).start (write_integer size value) value
unfolding write_integer
integer_parser-write_integer size value h fits = rw (big_endian-write_integer size value fits) at (
    integer_parser-Reads size (write_bytes size value) h (length-write_bytes size value)
      (write_bytes-IsByte size value))
