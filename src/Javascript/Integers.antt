-- ===== src/Javascript/Integers.antt =====
-- The integer parsers of the script: what they read, and what they refuse.
pub mod Long
use native.Mathlib.Nat.{pow-le-pow_right}
use warpcoil.Base.{
  ℕ, suc, Bool, Bool-cases, ◌+◌, ◌*◌, ◌/◌, ◌%◌, ◌^◌, ◌≤◌, ◌<◌, ◌≡◌, refl, ◌==◌, ◌⊎◌, inl, inr, List,
  [], ◌∷◌, ◌++◌, All, arith, bit_or, length, ltb, if◌then◌else◌, ==_of_eq, ==_of_ne, lt→ltb,
  ltb-false, true, false, ◌||◌,
}
use warpcoil.Base.Bits.{bit_or_byte}
use warpcoil.Types.Syntax.{Integer}
use warpcoil.Parse.Interface.{
  last, more, wrong, later, need_more_input, parse_complete, invalid_input, consumed,
}
use warpcoil.Parse.Integer.{write_bytes, write_integer}
use warpcoil.Parse.Integer.Reading.{
  IsByte, big_endian, pow_byte, joined, length-write_bytes, write_bytes-IsByte,
  big_endian-write_integer,
}
use warpcoil.Wire.Values.{parser_size, find_suitable_uint_cpp_type}
use warpcoil.Javascript.Values.{pos, less_than, to_int32, number, long, Value}
use warpcoil.Javascript.Parsing.{
  find_number_of_bytes_required, parse_int, parse_int_8, call_closure, call_parse_int,
  call_parse_int_8, Returns, Throws,
}

-- The script and the C++ code agree on the width of an integer.
pub find_number_of_bytes_required-parser_size :
    (range : Integer) → find_number_of_bytes_required range.maximum ≡ parser_size range
unfolding find_number_of_bytes_required parser_size
find_number_of_bytes_required-parser_size range = ground arith

pub widths_agree :
    (range : Integer)
    → find_number_of_bytes_required range.maximum ≡ find_suitable_uint_cpp_type range
unfolding find_number_of_bytes_required find_suitable_uint_cpp_type
widths_agree range = ground arith

pub wide :
    (maximum : ℕ)
    → (find_number_of_bytes_required maximum == 8) ≡ true
    → find_number_of_bytes_required maximum ≡ 8
unfolding find_number_of_bytes_required
wide maximum h = ground (arith, h)

pub narrow :
    (maximum : ℕ)
    → (find_number_of_bytes_required maximum == 8) ≡ false
    → (maximum < 2 ^ 32)
      × (0 < find_number_of_bytes_required maximum)
      × (find_number_of_bytes_required maximum ≤ 4)
unfolding find_number_of_bytes_required
narrow maximum h = (ground (arith, h), ground (arith, h), ground (arith, h))

joined_32 :
    (size n r b : ℕ)
    → suc n ≤ size
    → size ≤ 4
    → r < 2 ^ (n * 8)
    → IsByte b
    → bit_or (if ltb 1 size then (r * 2 ^ 8) % 2 ^ 32 else r) b % 2 ^ 32 ≡ r * 256 + b
joined_32 size n r b h k hr hb = elim (Bool-cases (ltb 1 size)) [
  | inl wide ↦ rw wide (joined 4 n r b (omega arith) hr hb)
  | inr single ↦
      let n_zero : n ≡ 0 = ground (arith, single) in
      let r_zero : r ≡ 0 = omega (arith, rw n_zero at hr) in
      rw (single, r_zero) (ground (arith, bit_or_byte 0 b hb))
]

-- What the bounds and the sign of the 32 bits let through.
abbrev pub Accepted : (minimum maximum value : ℕ) → Type 0
Accepted minimum maximum value = (minimum ≤ value) × (value ≤ maximum) × (value < 2 ^ 31)

refuses : (minimum maximum value : ℕ) → Bool
refuses minimum maximum value =
    less_than (to_int32 value) (pos minimum) || less_than (pos maximum) (to_int32 value)

accepts :
    (minimum maximum value : ℕ)
    → Accepted minimum maximum value
    → (refuses minimum maximum value ≡ false) × (to_int32 value ≡ pos value)
unfolding refuses
accepts minimum maximum value h = (ground arith, ground arith)

rejects :
    (minimum maximum value : ℕ)
    → value < 2 ^ 32
    → (value < minimum) ⊎ ((maximum < value) ⊎ (2 ^ 31 ≤ value))
    → refuses minimum maximum value ≡ true
unfolding refuses
rejects minimum maximum value h k = ground arith

decided :
    (minimum maximum value : ℕ)
    → Accepted minimum maximum value ⊎ ((value < minimum) ⊎ ((maximum < value) ⊎ (2 ^ 31 ≤ value)))
decided minimum maximum value = omega arith

eights : (size : ℕ) → size ≤ 4 → size * 8 ≤ 32
eights size h = omega arith

module _ (size minimum maximum : ℕ) (small : size ≤ 4) where
  not_yet :
      (n r b : ℕ)
      → suc n < size
      → r < 2 ^ (n * 8)
      → IsByte b
      → call_closure (parse_int size minimum maximum r n) b
        ≡ (need_more_input, parse_int size minimum maximum (r * 256 + b) (suc n))
  unfolding call_closure call_parse_int
  not_yet n r b h hr hb =
      rw (joined_32 size n r b (omega arith) small hr hb, ==_of_ne (suc n) size h) refl

  completed_now :
      (n r b : ℕ)
      → suc n ≡ size
      → r < 2 ^ (n * 8)
      → IsByte b
      → Accepted minimum maximum (r * 256 + b)
      → call_closure (parse_int size minimum maximum r n) b ≡ (
        parse_complete (number (pos (r * 256 + b))) consumed,
        parse_int size minimum maximum (r * 256 + b) (suc n),
      )
  unfolding call_closure call_parse_int refuses
  completed_now n r b h hr hb k =
      let (fine, signed) = accepts minimum maximum (r * 256 + b) k in
      rw (joined_32 size n r b (omega arith) small hr hb, ==_of_eq (suc n) size h, fine, signed)
        refl

  refused :
      (n r b : ℕ)
      → suc n ≡ size
      → r < 2 ^ (n * 8)
      → IsByte b
      → refuses minimum maximum (r * 256 + b) ≡ true
      → call_closure (parse_int size minimum maximum r n) b
        ≡ (invalid_input, parse_int size minimum maximum (r * 256 + b) (suc n))
  unfolding call_closure call_parse_int refuses
  refused n r b h hr hb k =
      rw (joined_32 size n r b (omega arith) small hr hb, ==_of_eq (suc n) size h, k) refl

  reads_loop :
      (r n b : ℕ) (bs : List ℕ)
      → suc n + length bs ≡ size
      → r < 2 ^ (n * 8)
      → All IsByte (b ∷ bs)
      → Accepted minimum maximum (big_endian r (b ∷ bs))
      → Returns (parse_int size minimum maximum r n) (b ∷ bs) (number (pos (big_endian r (b ∷ bs))))
  unfolding big_endian
  reads_loop r n b [] h hr hb k = last b (completed_now n r b (omega arith) hr hb.0 k)
  reads_loop r n b (c ∷ bs) h hr hb k =
      more b (not_yet n r b (omega arith) hr hb.0)
        (reads_loop (r * 256 + b) (suc n) c bs (omega arith) (omega (arith, pow_byte n)) hb.1 k)

  rejects_loop :
      (r n b : ℕ) (bs : List ℕ)
      → suc n + length bs ≡ size
      → r < 2 ^ (n * 8)
      → All IsByte (b ∷ bs)
      → refuses minimum maximum (big_endian r (b ∷ bs)) ≡ true
      → Throws (parse_int size minimum maximum r n) (b ∷ bs)
  unfolding big_endian
  rejects_loop r n b [] h hr hb k = wrong b (refused n r b (omega arith) hr hb.0 k)
  rejects_loop r n b (c ∷ bs) h hr hb k =
      later b (not_yet n r b (omega arith) hr hb.0)
        (rejects_loop (r * 256 + b) (suc n) c bs (omega arith) (omega (arith, pow_byte n)) hb.1 k)

  bytes_read :
      (bs : List ℕ)
      → 0 < size
      → length bs ≡ size
      → All IsByte bs
      → Accepted minimum maximum (big_endian 0 bs)
      → Returns (parse_int size minimum maximum 0 0) bs (number (pos (big_endian 0 bs)))
  bytes_read [] h e hb k = absurd (omega arith)
  bytes_read (b ∷ bs) h e hb k = reads_loop 0 0 b bs (omega arith) (omega arith) hb k

  bytes_refused :
      (bs : List ℕ)
      → 0 < size
      → length bs ≡ size
      → All IsByte bs
      → refuses minimum maximum (big_endian 0 bs) ≡ true
      → Throws (parse_int size minimum maximum 0 0) bs
  bytes_refused [] h e hb k = absurd (omega arith)
  bytes_refused (b ∷ bs) h e hb k = rejects_loop 0 0 b bs (omega arith) (omega arith) hb k

  pub parse_int-Reads :
      (value : ℕ)
      → 0 < size
      → value < 2 ^ (size * 8)
      → Accepted minimum maximum value
      → Returns (parse_int size minimum maximum 0 0) (write_integer size value) (number (pos value))
  unfolding write_integer
  parse_int-Reads value h fits k =
      let e = big_endian-write_integer size value fits in
      rw e at (
        bytes_read (write_bytes size value) h (length-write_bytes size value)
          (write_bytes-IsByte size value) (rw e k))

  below_32 : (value : ℕ) → value < 2 ^ (size * 8) → value < 2 ^ 32
  below_32 value fits = omega (arith, pow-le-pow_right {n = 2} (omega arith) (eights size small))

  -- For 1 to 4 bytes, the parser of the script reads what write_integer wrote of a value that
  -- fits if the value is within the bounds and below 2^31; else, if it is outside the bounds or
  -- 2^31 or more, the parser throws with the last byte.
  pub parse_int-write_integer :
      (value : ℕ)
      → 0 < size
      → value < 2 ^ (size * 8)
      → (Accepted minimum maximum value
          × Returns
              (parse_int size minimum maximum 0 0)
              (write_integer size value)
              (number (pos value)))
        ⊎ (((value < minimum) ⊎ ((maximum < value) ⊎ (2 ^ 31 ≤ value)))
            × Throws (parse_int size minimum maximum 0 0) (write_integer size value))
  unfolding write_integer
  parse_int-write_integer value h fits = elim (decided minimum maximum value) [
    | inl k ↦ inl (k, parse_int-Reads value h fits k)
    | inr k ↦ inr (
      k,
      bytes_refused (write_bytes size value) h (length-write_bytes size value)
          (write_bytes-IsByte size value)
          (rw (big_endian-write_integer size value fits)
            (rejects minimum maximum value (below_32 value fits) k)),
    )
  ]
