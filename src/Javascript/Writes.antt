-- ===== src/Javascript/Writes.antt =====
-- What the statements of the script put into a buffer for the values of `Representation`: the bytes
-- that the C++ code writes.
use warpcoil.Base.{
  ℕ, ◌+◌, ◌*◌, ◌/◌, ◌%◌, ◌^◌, ◌<◌, ◌≡◌, refl, sym, ap, subst, Bool, true, false, Bool-cases, inl,
  inr, List, [], ◌∷◌, ◌++◌, map, some, arith, length, length-append, All, ◌==◌,
}
use native.Mathlib.Nat.{mod-eq_of_lt}
use warpcoil.Types.Syntax.{
  Integer, WireType, Elements, integer, tuple, utf8, structure, nil, cons, end,
}
use warpcoil.Parse.Integer.{write_integer, write_bytes}
use warpcoil.Parse.Integer.Reading.{length-write_bytes}
use warpcoil.Parse.Tuple.{Tuple}
use warpcoil.Wire.Values.{ValueOf, element_values}
use warpcoil.Generated.Interface.{equal}
use warpcoil.Javascript.Values.{ℤ, pos, low_bits, to_int32, number, text, long}
use warpcoil.Javascript.Parsing.{find_number_of_bytes_required}
use warpcoil.Javascript.Integers.{wide}
use warpcoil.Javascript.Integers.Long.{halves}
use warpcoil.Javascript.Texts.{IsAscii, decode_utf8-ascii}
use warpcoil.Javascript.Representation.{in_script, items_in_script}
use warpcoil.Javascript.Writing.{
  named_offset, inner_offset, plus, set_bytes, to_uint, to_utf8, get_property, own_property,
  set_integer, set_text, items_of, generate_serialization, write_elements, generate_size_of_value,
  size_of_elements, and_then,
}
use warpcoil.Javascript.Buffers.{Does, set_bytes-Does, then-Does}

set_integer-Does :
    (size v : ℕ)
    → (size == 8) ≡ false
    → Does
        (λ o. set_integer size (number (pos v)) (some o))
        (write_integer size (v % 2 ^ (size * 8)))
unfolding set_integer to_uint
set_integer-Does size v e = rw e (set_bytes-Does (write_integer size (v % 2 ^ (size * 8))))

pub long-Does :
    (high low : ℤ)
    → Does
        (λ o. set_integer 8 (long high low) (some o))
        (write_integer 4 (low_bits 32 high) ++ write_integer 4 (low_bits 32 low))
unfolding set_integer to_uint get_property own_property equal plus write_integer write_bytes
long-Does high low =
    then-Does (λ o. set_bytes (some o) (write_integer 4 (low_bits 32 high)))
      (λ o. set_bytes (some o) (write_integer 4 (low_bits 32 low))) _ _
      (set_bytes-Does (write_integer 4 (low_bits 32 high)))
      (set_bytes-Does (write_integer 4 (low_bits 32 low)))

bits_kept : (x : ℕ) → x < 2 ^ 32 → low_bits 32 (to_int32 x) ≡ x
bits_kept x h = ground arith

eight_fits : (n v : ℕ) → n ≡ 8 → v < 2 ^ (n * 8) → v < 2 ^ 64
eight_fits n v e h = rw e at h

pub number-Does :
    (range : Integer) (v : ℕ)
    → v < 2 ^ (find_number_of_bytes_required range.maximum * 8)
    → Does
        (λ o.
          set_integer
            (find_number_of_bytes_required range.maximum)
            (in_script (integer range) v)
            (some o))
        (write_integer (find_number_of_bytes_required range.maximum) v)
unfolding in_script
number-Does range v fits = elim (Bool-cases (find_number_of_bytes_required range.maximum == 8)) [
  | inl e ↦
      let eight = wide range.maximum e in
      let small = eight_fits _ v eight fits in
      rw eight (
        rw (halves v small) (
          rw (bits_kept (v / 2 ^ 32) (omega arith), bits_kept (v % 2 ^ 32) (omega arith)) at
            (long-Does (to_int32 (v / 2 ^ 32)) (to_int32 (v % 2 ^ 32)))))
  | inr e ↦ rw e (
      rw (mod-eq_of_lt fits) at
        (set_integer-Does (find_number_of_bytes_required range.maximum) v e))
]

units_kept : (v : List ℕ) → All IsAscii v → map (λ unit. low_bits 8 (pos unit)) v ≡ v
units_kept [] h = refl
units_kept (b ∷ bs) h =
    cc (mod-eq_of_lt {n = b} {m = 2 ^ 8} (omega (arith, h.0)), units_kept bs h.1)

text-Does :
    (n : ℕ) (v : List ℕ)
    → (n == 8) ≡ false
    → length v < 2 ^ (n * 8)
    → All IsAscii v
    → Does
        (λ o. set_text n (text v) (some (number (pos (length v)))) (some o))
        (write_integer n (length v) ++ v)
unfolding set_text to_utf8 plus write_integer
text-Does n v e fits h = rw (units_kept v h) (
    subst
      (λ k.
        Does
          (λ o buffer.
            and_then (set_integer n (number (pos (length v))) (some o) buffer)
              (set_bytes (some (o + k)) v))
          (write_bytes n (length v) ++ v))
      (length-write_bytes n (length v))
      (then-Does (λ o. set_integer n (number (pos (length v))) (some o)) (λ o. set_bytes (some o) v)
        (write_bytes n (length v)) v (rw (mod-eq_of_lt fits) at (set_integer-Does n (length v) e))
        (set_bytes-Does v)))

-- The values that the script writes like the C++ code: integers, ASCII texts with a length of 4
-- bytes at most, and empty tuples and structures.
abbrev pub IsPlain : (t : WireType) → ValueOf t → Type 0
IsPlain (integer range) v = range.maximum < 2 ^ 64
IsPlain (utf8 code_units) v = (code_units.maximum < 2 ^ 32) × All IsAscii v
IsPlain (tuple nil) v = Unit {0}
IsPlain (structure end) v = Unit {0}
IsPlain _ v = ⊥

abbrev pub ArePlain : (ts : Elements) → Tuple (element_values ts) → Type 0
ArePlain nil vs = Unit {0}
ArePlain (cons t ts) vs = IsPlain t vs.0 × ArePlain ts vs.1

-- Tuples of these are written too, if they do not stand in another tuple.
abbrev pub IsWritable : (t : WireType) → ValueOf t → Type 0
IsWritable (tuple (cons t ts)) v = ArePlain (cons t ts) v
IsWritable (integer range) v = IsPlain (integer range) v
IsWritable (utf8 code_units) v = IsPlain (utf8 code_units) v
IsWritable (tuple nil) v = Unit {0}
IsWritable (structure fs) v = IsPlain (structure fs) v
IsWritable _ v = ⊥

abbrev pub Writes : Bool → (t : WireType) → ValueOf t → List ℕ → Type 0
Writes named t v bytes =
    Does
      (λ o.
        generate_serialization t (in_script t v)
          (record { is_named_offset = named; worth = some o }))
      bytes
    × (generate_size_of_value t (in_script t v) ≡ some (length bytes))

abbrev pub WritesAll : (ts : Elements) → Tuple (element_values ts) → List ℕ → Type 0
WritesAll ts vs bytes =
    Does (λ o. write_elements ts (items_in_script ts vs) (some o)) bytes
    × (size_of_elements ts (items_in_script ts vs) ≡ some (length bytes))

pub integer-Writes :
    (named : Bool) (range : Integer) (v : ℕ)
    → v < 2 ^ (find_number_of_bytes_required range.maximum * 8)
    → Writes named (integer range) v (write_integer (find_number_of_bytes_required range.maximum) v)
unfolding generate_serialization write_integer generate_size_of_value
integer-Writes named range v fits = (
  number-Does range v fits,
  ap some (sym (length-write_bytes (find_number_of_bytes_required range.maximum) v)),
)

not_eight : (maximum : ℕ) → maximum < 2 ^ 32 → (find_number_of_bytes_required maximum == 8) ≡ false
unfolding find_number_of_bytes_required
not_eight maximum h = ground arith

pub text-Writes :
    (named : Bool) (code_units : Integer) (v : List ℕ)
    → IsPlain (utf8 code_units) v
    → length v < 2 ^ (find_number_of_bytes_required code_units.maximum * 8)
    → Writes named
        (utf8 code_units)
        v
        (write_integer (find_number_of_bytes_required code_units.maximum) (length v) ++ v)
unfolding generate_serialization generate_size_of_value in_script to_utf8 write_integer
text-Writes named code_units v h fits = rw (decode_utf8-ascii v h.1) (
  text-Does (find_number_of_bytes_required code_units.maximum) v (not_eight code_units.maximum h.0)
      fits h.1,
  rw
      (
        units_kept v h.1,
        length-append (write_bytes (find_number_of_bytes_required code_units.maximum) (length v)) v,
        length-write_bytes (find_number_of_bytes_required code_units.maximum) (length v),
      )
      refl,
)

pub elements-Writes :
    (t : WireType) (ts : Elements) (v : ValueOf t) (vs : Tuple (element_values ts)) (a b : List ℕ)
    → Writes true t v a
    → WritesAll ts vs b
    → WritesAll (cons t ts) (v, vs) (a ++ b)
unfolding generate_serialization size_of_elements items_in_script plus
elements-Writes t ts v vs a b (f, n) (g, m) = (
  rw n (
      then-Does (λ o. generate_serialization t (in_script t v) (named_offset (some o)))
        (λ o. write_elements ts (items_in_script ts vs) (some o)) a b f g),
  rw (n, m) (ap some (sym (length-append a b))),
)

pub tuple-Writes :
    (t : WireType) (ts : Elements) (v : Tuple (element_values (cons t ts))) (bytes : List ℕ)
    → WritesAll (cons t ts) v bytes
    → Writes false (tuple (cons t ts)) v bytes
unfolding generate_serialization generate_size_of_value in_script items_of inner_offset
tuple-Writes t ts v bytes w = w
