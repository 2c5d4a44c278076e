-- ===== src/Javascript/Agreement.antt =====
-- Where the C++ serialization runs to its end, the statements of the script write the same bytes.
use warpcoil.Base.{
  ℕ, ◌*◌, ◌^◌, ◌<◌, ◌≡◌, refl, sym, Bool, true, false, Bool-cases, inl, inr, List, [], arith,
  length, append-nil,
}
use native.Mathlib.Nat.{mod-eq_of_lt}
use warpcoil.Types.Syntax.{
  Integer, WireType, Elements, integer, variant, tuple, vector, utf8, structure, nil, cons, end,
  field,
}
use warpcoil.Parse.Integer.{write_integer}
use warpcoil.Parse.Tuple.{Tuple}
use warpcoil.Wire.Values.{ValueOf, element_values}
use warpcoil.Wire.Serialize.{
  append, out_of_range, serialize_integer, serialize_utf8, generate_value_serialization,
  serialize_elements,
}
use warpcoil.Wire.RoundTrip.Lemmas.{Adds, proceed-Adds, Adds-map, in_range}
use warpcoil.Javascript.Parsing.{find_number_of_bytes_required}
use warpcoil.Javascript.Integers.{widths_agree}
use warpcoil.Javascript.Writing.{generate_serialization, generate_size_of_value, size_of_elements}
use warpcoil.Javascript.Buffers.{skip-Does}
use warpcoil.Javascript.Writes.{
  IsPlain, ArePlain, IsWritable, Writes, WritesAll, integer-Writes, text-Writes, elements-Writes,
  tuple-Writes,
}

module _ (is_valid : List ℕ → Bool) where
  -- A number that was written fits its width on both sides.
  fitting-Adds :
      (range : Integer) (v : ℕ) (sink : List ℕ)
      → range.maximum < 2 ^ 64
      → Adds
          (λ bytes.
            (v < 2 ^ (find_number_of_bytes_required range.maximum * 8))
            × (bytes ≡ write_integer (find_number_of_bytes_required range.maximum) v))
          sink
          (serialize_integer range v sink)
  unfolding serialize_integer
  fitting-Adds range v sink h = elim (Bool-cases (out_of_range range v)) [
    | inl bad ↦ rw bad (λ e. cc)
    | inr fine ↦
        let fits = in_range range v h fine in
        rw (fine, mod-eq_of_lt fits)
          (λ e. (_, refl, (rw (widths_agree range) fits, rw (widths_agree range) refl)))
  ]

  text-Adds :
      (named : Bool) (code_units : Integer) (v sink : List ℕ)
      → IsPlain (utf8 code_units) v
      → Adds (Writes named (utf8 code_units) v) sink (serialize_utf8 is_valid code_units v sink)
  unfolding serialize_utf8
  text-Adds named code_units v sink h = elim (Bool-cases (is_valid v)) [
    | inl fine ↦ rw fine (
        Adds-map _ _ sink _
          (λ bytes (front, back, e, (fits, p), q).
            rw (e, p, q) (text-Writes named code_units v h fits))
          (proceed-Adds _ (λ bytes. bytes ≡ v) sink (append v)
            (serialize_integer code_units (length v) sink)
            (fitting-Adds code_units (length v) sink (omega (arith, h.0)))
            (λ s e. (v, refl, refl))))
    | inr bad ↦ rw bad (λ e. cc)
  ]

  plain-Adds :
      (named : Bool) (t : WireType) (v : ValueOf t) (sink : List ℕ)
      → IsPlain t v
      → Adds (Writes named t v) sink (generate_value_serialization is_valid t v sink)
  unfolding generate_value_serialization generate_serialization generate_size_of_value
  plain-Adds named (integer range) v sink h =
      Adds-map _ _ sink _ (λ bytes (fits, e). rw e (integer-Writes named range v fits))
        (fitting-Adds range v sink h)
  plain-Adds named (utf8 code_units) v sink h = text-Adds named code_units v sink h
  plain-Adds named (tuple nil) v sink h = λ e. ([], sym (append-nil sink), (skip-Does, refl))
  plain-Adds named (structure end) v sink h = λ e. ([], sym (append-nil sink), (skip-Does, refl))
  plain-Adds named (tuple (cons t ts)) v sink h = absurd h
  plain-Adds named (structure (field t n fs)) v sink h = absurd h
  plain-Adds named (variant root) v sink h = absurd h
  plain-Adds named (vector r t) v sink h = absurd h

  elements-Adds :
      (ts : Elements) (vs : Tuple (element_values ts)) (sink : List ℕ)
      → ArePlain ts vs
      → Adds (WritesAll ts vs) sink (serialize_elements is_valid ts vs sink)
  unfolding generate_value_serialization generate_serialization size_of_elements
  elements-Adds nil vs sink h = λ e. ([], sym (append-nil sink), (skip-Does, refl))
  elements-Adds (cons t ts) (v, vs) sink h =
      Adds-map _ _ sink _ (λ bytes (a, b, e, p, q). rw e (elements-Writes t ts v vs a b p q))
        (proceed-Adds _ _ sink (serialize_elements is_valid ts vs)
          (generate_value_serialization is_valid t v sink) (plain-Adds true t v sink h.0)
          (λ s. elements-Adds ts vs s h.1))

  pub writable-Adds :
      (t : WireType) (v : ValueOf t) (sink : List ℕ)
      → IsWritable t v
      → Adds (Writes false t v) sink (generate_value_serialization is_valid t v sink)
  unfolding generate_value_serialization
  writable-Adds (integer range) v sink h = plain-Adds false (integer range) v sink h
  writable-Adds (utf8 code_units) v sink h = plain-Adds false (utf8 code_units) v sink h
  writable-Adds (tuple nil) v sink h = plain-Adds false (tuple nil) v sink h
  writable-Adds (structure fs) v sink h = plain-Adds false (structure fs) v sink h
  writable-Adds (tuple (cons t ts)) v sink h =
      Adds-map _ _ sink _ (tuple-Writes t ts v) (elements-Adds (cons t ts) v sink h)
  writable-Adds (variant root) v sink h = absurd h
  writable-Adds (vector r t) v sink h = absurd h
