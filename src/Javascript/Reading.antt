-- ===== src/Javascript/Reading.antt =====
-- What the parsers of the script make of the bytes that the C++ code writes.
mod Numbers
mod Parts
use Numbers.{number-Returns}
use warpcoil.Javascript.Integers.{widths_agree}
use Parts.{
  Understands, UnderstandsAll, UnderstandsMembers, tuple-Understands, structure-Understands,
  text-Understands, integer-Understands,
}
use warpcoil.Base.{
  ℕ, suc, ◌+◌, ◌*◌, ◌/◌, ◌%◌, ◌^◌, ◌≤◌, ◌<◌, ◌≡◌, refl, sym, ◌∙◌, ap, ◌⊎◌, inl, inr, Bool, true,
  false, Bool-cases, List, [], ◌∷◌, arith, length, append-nil, append_assoc, ◌==◌, if◌then◌else◌,
  ltb, ==_of_eq, ==_of_ne, lt→ltb,
}
use native.Mathlib.Nat.{mod-eq_of_lt}
use warpcoil.Types.Syntax.{
  Integer, Identifier, WireType, Elements, Fields, integer, variant, tuple, vector, utf8, structure,
  nil, cons, end, field,
}
use warpcoil.Parse.Interface.{last, more, need_more_input, parse_complete, consumed}
use warpcoil.Parse.Integer.{write_integer}
use warpcoil.Parse.Tuple.{Tuple}
use warpcoil.Wire.Values.{ValueOf, element_values, field_values, find_suitable_uint_cpp_type}
use warpcoil.Wire.Serialize.{
  failure, append, out_of_range, serialize_integer, serialize_utf8, generate_value_serialization,
  serialize_elements, serialize_fields,
}
use warpcoil.Wire.RoundTrip.Lemmas.{Adds, Both, proceed-Adds, Adds-map, in_range}
use warpcoil.Javascript.Values.{
  pos, to_int32, Value, Values, Properties, number, text, array, object, none_left, item,
  no_property, push, set_property, long,
}
use warpcoil.Javascript.Parsing.{
  find_number_of_bytes_required, parse_int, parse_int_8, parse_text, parse_content, parse_elements,
  parse_members, create_integer, generates_elements, generates_members, call_closure,
  content_called, element_called, member_called, Returns,
}
use warpcoil.Javascript.Closures.{
  content-Returns, text-Returns, only_element, next_element, only_member, next_member,
}
use warpcoil.Javascript.Integers.{
  Accepted, parse_int-Reads, find_number_of_bytes_required-parser_size,
}
use warpcoil.Javascript.Integers.Long.{parse_int_8-Returns}
use warpcoil.Javascript.Representation.{
  in_script, items_in_script, members_in_script, IsReadable, AreReadable, AreReadableMembers,
}

module _ (is_valid : List ℕ → Bool) where
  number-Adds :
      (range : Integer) (v : ℕ) (sink : List ℕ)
      → IsReadable (integer range) v
      → Adds
          (λ bytes.
            Returns
              (create_integer range (find_number_of_bytes_required range.maximum))
              bytes
              (in_script (integer range) v))
          sink
          (serialize_integer range v sink)
  unfolding serialize_integer
  number-Adds range v sink h = elim (Bool-cases (out_of_range range v)) [
    | inl bad ↦ rw bad (λ e. cc)
    | inr fine ↦
        let fits = in_range range v h.0 fine in
        rw (fine, mod-eq_of_lt fits)
          (λ e. (
            _,
            refl,
            rw (← widths_agree range)
                (number-Returns range v h fine (rw (widths_agree range) fits)),
          ))
  ]

  text-Adds :
      (code_units : Integer) (v sink : List ℕ)
      → IsReadable (utf8 code_units) v
      → Adds (Understands (utf8 code_units) v) sink (serialize_utf8 is_valid code_units v sink)
  unfolding serialize_utf8
  text-Adds code_units v sink h = elim (Bool-cases (is_valid v)) [
    | inl fine ↦ rw fine (
        Adds-map _ _ sink _
          (λ bytes (front, back, e, p, q). text-Understands code_units v bytes front back h e p q)
          (proceed-Adds _ (λ bytes. bytes ≡ v) sink (append v)
            (serialize_integer code_units (length v) sink)
            (number-Adds code_units (length v) sink (omega arith, inl h.2))
            (λ s e. (v, refl, refl))))
    | inr bad ↦ rw bad (λ e. cc)
  ]

  mutual
    unfolding generate_value_serialization

    value-Adds :
        (t : WireType) (v : ValueOf t) (sink : List ℕ)
        → IsReadable t v
        → Adds (Understands t v) sink (generate_value_serialization is_valid t v sink)
    value-Adds (integer range) v sink h =
        Adds-map _ _ sink _ (λ bytes r. integer-Understands range v bytes r)
          (number-Adds range v sink h)
    value-Adds (variant root) v sink h = absurd h
    value-Adds (tuple nil) v sink h = absurd h
    value-Adds (tuple (cons t ts)) v sink h =
        Adds-map _ _ sink _ (tuple-Understands t ts v.0 v.1) (elements-Adds (cons t ts) v sink h)
    value-Adds (vector range t) v sink h = absurd h
    value-Adds (utf8 code_units) v sink h = text-Adds code_units v sink h
    value-Adds (structure end) v sink h = absurd h
    value-Adds (structure (field what name rest)) v sink h =
        Adds-map _ _ sink _ (structure-Understands what name rest v.0 v.1)
          (members-Adds (field what name rest) v sink h)

    elements-Adds :
        (ts : Elements) (vs : Tuple (element_values ts)) (sink : List ℕ)
        → AreReadable ts vs
        → Adds (UnderstandsAll ts vs) sink (serialize_elements is_valid ts vs sink)
    elements-Adds nil vs sink h = λ e. ([], sym (append-nil sink), refl)
    elements-Adds (cons t ts) (v, vs) sink h =
        proceed-Adds _ _ sink (serialize_elements is_valid ts vs)
          (generate_value_serialization is_valid t v sink) (value-Adds t v sink h.0)
          (λ s. elements-Adds ts vs s h.1)

    members-Adds :
        (fs : Fields) (vs : Tuple (field_values fs)) (sink : List ℕ)
        → AreReadableMembers fs vs
        → Adds (UnderstandsMembers fs vs) sink (serialize_fields is_valid fs vs sink)
    members-Adds end vs sink h = λ e. ([], sym (append-nil sink), refl)
    members-Adds (field what name rest) (v, vs) sink h =
        proceed-Adds _ _ sink (serialize_fields is_valid rest vs)
          (generate_value_serialization is_valid what v sink) (value-Adds what v sink h.0)
          (λ s. members-Adds rest vs s h.1)
