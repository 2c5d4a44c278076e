-- ===== src/Wire/RoundTrip.antt =====
-- What the emitted statements append for a value, the instantiated parser reads back.
pub mod Lemmas
use Lemmas.{Adds, Both, proceed-Adds, Adds-map, serialize_integer-Adds, index-Adds, for_each-Adds}
use warpcoil.Base.{
  ℕ, suc, ◌+◌, ◌≤◌, ◌<◌, ◌^◌, ◌≡◌, refl, sym, ◌∙◌, ap, Bool, true, false, List, [], ◌∷◌, ◌++◌,
  append-nil, append_assoc, inl, inr, Bool-cases, arith, length,
}
use warpcoil.Types.Syntax.{
  Integer, WireType, Elements, Fields, integer, variant, tuple, vector, utf8, structure, nil, cons,
  end, field, count,
}
use warpcoil.Parse.Interface.{Reads}
use warpcoil.Parse.Integer.{integer_parser}
use warpcoil.Parse.Utf8.{utf8_parser}
use warpcoil.Parse.Utf8.Reading.{utf8_parser-Reads}
use warpcoil.Parse.Vector.Reading.{vector_parser-Reads}
use warpcoil.Parse.Tuple.{Tuple}
use warpcoil.Parse.Tuple.Reading.{ReadsTuple, basic_tuple_parser-Reads}
use warpcoil.Parse.Variant.{Variant}
use warpcoil.Parse.Variant.Reading.{index, ReadsAlternative, variant_parser-Reads}
use warpcoil.Wire.Values.{
  ValueOf, element_values, field_values, generate_parser_type, element_parsers, field_parsers,
  parser_size,
}
use warpcoil.Wire.Serialize.{
  ok, failure, append, serialize_integer, serialize_utf8, index_range, for_each,
  generate_value_serialization, serialize_alternative, serialize_elements, serialize_fields,
}

abbrev HasElement : Elements → Type 0
HasElement nil = ⊥
HasElement (cons t ts) = Unit {0}

abbrev HasField : Fields → Type 0
HasField end = ⊥
HasField (field what name rest) = Unit {0}

-- Types of which every value takes a byte at least, at every depth: no empty tuple or structure.
-- The bounds of integers are `std::uint64_t`, and a variant has at most as many alternatives as one
-- byte can tell apart.
abbrev mutual
  pub IsSolid : WireType → Type 0
  IsSolid (integer range) = range.maximum < 2 ^ 64
  IsSolid (variant root) = (count root ≤ 256) × IsSolidElements root
  IsSolid (tuple root) = HasElement root × IsSolidElements root
  IsSolid (vector length element) = (length.maximum < 2 ^ 64) × IsSolid element
  IsSolid (utf8 code_units) = code_units.maximum < 2 ^ 64
  IsSolid (structure root) = HasField root × IsSolidFields root

  pub IsSolidElements : Elements → Type 0
  IsSolidElements nil = Unit {0}
  IsSolidElements (cons t ts) = IsSolid t × IsSolidElements ts

  pub IsSolidFields : Fields → Type 0
  IsSolidFields end = Unit {0}
  IsSolidFields (field what name rest) = IsSolid what × IsSolidFields rest

pub index-lt-count :
    (root : Elements) (v : Variant (element_values root))
    → index (element_values root) v < count root
unfolding index count
index-lt-count nil v = absurd v
index-lt-count (cons t ts) (inl v) = omega arith
index-lt-count (cons t ts) (inr v) = omega (arith, index-lt-count ts v)

small :
    (root : Elements) (v : Variant (element_values root))
    → count root ≤ 256
    → index (element_values root) v < 256
small root v h = omega (arith, index-lt-count root v)

module _ (is_valid : List ℕ → Bool) where
  utf8-Adds :
      (code_units : Integer) (text sink : List ℕ)
      → code_units.maximum < 2 ^ 64
      → Adds
          (λ bytes.
            Reads
              (generate_parser_type is_valid (utf8 code_units))
              (generate_parser_type is_valid (utf8 code_units)).start
              bytes
              text)
          sink
          (serialize_utf8 is_valid code_units text sink)
  unfolding serialize_utf8
  utf8-Adds code_units text sink h = elim (Bool-cases (is_valid text)) [
    | inl fine ↦
        rw (fine, serialize_utf8)
          (Adds-map _ _ sink _
            (λ bytes (front, back, e, p, q). rw (e, q) (utf8_parser-Reads is_valid _ text p fine))
            (proceed-Adds _ (λ bytes. bytes ≡ text) sink (append text)
              (serialize_integer code_units (length text) sink)
              (serialize_integer-Adds code_units (length text) sink h) (λ s e. (text, refl, refl))))
    | inr bad ↦ rw (bad, serialize_utf8) (λ e. cc)
  ]

  mutual
    unfolding generate_value_serialization

    value-Adds :
        (t : WireType)
        → IsSolid t
        → (v : ValueOf t) (sink : List ℕ)
        → Adds
            (λ bytes.
              Reads
                (generate_parser_type is_valid t)
                (generate_parser_type is_valid t).start
                bytes
                v)
            sink
            (generate_value_serialization is_valid t v sink)
    value-Adds (integer range) h v sink = serialize_integer-Adds range v sink h
    value-Adds (variant root) h v sink =
        Adds-map _ _ sink _
          (λ bytes (front, back, e, p, q).
            rw (e, p) (variant_parser-Reads _ _ v back (small root v h.0) q))
          (proceed-Adds _ _ sink (serialize_alternative is_valid root v)
            (serialize_integer (index_range root) (index (element_values root) v) sink)
            (index-Adds root (index (element_values root) v) sink h.0 (index-lt-count root v))
            (alternative-Adds root h.1 v))
    value-Adds (tuple nil) h v sink = absurd h.0
    value-Adds (tuple (cons t ts)) h v sink =
        Adds-map _ _ sink _ (λ bytes r. basic_tuple_parser-Reads _ _ _ v r)
          (elements-Adds (cons t ts) h.1 v sink)
    value-Adds (vector range t) h v sink =
        Adds-map _ _ sink _ (λ bytes (front, back, e, p, q). rw e (vector_parser-Reads _ _ v p q))
          (proceed-Adds _ _ sink (for_each (generate_value_serialization is_valid t) v)
            (serialize_integer range (length v) sink)
            (serialize_integer-Adds range (length v) sink h.0)
            (for_each-Adds _ (generate_value_serialization is_valid t) (value-Adds t h.1) v))
    value-Adds (utf8 code_units) h v sink = utf8-Adds code_units v sink h
    value-Adds (structure end) h v sink = absurd h.0
    value-Adds (structure (field what name rest)) h v sink =
        Adds-map _ _ sink _ (λ bytes r. basic_tuple_parser-Reads _ _ _ v r)
          (fields-Adds (field what name rest) h.1 v sink)

    alternative-Adds :
        (ts : Elements)
        → IsSolidElements ts
        → (v : Variant (element_values ts)) (sink : List ℕ)
        → Adds
            (λ bytes. ReadsAlternative (element_values ts) (element_parsers is_valid ts) bytes v)
            sink
            (serialize_alternative is_valid ts v sink)
    alternative-Adds nil h v sink = absurd v
    alternative-Adds (cons t ts) h (inl v) sink = value-Adds t h.0 v sink
    alternative-Adds (cons t ts) h (inr v) sink = alternative-Adds ts h.1 v sink

    elements-Adds :
        (ts : Elements)
        → IsSolidElements ts
        → (v : Tuple (element_values ts)) (sink : List ℕ)
        → Adds
            (λ bytes. ReadsTuple (element_values ts) (element_parsers is_valid ts) bytes v)
            sink
            (serialize_elements is_valid ts v sink)
    elements-Adds nil h v sink = λ e. ([], sym (append-nil sink), refl)
    elements-Adds (cons t ts) h (v, vs) sink =
        proceed-Adds _ _ sink (serialize_elements is_valid ts vs)
          (generate_value_serialization is_valid t v sink) (value-Adds t h.0 v sink)
          (elements-Adds ts h.1 vs)

    fields-Adds :
        (fs : Fields)
        → IsSolidFields fs
        → (v : Tuple (field_values fs)) (sink : List ℕ)
        → Adds
            (λ bytes. ReadsTuple (field_values fs) (field_parsers is_valid fs) bytes v)
            sink
            (serialize_fields is_valid fs v sink)
    fields-Adds end h v sink = λ e. ([], sym (append-nil sink), refl)
    fields-Adds (field what name rest) h (v, vs) sink =
        proceed-Adds _ _ sink (serialize_fields is_valid rest vs)
          (generate_value_serialization is_valid what v sink) (value-Adds what h.0 v sink)
          (fields-Adds rest h.1 vs)

  -- If the emitted serialization runs to its end on a value of a solid type, it appended bytes
  -- to the sink that the parser for the type reads as that value: it asks for more input up to
  -- the last byte, consumes that one and is complete.
  pub generate_value_serialization-Reads :
      (t : WireType)
      → IsSolid t
      → (v : ValueOf t) (sink : List ℕ) → (generate_value_serialization is_valid t v sink).1 ≡ ok
      → (bytes : List ℕ) × ((generate_value_serialization is_valid t v sink).0 ≡ sink ++ bytes)
        × Reads (generate_parser_type is_valid t) (generate_parser_type is_valid t).start bytes v
  generate_value_serialization-Reads t h v sink e = value-Adds t h v sink e
