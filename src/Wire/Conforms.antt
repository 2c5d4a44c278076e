-- ===== src/Wire/Conforms.antt =====
-- Which values the emitted statements accept: exactly those that the wire type describes.
use warpcoil.Base.{
  ℕ, ◌^◌, ◌≤◌, ◌<◌, ◌≡◌, ◌↔◌, refl, Bool, true, List, [], ◌∷◌, inl, inr, Bool-cases, arith, All,
  length,
}
use warpcoil.Types.Syntax.{
  Integer, WireType, Elements, Fields, integer, variant, tuple, vector, utf8, structure, nil, cons,
  end, field, count,
}
use warpcoil.Parse.Tuple.{Tuple}
use warpcoil.Parse.Variant.{Variant}
use warpcoil.Parse.Variant.Reading.{index}
use warpcoil.Wire.Values.{ValueOf, element_values, field_values}
use warpcoil.Wire.RoundTrip.{index-lt-count}
use warpcoil.Wire.Serialize.{
  RequestStatus, Statements, ok, failure, append, proceed, out_of_range, serialize_integer,
  serialize_utf8, index_range, for_each, generate_value_serialization, serialize_alternative,
  serialize_elements, serialize_fields,
}

abbrev pub InRange : Integer → ℕ → Type 0
InRange range value = (range.minimum ≤ value) × (value ≤ range.maximum)

-- What README.md says of the values of each type: integers and lengths within their bounds, valid
-- UTF-8, and so for all parts.
module _ (is_valid : List ℕ → Bool) where
  abbrev mutual
    pub Conforms : (t : WireType) → ValueOf t → Type 0
    Conforms (integer range) v = InRange range v
    Conforms (variant root) v = ConformsAlternative root v
    Conforms (tuple root) v = ConformsElements root v
    Conforms (vector range element) v = InRange range (length v) × All (Conforms element) v
    Conforms (utf8 code_units) v = InRange code_units (length v) × (is_valid v ≡ true)
    Conforms (structure root) v = ConformsFields root v

    pub ConformsAlternative : (ts : Elements) → Variant (element_values ts) → Type 0
    ConformsAlternative nil v = ⊥
    ConformsAlternative (cons t ts) (inl v) = Conforms t v
    ConformsAlternative (cons t ts) (inr v) = ConformsAlternative ts v

    pub ConformsElements : (ts : Elements) → Tuple (element_values ts) → Type 0
    ConformsElements nil v = Unit {0}
    ConformsElements (cons t ts) v = Conforms t v.0 × ConformsElements ts v.1

    pub ConformsFields : (fs : Fields) → Tuple (field_values fs) → Type 0
    ConformsFields end v = Unit {0}
    ConformsFields (field what name rest) v = Conforms what v.0 × ConformsFields rest v.1

-- The alternatives of a variant are counted by a `std::size_t`.
abbrev mutual
  pub IsSized : WireType → Type 0
  IsSized (integer range) = Unit {0}
  IsSized (variant root) = (count root < 2 ^ 64) × IsSizedElements root
  IsSized (tuple root) = IsSizedElements root
  IsSized (vector range element) = IsSized element
  IsSized (utf8 code_units) = Unit {0}
  IsSized (structure root) = IsSizedFields root

  pub IsSizedElements : Elements → Type 0
  IsSizedElements nil = Unit {0}
  IsSizedElements (cons t ts) = IsSized t × IsSizedElements ts

  pub IsSizedFields : Fields → Type 0
  IsSizedFields end = Unit {0}
  IsSizedFields (field what name rest) = IsSized what × IsSizedFields rest

abbrev Accepts : Type 0 → List ℕ × RequestStatus → Type 0
Accepts P r = (r.1 ≡ ok) ↔ P

proceed-Accepts :
    (P Q : Type 0) (next : Statements) (r : List ℕ × RequestStatus)
    → Accepts P r
    → ((s : List ℕ) → Accepts Q (next s))
    → Accepts (P × Q) (proceed next r)
proceed-Accepts P Q next (s, ok) a k = ((λ e. (a.0 refl, (k s).0 e)), (λ pq. (k s).1 pq.1))
proceed-Accepts P Q next (s, failure) a k = ((λ e. cc), (λ pq. a.1 pq.0))

serialize_integer-Accepts :
    (range : Integer) (v : ℕ) (sink : List ℕ)
    → Accepts (InRange range v) (serialize_integer range v sink)
unfolding serialize_integer out_of_range
serialize_integer-Accepts range v sink = ground arith

for_each-Accepts :
    {A : Type 0} (P : A → Type 0) (body : A → Statements)
    → ((x : A) (sink : List ℕ) → Accepts (P x) (body x sink))
    → (xs : List A) (sink : List ℕ) → Accepts (All P xs) (for_each body xs sink)
unfolding for_each
for_each-Accepts P body h [] sink = ((λ e. tt), (λ u. refl))
for_each-Accepts P body h (x ∷ xs) sink =
    proceed-Accepts (P x) (All P xs) (for_each body xs) (body x sink) (h x sink)
      (for_each-Accepts P body h xs)

index-InRange :
    (root : Elements) (v : Variant (element_values root))
    → count root < 2 ^ 64
    → InRange (index_range root) (index (element_values root) v)
unfolding index_range
index-InRange root v h = omega (arith, index-lt-count root v)

module _ (is_valid : List ℕ → Bool) where
  serialize_utf8-Accepts :
      (code_units : Integer) (text sink : List ℕ)
      → Accepts
          (InRange code_units (length text) × (is_valid text ≡ true))
          (serialize_utf8 is_valid code_units text sink)
  unfolding serialize_utf8
  serialize_utf8-Accepts code_units text sink = elim (Bool-cases (is_valid text)) [
    | inl fine ↦
        rw (fine, serialize_utf8)
          (proceed-Accepts _ _ (append text) (serialize_integer code_units (length text) sink)
            (serialize_integer-Accepts code_units (length text) sink)
            (λ s. ((λ e. refl), (λ u. refl))))
    | inr bad ↦ rw (bad, serialize_utf8) ((λ e. cc), (λ p. cc (p.1)))
  ]

  mutual
    unfolding generate_value_serialization

    value-Accepts :
        (t : WireType)
        → IsSized t
        → (v : ValueOf t) (sink : List ℕ)
        → Accepts (Conforms is_valid t v) (generate_value_serialization is_valid t v sink)
    value-Accepts (integer range) h v sink = serialize_integer-Accepts range v sink
    value-Accepts (variant root) h v sink =
        let i = index (element_values root) v in
        let both =
          proceed-Accepts (InRange (index_range root) i) (ConformsAlternative is_valid root v)
            (serialize_alternative is_valid root v) (serialize_integer (index_range root) i sink)
            (serialize_integer-Accepts (index_range root) i sink)
            (alternative-Accepts root h.1 v) in
        ((λ e. (both.0 e).1), (λ c. both.1 (index-InRange root v h.0, c)))
    value-Accepts (tuple root) h v sink = elements-Accepts root h v sink
    value-Accepts (vector range t) h v sink =
        proceed-Accepts _ _ (for_each (generate_value_serialization is_valid t) v)
          (serialize_integer range (length v) sink)
          (serialize_integer-Accepts range (length v) sink)
          (for_each-Accepts _ (generate_value_serialization is_valid t) (value-Accepts t h) v)
    value-Accepts (utf8 code_units) h v sink = serialize_utf8-Accepts code_units v sink
    value-Accepts (structure root) h v sink = fields-Accepts root h v sink

    alternative-Accepts :
        (ts : Elements)
        → IsSizedElements ts
        → (v : Variant (element_values ts)) (sink : List ℕ)
        → Accepts (ConformsAlternative is_valid ts v) (serialize_alternative is_valid ts v sink)
    alternative-Accepts nil h v sink = absurd v
    alternative-Accepts (cons t ts) h (inl v) sink = value-Accepts t h.0 v sink
    alternative-Accepts (cons t ts) h (inr v) sink = alternative-Accepts ts h.1 v sink

    elements-Accepts :
        (ts : Elements)
        → IsSizedElements ts
        → (v : Tuple (element_values ts)) (sink : List ℕ)
        → Accepts (ConformsElements is_valid ts v) (serialize_elements is_valid ts v sink)
    elements-Accepts nil h v sink = ((λ e. tt), (λ u. refl))
    elements-Accepts (cons t ts) h (v, vs) sink =
        proceed-Accepts _ _ (serialize_elements is_valid ts vs)
          (generate_value_serialization is_valid t v sink) (value-Accepts t h.0 v sink)
          (elements-Accepts ts h.1 vs)

    fields-Accepts :
        (fs : Fields)
        → IsSizedFields fs
        → (v : Tuple (field_values fs)) (sink : List ℕ)
        → Accepts (ConformsFields is_valid fs v) (serialize_fields is_valid fs v sink)
    fields-Accepts end h v sink = ((λ e. tt), (λ u. refl))
    fields-Accepts (field what name rest) h (v, vs) sink =
        proceed-Accepts _ _ (serialize_fields is_valid rest vs)
          (generate_value_serialization is_valid what v sink) (value-Accepts what h.0 v sink)
          (fields-Accepts rest h.1 vs)

  -- For every type whose variants have fewer than 2^64 alternatives, the emitted serialization
  -- runs to its end on exactly the values that conform to the type: integers and lengths within
  -- their bounds, valid UTF-8, and so for all parts.
  pub generate_value_serialization-Conforms :
      (t : WireType)
      → IsSized t
      → (v : ValueOf t) (sink : List ℕ)
      → ((generate_value_serialization is_valid t v sink).1 ≡ ok) ↔ Conforms is_valid t v
  generate_value_serialization-Conforms t h v sink = value-Accepts t h v sink
