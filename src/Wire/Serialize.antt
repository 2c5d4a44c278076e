-- ===== src/Wire/Serialize.antt =====
-- generate_value_serialization.hpp: the statements that are emitted for a type, run on a value.
-- They append to the sink as they go, and a check that fails returns from the request builder: what
-- was appended before it stays in the sink.
use warpcoil.Base.{
  ℕ, ◌+◌, ◌-◌, ◌*◌, ◌^◌, ◌%◌, Bool, List, [], ◌∷◌, ◌++◌, inl, inr, ◌||◌, ltb, ◌==◌, if◌then◌else◌,
  length,
}
use warpcoil.Types.Syntax.{
  Integer, WireType, Elements, Fields, integer, variant, tuple, vector, utf8, structure, nil, cons,
  end, field, count,
}
use warpcoil.Parse.Integer.{write_integer}
use warpcoil.Parse.Tuple.{Tuple}
use warpcoil.Parse.Variant.{Variant}
use warpcoil.Parse.Variant.Reading.{index}
use warpcoil.Wire.Values.{ValueOf, element_values, field_values, find_suitable_uint_cpp_type}

-- `client_pipeline_request_status`
pub data RequestStatus : Type 0 where
  ok failure : RequestStatus

-- Statements that append to the sink, and may return early.
abbrev pub Statements : Type 0
Statements = List ℕ → List ℕ × RequestStatus

abbrev pub append : List ℕ → Statements
append bytes sink = (sink ++ bytes, ok)

-- No statement.
abbrev pub skip : Statements
skip sink = (sink, ok)

abbrev pub return_invalid_input_error : Statements
return_invalid_input_error sink = (sink, failure)

abbrev pub proceed : Statements → List ℕ × RequestStatus → List ℕ × RequestStatus
proceed next (sink, ok) = next sink
proceed next (sink, failure) = (sink, failure)

infixl 5 ◌>>◌
abbrev pub ◌>>◌ : Statements → Statements → Statements
(first >> next) sink = proceed next (first sink)

-- The condition of the emitted `if`: there is no test against the minimum 0.
unfoldable pub out_of_range : Integer → ℕ → Bool
out_of_range range value =
    if range.minimum == 0
    then ltb range.maximum value
    else ltb value range.minimum || ltb range.maximum value

-- The cast to the n-byte type keeps the low 8 * n bits.
unfoldable pub serialize_integer : Integer → ℕ → Statements
unfolding out_of_range
serialize_integer range value =
    let size = find_suitable_uint_cpp_type range in
    if out_of_range range value
    then return_invalid_input_error
    else append (write_integer size (value % 2 ^ (size * 8)))

-- `types::integer{0, root->elements.size() - 1}`, in `std::size_t`.
unfoldable pub index_range : Elements → Integer
index_range root = record { minimum = 0; maximum = (count root + 2 ^ 64 - 1) % 2 ^ 64 }

-- `for (auto const &element : value) { … }`
unfoldable pub for_each {ℓ} : {A : Type ℓ} → (A → Statements) → List A → Statements
for_each body [] = skip
for_each body (x ∷ xs) = body x >> for_each body xs

module _ (is_valid : List ℕ → Bool) where
  unfoldable pub serialize_utf8 : Integer → List ℕ → Statements
  unfolding serialize_integer
  serialize_utf8 code_units text =
      if is_valid text
      then serialize_integer code_units (length text) >> append text
      else return_invalid_input_error

  unfoldable mutual
    unfolding serialize_integer for_each serialize_utf8 index_range

    pub generate_value_serialization : (t : WireType) → ValueOf t → Statements
    generate_value_serialization (integer range) value = serialize_integer range value
    generate_value_serialization (variant root) value =
        serialize_integer (index_range root) (index (element_values root) value)
        >> serialize_alternative root value
    generate_value_serialization (tuple root) value = serialize_elements root value
    generate_value_serialization (vector length_ element) value =
        serialize_integer length_ (length value)
        >> for_each (generate_value_serialization element) value
    generate_value_serialization (utf8 code_units) value = serialize_utf8 code_units value
    generate_value_serialization (structure root) value = serialize_fields root value

    -- The `switch` on the index.
    pub serialize_alternative : (ts : Elements) → Variant (element_values ts) → Statements
    serialize_alternative nil value = absurd value
    serialize_alternative (cons t ts) (inl value) = generate_value_serialization t value
    serialize_alternative (cons t ts) (inr value) = serialize_alternative ts value

    pub serialize_elements : (ts : Elements) → Tuple (element_values ts) → Statements
    serialize_elements nil value = skip
    serialize_elements (cons t ts) (value, values) =
        generate_value_serialization t value >> serialize_elements ts values

    pub serialize_fields : (fs : Fields) → Tuple (field_values fs) → Statements
    serialize_fields end value = skip
    serialize_fields (field what name rest) (value, values) =
        generate_value_serialization what value >> serialize_fields rest values
