-- ===== src/Wire/Values.antt =====
-- generate_type.hpp and generate_parser_type.hpp, with the `structure_parser`s of
-- shared_code_generator.hpp: the type of the values of a wire type, and its parser. The generators
-- print the names of these types and templates; here they are the types and parsers themselves.
use warpcoil.Base.{ℕ, Bool, List, [], ◌∷◌, leb, if◌then◌else◌}
use warpcoil.Types.Syntax.{
  Integer, WireType, Elements, Fields, integer, variant, tuple, vector, utf8, structure, nil, cons,
  end, field,
}
use warpcoil.Parse.Interface.{Parser}
use warpcoil.Parse.Integer.{integer_parser}
use warpcoil.Parse.Utf8.{utf8_parser}
use warpcoil.Parse.Vector.{vector_parser}
use warpcoil.Parse.Tuple.{Tuple, Parsers, tuple_parser}
use warpcoil.Parse.Variant.{Variant, variant_parser}

-- `generate_type`
abbrev mutual
  pub ValueOf : WireType → Type 0
  ValueOf (integer range) = ℕ
  ValueOf (variant root) = Variant (element_values root)
  ValueOf (tuple root) = Tuple (element_values root)
  ValueOf (vector length element) = List (ValueOf element)
  ValueOf (utf8 code_units) = List ℕ
  ValueOf (structure root) = Tuple (field_values root)

  pub element_values : Elements → List (Type 0)
  element_values nil = []
  element_values (cons t ts) = ValueOf t ∷ element_values ts

  pub field_values : Fields → List (Type 0)
  field_values end = []
  field_values (field what name rest) = ValueOf what ∷ field_values rest

-- The `sizeof` of the type that `find_suitable_uint_cpp_type` names.
unfoldable pub find_suitable_uint_cpp_type : Integer → ℕ
find_suitable_uint_cpp_type range =
    if leb range.maximum 0xff
    then 1
    else if leb range.maximum 0xffff
    then 2
    else if leb range.maximum 0xffffffff
    then 4
    else 8

-- The `bits` of `generate_parser_type`, in bytes.
unfoldable pub parser_size : Integer → ℕ
parser_size parsed =
    if leb parsed.maximum 0xff
    then 1
    else if leb parsed.maximum 0xffff
    then 2
    else if leb parsed.maximum 0xffffffff
    then 4
    else 8

module _ (is_valid : List ℕ → Bool) where
  abbrev mutual
    pub generate_parser_type : (t : WireType) → Parser (ValueOf t)
    generate_parser_type (integer parsed) = integer_parser (parser_size parsed)
    generate_parser_type (variant parsed) =
        variant_parser (element_values parsed) (element_parsers parsed)
    generate_parser_type (tuple parsed) =
        tuple_parser (element_values parsed) (element_parsers parsed)
    generate_parser_type (vector length element) =
        vector_parser (integer_parser (parser_size length)) (generate_parser_type element)
    generate_parser_type (utf8 code_units) =
        utf8_parser is_valid (integer_parser (parser_size code_units))
    generate_parser_type (structure root) = tuple_parser (field_values root) (field_parsers root)

    pub element_parsers : (ts : Elements) → Parsers (element_values ts)
    element_parsers nil = tt
    element_parsers (cons t ts) = (generate_parser_type t, element_parsers ts)

    pub field_parsers : (fs : Fields) → Parsers (field_values fs)
    field_parsers end = tt
    field_parsers (field what name rest) = (generate_parser_type what, field_parsers rest)
