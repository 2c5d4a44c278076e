-- ===== src/Text/Types.antt =====
-- The text of types: warpcoil/cpp/generate/generate_type.hpp and shared_code_generator.hpp.
--
-- `boost::lexical_cast` makes the text of a number. A `std::set` of structures is a list in which
-- the order `less` finds them.
mod Parsers
unfoldable pub use Parsers.{
  parser_bits, integer_parser_type, comma, parser_type_text, parser_types_text,
}
use warpcoil.Base.{
  ℕ, suc, List, [], ◌∷◌, Bool, true, false, not, ◌&&◌, ◌||◌, codes, if◌then◌else◌, leb,
}
use warpcoil.Types.Syntax.{
  Integer, WireType, Elements, Fields, integer, variant, tuple, vector, utf8, structure, nil, cons,
  end, field, clone_fields,
}
use warpcoil.Types.Less.{less_structure}
use warpcoil.Text.{Text, Sink, shared, Print, append_to, in_order, start_line, block, add_element}
use warpcoil.Text.Names.{generate_name_for_structure}

unfoldable pub uint_cpp_type : Integer → Text
uint_cpp_type range =
    if leb range.maximum 0xff
    then codes "std::uint8_t"
    else if leb range.maximum 0xffff
    then codes "std::uint16_t"
    else if leb range.maximum 0xffffffff
    then codes "std::uint32_t"
    else codes "std::uint64_t"

-- `m_generated_structures.find(required) != m_generated_structures.end()`
unfoldable pub is_found : Fields → List Fields → Bool
is_found required [] = false
is_found required (s ∷ ss) =
    (not (less_structure s required) && not (less_structure required s)) || is_found required ss

-- `m_generated_structures.insert(required.clone())`
unfoldable pub insert_structure : Fields → Print
insert_structure required out =
    if is_found required out.generated_structures
    then out
    else record out { generated_structures = clone_fields required ∷ out.generated_structures }

-- The functions of the parser of a structure without elements.
abbrev pub parse_byte_line : Text
parse_byte_line =
    codes
      "parse_result<result_type> parse_byte(std::uint8_t const) const { return parse_complete<result_type>{result_type{}, input_consumption::does_not_consume}; }\n"

abbrev pub completion_line : Text
completion_line =
    codes
      "Si::optional<result_type> check_for_immediate_completion() const { return result_type{}; }\n"

module _ (lexical_cast : ℕ → Text) (m_indentation : ℕ) where
  unfoldable pub append_name : Fields → Print
  append_name s = append_to shared (generate_name_for_structure s)

  -- `, ` and the parser of each element.
  abbrev pub element_parser_types : Fields → List Print
  element_parser_types end = []
  element_parser_types (field what name rest) =
      append_to shared (codes ", ")
      ∷ append_to shared (parser_type_text what)
      ∷ element_parser_types rest

  unfoldable pub empty_parser : Fields → ℕ → Print
  unfolding append_name
  empty_parser required in_struct = in_order (
      start_line shared in_struct (codes "typedef " ∷ [])
      ∷ append_name required
      ∷ append_to shared (codes " result_type;\n")
      ∷ start_line shared in_struct (parse_byte_line ∷ [])
      ∷ start_line shared in_struct (completion_line ∷ [])
      ∷ [])

  -- The specialization of `structure_parser`, by whether there are elements; `getters` prints what
  -- is in the block if there are.
  unfoldable pub specialization : Fields → (getters : ℕ → Print) → ℕ → Print
  unfolding append_name empty_parser
  specialization end getters in_cpp =
      in_order
        (append_to shared (codes ">\n") ∷ block shared in_cpp (empty_parser end) (codes ";\n") ∷ [])
  specialization (field what name rest) getters in_cpp =
      let required = field what name rest in
      in_order (
        append_to shared (codes "> : basic_tuple_parser<structure_parser<")
        ∷ append_name required
        ∷ append_to shared (codes ">, ")
        ∷ append_name required
        ∷ in_order (element_parser_types required)
        ∷ append_to shared (codes ">\n ")
        ∷ block shared in_cpp getters (codes ";\n")
        ∷ [])

  -- The blocks of the two namespaces.
  unfoldable pub in_namespace_cpp : Fields → (getters : ℕ → Print) → ℕ → Print
  unfolding append_name specialization
  in_namespace_cpp required getters in_cpp = in_order (
      start_line shared in_cpp (codes "template <> struct structure_parser<" ∷ [])
      ∷ append_name required
      ∷ specialization required getters in_cpp
      ∷ [])

  unfoldable pub in_namespace : Fields → (getters : ℕ → Print) → ℕ → Print
  unfolding in_namespace_cpp
  in_namespace required getters in_warpcoil = in_order (
      start_line shared m_indentation (codes "namespace cpp" ∷ [])
      ∷ block shared in_warpcoil (in_namespace_cpp required getters) (codes "\n")
      ∷ [])

  -- What is printed for a structure that is not found.
  unfoldable pub define_structure : Fields → (members getters : ℕ → Print) → Print
  unfolding append_name in_namespace
  define_structure required members getters = in_order (
      start_line shared m_indentation (codes "struct " ∷ [])
      ∷ append_name required
      ∷ append_to shared (codes "\n")
      ∷ block shared m_indentation members (codes ";\n")
      ∷ start_line shared m_indentation (codes "namespace warpcoil" ∷ [])
      ∷ block shared m_indentation (in_namespace required getters) (codes "\n")
      ∷ [])

  -- `require_structure`; `members` and `getters` print the elements of the two blocks.
  unfoldable pub require_with : Fields → (members getters : ℕ → Print) → Print
  unfolding define_structure
  require_with required members getters out =
      if is_found required out.generated_structures
      then out
      else insert_structure required (define_structure required members getters out)

  -- A function `get` behind its result type.
  unfoldable pub getter_end : (required : Text) → (index : ℕ) → (name : Text) → ℕ → Print
  getter_end required index name in_struct = in_order (
      append_to shared (codes " &get(")
      ∷ append_to shared required
      ∷ append_to shared (codes " &result, std::integral_constant<std::size_t, ")
      ∷ append_to shared (lexical_cast index)
      ∷ append_to shared (codes ">) const\n")
      ∷ block shared in_struct
          (λ in_get. start_line shared in_get (codes "return result." ∷ name ∷ codes ";\n" ∷ []))
          (codes "\n")
      ∷ [])

  unfoldable mutual
    unfolding getter_end

    -- `generate_type`, to one of the sinks.
    pub generate_type : Sink → WireType → Print
    generate_type into (integer range) = append_to into (uint_cpp_type range)
    generate_type into (variant root) = in_order (
        append_to into (codes "Si::variant<")
        ∷ generate_types into true root
        ∷ append_to into (codes ">")
        ∷ [])
    generate_type into (tuple root) = in_order (
        append_to into (codes "std::tuple<")
        ∷ generate_types into true root
        ∷ append_to into (codes ">")
        ∷ [])
    generate_type into (vector length element) = in_order (
        append_to into (codes "std::vector<")
        ∷ generate_type into element
        ∷ append_to into (codes ">")
        ∷ [])
    generate_type into (utf8 code_units) = append_to into (codes "std::string")
    generate_type into (structure root) = in_order (
        require_with root (generate_members root)
          (generate_getters (generate_name_for_structure root) 0 root)
        ∷ append_to into (generate_name_for_structure root)
        ∷ [])

    pub generate_types : Sink → (first : Bool) → Elements → Print
    generate_types into first nil = in_order []
    generate_types into first (cons element rest) =
        in_order (
          add_element into first ∷ generate_type into element ∷ generate_types into false rest ∷ [])

    -- The members of the printed structure.
    pub generate_members : Fields → ℕ → Print
    generate_members end in_struct = in_order []
    generate_members (field what name rest) in_struct = in_order (
        start_line shared in_struct (codes "" ∷ [])
        ∷ generate_type shared what
        ∷ append_to shared (codes " ")
        ∷ append_to shared name
        ∷ append_to shared (codes ";\n")
        ∷ generate_members rest in_struct
        ∷ [])

    -- The functions `get` of the printed parser, from `index` on.
    pub generate_getters : (required : Text) → (index : ℕ) → Fields → ℕ → Print
    generate_getters required index end in_struct = in_order []
    generate_getters required index (field what name rest) in_struct = in_order (
        start_line shared in_struct (codes "" ∷ [])
        ∷ generate_type shared what
        ∷ getter_end required index name in_struct
        ∷ generate_getters required (suc index) rest in_struct
        ∷ [])

  unfoldable pub require_structure : Fields → Print
  require_structure required =
      require_with required (generate_members required)
        (generate_getters (generate_name_for_structure required) 0 required)
