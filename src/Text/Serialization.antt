-- ===== src/Text/Serialization.antt =====
-- The text of warpcoil/cpp/generate/generate_value_serialization.hpp. `value` and `sink` are the
-- expressions for them in the printed code, and `error` the statement
-- `return_invalid_input_error`.
use warpcoil.Base.{ℕ, suc, [], ◌∷◌, ◌++◌, ◌==◌, codes, if◌then◌else◌}
use warpcoil.Types.Syntax.{
  Integer, WireType, Elements, Fields, integer, variant, tuple, vector, utf8, structure, nil, cons,
  end, field,
}
use warpcoil.Wire.Serialize.{index_range}
use warpcoil.Text.{Text, own, Print, append_to, in_order, start_line, block, render, deeper}
use warpcoil.Text.Types.{generate_type, uint_cpp_type}

module _ (lexical_cast : ℕ → Text) (m_indentation : ℕ) where
  -- The `if` of an integer.
  unfoldable pub print_check : (indentation : ℕ) → (value : Text) → Integer → (error : Text) → Print
  print_check indentation value range error =
      if range.minimum == 0
      then start_line own indentation (
          codes "if (("
          ∷ value
          ∷ codes ") > "
          ∷ lexical_cast range.maximum
          ∷ codes "u) { "
          ∷ error
          ∷ codes "; }\n"
          ∷ [])
      else start_line own indentation (
          codes "if ((("
          ∷ value
          ∷ codes ") < "
          ∷ lexical_cast range.minimum
          ∷ codes "u) || (("
          ∷ value
          ∷ codes ") > "
          ∷ lexical_cast range.maximum
          ∷ codes "u)) { "
          ∷ error
          ∷ codes "; }\n"
          ∷ [])

  unfoldable pub print_integer :
      (indentation : ℕ) → (sink value : Text) → Integer → (error : Text) → Print
  unfolding print_check
  print_integer indentation sink value range error = in_order (
      print_check indentation value range error
      ∷ start_line own indentation (
          codes "warpcoil::cpp::write_integer("
          ∷ sink
          ∷ codes ", static_cast<"
          ∷ uint_cpp_type range
          ∷ codes ">("
          ∷ value
          ∷ codes "));\n"
          ∷ [])
      ∷ [])

  unfoldable pub print_utf8 :
      (indentation : ℕ) → (sink value : Text) → Integer → (error : Text) → Print
  unfolding print_integer
  print_utf8 indentation sink value code_units error = in_order (
      start_line own indentation (
        codes "if (!utf8::is_valid("
        ∷ value
        ∷ codes ".begin(), "
        ∷ value
        ∷ codes ".end())) { "
        ∷ error
        ∷ codes "; }\n"
        ∷ [])
      ∷ print_integer indentation sink (value ++ codes ".size()") code_units error
      ∷ start_line own indentation (codes "Si::append(" ∷ [])
      ∷ append_to own sink
      ∷ append_to own (codes ", Si::make_iterator_range(reinterpret_cast<std::uint8_t const *>(")
      ∷ append_to own value
      ∷ append_to own (codes ".data()), reinterpret_cast<std::uint8_t const *>(")
      ∷ append_to own value
      ∷ append_to own (codes ".data() + ")
      ∷ append_to own value
      ∷ append_to own (codes ".size())));\n")
      ∷ [])

  -- `generate_type` to a string of its own, which `next` gets.
  unfoldable pub with_type_string : WireType → (next : Text → Print) → Print
  with_type_string t next out =
      let typed = generate_type lexical_cast m_indentation own t (record out { own_text = [] }) in
      next typed.own_text (record typed { own_text = out.own_text })

  -- `index` is that of the first of the elements.
  unfoldable mutual
    unfolding print_integer print_utf8 with_type_string

    pub print_value_serialization : WireType → (indentation : ℕ) → (sink value error : Text) → Print
    print_value_serialization (integer range) indentation sink value error =
        print_integer indentation sink value range error
    print_value_serialization (variant root) indentation sink value error = in_order (
        print_integer indentation sink (value ++ codes ".index()") (index_range root) error
        ∷ start_line own indentation (codes "switch (" ∷ value ∷ codes ".index())\n" ∷ [])
        ∷ block own indentation (λ in_switch. print_cases root 0 in_switch sink value error)
            (codes "\n")
        ∷ [])
    print_value_serialization (tuple root) indentation sink value error =
        print_elements root 0 indentation sink value error
    print_value_serialization (vector length element) indentation sink value error = in_order (
        print_integer indentation sink (value ++ codes ".size()") length error
        ∷ render own indentation
        ∷ append_to own (codes "for (auto const &element : ")
        ∷ append_to own value
        ∷ append_to own (codes ")\n")
        ∷ render own indentation
        ∷ append_to own (codes "{\n")
        ∷ print_value_serialization element (deeper indentation) sink (codes "element") error
        ∷ render own indentation
        ∷ append_to own (codes "}\n")
        ∷ [])
    print_value_serialization (utf8 code_units) indentation sink value error =
        print_utf8 indentation sink value code_units error
    print_value_serialization (structure root) indentation sink value error =
        print_members root indentation sink value error

    -- The loop over the elements of a variant.
    pub print_cases : Elements → (index : ℕ) → (in_switch : ℕ) → (sink value error : Text) → Print
    print_cases nil index in_switch sink value error = in_order []
    print_cases (cons element rest) index in_switch sink value error = in_order (
        start_line own in_switch (codes "case " ∷ lexical_cast index ∷ codes ":\n" ∷ [])
        ∷ with_type_string element (λ type_string.
          print_value_serialization element (deeper in_switch) sink
            (codes "(*Si::try_get_ptr<" ++ (type_string ++ (codes ">(" ++ (value ++ codes "))"))))
            error)
        ∷ start_line own (deeper in_switch) (codes "break;\n" ∷ [])
        ∷ print_cases rest (suc index) in_switch sink value error
        ∷ [])

    -- The loop over the elements of a tuple.
    pub print_elements :
        Elements → (element_index : ℕ) → (indentation : ℕ) → (sink value error : Text) → Print
    print_elements nil element_index indentation sink value error = in_order []
    print_elements (cons element rest) element_index indentation sink value error = in_order (
        print_value_serialization element indentation sink
          (codes "std::get<"
            ++ (lexical_cast element_index ++ (codes ">(" ++ (value ++ codes ")"))))
          error
        ∷ print_elements rest (suc element_index) indentation sink value error
        ∷ [])

    -- The loop over the elements of a structure.
    pub print_members : Fields → (indentation : ℕ) → (sink value error : Text) → Print
    print_members end indentation sink value error = in_order []
    print_members (field what name rest) indentation sink value error = in_order (
        print_value_serialization what indentation sink (value ++ (codes "." ++ name)) error
        ∷ print_members rest indentation sink value error
        ∷ [])
