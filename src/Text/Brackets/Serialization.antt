-- ===== src/Text/Brackets/Serialization.antt =====
-- The brackets of the text of serializations.
use warpcoil.Base.{ℕ, suc, refl, ◌∙◌, [], ◌∷◌, ◌++◌, All, false, codes, append_assoc}
use warpcoil.Types.Syntax.{
  WireType, Elements, Fields, integer, variant, tuple, vector, utf8, structure, nil, cons, end,
  field,
}
use warpcoil.Text.{Text, own, Print}
use warpcoil.Text.Types.{generate_type}
use warpcoil.Text.Serialization.{
  with_type_string, print_value_serialization, print_cases, print_elements, print_members,
}
use warpcoil.Wire.Serialize.{index_range}
use warpcoil.Text.Structures.Own.{type_text, own-type_text}
use warpcoil.Text.Brackets.{IsPlain, scan_brackets, plain-IsBalanced, append-IsBalanced}
use warpcoil.Text.Brackets.Types.{HasPlainNames, type_text-IsBalanced}
use warpcoil.Text.Brackets.Definitions.{
  IsPlainType, ArePlainTypes, ArePlainMembers, IsPlainType-HasPlainNames,
}
use warpcoil.Text.Brackets.Round.{IsRoundBalanced, IsBalanced-round, in_one, in_block}
use warpcoil.Text.Brackets.Statements.{integer-Turns, utf8-Turns}
use warpcoil.Text.Brackets.Turns.{
  TurnsIn, done, ◌&>◌, finished, further_out, literal, plain, balanced, render-Turns, chain-Turns,
  block-Turns, line-Turns,
}

module _ (lexical_cast : ℕ → Text) (m_indentation : ℕ)
    (plain_numbers : (n : ℕ) → All IsPlain (lexical_cast n)) where
  with_type-Turns :
      (t : WireType) (next_print : Text → Print)
      → ((x : Text) → IsRoundBalanced x → TurnsIn false own (next_print x) [] [])
      → HasPlainNames t
      → TurnsIn false own (with_type_string lexical_cast m_indentation t next_print) [] []
  unfolding with_type_string
  with_type-Turns t next_print n h = record {
    turned = λ out.
        let start = record out { own_text = [] } in
        let typed = generate_type lexical_cast m_indentation own t start in
        (n typed.own_text (
            rw (own-type_text lexical_cast m_indentation t start)
              (IsBalanced-round (type_text t) (type_text-IsBalanced t h)))).turned
          (record typed { own_text = out.own_text });
  }

  -- `element_expression` and `element_name`.
  chosen_element : (type_string value : Text) → Text
  chosen_element x value =
      codes "(*Si::try_get_ptr<" ++ (x ++ (codes ">(" ++ (value ++ codes "))")))

  chosen_element-IsRoundBalanced :
      (x value : Text)
      → IsRoundBalanced x
      → IsRoundBalanced value
      → IsRoundBalanced (chosen_element x value)
  unfolding chosen_element scan_brackets
  chosen_element-IsRoundBalanced x value k v rest opened =
      rw (append_assoc, append_assoc, append_assoc)
        (k (codes ">(" ++ (value ++ (codes "))" ++ rest))) (b')' ∷ opened)
          ∙ v (codes "))" ++ rest) (b')' ∷ b')' ∷ opened))

  element_name : (index : ℕ) → (value : Text) → Text
  element_name index value =
      codes "std::get<" ++ (lexical_cast index ++ (codes ">(" ++ (value ++ codes ")")))

  element_name-IsRoundBalanced :
      (index : ℕ) (value : Text)
      → IsRoundBalanced value
      → IsRoundBalanced (element_name index value)
  unfolding element_name scan_brackets
  element_name-IsRoundBalanced index value v rest opened =
      rw (append_assoc, append_assoc, append_assoc)
        (plain-IsBalanced false (lexical_cast index) (plain_numbers index)
            (codes ">(" ++ (value ++ (codes ")" ++ rest))) opened
          ∙ v (codes ")" ++ rest) (b')' ∷ opened))

  mutual
    unfolding print_value_serialization print_cases print_elements print_members chosen_element
        element_name scan_brackets

    pub serialization-Turns :
        (t : WireType) (l : ℕ) (sink value error : Text)
        → IsPlainType t
        → IsRoundBalanced sink
        → IsRoundBalanced value
        → IsRoundBalanced error
        → TurnsIn false own
            (print_value_serialization lexical_cast m_indentation t l sink value error)
            []
            []
    serialization-Turns (integer range) l sink value error h s v e =
        integer-Turns lexical_cast m_indentation plain_numbers l sink value range error s v e
    serialization-Turns (variant root) l sink value error h s v e = chain-Turns _ [] [] (
        integer-Turns lexical_cast m_indentation plain_numbers l sink (value ++ codes ".index()")
          (index_range root) error s
          (append-IsBalanced false value (codes ".index()") v (λ rest opened. refl)) e
        &> chain-Turns _ [] [] (
            render-Turns l []
            &> literal _ [] in_one (λ rest opened. refl)
            &> balanced value in_one v
            &> literal _ in_one [] (λ rest opened. refl)
            &> done)
        &> block-Turns l
            (λ in_switch. print_cases lexical_cast m_indentation root 0 in_switch sink value error)
            (codes "\n") (cases-Turns root 0 (suc l) sink value error h s v e) (λ rest opened. refl)
        &> done)
    serialization-Turns (tuple root) l sink value error h s v e =
        elements-Turns root 0 l sink value error h s v e
    serialization-Turns (vector length element) l sink value error h s v e = chain-Turns _ [] [] (
        integer-Turns lexical_cast m_indentation plain_numbers l sink (value ++ codes ".size()")
          length error s (append-IsBalanced false value (codes ".size()") v (λ rest opened. refl)) e
        &> render-Turns l []
        &> literal _ [] in_one (λ rest opened. refl)
        &> balanced value in_one v
        &> literal _ in_one [] (λ rest opened. refl)
        &> render-Turns l []
        &> literal _ [] in_block (λ rest opened. refl)
        &> further_out
            (print_value_serialization lexical_cast m_indentation element (suc l) sink
              (codes "element") error)
            in_block
            (serialization-Turns element (suc l) sink (codes "element") error h s
              (λ rest opened. refl) e)
        &> render-Turns l in_block
        &> literal _ in_block [] (λ rest opened. refl)
        &> done)
    serialization-Turns (utf8 code_units) l sink value error h s v e =
        utf8-Turns lexical_cast m_indentation plain_numbers l sink value code_units error s v e
    serialization-Turns (structure root) l sink value error h s v e =
        members-Turns root l sink value error h s v e

    cases-Turns :
        (ts : Elements) (index l : ℕ) (sink value error : Text)
        → ArePlainTypes ts
        → IsRoundBalanced sink
        → IsRoundBalanced value
        → IsRoundBalanced error
        → TurnsIn false own
            (print_cases lexical_cast m_indentation ts index l sink value error)
            []
            []
    cases-Turns nil index l sink value error h s v e = finished []
    cases-Turns (cons t ts) index l sink value error h s v e = chain-Turns _ [] [] (
        chain-Turns _ [] [] (
          render-Turns l []
          &> literal _ [] [] (λ rest opened. refl)
          &> plain (lexical_cast index) [] (plain_numbers index)
          &> literal _ [] [] (λ rest opened. refl)
          &> done)
        &> with_type-Turns t
            (λ type_string.
              print_value_serialization lexical_cast m_indentation t (suc l) sink
                (chosen_element type_string value) error)
            (λ x k.
              serialization-Turns t (suc l) sink (chosen_element x value) error h.0 s
                (chosen_element-IsRoundBalanced x value k v) e)
            (IsPlainType-HasPlainNames t h.0)
        &> line-Turns (suc l) _ (λ rest opened. refl)
        &> cases-Turns ts (suc index) l sink value error h.1 s v e
        &> done)

    elements-Turns :
        (ts : Elements) (index l : ℕ) (sink value error : Text)
        → ArePlainTypes ts
        → IsRoundBalanced sink
        → IsRoundBalanced value
        → IsRoundBalanced error
        → TurnsIn false own
            (print_elements lexical_cast m_indentation ts index l sink value error)
            []
            []
    elements-Turns nil index l sink value error h s v e = finished []
    elements-Turns (cons t ts) index l sink value error h s v e = chain-Turns _ [] [] (
        serialization-Turns t l sink (element_name index value) error h.0 s
          (element_name-IsRoundBalanced index value v) e
        &> elements-Turns ts (suc index) l sink value error h.1 s v e
        &> done)

    members-Turns :
        (fs : Fields) (l : ℕ) (sink value error : Text)
        → ArePlainMembers fs
        → IsRoundBalanced sink
        → IsRoundBalanced value
        → IsRoundBalanced error
        → TurnsIn false own (print_members lexical_cast m_indentation fs l sink value error) [] []
    members-Turns end l sink value error h s v e = finished []
    members-Turns (field what name rest) l sink value error h s v e = chain-Turns _ [] [] (
        serialization-Turns what l sink (value ++ (codes "." ++ name)) error h.1 s
          (append-IsBalanced false value (codes "." ++ name) v (
            append-IsBalanced false (codes ".") name (λ rest opened. refl)
              (plain-IsBalanced false name h.0)))
          e
        &> members-Turns rest l sink value error h.2 s v e
        &> done)
