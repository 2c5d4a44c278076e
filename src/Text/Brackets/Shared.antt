-- ===== src/Text/Brackets/Shared.antt =====
-- The brackets of all that is printed to the shared sink.
use warpcoil.Base.{ℕ, suc, ◌≡◌, refl, [], ◌∷◌, ◌++◌, All, codes, Bool, true, false}
use warpcoil.Types.Syntax.{
  WireType, Elements, Fields, integer, variant, tuple, vector, utf8, structure, nil, cons, end,
  field,
}
use warpcoil.Text.{Text, Sink, Output, Print, shared, append_to, start_line}
use warpcoil.Text.Names.{generate_name_for_structure}
use warpcoil.Text.Types.{
  generate_type, generate_types, generate_members, generate_getters, getter_end, uint_cpp_type,
}
use warpcoil.Text.Brackets.{IsBalanced, IsPlain, scan_brackets}
use warpcoil.Text.Brackets.Types.{structure-IsBalanced, uint-IsBalanced}
use warpcoil.Text.Brackets.Turns.{
  Turns, done, ◌&>◌, finished, literal, plain, further_out, render-Turns, chain-Turns, block-Turns,
  line-Turns,
}
use warpcoil.Text.Brackets.Definitions.{
  IsPlainType, ArePlainTypes, ArePlainMembers, ArePlainMembers-names, seen_text, in_angles,
  seen_comma, require-Turns,
}

module _ (lexical_cast : ℕ → Text) (m_indentation : ℕ)
    (plain_numbers : (n : ℕ) → All IsPlain (lexical_cast n)) where
  getter_end-Turns :
      (required : Text) (index : ℕ) (name : Text) (l : ℕ)
      → IsBalanced required
      → All IsPlain name
      → Turns shared (getter_end lexical_cast m_indentation required index name l) [] []
  unfolding getter_end scan_brackets
  getter_end-Turns required index name l h k =
      let paren = b')' ∷ [] in
      let both = b'>' ∷ b')' ∷ [] in
      let line : ℕ → Print =
        λ in_get. start_line shared in_get (codes "return result." ∷ name ∷ codes ";\n" ∷ []) in
      chain-Turns _ [] [] (
        literal _ [] paren (λ rest opened. refl)
        &> further_out (append_to shared required) paren (seen_text shared required h)
        &> literal _ paren both (λ rest opened. refl)
        &> plain (lexical_cast index) both (plain_numbers index)
        &> literal _ both [] (λ rest opened. refl)
        &> block-Turns l line (codes "\n")
            (chain-Turns _ [] [] (
              render-Turns (suc l) []
              &> literal _ [] [] (λ rest opened. refl)
              &> plain name [] k
              &> literal _ [] [] (λ rest opened. refl)
              &> done))
            (λ rest opened. refl)
        &> done)

  mutual
    unfolding generate_type generate_types generate_members generate_getters scan_brackets

    type-Turns :
        (into : Sink) (t : WireType)
        → IsPlainType t
        → Turns shared (generate_type lexical_cast m_indentation into t) [] []
    type-Turns into (integer range) h = seen_text into (uint_cpp_type range) (uint-IsBalanced range)
    type-Turns into (variant root) h =
        in_angles into (codes "Si::variant<")
          (generate_types lexical_cast m_indentation into true root) (λ rest opened. refl)
          (types-Turns into true root h)
    type-Turns into (tuple root) h =
        in_angles into (codes "std::tuple<")
          (generate_types lexical_cast m_indentation into true root) (λ rest opened. refl)
          (types-Turns into true root h)
    type-Turns into (vector length element) h =
        in_angles into (codes "std::vector<")
          (generate_type lexical_cast m_indentation into element) (λ rest opened. refl)
          (type-Turns into element h)
    type-Turns into (utf8 code_units) h = seen_text into (codes "std::string") (λ rest opened. refl)
    type-Turns into (structure root) h = chain-Turns _ [] [] (
        require-Turns lexical_cast m_indentation root
          (generate_members lexical_cast m_indentation root)
          (generate_getters lexical_cast m_indentation (generate_name_for_structure root) 0 root) h
          (members-Turns root h)
          (getters-Turns root (generate_name_for_structure root) 0
            (structure-IsBalanced root (ArePlainMembers-names root h)) h)
        &> seen_text into (generate_name_for_structure root)
            (structure-IsBalanced root (ArePlainMembers-names root h))
        &> done)

    types-Turns :
        (into : Sink) (first : Bool) (ts : Elements)
        → ArePlainTypes ts
        → Turns shared (generate_types lexical_cast m_indentation into first ts) [] []
    types-Turns into first nil h = finished []
    types-Turns into first (cons t ts) h =
        chain-Turns _ [] []
          (seen_comma into first &> type-Turns into t h.0 &> types-Turns into false ts h.1 &> done)

    members-Turns :
        (s : Fields)
        → ArePlainMembers s
        → (l : ℕ) → Turns shared (generate_members lexical_cast m_indentation s l) [] []
    members-Turns end h l = finished []
    members-Turns (field what name rest) h l = chain-Turns _ [] [] (
        line-Turns l _ (λ tail opened. refl)
        &> type-Turns shared what h.1
        &> literal _ [] [] (λ tail opened. refl)
        &> plain name [] h.0
        &> literal _ [] [] (λ tail opened. refl)
        &> members-Turns rest h.2 l
        &> done)

    getters-Turns :
        (s : Fields) (required : Text) (index : ℕ)
        → IsBalanced required
        → ArePlainMembers s
        → (l : ℕ)
        → Turns shared (generate_getters lexical_cast m_indentation required index s l) [] []
    getters-Turns end required index k h l = finished []
    getters-Turns (field what name rest) required index k h l = chain-Turns _ [] [] (
        line-Turns l _ (λ tail opened. refl)
        &> type-Turns shared what h.1
        &> getter_end-Turns required index name l k h.0
        &> getters-Turns rest required (suc index) k h.2 l
        &> done)

  -- If no member of a structure in a type, at any depth, has a name with a bracket, and the text
  -- of a number has none, then what generate_type prints to the shared sink, the definitions of
  -- the structures and their parsers, is a text in which each of the brackets <, ( and { is
  -- closed, in the right order, whichever structures were generated before.
  pub generate_type-IsBalanced :
      (into : Sink) (t : WireType) (out : Output)
      → IsPlainType t
      → (x : Text) × ((generate_type lexical_cast m_indentation into t out).shared_text
          ≡ out.shared_text ++ x)
        × IsBalanced x
  generate_type-IsBalanced into t out h = (type-Turns into t h).turned out
