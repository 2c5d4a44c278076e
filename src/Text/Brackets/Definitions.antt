-- ===== src/Text/Brackets/Definitions.antt =====
-- The brackets of the definitions of structures, which are printed to the shared sink.
use warpcoil.Base.{
  ℕ, suc, ◌≡◌, refl, sym, ◌∙◌, List, [], ◌∷◌, append-nil, All, codes, Bool, true, false, Bool-cases,
  inl, inr,
}
use warpcoil.Types.Syntax.{
  WireType, Elements, Fields, integer, variant, tuple, vector, utf8, structure, nil, cons, end,
  field,
}
use warpcoil.Text.{Text, Sink, Output, Print, own, shared, append_to, in_order, add_element}
use warpcoil.Text.Names.{generate_name_for_structure, member_names}
use warpcoil.Text.Types.{
  is_found, insert_structure, define_structure, in_namespace, in_namespace_cpp, require_with,
  append_name, specialization, empty_parser, element_parser_types, parser_type_text,
  parse_byte_line, completion_line,
}
use warpcoil.Text.Brackets.{IsBalanced, IsPlain, scan_brackets}
use warpcoil.Text.Brackets.Types.{
  HasPlainNames, HavePlainNames, parser_type_text-IsBalanced, structure-IsBalanced, Opens,
}
use warpcoil.Text.Brackets.Turns.{
  Turns, done, ◌&>◌, finished, literal, further_out, render-Turns, chain-Turns, block-Turns,
  line-Turns,
}

-- No name of a member of a structure in the type holds a bracket, at any depth.
abbrev mutual
  pub IsPlainType : WireType → Type 0
  IsPlainType (integer range) = Unit {0}
  IsPlainType (variant root) = ArePlainTypes root
  IsPlainType (tuple root) = ArePlainTypes root
  IsPlainType (vector length element) = IsPlainType element
  IsPlainType (utf8 code_units) = Unit {0}
  IsPlainType (structure root) = ArePlainMembers root

  pub ArePlainTypes : Elements → Type 0
  ArePlainTypes nil = Unit {0}
  ArePlainTypes (cons t ts) = IsPlainType t × ArePlainTypes ts

  pub ArePlainMembers : Fields → Type 0
  ArePlainMembers end = Unit {0}
  ArePlainMembers (field what name rest) =
      All IsPlain name × IsPlainType what × ArePlainMembers rest

pub ArePlainMembers-names : (s : Fields) → ArePlainMembers s → All (All IsPlain) (member_names s)
ArePlainMembers-names end h = tt
ArePlainMembers-names (field what name rest) h = (h.0, ArePlainMembers-names rest h.2)

mutual
  pub IsPlainType-HasPlainNames : (t : WireType) → IsPlainType t → HasPlainNames t
  IsPlainType-HasPlainNames (integer range) h = tt
  IsPlainType-HasPlainNames (variant root) h = ArePlainTypes-HavePlainNames root h
  IsPlainType-HasPlainNames (tuple root) h = ArePlainTypes-HavePlainNames root h
  IsPlainType-HasPlainNames (vector length element) h = IsPlainType-HasPlainNames element h
  IsPlainType-HasPlainNames (utf8 code_units) h = tt
  IsPlainType-HasPlainNames (structure root) h = ArePlainMembers-names root h

  ArePlainTypes-HavePlainNames : (ts : Elements) → ArePlainTypes ts → HavePlainNames ts
  ArePlainTypes-HavePlainNames nil h = tt
  ArePlainTypes-HavePlainNames (cons t ts) h =
      (IsPlainType-HasPlainNames t h.0, ArePlainTypes-HavePlainNames ts h.1)

-- What the shared sink sees of a balanced text that is printed to any sink.
pub seen_text : (into : Sink) (x : Text) → IsBalanced x → Turns shared (append_to into x) [] []
seen_text own x h = record {
  turned = λ out. ([], sym (append-nil out.shared_text), λ rest opened. refl);
}
seen_text shared x h = literal x [] [] h

pub in_angles :
    (into : Sink) (opening : Text) (p : Print)
    → Opens opening
    → Turns shared p [] []
    → Turns shared (in_order (append_to into opening ∷ p ∷ append_to into (codes ">") ∷ [])) [] []
unfolding scan_brackets
in_angles own opening p o h = chain-Turns _ [] [] (unseen &> h &> unseen &> done)
  where
    unseen : {x : Text} → Turns shared (append_to own x) [] []
    unseen = record { turned = λ out. ([], sym (append-nil out.shared_text), λ rest opened. refl) }
in_angles shared opening p o h =
    let angle = b'>' ∷ [] in
    chain-Turns _ [] [] (
      literal opening [] angle o
      &> further_out p angle h
      &> literal _ angle [] (λ rest opened. refl)
      &> done)

pub seen_comma : (into : Sink) (first : Bool) → Turns shared (add_element into first) [] []
unfolding scan_brackets
seen_comma into true = record {
  turned = λ out. ([], sym (append-nil out.shared_text), λ rest opened. refl);
}
seen_comma into false = seen_text into (codes ", ") (λ rest opened. refl)

module _ (lexical_cast : ℕ → Text) (m_indentation : ℕ) where
  name-Turns :
      (s : Fields) (a : List ℕ)
      → ArePlainMembers s
      → Turns shared (append_name lexical_cast m_indentation s) a a
  unfolding append_name
  name-Turns s a h = further_out (append_to shared (generate_name_for_structure s)) a (
      seen_text shared (generate_name_for_structure s)
        (structure-IsBalanced s (ArePlainMembers-names s h)))

  element_parsers-Turns :
      (s : Fields) (a : List ℕ)
      → ArePlainMembers s
      → Turns shared (in_order (element_parser_types lexical_cast m_indentation s)) a a
  unfolding scan_brackets
  element_parsers-Turns end a h = finished a
  element_parsers-Turns (field what name rest) a h = chain-Turns _ a a (
      literal _ a a (λ tail opened. refl)
      &> further_out (append_to shared (parser_type_text what)) a (
          seen_text shared (parser_type_text what)
            (parser_type_text-IsBalanced what (IsPlainType-HasPlainNames what h.1)))
      &> element_parsers-Turns rest a h.2
      &> done)

  empty_parser-Turns : (l : ℕ) → Turns shared (empty_parser lexical_cast m_indentation end l) [] []
  unfolding empty_parser scan_brackets
  empty_parser-Turns l = chain-Turns _ [] [] (
      line-Turns l _ (λ rest opened. refl)
      &> name-Turns end [] tt
      &> literal _ [] [] (λ rest opened. refl)
      &> line-Turns l parse_byte_line (λ rest opened. refl)
      &> line-Turns l completion_line (λ rest opened. refl)
      &> done)

  -- What closes the `<` behind `structure_parser`.
  specialization-Turns :
      (s : Fields) (getters : ℕ → Print) (l : ℕ)
      → ArePlainMembers s
      → ((n : ℕ) → Turns shared (getters n) [] [])
      → Turns shared (specialization lexical_cast m_indentation s getters l) (b'>' ∷ []) []
  unfolding specialization scan_brackets
  specialization-Turns end getters l h g = chain-Turns _ (b'>' ∷ []) [] (
      literal _ (b'>' ∷ []) [] (λ rest opened. refl)
      &> block-Turns l (empty_parser lexical_cast m_indentation end) (codes ";\n")
          (empty_parser-Turns (suc l)) (λ rest opened. refl)
      &> done)
  specialization-Turns (field what name rest) getters l h g =
      let s = field what name rest in
      let one = b'>' ∷ [] in
      let two = b'>' ∷ b'>' ∷ [] in
      chain-Turns _ one [] (
        literal _ one two (λ tail opened. refl)
        &> name-Turns s two h
        &> literal _ two one (λ tail opened. refl)
        &> name-Turns s one h
        &> element_parsers-Turns s one h
        &> literal _ one [] (λ tail opened. refl)
        &> block-Turns l getters (codes ";\n") (g (suc l)) (λ tail opened. refl)
        &> done)

  namespace_cpp-Turns :
      (s : Fields) (getters : ℕ → Print) (l : ℕ)
      → ArePlainMembers s
      → ((n : ℕ) → Turns shared (getters n) [] [])
      → Turns shared (in_namespace_cpp lexical_cast m_indentation s getters l) [] []
  unfolding in_namespace_cpp scan_brackets
  namespace_cpp-Turns s getters l h g =
      let angle = b'>' ∷ [] in
      chain-Turns _ [] [] (
        render-Turns l []
        &> literal _ [] angle (λ rest opened. refl)
        &> name-Turns s angle h
        &> specialization-Turns s getters l h g
        &> done)

  namespace-Turns :
      (s : Fields) (getters : ℕ → Print) (l : ℕ)
      → ArePlainMembers s
      → ((n : ℕ) → Turns shared (getters n) [] [])
      → Turns shared (in_namespace lexical_cast m_indentation s getters l) [] []
  unfolding in_namespace scan_brackets
  namespace-Turns s getters l h g = chain-Turns _ [] [] (
      line-Turns m_indentation _ (λ rest opened. refl)
      &> block-Turns l (in_namespace_cpp lexical_cast m_indentation s getters) (codes "\n")
          (namespace_cpp-Turns s getters (suc l) h g) (λ rest opened. refl)
      &> done)

  define-Turns :
      (s : Fields) (members getters : ℕ → Print)
      → ArePlainMembers s
      → ((n : ℕ) → Turns shared (members n) [] [])
      → ((n : ℕ) → Turns shared (getters n) [] [])
      → Turns shared (define_structure lexical_cast m_indentation s members getters) [] []
  unfolding define_structure scan_brackets
  define-Turns s members getters h f g = chain-Turns _ [] [] (
      line-Turns m_indentation _ (λ rest opened. refl)
      &> name-Turns s [] h
      &> literal _ [] [] (λ rest opened. refl)
      &> block-Turns m_indentation members (codes ";\n") (f (suc m_indentation))
          (λ rest opened. refl)
      &> line-Turns m_indentation _ (λ rest opened. refl)
      &> block-Turns m_indentation (in_namespace lexical_cast m_indentation s getters) (codes "\n")
          (namespace-Turns s getters (suc m_indentation) h g) (λ rest opened. refl)
      &> done)

  insert_keeps :
      (s : Fields) (out : Output) → (insert_structure s out).shared_text ≡ out.shared_text
  unfolding insert_structure
  insert_keeps s out = elim (Bool-cases (is_found s out.generated_structures)) [
    | inl e ↦ rw e refl
    | inr e ↦ rw e refl
  ]

  pub require-Turns :
      (s : Fields) (members getters : ℕ → Print)
      → ArePlainMembers s
      → ((n : ℕ) → Turns shared (members n) [] [])
      → ((n : ℕ) → Turns shared (getters n) [] [])
      → Turns shared (require_with lexical_cast m_indentation s members getters) [] []
  unfolding require_with
  require-Turns s members getters h f g = record {
    turned = λ out. elim (Bool-cases (is_found s out.generated_structures)) [
      | inl e ↦ rw e ([], sym (append-nil out.shared_text), λ rest opened. refl)
      | inr e ↦
          let (x, same, balanced) = (define-Turns s members getters h f g).turned out in
          rw e (
            x,
            insert_keeps s (define_structure lexical_cast m_indentation s members getters out)
                ∙ same,
            balanced,
          )
    ];
  }
