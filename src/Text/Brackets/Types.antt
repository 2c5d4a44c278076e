-- ===== src/Text/Brackets/Types.antt =====
-- The brackets of the text of types.
use warpcoil.Base.{
  ℕ, ◌≡◌, refl, ◌∙◌, List, ◌∷◌, ◌++◌, append_assoc, Bool, true, false, All, codes, if-either, leb,
}
use warpcoil.Types.Syntax.{
  Integer, WireType, Elements, Fields, integer, variant, tuple, vector, utf8, structure, nil, cons,
  end, field,
}
use warpcoil.Text.{Text, Output, own}
use warpcoil.Text.Names.{generate_name_for_structure, append_names, member_names}
use warpcoil.Text.Types.{
  integer_parser_type, uint_cpp_type, parser_bits, parser_type_text, parser_types_text, comma,
  generate_type,
}
use warpcoil.Text.Structures.Own.{type_text, type_texts, own-type_text}
use warpcoil.Text.Brackets.{IsBalanced, IsPlain, scan_brackets, plain-IsBalanced, append-IsBalanced}

-- The names of the structures that are printed hold no bracket.
abbrev mutual
  pub HasPlainNames : WireType → Type 0
  HasPlainNames (integer range) = Unit {0}
  HasPlainNames (variant root) = HavePlainNames root
  HasPlainNames (tuple root) = HavePlainNames root
  HasPlainNames (vector length element) = HasPlainNames element
  HasPlainNames (utf8 code_units) = Unit {0}
  HasPlainNames (structure root) = All (All IsPlain) (member_names root)

  pub HavePlainNames : Elements → Type 0
  HavePlainNames nil = Unit {0}
  HavePlainNames (cons t ts) = HasPlainNames t × HavePlainNames ts

-- A text that opens one `<`.
abbrev pub Opens : Text → Type 0
Opens x =
    (rest : Text) (opened : List ℕ)
    → scan_brackets true (x ++ rest) opened ≡ scan_brackets true rest (b'>' ∷ opened)

enclosed-IsBalanced :
    (opening x : Text) → Opens opening → IsBalanced x → IsBalanced (opening ++ x ++ codes ">")
unfolding scan_brackets
enclosed-IsBalanced opening x o h rest opened =
    rw (append_assoc, append_assoc)
      (o (x ++ (codes ">" ++ rest)) opened ∙ h (codes ">" ++ rest) (b'>' ∷ opened))

name-IsBalanced : (s : Fields) → All (All IsPlain) (member_names s) → IsBalanced (append_names s)
unfolding append_names scan_brackets
name-IsBalanced end h rest opened = refl
name-IsBalanced (field what name fields) h rest opened =
    append-IsBalanced true name (append_names fields) (plain-IsBalanced true name h.0)
      (name-IsBalanced fields h.1) rest opened

pub structure-IsBalanced :
    (s : Fields) → All (All IsPlain) (member_names s) → IsBalanced (generate_name_for_structure s)
unfolding generate_name_for_structure scan_brackets
structure-IsBalanced s h rest opened = name-IsBalanced s h rest opened

pub uint-IsBalanced : (range : Integer) → IsBalanced (uint_cpp_type range)
unfolding uint_cpp_type scan_brackets
uint-IsBalanced range =
    if-either IsBalanced (leb range.maximum 0xff) (λ rest opened. refl)
      (if-either IsBalanced (leb range.maximum 0xffff) (λ rest opened. refl)
        (if-either IsBalanced (leb range.maximum 0xffffffff) (λ rest opened. refl)
          (λ rest opened. refl)))

bits-IsBalanced : (range : Integer) → IsBalanced (parser_bits range)
unfolding parser_bits scan_brackets
bits-IsBalanced range =
    if-either IsBalanced (leb range.maximum 0xff) (λ rest opened. refl)
      (if-either IsBalanced (leb range.maximum 0xffff) (λ rest opened. refl)
        (if-either IsBalanced (leb range.maximum 0xffffffff) (λ rest opened. refl)
          (λ rest opened. refl)))

pub comma-IsBalanced : (first : Bool) → IsBalanced (comma first)
unfolding scan_brackets
comma-IsBalanced true rest opened = refl
comma-IsBalanced false rest opened = refl

mutual
  unfolding type_text type_texts scan_brackets

  pub type_text-IsBalanced : (t : WireType) → HasPlainNames t → IsBalanced (type_text t)
  type_text-IsBalanced (integer range) h = uint-IsBalanced range
  type_text-IsBalanced (variant root) h =
      enclosed-IsBalanced (codes "Si::variant<") (type_texts true root) (λ rest opened. refl)
        (type_texts-IsBalanced true root h)
  type_text-IsBalanced (tuple root) h =
      enclosed-IsBalanced (codes "std::tuple<") (type_texts true root) (λ rest opened. refl)
        (type_texts-IsBalanced true root h)
  type_text-IsBalanced (vector length element) h =
      enclosed-IsBalanced (codes "std::vector<") (type_text element) (λ rest opened. refl)
        (type_text-IsBalanced element h)
  type_text-IsBalanced (utf8 code_units) h = λ rest opened. refl
  type_text-IsBalanced (structure root) h = structure-IsBalanced root h

  type_texts-IsBalanced :
      (first : Bool) (ts : Elements) → HavePlainNames ts → IsBalanced (type_texts first ts)
  type_texts-IsBalanced first nil h = λ rest opened. refl
  type_texts-IsBalanced first (cons t ts) h =
      append-IsBalanced true (comma first) (type_text t ++ type_texts false ts)
        (comma-IsBalanced first)
        (append-IsBalanced true (type_text t) (type_texts false ts) (type_text-IsBalanced t h.0)
          (type_texts-IsBalanced false ts h.1))

number_parser-IsBalanced : (range : Integer) → IsBalanced (integer_parser_type range)
unfolding scan_brackets
number_parser-IsBalanced range rest opened =
    rw append_assoc (bits-IsBalanced range (codes "_t>" ++ rest) (b'>' ∷ opened))

mutual
  unfolding parser_type_text parser_types_text scan_brackets

  pub parser_type_text-IsBalanced :
      (t : WireType) → HasPlainNames t → IsBalanced (parser_type_text t)
  parser_type_text-IsBalanced (integer range) h = number_parser-IsBalanced range
  parser_type_text-IsBalanced (variant root) h =
      enclosed-IsBalanced (codes "warpcoil::cpp::variant_parser<") (parser_types_text true root)
        (λ rest opened. refl) (parser_types_text-IsBalanced true root h)
  parser_type_text-IsBalanced (tuple root) h =
      enclosed-IsBalanced (codes "warpcoil::cpp::tuple_parser<") (parser_types_text true root)
        (λ rest opened. refl) (parser_types_text-IsBalanced true root h)
  parser_type_text-IsBalanced (vector length element) h =
      enclosed-IsBalanced (codes "warpcoil::cpp::vector_parser<")
        (integer_parser_type length ++ (codes ", " ++ parser_type_text element))
        (λ rest opened. refl)
        (append-IsBalanced true (integer_parser_type length)
          (codes ", " ++ parser_type_text element) (number_parser-IsBalanced length)
          (parser_type_text-IsBalanced element h))
  parser_type_text-IsBalanced (utf8 code_units) h =
      enclosed-IsBalanced (codes "warpcoil::cpp::utf8_parser<") (integer_parser_type code_units)
        (λ rest opened. refl) (number_parser-IsBalanced code_units)
  parser_type_text-IsBalanced (structure root) h =
      enclosed-IsBalanced (codes "warpcoil::cpp::structure_parser<")
        (generate_name_for_structure root) (λ rest opened. refl) (structure-IsBalanced root h)

  parser_types_text-IsBalanced :
      (first : Bool) (ts : Elements) → HavePlainNames ts → IsBalanced (parser_types_text first ts)
  parser_types_text-IsBalanced first nil h = λ rest opened. refl
  parser_types_text-IsBalanced first (cons t ts) h =
      append-IsBalanced true (comma first) (parser_type_text t ++ parser_types_text false ts)
        (comma-IsBalanced first)
        (append-IsBalanced true (parser_type_text t) (parser_types_text false ts)
          (parser_type_text-IsBalanced t h.0) (parser_types_text-IsBalanced false ts h.1))

-- The text that the generators print for a type and for its parser closes each bracket in the right order,
-- if no name of a structure in it holds one.
pub type_and_parser-IsBalanced :
    (lexical_cast : ℕ → Text) (m_indentation : ℕ) (t : WireType) (out : Output)
    → HasPlainNames t
    → ((text : Text) × ((generate_type lexical_cast m_indentation own t out).own_text
          ≡ out.own_text ++ text)
        × IsBalanced text)
      × IsBalanced (parser_type_text t)
type_and_parser-IsBalanced lexical_cast m_indentation t out h = (
  (type_text t, own-type_text lexical_cast m_indentation t out, type_text-IsBalanced t h),
  parser_type_text-IsBalanced t h,
)
