-- ===== src/Text/Brackets/Methods.antt =====
-- The brackets of the text of methods and their parameters.
use warpcoil.Base.{ℕ, refl, List, [], ◌∷◌, ◌++◌, All}
use warpcoil.Types.Syntax.{Parameter, WireType}
use warpcoil.Generated.Interface.{InterfaceDefinition, Method}
use warpcoil.Text.{Text, own}
use warpcoil.Text.Types.{generate_type}
use warpcoil.Text.Interfaces.{print_parameters, method_head}
use warpcoil.Text.Structures.Own.{type_text, own-type_text}
use warpcoil.Text.Brackets.{IsPlain, scan_brackets}
use warpcoil.Text.Brackets.Types.{HasPlainNames, type_text-IsBalanced}
use warpcoil.Text.Brackets.Turns.{Turns, done, ◌&>◌, finished, literal, plain, chain-Turns}

-- The names of a method, its parameters and their types hold no bracket.
abbrev pub HavePlainParameters : List Parameter → Type 0
HavePlainParameters [] = Unit {0}
HavePlainParameters (p ∷ ps) = All IsPlain p.name × HasPlainNames p.type_ × HavePlainParameters ps

abbrev pub IsPlainInterface : InterfaceDefinition → Type 0
IsPlainInterface [] = Unit {0}
IsPlainInterface ((name, method) ∷ methods) =
    All IsPlain name
    × HavePlainParameters method.parameters
    × HasPlainNames method.result
    × IsPlainInterface methods

-- Behind the type of the result, `(`, `<`, `(` and `<` are open.
abbrev pub in_result : List ℕ
in_result = b'>' ∷ b')' ∷ b'>' ∷ b')' ∷ []

module _ (lexical_cast : ℕ → Text) (m_indentation : ℕ) where
  pub type-Turns :
      (t : WireType) (a : List ℕ)
      → HasPlainNames t
      → Turns own (generate_type lexical_cast m_indentation own t) a a
  type-Turns t a h = record {
    turned = λ out. (
      type_text t,
      own-type_text lexical_cast m_indentation t out,
      λ rest opened. type_text-IsBalanced t h rest (a ++ opened),
    );
  }

  pub parameters-Turns :
      (ps : List Parameter) (a : List ℕ)
      → HavePlainParameters ps
      → Turns own (print_parameters lexical_cast m_indentation ps) a a
  unfolding print_parameters scan_brackets
  parameters-Turns [] a h = finished a
  parameters-Turns (p ∷ ps) a h = chain-Turns _ a a (
      type-Turns p.type_ a h.1
      &> literal _ a a (λ rest opened. refl)
      &> plain p.name a h.0
      &> literal _ a a (λ rest opened. refl)
      &> parameters-Turns ps a h.2
      &> done)

  pub method_head-Turns :
      (name : Text) (method : Method)
      → All IsPlain name
      → HavePlainParameters method.parameters
      → HasPlainNames method.result
      → Turns own (method_head lexical_cast m_indentation name method) [] in_result
  unfolding method_head scan_brackets
  method_head-Turns name method h k l =
      let opened_once = b')' ∷ [] in
      chain-Turns _ [] in_result (
        plain name [] h
        &> literal _ [] opened_once (λ rest opened. refl)
        &> parameters-Turns method.parameters opened_once k
        &> literal _ opened_once in_result (λ rest opened. refl)
        &> type-Turns method.result in_result l
        &> done)
