-- ===== src/Text/Brackets/Clients/Builders.antt =====
-- The brackets of the text of the requests of clients.
use warpcoil.Base.{
  ℕ, ◌≡◌, refl, sym, ap, append-nil, List, [], ◌∷◌, ◌++◌, Bool, true, false, none, some, codes, All,
  length, leb, if◌then◌else◌,
}
use warpcoil.Types.Syntax.{Parameter}
use warpcoil.Generated.Interface.{Method}
use warpcoil.Generated.Server.{TypeEmptiness, empty, non_empty}
use warpcoil.Text.{Text, Output, own}
use warpcoil.Text.Types.{parser_type_text}
use warpcoil.Text.Clients.{
  parameters_emptiness, check_name, error_handling, ignored_parameters, ignore_empty,
  serialized_parameters, request_text, request_builder, before_builder,
}
use warpcoil.Text.Brackets.{IsPlain, scan_brackets, plain-IsBalanced}
use warpcoil.Text.Brackets.Definitions.{IsPlainType}
use warpcoil.Text.Brackets.Round.{in_one, in_three}
use warpcoil.Text.Brackets.Serialization.{serialization-Turns}
use warpcoil.Text.Brackets.Turns.{
  TurnsIn, done, ◌&>◌, finished, literal, plain, balanced, render-Turns, chain-Turns, line-Turns,
}
use warpcoil.Text.Brackets.Throwing.{text_if, text_after, TurnsIf, between-TurnsIf}
use warpcoil.Text.Brackets.Rounded.{ArePlainParameters, round_type, parser_type-round}

checked_text :
    (ok : Bool) (out : Output)
    → text_after (if ok then some out else none) ≡ text_if ok (out.own_text ++ [])
checked_text true out = ap some (sym (append-nil out.own_text))
checked_text false out = refl

check-TurnsIf : (name : Text) (a : List ℕ) → TurnsIf (leb (length name) 255) (check_name name) a a
unfolding check_name
check-TurnsIf name a = record {
  turned = λ out. ([], checked_text (leb (length name) 255) out, λ rest opened. refl);
}

module _ (lexical_cast : ℕ → Text) (m_indentation : ℕ)
    (plain_numbers : (n : ℕ) → All IsPlain (lexical_cast n)) where
  ignored-Turns :
      (ps : List Parameter) (l : ℕ)
      → ArePlainParameters ps
      → TurnsIn false own (ignored_parameters lexical_cast m_indentation ps l) [] []
  unfolding ignored_parameters scan_brackets
  ignored-Turns [] l h = finished []
  ignored-Turns (p ∷ ps) l h = chain-Turns _ [] [] (
      chain-Turns _ [] [] (
        render-Turns l []
        &> literal _ [] in_one (λ rest opened. refl)
        &> plain p.name in_one h.0
        &> literal _ in_one [] (λ rest opened. refl)
        &> done)
      &> ignored-Turns ps l h.2
      &> done)

  ignore_empty-Turns :
      (emptiness : TypeEmptiness) (ps : List Parameter) (l : ℕ)
      → ArePlainParameters ps
      → TurnsIn false own (ignore_empty lexical_cast m_indentation emptiness ps l) [] []
  unfolding ignore_empty
  ignore_empty-Turns empty ps l h = ignored-Turns ps l h
  ignore_empty-Turns non_empty ps l h = finished []

  serialized-Turns :
      (ps : List Parameter) (l : ℕ)
      → ArePlainParameters ps
      → TurnsIn false own (serialized_parameters lexical_cast m_indentation ps l) [] []
  unfolding serialized_parameters scan_brackets
  serialized-Turns [] l h = finished []
  serialized-Turns (p ∷ ps) l h = chain-Turns _ [] [] (
      serialization-Turns lexical_cast m_indentation plain_numbers p.type_ l
        (codes "request_writer") p.name error_handling h.1 (λ rest opened. refl)
        (plain-IsBalanced false p.name h.0) (λ rest opened. refl)
      &> serialized-Turns ps l h.2
      &> done)

  pub builder-TurnsIf :
      (name : Text) (method : Method) (l : ℕ)
      → All IsPlain name
      → ArePlainParameters method.parameters
      → TurnsIf
          (leb (length name) 255)
          (request_builder lexical_cast m_indentation name method l)
          []
          []
  unfolding request_builder request_text scan_brackets
  builder-TurnsIf name method l h k =
      between-TurnsIf
        (chain-Turns _ [] in_one
          (render-Turns l [] &> literal _ [] in_one (λ rest opened. refl) &> done))
        (check-TurnsIf name in_one)
        (chain-Turns _ in_one [] (
          plain (lexical_cast (length name)) in_one (plain_numbers (length name))
          &> literal _ in_one [] (λ rest opened. refl)
          &> chain-Turns _ [] in_three
              (render-Turns l [] &> literal _ [] in_three (λ rest opened. refl) &> done)
          &> plain name in_three h
          &> literal _ in_three [] (λ rest opened. refl)
          &> serialized-Turns method.parameters l k
          &> line-Turns l _ (λ rest opened. refl)
          &> done))

  pub before_builder-Turns :
      (method : Method) (l : ℕ)
      → ArePlainParameters method.parameters
      → IsPlainType method.result
      → TurnsIn false own (before_builder lexical_cast m_indentation method l) [] in_one
  unfolding before_builder scan_brackets
  before_builder-Turns method l h k = chain-Turns _ [] in_one (
      ignore_empty-Turns (parameters_emptiness method.parameters) method.parameters l h
      &> chain-Turns _ [] in_one
          (render-Turns l [] &> literal _ [] in_one (λ rest opened. refl) &> done)
      &> round_type lexical_cast m_indentation method.result in_one k
      &> literal _ in_one [] (λ rest opened. refl)
      &> line-Turns l _ (λ rest opened. refl)
      &> line-Turns l _ (λ rest opened. refl)
      &> line-Turns l _ (λ rest opened. refl)
      &> balanced (parser_type_text method.result) []
          (parser_type-round lexical_cast m_indentation method.result k)
      &> literal _ [] in_one (λ rest opened. refl)
      &> done)
