-- ===== src/Text/Brackets/Clients.antt =====
-- The brackets of the text of clients.
pub mod Builders
use warpcoil.Base.{ℕ, suc, refl, [], ◌∷◌, Bool, true, false, ◌&&◌, codes, All, length, leb}
use warpcoil.Generated.Interface.{InterfaceDefinition, Method}
use warpcoil.Text.{Text, own}
use warpcoil.Text.Clients.{
  client_method_body, client_method_head, client_methods, client_constructor, client_members,
  generate_serialization_client,
}
use warpcoil.Text.Brackets.{IsPlain, scan_brackets}
use warpcoil.Text.Brackets.Definitions.{IsPlainType}
use warpcoil.Text.Brackets.Methods.{parameters-Turns}
use warpcoil.Text.Brackets.Round.{in_one}
use warpcoil.Text.Brackets.Turns.{
  TurnsIn, done, ◌&>◌, literal, plain, render-Turns, chain-Turns, line-Turns,
}
use warpcoil.Text.Brackets.Throwing.{
  TurnsIf, returns-TurnsIf, nothing-TurnsIf, then-TurnsIf, between-TurnsIf, block-TurnsIf,
  last-TurnsIf, further-TurnsIf,
}
use warpcoil.Text.Brackets.Rounded.{
  ArePlainParameters, ArePlainMethods, ArePlainParameters-HavePlainParameters, round-Turns,
}
use warpcoil.Text.Brackets.Clients.Builders.{builder-TurnsIf, before_builder-Turns}

-- No name of a method has more than 255 bytes.
unfoldable pub have_short_names : InterfaceDefinition → Bool
have_short_names [] = true
have_short_names ((name, method) ∷ methods) = leb (length name) 255 && have_short_names methods

module _ (lexical_cast : ℕ → Text) (m_indentation : ℕ)
    (plain_numbers : (n : ℕ) → All IsPlain (lexical_cast n)) where
  method_body-TurnsIf :
      (name : Text) (method : Method) (l : ℕ)
      → All IsPlain name
      → ArePlainParameters method.parameters
      → IsPlainType method.result
      → TurnsIf
          (leb (length name) 255)
          (client_method_body lexical_cast m_indentation name method l)
          []
          []
  unfolding client_method_body scan_brackets
  method_body-TurnsIf name method l h k m =
      between-TurnsIf (before_builder-Turns lexical_cast m_indentation plain_numbers method l k m)
        (further-TurnsIf in_one (
          block-TurnsIf l _ (codes "")
            (builder-TurnsIf lexical_cast m_indentation plain_numbers name method (suc l) h k)
            (λ rest opened. refl)))
        (chain-Turns _ in_one [] (
          literal _ in_one [] (λ rest opened. refl)
          &> line-Turns l _ (λ rest opened. refl)
          &> done))

  method_head-Turns :
      (name : Text) (method : Method) (l : ℕ)
      → All IsPlain name
      → ArePlainParameters method.parameters
      → TurnsIn false own (client_method_head lexical_cast m_indentation name method l) [] []
  unfolding client_method_head scan_brackets
  method_head-Turns name method l h k = chain-Turns _ [] [] (
      line-Turns l _ (λ rest opened. refl)
      &> line-Turns l _ (λ rest opened. refl)
      &> plain name [] h
      &> literal _ [] in_one (λ rest opened. refl)
      &> round-Turns in_one (
          parameters-Turns lexical_cast m_indentation method.parameters []
            (ArePlainParameters-HavePlainParameters method.parameters k))
      &> literal _ in_one [] (λ rest opened. refl)
      &> done)

  methods-TurnsIf :
      (methods : InterfaceDefinition) (l : ℕ)
      → ArePlainMethods methods
      → TurnsIf
          (have_short_names methods)
          (client_methods lexical_cast m_indentation methods l)
          []
          []
  unfolding client_methods have_short_names scan_brackets
  methods-TurnsIf [] l h = nothing-TurnsIf []
  methods-TurnsIf ((name, method) ∷ methods) l h =
      then-TurnsIf _ (returns-TurnsIf (method_head-Turns name method l h.0 h.1)) (
        then-TurnsIf _
          (block-TurnsIf l _ (codes "\n\n") (method_body-TurnsIf name method (suc l) h.0 h.1 h.2)
            (λ rest opened. refl))
          (last-TurnsIf (methods-TurnsIf methods l h.3)))

  constructor-Turns :
      (name : Text) (l : ℕ)
      → All IsPlain name
      → TurnsIn false own (client_constructor lexical_cast m_indentation name l) [] []
  unfolding client_constructor scan_brackets
  constructor-Turns name l h = chain-Turns _ [] [] (
      line-Turns l _ (λ rest opened. refl)
      &> plain name [] h
      &> literal _ [] [] (λ rest opened. refl)
      &> line-Turns (suc l) _ (λ rest opened. refl)
      &> done)

  members-Turns :
      (indentation : ℕ) (name : Text) (l : ℕ)
      → All IsPlain name
      → TurnsIn false own (client_members lexical_cast m_indentation indentation name l) [] []
  unfolding client_members scan_brackets
  members-Turns indentation name l h = chain-Turns _ [] [] (
      line-Turns indentation _ (λ rest opened. refl)
      &> line-Turns l _ (λ rest opened. refl)
      &> chain-Turns _ [] [] (
          render-Turns l []
          &> literal _ [] in_one (λ rest opened. refl)
          &> plain name in_one h
          &> literal _ in_one [] (λ rest opened. refl)
          &> done)
      &> done)

  pub client-TurnsIf :
      (indentation : ℕ) (name : Text) (definition : InterfaceDefinition)
      → All IsPlain name
      → ArePlainMethods definition
      → TurnsIf
          (have_short_names definition)
          (generate_serialization_client lexical_cast m_indentation indentation name definition)
          []
          []
  unfolding generate_serialization_client scan_brackets
  client-TurnsIf indentation name definition h k =
      then-TurnsIf _
        (returns-TurnsIf (
          chain-Turns _ [] [] (
            line-Turns indentation _ (λ rest opened. refl)
            &> plain name [] h
            &> literal _ [] [] (λ rest opened. refl)
            &> literal _ [] [] (λ rest opened. refl)
            &> done)))
        (last-TurnsIf (
          block-TurnsIf indentation _ (codes ";\n\n")
            (between-TurnsIf (constructor-Turns name (suc indentation) h)
              (methods-TurnsIf definition (suc indentation) k)
              (members-Turns indentation name (suc indentation) h))
            (λ rest opened. refl)))
