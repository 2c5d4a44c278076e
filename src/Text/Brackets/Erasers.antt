-- ===== src/Text/Brackets/Erasers.antt =====
-- The brackets of the text of type erasers.
use warpcoil.Base.{ℕ, suc, refl, List, [], ◌∷◌, All, codes}
use warpcoil.Types.Syntax.{Parameter}
use warpcoil.Generated.Interface.{InterfaceDefinition, Method}
use warpcoil.Text.{Text, Print, own, append_to, in_order, start_line}
use warpcoil.Text.Interfaces.{
  moved_parameters, forwarded_call, erased_methods, generate_type_eraser,
}
use warpcoil.Text.Brackets.{IsPlain, scan_brackets}
use warpcoil.Text.Brackets.Turns.{
  Turns, done, ◌&>◌, finished, literal, plain, render-Turns, chain-Turns, block-Turns, line-Turns,
}
use warpcoil.Text.Brackets.Methods.{
  HavePlainParameters, IsPlainInterface, method_head-Turns, in_result,
}

module _ (lexical_cast : ℕ → Text) (m_indentation : ℕ) where
  moved_parameters-Turns :
      (ps : List Parameter) (a : List ℕ)
      → HavePlainParameters ps
      → Turns own (moved_parameters lexical_cast m_indentation ps) a a
  unfolding moved_parameters scan_brackets
  moved_parameters-Turns [] a h = finished a
  moved_parameters-Turns (p ∷ ps) a h = chain-Turns _ a a (
      literal _ a (b')' ∷ a) (λ rest opened. refl)
      &> plain p.name (b')' ∷ a) h.0
      &> literal _ (b')' ∷ a) a (λ rest opened. refl)
      &> moved_parameters-Turns ps a h.2
      &> done)

  forwarded_call-Turns :
      (name : Text) (method : Method) (l : ℕ)
      → All IsPlain name
      → HavePlainParameters method.parameters
      → Turns own (forwarded_call lexical_cast m_indentation name method l) [] []
  unfolding forwarded_call scan_brackets
  forwarded_call-Turns name method l h k =
      let opened_once = b')' ∷ [] in
      chain-Turns _ [] [] (
        render-Turns l []
        &> literal _ [] [] (λ rest opened. refl)
        &> plain name [] h
        &> literal _ [] opened_once (λ rest opened. refl)
        &> moved_parameters-Turns method.parameters opened_once k
        &> literal _ opened_once [] (λ rest opened. refl)
        &> done)

  erased_methods-Turns :
      (methods : InterfaceDefinition) (l : ℕ)
      → IsPlainInterface methods
      → Turns own (erased_methods lexical_cast m_indentation methods l) [] []
  unfolding erased_methods scan_brackets
  erased_methods-Turns [] l h = finished []
  erased_methods-Turns ((name, method) ∷ methods) l h = chain-Turns _ [] [] (
      render-Turns l []
      &> literal _ [] [] (λ rest opened. refl)
      &> method_head-Turns lexical_cast m_indentation name method h.0 h.1 h.2
      &> literal _ in_result [] (λ rest opened. refl)
      &> block-Turns l (forwarded_call lexical_cast m_indentation name method) (codes "\n\n")
          (forwarded_call-Turns name method (suc l) h.0 h.1) (λ rest opened. refl)
      &> erased_methods-Turns methods l h.3
      &> done)

  in_eraser : (indentation : ℕ) → (name : Text) → InterfaceDefinition → ℕ → List Print
  in_eraser indentation name definition in_class =
      start_line own indentation (codes "Client &client;\n\n" ∷ [])
      ∷ start_line own indentation (codes "explicit " ∷ [])
      ∷ append_to own (codes "async_type_erased_")
      ∷ append_to own name
      ∷ append_to own (codes "(Client &client) : client(client) {}\n\n")
      ∷ erased_methods lexical_cast m_indentation definition in_class
      ∷ []

  in_eraser-Turns :
      (indentation : ℕ) (name : Text) (definition : InterfaceDefinition) (l : ℕ)
      → All IsPlain name
      → IsPlainInterface definition
      → Turns own (in_order (in_eraser indentation name definition l)) [] []
  unfolding in_eraser scan_brackets
  in_eraser-Turns indentation name definition l h k =
      chain-Turns (in_eraser indentation name definition l) [] [] (
        line-Turns indentation _ (λ rest opened. refl)
        &> line-Turns indentation _ (λ rest opened. refl)
        &> literal _ [] [] (λ rest opened. refl)
        &> plain name [] h
        &> literal _ [] [] (λ rest opened. refl)
        &> erased_methods-Turns definition l k
        &> done)

  pub eraser-Turns :
      (indentation : ℕ) (name : Text) (definition : InterfaceDefinition)
      → All IsPlain name
      → IsPlainInterface definition
      → Turns own
          (generate_type_eraser lexical_cast m_indentation indentation name definition)
          []
          []
  unfolding generate_type_eraser in_eraser scan_brackets
  eraser-Turns indentation name definition h k = chain-Turns _ [] [] (
      line-Turns indentation _ (λ rest opened. refl)
      &> literal _ [] [] (λ rest opened. refl)
      &> plain name [] h
      &> literal _ [] [] (λ rest opened. refl)
      &> plain name [] h
      &> literal _ [] [] (λ rest opened. refl)
      &> block-Turns indentation (λ l. in_order (in_eraser indentation name definition l))
          (codes ";\n\n") (in_eraser-Turns indentation name definition (suc indentation) h k)
          (λ rest opened. refl)
      &> done)
