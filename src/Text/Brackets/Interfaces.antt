-- ===== src/Text/Brackets/Interfaces.antt =====
-- The brackets of the text of interfaces.
use warpcoil.Base.{ℕ, suc, ◌≡◌, refl, List, [], ◌∷◌, ◌++◌, All, codes}
use warpcoil.Generated.Interface.{InterfaceDefinition}
use warpcoil.Text.{Text, Output, Print, own, append_to, in_order, render}
use warpcoil.Text.Interfaces.{interface_methods, generate_interface, generate_type_eraser}
use warpcoil.Text.Brackets.{IsBalanced, IsPlain, scan_brackets}
use warpcoil.Text.Brackets.Turns.{
  Turns, done, ◌&>◌, finished, literal, plain, render-Turns, chain-Turns, block-Turns,
}
use warpcoil.Text.Brackets.Methods.{IsPlainInterface, method_head-Turns, in_result}
use warpcoil.Text.Brackets.Erasers.{eraser-Turns}

-- What is behind the own text, if it is balanced.
abbrev pub AddsBalanced : Print → Output → Type 0
AddsBalanced p out = (x : Text) × ((p out).own_text ≡ out.own_text ++ x) × IsBalanced x

module _ (lexical_cast : ℕ → Text) (m_indentation : ℕ) where
  interface_methods-Turns :
      (methods : InterfaceDefinition) (l : ℕ)
      → IsPlainInterface methods
      → Turns own (interface_methods lexical_cast m_indentation methods l) [] []
  unfolding interface_methods scan_brackets
  interface_methods-Turns [] l h = finished []
  interface_methods-Turns ((name, method) ∷ methods) l h = chain-Turns _ [] [] (
      render-Turns l []
      &> literal _ [] [] (λ rest opened. refl)
      &> method_head-Turns lexical_cast m_indentation name method h.0 h.1 h.2
      &> literal _ in_result [] (λ rest opened. refl)
      &> interface_methods-Turns methods l h.3
      &> done)

  in_interface : (name : Text) → InterfaceDefinition → ℕ → List Print
  in_interface name definition in_class =
      render own in_class
      ∷ append_to own (codes "virtual ~async_")
      ∷ append_to own name
      ∷ append_to own (codes "() {}\n\n")
      ∷ interface_methods lexical_cast m_indentation definition in_class
      ∷ []

  in_interface-Turns :
      (name : Text) (definition : InterfaceDefinition) (l : ℕ)
      → All IsPlain name
      → IsPlainInterface definition
      → Turns own (in_order (in_interface name definition l)) [] []
  unfolding in_interface scan_brackets
  in_interface-Turns name definition l h k = chain-Turns (in_interface name definition l) [] [] (
      render-Turns l []
      &> literal _ [] [] (λ rest opened. refl)
      &> plain name [] h
      &> literal _ [] [] (λ rest opened. refl)
      &> interface_methods-Turns definition l k
      &> done)

  pub interface-Turns :
      (indentation : ℕ) (name : Text) (definition : InterfaceDefinition)
      → All IsPlain name
      → IsPlainInterface definition
      → Turns own (generate_interface lexical_cast m_indentation indentation name definition) [] []
  unfolding generate_interface in_interface scan_brackets
  interface-Turns indentation name definition h k = chain-Turns _ [] [] (
      literal _ [] [] (λ rest opened. refl)
      &> plain name [] h
      &> literal _ [] [] (λ rest opened. refl)
      &> block-Turns indentation (λ l. in_order (in_interface name definition l)) (codes ";\n\n")
          (in_interface-Turns name definition (suc indentation) h k) (λ rest opened. refl)
      &> done)

  -- If the name of an interface, the names of its methods and parameters and the names in the
  -- structures that are printed hold no bracket, generate_interface and generate_type_eraser
  -- append texts to their own sink in which each of the brackets <, ( and { is closed, in the
  -- right order.
  pub interface_and_eraser-IsBalanced :
      (indentation : ℕ) (name : Text) (definition : InterfaceDefinition) (out : Output)
      → All IsPlain name
      → IsPlainInterface definition
      → AddsBalanced (generate_interface lexical_cast m_indentation indentation name definition) out
        × AddsBalanced
            (generate_type_eraser lexical_cast m_indentation indentation name definition)
            out
  interface_and_eraser-IsBalanced indentation name definition out h k = (
    (interface-Turns indentation name definition h k).turned out,
    (eraser-Turns lexical_cast m_indentation indentation name definition h k).turned out,
  )
