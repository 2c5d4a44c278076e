-- ===== src/Text/Brackets/Printed.antt =====
-- The brackets of all that is printed for an interface.
use warpcoil.Base.{ℕ, ◌≡◌, [], ◌++◌, All}
use warpcoil.Generated.Interface.{InterfaceDefinition}
use warpcoil.Text.{Text, Output}
use warpcoil.Text.Servers.{generate_serializable_interface}
use warpcoil.Text.Brackets.{IsPlain}
use warpcoil.Text.Brackets.Interfaces.{interface-Turns}
use warpcoil.Text.Brackets.Erasers.{eraser-Turns}
use warpcoil.Text.Brackets.Round.{IsRoundBalanced}
use warpcoil.Text.Brackets.Throwing.{
  text_if, text_after, TurnsIf, returns-TurnsIf, then-TurnsIf, with_last,
}
use warpcoil.Text.Brackets.Rounded.{ArePlainMethods, round-Turns, ArePlainMethods-IsPlainInterface}
use warpcoil.Text.Brackets.Servers.{server-Turns}
use warpcoil.Text.Brackets.Clients.{have_short_names, client-TurnsIf}

module _ (lexical_cast : ℕ → Text) (m_indentation : ℕ)
    (plain_numbers : (n : ℕ) → All IsPlain (lexical_cast n)) where
  printed-TurnsIf :
      (indentation : ℕ) (name : Text) (definition : InterfaceDefinition)
      → All IsPlain name
      → ArePlainMethods definition
      → TurnsIf
          (have_short_names definition)
          (generate_serializable_interface lexical_cast m_indentation indentation name definition)
          []
          []
  unfolding generate_serializable_interface
  printed-TurnsIf indentation name definition h k =
      let m = ArePlainMethods-IsPlainInterface definition k in
      then-TurnsIf _
        (returns-TurnsIf (
          round-Turns []
            (interface-Turns lexical_cast m_indentation indentation name definition h m)))
        (then-TurnsIf _
          (returns-TurnsIf (
            round-Turns []
              (eraser-Turns lexical_cast m_indentation indentation name definition h m)))
          (with_last
            (client-TurnsIf lexical_cast m_indentation plain_numbers indentation name definition h
              k)
            (server-Turns lexical_cast m_indentation plain_numbers indentation name definition h
              k)))

  -- If the name of an interface, the names of its methods and parameters and of the members of
  -- structures in their types, at any depth, hold no bracket, and the text of a number has none,
  -- generate_serializable_interface ends with an exception exactly if the name of a method has
  -- more than 255 bytes, and else appends to its own sink, for the interface, the type eraser,
  -- the client and the server, a text in which each of the brackets ( and { is closed, in the
  -- right order.
  pub generate_serializable_interface-IsRoundBalanced :
      (indentation : ℕ) (name : Text) (definition : InterfaceDefinition) (out : Output)
      → All IsPlain name
      → ArePlainMethods definition
      → (x : Text) × (text_after (
            generate_serializable_interface lexical_cast m_indentation indentation name definition
              out)
          ≡ text_if (have_short_names definition) (out.own_text ++ x))
        × IsRoundBalanced x
  generate_serializable_interface-IsRoundBalanced indentation name definition out h k =
      (printed-TurnsIf indentation name definition h k).turned out
