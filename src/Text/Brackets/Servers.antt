-- ===== src/Text/Brackets/Servers.antt =====
-- The brackets of the text of servers.
pub mod Headers
use warpcoil.Base.{ℕ, zero, suc, refl, List, [], ◌∷◌, false, codes, All, length}
use warpcoil.Types.Syntax.{WireType, get_parameter_type}
use warpcoil.Generated.Interface.{InterfaceDefinition, Method}
use warpcoil.Generated.Server.{TypeEmptiness, empty, non_empty, emptiness}
use warpcoil.Text.{Text, own, in_order, start_line}
use warpcoil.Text.Types.{parser_type_text}
use warpcoil.Text.Servers.Headers.{server_head}
use warpcoil.Text.Servers.{
  invalid_result, move_arguments_out_of_tuple, serialize_if, handle_result, handle_argument,
  receive_argument, argument_receivers, generate_serialization_server,
}
use warpcoil.Text.Brackets.{IsPlain, scan_brackets}
use warpcoil.Text.Brackets.Definitions.{IsPlainType}
use warpcoil.Text.Brackets.Round.{IsRoundBalanced, in_one, in_two, in_three}
use warpcoil.Text.Brackets.Serialization.{serialization-Turns}
use warpcoil.Text.Brackets.Turns.{
  TurnsIn, done, ◌&>◌, finished, literal, plain, balanced, render-Turns, chain-Turns, block-Turns,
  line-Turns,
}
use warpcoil.Text.Brackets.Rounded.{
  ArePlainParameters, ArePlainMethods, round_type, parser_type-round, parameter_type-IsPlainType,
}
use warpcoil.Text.Brackets.Servers.Headers.{wrapped-Turns, server_head-Turns}

module _ (lexical_cast : ℕ → Text) (m_indentation : ℕ)
    (plain_numbers : (n : ℕ) → All IsPlain (lexical_cast n)) where
  arguments-Turns :
      (tuple_name : Text) (count i : ℕ) (a : List ℕ)
      → IsRoundBalanced tuple_name
      → TurnsIn false own
          (move_arguments_out_of_tuple lexical_cast m_indentation tuple_name count i)
          a
          a
  unfolding move_arguments_out_of_tuple scan_brackets
  arguments-Turns tuple_name zero i a h = finished a
  arguments-Turns tuple_name (suc count) i a h = chain-Turns _ a a (
      literal _ a a (λ rest opened. refl)
      &> plain (lexical_cast i) a (plain_numbers i)
      &> literal _ a (b')' ∷ b')' ∷ a) (λ rest opened. refl)
      &> balanced tuple_name (b')' ∷ b')' ∷ a) h
      &> literal _ (b')' ∷ b')' ∷ a) a (λ rest opened. refl)
      &> arguments-Turns tuple_name count (suc i) a h
      &> done)

  serialize_if-Turns :
      (emptiness_of : TypeEmptiness) (t : WireType) (l : ℕ)
      → IsPlainType t
      → TurnsIn false own (serialize_if lexical_cast m_indentation emptiness_of t l) [] []
  unfolding serialize_if scan_brackets
  serialize_if-Turns empty t l h = finished []
  serialize_if-Turns non_empty t l h =
      serialization-Turns lexical_cast m_indentation plain_numbers t l (codes "response_writer")
        (codes "result.get()") invalid_result h (λ rest opened. refl) (λ rest opened. refl)
        (λ rest opened. refl)

  result-Turns :
      (t : WireType) (l : ℕ)
      → IsPlainType t
      → TurnsIn false own (handle_result lexical_cast m_indentation t l) [] []
  unfolding handle_result scan_brackets
  result-Turns t l h = chain-Turns _ [] [] (
      line-Turns l _ (λ rest opened. refl)
      &> line-Turns l _ (λ rest opened. refl)
      &> line-Turns l _ (λ rest opened. refl)
      &> line-Turns l _ (λ rest opened. refl)
      &> serialize_if-Turns (emptiness t) t l h
      &> chain-Turns _ [] in_two
          (render-Turns l [] &> literal _ [] in_two (λ rest opened. refl) &> done)
      &> wrapped-Turns l
          (λ in_read.
            start_line own in_read (codes "std::forward<Handler>(handle_result)(ec);\n" ∷ []))
          (line-Turns (suc l) (codes "std::forward<Handler>(handle_result)(ec);\n")
            (λ rest opened. refl))
      &> done)

  argument-Turns :
      (name : Text) (method : Method) (l l' : ℕ)
      → All IsPlain name
      → IsPlainType method.result
      → TurnsIn false own (handle_argument lexical_cast m_indentation name method l l') [] []
  unfolding handle_argument scan_brackets
  argument-Turns name method l l' h k = chain-Turns _ [] [] (
      line-Turns l _ (λ rest opened. refl)
      &> line-Turns l _ (λ rest opened. refl)
      &> line-Turns l' _ (λ rest opened. refl)
      &> plain name [] h
      &> literal _ [] in_one (λ rest opened. refl)
      &> arguments-Turns (codes "argument.get()") (length method.parameters) 0 in_one
          (λ rest opened. refl)
      &> literal _ in_one in_three (λ rest opened. refl)
      &> round_type lexical_cast m_indentation method.result in_three k
      &> literal _ in_three in_three (λ rest opened. refl)
      &> literal _ in_three in_two (λ rest opened. refl)
      &> wrapped-Turns l' (handle_result lexical_cast m_indentation method.result)
          (result-Turns method.result (suc l') k)
      &> done)

  receive_argument-Turns :
      (name : Text) (method : Method) (l : ℕ)
      → All IsPlain name
      → ArePlainParameters method.parameters
      → IsPlainType method.result
      → TurnsIn false own (receive_argument lexical_cast m_indentation name method l) [] []
  unfolding receive_argument scan_brackets
  receive_argument-Turns name method l h k m =
      let parameter_type = get_parameter_type method.parameters in
      let is_plain = parameter_type-IsPlainType method.parameters k in
      chain-Turns _ [] [] (
        chain-Turns _ [] in_one
          (render-Turns l [] &> literal _ [] in_one (λ rest opened. refl) &> done)
        &> balanced (parser_type_text parameter_type) in_one
            (parser_type-round lexical_cast m_indentation parameter_type is_plain)
        &> literal _ in_one in_three (λ rest opened. refl)
        &> round_type lexical_cast m_indentation parameter_type in_three is_plain
        &> literal _ in_three in_two (λ rest opened. refl)
        &> wrapped-Turns l (handle_argument lexical_cast m_indentation name method l)
            (argument-Turns name method l (suc l) h m)
        &> done)

  receivers-Turns :
      (methods : InterfaceDefinition) (l : ℕ)
      → ArePlainMethods methods
      → TurnsIn false own (argument_receivers lexical_cast m_indentation methods l) [] []
  unfolding argument_receivers scan_brackets
  receivers-Turns [] l h = finished []
  receivers-Turns ((name, method) ∷ methods) l h = chain-Turns _ [] [] (
      literal _ [] [] (λ rest opened. refl)
      &> line-Turns l _ (λ rest opened. refl)
      &> line-Turns l _ (λ rest opened. refl)
      &> plain name [] h.0
      &> literal _ [] [] (λ rest opened. refl)
      &> block-Turns l (receive_argument lexical_cast m_indentation name method) (codes "\n")
          (receive_argument-Turns name method (suc l) h.0 h.1 h.2) (λ rest opened. refl)
      &> receivers-Turns methods l h.3
      &> done)

  pub server-Turns :
      (indentation : ℕ) (name : Text) (definition : InterfaceDefinition)
      → All IsPlain name
      → ArePlainMethods definition
      → TurnsIn false own
          (generate_serialization_server lexical_cast m_indentation indentation name definition)
          []
          []
  unfolding generate_serialization_server scan_brackets
  server-Turns indentation name definition h k = chain-Turns _ [] [] (
      line-Turns indentation _ (λ rest opened. refl)
      &> line-Turns indentation _ (λ rest opened. refl)
      &> plain name [] h
      &> literal _ [] [] (λ rest opened. refl)
      &> literal _ [] [] (λ rest opened. refl)
      &> block-Turns indentation
          (λ in_class. in_order (
            server_head name definition indentation in_class
            ∷ argument_receivers lexical_cast m_indentation definition in_class
            ∷ []))
          (codes ";\n\n")
          (chain-Turns _ [] [] (
            server_head-Turns name definition indentation (suc indentation) h k
            &> receivers-Turns definition (suc indentation) k
            &> done))
          (λ rest opened. refl)
      &> done)
