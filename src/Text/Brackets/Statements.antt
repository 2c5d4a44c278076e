-- ===== src/Text/Brackets/Statements.antt =====
-- The brackets of the text of the statements that serialize numbers and texts.
use warpcoil.Base.{ℕ, refl, [], ◌++◌, All, false, codes, ◌==◌, if-either}
use warpcoil.Types.Syntax.{Integer}
use warpcoil.Text.{Text, own}
use warpcoil.Text.Types.{uint_cpp_type}
use warpcoil.Text.Serialization.{print_check, print_integer, print_utf8}
use warpcoil.Text.Brackets.{IsPlain, scan_brackets, append-IsBalanced}
use warpcoil.Text.Brackets.Types.{uint-IsBalanced}
use warpcoil.Text.Brackets.Round.{
  IsRoundBalanced, IsBalanced-round, in_one, in_two, in_three, in_block,
}
use warpcoil.Text.Brackets.Turns.{
  TurnsIn, done, ◌&>◌, literal, plain, balanced, render-Turns, chain-Turns,
}

module _ (lexical_cast : ℕ → Text) (m_indentation : ℕ)
    (plain_numbers : (n : ℕ) → All IsPlain (lexical_cast n)) where
  check-Turns :
      (l : ℕ) (value : Text) (range : Integer) (error : Text)
      → IsRoundBalanced value
      → IsRoundBalanced error
      → TurnsIn false own (print_check lexical_cast m_indentation l value range error) [] []
  unfolding print_check scan_brackets
  check-Turns l value range error v e =
      if-either (λ p. TurnsIn false own p [] []) (range.minimum == 0)
        (chain-Turns _ [] [] (
          render-Turns l []
          &> literal _ [] in_two (λ rest opened. refl)
          &> balanced value in_two v
          &> literal _ in_two in_one (λ rest opened. refl)
          &> plain (lexical_cast range.maximum) in_one (plain_numbers range.maximum)
          &> literal _ in_one in_block (λ rest opened. refl)
          &> balanced error in_block e
          &> literal _ in_block [] (λ rest opened. refl)
          &> done))
        (chain-Turns _ [] [] (
          render-Turns l []
          &> literal _ [] in_three (λ rest opened. refl)
          &> balanced value in_three v
          &> literal _ in_three in_two (λ rest opened. refl)
          &> plain (lexical_cast range.minimum) in_two (plain_numbers range.minimum)
          &> literal _ in_two in_three (λ rest opened. refl)
          &> balanced value in_three v
          &> literal _ in_three in_two (λ rest opened. refl)
          &> plain (lexical_cast range.maximum) in_two (plain_numbers range.maximum)
          &> literal _ in_two in_block (λ rest opened. refl)
          &> balanced error in_block e
          &> literal _ in_block [] (λ rest opened. refl)
          &> done))

  pub integer-Turns :
      (l : ℕ) (sink value : Text) (range : Integer) (error : Text)
      → IsRoundBalanced sink
      → IsRoundBalanced value
      → IsRoundBalanced error
      → TurnsIn false own (print_integer lexical_cast m_indentation l sink value range error) [] []
  unfolding print_integer scan_brackets
  integer-Turns l sink value range error s v e = chain-Turns _ [] [] (
      check-Turns l value range error v e
      &> chain-Turns _ [] [] (
          render-Turns l []
          &> literal _ [] in_one (λ rest opened. refl)
          &> balanced sink in_one s
          &> literal _ in_one in_one (λ rest opened. refl)
          &> balanced (uint_cpp_type range) in_one
              (IsBalanced-round (uint_cpp_type range) (uint-IsBalanced range))
          &> literal _ in_one in_two (λ rest opened. refl)
          &> balanced value in_two v
          &> literal _ in_two [] (λ rest opened. refl)
          &> done)
      &> done)

  pub utf8-Turns :
      (l : ℕ) (sink value : Text) (range : Integer) (error : Text)
      → IsRoundBalanced sink
      → IsRoundBalanced value
      → IsRoundBalanced error
      → TurnsIn false own (print_utf8 lexical_cast m_indentation l sink value range error) [] []
  unfolding print_utf8 scan_brackets
  utf8-Turns l sink value range error s v e = chain-Turns _ [] [] (
      chain-Turns _ [] [] (
        render-Turns l []
        &> literal _ [] in_two (λ rest opened. refl)
        &> balanced value in_two v
        &> literal _ in_two in_two (λ rest opened. refl)
        &> balanced value in_two v
        &> literal _ in_two in_block (λ rest opened. refl)
        &> balanced error in_block e
        &> literal _ in_block [] (λ rest opened. refl)
        &> done)
      &> integer-Turns l sink (value ++ codes ".size()") range error s
          (append-IsBalanced false value (codes ".size()") v (λ rest opened. refl)) e
      &> chain-Turns _ [] in_one
          (render-Turns l [] &> literal _ [] in_one (λ rest opened. refl) &> done)
      &> balanced sink in_one s
      &> literal _ in_one in_three (λ rest opened. refl)
      &> balanced value in_three v
      &> literal _ in_three in_three (λ rest opened. refl)
      &> balanced value in_three v
      &> literal _ in_three in_three (λ rest opened. refl)
      &> balanced value in_three v
      &> literal _ in_three [] (λ rest opened. refl)
      &> done)
