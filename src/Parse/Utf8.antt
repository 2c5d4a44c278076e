-- ===== src/Parse/Utf8.antt =====
-- warpcoil/cpp/utf8_parser.hpp. A `std::string` is the list of its bytes. `utf8::is_valid` belongs
-- to the utf8cpp library and is a parameter.
pub mod Reading
use warpcoil.Base.{
  ℕ, suc, ◌-◌, ◌≡◌, Bool, List, [], ◌∷◌, none, ◌==◌, if◌then◌else◌, length, replicate, set,
}
use warpcoil.Parse.Interface.{
  ParseResult, Parser, parse_complete, need_more_input, invalid_input, consumed,
}

module _ (L : Parser ℕ) where
  -- `Si::variant<Length, parsing_element>`
  pub data Utf8Step : Type 0 where
    parsing_length : L.State → Utf8Step
    parsing_element : ℕ → Utf8Step

  pub record Utf8State : Type 0 where
    pub step : Utf8Step
    pub result : List ℕ

module _ (is_valid : List ℕ → Bool) (L : Parser ℕ) where
  -- The visitor of a parsed length: `resize` fills with zeros, and the new string is empty exactly
  -- for the length 0.
  utf8_length_done : Utf8State L → ParseResult ℕ × L.State → ParseResult (List ℕ) × Utf8State L
  utf8_length_done s (parse_complete n input, l) =
      let result = replicate n 0 in
      if n == 0
      then (parse_complete result input, record { step = parsing_length l; result = [] })
      else (need_more_input, record { step = parsing_element 0; result = result })
  utf8_length_done s (need_more_input, l) = (need_more_input, record s { step = parsing_length l })
  utf8_length_done s (invalid_input, l) = (invalid_input, record s { step = parsing_length l })

  utf8_element : Utf8State L → ℕ → ℕ → ParseResult (List ℕ) × Utf8State L
  utf8_element s current_index input =
      let result = set s.result current_index input in
      if current_index == length result - 1
      then if is_valid result
        then (parse_complete result consumed, record s { result = [] })
        else (invalid_input, record s { result = result })
      else (need_more_input, record { step = parsing_element (suc current_index); result = result })

  utf8_byte : Utf8Step L → Utf8State L → ℕ → ParseResult (List ℕ) × Utf8State L
  utf8_byte (parsing_length l) s input = utf8_length_done s (L.parse_byte l input)
  utf8_byte (parsing_element i) s input = utf8_element s i input

  unfoldable pub parse_utf8_byte : Utf8State L → ℕ → ParseResult (List ℕ) × Utf8State L
  unfolding utf8_length_done utf8_element utf8_byte
  parse_utf8_byte s input = utf8_byte s.step s input

  abbrev pub utf8_parser : Parser (List ℕ)
  utf8_parser = record {
    State = Utf8State L;
    start = record { step = parsing_length L.start; result = [] };
    parse_byte = parse_utf8_byte;
    check_for_immediate_completion = λ s. none;
  }
