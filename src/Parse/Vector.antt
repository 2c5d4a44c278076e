-- ===== src/Parse/Vector.antt =====
-- warpcoil/cpp/vector_parser.hpp. The vector under construction has its elements and its capacity;
-- the source asserts that `reserve(n)` on the empty vector makes the capacity n.
pub mod Reading
use warpcoil.Base.{ℕ, List, [], ◌∷◌, ◌++◌, none, ◌==◌, if◌then◌else◌, length}
use warpcoil.Parse.Interface.{ParseResult, Parser, parse_complete, need_more_input, invalid_input}

module _ {A : Type 0} (L : Parser ℕ) (E : Parser A) where
  pub data VectorStep : Type 0 where
    parsing_length : L.State → VectorStep
    parsing_element : E.State → VectorStep

  pub record VectorState : Type 0 where
    pub step : VectorStep
    pub result : List A
    pub capacity : ℕ

module _ {A : Type 0} (L : Parser ℕ) (E : Parser A) where
  vector_length_done :
      VectorState L E → ParseResult ℕ × L.State → ParseResult (List A) × VectorState L E
  vector_length_done s (parse_complete n input, l) =
      if n == 0
      then (parse_complete s.result input, record s { step = parsing_length l; result = [] })
      else (need_more_input, record s { step = parsing_element E.start; capacity = n })
  vector_length_done s (need_more_input, l) =
      (need_more_input, record s { step = parsing_length l })
  vector_length_done s (invalid_input, l) = (invalid_input, record s { step = parsing_length l })

  vector_element_done :
      VectorState L E → ParseResult A × E.State → ParseResult (List A) × VectorState L E
  vector_element_done s (parse_complete a input, e) =
      let result = s.result ++ a ∷ [] in
      if length result == s.capacity
      then (parse_complete result input, record s { step = parsing_element e; result = [] })
      else (need_more_input, record s { step = parsing_element E.start; result = result })
  vector_element_done s (need_more_input, e) =
      (need_more_input, record s { step = parsing_element e })
  vector_element_done s (invalid_input, e) = (invalid_input, record s { step = parsing_element e })

  vector_byte : VectorStep L E → VectorState L E → ℕ → ParseResult (List A) × VectorState L E
  vector_byte (parsing_length l) s input = vector_length_done s (L.parse_byte l input)
  vector_byte (parsing_element e) s input = vector_element_done s (E.parse_byte e input)

  unfoldable pub parse_vector_byte : VectorState L E → ℕ → ParseResult (List A) × VectorState L E
  unfolding vector_length_done vector_element_done vector_byte
  parse_vector_byte s input = vector_byte s.step s input

  abbrev pub vector_parser : Parser (List A)
  vector_parser = record {
    State = VectorState L E;
    start = record { step = parsing_length L.start; result = []; capacity = 0 };
    parse_byte = parse_vector_byte;
    check_for_immediate_completion = λ s. none;
  }
