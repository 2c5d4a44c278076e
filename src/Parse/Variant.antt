-- ===== src/Parse/Variant.antt =====
-- warpcoil/cpp/variant_parser.hpp: the index of the alternative in one byte, then the alternative.
pub mod Reading
use warpcoil.Base.{ℕ, zero, suc, List, [], ◌∷◌, Option, none, some, ◌⊎◌, inl, inr}
use warpcoil.Parse.Interface.{ParseResult, Parser, parse_complete, need_more_input, invalid_input}
use warpcoil.Parse.Integer.{IntegerState, integer_parser}
use warpcoil.Parse.Tuple.{Parsers}

-- `Si::variant<T…>`
abbrev pub Variant : List (Type 0) → Type 0
Variant [] = ⊥
Variant (A ∷ As) = A ⊎ Variant As

-- The state of the alternative that was chosen.
abbrev pub Chosen : (As : List (Type 0)) → Parsers As → Type 0
Chosen [] ps = ⊥
Chosen (A ∷ As) ps = ps.0.State ⊎ Chosen As ps.1

-- `transitions[index]`: the alternative's new parser; none from `transitions.size()` on.
switch_to_state : (As : List (Type 0)) (ps : Parsers As) → ℕ → Option (Chosen As ps)
switch_to_state [] ps index = none
switch_to_state (A ∷ As) ps zero = some (inl ps.0.start)
switch_to_state (A ∷ As) ps (suc index) = elim (switch_to_state As ps.1 index) [
  | none ↦ none
  | some c ↦ some (inr c)
]

alternative_done :
    {A : Type 0} (As : List (Type 0)) (p : Parser A) (ps : Parsers As)
    → ParseResult A × p.State
    → ParseResult (A ⊎ Variant As) × (p.State ⊎ Chosen As ps)
alternative_done As p ps (parse_complete a input, s) = (parse_complete (inl a) input, inl s)
alternative_done As p ps (need_more_input, s) = (need_more_input, inl s)
alternative_done As p ps (invalid_input, s) = (invalid_input, inl s)

other_done :
    {A : Type 0} (As : List (Type 0)) (p : Parser A) (ps : Parsers As)
    → ParseResult (Variant As) × Chosen As ps
    → ParseResult (A ⊎ Variant As) × (p.State ⊎ Chosen As ps)
other_done As p ps (parse_complete v input, c) = (parse_complete (inr v) input, inr c)
other_done As p ps (need_more_input, c) = (need_more_input, inr c)
other_done As p ps (invalid_input, c) = (invalid_input, inr c)

unfoldable pub parse_alternative :
    (As : List (Type 0)) (ps : Parsers As)
    → Chosen As ps
    → ℕ
    → ParseResult (Variant As) × Chosen As ps
unfolding alternative_done other_done
parse_alternative [] ps c input = absurd c
parse_alternative (A ∷ As) (p, ps) (inl s) input = alternative_done As p ps (p.parse_byte s input)
parse_alternative (A ∷ As) (p, ps) (inr c) input =
    other_done As p ps (parse_alternative As ps c input)

-- `m_state`
pub data VariantState (As : List (Type 0)) (ps : Parsers As) : Type 0 where
  parsing_index : IntegerState → VariantState As ps
  parsing_element : Chosen As ps → VariantState As ps

module _ (As : List (Type 0)) (ps : Parsers As) where
  switched : IntegerState → Option (Chosen As ps) → ParseResult (Variant As) × VariantState As ps
  switched s none = (invalid_input, parsing_index s)
  switched s (some c) = (need_more_input, parsing_element c)

  index_done : ParseResult ℕ × IntegerState → ParseResult (Variant As) × VariantState As ps
  unfolding switched switch_to_state
  index_done (parse_complete index input, s) = switched s (switch_to_state As ps index)
  index_done (need_more_input, s) = (need_more_input, parsing_index s)
  index_done (invalid_input, s) = (invalid_input, parsing_index s)

  element_done :
      ParseResult (Variant As) × Chosen As ps → ParseResult (Variant As) × VariantState As ps
  element_done (r, c) = (r, parsing_element c)

  unfoldable pub parse_variant_byte :
      VariantState As ps → ℕ → ParseResult (Variant As) × VariantState As ps
  unfolding index_done element_done
  parse_variant_byte (parsing_index s) input = index_done ((integer_parser 1).parse_byte s input)
  parse_variant_byte (parsing_element c) input = element_done (parse_alternative As ps c input)

  abbrev pub variant_parser : Parser (Variant As)
  variant_parser = record {
    State = VariantState As ps;
    start = parsing_index (integer_parser 1).start;
    parse_byte = parse_variant_byte;
    check_for_immediate_completion = λ s. none;
  }
