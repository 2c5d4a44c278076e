-- ===== src/Parse/Tuple.antt =====
-- warpcoil/cpp/tuple_parser.hpp: `basic_tuple_parser`, which `tuple_parser` and the generated
-- `structure_parser`s derive from, and `tuple_parser<>`.
pub mod Reading
use warpcoil.Base.{ℕ, List, [], ◌∷◌, Option, none, some, ◌⊎◌, inl, inr}
use warpcoil.Parse.Interface.{
  InputConsumption, ParseResult, Parser, parse_complete, need_more_input, invalid_input,
  does_not_consume,
}

-- `std::tuple<T…>`, or the members of a generated struct in order.
abbrev pub Tuple : List (Type 0) → Type 0
Tuple [] = Unit {0}
Tuple (A ∷ As) = A × Tuple As

-- A template argument pack of parsers.
abbrev pub Parsers : List (Type 0) → Type 1
Parsers [] = Unit {1}
Parsers (A ∷ As) = Parser A × Parsers As

-- `m_current_element` with what `m_result` holds so far: the element that is being parsed is the
-- first, or the first has a result and a later one is being parsed.
abbrev pub Current : (As : List (Type 0)) → Parsers As → Type 0
Current [] ps = ⊥
Current (A ∷ As) ps = ps.0.State ⊎ A × Current As ps.1

-- `go_to_next_state` after the element `a`: the next element is started, and whether `a` consumed
-- the byte is looked at for the last element only.
go_to_next_state :
    {A : Type 0} (As : List (Type 0)) (p : Parser A) (ps : Parsers As)
    → A
    → InputConsumption
    → p.State
    → ParseResult (A × Tuple As) × (p.State ⊎ A × Current As ps)
go_to_next_state [] p ps a input s = (parse_complete (a, tt) input, inl s)
go_to_next_state (B ∷ Bs) p ps a input s = (need_more_input, inr (a, inl ps.0.start))

indexed_done :
    {A : Type 0} (As : List (Type 0)) (p : Parser A) (ps : Parsers As)
    → ParseResult A × p.State
    → ParseResult (A × Tuple As) × (p.State ⊎ A × Current As ps)
indexed_done As p ps (parse_complete a input, s) = go_to_next_state As p ps a input s
indexed_done As p ps (need_more_input, s) = (need_more_input, inl s)
indexed_done As p ps (invalid_input, s) = (invalid_input, inl s)

later_done :
    {A : Type 0} (As : List (Type 0)) (p : Parser A) (ps : Parsers As)
    → A
    → ParseResult (Tuple As) × Current As ps
    → ParseResult (A × Tuple As) × (p.State ⊎ A × Current As ps)
later_done As p ps a (parse_complete as_ input, c) = (parse_complete (a, as_) input, inr (a, c))
later_done As p ps a (need_more_input, c) = (need_more_input, inr (a, c))
later_done As p ps a (invalid_input, c) = (invalid_input, inr (a, c))

-- `parse_byte`: the visit of the current element.
unfoldable pub parse_tuple_byte :
    (As : List (Type 0)) (ps : Parsers As)
    → Current As ps
    → ℕ
    → ParseResult (Tuple As) × Current As ps
unfolding go_to_next_state indexed_done later_done
parse_tuple_byte [] ps c input = absurd c
parse_tuple_byte (A ∷ As) (p, ps) (inl s) input = indexed_done As p ps (p.parse_byte s input)
parse_tuple_byte (A ∷ As) (p, ps) (inr (a, c)) input =
    later_done As p ps a (parse_tuple_byte As ps c input)

-- Only a tuple of one element can be complete before the first byte. The source returns
-- `m_result` as it was constructed, which for an element that needs no byte is its only value.
unfoldable pub check_tuple :
    (As : List (Type 0)) (ps : Parsers As) → Current As ps → Option (Tuple As)
check_tuple [] ps c = none
check_tuple (A ∷ []) (p, ps) (inl s) = elim (p.check_for_immediate_completion s) [
  | none ↦ none
  | some a ↦ some (a, tt)
]
check_tuple (A ∷ []) (p, ps) (inr c) = none
check_tuple (A ∷ B ∷ As) ps c = none

abbrev pub basic_tuple_parser :
    (A : Type 0) (As : List (Type 0)) → Parsers (A ∷ As) → Parser (Tuple (A ∷ As))
basic_tuple_parser A As ps = record {
  State = Current (A ∷ As) ps;
  start = inl ps.0.start;
  parse_byte = parse_tuple_byte (A ∷ As) ps;
  check_for_immediate_completion = check_tuple (A ∷ As) ps;
}

-- `tuple_parser<>`, and the generated parser of a structure without elements.
abbrev pub empty_tuple_parser : Parser (Unit {0})
empty_tuple_parser = record {
  State = Unit {0};
  start = tt;
  parse_byte = λ s input. (parse_complete tt does_not_consume, s);
  check_for_immediate_completion = λ s. some tt;
}

abbrev pub tuple_parser : (As : List (Type 0)) → Parsers As → Parser (Tuple As)
tuple_parser [] ps = empty_tuple_parser
tuple_parser (A ∷ As) ps = basic_tuple_parser A As ps
