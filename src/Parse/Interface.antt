-- ===== src/Parse/Interface.antt =====
-- warpcoil/cpp/parse_result.hpp, and what every parser class offers: `parse_byte` and
-- `check_for_immediate_completion` over the object's private members.
use warpcoil.Base.{ℕ, ◌≡◌, List, [], ◌∷◌, Option}

pub data InputConsumption : Type 0 where
  consumed does_not_consume : InputConsumption

pub data ParseResult (A : Type 0) : Type 0 where
  parse_complete : A → InputConsumption → ParseResult A
  need_more_input : ParseResult A
  invalid_input : ParseResult A

-- A parser class: its members, a new object, and its two member functions.
pub record Parser (A : Type 0) : Type 1 where
  pub State : Type 0
  pub start : State
  pub parse_byte : State → ℕ → ParseResult A × State
  pub check_for_immediate_completion : State → Option A

module _ {A : Type 0} (p : Parser A) where
  -- From the state `s` the parser takes all bytes of the list and no more: it asks for more input
  -- after each byte but the last, and with the last, which it consumes, it is complete.
  pub data Reads : p.State → List ℕ → A → Type 0 where
    last :
        {s s' : p.State} (b : ℕ) {a : A}
        → p.parse_byte s b ≡ (parse_complete a consumed, s')
        → Reads s (b ∷ []) a
    more :
        {s s' : p.State} (b : ℕ) {bs : List ℕ} {a : A}
        → p.parse_byte s b ≡ (need_more_input, s')
        → Reads s' bs a
        → Reads s (b ∷ bs) a

  -- From the state `s` the parser asks for more input after each byte but the last, and refuses
  -- the last.
  pub data Rejects : p.State → List ℕ → Type 0 where
    wrong : {s s' : p.State} (b : ℕ) → p.parse_byte s b ≡ (invalid_input, s') → Rejects s (b ∷ [])
    later :
        {s s' : p.State} (b : ℕ) {bs : List ℕ}
        → p.parse_byte s b ≡ (need_more_input, s')
        → Rejects s' bs
        → Rejects s (b ∷ bs)
