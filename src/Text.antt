-- ===== src/Text.antt =====
-- warpcoil/block.hpp and warpcoil/comma_separator.hpp: how the generators of C++ print text.
--
-- A generator has two sinks: the one for its own code, and that of the `shared_code_generator`,
-- where structures are defined. They are texts, and what prints is a function of both and of the
-- set of the structures that were generated. An `indentation_level` is its `m_amount`.
pub mod Brackets
pub mod Clients
pub mod Interfaces
pub mod Names
pub mod Serialization
pub mod Servers
pub mod Structures
pub mod Types
use warpcoil.Base.{ℕ, zero, suc, List, [], ◌∷◌, ◌++◌, Bool, true, false, codes, Option, none, some}
use warpcoil.Types.Syntax.{Fields}

abbrev pub Text : Type 0
Text = List ℕ

pub data Sink : Type 0 where
  own : Sink
  shared : Sink

-- The newest generated structure is first.
pub record Output : Type 0 where
  pub own_text : Text
  pub shared_text : Text
  pub generated_structures : List Fields

abbrev pub Print : Type 0
Print = Output → Output

-- `Si::append`
abbrev pub append_to : Sink → Text → Print
append_to own text out = record out { own_text = out.own_text ++ text }
append_to shared text out = record out { shared_text = out.shared_text ++ text }

-- Statements one after another.
abbrev pub in_order : List Print → Print
in_order [] out = out
in_order (p ∷ ps) out = in_order ps (p out)

abbrev pub deeper : ℕ → ℕ
deeper amount = suc amount

-- `indentation_level::render`
unfoldable pub render : Sink → ℕ → Print
render into zero out = out
render into (suc amount) out = render into amount (append_to into (codes "    ") out)

abbrev pub append_each : Sink → List Text → List Print
append_each into [] = []
append_each into (text ∷ texts) = append_to into text ∷ append_each into texts

abbrev pub start_line : Sink → ℕ → List Text → Print
start_line into indentation content out =
    in_order (append_each into content) (render into indentation out)

abbrev pub continuation_block : Sink → ℕ → (ℕ → Print) → Text → Print
continuation_block into indentation content end = in_order (
    append_to into (codes "{\n")
    ∷ content (deeper indentation)
    ∷ render into indentation
    ∷ append_to into (codes "}")
    ∷ append_to into end
    ∷ [])

abbrev pub block : Sink → ℕ → (ℕ → Print) → Text → Print
block into indentation content end =
    in_order (render into indentation ∷ continuation_block into indentation content end ∷ [])

-- Statements that can throw an exception, which is `none`.
abbrev pub PrintOrThrow : Type 0
PrintOrThrow = Output → Option Output

abbrev pub returns : Print → PrintOrThrow
returns p out = some (p out)

unfoldable pub after_print : PrintOrThrow → Option Output → Option Output
after_print p none = none
after_print p (some out) = p out

unfoldable pub in_turn : List PrintOrThrow → PrintOrThrow
unfolding after_print
in_turn [] out = some out
in_turn (p ∷ ps) out = after_print (in_turn ps) (p out)

-- `block`, with a content that can throw.
unfoldable pub block_or_throw : Sink → ℕ → (ℕ → PrintOrThrow) → Text → PrintOrThrow
unfolding in_turn
block_or_throw into indentation content end = in_turn (
    returns (in_order (render into indentation ∷ append_to into (codes "{\n") ∷ []))
    ∷ content (deeper indentation)
    ∷ returns
        (in_order (render into indentation ∷ append_to into (codes "}") ∷ append_to into end ∷ []))
    ∷ [])

-- `comma_separator::add_element`, by `m_first`, which is false after it.
abbrev pub add_element : Sink → Bool → Print
add_element into true out = out
add_element into false out = append_to into (codes ", ") out
