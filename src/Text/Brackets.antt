-- ===== src/Text/Brackets.antt =====
-- The brackets `<`, `(` and `{` of a text and what closes them.
pub mod Clients
pub mod Definitions
pub mod Erasers
pub mod Interfaces
pub mod Throwing
pub mod Methods
pub mod Printed
pub mod Round
pub mod Rounded
pub mod Serialization
pub mod Servers
pub mod Shared
pub mod Statements
pub mod Turns
pub mod Types
use warpcoil.Base.{
  ℕ, suc, ◌≡◌, ◌≢◌, refl, sym, ◌∙◌, ap, List, [], ◌∷◌, ◌++◌, append_assoc, Bool, true, false, ◌&&◌,
  Option, none, some, All, ◌==◌, codes, arith, if◌then◌else◌, leb, Bool-cases, inl, inr,
}
use warpcoil.Text.{Text}

-- The brackets that are open are those which would close them, innermost first.
unfoldable pub close_bracket : ℕ → List ℕ → Option (List ℕ)
close_bracket c [] = none
close_bracket c (x ∷ opened) = if c == x then some opened else none

-- With `angles`, `<` and `>` are brackets too.
unfoldable pub after_char : (angles : Bool) → ℕ → List ℕ → Option (List ℕ)
unfolding close_bracket
after_char angles c opened =
    if c == b'<' && angles
    then some (b'>' ∷ opened)
    else if c == b'('
    then some (b')' ∷ opened)
    else if c == b'{'
    then some (b'}' ∷ opened)
    else if c == b'>' && angles
    then close_bracket c opened
    else if c == b')'
    then close_bracket c opened
    else if c == b'}'
    then close_bracket c opened
    else some opened

unfoldable pub go_on : (List ℕ → Option (List ℕ)) → Option (List ℕ) → Option (List ℕ)
go_on next none = none
go_on next (some opened) = next opened

-- The brackets that are open behind a text; `none` if one is closed by another.
unfoldable pub scan_brackets : (angles : Bool) → Text → List ℕ → Option (List ℕ)
unfolding after_char go_on
scan_brackets angles [] opened = some opened
scan_brackets angles (c ∷ cs) opened = go_on (scan_brackets angles cs) (after_char angles c opened)

-- Each bracket in the text is closed in it, in the right order.
abbrev pub IsBalancedIn : (angles : Bool) → Text → Type 0
IsBalancedIn angles x =
    (rest : Text) (opened : List ℕ)
    → scan_brackets angles (x ++ rest) opened ≡ scan_brackets angles rest opened

abbrev pub IsBalanced : Text → Type 0
IsBalanced = IsBalancedIn true

-- A character that is no bracket.
abbrev pub IsPlain : ℕ → Type 0
IsPlain c = (c ≢ b'<') × (c ≢ b'(') × (c ≢ b'{') × (c ≢ b'>') × (c ≢ b')') × (c ≢ b'}')

plain-after_char :
    (angles : Bool) (c : ℕ) (opened : List ℕ) → IsPlain c → after_char angles c opened ≡ some opened
unfolding after_char
plain-after_char true c opened h = ground (arith, h)
plain-after_char false c opened h = ground (arith, h)

pub plain-IsBalanced : (angles : Bool) (x : Text) → All IsPlain x → IsBalancedIn angles x
unfolding scan_brackets
plain-IsBalanced angles [] h rest opened = refl
plain-IsBalanced angles (c ∷ cs) h rest opened =
    ap (go_on (scan_brackets angles (cs ++ rest))) (plain-after_char angles c opened h.0)
    ∙ plain-IsBalanced angles cs h.1 rest opened

pub append-IsBalanced :
    (angles : Bool) (x y : Text)
    → IsBalancedIn angles x
    → IsBalancedIn angles y
    → IsBalancedIn angles (x ++ y)
append-IsBalanced angles x y h k rest opened =
    rw append_assoc (h (y ++ rest) opened ∙ k rest opened)

literal : IsBalanced (codes "virtual ~async_() {}\n\n")
unfolding scan_brackets
literal rest opened = refl
