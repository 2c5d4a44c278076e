-- ===== src/Text/Brackets/Round.antt =====
-- The brackets `(` and `{` of a text alone, for texts in which `<` and `>` are operators too.
use warpcoil.Base.{
  ℕ, ◌≡◌, sym, ◌∙◌, ap, List, [], ◌∷◌, ◌++◌, append-nil, true, false, some, ◌==◌, arith,
  if◌then◌else◌, Option-cases, inl, inr,
}
use warpcoil.Text.{Text}
use warpcoil.Text.Brackets.{
  IsBalanced, IsBalancedIn, scan_brackets, after_char, close_bracket, go_on,
}

-- Each of the brackets `(` and `{` in the text is closed in it, in the right order.
abbrev pub IsRoundBalanced : Text → Type 0
IsRoundBalanced = IsBalancedIn false

-- What closes the brackets that are open behind one, two and three `(`, and behind `{`.
abbrev pub in_one : List ℕ
in_one = b')' ∷ []

abbrev pub in_two : List ℕ
in_two = b')' ∷ in_one

abbrev pub in_three : List ℕ
in_three = b')' ∷ in_two

abbrev pub in_block : List ℕ
in_block = b'}' ∷ []

without_angles : List ℕ → List ℕ
without_angles [] = []
without_angles (c ∷ opened) =
    let rest = without_angles opened in if c == b'>' then rest else c ∷ rest

round-after_char :
    (c : ℕ) (opened after : List ℕ)
    → after_char true c opened ≡ some after
    → after_char false c (without_angles opened) ≡ some (without_angles after)
unfolding after_char close_bracket without_angles
round-after_char c [] after h = ground (arith, h)
round-after_char c (x ∷ opened) after h = ground (arith, h)

further-after_char :
    (c : ℕ) (opened after further : List ℕ)
    → after_char false c opened ≡ some after
    → after_char false c (opened ++ further) ≡ some (after ++ further)
unfolding after_char close_bracket
further-after_char c [] after further h = ground (arith, h)
further-after_char c (x ∷ opened) after further h = ground (arith, h)

round-scan_brackets :
    (x : Text) (opened after : List ℕ)
    → scan_brackets true x opened ≡ some after
    → scan_brackets false x (without_angles opened) ≡ some (without_angles after)
unfolding scan_brackets go_on
round-scan_brackets [] opened after h = grind (arith, h)
round-scan_brackets (c ∷ x) opened after h = elim (Option-cases (after_char true c opened)) [
  | inl e ↦ ground (arith, h, e)
  | inr (next, e) ↦
      rw (round-after_char c opened next e)
        (round-scan_brackets x next after (ground (arith, h, e)))
]

further-scan_brackets :
    (x : Text) (opened after rest further : List ℕ)
    → scan_brackets false x opened ≡ some after
    → scan_brackets false (x ++ rest) (opened ++ further)
      ≡ scan_brackets false rest (after ++ further)
unfolding scan_brackets go_on
further-scan_brackets [] opened after rest further h = grind (arith, h)
further-scan_brackets (c ∷ x) opened after rest further h =
    elim (Option-cases (after_char false c opened)) [
      | inl e ↦ ground (arith, h, e)
      | inr (next, e) ↦
          rw (further-after_char c opened next further e)
            (further-scan_brackets x next after rest further (ground (arith, h, e)))
    ]

-- A text that closes all brackets closes the round ones.
pub IsBalanced-round : (x : Text) → IsBalanced x → IsRoundBalanced x
unfolding scan_brackets without_angles
IsBalanced-round x h rest opened =
    further-scan_brackets x [] [] rest opened (
      round-scan_brackets x [] []
        (ap (λ y. scan_brackets true y []) (sym (append-nil x)) ∙ h [] []))
