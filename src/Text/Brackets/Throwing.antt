-- ===== src/Text/Brackets/Throwing.antt =====
-- The brackets of texts whose printing can throw an exception.
use warpcoil.Base.{
  ℕ, suc, ◌≡◌, refl, ◌∙◌, ap, List, [], ◌∷◌, ◌++◌, append_assoc, append-nil, sym, Bool, true, false,
  ◌&&◌, Option, none, some, codes, if◌then◌else◌, arith,
}
use mathlib.Core.Option
use warpcoil.Text.{
  Text, Output, Print, PrintOrThrow, own, returns, in_turn, after_print, block_or_throw,
}
use warpcoil.Text.Brackets.{scan_brackets}
use warpcoil.Text.Brackets.Round.{IsRoundBalanced, in_block}
use warpcoil.Text.Brackets.Turns.{TurnsIn, done, ◌&>◌, literal, render-Turns, chain-Turns}

abbrev pub text_if : (ok : Bool) → Text → Option Text
text_if ok x = if ok then some x else none

abbrev pub text_after : Option Output → Option Text
text_after = Option.map (λ out. out.own_text)

-- What is printed to the own sink takes the open brackets from these to those; there is an
-- exception exactly if `ok` is false.
pub record TurnsIf (ok : Bool) (p : PrintOrThrow) (before after : List ℕ) : Type 0 where
  pub turned :
      (out : Output)
      → (x : Text) × (text_after (p out) ≡ text_if ok (out.own_text ++ x))
        × ((rest : Text) (opened : List ℕ)
            → scan_brackets false (x ++ rest) (before ++ opened)
              ≡ scan_brackets false rest (after ++ opened))

pub returns-TurnsIf :
    {p : Print} {a b : List ℕ} → TurnsIn false own p a b → TurnsIf true (returns p) a b
returns-TurnsIf h = record { turned = λ out. let (x, e, f) = h.turned out in (x, ap some e, f) }

pub nothing-TurnsIf : (a : List ℕ) → TurnsIf true (in_turn []) a a
unfolding in_turn
nothing-TurnsIf a = record {
  turned = λ out. ([], ap some (sym (append-nil out.own_text)), λ rest opened. refl);
}

-- Behind a text that ends with an output or an exception.
after_text :
    (ps : List PrintOrThrow) (first ok : Bool) (b c : List ℕ) (q : Option Output) (t : Text)
    (out : Output)
    → text_after q ≡ text_if first t
    → TurnsIf ok (in_turn ps) b c
    → (y : Text) × (text_after (after_print (in_turn ps) q) ≡ text_if (first && ok) (t ++ y))
      × ((rest : Text) (opened : List ℕ)
          → scan_brackets false (y ++ rest) (b ++ opened) ≡ scan_brackets false rest (c ++ opened))
unfolding after_print
after_text ps false ok b c none t out h k = let (y, e, f) = k.turned out in (y, refl, f)
after_text ps false ok b c (some o) t out h k = ground (arith, h)
after_text ps true ok b c none t out h k = ground (arith, h)
after_text ps true ok b c (some o) t out h k =
    let (y, e, f) = k.turned o in
    let same : o.own_text ≡ t = grind (arith, h) in (y, e ∙ ap (λ s. text_if ok (s ++ y)) same, f)

text_if-append :
    (ok : Bool) (s x y : Text) → text_if ok ((s ++ x) ++ y) ≡ text_if ok (s ++ (x ++ y))
text_if-append ok s x y = ap (text_if ok) (append_assoc s x y)

pub then-TurnsIf :
    {p : PrintOrThrow} {first ok : Bool} {a b c : List ℕ} (ps : List PrintOrThrow)
    → TurnsIf first p a b
    → TurnsIf ok (in_turn ps) b c
    → TurnsIf (first && ok) (in_turn (p ∷ ps)) a c
unfolding in_turn
then-TurnsIf {p = p} {first = first} {ok = ok} {b = b} {c = c} ps h k = record {
  turned = λ out.
      let (x, e, f) = h.turned out in
      let (y, g, l) = after_text ps first ok b c (p out) (out.own_text ++ x) out e k in
      (
        x ++ y,
        g ∙ text_if-append (first && ok) out.own_text x y,
        λ rest opened. rw append_assoc (f (y ++ rest) opened ∙ l rest opened),
      );
}

and_true :
    {ok : Bool} {p : PrintOrThrow} {a b : List ℕ} → TurnsIf (ok && true) p a b → TurnsIf ok p a b
and_true {ok = true} h = h
and_true {ok = false} h = h

pub last-TurnsIf :
    {ok : Bool} {p : PrintOrThrow} {a b : List ℕ}
    → TurnsIf ok p a b
    → TurnsIf ok (in_turn (p ∷ [])) a b
last-TurnsIf {b = b} h = and_true (then-TurnsIf _ h (nothing-TurnsIf b))

pub with_last :
    {ok : Bool} {p : PrintOrThrow} {q : Print} {a b c : List ℕ}
    → TurnsIf ok p a b
    → TurnsIn false own q b c
    → TurnsIf ok (in_turn (p ∷ returns q ∷ [])) a c
with_last h k = and_true (then-TurnsIf _ h (last-TurnsIf (returns-TurnsIf k)))

-- Statements of which the second can throw.
pub between-TurnsIf :
    {p r : Print} {q : PrintOrThrow} {ok : Bool} {a b c d : List ℕ}
    → TurnsIn false own p a b
    → TurnsIf ok q b c
    → TurnsIn false own r c d
    → TurnsIf ok (in_turn (returns p ∷ q ∷ returns r ∷ [])) a d
between-TurnsIf {d = d} h k l = and_true (
    then-TurnsIf _ (returns-TurnsIf h)
      (then-TurnsIf _ k (then-TurnsIf _ (returns-TurnsIf l) (nothing-TurnsIf d))))

pub further-TurnsIf :
    {ok : Bool} {p : PrintOrThrow} (a : List ℕ) → TurnsIf ok p [] [] → TurnsIf ok p a a
further-TurnsIf a h = record {
  turned = λ out. let (x, e, f) = h.turned out in (x, e, λ rest opened. f rest (a ++ opened));
}

pub block-TurnsIf :
    {ok : Bool} (l : ℕ) (content : ℕ → PrintOrThrow) (finish : Text)
    → TurnsIf ok (content (suc l)) [] []
    → IsRoundBalanced finish
    → TurnsIf ok (block_or_throw own l content finish) [] []
unfolding block_or_throw scan_brackets
block-TurnsIf l content finish h k =
    between-TurnsIf
      (chain-Turns _ [] in_block
        (render-Turns l [] &> literal (codes "{\n") [] in_block (λ rest opened. refl) &> done))
      (further-TurnsIf in_block h)
      (chain-Turns _ in_block [] (
        render-Turns l in_block
        &> literal (codes "}") in_block [] (λ rest opened. refl)
        &> literal finish [] [] k
        &> done))
