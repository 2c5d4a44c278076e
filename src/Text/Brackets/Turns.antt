-- ===== src/Text/Brackets/Turns.antt =====
-- Texts that are printed piece by piece, and their brackets.
use warpcoil.Base.{
  Bool, true, ℕ, zero, suc, ◌≡◌, refl, sym, ◌∙◌, ap, List, [], ◌∷◌, ◌++◌, append_assoc, append-nil,
  All, codes,
}
use warpcoil.Text.{
  Text, Output, Print, Sink, own, shared, append_to, in_order, render, block, continuation_block,
  start_line,
}
use warpcoil.Text.Brackets.{IsBalancedIn, IsPlain, scan_brackets, plain-IsBalanced}

abbrev pub text_of : Sink → Output → Text
text_of own out = out.own_text
text_of shared out = out.shared_text

text_of-append_to :
    (into : Sink) (x : Text) (out : Output)
    → text_of into (append_to into x out) ≡ text_of into out ++ x
text_of-append_to own x out = refl
text_of-append_to shared x out = refl

-- What is printed to this sink takes the innermost open brackets from these to those.
pub record TurnsIn (angles : Bool) (seen : Sink) (p : Print) (before after : List ℕ) : Type 0 where
  pub turned :
      (out : Output)
      → (x : Text) × (text_of seen (p out) ≡ text_of seen out ++ x)
        × ((rest : Text) (opened : List ℕ)
            → scan_brackets angles (x ++ rest) (before ++ opened)
              ≡ scan_brackets angles rest (after ++ opened))

abbrev pub Turns : Sink → Print → List ℕ → List ℕ → Type 0
Turns = TurnsIn true

pub finished : {angles : Bool} {seen : Sink} (a : List ℕ) → TurnsIn angles seen (in_order []) a a
finished {seen = seen} a = record {
  turned = λ out. ([], sym (append-nil (text_of seen out)), λ rest opened. refl);
}

first_then :
    {angles : Bool} {seen : Sink} (p : Print) (ps : List Print) (a b c : List ℕ)
    → TurnsIn angles seen p a b
    → TurnsIn angles seen (in_order ps) b c
    → TurnsIn angles seen (in_order (p ∷ ps)) a c
first_then {seen = seen} p ps a b c h k = record {
  turned = λ out.
      let (x, e, f) = h.turned out in
      let (y, g, l) = k.turned (p out) in
      (
        x ++ y,
        g ∙ ap (λ t. t ++ y) e ∙ append_assoc (text_of seen out) x y,
        λ rest opened. rw append_assoc (f (y ++ rest) opened ∙ l rest opened),
      );
}

-- Brackets further out do not matter.
pub further_out :
    {angles : Bool} {seen : Sink} (p : Print) (a : List ℕ)
    → TurnsIn angles seen p [] []
    → TurnsIn angles seen p a a
further_out p a h = record {
  turned = λ out. let (x, e, f) = h.turned out in (x, e, λ rest opened. f rest (a ++ opened));
}

pub literal :
    {angles : Bool} {seen : Sink} (x : Text) (a b : List ℕ)
    → ((rest : Text) (opened : List ℕ)
        → scan_brackets angles (x ++ rest) (a ++ opened) ≡ scan_brackets angles rest (b ++ opened))
    → TurnsIn angles seen (append_to seen x) a b
literal {seen = seen} x a b h = record { turned = λ out. (x, text_of-append_to seen x out, h) }

pub balanced :
    {angles : Bool} {seen : Sink} (x : Text) (a : List ℕ)
    → IsBalancedIn angles x
    → TurnsIn angles seen (append_to seen x) a a
balanced x a h = literal x a a (λ rest opened. h rest (a ++ opened))

pub plain :
    {angles : Bool} {seen : Sink} (x : Text) (a : List ℕ)
    → All IsPlain x
    → TurnsIn angles seen (append_to seen x) a a
plain {angles = angles} x a h = balanced x a (plain-IsBalanced angles x h)

spaces :
    {angles : Bool} {seen : Sink} (a : List ℕ)
    → TurnsIn angles seen (append_to seen (codes "    ")) a a
unfolding scan_brackets
spaces {seen = seen} a = literal (codes "    ") a a (λ rest opened. refl)

pub render-Turns :
    {angles : Bool} {seen : Sink} (amount : ℕ) (a : List ℕ)
    → TurnsIn angles seen (render seen amount) a a
unfolding render
render-Turns {seen = seen} zero a = finished a
render-Turns {seen = seen} (suc amount) a =
    first_then (append_to seen (codes "    ")) (render seen amount ∷ []) a a a (spaces a)
      (first_then (render seen amount) [] a a a (render-Turns amount a) (finished a))

-- Prints in order, each of which goes on where the one before it ended.
pub data Chain (angles : Bool) (seen : Sink) : List Print → List ℕ → List ℕ → Type 0 where
  done : {a : List ℕ} → Chain angles seen [] a a
  next :
      {p : Print} {ps : List Print} {a b c : List ℕ}
      → TurnsIn angles seen p a b
      → Chain angles seen ps b c
      → Chain angles seen (p ∷ ps) a c

-- `next` between its arguments.
infixr 20 ◌&>◌
abbrev pub ◌&>◌ :
    {angles : Bool} {seen : Sink} {p : Print} {ps : List Print} {a b c : List ℕ}
    → TurnsIn angles seen p a b
    → Chain angles seen ps b c
    → Chain angles seen (p ∷ ps) a c
◌&>◌ h k = next h k

pub chain-Turns :
    {angles : Bool} {seen : Sink} (ps : List Print) (a c : List ℕ)
    → Chain angles seen ps a c
    → TurnsIn angles seen (in_order ps) a c
chain-Turns [] a _ done = finished a
chain-Turns (p ∷ ps) a c (next {b = b} h k) = first_then p ps a b c h (chain-Turns ps b c k)

pub block-Turns :
    {angles : Bool} {seen : Sink} (indentation : ℕ) (content : ℕ → Print) (finish : Text)
    → TurnsIn angles seen (content (suc indentation)) [] []
    → IsBalancedIn angles finish
    → TurnsIn angles seen (block seen indentation content finish) [] []
unfolding scan_brackets
block-Turns {seen = seen} indentation content finish h k =
    let closing = b'}' ∷ [] in
    chain-Turns (render seen indentation ∷ continuation_block seen indentation content finish ∷ [])
      [] []
      (next (render-Turns indentation []) (
        next
          (chain-Turns
            (append_to seen (codes "{\n")
              ∷ content (suc indentation)
              ∷ render seen indentation
              ∷ append_to seen (codes "}")
              ∷ append_to seen finish
              ∷ [])
            [] []
            (next (literal (codes "{\n") [] closing (λ rest opened. refl)) (
              next (further_out (content (suc indentation)) closing h) (
                next (render-Turns indentation closing) (
                  next (literal (codes "}") closing [] (λ rest opened. refl))
                    (next (literal finish [] [] k) done))))))
          done))

pub line-Turns :
    {angles : Bool} {seen : Sink} (indentation : ℕ) (content : Text)
    → IsBalancedIn angles content
    → TurnsIn angles seen (start_line seen indentation (content ∷ [])) [] []
line-Turns {seen = seen} indentation content h =
    chain-Turns (render seen indentation ∷ append_to seen content ∷ []) [] []
      (next (render-Turns indentation []) (next (literal content [] [] h) done))
