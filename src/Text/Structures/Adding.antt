-- ===== src/Text/Structures/Adding.antt =====
-- What printing adds to the set of generated structures.
use warpcoil.Base.{
  ℕ, suc, ◌≡◌, refl, sym, ◌∙◌, ap, subst, List, [], ◌∷◌, ◌++◌, Bool, true, false, ◌||◌, codes, zero,
  append-nil,
}
use warpcoil.Types.Syntax.{Fields}
use warpcoil.Text.{
  Text, Sink, own, shared, Output, Print, append_to, in_order, start_line, block, add_element,
  render, append_each,
}
use warpcoil.Text.Types.{is_found}
use warpcoil.Text.Structures.{IsClosed, or_assoc, or_false, is_found-append}

-- Printing adds these structures.
abbrev pub Adds : Print → List Fields → Type 0
Adds p added =
    (out : Output)
    → IsClosed out.generated_structures
    → IsClosed (p out).generated_structures
      × ((f : Fields)
          → is_found f (p out).generated_structures
            ≡ is_found f out.generated_structures || is_found f added)

abbrev pub Keeps : Print → Type 0
Keeps p = (out : Output) → (p out).generated_structures ≡ out.generated_structures

pub Keeps-Adds : (p : Print) → Keeps p → Adds p []
unfolding is_found
Keeps-Adds p k out c = (subst IsClosed (sym (k out)) c, λ f. rw (k out) (sym (or_false _)))

pub Adds-then :
    (p q : Print) (s t : List Fields) → Adds p s → Adds q t → Adds (λ out. q (p out)) (s ++ t)
Adds-then p q s t a b out c =
    let (closed, found) = a out c in
    let (closed_too, found_too) = b (p out) closed in
    (
      closed_too,
      λ f.
          found_too f
          ∙ ap (λ x. x || is_found f t) (found f)
          ∙ or_assoc (is_found f out.generated_structures) (is_found f s) (is_found f t)
          ∙ ap (λ x. is_found f out.generated_structures || x) (sym (is_found-append f s t)),
    )

pub Keeps-then : (p q : Print) (s : List Fields) → Keeps p → Adds q s → Adds (λ out. q (p out)) s
Keeps-then p q s k b = Adds-then p q [] s (Keeps-Adds p k) b

pub then-Keeps : (p q : Print) (s : List Fields) → Adds p s → Keeps q → Adds (λ out. q (p out)) s
then-Keeps p q s a k =
    subst (Adds (λ out. q (p out))) (append-nil s) (Adds-then p q s [] a (Keeps-Adds q k))

pub append_to-Keeps : (into : Sink) (text : Text) → Keeps (append_to into text)
append_to-Keeps own text out = refl
append_to-Keeps shared text out = refl

pub add_element-Keeps : (into : Sink) (first : Bool) → Keeps (add_element into first)
add_element-Keeps into true out = refl
add_element-Keeps into false out = append_to-Keeps into (codes ", ") out

pub render-Keeps : (into : Sink) (amount : ℕ) → Keeps (render into amount)
unfolding render
render-Keeps into zero out = refl
render-Keeps into (suc amount) out =
    render-Keeps into amount (append_to into (codes "    ") out)
    ∙ append_to-Keeps into (codes "    ") out

append_each-Keeps : (into : Sink) (texts : List Text) → Keeps (in_order (append_each into texts))
append_each-Keeps into [] out = refl
append_each-Keeps into (text ∷ texts) out =
    append_each-Keeps into texts (append_to into text out) ∙ append_to-Keeps into text out

pub start_line-Keeps :
    (into : Sink) (indentation : ℕ) (content : List Text)
    → Keeps (start_line into indentation content)
start_line-Keeps into indentation content out =
    append_each-Keeps into content (render into indentation out) ∙ render-Keeps into indentation out

pub two_Keeps : (p q : Print) → Keeps p → Keeps q → Keeps (λ out. q (p out))
two_Keeps p q k l out = l (p out) ∙ k out

pub block-Adds :
    (into : Sink) (indentation : ℕ) (content : ℕ → Print) (finish : Text) (s : List Fields)
    → Adds (content (suc indentation)) s
    → Adds (block into indentation content finish) s
block-Adds into indentation content finish s a =
    Keeps-then (λ out. append_to into (codes "{\n") (render into indentation out))
      (λ out.
        append_to into finish
          (append_to into (codes "}") (render into indentation (content (suc indentation) out))))
      s
      (two_Keeps (render into indentation) (append_to into (codes "{\n"))
        (render-Keeps into indentation) (append_to-Keeps into (codes "{\n")))
      (then-Keeps (content (suc indentation))
        (λ out. append_to into finish (append_to into (codes "}") (render into indentation out))) s
        a
        (two_Keeps (λ out. append_to into (codes "}") (render into indentation out))
          (append_to into finish)
          (two_Keeps (render into indentation) (append_to into (codes "}"))
            (render-Keeps into indentation) (append_to-Keeps into (codes "}")))
          (append_to-Keeps into finish)))
