-- ===== src/Text/Structures.antt =====
-- Which structures the set of generated structures holds after a type was printed.
pub mod Adding
pub mod Once
pub mod Own
pub mod Printing
pub mod Requiring
use warpcoil.Base.{
  ℕ, suc, ◌≡◌, refl, sym, ◌∙◌, ap, subst, List, [], ◌∷◌, ◌++◌, Bool, true, false, not, ◌&&◌, ◌||◌,
  Bool-cases, inl, inr, ◌⊎◌, if◌then◌else◌, codes, zero,
}
use warpcoil.Types.Syntax.{
  WireType, Elements, Fields, integer, variant, tuple, vector, utf8, structure, nil, cons, end,
  field, clone_fields,
}
use warpcoil.Types.Clone.{clone_fields_same}
use warpcoil.Types.Less.{less_structure, both_fields}
use warpcoil.Types.Order.Strict.{less_structure-IsStrictTotalOrder}
use warpcoil.Types.Order.{Verdict, below, above, same, fields-Verdict, fields-swap}
use warpcoil.Text.{
  Text, Sink, own, shared, Output, Print, append_to, in_order, start_line, block, add_element,
  render, append_each, continuation_block,
}
use warpcoil.Text.Names.{generate_name_for_structure}
use warpcoil.Text.Types.{
  is_found, insert_structure, require_with, generate_type, generate_types, generate_members,
  generate_getters, parser_type_text, uint_cpp_type, append_name, specialization, empty_parser,
  element_parser_types,
}

-- The structures in a type, itself included.
abbrev mutual
  pub structures : WireType → List Fields
  structures (integer range) = []
  structures (variant root) = structures_of_elements root
  structures (tuple root) = structures_of_elements root
  structures (vector length element) = structures element
  structures (utf8 code_units) = []
  structures (structure root) = root ∷ structures_of_fields root

  pub structures_of_elements : Elements → List Fields
  structures_of_elements nil = []
  structures_of_elements (cons element rest) = structures element ++ structures_of_elements rest

  pub structures_of_fields : Fields → List Fields
  structures_of_fields end = []
  structures_of_fields (field what name rest) = structures what ++ structures_of_fields rest

-- With a structure, those in it are in the set.
abbrev pub IsClosed : List Fields → Type 0
IsClosed g =
    (f h : Fields)
    → is_found f g ≡ true
    → is_found h (structures_of_fields f) ≡ true
    → is_found h g ≡ true

or_assoc : (a b c : Bool) → (a || b) || c ≡ a || (b || c)
or_assoc true b c = refl
or_assoc false b c = refl

or_false : (a : Bool) → a || false ≡ a
or_false true = refl
or_false false = refl

or_comm : (a b : Bool) → a || b ≡ b || a
or_comm true true = refl
or_comm true false = refl
or_comm false true = refl
or_comm false false = refl

or_absorbed : (a b : Bool) → (b ≡ true → a ≡ true) → a ≡ a || b
or_absorbed true b h = refl
or_absorbed false true h = h refl
or_absorbed false false h = refl

or-cases : (a b : Bool) → a || b ≡ true → (a ≡ true) ⊎ (b ≡ true)
or-cases true b h = inl refl
or-cases false b h = inr h

or_left : (a b : Bool) → a ≡ true → a || b ≡ true
or_left a b h = rw h

or_right : (a b : Bool) → b ≡ true → a || b ≡ true
or_right true b h = refl
or_right false b h = h

is_found-append :
    (f : Fields) (g h : List Fields) → is_found f (g ++ h) ≡ is_found f g || is_found f h
unfolding is_found
is_found-append f [] h = refl
is_found-append f (s ∷ ss) h =
    ap (λ b. (not (less_structure s f) && not (less_structure f s)) || b) (is_found-append f ss h)
    ∙ sym (or_assoc _ (is_found f ss) (is_found f h))

no_truth : false ≡ true → ⊥
no_truth h = cc

-- A structure finds itself only.
Verdict-same :
    (a b : Fields) (p q : Bool × Bool)
    → Verdict a b p
    → q ≡ (p.1, p.0)
    → not p.0 && not q.0 ≡ true
    → a ≡ b
Verdict-same a b p q below e h = absurd (no_truth h)
Verdict-same a b p q above e h = absurd (no_truth (rw e at h))
Verdict-same a b p q (same k) e h = k

found-same : (s f : Fields) → not (less_structure s f) && not (less_structure f s) ≡ true → s ≡ f
unfolding less_structure
found-same s f h =
    Verdict-same s f (both_fields s f) (both_fields f s) (fields-Verdict s f) (fields-swap s f) h

found_self : (f : Fields) → not (less_structure f f) && not (less_structure f f) ≡ true
found_self f = rw (less_structure-IsStrictTotalOrder.irreflexive f)

-- What is found is one of the structures.
is_found-cons :
    (f s : Fields) (ss : List Fields)
    → is_found f (s ∷ ss) ≡ true
    → (s ≡ f) ⊎ (is_found f ss ≡ true)
unfolding is_found
is_found-cons f s ss h =
    elim (or-cases (not (less_structure s f) && not (less_structure f s)) (is_found f ss) h) [
      | inl k ↦ inl (found-same s f k)
      | inr k ↦ inr k
    ]

is_found-head : (f s : Fields) (ss : List Fields) → s ≡ f → is_found f (s ∷ ss) ≡ true
unfolding is_found
is_found-head f s ss e = or_left _ (is_found f ss) (
    subst (λ r. not (less_structure r f) && not (less_structure f r) ≡ true) (sym e) (found_self f))

is_found-insert :
    (r f : Fields) (out : Output)
    → is_found f (insert_structure r out).generated_structures
      ≡ is_found f out.generated_structures || is_found f (r ∷ [])
unfolding insert_structure is_found
is_found-insert r f out = elim (Bool-cases (is_found r out.generated_structures)) [
  | inl e ↦ rw e (
      or_absorbed (is_found f out.generated_structures) (is_found f (r ∷ [])) (λ h.
        elim (is_found-cons f r [] h) [
          | inl same_one ↦ subst (λ x. is_found x out.generated_structures ≡ true) same_one e
          | inr k ↦ absurd (no_truth k)
        ]))
  | inr e ↦
      rw (e, clone_fields_same r)
        (is_found-append f (r ∷ []) out.generated_structures
          ∙ or_comm (is_found f (r ∷ [])) (is_found f out.generated_structures))
]
