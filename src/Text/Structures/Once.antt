-- ===== src/Text/Structures/Once.antt =====
-- A structure is defined once; behind that its name is printed.
use warpcoil.Base.{
  ℕ, ◌≡◌, refl, sym, ◌∙◌, ap, subst, List, [], ◌++◌, Bool, true, false, ◌||◌, codes, append-nil,
  append_assoc,
}
use warpcoil.Types.Syntax.{
  WireType, Elements, Fields, integer, variant, tuple, vector, utf8, structure, nil, cons,
}
use warpcoil.Text.{Text, Sink, own, shared, Output, Print, append_to}
use warpcoil.Text.Names.{generate_name_for_structure}
use warpcoil.Text.Types.{
  is_found, require_with, generate_type, generate_types, generate_members, generate_getters, comma,
}
use warpcoil.Text.Structures.{
  structures, structures_of_elements, structures_of_fields, IsClosed, or_left, or_right,
  is_found-append, is_found-head,
}
use warpcoil.Text.Structures.Printing.{generate_type-Adds}
use warpcoil.Text.Structures.Own.{
  type_text, type_texts, type_texts-cons, add_element-comma, own-type_text,
}

-- All of these are in the set.
AllFound : List Fields → List Fields → Type 0
AllFound needed g = (f : Fields) → is_found f needed ≡ true → is_found f g ≡ true

append_to-append_to :
    (into : Sink) (a b : Text) (out : Output)
    → append_to into b (append_to into a out) ≡ append_to into (a ++ b) out
append_to-append_to own a b out = rw append_assoc refl
append_to-append_to shared a b out = rw append_assoc refl

append_to-kept :
    (into : Sink) (a : Text) (out : Output)
    → (append_to into a out).generated_structures ≡ out.generated_structures
append_to-kept own a out = refl
append_to-kept shared a out = refl

nothing : (into : Sink) (out : Output) → out ≡ append_to into [] out
nothing own out = rw append-nil refl
nothing shared out = rw append-nil refl

later :
    (into : Sink) (a : Text) (needed : List Fields) (out : Output)
    → AllFound needed out.generated_structures
    → AllFound needed (append_to into a out).generated_structures
later into a needed out h = subst (AllFound needed) (sym (append_to-kept into a out)) h

front : (s t g : List Fields) → AllFound (s ++ t) g → AllFound s g
unfolding AllFound
front s t g h f k = h f (is_found-append f s t ∙ or_left (is_found f s) (is_found f t) k)

back : (s t g : List Fields) → AllFound (s ++ t) g → AllFound t g
unfolding AllFound
back s t g h f k = h f (is_found-append f s t ∙ or_right (is_found f s) (is_found f t) k)

enclosed :
    (into : Sink) (opening x closing : Text) (p : Print) (out : Output)
    → p (append_to into opening out) ≡ append_to into x (append_to into opening out)
    → append_to into closing (p (append_to into opening out))
      ≡ append_to into (opening ++ (x ++ closing)) out
enclosed into opening x closing p out e =
    ap (append_to into closing) e
    ∙ append_to-append_to into x closing (append_to into opening out)
    ∙ append_to-append_to into opening (x ++ closing) out

module _ (lexical_cast : ℕ → Text) (m_indentation : ℕ) where
  require_with-found :
      (s : Fields) (members getters : ℕ → Print) (out : Output)
      → is_found s out.generated_structures ≡ true
      → require_with lexical_cast m_indentation s members getters out ≡ out
  unfolding require_with
  require_with-found s members getters out h = rw h refl

  mutual
    unfolding generate_type generate_types type_text type_texts AllFound

    generate_type-AllFound :
        (into : Sink) (t : WireType) (out : Output)
        → AllFound (structures t) out.generated_structures
        → generate_type lexical_cast m_indentation into t out ≡ append_to into (type_text t) out
    generate_type-AllFound into (integer range) out h = refl
    generate_type-AllFound into (variant root) out h =
        enclosed into (codes "Si::variant<") (type_texts true root) (codes ">")
          (generate_types lexical_cast m_indentation into true root) out
          (generate_types-AllFound into true root (append_to into (codes "Si::variant<") out)
            (later into (codes "Si::variant<") (structures_of_elements root) out h))
    generate_type-AllFound into (tuple root) out h =
        enclosed into (codes "std::tuple<") (type_texts true root) (codes ">")
          (generate_types lexical_cast m_indentation into true root) out
          (generate_types-AllFound into true root (append_to into (codes "std::tuple<") out)
            (later into (codes "std::tuple<") (structures_of_elements root) out h))
    generate_type-AllFound into (vector length element) out h =
        enclosed into (codes "std::vector<") (type_text element) (codes ">")
          (generate_type lexical_cast m_indentation into element) out
          (generate_type-AllFound into element (append_to into (codes "std::vector<") out)
            (later into (codes "std::vector<") (structures element) out h))
    generate_type-AllFound into (utf8 code_units) out h = refl
    generate_type-AllFound into (structure root) out h =
        ap (append_to into (generate_name_for_structure root)) (
          require_with-found root (generate_members lexical_cast m_indentation root)
            (generate_getters lexical_cast m_indentation (generate_name_for_structure root) 0 root)
            out (h root (is_found-head root root (structures_of_fields root) refl)))

    generate_types-AllFound :
        (into : Sink) (first : Bool) (ts : Elements) (out : Output)
        → AllFound (structures_of_elements ts) out.generated_structures
        → generate_types lexical_cast m_indentation into first ts out
          ≡ append_to into (type_texts first ts) out
    generate_types-AllFound into first nil out h = nothing into out
    generate_types-AllFound into first (cons t ts) out h =
        let start = append_to into (comma first) out in
        let kept = later into (comma first) (structures t ++ structures_of_elements ts) out h in
        ap
          (λ o.
            generate_types lexical_cast m_indentation into false ts
              (generate_type lexical_cast m_indentation into t o))
          (add_element-comma into first out)
        ∙ ap (generate_types lexical_cast m_indentation into false ts) (
            generate_type-AllFound into t start
              (front (structures t) (structures_of_elements ts) start.generated_structures kept))
        ∙ generate_types-AllFound into false ts (append_to into (type_text t) start) (
            later into (type_text t) (structures_of_elements ts) start
              (back (structures t) (structures_of_elements ts) start.generated_structures kept))
        ∙ append_to-append_to into (type_text t) (type_texts false ts) start
        ∙ append_to-append_to into (comma first) (type_text t ++ type_texts false ts) out
        ∙ ap (λ x. append_to into x out) (sym (type_texts-cons first t ts))

  -- If with each generated structure those in it are generated, generate_type appends to its own
  -- sink a text that depends on the type alone; behind it the generated structures are those
  -- before and those in the type, with each of them those in it are generated, and a second
  -- generate_type of the type adds its text and changes nothing else.
  pub generate_type-once :
      (t : WireType) (out : Output)
      → IsClosed out.generated_structures
      → let after = generate_type lexical_cast m_indentation own t out in
        (after.own_text ≡ out.own_text ++ type_text t)
        × (generate_type lexical_cast m_indentation own t after ≡ append_to own (type_text t) after)
        × IsClosed after.generated_structures
        × ((f : Fields)
            → is_found f after.generated_structures
              ≡ is_found f out.generated_structures || is_found f (structures t))
  unfolding AllFound
  generate_type-once t out c =
      let (closed, found) = generate_type-Adds lexical_cast m_indentation own t out c in
      (
        own-type_text lexical_cast m_indentation t out,
        generate_type-AllFound own t (generate_type lexical_cast m_indentation own t out) (λ f h.
            found f ∙ or_right (is_found f out.generated_structures) (is_found f (structures t)) h),
        closed,
        found,
      )
