-- ===== src/Text/Structures/Requiring.antt =====
-- What `require_structure` adds to the set of generated structures.
use warpcoil.Base.{
  ℕ, suc, ◌≡◌, refl, sym, ◌∙◌, ap, subst, [], ◌∷◌, ◌++◌, Bool, true, false, ◌||◌, codes, Bool-cases,
  inl, inr,
}
use warpcoil.Types.Syntax.{Fields, end, field}
use warpcoil.Text.{Text, shared, Output, Print, append_to, in_order, start_line, block}
use warpcoil.Text.Names.{generate_name_for_structure}
use warpcoil.Text.Types.{
  is_found, insert_structure, define_structure, in_namespace, in_namespace_cpp, require_with,
  parser_type_text, append_name, specialization, empty_parser, element_parser_types,
}
use warpcoil.Text.Structures.{
  structures_of_fields, IsClosed, or_absorbed, or-cases, or_left, or_right, is_found-append,
  is_found-cons, is_found-insert, no_truth,
}
use warpcoil.Text.Structures.Adding.{
  Adds, Keeps, Keeps-Adds, Adds-then, Keeps-then, append_to-Keeps, start_line-Keeps, render-Keeps,
  block-Adds,
}

doubled : (g s r : Bool) → (g || (s || s)) || (r || false) ≡ g || (r || s)
doubled true s r = refl
doubled false true true = refl
doubled false true false = refl
doubled false false true = refl
doubled false false false = refl

-- The structure itself is the last to be inserted.
insert-Adds :
    (body : Print) (r : Fields)
    → Adds body (structures_of_fields r ++ structures_of_fields r)
    → Adds (λ out. insert_structure r (body out)) (r ∷ structures_of_fields r)
unfolding is_found
insert-Adds body r a out c =
    let (closed, found) = a out c in
    let inner = structures_of_fields r in
    let before = (body out).generated_structures in
    (
      λ f h p q.
          is_found-insert r h (body out)
          ∙ or_left (is_found h before) (is_found h (r ∷ []))
              (elim (or-cases (is_found f before) (is_found f (r ∷ []))
                (sym (is_found-insert r f (body out)) ∙ p)) [
                  | inl k ↦ closed f h k q
                  | inr k ↦ elim (is_found-cons f r [] k) [
                    | inl e ↦
                        found h
                        ∙ or_right (is_found h out.generated_structures)
                            (is_found h (inner ++ inner))
                            (is_found-append h inner inner
                              ∙ or_left (is_found h inner) (is_found h inner) (
                                  subst (λ x. is_found h (structures_of_fields x) ≡ true) (sym e)
                                    q))
                    | inr n ↦ absurd (no_truth n)
                  ]
                ]),
      λ f.
          is_found-insert r f (body out)
          ∙ ap (λ x. x || is_found f (r ∷ []))
              (found f
                ∙ ap (λ x. is_found f out.generated_structures || x)
                    (is_found-append f inner inner))
          ∙ doubled (is_found f out.generated_structures) (is_found f inner) _,
    )

-- One that is found adds nothing.
found-Adds :
    (r : Fields) (out : Output)
    → is_found r out.generated_structures ≡ true
    → IsClosed out.generated_structures
    → (f : Fields)
    → is_found f out.generated_structures
      ≡ is_found f out.generated_structures || is_found f (r ∷ structures_of_fields r)
found-Adds r out e c f =
    or_absorbed (is_found f out.generated_structures) (is_found f (r ∷ structures_of_fields r))
      (λ h. elim (is_found-cons f r (structures_of_fields r) h) [
        | inl k ↦ subst (λ x. is_found x out.generated_structures ≡ true) k e
        | inr k ↦ c r f e k
      ])

module _ (lexical_cast : ℕ → Text) (m_indentation : ℕ) where
  append_name-Keeps : (s : Fields) → Keeps (append_name lexical_cast m_indentation s)
  unfolding append_name
  append_name-Keeps s = append_to-Keeps shared (generate_name_for_structure s)

  element_parser_types-Keeps :
      (s : Fields) → Keeps (in_order (element_parser_types lexical_cast m_indentation s))
  element_parser_types-Keeps end out = refl
  element_parser_types-Keeps (field what name rest) out =
      element_parser_types-Keeps rest
        (append_to shared (parser_type_text what) (append_to shared (codes ", ") out))

  empty_parser-Keeps : (s : Fields) (l : ℕ) → Keeps (empty_parser lexical_cast m_indentation s l)
  unfolding empty_parser append_name
  empty_parser-Keeps s l out = simp (render-Keeps)

  specialization-Adds :
      (s : Fields) (getters : ℕ → Print) (l : ℕ)
      → ((n : ℕ) → Adds (getters n) (structures_of_fields s))
      → Adds (specialization lexical_cast m_indentation s getters l) (structures_of_fields s)
  unfolding specialization append_name
  specialization-Adds end getters l a =
      Keeps-then (append_to shared (codes ">\n"))
        (block shared l (empty_parser lexical_cast m_indentation end) (codes ";\n")) []
        (append_to-Keeps shared (codes ">\n"))
        (block-Adds shared l (empty_parser lexical_cast m_indentation end) (codes ";\n") [] (
          Keeps-Adds (empty_parser lexical_cast m_indentation end (suc l))
            (empty_parser-Keeps end (suc l))))
  specialization-Adds (field what name rest) getters l a =
      Keeps-then _ (block shared l getters (codes ";\n")) _
        (λ out. element_parser_types-Keeps (field what name rest) _)
        (block-Adds shared l getters (codes ";\n") (structures_of_fields (field what name rest))
          (a (suc l)))

  in_namespace_cpp-Adds :
      (s : Fields) (getters : ℕ → Print) (l : ℕ)
      → ((n : ℕ) → Adds (getters n) (structures_of_fields s))
      → Adds (in_namespace_cpp lexical_cast m_indentation s getters l) (structures_of_fields s)
  unfolding in_namespace_cpp append_name
  in_namespace_cpp-Adds s getters l b =
      Keeps-then
        (λ out.
          append_name lexical_cast m_indentation s
            (start_line shared l (codes "template <> struct structure_parser<" ∷ []) out))
        (specialization lexical_cast m_indentation s getters l) (structures_of_fields s)
        (render-Keeps shared l) (specialization-Adds s getters l b)

  in_namespace-Adds :
      (s : Fields) (getters : ℕ → Print) (l : ℕ)
      → ((n : ℕ) → Adds (getters n) (structures_of_fields s))
      → Adds (in_namespace lexical_cast m_indentation s getters l) (structures_of_fields s)
  unfolding in_namespace
  in_namespace-Adds s getters l b =
      Keeps-then (start_line shared m_indentation (codes "namespace cpp" ∷ []))
        (block shared l (in_namespace_cpp lexical_cast m_indentation s getters) (codes "\n"))
        (structures_of_fields s)
        (start_line-Keeps shared m_indentation (codes "namespace cpp" ∷ []))
        (block-Adds shared l (in_namespace_cpp lexical_cast m_indentation s getters) (codes "\n")
          (structures_of_fields s) (in_namespace_cpp-Adds s getters (suc l) b))

  define_structure-Adds :
      (s : Fields) (members getters : ℕ → Print)
      → ((n : ℕ) → Adds (members n) (structures_of_fields s))
      → ((n : ℕ) → Adds (getters n) (structures_of_fields s))
      → Adds
          (define_structure lexical_cast m_indentation s members getters)
          (structures_of_fields s ++ structures_of_fields s)
  unfolding define_structure in_namespace append_name
  define_structure-Adds s members getters a b =
      let inner = structures_of_fields s in
      Keeps-then
        (λ out. append_to shared (codes "\n") (
          append_name lexical_cast m_indentation s
            (start_line shared m_indentation (codes "struct " ∷ []) out)))
        (in_order (
          block shared m_indentation members (codes ";\n")
          ∷ start_line shared m_indentation (codes "namespace warpcoil" ∷ [])
          ∷ block shared m_indentation (in_namespace lexical_cast m_indentation s getters)
              (codes "\n")
          ∷ []))
        (inner ++ inner) (λ out. render-Keeps shared m_indentation out)
        (Adds-then (block shared m_indentation members (codes ";\n"))
          (in_order (
            start_line shared m_indentation (codes "namespace warpcoil" ∷ [])
            ∷ block shared m_indentation (in_namespace lexical_cast m_indentation s getters)
                (codes "\n")
            ∷ []))
          inner inner
          (block-Adds shared m_indentation members (codes ";\n") inner (a (suc m_indentation)))
          (Keeps-then (start_line shared m_indentation (codes "namespace warpcoil" ∷ []))
            (block shared m_indentation (in_namespace lexical_cast m_indentation s getters)
              (codes "\n"))
            inner (start_line-Keeps shared m_indentation (codes "namespace warpcoil" ∷ []))
            (block-Adds shared m_indentation (in_namespace lexical_cast m_indentation s getters)
              (codes "\n") inner (in_namespace-Adds s getters (suc m_indentation) b))))

  pub require_with-Adds :
      (s : Fields) (members getters : ℕ → Print)
      → ((n : ℕ) → Adds (members n) (structures_of_fields s))
      → ((n : ℕ) → Adds (getters n) (structures_of_fields s))
      → Adds
          (require_with lexical_cast m_indentation s members getters)
          (s ∷ structures_of_fields s)
  unfolding require_with
  require_with-Adds s members getters a b out c =
      elim (Bool-cases (is_found s out.generated_structures)) [
        | inl e ↦ rw e (c, found-Adds s out e c)
        | inr e ↦ rw e (
            insert-Adds (define_structure lexical_cast m_indentation s members getters) s
              (define_structure-Adds s members getters a b) out c)
      ]
