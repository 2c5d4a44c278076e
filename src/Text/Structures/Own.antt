-- ===== src/Text/Structures/Own.antt =====
-- What `generate_type` prints to its own sink, whatever was generated before.
use warpcoil.Base.{
  ℕ, suc, ◌≡◌, refl, sym, ◌∙◌, ap, [], ◌++◌, Bool, true, false, codes, zero, Bool-cases, inl, inr,
  append-nil, append_assoc,
}
use warpcoil.Types.Syntax.{
  WireType, Elements, Fields, integer, variant, tuple, vector, utf8, structure, nil, cons, end,
  field,
}
use warpcoil.Text.{Text, Sink, own, shared, Output, Print, append_to, in_order, add_element, render}
use warpcoil.Text.Names.{generate_name_for_structure}
use warpcoil.Text.Types.{
  is_found, insert_structure, define_structure, in_namespace, in_namespace_cpp, require_with,
  generate_type, generate_types, generate_members, generate_getters, getter_end, uint_cpp_type,
  append_name, specialization, empty_parser, element_parser_types, parser_type_text, comma,
}

-- The C++ type of a wire type, once its structures have names.
unfoldable mutual
  pub type_text : WireType → Text
  type_text (integer range) = uint_cpp_type range
  type_text (variant root) = codes "Si::variant<" ++ type_texts true root ++ codes ">"
  type_text (tuple root) = codes "std::tuple<" ++ type_texts true root ++ codes ">"
  type_text (vector length element) = codes "std::vector<" ++ type_text element ++ codes ">"
  type_text (utf8 code_units) = codes "std::string"
  type_text (structure root) = generate_name_for_structure root

  pub type_texts : (first : Bool) → Elements → Text
  type_texts first nil = []
  type_texts first (cons element rest) = comma first ++ (type_text element ++ type_texts false rest)

pub type_texts-cons :
    (first : Bool) (t : WireType) (ts : Elements)
    → type_texts first (cons t ts) ≡ comma first ++ (type_text t ++ type_texts false ts)
unfolding type_text type_texts
type_texts-cons first t ts = refl

pub add_element-comma :
    (into : Sink) (first : Bool) (out : Output)
    → add_element into first out ≡ append_to into (comma first) out
add_element-comma own true out = rw append-nil refl
add_element-comma shared true out = rw append-nil refl
add_element-comma into false out = refl

in_brackets :
    (opening : Text) (p : Print) (x : Text) (out : Output)
    → ((o : Output) → (p o).own_text ≡ o.own_text ++ x)
    → (p (append_to own opening out)).own_text ++ codes ">"
      ≡ out.own_text ++ ((opening ++ x) ++ codes ">")
in_brackets opening p x out e =
    rw (e (append_to own opening out)) (rw (append_assoc, append_assoc, append_assoc) refl)

module _ (lexical_cast : ℕ → Text) (m_indentation : ℕ) where
  -- What prints to the shared sink only.
  abbrev KeepsOwn : Print → Type 0
  KeepsOwn p = (out : Output) → (p out).own_text ≡ out.own_text

  render-KeepsOwn : (amount : ℕ) → KeepsOwn (render shared amount)
  unfolding render
  render-KeepsOwn zero out = refl
  render-KeepsOwn (suc amount) out = render-KeepsOwn amount (append_to shared (codes "    ") out)

  element_parser_types-KeepsOwn :
      (s : Fields) → KeepsOwn (in_order (element_parser_types lexical_cast m_indentation s))
  element_parser_types-KeepsOwn end out = refl
  element_parser_types-KeepsOwn (field what name rest) out =
      element_parser_types-KeepsOwn rest
        (append_to shared (parser_type_text what) (append_to shared (codes ", ") out))

  specialization-KeepsOwn :
      (s : Fields) (getters : ℕ → Print) (l : ℕ)
      → ((n : ℕ) → KeepsOwn (getters n))
      → KeepsOwn (specialization lexical_cast m_indentation s getters l)
  unfolding specialization append_name empty_parser
  specialization-KeepsOwn end getters l a out = simp (render-KeepsOwn)
  specialization-KeepsOwn (field what name rest) getters l a out =
      simp (render-KeepsOwn, a, element_parser_types-KeepsOwn)

  insert_structure-KeepsOwn : (s : Fields) → KeepsOwn (insert_structure s)
  unfolding insert_structure
  insert_structure-KeepsOwn s out = elim (Bool-cases (is_found s out.generated_structures)) [
    | inl e ↦ rw e refl
    | inr e ↦ rw e refl
  ]

  define_structure-KeepsOwn :
      (s : Fields) (members getters : ℕ → Print)
      → ((n : ℕ) → KeepsOwn (members n))
      → ((n : ℕ) → KeepsOwn (getters n))
      → KeepsOwn (define_structure lexical_cast m_indentation s members getters)
  unfolding define_structure in_namespace in_namespace_cpp append_name
  define_structure-KeepsOwn s members getters a b out =
      let special : (n : ℕ) → KeepsOwn (specialization lexical_cast m_indentation s getters n) =
        λ n. specialization-KeepsOwn s getters n b in
      simp (render-KeepsOwn, a, special)

  require_with-KeepsOwn :
      (s : Fields) (members getters : ℕ → Print)
      → ((n : ℕ) → KeepsOwn (members n))
      → ((n : ℕ) → KeepsOwn (getters n))
      → KeepsOwn (require_with lexical_cast m_indentation s members getters)
  unfolding require_with
  require_with-KeepsOwn s members getters a b out =
      elim (Bool-cases (is_found s out.generated_structures)) [
        | inl e ↦ rw e refl
        | inr e ↦ rw e (
            insert_structure-KeepsOwn s
              (define_structure lexical_cast m_indentation s members getters out)
            ∙ define_structure-KeepsOwn s members getters a b out)
      ]

  mutual
    unfolding generate_type generate_types generate_members generate_getters

    shared-KeepsOwn : (t : WireType) → KeepsOwn (generate_type lexical_cast m_indentation shared t)
    shared-KeepsOwn (integer range) out = refl
    shared-KeepsOwn (variant root) out =
        all_shared-KeepsOwn true root (append_to shared (codes "Si::variant<") out)
    shared-KeepsOwn (tuple root) out =
        all_shared-KeepsOwn true root (append_to shared (codes "std::tuple<") out)
    shared-KeepsOwn (vector length element) out =
        shared-KeepsOwn element (append_to shared (codes "std::vector<") out)
    shared-KeepsOwn (utf8 code_units) out = refl
    shared-KeepsOwn (structure root) out =
        require_with-KeepsOwn root (generate_members lexical_cast m_indentation root)
          (generate_getters lexical_cast m_indentation (generate_name_for_structure root) 0 root)
          (members-KeepsOwn root) (getters-KeepsOwn root (generate_name_for_structure root) 0) out

    all_shared-KeepsOwn :
        (first : Bool) (ts : Elements)
        → KeepsOwn (generate_types lexical_cast m_indentation shared first ts)
    all_shared-KeepsOwn first nil out = refl
    all_shared-KeepsOwn true (cons t ts) out =
        all_shared-KeepsOwn false ts (generate_type lexical_cast m_indentation shared t out)
        ∙ shared-KeepsOwn t out
    all_shared-KeepsOwn false (cons t ts) out =
        let start = append_to shared (codes ", ") out in
        all_shared-KeepsOwn false ts (generate_type lexical_cast m_indentation shared t start)
        ∙ shared-KeepsOwn t start

    members-KeepsOwn :
        (s : Fields) (l : ℕ) → KeepsOwn (generate_members lexical_cast m_indentation s l)
    members-KeepsOwn end l out = refl
    members-KeepsOwn (field what name rest) l out =
        simp (members-KeepsOwn rest l, shared-KeepsOwn what, render-KeepsOwn)

    getters-KeepsOwn :
        (s : Fields) (required : Text) (index l : ℕ)
        → KeepsOwn (generate_getters lexical_cast m_indentation required index s l)
    getters-KeepsOwn end required index l out = refl
    getters-KeepsOwn (field what name rest) required index l out = simp (
      getters-KeepsOwn rest required (suc index) l,
      shared-KeepsOwn what,
      render-KeepsOwn,
      getter_end,
    )

  mutual
    unfolding generate_type generate_types type_text type_texts

    pub own-type_text :
        (t : WireType) (out : Output)
        → (generate_type lexical_cast m_indentation own t out).own_text
          ≡ out.own_text ++ type_text t
    own-type_text (integer range) out = refl
    own-type_text (variant root) out =
        in_brackets (codes "Si::variant<") (generate_types lexical_cast m_indentation own true root)
          (type_texts true root) out (own-type_texts true root)
    own-type_text (tuple root) out =
        in_brackets (codes "std::tuple<") (generate_types lexical_cast m_indentation own true root)
          (type_texts true root) out (own-type_texts true root)
    own-type_text (vector length element) out =
        in_brackets (codes "std::vector<") (generate_type lexical_cast m_indentation own element)
          (type_text element) out (own-type_text element)
    own-type_text (utf8 code_units) out = refl
    own-type_text (structure root) out =
        ap (λ x. x ++ generate_name_for_structure root)
          (require_with-KeepsOwn root (generate_members lexical_cast m_indentation root)
            (generate_getters lexical_cast m_indentation (generate_name_for_structure root) 0 root)
            (members-KeepsOwn root) (getters-KeepsOwn root (generate_name_for_structure root) 0)
            out)

    own-type_texts :
        (first : Bool) (ts : Elements) (out : Output)
        → (generate_types lexical_cast m_indentation own first ts out).own_text
          ≡ out.own_text ++ type_texts first ts
    own-type_texts first nil out = sym (append-nil out.own_text)
    own-type_texts first (cons t ts) out =
        let start = add_element own first out in
        own-type_texts false ts (generate_type lexical_cast m_indentation own t start)
        ∙ ap (λ x. x ++ type_texts false ts) (own-type_text t start)
        ∙ ap (λ o. (o.own_text ++ type_text t) ++ type_texts false ts)
            (add_element-comma own first out)
        ∙ rw (append_assoc, append_assoc) refl
        ∙ ap (λ x. out.own_text ++ x) (sym (type_texts-cons first t ts))
