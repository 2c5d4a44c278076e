-- ===== src/Text/Structures/Printing.antt =====
-- What `generate_type` adds to the set of generated structures.
use warpcoil.Base.{ℕ, suc, refl, List, [], ◌∷◌, ◌++◌, Bool, true, false, codes}
use warpcoil.Types.Syntax.{
  WireType, Elements, Fields, integer, variant, tuple, vector, utf8, structure, nil, cons, end,
  field,
}
use warpcoil.Text.{Text, Sink, shared, Print, append_to, in_order, start_line, add_element}
use warpcoil.Text.Names.{generate_name_for_structure}
use warpcoil.Text.Types.{
  require_with, generate_type, generate_types, generate_members, generate_getters, getter_end,
  uint_cpp_type,
}
use warpcoil.Text.Structures.{structures, structures_of_elements, structures_of_fields}
use warpcoil.Text.Structures.Adding.{
  Adds, Keeps, Keeps-Adds, Adds-then, Keeps-then, then-Keeps, append_to-Keeps, add_element-Keeps,
  start_line-Keeps, render-Keeps,
}
use warpcoil.Text.Structures.Requiring.{require_with-Adds}

enclosed-Adds :
    (into : Sink) (opening : Text) (p : Print) (s : List Fields)
    → Adds p s
    → Adds (in_order (append_to into opening ∷ p ∷ append_to into (codes ">") ∷ [])) s
enclosed-Adds into opening p s a =
    Keeps-then (append_to into opening) (λ out. append_to into (codes ">") (p out)) s
      (append_to-Keeps into opening)
      (then-Keeps p (append_to into (codes ">")) s a (append_to-Keeps into (codes ">")))

module _ (lexical_cast : ℕ → Text) (m_indentation : ℕ) where
  getter_end-Keeps :
      (required : Text) (index : ℕ) (name : Text) (l : ℕ)
      → Keeps (getter_end lexical_cast m_indentation required index name l)
  unfolding getter_end
  getter_end-Keeps required index name l out = simp (render-Keeps)

  mutual
    unfolding generate_type generate_types generate_members generate_getters

    pub generate_type-Adds :
        (into : Sink) (t : WireType)
        → Adds (generate_type lexical_cast m_indentation into t) (structures t)
    generate_type-Adds into (integer range) =
        Keeps-Adds (append_to into (uint_cpp_type range))
          (append_to-Keeps into (uint_cpp_type range))
    generate_type-Adds into (variant root) =
        enclosed-Adds into (codes "Si::variant<")
          (generate_types lexical_cast m_indentation into true root) (structures_of_elements root)
          (generate_types-Adds into true root)
    generate_type-Adds into (tuple root) =
        enclosed-Adds into (codes "std::tuple<")
          (generate_types lexical_cast m_indentation into true root) (structures_of_elements root)
          (generate_types-Adds into true root)
    generate_type-Adds into (vector length element) =
        enclosed-Adds into (codes "std::vector<")
          (generate_type lexical_cast m_indentation into element) (structures element)
          (generate_type-Adds into element)
    generate_type-Adds into (utf8 code_units) =
        Keeps-Adds (append_to into (codes "std::string"))
          (append_to-Keeps into (codes "std::string"))
    generate_type-Adds into (structure root) =
        then-Keeps
          (require_with lexical_cast m_indentation root
            (generate_members lexical_cast m_indentation root)
            (generate_getters lexical_cast m_indentation (generate_name_for_structure root) 0 root))
          (append_to into (generate_name_for_structure root)) (root ∷ structures_of_fields root)
          (require_with-Adds lexical_cast m_indentation root
            (generate_members lexical_cast m_indentation root)
            (generate_getters lexical_cast m_indentation (generate_name_for_structure root) 0 root)
            (generate_members-Adds root)
            (generate_getters-Adds root (generate_name_for_structure root) 0))
          (append_to-Keeps into (generate_name_for_structure root))

    generate_types-Adds :
        (into : Sink) (first : Bool) (ts : Elements)
        → Adds (generate_types lexical_cast m_indentation into first ts) (structures_of_elements ts)
    generate_types-Adds into first nil = Keeps-Adds (in_order []) (λ out. refl)
    generate_types-Adds into first (cons t ts) =
        Keeps-then (add_element into first)
          (λ out.
            generate_types lexical_cast m_indentation into false ts
              (generate_type lexical_cast m_indentation into t out))
          (structures t ++ structures_of_elements ts) (add_element-Keeps into first)
          (Adds-then (generate_type lexical_cast m_indentation into t)
            (generate_types lexical_cast m_indentation into false ts) (structures t)
            (structures_of_elements ts) (generate_type-Adds into t)
            (generate_types-Adds into false ts))

    generate_members-Adds :
        (s : Fields) (l : ℕ)
        → Adds (generate_members lexical_cast m_indentation s l) (structures_of_fields s)
    generate_members-Adds end l = Keeps-Adds (in_order []) (λ out. refl)
    generate_members-Adds (field what name rest) l =
        Keeps-then (start_line shared l (codes "" ∷ []))
          (in_order (
            generate_type lexical_cast m_indentation shared what
            ∷ append_to shared (codes " ")
            ∷ append_to shared name
            ∷ append_to shared (codes ";\n")
            ∷ generate_members lexical_cast m_indentation rest l
            ∷ []))
          (structures what ++ structures_of_fields rest) (start_line-Keeps shared l (codes "" ∷ []))
          (Adds-then (generate_type lexical_cast m_indentation shared what)
            (in_order (
              append_to shared (codes " ")
              ∷ append_to shared name
              ∷ append_to shared (codes ";\n")
              ∷ generate_members lexical_cast m_indentation rest l
              ∷ []))
            (structures what) (structures_of_fields rest) (generate_type-Adds shared what)
            (Keeps-then
              (in_order (
                append_to shared (codes " ")
                ∷ append_to shared name
                ∷ append_to shared (codes ";\n")
                ∷ []))
              (generate_members lexical_cast m_indentation rest l) (structures_of_fields rest)
              (λ out. refl) (generate_members-Adds rest l)))

    generate_getters-Adds :
        (s : Fields) (required : Text) (index l : ℕ)
        → Adds
            (generate_getters lexical_cast m_indentation required index s l)
            (structures_of_fields s)
    generate_getters-Adds end required index l = Keeps-Adds (in_order []) (λ out. refl)
    generate_getters-Adds (field what name rest) required index l =
        Keeps-then (start_line shared l (codes "" ∷ []))
          (in_order (
            generate_type lexical_cast m_indentation shared what
            ∷ getter_end lexical_cast m_indentation required index name l
            ∷ generate_getters lexical_cast m_indentation required (suc index) rest l
            ∷ []))
          (structures what ++ structures_of_fields rest) (start_line-Keeps shared l (codes "" ∷ []))
          (Adds-then (generate_type lexical_cast m_indentation shared what)
            (λ out.
              generate_getters lexical_cast m_indentation required (suc index) rest l
                (getter_end lexical_cast m_indentation required index name l out))
            (structures what) (structures_of_fields rest) (generate_type-Adds shared what)
            (Keeps-then (getter_end lexical_cast m_indentation required index name l)
              (generate_getters lexical_cast m_indentation required (suc index) rest l)
              (structures_of_fields rest) (getter_end-Keeps required index name l)
              (generate_getters-Adds rest required (suc index) l)))
