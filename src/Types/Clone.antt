-- ===== src/Types/Clone.antt =====
-- `clone` copies a type without a change.
use warpcoil.Base.{◌≡◌, refl, ap, List, [], ◌∷◌}
use warpcoil.Types.Syntax.{
  WireType, Elements, Fields, Parameter, integer, variant, tuple, vector, utf8, structure, nil,
  cons, end, field, clone, clone_elements, clone_fields, parameter_types, get_parameter_type,
}

mutual
  unfolding clone clone_elements clone_fields

  clone_same : (t : WireType) → clone t ≡ t
  clone_same (integer value) = refl
  clone_same (variant value) = ap variant (clone_elements_same value)
  clone_same (tuple value) = ap tuple (clone_elements_same value)
  clone_same (vector length element) = ap (vector length) (clone_same element)
  clone_same (utf8 value) = refl
  clone_same (structure value) = ap structure (clone_fields_same value)

  clone_elements_same : (ts : Elements) → clone_elements ts ≡ ts
  clone_elements_same nil = refl
  clone_elements_same (cons t ts) = cc (clone_same t, clone_elements_same ts)

  pub clone_fields_same : (fs : Fields) → clone_fields fs ≡ fs
  clone_fields_same end = refl
  clone_fields_same (field t n fs) = cc (clone_same t, clone_fields_same fs)

abbrev pub declared : List Parameter → Elements
declared [] = nil
declared (p ∷ ps) = cons p.type_ (declared ps)

parameter_types_same : (ps : List Parameter) → parameter_types ps ≡ declared ps
unfolding parameter_types
parameter_types_same [] = refl
parameter_types_same (p ∷ ps) = cc (clone_same p.type_, parameter_types_same ps)

-- The type in which the parameters of a method travel is the tuple of their declared types in
-- order; the copies on the way change nothing.
pub get_parameter_type-declared :
    (ps : List Parameter) → get_parameter_type ps ≡ tuple (declared ps)
unfolding get_parameter_type
get_parameter_type-declared ps = ap tuple (parameter_types_same ps)
