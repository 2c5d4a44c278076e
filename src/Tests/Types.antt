-- ===== src/Tests/Types.antt =====
-- The type of two parameters.
use warpcoil.Base.{◌≡◌, refl, List, [], ◌∷◌}
use warpcoil.Types.Syntax.{
  Parameter, full_integer, integer, tuple, utf8, nil, cons, get_parameter_type, parameter_types,
  clone,
}

abbrev parameters : List Parameter
parameters =
    record { name = 97 ∷ []; type_ = integer full_integer }
    ∷ record { name = 98 ∷ []; type_ = utf8 full_integer }
    ∷ []

type_of_parameters :
    get_parameter_type parameters
    ≡ tuple (cons (integer full_integer) (cons (utf8 full_integer) nil))
unfolding get_parameter_type parameter_types clone
type_of_parameters = refl
