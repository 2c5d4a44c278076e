-- ===== src/Generated/Interface.antt =====
-- `interface_definition` of warpcoil/types.hpp: the methods of an interface in a `std::map`, the list
-- of its entries in the order of the names.
use warpcoil.Base.{
  ℕ, Bool, true, false, List, [], ◌∷◌, ◌++◌, ◌&&◌, ◌==◌, Option, none, some, if◌then◌else◌,
}
use warpcoil.Types.Syntax.{Identifier, WireType, Parameter}
use warpcoil.Types.Less.{less_name}

pub record Method : Type 0 where
  pub result : WireType
  pub parameters : List Parameter

abbrev pub InterfaceDefinition : Type 0
InterfaceDefinition = List (Identifier × Method)

-- `boost::range::equal`
unfoldable pub equal : List ℕ → List ℕ → Bool
equal [] [] = true
equal [] (y ∷ ys) = false
equal (x ∷ xs) [] = false
equal (x ∷ xs) (y ∷ ys) = (x == y) && equal xs ys

-- `add_method`: `insert` leaves an entry of the same name as it is.
unfoldable pub add_method : Identifier → WireType → InterfaceDefinition → InterfaceDefinition
add_method name result [] = (name, record { result = result; parameters = [] }) ∷ []
add_method name result ((key, method) ∷ rest) =
    let later = add_method name result rest in
    if less_name name key
    then (name, record { result = result; parameters = [] }) ∷ (key, method) ∷ rest
    else if less_name key name
    then (key, method) ∷ later
    else (key, method) ∷ rest

-- `parameter_maker`, for the entry that `add_method` returned.
unfoldable pub add_parameter : Identifier → Parameter → InterfaceDefinition → InterfaceDefinition
add_parameter name parameter [] = []
add_parameter name parameter ((key, method) ∷ rest) =
    let later = add_parameter name parameter rest in
    if equal name key
    then (key, record method { parameters = method.parameters ++ parameter ∷ [] }) ∷ rest
    else (key, method) ∷ later

-- The `if`s of the generated server, in the order of the entries.
unfoldable pub find_method : Identifier → InterfaceDefinition → Option Method
find_method name [] = none
find_method name ((key, method) ∷ rest) =
    let later = find_method name rest in if equal name key then some method else later
