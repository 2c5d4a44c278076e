-- ===== src/Types/Syntax.antt =====
-- warpcoil/types.hpp: the wire types. A `std::unique_ptr` that owns its target is the target, and
-- a `std::vector` of types is `Elements` or `Fields`, since a type cannot hold itself in a list.
use warpcoil.Base.{ℕ, suc, ◌-◌, ◌^◌, List, [], ◌∷◌}

-- A `std::string`: its bytes.
abbrev pub Identifier : Type 0
Identifier = List ℕ

-- `types::integer`: two `std::uint64_t`.
pub record Integer : Type 0 where
  pub minimum : ℕ
  pub maximum : ℕ

-- The default constructor of `types::integer`.
pub full_integer : Integer
full_integer = record { minimum = 0; maximum = 2 ^ 64 - 1 }

mutual
  pub data WireType : Type 0 where
    integer : Integer → WireType
    variant : Elements → WireType
    tuple : Elements → WireType
    vector : Integer → WireType → WireType
    utf8 : Integer → WireType
    structure : Fields → WireType

  pub data Elements : Type 0 where
    nil : Elements
    cons : WireType → Elements → Elements

  -- The elements of a structure, each with its name.
  pub data Fields : Type 0 where
    end : Fields
    field : WireType → Identifier → Fields → Fields

unfoldable pub count : Elements → ℕ
count nil = 0
count (cons t ts) = suc (count ts)

-- The copies that the `unique_ptr`s make necessary.
unfoldable mutual
  pub clone : WireType → WireType
  clone (integer value) = integer value
  clone (variant value) = variant (clone_elements value)
  clone (tuple value) = tuple (clone_elements value)
  clone (vector length element) = vector length (clone element)
  clone (utf8 value) = utf8 value
  clone (structure value) = structure (clone_fields value)

  pub clone_elements : Elements → Elements
  clone_elements nil = nil
  clone_elements (cons element rest) = cons (clone element) (clone_elements rest)

  pub clone_fields : Fields → Fields
  clone_fields end = end
  clone_fields (field what name rest) = field (clone what) name (clone_fields rest)

pub record Parameter : Type 0 where
  pub name : Identifier
  pub type_ : WireType

unfoldable pub parameter_types : List Parameter → Elements
parameter_types [] = nil
parameter_types (p ∷ ps) = cons (clone p.type_) (parameter_types ps)

-- The parameters of a method travel as one tuple.
unfoldable pub get_parameter_type : List Parameter → WireType
get_parameter_type parameters = tuple (parameter_types parameters)
