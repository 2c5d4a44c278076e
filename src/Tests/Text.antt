-- ===== src/Tests/Text.antt =====
-- The text of small types and interfaces.
use warpcoil.Base.{ℕ, ◌+◌, ◌%◌, take, All, ◌≡◌, refl, [], ◌∷◌, ◌++◌, false, ◌||◌, codes, arith, ◌↔◌}
use warpcoil.Types.Syntax.{Integer, Fields, integer, structure, end, field, clone_fields}
use warpcoil.Types.Less.{less_structure, both_fields, less_integer, less_name, index}
use warpcoil.Generated.Interface.{InterfaceDefinition}
use warpcoil.Text.{Text, own, Output, append_to, render}
use warpcoil.Text.Names.{
  generate_name_for_structure, member_names, generate_name_for_structure-member_names,
}
use warpcoil.Text.Types.{
  generate_type, require_structure, require_with, insert_structure, is_found, uint_cpp_type,
}
use warpcoil.Text.Structures.{structures, IsClosed}
use warpcoil.Text.Structures.Own.{type_text}
use warpcoil.Text.Structures.Once.{generate_type-once}
use warpcoil.Text.Brackets.{IsPlain, IsBalanced}
use warpcoil.Text.Brackets.Interfaces.{interface_and_eraser-IsBalanced, AddsBalanced}
use warpcoil.Text.Brackets.Shared.{generate_type-IsBalanced}
use warpcoil.Text.Interfaces.{generate_interface, generate_type_eraser}

-- The last digit of a number.
abbrev pub digits : ℕ → Text
digits n = (48 + n % 10) ∷ []

abbrev pub byte : Integer
byte = record { minimum = 0; maximum = 255 }

abbrev wide : Integer
wide = record { minimum = 0; maximum = 65535 }

abbrev small_one : Fields
small_one = field (integer byte) (codes "a") end

abbrev wide_one : Fields
wide_one = field (integer wide) (codes "a") end

abbrev pub new_output : Output
new_output = record { own_text = []; shared_text = []; generated_structures = [] }

-- Different structures with one name: both are defined.
same_names :
    (generate_name_for_structure small_one ≡ codes "structure_to_do_a")
    × (generate_name_for_structure wide_one ≡ codes "structure_to_do_a")
    × (is_found wide_one (small_one ∷ []) ≡ false)
unfolding generate_name_for_structure is_found less_structure both_fields less_integer
same_names = (refl, refl, refl)

generate_name_for_structure-member_names_example :
    (generate_name_for_structure small_one ≡ generate_name_for_structure wide_one)
    ↔ (member_names small_one ≡ member_names wide_one)
generate_name_for_structure-member_names_example =
    generate_name_for_structure-member_names small_one wide_one ((omega arith, tt), tt)
      ((omega arith, tt), tt)

-- `{ b : { a : u8 } }`
abbrev outer : Fields
outer = field (structure small_one) (codes "b") end

-- The definition of an inner structure is printed inside the outer one, its namespaces included.
inner_definition :
    take 136 (require_structure digits 0 outer new_output).shared_text
    ≡ codes
        "struct structure_to_do_b\n{\n    struct structure_to_do_a\n{\n    std::uint8_t a;\n};\nnamespace warpcoil{\nnamespace cpp    {\n        template"
unfolding require_structure generate_type render is_found generate_name_for_structure uint_cpp_type
    require_with insert_structure less_structure both_fields clone_fields less_integer less_name
    index
inner_definition = refl

new_IsClosed : IsClosed []
unfolding is_found
new_IsClosed f h p q = absurd (cc)

generate_type-once_example :
    let after = generate_type digits 0 own (structure outer) new_output in
    (after.own_text ≡ [] ++ type_text (structure outer))
    × (generate_type digits 0 own (structure outer) after
        ≡ append_to own (type_text (structure outer)) after)
    × IsClosed after.generated_structures
    × ((f : Fields)
        → is_found f after.generated_structures
          ≡ is_found f [] || is_found f (structures (structure outer)))
generate_type-once_example = generate_type-once digits 0 (structure outer) new_output new_IsClosed

-- `struct async_Adder { ... }` with `add(a, b)`.
abbrev pub adder : InterfaceDefinition
adder =
    (
      codes "add",
      record {
        result = integer wide;
        parameters =
            record { name = codes "a"; type_ = integer byte }
            ∷ record { name = codes "b"; type_ = structure small_one }
            ∷ [];
      },
    )
    ∷ []

adder_text :
    (generate_interface digits 0 0 (codes "Adder") adder new_output).own_text
    ≡ codes
        "struct async_Adder\n{\n    virtual ~async_Adder() {}\n\n    virtual void add(std::uint8_t a, structure_to_do_a b, std::function<void(Si::error_or<std::uint16_t>)> on_result) = 0;\n};\n\n"
unfolding generate_interface generate_type render is_found generate_name_for_structure uint_cpp_type
    require_with insert_structure
adder_text = refl

interface_and_eraser-IsBalanced_example :
    AddsBalanced (generate_interface digits 0 0 (codes "Adder") adder) new_output
    × AddsBalanced (generate_type_eraser digits 0 0 (codes "Adder") adder) new_output
interface_and_eraser-IsBalanced_example =
    interface_and_eraser-IsBalanced digits 0 0 (codes "Adder") adder new_output (omega arith)
      (omega arith, (omega arith, tt, (omega arith, (omega arith, tt), tt)), tt, tt)

pub digits-IsPlain : (n : ℕ) → All IsPlain (digits n)
digits-IsPlain n = (omega arith, tt)

generate_type-IsBalanced_example :
    (x : Text) × ((generate_type digits 0 own (structure outer) new_output).shared_text ≡ [] ++ x)
    × IsBalanced x
generate_type-IsBalanced_example =
    generate_type-IsBalanced digits 0 digits-IsPlain own (structure outer) new_output
      (omega arith, (omega arith, tt, tt), tt)
