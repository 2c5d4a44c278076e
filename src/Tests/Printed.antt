-- ===== src/Tests/Printed.antt =====
-- The text of small serializations, clients and servers.
use warpcoil.Base.{ℕ, zero, suc, ◌≡◌, refl, [], ◌∷◌, ◌++◌, none, codes, arith}
use warpcoil.Wire.Serialize.{index_range}
use warpcoil.Types.Syntax.{count, integer, vector, tuple, variant, nil, cons}
use warpcoil.Generated.Interface.{InterfaceDefinition}
use warpcoil.Text.{Text, in_turn, after_print, block_or_throw, render}
use warpcoil.Text.Serialization.{
  print_value_serialization, print_integer, print_check, with_type_string, print_cases,
  print_elements,
}
use warpcoil.Text.Types.{generate_type, uint_cpp_type}
use warpcoil.Text.Clients.{
  check_name, request_builder, client_method_body, client_methods, generate_serialization_client,
}
use warpcoil.Text.Servers.{generate_serializable_interface, move_arguments_out_of_tuple}
use warpcoil.Text.Brackets.Throwing.{text_after, text_if}
use warpcoil.Text.Brackets.Round.{IsRoundBalanced}
use warpcoil.Text.Brackets.Clients.{have_short_names}
use warpcoil.Text.Brackets.Printed.{generate_serializable_interface-IsRoundBalanced}
use warpcoil.Tests.Text.{digits, digits-IsPlain, byte, adder, new_output}

vector_text :
    (print_value_serialization digits 0
      (vector byte (integer byte))
      0
      (codes "out")
      (codes "v")
      (codes "return")
      new_output).own_text
    ≡ codes
        "if ((v.size()) > 5u) { return; }\nwarpcoil::cpp::write_integer(out, static_cast<std::uint8_t>(v.size()));\nfor (auto const &element : v)\n{\n    if ((element) > 5u) { return; }\n    warpcoil::cpp::write_integer(out, static_cast<std::uint8_t>(element));\n}\n"
unfolding print_value_serialization print_integer print_check uint_cpp_type render
vector_text = refl

variant_text :
    (print_value_serialization digits 0
      (variant (cons (tuple (cons (integer byte) nil)) nil))
      0
      (codes "out")
      (codes "v")
      (codes "return")
      new_output).own_text
    ≡ codes
        "if ((v.index()) > 0u) { return; }\nwarpcoil::cpp::write_integer(out, static_cast<std::uint8_t>(v.index()));\nswitch (v.index())\n{\n    case 0:\n        if ((std::get<0>((*Si::try_get_ptr<std::tuple<std::uint8_t>>(v)))) > 5u) { return; }\n        warpcoil::cpp::write_integer(out, static_cast<std::uint8_t>(std::get<0>((*Si::try_get_ptr<std::tuple<std::uint8_t>>(v)))));\n        break;\n}\n"
unfolding print_value_serialization print_integer print_check uint_cpp_type render print_cases
    with_type_string print_elements generate_type index_range count
variant_text = refl

moved_text :
    (move_arguments_out_of_tuple digits 0 (codes "t") 2 0 new_output).own_text
    ≡ codes "std::get<0>(std::move(t)), std::get<1>(std::move(t)), "
unfolding move_arguments_out_of_tuple
moved_text = refl

abbrev letters : ℕ → Text
letters zero = []
letters (suc n) = b'a' ∷ letters n

-- A name of 256 bytes.
abbrev long_named : InterfaceDefinition
long_named = (letters 256, record { result = tuple nil; parameters = [] }) ∷ []

too_long : generate_serializable_interface digits 0 0 (codes "A") long_named new_output ≡ none
unfolding generate_serializable_interface generate_serialization_client client_methods
    client_method_body request_builder check_name in_turn after_print block_or_throw
too_long = refl

generate_serializable_interface-IsRoundBalanced_example :
    (x : Text) × (text_after
        (generate_serializable_interface digits 0 0 (codes "Adder") adder new_output)
      ≡ text_if (have_short_names adder) ([] ++ x))
    × IsRoundBalanced x
generate_serializable_interface-IsRoundBalanced_example =
    generate_serializable_interface-IsRoundBalanced digits 0 digits-IsPlain 0 (codes "Adder") adder
      new_output (omega arith)
      (omega arith, (omega arith, tt, (omega arith, (omega arith, tt, tt), tt)), tt, tt)
