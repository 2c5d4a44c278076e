-- ===== src/Text/Types/Parsers.antt =====
-- The text of parser types: warpcoil/cpp/generate/generate_parser_type.hpp.
use warpcoil.Base.{[], ◌++◌, Bool, true, false, codes, if◌then◌else◌, leb}
use warpcoil.Types.Syntax.{
  Integer, WireType, Elements, integer, variant, tuple, vector, utf8, structure, nil, cons,
}
use warpcoil.Text.{Text}
use warpcoil.Text.Names.{generate_name_for_structure}

unfoldable pub parser_bits : Integer → Text
parser_bits parsed =
    if leb parsed.maximum 0xff
    then codes "8"
    else if leb parsed.maximum 0xffff
    then codes "16"
    else if leb parsed.maximum 0xffffffff
    then codes "32"
    else codes "64"

abbrev pub integer_parser_type : Integer → Text
integer_parser_type parsed =
    codes "warpcoil::cpp::integer_parser<std::uint" ++ parser_bits parsed ++ codes "_t>"

-- Between two elements.
abbrev pub comma : Bool → Text
comma true = []
comma false = codes ", "

-- `generate_parser_type` of warpcoil/cpp/generate/generate_parser_type.hpp.
unfoldable mutual
  pub parser_type_text : WireType → Text
  parser_type_text (integer parsed) = integer_parser_type parsed
  parser_type_text (variant parsed) =
      codes "warpcoil::cpp::variant_parser<" ++ parser_types_text true parsed ++ codes ">"
  parser_type_text (tuple parsed) =
      codes "warpcoil::cpp::tuple_parser<" ++ parser_types_text true parsed ++ codes ">"
  parser_type_text (vector length element) =
      codes "warpcoil::cpp::vector_parser<"
      ++ (integer_parser_type length ++ (codes ", " ++ parser_type_text element))
      ++ codes ">"
  parser_type_text (utf8 code_units) =
      codes "warpcoil::cpp::utf8_parser<" ++ integer_parser_type code_units ++ codes ">"
  parser_type_text (structure root) =
      codes "warpcoil::cpp::structure_parser<" ++ generate_name_for_structure root ++ codes ">"

  pub parser_types_text : (first : Bool) → Elements → Text
  parser_types_text first nil = []
  parser_types_text first (cons element rest) =
      comma first ++ (parser_type_text element ++ parser_types_text false rest)
