-- ===== src/Tests/Wire.antt =====
-- A structure of a number, a string and a list, there and back.
use warpcoil.Base.{ℕ, ◌≡◌, refl, List, [], ◌∷◌, ◌++◌, map, inl, inr, arith, ◌↔◌}
use warpcoil.Types.Syntax.{
  count, Integer, WireType, integer, variant, vector, utf8, structure, nil, cons, end, field,
}
use warpcoil.Parse.Interface.{Reads}
use warpcoil.Parse.Integer.{write_integer, write_bytes}
use warpcoil.Parse.Variant.Reading.{index}
use warpcoil.Wire.Values.{find_suitable_uint_cpp_type, ValueOf, generate_parser_type}
use warpcoil.Wire.Serialize.{ok, failure, generate_value_serialization}
use warpcoil.Wire.RoundTrip.{IsSolid, generate_value_serialization-Reads}
use warpcoil.Wire.Conforms.{IsSized, Conforms, generate_value_serialization-Conforms}
use warpcoil.Receive.{begin_parse_value, read_some}
use warpcoil.Receive.Chunks.{Delivers}
use warpcoil.Receive.Messages.{transfer}
use warpcoil.Tests.Parse.{ascii}

abbrev range : Integer
range = record { minimum = 1; maximum = 1000 }

abbrev small : Integer
small = record { minimum = 0; maximum = 255 }

-- `{ a : 1..1000, b : utf8, c : [(a | b)] }`
abbrev pub record_type : WireType
record_type = structure (
    field (integer range) (97 ∷ []) (
      field (utf8 small) (98 ∷ []) (
        field (vector small (variant (cons (integer range) (cons (integer small) nil)))) (99 ∷ [])
          end)))

abbrev pub record_value : ValueOf record_type
record_value = (300, (104 ∷ 105 ∷ [], (inr (inl 7) ∷ [], tt)))

abbrev pub record_bytes : List ℕ
record_bytes = 1 ∷ 44 ∷ 2 ∷ 104 ∷ 105 ∷ 1 ∷ 1 ∷ 7 ∷ []

record_written : generate_value_serialization ascii record_type record_value [] ≡ (record_bytes, ok)
unfolding generate_value_serialization count index write_integer write_bytes
    find_suitable_uint_cpp_type
record_written = refl

-- The number 0 is below the minimum.
record_refused :
    generate_value_serialization ascii record_type (0, (104 ∷ [], ([], tt))) [] ≡ ([], failure)
unfolding generate_value_serialization count index write_integer write_bytes
    find_suitable_uint_cpp_type
record_refused = refl

pub record_solid : IsSolid record_type
unfolding count
record_solid = (
  tt,
  (
    omega arith,
    (omega arith, ((omega arith, (omega arith, (omega arith, (omega arith, tt)))), tt)),
  ),
)

record_sized : IsSized record_type
unfolding count
record_sized = (tt, (tt, ((omega arith, (tt, (tt, tt))), tt)))

generate_value_serialization-Reads_example :
    (bytes : List ℕ) × ((generate_value_serialization ascii record_type record_value (5 ∷ [])).0
      ≡ (5 ∷ []) ++ bytes)
    × Reads
        (generate_parser_type ascii record_type)
        (generate_parser_type ascii record_type).start
        bytes
        record_value
unfolding generate_value_serialization count index write_integer write_bytes
    find_suitable_uint_cpp_type
generate_value_serialization-Reads_example =
    generate_value_serialization-Reads ascii record_type record_solid record_value (5 ∷ []) refl

generate_value_serialization-Conforms_example :
    ((generate_value_serialization ascii record_type record_value []).1 ≡ ok)
    ↔ Conforms ascii record_type record_value
generate_value_serialization-Conforms_example =
    generate_value_serialization-Conforms ascii record_type record_sized record_value []

-- The bytes come in three reads, with two more behind them.
transfer_example :
    Delivers
      (generate_parser_type ascii record_type)
      (begin_parse_value
        (generate_parser_type ascii record_type)
        (1 ∷ [])
        (map read_some ((44 ∷ 2 ∷ 104 ∷ []) ∷ (105 ∷ 1 ∷ []) ∷ (1 ∷ 7 ∷ 8 ∷ 9 ∷ []) ∷ [])))
      record_value
      (8 ∷ 9 ∷ [])
unfolding generate_value_serialization count index write_integer write_bytes
    find_suitable_uint_cpp_type
transfer_example =
    transfer ascii record_type record_solid record_value refl (1 ∷ [])
      ((44 ∷ 2 ∷ 104 ∷ []) ∷ (105 ∷ 1 ∷ []) ∷ (1 ∷ 7 ∷ 8 ∷ 9 ∷ []) ∷ []) (8 ∷ 9 ∷ []) refl
