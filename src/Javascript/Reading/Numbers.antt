-- ===== src/Javascript/Reading/Numbers.antt =====
-- An integer of the wire, by the width that pair_eq sides choose for it.
use warpcoil.Base.{ℕ, ◌*◌, ◌^◌, ◌<◌, ◌≡◌, inl, inr, false, Bool-cases, arith, ◌==◌}
use warpcoil.Types.Syntax.{Integer, integer}
use warpcoil.Parse.Integer.{write_integer}
use warpcoil.Wire.Serialize.{out_of_range}
use warpcoil.Javascript.Parsing.{find_number_of_bytes_required, create_integer, Returns}
use warpcoil.Javascript.Integers.{wide, narrow, Accepted, parse_int-Reads}
use warpcoil.Javascript.Integers.Long.{parse_int_8-Returns}
use warpcoil.Javascript.Representation.{in_script, IsReadable}

accepted :
    (range : Integer) (v : ℕ)
    → out_of_range range v ≡ false
    → v < 2 ^ 31
    → Accepted range.minimum range.maximum v
unfolding out_of_range
accepted range v h k = (ground (arith, h), ground (arith, h), k)

pub number-Returns :
    (range : Integer) (v : ℕ)
    → IsReadable (integer range) v
    → out_of_range range v ≡ false
    → v < 2 ^ (find_number_of_bytes_required range.maximum * 8)
    → Returns
        (create_integer range (find_number_of_bytes_required range.maximum))
        (write_integer (find_number_of_bytes_required range.maximum) v)
        (in_script (integer range) v)
unfolding create_integer in_script
number-Returns range v h fine fits =
    elim (Bool-cases (find_number_of_bytes_required range.maximum == 8)) [
      | inl e ↦
          let eight = wide range.maximum e in rw eight (parse_int_8-Returns v (rw eight at fits))
      | inr e ↦
          let (below, some_byte, small) = narrow range.maximum e in
          rw e (
            parse_int-Reads (find_number_of_bytes_required range.maximum) range.minimum
              range.maximum small v some_byte fits (accepted range v fine (omega (arith, h))))
    ]
