-- ===== src/Javascript/Writing.antt =====
-- The statements of the script that write a value into an `ArrayBuffer`, and the expression for its
-- size. An exception, of the generator or of the script, is `none`.
--
-- The values have the types that the interface gives them, with `undefined` for a missing property.
-- `undefined` and objects count as NaN in place of a number, which is written as 0.
use warpcoil.Base.{
  ℕ, zero, suc, ◌+◌, ◌*◌, Bool, true, false, List, [], ◌∷◌, map, Option, none, some, ltb, ◌==◌,
  if◌then◌else◌, length,
}
use warpcoil.Types.Syntax.{
  Identifier, WireType, Elements, Fields, integer, variant, tuple, vector, utf8, structure, nil,
  cons, end, field,
}
use warpcoil.Parse.Integer.{write_integer}
use warpcoil.Generated.Interface.{equal}
use warpcoil.Javascript.Values.{
  pos, low_bits, high_name, low_name, Value, Values, Properties, undefined, number, text, array,
  object, none_left, item, no_property, property,
}
use warpcoil.Javascript.Parsing.{find_number_of_bytes_required}

unfoldable pub own_property : Identifier → Properties → Value
own_property name no_property = undefined
own_property name (property key value rest) =
    let later = own_property name rest in if equal name key then value else later

-- `value.name`
unfoldable pub get_property : Identifier → Value → Option Value
unfolding own_property
get_property name undefined = none
get_property name (object properties) = some (own_property name properties)
get_property name _ = some undefined

-- The elements that `value[0]`, `value[1]` and so on find.
unfoldable pub items_of : Value → Option Values
items_of undefined = none
items_of (array values) = some values
items_of _ = some none_left

abbrev pub element_of : Values → Value
element_of none_left = undefined
element_of (item v vs) = v

abbrev pub rest_of : Values → Values
rest_of none_left = none_left
rest_of (item v vs) = vs

-- `value.length`
unfoldable pub length_property : Value → Option Value
length_property undefined = none
length_property (text units) = some (number (pos (length units)))
length_property _ = some undefined

-- The bits of the number that is written.
unfoldable pub to_uint : ℕ → Value → ℕ
to_uint width (number n) = low_bits width n
to_uint width _ = 0

-- `to_utf8`: `setUint8` of every code unit
unfoldable pub to_utf8 : Value → List ℕ
to_utf8 (text units) = map (λ unit. low_bits 8 (pos unit)) units
to_utf8 _ = []

-- An offset in the script: `undefined` and NaN are `none`, and so are sums with them.
unfoldable pub plus : Option ℕ → ℕ → Option ℕ
plus none n = none
plus (some offset) n = some (offset + n)

unfoldable pub replace : List ℕ → List ℕ → List ℕ
replace [] buffer = buffer
replace (b ∷ bs) [] = []
replace (b ∷ bs) (x ∷ xs) = b ∷ replace bs xs

unfoldable pub overwrite : ℕ → List ℕ → List ℕ → List ℕ
unfolding replace
overwrite zero bytes buffer = replace bytes buffer
overwrite (suc offset) bytes [] = []
overwrite (suc offset) bytes (x ∷ xs) = x ∷ overwrite offset bytes xs

unfoldable pub write_at : ℕ → List ℕ → List ℕ → Option (List ℕ)
unfolding overwrite
write_at offset bytes buffer =
    if ltb (length buffer) (offset + length bytes)
    then none
    else some (overwrite offset bytes buffer)

-- A write of `DataView` or `Uint8Array`: the offsets that are `none` count as 0, and a write behind the
-- end throws.
unfoldable pub set_bytes : Option ℕ → List ℕ → List ℕ → Option (List ℕ)
unfolding write_at
set_bytes none bytes buffer = write_at 0 bytes buffer
set_bytes (some offset) bytes buffer = write_at offset bytes buffer

-- The text of the offset that the generator is given: whether it is the name `offset`, and what it
-- is worth where it stands.
pub record Place : Type 0 where
  pub is_named_offset : Bool
  pub worth : Option ℕ

-- `var offset = …`: in a new function the name `offset` on the right is the new variable.
unfoldable pub inner_offset : Place → Option ℕ
inner_offset place = if place.is_named_offset then none else place.worth

abbrev pub named_offset : Option ℕ → Place
named_offset offset = record { is_named_offset = true; worth = offset }

abbrev pub at_place : ℕ → Place
at_place offset = record { is_named_offset = false; worth = some offset }

unfoldable pub then_size : Option ℕ → Option ℕ → Option ℕ
then_size (some n) (some m) = some (n + m)
then_size _ _ = none

size_of_member : (Value → Option ℕ) → Option ℕ → Option Value → Option ℕ
unfolding then_size
size_of_member first rest none = none
size_of_member first rest (some v) = then_size (first v) rest

size_of_items : (Values → Option ℕ) → Option Values → Option ℕ
size_of_items f none = none
size_of_items f (some vs) = f vs

-- `value.reduce(function (previous, next) { return previous + next; }, 0)`, which is a number if all
-- elements are.
reduced_sum : Values → Option ℕ
unfolding then_size
reduced_sum (item (number (pos n)) values) = then_size (some n) (reduced_sum values)
reduced_sum none_left = some 0
reduced_sum _ = none

unfoldable mutual
  unfolding then_size size_of_member size_of_items reduced_sum

  pub generate_size_of_value : WireType → Value → Option ℕ
  generate_size_of_value (integer range) value = some (find_number_of_bytes_required range.maximum)
  generate_size_of_value (variant root) value = none
  generate_size_of_value (tuple nil) value = some 0
  generate_size_of_value (tuple (cons t ts)) value =
      size_of_items (size_of_elements (cons t ts)) (items_of value)
  generate_size_of_value (vector range element) value =
      then_size (some (find_number_of_bytes_required range.maximum))
        (size_of_items reduced_sum (items_of value))
  generate_size_of_value (utf8 code_units) value =
      some (find_number_of_bytes_required code_units.maximum + length (to_utf8 value))
  generate_size_of_value (structure root) value = size_of_members root value

  pub size_of_elements : Elements → Values → Option ℕ
  size_of_elements nil values = some 0
  size_of_elements (cons t ts) values =
      then_size (generate_size_of_value t (element_of values))
        (size_of_elements ts (rest_of values))

  pub size_of_members : Fields → Value → Option ℕ
  size_of_members end value = some 0
  size_of_members (field what name rest) value =
      size_of_member (generate_size_of_value what) (size_of_members rest value)
        (get_property name value)

abbrev pub Script : Type 0
Script = List ℕ → Option (List ℕ)

unfoldable pub and_then : Option (List ℕ) → Script → Option (List ℕ)
and_then none next = none
and_then (some buffer) next = next buffer

unfoldable pub with_size : Option ℕ → (ℕ → Script) → Script
with_size none next buffer = none
with_size (some n) next buffer = next n buffer

unfoldable pub set_halves : Option Value → Option Value → Option ℕ → Script
unfolding and_then
set_halves (some high) (some low) offset buffer =
    and_then (set_bytes offset (write_integer 4 (to_uint 32 high)) buffer)
      (set_bytes (plus offset 4) (write_integer 4 (to_uint 32 low)))
set_halves _ _ offset buffer = none

-- `setUint8`, `setUint16`, `setUint32`, and two of the last for 8 bytes
unfoldable pub set_integer : (size : ℕ) → Value → Option ℕ → Script
unfolding set_halves get_property
set_integer size value offset buffer =
    if size == 8
    then set_halves (get_property high_name value) (get_property low_name value) offset buffer
    else set_bytes offset (write_integer size (to_uint (size * 8) value)) buffer

unfoldable pub set_text : (size : ℕ) → Value → Option Value → Option ℕ → Script
unfolding and_then set_integer
set_text size value none offset buffer = none
set_text size value (some length_) offset buffer =
    and_then (set_integer size length_ offset buffer) (set_bytes (plus offset size) (to_utf8 value))

unfoldable pub set_items : (Values → Script) → Option Values → Script
set_items f none buffer = none
set_items f (some vs) buffer = f vs buffer

unfoldable pub set_member :
    (Value → Script) → (Value → Option ℕ) → (ℕ → Script) → Option Value → Script
unfolding and_then with_size
set_member f size next none buffer = none
set_member f size next (some v) buffer = and_then (f v buffer) (with_size (size v) next)

unfoldable mutual
  unfolding set_integer set_text set_items set_member and_then with_size inner_offset
      length_property

  pub generate_serialization : WireType → Value → Place → Script
  generate_serialization (integer range) value place buffer =
      set_integer (find_number_of_bytes_required range.maximum) value place.worth buffer
  generate_serialization (variant root) value place buffer = none
  generate_serialization (tuple nil) value place buffer = some buffer
  generate_serialization (tuple (cons t ts)) value place buffer =
      set_items (λ values. write_elements (cons t ts) values (inner_offset place)) (items_of value)
        buffer
  generate_serialization (vector range element) value place buffer = none
  generate_serialization (utf8 code_units) value place buffer =
      set_text (find_number_of_bytes_required code_units.maximum) value (length_property value)
        place.worth buffer
  generate_serialization (structure end) value place buffer = some buffer
  generate_serialization (structure (field what name rest)) value place buffer =
      write_members (field what name rest) value (inner_offset place) buffer

  pub write_elements : Elements → Values → (offset : Option ℕ) → Script
  write_elements nil values offset buffer = some buffer
  write_elements (cons t ts) values offset buffer =
      and_then (generate_serialization t (element_of values) (named_offset offset) buffer) (
        with_size (generate_size_of_value t (element_of values))
          (λ n. write_elements ts (rest_of values) (plus offset n)))

  pub write_members : Fields → Value → (offset : Option ℕ) → Script
  write_members end value offset buffer = some buffer
  write_members (field what name rest) value offset buffer =
      set_member (λ v. generate_serialization what v (named_offset offset))
        (generate_size_of_value what) (λ n. write_members rest value (plus offset n))
        (get_property name value) buffer
