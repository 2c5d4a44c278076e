-- ===== src/Javascript/Representation.antt =====
-- The values of the wire types in the script, and which of them the script can receive.
use warpcoil.Base.{◌/◌, ◌%◌, ◌^◌, ◌≤◌, ◌<◌, ◌⊎◌, length, All, ◌==◌, if◌then◌else◌}
use warpcoil.Types.Syntax.{
  WireType, Elements, Fields, integer, variant, tuple, vector, utf8, structure, nil, cons, end,
  field,
}
use warpcoil.Parse.Tuple.{Tuple}
use warpcoil.Wire.Values.{ValueOf, element_values, field_values}
use warpcoil.Javascript.Texts.{decode_utf8, IsAscii}
use warpcoil.Javascript.Values.{
  pos, to_int32, Value, Values, Properties, number, text, array, object, none_left, item,
  no_property, set_property, long,
}
use warpcoil.Javascript.Parsing.{find_number_of_bytes_required}

-- The value in the script: an integer is a number, or if it is sent in 8 bytes an object of two
-- halves, which are signed numbers of 32 bits; a text is its code units.
unfoldable mutual
  pub in_script : (t : WireType) → ValueOf t → Value
  in_script (integer range) v =
      if find_number_of_bytes_required range.maximum == 8
      then long (to_int32 (v / 2 ^ 32)) (to_int32 (v % 2 ^ 32))
      else number (pos v)
  in_script (variant root) v = array none_left
  in_script (tuple root) v = array (items_in_script root v)
  in_script (vector range element) v = array none_left
  in_script (utf8 code_units) v = text (decode_utf8 v)
  in_script (structure root) v = object (members_in_script root v no_property)

  pub items_in_script : (ts : Elements) → Tuple (element_values ts) → Values
  items_in_script nil v = none_left
  items_in_script (cons t ts) (v, vs) = item (in_script t v) (items_in_script ts vs)

  pub members_in_script : (fs : Fields) → Tuple (field_values fs) → Properties → Properties
  members_in_script end v result = result
  members_in_script (field what name rest) (v, vs) result =
      members_in_script rest vs (set_property name (in_script what v) result)

-- What the script can receive: integers below 2^31, or of 8 bytes; ASCII texts that are not empty;
-- tuples and structures of these that are not empty.
abbrev mutual
  pub IsReadable : (t : WireType) → ValueOf t → Type 0
  IsReadable (integer range) v =
      (range.maximum < 2 ^ 64) × ((v < 2 ^ 31) ⊎ (2 ^ 32 ≤ range.maximum))
  IsReadable (variant root) v = ⊥
  IsReadable (tuple nil) v = ⊥
  IsReadable (tuple (cons t ts)) v = IsReadable t v.0 × AreReadable ts v.1
  IsReadable (vector range element) v = ⊥
  IsReadable (utf8 code_units) v =
      (code_units.maximum < 2 ^ 32) × (0 < length v) × (length v < 2 ^ 31) × All IsAscii v
  IsReadable (structure end) v = ⊥
  IsReadable (structure (field what name rest)) v =
      IsReadable what v.0 × AreReadableMembers rest v.1

  pub AreReadable : (ts : Elements) → Tuple (element_values ts) → Type 0
  AreReadable nil v = Unit {0}
  AreReadable (cons t ts) v = IsReadable t v.0 × AreReadable ts v.1

  pub AreReadableMembers : (fs : Fields) → Tuple (field_values fs) → Type 0
  AreReadableMembers end v = Unit {0}
  AreReadableMembers (field what name rest) v = IsReadable what v.0 × AreReadableMembers rest v.1
