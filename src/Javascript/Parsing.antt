-- ===== src/Javascript/Parsing.antt =====
-- The parsers of the script: closures over the variables of the function that made them. A call
-- with a byte returns `undefined` as long as input is missing, returns the value, or throws; these
-- are `need_more_input`, `parse_complete` and `invalid_input`.
use warpcoil.Base.{
  ℕ, suc, ◌*◌, ◌^◌, ◌%◌, Bool, true, false, ◌||◌, ◌&&◌, List, [], ◌∷◌, ◌++◌, Option, none, some,
  bit_or, ltb, ◌==◌, if◌then◌else◌,
}
use warpcoil.Types.Syntax.{
  Integer, Identifier, WireType, Elements, Fields, integer, variant, tuple, vector, utf8, structure,
  nil, cons, end, field,
}
use warpcoil.Parse.Interface.{
  Reads, Rejects, ParseResult, Parser, parse_complete, need_more_input, invalid_input, consumed,
}
use warpcoil.Javascript.Values.{
  pos, negsuc, less_than, to_int32, Value, Values, Properties, number, text, array, object,
  none_left, no_property, push, set_property, long,
}

unfoldable pub find_number_of_bytes_required : ℕ → ℕ
find_number_of_bytes_required maximum =
    if ltb maximum 0x100
    then 1
    else if ltb maximum 0x10000
    then 2
    else if ltb maximum 0x100000000
    then 4
    else 8

-- `result` and its halves are kept as the 32 bits of the number. The types whose parsers come next
-- stand in the place of the `switch` on the number of elements.
pub data Closure : Type 0 where
  -- `undefined` where a parser is expected
  missing : Closure
  -- a parser that has returned its value, and now always returns `undefined`
  completed : Closure
  parse_int : (size minimum maximum : ℕ) → (result parsed : ℕ) → Closure
  parse_int_8 : (result_high result_low parsed : ℕ) → Closure
  parse_text : (length : Closure) → Closure
  parse_content : (byte_length received_content : ℕ) → (content : List ℕ) → Closure
  parse_elements : (rest : Elements) → (elements : Values) → (current_parser : Closure) → Closure
  parse_members :
      (name : Identifier)
      → (rest : Fields) → (result : Properties) → (current_parser : Closure) → Closure

-- `generate_integer_parser` for 1, 2 and 4 bytes
unfoldable pub call_parse_int :
    (size minimum maximum result parsed input : ℕ) → ParseResult Value × Closure
call_parse_int size minimum maximum result parsed input =
    let shifted = if ltb 1 size then (result * 2 ^ 8) % 2 ^ 32 else result in
    let joined = bit_or shifted input % 2 ^ 32 in
    let next = parse_int size minimum maximum joined (suc parsed) in
    let value = to_int32 joined in
    if suc parsed == size
    then if less_than value (pos minimum) || less_than (pos maximum) value
      then (invalid_input, next)
      else (parse_complete (number value) consumed, next)
    else (need_more_input, next)

-- `generate_integer_parser` for 8 bytes, which does not look at the bounds
unfoldable pub call_parse_int_8 :
    (result_high result_low parsed input : ℕ) → ParseResult Value × Closure
call_parse_int_8 result_high result_low parsed input =
    let high = bit_or ((result_high * 2 ^ 8) % 2 ^ 32) input % 2 ^ 32 in
    let low = bit_or ((result_low * 2 ^ 8) % 2 ^ 32) input % 2 ^ 32 in
    let high' = if ltb parsed 4 then high else result_high in
    let low' = if ltb parsed 4 then result_low else low in
    let next = parse_int_8 high' low' (suc parsed) in
    if suc parsed == 8
    then (parse_complete (long (to_int32 high') (to_int32 low')) consumed, next)
    else (need_more_input, next)

unfoldable pub create_integer : Integer → ℕ → Closure
create_integer range size =
    if size == 8 then parse_int_8 0 0 0 else parse_int size range.minimum range.maximum 0 0

tuple_function : Option Closure → Elements → Bool → Option Closure
tuple_function (some c) ts true = some (parse_elements ts none_left c)
tuple_function (some c) ts false = none
tuple_function none ts b = none

structure_function : Option Closure → Identifier → Fields → Bool → Option Closure
structure_function (some c) name fs true = some (parse_members name fs no_property c)
structure_function (some c) name fs false = none
structure_function none name fs b = none

is_generated : Option Closure → Bool
is_generated none = false
is_generated (some c) = true

-- The exception that the generator throws is `none`.
unfoldable mutual
  unfolding create_integer find_number_of_bytes_required tuple_function structure_function
      is_generated

  pub generate_parser_creation : WireType → Option Closure
  generate_parser_creation (integer parsed) =
      some (create_integer parsed (find_number_of_bytes_required parsed.maximum))
  generate_parser_creation (variant root) = none
  generate_parser_creation (tuple nil) = some missing
  generate_parser_creation (tuple (cons t ts)) =
      tuple_function (generate_parser_creation t) ts (generates_elements ts)
  generate_parser_creation (vector range element) = none
  generate_parser_creation (utf8 code_units) =
      some
        (parse_text (create_integer code_units (find_number_of_bytes_required code_units.maximum)))
  generate_parser_creation (structure end) = some missing
  generate_parser_creation (structure (field what name rest)) =
      structure_function (generate_parser_creation what) name rest (generates_members rest)

  pub generates_elements : Elements → Bool
  generates_elements nil = true
  generates_elements (cons t ts) =
      is_generated (generate_parser_creation t) && generates_elements ts

  pub generates_members : Fields → Bool
  generates_members end = true
  generates_members (field what name rest) =
      is_generated (generate_parser_creation what) && generates_members rest

-- `new ArrayBuffer(status)`: an object counts as 0, a negative number is refused.
array_buffer : Value → Option ℕ
array_buffer (number (pos n)) = some n
array_buffer (number (negsuc n)) = none
array_buffer _ = some 0

allocated : Closure → Option ℕ → ParseResult Value × Closure
allocated c none = (invalid_input, parse_text c)
allocated c (some byte_length) = (need_more_input, parse_content byte_length 0 [])

length_called : ParseResult Value × Closure → ParseResult Value × Closure
unfolding array_buffer allocated
length_called (need_more_input, c) = (need_more_input, parse_text c)
length_called (invalid_input, c) = (invalid_input, parse_text c)
length_called (parse_complete status k, c) = allocated c (array_buffer status)

-- A write behind the end of a `Uint8Array` has no effect.
unfoldable pub content_called :
    (byte_length received_content : ℕ) → List ℕ → (input : ℕ) → ParseResult Value × Closure
content_called byte_length received_content content input =
    let content' = if ltb received_content byte_length then content ++ input ∷ [] else content in
    if suc received_content == byte_length
    then (parse_complete (text content') consumed, completed)
    else (need_more_input, parse_content byte_length (suc received_content) content')

element_created : Elements → Values → Option Closure → ParseResult Value × Closure
element_created ts elements none = (invalid_input, completed)
element_created ts elements (some c) = (need_more_input, parse_elements ts elements c)

element_parsed : Elements → Values → ParseResult Value × Closure
unfolding element_created generate_parser_creation
element_parsed nil elements = (parse_complete (array elements) consumed, completed)
element_parsed (cons t ts) elements = element_created ts elements (generate_parser_creation t)

unfoldable pub element_called :
    Elements → Values → ParseResult Value × Closure → ParseResult Value × Closure
unfolding element_parsed
element_called ts elements (need_more_input, c) = (need_more_input, parse_elements ts elements c)
element_called ts elements (invalid_input, c) = (invalid_input, parse_elements ts elements c)
element_called ts elements (parse_complete status k, c) = element_parsed ts (push elements status)

member_created : Identifier → Fields → Properties → Option Closure → ParseResult Value × Closure
member_created name fs result none = (invalid_input, completed)
member_created name fs result (some c) = (need_more_input, parse_members name fs result c)

member_parsed : Fields → Properties → ParseResult Value × Closure
unfolding member_created generate_parser_creation
member_parsed end result = (parse_complete (object result) consumed, completed)
member_parsed (field what name rest) result =
    member_created name rest result (generate_parser_creation what)

unfoldable pub member_called :
    Identifier → Fields → Properties → ParseResult Value × Closure → ParseResult Value × Closure
unfolding member_parsed
member_called name fs result (need_more_input, c) =
    (need_more_input, parse_members name fs result c)
member_called name fs result (invalid_input, c) = (invalid_input, parse_members name fs result c)
member_called name fs result (parse_complete status k, c) =
    member_parsed fs (set_property name status result)

-- A call of a closure. Calling `undefined` throws.
unfoldable pub call_closure : Closure → ℕ → ParseResult Value × Closure
unfolding call_parse_int call_parse_int_8 length_called content_called element_called member_called
call_closure missing input = (invalid_input, missing)
call_closure completed input = (need_more_input, completed)
call_closure (parse_int size minimum maximum result parsed) input =
    call_parse_int size minimum maximum result parsed input
call_closure (parse_int_8 result_high result_low parsed) input =
    call_parse_int_8 result_high result_low parsed input
call_closure (parse_text length) input = length_called (call_closure length input)
call_closure (parse_content byte_length received_content content) input =
    content_called byte_length received_content content input
call_closure (parse_elements rest elements current_parser) input =
    element_called rest elements (call_closure current_parser input)
call_closure (parse_members name rest result current_parser) input =
    member_called name rest result (call_closure current_parser input)

-- The closures as parsers: one is made by `generate_parser_creation`, and completes in a call only.
abbrev pub script : Parser Value
script = record {
  State = Closure;
  start = missing;
  parse_byte = call_closure;
  check_for_immediate_completion = λ s. none;
}

-- Called with the bytes in turn, the closure returns the value for the last one and `undefined`
-- before.
abbrev pub Returns : Closure → List ℕ → Value → Type 0
Returns c bytes v = Reads script c bytes v

-- Called with the bytes in turn, the closure throws for the last one and returns `undefined`
-- before.
abbrev pub Throws : Closure → List ℕ → Type 0
Throws c bytes = Rejects script c bytes
