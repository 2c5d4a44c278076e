-- ===== src/Javascript/Reading/Parts.antt =====
-- Texts, tuples and structures, from what the closures for their parts return.
use warpcoil.Base.{
  ℕ, ◌^◌, ◌<◌, ◌≡◌, refl, ◌∙◌, ap, true, List, [], ◌++◌, arith, length, some, append-nil,
}
use warpcoil.Types.Syntax.{
  Integer, Identifier, WireType, Elements, Fields, integer, tuple, utf8, structure, nil, cons, end,
  field,
}
use warpcoil.Parse.Tuple.{Tuple}
use warpcoil.Wire.Values.{ValueOf, element_values, field_values}
use warpcoil.Wire.RoundTrip.Lemmas.{Both}
use warpcoil.Javascript.Values.{
  pos, Value, Values, Properties, number, array, object, none_left, item, no_property, push,
  set_property,
}
use warpcoil.Javascript.Parsing.{
  find_number_of_bytes_required, Closure, parse_elements, parse_members, create_integer,
  generate_parser_creation, generates_elements, generates_members, Returns,
}
use warpcoil.Javascript.Closures.{
  all_content, text-Returns, only_element, next_element, only_member, next_member,
}
use warpcoil.Javascript.Texts.{decode_utf8-ascii}
use warpcoil.Javascript.Representation.{in_script, items_in_script, members_in_script, IsReadable}

-- The parser that is created for the type returns the value for the bytes.
abbrev pub Understands : (t : WireType) → ValueOf t → List ℕ → Type 0
Understands t v bytes =
    (c : Closure) × (generate_parser_creation t ≡ some c) × Returns c bytes (in_script t v)

-- The bytes are those of the elements, one after the other.
abbrev pub UnderstandsAll : (ts : Elements) → Tuple (element_values ts) → List ℕ → Type 0
UnderstandsAll nil vs bytes = bytes ≡ []
UnderstandsAll (cons t ts) vs bytes = Both (Understands t vs.0) (UnderstandsAll ts vs.1) bytes

abbrev pub UnderstandsMembers : (fs : Fields) → Tuple (field_values fs) → List ℕ → Type 0
UnderstandsMembers end vs bytes = bytes ≡ []
UnderstandsMembers (field what name rest) vs bytes =
    Both (Understands what vs.0) (UnderstandsMembers rest vs.1) bytes

elements_generated :
    (ts : Elements) (vs : Tuple (element_values ts)) (bytes : List ℕ)
    → UnderstandsAll ts vs bytes
    → generates_elements ts ≡ true
unfolding generates_elements
elements_generated nil vs bytes k = refl
elements_generated (cons t ts) vs bytes (first, rest, e, (c, g, r), k) =
    rw (g, elements_generated ts vs.1 rest k) refl

members_generated :
    (fs : Fields) (vs : Tuple (field_values fs)) (bytes : List ℕ)
    → UnderstandsMembers fs vs bytes
    → generates_members fs ≡ true
unfolding generates_members
members_generated end vs bytes k = refl
members_generated (field what name fs) vs bytes (first, rest, e, (c, g, r), k) =
    rw (g, members_generated fs vs.1 rest k) refl

-- The elements so far, and then those that follow.
abbrev join : Values → Values → Values
join elements none_left = elements
join elements (item v vs) = join (push elements v) vs

join-item : (v : Value) (vs ws : Values) → join (item v vs) ws ≡ item v (join vs ws)
unfolding push
join-item v vs none_left = refl
join-item v vs (item w ws) = join-item v (push vs w) ws

join_none_left : (vs : Values) → join none_left vs ≡ vs
unfolding push
join_none_left none_left = refl
join_none_left (item v vs) = join-item v none_left vs ∙ ap (item v) (join_none_left vs)

elements-Returns :
    (t : WireType) (ts : Elements) (v : ValueOf t) (vs : Tuple (element_values ts))
    (elements : Values) {c : Closure} {first : List ℕ} (rest : List ℕ)
    → Returns c first (in_script t v)
    → UnderstandsAll ts vs rest
    → Returns
        (parse_elements ts elements c)
        (first ++ rest)
        (array (join elements (item (in_script t v) (items_in_script ts vs))))
unfolding items_in_script
elements-Returns t nil v vs elements {first} rest r k =
    rw (k, append-nil first) (only_element nil elements r)
elements-Returns t (cons u ts) v vs elements rest r (front, back, e, (c, g, s), k) = rw e (
    next_element ts elements {t = u} g r
      (elements-Returns u ts vs.0 vs.1 (push elements (in_script t v)) back s k))

members-Returns :
    (t : WireType) (name : Identifier) (fs : Fields) (v : ValueOf t) (vs : Tuple (field_values fs))
    (result : Properties) {c : Closure} {first : List ℕ} (rest : List ℕ)
    → Returns c first (in_script t v)
    → UnderstandsMembers fs vs rest
    → Returns
        (parse_members name fs result c)
        (first ++ rest)
        (object (members_in_script fs vs (set_property name (in_script t v) result)))
unfolding members_in_script
members-Returns t name end v vs result {first} rest r k =
    rw (k, append-nil first) (only_member name end result r)
members-Returns t name (field u key fs) v vs result rest r (front, back, e, (c, g, s), k) = rw e (
    next_member name fs result {t = u} g r
      (members-Returns u key fs vs.0 vs.1 (set_property name (in_script t v) result) back s k))

pub tuple-Understands :
    (t : WireType) (ts : Elements) (v : ValueOf t) (vs : Tuple (element_values ts)) (bytes : List ℕ)
    → UnderstandsAll (cons t ts) (v, vs) bytes
    → Understands (tuple (cons t ts)) (v, vs) bytes
unfolding generate_parser_creation in_script
tuple-Understands t ts v vs bytes (first, rest, e, (c, g, r), k) = (
  parse_elements ts none_left c,
  rw (g, elements_generated ts vs rest k) refl,
  rw (e, ← join_none_left (item (in_script t v) (items_in_script ts vs)))
      (elements-Returns t ts v vs none_left rest r k),
)

pub structure-Understands :
    (t : WireType) (name : Identifier) (fs : Fields) (v : ValueOf t) (vs : Tuple (field_values fs))
    (bytes : List ℕ)
    → UnderstandsMembers (field t name fs) (v, vs) bytes
    → Understands (structure (field t name fs)) (v, vs) bytes
unfolding generate_parser_creation in_script
structure-Understands t name fs v vs bytes (first, rest, e, (c, g, r), k) = (
  parse_members name fs no_property c,
  rw (g, members_generated fs vs rest k) refl,
  rw e (members-Returns t name fs v vs no_property rest r k),
)

pub short_in_script :
    (range : Integer) (n : ℕ)
    → range.maximum < 2 ^ 32
    → in_script (integer range) n ≡ number (pos n)
unfolding in_script find_number_of_bytes_required
short_in_script range n h = ground arith

pub text-Understands :
    (code_units : Integer) (v bytes front back : List ℕ)
    → IsReadable (utf8 code_units) v
    → bytes ≡ front ++ back
    → Returns
        (create_integer code_units (find_number_of_bytes_required code_units.maximum))
        front
        (in_script (integer code_units) (length v))
    → back ≡ v
    → Understands (utf8 code_units) v bytes
unfolding generate_parser_creation in_script
text-Understands code_units v bytes front back h e p q = (
  _,
  refl,
  rw (e, q, decode_utf8-ascii v h.3)
      (text-Returns (rw (short_in_script code_units (length v) h.0) at p) (all_content v h.1)),
)

pub integer-Understands :
    (range : Integer) (v : ℕ) (bytes : List ℕ)
    → Returns
        (create_integer range (find_number_of_bytes_required range.maximum))
        bytes
        (in_script (integer range) v)
    → Understands (integer range) v bytes
unfolding generate_parser_creation
integer-Understands range v bytes r = (_, refl, r)
