-- ===== src/Wire/RoundTrip/Lemmas.antt =====
-- One lemma for each statement that generate_value_serialization.hpp emits.
use warpcoil.Base.{
  ℕ, ◌*◌, ◌/◌, ◌%◌, ◌^◌, ◌≤◌, ◌<◌, ◌≡◌, refl, sym, ◌∙◌, false, List, [], ◌∷◌, ◌++◌, append-nil,
  append_assoc, inl, inr, arith, Bool-cases,
}
use native.Mathlib.Nat.{mod-eq_of_lt}
use warpcoil.Types.Syntax.{Integer, Elements, count}
use warpcoil.Parse.Interface.{Parser, Reads}
use warpcoil.Parse.Integer.{integer_parser, write_integer, write_bytes}
use warpcoil.Parse.Integer.Reading.{integer_parser-write_integer}
use warpcoil.Parse.Vector.Reading.{ReadsEach, no_value, one_value}
use warpcoil.Wire.Values.{find_suitable_uint_cpp_type, parser_size}
use warpcoil.Wire.Serialize.{
  RequestStatus, ok, failure, Statements, proceed, out_of_range, serialize_integer, index_range,
  for_each,
}

-- If the statements ran to their end, they appended bytes that satisfy `P`.
abbrev pub Adds : (List ℕ → Type 0) → List ℕ → List ℕ × RequestStatus → Type 0
Adds P sink r = r.1 ≡ ok → (bytes : List ℕ) × (r.0 ≡ sink ++ bytes) × P bytes

-- The bytes are two parts, one for each of two statements.
abbrev pub Both : (List ℕ → Type 0) → (List ℕ → Type 0) → List ℕ → Type 0
Both P Q bytes = (front : List ℕ) × (back : List ℕ) × (bytes ≡ front ++ back) × P front × Q back

pub proceed-Adds :
    (P Q : List ℕ → Type 0) (sink : List ℕ) (next : Statements) (r : List ℕ × RequestStatus)
    → Adds P sink r
    → ((s : List ℕ) → Adds Q s (next s))
    → Adds (Both P Q) sink (proceed next r)
proceed-Adds P Q sink next (s, ok) a k = λ h.
    let (front, e, p) = a refl in
    let (back, e', q) = k s h in
    (front ++ back, e' ∙ rw (e, append_assoc), (front, back, refl, p, q))
proceed-Adds P Q sink next (s, failure) a k = λ h. cc

pub Adds-map :
    (P Q : List ℕ → Type 0) (sink : List ℕ) (r : List ℕ × RequestStatus)
    → ((bytes : List ℕ) → P bytes → Q bytes)
    → Adds P sink r
    → Adds Q sink r
Adds-map P Q sink r f a = λ h. let (bytes, e, p) = a h in (bytes, e, f bytes p)

-- A value that passes the check fits the type that it is cast to.
pub in_range :
    (range : Integer) (value : ℕ)
    → range.maximum < 2 ^ 64
    → out_of_range range value ≡ false
    → value < 2 ^ (find_suitable_uint_cpp_type range * 8)
unfolding out_of_range find_suitable_uint_cpp_type
in_range range value h e = ground arith

-- The parser and the serialization agree on the width.
pub parser_size-find_suitable_uint_cpp_type :
    (range : Integer) → parser_size range ≡ find_suitable_uint_cpp_type range
unfolding parser_size find_suitable_uint_cpp_type
parser_size-find_suitable_uint_cpp_type range = refl

size_pos : (range : Integer) → 0 < parser_size range
unfolding parser_size
size_pos range = ground arith

pub serialize_integer-Adds :
    (range : Integer) (value : ℕ) (sink : List ℕ)
    → range.maximum < 2 ^ 64
    → Adds
        (λ bytes.
          Reads
            (integer_parser (parser_size range))
            (integer_parser (parser_size range)).start
            bytes
            value)
        sink
        (serialize_integer range value sink)
unfolding serialize_integer parser_size find_suitable_uint_cpp_type
serialize_integer-Adds range value sink h = elim (Bool-cases (out_of_range range value)) [
  | inl bad ↦ rw (bad, serialize_integer) (λ e. cc)
  | inr fine ↦
      let fits = in_range range value h fine in
      rw (fine, serialize_integer)
        (λ e. (
          _,
          refl,
          rw (mod-eq_of_lt fits)
              (integer_parser-write_integer (parser_size range) value (size_pos range) fits),
        ))
]

index_size :
    (root : Elements)
    → count root ≤ 256
    → 0 < count root
    → find_suitable_uint_cpp_type (index_range root) ≡ 1
unfolding find_suitable_uint_cpp_type index_range
index_size root h k = ground arith

index_in_range :
    (root : Elements) (i : ℕ)
    → count root ≤ 256
    → i < count root
    → out_of_range (index_range root) i ≡ false
unfolding out_of_range index_range
index_in_range root i h k = ground arith

pub write_integer-one : (i : ℕ) → i < 256 → write_integer 1 i ≡ i ∷ []
unfolding write_integer write_bytes
write_integer-one i h = let e : i / 1 % 256 ≡ i = omega arith in rw e

-- The index of a variant with at most 256 alternatives goes out as one byte.
pub index-Adds :
    (root : Elements) (i : ℕ) (sink : List ℕ)
    → count root ≤ 256
    → i < count root
    → Adds (λ bytes. bytes ≡ i ∷ []) sink (serialize_integer (index_range root) i sink)
unfolding serialize_integer
index-Adds root i sink h k =
    let small : i < 256 = omega arith in
    rw
      (
        index_in_range root i h k,
        index_size root h (omega arith),
        mod-eq_of_lt {n = i} {m = 2 ^ 8} small,
        write_integer-one i small,
        serialize_integer,
      )
      (λ e. (i ∷ [], refl, refl))

pub for_each-Adds :
    {A : Type 0} (E : Parser A) (body : A → Statements)
    → ((x : A) (sink : List ℕ) → Adds (λ bytes. Reads E E.start bytes x) sink (body x sink))
    → (xs : List A) (sink : List ℕ)
    → Adds (λ bytes. ReadsEach E bytes xs) sink (for_each body xs sink)
unfolding for_each
for_each-Adds E body h [] sink = λ e. ([], sym (append-nil sink), no_value)
for_each-Adds E body h (x ∷ xs) sink =
    Adds-map _ _ sink _ (λ bytes (front, back, e, p, q). one_value p q e)
      (proceed-Adds _ _ sink (for_each body xs) (body x sink) (h x sink)
        (for_each-Adds E body h xs))
