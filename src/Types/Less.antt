-- ===== src/Types/Less.antt =====
-- The overloads of `less` in warpcoil/types.hpp. Types are ordered by the index of their variant
-- first; `std::tie(…) < std::tie(…)` and `std::lexicographical_compare` are written out.
use warpcoil.Base.{ℕ, Bool, true, false, [], ◌∷◌, ltb, if◌then◌else◌}
use warpcoil.Types.Syntax.{
  Integer, WireType, Elements, Fields, Identifier, integer, variant, tuple, vector, utf8, structure,
  nil, cons, end, field,
}

-- The order of `std::string`, on bytes.
unfoldable pub less_name : Identifier → Identifier → Bool
less_name left [] = false
less_name [] (r ∷ rs) = true
less_name (l ∷ ls) (r ∷ rs) = if ltb l r then true else if ltb r l then false else less_name ls rs

-- `std::tie(left.minimum, left.maximum) < std::tie(right.minimum, right.maximum)`
unfoldable pub less_integer : Integer → Integer → Bool
less_integer left right =
    if ltb left.minimum right.minimum
    then true
    else if ltb right.minimum left.minimum
    then false
    else ltb left.maximum right.maximum

-- The position of a type among the alternatives of the `Si::variant`.
unfoldable pub index : WireType → ℕ
index (integer _) = 0
index (variant _) = 1
index (tuple _) = 2
index (vector _ _) = 3
index (utf8 _) = 4
index (structure _) = 5

-- `if (less(a, b)) return true; if (less(b, a)) return false; return rest;`, answered for both
-- orders of the operands at once.
abbrev pub then_by : Bool × Bool → Bool × Bool → Bool × Bool
then_by first rest = (
  (if first.0 then true else if first.1 then false else rest.0),
  (if first.1 then true else if first.0 then false else rest.1),
)

unfoldable pub both_integer : Integer → Integer → Bool × Bool
both_integer l r = (less_integer l r, less_integer r l)

unfoldable pub both_name : Identifier → Identifier → Bool × Bool
both_name l r = (less_name l r, less_name r l)

-- `less(left, right)` and `less(right, left)`. The source calls itself in both orders, so the pair
-- is what recurs on both operands at once.
unfoldable mutual
  unfolding both_integer both_name

  pub both : WireType → WireType → Bool × Bool
  both (integer l) (integer r) = both_integer l r
  both (variant l) (variant r) = both_elements l r
  both (tuple l) (tuple r) = both_elements l r
  both (vector l a) (vector r b) = then_by (both_integer l r) (both a b)
  both (utf8 l) (utf8 r) = both_integer l r
  both (structure l) (structure r) = both_fields l r
  both l r = (ltb (index l) (index r), ltb (index r) (index l))

  pub both_elements : Elements → Elements → Bool × Bool
  both_elements nil nil = (false, false)
  both_elements nil (cons r rs) = (true, false)
  both_elements (cons l ls) nil = (false, true)
  both_elements (cons l ls) (cons r rs) = then_by (both l r) (both_elements ls rs)

  pub both_fields : Fields → Fields → Bool × Bool
  both_fields end end = (false, false)
  both_fields end (field r n rs) = (true, false)
  both_fields (field l m ls) end = (false, true)
  both_fields (field l m ls) (field r n rs) =
      then_by (then_by (both l r) (both_name m n)) (both_fields ls rs)

unfoldable pub less : WireType → WireType → Bool
less left right = (both left right).0

unfoldable pub less_structure : Fields → Fields → Bool
less_structure left right = (both_fields left right).0
