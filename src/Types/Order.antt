-- ===== src/Types/Order.antt =====
-- `less` is a strict total order on the types, as the set of generated structures needs it.
pub mod Strict
use warpcoil.Base.{
  Bool-cases, inl, inr, ℕ, ◌<◌, ◌≡◌, ◌≢◌, refl, sym, ◌∙◌, ap, subst, Bool, true, false, [], ◌∷◌,
  List, ltb, arith, if◌then◌else◌,
}
use warpcoil.Types.Syntax.{
  Integer, Identifier, WireType, Elements, Fields, integer, variant, tuple, vector, utf8, structure,
  nil, cons, end, field,
}
use warpcoil.Types.Less.{
  less_name, less_integer, index, then_by, both_integer, both_name, both, both_elements,
  both_fields, less, less_structure,
}

-- Two types with the same alternative, or with two alternatives: then these decide.
pub data Compared : WireType → WireType → Type 0 where
  integer_both : {l r : Integer} → Compared (integer l) (integer r)
  variant_both : {l r : Elements} → Compared (variant l) (variant r)
  tuple_both : {l r : Elements} → Compared (tuple l) (tuple r)
  vector_both : {l r : Integer} {a b : WireType} → Compared (vector l a) (vector r b)
  utf8_both : {l r : Integer} → Compared (utf8 l) (utf8 r)
  structure_both : {l r : Fields} → Compared (structure l) (structure r)
  apart :
      {l r : WireType}
      → both l r ≡ (ltb (index l) (index r), ltb (index r) (index l))
      → both r l ≡ (ltb (index r) (index l), ltb (index l) (index r))
      → index l ≢ index r
      → Compared l r

pub compared : (l r : WireType) → Compared l r
unfolding both index
compared (integer l) (integer r) = integer_both
compared (integer l) (variant r) = apart refl refl (omega arith)
compared (integer l) (tuple r) = apart refl refl (omega arith)
compared (integer l) (vector r r') = apart refl refl (omega arith)
compared (integer l) (utf8 r) = apart refl refl (omega arith)
compared (integer l) (structure r) = apart refl refl (omega arith)
compared (variant l) (integer r) = apart refl refl (omega arith)
compared (variant l) (variant r) = variant_both
compared (variant l) (tuple r) = apart refl refl (omega arith)
compared (variant l) (vector r r') = apart refl refl (omega arith)
compared (variant l) (utf8 r) = apart refl refl (omega arith)
compared (variant l) (structure r) = apart refl refl (omega arith)
compared (tuple l) (integer r) = apart refl refl (omega arith)
compared (tuple l) (variant r) = apart refl refl (omega arith)
compared (tuple l) (tuple r) = tuple_both
compared (tuple l) (vector r r') = apart refl refl (omega arith)
compared (tuple l) (utf8 r) = apart refl refl (omega arith)
compared (tuple l) (structure r) = apart refl refl (omega arith)
compared (vector l l') (integer r) = apart refl refl (omega arith)
compared (vector l l') (variant r) = apart refl refl (omega arith)
compared (vector l l') (tuple r) = apart refl refl (omega arith)
compared (vector l l') (vector r r') = vector_both
compared (vector l l') (utf8 r) = apart refl refl (omega arith)
compared (vector l l') (structure r) = apart refl refl (omega arith)
compared (utf8 l) (integer r) = apart refl refl (omega arith)
compared (utf8 l) (variant r) = apart refl refl (omega arith)
compared (utf8 l) (tuple r) = apart refl refl (omega arith)
compared (utf8 l) (vector r r') = apart refl refl (omega arith)
compared (utf8 l) (utf8 r) = utf8_both
compared (utf8 l) (structure r) = apart refl refl (omega arith)
compared (structure l) (integer r) = apart refl refl (omega arith)
compared (structure l) (variant r) = apart refl refl (omega arith)
compared (structure l) (tuple r) = apart refl refl (omega arith)
compared (structure l) (vector r r') = apart refl refl (omega arith)
compared (structure l) (utf8 r) = apart refl refl (omega arith)
compared (structure l) (structure r) = structure_both

-- What the answers for both orders of the operands say: exactly one of less, greater and equal.
pub data Verdict {A : Type 0} (l r : A) : Bool × Bool → Type 0 where
  below : Verdict l r (true, false)
  above : Verdict l r (false, true)
  same : l ≡ r → Verdict l r (false, false)

Verdict-map :
    {A B : Type 0} (f : A → B) (l r : A) (p : Bool × Bool) → Verdict l r p → Verdict (f l) (f r) p
Verdict-map f l r p below = below
Verdict-map f l r p above = above
Verdict-map f l r p (same e) = same (ap f e)

pub number-Verdict : (a b : ℕ) → Verdict a b (ltb a b, ltb b a)
number-Verdict a b = elim (Bool-cases (ltb a b)) [
  | inl p ↦ subst (Verdict a b) (ground (arith, p)) below
  | inr p ↦ elim (Bool-cases (ltb b a)) [
    | inl q ↦ subst (Verdict a b) (ground (arith, p, q)) above
    | inr q ↦ subst (Verdict a b) (ground (arith, p, q)) (same (ground (arith, p, q)))
  ]
]

differ : (l r : WireType) (i j : ℕ) (p : Bool × Bool) → i ≢ j → Verdict i j p → Verdict l r p
differ l r i j p n below = below
differ l r i j p n above = above
differ l r i j p n (same e) = absurd (n e)

-- Two parts, the first of which is compared first.
pub then-Verdict :
    {A B C : Type 0} (f : A → B → C) (a a' : A) (b b' : B) (p q : Bool × Bool)
    → Verdict a a' p
    → Verdict b b' q
    → Verdict (f a b) (f a' b') (then_by p q)
then-Verdict f a a' b b' p q below w = below
then-Verdict f a a' b b' p q above w = above
then-Verdict f a a' b b' p q (same e) below = below
then-Verdict f a a' b b' p q (same e) above = above
then-Verdict f a a' b b' p q (same e) (same h) = same (cc (e, h))

abbrev interval : ℕ → ℕ → Integer
interval m n = record { minimum = m; maximum = n }

pub integer-Verdict : (l r : Integer) → Verdict l r (both_integer l r)
unfolding both_integer less_integer
integer-Verdict l r =
    then-Verdict interval l.minimum r.minimum l.maximum r.maximum _ _
      (number-Verdict l.minimum r.minimum) (number-Verdict l.maximum r.maximum)

pub name-Verdict : (l r : Identifier) → Verdict l r (both_name l r)
unfolding both_name less_name
name-Verdict [] [] = same refl
name-Verdict [] (r ∷ rs) = below
name-Verdict (l ∷ ls) [] = above
name-Verdict (l ∷ ls) (r ∷ rs) =
    then-Verdict ◌∷◌ l r ls rs _ _ (number-Verdict l r) (name-Verdict ls rs)

abbrev named : WireType × Identifier → Fields → Fields
named e rest = field e.0 e.1 rest

abbrev pub paired : WireType → Identifier → WireType × Identifier
paired t n = (t, n)

mutual
  unfolding both both_elements both_fields

  pub type-Verdict : (l r : WireType) → Compared l r → Verdict l r (both l r)
  type-Verdict (integer l) (integer r) integer_both =
      Verdict-map integer l r _ (integer-Verdict l r)
  type-Verdict (variant l) (variant r) variant_both =
      Verdict-map variant l r _ (elements-Verdict l r)
  type-Verdict (tuple l) (tuple r) tuple_both = Verdict-map tuple l r _ (elements-Verdict l r)
  type-Verdict (vector l a) (vector r b) vector_both =
      then-Verdict vector l r a b _ _ (integer-Verdict l r) (type-Verdict a b (compared a b))
  type-Verdict (utf8 l) (utf8 r) utf8_both = Verdict-map utf8 l r _ (integer-Verdict l r)
  type-Verdict (structure l) (structure r) structure_both =
      Verdict-map structure l r _ (fields-Verdict l r)
  type-Verdict l r (apart e h n) =
      subst (Verdict l r) (sym e)
        (differ l r (index l) (index r) _ n (number-Verdict (index l) (index r)))

  pub elements-Verdict : (l r : Elements) → Verdict l r (both_elements l r)
  elements-Verdict nil nil = same refl
  elements-Verdict nil (cons r rs) = below
  elements-Verdict (cons l ls) nil = above
  elements-Verdict (cons l ls) (cons r rs) =
      then-Verdict cons l r ls rs _ _ (type-Verdict l r (compared l r)) (elements-Verdict ls rs)

  pub fields-Verdict : (l r : Fields) → Verdict l r (both_fields l r)
  fields-Verdict end end = same refl
  fields-Verdict end (field r n rs) = below
  fields-Verdict (field l m ls) end = above
  fields-Verdict (field l m ls) (field r n rs) =
      then-Verdict named (l, m) (r, n) ls rs _ _
        (then-Verdict paired l r m n _ _ (type-Verdict l r (compared l r)) (name-Verdict m n))
        (fields-Verdict ls rs)

abbrev swap : Bool × Bool → Bool × Bool
swap p = (p.1, p.0)

then-swap :
    (p q p' q' : Bool × Bool) → p' ≡ swap p → q' ≡ swap q → then_by p' q' ≡ swap (then_by p q)
then-swap p q p' q' e h = cc (e, h)

integer-swap : (l r : Integer) → both_integer r l ≡ swap (both_integer l r)
unfolding both_integer
integer-swap l r = refl

name-swap : (l r : Identifier) → both_name r l ≡ swap (both_name l r)
unfolding both_name
name-swap l r = refl

mutual
  unfolding both both_elements both_fields

  pub type-swap : (l r : WireType) → Compared l r → both r l ≡ swap (both l r)
  type-swap (integer l) (integer r) integer_both = integer-swap l r
  type-swap (variant l) (variant r) variant_both = elements-swap l r
  type-swap (tuple l) (tuple r) tuple_both = elements-swap l r
  type-swap (vector l a) (vector r b) vector_both =
      then-swap (both_integer l r) (both a b) (both_integer r l) (both b a) (integer-swap l r)
        (type-swap a b (compared a b))
  type-swap (utf8 l) (utf8 r) utf8_both = integer-swap l r
  type-swap (structure l) (structure r) structure_both = fields-swap l r
  type-swap l r (apart e h n) = h ∙ sym (ap swap e)

  elements-swap : (l r : Elements) → both_elements r l ≡ swap (both_elements l r)
  elements-swap nil nil = refl
  elements-swap nil (cons r rs) = refl
  elements-swap (cons l ls) nil = refl
  elements-swap (cons l ls) (cons r rs) =
      then-swap (both l r) (both_elements ls rs) (both r l) (both_elements rs ls)
        (type-swap l r (compared l r)) (elements-swap ls rs)

  pub fields-swap : (l r : Fields) → both_fields r l ≡ swap (both_fields l r)
  fields-swap end end = refl
  fields-swap end (field r n rs) = refl
  fields-swap (field l m ls) end = refl
  fields-swap (field l m ls) (field r n rs) =
      then-swap (then_by (both l r) (both_name m n)) (both_fields ls rs)
        (then_by (both r l) (both_name n m)) (both_fields rs ls)
        (then-swap (both l r) (both_name m n) (both r l) (both_name n m)
          (type-swap l r (compared l r)) (name-swap m n))
        (fields-swap ls rs)
