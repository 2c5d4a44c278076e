-- ===== src/Types/Order/Strict.antt =====
-- The laws of a strict total order for `less` on types and on structures.
use warpcoil.Base.{
  ℕ, ◌<◌, ◌≤◌, lt→ltb, ◌≡◌, ◌≢◌, refl, sym, ◌∙◌, ap, Bool, true, false, [], ◌∷◌, ltb, arith, ◌⊎◌,
  inl, inr,
}
use warpcoil.Types.Syntax.{
  Integer, Identifier, WireType, Elements, Fields, integer, variant, tuple, vector, utf8, structure,
  nil, cons, end, field,
}
use warpcoil.Types.Less.{
  less_name, less_integer, index, then_by, both_integer, both_name, both, both_elements,
  both_fields, less, less_structure,
}
use warpcoil.Types.Order.{
  Compared, compared, integer_both, variant_both, tuple_both, vector_both, utf8_both,
  structure_both, apart, Verdict, below, above, same, then-Verdict, paired, name-Verdict,
  integer-Verdict, type-Verdict, fields-Verdict, type-swap, fields-swap, number-Verdict,
}

-- The answers for a, b, for b, c and for a, c.
abbrev Chains : Bool × Bool → Bool × Bool → Bool × Bool → Type 0
Chains p q r = p.0 ≡ true → q.0 ≡ true → r.0 ≡ true

-- Lexicographic comparison is transitive where its parts are; `p`, `q` and `r` are the answers for
-- the first part.
then-Chains :
    {A : Type 0} (a b c : A) (p q r p' q' r' : Bool × Bool)
    → Verdict a b p
    → Verdict b c q
    → (a ≡ b → r ≡ q)
    → (b ≡ c → r ≡ p)
    → Chains p q r
    → Chains p' q' r'
    → Chains (then_by p p') (then_by q q') (then_by r r')
then-Chains a b c p q r p' q' r' below below f g h k = λ x y. ground (arith, h refl refl)
then-Chains a b c p q r p' q' r' below above f g h k = λ x y. cc
then-Chains a b c p q r p' q' r' below (same e) f g h k = λ x y. ground (arith, g e)
then-Chains a b c p q r p' q' r' above w f g h k = λ x y. cc
then-Chains a b c p q r p' q' r' (same e) below f g h k = λ x y. ground (arith, f e)
then-Chains a b c p q r p' q' r' (same e) above f g h k = λ x y. cc
then-Chains a b c p q r p' q' r' (same e) (same d) f g h k = λ x y. rw (f e) (k x y)

number-Chains : (a b c : ℕ) → Chains (ltb a b, ltb b a) (ltb b c, ltb c b) (ltb a c, ltb c a)
number-Chains a b c = λ x y. ground arith

integer-Chains : (a b c : Integer) → Chains (both_integer a b) (both_integer b c) (both_integer a c)
unfolding both_integer less_integer
integer-Chains a b c = λ x y. ground arith

name-Chains : (a b c : Identifier) → Chains (both_name a b) (both_name b c) (both_name a c)
unfolding both_name less_name
name-Chains [] [] c = λ x y. cc
name-Chains [] (b ∷ bs) [] = λ x y. cc
name-Chains [] (b ∷ bs) (c ∷ cs) = λ x y. refl
name-Chains (a ∷ as_) [] c = λ x y. cc
name-Chains (a ∷ as_) (b ∷ bs) [] = λ x y. cc
name-Chains (a ∷ as_) (b ∷ bs) (c ∷ cs) =
    then-Chains a b c (ltb a b, ltb b a) (ltb b c, ltb c b) (ltb a c, ltb c a) (both_name as_ bs)
      (both_name bs cs) (both_name as_ cs) (number-Verdict a b) (number-Verdict b c) (λ e. cc)
      (λ e. cc) (number-Chains a b c) (name-Chains as_ bs cs)

unordered : (m n : ℕ) → ltb m n ≡ true → m ≤ n
unordered m n h = ground arith

index_mono : (a b : WireType) → Compared a b → (both a b).0 ≡ true → index a ≤ index b
unfolding index
index_mono (integer l) (integer r) integer_both h = omega arith
index_mono (variant l) (variant r) variant_both h = omega arith
index_mono (tuple l) (tuple r) tuple_both h = omega arith
index_mono (vector l a) (vector r b) vector_both h = omega arith
index_mono (utf8 l) (utf8 r) utf8_both h = omega arith
index_mono (structure l) (structure r) structure_both h = omega arith
index_mono a b (apart e _ n) h = unordered (index a) (index b) (ap (λ p. p.0) (sym e) ∙ h)

both_of_index : (a b : WireType) → Compared a b → index a < index b → (both a b).0 ≡ true
unfolding index
both_of_index (integer l) (integer r) integer_both h = absurd (omega arith)
both_of_index (variant l) (variant r) variant_both h = absurd (omega arith)
both_of_index (tuple l) (tuple r) tuple_both h = absurd (omega arith)
both_of_index (vector l a) (vector r b) vector_both h = absurd (omega arith)
both_of_index (utf8 l) (utf8 r) utf8_both h = absurd (omega arith)
both_of_index (structure l) (structure r) structure_both h = absurd (omega arith)
both_of_index a b (apart e _ n) h = ap (λ p. p.0) e ∙ lt→ltb (index a) (index b) h

apart-Chains :
    (a b c : WireType)
    → Compared a b
    → Compared b c
    → (index a ≢ index b) ⊎ (index b ≢ index c)
    → Chains (both a b) (both b c) (both a c)
apart-Chains a b c k l (inl n) = λ x y.
    both_of_index a c (compared a c) (omega (arith, n, index_mono a b k x, index_mono b c l y))
apart-Chains a b c k l (inr n) = λ x y.
    both_of_index a c (compared a c) (omega (arith, n, index_mono a b k x, index_mono b c l y))

mutual
  unfolding both both_elements both_fields

  type-Chains :
      (a b c : WireType) → Compared a b → Compared b c → Chains (both a b) (both b c) (both a c)
  type-Chains (integer a) (integer b) (integer c) integer_both integer_both = integer-Chains a b c
  type-Chains (variant a) (variant b) (variant c) variant_both variant_both = elements-Chains a b c
  type-Chains (tuple a) (tuple b) (tuple c) tuple_both tuple_both = elements-Chains a b c
  type-Chains (vector a x) (vector b y) (vector c z) vector_both vector_both =
      then-Chains a b c (both_integer a b) (both_integer b c) (both_integer a c) (both x y)
        (both y z) (both x z) (integer-Verdict a b) (integer-Verdict b c)
        (λ e. ap (λ t. both_integer t c) e) (λ e. ap (λ t. both_integer a t) (sym e))
        (integer-Chains a b c) (type-Chains x y z (compared x y) (compared y z))
  type-Chains (utf8 a) (utf8 b) (utf8 c) utf8_both utf8_both = integer-Chains a b c
  type-Chains (structure a) (structure b) (structure c) structure_both structure_both =
      fields-Chains a b c
  type-Chains a b c (apart e h n) k = apart-Chains a b c (apart e h n) k (inl n)
  type-Chains a b c k (apart e h n) = apart-Chains a b c k (apart e h n) (inr n)

  elements-Chains :
      (a b c : Elements) → Chains (both_elements a b) (both_elements b c) (both_elements a c)
  elements-Chains nil nil c = λ x y. cc
  elements-Chains nil (cons b bs) nil = λ x y. cc
  elements-Chains nil (cons b bs) (cons c cs) = λ x y. refl
  elements-Chains (cons a as_) nil c = λ x y. cc
  elements-Chains (cons a as_) (cons b bs) nil = λ x y. cc
  elements-Chains (cons a as_) (cons b bs) (cons c cs) =
      then-Chains a b c (both a b) (both b c) (both a c) (both_elements as_ bs)
        (both_elements bs cs) (both_elements as_ cs) (type-Verdict a b (compared a b))
        (type-Verdict b c (compared b c)) (λ e. ap (λ t. both t c) e)
        (λ e. ap (λ t. both a t) (sym e)) (type-Chains a b c (compared a b) (compared b c))
        (elements-Chains as_ bs cs)

  fields-Chains : (a b c : Fields) → Chains (both_fields a b) (both_fields b c) (both_fields a c)
  fields-Chains end end c = λ x y. cc
  fields-Chains end (field b n bs) end = λ x y. cc
  fields-Chains end (field b n bs) (field c o cs) = λ x y. refl
  fields-Chains (field a m as_) end c = λ x y. cc
  fields-Chains (field a m as_) (field b n bs) end = λ x y. cc
  fields-Chains (field a m as_) (field b n bs) (field c o cs) =
      then-Chains (a, m) (b, n) (c, o) (then_by (both a b) (both_name m n))
        (then_by (both b c) (both_name n o)) (then_by (both a c) (both_name m o))
        (both_fields as_ bs) (both_fields bs cs) (both_fields as_ cs)
        (then-Verdict paired a b m n _ _ (type-Verdict a b (compared a b)) (name-Verdict m n))
        (then-Verdict paired b c n o _ _ (type-Verdict b c (compared b c)) (name-Verdict n o))
        (λ e. ap (λ t. then_by (both t.0 c) (both_name t.1 o)) e)
        (λ e. ap (λ t. then_by (both a t.0) (both_name m t.1)) (sym e))
        (then-Chains a b c (both a b) (both b c) (both a c) (both_name m n) (both_name n o)
          (both_name m o) (type-Verdict a b (compared a b)) (type-Verdict b c (compared b c))
          (λ e. ap (λ t. both t c) e) (λ e. ap (λ t. both a t) (sym e))
          (type-Chains a b c (compared a b) (compared b c)) (name-Chains m n o))
        (fields-Chains as_ bs cs)

-- A strict total order: nothing is less than itself, and of two different values one is less.
pub record IsStrictTotalOrder {A : Type 0} (lt : A → A → Bool) : Type 0 where
  pub irreflexive : (a : A) → lt a a ≡ false
  pub transitive : (a b c : A) → lt a b ≡ true → lt b c ≡ true → lt a c ≡ true
  pub total : (a b : A) → a ≢ b → (lt a b ≡ true) ⊎ (lt b a ≡ true)

diagonal : {A : Type 0} (a : A) (p : Bool × Bool) → Verdict a a p → p ≡ (p.1, p.0) → p.0 ≡ false
diagonal a p below e = cc
diagonal a p above e = refl
diagonal a p (same h) e = refl

either :
    {A : Type 0} (a b : A) (p q : Bool × Bool)
    → Verdict a b p
    → q ≡ (p.1, p.0)
    → a ≢ b
    → (p.0 ≡ true) ⊎ (q.0 ≡ true)
either a b p q below e n = inl refl
either a b p q above e n = inr (ap (λ t. t.0) e)
either a b p q (same h) e n = absurd (n h)

-- less on types is a strict total order: irreflexive, transitive, and of two different types one
-- is less than the other.
pub less-IsStrictTotalOrder : IsStrictTotalOrder less
unfolding less
less-IsStrictTotalOrder = record {
  irreflexive =
      λ a. diagonal a (both a a) (type-Verdict a a (compared a a)) (type-swap a a (compared a a));
  transitive = λ a b c. type-Chains a b c (compared a b) (compared b c);
  total = λ a b.
      either a b (both a b) (both b a) (type-Verdict a b (compared a b))
        (type-swap a b (compared a b));
}

-- less on structures is a strict total order: irreflexive, transitive, and of two different
-- structures one is less than the other, so that the set of generated structures tells exactly
-- the different ones apart.
pub less_structure-IsStrictTotalOrder : IsStrictTotalOrder less_structure
unfolding less_structure
less_structure-IsStrictTotalOrder = record {
  irreflexive = λ a. diagonal a (both_fields a a) (fields-Verdict a a) (fields-swap a a);
  transitive = λ a b c. fields-Chains a b c;
  total =
      λ a b. either a b (both_fields a b) (both_fields b a) (fields-Verdict a b) (fields-swap a b);
}
