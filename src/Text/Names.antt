-- ===== src/Text/Names.antt =====
-- warpcoil/cpp/generate/generate_name_for_structure.hpp: when two structures get the same name.
use warpcoil.Base.{ℕ, ◌≡◌, ◌≢◌, refl, sym, ap, List, [], ◌∷◌, ◌++◌, All, ◌↔◌, codes, ◌⊎◌, inl, inr}
use warpcoil.Types.Syntax.{Fields, Identifier, end, field}
use warpcoil.Text.{Text}

-- What the loop appends.
unfoldable pub append_names : Fields → Text
append_names end = []
append_names (field what name rest) = codes "_" ++ (name ++ append_names rest)

unfoldable pub generate_name_for_structure : Fields → Text
unfolding append_names
generate_name_for_structure structure = codes "structure_to_do" ++ append_names structure

abbrev pub member_names : Fields → List Identifier
member_names end = []
member_names (field what name rest) = name ∷ member_names rest

-- A name with no `_` in it.
abbrev pub IsSimple : Identifier → Type 0
IsSimple name = All (λ c. c ≢ b'_') name

-- Nothing, or something that begins with `_`.
AtBoundary : Text → Type 0
AtBoundary x = (x ≡ []) ⊎ ((rest : Text) × (x ≡ b'_' ∷ rest))

append_names-AtBoundary : (f : Fields) → AtBoundary (append_names f)
unfolding AtBoundary append_names
append_names-AtBoundary end = inl refl
append_names-AtBoundary (field what name rest) = inr (name ++ append_names rest, refl)

no_boundary : (c : ℕ) (n x y : Text) → c ≢ b'_' → AtBoundary x → x ≡ c ∷ (n ++ y) → ⊥
unfolding AtBoundary
no_boundary c n x y h (inl e) k = cc
no_boundary c n x y h (inr (rest, e)) k = h (cc)

-- Two texts are the same up to the first `_`, and behind it.
same_name :
    (m n x y : Text)
    → IsSimple m
    → IsSimple n
    → AtBoundary x
    → AtBoundary y
    → m ++ x ≡ n ++ y
    → (m ≡ n) × (x ≡ y)
same_name [] [] x y h k a b e = (refl, e)
same_name [] (d ∷ n) x y h k a b e = absurd (no_boundary d n x y k.0 a e)
same_name (c ∷ m) [] x y h k a b e = absurd (no_boundary c m y x h.0 b (sym e))
same_name (c ∷ m) (d ∷ n) x y h k a b e =
    let (same, rest) = same_name m n x y h.1 k.1 a b (cc) in
    let head : c ≡ d = cc in (cc (head, same), rest)

append_names-injective :
    (f g : Fields)
    → All IsSimple (member_names f)
    → All IsSimple (member_names g)
    → append_names f ≡ append_names g
    → member_names f ≡ member_names g
unfolding append_names
append_names-injective end end h k e = refl
append_names-injective end (field u n g) h k e = absurd (cc)
append_names-injective (field t m f) end h k e = absurd (cc)
append_names-injective (field t m f) (field u n g) h k e =
    let (same, rest) =
      same_name m n (append_names f) (append_names g) h.0 k.0 (append_names-AtBoundary f)
        (append_names-AtBoundary g) (cc) in
    cc (same, append_names-injective f g h.1 k.1 rest)

append_names-member_names :
    (f g : Fields) → member_names f ≡ member_names g → append_names f ≡ append_names g
unfolding append_names
append_names-member_names end end e = refl
append_names-member_names end (field u n g) e = absurd (cc)
append_names-member_names (field t m f) end e = absurd (cc)
append_names-member_names (field t m f) (field u n g) e =
    let name : m ≡ n = cc in
    let rest : append_names f ≡ append_names g = append_names-member_names f g (cc) in
    cc (name, rest)

strip : (x y z : Text) → x ++ y ≡ x ++ z → y ≡ z
strip [] y z e = e
strip (c ∷ x) y z e = strip x y z (cc)

-- Two structures whose member names hold no underscore get the same C++ name exactly if their
-- member names are the same, in order: the types of the members make no difference.
pub generate_name_for_structure-member_names :
    (f g : Fields)
    → All IsSimple (member_names f)
    → All IsSimple (member_names g)
    → (generate_name_for_structure f ≡ generate_name_for_structure g)
      ↔ (member_names f ≡ member_names g)
unfolding generate_name_for_structure
generate_name_for_structure-member_names f g h k = (
  λ e.
      append_names-injective f g h k
        (strip (codes "structure_to_do") (append_names f) (append_names g) e),
  λ e. ap (λ l. codes "structure_to_do" ++ l) (append_names-member_names f g e),
)
