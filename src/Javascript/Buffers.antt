-- ===== src/Javascript/Buffers.antt =====
-- Writes into a buffer, one behind the other.
use warpcoil.Base.{
  ℕ, zero, suc, ◌+◌, ◌≤◌, ◌≡◌, refl, ◌∙◌, ap, List, [], ◌∷◌, ◌++◌, append_assoc, append-nil, some,
  arith, length, length-append, drop, replicate, ltb-false,
}
use warpcoil.Javascript.Writing.{Script, set_bytes, write_at, overwrite, replace, and_then}

-- The script puts the bytes behind what is written, over the first bytes of the rest.
abbrev pub Does : (ℕ → Script) → List ℕ → Type 0
Does f bytes =
    (sink rest : List ℕ)
    → length bytes ≤ length rest
    → f (length sink) (sink ++ rest) ≡ some ((sink ++ bytes) ++ drop (length bytes) rest)

replace_front :
    (bytes rest : List ℕ)
    → length bytes ≤ length rest
    → replace bytes rest ≡ bytes ++ drop (length bytes) rest
unfolding replace
replace_front [] rest h = refl
replace_front (b ∷ bs) [] h = absurd (omega arith)
replace_front (b ∷ bs) (x ∷ xs) h = ap (λ l. b ∷ l) (replace_front bs xs (omega arith))

overwrite-append :
    (sink bytes rest : List ℕ)
    → length bytes ≤ length rest
    → overwrite (length sink) bytes (sink ++ rest) ≡ (sink ++ bytes) ++ drop (length bytes) rest
unfolding overwrite
overwrite-append [] bytes rest h = replace_front bytes rest h
overwrite-append (s ∷ sink) bytes rest h = ap (λ l. s ∷ l) (overwrite-append sink bytes rest h)

pub set_bytes-Does : (bytes : List ℕ) → Does (λ o. set_bytes (some o) bytes) bytes
unfolding set_bytes write_at
set_bytes-Does bytes sink rest h =
    rw
      (
        length-append sink rest,
        ltb-false (length sink + length rest) (length sink + length bytes) (omega arith),
      )
      (ap some (overwrite-append sink bytes rest h))

drop-nil : (n : ℕ) → drop {A = ℕ} n [] ≡ []
drop-nil zero = refl
drop-nil (suc n) = refl

drop-drop :
    (a b rest : List ℕ) → drop (length b) (drop (length a) rest) ≡ drop (length (a ++ b)) rest
drop-drop [] b rest = refl
drop-drop (x ∷ a) b [] = drop-nil (length b)
drop-drop (x ∷ a) b (y ∷ rest) = drop-drop a b rest

length-drop :
    (a rest : List ℕ)
    → length a ≤ length rest
    → length a + length (drop (length a) rest) ≡ length rest
length-drop [] rest h = omega arith
length-drop (x ∷ a) [] h = absurd (omega arith)
length-drop (x ∷ a) (y ∷ rest) h = omega (arith, length-drop a rest (omega arith))

pub then-Does :
    (f g : ℕ → Script) (a b : List ℕ)
    → Does f a
    → Does g b
    → Does (λ o buffer. and_then (f o buffer) (g (o + length a))) (a ++ b)
unfolding and_then
then-Does f g a b p q sink rest h = rw (p sink rest (omega (arith, length-append a b))) (
    rw (← append_assoc sink a b, ← length-append sink a, ← drop-drop a b rest)
      (q (sink ++ a) (drop (length a) rest)
        (omega (arith, length-append a b, length-drop a rest (omega (arith, length-append a b))))))

pub skip-Does : Does (λ o buffer. some buffer) []
skip-Does sink rest h = rw append-nil refl

all_dropped : (bytes rest : List ℕ) → length rest ≡ length bytes → drop (length bytes) rest ≡ []
all_dropped [] [] h = refl
all_dropped [] (x ∷ xs) h = absurd (omega arith)
all_dropped (b ∷ bs) [] h = absurd (omega arith)
all_dropped (b ∷ bs) (x ∷ xs) h = all_dropped bs xs (omega arith)

length-replicate : (n x : ℕ) → length (replicate n x) ≡ n
length-replicate zero x = refl
length-replicate (suc n) x = ap suc (length-replicate n x)

-- A new buffer of the right size holds these bytes in the end.
pub Does-new :
    (f : ℕ → Script) (bytes : List ℕ) (size : ℕ)
    → Does f bytes
    → size ≡ length bytes
    → f 0 (replicate size 0) ≡ some bytes
Does-new f bytes size d e =
    let n = length-replicate size 0 in
    d [] (replicate size 0) (omega arith)
    ∙ ap (λ l. some (bytes ++ l)) (all_dropped bytes (replicate size 0) (omega arith))
    ∙ rw append-nil refl

-- Three parts of a new buffer, with the offsets of the second and the third.
pub three-Does :
    (f g h : ℕ → Script) (a b c : List ℕ) (n k size : ℕ)
    → Does f a
    → Does g b
    → Does h c
    → n ≡ 0 + length a
    → k ≡ 0 + length a + length b
    → size ≡ length (a ++ (b ++ c))
    → and_then (f 0 (replicate size 0)) (λ x. and_then (g n x) (h k)) ≡ some (a ++ (b ++ c))
three-Does f g h a b c n k size df dg dh en ek es =
    rw (en, ek)
      (Does-new
        (λ o buffer.
          and_then (f o buffer) (λ x. and_then (g (o + length a) x) (h (o + length a + length b))))
        (a ++ (b ++ c)) size
        (then-Does f (λ o x. and_then (g o x) (h (o + length b))) a (b ++ c) df
          (then-Does g h b c dg dh))
        es)
