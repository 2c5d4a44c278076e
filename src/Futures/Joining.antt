-- ===== src/Futures/Joining.antt =====
-- When `when_all` calls its handler.
use warpcoil.Base.{
  ℕ, zero, suc, ◌+◌, ◌≡◌, sym, ◌∙◌, ap, subst, ◌&&◌, List, [], ◌∷◌, none, some, ltb, leb,
  if◌then◌else◌, arith, length, Option-cases, inl, inr,
}
use warpcoil.Futures.{
  FutureState, no_result, awaited, ready, complete, wait, Counter, callback, callbacks, Joined,
  wait_each, complete_at, in_front,
}

no_value : {A : Type 0} {x : A} → none ≡ some x → ⊥
no_value e = cc

-- `on_result` was called once if all of at least one future have completed, and else not at all.
abbrev pub IsCounted : ℕ → Counter → Type 0
IsCounted n c = c.called ≡ (if ltb 0 n && leb n c.completed then 1 else 0)

callback-IsCounted : (n : ℕ) (c : Counter) → IsCounted n c → IsCounted n (callback n c)
unfolding callback
callback-IsCounted n c h = ground (arith, h)

from_zero : (k : ℕ) → 0 + k ≡ k
from_zero k = omega arith

one_more : (n : ℕ) (c : Counter) (k : ℕ) → (callback n c).completed + k ≡ c.completed + suc k
unfolding callback
one_more n c k = omega arith

abbrev pub new_counter : Counter
new_counter = record { completed = 0; called = 0 }

module _ {A : Type 0} where
  abbrev IsAwaited : FutureState A → Type 0
  IsAwaited no_result = ⊥
  IsAwaited _ = Unit {0}

  abbrev AreAwaited : List (FutureState A) → Type 0
  AreAwaited [] = Unit {0}
  AreAwaited (s ∷ ss) = IsAwaited s × AreAwaited ss

  -- How many futures are ready.
  abbrev pub count_ready : List (FutureState A) → ℕ
  count_ready [] = 0
  count_ready (ready r ∷ ss) = suc (count_ready ss)
  count_ready (_ ∷ ss) = count_ready ss

  -- Completions, each of one of the futures.
  abbrev pub complete_all : ℕ → List (ℕ × A) → Joined A → Joined A
  complete_all n es none = none
  complete_all n [] (some x) = some x
  complete_all n ((i, r) ∷ es) (some (ss, c)) = complete_all n es (complete_at n i r ss c)

  joined_states : List (FutureState A) → Joined A → List (FutureState A)
  joined_states l none = l
  joined_states l (some (ss, c)) = ss

  joined_counter : Counter → Joined A → Counter
  joined_counter d none = d
  joined_counter d (some (ss, c)) = c

  in_front-some :
      (s : FutureState A) (o : Joined A) (ss : List (FutureState A)) (c : Counter)
      → in_front s o ≡ some (ss, c)
      → (rest : List (FutureState A)) × (o ≡ some (rest, c)) × (ss ≡ s ∷ rest)
  unfolding in_front joined_states joined_counter
  in_front-some s none ss c e = absurd (no_value e)
  in_front-some s (some (rest, d)) ss c e =
      let same : d ≡ c = ap (λ o. joined_counter d o) e in
      (rest, cc same, sym (ap (λ o. joined_states ss o) e))

module _ {A : Type 0} (moved : A → A) (n : ℕ) where
  stopped :
      (es : List (ℕ × A)) {x : List (FutureState A) × Counter} → complete_all n es none ≡ some x → ⊥
  stopped es e = no_value e

  wait_each-counts :
      (ss done : List (FutureState A)) (c d : Counter)
      → wait_each n moved ss c ≡ some (done, d)
      → IsCounted n c
      → IsCounted n d × (d.completed ≡ c.completed + count_ready ss) × AreAwaited done
  unfolding wait_each wait callbacks joined_states joined_counter
  wait_each-counts [] done c d e h =
      let same : c ≡ d = ap (λ o. joined_counter c o) e in
      (
        subst (λ x. IsCounted n x) same h,
        rw (← same) (omega arith),
        subst AreAwaited (ap (λ o. joined_states done o) e) tt,
      )
  wait_each-counts (no_result ∷ ss) done c d e h =
      let (rest, k, eq) = in_front-some (awaited 0) (wait_each n moved ss c) done d e in
      let (x, y, z) = wait_each-counts ss rest c d k h in (x, y, subst AreAwaited (sym eq) (tt, z))
  wait_each-counts (awaited other ∷ ss) done c d e h = absurd (no_value e)
  wait_each-counts (ready r ∷ ss) done c d e h =
      let (rest, k, eq) =
        in_front-some (ready (moved r)) (wait_each n moved ss (callback n c)) done d e in
      let (x, y, z) = wait_each-counts ss rest (callback n c) d k (callback-IsCounted n c h) in
      (x, y ∙ one_more n c (count_ready ss), subst AreAwaited (sym eq) (tt, z))

  complete_at-counts :
      (i : ℕ) (r : A) (ss done : List (FutureState A)) (c d : Counter)
      → complete_at n i r ss c ≡ some (done, d)
      → AreAwaited ss
      → (d ≡ callback n c) × AreAwaited done
  unfolding complete_at complete callbacks joined_states joined_counter
  complete_at-counts i r [] done c d e h = absurd (no_value e)
  complete_at-counts zero r (no_result ∷ ss) done c d e h = absurd h.0
  complete_at-counts zero r (awaited handler ∷ ss) done c d e h = (
    sym (ap (λ o. joined_counter c o) e),
    subst AreAwaited (ap (λ o. joined_states done o) e) (tt, h.1),
  )
  complete_at-counts zero r (ready old ∷ ss) done c d e h = absurd (no_value e)
  complete_at-counts (suc i) r (s ∷ ss) done c d e h =
      let (rest, k, eq) = in_front-some s (complete_at n i r ss c) done d e in
      let (x, z) = complete_at-counts i r ss rest c d k h.1 in
      (x, subst AreAwaited (sym eq) (h.0, z))

  complete_all-counts :
      (es : List (ℕ × A)) (ss done : List (FutureState A)) (c d : Counter)
      → complete_all n es (some (ss, c)) ≡ some (done, d)
      → IsCounted n c
      → AreAwaited ss
      → IsCounted n d × (d.completed ≡ c.completed + length es)
  unfolding joined_counter
  complete_all-counts [] ss done c d e h k =
      let same : c ≡ d = ap (λ o. joined_counter c o) e in
      (subst (λ x. IsCounted n x) same h, rw (← same) (omega arith))
  complete_all-counts ((i, r) ∷ es) ss done c d e h k =
      elim (Option-cases (complete_at n i r ss c)) [
        | inl f ↦ absurd (stopped es (subst (λ o. complete_all n es o ≡ some (done, d)) f e))
        | inr ((mid, m), f) ↦
            let (same, aw) = complete_at-counts i r ss mid c m f k in
            let (x, y) =
              complete_all-counts es mid done m d
                (subst (λ o. complete_all n es o ≡ some (done, d)) f e)
                (subst (λ x. IsCounted n x) (sym same) (callback-IsCounted n c h)) aw in
            (x, y ∙ ap (λ x. x.completed + length es) same ∙ one_more n c (length es))
      ]

  joined-counts :
      (ss done : List (FutureState A)) (es : List (ℕ × A)) (d : Counter)
      → complete_all n es (wait_each n moved ss new_counter) ≡ some (done, d)
      → IsCounted n d × (d.completed ≡ count_ready ss + length es)
  joined-counts ss done es d e = elim (Option-cases (wait_each n moved ss new_counter)) [
    | inl f ↦ absurd (stopped es (rw f at e))
    | inr ((mid, m), f) ↦
        let (x, y, z) = wait_each-counts ss mid new_counter m f (ground arith) in
        let (u, v) = complete_all-counts es mid done m d (rw f at e) x z in
        (u, v ∙ ap (λ k. k + length es) (y ∙ from_zero (count_ready ss)))
  ]

module _ {A : Type 0} (moved : A → A) where
  -- If each of some futures is waited for by when_all and operations behind them then complete,
  -- and nothing marked as unreachable is reached, on_result was called once if there is a future
  -- and those that were ready and the completions are at least as many as the futures, and else
  -- not at all.
  pub when_all-called :
      (ss done : List (FutureState A)) (es : List (ℕ × A)) (d : Counter)
      → complete_all (length ss) es (wait_each (length ss) moved ss new_counter) ≡ some (done, d)
      → d.called
        ≡ (if ltb 0 (length ss) && leb (length ss) (count_ready ss + length es) then 1 else 0)
  when_all-called ss done es d e =
      let (x, y) = joined-counts moved (length ss) ss done es d e in
      subst (λ k. d.called ≡ (if ltb 0 (length ss) && leb (length ss) k then 1 else 0)) y x
