-- ===== src/Futures/Calls.antt =====
-- Which handler is called with which result.
use warpcoil.Base.{ℕ, ◌≡◌, refl, sym, ◌∙◌, ap, List, [], ◌∷◌, ◌++◌, none, some, map, append-nil}
use warpcoil.Futures.{
  FutureState, no_result, awaited, ready, After, Use, completes, waits, use_state,
}

no_value : {A : Type 0} {x : A} → none ≡ some x → ⊥
no_value e = cc

module _ {A : Type 0} where
  state_of : FutureState A → After A → FutureState A
  state_of t none = t
  state_of t (some (s, calls)) = s

  calls_of : List (ℕ × A) → After A → List (ℕ × A)
  calls_of l none = l
  calls_of l (some (s, calls)) = calls

  add_calls : List (ℕ × A) → After A → After A
  add_calls calls none = none
  add_calls calls (some (s, later)) = some (s, calls ++ later)

  go_on : (FutureState A → After A) → After A → After A
  unfolding add_calls
  go_on next none = none
  go_on next (some (s, calls)) = add_calls calls (next s)

  -- The uses of one shared state, with all calls in order.
  unfoldable pub use_all : (moved : A → A) → List (Use A) → FutureState A → After A
  unfolding go_on
  use_all moved [] s = some (s, [])
  use_all moved (u ∷ us) s = go_on (use_all moved us) (use_state moved u s)

  abbrev pub results : List (Use A) → List A
  results [] = []
  results (completes r ∷ us) = r ∷ results us
  results (waits h ∷ us) = results us

  abbrev pub handlers : List (Use A) → List ℕ
  handlers [] = []
  handlers (completes r ∷ us) = handlers us
  handlers (waits h ∷ us) = h ∷ handlers us

  -- The first handler with each result, the second with what is left of each that was moved from,
  -- and so on.
  abbrev pub pairs : (moved : A → A) → List ℕ → List A → List (ℕ × A)
  pairs moved [] rs = []
  pairs moved (h ∷ hs) rs = map (λ r. (h, r)) rs ++ pairs moved hs (map moved rs)

  add_calls-some :
      (calls all : List (ℕ × A)) (o : After A) (s : FutureState A)
      → add_calls calls o ≡ some (s, all)
      → (later : List (ℕ × A)) × (o ≡ some (s, later)) × (all ≡ calls ++ later)
  unfolding add_calls state_of calls_of
  add_calls-some calls all none s e = absurd (no_value e)
  add_calls-some calls all (some (t, later)) s e =
      let same : t ≡ s = ap (λ o. state_of t o) e in
      (later, cc same, sym (ap (λ o. calls_of all o) e))

module _ {A : Type 0} (moved : A → A) where
  after_wait :
      (h : ℕ) (us : List (Use A)) (s : FutureState A) (calls : List (ℕ × A))
      → use_all moved us (awaited h) ≡ some (s, calls)
      → (calls ≡ map (λ r. (h, r)) (results us)) × (handlers us ≡ [])
  unfolding use_all use_state calls_of
  after_wait h [] s calls e = (sym (ap (λ o. calls_of calls o) e), refl)
  after_wait h (completes r ∷ us) s calls e =
      let (later, k, all) = add_calls-some ((h, r) ∷ []) calls (use_all moved us (awaited h)) s e in
      let (same, none_left) = after_wait h us s later k in
      (all ∙ ap (λ l. (h, r) ∷ l) same, none_left)
  after_wait h (waits other ∷ us) s calls e = absurd (no_value e)

  after_result :
      (r : A) (us : List (Use A)) (s : FutureState A) (calls : List (ℕ × A))
      → use_all moved us (ready r) ≡ some (s, calls)
      → (calls ≡ pairs moved (handlers us) (r ∷ [])) × (results us ≡ [])
  unfolding use_all use_state calls_of
  after_result r [] s calls e = (sym (ap (λ o. calls_of calls o) e), refl)
  after_result r (waits h ∷ us) s calls e =
      let (later, k, all) =
        add_calls-some ((h, r) ∷ []) calls (use_all moved us (ready (moved r))) s e in
      let (same, none_left) = after_result (moved r) us s later k in
      (all ∙ ap (λ l. (h, r) ∷ l) same, none_left)
  after_result r (completes other ∷ us) s calls e = absurd (no_value e)

  -- In every history of a new shared state of a future that reaches nothing marked as
  -- unreachable, the calls are those of each handler that was given by wait with each result
  -- that was given by complete, in order, whichever comes first; but only the first handler gets
  -- the result itself, a second one what is left of it after it was moved from, and so on.
  pub use_all-calls :
      (us : List (Use A)) (s : FutureState A) (calls : List (ℕ × A))
      → use_all moved us no_result ≡ some (s, calls)
      → calls ≡ pairs moved (handlers us) (results us)
  unfolding use_all use_state calls_of
  use_all-calls [] s calls e = sym (ap (λ o. calls_of calls o) e)
  use_all-calls (waits h ∷ us) s calls e =
      let (later, k, all) = add_calls-some [] calls (use_all moved us (awaited h)) s e in
      let (same, none_left) = after_wait h us s later k in
      all ∙ same ∙ rw (none_left, append-nil) refl
  use_all-calls (completes r ∷ us) s calls e =
      let (later, k, all) = add_calls-some [] calls (use_all moved us (ready r)) s e in
      let (same, none_left) = after_result r us s later k in all ∙ same ∙ rw none_left refl
