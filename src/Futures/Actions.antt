-- ===== src/Futures/Actions.antt =====
-- warpcoil/then.hpp: a completion token whose handler runs an action and then calls who waits for
-- the future.
use warpcoil.Base.{
  ℕ, ◌≡◌, refl, ◌∙◌, ap, log_of, prepend, log_of-log_before, Option, none, some, List, [], ◌∷◌,
  run_events,
}

-- What the handler does, for an operation with results in `A`: the action is run, the function in
-- `finished` is called.
pub data ActionEffect (A : Type 0) : Type 0 where
  action : A → ActionEffect A
  on_result : (handler : ℕ) → ActionEffect A

-- The pointer `finished` that the handler and the future share: empty, or a handler.
abbrev pub Finished : Type 0
Finished = Option ℕ

module _ {A : Type 0} where
  -- `then_handler::operator()`: calling the empty function throws.
  unfoldable pub handle : A → Finished → Option (Finished × List (ActionEffect A))
  handle result none = none
  handle result (some handler) = some (some handler, action result ∷ on_result handler ∷ [])

  -- The function of the future that `async_result::get` returns: `assert(!*finished)`.
  unfoldable pub wait_finished : ℕ → Finished → Option (Finished × List (ActionEffect A))
  wait_finished handler none = some (some handler, [])
  wait_finished handler (some other) = none

-- The operation calls the handler, or the future is waited for.
pub data ActionEvent (A : Type 0) : Type 0 where
  handles : A → ActionEvent A
  waits_for : (handler : ℕ) → ActionEvent A

module _ {A : Type 0} where
  unfoldable pub action_step : ActionEvent A → Finished → Option (Finished × List (ActionEffect A))
  unfolding handle wait_finished
  action_step (handles result) finished = handle result finished
  action_step (waits_for handler) finished = wait_finished handler finished

  -- What is done when all that follows are results.
  abbrev pub effects : ℕ → List (ActionEvent A) → Option (List (ActionEffect A))
  effects handler [] = some []
  effects handler (waits_for other ∷ events) = none
  effects handler (handles result ∷ events) =
      prepend (action result ∷ on_result handler ∷ []) (effects handler events)

  -- The wait has to come first.
  abbrev pub effects_of_all : List (ActionEvent A) → Option (List (ActionEffect A))
  effects_of_all [] = some []
  effects_of_all (handles result ∷ events) = none
  effects_of_all (waits_for handler ∷ events) = effects handler events

  run-effects :
      (handler : ℕ) (events : List (ActionEvent A))
      → log_of (run_events action_step events (some handler)) ≡ effects handler events
  unfolding action_step
  run-effects handler [] = refl
  run-effects handler (waits_for other ∷ events) = refl
  run-effects handler (handles result ∷ events) =
      log_of-log_before (action result ∷ on_result handler ∷ [])
        (run_events action_step events (some handler))
      ∙ ap (prepend (action result ∷ on_result handler ∷ [])) (run-effects handler events)

  prepend-nil : (o : Option (List (ActionEffect A))) → prepend [] o ≡ o
  prepend-nil none = refl
  prepend-nil (some log) = refl

  -- The handler that then makes and its future do, in every history, the following: if the first
  -- event is a wait and all others are results, for each result the action runs and then the
  -- handler of the wait is called; a result before a wait, and a second wait, fail.
  pub run_events-effects_of_all :
      (events : List (ActionEvent A))
      → log_of (run_events action_step events none) ≡ effects_of_all events
  unfolding action_step
  run_events-effects_of_all [] = refl
  run_events-effects_of_all (handles result ∷ events) = refl
  run_events-effects_of_all (waits_for handler ∷ events) =
      log_of-log_before [] (run_events action_step events (some handler))
      ∙ ap (prepend []) (run-effects handler events)
      ∙ prepend-nil (effects handler events)
