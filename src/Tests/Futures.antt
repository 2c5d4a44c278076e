-- ===== src/Tests/Futures.antt =====
-- Histories of a shared state and of when_all.
use warpcoil.Base.{ℕ, suc, log_of, run_events, ◌≡◌, refl, List, [], ◌∷◌, some, none}
use warpcoil.Futures.Then.{
  Future, Transformation, Handler, async_wait, then_future, call_wait, compose,
  then_future-then_future,
}
use warpcoil.Futures.Actions.{
  ActionEvent, handles, waits_for, action, on_result, action_step, run_events-effects_of_all,
}
use warpcoil.Futures.{
  Use, no_result, awaited, ready, completes, waits, use_state, wait, complete, wait_each,
  complete_at, callback, callbacks, Counter,
}
use warpcoil.Futures.Calls.{use_all, use_all-calls, pairs, handlers, results}
use warpcoil.Futures.Joining.{new_counter, complete_all, when_all-called}

-- The result is a text in a string, which is empty after it was moved from.
abbrev emptied : List ℕ → List ℕ
emptied text = []

abbrev history : List (Use (List ℕ))
history = completes (5 ∷ []) ∷ waits 10 ∷ waits 11 ∷ []

abbrev calls : List (ℕ × List ℕ)
calls = (10, 5 ∷ []) ∷ (11, []) ∷ []

-- The result comes before the handlers, and is gone for the second one.
use_all-calls_example : calls ≡ pairs emptied (handlers history) (results history)
unfolding use_all use_state
use_all-calls_example = use_all-calls emptied history (ready []) calls refl

abbrev number_kept : ℕ → ℕ
number_kept n = n

abbrev both_completed : Counter
both_completed = record { completed = 2; called = 1 }

-- One future is ready, the other completes later.
when_all-called_example : both_completed.called ≡ 1
unfolding wait_each complete_at callbacks callback wait complete
when_all-called_example =
    when_all-called number_kept (ready 5 ∷ no_result ∷ []) (ready 5 ∷ awaited 0 ∷ []) ((1, 6) ∷ [])
      both_completed refl

-- Nothing calls the handler of when_all without futures.
of_no_futures :
    complete_all {A = ℕ} 0 [] (wait_each 0 number_kept [] new_counter)
    ≡ some ([], record { completed = 0; called = 0 })
unfolding wait_each
of_no_futures = refl

second_wait : use_all number_kept (waits 10 ∷ waits 11 ∷ []) no_result ≡ none
unfolding use_all use_state
second_wait = refl

-- A future that has its result from the start; the state is a log.
abbrev seven : Future (List ℕ) ℕ
seven = record { wait_function = some (λ handler s. handler 7 s) }

abbrev logged : ℕ → Transformation (List ℕ) ℕ ℕ
logged n a s = some (suc a, n ∷ s)

abbrev log_result : Handler (List ℕ) ℕ
log_result a s = some (a ∷ s)

then_runs :
    async_wait (then_future (logged 2) (then_future (logged 1) seven).0).0 log_result []
    ≡ some (9 ∷ 2 ∷ 1 ∷ [])
unfolding async_wait then_future call_wait
then_runs = refl

then_future-then_future_example :
    (async_wait (then_future (logged 2) (then_future (logged 1) seven).0).0 log_result []
      ≡ async_wait (then_future (compose (logged 1) (logged 2)) seven).0 log_result [])
    × (async_wait
          (then_future (compose (logged 1) (logged 2)) (then_future (logged 1) seven).1).0
          log_result
          []
        ≡ none)
then_future-then_future_example = then_future-then_future (logged 1) (logged 2) seven log_result []

abbrev acts : List (ActionEvent ℕ)
acts = waits_for 10 ∷ handles 5 ∷ []

run_events-effects_of_all_example :
    log_of (run_events action_step acts none) ≡ some (action 5 ∷ on_result 10 ∷ [])
run_events-effects_of_all_example = run_events-effects_of_all acts

-- The operation is done before the future is waited for.
abbrev early : List (ActionEvent ℕ)
early = handles 5 ∷ waits_for 10 ∷ []

too_early : log_of (run_events action_step early none) ≡ none
unfolding action_step
too_early = refl
