-- ===== src/Futures.antt =====
-- warpcoil/future.hpp: the shared state behind a future, and `when_all`.
--
-- A handler is a number; the calls of handlers are returned, in order. What is marked as
-- unreachable is `none`. What a result is after it was moved from is `moved`, which depends on its
-- type.
pub mod Calls
pub mod Joining
pub mod Then
pub mod Actions
use warpcoil.Base.{
  ℕ, zero, suc, List, [], ◌∷◌, ◌++◌, Option, none, some, ◌==◌, if◌then◌else◌, length,
}

-- `Si::variant<Si::unit, std::function<void(Result)>, Result>`
pub data FutureState (A : Type 0) : Type 0 where
  no_result : FutureState A
  awaited : (handler : ℕ) → FutureState A
  ready : A → FutureState A

-- The state and the calls of handlers.
abbrev pub After : Type 0 → Type 0
After A = Option (FutureState A × List (ℕ × A))

module _ {A : Type 0} where
  -- `future_handler::operator()`
  unfoldable pub complete : A → FutureState A → After A
  complete result no_result = some (ready result, [])
  complete result (awaited handler) = some (awaited handler, (handler, result) ∷ [])
  complete result (ready old) = none

  -- The function of the future that `async_result::get` returns. A result is moved into the call of
  -- the handler and stays in the state as what is left of it.
  unfoldable pub wait : (moved : A → A) → (handler : ℕ) → FutureState A → After A
  wait moved handler no_result = some (awaited handler, [])
  wait moved handler (awaited other) = none
  wait moved handler (ready result) = some (ready (moved result), (handler, result) ∷ [])

-- What happens to a shared state.
pub data Use (A : Type 0) : Type 0 where
  completes : A → Use A
  waits : (handler : ℕ) → Use A

module _ {A : Type 0} where
  unfoldable pub use_state : (moved : A → A) → Use A → FutureState A → After A
  unfolding complete wait
  use_state moved (completes result) s = complete result s
  use_state moved (waits handler) s = wait moved handler s

-- The variables of `when_all`: the counter that the callbacks share, and how often `on_result` was
-- called.
pub record Counter : Type 0 where
  pub completed : ℕ
  pub called : ℕ

-- The callback of `when_all`.
unfoldable pub callback : (future_count : ℕ) → Counter → Counter
callback future_count c = record {
  completed = suc c.completed;
  called = if suc c.completed == future_count then suc c.called else c.called;
}

-- The futures that `when_all` was given, and its counter.
abbrev pub Joined : Type 0 → Type 0
Joined A = Option (List (FutureState A) × Counter)

module _ {A : Type 0} where
  unfoldable pub in_front : FutureState A → Joined A → Joined A
  in_front s none = none
  in_front s (some (ss, c)) = some (s ∷ ss, c)

module _ {A : Type 0} (future_count : ℕ) where
  -- A call of a handler here is a call of the callback.
  unfoldable pub callbacks : List (ℕ × A) → Counter → Counter
  callbacks [] c = c
  callbacks (call ∷ calls) c = callbacks calls (callback future_count c)

  waited : After A → (Counter → Joined A) → Counter → Joined A
  unfolding in_front
  waited none next c = none
  waited (some (s, calls)) next c = in_front s (next (callbacks calls c))

  -- `(futures.async_wait(callback), 0)...`
  unfoldable pub wait_each : (moved : A → A) → List (FutureState A) → Counter → Joined A
  unfolding waited
  wait_each moved [] c = some ([], c)
  wait_each moved (s ∷ ss) c = waited (wait moved 0 s) (wait_each moved ss) c

  completed_first : After A → List (FutureState A) → Counter → Joined A
  completed_first none ss c = none
  completed_first (some (s, calls)) ss c = some (s ∷ ss, callbacks calls c)

  -- The operation behind one of the futures has its result.
  unfoldable pub complete_at : ℕ → A → List (FutureState A) → Counter → Joined A
  unfolding completed_first in_front
  complete_at i result [] c = none
  complete_at zero result (s ∷ ss) c = completed_first (complete result s) ss c
  complete_at (suc i) result (s ∷ ss) c = in_front s (complete_at i result ss c)
