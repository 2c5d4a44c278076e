-- ===== src/Futures/Then.antt =====
-- warpcoil/future.hpp, `future::async_wait` and `future::then`.
--
-- A program has a state; code that throws or fails an assertion gives `none`. A future holds the
-- function `_wait`, which is empty after the future was moved from.
use warpcoil.Base.{◌≡◌, refl, sym, Option, none, some}

abbrev bind : {A B : Type 0} → (A → Option B) → Option A → Option B
bind next none = none
bind next (some a) = next a

bind-bind :
    {A B C : Type 0} (f : A → Option B) (g : B → Option C) (o : Option A)
    → bind g (bind f o) ≡ bind (λ a. bind g (f a)) o
bind-bind f g none = refl
bind-bind f g (some a) = refl

-- `std::function<void(Result)>`
abbrev pub Handler : Type 0 → Type 0 → Type 0
Handler S A = A → S → Option S

-- `transform`, with what it does to the state. For a `void` result `B` is the unit type.
abbrev pub Transformation : Type 0 → Type 0 → Type 0 → Type 0
Transformation S A B = A → S → Option (B × S)

abbrev pub WaitFunction : Type 0 → Type 0 → Type 0
WaitFunction S A = Handler S A → S → Option S

pub record Future (S A : Type 0) : Type 0 where
  pub wait_function : Option (WaitFunction S A)

module _ {S A : Type 0} where
  -- The call of a `std::function`.
  unfoldable pub call_wait : Option (WaitFunction S A) → Handler S A → S → Option S
  call_wait none handler s = none
  call_wait (some f) handler s = f handler s

  unfoldable pub async_wait : Future S A → Handler S A → S → Option S
  unfolding call_wait
  async_wait f handler s = call_wait f.wait_function handler s

module _ {S A B : Type 0} where
  -- `detail::apply_transform::apply`
  abbrev pub apply_transform : Transformation S A B → A → Handler S B → S → Option S
  apply_transform transform input handle_result s =
      bind (λ (r : B × S). handle_result r.0 r.1) (transform input s)

  -- The new future, and the one that was moved from.
  unfoldable pub then_future : Transformation S A B → Future S A → Future S B × Future S A
  unfolding call_wait
  then_future transform f = (
    record {
      wait_function = some (λ on_result s.
          call_wait f.wait_function
            (λ intermediate t. apply_transform transform intermediate on_result t) s);
    },
    record { wait_function = none },
  )

-- One transformation after the other.
abbrev pub compose :
    {S A B C : Type 0} → Transformation S A B → Transformation S B C → Transformation S A C
compose f g a s = bind (λ r. g r.0 r.1) (f a s)

module _ {S A B C : Type 0} where
  -- Waiting for a future that was made by then from one made by then is waiting for one made by
  -- a single then with both transformations, one after the other; and waiting for a future that
  -- was made from one that was moved from fails.
  pub then_future-then_future :
      (f : Transformation S A B) (g : Transformation S B C) (future : Future S A)
      (on_result : Handler S C) (s : S)
      → (async_wait (then_future g (then_future f future).0).0 on_result s
          ≡ async_wait (then_future (compose f g) future).0 on_result s)
        × (async_wait (then_future (compose f g) (then_future f future).1).0 on_result s ≡ none)
  unfolding async_wait then_future call_wait
  then_future-then_future f g future on_result s = (
    (λ i.
        call_wait future.wait_function
          (λ a t. (sym (bind-bind (λ r. g r.0 r.1) (λ r. on_result r.0 r.1) (f a t))) i) s),
    refl,
  )
