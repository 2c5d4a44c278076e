-- ===== src/Base/Histories.antt =====
-- Histories: events in order, each with a step that may be impossible and that logs what it does.
use mathlib.Core.Path.{◌≡◌, refl}
use mathlib.Core.Option.{Option, none, some}
use mathlib.Core.List.{List, [], ◌∷◌, ◌++◌}

abbrev pub prepend : {X : Type 0} → List X → Option (List X) → Option (List X)
prepend log none = none
prepend log (some later) = some (log ++ later)

module _ {S X : Type 0} where
  abbrev pub log_before : List X → Option (S × List X) → Option (S × List X)
  log_before log none = none
  log_before log (some (s, later)) = some (s, log ++ later)

  abbrev continue_with : (S → Option (S × List X)) → Option (S × List X) → Option (S × List X)
  continue_with next none = none
  continue_with next (some (s, log)) = log_before log (next s)

  -- What holds of the outcome of a step that is possible.
  abbrev pub IfSome : (S → List X → Type 0) → Option (S × List X) → Type 0
  IfSome P none = Unit {0}
  IfSome P (some (s, log)) = P s log

  -- What a history did, without the state that it ends in.
  abbrev pub log_of : Option (S × List X) → Option (List X)
  log_of none = none
  log_of (some (s, log)) = some log

  pub log_of-log_before :
      (log : List X) (o : Option (S × List X)) → log_of (log_before log o) ≡ prepend log (log_of o)
  log_of-log_before log none = refl
  log_of-log_before log (some (s, later)) = refl

  log_before-IfSome :
      (P Q : S → List X → Type 0) (log : List X)
      → ((s : S) (later : List X) → P s later → Q s (log ++ later))
      → (o : Option (S × List X)) → IfSome P o
      → IfSome Q (log_before log o)
  log_before-IfSome P Q log k none h = tt
  log_before-IfSome P Q log k (some (s, later)) h = k s later h

  continue_with-IfSome :
      (P Q : S → List X → Type 0) (next : S → Option (S × List X))
      → ((s : S) (log : List X) → P s log → IfSome Q (log_before log (next s)))
      → (o : Option (S × List X)) → IfSome P o
      → IfSome Q (continue_with next o)
  continue_with-IfSome P Q next k none h = tt
  continue_with-IfSome P Q next k (some (s, log)) h = k s log h

module _ {S E X : Type 0} (step : E → S → Option (S × List X)) where
  abbrev pub run_events : List E → S → Option (S × List X)
  run_events [] s = some (s, [])
  run_events (e ∷ es) s = continue_with (run_events es) (step e s)

  -- What holds of no events, and of an event in front of others if its step keeps to it, holds of
  -- every history.
  pub run_events-IfSome :
      (P : List E → S → S → List X → Type 0) (Q : E → S → S → List X → Type 0)
      → ((s : S) → P [] s s [])
      → ((e : E) (s : S) → IfSome (Q e s) (step e s))
      → ((e : E) (es : List E) (s t u : S) (log later : List X)
          → Q e s t log
          → P es t u later
          → P (e ∷ es) s u (log ++ later))
      → (es : List E) (s : S) → IfSome (P es s) (run_events es s)
  run_events-IfSome P Q start one more [] s = start s
  run_events-IfSome P Q start one more (e ∷ es) s =
      continue_with-IfSome (Q e s) (P (e ∷ es) s) (run_events es)
        (λ t log q.
          log_before-IfSome (P es t) (P (e ∷ es) s) log (λ u later p. more e es s t u log later q p)
            (run_events es t) (run_events-IfSome P Q start one more es t))
        (step e s) (one e s)
