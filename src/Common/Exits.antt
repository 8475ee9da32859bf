-- ===== src/Common/Exits.antt =====
-- How a program ends, and the events that it handles until it is stopped by a signal.
use mathlib.Core.List.{List, [], ◌∷◌}
use mathlib.Core.Option.{Option, none, some}

pub data ExitCode : Type 0 where
  exit_success exit_failure : ExitCode

module _ {ℓ} {A : Type ℓ} where
  -- The events before the first signal, which is `none`.
  abbrev pub until_stop : List (Option A) → List A
  until_stop [] = []
  until_stop (none ∷ events) = []
  until_stop (some event ∷ events) = event ∷ until_stop events

  -- A signal ends the program with success.
  abbrev pub exit_of : List (Option A) → Option ExitCode
  exit_of [] = none
  exit_of (none ∷ events) = some exit_success
  exit_of (some event ∷ events) = exit_of events
