-- ===== src/Saga/Tests.antt =====
-- A saga of three steps, of which the first two can be undone, that fails at the last one.
use mathlib.Core.List.{reverse}
use kodi_backend_template_a.Base.{
  ℕ, ◌≤◌, String, ◌≡◌, Option, none, some, List, [], ◌∷◌, ◌++◌, map, arith, length, take, drop,
  filter, ret,
}
use kodi_backend_template_a.Saga.{
  SagaStep, SagaState, pending, completed, advance, Compensation, start_saga, fail, start_rollback,
  has_compensation,
}
use kodi_backend_template_a.Saga.Rollback.{undone}
use kodi_backend_template_a.Saga.Progress.{advance_all, step_ids, rollback_after_failure}

abbrev step : String → Option (Compensation String) → SagaStep String
step id undo = record {
  step_id = id;
  service = "users";
  action = id;
  payload = "";
  status = pending;
  result = none;
  error = none;
  compensation = undo;
}

abbrev undo : Compensation String
undo = record { action = "undo"; payload = "" }

abbrev steps : List (SagaStep String)
steps = step "a" (some undo) ∷ step "b" (some undo) ∷ step "c" none ∷ []

abbrev results : List (ℕ × String)
results = (1, "done") ∷ (2, "done") ∷ []

abbrev broken : SagaState String
broken = fail "down" (advance_all results (start_saga 0 "s" "signup" steps))

rollback_after_failure_example :
    (l : List (SagaStep String)) × (saga : SagaState String) × (start_rollback broken
      ≡ ret (l, saga))
    × (step_ids l ≡ reverse (step_ids (filter has_compensation (take 2 steps))))
rollback_after_failure_example =
    rollback_after_failure 0 "s" "signup" "down" steps results (omega arith)

in_range : broken.current_step ≤ length broken.steps
unfolding fail start_saga advance
in_range = omega arith

abbrev rolled_back : SagaState String
rolled_back = record broken {
  steps =
      map undone (take broken.current_step broken.steps) ++ drop broken.current_step broken.steps;
}

-- The first step after it was completed.
abbrev first_done : SagaStep String
first_done = record (step "a" (some undo)) { status = completed; result = some "done" }
