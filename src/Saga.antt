-- ===== src/Saga.antt =====
-- libs/saga/src/saga-orchestrator.service.ts, with the types of libs/contracts/src/dto/saga. A saga
-- is kept in the key-value store for an hour; a call on a saga that is not there throws.
pub mod Rollback
pub mod Progress
pub mod Stored
mod Tests
use Prim.Native.String
use kodi_backend_template_a.Base.{
  ℕ, zero, suc, ◌+◌, String, Bool, true, false, Option, none, some, List, [], ◌∷◌, ◌++◌, map, ◌&&◌,
  leb, if◌then◌else◌, length, get_elem?, modify, Run, ret, throw, ◌>>=◌,
}
use kodi_backend_template_a.Base.Store.{KeyStore}

pub data SagaStatus : Type 0 where
  pending completed failed compensating compensated : SagaStatus

abbrev pub is_completed : SagaStatus → Bool
is_completed completed = true
is_completed _ = false

abbrev pub is_compensating : SagaStatus → Bool
is_compensating compensating = true
is_compensating _ = false

module _ (P : Type 0) where
  pub record Compensation : Type 0 where
    pub action : String
    pub payload : P

  pub record SagaStep : Type 0 where
    pub step_id : String
    pub service : String
    pub action : String
    pub payload : P
    pub status : SagaStatus
    pub result : Option P
    pub error : Option String
    pub compensation : Option Compensation

  pub record SagaState : Type 0 where
    pub saga_id : String
    pub transaction_type : String
    pub steps : List SagaStep
    pub current_step : ℕ
    pub status : SagaStatus
    pub created_at : ℕ
    pub completed_at : Option ℕ

module _ {P : Type 0} where
  pub start_step : SagaStep P → SagaStep P
  start_step s = record s { status = pending }

  unfoldable pub start_saga : ℕ → String → String → List (SagaStep P) → SagaState P
  unfolding start_step
  start_saga now id transaction_type steps = record {
    saga_id = id;
    transaction_type = transaction_type;
    steps = map start_step steps;
    current_step = 0;
    status = pending;
    created_at = now;
    completed_at = none;
  }

  complete_step : P → SagaStep P → SagaStep P
  complete_step value s = record s { status = completed; result = some value }

  -- What `executeStep` makes of a saga.
  unfoldable pub advance : ℕ → P → SagaState P → SagaState P
  unfolding complete_step
  advance now value saga =
      let steps' = modify saga.steps saga.current_step (complete_step value) in
      let next = saga.current_step + 1 in
      if leb (length steps') next
      then record saga {
        steps = steps';
        current_step = next;
        status = completed;
        completed_at = some now;
      }
      else record saga { steps = steps'; current_step = next }

  -- What it returns: the next step, or that the saga is completed.
  unfoldable pub outcome : SagaState P → Option (Option (SagaStep P))
  outcome saga =
      if leb (length saga.steps) saga.current_step
      then none
      else some (get_elem? saga.steps saga.current_step)

  fail_current : String → SagaStep P → SagaStep P
  fail_current message s = record s { status = failed; error = some message }

  unfoldable pub fail : String → SagaState P → SagaState P
  unfolding fail_current
  fail message saga = record saga {
    steps = modify saga.steps saga.current_step (fail_current message);
    status = compensating;
  }

  pub has_compensation : SagaStep P → Bool
  has_compensation s = elim s.compensation [ none ↦ false | some c ↦ true ]

  -- `step.status === COMPLETED && step.compensation`.
  pub is_compensable : SagaStep P → Bool
  unfolding has_compensation
  is_compensable s = is_completed s.status && has_compensation s

  unfoldable pub start_compensation : SagaStep P → SagaStep P
  start_compensation s = record s { status = compensating }

  -- The loop `for (let i = n - 1; i >= 0; i--)`: the steps to compensate, and all steps as they are
  -- left. Reading a step that does not exist throws.
  compensate_at :
      ℕ
      → Option (SagaStep P)
      → List (SagaStep P)
      → (List (SagaStep P) → Run (List (SagaStep P) × List (SagaStep P)))
      → Run (List (SagaStep P) × List (SagaStep P))
  compensate_at i none steps next = throw
  compensate_at i (some s) steps next =
      if is_compensable s
      then (do
        (more, steps') ← next (modify steps i start_compensation)
        ret (start_compensation s ∷ more, steps'))
      else next steps

  compensate_loop : ℕ → List (SagaStep P) → Run (List (SagaStep P) × List (SagaStep P))
  compensate_loop zero steps = ret ([], steps)
  compensate_loop (suc i) steps = compensate_at i (get_elem? steps i) steps (compensate_loop i)

  unfoldable pub start_rollback : SagaState P → Run (List (SagaStep P) × SagaState P)
  unfolding compensate_loop compensate_at is_compensable start_compensation
  start_rollback saga = do
    (to_undo, steps') ← compensate_loop saga.current_step saga.steps
    ret (to_undo, record saga { steps = steps' })

  pub finish_step : SagaStep P → SagaStep P
  finish_step s = if is_compensating s.status then record s { status = compensated } else s

  unfoldable pub finish_rollback : SagaState P → SagaState P
  unfolding finish_step
  finish_rollback saga = record saga { steps = map finish_step saga.steps; status = compensated }

module _ {P : Type 0} (store : KeyStore (SagaState P)) where
  open store use {Keys, get, setex}

  abbrev saga_key : String → String
  saga_key id = String.◌++◌ "saga:" id

  unfoldable pub get_saga : Keys → ℕ → String → Option (SagaState P)
  get_saga keys now id = get keys now (saga_key id)

  unfoldable pub save_saga : Keys → ℕ → SagaState P → Keys
  save_saga keys now saga = setex keys now (saga_key saga.saga_id) 3600 saga

  -- The id is drawn from the clock and a random number.
  unfoldable pub create_saga : Keys → ℕ → String → String → List (SagaStep P) → Keys
  unfolding save_saga
  create_saga keys now id transaction_type steps =
      save_saga keys now (start_saga now id transaction_type steps)

  abbrev or_not_found : Option (SagaState P) → Run (SagaState P)
  or_not_found none = throw
  or_not_found (some saga) = ret saga

  unfoldable pub execute_step : Keys → ℕ → String → P → Run (Option (Option (SagaStep P)) × Keys)
  unfolding get_saga save_saga
  execute_step keys now id value = do
    saga ← or_not_found (get_saga keys now id)
    let saga' = advance now value saga
    ret (outcome saga', save_saga keys now saga')

  unfoldable pub fail_step : Keys → ℕ → String → String → Run Keys
  unfolding get_saga save_saga
  fail_step keys now id message = do
    saga ← or_not_found (get_saga keys now id)
    ret (save_saga keys now (fail message saga))

  unfoldable pub compensate : Keys → ℕ → String → Run (List (SagaStep P) × Keys)
  unfolding get_saga save_saga
  compensate keys now id = do
    saga ← or_not_found (get_saga keys now id)
    (to_undo, saga') ← start_rollback saga
    ret (to_undo, save_saga keys now saga')

  unfoldable pub mark_compensated : Keys → ℕ → String → Run Keys
  unfolding get_saga save_saga
  mark_compensated keys now id = do
    saga ← or_not_found (get_saga keys now id)
    ret (save_saga keys now (finish_rollback saga))
