-- ===== src/Saga/Stored.antt =====
-- The calls of saga-orchestrator.service.ts on a saga that is in the store.
use kodi_backend_template_a.Base.{
  ℕ, ◌+◌, String, ◌≡◌, refl, subst, true, some, List, arith, eq_refl, ltb, ret,
}
use kodi_backend_template_a.Base.Store.{KeyStore}
use kodi_backend_template_a.Saga.{
  SagaStep, SagaState, advance, outcome, fail, start_rollback, finish_rollback, get_saga, save_saga,
  execute_step, fail_step, compensate, mark_compensated,
}

lt_add : (now : ℕ) → ltb now (now + 3600) ≡ true
lt_add now = ground arith

module _ {P : Type 0} (store : KeyStore (SagaState P)) where
  open store use {Keys, get-setex}

  -- A saga that was saved is found at the same time.
  pub saved :
      (keys : Keys) (now : ℕ) (id : String) (sg : SagaState P)
      → sg.saga_id ≡ id
      → get_saga store (save_saga store keys now sg) now id ≡ some sg
  unfolding get_saga save_saga
  saved keys now id sg e =
      subst (λ i. get_saga store (save_saga store keys now sg) now i ≡ some sg) e
        (rw (get-setex, eq_refl, lt_add now) refl)

  -- A call on a saga that is found does not throw.
  pub execute_found :
      (keys : Keys) (now : ℕ) (id : String) (v : P) (sg : SagaState P)
      → get_saga store keys now id ≡ some sg
      → execute_step store keys now id v
        ≡ ret (outcome (advance now v sg), save_saga store keys now (advance now v sg))
  unfolding execute_step
  execute_found keys now id v sg e = rw (e, execute_step) refl

  pub fail_found :
      (keys : Keys) (now : ℕ) (id message : String) (sg : SagaState P)
      → get_saga store keys now id ≡ some sg
      → fail_step store keys now id message ≡ ret (save_saga store keys now (fail message sg))
  unfolding fail_step
  fail_found keys now id message sg e = rw (e, fail_step) refl

  pub compensate_found :
      (keys : Keys) (now : ℕ) (id : String) (sg sg' : SagaState P) (steps : List (SagaStep P))
      → get_saga store keys now id ≡ some sg
      → start_rollback sg ≡ ret (steps, sg')
      → compensate store keys now id ≡ ret (steps, save_saga store keys now sg')
  unfolding compensate
  compensate_found keys now id sg sg' steps e f = rw (e, compensate, f) refl

  pub mark_found :
      (keys : Keys) (now : ℕ) (id : String) (sg : SagaState P)
      → get_saga store keys now id ≡ some sg
      → mark_compensated store keys now id ≡ ret (save_saga store keys now (finish_rollback sg))
  unfolding mark_compensated
  mark_found keys now id sg e = rw (e, mark_compensated) refl
