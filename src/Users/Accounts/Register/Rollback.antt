-- ===== src/Users/Accounts/Register/Rollback.antt =====
-- The saga of a registration in users.service.ts, up to its compensation.
use kodi_backend_template_a.Base.{
  ℕ, String, ◌≡◌, refl, ap, Bool, Option, some, List, [], refuse, Run, ret,
}
use kodi_backend_template_a.Base.Store.{Table, KeyStore}
use kodi_backend_template_a.Saga.{
  SagaStep, SagaState, start_saga, advance, outcome, fail, start_rollback, start_compensation,
  finish_rollback, get_saga, save_saga,
}
use kodi_backend_template_a.Saga.Stored.{saved, fail_found, compensate_found, mark_found}
use kodi_backend_template_a.Users.Accounts.{User, Texts, UsersState, delete_row, city_not_assigned}
use kodi_backend_template_a.Users.Accounts.Register.{
  Passwords, SagaPayload, created_user, registration_steps, Registered, undo_steps, marked,
  compensated, roll_back,
}

-- The saga of a registration: as it starts, after its first step, and after the second one failed.
abbrev pub started : ℕ → String → String → User → SagaState SagaPayload
started now saga city u = start_saga now saga "USER_REGISTRATION" (registration_steps u city)

abbrev pub user_stored : ℕ → String → String → User → SagaState SagaPayload
user_stored now saga city u = advance now (created_user u.id) (started now saga city u)

abbrev pub city_failed : ℕ → String → String → User → SagaState SagaPayload
city_failed now saga city u = fail "error" (user_stored now saga city u)

abbrev pub to_undo :
    Run (List (SagaStep SagaPayload) × SagaState SagaPayload) → List (SagaStep SagaPayload)
to_undo (ret (steps, sg)) = steps
to_undo _ = []

abbrev pub left_over :
    SagaState SagaPayload
    → Run (List (SagaStep SagaPayload) × SagaState SagaPayload)
    → SagaState SagaPayload
left_over old (ret (steps, sg)) = sg
left_over old _ = old

abbrev pub undone : ℕ → String → String → User → SagaState SagaPayload
undone now saga city u =
    left_over (city_failed now saga city u) (start_rollback (city_failed now saga city u))

pub user_stored_next :
    (now : ℕ) (saga city : String) (u : User)
    → (next : Option (SagaStep SagaPayload)) × (outcome (user_stored now saga city u) ≡ some next)
unfolding outcome advance start_saga registration_steps
user_stored_next now saga city u = (_, refl)

pub user_stored_id :
    (now : ℕ) (saga city : String) (u : User) → (user_stored now saga city u).saga_id ≡ saga
unfolding advance start_saga registration_steps
user_stored_id now saga city u = refl

city_failed_id :
    (now : ℕ) (saga city : String) (u : User) → (city_failed now saga city u).saga_id ≡ saga
unfolding fail advance start_saga registration_steps
city_failed_id now saga city u = refl

undone_id : (now : ℕ) (saga city : String) (u : User) → (undone now saga city u).saga_id ≡ saga
unfolding start_rollback fail advance start_saga registration_steps
undone_id now saga city u = refl

finished_id :
    (now : ℕ) (saga city : String) (u : User)
    → (finish_rollback (undone now saga city u)).saga_id ≡ saga
unfolding finish_rollback start_rollback fail advance start_saga registration_steps
finished_id now saga city u = refl

rollback_steps :
    (now : ℕ) (saga city : String) (u : User)
    → start_rollback (city_failed now saga city u)
      ≡ ret (to_undo (start_rollback (city_failed now saga city u)), undone now saga city u)
unfolding start_rollback fail advance start_saga registration_steps
rollback_steps now saga city u = refl

module _ (table : Table User) (texts : Texts) (store : KeyStore (SagaState SagaPayload))
    (passwords : Passwords) (assign_city : String → String → Bool) where
  open store use {Keys}
  open table use {rows, rows-insert, rows-remove}

  undo_first :
      (now : ℕ) (saga city : String) (u : User) (s : UsersState table texts)
      → undo_steps table texts store passwords assign_city u.id
          (to_undo (start_rollback (city_failed now saga city u)))
          s
        ≡ delete_row table texts u.id s
  unfolding undo_steps start_rollback start_compensation fail advance start_saga registration_steps
  undo_first now saga city u s = refl

  -- A city that is not assigned: the row of the user goes, and the saga is compensated.
  pub rolled_back :
      (now : ℕ) (saga city : String) (u : User) (keys : Keys) (s : UsersState table texts)
      → get_saga store keys now saga ≡ some (user_stored now saga city u)
      → (keys' : Keys) × (roll_back table texts store passwords assign_city now saga u.id keys s
          ≡ (keys', delete_row table texts u.id s, refuse city_not_assigned))
        × (get_saga store keys' now saga ≡ some (finish_rollback (undone now saga city u)))
  unfolding roll_back compensated marked
  rolled_back now saga city u keys s found =
      let k1 = save_saga store keys now (city_failed now saga city u) in
      let k2 = save_saga store k1 now (undone now saga city u) in
      let k3 = save_saga store k2 now (finish_rollback (undone now saga city u)) in
      let failed = fail_found store keys now saga "error" (user_stored now saga city u) found in
      let at1 =
        saved store keys now saga (city_failed now saga city u) (city_failed_id now saga city u) in
      let at2 = saved store k1 now saga (undone now saga city u) (undone_id now saga city u) in
      let taken_back =
        compensate_found store k1 now saga (city_failed now saga city u) (undone now saga city u)
          (to_undo (start_rollback (city_failed now saga city u))) at1
          (rollback_steps now saga city u) in
      let done = mark_found store k2 now saga (undone now saga city u) at2 in
      (
        k3,
        rw (failed, roll_back)
            (rw (taken_back, compensated)
              (rw (done, marked)
                (ap
                  (λ (s' : UsersState table texts).
                    let r : Registered table texts store passwords assign_city =
                      (k3, s', refuse city_not_assigned) in
                    r)
                  (undo_first now saga city u s)))),
        saved store k2 now saga (finish_rollback (undone now saga city u))
            (finished_id now saga city u),
      )
