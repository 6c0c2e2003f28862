-- ===== src/Users/Accounts/Register.antt =====
-- Registration in users.service.ts. With a city it is a saga of two steps: the row of the user, and
-- the assignment that the core service makes. The assignment answers in time or it counts as failed.
pub mod Rollback
pub mod Atomic
use kodi_backend_template_a.Base.{
  ℕ, String, Bool, true, false, Option, none, some, List, [], ◌∷◌, ◌==◌, if◌then◌else◌, find?,
  truthy, Reply, refuse, answer, Run, ret, throw, diverge,
}
use kodi_backend_template_a.Base.Store.{Table, KeyStore}
use kodi_backend_template_a.Rbac.Roles.{citizen}
use kodi_backend_template_a.Saga.{
  SagaStep, SagaState, Compensation, pending, create_saga, execute_step, fail_step, compensate,
  mark_compensated,
}
use kodi_backend_template_a.Users.Accounts.{
  User, UserError, UserEvent, Texts, UsersState, emit, normalized, has_email, find_by_username,
  create_row, delete_row, blank, registered, user_created, fields_required, duplicate_email,
  duplicate_username, city_not_assigned, saga_failed,
}

-- `RegisterDto`, with the ids that are drawn for the row and the saga.
pub record RegisterRequest : Type 0 where
  pub email : Option String
  pub password : Option String
  pub username : Option String
  pub first_name : Option String
  pub last_name : Option String
  pub salutation_code : Option String
  pub has_vehicle : Option Bool
  pub city_id : Option String
  pub new_id : String
  pub saga_id : String

-- `bcrypt`: a hash matches the password that it was made of.
pub record Passwords : Type 0 where
  pub hash : String → String
  pub compare : String → String → Bool

-- What the steps of the saga carry.
pub data SagaPayload : Type 0 where
  new_user : String → Option String → SagaPayload
  created_user : String → SagaPayload
  city_assignment : String → String → SagaPayload
  success : SagaPayload

abbrev pub or_false : Option Bool → Bool
or_false none = false
or_false (some b) = b

-- The `data` of the row, for a registration.
unfoldable pub registered_user : ℕ → String → String → RegisterRequest → User
unfolding blank
registered_user now email password r = record (blank now r.new_id) {
  email = some email;
  username = truthy r.username;
  password = some password;
  first_name = truthy r.first_name;
  last_name = truthy r.last_name;
  salutation_code = truthy r.salutation_code;
  has_vehicle = or_false r.has_vehicle;
}

pub registration_steps : User → String → List (SagaStep SagaPayload)
registration_steps u city =
    record {
      step_id = "CREATE_USER";
      service = "users";
      action = "CREATE_LOCAL";
      payload = new_user u.id u.email;
      status = pending;
      result = none;
      error = none;
      compensation = some (record { action = "DELETE_USER"; payload = created_user u.id });
    }
    ∷ record {
      step_id = "ASSIGN_CITY";
      service = "core";
      action = "CREATE_USER_CITY_ASSIGNMENT";
      payload = city_assignment u.id city;
      status = pending;
      result = none;
      error = none;
      compensation =
          some (record {
            action = "REMOVE_USER_CITY_ASSIGNMENT";
            payload = city_assignment u.id city;
          });
    }
    ∷ []

module _ (table : Table User) (texts : Texts) (store : KeyStore (SagaState SagaPayload))
    (passwords : Passwords) (assign_city : String → String → Bool) where
  open store use {Keys}

  abbrev pub Registered : Type 0
  Registered = Keys × UsersState table texts × Reply UserError User

  -- The outer `catch`: the step is failed and the exception goes on.
  pub unexpected : UserError → ℕ → String → Keys → UsersState table texts → Registered
  unexpected e now id keys s = elim (fail_step store keys now id "error") [
    | ret keys' ↦ (keys', s, refuse e)
    | throw ↦ (keys, s, refuse saga_failed)
    | diverge ↦ (keys, s, refuse saga_failed)
  ]

  -- The row is deleted if the step that made it is among those to compensate.
  pub undo_steps :
      String → List (SagaStep SagaPayload) → UsersState table texts → UsersState table texts
  undo_steps id [] s = s
  undo_steps id (step ∷ steps) s =
      undo_steps id steps (if step.step_id == "CREATE_USER" then delete_row table texts id s else s)

  pub marked : ℕ → String → Keys → UsersState table texts → Run Keys → Registered
  unfolding unexpected
  marked now saga keys s (ret keys') = (keys', s, refuse city_not_assigned)
  marked now saga keys s throw = unexpected saga_failed now saga keys s
  marked now saga keys s diverge = unexpected saga_failed now saga keys s

  pub compensated :
      ℕ
      → String
      → String
      → Keys
      → UsersState table texts
      → Run (List (SagaStep SagaPayload) × Keys)
      → Registered
  unfolding marked unexpected undo_steps
  compensated now saga id keys s (ret (steps, keys')) =
      let s' = undo_steps id steps s in
      marked now saga keys' s' (mark_compensated store keys' now saga)
  compensated now saga id keys s throw = unexpected saga_failed now saga keys s
  compensated now saga id keys s diverge = unexpected saga_failed now saga keys s

  -- The inner `catch`: the second step failed.
  pub roll_back : ℕ → String → String → Keys → UsersState table texts → Registered
  unfolding compensated unexpected
  roll_back now saga id keys s = elim (fail_step store keys now saga "error") [
    | ret keys' ↦ compensated now saga id keys' s (compensate store keys' now saga)
    | throw ↦ unexpected saga_failed now saga keys s
    | diverge ↦ unexpected saga_failed now saga keys s
  ]

  pub assigned :
      ℕ
      → String
      → String
      → User
      → Keys
      → UsersState table texts
      → Run (Option (Option (SagaStep SagaPayload)) × Keys)
      → Registered
  unfolding roll_back
  assigned now saga city u keys s (ret (next, keys')) =
      (keys', emit table texts (user_created u.id u.email (some city)) s, answer u)
  assigned now saga city u keys s throw = roll_back now saga u.id keys s
  assigned now saga city u keys s diverge = roll_back now saga u.id keys s

  -- The first step is done; the city is assigned by the core service.
  pub stepped :
      ℕ
      → String
      → String
      → User
      → Keys
      → UsersState table texts
      → Run (Option (Option (SagaStep SagaPayload)) × Keys)
      → Registered
  unfolding assigned roll_back unexpected
  stepped now saga city u keys s (ret (none, keys')) = unexpected saga_failed now saga keys' s
  stepped now saga city u keys s (ret (some next, keys')) =
      if assign_city u.id city
      then assigned now saga city u keys' s (execute_step store keys' now saga success)
      else roll_back now saga u.id keys' s
  stepped now saga city u keys s throw = unexpected saga_failed now saga keys s
  stepped now saga city u keys s diverge = unexpected saga_failed now saga keys s

  pub with_row :
      ℕ → String → String → Keys → UsersState table texts × Reply UserError User → Registered
  unfolding stepped unexpected
  with_row now saga city keys (s, refuse e) = unexpected e now saga keys s
  with_row now saga city keys (s, answer u) =
      stepped now saga city u keys s (execute_step store keys now saga (created_user u.id))

  pub register_with_city : ℕ → String → String → User → Keys → UsersState table texts → Registered
  unfolding with_row registration_steps
  register_with_city now saga city u keys s =
      with_row now saga city
        (create_saga store keys now saga "USER_REGISTRATION" (registration_steps u city))
        (create_row table texts u s)

  pub announced : Keys → UsersState table texts × Reply UserError User → Registered
  announced keys (s, refuse e) = (keys, s, refuse e)
  announced keys (s, answer u) =
      (keys, emit table texts (user_created u.id u.email none) s, answer u)

  pub register_row : Option String → ℕ → String → User → Keys → UsersState table texts → Registered
  unfolding register_with_city announced
  register_row none now saga u keys s = announced keys (create_row table texts u s)
  register_row (some city) now saga u keys s = register_with_city now saga city u keys s

  -- The name is free, or none was asked for.
  pub name_taken : Option String → UsersState table texts → Option User
  unfolding find_by_username
  name_taken none s = none
  name_taken (some name) s = find_by_username table texts name s

  pub register_checked :
      Option User
      → Option User
      → ℕ
      → String
      → String
      → RegisterRequest
      → Keys
      → UsersState table texts
      → Registered
  unfolding register_row registered_user
  register_checked (some other) named now email password r keys s =
      (keys, s, refuse duplicate_email)
  register_checked none (some other) now email password r keys s =
      (keys, s, refuse duplicate_username)
  register_checked none none now email password r keys s =
      register_row (truthy r.city_id) now r.saga_id
        (registered_user now email (passwords.hash password) r) keys s

  pub register_fields :
      Option String
      → Option String
      → ℕ
      → RegisterRequest
      → Keys
      → UsersState table texts
      → Registered
  unfolding register_checked name_taken
  register_fields (some email) (some password) now r keys s =
      let address = normalized table texts email in
      register_checked (find? (has_email table texts address) (table.rows s.users))
        (name_taken (truthy r.username) s) now address password r keys s
  register_fields _ _ now r keys s = (keys, s, refuse fields_required)

  unfoldable pub register : ℕ → RegisterRequest → Keys → UsersState table texts → Registered
  unfolding register_fields
  register now r keys s = register_fields (truthy r.email) (truthy r.password) now r keys s
