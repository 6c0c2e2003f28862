-- ===== src/Users/Accounts/Calls.antt =====
-- Sequences of calls of users.service.ts.
use kodi_backend_template_a.Base.{ℕ, String, Bool, Option, List, [], ◌∷◌, refuse, answer}
use kodi_backend_template_a.Base.Store.{Table, KeyStore}
use kodi_backend_template_a.Rbac.Roles.{UserRole}
use kodi_backend_template_a.Saga.{SagaState}
use kodi_backend_template_a.Users.Accounts.{User, DevicePlatform, Texts, UsersState}
use kodi_backend_template_a.Users.Accounts.Moves.{Moves, stays, adds}
use kodi_backend_template_a.Users.Accounts.Unique.{IsValid, Moves-IsValid}
use kodi_backend_template_a.Users.Accounts.Register.{
  RegisterRequest, Passwords, SagaPayload, Registered, register,
}
use kodi_backend_template_a.Users.Accounts.Register.Atomic.{Leaves, register-Leaves}
use kodi_backend_template_a.Users.Accounts.Guests.{
  ConvertRequest, create_guest, convert_guest_to_user,
}
use kodi_backend_template_a.Users.Accounts.Guests.Converted.{
  create_guest-Moves, convert_guest_to_user-Moves,
}
use kodi_backend_template_a.Users.Accounts.Changes.{
  CreateRequest, UserPatch, ProfilePatch, PreferencesPatch, TokenData, create, update, delete,
  update_user_role, restore, update_profile, change_password, mark_email_as_verified,
  reset_password, permanent_delete_account, update_preferences,
}
use kodi_backend_template_a.Users.Accounts.Changes.Kept

-- A call that can change the users, with its time where it matters.
pub data UserCall : Type 0 where
  registers : ℕ → RegisterRequest → UserCall
  creates : ℕ → CreateRequest → UserCall
  updates : String → UserPatch → UserCall
  deletes : ℕ → String → UserCall
  restores : String → UserCall
  updates_profile : String → ProfilePatch → UserCall
  changes_password : String → String → String → UserCall
  creates_guest : ℕ → String → String → String → DevicePlatform → UserCall
  converts_guest : String → ConvertRequest → UserCall
  verifies_email : String → UserCall
  resets_password : Option TokenData → String → String → UserCall
  updates_role : String → UserRole → UserCall
  deletes_account : String → UserCall
  updates_preferences : String → Option String → PreferencesPatch → UserCall

module _ (table : Table User) (texts : Texts) (store : KeyStore (SagaState SagaPayload))
    (passwords : Passwords) (assign_city : String → String → Bool) (languages : List String) where
  open table use {rows}

  -- The sagas, and the state of the users.
  abbrev pub World : Type 0
  World = store.Keys × UsersState table texts

  abbrev pub step : UserCall → World → World
  step (registers now r) (k, s) =
      let d = register table texts store passwords assign_city now r k s in (d.0, d.1)
  step (creates now r) (k, s) = (k, (create table texts passwords languages now r s).0)
  step (updates id p) (k, s) = (k, (update table texts passwords languages id p s).0)
  step (deletes now id) (k, s) = (k, (delete table texts passwords languages now id s).0)
  step (restores id) (k, s) = (k, (restore table texts passwords languages id s).0)
  step (updates_profile id p) (k, s) =
      (k, (update_profile table texts passwords languages id p s).0)
  step (changes_password id current new) (k, s) =
      (k, (change_password table texts passwords languages id current new s).0)
  step (creates_guest now stamp id device platform) (k, s) =
      (k, (create_guest table texts passwords now stamp id device platform s).0)
  step (converts_guest id r) (k, s) = (k, (convert_guest_to_user table texts passwords id r s).0)
  step (verifies_email id) (k, s) =
      (k, (mark_email_as_verified table texts passwords languages id s).0)
  step (resets_password answered token new) (k, s) =
      (k, (reset_password table texts passwords languages answered token new s).0)
  step (updates_role id role) (k, s) =
      (k, (update_user_role table texts passwords languages id role s).0)
  step (deletes_account id) (k, s) =
      (k, (permanent_delete_account table texts passwords languages id s).0)
  step (updates_preferences id email p) (k, s) =
      (k, (update_preferences table texts passwords languages id email p s).0)

  abbrev pub run : List UserCall → World → World
  run [] w = w
  run (c ∷ cs) w = run cs (step c w)

  registered-Moves :
      (d : Registered table texts store passwords assign_city) (s : UsersState table texts)
      → Leaves table texts store passwords assign_city s d
      → Moves table texts (rows s.users) (rows d.1.users)
  unfolding Leaves
  registered-Moves (k, t, answer u) s (added, (free, mail)) = adds u (rows t.users) free mail added
  registered-Moves (k, t, refuse e) s (same_rows, _) = stays (rows t.users) same_rows

  step-Moves :
      (c : UserCall) (w : World) → Moves table texts (rows w.1.users) (rows (step c w).1.users)
  step-Moves (registers now r) (k, s) =
      registered-Moves (register table texts store passwords assign_city now r k s) s
        (register-Leaves table texts store passwords assign_city now r k s)
  step-Moves (creates now r) (k, s) = Kept.create-Moves table texts passwords languages now r s
  step-Moves (updates id p) (k, s) = Kept.update-Moves table texts passwords languages id p s
  step-Moves (deletes now id) (k, s) = Kept.delete-Moves table texts passwords languages now id s
  step-Moves (restores id) (k, s) = Kept.restore-Moves table texts passwords languages id s
  step-Moves (updates_profile id p) (k, s) =
      Kept.update_profile-Moves table texts passwords languages id p s
  step-Moves (changes_password id current new) (k, s) =
      Kept.change_password-Moves table texts passwords languages id current new s
  step-Moves (creates_guest now stamp id device platform) (k, s) =
      create_guest-Moves table texts passwords now stamp id device platform s
  step-Moves (converts_guest id r) (k, s) = convert_guest_to_user-Moves table texts passwords id r s
  step-Moves (verifies_email id) (k, s) =
      Kept.mark_email_as_verified-Moves table texts passwords languages id s
  step-Moves (resets_password answered token new) (k, s) =
      Kept.reset_password-Moves table texts passwords languages answered token new s
  step-Moves (updates_role id role) (k, s) =
      Kept.update_user_role-Moves table texts passwords languages id role s
  step-Moves (deletes_account id) (k, s) =
      Kept.permanent_delete_account-Moves table texts passwords languages id s
  step-Moves (updates_preferences id email p) (k, s) =
      Kept.update_preferences-Moves table texts passwords languages id email p s

  -- No sequence of calls, failed ones included, leads to two users with the same id, the same
  -- address in whatever case, or the same device, where there were none before.
  pub run_users-IsValid :
      (cs : List UserCall) (w : World)
      → IsValid table texts (rows w.1.users)
      → IsValid table texts (rows (run cs w).1.users)
  run_users-IsValid [] w h = h
  run_users-IsValid (c ∷ cs) w h =
      run_users-IsValid cs (step c w) (Moves-IsValid table texts (step-Moves c w) h)
