-- ===== src/Users/Accounts/Changes.antt =====
-- The other calls of users.service.ts that change a user. The notification service answers which
-- user a reset token belongs to, and none where it is not valid or the service does not answer.
pub mod Kept
use kodi_backend_template_a.Base.{
  ℕ, String, Bool, true, false, Option, none, some, List, ◌&&◌, ◌||◌, not, find?, includes, truthy,
  or_else, if◌then◌else◌, Reply, refuse, answer, Run, ret, throw, diverge,
}
use kodi_backend_template_a.Base.Store.{Table}
use kodi_backend_template_a.Rbac.Roles.{UserRole, citizen}
use kodi_backend_template_a.Users.Accounts.{
  User, UserError, UserEvent, UserType, Texts, UsersState, emit, normalized, has_email, has_id,
  find_by_id, find_by_email, find_one, create_row, update_by_id, delete_row, blank, is_present,
  user_created, user_updated, user_deleted, reset_requested, reset_token_used, reset_completed,
  duplicate_email, user_not_found, already_active, unsupported_language, no_password,
  wrong_password, token_invalid, email_required, newsletter_unavailable, record_missing,
}
use kodi_backend_template_a.Users.Accounts.Register.{Passwords}

-- `CreateUserDto`, with the id that is drawn for the row.
pub record CreateRequest : Type 0 where
  pub email : String
  pub username : String
  pub password : String
  pub first_name : Option String
  pub last_name : Option String
  pub salutation_code : Option String
  pub has_vehicle : Option Bool
  pub role : Option UserRole
  pub new_id : String

-- `UpdateUserDto`.
pub record UserPatch : Type 0 where
  pub first_name : Option String
  pub last_name : Option String
  pub salutation_code : Option String
  pub has_vehicle : Option Bool
  pub is_active : Option Bool
  pub role : Option UserRole

-- `UpdateProfileDto`.
pub record ProfilePatch : Type 0 where
  pub first_name : Option String
  pub last_name : Option String
  pub salutation_code : Option String
  pub has_vehicle : Option Bool
  pub profile_photo_url : Option String
  pub preferred_language : Option String

-- `UpdatePreferencesDto`.
pub record PreferencesPatch : Type 0 where
  pub newsletter_subscribed : Option Bool
  pub notifications_enabled : Option Bool
  pub preferred_language : Option String

-- `verifyResetToken` of the notification service, as far as it is read.
pub record TokenData : Type 0 where
  pub valid : Bool
  pub user_id : String
  pub email : String

-- A field of an update that is `undefined` stays as it is.
abbrev pub put : {A : Type 0} → Option A → Option A → Option A
put none old = old
put (some a) old = some a

abbrev pub put_plain : {A : Type 0} → Option A → A → A
put_plain none old = old
put_plain (some a) old = a

-- The row of a user whom an administrator creates: the fields as they were sent.
pub created : ℕ → String → CreateRequest → User
unfolding blank
created now email r = record (blank now r.new_id) {
  email = some email;
  username = some r.username;
  password = some r.password;
  first_name = r.first_name;
  last_name = r.last_name;
  salutation_code = r.salutation_code;
  has_vehicle = put_plain r.has_vehicle false;
  role = put_plain r.role citizen;
}

pub patch_user : UserPatch → User → User
patch_user p u = record u {
  first_name = put p.first_name u.first_name;
  last_name = put p.last_name u.last_name;
  salutation_code = put p.salutation_code u.salutation_code;
  has_vehicle = put_plain p.has_vehicle u.has_vehicle;
  is_active = put_plain p.is_active u.is_active;
  role = put_plain p.role u.role;
}

pub patch_profile : ProfilePatch → User → User
patch_profile p u = record u {
  first_name = put p.first_name u.first_name;
  last_name = put p.last_name u.last_name;
  salutation_code = put p.salutation_code u.salutation_code;
  has_vehicle = put_plain p.has_vehicle u.has_vehicle;
  profile_photo_url = put p.profile_photo_url u.profile_photo_url;
  preferred_language = put p.preferred_language u.preferred_language;
}

pub patch_preferences : PreferencesPatch → User → User
patch_preferences p u = record u {
  notifications_enabled = put_plain p.notifications_enabled u.notifications_enabled;
  preferred_language = put p.preferred_language u.preferred_language;
}

pub mark_deleted : ℕ → User → User
mark_deleted now u = record u { deleted_at = some now; is_active = false }

pub mark_restored : User → User
mark_restored u = record u { deleted_at = none; is_active = true }

pub set_password : String → User → User
set_password hashed u = record u { password = some hashed }

pub mark_verified : User → User
mark_verified u = record u { email_verified = true }

pub set_role : UserRole → User → User
set_role role u = record u { role = role }

module _ (table : Table User) (texts : Texts) (passwords : Passwords)
    (languages : List String) where
  open table use {rows}

  abbrev pub Done : Type 0
  Done = UsersState table texts × Reply UserError User

  -- The update of one row, and its message. `update` throws where there is no such row.
  pub change : UserEvent → String → (User → User) → Option User → UsersState table texts → Done
  change event id f none s = (s, refuse record_missing)
  change event id f (some u) s =
      (emit table texts event (update_by_id table texts id f s), answer (f u))

  pub announce_user : Done → Done
  announce_user (s, refuse e) = (s, refuse e)
  announce_user (s, answer u) = (emit table texts (user_created u.id u.email none) s, answer u)

  pub create_unless : Option User → User → UsersState table texts → Done
  unfolding announce_user
  create_unless (some other) u s = (s, refuse duplicate_email)
  create_unless none u s = announce_user (create_row table texts u s)

  pub create : ℕ → CreateRequest → UsersState table texts → Done
  unfolding create_unless created normalized has_email
  create now r s =
      let email = normalized table texts r.email in
      create_unless (find? (has_email table texts email) (rows s.users)) (created now email r) s

  -- A change of a row that must exist and not be deleted.
  pub change_living :
      Option User → UserEvent → String → (User → User) → UsersState table texts → Done
  unfolding change
  change_living none event id f s = (s, refuse user_not_found)
  change_living (some u) event id f s = change event id f (find_by_id table texts id s) s

  pub update : String → UserPatch → UsersState table texts → Done
  unfolding change_living patch_user
  update id p s = change_living (find_one table texts id s) (user_updated id) id (patch_user p) s

  pub delete : ℕ → String → UsersState table texts → Done
  unfolding change_living mark_deleted
  delete now id s =
      change_living (find_one table texts id s) (user_deleted id) id (mark_deleted now) s

  pub update_user_role : String → UserRole → UsersState table texts → Done
  unfolding change_living set_role
  update_user_role id role s =
      change_living (find_one table texts id s) (user_updated id) id (set_role role) s

  pub restore_found : Option User → String → UsersState table texts → Done
  unfolding change mark_restored
  restore_found none id s = (s, refuse user_not_found)
  restore_found (some u) id s =
      if u.is_active && not (is_present u.deleted_at)
      then (s, refuse already_active)
      else change (user_updated id) id mark_restored (some u) s

  pub restore : String → UsersState table texts → Done
  unfolding restore_found
  restore id s = restore_found (find_by_id table texts id s) id s

  -- The language is one of the supported ones, or none was given.
  pub is_supported : Option String → Bool
  is_supported none = true
  is_supported (some language) = includes language languages

  pub update_profile : String → ProfilePatch → UsersState table texts → Done
  unfolding is_supported change patch_profile
  update_profile id p s =
      if is_supported (truthy p.preferred_language)
      then change (user_updated id) id (patch_profile p) (find_by_id table texts id s) s
      else (s, refuse unsupported_language)

  pub change_password_with : Option String → User → String → String → UsersState table texts → Done
  unfolding change set_password
  change_password_with none u current new s = (s, refuse no_password)
  change_password_with (some hashed) u current new s =
      if passwords.compare current hashed
      then change (user_updated u.id) u.id (set_password (passwords.hash new)) (some u) s
      else (s, refuse wrong_password)

  pub change_password_found : Option User → String → String → UsersState table texts → Done
  unfolding change_password_with
  change_password_found none current new s = (s, refuse user_not_found)
  change_password_found (some u) current new s =
      change_password_with (truthy u.password) u current new s

  pub change_password : String → String → String → UsersState table texts → Done
  unfolding change_password_found
  change_password id current new s =
      change_password_found (find_by_id table texts id s) current new s

  pub mark_email_as_verified : String → UsersState table texts → Done
  unfolding change mark_verified
  mark_email_as_verified id s =
      change (user_updated id) id mark_verified (find_by_id table texts id s) s

  -- The answer is the same whether there is such a user or not.
  pub request_password_reset : String → UsersState table texts → UsersState table texts
  request_password_reset email s = elim (find_by_email table texts email s) [
    | none ↦ s
    | some u ↦ emit table texts (reset_requested u.id u.email) s
  ]

  pub reset_found : Option User → TokenData → String → String → UsersState table texts → Done
  unfolding set_password
  reset_found none data' token new s = (s, refuse record_missing)
  reset_found (some u) data' token new s = (
    emit table texts (reset_completed data'.user_id data'.email) (
        emit table texts (reset_token_used token)
          (update_by_id table texts data'.user_id (set_password (passwords.hash new)) s)),
    answer (set_password (passwords.hash new) u),
  )

  pub reset_password : Option TokenData → String → String → UsersState table texts → Done
  unfolding reset_found
  reset_password none token new s = (s, refuse token_invalid)
  reset_password (some data') token new s =
      if data'.valid
      then reset_found (find_by_id table texts data'.user_id s) data' token new s
      else (s, refuse token_invalid)

  -- The row is gone, with the user's devices and subscriptions, which are other tables.
  pub permanently_deleted : Option User → String → UsersState table texts → Done
  permanently_deleted none id s = (s, refuse user_not_found)
  permanently_deleted (some u) id s =
      (emit table texts (user_deleted id) (delete_row table texts id s), answer u)

  pub permanent_delete_account : String → UsersState table texts → Done
  unfolding permanently_deleted
  permanent_delete_account id s = permanently_deleted (find_by_id table texts id s) id s

  -- A newsletter cannot be subscribed to; nothing has changed when that is refused.
  pub preferences_error : PreferencesPatch → Option String → Option UserError
  unfolding is_supported
  preferences_error p email =
      if put_plain p.newsletter_subscribed false
      then elim (truthy email) [ none ↦ some email_required | some m ↦ some newsletter_unavailable ]
      else if is_supported p.preferred_language
      then none
      else some unsupported_language

  pub apply_preferences :
      Option UserError → PreferencesPatch → User → String → UsersState table texts → Done
  unfolding change patch_preferences
  apply_preferences (some e) p u id s = (s, refuse e)
  apply_preferences none p u id s =
      if is_present p.notifications_enabled || is_present p.preferred_language
      then change (user_updated id) id (patch_preferences p) (some u) s
      else (s, answer u)

  pub preferences_found :
      Option User → String → Option String → PreferencesPatch → UsersState table texts → Done
  unfolding apply_preferences preferences_error
  preferences_found none id email p s = (s, refuse user_not_found)
  preferences_found (some u) id email p s =
      apply_preferences (preferences_error p (or_else email u.email)) p u id s

  pub update_preferences : String → Option String → PreferencesPatch → UsersState table texts → Done
  unfolding preferences_found
  update_preferences id email p s = preferences_found (find_by_id table texts id s) id email p s
