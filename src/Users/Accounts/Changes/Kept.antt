-- ===== src/Users/Accounts/Changes/Kept.antt =====
-- What the changes of users.service.ts do to the rows of the users.
use kodi_backend_template_a.Base.{
  ℕ, String, ◌≡◌, refl, subst, sym, inl, inr, Option, none, some, List, Bool-cases, Option-cases,
  if_either, find?, ◌&&◌, not, ◌||◌, Reply, refuse, answer, truthy, or_else,
}
use kodi_backend_template_a.Base.Store.{Table}
use kodi_backend_template_a.Rbac.Roles.{UserRole}
use kodi_backend_template_a.Users.Accounts.{
  User, UserError, UserEvent, Texts, UsersState, emit, normalized, has_email, has_id, find_by_id,
  find_one, create_row, update_by_id, delete_row, conflicts, is_present, user_updated, user_deleted,
  token_invalid,
}
use kodi_backend_template_a.Users.Accounts.Moves.{KeepsKeys, Moves, stays, changes, adds, removes}
use kodi_backend_template_a.Users.Accounts.Register.{Passwords}
use kodi_backend_template_a.Users.Accounts.Changes.{
  Done, CreateRequest, UserPatch, ProfilePatch, PreferencesPatch, TokenData, created, patch_user,
  patch_profile, patch_preferences, mark_deleted, mark_restored, set_password, mark_verified,
  set_role, change, announce_user, create_unless, create, change_living, update, delete,
  update_user_role, restore_found, restore, is_supported, update_profile, change_password_with,
  change_password_found, change_password, mark_email_as_verified, reset_found, reset_password,
  permanently_deleted, permanent_delete_account, preferences_error, apply_preferences,
  preferences_found, update_preferences,
}

-- The changes of one row.
pub data Change : (User → User) → Type 0 where
  patches : (p : UserPatch) → Change (patch_user p)
  profiles : (p : ProfilePatch) → Change (patch_profile p)
  prefers : (p : PreferencesPatch) → Change (patch_preferences p)
  deletes : (now : ℕ) → Change (mark_deleted now)
  restores : Change mark_restored
  passwords_set : (hashed : String) → Change (set_password hashed)
  verifies : Change mark_verified
  roles_set : (role : UserRole) → Change (set_role role)

Change-KeepsKeys : {f : User → User} → Change f → KeepsKeys f
unfolding patch_user patch_profile patch_preferences mark_deleted mark_restored set_password
    mark_verified set_role
Change-KeepsKeys (patches p) = record {
  id_kept = λ u. refl;
  email_kept = λ u. refl;
  device_kept = λ u. refl;
  platform_kept = λ u. refl;
}
Change-KeepsKeys (profiles p) = record {
  id_kept = λ u. refl;
  email_kept = λ u. refl;
  device_kept = λ u. refl;
  platform_kept = λ u. refl;
}
Change-KeepsKeys (prefers p) = record {
  id_kept = λ u. refl;
  email_kept = λ u. refl;
  device_kept = λ u. refl;
  platform_kept = λ u. refl;
}
Change-KeepsKeys (deletes now) = record {
  id_kept = λ u. refl;
  email_kept = λ u. refl;
  device_kept = λ u. refl;
  platform_kept = λ u. refl;
}
Change-KeepsKeys restores = record {
  id_kept = λ u. refl;
  email_kept = λ u. refl;
  device_kept = λ u. refl;
  platform_kept = λ u. refl;
}
Change-KeepsKeys (passwords_set hashed) = record {
  id_kept = λ u. refl;
  email_kept = λ u. refl;
  device_kept = λ u. refl;
  platform_kept = λ u. refl;
}
Change-KeepsKeys verifies = record {
  id_kept = λ u. refl;
  email_kept = λ u. refl;
  device_kept = λ u. refl;
  platform_kept = λ u. refl;
}
Change-KeepsKeys (roles_set role) = record {
  id_kept = λ u. refl;
  email_kept = λ u. refl;
  device_kept = λ u. refl;
  platform_kept = λ u. refl;
}

module _ (table : Table User) (texts : Texts) (passwords : Passwords)
    (languages : List String) where
  open table use {rows, rows-insert, rows-update, rows-remove}

  -- What happens between two states.
  abbrev pub Between : UsersState table texts → UsersState table texts → Type 0
  Between s t = Moves table texts (rows s.users) (rows t.users)

  change-Moves :
      {f : User → User} (c : Change f) (event : UserEvent) (id : String) (o : Option User)
      (s : UsersState table texts)
      → Between s (change table texts passwords languages event id f o s).0
  unfolding change emit update_by_id
  change-Moves c event id none s = stays (rows s.users) refl
  change-Moves {f = f} c event id (some u) s =
      changes id f (rows (table.update (has_id id) f s.users)) (Change-KeepsKeys c)
        (rows-update (has_id id) f s.users)

  living-Moves :
      {f : User → User} (c : Change f) (o : Option User) (event : UserEvent) (id : String)
      (s : UsersState table texts)
      → Between s (change_living table texts passwords languages o event id f s).0
  unfolding change_living
  living-Moves c none event id s = stays (rows s.users) refl
  living-Moves c (some u) event id s = change-Moves c event id (find_by_id table texts id s) s

  create_row-Moves :
      (u : User) (s : UsersState table texts)
      → ((email : String)
          → u.email ≡ some email
          → find? (has_email table texts email) (rows s.users) ≡ none)
      → Between s (create_row table texts u s).0
  unfolding create_row
  create_row-Moves u s mail = elim (Option-cases (find? (conflicts u) (rows s.users))) [
    | inl free ↦
        rw (free, create_row)
          (adds u (rows (table.insert u s.users)) free mail (rows-insert u s.users))
    | inr (v, taken) ↦ rw (taken, create_row) (stays (rows s.users) refl)
  ]

  announce_user-users :
      (d : UsersState table texts × Reply UserError User)
      → (announce_user table texts passwords languages d).0.users ≡ d.0.users
  unfolding announce_user emit
  announce_user-users (s, refuse e) = refl
  announce_user-users (s, answer u) = refl

  create_unless-Moves :
      (o : Option User) (email : String) (u : User) (s : UsersState table texts)
      → u.email ≡ some email
      → find? (has_email table texts email) (rows s.users) ≡ o
      → Between s (create_unless table texts passwords languages o u s).0
  unfolding create_unless
  create_unless-Moves (some other) email u s given e = stays (rows s.users) refl
  create_unless-Moves none email u s given e =
      subst (λ t. Moves table texts (rows s.users) (rows t))
        (sym (announce_user-users (create_row table texts u s)))
        (create_row-Moves u s (λ m k. let same_text : email ≡ m = cc in rw (← same_text) e))

  pub create-Moves :
      (now : ℕ) (r : CreateRequest) (s : UsersState table texts)
      → Between s (create table texts passwords languages now r s).0
  unfolding create created
  create-Moves now r s =
      let email = normalized table texts r.email in
      create_unless-Moves (find? (has_email table texts email) (rows s.users)) email
        (created now email r) s refl refl

  pub update-Moves :
      (id : String) (p : UserPatch) (s : UsersState table texts)
      → Between s (update table texts passwords languages id p s).0
  unfolding update
  update-Moves id p s = living-Moves (patches p) (find_one table texts id s) (user_updated id) id s

  pub delete-Moves :
      (now : ℕ) (id : String) (s : UsersState table texts)
      → Between s (delete table texts passwords languages now id s).0
  unfolding delete
  delete-Moves now id s =
      living-Moves (deletes now) (find_one table texts id s) (user_deleted id) id s

  pub update_user_role-Moves :
      (id : String) (role : UserRole) (s : UsersState table texts)
      → Between s (update_user_role table texts passwords languages id role s).0
  unfolding update_user_role
  update_user_role-Moves id role s =
      living-Moves (roles_set role) (find_one table texts id s) (user_updated id) id s

  restore_found-Moves :
      (o : Option User) (id : String) (s : UsersState table texts)
      → Between s (restore_found table texts passwords languages o id s).0
  unfolding restore_found
  restore_found-Moves none id s = stays (rows s.users) refl
  restore_found-Moves (some u) id s =
      elim (Bool-cases (u.is_active && not (is_present u.deleted_at))) [
        | inl active ↦ rw active (stays (rows s.users) refl)
        | inr gone ↦ rw gone (change-Moves restores (user_updated id) id (some u) s)
      ]

  pub restore-Moves :
      (id : String) (s : UsersState table texts)
      → Between s (restore table texts passwords languages id s).0
  unfolding restore
  restore-Moves id s = restore_found-Moves (find_by_id table texts id s) id s

  pub update_profile-Moves :
      (id : String) (p : ProfilePatch) (s : UsersState table texts)
      → Between s (update_profile table texts passwords languages id p s).0
  unfolding update_profile
  update_profile-Moves id p s =
      elim (Bool-cases
        (is_supported table texts passwords languages (truthy p.preferred_language))) [
          | inl known ↦
              rw known
                (change-Moves (profiles p) (user_updated id) id (find_by_id table texts id s) s)
          | inr unknown ↦ rw unknown (stays (rows s.users) refl)
        ]

  with-Moves :
      (o : Option String) (u : User) (current new : String) (s : UsersState table texts)
      → Between s (change_password_with table texts passwords languages o u current new s).0
  unfolding change_password_with
  with-Moves none u current new s = stays (rows s.users) refl
  with-Moves (some hashed) u current new s = elim (Bool-cases (passwords.compare current hashed)) [
    | inl right ↦
        rw right
          (change-Moves (passwords_set (passwords.hash new)) (user_updated u.id) u.id (some u) s)
    | inr wrong ↦ rw wrong (stays (rows s.users) refl)
  ]

  found-Moves :
      (o : Option User) (current new : String) (s : UsersState table texts)
      → Between s (change_password_found table texts passwords languages o current new s).0
  unfolding change_password_found
  found-Moves none current new s = stays (rows s.users) refl
  found-Moves (some u) current new s = with-Moves (truthy u.password) u current new s

  pub change_password-Moves :
      (id current new : String) (s : UsersState table texts)
      → Between s (change_password table texts passwords languages id current new s).0
  unfolding change_password
  change_password-Moves id current new s = found-Moves (find_by_id table texts id s) current new s

  pub mark_email_as_verified-Moves :
      (id : String) (s : UsersState table texts)
      → Between s (mark_email_as_verified table texts passwords languages id s).0
  unfolding mark_email_as_verified
  mark_email_as_verified-Moves id s =
      change-Moves verifies (user_updated id) id (find_by_id table texts id s) s

  reset_found-Moves :
      (o : Option User) (d : TokenData) (token new : String) (s : UsersState table texts)
      → Between s (reset_found table texts passwords languages o d token new s).0
  unfolding reset_found emit update_by_id
  reset_found-Moves none d token new s = stays (rows s.users) refl
  reset_found-Moves (some u) d token new s =
      let f = set_password (passwords.hash new) in
      changes d.user_id f (rows (table.update (has_id d.user_id) f s.users))
        (Change-KeepsKeys (passwords_set (passwords.hash new)))
        (rows-update (has_id d.user_id) f s.users)

  pub reset_password-Moves :
      (o : Option TokenData) (token new : String) (s : UsersState table texts)
      → Between s (reset_password table texts passwords languages o token new s).0
  unfolding reset_password
  reset_password-Moves none token new s = stays (rows s.users) refl
  reset_password-Moves (some d) token new s =
      if_either (λ (r : Done table texts passwords languages). Between s r.0) d.valid
        (reset_found table texts passwords languages (find_by_id table texts d.user_id s) d token
          new s)
        (s, refuse token_invalid)
        (reset_found-Moves (find_by_id table texts d.user_id s) d token new s)
        (stays (rows s.users) refl)

  permanently_deleted-Moves :
      (o : Option User) (id : String) (s : UsersState table texts)
      → Between s (permanently_deleted table texts passwords languages o id s).0
  unfolding permanently_deleted emit delete_row
  permanently_deleted-Moves none id s = stays (rows s.users) refl
  permanently_deleted-Moves (some u) id s =
      removes id (rows (table.remove (has_id id) s.users)) (rows-remove (has_id id) s.users)

  pub permanent_delete_account-Moves :
      (id : String) (s : UsersState table texts)
      → Between s (permanent_delete_account table texts passwords languages id s).0
  unfolding permanent_delete_account
  permanent_delete_account-Moves id s = permanently_deleted-Moves (find_by_id table texts id s) id s

  apply-Moves :
      (o : Option UserError) (p : PreferencesPatch) (u : User) (id : String)
      (s : UsersState table texts)
      → Between s (apply_preferences table texts passwords languages o p u id s).0
  unfolding apply_preferences
  apply-Moves (some e) p u id s = stays (rows s.users) refl
  apply-Moves none p u id s =
      elim (Bool-cases (is_present p.notifications_enabled || is_present p.preferred_language)) [
        | inl some_field ↦ rw some_field (change-Moves (prefers p) (user_updated id) id (some u) s)
        | inr no_field ↦ rw no_field (stays (rows s.users) refl)
      ]

  preferences_found-Moves :
      (o : Option User) (id : String) (email : Option String) (p : PreferencesPatch)
      (s : UsersState table texts)
      → Between s (preferences_found table texts passwords languages o id email p s).0
  unfolding preferences_found
  preferences_found-Moves none id email p s = stays (rows s.users) refl
  preferences_found-Moves (some u) id email p s =
      apply-Moves (preferences_error table texts passwords languages p (or_else email u.email)) p u
        id s

  pub update_preferences-Moves :
      (id : String) (email : Option String) (p : PreferencesPatch) (s : UsersState table texts)
      → Between s (update_preferences table texts passwords languages id email p s).0
  unfolding update_preferences
  update_preferences-Moves id email p s =
      preferences_found-Moves (find_by_id table texts id s) id email p s
