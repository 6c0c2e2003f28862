-- ===== src/Users/Accounts/Guests/Converted.antt =====
-- What the creation and the conversion of guests in users.service.ts do to the rows.
use kodi_backend_template_a.Base.{
  ℕ, String, ◌≡◌, refl, subst, sym, inl, inr, Option, none, some, map, Option-cases, find?, truthy,
  Reply, refuse, answer,
}
use kodi_backend_template_a.Base.Store.{Table, update_row}
use kodi_backend_template_a.Users.Accounts.{
  User, UserError, UserType, guest, registered, DevicePlatform, Texts, UsersState, emit, normalized,
  has_email, has_id, find_by_id, create_row, update_by_id, conflicts, blank,
}
use kodi_backend_template_a.Users.Accounts.Moves.{GivesEmail, Moves, stays, converts, adds}
use kodi_backend_template_a.Users.Accounts.Register.{Passwords}
use kodi_backend_template_a.Users.Accounts.Guests.{
  ConvertRequest, guest_user, registered_guest, find_by_device_id, announce_guest, guest_unless,
  create_guest, convert_row, name_owner, convert_checked, convert_found, convert_fields,
  convert_guest_to_user, Answer, typed,
}

registered_guest-GivesEmail :
    (email password : String) (r : ConvertRequest)
    → GivesEmail email (registered_guest email password r)
unfolding registered_guest
registered_guest-GivesEmail email password r = record {
  id_kept = λ u. refl;
  email_given = λ u. refl;
  device_kept = λ u. refl;
  platform_kept = λ u. refl;
}

module _ (table : Table User) (texts : Texts) (passwords : Passwords) where
  open table use {rows, rows-insert, rows-update}

  abbrev Between : UsersState table texts → UsersState table texts → Type 0
  Between s t = Moves table texts (rows s.users) (rows t.users)

  announce_guest-users :
      (d : UsersState table texts × Reply UserError User)
      → (announce_guest table texts passwords d).0.users ≡ d.0.users
  unfolding announce_guest emit
  announce_guest-users (s, refuse e) = refl
  announce_guest-users (s, answer u) = refl

  create_guest_row-Moves :
      (u : User) (s : UsersState table texts)
      → u.email ≡ none
      → Between s (create_row table texts u s).0
  unfolding create_row
  create_guest_row-Moves u s absent = elim (Option-cases (find? (conflicts u) (rows s.users))) [
    | inl free ↦
        rw (free, create_row)
          (adds u (rows (table.insert u s.users)) free (λ e k. cc (absent, k))
            (rows-insert u s.users))
    | inr (v, taken) ↦ rw (taken, create_row) (stays (rows s.users) refl)
  ]

  guest_unless-Moves :
      (o : Option User) (u : User) (s : UsersState table texts)
      → u.email ≡ none
      → Between s (guest_unless table texts passwords o u s).0
  unfolding guest_unless
  guest_unless-Moves (some old) u s absent = stays (rows s.users) refl
  guest_unless-Moves none u s absent =
      subst (λ t. Moves table texts (rows s.users) (rows t))
        (sym (announce_guest-users (create_row table texts u s)))
        (create_guest_row-Moves u s absent)

  pub create_guest-Moves :
      (now : ℕ) (stamp id device : String) (platform : DevicePlatform) (s : UsersState table texts)
      → Between s (create_guest table texts passwords now stamp id device platform s).0
  unfolding create_guest guest_user blank
  create_guest-Moves now stamp id device platform s =
      guest_unless-Moves (find_by_device_id table texts passwords device platform s)
        (guest_user now stamp id device platform) s refl

  pub convert_row-rows :
      (email password : String) (r : ConvertRequest) (u : User) (s : UsersState table texts)
      → rows (convert_row table texts passwords email password r u s).0.users
        ≡ map (update_row (has_id u.id) (registered_guest email password r)) (rows s.users)
  unfolding convert_row emit update_by_id
  convert_row-rows email password r u s =
      rows-update (has_id u.id) (registered_guest email password r) s.users

  checked-Moves :
      (o p : Option User) (email password : String) (r : ConvertRequest) (u : User)
      (s : UsersState table texts)
      → find? (has_email table texts email) (rows s.users) ≡ o
      → Between s (convert_checked table texts passwords o p email password r u s).0
  unfolding convert_checked
  checked-Moves (some other) p email password r u s e = stays (rows s.users) refl
  checked-Moves none (some other) email password r u s e = stays (rows s.users) refl
  checked-Moves none none email password r u s e =
      converts u.id email (registered_guest email (passwords.hash password) r)
        (rows (convert_row table texts passwords email (passwords.hash password) r u s).0.users)
        (registered_guest-GivesEmail email (passwords.hash password) r) e
        (convert_row-rows email (passwords.hash password) r u s)

  typed-Moves :
      (t : UserType) (s : UsersState table texts) (done : Answer table texts passwords)
      → Between s done.0
      → Between s (typed table texts passwords t done s).0
  unfolding typed
  typed-Moves guest s done h = h
  typed-Moves registered s done h = stays (rows s.users) refl

  found-Moves :
      (o : Option User) (email password : String) (r : ConvertRequest) (s : UsersState table texts)
      → Between s (convert_found table texts passwords o email password r s).0
  unfolding convert_found
  found-Moves none email password r s = stays (rows s.users) refl
  found-Moves (some u) email password r s =
      let address = normalized table texts email in
      typed-Moves u.user_type s
        (convert_checked table texts passwords
          (find? (has_email table texts address) (rows s.users))
          (name_owner table texts passwords (truthy r.username) s) address password r u s)
        (checked-Moves (find? (has_email table texts address) (rows s.users))
          (name_owner table texts passwords (truthy r.username) s) address password r u s refl)

  fields-Moves :
      (o p : Option String) (id : String) (r : ConvertRequest) (s : UsersState table texts)
      → Between s (convert_fields table texts passwords o p id r s).0
  unfolding convert_fields
  fields-Moves (some email) (some password) id r s =
      found-Moves (find_by_id table texts id s) email password r s
  fields-Moves none p id r s = stays (rows s.users) refl
  fields-Moves (some email) none id r s = stays (rows s.users) refl

  pub convert_guest_to_user-Moves :
      (id : String) (r : ConvertRequest) (s : UsersState table texts)
      → Between s (convert_guest_to_user table texts passwords id r s).0
  unfolding convert_guest_to_user
  convert_guest_to_user-Moves id r s = fields-Moves (truthy r.email) (truthy r.password) id r s
