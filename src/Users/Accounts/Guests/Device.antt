-- ===== src/Users/Accounts/Guests/Device.antt =====
-- A device whose guest was converted in users.service.ts.
use kodi_backend_template_a.Base.{
  ℕ, ◌≤◌, String, ◌≡◌, refl, inl, inr, true, false, Option, none, some, map, arith, eq_refl,
  Bool-cases, Option-cases, find?, filter, length, All-unique, All-imp, find?-none_of, find?_of_All,
  truthy, refuse, answer,
}
use kodi_backend_template_a.Base.Store.{Table, update_row, find?-update}
use kodi_backend_template_a.Users.Accounts.{
  User, UserType, guest, registered, DevicePlatform, Texts, UsersState, normalized, has_email,
  has_id, find_by_id, create_row, conflicts, is_on_device, device_taken, blank, unique_violated,
}
use kodi_backend_template_a.Users.Accounts.Register.{Passwords}
use kodi_backend_template_a.Users.Accounts.Guests.{
  ConvertRequest, is_guest_on, guest_user, registered_guest, find_by_device_id, announce_guest,
  guest_unless, create_guest, name_owner, convert_checked, convert_found, convert_fields,
  convert_guest_to_user, Answer, typed,
}
use kodi_backend_template_a.Users.Accounts.Guests.Converted.{convert_row-rows}

-- The new guest of a device collides with every row of that device.
guest_conflict :
    (now : ℕ) (stamp id device : String) (platform : DevicePlatform) (v : User)
    → is_on_device device platform v ≡ true
    → conflicts (guest_user now stamp id device platform) v ≡ true
unfolding conflicts guest_user blank device_taken
guest_conflict now stamp id device platform v h = ground arith

registered_on_device :
    (email password : String) (r : ConvertRequest) (device : String) (platform : DevicePlatform)
    (v : User)
    → is_on_device device platform (registered_guest email password r v)
      ≡ is_on_device device platform v
unfolding is_on_device registered_guest
registered_on_device email password r device platform v = refl

no_guest_left :
    (email password : String) (r : ConvertRequest) (id device : String) (platform : DevicePlatform)
    (v : User)
    → (is_on_device device platform v ≡ true → has_id id v ≡ true)
    → is_guest_on device platform (update_row (has_id id) (registered_guest email password r) v)
      ≡ false
unfolding is_guest_on registered_guest is_on_device
no_guest_left email password r id device platform v h = elim (Bool-cases (has_id id v)) [
  | inl hit ↦ rw hit (ground arith)
  | inr miss ↦ rw miss (ground arith)
]

module _ (table : Table User) (texts : Texts) (passwords : Passwords) where
  open table use {rows}

  -- The row of a guest was updated as a registered user.
  abbrev Updated : ConvertRequest → User → UsersState table texts → UsersState table texts → Type 0
  Updated r g s s' =
      (email : String) × (password : String) × (rows s'.users
        ≡ map (update_row (has_id g.id) (registered_guest email password r)) (rows s.users))

  checked-Updated :
      (o p : Option User) (email password : String) (r : ConvertRequest) (g v : User)
      (s : UsersState table texts)
      → (convert_checked table texts passwords o p email password r g s).1 ≡ answer v
      → Updated r g s (convert_checked table texts passwords o p email password r g s).0
  unfolding convert_checked
  checked-Updated (some other) p email password r g v s h = cc
  checked-Updated none (some other) email password r g v s h = cc
  checked-Updated none none email password r g v s h = (
    email,
    passwords.hash password,
    convert_row-rows table texts passwords email (passwords.hash password) r g s,
  )

  typed-Updated :
      (t : UserType) (r : ConvertRequest) (g v : User) (s : UsersState table texts)
      (done : Answer table texts passwords)
      → (typed table texts passwords t done s).1 ≡ answer v
      → (done.1 ≡ answer v → Updated r g s done.0)
      → Updated r g s (typed table texts passwords t done s).0
  unfolding typed
  typed-Updated guest r g v s done h k = k h
  typed-Updated registered r g v s done h k = cc

  fields-Updated :
      (o p : Option String) (id : String) (r : ConvertRequest) (g v : User)
      (s : UsersState table texts)
      → find_by_id table texts id s ≡ some g
      → (convert_fields table texts passwords o p id r s).1 ≡ answer v
      → Updated r g s (convert_fields table texts passwords o p id r s).0
  unfolding convert_fields convert_found
  fields-Updated none p id r g v s found h = cc
  fields-Updated (some email) none id r g v s found h = cc
  fields-Updated (some email) (some password) id r g v s found h =
      let address = normalized table texts email in
      let o = find? (has_email table texts address) (rows s.users) in
      let p = name_owner table texts passwords (truthy r.username) s in
      rw (found, convert_found)
        (typed-Updated g.user_type r g v s
          (convert_checked table texts passwords o p address password r g s)
          (rw (found, convert_found) at h) (λ k. checked-Updated o p address password r g v s k))

  refused :
      (now : ℕ) (stamp id device : String) (platform : DevicePlatform) (s : UsersState table texts)
      {v : User}
      → find? (is_guest_on device platform) (rows s.users) ≡ none
      → find? (is_on_device device platform) (rows s.users) ≡ some v
      → create_guest table texts passwords now stamp id device platform s
        ≡ (s, refuse unique_violated)
  unfolding create_guest guest_unless find_by_device_id create_row announce_guest
  refused now stamp id device platform s {v = v} absent there =
      let n = guest_user now stamp id device platform in
      rw (absent, guest_unless)
        (elim (Option-cases (find? (conflicts n) (rows s.users))) [
          | inl free ↦ absurd (
              let gone : find? (is_on_device device platform) (rows s.users) ≡ none =
                find?-none_of (conflicts n) (is_on_device device platform) (rows s.users)
                  (λ w h. guest_conflict now stamp id device platform w h) free in
              cc)
          | inr (w, taken) ↦ rw (taken, create_row) refl
        ])

  -- A device whose guest has registered gets no guest any more: where the guest is the only row of
  -- its device, `createGuest` for that device throws after the conversion, and changes nothing.
  pub create_guest-convert_guest_to_user :
      (now : ℕ) (stamp id new_id device : String) (platform : DevicePlatform) (r : ConvertRequest)
      (g v : User) (s : UsersState table texts)
      → find_by_id table texts id s ≡ some g
      → find? (is_on_device device platform) (rows s.users) ≡ some g
      → length (filter (is_on_device device platform) (rows s.users)) ≤ 1
      → (convert_guest_to_user table texts passwords id r s).1 ≡ answer v
      → create_guest table texts passwords now stamp new_id device platform
          (convert_guest_to_user table texts passwords id r s).0
        ≡ ((convert_guest_to_user table texts passwords id r s).0, refuse unique_violated)
  unfolding convert_guest_to_user has_id
  create_guest-convert_guest_to_user now stamp id new_id device platform r g v s found here one
        done =
      let s' = (convert_guest_to_user table texts passwords id r s).0 in
      let (email, password, after) =
        fields-Updated (truthy r.email) (truthy r.password) id r g v s found done in
      let f = registered_guest email password r in
      let only =
        All-imp (λ b. is_on_device device platform b ≡ true → b ≡ g)
          (λ b. is_guest_on device platform (update_row (has_id g.id) f b) ≡ false) (rows s.users)
          (λ b same.
            no_guest_left email password r g.id device platform b
              (λ on. rw (same on) (eq_refl g.id)))
          (All-unique (is_on_device device platform) (rows s.users) here one) in
      refused now stamp new_id device platform s' {v = update_row (has_id g.id) f g}
        (rw after (
          find?_of_All (is_guest_on device platform) (update_row (has_id g.id) f) (rows s.users)
            only))
        (rw after (
          find?-update (is_on_device device platform) (has_id g.id) f (rows s.users)
            (registered_on_device email password r device platform) here))
