-- ===== src/Auth/Login/Logout.antt =====
-- What a login of auth.service.ts stores, and what a logout from its device leaves of it.
use kodi_backend_template_a.Base.{
  ℕ, ◌+◌, String, ◌≡◌, ◌≢◌, refl, sym, ◌∙◌, inl, inr, Bool, true, false, Option, none, some, List,
  [], ◌∷◌, ◌++◌, map, eq_refl, truthy_of_ne, answer, In,
}
use kodi_backend_template_a.Base.Store.{Table, KeyStore, update_row}
use kodi_backend_template_a.Rbac.Permission.{Assignment, PermissionDb}
use kodi_backend_template_a.Auth.Jwt.{Signer, JwtConfig}
use kodi_backend_template_a.Auth.Services.{User, Services}
use kodi_backend_template_a.Auth.Session.{
  Session, jwt_session, AuthState, device_key, create_audit_log, store_session, store_token,
  log_out, drop_tokens, sessions_of, revoke_where, revoke, is_active_on, is_on_device,
}
use kodi_backend_template_a.Auth.Session.Revoke.{log_out_device_keys}
use kodi_backend_template_a.Auth.Login.{
  LoginRequest, LoginAnswer, login_device, login_lifetime, is_unverified, refuse_login,
  login_stored, login_with, login_password, login_address, login_active, login_found, log_in,
}

In-map_last : {A : Type 0} (f : A → A) (xs : List A) (x : A) → f x ≡ x → In x (map f (xs ++ x ∷ []))
In-map_last f [] x same = inl (sym same)
In-map_last f (y ∷ xs) x same = inr (In-map_last f xs x same)

-- The session that a login stores.
pub login_session : ℕ → LoginRequest → User → Session
login_session now r u = record {
  id = r.session_id;
  user_id = u.id;
  token_type = jwt_session;
  device_id = none;
  device_platform = none;
  expires_at = now + login_lifetime r;
  revoked_at = none;
  created_at = now;
}

module _ (store : KeyStore String) (table : Table Session) (services : Services)
    (permissions : PermissionDb) (signer : Signer) (config : JwtConfig) where
  open store use {get}
  open table use {rows, rows-insert, rows-update}

  -- The state is the one that a login of the user stores.
  IsStored : ℕ → LoginRequest → AuthState store table → User → AuthState store table → Type 0
  IsStored now r s u t =
      (l : List Assignment) × (t
        ≡ login_stored store table services permissions signer config now r u l s)

  with-IsStored :
      (o : Option (List Assignment)) (now : ℕ) (locale : Option String) (r : LoginRequest)
      (u : User) (s : AuthState store table) (a : LoginAnswer)
      → (login_with store table services permissions signer config now locale r u o s).1 ≡ answer a
      → IsStored now r s a.user
          (login_with store table services permissions signer config now locale r u o s).0
  unfolding login_with IsStored refuse_login
  with-IsStored none now locale r u s a ok = cc
  with-IsStored (some l) now locale r u s a ok = let same : u ≡ a.user = cc in (l, rw same refl)

  password-IsStored :
      (b : Bool) (now : ℕ) (locale : Option String) (r : LoginRequest) (u : User)
      (s : AuthState store table) (a : LoginAnswer)
      → (login_password store table services permissions signer config b now locale r u s).1
        ≡ answer a
      → IsStored now r s a.user
          (login_password store table services permissions signer config b now locale r u s).0
  unfolding login_password refuse_login
  password-IsStored true now locale r u s a ok =
      with-IsStored (services.assignments u.id) now locale r u s a ok
  password-IsStored false now locale r u s a ok = cc

  address-IsStored :
      (b : Bool) (now : ℕ) (locale : Option String) (r : LoginRequest) (u : User)
      (s : AuthState store table) (a : LoginAnswer)
      → (login_address store table services permissions signer config b now locale r u s).1
        ≡ answer a
      → IsStored now r s a.user
          (login_address store table services permissions signer config b now locale r u s).0
  unfolding login_address refuse_login
  address-IsStored true now locale r u s a ok = cc
  address-IsStored false now locale r u s a ok =
      password-IsStored (services.password_matches r.password u.password) now locale r u s a ok

  active-IsStored :
      (b : Bool) (now : ℕ) (locale : Option String) (r : LoginRequest) (u : User)
      (s : AuthState store table) (a : LoginAnswer)
      → (login_active store table services permissions signer config b now locale r u s).1
        ≡ answer a
      → IsStored now r s a.user
          (login_active store table services permissions signer config b now locale r u s).0
  unfolding login_active refuse_login
  active-IsStored true now locale r u s a ok =
      address-IsStored (is_unverified u) now locale r u s a ok
  active-IsStored false now locale r u s a ok = cc

  found-IsStored :
      (o : Option (Option User)) (now : ℕ) (locale : Option String) (r : LoginRequest)
      (s : AuthState store table) (a : LoginAnswer)
      → (login_found store table services permissions signer config now locale r o s).1 ≡ answer a
      → IsStored now r s a.user
          (login_found store table services permissions signer config now locale r o s).0
  unfolding login_found refuse_login
  found-IsStored none now locale r s a ok = cc
  found-IsStored (some none) now locale r s a ok = cc
  found-IsStored (some (some u)) now locale r s a ok =
      active-IsStored u.is_active now locale r u s a ok

  -- A logout from a device does not touch a session that names no device.
  spared :
      (now later : ℕ) (r : LoginRequest) (u : User) (device : String)
      → update_row (is_active_on u.id device) (revoke later) (login_session now r u)
        ≡ login_session now r u
  unfolding is_active_on is_on_device login_session
  spared now later r u device = rw (eq_refl u.id) refl

  log_out_sessions :
      (later : ℕ) (user device : String) (s : AuthState store table)
      → device ≢ ""
      → rows (log_out store table later user (some device) s).sessions
        ≡ map (update_row (is_active_on user device) (revoke later)) (rows s.sessions)
  unfolding log_out drop_tokens sessions_of revoke_where create_audit_log
  log_out_sessions later user device s named = rw (truthy_of_ne device named, rows-update) refl

  stored_rows :
      (now : ℕ) (r : LoginRequest) (u : User) (l : List Assignment) (s : AuthState store table)
      → rows (login_stored store table services permissions signer config now r u l s).sessions
        ≡ rows s.sessions ++ login_session now r u ∷ []
  unfolding login_stored create_audit_log store_session store_token login_session
  stored_rows now r u l s = rows-insert (login_session now r u) s.sessions

  -- After a login, a logout from its device removes the refresh token of the device, but the session
  -- that the login stored is still there and not revoked.
  pub log_out-log_in :
      (now later after : ℕ) (locale : Option String) (r : LoginRequest) (s : AuthState store table)
      (a : LoginAnswer)
      → login_device r ≢ ""
      → (log_in store table services permissions signer config now locale r s).1 ≡ answer a
      → (get
            (log_out store table later a.user.id
              (some (login_device r))
              (log_in store table services permissions signer config now locale r s).0).keys
            after
            (device_key a.user.id (login_device r))
          ≡ none)
        × In (login_session now r a.user) (
            rows
              (log_out store table later a.user.id
                (some (login_device r))
                (log_in store table services permissions signer config now locale r s).0).sessions)
  unfolding log_in IsStored
  log_out-log_in now later after locale r s a named ok =
      let t = (log_in store table services permissions signer config now locale r s).0 in
      let device = login_device r in
      let (l, stored) = found-IsStored (services.find_by_email r.email) now locale r s a ok in
      (
        log_out_device_keys store table later after a.user.id device (device_key a.user.id device) t
              named
            ∙ rw (eq_refl (device_key a.user.id device)) refl,
        rw (log_out_sessions later a.user.id device t named, stored, stored_rows now r a.user l s)
            (In-map_last (update_row (is_active_on a.user.id device) (revoke later))
              (rows s.sessions) (login_session now r a.user) (spared now later r a.user device)),
      )
