-- ===== src/Auth/Login/Checks.antt =====
-- Who is let in by `login` of auth.service.ts, and what it leaves behind.
use kodi_backend_template_a.Base.{
  ℕ, String, ◌≡◌, refl, Bool, true, false, Option, none, some, List, [], ◌∷◌, ◌++◌, Reply, refuse,
  answer,
}
use kodi_backend_template_a.Base.Store.{Table, KeyStore}
use kodi_backend_template_a.Rbac.Permission.{Assignment, PermissionDb}
use kodi_backend_template_a.Auth.Jwt.{Signer, JwtConfig}
use kodi_backend_template_a.Auth.Services.{User, Services}
use kodi_backend_template_a.Auth.Session.{Session, AuthState, login, create_audit_log}
use kodi_backend_template_a.Auth.Login.{
  LoginRequest, LoginAnswer, LoginError, account_not_found, account_inactive,
  email_verification_required, invalid_credentials, login_error, is_unverified, refuse_login,
  login_with, login_password, login_address, login_active, login_found, log_in,
}

module _ (store : KeyStore String) (table : Table Session) (services : Services)
    (permissions : PermissionDb) (signer : Signer) (config : JwtConfig) where
  open store use {Keys, get, setex, del, get-setex, get-del}
  open table use {rows, insert, rows-insert, rows-update}

  -- A user who may log in with a request.
  pub MayLogIn : LoginRequest → User → Type 0
  MayLogIn r u =
      (services.find_by_email r.email ≡ some (some u))
      × (u.is_active ≡ true)
      × (is_unverified u ≡ false)
      × (services.password_matches r.password u.password ≡ true)

  -- What stands behind each exception of a login.
  pub data Hindrance (r : LoginRequest) : LoginError → Type 0 where
    unknown : services.find_by_email r.email ≡ some none → Hindrance r account_not_found
    inactive :
        (u : User)
        → services.find_by_email r.email ≡ some (some u)
        → u.is_active ≡ false
        → Hindrance r account_inactive
    unverified :
        (u : User)
        → services.find_by_email r.email ≡ some (some u)
        → u.is_active ≡ true
        → is_unverified u ≡ true
        → Hindrance r email_verification_required
    mismatched :
        (u : User)
        → services.find_by_email r.email ≡ some (some u)
        → services.password_matches r.password u.password ≡ false
        → Hindrance r invalid_credentials
    lookup_failed : services.find_by_email r.email ≡ none → Hindrance r login_error
    assignments_failed :
        (u : User) → MayLogIn r u → services.assignments u.id ≡ none → Hindrance r login_error

  -- How a call of `login` ends: it lets a user in, or it has a reason, changes no token and no
  -- session, and adds one failed entry to the audit log.
  unfoldable pub EndsWell :
      LoginRequest
      → AuthState store table
      → AuthState store table × Reply LoginError LoginAnswer
      → Type 0
  EndsWell r s (t, refuse e) =
      Hindrance r e
      × (t.keys ≡ s.keys)
      × (t.sessions ≡ s.sessions)
      × ((user : Option String) × (t.audit
            ≡ s.audit ++ record { user_id = user; action = login; success = false } ∷ []))
  EndsWell r s (t, answer a) = MayLogIn r a.user

  with_EndsWell :
      (o : Option (List Assignment)) (now : ℕ) (locale : Option String) (r : LoginRequest)
      (u : User) (s : AuthState store table)
      → MayLogIn r u
      → services.assignments u.id ≡ o
      → EndsWell r s (login_with store table services permissions signer config now locale r u o s)
  unfolding EndsWell login_with refuse_login create_audit_log
  with_EndsWell none now locale r u s may e = (assignments_failed u may e, refl, refl, (none, refl))
  with_EndsWell (some l) now locale r u s may e = may

  password_EndsWell :
      (b : Bool) (now : ℕ) (locale : Option String) (r : LoginRequest) (u : User)
      (s : AuthState store table)
      → services.find_by_email r.email ≡ some (some u)
      → u.is_active ≡ true
      → is_unverified u ≡ false
      → services.password_matches r.password u.password ≡ b
      → EndsWell r s
          (login_password store table services permissions signer config b now locale r u s)
  unfolding EndsWell login_password refuse_login create_audit_log MayLogIn
  password_EndsWell true now locale r u s found active plain e =
      with_EndsWell (services.assignments u.id) now locale r u s (found, active, plain, e) refl
  password_EndsWell false now locale r u s found active plain e =
      (mismatched u found e, refl, refl, (some u.id, refl))

  address_EndsWell :
      (b : Bool) (now : ℕ) (locale : Option String) (r : LoginRequest) (u : User)
      (s : AuthState store table)
      → services.find_by_email r.email ≡ some (some u)
      → u.is_active ≡ true
      → is_unverified u ≡ b
      → EndsWell r s
          (login_address store table services permissions signer config b now locale r u s)
  unfolding EndsWell login_address refuse_login create_audit_log
  address_EndsWell true now locale r u s found active e =
      (unverified u found active e, refl, refl, (some u.id, refl))
  address_EndsWell false now locale r u s found active e =
      password_EndsWell (services.password_matches r.password u.password) now locale r u s found
        active e refl

  active_EndsWell :
      (b : Bool) (now : ℕ) (locale : Option String) (r : LoginRequest) (u : User)
      (s : AuthState store table)
      → services.find_by_email r.email ≡ some (some u)
      → u.is_active ≡ b
      → EndsWell r s
          (login_active store table services permissions signer config b now locale r u s)
  unfolding EndsWell login_active refuse_login create_audit_log
  active_EndsWell true now locale r u s found e =
      address_EndsWell (is_unverified u) now locale r u s found e refl
  active_EndsWell false now locale r u s found e =
      (inactive u found e, refl, refl, (some u.id, refl))

  found_EndsWell :
      (o : Option (Option User)) (now : ℕ) (locale : Option String) (r : LoginRequest)
      (s : AuthState store table)
      → services.find_by_email r.email ≡ o
      → EndsWell r s (login_found store table services permissions signer config now locale r o s)
  unfolding EndsWell login_found refuse_login create_audit_log
  found_EndsWell none now locale r s e = (lookup_failed e, refl, refl, (none, refl))
  found_EndsWell (some none) now locale r s e = (unknown e, refl, refl, (none, refl))
  found_EndsWell (some (some u)) now locale r s e =
      active_EndsWell u.is_active now locale r u s e refl

  -- A login lets in only the user with that address, who is active, whose address is verified or
  -- empty, and whose password matches. It is refused only with an exception that tells what is
  -- missing of these, or that a call of another service failed; then no token and no session has
  -- changed, and the audit log has gained exactly one failed entry.
  pub log_in-EndsWell :
      (now : ℕ) (locale : Option String) (r : LoginRequest) (s : AuthState store table)
      → EndsWell r s (log_in store table services permissions signer config now locale r s)
  unfolding log_in
  log_in-EndsWell now locale r s =
      found_EndsWell (services.find_by_email r.email) now locale r s refl
