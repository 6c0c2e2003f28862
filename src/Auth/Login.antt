-- ===== src/Auth/Login.antt =====
-- `login` of apps/auth/src/modules/auth/auth.service.ts.
pub mod Checks
pub mod Logout
use kodi_backend_template_a.Base.{
  ℕ, ◌+◌, ◌*◌, String, Bool, true, false, not, Option, none, some, List, [], ◌∷◌, ◌++◌, map, ◌&&◌,
  ◌||◌, if◌then◌else◌, truthy, or_else, Reply, refuse, answer,
}
use kodi_backend_template_a.Base.Store.{Table, KeyStore}
use kodi_backend_template_a.Rbac.Roles.{UserRole, role_name, role_to_number}
use kodi_backend_template_a.Rbac.Permission.{Assignment, PermissionDb, get_user_permissions}
use kodi_backend_template_a.Auth.Jwt.{
  Signer, JwtConfig, TokenPair, TokenOptions, generate_token_pair,
}
use kodi_backend_template_a.Auth.Services.{
  User, Services, TermsInfo, effective_role, city_assignment, selected_city, non_empty,
  check_terms_acceptance,
}
use kodi_backend_template_a.Auth.Session.{
  Session, SessionType, jwt_session, AuthState, login, device_key, create_audit_log, store_session,
  store_token,
}

pub data LoginError : Type 0 where
  account_not_found account_inactive email_verification_required invalid_credentials login_error :
      LoginError

-- `LoginDto`, with the device's name and the session's id that are drawn for it.
pub record LoginRequest : Type 0 where
  pub email : String
  pub password : String
  pub remember_me : Bool
  pub device_id : Option String
  pub new_device : String
  pub session_id : String

pub record LoginAnswer : Type 0 where
  pub user : User
  pub role : ℕ
  pub tokens : TokenPair
  pub terms : TermsInfo

abbrev pub day : ℕ
day = 24 * 3600

unfoldable pub login_device : LoginRequest → String
login_device r = elim (truthy r.device_id) [ none ↦ r.new_device | some d ↦ d ]

unfoldable pub login_lifetime : LoginRequest → ℕ
login_lifetime r = if r.remember_me then 30 * day else 7 * day

-- An account with an address is let in only when the address is verified.
unfoldable pub is_unverified : User → Bool
is_unverified u = elim (truthy u.email) [ none ↦ false | some e ↦ not u.email_verified ]

module _ (store : KeyStore String) (table : Table Session) (services : Services)
    (permissions : PermissionDb) (signer : Signer) (config : JwtConfig) where
  unfoldable pub login_tokens : ℕ → LoginRequest → User → List Assignment → TokenPair
  login_tokens now r u assigned =
      let cities = map city_assignment assigned in
      generate_token_pair signer config now u.id u.email (role_name u.role) (record {
        is_guest = false;
        device_id = some (login_device r);
        city_id = none;
        city_ids = none;
        selected_city_id = selected_city cities;
        city_assignments = non_empty cities;
        permissions =
            non_empty (
              get_user_permissions permissions
                (effective_role u.role (map (λ a. a.role) assigned)));
      })

  pub refuse_login :
      Option String
      → LoginError
      → AuthState store table
      → AuthState store table × Reply LoginError LoginAnswer
  refuse_login user e s = (create_audit_log store table user login false s, refuse e)

  -- The session is stored without a device: its device is only in the metadata.
  unfoldable pub login_stored :
      ℕ → LoginRequest → User → List Assignment → AuthState store table → AuthState store table
  unfolding login_device login_lifetime login_tokens
  login_stored now r u assigned s = create_audit_log store table (some u.id) login true (
      store_session store table now r.session_id u.id jwt_session (now + login_lifetime r) none none
        (store_token store table now (device_key u.id (login_device r)) (login_lifetime r)
          (login_tokens now r u assigned).refresh_token s))

  unfoldable pub login_with :
      ℕ
      → Option String
      → LoginRequest
      → User
      → Option (List Assignment)
      → AuthState store table
      → AuthState store table × Reply LoginError LoginAnswer
  login_with now locale r u none s = refuse_login none login_error s
  login_with now locale r u (some assigned) s = (
    login_stored now r u assigned s,
    answer (record {
      user = u;
      role = role_to_number (role_name u.role);
      tokens = login_tokens now r u assigned;
      terms = check_terms_acceptance services u.id (map city_assignment assigned) locale;
    }),
  )

  -- The first argument of each check is its test.
  unfoldable pub login_password :
      Bool
      → ℕ
      → Option String
      → LoginRequest
      → User
      → AuthState store table
      → AuthState store table × Reply LoginError LoginAnswer
  login_password true now locale r u s = login_with now locale r u (services.assignments u.id) s
  login_password false now locale r u s = refuse_login (some u.id) invalid_credentials s

  unfoldable pub login_address :
      Bool
      → ℕ
      → Option String
      → LoginRequest
      → User
      → AuthState store table
      → AuthState store table × Reply LoginError LoginAnswer
  login_address true now locale r u s =
      refuse_login (some u.id) email_verification_required
        (record s { resent = s.resent ++ u.id ∷ [] })
  login_address false now locale r u s =
      login_password (services.password_matches r.password u.password) now locale r u s

  unfoldable pub login_active :
      Bool
      → ℕ
      → Option String
      → LoginRequest
      → User
      → AuthState store table
      → AuthState store table × Reply LoginError LoginAnswer
  login_active true now locale r u s = login_address (is_unverified u) now locale r u s
  login_active false now locale r u s = refuse_login (some u.id) account_inactive s

  unfoldable pub login_found :
      ℕ
      → Option String
      → LoginRequest
      → Option (Option User)
      → AuthState store table
      → AuthState store table × Reply LoginError LoginAnswer
  login_found now locale r none s = refuse_login none login_error s
  login_found now locale r (some none) s = refuse_login none account_not_found s
  login_found now locale r (some (some u)) s = login_active u.is_active now locale r u s

  unfoldable pub log_in :
      ℕ
      → Option String
      → LoginRequest
      → AuthState store table
      → AuthState store table × Reply LoginError LoginAnswer
  unfolding login_found
  log_in now locale r s = login_found now locale r (services.find_by_email r.email) s
