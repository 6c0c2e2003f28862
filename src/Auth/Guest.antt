-- ===== src/Auth/Guest.antt =====
-- `createGuestSession` and `convertGuestToRegistered` of apps/auth/src/modules/auth/auth.service.ts.
use kodi_backend_template_a.Base.{
  ℕ, ◌+◌, ◌*◌, String, ◌≡◌, refl, sym, ◌∙◌, Bool, true, false, Option, none, some, List, [], map,
  ◌==◌, ==_of_ne, Reply, refuse, answer,
}
use kodi_backend_template_a.Base.Store.{Table, KeyStore}
use kodi_backend_template_a.Rbac.Roles.{citizen, role_name, role_to_number}
use kodi_backend_template_a.Rbac.Permission.{Assignment, PermissionDb, get_user_permissions}
use kodi_backend_template_a.Auth.Jwt.{Signer, JwtConfig, TokenPair, generate_token_pair}
use kodi_backend_template_a.Auth.Services.{
  User, Services, TermsInfo, city_assignment, selected_city, non_empty, check_terms_acceptance,
}
use kodi_backend_template_a.Auth.Session.{
  Session, jwt_session, AuthState, login, registration_attempt, device_key, legacy_key,
  create_audit_log, store_session, store_token,
}
use kodi_backend_template_a.Auth.Session.Revoke.{device_key_ne}
use kodi_backend_template_a.Auth.Login.{day}

pub data GuestError : Type 0 where
  guest_unavailable invalid_guest conversion_failed : GuestError

pub record GuestRequest : Type 0 where
  pub device_id : String
  pub device_platform : String
  pub session_id : String

pub record GuestAnswer : Type 0 where
  pub user : User
  pub tokens : TokenPair
  pub terms : TermsInfo

pub record ConvertRequest : Type 0 where
  pub guest_user_id : String
  pub email : String
  pub password : String
  pub session_id : String

pub record ConvertAnswer : Type 0 where
  pub user : User
  pub role : ℕ
  pub tokens : TokenPair

-- A missing device is written into the key as the text of `null`.
device_text : Option String → String
device_text none = "null"
device_text (some d) = d

module _ (store : KeyStore String) (table : Table Session) (services : Services)
    (permissions : PermissionDb) (signer : Signer) (config : JwtConfig) where
  open store use {get, setex, get-setex}

  guest_tokens : ℕ → User → TokenPair
  guest_tokens now u = generate_token_pair signer config now u.id none (role_name citizen) (record {
    is_guest = true;
    device_id = u.device_id;
    city_id = none;
    city_ids = none;
    selected_city_id = none;
    city_assignments = none;
    permissions = none;
  })

  guest_stored : ℕ → GuestRequest → User → AuthState store table → AuthState store table
  unfolding device_text guest_tokens
  guest_stored now r u s = create_audit_log store table (some u.id) login true (
      store_session store table now r.session_id u.id jwt_session (now + 30 * day)
        (some r.device_id) (some r.device_platform)
        (store_token store table now (device_key u.id (device_text u.device_id)) (30 * day)
          (guest_tokens now u).refresh_token s))

  guest_with :
      ℕ
      → GuestRequest
      → Option User
      → AuthState store table
      → AuthState store table × Reply GuestError GuestAnswer
  guest_with now r none s = (s, refuse guest_unavailable)
  guest_with now r (some u) s = (
    guest_stored now r u s,
    answer (record {
      user = u;
      tokens = guest_tokens now u;
      terms = check_terms_acceptance services u.id [] none;
    }),
  )

  -- The guest of the device is used again, or a new one is created.
  guest_of : GuestRequest → Option (Option User) → Option User
  guest_of r none = none
  guest_of r (some none) = services.create_guest r.device_id r.device_platform
  guest_of r (some (some u)) = some u

  pub create_guest_session :
      ℕ
      → GuestRequest
      → AuthState store table
      → AuthState store table × Reply GuestError GuestAnswer
  unfolding guest_with guest_stored guest_of
  create_guest_session now r s =
      guest_with now r (guest_of r (services.find_by_device r.device_id r.device_platform)) s

  -- A failed question for assignments counts as none.
  converted_assignments : Option (List Assignment) → List Assignment
  converted_assignments none = []
  converted_assignments (some l) = l

  convert_tokens : ℕ → User → List Assignment → TokenPair
  convert_tokens now u assigned =
      let cities = map city_assignment assigned in
      generate_token_pair signer config now u.id u.email (role_name u.role) (record {
        is_guest = false;
        device_id = none;
        city_id = none;
        city_ids = none;
        selected_city_id = selected_city cities;
        city_assignments = non_empty cities;
        permissions = non_empty (get_user_permissions permissions u.role);
      })

  convert_with :
      ℕ
      → ConvertRequest
      → Option User
      → AuthState store table
      → AuthState store table × Reply GuestError ConvertAnswer
  unfolding converted_assignments convert_tokens
  convert_with now r none s = (s, refuse conversion_failed)
  convert_with now r (some u) s =
      let pair = convert_tokens now u (converted_assignments (services.assignments u.id)) in
      (
        create_audit_log store table (some u.id) registration_attempt true (
            store_session store table now r.session_id u.id jwt_session (now + 7 * day) none none
              (store_token store table now (legacy_key u.id) (7 * day) pair.refresh_token s)),
        answer (record { user = u; role = role_to_number (role_name u.role); tokens = pair }),
      )

  convert_checked :
      Bool
      → ℕ
      → ConvertRequest
      → AuthState store table
      → AuthState store table × Reply GuestError ConvertAnswer
  unfolding convert_with
  convert_checked true now r s =
      convert_with now r (services.convert_guest r.guest_user_id r.email r.password) s
  convert_checked false now r s = (s, refuse invalid_guest)

  convert_found :
      ℕ
      → ConvertRequest
      → Option (Option User)
      → AuthState store table
      → AuthState store table × Reply GuestError ConvertAnswer
  unfolding convert_checked
  convert_found now r none s = (s, refuse conversion_failed)
  convert_found now r (some none) s = (s, refuse invalid_guest)
  convert_found now r (some (some u)) s = convert_checked u.is_guest now r s

  pub convert_guest_to_registered :
      ℕ
      → ConvertRequest
      → AuthState store table
      → AuthState store table × Reply GuestError ConvertAnswer
  unfolding convert_found
  convert_guest_to_registered now r s = convert_found now r (services.find_by_id r.guest_user_id) s

  with_device_keys :
      (o : Option User) (now later : ℕ) (r : ConvertRequest) (s : AuthState store table)
      (user device : String)
      → ((u : User) → o ≡ some u → u.id ≡ user)
      → get (convert_with now r o s).0.keys later (device_key user device)
        ≡ get s.keys later (device_key user device)
  unfolding convert_with create_audit_log store_session store_token
  with_device_keys none now later r s user device h = refl
  with_device_keys (some u) now later r s user device h =
      let pair = convert_tokens now u (converted_assignments (services.assignments u.id)) in
      let apart : (legacy_key u.id == device_key user device) ≡ false = rw (h u refl) (
        ==_of_ne (legacy_key user) (device_key user device)
          (λ e. device_key_ne user device (sym e))) in
      get-setex s.keys now later (7 * day) (legacy_key u.id) (device_key user device)
        pair.refresh_token
      ∙ rw apart refl

  checked_device_keys :
      (b : Bool) (now later : ℕ) (r : ConvertRequest) (s : AuthState store table) (device : String)
      → ((u : User)
          → services.convert_guest r.guest_user_id r.email r.password ≡ some u
          → u.id ≡ r.guest_user_id)
      → get (convert_checked b now r s).0.keys later (device_key r.guest_user_id device)
        ≡ get s.keys later (device_key r.guest_user_id device)
  unfolding convert_checked
  checked_device_keys true now later r s device h =
      with_device_keys (services.convert_guest r.guest_user_id r.email r.password) now later r s
        r.guest_user_id device h
  checked_device_keys false now later r s device h = refl

  found_device_keys :
      (o : Option (Option User)) (now later : ℕ) (r : ConvertRequest) (s : AuthState store table)
      (device : String)
      → ((u : User)
          → services.convert_guest r.guest_user_id r.email r.password ≡ some u
          → u.id ≡ r.guest_user_id)
      → get (convert_found now r o s).0.keys later (device_key r.guest_user_id device)
        ≡ get s.keys later (device_key r.guest_user_id device)
  unfolding convert_found
  found_device_keys none now later r s device h = refl
  found_device_keys (some none) now later r s device h = refl
  found_device_keys (some (some u)) now later r s device h =
      checked_device_keys u.is_guest now later r s device h

  -- The conversion of a guest leaves the guest's refresh tokens as they were, where the account keeps
  -- its id.
  pub convert_guest_to_registered-get :
      (now later : ℕ) (r : ConvertRequest) (s : AuthState store table) (device : String)
      → ((u : User)
          → services.convert_guest r.guest_user_id r.email r.password ≡ some u
          → u.id ≡ r.guest_user_id)
      → get (convert_guest_to_registered now r s).0.keys later (device_key r.guest_user_id device)
        ≡ get s.keys later (device_key r.guest_user_id device)
  unfolding convert_guest_to_registered
  convert_guest_to_registered-get now later r s device h =
      found_device_keys (services.find_by_id r.guest_user_id) now later r s device h
