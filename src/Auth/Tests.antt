-- ===== src/Auth/Tests.antt =====
-- Runs of auth.service.ts and jwt.service.ts, and the theorems at concrete inputs: one user with one
-- device, who logs in at second 100.
use kodi_backend_template_a.Base.{
  ℕ, String, ◌≡◌, ◌≢◌, ◌⊎◌, ◌↔◌, subst, Bool, ◌∷◌, refl, ne_of_==, eq_of_==, sym, inl, inr,
  Bool-cases, true, false, ◌&&◌, Option, none, some, [], arith, nat_eq, ◌==◌, if◌then◌else◌, ret,
  throw, refuse, answer, In,
}
use kodi_backend_template_a.Base.Store.{Table, list_table, KeyStore, function_store}
use kodi_backend_template_a.Rbac.Roles.{
  role_to_number, claimed_role, city_admin_name, super_name, city_admin, citizen, text,
  number_to_role,
}
use kodi_backend_template_a.Rbac.Hierarchy.{CityDb}
use kodi_backend_template_a.Rbac.Permission.{PermissionDb, get_user_city_assignments}
use kodi_backend_template_a.Auth.Jwt.{
  Signer, JwtConfig, TokenPair, TokenPayload, TokenOptions, refresh, access, payload_of,
  generate_token_pair, verify_refresh_token, verify_refresh_token-generate_token_pair,
}
use kodi_backend_template_a.Auth.Services.{check_terms_acceptance, User, Services, nothing_required}
use kodi_backend_template_a.Auth.Session.{
  store_token, store_session, create_audit_log, Session, AuthState, device_key, log_out,
  get_sessions,
}
use kodi_backend_template_a.Auth.Session.Revoke.{log_out_everywhere}
use kodi_backend_template_a.Auth.Login.{
  login_active, login_address, is_unverified, login_password, login_with, login_tokens, login_found,
  login_stored, login_lifetime, LoginRequest, LoginAnswer, log_in, login_device,
}
use kodi_backend_template_a.Auth.Login.Checks.{EndsWell, log_in-EndsWell}
use kodi_backend_template_a.Auth.Login.Logout.{login_session, log_out-log_in}
use kodi_backend_template_a.Auth.Refresh.{
  refresh_verified, refresh_matched, refresh_found, refresh_active, refresh_as, refresh_with,
  refresh_pair, refresh_options, matches_stored, matches_stored, stored_token, token_key,
  refresh_lifetime, refresh_tokens, invalid_refresh_token,
}
use kodi_backend_template_a.Auth.Refresh.Rotation.{
  refresh_tokens-refresh_tokens, refresh_tokens_legacy,
}
use kodi_backend_template_a.Auth.Guest.{ConvertRequest}
use kodi_backend_template_a.Rbac.Hierarchy.Children.{IsForest}
use kodi_backend_template_a.Rbac.Permission.Admins.{ManagesAdmins}
use kodi_backend_template_a.Auth.Admins.Granted.{HasRight, outcome, assign_city_admin-ManagesAdmins}
use kodi_backend_template_a.Auth.Admins.{AssignRequest, normalized_role, assign_city_admin}

abbrev user : Option String → User
user device = record {
  id = "u";
  email = some "a@b.de";
  password = "hash";
  role = citizen;
  is_active = true;
  email_verified = true;
  is_guest = false;
  device_id = device;
  device_platform = none;
}

abbrev services : Option String → Services
services device = record {
  find_by_email = λ e. if e == "a@b.de" then some (some (user device)) else some none;
  find_by_id = λ i. if i == "u" then some (some (user device)) else some none;
  find_by_device = λ d p. some none;
  create_guest = λ d p. none;
  convert_guest = λ i e p. some (user device);
  assignments = λ i. some [];
  password_matches = λ p h. p == "secret";
  check_acceptance = λ i l c. none;
  latest_terms = λ l c. none;
}

abbrev permissions : PermissionDb
permissions = record {
  assignments = λ u. some [];
  grants = λ r a role. some none;
  permissions_of = λ r. some [];
  all_permissions = some [];
}

abbrev options : Option String → TokenOptions
options device = record {
  is_guest = false;
  device_id = device;
  city_id = none;
  city_ids = none;
  selected_city_id = none;
  city_assignments = none;
  permissions = none;
}

abbrev payload : Option String → TokenPayload
payload device = record {
  sub = "u";
  email = some "a@b.de";
  role = 3;
  type = refresh;
  options = options device;
}

-- A token is named for its time; every name but the empty one is taken for a valid refresh token.
abbrev signer : Option String → Signer
signer device = record {
  sign = λ secret lifetime now p. if nat_eq now 100 then "first" else "second";
  check = λ secret now t. if t == "" then none else some (payload device);
}

abbrev config : JwtConfig
config = record {
  access_secret = "a";
  refresh_secret = "r";
  access_expiry = 900;
  refresh_expiry = 604800;
}

abbrev store : KeyStore String
store = function_store String (λ p k. p == "refresh_token:u:*" && k == "refresh_token:u:d")

abbrev table : Table Session
table = list_table Session

abbrev empty : AuthState store table
empty = record { keys = λ k t. none; sessions = []; audit = []; resent = [] }

abbrev request : LoginRequest
request = record {
  email = "a@b.de";
  password = "secret";
  remember_me = false;
  device_id = some "d";
  new_device = "n";
  session_id = "s";
}

abbrev logged_in : AuthState store table
logged_in =
    (log_in store table (services none) permissions (signer (some "d")) config 100 none request
      empty).0

log_in-EndsWell_example :
    EndsWell store table
      (services none)
      permissions
      (signer none)
      config
      request
      empty
      (log_in store table (services none) permissions (signer none) config 100 none request empty)
log_in-EndsWell_example =
    log_in-EndsWell store table (services none) permissions (signer none) config 100 none request
      empty

log_out_everywhere_example :
    (get_sessions store table "u" (log_out store table 200 "u" none logged_in) ≡ [])
    × ((log_out store table 200 "u" none logged_in).keys "refresh_token:u:d" 300 ≡ none)
    × ((log_out store table 200 "u" none logged_in).keys "refresh_token:u" 300 ≡ none)
log_out_everywhere_example =
    log_out_everywhere store table 200 300 "u" "refresh_token:u:d" logged_in refl

abbrev d : String
d = "d"

abbrev blank : String
blank = ""

d_named : d ≢ blank
d_named = ne_of_== d blank refl

abbrev first_pair : TokenPair
first_pair = record { access_token = "first"; refresh_token = "first"; expires_in = 900 }

abbrev second_pair : TokenPair
second_pair = record { access_token = "second"; refresh_token = "second"; expires_in = 900 }

abbrev answered : LoginAnswer
answered = record { user = user none; role = 3; tokens = first_pair; terms = nothing_required }

let_in :
    (log_in store table
      (services none)
      permissions
      (signer (some "d"))
      config
      100
      none
      request
      empty).1
    ≡ answer answered
unfolding log_in login_active login_address is_unverified login_password login_with role_to_number
    login_tokens check_terms_acceptance generate_token_pair
let_in = refl

device_of_request : login_device request ≢ blank
unfolding login_device
device_of_request = d_named

log_out-log_in_example :
    ((log_out store table 200 "u" (some (login_device request)) logged_in).keys
        (device_key "u" (login_device request))
        300
      ≡ none)
    × In
        (login_session 100 request (user none))
        (log_out store table 200 "u" (some (login_device request)) logged_in).sessions
log_out-log_in_example =
    log_out-log_in store table (services none) permissions (signer (some "d")) config 100 200 300
      none request empty answered device_of_request let_in

by_id :
    (device : Option String) (id : String) (u : User)
    → (services device).find_by_id id ≡ some (some u)
    → u.id ≡ id
by_id device id u h = elim (Bool-cases (id == "u")) [
  | inl hit ↦
      let got : some (some (user device)) ≡ some (some u) = cc (hit, h) in
      let same : user device ≡ u = cc in rw (sym same, eq_of_== id "u" hit) refl
  | inr miss ↦ cc (miss, h)
]

valid :
    (device : Option String) (now : ℕ)
    → verify_refresh_token (signer device) config now "first" ≡ ret (payload device)
unfolding verify_refresh_token
valid device now = refl

refreshed :
    (refresh_tokens store table
      (services none)
      permissions
      (signer (some "d"))
      config
      200
      "s2"
      "first"
      none
      logged_in).1
    ≡ answer second_pair
unfolding refresh_tokens refresh_verified refresh_matched refresh_found refresh_active refresh_as
    refresh_with refresh_pair refresh_options matches_stored stored_token verify_refresh_token
    generate_token_pair token_key refresh_lifetime log_in login_active login_address is_unverified
    login_password login_with login_tokens login_found login_stored login_device login_lifetime
    store_token store_session create_audit_log
refreshed = refl

abbrev second : String
second = "second"

abbrev first : String
first = "first"

refresh_tokens-refresh_tokens_example :
    refresh_tokens store table
      (services none)
      permissions
      (signer (some "d"))
      config
      300
      "s3"
      "first"
      none
      (refresh_tokens store table
        (services none)
        permissions
        (signer (some "d"))
        config
        200
        "s2"
        "first"
        none
        logged_in).0
    ≡ (
      (refresh_tokens store table
          (services none)
          permissions
          (signer (some "d"))
          config
          200
          "s2"
          "first"
          none
          logged_in).0,
      refuse invalid_refresh_token,
    )
refresh_tokens-refresh_tokens_example =
    refresh_tokens-refresh_tokens store table (services none) permissions (signer (some "d")) config
      200 300 "s2" "s3" "first" "d" none none logged_in (payload (some "d")) second_pair
      (by_id none) (valid (some "d") 200) (valid (some "d") 300) refl d_named
      (ne_of_== second blank refl) (ne_of_== second first refl) (omega arith) refreshed

-- A state in which a token without a device is stored.
abbrev old_fashioned : AuthState store table
old_fashioned = record empty { keys = λ k t. if k == "refresh_token:u" then some "first" else none }

refreshed_nameless :
    (refresh_tokens store table
      (services (some "d"))
      permissions
      (signer none)
      config
      200
      "s2"
      "first"
      none
      old_fashioned).1
    ≡ answer second_pair
unfolding refresh_tokens refresh_verified refresh_matched refresh_found refresh_active refresh_as
    refresh_with refresh_pair refresh_options matches_stored stored_token verify_refresh_token
    generate_token_pair token_key refresh_lifetime
refreshed_nameless = refl

refresh_tokens_legacy_example :
    (refresh_tokens store table
        (services (some "d"))
        permissions
        (signer none)
        config
        200
        "s2"
        "first"
        none
        old_fashioned).0.keys
      "refresh_token:u" 300
    ≡ some "first"
refresh_tokens_legacy_example =
    refresh_tokens_legacy store table (services (some "d")) permissions (signer none) config 200 300
      "s2" "first" "d" none old_fashioned (payload none) (user (some "d")) second_pair refl refl
      (valid none 200) refl refl d_named refreshed_nameless

abbrev conversion : ConvertRequest
conversion = record { guest_user_id = "u"; email = "a@b.de"; password = "secret"; session_id = "s" }

abbrev cities : CityDb
cities = record { children = λ c. some []; city = λ c. some none }

abbrev assignment : AssignRequest
assignment = record { user_id = "u"; city_id = "koln"; role = 2 }

flat-IsForest : IsForest cities (λ c. 0)
flat-IsForest = record {
  answers = λ a. ([], refl);
  falls = λ a b kids e m.
      let none_below : kids ≡ [] = cc in absurd (subst (λ ks. In b ks) none_below m);
}

-- The requester manages the admins of one city, and has another city without the right.
abbrev managing : PermissionDb
managing = record permissions {
  assignments = λ u. some (
      record { city_id = "bonn"; role = city_admin; can_manage_admins = false }
      ∷ record { city_id = "koln"; role = city_admin; can_manage_admins = true }
      ∷ []);
}

named_admin :
    normalized_role
      (services none)
      (λ c. some "id")
      5
      managing
      cities
      (some (text "CITY_ADMIN"))
      "boss"
    ≡ answer "CITY_ADMIN"
unfolding normalized_role claimed_role
named_admin = refl

assign_city_admin-ManagesAdmins_example :
    (allowed : Bool) × (grant : Bool) × (assign_city_admin
        (services none)
        (λ c. some "id")
        5
        managing
        cities
        (some (text "CITY_ADMIN"))
        "boss"
        assignment
      ≡ ret (outcome allowed grant "boss" assignment))
    × ((allowed ≡ true) ↔ (
        (city_admin_name ≡ super_name)
        ⊎ ManagesAdmins cities (get_user_city_assignments managing "boss") "koln"))
    × ((grant ≡ true) ↔ (
        (number_to_role 2 ≡ city_admin)
        × ((city_admin_name ≡ super_name)
            ⊎ HasRight "koln" (get_user_city_assignments managing "boss"))))
assign_city_admin-ManagesAdmins_example =
    assign_city_admin-ManagesAdmins (services none) (λ c. some "id") 5 managing cities (λ c. 0)
      flat-IsForest (λ c. omega arith) (some (text "CITY_ADMIN")) "boss" "CITY_ADMIN" assignment
      (user none) named_admin refl (λ c. ("id", refl))

abbrev with_device : TokenOptions
with_device = options (some "d")

-- A library that returns whatever was signed last.
abbrev echo : Signer
echo = record {
  sign = λ secret lifetime now p. secret;
  check = λ secret now t.
      if t == "r"
      then some (payload_of "u" none "CITIZEN" refresh with_device)
      else some (payload_of "u" none "CITIZEN" access with_device);
}

verify_refresh_token-generate_token_pair_example :
    (verify_refresh_token echo config 200
        (generate_token_pair echo config 100 "u" none "CITIZEN" with_device).refresh_token
      ≡ ret (payload_of "u" none "CITIZEN" refresh with_device))
    × (verify_refresh_token echo config 200
          (generate_token_pair echo config 100 "u" none "CITIZEN" with_device).access_token
        ≡ throw)
verify_refresh_token-generate_token_pair_example =
    verify_refresh_token-generate_token_pair echo config 100 200 "u" "CITIZEN" none with_device refl
      refl
