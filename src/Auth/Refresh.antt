-- ===== src/Auth/Refresh.antt =====
-- `refreshTokens` of apps/auth/src/modules/auth/auth.service.ts. Every failure ends as the same
-- exception.
pub mod Rotation
use kodi_backend_template_a.Base.{
  ℕ, ◌+◌, ◌*◌, String, Bool, true, false, not, Option, none, some, List, [], ◌∷◌, ◌++◌, map, ◌&&◌,
  ◌||◌, ◌==◌, if◌then◌else◌, truthy, or_else, Reply, refuse, answer, Run, ret, throw, diverge,
}
use kodi_backend_template_a.Base.Store.{Table, KeyStore}
use kodi_backend_template_a.Rbac.Roles.{UserRole, role_name}
use kodi_backend_template_a.Rbac.Permission.{Assignment, PermissionDb, get_user_permissions}
use kodi_backend_template_a.Auth.Jwt.{
  Signer, JwtConfig, TokenPair, TokenPayload, TokenOptions, generate_token_pair,
  verify_refresh_token,
}
use kodi_backend_template_a.Auth.Services.{
  User, Services, assigned_role, city_assignment, selected_city, non_empty,
}
use kodi_backend_template_a.Auth.Session.{
  Session, refresh_session, AuthState, token_refresh, device_key, legacy_key, create_audit_log,
  store_session, store_token,
}
use kodi_backend_template_a.Auth.Login.{day}

pub data RefreshError : Type 0 where
  invalid_refresh_token : RefreshError

-- The key of a device, or of no device.
unfoldable pub token_key : String → Option String → String
token_key user device = elim (truthy device) [ none ↦ legacy_key user | some d ↦ device_key user d ]

unfoldable pub refresh_lifetime : Bool → ℕ
refresh_lifetime is_guest = if is_guest then 30 * day else 7 * day

module _ (store : KeyStore String) (table : Table Session) (services : Services)
    (permissions : PermissionDb) (signer : Signer) (config : JwtConfig) where
  open store use {Keys, get}

  -- The token under the key of the device, or else under the key without a device.
  unfoldable pub stored_token : Keys → ℕ → String → Option String → Option String
  stored_token keys now user device =
      or_else (elim (truthy device) [ none ↦ none | some d ↦ get keys now (device_key user d) ])
        (get keys now (legacy_key user))

  unfoldable pub matches_stored : Option String → String → Bool
  matches_stored stored token = elim (truthy stored) [ none ↦ false | some t ↦ t == token ]

  unfoldable pub refresh_options : Bool → Option String → User → List Assignment → TokenOptions
  refresh_options is_guest device u assigned =
      let cities = map city_assignment assigned in
      record {
        is_guest = is_guest;
        device_id = device;
        city_id = none;
        city_ids = none;
        selected_city_id = selected_city cities;
        city_assignments = non_empty cities;
        permissions =
            if is_guest
            then none
            else non_empty
                (get_user_permissions permissions (assigned_role (map (λ a. a.role) assigned)));
      }

  unfoldable pub refresh_pair : ℕ → Bool → Option String → User → List Assignment → TokenPair
  refresh_pair now is_guest device u assigned =
      generate_token_pair signer config now u.id (truthy u.email) (role_name u.role)
        (refresh_options is_guest device u assigned)

  unfoldable pub refresh_with :
      ℕ
      → String
      → Bool
      → Option String
      → User
      → Option (List Assignment)
      → AuthState store table
      → AuthState store table × Reply RefreshError TokenPair
  unfolding token_key refresh_lifetime
  refresh_with now session is_guest device u none s = (s, refuse invalid_refresh_token)
  refresh_with now session is_guest device u (some assigned) s =
      let effective = or_else device u.device_id in
      let lifetime = refresh_lifetime is_guest in
      let pair = refresh_pair now is_guest effective u assigned in
      (
        create_audit_log store table (some u.id) token_refresh true (
            store_session store table now session u.id refresh_session (now + lifetime) effective
              u.device_platform
              (store_token store table now (token_key u.id effective) lifetime pair.refresh_token
                s)),
        answer pair,
      )

  -- A guest has no assignments.
  unfoldable pub refresh_as :
      ℕ
      → String
      → TokenPayload
      → Option String
      → User
      → AuthState store table
      → AuthState store table × Reply RefreshError TokenPair
  refresh_as now session payload device u s =
      let is_guest = payload.options.is_guest || u.is_guest in
      refresh_with now session is_guest device u
        (if is_guest then some [] else services.assignments u.id) s

  -- The first argument says whether the user is active.
  unfoldable pub refresh_active :
      Bool
      → ℕ
      → String
      → TokenPayload
      → Option String
      → User
      → AuthState store table
      → AuthState store table × Reply RefreshError TokenPair
  refresh_active true now session payload device u s = refresh_as now session payload device u s
  refresh_active false now session payload device u s = (
    create_audit_log store table (some payload.sub) token_refresh false s,
    refuse invalid_refresh_token,
  )

  unfoldable pub refresh_found :
      ℕ
      → String
      → TokenPayload
      → Option String
      → Option (Option User)
      → AuthState store table
      → AuthState store table × Reply RefreshError TokenPair
  refresh_found now session payload device none s = (s, refuse invalid_refresh_token)
  refresh_found now session payload device (some none) s = (
    create_audit_log store table (some payload.sub) token_refresh false s,
    refuse invalid_refresh_token,
  )
  refresh_found now session payload device (some (some u)) s =
      refresh_active u.is_active now session payload device u s

  unfoldable pub refresh_matched :
      Bool
      → ℕ
      → String
      → TokenPayload
      → Option String
      → AuthState store table
      → AuthState store table × Reply RefreshError TokenPair
  refresh_matched true now session payload device s =
      refresh_found now session payload device (services.find_by_id payload.sub) s
  refresh_matched false now session payload device s = (s, refuse invalid_refresh_token)

  unfoldable pub refresh_verified :
      ℕ
      → String
      → String
      → Option String
      → Run TokenPayload
      → AuthState store table
      → AuthState store table × Reply RefreshError TokenPair
  unfolding refresh_matched
  refresh_verified now session token provided (ret payload) s =
      let device = or_else payload.options.device_id provided in
      refresh_matched (matches_stored (stored_token s.keys now payload.sub device) token) now
        session payload device s
  refresh_verified now session token provided _ s = (s, refuse invalid_refresh_token)

  unfoldable pub refresh_tokens :
      ℕ
      → String
      → String
      → Option String
      → AuthState store table
      → AuthState store table × Reply RefreshError TokenPair
  unfolding refresh_verified
  refresh_tokens now session token provided s =
      refresh_verified now session token provided (verify_refresh_token signer config now token) s
