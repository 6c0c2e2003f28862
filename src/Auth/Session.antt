-- ===== src/Auth/Session.antt =====
-- The sessions and refresh tokens of apps/auth/src/modules/auth/auth.service.ts: logout and revocation.
pub mod Revoke
use Prim.Native.String
use kodi_backend_template_a.Base.{
  ℕ, ◌+◌, ◌*◌, String, Bool, true, false, Option, none, some, List, [], ◌∷◌, ◌++◌, ◌&&◌, ◌==◌, not,
  leb, if◌then◌else◌, truthy, filter, find?, length, Reply, refuse, answer,
}
use kodi_backend_template_a.Base.Store.{Table, KeyStore}

-- The types of sessions that the service stores.
pub data SessionType : Type 0 where
  jwt_session refresh_session : SessionType

pub record Session : Type 0 where
  pub id : String
  pub user_id : String
  pub token_type : SessionType
  pub device_id : Option String
  pub device_platform : Option String
  pub expires_at : ℕ
  pub revoked_at : Option ℕ
  pub created_at : ℕ

pub data AuthAction : Type 0 where
  login logout token_refresh registration_attempt : AuthAction

pub record AuditEntry : Type 0 where
  pub user_id : Option String
  pub action : AuthAction
  pub success : Bool

abbrev pub device_key : String → String → String
device_key user device = String.◌++◌ "refresh_token:" (String.◌++◌ user (String.◌++◌ ":" device))

abbrev pub legacy_key : String → String
legacy_key user = String.◌++◌ "refresh_token:" user

-- The pattern of `refresh_token:<user>:*`.
abbrev pub device_pattern : String → String
device_pattern user = String.◌++◌ "refresh_token:" (String.◌++◌ user ":*")

pub is_absent : {A : Type 0} → Option A → Bool
is_absent none = true
is_absent (some a) = false

pub is_active : String → Session → Bool
unfolding is_absent
is_active user s = s.user_id == user && is_absent s.revoked_at

unfoldable pub is_on_device : String → Session → Bool
is_on_device device s = elim s.device_id [ none ↦ false | some d ↦ d == device ]

unfoldable pub is_active_on : String → String → Session → Bool
unfolding is_active is_on_device
is_active_on user device s = is_active user s && is_on_device device s

pub has_session_id : String → Session → Bool
has_session_id id s = s.id == id

pub revoke : ℕ → Session → Session
revoke now s = record s { revoked_at = some now }

-- Newest first; the order of sessions created at the same time is the database's.
pub newer_first : Session → List Session → List Session
newer_first s [] = s ∷ []
newer_first s (t ∷ ts) =
    let rest = newer_first s ts in if leb t.created_at s.created_at then s ∷ t ∷ ts else t ∷ rest

pub sort_newest : List Session → List Session
sort_newest [] = []
sort_newest (s ∷ ss) = newer_first s (sort_newest ss)

module _ (store : KeyStore String) (table : Table Session) where
  open store use {Keys, get, setex, del, del_matching}
  open table use {Rows, rows, insert, update}

  -- `resent` are the users whose verification mail was asked for again.
  pub record AuthState : Type 0 where
    pub keys : Keys
    pub sessions : Rows
    pub audit : List AuditEntry
    pub resent : List String

  unfoldable pub create_audit_log : Option String → AuthAction → Bool → AuthState → AuthState
  create_audit_log user action success s = record s {
    audit = s.audit ++ record { user_id = user; action = action; success = success } ∷ [];
  }

  -- An empty device or platform is stored as none.
  unfoldable pub store_session :
      ℕ → String → String → SessionType → ℕ → Option String → Option String → AuthState → AuthState
  store_session now id user type expires device platform s = record s {
    sessions =
        insert
          (record {
            id = id;
            user_id = user;
            token_type = type;
            device_id = truthy device;
            device_platform = truthy platform;
            expires_at = expires;
            revoked_at = none;
            created_at = now;
          })
          s.sessions;
  }

  unfoldable pub store_token : ℕ → String → ℕ → String → AuthState → AuthState
  store_token now key lifetime token s = record s { keys = setex s.keys now key lifetime token }

  unfoldable pub revoke_where : ℕ → (Session → Bool) → AuthState → AuthState
  unfolding revoke
  revoke_where now p s = record s { sessions = update p (revoke now) s.sessions }

  unfoldable pub drop_tokens : String → Option String → AuthState → AuthState
  drop_tokens user none s = record s {
    keys = del (del_matching s.keys (device_pattern user)) (legacy_key user);
  }
  drop_tokens user (some device) s = record s { keys = del s.keys (device_key user device) }

  unfoldable pub sessions_of : String → Option String → Session → Bool
  sessions_of user none = is_active user
  sessions_of user (some device) = is_active_on user device

  unfoldable pub log_out : ℕ → String → Option String → AuthState → AuthState
  unfolding drop_tokens sessions_of revoke_where create_audit_log
  log_out now user device s =
      create_audit_log (some user) logout true
        (revoke_where now (sessions_of user (truthy device)) (drop_tokens user (truthy device) s))

  pub get_sessions : String → AuthState → List Session
  unfolding sort_newest newer_first is_active
  get_sessions user s = sort_newest (filter (is_active user) (rows s.sessions))

  pub data SessionError : Type 0 where
    session_not_found : SessionError

  pub find_session : String → String → AuthState → Option Session
  find_session user id s = find? (λ r. r.id == id && is_active user r) (rows s.sessions)

  -- Every session has one of the two types for which the refresh token is removed.
  pub revoke_found :
      ℕ → String → String → Option Session → AuthState → AuthState × Reply SessionError Unit
  revoke_found now user id none s = (s, refuse session_not_found)
  revoke_found now user id (some found) s =
      let revoked = revoke_where now (has_session_id id) s in
      (
        create_audit_log (some user) logout true
            (record revoked { keys = del s.keys (legacy_key user) }),
        answer tt,
      )

  pub revoke_session : ℕ → String → String → AuthState → AuthState × Reply SessionError Unit
  unfolding revoke_found
  revoke_session now user id s = revoke_found now user id (find_session user id s) s

  -- The answer is the number of sessions that were revoked.
  pub revoke_all_sessions : ℕ → String → AuthState → AuthState × ℕ
  unfolding revoke_where create_audit_log is_active
  revoke_all_sessions now user s =
      let revoked = revoke_where now (is_active user) s in
      (
        create_audit_log (some user) logout true
            (record revoked { keys = del s.keys (legacy_key user) }),
        length (filter (is_active user) (rows s.sessions)),
      )
