-- ===== src/Notification/PasswordReset.antt =====
-- apps/notification/src/modules/password-reset/password-reset.service.ts. The hours until a token
-- expires and the attempts it allows come from the configuration. Times are seconds; the id, the
-- secret and the clock are arguments. Texts of messages and their language are not modelled.
pub mod Calls
pub mod Attempts
pub mod Tokens
mod Tests
use kodi_backend_template_a.Base.{
  ℕ, ◌+◌, ◌*◌, String, Bool, true, false, Option, none, some, List, [], ◌∷◌, ◌++◌, ◌&&◌, ◌||◌, ltb,
  leb, ◌==◌, if◌then◌else◌, find?, Reply, refuse, answer,
}
use kodi_backend_template_a.Base.Store.{Table}

-- The statuses that the service gives to a token.
pub data ResetStatus : Type 0 where
  pending used expired failed cancelled : ResetStatus

abbrev is_pending : ResetStatus → Bool
is_pending pending = true
is_pending _ = false

abbrev is_used_status : ResetStatus → Bool
is_used_status used = true
is_used_status _ = false

abbrev is_cancelled : ResetStatus → Bool
is_cancelled cancelled = true
is_cancelled _ = false

pub record ResetToken : Type 0 where
  pub id : String
  pub user_id : String
  pub token : String
  pub email : String
  pub expires_at : ℕ
  pub used_at : Option ℕ
  pub attempts : ℕ
  pub max_attempts : ℕ
  pub status : ResetStatus
  pub is_used : Bool
  pub created_at : ℕ

pub data ResetError : Type 0 where
  reset_not_sent reset_invalid reset_used reset_cancelled reset_expired reset_attempts : ResetError

pub data ResetEvent : Type 0 where
  reset_mailed : String → String → ResetEvent
  reset_sent : String → String → String → ResetEvent

-- The configuration, and whether the mail strategy sends to an address.
pub record ResetConfig : Type 0 where
  pub expiry_hours : ℕ
  pub allowed_attempts : ℕ
  pub mails : String → String → String → Bool

pub record ResetRequest : Type 0 where
  pub email : String
  pub user_id : String
  pub new_id : String
  pub new_token : String

pub is_open_reset : String → String → ResetToken → Bool
is_open_reset user email t = is_pending t.status && (t.user_id == user && t.email == email)

pub has_secret : String → ResetToken → Bool
has_secret secret t = t.token == secret

pub has_reset_id : String → ResetToken → Bool
has_reset_id id t = t.id == id

pub cancel_reset : ResetToken → ResetToken
cancel_reset t = record t { status = cancelled }

pub expire_reset : ResetToken → ResetToken
expire_reset t = record t { status = expired }

pub fail_reset : ResetToken → ResetToken
fail_reset t = record t { status = failed }

pub use_reset : ℕ → ResetToken → ResetToken
use_reset now t = record t {
  status = used;
  used_at = some now;
  is_used = true;
  attempts = t.attempts + 1;
}

-- What stands in the way of a token that was found: the exception, or nothing.
pub reset_obstacle : ℕ → ResetToken → Option ResetError
reset_obstacle now t =
    if t.is_used || is_used_status t.status
    then some reset_used
    else if is_cancelled t.status
    then some reset_cancelled
    else if ltb t.expires_at now
    then some reset_expired
    else if leb t.max_attempts t.attempts
    then some reset_attempts
    else none

module _ (table : Table ResetToken) where
  open table use {Rows, rows, insert, update}

  pub record ResetState : Type 0 where
    pub tokens : Rows
    pub events : List ResetEvent

  pub change_reset : (ResetToken → Bool) → (ResetToken → ResetToken) → ResetState → ResetState
  change_reset p f s = record s { tokens = update p f s.tokens }

  pub refuse_reset : ResetError → ResetToken → ResetState → ResetState
  refuse_reset reset_expired t s = change_reset (has_reset_id t.id) expire_reset s
  refuse_reset reset_attempts t s = change_reset (has_reset_id t.id) fail_reset s
  refuse_reset _ t s = s

  pub reset_against :
      Option ResetError → ResetToken → ResetState → ResetState × Reply ResetError ResetToken
  reset_against (some e) t s = (refuse_reset e t s, refuse e)
  reset_against none t s = (s, answer t)

  pub reset_found : ℕ → Option ResetToken → ResetState → ResetState × Reply ResetError ResetToken
  reset_found now none s = (s, refuse reset_invalid)
  reset_found now (some t) s = reset_against (reset_obstacle now t) t s

  pub find_reset : String → ResetState → Option ResetToken
  find_reset secret s = find? (has_secret secret) (rows s.tokens)

  pub verify_reset_token : ℕ → String → ResetState → ResetState × Reply ResetError ResetToken
  unfolding reset_found
  verify_reset_token now secret s = reset_found now (find_reset secret s) s

  -- The update of a row that is not there throws.
  pub mark_found : ℕ → String → Option ResetToken → ResetState → ResetState × Reply ResetError Unit
  mark_found now secret none s = (s, refuse reset_invalid)
  mark_found now secret (some t) s = (change_reset (has_secret secret) (use_reset now) s, answer tt)

  pub mark_token_as_used : ℕ → String → ResetState → ResetState × Reply ResetError Unit
  unfolding mark_found
  mark_token_as_used now secret s = mark_found now secret (find_reset secret s) s

  module _ (config : ResetConfig) where
    pub new_reset : ℕ → ResetRequest → ResetToken
    new_reset now r = record {
      id = r.new_id;
      user_id = r.user_id;
      token = r.new_token;
      email = r.email;
      expires_at = now + config.expiry_hours * 3600;
      used_at = none;
      attempts = 0;
      max_attempts = config.allowed_attempts;
      status = pending;
      is_used = false;
      created_at = now;
    }

    -- The open tokens of the user and address are cancelled, the new one is added.
    pub issue_reset : ℕ → ResetRequest → ResetState → ResetState
    unfolding is_open_reset cancel_reset
    issue_reset now r s = record s {
      tokens =
          insert (new_reset now r) (update (is_open_reset r.user_id r.email) cancel_reset s.tokens);
    }

    pub announce_reset : ℕ → ResetRequest → ResetState → ResetState × Reply ResetError ResetToken
    announce_reset now r s =
        if config.mails r.email r.new_token r.user_id
        then (
          record s {
            events =
                s.events
                ++ reset_mailed r.email r.new_token ∷ reset_sent r.user_id r.email r.new_id ∷ [];
          },
          answer (new_reset now r),
        )
        else (s, refuse reset_not_sent)

    pub send_password_reset_email :
        ℕ → ResetRequest → ResetState → ResetState × Reply ResetError ResetToken
    unfolding announce_reset
    send_password_reset_email now r s = announce_reset now r (issue_reset now r s)
