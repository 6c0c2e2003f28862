-- ===== src/Notification/Verification.antt =====
-- apps/notification/src/modules/verification/verification.service.ts: the tokens that prove an e-mail
-- address or a phone number. Times are seconds. A new token's id, its secret and the clock are
-- arguments. Texts of messages and their language are not modelled.
pub mod Calls
pub mod Pending
pub mod Attempts
pub mod Used
pub mod Resend
mod Tests
use kodi_backend_template_a.Base.{
  ℕ, ◌+◌, ◌*◌, String, Bool, true, false, Option, none, some, List, [], ◌∷◌, ◌++◌, ◌&&◌, ◌||◌, ltb,
  leb, ◌==◌, if◌then◌else◌, filter, find?, Reply, refuse, answer,
}
use kodi_backend_template_a.Base.Store.{Table}

-- The statuses that the service gives to a token.
pub data VerificationStatus : Type 0 where
  pending verified expired failed cancelled : VerificationStatus

abbrev pub is_pending : VerificationStatus → Bool
is_pending pending = true
is_pending _ = false

abbrev pub is_verified : VerificationStatus → Bool
is_verified verified = true
is_verified _ = false

abbrev pub is_cancelled : VerificationStatus → Bool
is_cancelled cancelled = true
is_cancelled _ = false

pub record VerificationToken : Type 0 where
  pub id : String
  pub user_id : String
  pub type : String
  pub token : String
  pub identifier : String
  pub expires_at : ℕ
  pub verified_at : Option ℕ
  pub cancelled_at : Option ℕ
  pub attempts : ℕ
  pub max_attempts : ℕ
  pub status : VerificationStatus
  pub is_used : Bool
  pub created_at : ℕ

pub data VerificationError : Type 0 where
  unsupported_type invalid_identifier not_delivered token_invalid token_used token_cancelled
        token_expired too_many_attempts cancel_verified already_sent :
      VerificationError

-- What the service sends to the other services.
pub data VerificationEvent : Type 0 where
  link_sent : String → String → String → VerificationEvent
  token_verified : String → String → String → VerificationEvent
  token_withdrawn : String → String → String → VerificationEvent

-- A way to send a token: the test of an identifier, and whether the message goes out.
pub record Strategy : Type 0 where
  pub validate_identifier : String → Bool
  pub sends : String → String → String → Bool

-- `SendVerificationDto`, with the id and the secret that are drawn for it.
pub record Request : Type 0 where
  pub user_id : String
  pub type : String
  pub identifier : String
  pub new_id : String
  pub new_token : String

abbrev pub token_expiry_hours : ℕ
token_expiry_hours = 24

abbrev pub default_max_attempts : ℕ
default_max_attempts = 5

-- The token belongs to this user, identifier and type.
pub belongs_to : String → String → String → VerificationToken → Bool
belongs_to user identifier type t =
    t.user_id == user && (t.identifier == identifier && t.type == type)

pub is_open : String → String → String → VerificationToken → Bool
unfolding belongs_to
is_open user identifier type t = is_pending t.status && belongs_to user identifier type t

pub has_token : String → VerificationToken → Bool
has_token secret t = t.token == secret

pub has_id : String → VerificationToken → Bool
has_id id t = t.id == id

pub supersede : VerificationToken → VerificationToken
supersede t = record t { status = cancelled }

pub mark_expired : VerificationToken → VerificationToken
mark_expired t = record t { status = expired }

pub mark_failed : VerificationToken → VerificationToken
mark_failed t = record t { status = failed }

pub mark_verified : ℕ → VerificationToken → VerificationToken
mark_verified now t = record t {
  status = verified;
  verified_at = some now;
  is_used = true;
  attempts = t.attempts + 1;
}

pub mark_cancelled : ℕ → VerificationToken → VerificationToken
mark_cancelled now t = record t { status = cancelled; cancelled_at = some now }

pub fresh_token : ℕ → Request → VerificationToken
fresh_token now r = record {
  id = r.new_id;
  user_id = r.user_id;
  type = r.type;
  token = r.new_token;
  identifier = r.identifier;
  expires_at = now + token_expiry_hours * 3600;
  verified_at = none;
  cancelled_at = none;
  attempts = 0;
  max_attempts = default_max_attempts;
  status = pending;
  is_used = false;
  created_at = now;
}

-- The latest row of a list; of rows created at the same time, the last.
pub latest : List VerificationToken → Option VerificationToken
latest [] = none
latest (t ∷ ts) = later (latest ts)
  where
    later : Option VerificationToken → Option VerificationToken
    later none = some t
    later (some u) = if leb t.created_at u.created_at then some u else some t

-- The statuses that `resendVerification` looks at.
pub is_resendable : VerificationStatus → Bool
is_resendable pending = true
is_resendable expired = true
is_resendable cancelled = true
is_resendable _ = false

pub resend_candidate : String → String → String → VerificationToken → Bool
unfolding is_resendable belongs_to
resend_candidate user identifier type t =
    is_resendable t.status && belongs_to user identifier type t

pub is_proof : String → String → VerificationToken → Bool
is_proof user type t = is_verified t.status && (t.user_id == user && t.type == type)

-- `now > expiresAt`.
pub is_late : ℕ → VerificationToken → Bool
is_late now t = ltb t.expires_at now

-- What stands in the way of a token that was found: the exception, or nothing.
pub obstacle : ℕ → VerificationToken → Option VerificationError
unfolding is_late
obstacle now t =
    if t.is_used || is_verified t.status
    then some token_used
    else if is_cancelled t.status
    then some token_cancelled
    else if is_late now t
    then some token_expired
    else if leb t.max_attempts t.attempts
    then some too_many_attempts
    else none

-- An open token that is not late.
pub is_standing : ℕ → Option VerificationToken → Bool
unfolding is_late
is_standing now none = false
is_standing now (some t) =
    if is_pending t.status then (if is_late now t then false else true) else false

module _ (table : Table VerificationToken) (strategies : String → Option Strategy) where
  open table use {Rows, rows, insert, update}

  pub record State : Type 0 where
    pub tokens : Rows
    pub events : List VerificationEvent

  -- The table after the update of one row by its id.
  pub update_by_id : (VerificationToken → VerificationToken) → VerificationToken → State → State
  update_by_id f t s = record s { tokens = update (has_id t.id) f s.tokens }

  pub emit : VerificationEvent → State → State
  emit e s = record s { events = s.events ++ e ∷ [] }

  -- The open tokens of the same user, identifier and type are cancelled, the new one is added.
  pub issue : ℕ → Request → State → State
  unfolding is_open supersede
  issue now r s = record s {
    tokens =
        insert (fresh_token now r)
          (update (is_open r.user_id r.identifier r.type) supersede s.tokens);
  }

  -- The message goes out or `sendVerification` throws, with the token already stored.
  pub deliver : Strategy → ℕ → Request → State → State × Reply VerificationError VerificationToken
  deliver strategy now r s =
      if strategy.sends r.identifier r.new_token r.user_id
      then (emit (link_sent r.type r.identifier r.new_token) s, answer (fresh_token now r))
      else (s, refuse not_delivered)

  pub send_with :
      Option Strategy → ℕ → Request → State → State × Reply VerificationError VerificationToken
  send_with none now r s = (s, refuse unsupported_type)
  send_with (some strategy) now r s =
      if strategy.validate_identifier r.identifier
      then deliver strategy now r (issue now r s)
      else (s, refuse invalid_identifier)

  pub send_verification : ℕ → Request → State → State × Reply VerificationError VerificationToken
  unfolding send_with
  send_verification now r s = send_with (strategies r.type) now r s

  -- A refusal for lateness or for attempts is also written to the row.
  pub refuse_with : VerificationError → VerificationToken → State → State
  refuse_with token_expired t s = update_by_id mark_expired t s
  refuse_with too_many_attempts t s = update_by_id mark_failed t s
  refuse_with _ t s = s

  pub accept : ℕ → VerificationToken → State → State
  accept now t s =
      emit (token_verified t.user_id t.type t.identifier) (update_by_id (mark_verified now) t s)

  pub verify_against :
      Option VerificationError
      → ℕ
      → VerificationToken
      → State
      → State × Reply VerificationError VerificationToken
  verify_against (some e) now t s = (refuse_with e t s, refuse e)
  verify_against none now t s = (accept now t s, answer t)

  pub verify_found :
      ℕ → Option VerificationToken → State → State × Reply VerificationError VerificationToken
  verify_found now none s = (s, refuse token_invalid)
  verify_found now (some t) s = verify_against (obstacle now t) now t s

  pub find_token : String → State → Option VerificationToken
  find_token secret s = find? (has_token secret) (rows s.tokens)

  pub verify_token : ℕ → String → State → State × Reply VerificationError VerificationToken
  unfolding verify_found
  verify_token now secret s = verify_found now (find_token secret s) s

  pub withdraw : ℕ → VerificationToken → State → State
  withdraw now t s =
      emit (token_withdrawn t.user_id t.type t.identifier) (update_by_id (mark_cancelled now) t s)

  -- The answer says whether the token was cancelled by this call.
  pub cancel_at :
      VerificationStatus → ℕ → VerificationToken → State → State × Reply VerificationError Bool
  cancel_at verified now t s = (s, refuse cancel_verified)
  cancel_at cancelled now t s = (s, answer false)
  cancel_at _ now t s = (withdraw now t s, answer true)

  pub cancel_found : ℕ → Option VerificationToken → State → State × Reply VerificationError Bool
  cancel_found now none s = (s, refuse token_invalid)
  cancel_found now (some t) s = cancel_at t.status now t s

  pub cancel_verification : ℕ → String → State → State × Reply VerificationError Bool
  unfolding cancel_found
  cancel_verification now secret s = cancel_found now (find_token secret s) s

  pub existing_token : Request → State → Option VerificationToken
  existing_token r s =
      latest (filter (resend_candidate r.user_id r.identifier r.type) (rows s.tokens))

  pub send_unless : Bool → ℕ → Request → State → State × Reply VerificationError VerificationToken
  send_unless true now r s = (s, refuse already_sent)
  send_unless false now r s = send_verification now r s

  pub resend_verification : ℕ → Request → State → State × Reply VerificationError VerificationToken
  unfolding send_unless
  resend_verification now r s = send_unless (is_standing now (existing_token r s)) now r s

  pub get_verification_status : String → String → State → Option VerificationToken
  get_verification_status user type s = latest (filter (is_proof user type) (rows s.tokens))
