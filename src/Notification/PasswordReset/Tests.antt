-- ===== src/Notification/PasswordReset/Tests.antt =====
-- Runs of password-reset.service.ts, and the theorems at concrete inputs: a user who asks twice.
use kodi_backend_template_a.Base.{
  ◌≤◌, String, ◌≡◌, ◌≢◌, refl, true, false, some, List, [], ◌∷◌, arith, refuse, answer,
}
use kodi_backend_template_a.Base.Store.{Table, list_table}
use kodi_backend_template_a.Notification.PasswordReset.{
  ResetToken, ResetConfig, ResetRequest, ResetState, new_reset, is_open_reset,
  send_password_reset_email, announce_reset, issue_reset, verify_reset_token, reset_against,
  reset_obstacle, mark_token_as_used, find_reset, has_secret, reset_attempts,
}
use kodi_backend_template_a.Notification.PasswordReset.Calls.{
  ResetCall, send, verify, mark, reset_run,
}
use kodi_backend_template_a.Notification.PasswordReset.Attempts.{reset_run-reset_attempts}

abbrev table : Table ResetToken
table = list_table ResetToken

abbrev config : ResetConfig
config = record { expiry_hours = 1; allowed_attempts = 3; mails = λ a t u. true }

abbrev request : String → ResetRequest
request n = record { email = "a@b.de"; user_id = "u"; new_id = n; new_token = n }

abbrev empty : ResetState table
empty = record { tokens = []; events = [] }

abbrev sent : ResetState table
sent = (send_password_reset_email table config 100 (request "t1") empty).0

abbrev first : ResetToken
first = new_reset table config 100 (request "t1")

abbrev calls : List ResetCall
calls = send 100 (request "t1") ∷ verify 101 "t1" ∷ mark 102 "t1" ∷ []

reset_run-reset_attempts_example :
    (verify_reset_token table 103 "t1" (reset_run table config calls empty)).1
    ≢ refuse reset_attempts
reset_run-reset_attempts_example =
    reset_run-reset_attempts table config calls empty 103 "t1" refl tt

marked : (mark_token_as_used table 200 "t1" sent).1 ≡ answer tt
unfolding mark_token_as_used send_password_reset_email announce_reset issue_reset find_reset
    has_secret new_reset
marked = refl

found : find_reset table "t1" sent ≡ some first
unfolding send_password_reset_email announce_reset issue_reset find_reset has_secret new_reset
found = refl

open_first : is_open_reset "u" "a@b.de" first ≡ true
unfolding is_open_reset new_reset
open_first = refl

unused : first.is_used ≡ false
unfolding new_reset
unused = refl

accepted : (verify_reset_token table 200 "t1" sent).1 ≡ answer first
unfolding send_password_reset_email announce_reset issue_reset find_reset has_secret new_reset
    verify_reset_token reset_against reset_obstacle
accepted = refl

in_time : 300 ≤ first.expires_at
unfolding new_reset
in_time = omega arith
