-- ===== src/Notification/Verification/Tests.antt =====
-- Runs of verification.service.ts, and the theorems at concrete inputs: one e-mail address that is
-- asked to be verified twice.
use kodi_backend_template_a.Base.{
  String, ◌≡◌, ◌≢◌, refl, true, false, Option, none, some, List, [], ◌∷◌, arith, ◌==◌,
  if◌then◌else◌, All, refuse, answer,
}
use kodi_backend_template_a.Base.Store.{Table, list_table}
use kodi_backend_template_a.Notification.Verification.{
  VerificationToken, Strategy, Request, fresh_token, is_open, State, send_verification,
  verify_token, cancel_verification, token_cancelled, too_many_attempts, find_token, deliver, emit,
  issue, has_token, cancel_at,
}
use kodi_backend_template_a.Notification.Verification.Calls.{
  Call, send, verify, cancel, resend, run,
}
use kodi_backend_template_a.Notification.Verification.Pending.{AtMostOne, run-AtMostOne}
use kodi_backend_template_a.Notification.Verification.Attempts.{run-too_many_attempts}
use kodi_backend_template_a.Notification.Verification.Used.{verify_token-send_verification}
use kodi_backend_template_a.Notification.Verification.Resend.{CreatedBy}

abbrev table : Table VerificationToken
table = list_table VerificationToken

-- A strategy that takes every identifier but the empty one, and sends to all but one.
abbrev email : Strategy
email = record {
  validate_identifier = λ a. if a == "" then false else true;
  sends = λ a t u. if a == "lost" then false else true;
}

abbrev strategies : String → Option Strategy
strategies t = if t == "EMAIL" then some email else none

abbrev request : String → Request
request n = record {
  user_id = "u";
  type = "EMAIL";
  identifier = "a@b.de";
  new_id = n;
  new_token = n;
}

abbrev empty : State table strategies
empty = record { tokens = []; events = [] }

abbrev sent : State table strategies
sent = (send_verification table strategies 100 (request "t1") empty).0

abbrev calls : List Call
calls =
    send 100 (request "t1")
    ∷ resend 90000 (request "t2")
    ∷ verify 90001 "t2"
    ∷ cancel 90002 "t1"
    ∷ []

none_open : AtMostOne []
unfolding AtMostOne
none_open user identifier type = omega arith

run-AtMostOne_example : AtMostOne (run table strategies calls empty).tokens
run-AtMostOne_example = run-AtMostOne table strategies calls empty none_open

run-too_many_attempts_example :
    (verify_token table strategies 90003 "t1" (run table strategies calls empty)).1
    ≢ refuse too_many_attempts
run-too_many_attempts_example = run-too_many_attempts table strategies calls empty 90003 "t1" tt

found : find_token table strategies "t1" sent ≡ some (fresh_token 100 (request "t1"))
unfolding find_token deliver emit issue has_token fresh_token send_verification
found = refl

open_first : is_open "u" "a@b.de" "EMAIL" (fresh_token 100 (request "t1")) ≡ true
unfolding is_open fresh_token
open_first = refl

unused : (fresh_token 100 (request "t1")).is_used ≡ false
unfolding fresh_token
unused = refl

verify_token-send_verification_example :
    verify_token table strategies 300 "t1"
      (send_verification table strategies 200 (request "t2") sent).0
    ≡ ((send_verification table strategies 200 (request "t2") sent).0, refuse token_cancelled)
verify_token-send_verification_example =
    verify_token-send_verification table strategies 200 300 (request "t2") "t1" sent
      (fresh_token 100 (request "t1")) email refl refl found open_first unused

withdrawn : (cancel_verification table strategies 200 "t1" sent).1 ≡ answer true
unfolding find_token deliver emit issue has_token fresh_token send_verification cancel_verification
    cancel_at
withdrawn = refl

created : All (CreatedBy 200) sent.tokens
unfolding CreatedBy find_token deliver emit issue has_token fresh_token send_verification
created = (omega arith, tt)
