-- ===== src/Notification/PasswordReset/Tokens.antt =====
-- Which tokens password-reset.service.ts accepts: the newest one, until it is used or expires.
use kodi_backend_template_a.Base.{
  ℕ, ◌≤◌, String, ◌≡◌, refl, ◌∙◌, inl, inr, true, false, Option, none, some, [], ◌∷◌, map, arith,
  Bool-cases, find?-append, find?-eq-some, refuse, answer,
}
use kodi_backend_template_a.Base.Store.{Table, update_row, find?-update}
use kodi_backend_template_a.Notification.PasswordReset.{
  ResetToken, ResetError, reset_used, reset_cancelled, ResetConfig, ResetRequest, is_open_reset,
  has_secret, cancel_reset, use_reset, reset_obstacle, ResetState, change_reset, refuse_reset,
  reset_against, reset_found, find_reset, verify_reset_token, mark_found, mark_token_as_used,
  new_reset, issue_reset, announce_reset, send_password_reset_email,
}
use kodi_backend_template_a.Notification.PasswordReset.Calls.{issue_reset_rows}

use-has_secret :
    (now : ℕ) (secret : String) (t : ResetToken)
    → has_secret secret (use_reset now t) ≡ has_secret secret t
unfolding has_secret use_reset
use-has_secret now secret t = refl

cancel-has_secret :
    (secret : String) (t : ResetToken) → has_secret secret (cancel_reset t) ≡ has_secret secret t
unfolding has_secret cancel_reset
cancel-has_secret secret t = refl

cancelled_obstacle :
    (now : ℕ) (t : ResetToken)
    → t.is_used ≡ false
    → reset_obstacle now (cancel_reset t) ≡ some reset_cancelled
unfolding reset_obstacle cancel_reset
cancelled_obstacle now t unused = rw unused refl

-- Time brings no new obstacle before the expiry.
free_still :
    (now later : ℕ) (t : ResetToken)
    → reset_obstacle now t ≡ none
    → later ≤ t.expires_at
    → reset_obstacle later t ≡ none
unfolding reset_obstacle
free_still now later t free soon = ground arith

module _ (table : Table ResetToken) (config : ResetConfig) where
  open table use {rows, rows-insert, rows-update}

  verify_known :
      (now : ℕ) (secret : String) (s : ResetState table) (t : ResetToken) (e : ResetError)
      → find_reset table secret s ≡ some t
      → reset_obstacle now t ≡ some e
      → verify_reset_token table now secret s ≡ (refuse_reset table e t s, refuse e)
  unfolding verify_reset_token reset_found reset_against
  verify_known now secret s t e found stop = rw (found, stop) refl

  mark-find_reset :
      (now : ℕ) (secret : String) (s : ResetState table) (t : ResetToken)
      → find_reset table secret s ≡ some t
      → find_reset table secret (change_reset table (has_secret secret) (use_reset now) s)
        ≡ some (use_reset now t)
  unfolding find_reset change_reset
  mark-find_reset now secret s t found =
      let hit = find?-eq-some (has_secret secret) (rows s.tokens) found in
      let there =
        find?-update (has_secret secret) (has_secret secret) (use_reset now) (rows s.tokens)
          (use-has_secret now secret) found in
      rw rows-update (there ∙ rw hit refl)

  marked :
      (o : Option ResetToken) (now later : ℕ) (secret : String) (s : ResetState table)
      → find_reset table secret s ≡ o
      → (mark_found table now secret o s).1 ≡ answer tt
      → verify_reset_token table later secret (mark_found table now secret o s).0
        ≡ ((mark_found table now secret o s).0, refuse reset_used)
  unfolding mark_found refuse_reset reset_obstacle use_reset
  marked none now later secret s found ok = cc
  marked (some t) now later secret s found ok =
      verify_known later secret (change_reset table (has_secret secret) (use_reset now) s)
        (use_reset now t) reset_used (mark-find_reset now secret s t found) refl

  -- After a token was marked as used, a verification of it is refused as used, at any time and
  -- without a change.
  pub verify_reset_token-mark_token_as_used :
      (now later : ℕ) (secret : String) (s : ResetState table)
      → (mark_token_as_used table now secret s).1 ≡ answer tt
      → verify_reset_token table later secret (mark_token_as_used table now secret s).0
        ≡ ((mark_token_as_used table now secret s).0, refuse reset_used)
  unfolding mark_token_as_used
  verify_reset_token-mark_token_as_used now later secret s ok =
      marked (find_reset table secret s) now later secret s refl ok

  issue-find_reset :
      (now : ℕ) (r : ResetRequest) (secret : String) (s : ResetState table) (t : ResetToken)
      → find_reset table secret s ≡ some t
      → is_open_reset r.user_id r.email t ≡ true
      → find_reset table secret (issue_reset table config now r s) ≡ some (cancel_reset t)
  unfolding find_reset
  issue-find_reset now r secret s t found open_t =
      let open_here = is_open_reset r.user_id r.email in
      let moved =
        find?-update (has_secret secret) open_here cancel_reset (rows s.tokens)
          (cancel-has_secret secret) found in
      let there =
        find?-append (has_secret secret) (map (update_row open_here cancel_reset) (rows s.tokens))
          (new_reset table config now r ∷ []) moved in
      rw (issue_reset_rows table config now r s) (there ∙ rw open_t refl)

  -- A new request for the same user and address withdraws an open token that was not used: it is
  -- refused as cancelled from then on, whether or not the message goes out.
  pub verify_reset_token-send_password_reset_email :
      (now later : ℕ) (r : ResetRequest) (secret : String) (s : ResetState table) (t : ResetToken)
      → find_reset table secret s ≡ some t
      → is_open_reset r.user_id r.email t ≡ true
      → t.is_used ≡ false
      → verify_reset_token table later secret (send_password_reset_email table config now r s).0
        ≡ ((send_password_reset_email table config now r s).0, refuse reset_cancelled)
  unfolding send_password_reset_email announce_reset find_reset refuse_reset
  verify_reset_token-send_password_reset_email now later r secret s t found open_t unused =
      let there = issue-find_reset now r secret s t found open_t in
      let stop = cancelled_obstacle later t unused in
      elim (Bool-cases (config.mails r.email r.new_token r.user_id)) [
        | inl sent ↦
            rw sent (verify_known later secret _ (cancel_reset t) reset_cancelled there stop)
        | inr lost ↦ rw lost (
            verify_known later secret (issue_reset table config now r s) (cancel_reset t)
              reset_cancelled there stop)
      ]

  against_again :
      (o : Option ResetError) (now later : ℕ) (secret : String) (s : ResetState table)
      (t u : ResetToken)
      → find_reset table secret s ≡ some t
      → reset_obstacle now t ≡ o
      → (reset_against table o t s).1 ≡ answer u
      → later ≤ u.expires_at
      → verify_reset_token table later secret (reset_against table o t s).0 ≡ (s, answer u)
  unfolding reset_against verify_reset_token reset_found
  against_again (some e) now later secret s t u found stop ok soon = cc
  against_again none now later secret s t u found free ok soon =
      let same : t ≡ u = cc in
      let soon' : later ≤ t.expires_at = rw same soon in
      rw (found, free_still now later t free soon', same) refl

  found_again :
      (o : Option ResetToken) (now later : ℕ) (secret : String) (s : ResetState table)
      (u : ResetToken)
      → find_reset table secret s ≡ o
      → (reset_found table now o s).1 ≡ answer u
      → later ≤ u.expires_at
      → verify_reset_token table later secret (reset_found table now o s).0 ≡ (s, answer u)
  unfolding reset_found
  found_again none now later secret s u found ok soon = cc
  found_again (some t) now later secret s u found ok soon =
      against_again (reset_obstacle now t) now later secret s t u found refl ok soon

  -- A verification does not use the token up: after one that succeeds, the token is accepted again
  -- as long as it has not expired, and nothing has changed.
  pub verify_reset_token_again :
      (now later : ℕ) (secret : String) (s : ResetState table) (t : ResetToken)
      → (verify_reset_token table now secret s).1 ≡ answer t
      → later ≤ t.expires_at
      → verify_reset_token table later secret (verify_reset_token table now secret s).0
        ≡ (s, answer t)
  unfolding verify_reset_token
  verify_reset_token_again now later secret s t ok soon =
      found_again (find_reset table secret s) now later secret s t refl ok soon
