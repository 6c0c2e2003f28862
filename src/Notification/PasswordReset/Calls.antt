-- ===== src/Notification/PasswordReset/Calls.antt =====
-- Sequences of calls of password-reset.service.ts, and what each call does to the rows.
use kodi_backend_template_a.Base.{
  ℕ, String, ◌≡◌, refl, inl, inr, Option, none, some, List, [], ◌∷◌, ◌++◌, map, Bool, Bool-cases,
}
use kodi_backend_template_a.Base.Store.{Table, update_row}
use kodi_backend_template_a.Notification.PasswordReset.{
  ResetToken, ResetError, reset_expired, reset_attempts, ResetConfig, ResetRequest, is_open_reset,
  cancel_reset, expire_reset, fail_reset, use_reset, reset_obstacle, ResetState, change_reset,
  refuse_reset, reset_against, reset_found, find_reset, verify_reset_token, mark_found,
  mark_token_as_used, new_reset, issue_reset, announce_reset, send_password_reset_email,
}

-- A call, with the time at which it is made.
pub data ResetCall : Type 0 where
  send : ℕ → ResetRequest → ResetCall
  verify : ℕ → String → ResetCall
  mark : ℕ → String → ResetCall

-- The ways in which a call changes the rows that meet a condition.
pub data ResetMark : (ResetToken → ResetToken) → Type 0 where
  expires : ResetMark expire_reset
  fails : ResetMark fail_reset
  uses : (now : ℕ) → ResetMark (use_reset now)

module _ (table : Table ResetToken) (config : ResetConfig) where
  open table use {rows, rows-insert, rows-update}

  abbrev pub reset_step : ResetCall → ResetState table → ResetState table
  reset_step (send now r) s = (send_password_reset_email table config now r s).0
  reset_step (verify now secret) s = (verify_reset_token table now secret s).0
  reset_step (mark now secret) s = (mark_token_as_used table now secret s).0

  abbrev pub reset_run : List ResetCall → ResetState table → ResetState table
  reset_run [] s = s
  reset_run (c ∷ cs) s = reset_run cs (reset_step c s)

  pub issue_reset_rows :
      (now : ℕ) (r : ResetRequest) (s : ResetState table)
      → rows (issue_reset table config now r s).tokens
        ≡ map (update_row (is_open_reset r.user_id r.email) cancel_reset) (rows s.tokens)
          ++ new_reset table config now r ∷ []
  unfolding issue_reset
  issue_reset_rows now r s = rw (rows-insert, rows-update) refl

  module _ (P : List ResetToken → Type 0)
      (by_mark : (f : ResetToken → ResetToken) (m : ResetMark f) (p : ResetToken → Bool)
          (xs : List ResetToken)
        → P xs
        → P (map (update_row p f) xs))
      (by_issue : (now : ℕ) (r : ResetRequest) (xs : List ResetToken)
        → P xs
        → P (
            map (update_row (is_open_reset r.user_id r.email) cancel_reset) xs
            ++ new_reset table config now r ∷ [])) where
    Keeps : ResetState table → Type 0
    Keeps s = P (rows s.tokens)

    change-Keeps :
        {f : ResetToken → ResetToken} (m : ResetMark f) (p : ResetToken → Bool)
        (s : ResetState table)
        → Keeps s
        → Keeps (change_reset table p f s)
    unfolding change_reset Keeps
    change-Keeps {f = f} m p s h = rw rows-update (by_mark f m p (rows s.tokens) h)

    refuse-Keeps :
        (e : ResetError) (t : ResetToken) (s : ResetState table)
        → Keeps s
        → Keeps (refuse_reset table e t s)
    unfolding refuse_reset
    refuse-Keeps reset_expired t s h = change-Keeps expires _ s h
    refuse-Keeps reset_attempts t s h = change-Keeps fails _ s h
    refuse-Keeps _ t s h = h

    against-Keeps :
        (o : Option ResetError) (t : ResetToken) (s : ResetState table)
        → Keeps s
        → Keeps (reset_against table o t s).0
    unfolding reset_against
    against-Keeps none t s h = h
    against-Keeps (some e) t s h = refuse-Keeps e t s h

    found-Keeps :
        (o : Option ResetToken) (now : ℕ) (s : ResetState table)
        → Keeps s
        → Keeps (reset_found table now o s).0
    unfolding reset_found
    found-Keeps none now s h = h
    found-Keeps (some t) now s h = against-Keeps (reset_obstacle now t) t s h

    mark-Keeps :
        (o : Option ResetToken) (now : ℕ) (secret : String) (s : ResetState table)
        → Keeps s
        → Keeps (mark_found table now secret o s).0
    unfolding mark_found
    mark-Keeps none now secret s h = h
    mark-Keeps (some t) now secret s h = change-Keeps (uses now) _ s h

    send-Keeps :
        (now : ℕ) (r : ResetRequest) (s : ResetState table)
        → Keeps s
        → Keeps (send_password_reset_email table config now r s).0
    unfolding send_password_reset_email announce_reset Keeps
    send-Keeps now r s h =
        let issued : P (rows (issue_reset table config now r s).tokens) =
          rw (issue_reset_rows now r s) (by_issue now r (rows s.tokens) h) in
        elim (Bool-cases (config.mails r.email r.new_token r.user_id)) [
          | inl sent ↦ rw sent issued
          | inr lost ↦ rw lost issued
        ]

    step-Keeps :
        (c : ResetCall) (s : ResetState table)
        → P (rows s.tokens)
        → P (rows (reset_step c s).tokens)
    unfolding Keeps verify_reset_token mark_token_as_used
    step-Keeps (send now r) s h = send-Keeps now r s h
    step-Keeps (verify now secret) s h = found-Keeps (find_reset table secret s) now s h
    step-Keeps (mark now secret) s h = mark-Keeps (find_reset table secret s) now secret s h

    -- What every call keeps holds after every sequence of calls.
    pub reset_run-Keeps :
        (cs : List ResetCall) (s : ResetState table)
        → P (rows s.tokens)
        → P (rows (reset_run cs s).tokens)
    reset_run-Keeps [] s h = h
    reset_run-Keeps (c ∷ cs) s h = reset_run-Keeps cs (reset_step c s) (step-Keeps c s h)
