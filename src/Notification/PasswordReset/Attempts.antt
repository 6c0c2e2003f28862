-- ===== src/Notification/PasswordReset/Attempts.antt =====
-- The limit on the attempts with a token in password-reset.service.ts, over sequences of calls.
use kodi_backend_template_a.Base.{
  ℕ, true, ◌⊎◌, String, ◌≡◌, ◌≢◌, refl, inl, inr, Bool, false, Option, none, some, List, [], ◌∷◌,
  ◌++◌, map, arith, leb, Bool-cases, All, All-map, All-append, All-find?, refuse,
}
use kodi_backend_template_a.Base.Store.{Table, update_row}
use kodi_backend_template_a.Notification.PasswordReset.{
  ResetToken, ResetError, reset_attempts, ResetConfig, ResetRequest, is_open_reset, has_secret,
  cancel_reset, expire_reset, fail_reset, use_reset, reset_obstacle, ResetState, reset_against,
  reset_found, find_reset, verify_reset_token, new_reset,
}
use kodi_backend_template_a.Notification.PasswordReset.Calls.{
  ResetCall, ResetMark, expires, fails, uses, reset_run, reset_run-Keeps,
}

-- A token that was used, or that was not tried too often.
pub IsUntried : ResetToken → Type 0
IsUntried t = (t.is_used ≡ true) ⊎ (leb t.max_attempts t.attempts ≡ false)

apply-IsUntried :
    {f : ResetToken → ResetToken} (m : ResetMark f) (t : ResetToken) → IsUntried t → IsUntried (f t)
unfolding IsUntried expire_reset fail_reset use_reset
apply-IsUntried expires t h = h
apply-IsUntried fails t h = h
apply-IsUntried (uses now) t h = inl refl

update-IsUntried :
    (f : ResetToken → ResetToken) (p : ResetToken → Bool)
    → ((t : ResetToken) → IsUntried t → IsUntried (f t))
    → (t : ResetToken) → IsUntried t
    → IsUntried (update_row p f t)
update-IsUntried f p kept t h = elim (Bool-cases (p t)) [
  | inl hit ↦ rw hit (kept t h)
  | inr miss ↦ rw miss h
]

untried_obstacle :
    (now : ℕ) (t : ResetToken) → IsUntried t → reset_obstacle now t ≢ some reset_attempts
unfolding IsUntried reset_obstacle
untried_obstacle now t h = λ e. ground arith

module _ (table : Table ResetToken) (config : ResetConfig) where
  open table use {rows, rows-insert, rows-update}

  mark-All :
      (f : ResetToken → ResetToken) (m : ResetMark f) (p : ResetToken → Bool) (xs : List ResetToken)
      → All IsUntried xs
      → All IsUntried (map (update_row p f) xs)
  mark-All f m p xs all =
      All-map IsUntried (update_row p f) xs (update-IsUntried f p (apply-IsUntried m)) all

  issue-All :
      leb config.allowed_attempts 0 ≡ false
      → (now : ℕ) (r : ResetRequest) (xs : List ResetToken) → All IsUntried xs
      → All IsUntried (
          map (update_row (is_open_reset r.user_id r.email) cancel_reset) xs
          ++ new_reset table config now r ∷ [])
  unfolding IsUntried new_reset cancel_reset
  issue-All some_allowed now r xs all =
      let open_here = is_open_reset r.user_id r.email in
      All-append IsUntried (map (update_row open_here cancel_reset) xs)
        (new_reset table config now r ∷ [])
        (All-map IsUntried (update_row open_here cancel_reset) xs
          (update-IsUntried cancel_reset open_here (λ t h. h)) all)
        (inr some_allowed, tt)

  against_untried :
      (o : Option ResetError) (t : ResetToken) (s : ResetState table)
      → o ≢ some reset_attempts
      → (reset_against table o t s).1 ≢ refuse reset_attempts
  unfolding reset_against
  against_untried none t s h = λ e. cc
  against_untried (some e) t s h = λ same. h (cc same)

  found_untried :
      (o : Option ResetToken) (now : ℕ) (s : ResetState table)
      → ((t : ResetToken) → o ≡ some t → IsUntried t)
      → (reset_found table now o s).1 ≢ refuse reset_attempts
  unfolding reset_found
  found_untried none now s h = λ e. cc
  found_untried (some t) now s h =
      against_untried (reset_obstacle now t) t s (untried_obstacle now t (h t refl))

  -- When the configuration allows an attempt at all, and no stored token was tried without being
  -- used, no sequence of calls leads to a state in which a token is refused for too many attempts.
  pub reset_run-reset_attempts :
      (cs : List ResetCall) (s : ResetState table) (now : ℕ) (secret : String)
      → leb config.allowed_attempts 0 ≡ false
      → All IsUntried (rows s.tokens)
      → (verify_reset_token table now secret (reset_run table config cs s)).1
        ≢ refuse reset_attempts
  unfolding verify_reset_token find_reset
  reset_run-reset_attempts cs s now secret some_allowed all =
      let reached = reset_run table config cs s in
      let all' =
        reset_run-Keeps table config (All IsUntried) mark-All (issue-All some_allowed) cs s all in
      found_untried (find_reset table secret reached) now reached
        (λ t found. All-find? IsUntried (has_secret secret) (rows reached.tokens) all' found)
