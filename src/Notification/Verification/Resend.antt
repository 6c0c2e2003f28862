-- ===== src/Notification/Verification/Resend.antt =====
-- When `resendVerification` of verification.service.ts sends again.
use kodi_backend_template_a.Base.{
  ℕ, ◌≤◌, ◌+◌, ◌*◌, String, ◌≡◌, refl, inl, inr, Bool, true, false, Option, some, List, [], ◌∷◌,
  ◌++◌, map, arith, leb, ltb, Bool-cases, All, filter, filter-append, All-map, All-filter, refuse,
  eq_refl,
}
use kodi_backend_template_a.Base.Store.{Table, update_row}
use kodi_backend_template_a.Notification.Verification.{
  VerificationToken, Strategy, Request, is_open, belongs_to, supersede, fresh_token, is_late,
  latest, resend_candidate, State, issue, emit, deliver, send_with, send_verification,
  existing_token, is_standing, resend_verification, send_unless, already_sent,
}
use kodi_backend_template_a.Notification.Verification.Calls.{issue_rows}

-- Created at that time or before.
unfoldable pub CreatedBy : ℕ → VerificationToken → Type 0
CreatedBy now t = t.created_at ≤ now

latest_last :
    (xs : List VerificationToken) (t : VerificationToken)
    → All (CreatedBy t.created_at) xs
    → latest (xs ++ t ∷ []) ≡ some t
unfolding latest CreatedBy
latest_last [] t all = refl
latest_last (x ∷ xs) t all =
    let newest : leb x.created_at t.created_at ≡ true = ground (arith, all.0) in
    rw (latest_last xs t all.1, newest) refl

supersede-CreatedBy :
    (now : ℕ) (p : VerificationToken → Bool) (t : VerificationToken)
    → CreatedBy now t
    → CreatedBy now (update_row p supersede t)
unfolding CreatedBy supersede
supersede-CreatedBy now p t h = elim (Bool-cases (p t)) [
  | inl hit ↦ rw hit h
  | inr miss ↦ rw miss h
]

module _ (table : Table VerificationToken) (strategies : String → Option Strategy) where
  open table use {rows}

  issue-existing_token :
      (now : ℕ) (r : Request) (s : State table strategies)
      → All (CreatedBy now) (rows s.tokens)
      → existing_token table strategies r (issue table strategies now r s)
        ≡ some (fresh_token now r)
  unfolding existing_token resend_candidate belongs_to fresh_token
  issue-existing_token now r s all =
      let open_here = is_open r.user_id r.identifier r.type in
      let candidate = resend_candidate r.user_id r.identifier r.type in
      let old = map (update_row open_here supersede) (rows s.tokens) in
      let fresh : candidate (fresh_token now r) ≡ true =
        rw (eq_refl r.user_id, eq_refl r.identifier, eq_refl r.type) refl in
      rw
        (
          issue_rows table strategies now r s,
          filter-append candidate old (fresh_token now r ∷ []),
          fresh,
        )
        (latest_last (filter candidate old) (fresh_token now r) (
          All-filter (CreatedBy now) candidate old (
            All-map (CreatedBy now) (update_row open_here supersede) (rows s.tokens)
              (supersede-CreatedBy now open_here) all)))

  -- After a request of a known type with a valid identifier, made when no stored token was created
  -- later, a resend for the same user, identifier and type is refused as already sent, without a
  -- change, until 24 hours have passed. That also holds when the message did not go out.
  pub resend_verification-send_verification :
      (now later : ℕ) (r : Request) (s : State table strategies) (strategy : Strategy)
      (id secret : String)
      → strategies r.type ≡ some strategy
      → strategy.validate_identifier r.identifier ≡ true
      → All (CreatedBy now) (rows s.tokens)
      → later ≤ now + 24 * 3600
      → resend_verification table strategies later
          (record r { new_id = id; new_token = secret })
          (send_verification table strategies now r s).0
        ≡ ((send_verification table strategies now r s).0, refuse already_sent)
  unfolding resend_verification send_unless send_verification send_with deliver emit existing_token
      is_standing is_late fresh_token
  resend_verification-send_verification now later r s strategy id secret known valid all soon =
      let there = issue-existing_token now r s all in
      let early : ltb (now + 24 * 3600) later ≡ false = ground arith in
      rw (known, valid)
        (elim (Bool-cases (strategy.sends r.identifier r.new_token r.user_id)) [
          | inl sent ↦ rw (sent, there, early) refl
          | inr lost ↦ rw (lost, there, early) refl
        ])
