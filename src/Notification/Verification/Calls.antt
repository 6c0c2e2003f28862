-- ===== src/Notification/Verification/Calls.antt =====
-- Sequences of calls of verification.service.ts, and what each call does to the rows.
use kodi_backend_template_a.Base.{
  ℕ, String, ◌≡◌, refl, inl, inr, Bool, true, false, Option, none, some, List, [], ◌∷◌, ◌++◌, map,
  Bool-cases,
}
use kodi_backend_template_a.Base.Store.{Table, update_row}
use kodi_backend_template_a.Notification.Verification.{
  VerificationToken, VerificationError, VerificationStatus, verified, cancelled, token_expired,
  too_many_attempts, Strategy, Request, is_open, supersede, fresh_token, mark_expired, mark_failed,
  mark_verified, mark_cancelled, has_id, State, issue, update_by_id, emit, deliver, send_with,
  send_verification, obstacle, refuse_with, verify_against, cancel_at, accept, verify_found,
  verify_token, find_token, withdraw, cancel_found, cancel_verification, existing_token,
  is_standing, resend_verification, send_unless,
}

-- A call, with the time at which it is made.
pub data Call : Type 0 where
  send : ℕ → Request → Call
  verify : ℕ → String → Call
  cancel : ℕ → String → Call
  resend : ℕ → Request → Call

-- The ways in which a call marks one row.
pub data Mark : (VerificationToken → VerificationToken) → Type 0 where
  expires : Mark mark_expired
  fails : Mark mark_failed
  verifies : (now : ℕ) → Mark (mark_verified now)
  cancels : (now : ℕ) → Mark (mark_cancelled now)

module _ (table : Table VerificationToken) (strategies : String → Option Strategy) where
  open table use {rows, rows-insert, rows-update}

  abbrev pub step : Call → State table strategies → State table strategies
  step (send now r) s = (send_verification table strategies now r s).0
  step (verify now secret) s = (verify_token table strategies now secret s).0
  step (cancel now secret) s = (cancel_verification table strategies now secret s).0
  step (resend now r) s = (resend_verification table strategies now r s).0

  abbrev pub run : List Call → State table strategies → State table strategies
  run [] s = s
  run (c ∷ cs) s = run cs (step c s)

  pub issue_rows :
      (now : ℕ) (r : Request) (s : State table strategies)
      → rows (issue table strategies now r s).tokens
        ≡ map (update_row (is_open r.user_id r.identifier r.type) supersede) (rows s.tokens)
          ++ fresh_token now r ∷ []
  unfolding issue
  issue_rows now r s = rw (rows-insert, rows-update) refl

  module _ (P : List VerificationToken → Type 0)
      (by_mark : (f : VerificationToken → VerificationToken) (m : Mark f) (id : String)
          (xs : List VerificationToken)
        → P xs
        → P (map (update_row (has_id id) f) xs))
      (by_issue : (now : ℕ) (r : Request) (xs : List VerificationToken)
        → P xs
        → P (
            map (update_row (is_open r.user_id r.identifier r.type) supersede) xs
            ++ fresh_token now r ∷ [])) where
    Holds : State table strategies → Type 0
    Holds s = P (rows s.tokens)

    update-Holds :
        {f : VerificationToken → VerificationToken} (m : Mark f) (t : VerificationToken)
        (s : State table strategies)
        → Holds s
        → Holds (update_by_id table strategies f t s)
    unfolding update_by_id Holds
    update-Holds {f = f} m t s h = rw rows-update (by_mark f m t.id (rows s.tokens) h)

    refuse_with-Holds :
        (e : VerificationError) (t : VerificationToken) (s : State table strategies)
        → Holds s
        → Holds (refuse_with table strategies e t s)
    unfolding refuse_with
    refuse_with-Holds token_expired t s h = update-Holds expires t s h
    refuse_with-Holds too_many_attempts t s h = update-Holds fails t s h
    refuse_with-Holds _ t s h = h

    send-Holds :
        (o : Option Strategy) (now : ℕ) (r : Request) (s : State table strategies)
        → Holds s
        → Holds (send_with table strategies o now r s).0
    unfolding send_with deliver Holds emit
    send-Holds none now r s h = h
    send-Holds (some strategy) now r s h =
        let issued : P (rows (issue table strategies now r s).tokens) =
          rw (issue_rows now r s) (by_issue now r (rows s.tokens) h) in
        elim (Bool-cases (strategy.validate_identifier r.identifier)) [
          | inl valid ↦ elim (Bool-cases (strategy.sends r.identifier r.new_token r.user_id)) [
            | inl sent ↦ rw (valid, sent) issued
            | inr lost ↦ rw (valid, lost) issued
          ]
          | inr invalid ↦ rw invalid h
        ]

    verify-Holds :
        (o : Option VerificationError) (now : ℕ) (t : VerificationToken)
        (s : State table strategies)
        → Holds s
        → Holds (verify_against table strategies o now t s).0
    unfolding verify_against accept emit Holds
    verify-Holds none now t s h = update-Holds (verifies now) t s h
    verify-Holds (some e) now t s h = refuse_with-Holds e t s h

    found-Holds :
        (o : Option VerificationToken) (now : ℕ) (s : State table strategies)
        → Holds s
        → Holds (verify_found table strategies now o s).0
    unfolding verify_found
    found-Holds none now s h = h
    found-Holds (some t) now s h = verify-Holds (obstacle now t) now t s h

    cancel-Holds :
        (status : VerificationStatus) (now : ℕ) (t : VerificationToken) (s : State table strategies)
        → Holds s
        → Holds (cancel_at table strategies status now t s).0
    unfolding cancel_at withdraw emit Holds
    cancel-Holds verified now t s h = h
    cancel-Holds cancelled now t s h = h
    cancel-Holds _ now t s h = update-Holds (cancels now) t s h

    withdrawn-Holds :
        (o : Option VerificationToken) (now : ℕ) (s : State table strategies)
        → Holds s
        → Holds (cancel_found table strategies now o s).0
    unfolding cancel_found
    withdrawn-Holds none now s h = h
    withdrawn-Holds (some t) now s h = cancel-Holds t.status now t s h

    resend-Holds :
        (b : Bool) (now : ℕ) (r : Request) (s : State table strategies)
        → Holds s
        → Holds (send_unless table strategies b now r s).0
    unfolding send_unless send_verification
    resend-Holds true now r s h = h
    resend-Holds false now r s h = send-Holds (strategies r.type) now r s h

    pub step-Holds :
        (c : Call) (s : State table strategies) → P (rows s.tokens) → P (rows (step c s).tokens)
    unfolding Holds send_verification verify_token cancel_verification resend_verification
    step-Holds (send now r) s h = send-Holds (strategies r.type) now r s h
    step-Holds (verify now secret) s h = found-Holds (find_token table strategies secret s) now s h
    step-Holds (cancel now secret) s h =
        withdrawn-Holds (find_token table strategies secret s) now s h
    step-Holds (resend now r) s h =
        resend-Holds (is_standing now (existing_token table strategies r s)) now r s h

    -- What every call keeps holds after every sequence of calls.
    pub run-Holds :
        (cs : List Call) (s : State table strategies)
        → P (rows s.tokens)
        → P (rows (run cs s).tokens)
    run-Holds [] s h = h
    run-Holds (c ∷ cs) s h = run-Holds cs (step c s) (step-Holds c s h)
