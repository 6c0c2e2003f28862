-- ===== src/Notification/Verification/Used.antt =====
-- What `verifyToken` of verification.service.ts answers for a token that was used, cancelled,
-- superseded or tried too often.
use kodi_backend_template_a.Base.{
  ℕ, String, ◌≡◌, refl, ◌∙◌, inl, inr, Bool, true, false, Option, none, some, [], ◌∷◌, map,
  Bool-cases, find?-append, refuse, answer, eq_refl,
}
use kodi_backend_template_a.Base.Store.{Table, update_row, find?-update}
use kodi_backend_template_a.Notification.Verification.{
  VerificationToken, VerificationStatus, VerificationError, verified, cancelled, Strategy, Request,
  is_open, supersede, fresh_token, mark_verified, mark_cancelled, has_id, has_token, State, issue,
  update_by_id, emit, deliver, send_with, send_verification, obstacle, accept, verify_against,
  refuse_with, link_sent, verify_found, verify_token, find_token, withdraw, cancel_at, cancel_found,
  cancel_verification, token_cancelled, token_used,
}
use kodi_backend_template_a.Notification.Verification.Calls.{issue_rows}

module _ (table : Table VerificationToken) (strategies : String → Option Strategy) where
  open table use {rows, rows-insert, rows-update}

  update-find_token :
      (f : VerificationToken → VerificationToken) (t : VerificationToken) (secret : String)
      (s : State table strategies)
      → ((v : VerificationToken) → has_token secret (f v) ≡ has_token secret v)
      → find_token table strategies secret s ≡ some t
      → find_token table strategies secret (update_by_id table strategies f t s) ≡ some (f t)
  unfolding find_token update_by_id has_id
  update-find_token f t secret s same found =
      let moved = find?-update (has_token secret) (has_id t.id) f (rows s.tokens) same found in
      let hit : has_id t.id t ≡ true = eq_refl t.id in rw rows-update (moved ∙ rw hit refl)

  -- A call of `verifyToken` on a token that is found with an obstacle.
  verify_known :
      (now : ℕ) (secret : String) (s : State table strategies) (t : VerificationToken)
      (e : VerificationError)
      → find_token table strategies secret s ≡ some t
      → obstacle now t ≡ some e
      → verify_token table strategies now secret s ≡ (refuse_with table strategies e t s, refuse e)
  unfolding verify_token verify_found verify_against
  verify_known now secret s t e found stop = rw (found, stop) refl

  accept-find_token :
      (now : ℕ) (secret : String) (s : State table strategies) (t : VerificationToken)
      → find_token table strategies secret s ≡ some t
      → find_token table strategies secret (accept table strategies now t s)
        ≡ some (mark_verified now t)
  unfolding accept emit find_token has_token mark_verified
  accept-find_token now secret s t found =
      update-find_token (mark_verified now) t secret s (λ v. refl) found

  accepted :
      (o : Option VerificationError) (now later : ℕ) (secret : String) (s : State table strategies)
      (t u : VerificationToken)
      → find_token table strategies secret s ≡ some t
      → (verify_against table strategies o now t s).1 ≡ answer u
      → verify_token table strategies later secret (verify_against table strategies o now t s).0
        ≡ ((verify_against table strategies o now t s).0, refuse token_used)
  unfolding verify_against refuse_with obstacle mark_verified
  accepted (some e) now later secret s t u found ok = cc
  accepted none now later secret s t u found ok =
      verify_known later secret (accept table strategies now t s) (mark_verified now t) token_used
        (accept-find_token now secret s t found) refl

  found_accepted :
      (o : Option VerificationToken) (now later : ℕ) (secret : String) (s : State table strategies)
      (u : VerificationToken)
      → find_token table strategies secret s ≡ o
      → (verify_found table strategies now o s).1 ≡ answer u
      → verify_token table strategies later secret (verify_found table strategies now o s).0
        ≡ ((verify_found table strategies now o s).0, refuse token_used)
  unfolding verify_found
  found_accepted none now later secret s u found ok = cc
  found_accepted (some t) now later secret s u found ok =
      accepted (obstacle now t) now later secret s t u found ok

  -- A token works once: after a verification that succeeds, a further one with the same token, at
  -- any time, is refused because the token was used, and changes nothing.
  pub verify_token-verify_token :
      (now later : ℕ) (secret : String) (s : State table strategies) (u : VerificationToken)
      → (verify_token table strategies now secret s).1 ≡ answer u
      → verify_token table strategies later secret (verify_token table strategies now secret s).0
        ≡ ((verify_token table strategies now secret s).0, refuse token_used)
  unfolding verify_token
  verify_token-verify_token now later secret s u ok =
      found_accepted (find_token table strategies secret s) now later secret s u refl ok

  cancelled_obstacle :
      (now : ℕ) (t : VerificationToken)
      → t.is_used ≡ false
      → t.status ≡ cancelled
      → obstacle now t ≡ some token_cancelled
  unfolding obstacle
  cancelled_obstacle now t unused is_c = rw (unused, is_c) refl

  issue-find_token :
      (now : ℕ) (r : Request) (secret : String) (s : State table strategies) (t : VerificationToken)
      → find_token table strategies secret s ≡ some t
      → is_open r.user_id r.identifier r.type t ≡ true
      → find_token table strategies secret (issue table strategies now r s) ≡ some (supersede t)
  unfolding find_token has_token supersede
  issue-find_token now r secret s t found open_t =
      let open_here = is_open r.user_id r.identifier r.type in
      let moved =
        find?-update (has_token secret) open_here supersede (rows s.tokens) (λ v. refl) found in
      let there =
        find?-append (has_token secret) (map (update_row open_here supersede) (rows s.tokens))
          (fresh_token now r ∷ []) moved in
      rw (issue_rows table strategies now r s) (there ∙ rw open_t refl)

  -- After a request for the same user, identifier and type with a valid identifier, an open token
  -- that was not used is refused as cancelled, at any time and without a change.
  pub verify_token-send_verification :
      (now later : ℕ) (r : Request) (secret : String) (s : State table strategies)
      (t : VerificationToken) (strategy : Strategy)
      → strategies r.type ≡ some strategy
      → strategy.validate_identifier r.identifier ≡ true
      → find_token table strategies secret s ≡ some t
      → is_open r.user_id r.identifier r.type t ≡ true
      → t.is_used ≡ false
      → verify_token table strategies later secret (send_verification table strategies now r s).0
        ≡ ((send_verification table strategies now r s).0, refuse token_cancelled)
  unfolding send_verification send_with deliver emit refuse_with supersede find_token
  verify_token-send_verification now later r secret s t strategy known valid found open_t unused =
      let there = issue-find_token now r secret s t found open_t in
      let stop = cancelled_obstacle later (supersede t) unused refl in
      rw (known, valid)
        (elim (Bool-cases (strategy.sends r.identifier r.new_token r.user_id)) [
          | inl sent ↦ rw sent (
              verify_known later secret
                (emit table strategies (link_sent r.type r.identifier r.new_token)
                  (issue table strategies now r s))
                (supersede t) token_cancelled there stop)
          | inr lost ↦ rw lost (
              verify_known later secret (issue table strategies now r s) (supersede t)
                token_cancelled there stop)
        ])

  found_cancelled :
      (status : VerificationStatus) (now later : ℕ) (secret : String) (s : State table strategies)
      (t : VerificationToken) (b : Bool)
      → find_token table strategies secret s ≡ some t
      → t.is_used ≡ false
      → t.status ≡ status
      → (cancel_at table strategies status now t s).1 ≡ answer b
      → verify_token table strategies later secret (cancel_at table strategies status now t s).0
        ≡ ((cancel_at table strategies status now t s).0, refuse token_cancelled)
  unfolding cancel_at withdraw emit find_token has_token mark_cancelled refuse_with
  found_cancelled verified now later secret s t b found unused e ok = cc
  found_cancelled cancelled now later secret s t b found unused e ok =
      verify_known later secret s t token_cancelled found (cancelled_obstacle later t unused e)
  found_cancelled _ now later secret s t b found unused e ok =
      verify_known later secret (withdraw table strategies now t s) (mark_cancelled now t)
        token_cancelled (update-find_token (mark_cancelled now) t secret s (λ v. refl) found)
        (cancelled_obstacle later (mark_cancelled now t) unused refl)

  -- After a cancellation that succeeds, by this call or before, a token that was not used is refused
  -- as cancelled, at any time and without a change.
  pub verify_token-cancel_verification :
      (now later : ℕ) (secret : String) (s : State table strategies) (t : VerificationToken)
      (b : Bool)
      → find_token table strategies secret s ≡ some t
      → t.is_used ≡ false
      → (cancel_verification table strategies now secret s).1 ≡ answer b
      → verify_token table strategies later secret
          (cancel_verification table strategies now secret s).0
        ≡ ((cancel_verification table strategies now secret s).0, refuse token_cancelled)
  unfolding cancel_verification cancel_found
  verify_token-cancel_verification now later secret s t b found unused =
      rw found (λ ok. found_cancelled t.status now later secret s t b found unused refl ok)
