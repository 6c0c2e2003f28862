-- ===== src/Notification/Verification/Attempts.antt =====
-- The limit on the attempts with a token in verification.service.ts, over sequences of calls.
use kodi_backend_template_a.Base.{
  ℕ, true, ◌⊎◌, String, ◌≡◌, ◌≢◌, refl, inl, inr, Bool, false, Option, none, some, List, [], ◌∷◌,
  ◌++◌, map, arith, leb, Bool-cases, All, All-map, All-append, All-find?, refuse,
}
use kodi_backend_template_a.Base.Store.{Table, update_row}
use kodi_backend_template_a.Notification.Verification.{
  VerificationToken, VerificationError, Strategy, Request, is_open, supersede, fresh_token,
  mark_expired, mark_failed, mark_verified, mark_cancelled, has_id, has_token, State, obstacle,
  verify_against, verify_found, verify_token, find_token, too_many_attempts,
}
use kodi_backend_template_a.Notification.Verification.Calls.{
  Call, Mark, expires, fails, verifies, cancels, run, run-Holds,
}

-- A token that was used, or that was not tried too often.
pub Untried : VerificationToken → Type 0
Untried t = (t.is_used ≡ true) ⊎ (leb t.max_attempts t.attempts ≡ false)

apply-Untried :
    {f : VerificationToken → VerificationToken} (m : Mark f) (t : VerificationToken)
    → Untried t
    → Untried (f t)
unfolding Untried mark_expired mark_failed mark_verified mark_cancelled
apply-Untried expires t h = h
apply-Untried fails t h = h
apply-Untried (verifies now) t h = inl refl
apply-Untried (cancels now) t h = h

update-Untried :
    {f : VerificationToken → VerificationToken} (m : Mark f) (id : String) (t : VerificationToken)
    → Untried t
    → Untried (update_row (has_id id) f t)
update-Untried m id t h = elim (Bool-cases (has_id id t)) [
  | inl hit ↦ rw hit (apply-Untried m t h)
  | inr miss ↦ rw miss h
]

supersede-Untried :
    (p : VerificationToken → Bool) (t : VerificationToken)
    → Untried t
    → Untried (update_row p supersede t)
unfolding Untried supersede
supersede-Untried p t h = elim (Bool-cases (p t)) [ inl hit ↦ rw hit h | inr miss ↦ rw miss h ]

fresh_token-Untried : (now : ℕ) (r : Request) → Untried (fresh_token now r)
unfolding Untried fresh_token
fresh_token-Untried now r = inr refl

Untried-obstacle :
    (now : ℕ) (t : VerificationToken) → Untried t → obstacle now t ≢ some too_many_attempts
unfolding Untried obstacle
Untried-obstacle now t h = λ e. ground arith

module _ (table : Table VerificationToken) (strategies : String → Option Strategy) where
  open table use {rows, rows-insert, rows-update}

  refused_as :
      (o : Option VerificationError) (now : ℕ) (t : VerificationToken) (s : State table strategies)
      → o ≢ some too_many_attempts
      → (verify_against table strategies o now t s).1 ≢ refuse too_many_attempts
  unfolding verify_against
  refused_as none now t s h = λ e. cc
  refused_as (some e) now t s h = λ same. h (cc same)

  found-Untried :
      (o : Option VerificationToken) (now : ℕ) (s : State table strategies)
      → ((t : VerificationToken) → o ≡ some t → Untried t)
      → (verify_found table strategies now o s).1 ≢ refuse too_many_attempts
  unfolding verify_found
  found-Untried none now s h = λ e. cc
  found-Untried (some t) now s h =
      refused_as (obstacle now t) now t s (Untried-obstacle now t (h t refl))

  update-All :
      (f : VerificationToken → VerificationToken) (m : Mark f) (id : String)
      (xs : List VerificationToken)
      → All Untried xs
      → All Untried (map (update_row (has_id id) f) xs)
  update-All f m id xs all = All-map Untried (update_row (has_id id) f) xs (update-Untried m id) all

  issue-All :
      (now : ℕ) (r : Request) (xs : List VerificationToken)
      → All Untried xs
      → All Untried (
          map (update_row (is_open r.user_id r.identifier r.type) supersede) xs
          ++ fresh_token now r ∷ [])
  issue-All now r xs all =
      let open_here = is_open r.user_id r.identifier r.type in
      All-append Untried (map (update_row open_here supersede) xs) (fresh_token now r ∷ [])
        (All-map Untried (update_row open_here supersede) xs (supersede-Untried open_here) all)
        (fresh_token-Untried now r, tt)

  -- Starting with no token that was tried without being used, no sequence of calls leads to a state
  -- in which a verification is refused for too many attempts.
  pub run-too_many_attempts :
      (cs : List Call) (s : State table strategies) (now : ℕ) (secret : String)
      → All Untried (rows s.tokens)
      → (verify_token table strategies now secret (run table strategies cs s)).1
        ≢ refuse too_many_attempts
  unfolding verify_token find_token
  run-too_many_attempts cs s now secret all =
      let reached = run table strategies cs s in
      let all' = run-Holds table strategies (All Untried) update-All issue-All cs s all in
      found-Untried (find_token table strategies secret reached) now reached
        (λ t found. All-find? Untried (has_token secret) (rows reached.tokens) all' found)
