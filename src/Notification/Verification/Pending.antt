-- ===== src/Notification/Verification/Pending.antt =====
-- How many tokens of a user, identifier and type are open in verification.service.ts, and what
-- becomes of the earlier ones.
use kodi_backend_template_a.Base.{
  ℕ, ◌≤◌, String, ◌≡◌, refl, sym, inl, inr, Bool, true, false, Option, some, List, [], ◌∷◌, ◌++◌,
  map, arith, eq_iff, eq_refl, Bool-cases, filter, length, filter-append, filter-map_none,
  length-filter-append_one, length-filter-map_le,
}
use kodi_backend_template_a.Base.Store.{Table, update_row}
use kodi_backend_template_a.Notification.Verification.{
  VerificationToken, Strategy, Request, is_open, belongs_to, supersede, fresh_token, mark_expired,
  mark_failed, mark_verified, mark_cancelled, has_id, State, issue, emit, deliver, send_with,
  send_verification,
}
use kodi_backend_template_a.Notification.Verification.Calls.{
  Call, Mark, expires, fails, verifies, cancels, run, issue_rows, run-Holds,
}

closed :
    (user identifier type : String) (t : VerificationToken)
    → is_open user identifier type (update_row (is_open user identifier type) supersede t) ≡ false
unfolding is_open supersede
closed user identifier type t = elim (Bool-cases (is_open user identifier type t)) [
  | inl was ↦ rw was refl
  | inr not ↦ rw not not
]

-- Superseding some tokens opens none.
supersede_open :
    (p : VerificationToken → Bool) (user identifier type : String) (t : VerificationToken)
    → is_open user identifier type (update_row p supersede t) ≡ true
    → is_open user identifier type t ≡ true
unfolding is_open supersede
supersede_open p user identifier type t h = ground (arith)

update_open :
    {f : VerificationToken → VerificationToken} (m : Mark f) (id user identifier type : String)
    (t : VerificationToken)
    → is_open user identifier type (update_row (has_id id) f t) ≡ true
    → is_open user identifier type t ≡ true
unfolding is_open mark_expired mark_failed mark_verified mark_cancelled belongs_to
update_open expires id user identifier type t h = ground arith
update_open fails id user identifier type t h = ground arith
update_open (verifies now) id user identifier type t h = ground arith
update_open (cancels now) id user identifier type t h = ground arith

open_new :
    (now : ℕ) (r : Request) → is_open r.user_id r.identifier r.type (fresh_token now r) ≡ true
unfolding is_open fresh_token belongs_to
open_new now r = rw (eq_refl r.user_id, eq_refl r.identifier, eq_refl r.type) refl

fresh_token_owner :
    (now : ℕ) (r : Request) (user identifier type : String)
    → is_open user identifier type (fresh_token now r) ≡ true
    → (r.user_id ≡ user) × ((r.identifier ≡ identifier) × (r.type ≡ type))
unfolding is_open fresh_token belongs_to
fresh_token_owner now r user identifier type h =
    ground (arith, eq_iff r.user_id user, eq_iff r.identifier identifier, eq_iff r.type type)

-- Two open tokens of the same user, identifier and type are never there at once.
unfoldable pub AtMostOne : List VerificationToken → Type 0
AtMostOne xs =
    (user identifier type : String) → length (filter (is_open user identifier type) xs) ≤ 1

issue-AtMostOne :
    (now : ℕ) (r : Request) (xs : List VerificationToken)
    → AtMostOne xs
    → AtMostOne (
        map (update_row (is_open r.user_id r.identifier r.type) supersede) xs
        ++ fresh_token now r ∷ [])
unfolding AtMostOne
issue-AtMostOne now r xs h user identifier type =
    let open_here = is_open r.user_id r.identifier r.type in
    let ys = map (update_row open_here supersede) xs in
    rw (length-filter-append_one (is_open user identifier type) ys (fresh_token now r))
      (elim (Bool-cases (is_open user identifier type (fresh_token now r))) [
        | inl hit ↦
            let (a, (b, c)) = fresh_token_owner now r user identifier type hit in
            let gone : filter (is_open user identifier type) ys ≡ [] =
              rw (sym a, sym b, sym c)
                (filter-map_none open_here (update_row open_here supersede) xs
                  (closed r.user_id r.identifier r.type)) in
            rw (hit, gone) (omega arith)
        | inr miss ↦
            let fewer =
              length-filter-map_le (is_open user identifier type) (update_row open_here supersede)
                xs (supersede_open open_here user identifier type) in
            let few = h user identifier type in rw miss (omega arith)
      ])

update-AtMostOne :
    (f : VerificationToken → VerificationToken) (m : Mark f) (id : String)
    (xs : List VerificationToken)
    → AtMostOne xs
    → AtMostOne (map (update_row (has_id id) f) xs)
unfolding AtMostOne
update-AtMostOne f m id xs h user identifier type =
    let fewer =
      length-filter-map_le (is_open user identifier type) (update_row (has_id id) f) xs
        (update_open m id user identifier type) in
    let few = h user identifier type in omega arith

module _ (table : Table VerificationToken) (strategies : String → Option Strategy) where
  open table use {rows}

  -- From a state in which no user, identifier and type have two open tokens, every sequence of
  -- sends, verifications, cancellations and resends, failed ones included, leads to such a state.
  pub run-AtMostOne :
      (cs : List Call) (s : State table strategies)
      → AtMostOne (rows s.tokens)
      → AtMostOne (rows (run table strategies cs s).tokens)
  run-AtMostOne cs s h =
      run-Holds table strategies AtMostOne update-AtMostOne issue-AtMostOne cs s h

  -- The open tokens of a user, identifier and type.
  abbrev pub open_tokens :
      String → String → String → State table strategies → List VerificationToken
  open_tokens user identifier type s = filter (is_open user identifier type) (rows s.tokens)

  issue-open_tokens :
      (now : ℕ) (r : Request) (s : State table strategies)
      → open_tokens r.user_id r.identifier r.type (issue table strategies now r s)
        ≡ fresh_token now r ∷ []
  issue-open_tokens now r s =
      let open_here = is_open r.user_id r.identifier r.type in
      let ys = map (update_row open_here supersede) (rows s.tokens) in
      rw
        (
          issue_rows table strategies now r s,
          filter-append open_here ys (fresh_token now r ∷ []),
          filter-map_none open_here (update_row open_here supersede) (rows s.tokens)
              (closed r.user_id r.identifier r.type),
          open_new now r,
        )
        refl

  -- A request of a known type with a valid identifier leaves the new token as the only open one of
  -- its user, identifier and type, whether or not the message goes out.
  pub send_verification-open_tokens :
      (now : ℕ) (r : Request) (s : State table strategies) (strategy : Strategy)
      → strategies r.type ≡ some strategy
      → strategy.validate_identifier r.identifier ≡ true
      → open_tokens r.user_id r.identifier r.type (send_verification table strategies now r s).0
        ≡ fresh_token now r ∷ []
  unfolding send_verification send_with deliver emit
  send_verification-open_tokens now r s strategy known valid =
      rw (known, valid)
        (elim (Bool-cases (strategy.sends r.identifier r.new_token r.user_id)) [
          | inl sent ↦ rw sent (issue-open_tokens now r s)
          | inr lost ↦ rw lost (issue-open_tokens now r s)
        ])
