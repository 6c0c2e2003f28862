-- ===== src/Auth/Session/Revoke.antt =====
-- What logout and the revocation of sessions leave behind in auth.service.ts.
use Prim.Native.String
use text.Mathlib.TextPositions.{len-append}
use kodi_backend_template_a.Base.{
  ℕ, suc, leb, String, ◌≡◌, ◌≢◌, refl, sym, ap, ◌∙◌, inl, inr, Bool, true, false, Option, none,
  some, List, [], ◌∷◌, arith, eq_refl, ==_of_ne, ◌==◌, if◌then◌else◌, truthy_of_ne, Bool-cases,
  filter, filter-map_none, length,
}
use kodi_backend_template_a.Base.Store.{Table, KeyStore, update_row}
use kodi_backend_template_a.Auth.Session.{
  Session, AuthState, device_key, legacy_key, device_pattern, is_active, is_absent, revoke,
  revoke_where, drop_tokens, sessions_of, log_out, create_audit_log, get_sessions, newer_first,
  sort_newest, revoke_all_sessions,
}

-- The key of a device is not the key without a device.
pub device_key_ne : (user device : String) → device_key user device ≢ legacy_key user
device_key_ne user device = λ e.
    let lens : String.len (device_key user device) ≡ String.len (legacy_key user) =
      ap String.len e in
    let a = len-append "refresh_token:" (String.◌++◌ user (String.◌++◌ ":" device)) in
    let b = len-append user (String.◌++◌ ":" device) in
    let c = len-append ":" device in
    let d = len-append "refresh_token:" user in let one : String.len ":" ≡ 1 = refl in omega arith

revoked_inactive :
    (now : ℕ) (user : String) (s : Session)
    → is_active user (update_row (is_active user) (revoke now) s) ≡ false
unfolding is_active is_absent revoke
revoked_inactive now user s = ground arith

gone : (b : Bool) (o : Option String) → o ≡ none → (if b then none else o) ≡ none
gone true o h = refl
gone false o h = h

length-newer_first : (s : Session) (ts : List Session) → length (newer_first s ts) ≡ length (s ∷ ts)
unfolding newer_first
length-newer_first s [] = refl
length-newer_first s (t ∷ ts) =
    let rest = length-newer_first s ts in
    elim (Bool-cases (leb t.created_at s.created_at)) [
      | inl new' ↦ rw new' refl
      | inr old ↦ rw old (ap suc rest)
    ]

length-sort_newest : (ss : List Session) → length (sort_newest ss) ≡ length ss
unfolding sort_newest
length-sort_newest [] = refl
length-sort_newest (s ∷ ss) = length-newer_first s (sort_newest ss) ∙ ap suc (length-sort_newest ss)

module _ (store : KeyStore String) (table : Table Session) where
  open store use {get, get-del, get-del_matching, matches}
  open table use {rows, rows-update}

  revoke_where-get_sessions :
      (now : ℕ) (user : String) (s : AuthState store table)
      → get_sessions store table user (revoke_where store table now (is_active user) s) ≡ []
  unfolding get_sessions revoke_where sort_newest
  revoke_where-get_sessions now user s =
      rw
        (
          rows-update,
          filter-map_none (is_active user) (update_row (is_active user) (revoke now))
              (rows s.sessions) (revoked_inactive now user),
        )
        refl

  -- A logout without a device leaves the user no active session, no refresh token under a key that
  -- matches the pattern of the user's devices and none under the key without a device.
  pub log_out_everywhere :
      (now later : ℕ) (user key : String) (s : AuthState store table)
      → matches (device_pattern user) key ≡ true
      → (get_sessions store table user (log_out store table now user none s) ≡ [])
        × (get (log_out store table now user none s).keys later key ≡ none)
        × (get (log_out store table now user none s).keys later (legacy_key user) ≡ none)
  unfolding log_out drop_tokens revoke_where sessions_of create_audit_log get_sessions
  log_out_everywhere now later user key s covered = (
    revoke_where-get_sessions now user s,
    rw (get-del, get-del_matching, covered) (gone (legacy_key user == key) none refl),
    rw (get-del, eq_refl (legacy_key user)) refl,
  )

  -- A logout from one device removes the refresh token of that device and no other token.
  pub log_out_device_keys :
      (now later : ℕ) (user device key : String) (s : AuthState store table)
      → device ≢ ""
      → get (log_out store table now user (some device) s).keys later key
        ≡ (if device_key user device == key then none else get s.keys later key)
  unfolding log_out drop_tokens revoke_where create_audit_log
  log_out_device_keys now later user device key s named =
      rw (truthy_of_ne device named) (get-del s.keys later (device_key user device) key)

  -- The revocation of all sessions leaves the user no active session and answers how many there
  -- were, but a refresh token that was stored for a device is still there.
  pub revoke_all_sessions-get :
      (now later : ℕ) (user device : String) (s : AuthState store table)
      → (get_sessions store table user (revoke_all_sessions store table now user s).0 ≡ [])
        × ((revoke_all_sessions store table now user s).1
            ≡ length (get_sessions store table user s))
        × (get (revoke_all_sessions store table now user s).0.keys later (device_key user device)
            ≡ get s.keys later (device_key user device))
  unfolding revoke_all_sessions create_audit_log revoke_where get_sessions
  revoke_all_sessions-get now later user device s = (
    revoke_where-get_sessions now user s,
    sym (length-sort_newest (filter (is_active user) (rows s.sessions))),
    rw
        (
          get-del,
          ==_of_ne (legacy_key user) (device_key user device)
              (λ e. device_key_ne user device (sym e)),
        )
        refl,
  )
