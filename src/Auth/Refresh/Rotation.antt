-- ===== src/Auth/Refresh/Rotation.antt =====
-- What a refresh of auth.service.ts writes, and whether the old token is still accepted after it.
use kodi_backend_template_a.Base.{
  ℕ, ◌+◌, ◌*◌, ◌<◌, ◌≤◌, String, ◌≡◌, ◌≢◌, refl, ◌∙◌, Bool, true, false, Option, none, some, List,
  [], ◌||◌, ◌==◌, ==_of_ne, eq_refl, arith, if◌then◌else◌, or_else-some, truthy_of_ne, or_else, ltb,
  refuse, answer, ret,
}
use kodi_backend_template_a.Base.Store.{Table, KeyStore}
use kodi_backend_template_a.Rbac.Permission.{Assignment, PermissionDb}
use kodi_backend_template_a.Auth.Jwt.{
  Signer, JwtConfig, TokenPair, TokenPayload, verify_refresh_token,
}
use kodi_backend_template_a.Auth.Services.{User, Services}
use kodi_backend_template_a.Auth.Session.{
  Session, AuthState, device_key, legacy_key, create_audit_log, store_session, store_token,
}
use kodi_backend_template_a.Auth.Session.Revoke.{device_key_ne}
use kodi_backend_template_a.Auth.Login.{day}
use kodi_backend_template_a.Auth.Refresh.{
  invalid_refresh_token, token_key, refresh_lifetime, stored_token, matches_stored, refresh_pair,
  refresh_with, refresh_as, refresh_active, refresh_matched, refresh_found, refresh_verified,
  refresh_tokens,
}

module _ (store : KeyStore String) (table : Table Session) (services : Services)
    (permissions : PermissionDb) (signer : Signer) (config : JwtConfig) where
  open store use {Keys, get, setex, get-setex}

  with_keys :
      (o : Option (List Assignment)) (now : ℕ) (session : String) (guest : Bool)
      (device : Option String) (u : User) (s : AuthState store table) (pair : TokenPair)
      → (refresh_with store table services permissions signer config now session guest device u o
          s).1
        ≡ answer pair
      → (refresh_with store table services permissions signer config now session guest device u o
          s).0.keys
        ≡ setex s.keys now
            (token_key u.id (or_else device u.device_id))
            (refresh_lifetime guest)
            pair.refresh_token
  unfolding refresh_with create_audit_log store_session store_token
  with_keys none now session guest device u s pair ok = cc
  with_keys (some l) now session guest device u s pair ok =
      let same : refresh_pair store table services permissions signer config now guest
            (or_else device u.device_id) u l
          ≡ pair =
        cc in
      rw same refl

  active_keys :
      (b : Bool) (now : ℕ) (session : String) (payload : TokenPayload) (device : Option String)
      (u : User) (s : AuthState store table) (pair : TokenPair)
      → (refresh_active store table services permissions signer config b now session payload device
          u s).1
        ≡ answer pair
      → (refresh_active store table services permissions signer config b now session payload device
          u s).0.keys
        ≡ setex s.keys now
            (token_key u.id (or_else device u.device_id))
            (refresh_lifetime (payload.options.is_guest || u.is_guest))
            pair.refresh_token
  unfolding refresh_active refresh_as
  active_keys true now session payload device u s pair ok =
      let guest = payload.options.is_guest || u.is_guest in
      with_keys (if guest then some [] else services.assignments u.id) now session guest device u s
        pair ok
  active_keys false now session payload device u s pair ok = cc

  found_keys :
      (o : Option (Option User)) (now : ℕ) (session : String) (payload : TokenPayload)
      (device : Option String) (s : AuthState store table) (pair : TokenPair)
      → (refresh_found store table services permissions signer config now session payload device o
          s).1
        ≡ answer pair
      → (u : User) × (o ≡ some (some u))
        × ((refresh_found store table services permissions signer config now session payload device
              o s).0.keys
            ≡ setex s.keys now
                (token_key u.id (or_else device u.device_id))
                (refresh_lifetime (payload.options.is_guest || u.is_guest))
                pair.refresh_token)
  unfolding refresh_found
  found_keys none now session payload device s pair ok = cc
  found_keys (some none) now session payload device s pair ok = cc
  found_keys (some (some u)) now session payload device s pair ok =
      (u, refl, active_keys u.is_active now session payload device u s pair ok)

  matched_keys :
      (b : Bool) (now : ℕ) (session : String) (payload : TokenPayload) (device : Option String)
      (s : AuthState store table) (pair : TokenPair)
      → (refresh_matched store table services permissions signer config b now session payload device
          s).1
        ≡ answer pair
      → (u : User) × (services.find_by_id payload.sub ≡ some (some u))
        × ((refresh_matched store table services permissions signer config b now session payload
              device s).0.keys
            ≡ setex s.keys now
                (token_key u.id (or_else device u.device_id))
                (refresh_lifetime (payload.options.is_guest || u.is_guest))
                pair.refresh_token)
  unfolding refresh_matched
  matched_keys true now session payload device s pair ok =
      found_keys (services.find_by_id payload.sub) now session payload device s pair ok
  matched_keys false now session payload device s pair ok = cc

  -- A refresh that succeeds writes the new token, and nothing else, to the key of the device: the
  -- token's own, or else the caller's, or else the user's.
  pub refresh_tokens_keys :
      (now : ℕ) (session token : String) (provided : Option String) (s : AuthState store table)
      (payload : TokenPayload) (pair : TokenPair)
      → verify_refresh_token signer config now token ≡ ret payload
      → (refresh_tokens store table services permissions signer config now session token provided
          s).1
        ≡ answer pair
      → (u : User) × (services.find_by_id payload.sub ≡ some (some u))
        × ((refresh_tokens store table services permissions signer config now session token provided
              s).0.keys
            ≡ setex s.keys now
                (token_key u.id (or_else (or_else payload.options.device_id provided) u.device_id))
                (refresh_lifetime (payload.options.is_guest || u.is_guest))
                pair.refresh_token)
  unfolding refresh_tokens refresh_verified
  refresh_tokens_keys now session token provided s payload pair valid =
      rw valid
        (matched_keys _ now session payload (or_else payload.options.device_id provided) s pair)

  matched :
      (b : Bool) (now : ℕ) (session : String) (payload : TokenPayload) (device : Option String)
      (s : AuthState store table)
      → b ≡ false
      → refresh_matched store table services permissions signer config b now session payload device
          s
        ≡ (s, refuse invalid_refresh_token)
  unfolding refresh_matched
  matched true now session payload device s h = cc
  matched false now session payload device s h = refl

  -- Another token under the key of the device is not the one that is asked about.
  replaced :
      (keys : Keys) (later : ℕ) (user d new old : String)
      → d ≢ ""
      → new ≢ ""
      → new ≢ old
      → get keys later (device_key user d) ≡ some new
      → matches_stored store table services permissions signer config
          (stored_token store table services permissions signer config keys later user (some d))
          old
        ≡ false
  unfolding matches_stored stored_token
  replaced keys later user d new old named full other there =
      let found : stored_token store table services permissions signer config keys later user
            (some d)
          ≡ some new =
        rw (truthy_of_ne d named, there)
          (or_else-some new (get keys later (legacy_key user)) full) in
      let test : matches_stored store table services permissions signer config (some new) old
          ≡ (new == old) =
        rw (matches_stored, truthy_of_ne new full) refl in
      rw found (test ∙ ==_of_ne new old other)

  kept_until :
      (now later lifetime : ℕ) (keys : Keys) (key new : String)
      → later < now + lifetime
      → get (setex keys now key lifetime new) later key ≡ some new
  kept_until now later lifetime keys key new soon =
      let early : ltb later (now + lifetime) ≡ true = ground arith in
      get-setex keys now later lifetime key key new ∙ rw (eq_refl key, early) refl

  lifetime_bound : (guest : Bool) → 7 * day ≤ refresh_lifetime guest
  unfolding refresh_lifetime
  lifetime_bound true = omega arith
  lifetime_bound false = omega arith

  named_key : (user d : String) → d ≢ "" → token_key user (some d) ≡ device_key user d
  unfolding token_key
  named_key user d named = rw (token_key, truthy_of_ne d named) refl

  own_device :
      (user d : String) (device provided other : Option String)
      → device ≡ some d
      → d ≢ ""
      → token_key user (or_else (or_else device provided) other) ≡ device_key user d
  unfolding token_key
  own_device user d device provided other e named =
      rw (e, or_else-some d provided named, or_else-some d other named) (named_key user d named)

  refused_after :
      (later : ℕ) (session token : String) (provided : Option String) (s : AuthState store table)
      (payload : TokenPayload) (d : String)
      → verify_refresh_token signer config later token ≡ ret payload
      → payload.options.device_id ≡ some d
      → d ≢ ""
      → matches_stored store table services permissions signer config
          (stored_token store table services permissions signer config s.keys later payload.sub
            (some d))
          token
        ≡ false
      → refresh_tokens store table services permissions signer config later session token provided s
        ≡ (s, refuse invalid_refresh_token)
  unfolding refresh_tokens refresh_verified
  refused_after later session token provided s payload d valid device named differs =
      let same : or_else payload.options.device_id provided ≡ some d =
        rw device (or_else-some d provided named) in
      rw (valid, same, differs) (matched false later session payload (some d) s refl)

  -- A token that names its device works once: after a refresh that succeeds and hands out another
  -- token, the old one is refused without a change, as long as the new one is stored. The service of
  -- users answers with the user that was asked for.
  pub refresh_tokens-refresh_tokens :
      (now later : ℕ) (session session' token d : String) (provided provided' : Option String)
      (s : AuthState store table) (payload : TokenPayload) (pair : TokenPair)
      → ((id : String) (u : User) → services.find_by_id id ≡ some (some u) → u.id ≡ id)
      → verify_refresh_token signer config now token ≡ ret payload
      → verify_refresh_token signer config later token ≡ ret payload
      → payload.options.device_id ≡ some d
      → d ≢ ""
      → pair.refresh_token ≢ ""
      → pair.refresh_token ≢ token
      → later < now + 7 * day
      → (refresh_tokens store table services permissions signer config now session token provided
          s).1
        ≡ answer pair
      → refresh_tokens store table services permissions signer config later session' token provided'
          (refresh_tokens store table services permissions signer config now session token provided
            s).0
        ≡ (
          (refresh_tokens store table services permissions signer config now session token provided
              s).0,
          refuse invalid_refresh_token,
        )
  refresh_tokens-refresh_tokens now later session session' token d provided provided' s payload pair
        by_id valid valid' device named full other soon ok =
      let (u, is_u, written) =
        refresh_tokens_keys now session token provided s payload pair valid ok in
      let place : token_key u.id (or_else (or_else payload.options.device_id provided) u.device_id)
          ≡ device_key payload.sub d =
        own_device u.id d payload.options.device_id provided u.device_id device named
        ∙ rw (by_id payload.sub u is_u) refl in
      let long = lifetime_bound (payload.options.is_guest || u.is_guest) in
      let after =
        (refresh_tokens store table services permissions signer config now session token provided
          s).0 in
      let there : get after.keys later (device_key payload.sub d) ≡ some pair.refresh_token =
        rw (written, place)
          (kept_until now later (refresh_lifetime (payload.options.is_guest || u.is_guest)) s.keys
            (device_key payload.sub d) pair.refresh_token (omega arith)) in
      refused_after later session' token provided' after payload d valid' device named
        (replaced after.keys later payload.sub d pair.refresh_token token named full other there)

  -- A token that names no device is not replaced when the caller or else its user names one: after
  -- a refresh that succeeds, the key under which it is stored holds what it held before.
  pub refresh_tokens_legacy :
      (now later : ℕ) (session token d : String) (provided : Option String)
      (s : AuthState store table) (payload : TokenPayload) (u : User) (pair : TokenPair)
      → services.find_by_id payload.sub ≡ some (some u)
      → u.id ≡ payload.sub
      → verify_refresh_token signer config now token ≡ ret payload
      → payload.options.device_id ≡ none
      → or_else provided u.device_id ≡ some d
      → d ≢ ""
      → (refresh_tokens store table services permissions signer config now session token provided
          s).1
        ≡ answer pair
      → get
          (refresh_tokens store table services permissions signer config now session token provided
            s).0.keys
          later
          (legacy_key payload.sub)
        ≡ get s.keys later (legacy_key payload.sub)
  refresh_tokens_legacy now later session token d provided s payload u pair is_u same valid nameless
        owned named ok =
      let (v, is_v, written) =
        refresh_tokens_keys now session token provided s payload pair valid ok in
      let one : v ≡ u = cc in
      let place : token_key v.id (or_else (or_else payload.options.device_id provided) v.device_id)
          ≡ device_key payload.sub d =
        rw (one, nameless) (rw (owned, same) (named_key payload.sub d named)) in
      let apart : (device_key payload.sub d == legacy_key payload.sub) ≡ false =
        ==_of_ne (device_key payload.sub d) (legacy_key payload.sub)
          (device_key_ne payload.sub d) in
      rw (written, place)
        (get-setex s.keys now later (refresh_lifetime (payload.options.is_guest || v.is_guest))
            (device_key payload.sub d) (legacy_key payload.sub) pair.refresh_token
          ∙ rw apart refl)
