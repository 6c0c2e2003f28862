-- ===== src/Rbac/Permission/Cache.antt =====
-- The cache of `hasPermission` in libs/rbac/src/permission.service.ts.
use kodi_backend_template_a.Base.{
  ℕ, ◌+◌, String, ◌≡◌, refl, ◌∙◌, inl, inr, Bool-cases, Bool, true, false, Option, none, some,
  eq_refl, ltb, if◌then◌else◌, Run, ret, throw, diverge,
}
use kodi_backend_template_a.Base.Store.{KeyStore}
use kodi_backend_template_a.Rbac.Hierarchy.{CityDb}
use kodi_backend_template_a.Rbac.Permission.{
  PermissionDb, cache_key, decide, remember, has_permission,
}

-- The answer of a decision: a call that throws is refused.
abbrev pub answer_of : Run (Bool × Bool) → Run Bool
answer_of (ret (granted, keep)) = ret granted
answer_of throw = ret false
answer_of diverge = diverge

module _ (store : KeyStore String) (fuel : ℕ) (cities : CityDb)
    (user resource action : String) where
  open store use {Keys, get, setex, get-setex}

  -- With nothing in the cache the answer is the decision's, and a call that throws is refused.
  pub has_permission_fresh :
      (db : PermissionDb) (keys : Keys) (now : ℕ) (city : Option String)
      → get keys now (cache_key user resource action city) ≡ none
      → (has_permission store fuel db cities keys now user resource action city).0
        ≡ answer_of (decide fuel db cities user resource action city)
  unfolding has_permission
  has_permission_fresh db keys now city h = rw h (
      answers keys now (cache_key user resource action city)
        (decide fuel db cities user resource action city))
    where
      answers :
          (keys : Keys) (now : ℕ) (key : String) (d : Run (Bool × Bool))
          → (remember store fuel db cities keys now key d).0 ≡ answer_of d
      answers keys now key (ret (granted, keep)) = refl
      answers keys now key throw = refl
      answers keys now key diverge = refl

  -- The cache changes only by a decision that grants: then it holds the key for 300 seconds.
  pub has_permission_keys :
      (db : PermissionDb) (keys : Keys) (now : ℕ) (city : Option String)
      → get keys now (cache_key user resource action city) ≡ none
      → (has_permission store fuel db cities keys now user resource action city).1
        ≡ elim (decide fuel db cities user resource action city) [
          | ret (granted, keep) ↦
              if keep then setex keys now (cache_key user resource action city) 300 "true" else keys
          | throw ↦ keys
          | diverge ↦ keys
        ]
  unfolding has_permission
  has_permission_keys db keys now city h = rw h (
      stored keys now (cache_key user resource action city)
        (decide fuel db cities user resource action city))
    where
      stored :
          (keys : Keys) (now : ℕ) (key : String) (d : Run (Bool × Bool))
          → (remember store fuel db cities keys now key d).1 ≡ elim d [
            | ret (granted, keep) ↦ if keep then setex keys now key 300 "true" else keys
            | throw ↦ keys
            | diverge ↦ keys
          ]
      stored keys now key (ret (granted, keep)) = refl
      stored keys now key throw = refl
      stored keys now key diverge = refl

  cached :
      (db : PermissionDb) (keys : Keys) (now : ℕ) (city : Option String)
      → get keys now (cache_key user resource action city) ≡ some "true"
      → (has_permission store fuel db cities keys now user resource action city).0 ≡ ret true
  unfolding has_permission
  cached db keys now city h = rw h

  -- After a grant that was put into the cache at `now`, the same question is answered with a grant
  -- until 300 seconds later, whatever the database has become; from then on it is decided anew.
  pub has_permission_lag :
      (db db' : PermissionDb) (keys : Keys) (now later : ℕ) (city : Option String)
      → get keys now (cache_key user resource action city) ≡ none
      → get keys later (cache_key user resource action city) ≡ none
      → decide fuel db cities user resource action city ≡ ret (true, true)
      → (has_permission store fuel db' cities
          (has_permission store fuel db cities keys now user resource action city).1
          later
          user
          resource
          action
          city).0
        ≡ (if ltb later (now + 300)
            then ret true
            else answer_of (decide fuel db' cities user resource action city))
  has_permission_lag db db' keys now later city fresh idle granted =
      let key = cache_key user resource action city in
      let kept : (has_permission store fuel db cities keys now user resource action city).1
          ≡ setex keys now key 300 "true" =
        has_permission_keys db keys now city fresh ∙ rw granted in
      rw kept (elim (Bool-cases (ltb later (now + 300))) [
        | inl soon ↦ rw soon (
            cached db' (setex keys now key 300 "true") later city
              (get-setex keys now later 300 key key "true" ∙ rw (eq_refl key, soon)))
        | inr late ↦ rw late (
            has_permission_fresh db' (setex keys now key 300 "true") later city
              (get-setex keys now later 300 key key "true" ∙ rw (eq_refl key, late)))
      ])
