-- ===== src/Rbac/Guards/Cities.antt =====
-- The guards of libs/rbac/src/guards that look at the city of a request.
use kodi_backend_template_a.Base.{
  ℕ, ◌<◌, String, ◌≡◌, refl, ◌↔◌, ◌⊎◌, inl, inr, Bool, true, false, Option, none, some, ◌==◌,
  eq_of_==, ne_of_==, Bool-cases, Run, ret, throw, diverge,
}
use kodi_backend_template_a.Base.Store.{KeyStore}
use kodi_backend_template_a.Rbac.Roles.{claimed_role, super_name, citizen_name}
use kodi_backend_template_a.Rbac.Hierarchy.{CityDb}
use kodi_backend_template_a.Rbac.Hierarchy.Children.{IsForest}
use kodi_backend_template_a.Rbac.Permission.{PermissionDb}
use kodi_backend_template_a.Rbac.Context.{can_manage_city}
use kodi_backend_template_a.Rbac.Context.Scope.{
  Administers, IsSuperUser, can_manage_city-Administers, can_manage-can_access,
}
use kodi_backend_template_a.Rbac.Guards.{
  allowed, forbidden, TokenUser, Request, request_city, or_forbid, judge, city_scope_guard,
  scope_for, scope_in, city_management_guard, management_for, management_in,
  content_moderation_guard, moderation_for, moderation_in, moderate_city, management_denied,
  citizen_cannot_moderate,
}

judge_allows : (m : Run Bool) → judge management_denied m ≡ ret allowed → m ≡ ret true
judge_allows (ret true) h = refl
judge_allows (ret false) h = cc
judge_allows throw h = cc
judge_allows diverge h = cc

module _ (fuel : ℕ) (db : PermissionDb) (cities : CityDb) where
  -- Each request that the management guard lets through is let through by the scope guard.
  pub city_management_guard-city_scope_guard :
      (r : Request)
      → city_management_guard fuel db cities r ≡ ret allowed
      → city_scope_guard fuel db cities r ≡ ret allowed
  unfolding city_management_guard city_scope_guard
  city_management_guard-city_scope_guard r h = by_user r.user h
    where
      in_city :
          (u : TokenUser) (city : Option String)
          → management_in fuel db cities u city ≡ ret allowed
          → scope_in fuel db cities u city ≡ ret allowed
      in_city u none h = refl
      in_city u (some city) h =
          rw (can_manage-can_access fuel db cities u.id city (judge_allows _ h))

      by_user :
          (u : Option TokenUser)
          → management_for fuel db cities r u ≡ ret allowed
          → scope_for fuel db cities r u ≡ ret allowed
      by_user none h = cc
      by_user (some u) h = elim (Bool-cases (claimed_role u.role == super_name)) [
        | inl s ↦ rw s
        | inr n ↦ rw n (elim (Bool-cases (claimed_role u.role == citizen_name)) [
          | inl c ↦ rw c
          | inr d ↦ rw d (in_city u (request_city r) (rw n at h))
        ])
      ]

  -- In a forest of cities within the fuel, a request for a city is let through by the management
  -- guard exactly if the token says super admin, or the user has a super admin assignment, or a
  -- city admin assignment for that city or for one above it.
  pub city_management_guard-Administers :
      (rank : String → ℕ) (r : Request) (u : TokenUser) (city : String)
      → IsForest cities rank
      → ((a : String) → rank a < fuel)
      → r.user ≡ some u
      → request_city r ≡ some city
      → (city_management_guard fuel db cities r ≡ ret allowed) ↔ (
          (claimed_role u.role ≡ super_name)
          ⊎ (IsSuperUser db u.id ⊎ Administers db cities u.id city))
  unfolding city_management_guard
  city_management_guard-Administers rank r u city forest bounded eu ec =
      let (b, run, iff) =
        can_manage_city-Administers cities rank fuel forest bounded db u.id city in
      elim (Bool-cases (claimed_role u.role == super_name)) [
        | inl s ↦ (λ h. inl (eq_of_== _ _ s), λ h. rw (eu, management_for) (rw s))
        | inr n ↦
            rw (eu, management_for)
              (rw n (
                rw (ec, management_in)
                  (rw run (
                    λ h. inr (iff.0 (verdict b h)),
                    λ m. elim m [ inl e ↦ absurd (ne_of_== _ _ n e) | inr w ↦ rw (iff.1 w) ],
                  ))))
      ]
    where
      verdict : (b : Bool) → ret (or_forbid management_denied b) ≡ ret allowed → b ≡ true
      verdict true h = refl
      verdict false h = cc

  -- A request for a city that the moderation guard lets through is let through by the management
  -- guard.
  pub content_moderation_guard-city_management_guard :
      (store : KeyStore String) (keys : store.Keys) (now : ℕ) (r : Request) (city : String)
      → request_city r ≡ some city
      → (content_moderation_guard store fuel db cities keys now r).0 ≡ ret allowed
      → city_management_guard fuel db cities r ≡ ret allowed
  unfolding content_moderation_guard city_management_guard
  content_moderation_guard-city_management_guard store keys now r city ec h = by_user r.user h
    where
      permitted :
          (user : String) (m : Run Bool)
          → (moderate_city store fuel db cities keys now user city m).0 ≡ ret allowed
          → judge management_denied m ≡ ret allowed
      permitted user (ret true) h = refl
      permitted user (ret false) h = cc
      permitted user throw h = cc
      permitted user diverge h = cc

      inside :
          (u : TokenUser)
          → (moderation_in store fuel db cities keys now u (request_city r)).0 ≡ ret allowed
          → judge management_denied (can_manage_city fuel db cities u.id city) ≡ ret allowed
      inside u h = permitted u.id (can_manage_city fuel db cities u.id city) (rw ec at h)

      by_user :
          (u : Option TokenUser)
          → (moderation_for store fuel db cities keys now r u).0 ≡ ret allowed
          → management_for fuel db cities r u ≡ ret allowed
      by_user none h = cc
      by_user (some u) h = elim (Bool-cases (claimed_role u.role == super_name)) [
        | inl s ↦ rw s
        | inr n ↦ elim (Bool-cases (claimed_role u.role == citizen_name)) [
          | inl c ↦
              let bad : ret (forbidden citizen_cannot_moderate) ≡ ret allowed = rw (n, c) at h in cc
          | inr d ↦ rw n (rw (ec, management_in) (inside u (rw (n, d) at h)))
        ]
      ]
