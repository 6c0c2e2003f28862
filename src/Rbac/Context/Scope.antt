-- ===== src/Rbac/Context/Scope.antt =====
-- Who may see and manage a city: `canAccessCity` and `canManageCity` of
-- libs/rbac/src/user-context.service.ts.
use kodi_backend_template_a.Base.{
  ℕ, ◌<◌, String, ◌≡◌, refl, sym, ◌∙◌, ◌↔◌, ◌⊎◌, inl, inr, Bool, true, false, true≢false, List, [],
  ◌∷◌, Bool-cases, includes_iff, ret, catch,
}
use kodi_backend_template_a.Rbac.Hierarchy.{CityDb, is_city_in_scope}
use kodi_backend_template_a.Rbac.Hierarchy.Children.{IsForest}
use kodi_backend_template_a.Rbac.Hierarchy.Managed.{IsManaged, get_all_managed_cities-IsManaged}
use kodi_backend_template_a.Rbac.Permission.{
  Assignment, PermissionDb, cities_of, get_user_city_assignments,
}
use kodi_backend_template_a.Rbac.Context.{
  is_super, admin_assignments, reaches, access_from, manage_from, can_access_city, can_manage_city,
}

-- The cities that a user's admin assignments give.
abbrev pub Administers : PermissionDb → CityDb → String → String → Type 0
Administers db cities user city =
    IsManaged cities (cities_of (admin_assignments (get_user_city_assignments db user))) city

abbrev pub IsSuperUser : PermissionDb → String → Type 0
IsSuperUser db user = is_super (get_user_city_assignments db user) ≡ true

module _ (cities : CityDb) (rank : String → ℕ) (fuel : ℕ) (forest : IsForest cities rank)
    (bounded : (a : String) → rank a < fuel) where
  reaches-IsManaged :
      (assigned : List Assignment) (city : String)
      → (b : Bool) × (reaches fuel cities assigned city ≡ ret b)
        × ((b ≡ true) ↔ IsManaged cities (cities_of assigned) city)
  unfolding reaches
  reaches-IsManaged assigned city =
      let (ms, run, mem) =
        get_all_managed_cities-IsManaged cities rank fuel forest (cities_of assigned)
          (λ a _. bounded a) in
      (
        is_city_in_scope city ms,
        rw run,
        (
          λ h. (mem city).0 ((includes_iff city ms).0 h),
          λ m. (includes_iff city ms).1 ((mem city).1 m),
        ),
      )

  manage_from-IsManaged :
      (assigned : List Assignment) (city : String)
      → (b : Bool) × (manage_from fuel cities assigned city ≡ ret b)
        × ((b ≡ true) ↔ IsManaged cities (cities_of assigned) city)
  unfolding manage_from
  manage_from-IsManaged [] city =
      (false, refl, (λ h. cc, λ m. elim m [ inl n ↦ absurd n | inr (a, n, d) ↦ absurd n ]))
  manage_from-IsManaged (a ∷ rest) city = reaches-IsManaged (a ∷ rest) city

  access_from-IsManaged :
      (assigned : List Assignment) (city : String)
      → (b : Bool) × (access_from fuel cities assigned city ≡ ret b)
        × ((b ≡ true) ↔ ((assigned ≡ []) ⊎ IsManaged cities (cities_of assigned) city))
  unfolding access_from
  access_from-IsManaged [] city = (true, refl, (λ h. inl refl, λ h. refl))
  access_from-IsManaged (a ∷ rest) city =
      let (b, run, iff) = reaches-IsManaged (a ∷ rest) city in
      (b, run, (λ h. inr (iff.0 h), λ m. elim m [ inl e ↦ cc | inr w ↦ iff.1 w ]))

  -- Where the cities form a forest within the fuel, `canManageCity` returns, and grants exactly the
  -- users with a super admin assignment and those with a city admin assignment for the city or for
  -- a city above it.
  pub can_manage_city-Administers :
      (db : PermissionDb) (user city : String)
      → (b : Bool) × (can_manage_city fuel db cities user city ≡ ret b)
        × ((b ≡ true) ↔ (IsSuperUser db user ⊎ Administers db cities user city))
  unfolding can_manage_city
  can_manage_city-Administers db user city =
      let assigned = get_user_city_assignments db user in
      let (b, run, iff) = manage_from-IsManaged (admin_assignments assigned) city in
      elim (Bool-cases (is_super assigned)) [
        | inl s ↦ (true, rw s, (λ h. inl s, λ h. refl))
        | inr n ↦ (
          b,
          rw (n, run),
          (
            λ h. inr (iff.0 h),
            λ m. elim m [ inl s ↦ absurd (true≢false (sym s ∙ n)) | inr w ↦ iff.1 w ],
          ),
        )
      ]

  -- There, `canAccessCity` grants exactly those users and the users without any city admin
  -- assignment.
  pub can_access_city-Administers :
      (db : PermissionDb) (user city : String)
      → (b : Bool) × (can_access_city fuel db cities user city ≡ ret b)
        × ((b ≡ true) ↔ (
            IsSuperUser db user
            ⊎ ((admin_assignments (get_user_city_assignments db user) ≡ [])
                ⊎ Administers db cities user city)))
  unfolding can_access_city
  can_access_city-Administers db user city =
      let assigned = get_user_city_assignments db user in
      let (b, run, iff) = access_from-IsManaged (admin_assignments assigned) city in
      elim (Bool-cases (is_super assigned)) [
        | inl s ↦ (true, rw s, (λ h. inl s, λ h. refl))
        | inr n ↦ (
          b,
          rw (n, run),
          (
            λ h. inr (iff.0 h),
            λ m. elim m [ inl s ↦ absurd (true≢false (sym s ∙ n)) | inr w ↦ iff.1 w ],
          ),
        )
      ]

manages_accesses :
    (fuel : ℕ) (cities : CityDb) (assigned : List Assignment) (city : String)
    → catch (manage_from fuel cities assigned city) false ≡ ret true
    → catch (access_from fuel cities assigned city) false ≡ ret true
unfolding manage_from access_from
manages_accesses fuel cities [] city h = cc
manages_accesses fuel cities (a ∷ rest) city h = h

module _ (fuel : ℕ) (db : PermissionDb) (cities : CityDb) where
  -- Who may manage a city may see it.
  pub can_manage-can_access :
      (user city : String)
      → can_manage_city fuel db cities user city ≡ ret true
      → can_access_city fuel db cities user city ≡ ret true
  unfolding can_manage_city can_access_city
  can_manage-can_access user city h =
      elim (Bool-cases (is_super (get_user_city_assignments db user))) [
        | inl s ↦ rw s
        | inr n ↦ rw n (
            manages_accesses fuel cities (admin_assignments (get_user_city_assignments db user))
              city (rw n at h))
      ]
