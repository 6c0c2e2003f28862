-- ===== src/Rbac/Permission/Admins.antt =====
-- Who may manage the admins of a city: `canManageCityAdmins` of
-- libs/rbac/src/permission.service.ts.
use kodi_backend_template_a.Base.{
  ℕ, ◌<◌, String, ◌≡◌, refl, sym, subst, ◌∙◌, true≢false, ◌↔◌, ◌⊎◌, inl, inr, Bool, true, ◌&&◌,
  List, [], ◌∷◌, any, filter, Bool-cases, In, In-filter, In-of_filter, includes_iff, ret,
}
use kodi_backend_template_a.Base.Filters.{and_left, and_right}
use kodi_backend_template_a.Rbac.Roles.{UserRole, super_admin, city_admin, citizen, role_eq}
use kodi_backend_template_a.Rbac.Hierarchy.{CityDb, is_city_in_scope}
use kodi_backend_template_a.Rbac.Hierarchy.Children.{Descendant, IsForest}
use kodi_backend_template_a.Rbac.Hierarchy.Managed.{IsManaged, get_all_managed_cities-IsManaged}
use kodi_backend_template_a.Rbac.Permission.{
  Assignment, PermissionDb, cities_of, get_user_city_assignments, can_manage_city_admins,
}

-- One of the assignments is a super admin's, or a city admin's with the right to manage admins, for
-- the city or for a city above it.
abbrev pub ManagesAdmins : CityDb → List Assignment → String → Type 0
ManagesAdmins cities assigned target =
    ((a : Assignment) × In a assigned × (a.role ≡ super_admin))
    ⊎ ((a : Assignment) × In a assigned
        × (a.role ≡ city_admin)
        × (a.can_manage_admins ≡ true)
        × ((target ≡ a.city_id) ⊎ Descendant cities a.city_id target))

abbrev names_super : Assignment → Bool
names_super a = role_eq a.role super_admin

abbrev is_manager : Assignment → Bool
is_manager a = role_eq a.role city_admin && a.can_manage_admins

pub role_eq_iff : (r s : UserRole) → (role_eq r s ≡ true) ↔ (r ≡ s)
role_eq_iff super_admin super_admin = (λ h. refl, λ h. refl)
role_eq_iff super_admin city_admin = (λ h. cc, λ h. cc)
role_eq_iff super_admin citizen = (λ h. cc, λ h. cc)
role_eq_iff city_admin super_admin = (λ h. cc, λ h. cc)
role_eq_iff city_admin city_admin = (λ h. refl, λ h. refl)
role_eq_iff city_admin citizen = (λ h. cc, λ h. cc)
role_eq_iff citizen super_admin = (λ h. cc, λ h. cc)
role_eq_iff citizen city_admin = (λ h. cc, λ h. cc)
role_eq_iff citizen citizen = (λ h. refl, λ h. refl)

any_iff :
    (p : Assignment → Bool) (xs : List Assignment)
    → (any p xs ≡ true) ↔ ((a : Assignment) × In a xs × (p a ≡ true))
any_iff p [] = (λ h. cc, λ (a, m, h). absurd m)
any_iff p (x ∷ xs) = elim (Bool-cases (p x)) [
  | inl hit ↦ (λ h. (x, inl refl, hit), λ h. rw hit refl)
  | inr miss ↦ (
    λ h. let (a, m, k) = (any_iff p xs).0 (rw miss at h) in (a, inr m, k),
    λ (a, m, k). elim m [
      | inl e ↦ absurd (true≢false (sym (subst (λ b. p b ≡ true) e k) ∙ miss))
      | inr there ↦ rw miss ((any_iff p xs).1 (a, there, k))
    ],
  )
]

In-cities_of :
    (c : String) (xs : List Assignment)
    → In c (cities_of xs) ↔ ((a : Assignment) × In a xs × (c ≡ a.city_id))
In-cities_of c [] = (λ m. absurd m, λ (a, m, e). absurd m)
In-cities_of c (x ∷ xs) = (
  λ m. elim m [
    | inl e ↦ (x, inl refl, e)
    | inr k ↦ let (a, there, e) = (In-cities_of c xs).0 k in (a, inr there, e)
  ],
  λ (a, m, e). elim m [
    | inl same ↦ inl (subst (λ b. c ≡ b.city_id) same e)
    | inr there ↦ inr ((In-cities_of c xs).1 (a, there, e))
  ],
)

module _ (db : PermissionDb) (cities : CityDb) (rank : String → ℕ) (fuel : ℕ)
    (forest : IsForest cities rank) (bounded : (a : String) → rank a < fuel) where
  -- A city that is managed through the assignments with the right.
  IsManaged-iff :
      (assigned : List Assignment) (target : String)
      → IsManaged cities (cities_of (filter is_manager assigned)) target ↔ (
          (a : Assignment) × In a assigned
          × (a.role ≡ city_admin)
          × (a.can_manage_admins ≡ true)
          × ((target ≡ a.city_id) ⊎ Descendant cities a.city_id target))
  IsManaged-iff assigned target = (
    λ m. elim m [
      | inl own ↦
          let (a, picked, e) = (In-cities_of target (filter is_manager assigned)).0 own in
          let (there, h) = In-of_filter is_manager assigned a picked in
          (
            a,
            there,
            (role_eq_iff a.role city_admin).0
                (and_left (role_eq a.role city_admin) a.can_manage_admins h),
            and_right (role_eq a.role city_admin) a.can_manage_admins h,
            inl e,
          )
      | inr (c, below, d) ↦
          let (a, picked, e) = (In-cities_of c (filter is_manager assigned)).0 below in
          let (there, h) = In-of_filter is_manager assigned a picked in
          (
            a,
            there,
            (role_eq_iff a.role city_admin).0
                (and_left (role_eq a.role city_admin) a.can_manage_admins h),
            and_right (role_eq a.role city_admin) a.can_manage_admins h,
            inr (subst (λ x. Descendant cities x target) e d),
          )
    ],
    λ (a, there, admin, right, at_city).
        let h : is_manager a ≡ true = rw ((role_eq_iff a.role city_admin).1 admin, right) refl in
        let picked = In-filter is_manager assigned a there h in
        elim at_city [
          | inl e ↦ inl ((In-cities_of target (filter is_manager assigned)).1 (a, picked, e))
          | inr d ↦ inr (
            a.city_id,
            (In-cities_of a.city_id (filter is_manager assigned)).1 (a, picked, refl),
            d,
          )
        ],
  )

  -- In a forest of cities `canManageCityAdmins` decides who manages the admins of a city.
  pub can_manage_city_admins-ManagesAdmins :
      (user target : String)
      → (b : Bool) × (can_manage_city_admins fuel db cities user target ≡ ret b)
        × ((b ≡ true) ↔ ManagesAdmins cities (get_user_city_assignments db user) target)
  unfolding can_manage_city_admins
  can_manage_city_admins-ManagesAdmins user target =
      let assigned = get_user_city_assignments db user in
      let (ms, run, mem) =
        get_all_managed_cities-IsManaged cities rank fuel forest
          (cities_of (filter is_manager assigned)) (λ a _. bounded a) in
      elim (Bool-cases (any names_super assigned)) [
        | inl yes' ↦
            let (a, there, h) = (any_iff names_super assigned).0 yes' in
            (
              true,
              rw yes' refl,
              (λ _. inl (a, there, (role_eq_iff a.role super_admin).0 h), λ _. refl),
            )
        | inr no' ↦ (
          is_city_in_scope target ms,
          rw (no', run) refl,
          (
            λ h.
                inr (
                  (IsManaged-iff assigned target).0
                    ((mem target).0 ((includes_iff target ms).0 h))),
            λ m. elim m [
              | inl (a, there, e) ↦ absurd (
                  true≢false (
                    sym (
                      (any_iff names_super assigned).1
                        (a, there, (role_eq_iff a.role super_admin).1 e))
                    ∙ no'))
              | inr w ↦
                  (includes_iff target ms).1 ((mem target).1 ((IsManaged-iff assigned target).1 w))
            ],
          ),
        )
      ]
