-- ===== src/Rbac/Permission/Decision.antt =====
-- Which questions `hasPermission` of libs/rbac/src/permission.service.ts grants.
use mathlib.Core.Path.{subst}
use mathlib.Core.Option.{none-ne-some}
use kodi_backend_template_a.Base.{
  ℕ, ◌<◌, String, ◌≡◌, refl, sym, ◌∙◌, true≢false, ◌↔◌, ◌⊎◌, inl, inr, Bool, true, false, Option,
  none, some, List, [], ◌∷◌, arith, truthy, Bool-cases, Option-cases, In, includes_iff, ret,
}
use kodi_backend_template_a.Rbac.Roles.{UserRole, super_admin, city_admin, citizen, role_eq}
use kodi_backend_template_a.Rbac.Hierarchy.{CityDb, is_city_in_scope}
use kodi_backend_template_a.Rbac.Hierarchy.Children.{IsForest}
use kodi_backend_template_a.Rbac.Hierarchy.Managed.{IsManaged, get_all_managed_cities-IsManaged}
use kodi_backend_template_a.Rbac.Permission.{
  Assignment, PermissionDb, cities_of, has_links, has_role_permission, get_user_city_assignments,
  any_role, in_scope, decide_assigned, decide,
}

-- A role has a permission: it is the super admin, or the permission is linked to the role.
abbrev pub Grants : PermissionDb → String → String → UserRole → Type 0
Grants db resource action role =
    (role ≡ super_admin) ⊎ ((n : ℕ) × (db.grants resource action role ≡ some (some n)) × (0 < n))

-- The permission queries answer.
abbrev pub GrantsAnswer : PermissionDb → Type 0
GrantsAnswer db =
    (resource action : String) (role : UserRole)
    → (links : Option ℕ) × (db.grants resource action role ≡ some links)

-- The city of the question, if there is one, is managed through the assignments.
abbrev pub Reaches : CityDb → List Assignment → Option String → Type 0
Reaches cities assigned city =
    (c : String) → truthy city ≡ some c → IsManaged cities (cities_of assigned) c

-- What a grant rests on: a user without assignments is a citizen; otherwise one of the assigned
-- roles has the permission, and the city is within the assignments' reach.
abbrev pub IsGranted :
    PermissionDb → CityDb → List Assignment → String → String → Option String → Type 0
IsGranted db cities [] resource action city = Grants db resource action citizen
IsGranted db cities (a ∷ rest) resource action city =
    Reaches cities (a ∷ rest) city
    × ((b : Assignment) × In b (a ∷ rest) × Grants db resource action b.role)

-- Whether an answer is put into the cache.
abbrev pub kept : List Assignment → Bool → Bool
kept [] granted = false
kept (a ∷ rest) granted = granted

super_iff : (r : UserRole) → (role_eq r super_admin ≡ true) ↔ (r ≡ super_admin)
super_iff super_admin = (λ h. refl, λ h. refl)
super_iff city_admin = (λ h. cc, λ h. cc)
super_iff citizen = (λ h. cc, λ h. cc)

module _ (db : PermissionDb) (cities : CityDb) (rank : String → ℕ) (fuel : ℕ)
    (answers : GrantsAnswer db) (forest : IsForest cities rank)
    (bounded : (a : String) → rank a < fuel) where
  has_role_permission-Grants :
      (role : UserRole) (resource action : String)
      → (b : Bool) × (has_role_permission db role resource action ≡ ret b)
        × ((b ≡ true) ↔ Grants db resource action role)
  unfolding has_role_permission
  has_role_permission-Grants role resource action =
      let (links, e) = answers resource action role in
      elim (Bool-cases (role_eq role super_admin)) [
        | inl s ↦ (true, rw s, (λ h. inl ((super_iff role).0 s), λ h. refl))
        | inr n ↦ (
          has_links links,
          rw (n, e),
          (
            λ h. inr (linked links h e),
            λ g. elim g [
              | inl s ↦ absurd (ground (arith, super_iff role))
              | inr (k, q, pos) ↦ unlinked links k e q pos
            ],
          ),
        )
      ]
    where
      linked :
          (links : Option ℕ)
          → has_links links ≡ true
          → db.grants resource action role ≡ some links
          → (n : ℕ) × (db.grants resource action role ≡ some (some n)) × (0 < n)
      linked none h e = cc
      linked (some n) h e = (n, e, ground arith)

      unlinked :
          (links : Option ℕ) (k : ℕ)
          → db.grants resource action role ≡ some links
          → db.grants resource action role ≡ some (some k)
          → 0 < k
          → has_links links ≡ true
      unlinked links k e q pos = ground arith

  any_role-Grants :
      (assigned : List Assignment) (resource action : String)
      → (b : Bool) × (any_role db resource action assigned ≡ ret b)
        × ((b ≡ true) ↔ ((a : Assignment) × In a assigned × Grants db resource action a.role))
  unfolding any_role
  any_role-Grants [] resource action = (false, refl, (λ h. cc, λ (a, n, g). absurd n))
  any_role-Grants (a ∷ rest) resource action =
      let (b, e, iff) = has_role_permission-Grants a.role resource action in
      let (later, e', iff') = any_role-Grants rest resource action in
      elim (Bool-cases b) [
        | inl t ↦ (true, rw (e, t), (λ h. (a, inl refl, iff.0 t), λ h. refl))
        | inr f ↦ (
          later,
          rw (e, f) e',
          (
            λ h. let (c, n, g) = iff'.0 h in (c, inr n, g),
            λ (c, n, g). elim n [
              | inl here ↦ absurd (
                  true≢false
                    (sym (iff.1 (subst (λ x. Grants db resource action x.role) here g)) ∙ f))
              | inr there ↦ iff'.1 (c, there, g)
            ],
          ),
        )
      ]

  in_scope-Reaches :
      (assigned : List Assignment) (city : Option String)
      → (b : Bool) × (in_scope fuel cities assigned (truthy city) ≡ ret b)
        × ((b ≡ true) ↔ Reaches cities assigned city)
  unfolding in_scope
  in_scope-Reaches assigned city = elim (Option-cases (truthy city)) [
    | inl e ↦ (true, rw (e, in_scope), (λ h c q. absurd (none-ne-some c (sym e ∙ q)), λ h. refl))
    | inr (c, e) ↦
        let (ms, run, mem) =
          get_all_managed_cities-IsManaged cities rank fuel forest (cities_of assigned)
            (λ a _. bounded a) in
        (
          is_city_in_scope c ms,
          rw (e, in_scope) (rw run),
          (
            λ h d q. let same : d ≡ c = cc in rw same ((mem c).0 ((includes_iff c ms).0 h)),
            λ reach. (includes_iff c ms).1 ((mem c).1 (reach c e)),
          ),
        )
  ]

  decide_some :
      (a : Assignment) (rest : List Assignment) (resource action : String) (city : Option String)
      → (b : Bool) × (decide_assigned fuel db cities (a ∷ rest) resource action city ≡ ret (b, b))
        × ((b ≡ true) ↔ IsGranted db cities (a ∷ rest) resource action city)
  unfolding decide_assigned
  decide_some a rest resource action city =
      let (r, run, reach) = in_scope-Reaches (a ∷ rest) city in
      let (g, run', grant) = any_role-Grants (a ∷ rest) resource action in
      elim (Bool-cases r) [
        | inl t ↦ (g, rw (run, t) (rw run'), (λ h. (reach.0 t, grant.0 h), λ (_, w). grant.1 w))
        | inr f ↦
            (false, rw (run, f), (λ h. cc, λ (q, w). absurd (true≢false (sym (reach.1 q) ∙ f))))
      ]

  decide_assigned_lem :
      (assigned : List Assignment) (resource action : String) (city : Option String)
      → (b : Bool) × (decide_assigned fuel db cities assigned resource action city
          ≡ ret (b, kept assigned b))
        × ((b ≡ true) ↔ IsGranted db cities assigned resource action city)
  unfolding decide_assigned
  decide_assigned_lem [] resource action city =
      let (b, e, iff) = has_role_permission-Grants citizen resource action in (b, rw e, iff)
  decide_assigned_lem (a ∷ rest) resource action city = decide_some a rest resource action city

  -- Where the queries answer and the cities form a forest within the fuel, `hasPermission` decides:
  -- it grants exactly what the assignments, the links of their roles and their cities justify, and
  -- a grant is put into the cache exactly if it comes from an assignment.
  pub decide-IsGranted :
      (user resource action : String) (city : Option String)
      → (b : Bool) × (decide fuel db cities user resource action city
          ≡ ret (b, kept (get_user_city_assignments db user) b))
        × ((b ≡ true)
            ↔ IsGranted db cities (get_user_city_assignments db user) resource action city)
  unfolding decide
  decide-IsGranted user resource action city =
      decide_assigned_lem (get_user_city_assignments db user) resource action city
