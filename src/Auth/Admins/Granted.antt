-- ===== src/Auth/Admins/Granted.antt =====
-- Whose assignments of admins are carried out by `assignCityAdmin` of auth.service.ts, and which of
-- them grant the right to manage admins.
use kodi_backend_template_a.Base.{
  ℕ, ◌<◌, String, ◌≡◌, ◌≢◌, refl, sym, subst, ◌↔◌, ◌⊎◌, inl, inr, Bool, true, false, ◌||◌, ◌==◌,
  Option, some, List, [], ◌∷◌, ◌++◌, arith, eq_iff, ne_of_==, ==_of_ne, find?, Bool-cases, All,
  Reply, refuse, answer, ret,
}
use kodi_backend_template_a.Base.Filters.{and_left, and_right}
use kodi_backend_template_a.Rbac.Roles.{city_admin, role_eq, number_to_role, RoleClaim}
use kodi_backend_template_a.Rbac.Hierarchy.{CityDb}
use kodi_backend_template_a.Rbac.Hierarchy.Children.{IsForest}
use kodi_backend_template_a.Rbac.Permission.{Assignment, PermissionDb, get_user_city_assignments}
use kodi_backend_template_a.Rbac.Permission.Admins.{
  ManagesAdmins, role_eq_iff, can_manage_city_admins-ManagesAdmins,
}
use kodi_backend_template_a.Auth.Services.{User, Services}
use kodi_backend_template_a.Auth.Admins.{
  AssignError, insufficient_permissions, AssignRequest, AssignCommand, covers, manages,
  normalized_role, can_grant, sent, assign_found, assign_checked, may_assign, assign_as,
  assign_city_admin,
}

-- An assignment has the right to manage admins, and none before it is for the city.
abbrev pub HasRight : String → List Assignment → Type 0
HasRight city assigned =
    (before : List Assignment) × (a : Assignment) × (after : List Assignment) × (assigned
      ≡ before ++ a ∷ after)
    × All (λ b. b.city_id ≢ city) before
    × (a.can_manage_admins ≡ true)

HasRight-of_manages :
    (city : String) (xs : List Assignment)
    → manages (find? (covers city) xs) ≡ true
    → HasRight city xs
unfolding manages covers
HasRight-of_manages city [] h = cc
HasRight-of_manages city (x ∷ xs) h = elim (Bool-cases (x.city_id == city || x.can_manage_admins)) [
  | inl hit ↦ ([], x, xs, refl, tt, rw hit at h)
  | inr miss ↦
      let (before, a, after, e, apart, right) = HasRight-of_manages city xs (rw miss at h) in
      let other : (x.city_id == city) ≡ false = ground arith in
      (x ∷ before, a, after, rw e refl, (ne_of_== x.city_id city other, apart), right)
]

manages_split :
    (city : String) (before : List Assignment) (a : Assignment) (after : List Assignment)
    → All (λ b. b.city_id ≢ city) before
    → a.can_manage_admins ≡ true
    → manages (find? (covers city) (before ++ a ∷ after)) ≡ true
unfolding manages covers
manages_split city [] a after apart right =
    let hit : (a.city_id == city || a.can_manage_admins) ≡ true = ground arith in rw hit right
manages_split city (b ∷ before) a after apart right =
    let other = ==_of_ne b.city_id city apart.0 in
    elim (Bool-cases b.can_manage_admins) [
      | inl has ↦ rw (other, has) refl
      | inr lacks ↦ rw (other, lacks) (manages_split city before a after apart.1 right)
    ]

manages-HasRight :
    (city : String) (xs : List Assignment)
    → (manages (find? (covers city) xs) ≡ true) ↔ HasRight city xs
manages-HasRight city xs = (
  HasRight-of_manages city xs,
  λ (before, a, after, e, apart, right).
      subst (λ ys. manages (find? (covers city) ys) ≡ true) (sym e)
        (manages_split city before a after apart right),
)

-- What the service answers where the target is found and the core service carries the command out.
abbrev pub outcome : Bool → Bool → String → AssignRequest → Reply AssignError AssignCommand
outcome true grant requester r =
    answer (record { request = r; assigned_by = requester; can_grant_manage_admins = grant })
outcome false grant requester r = refuse insufficient_permissions

module _ (services : Services) (assign : AssignCommand → Option String) (fuel : ℕ)
    (permissions : PermissionDb) (cities : CityDb) (rank : String → ℕ)
    (forest : IsForest cities rank) (bounded : (a : String) → rank a < fuel) where
  may_assign_lem :
      (super : Bool) (requester : String) (r : AssignRequest)
      → (b : Bool) × (may_assign services assign fuel permissions cities super requester r ≡ ret b)
        × ((b ≡ true) ↔ (
            (super ≡ true)
            ⊎ ManagesAdmins cities (get_user_city_assignments permissions requester) r.city_id))
  unfolding may_assign
  may_assign_lem true requester r = (true, refl, (λ _. inl refl, λ _. refl))
  may_assign_lem false requester r =
      let (b, run, iff) =
        can_manage_city_admins-ManagesAdmins permissions cities rank fuel forest bounded requester
          r.city_id in
      (b, run, (λ h. inr (iff.0 h), λ m. elim m [ inl e ↦ cc | inr w ↦ iff.1 w ]))

  can_grant-HasRight :
      (super : Bool) (requester : String) (r : AssignRequest)
      → (can_grant services assign fuel permissions cities super requester r ≡ true) ↔ (
          (number_to_role r.role ≡ city_admin)
          × ((super ≡ true) ⊎ HasRight r.city_id (get_user_city_assignments permissions requester)))
  unfolding can_grant
  can_grant-HasRight true requester r =
      let same = role_eq_iff (number_to_role r.role) city_admin in
      (λ h. (same.0 h, inl refl), λ (e, _). same.1 e)
  can_grant-HasRight false requester r =
      let same = role_eq_iff (number_to_role r.role) city_admin in
      let assigned = get_user_city_assignments permissions requester in
      let right = manages-HasRight r.city_id assigned in
      let has = manages (find? (covers r.city_id) assigned) in
      let admin = role_eq (number_to_role r.role) city_admin in
      (
        λ h. (same.0 (and_right has admin h), inr (right.0 (and_left has admin h))),
        λ (e, w). elim w [ inl q ↦ cc | inr k ↦ rw (right.1 k, same.1 e) refl ],
      )

  checked_outcome :
      (super allowed : Bool) (requester : String) (r : AssignRequest) (u : User)
      → services.find_by_id r.user_id ≡ some (some u)
      → ((c : AssignCommand) → (id : String) × (assign c ≡ some id))
      → assign_checked services assign fuel permissions cities super allowed requester r
        ≡ outcome allowed
            (can_grant services assign fuel permissions cities super requester r)
            requester
            r
  unfolding assign_checked assign_found sent
  checked_outcome super false requester r u found carried = refl
  checked_outcome super true requester r u found carried =
      let (id, e) = carried (record {
        request = r;
        assigned_by = requester;
        can_grant_manage_admins =
            can_grant services assign fuel permissions cities super requester r;
      }) in
      rw (found, assign_found, e, sent) refl

  -- In a forest of cities, where the target is found and the core service carries commands out: an
  -- assignment is carried out exactly if the requester is a super admin or has an assignment that
  -- lets them manage the admins of the city, and is refused otherwise. The command grants the right to
  -- manage admins exactly if the role is a city admin's and the requester is a super admin or has
  -- an assignment with that right, before which none is for the city.
  pub assign_city_admin-ManagesAdmins :
      (claim : Option RoleClaim) (requester role : String) (r : AssignRequest) (u : User)
      → normalized_role services assign fuel permissions cities claim requester ≡ answer role
      → services.find_by_id r.user_id ≡ some (some u)
      → ((c : AssignCommand) → (id : String) × (assign c ≡ some id))
      → (allowed : Bool) × (grant : Bool) × (assign_city_admin services assign fuel permissions
            cities claim requester r
          ≡ ret (outcome allowed grant requester r))
        × ((allowed ≡ true) ↔ (
            (role ≡ "SUPER_ADMIN")
            ⊎ ManagesAdmins cities (get_user_city_assignments permissions requester) r.city_id))
        × ((grant ≡ true) ↔ (
            (number_to_role r.role ≡ city_admin)
            × ((role ≡ "SUPER_ADMIN")
                ⊎ HasRight r.city_id (get_user_city_assignments permissions requester))))
  unfolding assign_city_admin assign_as
  assign_city_admin-ManagesAdmins claim requester role r u known found carried =
      let super = role == "SUPER_ADMIN" in
      let (b, run, iff) = may_assign_lem super requester r in
      let right = can_grant-HasRight super requester r in
      let named = eq_iff role "SUPER_ADMIN" in
      (
        b,
        can_grant services assign fuel permissions cities super requester r,
        rw (known, run, checked_outcome super b requester r u found carried) refl,
        (
          λ h. elim (iff.0 h) [ inl e ↦ inl (named.0 e) | inr w ↦ inr w ],
          λ m. iff.1 (elim m [ inl e ↦ inl (named.1 e) | inr w ↦ inr w ]),
        ),
        (
          λ h.
              let (admin, w) = right.0 h in
              (admin, elim w [ inl e ↦ inl (named.0 e) | inr k ↦ inr k ]),
          λ (admin, w). right.1 (admin, elim w [ inl e ↦ inl (named.1 e) | inr k ↦ inr k ]),
        ),
      )
