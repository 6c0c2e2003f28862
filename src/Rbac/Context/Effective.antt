-- ===== src/Rbac/Context/Effective.antt =====
-- The permissions that `getUserEffectivePermissions` of libs/rbac/src/user-context.service.ts lists.
use kodi_backend_template_a.Base.{
  ℕ, none, ret, String, ◌≡◌, refl, ◌∙◌, inl, inr, Bool, true, false, List, [], ◌∷◌, ◌++◌, arith,
  any, ◌||◌, Bool-cases, eq_iff,
}
use kodi_backend_template_a.Rbac.Roles.{UserRole, super_admin, city_admin, citizen, role_eq}
use kodi_backend_template_a.Rbac.Permission.{
  Assignment, Permission, PermissionDb, get_role_permissions, get_user_city_assignments,
}
use kodi_backend_template_a.Rbac.Hierarchy.{CityDb}
use kodi_backend_template_a.Rbac.Context.{
  EffectivePermission, effective, same_key, set_absent, collect, collect_roles, add_role, role_set,
  is_super, effective_of, assigned_permissions, get_user_effective_permissions,
}

-- No two permissions of a list have the same resource and action.
abbrev pub HasUniqueKeys : List EffectivePermission → Type 0
HasUniqueKeys [] = Unit
HasUniqueKeys (p ∷ rest) = (any (same_key p) rest ≡ false) × HasUniqueKeys rest

role_eq_sound : (r s : UserRole) → role_eq r s ≡ true → r ≡ s
role_eq_sound super_admin super_admin h = refl
role_eq_sound city_admin city_admin h = refl
role_eq_sound citizen citizen h = refl
role_eq_sound _ _ h = cc

same_key_sym : (p q : EffectivePermission) → same_key p q ≡ same_key q p
same_key_sym p q = ground (
  arith,
  eq_iff p.resource q.resource,
  eq_iff p.action q.action,
  eq_iff q.resource p.resource,
  eq_iff q.action p.action,
)

any-append :
    (p : EffectivePermission) (xs ys : List EffectivePermission)
    → any (same_key p) (xs ++ ys) ≡ (any (same_key p) xs || any (same_key p) ys)
any-append p [] ys = refl
any-append p (x ∷ xs) ys = ground (arith, any-append p xs ys)

unique-append :
    (xs : List EffectivePermission) (p : EffectivePermission)
    → HasUniqueKeys xs
    → any (same_key p) xs ≡ false
    → HasUniqueKeys (xs ++ p ∷ [])
unique-append [] p u h = (refl, tt)
unique-append (x ∷ xs) p u h = (
  ground (arith, any-append x xs (p ∷ []), same_key_sym x p),
  unique-append xs p u.1 (ground arith),
)

set_absent-HasUniqueKeys :
    (p : EffectivePermission) (found : List EffectivePermission)
    → HasUniqueKeys found
    → HasUniqueKeys (set_absent p found)
unfolding set_absent
set_absent-HasUniqueKeys p found u = elim (Bool-cases (any (same_key p) found)) [
  | inl old ↦ rw old u
  | inr new ↦ rw new (unique-append found p u new)
]

collect-HasUniqueKeys :
    (l : List Permission) (found : List EffectivePermission)
    → HasUniqueKeys found
    → HasUniqueKeys (collect l found)
unfolding collect
collect-HasUniqueKeys [] found u = u
collect-HasUniqueKeys (p ∷ rest) found u =
    collect-HasUniqueKeys rest (set_absent (effective p) found)
      (set_absent-HasUniqueKeys (effective p) found u)

any_through :
    (q p : EffectivePermission) (found : List EffectivePermission)
    → any (same_key p) found ≡ true
    → same_key q p ≡ true
    → any (same_key q) found ≡ true
any_through q p [] h k = cc
any_through q p (x ∷ rest) h k = ground (
  arith,
  any_through q p rest,
  eq_iff q.resource p.resource,
  eq_iff q.action p.action,
  eq_iff p.resource x.resource,
  eq_iff p.action x.action,
  eq_iff q.resource x.resource,
  eq_iff q.action x.action,
)

-- Whether a key is known after one more permission was set.
any-set_absent :
    (q p : EffectivePermission) (found : List EffectivePermission)
    → any (same_key q) (set_absent p found) ≡ (any (same_key q) found || same_key q p)
unfolding set_absent
any-set_absent q p found = elim (Bool-cases (any (same_key p) found)) [
  | inl old ↦ rw old (known (any (same_key q) found) (same_key q p) (any_through q p found old))
  | inr new ↦ rw (new, any-append q found (p ∷ [])) (last (any (same_key q) found) (same_key q p))
]
  where
    known : (a b : Bool) → (b ≡ true → a ≡ true) → a ≡ (a || b)
    known a b h = ground arith

    last : (a b : Bool) → (a || (b || false)) ≡ (a || b)
    last a b = ground arith

abbrev pub lists_key : EffectivePermission → List Permission → Bool
lists_key q = any λ p. same_key q (effective p)

or_assoc : (a b c : Bool) → ((a || b) || c) ≡ (a || (b || c))
or_assoc a b c = ground arith

any-collect :
    (q : EffectivePermission) (l : List Permission) (found : List EffectivePermission)
    → any (same_key q) (collect l found) ≡ (any (same_key q) found || lists_key q l)
unfolding collect
any-collect q [] found = ground arith
any-collect q (p ∷ rest) found =
    any-collect q rest (set_absent (effective p) found)
    ∙ rw (any-set_absent q (effective p) found)
        (or_assoc (any (same_key q) found) (same_key q (effective p)) (lists_key q rest))

-- Some assigned role has a permission with the key.
abbrev pub role_lists_key : PermissionDb → EffectivePermission → UserRole → Bool
role_lists_key db q r = lists_key q (get_role_permissions db r)

any-collect_roles :
    (db : PermissionDb) (q : EffectivePermission) (roles : List UserRole)
    (found : List EffectivePermission)
    → any (same_key q) (collect_roles db roles found)
      ≡ (any (same_key q) found || any (role_lists_key db q) roles)
unfolding collect_roles
any-collect_roles db q [] found = ground arith
any-collect_roles db q (r ∷ rest) found =
    any-collect_roles db q rest (collect (get_role_permissions db r) found)
    ∙ rw (any-collect q (get_role_permissions db r) found)
        (or_assoc (any (same_key q) found) (role_lists_key db q r) (any (role_lists_key db q) rest))

collect_roles-HasUniqueKeys :
    (db : PermissionDb) (roles : List UserRole) (found : List EffectivePermission)
    → HasUniqueKeys found
    → HasUniqueKeys (collect_roles db roles found)
unfolding collect_roles
collect_roles-HasUniqueKeys db [] found u = u
collect_roles-HasUniqueKeys db (r ∷ rest) found u =
    collect_roles-HasUniqueKeys db rest (collect (get_role_permissions db r) found)
      (collect-HasUniqueKeys (get_role_permissions db r) found u)

-- A set of roles keeps what holds of some role.
any-add_role :
    (f : UserRole → Bool) (r : UserRole) (set : List UserRole)
    → any f (add_role r set) ≡ (any f set || f r)
unfolding add_role
any-add_role f r set = elim (Bool-cases (any (role_eq r) set)) [
  | inl old ↦ rw old (known (any f set) (f r) (λ h. through set old h))
  | inr new ↦ rw new (at_end set)
]
  where
    known : (a b : Bool) → (b ≡ true → a ≡ true) → a ≡ (a || b)
    known a b h = ground arith

    through : (l : List UserRole) → any (role_eq r) l ≡ true → f r ≡ true → any f l ≡ true
    through [] h k = cc
    through (s ∷ l) h k = ground (arith, through l, role_eq_sound r s)

    at_end : (l : List UserRole) → any f (l ++ r ∷ []) ≡ (any f l || f r)
    at_end [] = ground arith
    at_end (s ∷ l) = ground (arith, at_end l)

any-role_set :
    (f : UserRole → Bool) (assigned : List Assignment) (set : List UserRole)
    → any f (role_set assigned set) ≡ (any f set || any (λ a. f a.role) assigned)
unfolding role_set
any-role_set f [] set = ground arith
any-role_set f (a ∷ rest) set =
    any-role_set f rest (add_role a.role set)
    ∙ rw (any-add_role f a.role set) (or_assoc (any f set) (f a.role) (any (λ b. f b.role) rest))

-- A user with assignments, none of them super admin, has the effective permissions of the assigned
-- roles: no key stands twice, and a key is among them exactly if some assigned role has it.
pub get_user_effective_permissions_keys :
    (fuel : ℕ) (db : PermissionDb) (cities : CityDb) (user : String) (a : Assignment)
    (rest : List Assignment)
    → get_user_city_assignments db user ≡ a ∷ rest
    → is_super (a ∷ rest) ≡ false
    → (xs : List EffectivePermission) × (get_user_effective_permissions fuel db cities user none
        ≡ ret xs)
      × HasUniqueKeys xs
      × ((q : EffectivePermission)
          → any (same_key q) xs ≡ any (λ b. role_lists_key db q b.role) (a ∷ rest))
unfolding get_user_effective_permissions effective_of assigned_permissions
get_user_effective_permissions_keys fuel db cities user a rest e n = (
  collect_roles db (role_set (a ∷ rest) []) [],
  rw (e, n),
  collect_roles-HasUniqueKeys db (role_set (a ∷ rest) []) [] tt,
  λ q.
      any-collect_roles db q (role_set (a ∷ rest) []) []
      ∙ any-role_set (role_lists_key db q) (a ∷ rest) [],
)
