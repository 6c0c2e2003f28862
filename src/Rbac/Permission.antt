-- ===== src/Rbac/Permission.antt =====
-- libs/rbac/src/permission.service.ts. The database is a parameter: a query that throws answers
-- `none`. The cache of granted permissions is a key-value store, which every call passes on.
pub mod Decision
pub mod Cache
pub mod Admins
use Prim.Native.String
use kodi_backend_template_a.Base.{
  ℕ, String, Bool, true, false, not, Option, none, some, List, [], ◌∷◌, map, ltb, ◌==◌,
  if◌then◌else◌, truthy, any, filter, ◌&&◌, Run, ret, throw, diverge, ◌>>=◌, catch,
}
use kodi_backend_template_a.Base.Store.{KeyStore}
use kodi_backend_template_a.Rbac.Roles.{UserRole, super_admin, city_admin, citizen, role_eq}
use kodi_backend_template_a.Rbac.Hierarchy.{
  CityDb, or_throw, get_all_managed_cities, is_city_in_scope,
}

pub record Assignment : Type 0 where
  pub city_id : String
  pub role : UserRole
  pub can_manage_admins : Bool

pub record Permission : Type 0 where
  pub id : String
  pub resource : String
  pub action : String
  pub description : Option String

-- The active assignments of a user; the permission of a resource and an action, as the number of
-- its links to a role; the permissions of a role.
pub record PermissionDb : Type 0 where
  pub assignments : String → Option (List Assignment)
  pub grants : String → String → UserRole → Option (Option ℕ)
  pub permissions_of : UserRole → Option (List Permission)
  pub all_permissions : Option (List Permission)

abbrev pub cities_of : List Assignment → List String
cities_of = map λ a. a.city_id

-- `(permission?.rolePermissions?.length ?? 0) > 0`.
abbrev pub has_links : Option ℕ → Bool
has_links none = false
has_links (some n) = ltb 0 n

infixr 65 ◌⧺◌
abbrev ◌⧺◌ : String → String → String
s ⧺ t = String.◌++◌ s t

abbrev city_suffix : Option String → String
city_suffix none = ""
city_suffix (some c) = ":" ⧺ c

pub cache_key : String → String → String → Option String → String
cache_key user resource action city =
    "permission:" ⧺ user ⧺ ":" ⧺ resource ⧺ ":" ⧺ action ⧺ city_suffix (truthy city)

pub has_role_permission : PermissionDb → UserRole → String → String → Run Bool
has_role_permission db role resource action =
    if role_eq role super_admin
    then ret true
    else do links ← or_throw (db.grants resource action role); ret (has_links links)

-- A failing query counts as no assignment.
unfoldable pub get_user_city_assignments : PermissionDb → String → List Assignment
get_user_city_assignments db user = elim (db.assignments user) [ none ↦ [] | some l ↦ l ]

-- The loop over the assignments, which stops at the first role that has the permission.
any_role : PermissionDb → String → String → List Assignment → Run Bool
any_role db resource action [] = ret false
any_role db resource action (a ∷ rest) = do
  found ← has_role_permission db a.role resource action
  if found then ret true else any_role db resource action rest

in_scope : ℕ → CityDb → List Assignment → Option String → Run Bool
in_scope fuel cities assigned none = ret true
in_scope fuel cities assigned (some city) = do
  managed ← get_all_managed_cities fuel cities (cities_of assigned)
  ret (is_city_in_scope city managed)

-- The answer that is not in the cache, and whether it is put there.
decide_assigned :
    ℕ
    → PermissionDb
    → CityDb
    → List Assignment
    → String
    → String
    → Option String
    → Run (Bool × Bool)
decide_assigned fuel db cities [] resource action city = do
  granted ← has_role_permission db citizen resource action
  ret (granted, false)
decide_assigned fuel db cities (a ∷ rest) resource action city = do
  reached ← in_scope fuel cities (a ∷ rest) (truthy city)
  granted ← if reached then any_role db resource action (a ∷ rest) else ret false
  ret (granted, granted)

unfoldable pub decide :
    ℕ → PermissionDb → CityDb → String → String → String → Option String → Run (Bool × Bool)
unfolding decide_assigned any_role in_scope has_role_permission get_user_city_assignments
decide fuel db cities user resource action city =
    decide_assigned fuel db cities (get_user_city_assignments db user) resource action city

-- Whether a user may grant admin rights in a city.
pub can_manage_city_admins : ℕ → PermissionDb → CityDb → String → String → Run Bool
can_manage_city_admins fuel db cities user target =
    let assigned = get_user_city_assignments db user in
    let scope =
      get_all_managed_cities fuel cities
        (cities_of (filter (λ a. role_eq a.role city_admin && a.can_manage_admins) assigned)) in
    catch
      (if any (λ a. role_eq a.role super_admin) assigned
        then ret true
        else do managed ← scope; ret (is_city_in_scope target managed))
      false

-- The permissions of a role, as `resource:action`.
pub get_user_permissions : PermissionDb → UserRole → List String
get_user_permissions db role = elim (db.permissions_of role) [
  | none ↦ []
  | some l ↦ map (λ p. p.resource ⧺ ":" ⧺ p.action) l
]

pub get_role_permissions : PermissionDb → UserRole → List Permission
get_role_permissions db role = elim (db.permissions_of role) [ none ↦ [] | some l ↦ l ]

module _ (store : KeyStore String) (fuel : ℕ) (db : PermissionDb) (cities : CityDb) where
  open store use {Keys, get, setex}

  -- `try { … } catch { return false }`, with the write of a granted permission for 300 seconds.
  remember : Keys → ℕ → String → Run (Bool × Bool) → Run Bool × Keys
  remember keys now key (ret (granted, keep)) =
      (ret granted, if keep then setex keys now key 300 "true" else keys)
  remember keys now key throw = (ret false, keys)
  remember keys now key diverge = (diverge, keys)

  -- A key that holds another text than "true" is decided anew.
  from_cache : Keys → Option String → Run Bool × Keys → Run Bool × Keys
  from_cache keys none fresh = fresh
  from_cache keys (some v) fresh = if v == "true" then (ret true, keys) else fresh

  unfoldable pub has_permission :
      Keys → ℕ → String → String → String → Option String → Run Bool × Keys
  unfolding remember from_cache decide
  has_permission keys now user resource action city =
      let key = cache_key user resource action city in
      from_cache keys (get keys now key)
        (remember keys now key (decide fuel db cities user resource action city))

  unfoldable pub has_city_permission :
      Keys → ℕ → String → String → String → String → Run Bool × Keys
  has_city_permission keys now user city resource action =
      has_permission keys now user resource action (some city)
