-- ===== src/Rbac/Context.antt =====
-- libs/rbac/src/user-context.service.ts: the cities and permissions of a user.
pub mod Scope
pub mod Effective
use kodi_backend_template_a.Base.{
  ℕ, String, Bool, true, false, Option, none, some, List, [], ◌∷◌, ◌++◌, map, ◌==◌, ◌&&◌,
  if◌then◌else◌, truthy, any, filter, Run, ret, ◌>>=◌, catch,
}
use kodi_backend_template_a.Rbac.Roles.{UserRole, super_admin, city_admin, citizen, role_eq}
use kodi_backend_template_a.Rbac.Hierarchy.{
  CityDb, or_throw, get_all_managed_cities, is_city_in_scope,
}
use kodi_backend_template_a.Rbac.Permission.{
  Assignment, Permission, PermissionDb, cities_of, get_user_city_assignments, get_role_permissions,
}

abbrev pub is_super : List Assignment → Bool
is_super = any λ a. role_eq a.role super_admin

abbrev pub admin_assignments : List Assignment → List Assignment
admin_assignments = filter λ a. role_eq a.role city_admin

-- Whether a city is within the reach of some assignments.
reaches : ℕ → CityDb → List Assignment → String → Run Bool
reaches fuel cities assigned city = do
  managed ← get_all_managed_cities fuel cities (cities_of assigned)
  ret (is_city_in_scope city managed)

-- The empty list stands for all cities, for none, and for a failure.
pub get_user_managed_cities : ℕ → PermissionDb → CityDb → String → Run (List String)
get_user_managed_cities fuel db cities user = catch (of (get_user_city_assignments db user)) []
  where
    of : List Assignment → Run (List String)
    of [] = ret []
    of (a ∷ rest) =
        if is_super (a ∷ rest)
        then ret []
        else get_all_managed_cities fuel cities (cities_of (admin_assignments (a ∷ rest)))

access_from : ℕ → CityDb → List Assignment → String → Run Bool
access_from fuel cities [] city = ret true
access_from fuel cities (a ∷ rest) city = reaches fuel cities (a ∷ rest) city

pub can_access_city : ℕ → PermissionDb → CityDb → String → String → Run Bool
unfolding access_from reaches
can_access_city fuel db cities user city =
    let assigned = get_user_city_assignments db user in
    catch
      (if is_super assigned
        then ret true
        else access_from fuel cities (admin_assignments assigned) city)
      false

manage_from : ℕ → CityDb → List Assignment → String → Run Bool
manage_from fuel cities [] city = ret false
manage_from fuel cities (a ∷ rest) city = reaches fuel cities (a ∷ rest) city

unfoldable pub can_manage_city : ℕ → PermissionDb → CityDb → String → String → Run Bool
unfolding manage_from reaches
can_manage_city fuel db cities user city =
    let assigned = get_user_city_assignments db user in
    catch
      (if is_super assigned
        then ret true
        else manage_from fuel cities (admin_assignments assigned) city)
      false

pub record EffectivePermission : Type 0 where
  pub resource : String
  pub action : String
  pub description : Option String

abbrev pub effective : Permission → EffectivePermission
effective p = record { resource = p.resource; action = p.action; description = p.description }

-- The key `resource:action` of a map, as the pair of its parts.
abbrev pub same_key : EffectivePermission → EffectivePermission → Bool
same_key p q = p.resource == q.resource && p.action == q.action

-- `if (!allPermissions.has(key)) allPermissions.set(key, …)`.
pub set_absent : EffectivePermission → List EffectivePermission → List EffectivePermission
set_absent p found = if any (same_key p) found then found else found ++ p ∷ []

pub collect : List Permission → List EffectivePermission → List EffectivePermission
collect [] found = found
collect (p ∷ rest) found = collect rest (set_absent (effective p) found)

-- `new Set(roles)`.
add_role : UserRole → List UserRole → List UserRole
add_role r set = if any (role_eq r) set then set else set ++ r ∷ []

role_set : List Assignment → List UserRole → List UserRole
role_set [] set = set
role_set (a ∷ rest) set = role_set rest (add_role a.role set)

pub collect_roles :
    PermissionDb → List UserRole → List EffectivePermission → List EffectivePermission
collect_roles db [] found = found
collect_roles db (r ∷ rest) found =
    collect_roles db rest (collect (get_role_permissions db r) found)

assigned_permissions :
    ℕ → PermissionDb → CityDb → List Assignment → Option String → Run (List EffectivePermission)
assigned_permissions fuel db cities assigned none = ret (collect_roles db (role_set assigned []) [])
assigned_permissions fuel db cities assigned (some city) = do
  inside ← reaches fuel cities assigned city
  ret (if inside then collect_roles db (role_set assigned []) [] else [])

effective_of :
    ℕ → PermissionDb → CityDb → List Assignment → Option String → Run (List EffectivePermission)
effective_of fuel db cities [] city = ret (map effective (get_role_permissions db citizen))
effective_of fuel db cities (a ∷ rest) city =
    if is_super (a ∷ rest)
    then or_throw db.all_permissions >>= (λ l. ret (map effective l))
    else assigned_permissions fuel db cities (a ∷ rest) (truthy city)

pub get_user_effective_permissions :
    ℕ → PermissionDb → CityDb → String → Option String → Run (List EffectivePermission)
get_user_effective_permissions fuel db cities user city =
    catch (effective_of fuel db cities (get_user_city_assignments db user) city) []
