-- ===== src/Rbac/Guards.antt =====
-- The guards of libs/rbac/src: what each lets through. A guard returns true (`allowed`), returns
-- false (`refused`), or throws a ForbiddenException (`forbidden`).
pub mod Roles
pub mod Cities
use kodi_backend_template_a.Base.{
  ℕ, String, Bool, true, false, not, Option, none, some, List, [], ◌∷◌, ltb, ◌==◌, ◌&&◌, ◌||◌,
  if◌then◌else◌, truthy, or_else, includes, Run, ret, throw, diverge, ◌>>=◌,
}
use kodi_backend_template_a.Base.Store.{KeyStore}
use kodi_backend_template_a.Rbac.Roles.{
  RoleClaim, claimed_role, super_name, city_admin_name, citizen_name,
}
use kodi_backend_template_a.Rbac.Hierarchy.{CityDb}
use kodi_backend_template_a.Rbac.Permission.{PermissionDb, has_permission}
use kodi_backend_template_a.Rbac.Context.{can_access_city, can_manage_city}

pub data Reason : Type 0 where
  not_authenticated super_admin_required city_admin_required role_required : Reason
  permission_required access_denied cannot_create_city management_denied : Reason
  citizen_cannot_moderate moderation_denied moderate_permission_required : Reason
  terms_not_accepted : Reason

pub data Verdict : Type 0 where
  allowed refused : Verdict
  forbidden : Reason → Verdict

-- `id` is `user.sub || user.userId`, which the token's validation sets.
pub record TokenUser : Type 0 where
  pub id : String
  pub role : RoleClaim

pub record Request : Type 0 where
  pub user : Option TokenUser
  pub params_city : Option String
  pub query_city : Option String
  pub body_city : Option String

-- `request.params?.cityId || request.query?.cityId || request.body?.cityId`, as a condition.
abbrev pub request_city : Request → Option String
request_city r = truthy (or_else (or_else r.params_city r.query_city) r.body_city)

roles_for : List String → Option TokenUser → Verdict
roles_for required none = forbidden not_authenticated
roles_for required (some u) =
    if claimed_role u.role == super_name
    then allowed
    else if includes (claimed_role u.role) required
    then allowed
    else forbidden role_required

pub roles_guard : Option (List String) → Request → Verdict
unfolding roles_for
roles_guard none r = allowed
roles_guard (some required) r = roles_for required r.user

admin_for : Bool → Option TokenUser → Verdict
admin_for super_only none = forbidden not_authenticated
admin_for super_only (some u) =
    let role = claimed_role u.role in
    if super_only
    then if role == super_name then allowed else forbidden super_admin_required
    else if role == super_name || role == city_admin_name
    then allowed
    else forbidden city_admin_required

pub admin_only_guard : Bool → Bool → Request → Verdict
unfolding admin_for
admin_only_guard super_only city_only r =
    if not super_only && not city_only then allowed else admin_for super_only r.user

-- `if (!can) throw …; return true`.
abbrev pub or_forbid : Reason → Bool → Verdict
or_forbid reason true = allowed
or_forbid reason false = forbidden reason

abbrev pub judge : Reason → Run Bool → Run Verdict
judge reason m = do can ← m; ret (or_forbid reason can)

pub record PermissionMeta : Type 0 where
  pub resource : String
  pub action : String
  pub city : Option String

module _ (store : KeyStore String) (fuel : ℕ) (db : PermissionDb) (cities : CityDb) where
  open store use {Keys}

  -- The answer of a permission check with the cache that it leaves.
  judged : Reason → Run Bool × Keys → Run Verdict × Keys
  judged reason (m, keys) = (judge reason m, keys)

  permissions_for : Keys → ℕ → PermissionMeta → Request → Option TokenUser → Run Verdict × Keys
  permissions_for keys now meta r none = (ret (forbidden not_authenticated), keys)
  permissions_for keys now meta r (some u) =
      if claimed_role u.role == super_name
      then (ret allowed, keys)
      else judged permission_required (
          has_permission store fuel db cities keys now u.id meta.resource meta.action
            (or_else meta.city (or_else (or_else r.params_city r.query_city) r.body_city)))

  pub permissions_guard : Keys → ℕ → Option PermissionMeta → Request → Run Verdict × Keys
  unfolding permissions_for judged
  permissions_guard keys now none r = (ret allowed, keys)
  permissions_guard keys now (some meta) r = permissions_for keys now meta r r.user

  -- The check of the permission `listings:moderate`, behind the check of the city.
  moderate_permission : Keys → ℕ → String → String → Bool → Run Verdict × Keys
  moderate_permission keys now user city false = (ret (forbidden moderation_denied), keys)
  moderate_permission keys now user city true =
      judged moderate_permission_required
        (has_permission store fuel db cities keys now user "listings" "moderate" (some city))

  moderate_city : Keys → ℕ → String → String → Run Bool → Run Verdict × Keys
  moderate_city keys now user city (ret can) = moderate_permission keys now user city can
  moderate_city keys now user city throw = (throw, keys)
  moderate_city keys now user city diverge = (diverge, keys)

  moderation_in : Keys → ℕ → TokenUser → Option String → Run Verdict × Keys
  moderation_in keys now u none =
      (ret (if claimed_role u.role == city_admin_name then allowed else refused), keys)
  moderation_in keys now u (some city) =
      moderate_city keys now u.id city (can_manage_city fuel db cities u.id city)

  moderation_for : Keys → ℕ → Request → Option TokenUser → Run Verdict × Keys
  moderation_for keys now r none = (ret (forbidden not_authenticated), keys)
  moderation_for keys now r (some u) =
      if claimed_role u.role == super_name
      then (ret allowed, keys)
      else if claimed_role u.role == citizen_name
      then (ret (forbidden citizen_cannot_moderate), keys)
      else moderation_in keys now u (request_city r)

  unfoldable pub content_moderation_guard : Keys → ℕ → Request → Run Verdict × Keys
  unfolding moderation_for moderation_in moderate_city moderate_permission judged
  content_moderation_guard keys now r = moderation_for keys now r r.user

module _ (fuel : ℕ) (db : PermissionDb) (cities : CityDb) where
  scope_in : TokenUser → Option String → Run Verdict
  scope_in u none = ret allowed
  scope_in u (some city) = judge access_denied (can_access_city fuel db cities u.id city)

  scope_for : Request → Option TokenUser → Run Verdict
  scope_for r none = ret (forbidden not_authenticated)
  scope_for r (some u) =
      if claimed_role u.role == super_name
      then ret allowed
      else if claimed_role u.role == citizen_name
      then ret allowed
      else scope_in u (request_city r)

  pub city_scope_guard : Request → Run Verdict
  unfolding scope_for scope_in
  city_scope_guard r = scope_for r r.user

  management_in : TokenUser → Option String → Run Verdict
  management_in u none =
      ret (if claimed_role u.role == city_admin_name then forbidden cannot_create_city else refused)
  management_in u (some city) = judge management_denied (can_manage_city fuel db cities u.id city)

  management_for : Request → Option TokenUser → Run Verdict
  management_for r none = ret (forbidden not_authenticated)
  management_for r (some u) =
      if claimed_role u.role == super_name then ret allowed else management_in u (request_city r)

  unfoldable pub city_management_guard : Request → Run Verdict
  unfolding management_for management_in
  city_management_guard r = management_for r r.user

-- The answer of the terms service: whether the user has accepted, and the end of the grace period.
pub record AcceptanceCheck : Type 0 where
  pub has_accepted : Bool
  pub grace_period_ends_at : Option ℕ

in_grace : ℕ → Option ℕ → Bool
in_grace now none = false
in_grace now (some end_time) = ltb now end_time

terms_for : ℕ → Option AcceptanceCheck → Verdict
terms_for now none = allowed
terms_for now (some check) =
    if check.has_accepted
    then allowed
    else if in_grace now check.grace_period_ends_at
    then allowed
    else forbidden terms_not_accepted

-- Of guards/terms-acceptance.guard.ts. The check is `none` where the service does not answer in time.
pub terms_acceptance_guard : Bool → Option String → ℕ → Option AcceptanceCheck → Verdict
unfolding terms_for in_grace
terms_acceptance_guard exempt user now check =
    if exempt
    then allowed
    else elim (truthy user) [ none ↦ allowed | some id ↦ terms_for now check ]
