-- ===== src/Auth/Admins.antt =====
-- `assignCityAdmin` of apps/auth/src/modules/auth/auth.service.ts: who may make whom an admin of a city.
pub mod Granted
use kodi_backend_template_a.Base.{
  ℕ, ◌⊎◌, Bool-cases, inl, inr, String, ◌≡◌, refl, sym, Bool, true, false, Option, none, some, ◌&&◌,
  ◌||◌, ◌==◌, find?, arith, Reply, refuse, answer, Run, ret, ◌>>=◌, >>=-eq-ret,
}
use kodi_backend_template_a.Rbac.Roles.{
  UserRole, super_admin, city_admin, citizen, role_eq, role_name, number_to_role, RoleClaim,
  claimed_role,
}
use kodi_backend_template_a.Rbac.Hierarchy.{CityDb}
use kodi_backend_template_a.Rbac.Permission.{
  Assignment, PermissionDb, get_user_city_assignments, can_manage_city_admins,
}
use kodi_backend_template_a.Auth.Services.{User, Services}

pub data AssignError : Type 0 where
  call_failed requester_not_found insufficient_permissions target_not_found : AssignError

-- `AssignCityAdminDto`.
pub record AssignRequest : Type 0 where
  pub user_id : String
  pub city_id : String
  pub role : ℕ

pub record AssignCommand : Type 0 where
  pub request : AssignRequest
  pub assigned_by : String
  pub can_grant_manage_admins : Bool

looked_up : Option (Option User) → Reply AssignError String
looked_up none = refuse call_failed
looked_up (some none) = refuse requester_not_found
looked_up (some (some u)) = answer (role_name u.role)

pub covers : String → Assignment → Bool
covers city a = a.city_id == city || a.can_manage_admins

pub manages : Option Assignment → Bool
manages none = false
manages (some a) = a.can_manage_admins

module _ (services : Services) (assign : AssignCommand → Option String) (fuel : ℕ)
    (permissions : PermissionDb) (cities : CityDb) where
  -- The role of the requester, from the token or else from the service of users.
  unfoldable pub normalized_role : Option RoleClaim → String → Reply AssignError String
  unfolding looked_up
  normalized_role none requester = looked_up (services.find_by_id requester)
  normalized_role (some claim) requester = answer (claimed_role claim)

  unfoldable pub can_grant : Bool → String → AssignRequest → Bool
  unfolding manages covers
  can_grant true requester r = role_eq (number_to_role r.role) city_admin
  can_grant false requester r =
      manages (find? (covers r.city_id) (get_user_city_assignments permissions requester))
      && role_eq (number_to_role r.role) city_admin

  pub sent : AssignCommand → Option String → Reply AssignError AssignCommand
  sent command none = refuse call_failed
  sent command (some id) = answer command

  -- The answer is the command that was carried out.
  pub assign_found :
      Bool → String → AssignRequest → Option (Option User) → Reply AssignError AssignCommand
  unfolding sent
  assign_found super requester r none = refuse call_failed
  assign_found super requester r (some none) = refuse target_not_found
  assign_found super requester r (some (some u)) =
      let command : AssignCommand = record {
        request = r;
        assigned_by = requester;
        can_grant_manage_admins = can_grant super requester r;
      } in
      sent command (assign command)

  pub assign_checked : Bool → Bool → String → AssignRequest → Reply AssignError AssignCommand
  unfolding assign_found
  assign_checked super true requester r =
      assign_found super requester r (services.find_by_id r.user_id)
  assign_checked super false requester r = refuse insufficient_permissions

  pub may_assign : Bool → String → AssignRequest → Run Bool
  may_assign true requester r = ret true
  may_assign false requester r = can_manage_city_admins fuel permissions cities requester r.city_id

  pub assign_as :
      Reply AssignError String → String → AssignRequest → Run (Reply AssignError AssignCommand)
  unfolding assign_checked may_assign
  assign_as (refuse e) requester r = ret (refuse e)
  assign_as (answer role) requester r = do
    allowed ← may_assign (role == "SUPER_ADMIN") requester r
    ret (assign_checked (role == "SUPER_ADMIN") allowed requester r)

  unfoldable pub assign_city_admin :
      Option RoleClaim → String → AssignRequest → Run (Reply AssignError AssignCommand)
  unfolding assign_as
  assign_city_admin claim requester r = assign_as (normalized_role claim requester) requester r
