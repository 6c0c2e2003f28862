-- ===== src/Core/Assignments.antt =====
-- apps/core/src/modules/core/core.service.ts: the assignments of users to cities, and
-- `cleanupUserData`. The table has the unique key of user and city. A text in upper case, as the
-- host's tables give it, and the ids of new rows are parameters.
pub mod Assigned
use kodi_backend_template_a.Base.{
  ℕ, String, Bool, true, false, not, Option, none, some, List, [], ◌∷◌, ◌++◌, map, ◌&&◌, ◌==◌,
  if◌then◌else◌, filter, find?, length, leb, nat_eq, Reply, refuse, answer,
}
use kodi_backend_template_a.Base.Store.{Table}
use kodi_backend_template_a.Core.{UserFavorite}
use kodi_backend_template_a.Core.Notices.{ListingReminder}
use kodi_backend_template_a.Rbac.Roles.{
  UserRole, super_admin, city_admin, citizen, role_eq, role_name, role_to_number, RoleClaim, number,
  text,
}

pub record UserCityAssignment : Type 0 where
  pub user_id : String
  pub city_id : String
  pub role : UserRole
  pub can_manage_admins : Bool
  pub assigned_by : Option String
  pub is_active : Bool
  pub created_at : ℕ

pub data AssignmentError : Type 0 where
  already_assigned role_unknown : AssignmentError

-- The message `USER_UPDATE_ROLE` to the users service.
pub record RoleUpdate : Type 0 where
  pub user_id : String
  pub role : UserRole
  pub updated_by : String

abbrev pub is_assignment : String → String → UserCityAssignment → Bool
is_assignment user city a = a.user_id == user && a.city_id == city

-- The role as the database takes it: a text that names none is refused.
abbrev pub role_of : String → Option UserRole
role_of s =
    if s == "SUPER_ADMIN"
    then some super_admin
    else if s == "CITY_ADMIN"
    then some city_admin
    else if s == "CITIZEN"
    then some citizen
    else none

abbrev pub mapped_role : ℕ → UserRole
mapped_role n =
    if nat_eq n 1
    then super_admin
    else if nat_eq n 2
    then city_admin
    else if nat_eq n 3
    then citizen
    else citizen

abbrev pub true_unless : Option Bool → Bool
true_unless none = true
true_unless (some b) = b

abbrev pub is_active_of : String → Option UserRole → UserCityAssignment → Bool
is_active_of user none a = a.user_id == user && a.is_active
is_active_of user (some role) a = a.user_id == user && a.is_active && role_eq a.role role

-- `orderBy: { createdAt: 'desc' }`.
abbrev pub insert_newest : UserCityAssignment → List UserCityAssignment → List UserCityAssignment
insert_newest a [] = a ∷ []
insert_newest a (b ∷ bs) =
    if leb b.created_at a.created_at then a ∷ b ∷ bs else b ∷ insert_newest a bs

abbrev pub newest_first : List UserCityAssignment → List UserCityAssignment
newest_first [] = []
newest_first (a ∷ as') = insert_newest a (newest_first as')

abbrev pub city_of : UserCityAssignment → String
city_of a = a.city_id

-- The tables, and a text in upper case.
pub record CoreTables : Type 1 where
  pub assignments : Table UserCityAssignment
  pub favorites : Table UserFavorite
  pub reminders : Table ListingReminder
  pub to_upper : String → String

module _ (tables : CoreTables) where
  open tables use {assignments, favorites, reminders, to_upper}
  open assignments use {Rows, rows, insert, update, remove}

  pub record CoreState : Type 0 where
    pub assigned : Rows
    pub favored : favorites.Rows
    pub reminded : reminders.Rows
    pub role_updates : List RoleUpdate

  abbrev pub get_user_assignments : String → Option UserRole → CoreState → List UserCityAssignment
  get_user_assignments user role s =
      newest_first (filter (is_active_of user role) (rows s.assigned))

  abbrev pub get_user_cities : String → CoreState → List String
  get_user_cities user s = map city_of (filter (is_active_of user none) (rows s.assigned))

  abbrev pub new_assignment :
      ℕ → String → String → UserRole → Bool → Option String → UserCityAssignment
  new_assignment now user city role manages by' = record {
    user_id = user;
    city_id = city;
    role = role;
    can_manage_admins = manages;
    assigned_by = by';
    is_active = true;
    created_at = now;
  }

  abbrev pub create_unless :
      Option UserCityAssignment
      → UserCityAssignment
      → CoreState
      → CoreState × Reply AssignmentError UserCityAssignment
  create_unless (some taken) a s = (s, refuse already_assigned)
  create_unless none a s = (record s { assigned = insert a s.assigned }, answer a)

  abbrev pub create_as :
      ℕ
      → String
      → String
      → String
      → Option UserRole
      → CoreState
      → CoreState × Reply AssignmentError UserCityAssignment
  create_as now user city name none s = (s, refuse role_unknown)
  create_as now user city name (some role) s =
      create_unless (find? (is_assignment user city) (rows s.assigned))
        (new_assignment now user city role (name == "CITY_ADMIN") none) s

  unfoldable pub create_user_city_assignment :
      ℕ
      → String
      → String
      → String
      → CoreState
      → CoreState × Reply AssignmentError UserCityAssignment
  create_user_city_assignment now user city name s = create_as now user city name (role_of name) s

  abbrev pub normalized_role : RoleClaim → Option UserRole
  normalized_role (number n) = some (mapped_role n)
  normalized_role (text name) = role_of (to_upper name)

  abbrev pub reassigned : UserRole → Bool → String → UserCityAssignment → UserCityAssignment
  reassigned role manages by' a = record a {
    role = role;
    can_manage_admins = manages;
    is_active = true;
    assigned_by = some by';
  }

  -- `upsert`.
  abbrev pub upsert_assignment :
      ℕ
      → String
      → String
      → UserRole
      → Bool
      → String
      → Option UserCityAssignment
      → Rows
      → Rows × UserCityAssignment
  upsert_assignment now user city role manages by' none t =
      let a = new_assignment now user city role manages (some by') in (insert a t, a)
  upsert_assignment now user city role manages by' (some a) t = (
    update (is_assignment user city) (reassigned role manages by') t,
    reassigned role manages by' a,
  )

  -- The users service is told the role in any case; a failure of it changes nothing here. The
  -- answer's role is a number.
  abbrev pub assign_as :
      ℕ
      → String
      → String
      → Option UserRole
      → Bool
      → String
      → CoreState
      → CoreState × Reply AssignmentError (UserCityAssignment × ℕ)
  assign_as now user city none manages by' s = (s, refuse role_unknown)
  assign_as now user city (some role) manages by' s =
      let (t, a) =
        upsert_assignment now user city role manages by'
          (find? (is_assignment user city) (rows s.assigned)) s.assigned in
      (
        record s {
          assigned = t;
          role_updates =
              s.role_updates ++ record { user_id = user; role = role; updated_by = by' } ∷ [];
        },
        answer (a, role_to_number (role_name a.role)),
      )

  unfoldable pub assign_city_admin :
      ℕ
      → String
      → String
      → RoleClaim
      → String
      → Option Bool
      → CoreState
      → CoreState × Reply AssignmentError (UserCityAssignment × ℕ)
  assign_city_admin now user city role by' manages s =
      assign_as now user city (normalized_role role) (true_unless manages) by' s

  -- The counts of the deleted favorites, reminders and assignments.
  unfoldable pub cleanup_user_data : String → CoreState → CoreState × ℕ × ℕ × ℕ
  cleanup_user_data user s = (
    record s {
      favored = favorites.remove (λ f. f.user_id == user) s.favored;
      reminded = reminders.remove (λ r. r.user_id == user) s.reminded;
      assigned = remove (λ a. a.user_id == user) s.assigned;
    },
    length (filter (λ (f : UserFavorite). f.user_id == user) (favorites.rows s.favored)),
    length (filter (λ (r : ListingReminder). r.user_id == user) (reminders.rows s.reminded)),
    length (filter (λ (a : UserCityAssignment). a.user_id == user) (rows s.assigned)),
  )
