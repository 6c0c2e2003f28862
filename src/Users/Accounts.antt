-- ===== src/Users/Accounts.antt =====
-- apps/users/src/modules/users/users.service.ts: the users, their accounts as guests and with an
-- e-mail address. The table has the unique keys of libs/prisma/src/schemas/users/schema.prisma.
-- Times are seconds; ids, the clock, hashes and the answers of other services are arguments.
pub mod Register
pub mod Guests
pub mod Changes
pub mod Moves
pub mod Unique
pub mod Calls
mod Tests
use kodi_backend_template_a.Base.{
  ℕ, String, ◌≡◌, Bool, true, false, Option, none, some, List, [], ◌∷◌, ◌++◌, ◌&&◌, ◌||◌, not, ◌==◌,
  if◌then◌else◌, find?, any, truthy, Reply, refuse, answer,
}
use kodi_backend_template_a.Base.Store.{Table}
use kodi_backend_template_a.Rbac.Roles.{UserRole, citizen}

pub data UserType : Type 0 where
  registered guest : UserType

abbrev pub is_guest_type : UserType → Bool
is_guest_type guest = true
is_guest_type registered = false

pub data DevicePlatform : Type 0 where
  android ios : DevicePlatform

abbrev pub same_platform : DevicePlatform → DevicePlatform → Bool
same_platform android android = true
same_platform ios ios = true
same_platform _ _ = false

pub record User : Type 0 where
  pub id : String
  pub email : Option String
  pub username : Option String
  pub password : Option String
  pub role : UserRole
  pub user_type : UserType
  pub guest_id : Option String
  pub device_id : Option String
  pub device_platform : Option DevicePlatform
  pub migrated_from_guest_id : Option String
  pub first_name : Option String
  pub last_name : Option String
  pub salutation_code : Option String
  pub profile_photo_url : Option String
  pub preferred_language : Option String
  pub has_vehicle : Bool
  pub email_verified : Bool
  pub notifications_enabled : Bool
  pub is_active : Bool
  pub created_at : ℕ
  pub deleted_at : Option ℕ

pub data UserError : Type 0 where
  fields_required duplicate_email duplicate_username user_not_found already_active
        unsupported_language no_password wrong_password not_a_guest token_invalid city_not_assigned
        email_required newsletter_unavailable unique_violated record_missing saga_failed :
      UserError

-- What the service sends to the other services.
pub data UserEvent : Type 0 where
  user_created : String → Option String → Option String → UserEvent
  user_updated : String → UserEvent
  user_deleted : String → UserEvent
  reset_requested : String → Option String → UserEvent
  reset_token_used : String → UserEvent
  reset_completed : String → String → UserEvent

-- `toLowerCase`, `trim`, and how the database folds a text that it compares without regard to case.
pub record Texts : Type 0 where
  pub to_lower_case : String → String
  pub trim : String → String
  pub fold : String → String

-- Two texts that are there and equal: a unique key takes absent values as different.
abbrev pub both_same : Option String → Option String → Bool
both_same (some s) (some t) = s == t
both_same _ _ = false

pub has_id : String → User → Bool
has_id id u = u.id == id

pub has_username : String → User → Bool
has_username name u = both_same u.username (some name)

abbrev on_platform : Option DevicePlatform → DevicePlatform → Bool
on_platform (some p) platform = same_platform p platform
on_platform none platform = false

abbrev pub device_matches : String → DevicePlatform → Option String → Option DevicePlatform → Bool
device_matches device platform d p = both_same d (some device) && on_platform p platform

-- The row belongs to this device.
pub is_on_device : String → DevicePlatform → User → Bool
is_on_device device platform u = device_matches device platform u.device_id u.device_platform

pub device_taken : Option String → Option DevicePlatform → User → Bool
device_taken (some device) (some platform) v = is_on_device device platform v
device_taken _ _ v = false

-- The row `v` stands in the way of `u` by a unique key of the schema.
pub conflicts : User → User → Bool
unfolding device_taken
conflicts u v =
    has_id u.id v
    || (both_same v.email u.email
        || (both_same v.username u.username
            || (both_same v.guest_id u.guest_id || device_taken u.device_id u.device_platform v)))

-- A row that `create` fills with the defaults of the schema.
pub blank : ℕ → String → User
blank now id = record {
  id = id;
  email = none;
  username = none;
  password = none;
  role = citizen;
  user_type = registered;
  guest_id = none;
  device_id = none;
  device_platform = none;
  migrated_from_guest_id = none;
  first_name = none;
  last_name = none;
  salutation_code = none;
  profile_photo_url = none;
  preferred_language = none;
  has_vehicle = false;
  email_verified = false;
  notifications_enabled = true;
  is_active = true;
  created_at = now;
  deleted_at = none;
}

abbrev pub is_present : {A : Type 0} → Option A → Bool
is_present none = false
is_present (some a) = true

module _ (table : Table User) (texts : Texts) where
  open table use {Rows, rows, insert, update, remove}

  pub record UsersState : Type 0 where
    pub users : Rows
    pub events : List UserEvent

  pub emit : UserEvent → UsersState → UsersState
  emit e s = record s { events = s.events ++ e ∷ [] }

  -- The address as it is stored.
  pub normalized : String → String
  normalized email = texts.trim (texts.to_lower_case email)

  -- `equals` with `mode: 'insensitive'`.
  pub is_email : String → Option String → Bool
  is_email email (some m) = texts.fold m == texts.fold email
  is_email email none = false

  pub has_email : String → User → Bool
  unfolding is_email
  has_email email u = is_email email u.email

  pub find_by_id : String → UsersState → Option User
  unfolding has_id
  find_by_id id s = find? (has_id id) (rows s.users)

  pub find_by_email : String → UsersState → Option User
  unfolding normalized has_email
  find_by_email email s = find? (has_email (normalized email)) (rows s.users)

  pub find_by_username : String → UsersState → Option User
  unfolding has_username
  find_by_username name s = find? (has_username name) (rows s.users)

  is_living : String → User → Bool
  unfolding has_id
  is_living id u = has_id id u && not (is_present u.deleted_at)

  pub find_one : String → UsersState → Option User
  unfolding is_living
  find_one id s = find? (is_living id) (rows s.users)

  -- `prisma.user.create`.
  pub create_row : User → UsersState → UsersState × Reply UserError User
  unfolding conflicts
  create_row u s = elim (find? (conflicts u) (rows s.users)) [
    | some v ↦ (s, refuse unique_violated)
    | none ↦ (record s { users = insert u s.users }, answer u)
  ]

  -- `prisma.user.update` of fields that are in no unique key.
  pub update_by_id : String → (User → User) → UsersState → UsersState
  unfolding has_id
  update_by_id id f s = record s { users = update (has_id id) f s.users }

  -- `prisma.user.delete`.
  pub delete_row : String → UsersState → UsersState
  unfolding has_id
  delete_row id s = record s { users = remove (has_id id) s.users }

  -- No row has the address of this one, in whatever case.
  abbrev pub EmailFree : User → UsersState → Type 0
  EmailFree u s =
      (email : String) → u.email ≡ some email → find? (has_email email) (rows s.users) ≡ none

  -- No row has a unique key of this one.
  abbrev pub IsNew : User → UsersState → Type 0
  IsNew u s = (find? (conflicts u) (rows s.users) ≡ none) × EmailFree u s
