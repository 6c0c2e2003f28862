-- ===== src/Users/Accounts/Guests.antt =====
-- Guests in users.service.ts: their creation for a device, and their conversion to a registered user.
pub mod Converted
pub mod Device
use Prim.Native.String
use kodi_backend_template_a.Base.{
  ℕ, String, Bool, true, false, Option, none, some, ◌&&◌, not, find?, truthy, Reply, refuse, answer,
}
use kodi_backend_template_a.Base.Store.{Table}
use kodi_backend_template_a.Users.Accounts.{
  User, UserError, UserEvent, UserType, guest, registered, is_guest_type, DevicePlatform, Texts,
  UsersState, emit, normalized, has_email, has_id, find_by_id, find_by_username, create_row,
  update_by_id, blank, is_on_device, is_present, user_created, user_updated, fields_required,
  duplicate_email, duplicate_username, user_not_found, not_a_guest,
}
use kodi_backend_template_a.Users.Accounts.Register.{Passwords, or_false}

-- `RegisterDto` for a guest who registers.
pub record ConvertRequest : Type 0 where
  pub email : Option String
  pub password : Option String
  pub username : Option String
  pub first_name : Option String
  pub last_name : Option String
  pub salutation_code : Option String
  pub has_vehicle : Option Bool

-- A guest that was not deleted, on this device.
pub is_guest_on : String → DevicePlatform → User → Bool
unfolding is_on_device
is_guest_on device platform u =
    is_on_device device platform u && (is_guest_type u.user_type && not (is_present u.deleted_at))

-- `guest_${deviceId}_${Date.now()}`, with the text of the time.
guest_name : String → String → String
guest_name device stamp = String.◌++◌ "guest_" (String.◌++◌ device (String.◌++◌ "_" stamp))

unfoldable pub guest_user : ℕ → String → String → String → DevicePlatform → User
unfolding blank guest_name
guest_user now stamp id device platform = record (blank now id) {
  guest_id = some (guest_name device stamp);
  device_id = some device;
  device_platform = some platform;
  user_type = guest;
}

-- The `data` of the update that makes a guest a registered user.
unfoldable pub registered_guest : String → String → ConvertRequest → User → User
registered_guest email password r u = record u {
  email = some email;
  username = truthy r.username;
  password = some password;
  first_name = truthy r.first_name;
  last_name = truthy r.last_name;
  salutation_code = truthy r.salutation_code;
  has_vehicle = or_false r.has_vehicle;
  user_type = registered;
  email_verified = false;
  migrated_from_guest_id = u.guest_id;
  guest_id = none;
}

module _ (table : Table User) (texts : Texts) (passwords : Passwords) where
  open table use {rows}

  abbrev pub Answer : Type 0
  Answer = UsersState table texts × Reply UserError User

  pub find_by_device_id : String → DevicePlatform → UsersState table texts → Option User
  unfolding is_guest_on
  find_by_device_id device platform s = find? (is_guest_on device platform) (rows s.users)

  pub announce_guest : Answer → Answer
  announce_guest (s, refuse e) = (s, refuse e)
  announce_guest (s, answer u) = (emit table texts (user_created u.id none none) s, answer u)

  pub guest_unless : Option User → User → UsersState table texts → Answer
  unfolding announce_guest
  guest_unless (some old) u s = (s, answer old)
  guest_unless none u s = announce_guest (create_row table texts u s)

  pub create_guest : ℕ → String → String → String → DevicePlatform → UsersState table texts → Answer
  unfolding guest_unless find_by_device_id guest_user
  create_guest now stamp id device platform s =
      guest_unless (find_by_device_id device platform s) (guest_user now stamp id device platform) s

  -- The row is updated. Its address and its name were looked for before; its other keys stay.
  pub convert_row : String → String → ConvertRequest → User → UsersState table texts → Answer
  unfolding registered_guest
  convert_row email password r u s = (
    emit table texts (user_updated u.id) (
        emit table texts (user_created u.id (some email) none)
          (update_by_id table texts u.id (registered_guest email password r) s)),
    answer (registered_guest email password r u),
  )

  pub name_owner : Option String → UsersState table texts → Option User
  unfolding find_by_username
  name_owner none s = none
  name_owner (some name) s = find_by_username table texts name s

  pub convert_checked :
      Option User
      → Option User
      → String
      → String
      → ConvertRequest
      → User
      → UsersState table texts
      → Answer
  unfolding convert_row
  convert_checked (some other) named email password r u s = (s, refuse duplicate_email)
  convert_checked none (some other) email password r u s = (s, refuse duplicate_username)
  convert_checked none none email password r u s = convert_row email (passwords.hash password) r u s

  pub typed : UserType → Answer → UsersState table texts → Answer
  typed guest done s = done
  typed registered done s = (s, refuse not_a_guest)

  pub convert_found :
      Option User → String → String → ConvertRequest → UsersState table texts → Answer
  unfolding convert_checked name_owner normalized has_email typed
  convert_found none email password r s = (s, refuse user_not_found)
  convert_found (some u) email password r s =
      let address = normalized table texts email in
      let done =
        convert_checked (find? (has_email table texts address) (rows s.users))
          (name_owner (truthy r.username) s) address password r u s in
      typed u.user_type done s

  pub convert_fields :
      Option String → Option String → String → ConvertRequest → UsersState table texts → Answer
  unfolding convert_found
  convert_fields (some email) (some password) id r s =
      convert_found (find_by_id table texts id s) email password r s
  convert_fields _ _ id r s = (s, refuse fields_required)

  unfoldable pub convert_guest_to_user : String → ConvertRequest → UsersState table texts → Answer
  unfolding convert_fields
  convert_guest_to_user id r s = convert_fields (truthy r.email) (truthy r.password) id r s
