-- ===== src/Users/Accounts/Tests.antt =====
-- Runs of users.service.ts, and the theorems at concrete inputs: a registration with a city, and a
-- guest who registers.
use kodi_backend_template_a.Base.{
  ℕ, ◌≤◌, String, ◌≡◌, refl, Bool, false, Option, none, some, List, [], ◌∷◌, arith, ◌==◌,
  if◌then◌else◌, find?, filter, length, refuse, answer,
}
use kodi_backend_template_a.Base.Store.{Table, KeyStore, list_table, function_store}
use kodi_backend_template_a.Saga.{
  SagaState, get_saga, compensated, start_saga, outcome, advance, fail, start_rollback, create_saga,
  execute_step, fail_step, compensate, mark_compensated,
}
use kodi_backend_template_a.Users.Accounts.{
  User, Texts, UsersState, android, is_on_device, find_by_id, normalized, city_not_assigned,
  unique_violated, create_row,
}
use kodi_backend_template_a.Users.Accounts.Unique.{IsValid}
use kodi_backend_template_a.Users.Accounts.Register.{
  RegisterRequest, Passwords, SagaPayload, register, register_with_city, registered_user,
}
use kodi_backend_template_a.Users.Accounts.Register.Atomic.{
  Leaves, register-Leaves, register_with_city-compensated,
}
use kodi_backend_template_a.Users.Accounts.Guests.{
  ConvertRequest, create_guest, convert_guest_to_user, guest_user, registered_guest,
}
use kodi_backend_template_a.Users.Accounts.Guests.Device.{create_guest-convert_guest_to_user}
use kodi_backend_template_a.Users.Accounts.Calls.{
  UserCall, registers, creates_guest, restores, deletes, run, run_users-IsValid,
}

abbrev table : Table User
table = list_table User

-- A text that differs from another in case only, where the two are written out.
abbrev texts : Texts
texts = record {
  to_lower_case = λ t. if t == "A@B.DE" then "a@b.de" else t;
  trim = λ t. t;
  fold = λ t. if t == "A@B.DE" then "a@b.de" else t;
}

abbrev store : KeyStore (SagaState SagaPayload)
store = function_store (SagaState SagaPayload) (λ p k. false)

abbrev passwords : Passwords
passwords = record { hash = λ p. "hash"; compare = λ p h. h == "hash" }

-- The core service knows one city.
abbrev assign_city : String → String → Bool
assign_city user city = city == "koln"

abbrev empty : UsersState table texts
empty = record { users = []; events = [] }

abbrev no_keys : String → ℕ → Option (SagaState SagaPayload)
no_keys k now = none

abbrev request : String → String → String → RegisterRequest
request email city id = record {
  email = some email;
  password = some "secret";
  username = none;
  first_name = none;
  last_name = none;
  salutation_code = none;
  has_vehicle = none;
  city_id = some city;
  new_id = id;
  saga_id = "s";
}

register-Leaves_example : Leaves table texts store passwords assign_city empty (
    register table texts store passwords assign_city 100
      (request "A@B.DE" "bonn" "u1")
      no_keys
      empty)
register-Leaves_example =
    register-Leaves table texts store passwords assign_city 100 (request "A@B.DE" "bonn" "u1")
      no_keys empty

abbrev first : User
first = registered_user 100 "a@b.de" "hash" (request "A@B.DE" "koln" "u1")

register_koln :
    (register table texts store passwords assign_city 100
      (request "A@B.DE" "koln" "u1")
      no_keys
      empty).2
    ≡ answer first
unfolding register registered_user create_row execute_step create_saga start_saga outcome advance
    normalized
register_koln = refl

register_bonn :
    (register table texts store passwords assign_city 100
      (request "A@B.DE" "bonn" "u1")
      no_keys
      empty).2
    ≡ refuse city_not_assigned
unfolding register create_row execute_step create_saga fail_step compensate mark_compensated
    start_saga outcome advance fail start_rollback
register_bonn = refl

register_with_city-compensated_example :
    (keys' : store.Keys) × (s' : UsersState table texts) × (sg : SagaState SagaPayload)
    × (register_with_city table texts store passwords assign_city 100 "s" "bonn" first no_keys empty
        ≡ (keys', s', refuse city_not_assigned))
    × (get_saga store keys' 100 "s" ≡ some sg)
    × (sg.status ≡ compensated)
register_with_city-compensated_example =
    register_with_city-compensated table texts store passwords assign_city 100 "s" "bonn" first
      no_keys empty refl refl

abbrev g : User
g = guest_user 100 "100" "g1" "phone" android

abbrev with_guest : UsersState table texts
with_guest = record { users = g ∷ []; events = [] }

abbrev convert : ConvertRequest
convert = record {
  email = some "A@B.DE";
  password = some "secret";
  username = none;
  first_name = none;
  last_name = none;
  salutation_code = none;
  has_vehicle = none;
}

guest_found : find_by_id table texts "g1" with_guest ≡ some g
unfolding find_by_id guest_user
guest_found = refl

guest_here : find? (is_on_device "phone" android) with_guest.users ≡ some g
unfolding is_on_device guest_user
guest_here = refl

guest_alone : length (filter (is_on_device "phone" android) with_guest.users) ≤ 1
unfolding is_on_device guest_user
guest_alone = omega arith

guest_converted :
    (convert_guest_to_user table texts passwords "g1" convert with_guest).1
    ≡ answer (registered_guest "a@b.de" "hash" convert g)
unfolding convert_guest_to_user registered_guest find_by_id guest_user
guest_converted = refl

create_guest-convert_guest_to_user_example :
    create_guest table texts passwords 200 "200" "g2" "phone" android
      (convert_guest_to_user table texts passwords "g1" convert with_guest).0
    ≡ (
      (convert_guest_to_user table texts passwords "g1" convert with_guest).0,
      refuse unique_violated,
    )
create_guest-convert_guest_to_user_example =
    create_guest-convert_guest_to_user table texts passwords 200 "200" "g1" "g2" "phone" android
      convert g (registered_guest "a@b.de" "hash" convert g) with_guest guest_found guest_here
      guest_alone guest_converted

abbrev calls : List UserCall
calls =
    registers 100 (request "A@B.DE" "koln" "u1")
    ∷ registers 110 (request "a@b.de" "koln" "u2")
    ∷ creates_guest 120 "120" "g1" "phone" android
    ∷ deletes 130 "g1"
    ∷ creates_guest 140 "140" "g2" "phone" android
    ∷ restores "g1"
    ∷ []

none_stored : IsValid table texts []
none_stored = record {
  one_id = λ id. omega arith;
  one_email = λ email. omega arith;
  one_device = λ device platform. omega arith;
}

run_users-IsValid_example :
    IsValid table texts
      (run table texts store passwords assign_city [] calls (no_keys, empty)).1.users
run_users-IsValid_example =
    run_users-IsValid table texts store passwords assign_city [] calls (no_keys, empty) none_stored
