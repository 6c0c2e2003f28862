-- ===== src/Core/Tests.antt =====
-- Calls of apps/core at concrete inputs: one concert in a week and one that is over, and a user
-- with a favorite.
use kodi_backend_template_a.Base.{
  ◌+◌, ◌-◌, ◌*◌, ◌≤◌, String, ◌≡◌, refl, sym, ◌∙◌, ◌⊎◌, inl, inr, true, false, Option, none, some,
  [], ◌∷◌, arith, eq_of_==, ne_of_==, Bool-cases, ◌==◌, length, find?, In, All, answer,
}
use kodi_backend_template_a.Base.Store.{Table, list_table, KeyStore, function_store}
use kodi_backend_template_a.Rbac.Roles.{city_admin, role_to_number, number}
use kodi_backend_template_a.Core.{
  Listing, TimeInterval, UserFavorite, h24, approved, public, moderation_approved, event, weekly,
}
use kodi_backend_template_a.Core.Notices.{
  ListingReminder, UserAnswer, found_user, is_reminder, hour, favorites_with_listings,
}
use kodi_backend_template_a.Core.Occurrences.{LocalTime, day, compute_upcoming_occurrences}
use kodi_backend_template_a.Core.Occurrences.Numbers.{Ascending}
use kodi_backend_template_a.Core.Occurrences.Window.{Occurs, compute_upcoming_occurrences-Ascending}
use kodi_backend_template_a.Core.Expiry.{is_listing_expired, cleanup_expired_event_listings}
use kodi_backend_template_a.Core.Expiry.Cleanup.{
  UniqueIds, cleanup_expired_event_listings-is_due, cleanup_expired_event_listings-counts,
}
use kodi_backend_template_a.Core.Reminders.{
  ReminderServices, ReminderRun, ReminderState, round_of, process_favorite_event_reminders,
  process_all, notification_for,
}
use kodi_backend_template_a.Core.Reminders.Once.{SentOnce, process_all-SentOnce}
use kodi_backend_template_a.Core.Reminders.Sent.{Planned, round_of-Due}
use kodi_backend_template_a.Core.Reminders.Reached.{process_favorite_event_reminders-Found}
use kodi_backend_template_a.Core.Moderation.{archive, submit, approve, run_moderation}
use kodi_backend_template_a.Core.Moderation.Moderated.{IsModerated, run_moderation-IsModerated}
use kodi_backend_template_a.Core.Assignments.{
  CoreTables, UserCityAssignment, CoreState, get_user_assignments, get_user_cities,
  assign_city_admin, new_assignment,
}
use kodi_backend_template_a.Core.Assignments.Assigned.{assign_city_admin-get_user_assignments}
use kodi_backend_template_a.Core.Favorites.Refined.{
  toggle, view, favorite_step, promised, favorite_step-promised,
}

-- Days without a change of the clock; every day is called a Monday.
abbrev local : LocalTime
local = record {
  get_day = λ t. 1;
  days_before = λ t n. t - n * day;
  days_after = λ t n. t + n * day;
  midnight = λ t. t;
  at_time_of = λ t u. t;
  months_after = λ t n. t + n * 30 * day;
  years_after = λ t n. t + n * 365 * day;
  short_weekday = λ t. "MON";
}

abbrev course : TimeInterval
course = record {
  weekdays = "Monday" ∷ "Friday" ∷ [];
  start = 10 * day;
  end = 11 * day;
  freq = weekly;
  interval = 1;
  repeat_until = some (30 * day);
}

abbrev concert : Listing
concert = record {
  id = "l";
  title = "concert";
  status = approved;
  moderation_status = moderation_approved;
  visibility = public;
  is_archived = false;
  archived_at = none;
  archived_by = none;
  publish_at = some 0;
  created_by_user_id = some "o";
  last_edited_by_user_id = none;
  reviewed_by = none;
  reviewed_at = none;
  review_notes = none;
  event_start = some (24 * hour);
  event_end = some (26 * hour);
  primary_city_id = some "c";
  cities = [];
  category_types = event ∷ [];
  time_intervals = [];
}

abbrev over : Listing
over = record concert { id = "k"; event_end = some 5 }

abbrev listings : Table Listing
listings = list_table Listing

unique : UniqueIds (concert ∷ over ∷ [])
unique id = elim (Bool-cases ("l" == id)) [
  | inl hit ↦ elim (Bool-cases ("k" == id)) [
    | inl both ↦ absurd (ne_of_== "l" "k" refl (eq_of_== "l" id hit ∙ sym (eq_of_== "k" id both)))
    | inr miss ↦ rw (hit, miss) (omega arith)
  ]
  | inr gone ↦ elim (Bool-cases ("k" == id)) [
    | inl hit ↦ rw (gone, hit) (omega arith)
    | inr miss ↦ rw (gone, miss) (omega arith)
  ]
]

cleanup_expired_event_listings-is_due_example :
    (cleanup_expired_event_listings listings hour (concert ∷ over ∷ [])).0 ≡ concert ∷ []
unfolding is_listing_expired
cleanup_expired_event_listings-is_due_example =
    cleanup_expired_event_listings-is_due listings hour (concert ∷ over ∷ []) unique

cleanup_expired_event_listings-counts_example :
    let (left, gone, kept) = cleanup_expired_event_listings listings hour (concert ∷ over ∷ []) in
    (length left + gone ≡ 2) × (gone + kept ≡ 2)
cleanup_expired_event_listings-counts_example =
    cleanup_expired_event_listings-counts listings hour (concert ∷ over ∷ []) unique

compute_upcoming_occurrences-Ascending_example :
    let ts = compute_upcoming_occurrences local (10 * day) (20 * day) none (course ∷ []) in
    Ascending ts
    × All
        (λ t.
          (10 * day ≤ t) × (t ≤ 20 * day) × Occurs local (10 * day) (20 * day) none (course ∷ []) t)
        ts
compute_upcoming_occurrences-Ascending_example =
    compute_upcoming_occurrences-Ascending local (10 * day) (20 * day) none (course ∷ [])

abbrev favorite : UserFavorite
favorite = record { user_id = "u"; listing_id = "l" }

abbrev hourly : ReminderRun
hourly = record {
  clock = 0;
  triggered_at = 0;
  schedule_run_id = none;
  favorites = favorite ∷ [];
  listings = concert ∷ over ∷ [];
}

abbrev reminders : Table ListingReminder
reminders = list_table ListingReminder

abbrev locks : KeyStore String
locks = function_store String (λ p k. false)

abbrev user_of : String → UserAnswer
user_of u = found_user (some true)

abbrev city_name_of : String → Option String
city_name_of c = some "Kaiserslautern"

abbrev services : ReminderServices
services = record {
  local = local;
  reminders = reminders;
  locks = locks;
  user_of = user_of;
  city_name_of = city_name_of;
}

abbrev idle : ReminderState services
idle = record { keys = λ k t. none; stored = []; sent = [] }

nothing_sent : SentOnce [] []
nothing_sent user listing t type = (omega arith, omega arith)

process_all-SentOnce_example :
    let s = process_all services (hourly ∷ hourly ∷ []) idle in SentOnce s.stored s.sent
process_all-SentOnce_example =
    process_all-SentOnce services (hourly ∷ hourly ∷ []) idle nothing_sent

is_sent :
    In
      (notification_for services hourly "u" concert (24 * hour) h24)
      (round_of services hourly idle).sent
unfolding compute_upcoming_occurrences
is_sent = inl refl

round_of-Due_example :
    let n = notification_for services hourly "u" concert (24 * hour) h24 in
    In n [] ⊎ Planned services hourly (favorites_with_listings hourly.favorites hourly.listings) n
round_of-Due_example =
    round_of-Due services hourly idle (notification_for services hourly "u" concert (24 * hour) h24)
      is_sent

process_favorite_event_reminders-Found_example :
    (x : ListingReminder) × (find?
        (is_reminder "u" "l" (24 * hour) h24)
        (process_favorite_event_reminders services hourly idle).0.stored
      ≡ some x)
process_favorite_event_reminders-Found_example =
    process_favorite_event_reminders-Found services hourly idle favorite concert (24 * hour) h24
      refl (inl refl) (refl, refl, refl, refl)

concert-IsModerated : All IsModerated (concert ∷ [])
concert-IsModerated = ((refl, λ h. (0, refl)), tt)

run_moderation-IsModerated_example : All IsModerated (
    run_moderation listings
      (archive 1 "l" "m" none
        ∷ submit "l" "o"
        ∷ approve 2 "l" "m" (record { review_notes = none; publish_status = none })
        ∷ [])
      (concert ∷ []))
run_moderation-IsModerated_example =
    run_moderation-IsModerated listings
      (archive 1 "l" "m" none
        ∷ submit "l" "o"
        ∷ approve 2 "l" "m" (record { review_notes = none; publish_status = none })
        ∷ [])
      (concert ∷ []) concert-IsModerated

abbrev assignments : Table UserCityAssignment
assignments = list_table UserCityAssignment

abbrev favorites : Table UserFavorite
favorites = list_table UserFavorite

abbrev same_text : String → String
same_text s = s

abbrev tables : CoreTables
tables = record {
  assignments = assignments;
  favorites = favorites;
  reminders = reminders;
  to_upper = same_text;
}

abbrev empty : CoreState tables
empty = record { assigned = []; favored = favorite ∷ []; reminded = []; role_updates = [] }

abbrev assigned : UserCityAssignment
assigned = new_assignment tables 1 "u" "c" city_admin true (some "a")

is_assigned :
    (assign_city_admin tables 1 "u" "c" (number 2) "a" none empty).1 ≡ answer (assigned, 2)
unfolding assign_city_admin role_to_number
is_assigned = refl

assign_city_admin-get_user_assignments_example :
    let s = (assign_city_admin tables 1 "u" "c" (number 2) "a" none empty).0 in
    In assigned (get_user_assignments tables "u" none s)
    × In "c" (get_user_cities tables "u" s)
    × (2 ≡ role_to_number "CITY_ADMIN")
    × (s.role_updates ≡ record { user_id = "u"; role = city_admin; updated_by = "a" } ∷ [])
assign_city_admin-get_user_assignments_example =
    assign_city_admin-get_user_assignments tables 1 "u" "c" (number 2) "a" none empty is_assigned

favorite_step-promised_example :
    view listings favorites
      (favorite_step listings favorites (concert ∷ []) (toggle "u" "l" false) (favorite ∷ []))
      "u"
      "l"
    ≡ promised
        (concert ∷ [])
        (toggle "u" "l" false)
        (view listings favorites (favorite ∷ []))
        "u"
        "l"
favorite_step-promised_example =
    favorite_step-promised listings favorites (concert ∷ []) (toggle "u" "l" false) (favorite ∷ [])
      "u" "l"
