-- ===== src/Core/Reminders.antt =====
-- apps/core/src/modules/core/core.service.ts: `processFavoriteEventReminders`, which the scheduler
-- calls, and `emitEventReminderNotification`. The lock is that of libs/redis/src/redis.service.ts.
-- The answers of the users and the city service, and the host's calendar, are parameters.
pub mod Rounds
pub mod Once
pub mod Sent
pub mod Reached
use kodi_backend_template_a.Base.{
  ℕ, ◌+◌, ◌*◌, String, Bool, true, false, Option, none, some, List, [], ◌∷◌, ◌++◌, filter, find?,
  truthy, or_else,
}
use kodi_backend_template_a.Base.Store.{Table, KeyStore}
use kodi_backend_template_a.Core.{Listing, UserFavorite, ListingReminderType, h24, h2}
use kodi_backend_template_a.Core.Notices.{
  ListingReminder, ReminderNotification, UserAnswer, hour, lock_key, translation_key_of,
  is_in_window, is_visible, enabled_by, find_cached, first, is_reminder, favorites_with_listings,
}
use kodi_backend_template_a.Core.Occurrences.{LocalTime, compute_upcoming_occurrences}

-- What a run of the job is given: the time by the store's clock in seconds, the time of the
-- trigger, the id of the schedule's run, and the rows that the query for the favorites reads.
pub record ReminderRun : Type 0 where
  pub clock : ℕ
  pub triggered_at : ℕ
  pub schedule_run_id : Option String
  pub favorites : List UserFavorite
  pub listings : List Listing

-- What the job relies on: the host's calendar, the table of the reminders, the key-value store,
-- and the answers of the users and the city service.
pub record ReminderServices : Type 1 where
  pub local : LocalTime
  pub reminders : Table ListingReminder
  pub locks : KeyStore String
  pub user_of : String → UserAnswer
  pub city_name_of : String → Option String

module _ (services : ReminderServices) where
  open services use {local, reminders, locks, user_of, city_name_of}
  open reminders use {Rows, rows, insert}
  open locks use {Keys, set_nx, del}

  -- What a run changes: the rows, the notifications, the cache of the users' preferences, the
  -- users that were asked for, and the counts.
  pub record Round : Type 0 where
    pub stored : Rows
    pub sent : List ReminderNotification
    pub cache : List (String × Bool)
    pub asked : List String
    pub sent24h : ℕ
    pub sent2h : ℕ

  pub record ReminderState : Type 0 where
    pub keys : Keys
    pub stored : Rows
    pub sent : List ReminderNotification

  abbrev pub name_of : Option String → String
  name_of none = ""
  name_of (some c) = elim (truthy (city_name_of c)) [ none ↦ "" | some n ↦ n ]

  -- The city's name is asked for by its id; a failure leaves it out.
  abbrev pub notification_for :
      ReminderRun → String → Listing → ℕ → ListingReminderType → ReminderNotification
  notification_for run user l t type =
      let city = truthy (or_else l.primary_city_id (first l.cities)) in
      record {
        user_id = user;
        translation_key = translation_key_of type;
        event_title = l.title;
        city_name = name_of city;
        city_id = city;
        listing_id = l.id;
        occurrence_start = t;
        schedule_run_id = run.schedule_run_id;
      }

  abbrev pub new_reminder : String → Listing → ℕ → ListingReminderType → ListingReminder
  new_reminder user l t type = record {
    user_id = user;
    listing_id = l.id;
    occurrence_start = t;
    reminder_type = type;
  }

  abbrev pub count_sent : ListingReminderType → Round → Round
  count_sent h24 r = record r { sent24h = r.sent24h + 1 }
  count_sent h2 r = record r { sent2h = r.sent2h + 1 }

  abbrev pub send_reminder :
      ReminderRun → String → Listing → ℕ → ListingReminderType → Round → Round
  send_reminder run user l t type r = count_sent type (record r {
    stored = insert (new_reminder user l t type) r.stored;
    sent = r.sent ++ notification_for run user l t type ∷ [];
  })

  abbrev pub remind_unless :
      ReminderRun
      → String
      → Listing
      → ℕ
      → ListingReminderType
      → Option ListingReminder
      → Round
      → Round
  remind_unless run user l t type (some existing) r = r
  remind_unless run user l t type none r = send_reminder run user l t type r

  -- The loop over the occurrences of one window.
  abbrev pub remind_each :
      ReminderRun → String → Listing → ListingReminderType → List ℕ → Round → Round
  remind_each run user l type [] r = r
  remind_each run user l type (t ∷ ts) r =
      remind_each run user l type ts
        (remind_unless run user l t type (find? (is_reminder user l.id t type) (rows r.stored)) r)

  abbrev pub ask : String → Option Bool → Round → Round × Bool
  ask user (some b) r = (r, b)
  ask user none r =
      let b = enabled_by (user_of user) in
      (record r { cache = (user, b) ∷ r.cache; asked = r.asked ++ user ∷ [] }, b)

  abbrev pub remind_start : ReminderRun → String → Listing → Option ℕ → Round → Round
  remind_start run user l none r = r
  remind_start run user l (some t) r =
      let now = run.triggered_at in
      let all =
        compute_upcoming_occurrences local (now + 2 * hour) (now + 24 * hour + hour) (some t) [] in
      remind_each run user l h2 (filter (is_in_window h2 now) all)
        (remind_each run user l h24 (filter (is_in_window h24 now) all) r)

  abbrev pub remind_if : Bool → ReminderRun → String → Listing → Round → Round
  remind_if false run user l r = r
  remind_if true run user l r = remind_start run user l l.event_start r

  abbrev pub remind_asked : ReminderRun → String → Listing → Round × Bool → Round
  remind_asked run user l (r, enabled) = remind_if enabled run user l r

  abbrev pub remind_visible : Bool → ReminderRun → String → Listing → Round → Round
  remind_visible false run user l r = r
  remind_visible true run user l r = remind_asked run user l (ask user (find_cached user r.cache) r)

  abbrev pub remind_all : ReminderRun → List (UserFavorite × Listing) → Round → Round
  remind_all run [] r = r
  remind_all run ((f, l) ∷ fs) r =
      remind_all run fs (remind_visible (is_visible l) run f.user_id l r)

  abbrev pub new_round : ReminderState → Round
  new_round s = record {
    stored = s.stored;
    sent = s.sent;
    cache = [];
    asked = [];
    sent24h = 0;
    sent2h = 0;
  }

  -- The round of a run that has the lock.
  abbrev pub round_of : ReminderRun → ReminderState → Round
  round_of run s = remind_all run (favorites_with_listings run.favorites run.listings) (new_round s)

  -- The lock is released in any case.
  abbrev pub process_locked : ReminderRun → Keys × Bool → ReminderState → ReminderState × ℕ × ℕ
  process_locked run (keys, true) s =
      let r = round_of run s in
      (record { keys = del keys lock_key; stored = r.stored; sent = r.sent }, r.sent24h, r.sent2h)
  process_locked run (keys, false) s = (record s { keys = keys }, 0, 0)

  unfoldable pub process_favorite_event_reminders :
      ReminderRun → ReminderState → ReminderState × ℕ × ℕ
  process_favorite_event_reminders run s =
      process_locked run (set_nx s.keys run.clock lock_key 300 "1") s

  abbrev pub process_all : List ReminderRun → ReminderState → ReminderState
  process_all [] s = s
  process_all (run ∷ later) s = process_all later (process_favorite_event_reminders run s).0
