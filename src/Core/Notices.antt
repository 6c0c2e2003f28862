-- ===== src/Core/Notices.antt =====
-- apps/core/src/modules/core/core.service.ts: the rows, the notifications and the tests of the job
-- that reminds the users of the events among their favorites.
use kodi_backend_template_a.Base.{
  ℕ, ◌+◌, ◌*◌, String, Bool, true, false, not, Option, none, some, List, [], ◌∷◌, ◌++◌, ◌&&◌, ◌==◌,
  if◌then◌else◌, find?, nat_eq,
}
use kodi_backend_template_a.Core.{
  Listing, UserFavorite, ListingReminderType, h24, h2, approved, moderation_approved, public,
  ListingStatus, ListingModerationStatus, ListingVisibility,
}
use kodi_backend_template_a.Core.Occurrences.{is_within}

pub record ListingReminder : Type 0 where
  pub user_id : String
  pub listing_id : String
  pub occurrence_start : ℕ
  pub reminder_type : ListingReminderType

-- The notification that is emitted, less its constant fields.
pub record ReminderNotification : Type 0 where
  pub user_id : String
  pub translation_key : String
  pub event_title : String
  pub city_name : String
  pub city_id : Option String
  pub listing_id : String
  pub occurrence_start : ℕ
  pub schedule_run_id : Option String

-- The answer of the users service to `USER_FIND_BY_ID`: none, no user, or a user, whose preference
-- may be missing.
pub data UserAnswer : Type 0 where
  no_answer no_user : UserAnswer
  found_user : Option Bool → UserAnswer

abbrev pub hour : ℕ
hour = 60 * 60 * 1000

abbrev pub lock_key : String
lock_key = "core:favorite-reminders:lock"

abbrev pub same_type : ListingReminderType → ListingReminderType → Bool
same_type h24 h24 = true
same_type h2 h2 = true
same_type _ _ = false

abbrev pub translation_key_of : ListingReminderType → String
translation_key_of h24 = "notifications.event.reminder24h"
translation_key_of h2 = "notifications.event.reminder2h"

abbrev pub lead_time : ListingReminderType → ℕ
lead_time h24 = 24 * hour
lead_time h2 = 2 * hour

-- The window of a reminder's type, with the grace window of one hour.
abbrev pub is_in_window : ListingReminderType → ℕ → ℕ → Bool
is_in_window type now t = is_within (now + lead_time type) (now + lead_time type + hour) t

abbrev pub is_approved : ListingStatus → Bool
is_approved approved = true
is_approved _ = false

abbrev pub is_moderation_approved : ListingModerationStatus → Bool
is_moderation_approved moderation_approved = true
is_moderation_approved _ = false

abbrev pub is_public : ListingVisibility → Bool
is_public public = true
is_public _ = false

abbrev pub is_visible : Listing → Bool
is_visible l =
    is_approved l.status
    && is_moderation_approved l.moderation_status
    && is_public l.visibility
    && not l.is_archived

-- `userData?.notificationsEnabled !== false`, and true where the call fails.
abbrev pub enabled_by : UserAnswer → Bool
enabled_by (found_user (some b)) = b
enabled_by (found_user none) = true
enabled_by no_user = true
enabled_by no_answer = true

abbrev pub find_cached : String → List (String × Bool) → Option Bool
find_cached user [] = none
find_cached user ((u, b) ∷ cache) = if u == user then some b else find_cached user cache

abbrev pub first : List String → Option String
first [] = none
first (c ∷ cs) = some c

abbrev pub is_reminder : String → String → ℕ → ListingReminderType → ListingReminder → Bool
is_reminder user listing t type r =
    r.user_id == user
    && r.listing_id == listing
    && nat_eq r.occurrence_start t
    && same_type r.reminder_type type

-- The favorites with their listings. By the foreign key none is without.
abbrev pub with_listing : UserFavorite → Option Listing → List (UserFavorite × Listing)
with_listing f none = []
with_listing f (some l) = (f, l) ∷ []

abbrev pub favorites_with_listings :
    List UserFavorite → List Listing → List (UserFavorite × Listing)
favorites_with_listings [] listings = []
favorites_with_listings (f ∷ fs) listings =
    with_listing f (find? (λ l. l.id == f.listing_id) listings)
    ++ favorites_with_listings fs listings
