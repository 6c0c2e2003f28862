-- ===== src/Core.antt =====
-- apps/core: the listings, the favorites, reminders and city assignments of the users. The rows
-- are those of libs/prisma/src/schemas/core/schema.prisma, as far as the code modelled here reads
-- or writes them. Dates are milliseconds, as `getTime` gives them.
pub mod Assignments
pub mod Expiry
pub mod Favorites
pub mod Moderation
pub mod Notices
pub mod Occurrences
pub mod Reminders
mod Tests
use kodi_backend_template_a.Base.{
  ℕ, String, Bool, true, false, Option, none, some, List, [], ◌∷◌, ◌++◌, find?, ◌==◌, ◌&&◌,
}

pub data ListingStatus : Type 0 where
  pending approved rejected deleted : ListingStatus

pub data ListingModerationStatus : Type 0 where
  moderation_pending moderation_approved changes_requested : ListingModerationStatus
  moderation_rejected archived : ListingModerationStatus

pub data ListingVisibility : Type 0 where
  public city_only private : ListingVisibility

pub data CategoryType : Type 0 where
  news event gastro tour restaurant poi hotel article other : CategoryType

pub data ListingRecurrenceFreq : Type 0 where
  no_recurrence daily weekly monthly yearly : ListingRecurrenceFreq

pub data ListingReminderType : Type 0 where
  h24 h2 : ListingReminderType

pub record TimeInterval : Type 0 where
  pub weekdays : List String
  pub start : ℕ
  pub end : ℕ
  pub freq : ListingRecurrenceFreq
  pub interval : ℕ
  pub repeat_until : Option ℕ

-- A listing with the types of its categories and its primary city as the queries include them.
pub record Listing : Type 0 where
  pub id : String
  pub title : String
  pub status : ListingStatus
  pub moderation_status : ListingModerationStatus
  pub visibility : ListingVisibility
  pub is_archived : Bool
  pub archived_at : Option ℕ
  pub archived_by : Option String
  pub publish_at : Option ℕ
  pub created_by_user_id : Option String
  pub last_edited_by_user_id : Option String
  pub reviewed_by : Option String
  pub reviewed_at : Option ℕ
  pub review_notes : Option String
  pub event_start : Option ℕ
  pub event_end : Option ℕ
  pub primary_city_id : Option String
  pub cities : List String
  pub category_types : List CategoryType
  pub time_intervals : List TimeInterval

pub record UserFavorite : Type 0 where
  pub user_id : String
  pub listing_id : String

abbrev pub is_deleted : ListingStatus → Bool
is_deleted deleted = true
is_deleted _ = false

abbrev pub is_event : CategoryType → Bool
is_event event = true
is_event _ = false

abbrev pub does_not_recur : ListingRecurrenceFreq → Bool
does_not_recur no_recurrence = true
does_not_recur _ = false
