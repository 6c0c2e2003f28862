-- ===== src/Core/Moderation.antt =====
-- apps/core/src/modules/listings/listings.service.ts: `moderateListing`, `submitListingForReview`
-- and the four actions of the moderators. An answer is the stored listing; how it is mapped and
-- translated for the response is left out.
pub mod Moderated
pub mod Archived
use kodi_backend_template_a.Base.{
  ℕ, String, Bool, true, false, Option, none, some, List, [], ◌∷◌, ◌==◌, if◌then◌else◌, find?, same,
  Reply, refuse, answer,
}
use kodi_backend_template_a.Base.Store.{Table}
use kodi_backend_template_a.Core.{
  Listing, ListingStatus, pending, approved, rejected, deleted, ListingModerationStatus,
  moderation_pending, moderation_approved, changes_requested, moderation_rejected, archived,
}

pub data ListingError : Type 0 where
  listing_not_found not_own_listing : ListingError

-- ListingModerationDto.
pub record ModerationRequest : Type 0 where
  pub moderation_status : ListingModerationStatus
  pub publish_status : Option ListingStatus
  pub review_notes : Option String

-- ListingModerationActionDto.
pub record ModerationAction : Type 0 where
  pub review_notes : Option String
  pub publish_status : Option ListingStatus

abbrev pub has_id : String → Listing → Bool
has_id id l = l.id == id

-- `publishStatus ?? fallback`.
abbrev pub status_or : Option ListingStatus → ListingStatus → ListingStatus
status_or none fallback = fallback
status_or (some status) fallback = status

-- Whether an approval publishes: `publishStatus` is APPROVED or missing.
abbrev pub publishes : Option ListingStatus → Bool
publishes none = true
publishes (some approved) = true
publishes (some _) = false

-- `publishAt` after an approval.
abbrev pub published : Option ℕ → Option ListingStatus → ℕ → Option ℕ
published (some t) status now = some t
published none status now = if publishes status then some now else none

abbrev pub reviewed : ℕ → String → ModerationRequest → Listing → Listing
reviewed now moderator dto l = record l {
  moderation_status = dto.moderation_status;
  review_notes = dto.review_notes;
  reviewed_by = some moderator;
  reviewed_at = some now;
  last_edited_by_user_id = some moderator;
}

-- The switch on the moderation's status.
abbrev pub record_decision :
    ListingModerationStatus → ℕ → String → Option ListingStatus → Option ℕ → Listing → Listing
record_decision moderation_approved now moderator status publish_at l = record l {
  status = status_or status approved;
  is_archived = false;
  publish_at = published publish_at status now;
}
record_decision moderation_rejected now moderator status publish_at l = record l {
  status = rejected;
}
record_decision changes_requested now moderator status publish_at l = record l { status = pending }
record_decision archived now moderator status publish_at l = record l {
  status = deleted;
  is_archived = true;
  archived_at = some now;
  archived_by = some moderator;
}
record_decision moderation_pending now moderator status publish_at l = record l {
  status = status_or status pending;
}

abbrev pub moderated : ℕ → String → ModerationRequest → Listing → Listing
moderated now moderator dto l =
    record_decision dto.moderation_status now moderator dto.publish_status l.publish_at
      (reviewed now moderator dto l)

abbrev pub submitted : String → Listing → Listing
submitted user l = record l {
  status = pending;
  moderation_status = moderation_pending;
  review_notes = none;
  reviewed_by = none;
  reviewed_at = none;
  last_edited_by_user_id = some user;
}

-- What the actions ask of `moderateListing`.
abbrev pub approval : ModerationAction → ModerationRequest
approval body = record {
  moderation_status = moderation_approved;
  publish_status = some (status_or body.publish_status approved);
  review_notes = body.review_notes;
}

abbrev pub change_request : ModerationAction → ModerationRequest
change_request body = record {
  moderation_status = changes_requested;
  publish_status = some (status_or body.publish_status pending);
  review_notes = body.review_notes;
}

abbrev pub rejection : Option String → ModerationRequest
rejection notes = record {
  moderation_status = moderation_rejected;
  publish_status = some rejected;
  review_notes = notes;
}

abbrev pub archival : Option String → ModerationRequest
archival notes = record {
  moderation_status = archived;
  publish_status = some deleted;
  review_notes = notes;
}

-- A call; one of a moderator comes with its time and the moderator's id.
pub data ModerationCall : Type 0 where
  moderate : ℕ → String → String → ModerationRequest → ModerationCall
  submit : String → String → ModerationCall
  approve : ℕ → String → String → ModerationAction → ModerationCall
  request_changes : ℕ → String → String → ModerationAction → ModerationCall
  reject : ℕ → String → String → Option String → ModerationCall
  archive : ℕ → String → String → Option String → ModerationCall

module _ (table : Table Listing) where
  open table use {Rows, rows, update}

  -- Where `publishAt` was read from is the row that is updated.
  abbrev pub moderate_found :
      ℕ
      → String
      → String
      → ModerationRequest
      → Option Listing
      → Rows
      → Rows × Reply ListingError Listing
  moderate_found now id moderator dto none t = (t, refuse listing_not_found)
  moderate_found now id moderator dto (some l) t =
      (update (has_id id) (moderated now moderator dto) t, answer (moderated now moderator dto l))

  unfoldable pub moderate_listing :
      ℕ → String → String → ModerationRequest → Rows → Rows × Reply ListingError Listing
  moderate_listing now id moderator dto t =
      moderate_found now id moderator dto (find? (has_id id) (rows t)) t

  abbrev pub submit_found :
      String → String → Option Listing → Rows → Rows × Reply ListingError Listing
  submit_found id user none t = (t, refuse listing_not_found)
  submit_found id user (some l) t =
      if same l.created_by_user_id (some user)
      then (update (has_id id) (submitted user) t, answer (submitted user l))
      else (t, refuse not_own_listing)

  unfoldable pub submit_listing_for_review :
      String → String → Rows → Rows × Reply ListingError Listing
  submit_listing_for_review id user t = submit_found id user (find? (has_id id) (rows t)) t

  unfoldable pub approve_listing :
      ℕ → String → String → ModerationAction → Rows → Rows × Reply ListingError Listing
  approve_listing now id moderator body t = moderate_listing now id moderator (approval body) t

  unfoldable pub request_listing_changes :
      ℕ → String → String → ModerationAction → Rows → Rows × Reply ListingError Listing
  request_listing_changes now id moderator body t =
      moderate_listing now id moderator (change_request body) t

  unfoldable pub reject_listing :
      ℕ → String → String → Option String → Rows → Rows × Reply ListingError Listing
  reject_listing now id moderator notes t = moderate_listing now id moderator (rejection notes) t

  unfoldable pub archive_listing :
      ℕ → String → String → Option String → Rows → Rows × Reply ListingError Listing
  archive_listing now id moderator notes t = moderate_listing now id moderator (archival notes) t

  abbrev pub moderation_step : ModerationCall → Rows → Rows
  moderation_step (moderate now id moderator dto) t = (moderate_listing now id moderator dto t).0
  moderation_step (submit id user) t = (submit_listing_for_review id user t).0
  moderation_step (approve now id moderator body) t = (approve_listing now id moderator body t).0
  moderation_step (request_changes now id moderator body) t =
      (request_listing_changes now id moderator body t).0
  moderation_step (reject now id moderator notes) t = (reject_listing now id moderator notes t).0
  moderation_step (archive now id moderator notes) t = (archive_listing now id moderator notes t).0

  abbrev pub run_moderation : List ModerationCall → Rows → Rows
  run_moderation [] t = t
  run_moderation (c ∷ cs) t = run_moderation cs (moderation_step c t)
