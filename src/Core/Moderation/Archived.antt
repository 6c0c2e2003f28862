-- ===== src/Core/Moderation/Archived.antt =====
-- A listing that a moderator archived stays marked as archived until a moderator approves it.
use kodi_backend_template_a.Base.{String, ◌≡◌, Bool, true, false, ◌&&◌, ◌==◌, Option, some, find?}
use kodi_backend_template_a.Base.Store.{Table}
use kodi_backend_template_a.Core.{Listing}
use kodi_backend_template_a.Core.Notices.{is_moderation_approved}
use kodi_backend_template_a.Core.Moderation.{has_id, ModerationCall, moderate, approve}

-- The call approves the listing with this id.
abbrev pub approves : String → ModerationCall → Bool
approves id (moderate now i moderator dto) = i == id && is_moderation_approved dto.moderation_status
approves id (approve now i moderator body) = i == id
approves id _ = false

-- A change of a listing that keeps whose and which it is, and that it is archived.
abbrev Keeps : (Listing → Listing) → Type 0
Keeps f =
    (l : Listing)
    → ((f l).id ≡ l.id)
      × ((f l).created_by_user_id ≡ l.created_by_user_id)
      × (l.is_archived ≡ true → (f l).is_archived ≡ true)

module _ (table : Table Listing) where
  open table use {Rows, rows, update, rows-update}

  -- The listing with this id is marked as archived, and is the user's.
  abbrev pub IsArchived : String → Option String → Rows → Type 0
  IsArchived id owner t =
      (l : Listing) × (find? (has_id id) (rows t) ≡ some l)
      × (l.is_archived ≡ true)
      × (l.created_by_user_id ≡ owner)
