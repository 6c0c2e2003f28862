-- ===== src/Core/Moderation/Moderated.antt =====
-- What the moderation keeps of the listings.
use kodi_backend_template_a.Base.{
  ℕ, String, ◌≡◌, refl, sym, subst, true, false, Option, none, some, List, [], ◌∷◌, if_either, same,
  Reply, All, All-map,
}
use kodi_backend_template_a.Base.Store.{Table, update_row}
use kodi_backend_template_a.Core.{
  Listing, ListingStatus, pending, approved, rejected, deleted, ListingModerationStatus,
  moderation_pending, moderation_approved, changes_requested, moderation_rejected, archived,
}
use kodi_backend_template_a.Core.Moderation.{
  ModerationRequest, has_id, status_or, published, reviewed, record_decision, moderated, submitted,
  moderate_found, moderate_listing, submit_found, submit_listing_for_review, approve_listing,
  request_listing_changes, reject_listing, archive_listing, ModerationCall, moderate, submit,
  approve, request_changes, reject, archive, approval, change_request, rejection, archival,
  ListingError, moderation_step, run_moderation,
}

-- What the decision of a moderator says of a listing: one that is archived is deleted, with who
-- archived it and when; one that is rejected, or to be changed, has the status for it; one that is
-- approved is not archived and, with the status APPROVED, has a date of publication. Whatever was
-- decided is by someone, at some time.
abbrev pub Agrees : ListingModerationStatus → Listing → Type 0
Agrees moderation_pending l = Unit
Agrees moderation_approved l =
    (l.is_archived ≡ false) × (l.status ≡ approved → (t : ℕ) × (l.publish_at ≡ some t))
Agrees changes_requested l = l.status ≡ pending
Agrees moderation_rejected l = l.status ≡ rejected
Agrees archived l =
    (l.status ≡ deleted)
    × (l.is_archived ≡ true)
    × ((who : String) × (l.archived_by ≡ some who))
    × ((t : ℕ) × (l.archived_at ≡ some t))

abbrev pub IsModerated : Listing → Type 0
IsModerated l = Agrees l.moderation_status l

published-some :
    (o : Option ℕ) (status : Option ListingStatus) (now : ℕ)
    → status_or status approved ≡ approved
    → (t : ℕ) × (published o status now ≡ some t)
published-some (some t) status now h = (t, refl)
published-some none none now h = (now, refl)
published-some none (some approved) now h = (now, refl)
published-some none (some pending) now h = cc
published-some none (some rejected) now h = cc
published-some none (some deleted) now h = cc

record_decision-Agrees :
    (s : ListingModerationStatus) (now : ℕ) (moderator : String) (status : Option ListingStatus)
    (publish_at : Option ℕ) (l : Listing)
    → Agrees s (record_decision s now moderator status publish_at l)
record_decision-Agrees moderation_pending now moderator status publish_at l = tt
record_decision-Agrees moderation_approved now moderator status publish_at l =
    (refl, λ h. published-some publish_at status now h)
record_decision-Agrees changes_requested now moderator status publish_at l = refl
record_decision-Agrees moderation_rejected now moderator status publish_at l = refl
record_decision-Agrees archived now moderator status publish_at l =
    (refl, refl, (moderator, refl), (now, refl))

-- The decision keeps the status of the moderation that was set before it.
record_decision-moderation_status :
    (s : ListingModerationStatus) (now : ℕ) (moderator : String) (status : Option ListingStatus)
    (publish_at : Option ℕ) (l : Listing)
    → (record_decision s now moderator status publish_at l).moderation_status ≡ l.moderation_status
record_decision-moderation_status moderation_pending now moderator status publish_at l = refl
record_decision-moderation_status moderation_approved now moderator status publish_at l = refl
record_decision-moderation_status changes_requested now moderator status publish_at l = refl
record_decision-moderation_status moderation_rejected now moderator status publish_at l = refl
record_decision-moderation_status archived now moderator status publish_at l = refl

moderated-IsModerated :
    (now : ℕ) (moderator : String) (dto : ModerationRequest) (l : Listing)
    → IsModerated (moderated now moderator dto l)
moderated-IsModerated now moderator dto l =
    subst (λ s. Agrees s (moderated now moderator dto l))
      (sym (
        record_decision-moderation_status dto.moderation_status now moderator dto.publish_status
          l.publish_at (reviewed now moderator dto l)))
      (record_decision-Agrees dto.moderation_status now moderator dto.publish_status l.publish_at
        (reviewed now moderator dto l))

module _ (table : Table Listing) where
  open table use {Rows, rows, update, rows-update}

  update-IsModerated :
      (id : String) (f : Listing → Listing) (t : Rows)
      → ((l : Listing) → IsModerated (f l))
      → All IsModerated (rows t)
      → All IsModerated (rows (update (has_id id) f t))
  update-IsModerated id f t h all = subst (All IsModerated) (sym (rows-update (has_id id) f t)) (
      All-map IsModerated (update_row (has_id id) f) (rows t)
        (λ l k. if_either IsModerated (has_id id l) (f l) l (h l) k) all)

  found-IsModerated :
      (now : ℕ) (id moderator : String) (dto : ModerationRequest) (found : Option Listing)
      (t : Rows)
      → All IsModerated (rows t)
      → All IsModerated (rows (moderate_found table now id moderator dto found t).0)
  found-IsModerated now id moderator dto none t all = all
  found-IsModerated now id moderator dto (some l) t all =
      update-IsModerated id (moderated now moderator dto) t
        (moderated-IsModerated now moderator dto) all

  submit-IsModerated :
      (id user : String) (found : Option Listing) (t : Rows)
      → All IsModerated (rows t)
      → All IsModerated (rows (submit_found table id user found t).0)
  submit-IsModerated id user none t all = all
  submit-IsModerated id user (some l) t all =
      if_either (λ (r : Rows × Reply ListingError Listing). All IsModerated (rows r.0))
        (same l.created_by_user_id (some user)) _ _
        (update-IsModerated id (submitted user) t (λ l. tt) all) all

  moderation_step-IsModerated :
      (c : ModerationCall) (t : Rows)
      → All IsModerated (rows t)
      → All IsModerated (rows (moderation_step table c t))
  unfolding moderate_listing submit_listing_for_review approve_listing request_listing_changes
      reject_listing archive_listing
  moderation_step-IsModerated (moderate now id moderator dto) t all =
      found-IsModerated now id moderator dto _ t all
  moderation_step-IsModerated (submit id user) t all = submit-IsModerated id user _ t all
  moderation_step-IsModerated (approve now id moderator body) t all =
      found-IsModerated now id moderator (approval body) _ t all
  moderation_step-IsModerated (request_changes now id moderator body) t all =
      found-IsModerated now id moderator (change_request body) _ t all
  moderation_step-IsModerated (reject now id moderator notes) t all =
      found-IsModerated now id moderator (rejection notes) _ t all
  moderation_step-IsModerated (archive now id moderator notes) t all =
      found-IsModerated now id moderator (archival notes) _ t all

  -- Moderations, submissions and the moderators' actions in any order keep each listing in
  -- agreement with its moderation: archived means deleted, marked as archived, by someone at some
  -- time; rejected and to be changed mean the status for it; approved means not archived and, with
  -- the status APPROVED, a date of publication.
  pub run_moderation-IsModerated :
      (cs : List (ModerationCall)) (t : Rows)
      → All IsModerated (rows t)
      → All IsModerated (rows (run_moderation table cs t))
  run_moderation-IsModerated [] t all = all
  run_moderation-IsModerated (c ∷ cs) t all =
      run_moderation-IsModerated cs (moderation_step table c t)
        (moderation_step-IsModerated c t all)
