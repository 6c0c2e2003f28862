-- ===== src/Core/Expiry.antt =====
-- apps/core/src/modules/core/core.service.ts: `cleanupExpiredEventListings`.
pub mod Cleanup
use kodi_backend_template_a.Base.{
  ℕ, zero, suc, ◌+◌, String, Bool, true, false, not, Option, none, some, List, [], ◌∷◌, map, ◌&&◌,
  ◌||◌, if◌then◌else◌, length, filter, any, includes, take, drop, ltb, leb,
}
use kodi_backend_template_a.Base.Store.{Table}
use kodi_backend_template_a.Core.{Listing, TimeInterval, is_deleted, is_event, does_not_recur}

-- `date !== null && date < now`.
abbrev pub is_past : Option ℕ → ℕ → Bool
is_past none now = false
is_past (some t) now = ltb t now

-- Whether an interval makes the loop of `isListingExpired` return false.
abbrev pub keeps_open : ℕ → TimeInterval → Bool
keeps_open now i =
    if does_not_recur i.freq
    then leb now i.end
    else elim i.repeat_until [ none ↦ true | some t ↦ leb now t ]

abbrev pub all_over : ℕ → List TimeInterval → Bool
all_over now [] = true
all_over now (i ∷ is) = if keeps_open now i then false else all_over now is

abbrev pub is_expired_by : Listing → List TimeInterval → ℕ → Bool
is_expired_by l [] now = is_past l.event_end now
is_expired_by l (i ∷ is) now = all_over now (i ∷ is)

unfoldable pub is_listing_expired : Listing → ℕ → Bool
is_listing_expired l now = is_expired_by l l.time_intervals now

abbrev pub has_timing : Option ℕ → List TimeInterval → Bool
has_timing event_end (i ∷ is) = true
has_timing (some t) [] = true
has_timing none [] = false

-- The `where` of the query for candidates.
abbrev pub is_candidate : Listing → Bool
is_candidate l =
    not (is_deleted l.status)
    && any is_event l.category_types
    && has_timing l.event_end l.time_intervals

abbrev pub is_one_of : List String → Listing → Bool
is_one_of ids l = includes l.id ids

abbrev pub id_of : Listing → String
id_of l = l.id

abbrev pub expired_ids : ℕ → List Listing → List String
expired_ids now candidates = map id_of (filter (λ l. is_listing_expired l now) candidates)

module _ (table : Table Listing) where
  open table use {Rows, rows, remove}

  -- `deleteMany`: the rows that are left, and how many were deleted.
  abbrev pub delete_many : List String → Rows → Rows × ℕ
  delete_many ids t = (remove (is_one_of ids) t, length (filter (is_one_of ids) (rows t)))

  -- The loop over chunks of 100 ids, on fuel; each chunk takes one id at least.
  abbrev pub delete_chunks : ℕ → List String → Rows × ℕ → Rows × ℕ
  delete_chunks zero ids (t, deleted) = (t, deleted)
  delete_chunks (suc fuel) [] (t, deleted) = (t, deleted)
  delete_chunks (suc fuel) (i ∷ ids) (t, deleted) =
      let (t', count) = delete_many (take 100 (i ∷ ids)) t in
      delete_chunks fuel (drop 100 (i ∷ ids)) (t', deleted + count)

  -- The rows that are left, and the counts `deleted` and `skipped`.
  unfoldable pub cleanup_expired_event_listings : ℕ → Rows → Rows × ℕ × ℕ
  cleanup_expired_event_listings now t =
      let candidates = filter is_candidate (rows t) in
      let ids = expired_ids now candidates in
      let (t', deleted) = delete_chunks (length ids) ids (t, 0) in
      (t', deleted, length (filter (λ l. not (is_listing_expired l now)) candidates))
