-- ===== src/Core/Expiry/Cleanup.antt =====
-- What `cleanupExpiredEventListings` leaves of the listings, and its counts.
use kodi_backend_template_a.Base.{
  ℕ, zero, suc, ◌+◌, ◌≤◌, String, ◌≡◌, refl, sym, ap, subst, ◌∙◌, Bool, true, not, inl, inr, ◌&&◌,
  List, [], ◌∷◌, map, arith, length, filter, includes_iff, take, drop, In, In-filter, In-of_filter,
  eq_iff, ◌==◌,
}
use kodi_backend_template_a.Base.Filters.{
  includes-take, length-drop, filter-filter-not, length-filter_both, length-filter-not,
  filter-filter_both, filter_all, In-one, filter_cong, same_test, and_left, and_right, sum_of,
  sum_left, sum_right,
}
use kodi_backend_template_a.Base.Store.{Table}
use kodi_backend_template_a.Core.{Listing}
use kodi_backend_template_a.Core.Expiry.{
  is_candidate, is_listing_expired, is_one_of, id_of, delete_chunks, expired_ids,
  cleanup_expired_event_listings,
}

none_counted : (d : ℕ) (xs : List Listing) → d ≡ d + length (filter (is_one_of []) xs)
none_counted d [] = omega arith
none_counted d (x ∷ xs) = none_counted d xs

module _ (table : Table Listing) where
  open table use {Rows, rows, remove, rows-remove}

  -- The chunks together delete what one call with all ids would.
  abbrev Chunked : List String → Rows → ℕ → Rows × ℕ → Type 0
  Chunked ids t deleted r =
      (rows r.0 ≡ filter (λ l. not (is_one_of ids l)) (rows t))
      × (r.1 ≡ deleted + length (filter (is_one_of ids) (rows t)))

  Chunked-none : (t : Rows) (d : ℕ) → Chunked [] t d (t, d)
  Chunked-none t d = (sym (filter_all (rows t)), none_counted d (rows t))

  delete_chunks-Chunked :
      (fuel : ℕ) (ids : List String) (t : Rows) (d : ℕ)
      → length ids ≤ fuel
      → Chunked ids t d (delete_chunks table fuel ids (t, d))
  delete_chunks-Chunked zero [] t d enough = Chunked-none t d
  delete_chunks-Chunked zero (i ∷ ids) t d enough = absurd (omega arith)
  delete_chunks-Chunked (suc fuel) [] t d enough = Chunked-none t d
  delete_chunks-Chunked (suc fuel) (i ∷ ids) t d enough =
      let now = take 100 (i ∷ ids) in
      let later = drop 100 (i ∷ ids) in
      let t' = remove (is_one_of now) t in
      let count = length (filter (is_one_of now) (rows t)) in
      let few : length later ≤ length ids = length-drop 99 i ids in
      let (left, counted) = delete_chunks-Chunked fuel later t' (d + count) (omega arith) in
      let split = λ (l : Listing). includes-take l.id 100 (i ∷ ids) in
      let gone = rows-remove (is_one_of now) t in
      let both =
        length-filter_both (is_one_of now) (is_one_of later) (is_one_of (i ∷ ids)) split (rows t) in
      (
        left
            ∙ ap (filter (λ l. not (is_one_of later l))) gone
            ∙ filter-filter-not (is_one_of now) (is_one_of later) (is_one_of (i ∷ ids)) split
                (rows t),
        counted
            ∙ ap (λ xs. d + count + length (filter (is_one_of later) xs)) gone
            ∙ sum_of d _ _ _ both,
      )

-- Each id belongs to one listing at most.
abbrev pub UniqueIds : List Listing → Type 0
UniqueIds xs = (id : String) → length (filter (λ l. l.id == id) xs) ≤ 1

In-of_ids :
    (id : String) (xs : List Listing) → In id (map id_of xs) → (l : Listing) × In l xs × (id ≡ l.id)
In-of_ids id [] m = absurd m
In-of_ids id (x ∷ xs) m = elim m [
  | inl e ↦ (x, inl refl, e)
  | inr k ↦ let (l, there, e) = In-of_ids id xs k in (l, inr there, e)
]

ids-In : (l : Listing) (xs : List Listing) → In l xs → In l.id (map id_of xs)
ids-In l [] m = absurd m
ids-In l (x ∷ xs) m = elim m [ inl e ↦ inl (ap id_of e) | inr k ↦ inr (ids-In l xs k) ]

-- The listings that the cleanup is to delete.
abbrev pub is_due : ℕ → Listing → Bool
is_due now l = is_candidate l && is_listing_expired l now

split_due :
    (now : ℕ) (l : Listing)
    → is_candidate l ≡ true
    → is_listing_expired l now ≡ true
    → is_due now l ≡ true
split_due now l h k = rw (h, k) refl

module _ (now : ℕ) (xs : List Listing) (unique : UniqueIds xs) where
  same_listing : (l m : Listing) → In l xs → In m xs → l.id ≡ m.id → l ≡ m
  same_listing l m here there e =
      let has = λ (k : Listing). k.id == m.id in
      In-one (filter has xs) l m (unique m.id) (In-filter has xs l here ((eq_iff l.id m.id).1 e))
        (In-filter has xs m there ((eq_iff m.id m.id).1 refl))

  -- The ids that are collected are those of the listings to delete.
  collected-is_due :
      (l : Listing)
      → In l xs
      → is_one_of (expired_ids now (filter is_candidate xs)) l ≡ is_due now l
  collected-is_due l here =
      let ids = expired_ids now (filter is_candidate xs) in
      let expired = λ (k : Listing). is_listing_expired k now in
      same_test (is_one_of ids l) (is_due now l)
        (λ h.
          let (m, picked, e) =
            In-of_ids l.id (filter expired (filter is_candidate xs))
              ((includes_iff l.id ids).0 h) in
          let (candidate, over) = In-of_filter expired (filter is_candidate xs) m picked in
          let (there, was) = In-of_filter is_candidate xs m candidate in
          let same = same_listing l m here there e in
          subst (λ k. is_due now k ≡ true) (sym same) (split_due now m was over))
        (λ h. (includes_iff l.id ids).1 (
          ids-In l (filter expired (filter is_candidate xs)) (
            In-filter expired (filter is_candidate xs) l
              (In-filter is_candidate xs l here (and_left (is_candidate l) (expired l) h))
              (and_right (is_candidate l) (expired l) h))))

module _ (table : Table Listing) where
  open table use {Rows, rows}

  -- With unique ids, the cleanup leaves exactly the listings that are not due, however many chunks
  -- of ids the deletion takes: the listings that are deleted, have no category of events, have no
  -- date of their end and no interval, or are not expired.
  pub cleanup_expired_event_listings-is_due :
      (now : ℕ) (t : Rows)
      → UniqueIds (rows t)
      → rows (cleanup_expired_event_listings table now t).0
        ≡ filter (λ l. not (is_due now l)) (rows t)
  unfolding cleanup_expired_event_listings
  cleanup_expired_event_listings-is_due now t unique =
      let ids = expired_ids now (filter is_candidate (rows t)) in
      (delete_chunks-Chunked table (length ids) ids t 0 (omega arith)).0
      ∙ filter_cong (λ l. not (is_one_of ids l)) (λ l. not (is_due now l)) (rows t)
          (λ l here. ap not (collected-is_due now (rows t) unique l here))

  -- With unique ids, `deleted` counts the listings that are gone, and `deleted` and `skipped`
  -- together count the candidates.
  pub cleanup_expired_event_listings-counts :
      (now : ℕ) (t : Rows)
      → UniqueIds (rows t)
      → let (t', deleted, skipped) = cleanup_expired_event_listings table now t in
        (length (rows t') + deleted ≡ length (rows t))
        × (deleted + skipped ≡ length (filter is_candidate (rows t)))
  unfolding cleanup_expired_event_listings
  cleanup_expired_event_listings-counts now t unique =
      let ids = expired_ids now (filter is_candidate (rows t)) in
      let (left, counted) = delete_chunks-Chunked table (length ids) ids t 0 (omega arith) in
      let expired = λ (l : Listing). is_listing_expired l now in
      let due =
        filter_cong (is_one_of ids) (is_due now) (rows t)
          (λ l here. collected-is_due now (rows t) unique l here) in
      let fewer : length (filter (is_one_of ids) (rows t)) ≡ _ =
        ap length (due ∙ sym (filter-filter_both is_candidate expired (rows t))) in
      let all = length-filter-not (is_one_of ids) (rows t) in
      let parts = length-filter-not expired (filter is_candidate (rows t)) in
      (sum_left _ _ _ _ _ (ap length left) counted all, sum_right _ _ _ _ _ counted fewer parts)
