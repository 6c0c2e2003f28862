-- ===== src/Users/Terms/Valid.antt =====
-- The calls of terms.service.ts keep the table of terms well formed.
use kodi_backend_template_a.Base.{
  ℕ, String, ◌≡◌, refl, inl, inr, Bool, true, false, Option, none, some, List, [], ◌∷◌, map, arith,
  Option-cases, find?, find?-map-none, find?-map_each, length-filter-map_bound,
}
use kodi_backend_template_a.Base.Store.{Table, update_row}
use kodi_backend_template_a.Users.Terms.{
  Terms, Acceptance, TermsConfig, NewTerms, TermsPatch, TermsState, create_terms, update_terms,
  accept_terms, create_unless, add_terms, unmark_if, update_found, accept_found, accept_new,
  record_acceptance, is_version, is_current, is_other_current, has_id, unmark, patch, new_terms,
  given,
}
use kodi_backend_template_a.Users.Terms.Calls.{TermsCall, create, change, accept, step, run}
use kodi_backend_template_a.Users.Terms.Latest.{
  IsValid, unmark-IsValid, insert-IsValid, patch-IsValid, mark-IsValid, patch_current,
  unmark_version,
}

unmarked :
    (locale : String) (city : Option String) (t : Terms)
    → is_current locale city (update_row (is_current locale city) unmark t) ≡ false
unfolding is_current unmark
unmarked locale city t = ground arith

module _ (table : Table Terms) (log : Table Acceptance) (config : TermsConfig) where
  open table use {Rows, rows, rows-insert, rows-update}

  unmark_if-IsValid :
      (b : Bool) (p : Terms → Bool) (t : Rows)
      → IsValid (rows t)
      → IsValid (rows (unmark_if table log config b p t))
  unfolding unmark_if
  unmark_if-IsValid true p t h = rw (rows-update p unmark t) (unmark-IsValid p (rows t) h)
  unmark_if-IsValid false p t h = h

  -- The table has room for a new row.
  unmark_if-version :
      (b : Bool) (p : Terms → Bool) (version locale : String) (city : Option String) (t : Rows)
      → find? (is_version version locale city) (rows t) ≡ none
      → find? (is_version version locale city) (rows (unmark_if table log config b p t)) ≡ none
  unfolding unmark_if
  unmark_if-version true p v l c t e =
      rw (rows-update p unmark t) (
        find?-map-none (is_version v l c) (update_row p unmark) (rows t) (unmark_version p v l c) e)
  unmark_if-version false p v l c t e = e

  unmark_if-current :
      (b : Bool) (locale : String) (city : Option String) (t : Rows)
      → b ≡ true
      → find?
          (is_current locale city)
          (rows (unmark_if table log config b (is_current locale city) t))
        ≡ none
  unfolding unmark_if
  unmark_if-current true l c t e =
      rw (rows-update (is_current l c) unmark t) (
        find?-map_each (is_current l c) (update_row (is_current l c) unmark) (rows t)
          (unmarked l c))
  unmark_if-current false l c t e = cc

  add-IsValid :
      (t : Terms) (s : TermsState table log config)
      → IsValid (rows s.terms)
      → (t.is_latest ≡ true → find? (is_current t.locale t.city_id) (rows s.terms) ≡ none)
      → find? (is_version t.version t.locale t.city_id) (rows s.terms) ≡ none
      → IsValid (rows (add_terms table log config t s).0.terms)
  unfolding add_terms
  add-IsValid t s h latest version = elim (Option-cases (find? (has_id t.id) (rows s.terms))) [
    | inl free ↦
        rw (free, add_terms)
          (rw (rows-insert t s.terms) (insert-IsValid (rows s.terms) t h latest version free))
    | inr (old, taken) ↦ rw (taken, add_terms) h
  ]

  create-IsValid :
      (o : Option Terms) (now : ℕ) (dto : NewTerms) (s : TermsState table log config)
      → find? (is_version dto.version dto.locale dto.city_id) (rows s.terms) ≡ o
      → IsValid (rows s.terms)
      → IsValid (rows (create_unless table log config o now dto s).0.terms)
  unfolding create_unless new_terms
  create-IsValid (some old) now dto s e h = h
  create-IsValid none now dto s e h =
      let flag = given dto.is_latest false in
      let p = is_current dto.locale dto.city_id in
      add-IsValid (new_terms table log config now dto)
        (record s { terms = unmark_if table log config flag p s.terms })
        (unmark_if-IsValid flag p s.terms h) (unmark_if-current flag dto.locale dto.city_id s.terms)
        (unmark_if-version flag p dto.version dto.locale dto.city_id s.terms e)

  change-IsValid :
      (b : Bool) (id : String) (dto : TermsPatch) (t : Terms) (u : Rows)
      → given dto.is_latest false ≡ b
      → find? (has_id id) (rows u) ≡ some t
      → IsValid (rows u)
      → IsValid (
          map
            (update_row (has_id id) (patch dto))
            (rows (unmark_if table log config b (is_other_current id t.locale t.city_id) u)))
  unfolding unmark_if
  change-IsValid true id dto t u e found h =
      rw (rows-update (is_other_current id t.locale t.city_id) unmark u)
        (mark-IsValid id dto (rows u) h found)
  change-IsValid false id dto t u e found h = patch-IsValid (has_id id) dto (rows u) h (λ l c.
      length-filter-map_bound (is_current l c) (update_row (has_id id) (patch dto)) (rows u) 1
        (λ a. patch_current (has_id id) dto l c a e) (h.one_latest l c))

  update-IsValid :
      (o : Option Terms) (id : String) (dto : TermsPatch) (s : TermsState table log config)
      → find? (has_id id) (rows s.terms) ≡ o
      → IsValid (rows s.terms)
      → IsValid (rows (update_found table log config o id dto s).0.terms)
  unfolding update_found
  update-IsValid none id dto s e h = h
  update-IsValid (some t) id dto s e h =
      rw rows-update (change-IsValid (given dto.is_latest false) id dto t s.terms refl e h)

  accept_terms-terms :
      (now : ℕ) (user id : String) (ip agent : Option String) (s : TermsState table log config)
      → (accept_terms table log config now user id ip agent s).0.terms ≡ s.terms
  unfolding accept_terms accept_found accept_new record_acceptance
  accept_terms-terms now user id ip agent s = ground arith

  step-IsValid :
      (c : TermsCall) (s : TermsState table log config)
      → IsValid (rows s.terms)
      → IsValid (rows (step table log config c s).terms)
  unfolding create_terms update_terms
  step-IsValid (create now dto) s h =
      create-IsValid (find? (is_version dto.version dto.locale dto.city_id) (rows s.terms)) now dto
        s refl h
  step-IsValid (change id dto) s h =
      update-IsValid (find? (has_id id) (rows s.terms)) id dto s refl h
  step-IsValid (accept now user id ip agent) s h = rw (accept_terms-terms now user id ip agent s) h

  -- Every sequence of calls, failed ones included, leaves at most one latest version for each locale
  -- and city, one row for each version, locale and city, and one for each id, where the table was so
  -- before.
  pub run-IsValid :
      (cs : List TermsCall) (s : TermsState table log config)
      → IsValid (rows s.terms)
      → IsValid (rows (run table log config cs s).terms)
  run-IsValid [] s h = h
  run-IsValid (c ∷ cs) s h = run-IsValid cs (step table log config c s) (step-IsValid c s h)
