-- ===== src/Users/Terms/Created.antt =====
-- What becomes of a new latest version of the terms in terms.service.ts.
use kodi_backend_template_a.Base.{
  ℕ, String, ◌≡◌, refl, ap, subst, sym, ◌∙◌, inl, inr, Bool, true, false, Option, none, some, List,
  [], ◌∷◌, ◌++◌, map, arith, eq_refl, Option-cases, filter, find?, filter-append, filter-map_none,
  same_refl, truthy, text_or, answer,
}
use kodi_backend_template_a.Base.Store.{Table, update_row}
use kodi_backend_template_a.Users.Terms.{
  Terms, Acceptance, TermsConfig, NewTerms, TermsState, create_terms, create_unless, add_terms,
  unmark_if, is_version, is_current, is_in_force, has_id, unmark, new_terms, given, in_force,
  in_force_by_locale, latest_for, get_latest_terms,
}

gone :
    (locale : String) (city : Option String) (t : Terms)
    → is_in_force locale city (update_row (is_current locale city) unmark t) ≡ false
unfolding is_current is_in_force unmark
gone locale city t = ground arith

text_or_named : (o : Option String) (s d : String) → truthy o ≡ some s → text_or o d ≡ s
text_or_named o s d e = rw (e, text_or) refl

module _ (table : Table Terms) (log : Table Acceptance) (config : TermsConfig) where
  open table use {Rows, rows, rows-insert, rows-update}

  new-is_in_force :
      (now : ℕ) (dto : NewTerms)
      → given dto.is_latest false ≡ true
      → given dto.is_active true ≡ true
      → is_in_force dto.locale dto.city_id (new_terms table log config now dto) ≡ true
  unfolding is_in_force new_terms
  new-is_in_force now dto latest active =
      rw (latest, active, eq_refl dto.locale) (same_refl dto.city_id)

  -- The table once a new latest version was added.
  abbrev Renewed : NewTerms → Terms → Rows → Rows → Type 0
  Renewed dto t before after =
      rows after
      ≡ map (update_row (is_current dto.locale dto.city_id) unmark) (rows before) ++ t ∷ []

  add_terms_rows :
      (t u : Terms) (s : TermsState table log config)
      → (add_terms table log config t s).1 ≡ answer u
      → (u ≡ t) × (rows (add_terms table log config t s).0.terms ≡ rows s.terms ++ t ∷ [])
  unfolding add_terms
  add_terms_rows t u s done = elim (Option-cases (find? (has_id t.id) (rows s.terms))) [
    | inl free ↦
        let h = rw (free, add_terms) at done in rw (free, add_terms) (cc, rows-insert t s.terms)
    | inr (old, taken) ↦ let h = rw (taken, add_terms) at done in cc
  ]

  unmark_if_rows :
      (b : Bool) (p : Terms → Bool) (t : Rows)
      → b ≡ true
      → rows (unmark_if table log config b p t) ≡ map (update_row p unmark) (rows t)
  unfolding unmark_if
  unmark_if_rows true p t e = rows-update p unmark t
  unmark_if_rows false p t e = cc

  create-Renewed :
      (o : Option Terms) (now : ℕ) (dto : NewTerms) (s : TermsState table log config) (t : Terms)
      → given dto.is_latest false ≡ true
      → (create_unless table log config o now dto s).1 ≡ answer t
      → (t ≡ new_terms table log config now dto)
        × Renewed dto t s.terms (create_unless table log config o now dto s).0.terms
  unfolding create_unless
  create-Renewed (some old) now dto s t latest done = cc
  create-Renewed none now dto s t latest done =
      let p = is_current dto.locale dto.city_id in
      let s1 : TermsState table log config = record s {
        terms = unmark_if table log config (given dto.is_latest false) p s.terms;
      } in
      let new = new_terms table log config now dto in
      let (e, added) = add_terms_rows new t s1 done in
      (
        e,
        added
            ∙ (ap (λ (xs : List Terms). xs ++ new ∷ [])
                  (unmark_if_rows (given dto.is_latest false) p s.terms latest)
                ∙ ap (λ (u : Terms). map (update_row p unmark) (rows s.terms) ++ u ∷ []) (sym e)),
      )

  in_force-Renewed :
      (now : ℕ) (dto : NewTerms) (s s' : TermsState table log config) (t : Terms)
      → is_in_force dto.locale dto.city_id t ≡ true
      → Renewed dto t s.terms s'.terms
      → in_force table log config s' dto.locale dto.city_id ≡ some t
  unfolding in_force
  in_force-Renewed now dto s s' t hit new =
      let q = is_in_force dto.locale dto.city_id in
      let ys = map (update_row (is_current dto.locale dto.city_id) unmark) (rows s.terms) in
      let only : filter q (rows s'.terms) ≡ t ∷ [] =
        ap (filter q) new
        ∙ (filter-append q ys (t ∷ [])
            ∙ rw
                (
                  filter-map_none q (update_row (is_current dto.locale dto.city_id) unmark)
                      (rows s.terms) (gone dto.locale dto.city_id),
                  hit,
                )
                refl) in
      rw only refl

  by_locale-in_force :
      (s : TermsState table log config) (l : String) (c : Option String) (t : Terms)
      → in_force table log config s l c ≡ some t
      → in_force_by_locale table log config s l c ≡ some t
  unfolding in_force_by_locale
  by_locale-in_force s l c t e = rw (e, in_force_by_locale) refl

  latest_for-in_force :
      (s : TermsState table log config) (l : String) (c : Option String) (t : Terms)
      → in_force table log config s l c ≡ some t
      → latest_for table log config s l c ≡ some t
  unfolding latest_for
  latest_for-in_force s l none t e = by_locale-in_force s l none t e
  latest_for-in_force s l (some city) t e =
      rw (by_locale-in_force s l (some city) t e, latest_for) refl

  -- A version that is created as active and latest is the one that `getLatestTerms` shows for its
  -- locale and city from then on, whatever was there before. Its locale and its city are not the
  -- empty text.
  pub get_latest_terms-create_terms :
      (now : ℕ) (dto : NewTerms) (s : TermsState table log config) (t : Terms)
      → given dto.is_latest false ≡ true
      → given dto.is_active true ≡ true
      → truthy (some dto.locale) ≡ some dto.locale
      → truthy dto.city_id ≡ dto.city_id
      → (create_terms table log config now dto s).1 ≡ answer t
      → get_latest_terms table log config
          (create_terms table log config now dto s).0
          (some dto.locale)
          dto.city_id
        ≡ some t
  unfolding get_latest_terms create_terms
  get_latest_terms-create_terms now dto s t latest active named placed done =
      let (e, new) =
        create-Renewed (find? (is_version dto.version dto.locale dto.city_id) (rows s.terms)) now
          dto s t latest done in
      let s' : TermsState table log config = (create_terms table log config now dto s).0 in
      ap (λ (l : String). latest_for table log config s' l (truthy dto.city_id))
        (text_or_named (some dto.locale) dto.locale config.default_locale named)
      ∙ (ap (latest_for table log config s' dto.locale) placed
          ∙ latest_for-in_force (create_terms table log config now dto s).0 dto.locale dto.city_id t
              (in_force-Renewed now dto s (create_terms table log config now dto s).0 t
                (subst (λ u. is_in_force dto.locale dto.city_id u ≡ true) (sym e)
                  (new-is_in_force now dto latest active))
                new))
