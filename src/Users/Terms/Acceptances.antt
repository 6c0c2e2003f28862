-- ===== src/Users/Terms/Acceptances.antt =====
-- What an acceptance in terms.service.ts is worth, and whom the guard of the terms lets through.
use kodi_backend_template_a.Base.{
  ℕ, ◌≤◌, String, ◌≡◌, ◌↔◌, refl, ap, subst, sym, ◌∙◌, inl, inr, true, false, Option, none, some,
  arith, eq_iff, eq_refl, Bool-cases, Option-cases, find?, find?-append_last, find?-eq-some,
  same_refl, true≢false, truthy, text_or, ltb, answer,
}
use kodi_backend_template_a.Base.Store.{Table}
use kodi_backend_template_a.Rbac.Guards.{
  AcceptanceCheck, terms_acceptance_guard, forbidden, terms_not_accepted,
}
use kodi_backend_template_a.Rbac.Guards.Roles.{terms_acceptance_guard_iff}
use kodi_backend_template_a.Users.Terms.{
  Terms, Acceptance, TermsConfig, TermsState, LatestCheck, get_latest_terms, latest_for,
  in_force_by_locale, in_force, accept_terms, accept_found, accept_new, record_acceptance,
  find_acceptance, new_acceptance, covers, is_for_city, has_id, check_latest,
  has_user_accepted_latest_terms, grace_period_end, is_within_grace_period, is_taken,
}

module _ (table : Table Terms) (log : Table Acceptance) (config : TermsConfig) where
  open table use {rows}

  -- The user has accepted the version of these terms for their city.
  abbrev Accepted : TermsState table log config → String → Terms → Type 0
  Accepted s user t = (a : Acceptance) × (find_acceptance table log config s user t ≡ some a)

  new-covers :
      (now : ℕ) (user : String) (ip agent : Option String) (t : Terms)
      (s : TermsState table log config)
      → find? (has_id t.id) (rows s.terms) ≡ some t
      → covers table log config s user t.version t.city_id
          (new_acceptance table log config now user t ip agent)
        ≡ true
  unfolding covers is_for_city new_acceptance
  new-covers now user ip agent t s found =
      rw (eq_refl user, eq_refl t.version, found, is_for_city) (same_refl t.city_id)

  record-Accepted :
      (now : ℕ) (user : String) (ip agent : Option String) (t : Terms)
      (s : TermsState table log config) {a : Acceptance}
      → find? (has_id t.id) (rows s.terms) ≡ some t
      → (record_acceptance table log config
          (new_acceptance table log config now user t ip agent)
          s).1
        ≡ answer a
      → Accepted
          (record_acceptance table log config
            (new_acceptance table log config now user t ip agent)
            s).0
          user
          t
  unfolding record_acceptance find_acceptance covers is_for_city
  record-Accepted now user ip agent t s found h =
      let n = new_acceptance table log config now user t ip agent in
      elim (Option-cases
        (find? (is_taken table log config n.user_id n.terms_id) (log.rows s.acceptances))) [
          | inl free ↦
              rw (free, record_acceptance)
                (rw (log.rows-insert n s.acceptances) (
                  find?-append_last (covers table log config s user t.version t.city_id)
                    (log.rows s.acceptances) n (new-covers now user ip agent t s found)))
          | inr (b, taken) ↦ let k = rw (taken, record_acceptance) at h in cc
        ]

  accept_new-Accepted :
      (o : Option Acceptance) (now : ℕ) (user : String) (ip agent : Option String) (t : Terms)
      (s : TermsState table log config) {a : Acceptance}
      → find? (has_id t.id) (rows s.terms) ≡ some t
      → find_acceptance table log config s user t ≡ o
      → (accept_new table log config o (new_acceptance table log config now user t ip agent) s).1
        ≡ answer a
      → Accepted
          (accept_new table log config o (new_acceptance table log config now user t ip agent) s).0
          user
          t
  unfolding accept_new
  accept_new-Accepted (some old) now user ip agent t s found e h = (old, e)
  accept_new-Accepted none now user ip agent t s found e h =
      record-Accepted now user ip agent t s found h

  pub accept_terms-Accepted :
      (now : ℕ) (user id : String) (ip agent : Option String) (t : Terms)
      (s : TermsState table log config) {a : Acceptance}
      → find? (has_id id) (rows s.terms) ≡ some t
      → (accept_terms table log config now user id ip agent s).1 ≡ answer a
      → Accepted (accept_terms table log config now user id ip agent s).0 user t
  unfolding accept_terms accept_found has_id
  accept_terms-Accepted now user id ip agent t s found h =
      let same_id : t.id ≡ id =
        (eq_iff t.id id).0 (find?-eq-some (has_id id) (rows s.terms) found) in
      rw (found, accept_found)
        (elim (Bool-cases t.is_active) [
          | inl active ↦ rw active (
              accept_new-Accepted (find_acceptance table log config s user t) now user ip agent t s
                (subst (λ i. find? (has_id i) (rows s.terms) ≡ some t) (sym same_id) found) refl
                (let k = rw (found, accept_found) at h in rw active at k))
          | inr idle ↦ let k = rw (found, accept_found) at h in let l = rw idle at k in cc
        ])

  accept_terms-terms :
      (now : ℕ) (user id : String) (ip agent : Option String) (s : TermsState table log config)
      → (accept_terms table log config now user id ip agent s).0.terms ≡ s.terms
  unfolding accept_terms accept_found accept_new record_acceptance
  accept_terms-terms now user id ip agent s = ground arith

  text_or_again : (o : Option String) (d : String) → text_or (some (text_or o d)) d ≡ text_or o d
  text_or_again none d = ground arith
  text_or_again (some s) d = ground arith

  get_latest_terms_again :
      (s : TermsState table log config) (locale city : Option String)
      → get_latest_terms table log config s (some (text_or locale config.default_locale)) city
        ≡ get_latest_terms table log config s locale city
  unfolding get_latest_terms
  get_latest_terms_again s locale city = rw (text_or_again locale config.default_locale) refl

  latest_for-terms :
      (s s' : TermsState table log config) (l : String) (city : Option String)
      → s'.terms ≡ s.terms
      → latest_for table log config s' l city ≡ latest_for table log config s l city
  unfolding latest_for in_force_by_locale in_force
  latest_for-terms s s' l none e =
      ap (λ (r : table.Rows). latest_for table log config (record s { terms = r }) l none) e
  latest_for-terms s s' l (some city) e =
      ap (λ (r : table.Rows). latest_for table log config (record s { terms = r }) l (some city)) e

  get_latest_terms-terms :
      (s s' : TermsState table log config) (locale city : Option String)
      → s'.terms ≡ s.terms
      → get_latest_terms table log config s' locale city
        ≡ get_latest_terms table log config s locale city
  unfolding get_latest_terms
  get_latest_terms-terms s s' locale city e =
      latest_for-terms s s' (text_or locale config.default_locale) (truthy city) e

  checked :
      (later : ℕ) (user : String) (t u : Terms) (s : TermsState table log config)
      → u.version ≡ t.version
      → u.city_id ≡ t.city_id
      → Accepted s user t
      → (check_latest table log config later s user (some u)).has_accepted ≡ true
  unfolding check_latest find_acceptance
  checked later user t u s version place (a, e) =
      let found : find_acceptance table log config s user u ≡ some a =
        ap
          (λ (v : String).
            find? (covers table log config s user v u.city_id) (log.rows s.acceptances))
          version
        ∙ (ap
              (λ (c : Option String).
                find? (covers table log config s user t.version c) (log.rows s.acceptances))
              place
            ∙ e) in
      rw (found, check_latest) refl

  -- A user who has accepted terms has accepted them in every language: after an acceptance that
  -- succeeds, `hasUserAcceptedLatestTerms` says so at any time, for each locale and city for which
  -- the latest terms have the version and the city of the accepted ones.
  pub has_user_accepted_latest_terms-accept_terms :
      (now later : ℕ) (user id : String) (ip agent locale city : Option String) (t u : Terms)
      (s : TermsState table log config) {a : Acceptance}
      → find? (has_id id) (rows s.terms) ≡ some t
      → (accept_terms table log config now user id ip agent s).1 ≡ answer a
      → get_latest_terms table log config s locale city ≡ some u
      → u.version ≡ t.version
      → u.city_id ≡ t.city_id
      → (has_user_accepted_latest_terms table log config later
          (accept_terms table log config now user id ip agent s).0
          user
          locale
          city).has_accepted
        ≡ true
  unfolding has_user_accepted_latest_terms
  has_user_accepted_latest_terms-accept_terms now later user id ip agent locale city t u s found
        done shown version place =
      let s' = (accept_terms table log config now user id ip agent s).0 in
      let shown' : get_latest_terms table log config s'
            (some (text_or locale config.default_locale)) city
          ≡ some u =
        get_latest_terms_again s' locale city
        ∙ (get_latest_terms-terms s s' locale city (accept_terms-terms now user id ip agent s)
            ∙ shown) in
      rw shown' (
        checked later user t u s' version place
          (accept_terms-Accepted now user id ip agent t s found done))

  -- The answer as the guard reads it.
  abbrev pub as_check : LatestCheck → AcceptanceCheck
  as_check c = record {
    has_accepted = c.has_accepted;
    grace_period_ends_at = c.grace_period_ends_at;
  }

  refused_iff :
      (later : ℕ) (user : String) (c : LatestCheck)
      → truthy (some user) ≡ some user
      → (terms_acceptance_guard false (some user) later (some (as_check c))
          ≡ forbidden terms_not_accepted)
        ↔ ((c.has_accepted ≡ false) × ((e : ℕ) → c.grace_period_ends_at ≡ some e → e ≤ later))
  refused_iff later user c named =
      let both = terms_acceptance_guard_iff false (some user) later (some (as_check c)) in
      (
        λ h.
            let (_, _, (d, q, n, g)) = both.0 h in
            let same_check : as_check c ≡ d = cc in
            (
              ap (λ (x : AcceptanceCheck). x.has_accepted) same_check ∙ n,
              λ e k.
                  g e (ap (λ (x : AcceptanceCheck). x.grace_period_ends_at) (sym same_check) ∙ k),
            ),
        λ (n, g). both.1 (refl, (user, named), (as_check c, refl, n, g)),
      )

  -- The reason for which the guard refuses at `later` what the service answers of these terms.
  abbrev Refusal : ℕ → String → TermsState table log config → Terms → Type 0
  Refusal later user s t =
      (find_acceptance table log config s user t ≡ none) × (grace_period_end t ≤ later)

  no_terms :
      (now : ℕ) (user : String) (s : TermsState table log config)
      → (check_latest table log config now s user none).has_accepted ≡ false
      → ⊥
  unfolding check_latest
  no_terms now user s h = true≢false h

  pending_iff :
      (now later : ℕ) (user : String) (s : TermsState table log config) (t : Terms)
      → now ≤ later
      → (o : Option Acceptance) → find_acceptance table log config s user t ≡ o
      → ((check_latest table log config now s user (some t)).has_accepted ≡ false)
          × ((e : ℕ)
              → (check_latest table log config now s user (some t)).grace_period_ends_at ≡ some e
              → e ≤ later)
        ↔ Refusal later user s t
  unfolding check_latest is_within_grace_period
  pending_iff now later user s t le (some a) found = rw (found, check_latest) (λ h. cc, λ h. cc)
  pending_iff now later user s t le none found =
      rw (found, check_latest)
        (elim (Bool-cases (ltb now (grace_period_end t))) [
          | inl within ↦ rw within (
            λ (_, g). (refl, g (grace_period_end t) refl),
            λ (_, past). (refl, λ e k. let same_end : grace_period_end t ≡ e = cc in omega arith),
          )
          | inr over ↦ rw over (λ _. (refl, ground arith), λ _. (refl, λ e k. cc))
        ])

  answer_iff :
      (now later : ℕ) (user : String) (s : TermsState table log config) (o : Option Terms)
      → now ≤ later
      → truthy (some user) ≡ some user
      → (terms_acceptance_guard false
            (some user)
            later
            (some (as_check (check_latest table log config now s user o)))
          ≡ forbidden terms_not_accepted)
        ↔ ((t : Terms) × (o ≡ some t)
            × (find_acceptance table log config s user t ≡ none)
            × (grace_period_end t ≤ later))
  answer_iff now later user s none le named =
      let both = refused_iff later user (check_latest table log config now s user none) named in
      (λ h. absurd (no_terms now user s (both.0 h).0), λ (t, e, _, _). cc)
  answer_iff now later user s (some t) le named =
      let both = refused_iff later user (check_latest table log config now s user (some t)) named in
      let rest =
        pending_iff now later user s t le (find_acceptance table log config s user t) refl in
      (
        λ h. let (a, b) = rest.0 (both.0 h) in (t, refl, a, b),
        λ (u, e, a, b). let same_terms : t ≡ u = cc in both.1 (rest.1 (rw same_terms (a, b))),
      )

  -- The guard of the terms, asked of the answer of `hasUserAcceptedLatestTerms` or at a later time,
  -- refuses a user exactly if there are latest terms, the user has not accepted their version, and
  -- their grace period is over.
  pub terms_acceptance_guard-has_user_accepted_latest_terms :
      (now later : ℕ) (user : String) (locale city : Option String)
      (s : TermsState table log config)
      → now ≤ later
      → truthy (some user) ≡ some user
      → (terms_acceptance_guard false (some user) later (
            some
              (as_check (has_user_accepted_latest_terms table log config now s user locale city)))
          ≡ forbidden terms_not_accepted)
        ↔ ((t : Terms) × (get_latest_terms table log config s locale city ≡ some t)
            × (find_acceptance table log config s user t ≡ none)
            × (grace_period_end t ≤ later))
  unfolding has_user_accepted_latest_terms
  terms_acceptance_guard-has_user_accepted_latest_terms now later user locale city s le named =
      rw (get_latest_terms_again s locale city)
        (answer_iff now later user s (get_latest_terms table log config s locale city) le named)
