-- ===== src/Users/Terms/Shown.antt =====
-- Which terms `getLatestTerms` of terms.service.ts shows.
use kodi_backend_template_a.Base.{
  ℕ, ◌≤◌, ◌+◌, String, ◌≡◌, refl, inl, inr, ◌⊎◌, Bool, true, false, Option, none, some, List, arith,
  eq_iff, Option-cases, Bool-cases, filter, same, ◌==◌, ◌&&◌, ◌||◌, if◌then◌else◌, All, In, All-zip,
  All-imp, All-each, newest-In, newest-none, In-of_filter, text_or, truthy,
}
use kodi_backend_template_a.Base.Store.{Table}
use kodi_backend_template_a.Users.Terms.{
  Terms, Acceptance, TermsConfig, TermsState, is_in_force, in_force, in_force_by_locale, latest_for,
  get_latest_terms,
}

-- A version that may be shown: active, marked as the latest, in the locale that was asked for or the
-- fallback one, for the city or for all.
pub is_eligible : String → String → Option String → Terms → Bool
is_eligible locale fallback city t =
    t.is_active
    && (t.is_latest
        && (((t.locale == locale) || (t.locale == fallback))
            && (same t.city_id city || same t.city_id none)))

-- The city counts more than the locale; less is better.
pub rank : String → Option String → Terms → ℕ
rank locale city t = (if same t.city_id city then 0 else 2) + (if t.locale == locale then 0 else 1)

-- An eligible row of least rank, or none where no row is eligible.
unfoldable pub IsBest : String → String → Option String → List Terms → Option Terms → Type 0
IsBest locale fallback city xs none = All (λ t. is_eligible locale fallback city t ≡ false) xs
IsBest locale fallback city xs (some t) =
    In t xs
    × (is_eligible locale fallback city t ≡ true)
    × All (λ u. is_eligible locale fallback city u ≡ true → rank locale city t ≤ rank locale city u)
        xs

abbrev Passed : String → Option String → List Terms → Type 0
Passed locale city xs = All (λ t. is_in_force locale city t ≡ false) xs

here_first :
    (l d : String) (c : Option String) (t : Terms)
    → is_in_force l c t ≡ true
    → (is_eligible l d c t ≡ true) × (rank l c t ≤ 0)
unfolding is_in_force is_eligible rank
here_first l d c t h = (ground arith, ground arith)

here_second :
    (l d : String) (c : Option String) (t : Terms)
    → is_in_force d c t ≡ true
    → (is_eligible l d c t ≡ true) × (rank l c t ≤ 1)
unfolding is_in_force is_eligible rank
here_second l d c t h = (ground arith, ground arith)

all_first :
    (l d : String) (c : Option String) (t : Terms)
    → is_in_force l none t ≡ true
    → (is_eligible l d c t ≡ true) × (rank l c t ≤ 2)
unfolding is_in_force is_eligible rank
all_first l d c t h = (ground arith, ground arith)

all_second :
    (l d : String) (c : Option String) (t : Terms)
    → is_in_force d none t ≡ true
    → (is_eligible l d c t ≡ true) × (rank l c t ≤ 3)
unfolding is_in_force is_eligible rank
all_second l d c t h = (ground arith, ground arith)

past_first :
    (l d : String) (c : Option String) (t : Terms)
    → is_in_force l c t ≡ false
    → is_eligible l d c t ≡ true
    → 1 ≤ rank l c t
unfolding is_in_force is_eligible rank
past_first l d c t h k = ground arith

past_second :
    (l d : String) (c : Option String) (t : Terms)
    → is_in_force l c t ≡ false
    → is_in_force d c t ≡ false
    → is_eligible l d c t ≡ true
    → 2 ≤ rank l c t
unfolding is_in_force is_eligible rank
past_second l d c t h g k = ground arith

past_third :
    (l d : String) (c : Option String) (t : Terms)
    → is_in_force l c t ≡ false
    → is_in_force d c t ≡ false
    → is_in_force l none t ≡ false
    → is_eligible l d c t ≡ true
    → 3 ≤ rank l c t
unfolding is_in_force is_eligible rank
past_third l d c t h g f k = ground arith

past_all :
    (l d : String) (c : Option String) (t : Terms)
    → is_in_force l c t ≡ false
    → is_in_force d c t ≡ false
    → is_in_force l none t ≡ false
    → is_in_force d none t ≡ false
    → is_eligible l d c t ≡ false
unfolding is_in_force is_eligible
past_all l d c t h g f e = ground arith

-- A row of rank at most `n`, where no eligible row has less than `n`.
IsBest-of :
    (n : ℕ) (l d : String) (c : Option String) (xs : List Terms) (t : Terms)
    → In t xs
    → (is_eligible l d c t ≡ true) × (rank l c t ≤ n)
    → All (λ u. is_eligible l d c u ≡ true → n ≤ rank l c u) xs
    → IsBest l d c xs (some t)
unfolding IsBest
IsBest-of n l d c xs t there (e, low) high = (
  there,
  e,
  All-imp (λ u. is_eligible l d c u ≡ true → n ≤ rank l c u)
      (λ u. is_eligible l d c u ≡ true → rank l c t ≤ rank l c u) xs
      (λ u h k. let bound = h k in omega arith) high,
)

module _ (table : Table Terms) (log : Table Acceptance) (config : TermsConfig) where
  open table use {rows}

  abbrev fallback : String
  fallback = config.default_locale

  -- What one query finds.
  abbrev Picked : List Terms → String → Option String → Option Terms → Type 0
  Picked xs l c none = Passed l c xs
  Picked xs l c (some t) = In t xs × (is_in_force l c t ≡ true)

  in_force_cases :
      (s : TermsState table log config) (l : String) (c : Option String) (o : Option Terms)
      → in_force table log config s l c ≡ o
      → Picked (rows s.terms) l c o
  unfolding in_force
  in_force_cases s l c none e =
      newest-none (λ (t : Terms). t.created_at) (is_in_force l c) (rows s.terms) e
  in_force_cases s l c (some t) e =
      In-of_filter (is_in_force l c) (rows s.terms) t
        (newest-In (λ (t : Terms). t.created_at) (filter (is_in_force l c) (rows s.terms)) t e)

  -- What is found for one city, or for all: by the locale that was asked for, or else by the default.
  abbrev Found : List Terms → String → Option String → Option Terms → Type 0
  Found xs l c none = Passed l c xs × Passed fallback c xs
  Found xs l c (some t) =
      In t xs × ((is_in_force l c t ≡ true) ⊎ (Passed l c xs × (is_in_force fallback c t ≡ true)))

  second-Found :
      (s : TermsState table log config) (l : String) (c : Option String) (o : Option Terms)
      → Passed l c (rows s.terms)
      → in_force table log config s fallback c ≡ o
      → Found (rows s.terms) l c o
  second-Found s l c none first e = (first, in_force_cases s fallback c none e)
  second-Found s l c (some t) first e =
      let (there, hit) = in_force_cases s fallback c (some t) e in (there, inr (first, hit))

  by_locale-Found :
      (s : TermsState table log config) (l : String) (c : Option String)
      → Found (rows s.terms) l c (in_force_by_locale table log config s l c)
  unfolding in_force_by_locale
  by_locale-Found s l c = elim (Option-cases (in_force table log config s l c)) [
    | inl e ↦
        let first = in_force_cases s l c none e in
        rw (e, in_force_by_locale)
          (elim (Bool-cases (l == fallback)) [
            | inl same_locale ↦
                let l_is : l ≡ fallback = (eq_iff l fallback).0 same_locale in
                rw same_locale (first, rw (← l_is) first)
            | inr other ↦
                rw other (second-Found s l c (in_force table log config s fallback c) first refl)
          ])
    | inr (t, e) ↦
        let (there, hit) = in_force_cases s l c (some t) e in
        rw (e, in_force_by_locale) (there, inl hit)
  ]

  plain-IsBest :
      (xs : List Terms) (l : String) (c : Option String) (o : Option Terms)
      → Found xs l c o
      → c ≡ none ⊎ ((t : Terms) × (o ≡ some t))
      → IsBest l fallback c xs o
  unfolding IsBest
  plain-IsBest xs l c none (first, second) (inl e) =
      All-imp (λ t. (is_in_force l c t ≡ false) × (is_in_force fallback c t ≡ false))
        (λ t. is_eligible l fallback c t ≡ false) xs
        (λ t (h, g). past_all l fallback c t h g (rw (← e) h) (rw (← e) g))
        (All-zip (λ t. is_in_force l c t ≡ false) (λ t. is_in_force fallback c t ≡ false) xs first
          second)
  plain-IsBest xs l c none (first, second) (inr (t, e)) = cc
  plain-IsBest xs l c (some t) (there, inl hit) w =
      IsBest-of 0 l fallback c xs t there (here_first l fallback c t hit)
        (All-each (λ u. is_eligible l fallback c u ≡ true → 0 ≤ rank l c u) xs (λ u k. omega arith))
  plain-IsBest xs l c (some t) (there, inr (first, hit)) w =
      IsBest-of 1 l fallback c xs t there (here_second l fallback c t hit) (
        All-imp (λ u. is_in_force l c u ≡ false)
          (λ u. is_eligible l fallback c u ≡ true → 1 ≤ rank l c u) xs
          (λ u. past_first l fallback c u) first)

  -- What is left to the terms for all once nothing was found for the city.
  general-IsBest :
      (xs : List Terms) (l : String) (c : Option String) (o : Option Terms)
      → Found xs l c none
      → Found xs l none o
      → IsBest l fallback c xs o
  unfolding IsBest
  general-IsBest xs l c none (a, b) (first, second) =
      All-imp
        (λ t.
          ((is_in_force l c t ≡ false) × (is_in_force fallback c t ≡ false))
          × ((is_in_force l none t ≡ false) × (is_in_force fallback none t ≡ false)))
        (λ t. is_eligible l fallback c t ≡ false) xs
        (λ t ((h, g), (f, e)). past_all l fallback c t h g f e)
        (All-zip (λ t. (is_in_force l c t ≡ false) × (is_in_force fallback c t ≡ false))
          (λ t. (is_in_force l none t ≡ false) × (is_in_force fallback none t ≡ false)) xs
          (All-zip (λ t. is_in_force l c t ≡ false) (λ t. is_in_force fallback c t ≡ false) xs a b)
          (All-zip (λ t. is_in_force l none t ≡ false) (λ t. is_in_force fallback none t ≡ false) xs
            first second))
  general-IsBest xs l c (some t) (a, b) (there, inl hit) =
      IsBest-of 2 l fallback c xs t there (all_first l fallback c t hit) (
        All-imp (λ u. (is_in_force l c u ≡ false) × (is_in_force fallback c u ≡ false))
          (λ u. is_eligible l fallback c u ≡ true → 2 ≤ rank l c u) xs
          (λ u (h, g). past_second l fallback c u h g)
          (All-zip (λ t. is_in_force l c t ≡ false) (λ t. is_in_force fallback c t ≡ false) xs a b))
  general-IsBest xs l c (some t) (a, b) (there, inr (first, hit)) =
      IsBest-of 3 l fallback c xs t there (all_second l fallback c t hit) (
        All-imp
          (λ u.
            ((is_in_force l c u ≡ false) × (is_in_force fallback c u ≡ false))
            × (is_in_force l none u ≡ false))
          (λ u. is_eligible l fallback c u ≡ true → 3 ≤ rank l c u) xs
          (λ u ((h, g), f). past_third l fallback c u h g f)
          (All-zip (λ u. (is_in_force l c u ≡ false) × (is_in_force fallback c u ≡ false))
            (λ u. is_in_force l none u ≡ false) xs
            (All-zip (λ t. is_in_force l c t ≡ false) (λ t. is_in_force fallback c t ≡ false) xs a
              b)
            first))

  latest_for-IsBest :
      (s : TermsState table log config) (l : String) (c : Option String)
      → IsBest l fallback c (rows s.terms) (latest_for table log config s l c)
  unfolding latest_for
  latest_for-IsBest s l none =
      plain-IsBest (rows s.terms) l none (in_force_by_locale table log config s l none)
        (by_locale-Found s l none) (inl refl)
  latest_for-IsBest s l (some city) =
      elim (Option-cases (in_force_by_locale table log config s l (some city))) [
        | inl e ↦
            rw (e, latest_for)
              (general-IsBest (rows s.terms) l (some city)
                (in_force_by_locale table log config s l none)
                (let f = by_locale-Found s l (some city) in rw e at f) (by_locale-Found s l none))
        | inr (t, e) ↦
            rw (e, latest_for)
              (plain-IsBest (rows s.terms) l (some city) (some t)
                (let f = by_locale-Found s l (some city) in rw e at f) (inr (t, refl)))
      ]

  -- `getLatestTerms` shows the best version of those that may be shown: active, marked as the
  -- latest, in the locale that was asked for or the default one, for the city or for all. A version
  -- for the city is better than one for all, and then one in the locale that was asked for. It
  -- throws only if there is none.
  pub get_latest_terms-IsBest :
      (s : TermsState table log config) (locale city : Option String)
      → IsBest
          (text_or locale config.default_locale)
          config.default_locale
          (truthy city)
          (rows s.terms)
          (get_latest_terms table log config s locale city)
  unfolding get_latest_terms
  get_latest_terms-IsBest s locale city =
      latest_for-IsBest s (text_or locale config.default_locale) (truthy city)
