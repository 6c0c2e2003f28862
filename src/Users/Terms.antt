-- ===== src/Users/Terms.antt =====
-- apps/users/src/modules/terms/terms.service.ts: versions of the terms of use, for all or for one
-- city, and their acceptance by users. Times are seconds; ids, the clock and the configuration are
-- arguments. The two tables have the unique keys of libs/prisma/src/schemas/users/schema.prisma.
pub mod Calls
pub mod Latest
pub mod Shown
pub mod Valid
pub mod Created
pub mod Acceptances
mod Tests
use kodi_backend_template_a.Base.{
  ℕ, ◌+◌, ◌*◌, String, Bool, true, false, Option, none, some, List, [], ◌∷◌, ◌++◌, ◌&&◌, not, ltb,
  ◌==◌, if◌then◌else◌, filter, find?, newest, same, truthy, text_or, Reply, refuse, answer,
}
use kodi_backend_template_a.Base.Store.{Table}

pub record Terms : Type 0 where
  pub id : String
  pub version : String
  pub title : String
  pub content : String
  pub locale : String
  pub city_id : Option String
  pub is_active : Bool
  pub is_latest : Bool
  pub grace_period_days : ℕ
  pub created_at : ℕ
  pub created_by : Option String

pub record Acceptance : Type 0 where
  pub user_id : String
  pub terms_id : String
  pub version : String
  pub locale : String
  pub ip_address : Option String
  pub user_agent : Option String
  pub accepted_at : ℕ

pub data TermsError : Type 0 where
  terms_not_found terms_inactive version_exists key_taken : TermsError

-- `CreateTermsDto`, with the id that is drawn for the row.
pub record NewTerms : Type 0 where
  pub new_id : String
  pub version : String
  pub title : String
  pub content : String
  pub locale : String
  pub city_id : Option String
  pub is_active : Option Bool
  pub is_latest : Option Bool
  pub grace_period_days : Option ℕ
  pub created_by : Option String

-- `UpdateTermsDto`.
pub record TermsPatch : Type 0 where
  pub title : Option String
  pub content : Option String
  pub is_active : Option Bool
  pub is_latest : Option Bool
  pub grace_period_days : Option ℕ

-- The answer of `hasUserAcceptedLatestTerms`.
pub record LatestCheck : Type 0 where
  pub has_accepted : Bool
  pub terms_id : Option String
  pub grace_period_ends_at : Option ℕ

-- The answer of `getAcceptanceStatus`.
pub record AcceptanceStatus : Type 0 where
  pub has_accepted : Bool
  pub accepted_version : Option String
  pub latest_version : Option String
  pub needs_acceptance : Bool
  pub terms_id : Option String
  pub grace_period_ends_at : Option ℕ

pub record TermsConfig : Type 0 where
  pub default_locale : String
  pub grace_period_days : ℕ

-- `a ?? b`.
abbrev pub given {ℓ} : {A : Type ℓ} → Option A → A → A
given none b = b
given (some a) b = a

-- The marks for the latest version of a locale, for one city or for all.
pub is_current : String → Option String → Terms → Bool
is_current locale city t = t.is_latest && (t.locale == locale && same t.city_id city)

pub is_in_force : String → Option String → Terms → Bool
unfolding is_current
is_in_force locale city t = t.is_active && is_current locale city t

pub is_version : String → String → Option String → Terms → Bool
is_version version locale city t =
    t.version == version && (t.locale == locale && same t.city_id city)

pub has_id : String → Terms → Bool
has_id id t = t.id == id

pub is_other_current : String → String → Option String → Terms → Bool
unfolding is_current has_id
is_other_current id locale city t = is_current locale city t && not (has_id id t)

pub unmark : Terms → Terms
unmark t = record t { is_latest = false }

pub patch : TermsPatch → Terms → Terms
patch p t = record t {
  title = text_or p.title t.title;
  content = text_or p.content t.content;
  is_active = given p.is_active t.is_active;
  is_latest = given p.is_latest t.is_latest;
  grace_period_days = given p.grace_period_days t.grace_period_days;
}

-- `createdAt + gracePeriodDays * 24 * 60 * 60`.
pub grace_period_end : Terms → ℕ
grace_period_end t = t.created_at + t.grace_period_days * 86400

pub is_within_grace_period : ℕ → Terms → Bool
unfolding grace_period_end
is_within_grace_period now t = ltb now (grace_period_end t)

module _ (table : Table Terms) (log : Table Acceptance) (config : TermsConfig) where
  open table use {Rows, rows, insert, update}

  pub record TermsState : Type 0 where
    pub terms : Rows
    pub acceptances : log.Rows

  -- The newest of the active latest terms of a locale, for one city or for all.
  pub in_force : TermsState → String → Option String → Option Terms
  unfolding is_in_force
  in_force s locale city =
      newest (λ t. t.created_at) (filter (is_in_force locale city) (rows s.terms))

  -- First the locale that was asked for, then the default locale if it is another one.
  pub in_force_by_locale : TermsState → String → Option String → Option Terms
  unfolding in_force
  in_force_by_locale s locale city = elim (in_force s locale city) [
    | some t ↦ some t
    | none ↦ if locale == config.default_locale then none else in_force s config.default_locale city
  ]

  -- The terms of the city come first; `none` stands for the exception.
  pub latest_for : TermsState → String → Option String → Option Terms
  unfolding in_force_by_locale
  latest_for s locale none = in_force_by_locale s locale none
  latest_for s locale (some city) = elim (in_force_by_locale s locale (some city)) [
    | some t ↦ some t
    | none ↦ in_force_by_locale s locale none
  ]

  pub get_latest_terms : TermsState → Option String → Option String → Option Terms
  unfolding latest_for
  get_latest_terms s locale city = latest_for s (text_or locale config.default_locale) (truthy city)

  version_for : TermsState → String → String → Option String → Option Terms
  unfolding is_version
  version_for s version locale none = find? (is_version version locale none) (rows s.terms)
  version_for s version locale (some city) =
      elim (find? (is_version version locale (some city)) (rows s.terms)) [
        | some t ↦ some t
        | none ↦ find? (is_version version locale none) (rows s.terms)
      ]

  pub get_terms_by_version : TermsState → String → Option String → Option String → Option Terms
  unfolding version_for
  get_terms_by_version s version locale city =
      version_for s version (text_or locale config.default_locale) (truthy city)

  -- The terms that an acceptance is about are for this city, or for all.
  pub is_for_city : TermsState → Option String → Acceptance → Bool
  unfolding has_id
  is_for_city s city a = elim (find? (has_id a.terms_id) (rows s.terms)) [
    | some t ↦ same t.city_id city
    | none ↦ false
  ]

  -- The user has accepted this version, in any locale.
  pub covers : TermsState → String → String → Option String → Acceptance → Bool
  unfolding is_for_city
  covers s user version city a = a.user_id == user && (a.version == version && is_for_city s city a)

  pub find_acceptance : TermsState → String → Terms → Option Acceptance
  find_acceptance s user t = find? (covers s user t.version t.city_id) (log.rows s.acceptances)

  pub check_latest : ℕ → TermsState → String → Option Terms → LatestCheck
  unfolding find_acceptance is_within_grace_period grace_period_end
  check_latest now s user none = record {
    has_accepted = true;
    terms_id = none;
    grace_period_ends_at = none;
  }
  check_latest now s user (some t) = elim (find_acceptance s user t) [
    | some a ↦ record { has_accepted = true; terms_id = some t.id; grace_period_ends_at = none }
    | none ↦ record {
      has_accepted = false;
      terms_id = some t.id;
      grace_period_ends_at =
          if is_within_grace_period now t then some (grace_period_end t) else none;
    }
  ]

  pub has_user_accepted_latest_terms :
      ℕ → TermsState → String → Option String → Option String → LatestCheck
  unfolding check_latest get_latest_terms
  has_user_accepted_latest_terms now s user locale city =
      check_latest now s user
        (get_latest_terms s (some (text_or locale config.default_locale)) city)

  pub belongs_to : String → Acceptance → Bool
  belongs_to user a = a.user_id == user

  -- `acceptance?.terms.version || null`.
  accepted_version_of : TermsState → Option Acceptance → Option String
  unfolding has_id
  accepted_version_of s none = none
  accepted_version_of s (some a) = elim (find? (has_id a.terms_id) (rows s.terms)) [
    | some t ↦ truthy (some t.version)
    | none ↦ none
  ]

  pub get_user_accepted_version : TermsState → String → Option String
  unfolding belongs_to accepted_version_of
  get_user_accepted_version s user =
      accepted_version_of s
        (newest (λ a. a.accepted_at) (filter (belongs_to user) (log.rows s.acceptances)))

  status_of : LatestCheck → Option String → Option Terms → AcceptanceStatus
  status_of c accepted latest = record {
    has_accepted = c.has_accepted;
    accepted_version = accepted;
    latest_version = elim latest [ some t ↦ truthy (some t.version) | none ↦ none ];
    needs_acceptance = not c.has_accepted;
    terms_id = elim latest [ some t ↦ truthy (some t.id) | none ↦ none ];
    grace_period_ends_at = c.grace_period_ends_at;
  }

  pub get_acceptance_status : ℕ → TermsState → String → Option String → AcceptanceStatus
  unfolding status_of has_user_accepted_latest_terms get_user_accepted_version get_latest_terms
  get_acceptance_status now s user locale =
      let target = some (text_or locale config.default_locale) in
      status_of (has_user_accepted_latest_terms now s user target none)
        (get_user_accepted_version s user) (get_latest_terms s target none)

  pub new_acceptance : ℕ → String → Terms → Option String → Option String → Acceptance
  new_acceptance now user t ip agent = record {
    user_id = user;
    terms_id = t.id;
    version = t.version;
    locale = t.locale;
    ip_address = ip;
    user_agent = agent;
    accepted_at = now;
  }

  -- A user accepts the same terms once: the unique key of the table.
  is_taken : String → String → Acceptance → Bool
  is_taken user id a = a.user_id == user && a.terms_id == id

  pub record_acceptance : Acceptance → TermsState → TermsState × Reply TermsError Acceptance
  unfolding is_taken
  record_acceptance a s = elim (find? (is_taken a.user_id a.terms_id) (log.rows s.acceptances)) [
    | some b ↦ (s, refuse key_taken)
    | none ↦ (record s { acceptances = log.insert a s.acceptances }, answer a)
  ]

  pub accept_new :
      Option Acceptance → Acceptance → TermsState → TermsState × Reply TermsError Acceptance
  unfolding record_acceptance
  accept_new (some old) a s = (s, answer old)
  accept_new none a s = record_acceptance a s

  pub accept_found :
      ℕ
      → String
      → Option String
      → Option String
      → Option Terms
      → TermsState
      → TermsState × Reply TermsError Acceptance
  unfolding accept_new new_acceptance find_acceptance
  accept_found now user ip agent none s = (s, refuse terms_not_found)
  accept_found now user ip agent (some t) s =
      if t.is_active
      then accept_new (find_acceptance s user t) (new_acceptance now user t ip agent) s
      else (s, refuse terms_inactive)

  pub accept_terms :
      ℕ
      → String
      → String
      → Option String
      → Option String
      → TermsState
      → TermsState × Reply TermsError Acceptance
  unfolding accept_found has_id
  accept_terms now user terms_id ip agent s =
      accept_found now user ip agent (find? (has_id terms_id) (rows s.terms)) s

  pub new_terms : ℕ → NewTerms → Terms
  new_terms now dto = record {
    id = dto.new_id;
    version = dto.version;
    title = dto.title;
    content = dto.content;
    locale = dto.locale;
    city_id = dto.city_id;
    is_active = given dto.is_active true;
    is_latest = given dto.is_latest false;
    grace_period_days = given dto.grace_period_days config.grace_period_days;
    created_at = now;
    created_by = dto.created_by;
  }

  -- The table without the marks that a new latest version takes over.
  pub unmark_if : Bool → (Terms → Bool) → Rows → Rows
  unmark_if true p t = update p unmark t
  unmark_if false p t = t

  -- The row is added, or its id is taken and `create` throws.
  pub add_terms : Terms → TermsState → TermsState × Reply TermsError Terms
  unfolding has_id
  add_terms t s = elim (find? (has_id t.id) (rows s.terms)) [
    | some old ↦ (s, refuse key_taken)
    | none ↦ (record s { terms = insert t s.terms }, answer t)
  ]

  pub create_unless : Option Terms → ℕ → NewTerms → TermsState → TermsState × Reply TermsError Terms
  unfolding add_terms new_terms unmark_if is_current unmark
  create_unless (some old) now dto s = (s, refuse version_exists)
  create_unless none now dto s = add_terms (new_terms now dto) (record s {
    terms = unmark_if (given dto.is_latest false) (is_current dto.locale dto.city_id) s.terms;
  })

  pub create_terms : ℕ → NewTerms → TermsState → TermsState × Reply TermsError Terms
  unfolding create_unless is_version
  create_terms now dto s =
      create_unless (find? (is_version dto.version dto.locale dto.city_id) (rows s.terms)) now dto s

  pub update_found :
      Option Terms → String → TermsPatch → TermsState → TermsState × Reply TermsError Terms
  unfolding unmark_if is_other_current unmark patch has_id
  update_found none id dto s = (s, refuse terms_not_found)
  update_found (some t) id dto s = (
    record s {
      terms =
          update (has_id id) (patch dto) (
            unmark_if (given dto.is_latest false) (is_other_current id t.locale t.city_id) s.terms);
    },
    answer (patch dto t),
  )

  pub update_terms : String → TermsPatch → TermsState → TermsState × Reply TermsError Terms
  unfolding update_found
  update_terms id dto s = update_found (find? (has_id id) (rows s.terms)) id dto s
