-- ===== src/Core/Reminders/Rounds.antt =====
-- Induction on a run of the job: what each question and each reminder keeps, the run keeps.
use kodi_backend_template_a.Base.{
  ℕ, ◌+◌, ◌*◌, ◌≡◌, refl, sym, ap, ◌∙◌, String, Bool, true, false, inl, inr, ◌⊎◌, ◌==◌, Option,
  none, some, List, [], ◌∷◌, Bool-cases, filter, find?, In, In-of_filter, eq_of_==,
}
use kodi_backend_template_a.Core.{Listing, UserFavorite, ListingReminderType, h24, h2}
use kodi_backend_template_a.Core.Notices.{
  ListingReminder, enabled_by, hour, is_reminder, find_cached, is_visible, is_in_window,
}
use kodi_backend_template_a.Core.Occurrences.{compute_upcoming_occurrences, push_if, is_within}
use kodi_backend_template_a.Core.Reminders.{
  ReminderServices, ReminderRun, Round, send_reminder, remind_unless, remind_each, ask,
  remind_start, remind_if, remind_visible, remind_all,
}

pub find_cached_cons :
    (user u : String) (b : Bool) (cache : List (String × Bool)) (c : Bool)
    → find_cached user ((u, b) ∷ cache) ≡ some c
    → ((u ≡ user) × (b ≡ c)) ⊎ (find_cached user cache ≡ some c)
find_cached_cons user u b cache c h = elim (Bool-cases (u == user)) [
  | inl hit ↦ let e : some b ≡ some c = rw hit at h in inl (eq_of_== u user hit, cc)
  | inr miss ↦ let e : find_cached user cache ≡ some c = rw miss at h in inr e
]

In-push_if : (b : Bool) (t u : ℕ) → In u (push_if b t []) → u ≡ t
In-push_if true t u (inl e) = e
In-push_if true t u (inr m) = absurd m
In-push_if false t u m = absurd m

module _ (services : ReminderServices) where
  open services use {local, reminders, locks, user_of, city_name_of}
  open reminders use {rows}

  -- What the cache has of a user is what the users service answers.
  abbrev pub CacheIsValid : List (String × Bool) → Type 0
  CacheIsValid cache =
      (user : String) (b : Bool) → find_cached user cache ≡ some b → b ≡ enabled_by (user_of user)

  -- What makes the job remind a user of a listing.
  abbrev pub Due : ReminderRun → String → Listing → ℕ → ListingReminderType → Type 0
  Due run user l t type =
      (is_visible l ≡ true)
      × (enabled_by (user_of user) ≡ true)
      × (l.event_start ≡ some t)
      × (is_in_window type run.triggered_at t ≡ true)

  abbrev R : Type 0
  R = Round services

  module _ (Q : R → Type 0) (run : ReminderRun) (all : List (UserFavorite × Listing))
      (asks : (user : String) (r : R)
        → find_cached user r.cache ≡ none
        → Q r
        → Q (ask services user none r).0)
      (sends : (f : UserFavorite) (l : Listing) (t : ℕ) (type : ListingReminderType) (r : R)
        → In (f, l) all
        → Due run f.user_id l t type
        → find? (is_reminder f.user_id l.id t type) (rows r.stored) ≡ none
        → Q r
        → Q (send_reminder services run f.user_id l t type r)) where
    abbrev Holds : R → Type 0
    Holds r = Q r × CacheIsValid r.cache

    unless-Holds :
        (f : UserFavorite) (l : Listing) (t : ℕ) (type : ListingReminderType) (r : R)
        (found : Option ListingReminder)
        → find? (is_reminder f.user_id l.id t type) (rows r.stored) ≡ found
        → In (f, l) all
        → Due run f.user_id l t type
        → Holds r
        → Holds (remind_unless services run f.user_id l t type found r)
    unless-Holds f l t type r (some x) e there due h = h
    unless-Holds f l t h24 r none e there due (q, valid) = (sends f l t h24 r there due e q, valid)
    unless-Holds f l t h2 r none e there due (q, valid) = (sends f l t h2 r there due e q, valid)

    each-Holds :
        (f : UserFavorite) (l : Listing) (type : ListingReminderType) (ts : List ℕ) (r : R)
        → ((t : ℕ) → In t ts → Due run f.user_id l t type)
        → In (f, l) all
        → Holds r
        → Holds (remind_each services run f.user_id l type ts r)
    each-Holds f l type [] r due there h = h
    each-Holds f l type (t ∷ ts) r due there h =
        each-Holds f l type ts _ (λ u m. due u (inr m)) there
          (unless-Holds f l t type r _ refl there (due t (inl refl)) h)

    start-Holds :
        (f : UserFavorite) (l : Listing) (start : Option ℕ) (r : R)
        → l.event_start ≡ start
        → is_visible l ≡ true
        → enabled_by (user_of f.user_id) ≡ true
        → In (f, l) all
        → Holds r
        → Holds (remind_start services run f.user_id l start r)
    unfolding compute_upcoming_occurrences
    start-Holds f l none r e visible enabled there h = h
    start-Holds f l (some t) r e visible enabled there h =
        let now = run.triggered_at in
        let inside = is_within (now + 2 * hour) (now + 24 * hour + hour) t in
        let due : (type : ListingReminderType) (u : ℕ)
            → In u (filter (is_in_window type now) (push_if inside t []))
            → Due run f.user_id l u type =
          λ type u m.
            let (pushed, hit) = In-of_filter (is_in_window type now) (push_if inside t []) u m in
            (visible, enabled, e ∙ ap some (sym (In-push_if inside t u pushed)), hit) in
        each-Holds f l h2 _ _ (due h2) there (each-Holds f l h24 _ r (due h24) there h)

    ask-Holds :
        (user : String) (cached : Option Bool) (r : R)
        → find_cached user r.cache ≡ cached
        → Holds r
        → let (r', b) = ask services user cached r in Holds r' × (b ≡ enabled_by (user_of user))
    ask-Holds user (some b) r e (q, valid) = ((q, valid), valid user b e)
    ask-Holds user none r e (q, valid) = (
      (
        asks user r e q,
        λ u b found. elim (find_cached_cons u user (enabled_by (user_of user)) r.cache b found) [
          | inl (same, value) ↦ sym value ∙ ap (λ w. enabled_by (user_of w)) same
          | inr before ↦ valid u b before
        ],
      ),
      refl,
    )

    if-Holds :
        (f : UserFavorite) (l : Listing) (enabled : Bool) (r : R)
        → enabled ≡ enabled_by (user_of f.user_id)
        → is_visible l ≡ true
        → In (f, l) all
        → Holds r
        → Holds (remind_if services enabled run f.user_id l r)
    if-Holds f l false r e visible there h = h
    if-Holds f l true r e visible there h =
        start-Holds f l l.event_start r refl visible (sym e) there h

    visible-Holds :
        (f : UserFavorite) (l : Listing) (visible : Bool) (r : R)
        → is_visible l ≡ visible
        → In (f, l) all
        → Holds r
        → Holds (remind_visible services visible run f.user_id l r)
    visible-Holds f l false r e there h = h
    visible-Holds f l true r e there h =
        let (kept, same) = ask-Holds f.user_id _ r refl h in if-Holds f l _ _ same e there kept

    pub remind_all-Holds :
        (fs : List (UserFavorite × Listing)) (r : R)
        → ((p : UserFavorite × Listing) → In p fs → In p all)
        → Holds r
        → Holds (remind_all services run fs r)
    remind_all-Holds [] r there h = h
    remind_all-Holds ((f, l) ∷ fs) r there h =
        remind_all-Holds fs _ (λ p m. there p (inr m))
          (visible-Holds f l _ r refl (there (f, l) (inl refl)) h)
