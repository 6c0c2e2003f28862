-- ===== src/Core/Reminders/Sent.antt =====
-- Whom a run of the job reminds, and how often it asks the users service.
use kodi_backend_template_a.Base.{
  ℕ, ◌≤◌, ◌≡◌, subst, String, Bool, ◌⊎◌, inl, inr, ◌==◌, Option, none, some, List, arith, eq_of_==,
  Bool-cases, length, filter, length-filter-append_one, In, In-append,
}
use kodi_backend_template_a.Core.{Listing, UserFavorite, ListingReminderType, h24, h2}
use kodi_backend_template_a.Core.Notices.{
  ReminderNotification, find_cached, favorites_with_listings,
}
use kodi_backend_template_a.Core.Reminders.{
  ReminderServices, ReminderRun, Round, ReminderState, notification_for, send_reminder, ask,
  new_round, round_of,
}
use kodi_backend_template_a.Core.Reminders.Rounds.{Due, remind_all-Holds}

module _ (services : ReminderServices) where
  open services use {local, reminders, locks, user_of, city_name_of}

  abbrev State : Type 0
  State = ReminderState services

  abbrev R : Type 0
  R = Round services

  -- The notification is one for a favorite that is due.
  abbrev pub Planned : ReminderRun → List (UserFavorite × Listing) → ReminderNotification → Type 0
  Planned run favorites n =
      (f : UserFavorite) × (l : Listing) × (t : ℕ) × (type : ListingReminderType) × In (f, l)
        favorites
      × Due services run f.user_id l t type
      × (n ≡ notification_for services run f.user_id l t type)

  abbrev Only : ReminderRun → State → R → Type 0
  Only run s r =
      (n : ReminderNotification)
      → In n r.sent
      → In n s.sent ⊎ Planned run (favorites_with_listings run.favorites run.listings) n

  sent-Only :
      (run : ReminderRun) (s : State) (f : UserFavorite) (l : Listing) (t : ℕ)
      (type : ListingReminderType) (r : R)
      → In (f, l) (favorites_with_listings run.favorites run.listings)
      → Due services run f.user_id l t type
      → Only run s r
      → Only run s (send_reminder services run f.user_id l t type r)
  sent-Only run s f l t h24 r there due h n m = elim ((In-append n r.sent _).0 m) [
    | inl before ↦ h n before
    | inr k ↦ elim k [ inl e ↦ inr (f, l, t, h24, there, due, e) | inr e ↦ absurd e ]
  ]
  sent-Only run s f l t h2 r there due h n m = elim ((In-append n r.sent _).0 m) [
    | inl before ↦ h n before
    | inr k ↦ elim k [ inl e ↦ inr (f, l, t, h2, there, due, e) | inr e ↦ absurd e ]
  ]

  -- Each notification that a run sends is for a favorite whose listing is approved, public and not
  -- archived, whose user has not switched the notifications off, and whose event starts 24 or 2
  -- hours after the run, or up to an hour later, as the type of the reminder says. The cached
  -- answers decide as the users service's own would.
  pub round_of-Due :
      (run : ReminderRun) (s : State) (n : ReminderNotification)
      → In n (round_of services run s).sent
      → In n s.sent ⊎ Planned run (favorites_with_listings run.favorites run.listings) n
  round_of-Due run s =
      let favorites = favorites_with_listings run.favorites run.listings in
      (remind_all-Holds services (Only run s) run favorites (λ user r free k. k)
        (λ f l t type r there due free k. sent-Only run s f l t type r there due k) favorites
        (new_round services s) (λ p m. m) (λ n m. inl m, λ user b e. cc)).0

  -- A user who was asked for is in the cache.
  abbrev one_if_cached : Option Bool → ℕ
  one_if_cached none = 0
  one_if_cached (some b) = 1

  abbrev AskedOnce : R → Type 0
  AskedOnce r =
      (user : String)
      → length (filter (λ u. u == user) r.asked) ≤ one_if_cached (find_cached user r.cache)

  ask-AskedOnce :
      (user : String) (r : R)
      → find_cached user r.cache ≡ none
      → AskedOnce r
      → AskedOnce (ask services user none r).0
  ask-AskedOnce user r free h u =
      let before : length (filter (λ v. v == u) r.asked) ≤ one_if_cached (find_cached u r.cache) =
        h u in
      let grown = length-filter-append_one (λ v. v == u) r.asked user in
      elim (Bool-cases (user == u)) [
        | inl hit ↦
            let absent : find_cached u r.cache ≡ none =
              subst (λ v. find_cached v r.cache ≡ none) (eq_of_== user u hit) free in
            let few : length (filter (λ v. v == u) r.asked) ≤ 0 =
              subst (λ o. length (filter (λ v. v == u) r.asked) ≤ one_if_cached o) absent before in
            rw (grown, hit) (omega arith)
        | inr miss ↦ rw (grown, miss) (omega arith)
      ]

  send-AskedOnce :
      (run : ReminderRun) (user : String) (l : Listing) (t : ℕ) (type : ListingReminderType) (r : R)
      → AskedOnce r
      → AskedOnce (send_reminder services run user l t type r)
  send-AskedOnce run user l t h24 r h = h
  send-AskedOnce run user l t h2 r h = h

  at_most_one : (o : Option Bool) (n : ℕ) → n ≤ one_if_cached o → n ≤ 1
  at_most_one none n h = omega arith
  at_most_one (some b) n h = h

  -- A run asks the users service for each user once at most.
  pub round_of-AskedOnce :
      (run : ReminderRun) (s : State) (user : String)
      → length (filter (λ u. u == user) (round_of services run s).asked) ≤ 1
  round_of-AskedOnce run s user =
      let favorites = favorites_with_listings run.favorites run.listings in
      at_most_one _ _ (
        (remind_all-Holds services AskedOnce run favorites ask-AskedOnce
            (λ f l t type r there due free k. send-AskedOnce run f.user_id l t type r k) favorites
            (new_round services s) (λ p m. m) (λ u. omega arith, λ user b e. cc)).0
          user)
