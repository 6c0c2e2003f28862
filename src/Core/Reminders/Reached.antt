-- ===== src/Core/Reminders/Reached.antt =====
-- A run that has the lock reminds every user for whom a reminder is due.
use kodi_backend_template_a.Base.{
  ℕ, ◌+◌, ◌*◌, ◌≡◌, refl, sym, ap, subst, ◌∙◌, String, Bool, true, false, inl, inr, Option, none,
  some, List, [], ◌∷◌, arith, eq_iff, filter, find?, find?-append, find?-append_last, In,
}
use kodi_backend_template_a.Core.{Listing, UserFavorite, ListingReminderType, h24, h2}
use kodi_backend_template_a.Core.Notices.{
  ListingReminder, enabled_by, is_reminder, find_cached, favorites_with_listings, hour,
  is_in_window, lock_key, is_visible,
}
use kodi_backend_template_a.Core.Occurrences.{compute_upcoming_occurrences, is_within, push_if}
use kodi_backend_template_a.Core.Reminders.{
  ReminderServices, ReminderRun, Round, ReminderState, send_reminder, remind_unless, remind_each,
  ask, remind_start, remind_if, remind_asked, remind_visible, remind_all, new_round, process_locked,
  process_favorite_event_reminders,
}
use kodi_backend_template_a.Core.Reminders.Rounds.{Due, CacheIsValid, remind_all-Holds}

is_reminder_refl :
    (user listing : String) (t : ℕ) (type : ListingReminderType)
    → is_reminder user listing t type (record {
      user_id = user;
      listing_id = listing;
      occurrence_start = t;
      reminder_type = type;
    })
      ≡ true
is_reminder_refl user listing t h24 = ground (arith, eq_iff user user, eq_iff listing listing)
is_reminder_refl user listing t h2 = ground (arith, eq_iff user user, eq_iff listing listing)

-- Both windows of the reminders lie in the window of the search.
inside :
    (type : ListingReminderType) (now t : ℕ)
    → is_in_window type now t ≡ true
    → is_within (now + 2 * hour) (now + 24 * hour + hour) t ≡ true
inside h24 now t h = ground arith
inside h2 now t h = ground arith

module _ (services : ReminderServices) where
  open services use {local, reminders, locks, user_of, city_name_of}
  open reminders use {rows, insert, rows-insert}
  open locks use {Keys, get, setex, set_nx, set_nx-absent}

  abbrev R : Type 0
  R = Round services

  module _ (user listing : String) (due_at : ℕ) (due_type : ListingReminderType) where
    abbrev pub Found : R → Type 0
    Found r =
        (x : ListingReminder) × (find? (is_reminder user listing due_at due_type) (rows r.stored)
          ≡ some x)

    send-stays :
        (run : ReminderRun) (u : String) (l : Listing) (t : ℕ) (type : ListingReminderType) (r : R)
        → Found r
        → Found (send_reminder services run u l t type r)
    send-stays run u l t h24 r (x, e) = (
      x,
      ap (find? (is_reminder user listing due_at due_type)) (rows-insert _ r.stored)
          ∙ find?-append (is_reminder user listing due_at due_type) (rows r.stored) _ e,
    )
    send-stays run u l t h2 r (x, e) = (
      x,
      ap (find? (is_reminder user listing due_at due_type)) (rows-insert _ r.stored)
          ∙ find?-append (is_reminder user listing due_at due_type) (rows r.stored) _ e,
    )

    unless-stays :
        (run : ReminderRun) (u : String) (l : Listing) (t : ℕ) (type : ListingReminderType)
        (found : Option ListingReminder) (r : R)
        → Found r
        → Found (remind_unless services run u l t type found r)
    unless-stays run u l t type (some x) r h = h
    unless-stays run u l t type none r h = send-stays run u l t type r h

    each-stays :
        (run : ReminderRun) (u : String) (l : Listing) (type : ListingReminderType) (ts : List ℕ)
        (r : R)
        → Found r
        → Found (remind_each services run u l type ts r)
    each-stays run u l type [] r h = h
    each-stays run u l type (t ∷ ts) r h =
        each-stays run u l type ts _ (unless-stays run u l t type _ r h)

  module _ (run : ReminderRun) (user : String) (l : Listing) (t : ℕ) where
    unless-reached :
        (type : ListingReminderType) (found : Option ListingReminder) (r : R)
        → find? (is_reminder user l.id t type) (rows r.stored) ≡ found
        → Found user l.id t type (remind_unless services run user l t type found r)
    unless-reached type (some x) r e = (x, e)
    unless-reached h24 none r e =
        let (x, found) =
          find?-append_last (is_reminder user l.id t h24) (rows r.stored) _
            (is_reminder_refl user l.id t h24) in
        (x, ap (find? (is_reminder user l.id t h24)) (rows-insert _ r.stored) ∙ found)
    unless-reached h2 none r e =
        let (x, found) =
          find?-append_last (is_reminder user l.id t h2) (rows r.stored) _
            (is_reminder_refl user l.id t h2) in
        (x, ap (find? (is_reminder user l.id t h2)) (rows-insert _ r.stored) ∙ found)

    start-reached :
        (type : ListingReminderType) (r : R)
        → is_in_window type run.triggered_at t ≡ true
        → Found user l.id t type (remind_start services run user l (some t) r)
    unfolding compute_upcoming_occurrences
    start-reached h24 r h =
        let now = run.triggered_at in
        let one : filter (is_in_window h24 now)
              (push_if (is_within (now + 2 * hour) (now + 24 * hour + hour) t) t [])
            ≡ t ∷ [] =
          rw (inside h24 now t h, h) refl in
        let late =
          filter (is_in_window h2 now)
            (push_if (is_within (now + 2 * hour) (now + 24 * hour + hour) t) t []) in
        let step = λ (ts : List ℕ). remind_each services run user l h24 ts r in
        let here : Found user l.id t h24 (step (t ∷ [])) = unless-reached h24 _ r refl in
        each-stays user l.id t h24 run user l h2 late
          (step (
            filter (is_in_window h24 now)
              (push_if (is_within (now + 2 * hour) (now + 24 * hour + hour) t) t [])))
          (subst (λ ts. Found user l.id t h24 (step ts)) (sym one) here)
    start-reached h2 r h =
        let now = run.triggered_at in
        let one : filter (is_in_window h2 now)
              (push_if (is_within (now + 2 * hour) (now + 24 * hour + hour) t) t [])
            ≡ t ∷ [] =
          rw (inside h2 now t h, h) refl in
        let early =
          filter (is_in_window h24 now)
            (push_if (is_within (now + 2 * hour) (now + 24 * hour + hour) t) t []) in
        let before = remind_each services run user l h24 early r in
        subst (λ ts. Found user l.id t h2 (remind_each services run user l h2 ts before)) (sym one)
          (unless-reached h2 _ before refl)

    if-reached :
        (type : ListingReminderType) (enabled : Bool) (start : Option ℕ) (r : R)
        → enabled ≡ true
        → start ≡ some t
        → is_in_window type run.triggered_at t ≡ true
        → l.event_start ≡ start
        → Found user l.id t type (remind_if services enabled run user l r)
    if-reached type true start r e f h g =
        subst (λ o. Found user l.id t type (remind_start services run user l o r)) (sym (g ∙ f))
          (start-reached type r h)
    if-reached type false start r e f h g = cc

    asked-reached :
        (type : ListingReminderType) (cached : Option Bool) (r : R)
        → Due services run user l t type
        → CacheIsValid services r.cache
        → find_cached user r.cache ≡ cached
        → Found user l.id t type (remind_asked services run user l (ask services user cached r))
    asked-reached type (some b) r (visible, enabled, start, h) valid e =
        if-reached type b (some t) r (valid user b e ∙ enabled) refl h start
    asked-reached type none r (visible, enabled, start, h) valid e =
        if-reached type (enabled_by (user_of user)) (some t) _ enabled refl h start

    visible-reached :
        (type : ListingReminderType) (r : R)
        → Due services run user l t type
        → CacheIsValid services r.cache
        → Found user l.id t type (remind_visible services (is_visible l) run user l r)
    visible-reached type r due valid =
        subst (λ b. Found user l.id t type (remind_visible services b run user l r)) (sym due.0)
          (asked-reached type _ r due valid refl)

  all-reached :
      (run : ReminderRun) (fs : List (UserFavorite × Listing)) (f : UserFavorite) (l : Listing)
      (t : ℕ) (type : ListingReminderType) (r : R)
      → In (f, l) fs
      → Due services run f.user_id l t type
      → CacheIsValid services r.cache
      → Found f.user_id l.id t type (remind_all services run fs r)
  all-reached run [] f l t type r there due valid = absurd there
  all-reached run ((g, k) ∷ fs) f l t type r there due valid =
      let r' = remind_visible services (is_visible k) run g.user_id k r in
      let valid' : CacheIsValid services r'.cache =
        (remind_all-Holds services (λ _. Unit) run ((g, k) ∷ []) (λ _ _ _ _. tt)
          (λ _ _ _ _ _ _ _ _ _. tt) ((g, k) ∷ []) r (λ p m. m) (tt, valid)).1 in
      elim there [
        | inl e ↦
            let due' = subst (λ p. Due services run p.0.user_id p.1 t type) e due in
            let here : Found g.user_id k.id t type (remind_all services run fs r') =
              (remind_all-Holds services (Found g.user_id k.id t type) run fs (λ _ _ _ q. q)
                (λ f' l' t' type' s _ _ _ q.
                  send-stays g.user_id k.id t type run f'.user_id l' t' type' s q)
                fs r' (λ p m. m) (visible-reached run g.user_id k t type r due' valid, valid')).0 in
            subst (λ p. Found p.0.user_id p.1.id t type (remind_all services run fs r')) (sym e)
              here
        | inr m ↦ all-reached run fs f l t type r' m due valid'
      ]

  -- A run that finds the lock free leaves a row for every reminder that is due: one for a favorite
  -- whose listing is approved, public and not archived, whose user has not switched the
  -- notifications off, and whose event starts in the window of the reminder's type.
  pub process_favorite_event_reminders-Found :
      (run : ReminderRun) (s : ReminderState services) (f : UserFavorite) (l : Listing) (t : ℕ)
      (type : ListingReminderType)
      → get s.keys run.clock lock_key ≡ none
      → In (f, l) (favorites_with_listings run.favorites run.listings)
      → Due services run f.user_id l t type
      → let s' = (process_favorite_event_reminders services run s).0 in
        (x : ListingReminder) × (find? (is_reminder f.user_id l.id t type) (rows s'.stored)
          ≡ some x)
  unfolding process_favorite_event_reminders
  process_favorite_event_reminders-Found run s f l t type free there due =
      let favorites = favorites_with_listings run.favorites run.listings in
      let reached =
        all-reached run favorites f l t type (new_round services s) there due (λ u b e. cc) in
      subst
        (λ locked.
          (x : ListingReminder) × (find? (is_reminder f.user_id l.id t type)
              (rows (process_locked services run locked s).0.stored)
            ≡ some x))
        (sym (set_nx-absent s.keys run.clock 300 lock_key "1" free)) reached
