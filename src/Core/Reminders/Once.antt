-- ===== src/Core/Reminders/Once.antt =====
-- No reminder is sent twice, however often and whenever the job runs.
use kodi_backend_template_a.Base.{
  ℕ, ◌+◌, ◌≤◌, ◌≡◌, refl, sym, subst, String, Bool, true, false, ◌&&◌, ◌==◌, none, List, [], ◌∷◌,
  ◌++◌, arith, eq_iff, if◌then◌else◌, nat_eq, length, filter, find?, find?-none_of,
  length-filter-append_one, length-filter-insert,
}
use kodi_backend_template_a.Core.{Listing, ListingReminderType, h24, h2}
use kodi_backend_template_a.Core.Notices.{
  ListingReminder, ReminderNotification, is_reminder, same_type, translation_key_of,
  favorites_with_listings, lock_key,
}
use kodi_backend_template_a.Core.Reminders.Rounds.{remind_all-Holds}
use kodi_backend_template_a.Core.Reminders.{
  ReminderServices, ReminderRun, Round, ReminderState, new_reminder, notification_for,
  send_reminder, count_sent, new_round, round_of, process_locked, process_favorite_event_reminders,
  process_all,
}

abbrev pub is_notice : String → String → ℕ → ListingReminderType → ReminderNotification → Bool
is_notice user listing t type n =
    n.user_id == user
    && n.listing_id == listing
    && nat_eq n.occurrence_start t
    && n.translation_key == translation_key_of type

-- Each reminder has one row at most, and was sent no more often than it has rows.
abbrev pub SentOnce : List ListingReminder → List ReminderNotification → Type 0
SentOnce stored sent =
    (user listing : String) (t : ℕ) (type : ListingReminderType)
    → (length (filter (is_reminder user listing t type) stored) ≤ 1)
      × (length (filter (is_notice user listing t type) sent)
          ≤ length (filter (is_reminder user listing t type) stored))

same_type-key :
    (a b : ListingReminderType) → (translation_key_of a == translation_key_of b) ≡ same_type a b
same_type-key h24 h24 = refl
same_type-key h24 h2 = refl
same_type-key h2 h24 = refl
same_type-key h2 h2 = refl

same_type_trans :
    (a b c : ListingReminderType)
    → same_type a b ≡ true
    → same_type c b ≡ true
    → same_type a c ≡ true
same_type_trans h24 h24 h24 e f = refl
same_type_trans h24 h24 h2 e f = cc
same_type_trans h24 h2 c e f = cc
same_type_trans h2 h24 c e f = cc
same_type_trans h2 h2 h24 e f = cc
same_type_trans h2 h2 h2 e f = refl

-- Rows that meet one key meet every key that one of them meets.
same_key :
    (user user' listing listing' : String) (t t' : ℕ) (type type' : ListingReminderType)
    (r : ListingReminder)
    → is_reminder user' listing' t' type' (record {
      user_id = user;
      listing_id = listing;
      occurrence_start = t;
      reminder_type = type;
    })
      ≡ true
    → is_reminder user' listing' t' type' r ≡ true
    → is_reminder user listing t type r ≡ true
same_key user user' listing listing' t t' type type' r h k = ground (
  arith,
  eq_iff user user',
  eq_iff listing listing',
  eq_iff r.user_id user',
  eq_iff r.user_id user,
  eq_iff r.listing_id listing',
  eq_iff r.listing_id listing,
  same_type_trans r.reminder_type type' type,
)

grow :
    (b c : Bool) (m n m' n' : ℕ)
    → b ≡ c
    → m' ≡ m + (if b then 1 else 0)
    → n' ≡ n + (if c then 1 else 0)
    → m ≤ n
    → m' ≤ n'
grow true true m n m' n' e f g h = omega arith
grow false false m n m' n' e f g h = omega arith
grow true false m n m' n' e f g h = cc
grow false true m n m' n' e f g h = cc

-- A reminder that has no row yet is stored and sent.
SentOnce-new :
    (stored : List ListingReminder) (sent : List ReminderNotification) (user listing : String)
    (t : ℕ) (type : ListingReminderType) (n : ReminderNotification)
    → n.user_id ≡ user
    → n.listing_id ≡ listing
    → n.occurrence_start ≡ t
    → n.translation_key ≡ translation_key_of type
    → find? (is_reminder user listing t type) stored ≡ none
    → SentOnce stored sent
    → let r : ListingReminder = record {
      user_id = user;
      listing_id = listing;
      occurrence_start = t;
      reminder_type = type;
    } in
      SentOnce (stored ++ r ∷ []) (sent ++ n ∷ [])
SentOnce-new stored sent user listing t type n eu el et ek free h = λ user' listing' t' type'.
    let r : ListingReminder = record {
      user_id = user;
      listing_id = listing;
      occurrence_start = t;
      reminder_type = type;
    } in
    let row = is_reminder user' listing' t' type' in
    let notice = is_notice user' listing' t' type' in
    let (one, fewer) = h user' listing' t' type' in
    let same : notice n ≡ row r = rw (eu, el, et, ek, same_type-key type type') refl in
    (
      length-filter-insert row stored r one (λ hit.
          find?-none_of (is_reminder user listing t type) row stored
            (λ a k. same_key user user' listing listing' t t' type type' a hit k) free),
      grow (notice n) (row r) _ _ _ _ same (length-filter-append_one notice sent n)
          (length-filter-append_one row stored r) fewer,
    )

module _ (services : ReminderServices) where
  open services use {local, reminders, locks, user_of, city_name_of}
  open reminders use {rows, rows-insert}
  open locks use {Keys, set_nx}

  abbrev State : Type 0
  State = ReminderState services

  abbrev Kept : Round services → Type 0
  Kept r = SentOnce (rows r.stored) r.sent

  send-Kept :
      (run : ReminderRun) (user : String) (l : Listing) (t : ℕ) (type : ListingReminderType)
      (r : Round services)
      → find? (is_reminder user l.id t type) (rows r.stored) ≡ none
      → Kept r
      → Kept (send_reminder services run user l t type r)
  send-Kept run user l t type r free h =
      let row = new_reminder services user l t type in
      let n = notification_for services run user l t type in
      let once : SentOnce (rows (reminders.insert row r.stored)) (r.sent ++ n ∷ []) =
        subst (λ xs. SentOnce xs (r.sent ++ n ∷ [])) (sym (rows-insert row r.stored))
          (SentOnce-new (rows r.stored) r.sent user l.id t type n refl refl refl refl free h) in
      elim type
        as (λ k. Kept (
          count_sent services k
            (record r { stored = reminders.insert row r.stored; sent = r.sent ++ n ∷ [] }))) [
              | h24 ↦ once
              | h2 ↦ once
            ]

  round-SentOnce :
      (run : ReminderRun) (s : State)
      → SentOnce (rows s.stored) s.sent
      → Kept (round_of services run s)
  round-SentOnce run s h =
      let favorites = favorites_with_listings run.favorites run.listings in
      (remind_all-Holds services Kept run favorites (λ user r free k. k)
        (λ f l t type r there due free k. send-Kept run f.user_id l t type r free k) favorites
        (new_round services s) (λ p m. m) (h, λ user b e. cc)).0

  locked-SentOnce :
      (run : ReminderRun) (locked : Keys × Bool) (s : State)
      → SentOnce (rows s.stored) s.sent
      → let s' = (process_locked services run locked s).0 in SentOnce (rows s'.stored) s'.sent
  locked-SentOnce run (keys, true) s h = round-SentOnce run s h
  locked-SentOnce run (keys, false) s h = h

  -- Whenever and however often the job runs, with whatever favorites, listings and states of the
  -- lock, where the users service answers alike in all runs: if each reminder had one row at most
  -- and was sent no more often than it had rows, so it is after the runs. No user is reminded twice
  -- of the same occurrence of a listing by the same type of reminder.
  pub process_all-SentOnce :
      (runs : List ReminderRun) (s : State)
      → SentOnce (rows s.stored) s.sent
      → let s' = process_all services runs s in SentOnce (rows s'.stored) s'.sent
  unfolding process_favorite_event_reminders
  process_all-SentOnce [] s h = h
  process_all-SentOnce (run ∷ runs) s h =
      process_all-SentOnce runs _
        (locked-SentOnce run (set_nx s.keys run.clock lock_key 300 "1") s h)
