-- ===== src/Core/Occurrences/Window.antt =====
-- The occurrences that `computeUpcomingOccurrences` returns lie in the window and are sorted.
use kodi_backend_template_a.Base.{
  ℕ, zero, suc, ◌+◌, ◌*◌, ◌≤◌, ◌≡◌, refl, String, Bool, true, false, inl, inr, ◌⊎◌, ◌&&◌, ◌||◌,
  Option, none, some, List, [], ◌∷◌, arith, leb, ltb, In, All, All-append,
}
use kodi_backend_template_a.Core.{
  TimeInterval, ListingRecurrenceFreq, no_recurrence, daily, weekly, monthly, yearly,
  does_not_recur,
}
use kodi_backend_template_a.Core.Occurrences.{
  LocalTime, is_within, push_if, push_weekday, push_week, weekly_loop, step_loop, push_repeated,
  push_interval, push_intervals, repeat_limit, weekday_to_number, days_from_monday, day, advanced,
  is_on_weekday, max_iterations, monday_of, compute_upcoming_occurrences,
}
use kodi_backend_template_a.Core.Occurrences.Numbers.{
  Ascending, All-sorted_set, sorted_set-Ascending,
}

leb-le : (a b : ℕ) → leb a b ≡ true → a ≤ b
leb-le a b h = ground arith

All-push_if :
    (P : ℕ → Type 0) (b : Bool) (t : ℕ) (ts : List ℕ)
    → (b ≡ true → P t)
    → All P ts
    → All P (push_if b t ts)
All-push_if P true t ts h all = All-append P ts (t ∷ []) all (h refl, tt)
All-push_if P false t ts h all = all

all_four :
    (a b c d e : ℕ)
    → (leb a b && leb b c && (leb d b && leb b e)) ≡ true
    → (d ≤ b) × (b ≤ e) × (b ≤ c)
all_four a b c d e h = ground arith

All-branch :
    (P : ℕ → Type 0) (b : Bool) (ts us : List ℕ)
    → (b ≡ true → All P ts)
    → (b ≡ false → All P us)
    → All P (elim b [ true ↦ ts | false ↦ us ])
All-branch P true ts us h k = h refl
All-branch P false ts us h k = k refl

within : (t start end : ℕ) → is_within start end t ≡ true → (start ≤ t) × (t ≤ end)
within t start end h = ground arith

alone : (b : Bool) (t : ℕ) → Ascending (push_if b t [])
alone true t = (tt, tt)
alone false t = tt

in_step :
    (t start limit end : ℕ) (on : Bool)
    → (leb start t && on) ≡ true
    → (leb t limit && leb t end) ≡ true
    → (start ≤ t) × (t ≤ end) × (t ≤ limit)
in_step t start limit end on h k = ground arith

module _ (local : LocalTime) (window_start window_end : ℕ) where
  -- A date of the window, and not after a limit.
  abbrev Upto : ℕ → ℕ → Type 0
  Upto limit t = (window_start ≤ t) × (t ≤ window_end) × (t ≤ limit)

  module _ (P : ℕ → Type 0) (i : TimeInterval) (limit : ℕ)
      (keep : (t : ℕ) → Upto limit t → P t) where
    All-push_weekday :
        (week : ℕ) (n : Option ℕ) (ts : List ℕ)
        → All P ts
        → All P (push_weekday local window_start window_end i limit week n ts)
    All-push_weekday week none ts all = all
    All-push_weekday week (some n) ts all =
        let t = local.at_time_of (local.days_after week (days_from_monday n)) i.start in
        All-push_if P (leb i.start t && leb t limit && is_within window_start window_end t) t ts
          (λ h. keep t (all_four i.start t limit window_start window_end h)) all

    All-push_week :
        (week : ℕ) (names : List String) (ts : List ℕ)
        → All P ts
        → All P (push_week local window_start window_end i limit week names ts)
    All-push_week week [] ts all = all
    All-push_week week (name ∷ names) ts all =
        All-push_week week names
          (push_weekday local window_start window_end i limit week (weekday_to_number name) ts)
          (All-push_weekday week (weekday_to_number name) ts all)

    All-weekly_loop :
        (left week : ℕ) (ts : List ℕ)
        → All P ts
        → All P (weekly_loop local window_start window_end i limit left week ts)
    All-weekly_loop zero week ts all = all
    All-weekly_loop (suc left) week ts all =
        let next = week + i.interval * 7 * day in
        let pushed = push_week local window_start window_end i limit week i.weekdays ts in
        let here = All-push_week week i.weekdays ts all in
        All-branch P (ltb limit next || ltb window_end next) pushed
          (weekly_loop local window_start window_end i limit left next pushed) (λ stop. here)
          (λ go. All-weekly_loop left next pushed here)

    All-step_loop :
        (left t : ℕ) (ts : List ℕ)
        → All P ts
        → All P (step_loop local window_start window_end i limit left t ts)
    All-step_loop zero t ts all = all
    All-step_loop (suc left) t ts all =
        let on = is_on_weekday local window_start window_end i.weekdays t in
        let test = leb window_start t && on in
        let later = advanced local window_start window_end i.freq i.interval t in
        let pushed = push_if test t ts in
        All-branch P (leb t limit && leb t window_end)
          (step_loop local window_start window_end i limit left later pushed) ts
          (λ go. All-step_loop left later pushed (
            All-push_if P test t ts (λ h. keep t (in_step t window_start limit window_end on h go))
              all))
          (λ stop. all)

    All-push_repeated :
        (freq : ListingRecurrenceFreq) (names : List String) (ts : List ℕ)
        → All P ts
        → All P (push_repeated local window_start window_end i limit freq names ts)
    All-push_repeated weekly (name ∷ names) ts all =
        All-weekly_loop max_iterations (monday_of local window_start window_end i.start) ts all
    All-push_repeated weekly [] ts all = All-step_loop max_iterations i.start ts all
    All-push_repeated daily names ts all = All-step_loop max_iterations i.start ts all
    All-push_repeated monthly names ts all = All-step_loop max_iterations i.start ts all
    All-push_repeated yearly names ts all = All-step_loop max_iterations i.start ts all
    All-push_repeated no_recurrence names ts all = All-step_loop max_iterations i.start ts all

  -- What an interval gives: its start if it does not recur, else dates up to its limit.
  abbrev pub Gives : TimeInterval → ℕ → Type 0
  Gives i t =
      ((does_not_recur i.freq ≡ true) × (t ≡ i.start))
      ⊎ ((does_not_recur i.freq ≡ false) × (t ≤ repeat_limit i.repeat_until window_end))

  -- What a listing gives: the start of its event, or else what one of its intervals gives.
  abbrev pub Occurs : Option ℕ → List TimeInterval → ℕ → Type 0
  Occurs (some s) intervals t = t ≡ s
  Occurs none intervals t = (i : TimeInterval) × In i intervals × Gives i t

  abbrev Good : Option ℕ → List TimeInterval → ℕ → Type 0
  Good start intervals t = (window_start ≤ t) × (t ≤ window_end) × Occurs start intervals t

  All-push_interval :
      (is : List TimeInterval) (i : TimeInterval) (ts : List ℕ)
      → In i is
      → All (Good none is) ts
      → All (Good none is) (push_interval local window_start window_end i ts)
  All-push_interval is i ts here all =
      All-branch (Good none is) (does_not_recur i.freq)
        (push_if (is_within window_start window_end i.start) i.start ts)
        (push_repeated local window_start window_end i (repeat_limit i.repeat_until window_end)
          i.freq i.weekdays ts)
        (λ once.
          All-push_if (Good none is) (is_within window_start window_end i.start) i.start ts
            (λ h.
              let (from, upto) = within i.start window_start window_end h in
              (from, upto, (i, here, inl (once, refl))))
            all)
        (λ again.
          All-push_repeated (Good none is) i (repeat_limit i.repeat_until window_end)
            (λ t (from, upto, limited). (from, upto, (i, here, inr (again, limited)))) i.freq
            i.weekdays ts all)

  All-push_intervals :
      (is js : List TimeInterval) (ts : List ℕ)
      → ((i : TimeInterval) → In i js → In i is)
      → All (Good none is) ts
      → All (Good none is) (push_intervals local window_start window_end js ts)
  All-push_intervals is [] ts there all = all
  All-push_intervals is (j ∷ js) ts there all =
      All-push_intervals is js (push_interval local window_start window_end j ts)
        (λ i m. there i (inr m)) (All-push_interval is j ts (there j (inl refl)) all)

  -- The occurrences are strictly ascending, without a repetition; each lies in the window, and is
  -- the start of the event if there is one, else the start of an interval that does not recur, or
  -- a date up to the repeat limit of one that does.
  pub compute_upcoming_occurrences-Ascending :
      (event_start : Option ℕ) (intervals : List TimeInterval)
      → let ts = compute_upcoming_occurrences local window_start window_end event_start intervals in
        Ascending ts
        × All (λ t. (window_start ≤ t) × (t ≤ window_end) × Occurs event_start intervals t) ts
  unfolding compute_upcoming_occurrences
  compute_upcoming_occurrences-Ascending (some t) intervals = (
    alone (is_within window_start window_end t) t,
    All-push_if (Good (some t) intervals) (is_within window_start window_end t) t []
        (λ h. let (from, upto) = within t window_start window_end h in (from, upto, refl)) tt,
  )
  compute_upcoming_occurrences-Ascending none intervals =
      let ts = push_intervals local window_start window_end intervals [] in
      (
        sorted_set-Ascending ts,
        All-sorted_set (Good none intervals) ts
            (All-push_intervals intervals intervals [] (λ i m. m) tt),
      )
