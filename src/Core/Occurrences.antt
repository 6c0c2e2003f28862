-- ===== src/Core/Occurrences.antt =====
-- apps/core/src/modules/core/core.service.ts: `computeUpcomingOccurrences`. What a date is in the
-- time zone of the host is a parameter; the limit of 1000 iterations is the loops' own.
pub mod Numbers
pub mod Window
use kodi_backend_template_a.Base.{
  ℕ, zero, suc, ◌+◌, ◌-◌, ◌*◌, String, Bool, true, false, Option, none, some, List, [], ◌∷◌, ◌++◌,
  ◌&&◌, ◌||◌, ◌==◌, if◌then◌else◌, includes, ltb, leb, nat_eq,
}
use kodi_backend_template_a.Core.{
  TimeInterval, ListingRecurrenceFreq, no_recurrence, daily, weekly, monthly, yearly,
  does_not_recur,
}

-- The calendar of the host: `getDay`, `setDate` by a number of days back or ahead, `setHours` to
-- midnight and to the time of day of another date, `setMonth`, `setFullYear`, and the name of the
-- day as `toLocaleDateString` with `weekday: 'short'` gives it, in upper case.
pub record LocalTime : Type 0 where
  pub get_day : ℕ → ℕ
  pub days_before : ℕ → ℕ → ℕ
  pub days_after : ℕ → ℕ → ℕ
  pub midnight : ℕ → ℕ
  pub at_time_of : ℕ → ℕ → ℕ
  pub months_after : ℕ → ℕ → ℕ
  pub years_after : ℕ → ℕ → ℕ
  pub short_weekday : ℕ → String

abbrev pub day : ℕ
day = 24 * 60 * 60 * 1000

abbrev pub max_iterations : ℕ
max_iterations = 1000

abbrev pub is_within : ℕ → ℕ → ℕ → Bool
is_within window_start window_end t = leb window_start t && leb t window_end

abbrev pub weekday_to_number : String → Option ℕ
weekday_to_number name =
    if name == "Sunday"
    then some 0
    else if name == "Monday"
    then some 1
    else if name == "Tuesday"
    then some 2
    else if name == "Wednesday"
    then some 3
    else if name == "Thursday"
    then some 4
    else if name == "Friday"
    then some 5
    else if name == "Saturday"
    then some 6
    else none

abbrev pub days_from_monday : ℕ → ℕ
days_from_monday n = if nat_eq n 0 then 6 else n - 1

abbrev pub repeat_limit : Option ℕ → ℕ → ℕ
repeat_limit none window_end = window_end + 7 * day
repeat_limit (some t) window_end = t

abbrev pub push_if : Bool → ℕ → List ℕ → List ℕ
push_if true t occurrences = occurrences ++ t ∷ []
push_if false t occurrences = occurrences

-- A `Set` of numbers.
abbrev pub has : ℕ → List ℕ → Bool
has t [] = false
has t (x ∷ xs) = nat_eq t x || has t xs

abbrev pub add_all_numbers : List ℕ → List ℕ → List ℕ
add_all_numbers [] set = set
add_all_numbers (t ∷ ts) set = add_all_numbers ts (if has t set then set else set ++ t ∷ [])

-- `sort` in ascending order.
abbrev pub insert_sorted : ℕ → List ℕ → List ℕ
insert_sorted t [] = t ∷ []
insert_sorted t (x ∷ xs) = if leb t x then t ∷ x ∷ xs else x ∷ insert_sorted t xs

abbrev pub sort : List ℕ → List ℕ
sort [] = []
sort (t ∷ ts) = insert_sorted t (sort ts)

abbrev pub sorted_set : List ℕ → List ℕ
sorted_set ts = sort (add_all_numbers ts [])

module _ (local : LocalTime) (window_start window_end : ℕ) where
  open local use {
    get_day, days_before, days_after, midnight, at_time_of, months_after, years_after,
    short_weekday,
  }

  abbrev pub monday_of : ℕ → ℕ
  monday_of t =
      let d = get_day t in midnight (if nat_eq d 0 then days_before t 6 else days_before t (d - 1))

  -- The occurrences of one week, one for each weekday that has a number.
  abbrev pub push_weekday : TimeInterval → ℕ → ℕ → Option ℕ → List ℕ → List ℕ
  push_weekday i limit week none occurrences = occurrences
  push_weekday i limit week (some n) occurrences =
      let t = at_time_of (days_after week (days_from_monday n)) i.start in
      push_if (leb i.start t && leb t limit && is_within window_start window_end t) t occurrences

  abbrev pub push_week : TimeInterval → ℕ → ℕ → List String → List ℕ → List ℕ
  push_week i limit week [] occurrences = occurrences
  push_week i limit week (name ∷ names) occurrences =
      push_week i limit week names (push_weekday i limit week (weekday_to_number name) occurrences)

  abbrev pub weekly_loop : TimeInterval → ℕ → ℕ → ℕ → List ℕ → List ℕ
  weekly_loop i limit zero week occurrences = occurrences
  weekly_loop i limit (suc left) week occurrences =
      let pushed = push_week i limit week i.weekdays occurrences in
      let next = week + i.interval * 7 * day in
      elim (ltb limit next || ltb window_end next) [
        | true ↦ pushed
        | false ↦ weekly_loop i limit left next pushed
      ]

  abbrev pub advanced : ListingRecurrenceFreq → ℕ → ℕ → ℕ
  advanced daily interval t = t + interval * day
  advanced weekly interval t = t + interval * 7 * day
  advanced monthly interval t = months_after t interval
  advanced yearly interval t = years_after t interval
  advanced no_recurrence interval t = t

  abbrev pub is_on_weekday : List String → ℕ → Bool
  is_on_weekday [] t = true
  is_on_weekday (name ∷ names) t = includes (short_weekday t) (name ∷ names)

  abbrev pub step_loop : TimeInterval → ℕ → ℕ → ℕ → List ℕ → List ℕ
  step_loop i limit zero t occurrences = occurrences
  step_loop i limit (suc left) t occurrences = elim (leb t limit && leb t window_end) [
    | true ↦
        step_loop i limit left (advanced i.freq i.interval t)
          (push_if (leb window_start t && is_on_weekday i.weekdays t) t occurrences)
    | false ↦ occurrences
  ]

  abbrev pub push_repeated :
      TimeInterval → ℕ → ListingRecurrenceFreq → List String → List ℕ → List ℕ
  push_repeated i limit weekly (name ∷ names) occurrences =
      weekly_loop i limit max_iterations (monday_of i.start) occurrences
  push_repeated i limit _ _ occurrences = step_loop i limit max_iterations i.start occurrences

  abbrev pub push_interval : TimeInterval → List ℕ → List ℕ
  push_interval i occurrences = elim (does_not_recur i.freq) [
    | true ↦ push_if (is_within window_start window_end i.start) i.start occurrences
    | false ↦ push_repeated i (repeat_limit i.repeat_until window_end) i.freq i.weekdays occurrences
  ]

  abbrev pub push_intervals : List TimeInterval → List ℕ → List ℕ
  push_intervals [] occurrences = occurrences
  push_intervals (i ∷ is) occurrences = push_intervals is (push_interval i occurrences)

  unfoldable pub compute_upcoming_occurrences : Option ℕ → List TimeInterval → List ℕ
  compute_upcoming_occurrences (some t) intervals =
      push_if (is_within window_start window_end t) t []
  compute_upcoming_occurrences none intervals = sorted_set (push_intervals intervals [])
