-- ===== src/Users/Terms/Latest.antt =====
-- How many versions of the terms are marked as the latest in terms.service.ts, and which one a user
-- is shown.
use kodi_backend_template_a.Base.{
  ◌≤◌, String, ◌≡◌, sym, inl, inr, Bool, true, false, Option, none, some, List, [], ◌∷◌, ◌++◌, ◌∙◌,
  map, arith, eq_iff, Bool-cases, filter, find?, length, same, eq_of_same, same_refl, All,
  length-filter-insert, length-filter-map_le_of, All-unique, All-map, length-filter-map_bound,
  All-imp, All-zip, All-map_each, ap, ◌==◌, ◌&&◌, true≢false,
}
use kodi_backend_template_a.Base.Store.{update_row}
use kodi_backend_template_a.Users.Terms.{
  Terms, TermsPatch, is_version, is_current, is_other_current, has_id, unmark, patch, given,
}

-- One latest version for each locale and city, one row for each version, locale and city, and one
-- for each id.
pub record IsValid (xs : List Terms) : Type 0 where
  pub one_latest :
      (locale : String) (city : Option String) → length (filter (is_current locale city) xs) ≤ 1
  pub one_version :
      (version locale : String) (city : Option String)
      → length (filter (is_version version locale city) xs) ≤ 1
  pub one_id : (id : String) → length (filter (has_id id) xs) ≤ 1

unmark_current :
    (p : Terms → Bool) (locale : String) (city : Option String) (t : Terms)
    → is_current locale city (update_row p unmark t) ≡ true
    → is_current locale city t ≡ true
unfolding is_current unmark
unmark_current p locale city t h = ground arith

pub unmark_version :
    (p : Terms → Bool) (version locale : String) (city : Option String) (t : Terms)
    → is_version version locale city (update_row p unmark t) ≡ true
    → is_version version locale city t ≡ true
unfolding is_version unmark
unmark_version p version locale city t h = ground arith

unmark_id :
    (p : Terms → Bool) (id : String) (t : Terms)
    → has_id id (update_row p unmark t) ≡ true
    → has_id id t ≡ true
unfolding has_id unmark
unmark_id p id t h = ground arith

pub unmark-IsValid :
    (p : Terms → Bool) (xs : List Terms) → IsValid xs → IsValid (map (update_row p unmark) xs)
unmark-IsValid p xs h = record {
  one_latest = λ l c.
      length-filter-map_bound (is_current l c) (update_row p unmark) xs 1 (unmark_current p l c)
        (h.one_latest l c);
  one_version = λ v l c.
      length-filter-map_bound (is_version v l c) (update_row p unmark) xs 1 (unmark_version p v l c)
        (h.one_version v l c);
  one_id = λ id.
      length-filter-map_bound (has_id id) (update_row p unmark) xs 1 (unmark_id p id) (h.one_id id);
}

-- A row may be added if nothing of it is taken.
pub insert-IsValid :
    (xs : List Terms) (t : Terms)
    → IsValid xs
    → (t.is_latest ≡ true → find? (is_current t.locale t.city_id) xs ≡ none)
    → find? (is_version t.version t.locale t.city_id) xs ≡ none
    → find? (has_id t.id) xs ≡ none
    → IsValid (xs ++ t ∷ [])
unfolding is_current is_version has_id
insert-IsValid xs t h latest version id = record {
  one_latest = λ l c. length-filter-insert (is_current l c) xs t (h.one_latest l c) (λ k.
      let e : t.locale ≡ l = ground (arith, eq_iff t.locale l) in
      let d : t.city_id ≡ c = eq_of_same t.city_id c (ground arith) in
      rw (← e, ← d) (latest (ground arith)));
  one_version = λ v l c. length-filter-insert (is_version v l c) xs t (h.one_version v l c) (λ k.
      let e : t.locale ≡ l = ground (arith, eq_iff t.locale l) in
      let w : t.version ≡ v = ground (arith, eq_iff t.version v) in
      let d : t.city_id ≡ c = eq_of_same t.city_id c (ground arith) in rw (← e, ← d, ← w) version);
  one_id = λ i.
      length-filter-insert (has_id i) xs t (h.one_id i)
        (λ k. let e : t.id ≡ i = ground (arith, eq_iff t.id i) in rw (← e) id);
}

patch_version :
    (p : Terms → Bool) (dto : TermsPatch) (version locale : String) (city : Option String)
    (t : Terms)
    → is_version version locale city (update_row p (patch dto) t) ≡ true
    → is_version version locale city t ≡ true
unfolding is_version patch
patch_version p dto version locale city t h = ground arith

patch_id :
    (p : Terms → Bool) (dto : TermsPatch) (id : String) (t : Terms)
    → has_id id (update_row p (patch dto) t) ≡ true
    → has_id id t ≡ true
unfolding has_id patch
patch_id p dto id t h = ground arith

-- A patch that does not set the mark adds none.
pub patch_current :
    (p : Terms → Bool) (dto : TermsPatch) (locale : String) (city : Option String) (t : Terms)
    → given dto.is_latest false ≡ false
    → is_current locale city (update_row p (patch dto) t) ≡ true
    → is_current locale city t ≡ true
unfolding is_current patch
patch_current p dto locale city t plain h = ground arith

pub patch-IsValid :
    (p : Terms → Bool) (dto : TermsPatch) (xs : List Terms)
    → IsValid xs
    → ((locale : String) (city : Option String)
        → length (filter (is_current locale city) (map (update_row p (patch dto)) xs)) ≤ 1)
    → IsValid (map (update_row p (patch dto)) xs)
patch-IsValid p dto xs h latest = record {
  one_latest = latest;
  one_version = λ v l c.
      length-filter-map_bound (is_version v l c) (update_row p (patch dto)) xs 1
        (patch_version p dto v l c) (h.one_version v l c);
  one_id = λ id.
      length-filter-map_bound (has_id id) (update_row p (patch dto)) xs 1 (patch_id p dto id)
        (h.one_id id);
}

-- Only the row with this id is current in its locale and city, and it stays there.
abbrev Alone : String → String → Option String → Terms → Type 0
Alone id locale city t =
    (is_current locale city t ≡ true → has_id id t ≡ true)
    × (has_id id t ≡ true → (t.locale ≡ locale) × (t.city_id ≡ city))

patched_here :
    (id : String) (dto : TermsPatch) (locale : String) (city : Option String) (t : Terms)
    → Alone id locale city t
    → is_current locale city (update_row (has_id id) (patch dto) t) ≡ true
    → has_id id t ≡ true
unfolding is_current patch
patched_here id dto locale city t h k = elim (Bool-cases (has_id id t)) [
  | inl hit ↦ hit
  | inr miss ↦ h.0 (let plain : is_current locale city t ≡ true = rw miss at k in plain)
]

patched_elsewhere :
    (id : String) (dto : TermsPatch) (locale locale' : String) (city city' : Option String)
    (t : Terms)
    → ((locale ≡ locale') × (city ≡ city') → ⊥)
    → Alone id locale city t
    → is_current locale' city' (update_row (has_id id) (patch dto) t) ≡ true
    → is_current locale' city' t ≡ true
unfolding is_current patch
patched_elsewhere id dto locale locale' city city' t other h k = elim (Bool-cases (has_id id t)) [
  | inl hit ↦
      let (e, d) = h.1 hit in
      absurd (
        other (
          ground (arith, eq_iff t.locale locale'),
          sym d ∙ eq_of_same t.city_id city' (ground arith),
        ))
  | inr miss ↦ rw miss at k
]

is_elsewhere :
    (t : Terms) (locale : String) (city : Option String)
    → ((t.locale == locale) && same t.city_id city) ≡ false
    → (t.locale ≡ locale) × (t.city_id ≡ city)
    → ⊥
is_elsewhere t locale city h (e, d) =
    let a : (t.locale == locale) ≡ true = (eq_iff t.locale locale).1 e in
    let b : same t.city_id city ≡ true = rw (← d) (same_refl t.city_id) in
    let c : true ≡ false = rw (a, b) at h in true≢false c

others_unmarked :
    (id locale : String) (city : Option String) (t : Terms)
    → is_current locale city (update_row (is_other_current id locale city) unmark t) ≡ true
    → has_id id (update_row (is_other_current id locale city) unmark t) ≡ true
unfolding is_current is_other_current unmark has_id
others_unmarked id locale city t h = ground arith

-- Among rows of which one has the id, that one keeps its locale and city.
Alone-after :
    (id : String) (xs : List Terms) {t : Terms}
    → IsValid xs
    → find? (has_id id) xs ≡ some t
    → All
        (Alone id t.locale t.city_id)
        (map (update_row (is_other_current id t.locale t.city_id) unmark) xs)
unfolding unmark has_id
Alone-after id xs {t = t} h found =
    let other = is_other_current id t.locale t.city_id in
    let Homed : Terms → Type 0 =
      λ b. has_id id b ≡ true → (b.locale ≡ t.locale) × (b.city_id ≡ t.city_id) in
    let homed : All Homed xs =
      All-imp (λ b. has_id id b ≡ true → b ≡ t) Homed xs
        (λ b e k. (ap (λ (u : Terms). u.locale) (e k), ap (λ (u : Terms). u.city_id) (e k)))
        (All-unique (has_id id) xs found (h.one_id id)) in
    All-zip (λ b. is_current t.locale t.city_id b ≡ true → has_id id b ≡ true) Homed
      (map (update_row other unmark) xs)
      (All-map_each (λ b. is_current t.locale t.city_id b ≡ true → has_id id b ≡ true)
        (update_row other unmark) xs (others_unmarked id t.locale t.city_id))
      (All-map Homed (update_row other unmark) xs
        (λ b e. elim (Bool-cases (other b)) [ inl hit ↦ rw hit e | inr miss ↦ rw miss e ]) homed)

-- A row that becomes the latest, where the others of its locale and city lose the mark.
pub mark-IsValid :
    (id : String) (dto : TermsPatch) (xs : List Terms) {t : Terms}
    → IsValid xs
    → find? (has_id id) xs ≡ some t
    → IsValid (
        map
          (update_row (has_id id) (patch dto))
          (map (update_row (is_other_current id t.locale t.city_id) unmark) xs))
mark-IsValid id dto xs {t = t} h found =
    let other = is_other_current id t.locale t.city_id in
    let ys = map (update_row other unmark) xs in
    let kept : IsValid ys = unmark-IsValid other xs h in
    let alone : All (Alone id t.locale t.city_id) ys = Alone-after id xs h found in
    let g = update_row (has_id id) (patch dto) in
    patch-IsValid (has_id id) dto ys kept (λ l c.
      elim (Bool-cases ((t.locale == l) && same t.city_id c)) [
        | inl here ↦
            let e : t.locale ≡ l = ground (arith, eq_iff t.locale l) in
            let d : t.city_id ≡ c = eq_of_same t.city_id c (ground arith) in
            let bound = length-filter-map_le_of (is_current l c) (has_id id) g ys (
              rw (← e, ← d)
                (All-imp (Alone id t.locale t.city_id)
                  (λ b. is_current t.locale t.city_id (g b) ≡ true → has_id id b ≡ true) ys
                  (patched_here id dto t.locale t.city_id) alone)) in
            let few = kept.one_id id in omega arith
        | inr there ↦
            let bound = length-filter-map_le_of (is_current l c) (is_current l c) g ys (
              All-imp (Alone id t.locale t.city_id)
                (λ b. is_current l c (g b) ≡ true → is_current l c b ≡ true) ys
                (λ b. patched_elsewhere id dto t.locale l t.city_id c b (is_elsewhere t l c there))
                alone) in
            let few = kept.one_latest l c in omega arith
      ])
