-- ===== src/Core/Assignments/Assigned.antt =====
-- What the users and their cities read after an assignment.
use kodi_backend_template_a.Base.{
  ℕ, String, ◌≡◌, ◌≢◌, refl, sym, ap, subst, ◌∙◌, Bool, true, false, not, inl, inr, Option, none,
  some, List, [], ◌∷◌, ◌++◌, map, arith, eq_iff, eq_refl, eq_of_==, ◌==◌, Bool-cases, filter, find?,
  leb, Reply, answer, In, In-append, In-filter, find?-eq-some,
}
use kodi_backend_template_a.Base.Filters.{and_left, and_right}
use kodi_backend_template_a.Base.Store.{update_row}
use kodi_backend_template_a.Rbac.Roles.{UserRole, role_name, role_to_number, RoleClaim}
use kodi_backend_template_a.Core.Assignments.{
  CoreTables, UserCityAssignment, AssignmentError, is_assignment, true_unless, is_active_of,
  insert_newest, newest_first, city_of, CoreState, get_user_assignments, get_user_cities,
  normalized_role, reassigned, upsert_assignment, assign_as, assign_city_admin, cleanup_user_data,
}

answer_inj :
    (x y : UserCityAssignment × ℕ) (r : Reply AssignmentError (UserCityAssignment × ℕ))
    → r ≡ answer x
    → r ≡ answer y
    → x ≡ y
answer_inj x y r e f = cc

filter-none : {A : Type 0} (p : A → Bool) (xs : List A) → filter p (filter (λ a. not (p a)) xs) ≡ []
filter-none p [] = refl
filter-none p (x ∷ xs) = elim (Bool-cases (p x)) [
  | inl hit ↦ rw hit (filter-none p xs)
  | inr miss ↦ rw (miss, miss) (filter-none p xs)
]

filter-kept :
    {A : Type 0} (q p : A → Bool) (xs : List A)
    → ((a : A) → q a ≡ true → p a ≡ false)
    → filter q (filter (λ a. not (p a)) xs) ≡ filter q xs
filter-kept q p [] h = refl
filter-kept q p (x ∷ xs) h = elim (Bool-cases (q x)) [
  | inl hit ↦ rw (h x hit, hit) (ap (◌∷◌ x) (filter-kept q p xs h))
  | inr miss ↦ elim (Bool-cases (p x)) [
    | inl gone ↦ rw (gone, miss) (filter-kept q p xs h)
    | inr kept ↦ rw (kept, miss) (filter-kept q p xs h)
  ]
]

active_of_other :
    (other user : String) (role : Option UserRole) (a : UserCityAssignment)
    → other ≢ user
    → is_active_of other role a ≡ true
    → (a.user_id == user) ≡ false
active_of_other other user none a apart h =
    ground (arith, eq_iff a.user_id other, eq_iff a.user_id user)
active_of_other other user (some role) a apart h =
    ground (arith, eq_iff a.user_id other, eq_iff a.user_id user)

In-insert_newest :
    (a b : UserCityAssignment) (bs : List UserCityAssignment)
    → In a (b ∷ bs)
    → In a (insert_newest b bs)
In-insert_newest a b [] m = m
In-insert_newest a b (c ∷ cs) m = elim (Bool-cases (leb c.created_at b.created_at)) [
  | inl hit ↦ rw hit m
  | inr miss ↦ rw miss (elim m [
    | inl e ↦ inr (In-insert_newest a b cs (inl e))
    | inr k ↦ elim k [ inl e ↦ inl e | inr k' ↦ inr (In-insert_newest a b cs (inr k')) ]
  ])
]

In-newest_first :
    (a : UserCityAssignment) (as' : List UserCityAssignment) → In a as' → In a (newest_first as')
In-newest_first a [] m = m
In-newest_first a (b ∷ bs) m =
    In-insert_newest a b (newest_first bs)
      (elim m [ inl e ↦ inl e | inr k ↦ inr (In-newest_first a bs k) ])

city-In :
    (a : UserCityAssignment) (as' : List UserCityAssignment)
    → In a as'
    → In a.city_id (map city_of as')
city-In a [] m = m
city-In a (b ∷ bs) m = elim m [ inl e ↦ inl (ap city_of e) | inr k ↦ inr (city-In a bs k) ]

-- The updated row stands where the found one stood.
In-updated :
    (p : UserCityAssignment → Bool) (f : UserCityAssignment → UserCityAssignment)
    (xs : List UserCityAssignment) {a : UserCityAssignment}
    → find? p xs ≡ some a
    → In (f a) (map (update_row p f) xs)
In-updated p f [] e = cc
In-updated p f (x ∷ xs) {a = a} e = elim (Bool-cases (p x)) [
  | inl hit ↦
      let same : some x ≡ some a = cc (hit, e) in
      let same' : x ≡ a = cc in rw hit (inl (ap f (sym same')))
  | inr miss ↦ inr (In-updated p f xs (cc (miss, e)))
]

module _ (tables : CoreTables) where
  open tables use {assignments, favorites, reminders, to_upper}
  open assignments use {Rows, rows, insert, update, rows-insert, rows-update, rows-remove}

  abbrev State : Type 0
  State = CoreState tables

  -- The row of an upsert is in the table, and is of the user, active and of the role.
  upsert-In :
      (now : ℕ) (user city : String) (role : UserRole) (manages : Bool) (by' : String)
      (found : Option UserCityAssignment) (t : Rows)
      → find? (is_assignment user city) (rows t) ≡ found
      → let (t', a) = upsert_assignment tables now user city role manages by' found t in
        In a (rows t') × (is_active_of user none a ≡ true) × (a.city_id ≡ city) × (a.role ≡ role)
  upsert-In now user city role manages by' none t e = (
    subst (In _) (sym (rows-insert _ t)) ((In-append _ (rows t) _).1 (inr (inl refl))),
    rw (eq_refl user) refl,
    refl,
    refl,
  )
  upsert-In now user city role manages by' (some a) t e =
      let hit = find?-eq-some (is_assignment user city) (rows t) e in
      (
        subst (In _) (sym (rows-update _ _ t))
            (In-updated (is_assignment user city) (reassigned tables role manages by') (rows t) e),
        rw (and_left (a.user_id == user) (a.city_id == city) hit) refl,
        eq_of_== a.city_id city (and_right (a.user_id == user) (a.city_id == city) hit),
        refl,
      )

  abbrev Reads : String → String → String → State → UserCityAssignment → ℕ → State → Type 0
  Reads user city by' s a n s' =
      In a (get_user_assignments tables user none s')
      × In city (get_user_cities tables user s')
      × (n ≡ role_to_number (role_name a.role))
      × (s'.role_updates
          ≡ s.role_updates ++ record { user_id = user; role = a.role; updated_by = by' } ∷ [])

  as-Reads :
      (now : ℕ) (user city : String) (role : Option UserRole) (manages : Bool) (by' : String)
      (s : State) {a : UserCityAssignment} {n : ℕ}
      → (assign_as tables now user city role manages by' s).1 ≡ answer (a, n)
      → Reads user city by' s a n (assign_as tables now user city role manages by' s).0
  as-Reads now user city none manages by' s h = cc
  as-Reads now user city (some role) manages by' s {a = a} {n = n} h =
      let found = find? (is_assignment user city) (rows s.assigned) in
      let u = upsert_assignment tables now user city role manages by' found s.assigned in
      let (there, active, its_city, its_role) =
        upsert-In now user city role manages by' found s.assigned refl in
      let s' = (assign_as tables now user city (some role) manages by' s).0 in
      let both =
        answer_inj (u.1, role_to_number (role_name u.1.role)) (a, n)
          (assign_as tables now user city (some role) manages by' s).1 refl h in
      let picked = In-filter (is_active_of user none) (rows u.0) u.1 there active in
      let reads : Reads user city by' s u.1 (role_to_number (role_name u.1.role)) s' = (
        In-newest_first u.1 (filter (is_active_of user none) (rows u.0)) picked,
        subst (λ c. In c (map city_of (filter (is_active_of user none) (rows u.0)))) its_city
            (city-In u.1 (filter (is_active_of user none) (rows u.0)) picked),
        refl,
        ap (λ r. s.role_updates ++ record { user_id = user; role = r; updated_by = by' } ∷ [])
            (sym its_role),
      ) in
      subst (λ p. Reads user city by' s p.0 p.1 s') both reads

  -- After an assignment that succeeds, the user has it among the assignments and its city among
  -- the cities, whether or not there was one before and whether it was active; the answer has its
  -- role as a number, and the users service is told that role.
  pub assign_city_admin-get_user_assignments :
      (now : ℕ) (user city : String) (role : RoleClaim) (by' : String) (manages : Option Bool)
      (s : State) {a : UserCityAssignment} {n : ℕ}
      → (assign_city_admin tables now user city role by' manages s).1 ≡ answer (a, n)
      → let s' = (assign_city_admin tables now user city role by' manages s).0 in
        In a (get_user_assignments tables user none s')
        × In city (get_user_cities tables user s')
        × (n ≡ role_to_number (role_name a.role))
        × (s'.role_updates
            ≡ s.role_updates ++ record { user_id = user; role = a.role; updated_by = by' } ∷ [])
  unfolding assign_city_admin
  assign_city_admin-get_user_assignments now user city role by' manages s h =
      as-Reads now user city (normalized_role tables role) (true_unless manages) by' s h

  -- After the cleanup of a user's data, the user has no assignment and no city, and no favorite
  -- and no reminder is left; each other user has the same assignments as before.
  pub cleanup_user_data-get_user_assignments :
      (user : String) (s : State)
      → let s' = (cleanup_user_data tables user s).0 in
        (filter (λ a. a.user_id == user) (rows s'.assigned) ≡ [])
        × (filter (λ f. f.user_id == user) (favorites.rows s'.favored) ≡ [])
        × (filter (λ r. r.user_id == user) (reminders.rows s'.reminded) ≡ [])
        × ((other : String) (role : Option UserRole)
            → other ≢ user
            → get_user_assignments tables other role s' ≡ get_user_assignments tables other role s)
  unfolding cleanup_user_data
  cleanup_user_data-get_user_assignments user s = (
    ap (filter (λ a. a.user_id == user)) (rows-remove (λ a. a.user_id == user) s.assigned)
        ∙ filter-none (λ a. a.user_id == user) (rows s.assigned),
    ap (filter (λ f. f.user_id == user)) (favorites.rows-remove (λ f. f.user_id == user) s.favored)
        ∙ filter-none (λ f. f.user_id == user) (favorites.rows s.favored),
    ap (filter (λ r. r.user_id == user)) (reminders.rows-remove (λ r. r.user_id == user) s.reminded)
        ∙ filter-none (λ r. r.user_id == user) (reminders.rows s.reminded),
    λ other role apart.
        ap (λ xs. newest_first (filter (is_active_of other role) xs))
          (rows-remove (λ a. a.user_id == user) s.assigned)
        ∙ ap newest_first (
            filter-kept (is_active_of other role) (λ a. a.user_id == user) (rows s.assigned)
              (λ a h. active_of_other other user role a apart h)),
  )
