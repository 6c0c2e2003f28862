-- ===== src/Base/Rows.antt =====
-- What an update of rows does to searches, counts and properties of all rows.
use Prim.Native.Nat.{ℕ, ◌≤◌, ◌+◌}
use mathlib.Core.Path.{◌≡◌, refl, sym, ap}
use mathlib.Core.Logic.{inl, inr}
use mathlib.Core.Bool.{Bool, true, false, not}
use mathlib.Core.List.{List, [], ◌∷◌, ◌++◌, map}
use mathlib.Core.Option.{Option, some, none}
use native.Mathlib.Omega.{arith}
use kodi_backend_template_a.Base.Tests.{if◌then◌else◌, Bool-cases, leb}
use kodi_backend_template_a.Base.Lists.{length, filter, find?, All, In, newest, later}

module _ {A : Type 0} where
  pub filter-map_none :
      (q : A → Bool) (g : A → A) (xs : List A)
      → ((a : A) → q (g a) ≡ false)
      → filter q (map g xs) ≡ []
  filter-map_none q g [] h = refl
  filter-map_none q g (x ∷ xs) h = rw (h x) (filter-map_none q g xs h)

  pub length-filter-map_le :
      (q : A → Bool) (g : A → A) (xs : List A)
      → ((a : A) → q (g a) ≡ true → q a ≡ true)
      → length (filter q (map g xs)) ≤ length (filter q xs)
  length-filter-map_le q g [] h = omega arith
  length-filter-map_le q g (x ∷ xs) h =
      let rest = length-filter-map_le q g xs h in
      elim (Bool-cases (q (g x))) [
        | inl hit ↦ rw (hit, h x hit) (omega arith)
        | inr miss ↦ elim (Bool-cases (q x)) [
          | inl hit ↦ rw (miss, hit) (omega arith)
          | inr gone ↦ rw (miss, gone) rest
        ]
      ]

  pub length-filter-append_one :
      (q : A → Bool) (xs : List A) (x : A)
      → length (filter q (xs ++ x ∷ [])) ≡ length (filter q xs) + (if q x then 1 else 0)
  length-filter-append_one q [] x = elim (Bool-cases (q x)) [
    | inl hit ↦ rw hit refl
    | inr miss ↦ rw miss refl
  ]
  length-filter-append_one q (y ∷ xs) x =
      let rest = length-filter-append_one q xs x in
      elim (Bool-cases (q y)) [ inl hit ↦ rw hit (omega arith) | inr miss ↦ rw miss rest ]

  pub find?-map :
      (q : A → Bool) (g : A → A) (xs : List A) {a : A}
      → ((b : A) → q (g b) ≡ q b)
      → find? q xs ≡ some a
      → find? q (map g xs) ≡ some (g a)
  find?-map q g [] h e = cc
  find?-map q g (x ∷ xs) h e = elim (Bool-cases (q x)) [
    | inl hit ↦ rw (h x, hit) (cc (hit, e))
    | inr miss ↦ rw (h x, miss) (find?-map q g xs h (cc (miss, e)))
  ]

  pub All-map :
      (P : A → Type 0) (g : A → A) (xs : List A)
      → ((a : A) → P a → P (g a))
      → All P xs
      → All P (map g xs)
  All-map P g [] h all = all
  All-map P g (x ∷ xs) h all = (h x all.0, All-map P g xs h all.1)

  pub All-each : (P : A → Type 0) (xs : List A) → ((a : A) → P a) → All P xs
  All-each P [] h = tt
  All-each P (x ∷ xs) h = (h x, All-each P xs h)

  pub All-map_each :
      (P : A → Type 0) (g : A → A) (xs : List A) → ((a : A) → P (g a)) → All P (map g xs)
  All-map_each P g [] h = tt
  All-map_each P g (x ∷ xs) h = (h x, All-map_each P g xs h)

  pub All-imp : (P Q : A → Type 0) (xs : List A) → ((a : A) → P a → Q a) → All P xs → All Q xs
  All-imp P Q [] h all = tt
  All-imp P Q (x ∷ xs) h all = (h x all.0, All-imp P Q xs h all.1)

  pub All-zip : (P Q : A → Type 0) (xs : List A) → All P xs → All Q xs → All (λ a. P a × Q a) xs
  All-zip P Q [] h k = tt
  All-zip P Q (x ∷ xs) h k = ((h.0, k.0), All-zip P Q xs h.1 k.1)

  pub All-filter : (P : A → Type 0) (q : A → Bool) (xs : List A) → All P xs → All P (filter q xs)
  All-filter P q [] all = all
  All-filter P q (x ∷ xs) all =
      let rest = All-filter P q xs all.1 in
      elim (Bool-cases (q x)) [ inl hit ↦ rw hit (all.0, rest) | inr miss ↦ rw miss rest ]

  pub All-append : (P : A → Type 0) (xs ys : List A) → All P xs → All P ys → All P (xs ++ ys)
  All-append P [] ys all more = more
  All-append P (x ∷ xs) ys all more = (all.0, All-append P xs ys all.1 more)

  pub All-find? :
      (P : A → Type 0) (q : A → Bool) (xs : List A) {a : A} → All P xs → find? q xs ≡ some a → P a
  All-find? P q [] all e = cc
  All-find? P q (x ∷ xs) {a = a} all e = elim (Bool-cases (q x)) [
    | inl hit ↦
        let same : some x ≡ some a = cc (hit, e) in let same' : x ≡ a = cc in rw (sym same') all.0
    | inr miss ↦ All-find? P q xs all.1 (cc (miss, e))
  ]

  pub find?-eq-some : (q : A → Bool) (xs : List A) {a : A} → find? q xs ≡ some a → q a ≡ true
  find?-eq-some q [] e = cc
  find?-eq-some q (x ∷ xs) e = elim (Bool-cases (q x)) [
    | inl hit ↦ cc (hit, e)
    | inr miss ↦ find?-eq-some q xs (cc (miss, e))
  ]

  pub filter_of_find? : (q : A → Bool) (xs : List A) → find? q xs ≡ none → filter q xs ≡ []
  filter_of_find? q [] e = refl
  filter_of_find? q (x ∷ xs) e = elim (Bool-cases (q x)) [
    | inl hit ↦ cc (hit, e)
    | inr miss ↦ rw miss (filter_of_find? q xs (cc (miss, e)))
  ]

  length-filter-filter_le :
      (q p : A → Bool) (xs : List A) → length (filter q (filter p xs)) ≤ length (filter q xs)
  length-filter-filter_le q p [] = omega arith
  length-filter-filter_le q p (x ∷ xs) =
      let rest = length-filter-filter_le q p xs in
      elim (Bool-cases (p x)) [
        | inl keep ↦ elim (Bool-cases (q x)) [
          | inl hit ↦ rw (keep, hit) (omega arith)
          | inr miss ↦ rw (keep, miss) rest
        ]
        | inr drop ↦ elim (Bool-cases (q x)) [
          | inl hit ↦ rw (drop, hit) (omega arith)
          | inr miss ↦ rw (drop, miss) rest
        ]
      ]

  pub find?-map-none :
      (q : A → Bool) (g : A → A) (xs : List A)
      → ((a : A) → q (g a) ≡ true → q a ≡ true)
      → find? q xs ≡ none
      → find? q (map g xs) ≡ none
  find?-map-none q g [] h e = refl
  find?-map-none q g (x ∷ xs) h e = elim (Bool-cases (q (g x))) [
    | inl hit ↦ cc (h x hit, e)
    | inr miss ↦ elim (Bool-cases (q x)) [
      | inl was ↦ cc (was, e)
      | inr not ↦ rw miss (find?-map-none q g xs h (cc (not, e)))
    ]
  ]

  pub find?-map_each :
      (q : A → Bool) (g : A → A) (xs : List A)
      → ((a : A) → q (g a) ≡ false)
      → find? q (map g xs) ≡ none
  find?-map_each q g [] h = refl
  find?-map_each q g (x ∷ xs) h = rw (h x) (find?-map_each q g xs h)

  All_of_filter :
      (p : A → Bool) (a : A) (xs : List A)
      → length (filter p xs) ≤ 0
      → All (λ b. p b ≡ true → b ≡ a) xs
  All_of_filter p a [] few = tt
  All_of_filter p a (x ∷ xs) few = elim (Bool-cases (p x)) [
    | inl hit ↦ absurd (ground arith)
    | inr miss ↦ (λ h. cc (h, miss), All_of_filter p a xs (ground arith))
  ]

  pub find?-append :
      (q : A → Bool) (xs ys : List A) {a : A} → find? q xs ≡ some a → find? q (xs ++ ys) ≡ some a
  find?-append q [] ys e = cc
  find?-append q (x ∷ xs) ys e = elim (Bool-cases (q x)) [
    | inl hit ↦ rw hit (cc (hit, e))
    | inr miss ↦ rw miss (find?-append q xs ys (cc (miss, e)))
  ]

  pub In-map : (g : A → A) (xs : List A) (b : A) → In b (map g xs) → (a : A) × In a xs × (b ≡ g a)
  In-map g [] b m = absurd m
  In-map g (x ∷ xs) b m = elim m [
    | inl e ↦ (x, inl refl, e)
    | inr k ↦ let (a, there, e) = In-map g xs b k in (a, inr there, e)
  ]

  pub In-filter : (q : A → Bool) (xs : List A) (a : A) → In a xs → q a ≡ true → In a (filter q xs)
  In-filter q [] a m h = m
  In-filter q (x ∷ xs) a m h = elim m [
    | inl e ↦ rw (sym e, h) (inl refl)
    | inr k ↦
        let rest = In-filter q xs a k h in
        elim (Bool-cases (q x)) [ inl hit ↦ rw hit (inr rest) | inr miss ↦ rw miss rest ]
  ]

  -- Rows whose key is not taken stay unique by that key.
  pub length-filter-insert :
      (q : A → Bool) (xs : List A) (x : A)
      → length (filter q xs) ≤ 1
      → (q x ≡ true → find? q xs ≡ none)
      → length (filter q (xs ++ x ∷ [])) ≤ 1
  length-filter-insert q xs x few free =
      rw (length-filter-append_one q xs x) (elim (Bool-cases (q x)) [
        | inl hit ↦ rw (hit, filter_of_find? q xs (free hit)) (omega arith)
        | inr miss ↦ rw miss (omega arith)
      ])

  -- An update that lets only rows of one kind meet a test.
  pub length-filter-map_le_of :
      (q p : A → Bool) (g : A → A) (xs : List A)
      → All (λ a. q (g a) ≡ true → p a ≡ true) xs
      → length (filter q (map g xs)) ≤ length (filter p xs)
  length-filter-map_le_of q p g [] h = omega arith
  length-filter-map_le_of q p g (x ∷ xs) h =
      let rest = length-filter-map_le_of q p g xs h.1 in
      elim (Bool-cases (q (g x))) [
        | inl hit ↦ rw (hit, h.0 hit) (omega arith)
        | inr miss ↦ elim (Bool-cases (p x)) [
          | inl hit ↦ rw (miss, hit) (omega arith)
          | inr gone ↦ rw (miss, gone) rest
        ]
      ]

  -- Where one row at most meets a test, each that meets it is the one that is found.
  pub All-unique :
      (p : A → Bool) (xs : List A) {a : A}
      → find? p xs ≡ some a
      → length (filter p xs) ≤ 1
      → All (λ b. p b ≡ true → b ≡ a) xs
  All-unique p [] e few = cc
  All-unique p (x ∷ xs) {a = a} e few = elim (Bool-cases (p x)) [
    | inl hit ↦
        let same : some x ≡ some a = cc (hit, e) in
        let same' : x ≡ a = cc in (λ h. same', All_of_filter p a xs (ground arith))
    | inr miss ↦ (λ h. cc (h, miss), All-unique p xs (cc (miss, e)) (ground arith))
  ]

  -- An update that makes no row meet a test keeps a bound on the rows that meet it.
  pub length-filter-map_bound :
      (q : A → Bool) (g : A → A) (xs : List A) (n : ℕ)
      → ((a : A) → q (g a) ≡ true → q a ≡ true)
      → length (filter q xs) ≤ n
      → length (filter q (map g xs)) ≤ n
  length-filter-map_bound q g xs n h few = let fewer = length-filter-map_le q g xs h in omega arith

  pub In-of_filter :
      (q : A → Bool) (xs : List A) (a : A) → In a (filter q xs) → In a xs × (q a ≡ true)
  In-of_filter q [] a m = absurd m
  In-of_filter q (x ∷ xs) a m = elim (Bool-cases (q x)) [
    | inl hit ↦
        let m' : In a (x ∷ filter q xs) = rw hit at m in
        elim m' [
          | inl e ↦ (inl e, rw e hit)
          | inr k ↦ let (there, h) = In-of_filter q xs a k in (inr there, h)
        ]
    | inr miss ↦
        let m' : In a (filter q xs) = rw miss at m in
        let (there, h) = In-of_filter q xs a m' in (inr there, h)
  ]

  later-In :
      (key : A → ℕ) (x : A) (o : Option A) (xs : List A) (a : A)
      → ((b : A) → o ≡ some b → In b xs)
      → later key x o ≡ a
      → In a (x ∷ xs)
  later-In key x none xs a h e = inl (sym e)
  later-In key x (some y) xs a h e = elim (Bool-cases (leb (key y) (key x))) [
    | inl hit ↦ let f : x ≡ a = rw hit at e in inl (sym f)
    | inr miss ↦ let f : y ≡ a = rw miss at e in inr (h a (ap some f))
  ]

  pub newest-In : (key : A → ℕ) (xs : List A) (a : A) → newest key xs ≡ some a → In a xs
  newest-In key [] a e = cc
  newest-In key (x ∷ xs) a e =
      let f : later key x (newest key xs) ≡ a = cc in
      later-In key x (newest key xs) xs a (λ b k. newest-In key xs b k) f

  -- A search by `newest` finds nothing only if no row meets the test.
  pub newest-none :
      (key : A → ℕ) (q : A → Bool) (xs : List A)
      → newest key (filter q xs) ≡ none
      → All (λ a. q a ≡ false) xs
  newest-none key q [] e = tt
  newest-none key q (x ∷ xs) e = elim (Bool-cases (q x)) [
    | inl hit ↦ cc (hit, e)
    | inr miss ↦ (miss, newest-none key q xs (cc (miss, e)))
  ]

  pub find?-append_last :
      (q : A → Bool) (xs : List A) (a : A)
      → q a ≡ true
      → (b : A) × (find? q (xs ++ a ∷ []) ≡ some b)
  find?-append_last q [] a h = (a, rw h refl)
  find?-append_last q (x ∷ xs) a h = elim (Bool-cases (q x)) [
    | inl hit ↦ (x, rw hit refl)
    | inr miss ↦ rw miss (find?-append_last q xs a h)
  ]

  pub find?-none_of :
      (p q : A → Bool) (xs : List A)
      → ((a : A) → q a ≡ true → p a ≡ true)
      → find? p xs ≡ none
      → find? q xs ≡ none
  find?-none_of p q [] h e = refl
  find?-none_of p q (x ∷ xs) h e = elim (Bool-cases (q x)) [
    | inl hit ↦ cc (h x hit, e)
    | inr miss ↦ elim (Bool-cases (p x)) [
      | inl was ↦ cc (was, e)
      | inr gone ↦ rw miss (find?-none_of p q xs h (cc (gone, e)))
    ]
  ]

  -- Removing a new row again leaves the rows as they were.
  pub filter-not_added :
      (p : A → Bool) (xs : List A) (a : A)
      → find? p xs ≡ none
      → p a ≡ true
      → filter (λ r. not (p r)) (xs ++ a ∷ []) ≡ xs
  filter-not_added p [] a e h = rw h refl
  filter-not_added p (x ∷ xs) a e h = elim (Bool-cases (p x)) [
    | inl hit ↦ cc (hit, e)
    | inr miss ↦ rw miss (ap (◌∷◌ x) (filter-not_added p xs a (cc (miss, e)) h))
  ]

  pub length-filter-filter :
      (q p : A → Bool) (xs : List A) (n : ℕ)
      → length (filter q xs) ≤ n
      → length (filter q (filter p xs)) ≤ n
  length-filter-filter q p xs n few = let fewer = length-filter-filter_le q p xs in omega arith

  pub All_of_find? : (q : A → Bool) (xs : List A) → find? q xs ≡ none → All (λ a. q a ≡ false) xs
  All_of_find? q [] e = tt
  All_of_find? q (x ∷ xs) e = elim (Bool-cases (q x)) [
    | inl hit ↦ cc (hit, e)
    | inr miss ↦ (miss, All_of_find? q xs (cc (miss, e)))
  ]

  pub find?_of_All :
      (q : A → Bool) (g : A → A) (xs : List A)
      → All (λ a. q (g a) ≡ false) xs
      → find? q (map g xs) ≡ none
  find?_of_All q g [] h = refl
  find?_of_All q g (x ∷ xs) h = rw h.0 (find?_of_All q g xs h.1)
