-- ===== src/Core/Occurrences/Numbers.antt =====
-- A set of dates, sorted: the members are kept, each stands once, in ascending order.
use kodi_backend_template_a.Base.{
  ℕ, ◌<◌, ◌≡◌, refl, ◌∙◌, Bool, true, false, inl, inr, ◌||◌, List, [], ◌∷◌, ◌++◌, arith, Bool-cases,
  nat_eq, leb, All, All-append,
}
use kodi_backend_template_a.Core.Occurrences.{has, add_all_numbers, insert_sorted, sort, sorted_set}

-- Strictly ascending.
abbrev pub Ascending : List ℕ → Type 0
Ascending [] = Unit
Ascending (x ∷ xs) = All (λ y. x < y) xs × Ascending xs

abbrev Distinct : List ℕ → Type 0
Distinct [] = Unit
Distinct (x ∷ xs) = (has x xs ≡ false) × Distinct xs

nat_eq_sym : (a b : ℕ) → nat_eq a b ≡ nat_eq b a
nat_eq_sym a b = ground arith

or_left : (b c : Bool) → (b || c) ≡ false → b ≡ false
or_left b c h = ground arith

or_right : (b c : Bool) → (b || c) ≡ false → c ≡ false
or_right b c h = ground arith

lt_of_apart : (t x : ℕ) → leb t x ≡ true → nat_eq t x ≡ false → t < x
lt_of_apart t x h k = ground arith

lt_of_leb : (t x : ℕ) → leb t x ≡ false → x < t
lt_of_leb t x h = ground arith

has-append_last :
    (t x : ℕ) (xs : List ℕ) → has x xs ≡ false → nat_eq x t ≡ false → has x (xs ++ t ∷ []) ≡ false
has-append_last t x [] h k = rw k refl
has-append_last t x (y ∷ ys) h k =
    rw (or_left (nat_eq x y) (has x ys) h)
      (has-append_last t x ys (or_right (nat_eq x y) (has x ys) h) k)

Distinct-append_last :
    (t : ℕ) (xs : List ℕ) → has t xs ≡ false → Distinct xs → Distinct (xs ++ t ∷ [])
Distinct-append_last t [] h d = (refl, tt)
Distinct-append_last t (x ∷ xs) h d = (
  has-append_last t x xs d.0 (nat_eq_sym x t ∙ or_left (nat_eq t x) (has t xs) h),
  Distinct-append_last t xs (or_right (nat_eq t x) (has t xs) h) d.1,
)

Distinct-add_all_numbers : (ts set : List ℕ) → Distinct set → Distinct (add_all_numbers ts set)
Distinct-add_all_numbers [] set d = d
Distinct-add_all_numbers (t ∷ ts) set d = elim (Bool-cases (has t set)) [
  | inl hit ↦ rw hit (Distinct-add_all_numbers ts set d)
  | inr miss ↦
      rw miss (Distinct-add_all_numbers ts (set ++ t ∷ []) (Distinct-append_last t set miss d))
]

-- What holds of all members holds of all members of the set, and of the sorted list.
All-insert_sorted :
    (P : ℕ → Type 0) (t : ℕ) (xs : List ℕ) → P t → All P xs → All P (insert_sorted t xs)
All-insert_sorted P t [] h all = (h, tt)
All-insert_sorted P t (x ∷ xs) h all = elim (Bool-cases (leb t x)) [
  | inl hit ↦ rw hit (h, all)
  | inr miss ↦ rw miss (all.0, All-insert_sorted P t xs h all.1)
]

All-sort : (P : ℕ → Type 0) (xs : List ℕ) → All P xs → All P (sort xs)
All-sort P [] all = tt
All-sort P (x ∷ xs) all = All-insert_sorted P x (sort xs) all.0 (All-sort P xs all.1)

All-add_all_numbers :
    (P : ℕ → Type 0) (ts set : List ℕ) → All P ts → All P set → All P (add_all_numbers ts set)
All-add_all_numbers P [] set all more = more
All-add_all_numbers P (t ∷ ts) set all more = elim (Bool-cases (has t set)) [
  | inl hit ↦ rw hit (All-add_all_numbers P ts set all.1 more)
  | inr miss ↦
      rw miss (
        All-add_all_numbers P ts (set ++ t ∷ []) all.1 (All-append P set (t ∷ []) more (all.0, tt)))
]

pub All-sorted_set : (P : ℕ → Type 0) (ts : List ℕ) → All P ts → All P (sorted_set ts)
All-sorted_set P ts all = All-sort P (add_all_numbers ts []) (All-add_all_numbers P ts [] all tt)

below_all : (t x : ℕ) (xs : List ℕ) → t < x → All (λ y. x < y) xs → All (λ y. t < y) xs
below_all t x [] h all = tt
below_all t x (y ∷ ys) h all = (let k = all.0 in omega arith, below_all t x ys h all.1)

Ascending-insert_sorted :
    (t : ℕ) (xs : List ℕ)
    → All (λ y. nat_eq t y ≡ false) xs
    → Ascending xs
    → Ascending (insert_sorted t xs)
Ascending-insert_sorted t [] apart up = (tt, tt)
Ascending-insert_sorted t (x ∷ xs) apart up = elim (Bool-cases (leb t x)) [
  | inl hit ↦
      let less : t < x = lt_of_apart t x hit apart.0 in
      rw hit ((less, below_all t x xs less up.0), up)
  | inr miss ↦
      let less : x < t = lt_of_leb t x miss in
      rw miss
        (All-insert_sorted (λ y. x < y) t xs less up.0, Ascending-insert_sorted t xs apart.1 up.1)
]

apart_of : (t : ℕ) (xs : List ℕ) → has t xs ≡ false → All (λ y. nat_eq t y ≡ false) xs
apart_of t [] h = tt
apart_of t (x ∷ xs) h =
    (or_left (nat_eq t x) (has t xs) h, apart_of t xs (or_right (nat_eq t x) (has t xs) h))

Ascending-sort : (xs : List ℕ) → Distinct xs → Ascending (sort xs)
Ascending-sort [] d = tt
Ascending-sort (x ∷ xs) d =
    Ascending-insert_sorted x (sort xs) (All-sort (λ y. nat_eq x y ≡ false) xs (apart_of x xs d.0))
      (Ascending-sort xs d.1)

pub sorted_set-Ascending : (ts : List ℕ) → Ascending (sorted_set ts)
sorted_set-Ascending ts = Ascending-sort (add_all_numbers ts []) (Distinct-add_all_numbers ts [] tt)
