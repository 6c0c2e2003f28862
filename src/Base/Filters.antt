-- ===== src/Base/Filters.antt =====
-- Filters in sequence, in chunks and by tests that agree.
use Prim.Native.Nat.{ℕ, zero, suc, ◌+◌, ◌≤◌}
use Prim.Native.String.{String}
use mathlib.Core.Path.{◌≡◌, refl, sym, ap, ◌∙◌}
use mathlib.Core.Logic.{inl, inr}
use mathlib.Core.Bool.{Bool, true, not, ◌&&◌, ◌||◌}
use mathlib.Core.List.{List, [], ◌∷◌}
use native.Mathlib.Omega.{arith}
use kodi_backend_template_a.Base.Tests.{Bool-cases, ◌==◌}
use kodi_backend_template_a.Base.Lists.{length, filter, includes, take, drop, In}

pub includes-take :
    (a : String) (n : ℕ) (xs : List String)
    → includes a xs ≡ (includes a (take n xs) || includes a (drop n xs))
includes-take a zero xs = refl
includes-take a (suc n) [] = refl
includes-take a (suc n) (x ∷ xs) = elim (Bool-cases (a == x)) [
  | inl hit ↦ rw hit refl
  | inr miss ↦ rw miss (includes-take a n xs)
]

pub length-drop :
    (n : ℕ) (x : String) (xs : List String) → length (drop (suc n) (x ∷ xs)) ≤ length xs
length-drop zero x xs = omega arith
length-drop (suc n) x [] = omega arith
length-drop (suc n) x (y ∷ ys) = let less = length-drop n y ys in omega arith

module _ {A : Type 0} (p q r : A → Bool) (split : (a : A) → r a ≡ (p a || q a)) where
  pub filter-filter-not :
      (xs : List A)
      → filter (λ a. not (q a)) (filter (λ a. not (p a)) xs) ≡ filter (λ a. not (r a)) xs
  filter-filter-not [] = refl
  filter-filter-not (x ∷ xs) =
      let rest = filter-filter-not xs in
      elim (Bool-cases (p x)) [
        | inl hit ↦ rw (split x, hit) rest
        | inr miss ↦ elim (Bool-cases (q x)) [
          | inl gone ↦ rw (split x, miss, gone) rest
          | inr kept ↦ rw (split x, miss, kept) (ap (◌∷◌ x) rest)
        ]
      ]

  pub length-filter_both :
      (xs : List A)
      → length (filter p xs) + length (filter q (filter (λ a. not (p a)) xs)) ≡ length (filter r xs)
  length-filter_both [] = refl
  length-filter_both (x ∷ xs) =
      let rest = length-filter_both xs in
      elim (Bool-cases (p x)) [
        | inl hit ↦ rw (split x, hit) (omega arith)
        | inr miss ↦ elim (Bool-cases (q x)) [
          | inl gone ↦ rw (split x, miss, gone) (omega arith)
          | inr kept ↦ rw (split x, miss, kept) rest
        ]
      ]

module _ {A : Type 0} where
  pub length-filter-not :
      (p : A → Bool) (xs : List A)
      → length (filter (λ a. not (p a)) xs) + length (filter p xs) ≡ length xs
  length-filter-not p [] = refl
  length-filter-not p (x ∷ xs) =
      let rest = length-filter-not p xs in
      elim (Bool-cases (p x)) [ inl hit ↦ rw hit (omega arith) | inr miss ↦ rw miss (omega arith) ]

  pub filter-filter_both :
      (p q : A → Bool) (xs : List A) → filter q (filter p xs) ≡ filter (λ a. p a && q a) xs
  filter-filter_both p q [] = refl
  filter-filter_both p q (x ∷ xs) =
      let rest = filter-filter_both p q xs in
      elim (Bool-cases (p x)) [
        | inl hit ↦ elim (Bool-cases (q x)) [
          | inl kept ↦ rw (hit, kept) (ap (◌∷◌ x) rest)
          | inr gone ↦ rw (hit, gone) rest
        ]
        | inr miss ↦ rw miss rest
      ]

pub filter_all : {A : Type 0} (xs : List A) → filter (λ a. true) xs ≡ xs
filter_all [] = refl
filter_all (x ∷ xs) = ap (◌∷◌ x) (filter_all xs)

pub sum_of : (d a b c : ℕ) → a + b ≡ c → d + a + b ≡ d + c
sum_of d a b c h = omega arith

pub sum_left : (a a' b b' c : ℕ) → a ≡ a' → b ≡ 0 + b' → a' + b' ≡ c → a + b ≡ c
sum_left a a' b b' c e f h = omega arith

pub sum_right : (b b' d e c : ℕ) → b ≡ 0 + b' → b' ≡ d → e + d ≡ c → b + e ≡ c
sum_right b b' d e c f g h = omega arith

pub In-one : {A : Type 0} (xs : List A) (a b : A) → length xs ≤ 1 → In a xs → In b xs → a ≡ b
In-one [] a b few m k = absurd m
In-one (x ∷ []) a b few (inl e) (inl f) = e ∙ sym f
In-one (x ∷ []) a b few (inr m) k = absurd m
In-one (x ∷ []) a b few (inl e) (inr k) = absurd k
In-one (x ∷ y ∷ xs) a b few m k = absurd (omega arith)

pub filter_cong :
    {A : Type 0} (p q : A → Bool) (xs : List A)
    → ((a : A) → In a xs → p a ≡ q a)
    → filter p xs ≡ filter q xs
filter_cong p q [] h = refl
filter_cong p q (x ∷ xs) h =
    let rest = filter_cong p q xs (λ a m. h a (inr m)) in
    let here : p x ≡ q x = h x (inl refl) in
    elim (Bool-cases (q x)) [
      | inl hit ↦ rw (here, hit) (ap (◌∷◌ x) rest)
      | inr miss ↦ rw (here, miss) rest
    ]

pub same_test : (b c : Bool) → (b ≡ true → c ≡ true) → (c ≡ true → b ≡ true) → b ≡ c
same_test b c h k = ground arith

pub and_left : (b c : Bool) → (b && c) ≡ true → b ≡ true
and_left b c h = ground arith

pub and_right : (b c : Bool) → (b && c) ≡ true → c ≡ true
and_right b c h = ground arith
