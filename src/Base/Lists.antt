-- ===== src/Base/Lists.antt =====
-- Lists measured by native numbers and searched by Boolean tests.
use Prim.Native.Nat.{ℕ, zero, suc, ◌<◌}
use Prim.Native.String.{String}
use mathlib.Core.Path.{◌≡◌, refl, ap}
use mathlib.Core.Logic.{◌↔◌, ◌⊎◌, inl, inr}
use mathlib.Core.Bool.{Bool, true, false, ◌||◌}
use mathlib.Core.List.{List, [], ◌∷◌, ◌++◌}
use mathlib.Core.Option.{Option, none, some}
use native.Mathlib.Omega.{arith}
use text.Mathlib.TextEquality.{eq_iff}
use kodi_backend_template_a.Base.Tests.{◌==◌, if◌then◌else◌, leb}

module _ {ℓ} {A : Type ℓ} where
  abbrev pub length : List A → ℕ
  length [] = 0
  length (x ∷ xs) = suc (length xs)

  abbrev pub get_elem? : List A → ℕ → Option A
  get_elem? [] i = none
  get_elem? (x ∷ xs) zero = some x
  get_elem? (x ∷ xs) (suc i) = get_elem? xs i

  -- `Array.filter`.
  abbrev pub filter : (A → Bool) → List A → List A
  filter p [] = []
  filter p (x ∷ xs) = if p x then x ∷ filter p xs else filter p xs

  -- `Array.some`.
  abbrev pub any : (A → Bool) → List A → Bool
  any p [] = false
  any p (x ∷ xs) = p x || any p xs

  -- `Array.find`, and the row that a unique query returns.
  abbrev pub find? : (A → Bool) → List A → Option A
  find? p [] = none
  find? p (x ∷ xs) = if p x then some x else find? p xs

  abbrev pub All {κ} : (A → Type κ) → List A → Type κ
  All P [] = Unit
  All P (x ∷ xs) = P x × All P xs

module _ {A : Type 0} where
  -- The element stands in the list.
  abbrev pub In : A → List A → Type 0
  In a [] = ⊥
  In a (x ∷ xs) = (a ≡ x) ⊎ In a xs

  pub In-append : (a : A) (xs ys : List A) → In a (xs ++ ys) ↔ (In a xs ⊎ In a ys)
  In-append a [] ys = (λ h. inr h, λ h. elim h [ inl e ↦ absurd e | inr k ↦ k ])
  In-append a (x ∷ xs) ys = (
    λ h. elim h [
      | inl e ↦ inl (inl e)
      | inr k ↦ elim ((In-append a xs ys).0 k) [ inl m ↦ inl (inr m) | inr m ↦ inr m ]
    ],
    λ h. elim h [
      | inl k ↦ elim k [ inl e ↦ inl e | inr m ↦ inr ((In-append a xs ys).1 (inl m)) ]
      | inr m ↦ inr ((In-append a xs ys).1 (inr m))
    ],
  )

  pub All-In {κ} : (P : A → Type κ) (xs : List A) {a : A} → All P xs → In a xs → P a
  All-In P [] h m = absurd m
  All-In P (x ∷ xs) h m = elim m [ inl e ↦ rw e h.0 | inr k ↦ All-In P xs h.1 k ]

-- `Array.includes` on texts.
abbrev pub includes : String → List String → Bool
includes a [] = false
includes a (x ∷ xs) = a == x || includes a xs

pub includes_iff : (a : String) (xs : List String) → (includes a xs ≡ true) ↔ In a xs
includes_iff a [] = (λ h. cc, λ h. absurd h)
includes_iff a (x ∷ xs) = (
  λ h. ground (arith, eq_iff a x, includes_iff a xs),
  λ h. ground (arith, eq_iff a x, includes_iff a xs),
)

-- Adding to a `Set`: a member stays where it is.
abbrev pub add : String → List String → List String
add a xs = if includes a xs then xs else xs ++ a ∷ []

-- Adding the members of a list one by one.
abbrev pub add_all : List String → List String → List String
add_all [] set = set
add_all (a ∷ as') set = add_all as' (add a set)

pub In-add : (b a : String) (xs : List String) → In b (add a xs) ↔ ((b ≡ a) ⊎ In b xs)
In-add b a xs = (
  λ h. ground (arith, includes_iff a xs, In-append b xs (a ∷ [])),
  λ h. ground (arith, includes_iff a xs, In-append b xs (a ∷ []), includes_iff b xs),
)

pub In-add_all :
    (b : String) (as' set : List String) → In b (add_all as' set) ↔ (In b as' ⊎ In b set)
In-add_all b [] set = (λ h. inr h, λ h. elim h [ inl e ↦ absurd e | inr k ↦ k ])
In-add_all b (a ∷ as') set = (
  λ h. ground (arith, In-add_all b as' (add a set), In-add b a set),
  λ h. ground (arith, In-add_all b as' (add a set), In-add b a set),
)

module _ {ℓ} {A : Type ℓ} where
  -- An assignment to an element; out of range it changes nothing.
  abbrev pub modify : List A → ℕ → (A → A) → List A
  modify [] i f = []
  modify (x ∷ xs) zero f = f x ∷ xs
  modify (x ∷ xs) (suc i) f = x ∷ modify xs i f

  abbrev pub take : ℕ → List A → List A
  take zero xs = []
  take (suc n) [] = []
  take (suc n) (x ∷ xs) = x ∷ take n xs

  abbrev pub drop : ℕ → List A → List A
  drop zero xs = xs
  drop (suc n) [] = []
  drop (suc n) (x ∷ xs) = drop n xs

module _ {ℓ} {A : Type ℓ} where
  pub take-modify : (xs : List A) (i : ℕ) (f : A → A) → take i (modify xs i f) ≡ take i xs
  take-modify [] i f = refl
  take-modify (x ∷ xs) zero f = refl
  take-modify (x ∷ xs) (suc i) f = ap (◌∷◌ x) (take-modify xs i f)

  pub drop-modify :
      (xs : List A) (i : ℕ) (f : A → A) (a : A)
      → get_elem? xs i ≡ some a
      → drop i (modify xs i f) ≡ f a ∷ drop (suc i) xs
  drop-modify [] i f a h = cc
  drop-modify (x ∷ xs) zero f a h = cc
  drop-modify (x ∷ xs) (suc i) f a h = drop-modify xs i f a h

  pub take_last :
      (xs : List A) (i : ℕ) (a : A)
      → get_elem? xs i ≡ some a
      → take (suc i) xs ≡ take i xs ++ a ∷ []
  take_last [] i a h = cc
  take_last (x ∷ xs) zero a h = cc
  take_last (x ∷ xs) (suc i) a h = ap (◌∷◌ x) (take_last xs i a h)

  pub get_elem?_of_lt : (xs : List A) (i : ℕ) → i < length xs → (a : A) × (get_elem? xs i ≡ some a)
  get_elem?_of_lt [] i h = elim h [ ]
  get_elem?_of_lt (x ∷ xs) zero h = (x, refl)
  get_elem?_of_lt (x ∷ xs) (suc i) h = get_elem?_of_lt xs i (omega arith)

  pub length-modify : (xs : List A) (i : ℕ) (f : A → A) → length (modify xs i f) ≡ length xs
  length-modify [] i f = refl
  length-modify (x ∷ xs) zero f = refl
  length-modify (x ∷ xs) (suc i) f = ap suc (length-modify xs i f)

  pub filter-append :
      (p : A → Bool) (xs ys : List A) → filter p (xs ++ ys) ≡ filter p xs ++ filter p ys
  filter-append p [] ys = refl
  filter-append p (x ∷ xs) ys = ground (arith, filter-append p xs ys)

  pub drop_first :
      (xs : List A) (i : ℕ) (a : A) → get_elem? xs i ≡ some a → drop i xs ≡ a ∷ drop (suc i) xs
  drop_first [] i a h = cc
  drop_first (x ∷ xs) zero a h = cc
  drop_first (x ∷ xs) (suc i) a h = drop_first xs i a h

-- `findFirst` in descending order of a number: the element whose number is highest.
abbrev pub later {ℓ} : {A : Type ℓ} → (A → ℕ) → A → Option A → A
later key x none = x
later key x (some y) = if leb (key y) (key x) then x else y

abbrev pub newest {ℓ} : {A : Type ℓ} → (A → ℕ) → List A → Option A
newest key [] = none
newest key (x ∷ xs) = some (later key x (newest key xs))
