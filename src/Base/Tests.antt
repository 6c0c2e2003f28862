-- ===== src/Base/Tests.antt =====
-- Boolean tests on numbers and texts, the conditional, and JavaScript's truth of an optional text.
use Prim.Native.Nat.{ℕ, compare, Ordering}
use Prim.Native.String.{String}
use mathlib.Core.Path.{◌≡◌, refl, ap}
use mathlib.Core.Logic.{◌⊎◌, inl, inr, ◌≢◌}
use mathlib.Core.Bool.{Bool, true, false}
use mathlib.Core.Option.{Option, none, some}
use native.Mathlib.Omega.{arith}
use text.Mathlib.Text.{◌==◌ as str_eq}
use text.Mathlib.TextEquality.{eq_iff}

abbrev pub ltb : ℕ → ℕ → Bool
ltb a b = elim (compare a b) [ Ordering.lt ↦ true | _ ↦ false ]

abbrev pub leb : ℕ → ℕ → Bool
leb a b = elim (compare a b) [ Ordering.gt ↦ false | _ ↦ true ]

abbrev pub nat_eq : ℕ → ℕ → Bool
nat_eq a b = elim (compare a b) [ Ordering.eq ↦ true | _ ↦ false ]

infix 50 ◌==◌
-- `===` on texts.
abbrev pub ◌==◌ : String → String → Bool
s == t = str_eq s t

infix 1 if◌then◌else◌
abbrev pub if◌then◌else◌ {ℓ} : {A : Type ℓ} → Bool → A → A → A
if true then x else y = x
if false then x else y = y

-- An optional text as a condition or in `a || b`: the empty text counts as absent.
abbrev pub truthy : Option String → Option String
truthy none = none
truthy (some s) = if s == "" then none else some s

-- `a || b` of optional texts.
abbrev pub or_else : Option String → Option String → Option String
or_else a b = elim (truthy a) [ none ↦ b | some s ↦ some s ]

pub Bool-cases : (b : Bool) → (b ≡ true) ⊎ (b ≡ false)
Bool-cases true = inl refl
Bool-cases false = inr refl

pub Option-cases {ℓ} : {A : Type ℓ} (o : Option A) → (o ≡ none) ⊎ ((a : A) × (o ≡ some a))
Option-cases none = inl refl
Option-cases (some a) = inr (a, refl)

pub eq_of_== : (s t : String) → (s == t) ≡ true → s ≡ t
eq_of_== s t h = (eq_iff s t).0 h

pub ne_of_== : (s t : String) → (s == t) ≡ false → s ≢ t
ne_of_== s t h = ground (arith, eq_iff s t)

pub ==_of_ne : (s t : String) → s ≢ t → (s == t) ≡ false
==_of_ne s t h = ground (arith, eq_iff s t)

pub true≢false : true ≢ false
true≢false = λ e. cc

pub truthy_of_ne : (s : String) → s ≢ "" → truthy (some s) ≡ some s
truthy_of_ne s h = rw (==_of_ne s "" h) refl

pub or_else-some : (s : String) (b : Option String) → s ≢ "" → or_else (some s) b ≡ some s
or_else-some s b h = rw (or_else, truthy_of_ne s h) refl

-- `===` on optional texts.
abbrev pub same : Option String → Option String → Bool
same none none = true
same (some s) (some t) = s == t
same _ _ = false

pub same_refl : (o : Option String) → same o o ≡ true
same_refl none = refl
same_refl (some s) = (eq_iff s s).1 refl

pub eq_of_same : (o p : Option String) → same o p ≡ true → o ≡ p
eq_of_same none none h = refl
eq_of_same (some s) (some t) h = ap some (eq_of_== s t h)
eq_of_same none (some t) h = cc
eq_of_same (some s) none h = cc

-- `a || b` where `b` is a text.
abbrev pub text_or : Option String → String → String
text_or a b = elim (truthy a) [ none ↦ b | some s ↦ s ]

-- What holds of both branches holds of the conditional.
pub if_either {ℓ κ} :
    {A : Type ℓ} (P : A → Type κ) (b : Bool) (x y : A) → P x → P y → P (if b then x else y)
if_either P true x y h k = h
if_either P false x y h k = k
