-- ===== src/Base/Outcome.antt =====
-- Outcomes. A `Run` returns, throws, or ran out of the model's fuel (the program would still be
-- running). A `Reply` is an answer or the exception that the call throws.
use mathlib.Core.Path.{◌≡◌, refl}

pub data Run {ℓ} (A : Type ℓ) : Type ℓ where
  ret : A → Run A
  throw : Run A
  diverge : Run A

pub data Reply (E A : Type 0) : Type 0 where
  refuse : E → Reply E A
  answer : A → Reply E A

infixl 5 ◌>>=◌
abbrev pub ◌>>=◌ {ℓ κ} : {A : Type ℓ} {B : Type κ} → Run A → (A → Run B) → Run B
ret a >>= f = f a
throw >>= f = throw
diverge >>= f = diverge

-- `try { return m } catch { return fallback }`.
abbrev pub catch {ℓ} : {A : Type ℓ} → Run A → A → Run A
catch (ret a) fallback = ret a
catch throw fallback = ret fallback
catch diverge fallback = diverge

pub >>=-eq-ret {ℓ κ} :
    {A : Type ℓ} {B : Type κ} (m : Run A) (f : A → Run B) {b : B}
    → (m >>= f) ≡ ret b
    → (a : A) × (m ≡ ret a) × (f a ≡ ret b)
>>=-eq-ret (ret a) f h = (a, refl, h)
>>=-eq-ret throw f h = cc
>>=-eq-ret diverge f h = cc
