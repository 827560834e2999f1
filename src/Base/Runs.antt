-- ===== src/Base/Runs.antt =====
use mathlib.Core.Path.{◌≡◌, refl, ap, subst⁻¹}
use mathlib.Core.Logic.{◌≢◌}

-- A run ends with a value, spins for ever behind a message (`for (;;);`), does what C leaves
-- undefined, or is cut off because the fuel of a loop ran out.
pub data Run {ℓ} (A : Type ℓ) : Type ℓ where
  ok : A → Run A
  halt : Run A
  undefined : Run A
  out_of_fuel : Run A

infixl 5 ◌>>=◌
abbrev pub ◌>>=◌ {ℓ κ} : {A : Type ℓ} {B : Type κ} → Run A → (A → Run B) → Run B
ok a >>= f = f a
halt >>= f = halt
undefined >>= f = undefined
out_of_fuel >>= f = out_of_fuel

module _ {ℓ} {A : Type ℓ} where
  value_or : A → Run A → A
  value_or d (ok a) = a
  value_or d halt = d
  value_or d undefined = d
  value_or d out_of_fuel = d

  pub ok-injective : {a b : A} → ok a ≡ ok b → a ≡ b
  unfolding value_or
  ok-injective {a} e = ap (value_or a) e

  IsOk : Run A → Type 0
  IsOk (ok a) = Unit
  IsOk halt = ⊥
  IsOk undefined = ⊥
  IsOk out_of_fuel = ⊥

  ok-IsOk : (r : Run A) (a : A) → r ≡ ok a → IsOk r
  unfolding IsOk
  ok-IsOk r a e = subst⁻¹ IsOk e tt

pub out_of_fuel≢ok : {A : Type 0} (a : A) → out_of_fuel ≢ ok a
unfolding IsOk
out_of_fuel≢ok a e = ok-IsOk out_of_fuel a e

-- A run of two steps that ends with a value is one of each.
pub >>=-ok :
    {A B : Type 0} (r : Run A) (f : A → Run B) (b : B)
    → (r >>= f) ≡ ok b
    → (a : A) × (r ≡ ok a) × (f a ≡ ok b)
unfolding IsOk
>>=-ok (ok a) f b e = (a, refl, e)
>>=-ok halt f b e = absurd (ok-IsOk halt b e)
>>=-ok undefined f b e = absurd (ok-IsOk undefined b e)
>>=-ok out_of_fuel f b e = absurd (ok-IsOk out_of_fuel b e)
