-- ===== src/Prelude/Panics.antt =====
-- What a call of synchronous code comes to: it returns, it panics, or the fuel of one of its loops
-- runs out.

pub data Run {ℓ} (A : Type ℓ) : Type ℓ where
  returns : A → Run A
  panics : Run A
  out_of_fuel : Run A

infixl 5 ◌>>=◌
abbrev pub ◌>>=◌ {ℓ κ} : {A : Type ℓ} {B : Type κ} → Run A → (A → Run B) → Run B
returns a >>= f = f a
panics >>= f = panics
out_of_fuel >>= f = out_of_fuel
