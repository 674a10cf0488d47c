-- ===== src/Base/Results.antt =====
-- Go's `(T, error)`: a value or an error.
use mathlib.Core.Path.{◌≡◌, refl}
use Prim.Native.String.{String}

-- What `fmt.Errorf` and `errors.New` make, and what comes from outside, told apart by its text.
pub data Error : Type 0 where
  error : String → Error

pub data Result {ℓ} (A : Type ℓ) : Type ℓ where
  ok : A → Result A
  err : Error → Result A

pub err-ne-ok {ℓ} : {A : Type ℓ} (e : Error) (a : A) → err e ≡ ok a → ⊥
err-ne-ok e a h = cc

module _ {ℓ κ} {A : Type ℓ} {B : Type κ} where
  infixl 5 ◌>>=◌
  abbrev pub ◌>>=◌ : Result A → (A → Result B) → Result B
  err e >>= next = err e
  ok x >>= next = next x

  -- Inversion of a successful bind.
  pub >>=-eq-ok :
      (r : Result A) (next : A → Result B) {y : B}
      → (r >>= next) ≡ ok y
      → (x : A) × (r ≡ ok x) × (next x ≡ ok y)
  >>=-eq-ok (err e) next {y} h = absurd (err-ne-ok e y h)
  >>=-eq-ok (ok x) next h = (x, refl, h)
