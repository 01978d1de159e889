-- ===== src/Core/Errors.antt =====
-- include/kjdmud/core/Errors.hpp: what a driver function throws, and a result that may be thrown.
use kjdmud.Base.{ℕ, ◌≡◌, ◌≢◌, refl, subst, List, arith}

-- The last three have no class of the driver: the exceptions of `std::stoll`, and the end of the
-- fuel of a recursion, which the code does not have.
pub data Error : Type 0 where
  runtime : List ℕ → Error
  not_implemented : List ℕ → Error
  invalid_argument out_of_range out_of_fuel : Error

-- What a call hands back: an exception on its way out, or the value.
pub data Result {ℓ} (V : Type ℓ) : Type ℓ where
  err : Error → Result V
  ok : V → Result V

-- An exception skips the rest of the function.
abbrev pub ◌>>=◌ {κ ℓ} : {V : Type κ} {W : Type ℓ} → Result V → (V → Result W) → Result W
err exception >>= rest = err exception
ok value >>= rest = rest value

infixl 5 ◌>>=◌
-- The run returns a value, and `P` holds of it.
abbrev pub Returns {ℓ κ} : {A : Type ℓ} → (A → Type κ) → Result A → Type (ℓ ⊔ κ)
Returns {A} P r = (a : A) × (r ≡ ok a) × P a

-- The run kept within its fuel, and `P` holds of its value if it has one.
pub data Ensures {ℓ κ} {A : Type ℓ} (P : A → Type κ) : Result A → Type (ℓ ⊔ κ) where
  holds : {a : A} → P a → Ensures P (ok a)
  thrown : {e : Error} → e ≢ out_of_fuel → Ensures P (err e)

module _ {ℓ κ} {A : Type ℓ} {P : A → Type κ} where
  pub Ensures-ok : {r : Result A} {a : A} → Ensures P r → r ≡ ok a → P a
  Ensures-ok (holds h) e = subst P (cc) h
  Ensures-ok (thrown n) e = cc

  pub Ensures-out_of_fuel : {r : Result A} → Ensures P r → r ≢ err out_of_fuel
  Ensures-out_of_fuel (holds h) = λ e. cc
  Ensures-out_of_fuel (thrown n) = λ e. n (ground arith)

  pub Ensures-bind {ℓ' κ'} :
      {B : Type ℓ'} {Q : B → Type κ'} {r : Result A} {f : A → Result B}
      → Ensures P r
      → ((a : A) → r ≡ ok a → P a → Ensures Q (f a))
      → Ensures Q (r >>= f)
  Ensures-bind (holds {a} h) k = k a refl h
  Ensures-bind (thrown n) k = thrown n
