-- ===== src/Vm/Save/Format.antt =====
-- What the C library does with a double: `snprintf` with "%f", and `std::stod`.
use kjdmud.Base.{ℕ, ◌≡◌, ◌⊎◌, ◌<◌, [], ◌∷◌, ◌++◌, length}
use kjdmud.Core.Text.{Text}
use kjdmud.Core.Errors.{Result}
use kjdmud.Core.Decimal.{IsDigits}

pub record Format : Type 0 where
  pub format : ℕ → Text
  pub stod : Text → Result ℕ

-- The text of a finite double: a sign, digits, a point, digits.
pub record IsFixed (text : Text) : Type 0 where
  pub sign : Text
  pub whole : Text
  pub fraction : Text
  pub is_sign : (sign ≡ []) ⊎ (sign ≡ 45 ∷ [])
  pub whole_digits : IsDigits whole
  pub whole_some : 0 < length whole
  pub fraction_digits : IsDigits fraction
  pub parts : text ≡ sign ++ (whole ++ 46 ∷ fraction)
