-- ===== src/Vm/Save/Heads.antt =====
-- How the text of a saved value begins, so that the loops of the reader go on.
use kjdmud.Base.{
  ℕ, suc, ◌<◌, ◌≡◌, refl, ap, ◌∙◌, ◌⊎◌, inl, inr, ℤ, pos, negsuc, Bool, true, ◌||◌, [], ◌∷◌, ◌++◌,
  append-nil, arith, length, ◌==◌, take_all,
}
use kjdmud.Core.Text.{Text}
use kjdmud.Core.Decimal.{digits, to_string, IsDigits, starts_digit, starts_digit-digits}
use kjdmud.Vm.Value.{Value, void, int, float, str, array, mapping, null_array, null_mapping}
use kjdmud.Vm.Save.Format.{Format, IsFixed}
use kjdmud.Vm.Save.Write.{write, write_string}
use kjdmud.Vm.Save.Read.{starts_number}
use kjdmud.Vm.Save.Values.{restored, IsSavable}

-- A quote, an opening parenthesis, a sign or a digit.
abbrev pub is_open : ℕ → Bool
is_open c = c == b'"' || c == b'(' || starts_number c

abbrev pub Opens : Text → Type 0
Opens s = (c : ℕ) × (r : Text) × (s ≡ c ∷ r) × (is_open c ≡ true)

abbrev pub Numeric : Text → Type 0
Numeric s = (c : ℕ) × (r : Text) × (s ≡ c ∷ r) × (starts_number c ≡ true)

Numeric-Opens : (s : Text) → Numeric s → Opens s
Numeric-Opens s (c, r, e, h) = (c, r, e, ground arith)

digit-Numeric : (s : Text) → starts_digit s ≡ true → Numeric s
unfolding starts_digit
digit-Numeric [] h = cc
digit-Numeric (c ∷ s) h = (c, s, refl, ground arith)

pub int-Numeric : (i : ℤ) → Numeric (to_string i)
unfolding to_string
int-Numeric (pos n) = digit-Numeric (digits n) (rw append-nil at (starts_digit-digits n []))
int-Numeric (negsuc n) = (b'-', digits (suc n), refl, refl)

digits-Numeric : (s t : Text) → IsDigits s → 0 < length s → Numeric (s ++ t)
digits-Numeric [] t h k = absurd (omega arith)
digits-Numeric (c ∷ s) t h k = (c, s ++ t, refl, ground arith)

pub fixed-Numeric : (text : Text) → IsFixed text → Numeric text
fixed-Numeric text x = go x.is_sign
  where
    go : (x.sign ≡ []) ⊎ (x.sign ≡ 45 ∷ []) → Numeric text
    go (inl p) =
        rw (x.parts, p) (digits-Numeric x.whole (46 ∷ x.fraction) x.whole_digits x.whole_some)
    go (inr p) = (
      45,
      x.whole ++ 46 ∷ x.fraction,
      x.parts ∙ ap (λ s. s ++ (x.whole ++ 46 ∷ x.fraction)) p,
      refl,
    )

-- A value is written as nothing, and is then read as 0, or its text opens a value.
pub write-head :
    (f : Format) (round : ℕ → ℕ) (v : Value)
    → IsSavable f round v
    → ((write f v ≡ []) × (restored round v ≡ int (pos 0))) ⊎ Opens (write f v)
unfolding write restored IsSavable write_string
write-head f round void h = inr (b'0', [], refl, refl)
write-head f round (int i) h = inr (Numeric-Opens (to_string i) (int-Numeric i))
write-head f round (float d) h = inr (
    rw (take_all 63 (f.format d) h.1) (Numeric-Opens (f.format d) (fixed-Numeric (f.format d) h.0)))
write-head f round (str s) h = inr (b'"', _, refl, refl)
write-head f round (array xs) h = inr (b'(', _, refl, refl)
write-head f round null_array h = inr (b'(', _, refl, refl)
write-head f round null_mapping h = inr (b'(', _, refl, refl)
write-head f round (mapping w es) h = inr (b'(', _, refl, refl)
write-head f round _ h = inl (refl, refl)
