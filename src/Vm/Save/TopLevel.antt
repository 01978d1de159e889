-- ===== src/Vm/Save/TopLevel.antt =====
-- `parseRestoreVariableTopLevel` reads back a single value that `writeRealSaveValue` wrote.
use kjdmud.Base.{
  suc, ◌≢◌, ℕ, ◌*◌, ◌<◌, ◌≡◌, refl, sym, ap, ◌∙◌, ◌⊎◌, inl, inr, ℤ, pos, negsuc, true, false, ◌||◌,
  [], ◌∷◌, ◌++◌, append-nil, arith, length, ◌==◌, take_all, Bool-cases,
}
use kjdmud.Core.Text.{Text}
use kjdmud.Core.Errors.{ok, ◌>>=◌}
use kjdmud.Core.Decimal.{digits, to_string, IsDigits, starts_digit, starts_digit-digits}
use kjdmud.Vm.Value.{Value, void, int, float, str, null_array, array, null_mapping, mapping}
use kjdmud.Vm.Save.Format.{Format, IsFixed}
use kjdmud.Vm.Save.Write.{write, write_bytes, write_string}
use kjdmud.Vm.Save.Read.{starts_number, is_at, skip_any, unescaped, read_number, read_value}
use kjdmud.Vm.Save.Restore.{prepend, restore_string, restore_number, restore_fuel}
use kjdmud.Vm.Save.Values.{restored, restored_bytes, IsSavable}
use kjdmud.Vm.Save.Pieces.{read_number-int, read_number-fixed}
use kjdmud.Vm.Save.Heads.{Numeric, int-Numeric, fixed-Numeric}
use kjdmud.Vm.Save.RoundTrip.{read_value-write}

restore_string_plain :
    (c : ℕ) (s : Text)
    → (c == b'"') ≡ false
    → (c == b'\\') ≡ false
    → 0 < length s
    → restore_string (c ∷ s) ≡ prepend (unescaped c) (restore_string s)
unfolding restore_string
restore_string_plain c [] h k b = absurd (omega arith)
restore_string_plain c (e ∷ s) h k b = rw (h, k)

restore_string_escape :
    (e : ℕ) (s : Text) → restore_string (b'\\' ∷ e ∷ s) ≡ prepend (unescaped e) (restore_string s)
unfolding restore_string
restore_string_escape e s = refl

closed_some : (s : Text) → 0 < length (s ++ b'"' ∷ [])
closed_some [] = omega arith
closed_some (c ∷ s) = omega arith

restore_string-write_bytes :
    (s : Text) → restore_string (write_bytes s ++ b'"' ∷ []) ≡ ok (restored_bytes s)
unfolding write_bytes restored_bytes
restore_string-write_bytes [] = unfold restore_string in refl
restore_string-write_bytes (c ∷ s) =
    let more = restore_string-write_bytes s in
    let some_more = closed_some (write_bytes s) in
    elim (Bool-cases (c == b'"' || c == b'\\')) [
      | inl special ↦ rw (special, restore_string_escape c _, more) (ground arith)
      | inr plain ↦ elim (Bool-cases (c == b'\n')) [
        | inl line ↦
            rw (plain, line, restore_string_plain b'\r' _ refl refl some_more, more) (ground arith)
        | inr same ↦
            rw (plain, same, restore_string_plain c _ (ground arith) (ground arith) some_more, more)
      ]
    ]

module _ (f : Format) where
  -- A sign has a digit behind it.
  abbrev Signed : Text → Type 0
  Signed s = is_at b'-' s ≡ true → starts_digit (skip_any s) ≡ true

  restore_number-read_number :
      (s : Text) → Signed s → restore_number f s ≡ (read_number f s >>= λ r. ok r.0)
  unfolding restore_number read_number
  restore_number-read_number s h = elim (Bool-cases (is_at b'-' s)) [
    | inl minus ↦ rw (minus, h minus)
    | inr plain ↦ rw plain
  ]

  restore_fuel_signed :
      (n c : ℕ) (r : Text)
      → starts_number c ≡ true
      → restore_fuel f n (c ∷ r) ≡ restore_number f (c ∷ r)
  unfolding restore_fuel
  restore_fuel_signed n c r h = ground arith

  restore_fuel_number :
      (n : ℕ) (s : Text) (v : Value)
      → Numeric s
      → Signed s
      → read_number f s ≡ ok (v, [])
      → restore_fuel f n s ≡ ok v
  restore_fuel_number n s v (c, r, e, h) signed k =
      ap (restore_fuel f n) e
      ∙ restore_fuel_signed n c r h
      ∙ sym (ap (restore_number f) e)
      ∙ restore_number-read_number s signed
      ∙ ap (λ m. m >>= λ q. ok q.0) k

digits-unsigned : (s : Text) → starts_digit s ≡ true → is_at b'-' s ≢ true
unfolding starts_digit
digits-unsigned [] k = λ e. cc
digits-unsigned (c ∷ s) k = λ e. ground arith

int-Signed : (f : Format) (i : ℤ) → Signed f (to_string i)
unfolding to_string
int-Signed f (pos n) h =
    absurd (digits-unsigned (digits n) (rw append-nil at (starts_digit-digits n [])) h)
int-Signed f (negsuc n) h = rw append-nil at (starts_digit-digits (suc n) [])

starts-append :
    (s t : Text)
    → IsDigits s
    → 0 < length s
    → (starts_digit (s ++ t) ≡ true) × (is_at b'-' (s ++ t) ≡ false)
unfolding starts_digit
starts-append [] t h k = absurd (omega arith)
starts-append (c ∷ s) t h k = (h.0, ground arith)

fixed-Signed : (f : Format) (text : Text) → IsFixed text → Signed f text
fixed-Signed f text x h = go x.is_sign
  where
    digits_first :
        (starts_digit (x.whole ++ 46 ∷ x.fraction) ≡ true)
        × (is_at b'-' (x.whole ++ 46 ∷ x.fraction) ≡ false)
    digits_first = starts-append x.whole (46 ∷ x.fraction) x.whole_digits x.whole_some

    go : (x.sign ≡ []) ⊎ (x.sign ≡ 45 ∷ []) → starts_digit (skip_any text) ≡ true
    go (inl p) = absurd (
        ground (
          arith,
          ap (is_at b'-') (x.parts ∙ ap (λ t. t ++ (x.whole ++ 46 ∷ x.fraction)) p),
          digits_first.1,
          h,
        ))
    go (inr p) =
        ap (λ t. starts_digit (skip_any t))
          (x.parts ∙ ap (λ t. t ++ (x.whole ++ 46 ∷ x.fraction)) p)
        ∙ digits_first.0

compound :
    (f : Format) (round : ℕ → ℕ) (v : Value) (n : ℕ)
    → IsSavable f round v
    → 2 * length (write f v) < n
    → is_at b'(' (write f v) ≡ true
    → restore_fuel f n (write f v) ≡ ok (restored round v)
compound f round v n h b p =
    opens (write f v) p
    ∙ ap (λ m. m >>= λ r. ok r.0)
        (ap (read_value f n) (sym (append-nil (write f v)))
          ∙ read_value-write f round v [] n h refl b)
  where
    opens :
        (s : Text) → is_at b'(' s ≡ true → restore_fuel f n s ≡ (read_value f n s >>= λ r. ok r.0)
    opens [] k = cc
    opens (c ∷ s) k = unfold restore_fuel in ground arith

restored_zero : (f : Format) (n : ℕ) → restore_fuel f n (b'0' ∷ []) ≡ ok (int (pos 0))
unfolding to_string
restored_zero f n =
    restore_fuel_number f n (b'0' ∷ []) (int (pos 0)) (b'0', [], refl, refl) (int-Signed f (pos 0))
      (read_number-int f (pos 0) [] (omega arith) refl)

-- For a value whose integers are of 64 bits, whose doubles are written within the buffer in fixed
-- notation and read back, and whose mapping rows have the mapping's width, the text that `write` makes
-- is restored to the restored value, if the fuel is more than twice the length of the text.
pub restore_fuel-write :
    (f : Format) (round : ℕ → ℕ) (v : Value) (n : ℕ)
    → IsSavable f round v
    → 2 * length (write f v) < n
    → restore_fuel f n (write f v) ≡ ok (restored round v)
unfolding write restored IsSavable write_string
restore_fuel-write f round void n h b = restored_zero f n
restore_fuel-write f round (int i) n h b =
    restore_fuel_number f n (to_string i) (int i) (int-Numeric i) (int-Signed f i)
      (rw append-nil at (read_number-int f i [] h refl))
restore_fuel-write f round (float d) n h b = rw (take_all 63 (f.format d) h.1) (
    restore_fuel_number f n (f.format d) (float (round d)) (fixed-Numeric (f.format d) h.0)
      (fixed-Signed f (f.format d) h.0)
      (rw append-nil at (read_number-fixed f (round d) (f.format d) [] h.0 refl h.2)))
restore_fuel-write f round (str s) n h b =
    unfold restore_fuel in ap (λ m. m >>= λ t. ok (str t)) (restore_string-write_bytes s)
restore_fuel-write f round (array xs) n h b = compound f round (array xs) n h b refl
restore_fuel-write f round null_array n h b = compound f round null_array n h b refl
restore_fuel-write f round (mapping w es) n h b = compound f round (mapping w es) n h b refl
restore_fuel-write f round null_mapping n h b = compound f round null_mapping n h b refl
restore_fuel-write f round _ n h b = unfold restore_fuel in refl
