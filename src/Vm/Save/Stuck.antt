-- ===== src/Vm/Save/Stuck.antt =====
-- The array loop of `parseRealSaveValue` on an element that is no value.
use kjdmud.Base.{arith, ℕ, zero, suc, ◌≡◌, refl, false, ◌||◌, ◌∷◌, ◌==◌}
use kjdmud.Core.Text.{Text}
use kjdmud.Core.Errors.{err, out_of_fuel}
use kjdmud.Vm.Save.Format.{Format}
use kjdmud.Vm.Save.Read.{skip_byte, read_value, read_items}
use kjdmud.Vm.Save.Heads.{is_open}

read_items_stuck :
    (f : Format) (c : ℕ) (s : Text) (n : ℕ)
    → is_open c ≡ false
    → (c == b'}' || c == b',') ≡ false
    → read_items f n (c ∷ s) ≡ err out_of_fuel
unfolding read_items read_value skip_byte
read_items_stuck f c s zero h k = refl
read_items_stuck f c s (suc zero) h k = ground arith
read_items_stuck f c s (suc (suc n)) h k = ground (arith, read_items_stuck f c s (suc n) h k)

-- An array whose first element begins with a byte that begins no value, and is neither a comma nor
-- the closing brace, is never read: whatever the fuel, it runs out.
pub read_value_stuck :
    (f : Format) (c : ℕ) (s : Text) (n : ℕ)
    → is_open c ≡ false
    → (c == b'}' || c == b',') ≡ false
    → read_value f n (b'(' ∷ b'{' ∷ c ∷ s) ≡ err out_of_fuel
unfolding read_value
read_value_stuck f c s zero h k = refl
read_value_stuck f c s (suc n) h k = rw (read_items_stuck f c s n h k)
