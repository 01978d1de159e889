-- ===== src/Tests/Saved.antt =====
-- src/vm/SaveVariable.cpp and src/vm/Value.cpp on small values.
use kjdmud.Base.{◌≡◌, refl, [], ◌∷◌, ◌++◌, ℕ, arith, pos, some}
use kjdmud.Core.Text.{codes}
use kjdmud.Core.Errors.{ok, err, invalid_argument, out_of_fuel}
use kjdmud.Vm.Value.{
  Value, int, str, array, mapping, no_items, item, absent, no_entries, entry, object,
}
use kjdmud.Vm.Save.Format.{Format}
use kjdmud.Core.Decimal.{to_string}
use kjdmud.Vm.Save.Write.{write, write_string, zero_columns}
use kjdmud.Vm.Save.Read.{read_value}
use kjdmud.Vm.Save.Values.{restored, IsSavable}
use kjdmud.Vm.Save.RoundTrip.{read_value-write}
use kjdmud.Vm.Save.Restore.{restore_fuel}
use kjdmud.Vm.Save.TopLevel.{restore_fuel-write}
use kjdmud.Vm.Save.Stuck.{read_value_stuck}

-- Doubles are not written here.
abbrev format : Format
format = record { format = λ d. []; stod = λ s. err invalid_argument }

abbrev round : ℕ → ℕ
round d = d

-- `({ 7, ([ "a\"b": -1 ]) })` and an object that is saved as nothing.
abbrev saved : Value
saved = array (
    item (int (pos 7)) (
      item (mapping 1 (entry (str (codes "a\"b")) (int (pos 1)) absent no_entries))
        (item (object (some 3)) no_items)))

saved-IsSavable : IsSavable format round saved
unfolding IsSavable
saved-IsSavable = (omega arith, ((tt, omega arith, tt, tt), (tt, tt)))

write-saved : write format saved ≡ codes "({7,([\"a\\\"b\":1,]),,})"
unfolding write to_string write_string zero_columns
write-saved = refl

read_value-write_example :
    read_value format 60 (write format saved ++ codes ",") ≡ ok (restored round saved, codes ",")
unfolding write to_string write_string zero_columns
read_value-write_example =
    read_value-write format round saved (codes ",") 60 saved-IsSavable refl (omega arith)

restore_fuel-write_example : restore_fuel format 60 (write format saved) ≡ ok (restored round saved)
unfolding write to_string write_string zero_columns
restore_fuel-write_example = restore_fuel-write format round saved 60 saved-IsSavable (omega arith)

read_value_stuck_example : read_value format 60 (b'(' ∷ b'{' ∷ b'x' ∷ codes "})") ≡ err out_of_fuel
read_value_stuck_example = read_value_stuck format b'x' (codes "})") 60 refl refl
