-- ===== src/Vm/Save/Values.antt =====
-- Which values are saved without loss of form, and what is read back for them.
use kjdmud.Base.{ℕ, zero, suc, ◌-◌, ◌≤◌, ◌≡◌, pos, ◌∷◌, [], length, IsInt64, ◌==◌, if◌then◌else◌}
use kjdmud.Core.Text.{Text}
use kjdmud.Core.Errors.{ok}
use kjdmud.Vm.Value.{
  Value, Items, Columns, Entries, int, float, str, null_array, array, null_mapping, mapping,
  no_items, item, absent, columns, no_entries, entry,
}
use kjdmud.Vm.Save.Format.{Format, IsFixed}
use kjdmud.Vm.Save.Read.{count}

-- A carriage return is written as it is, and read as a line break.
unfoldable pub restored_bytes : Text → Text
restored_bytes [] = []
restored_bytes (c ∷ s) = (if c == b'\r' then b'\n' else c) ∷ restored_bytes s

abbrev pub zeros : ℕ → Items
zeros zero = no_items
zeros (suc n) = item (int (pos 0)) (zeros n)

-- `round` is what a double turns into when it is written and read.
module _ (round : ℕ → ℕ) where
  unfoldable mutual
    pub restored : Value → Value
    restored (int i) = int i
    restored (float d) = float (round d)
    restored (str s) = str (restored_bytes s)
    restored null_array = array no_items
    restored (array xs) = array (restored_items xs)
    restored null_mapping = mapping 1 no_entries
    restored (mapping w no_entries) = mapping 1 no_entries
    restored (mapping w (entry k v cs es)) = mapping (suc (w - 1)) (
        entry (restored k) (restored v) (restored_columns (w - 1) cs) (restored_entries (w - 1) es))
    restored _ = int (pos 0)

    pub restored_items : Items → Items
    restored_items no_items = no_items
    restored_items (item x xs) = item (restored x) (restored_items xs)

    pub restored_columns : ℕ → Columns → Columns
    restored_columns zero cs = absent
    restored_columns (suc n) absent = columns (zeros (suc n))
    restored_columns (suc n) (columns xs) = columns (restored_items xs)

    pub restored_entries : ℕ → Entries → Entries
    restored_entries n no_entries = no_entries
    restored_entries n (entry k v cs es) =
        entry (restored k) (restored v) (restored_columns n cs) (restored_entries n es)

-- Integers of 64 bits; doubles that are written within the buffer in fixed notation and read back;
-- rows of the mapping's width.
module _ (f : Format) (round : ℕ → ℕ) where
  unfoldable mutual
    pub IsSavable : Value → Type 0
    IsSavable (int i) = IsInt64 i
    IsSavable (float d) =
        IsFixed (f.format d) × (length (f.format d) ≤ 63) × (f.stod (f.format d) ≡ ok (round d))
    IsSavable (array xs) = AreSavable xs
    IsSavable (mapping w es) = IsTable (w - 1) es
    IsSavable _ = Unit

    pub AreSavable : Items → Type 0
    AreSavable no_items = Unit
    AreSavable (item x xs) = IsSavable x × AreSavable xs

    pub IsRow : ℕ → Columns → Type 0
    IsRow n absent = Unit
    IsRow n (columns xs) = (count xs ≡ n) × AreSavable xs

    pub IsTable : ℕ → Entries → Type 0
    IsTable n no_entries = Unit
    IsTable n (entry k v cs es) = IsSavable k × IsSavable v × IsRow n cs × IsTable n es
