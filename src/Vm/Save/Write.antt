-- ===== src/Vm/Save/Write.antt =====
-- `writeRealSaveValue`.
use kjdmud.Base.{ℕ, zero, suc, ◌-◌, ◌||◌, [], ◌∷◌, ◌++◌, ◌==◌, if◌then◌else◌, take}
use kjdmud.Core.Text.{Text, codes}
use kjdmud.Core.Decimal.{to_string}
use kjdmud.Vm.Value.{
  Value, Items, Columns, Entries, void, int, float, str, null_array, array, null_mapping, mapping,
  no_items, item, absent, columns, no_entries, entry,
}
use kjdmud.Vm.Save.Format.{Format}

unfoldable pub write_bytes : Text → Text
write_bytes [] = []
write_bytes (c ∷ s) =
    let rest = write_bytes s in
    if c == b'"' || c == b'\\'
    then b'\\' ∷ c ∷ rest
    else if c == b'\n'
    then b'\r' ∷ rest
    else c ∷ rest

unfoldable pub write_string : Text → Text
unfolding write_bytes
write_string s = b'"' ∷ (write_bytes s ++ b'"' ∷ [])

-- `width - 1` times `;0`.
unfoldable pub zero_columns : ℕ → Text
zero_columns zero = []
zero_columns (suc n) = b';' ∷ b'0' ∷ zero_columns n

-- `snprintf` into `buf[64]` keeps 63 bytes. A row of extra columns that is shorter than the width,
-- which no operation makes, is read by the code past its end; here the row ends.
module _ (f : Format) where
  unfoldable mutual
    pub write : Value → Text
    write void = b'0' ∷ []
    write (int i) = to_string i
    write (float d) = take 63 (f.format d)
    write (str s) = write_string s
    write null_array = codes "({})"
    write (array xs) = b'(' ∷ b'{' ∷ (write_items xs ++ codes "})")
    write null_mapping = codes "([])"
    write (mapping w es) = b'(' ∷ b'[' ∷ (write_entries (w - 1) es ++ codes "])")
    write _ = []

    pub write_items : Items → Text
    write_items no_items = []
    write_items (item x xs) = write x ++ b',' ∷ write_items xs

    -- The columns behind the first of a row.
    pub write_cells : ℕ → Items → Text
    write_cells n no_items = []
    write_cells zero (item x xs) = []
    write_cells (suc n) (item x xs) = b';' ∷ (write x ++ write_cells n xs)

    pub write_columns : ℕ → Columns → Text
    write_columns n absent = zero_columns n
    write_columns n (columns xs) = write_cells n xs

    pub write_entries : ℕ → Entries → Text
    write_entries n no_entries = []
    write_entries n (entry k v cs es) =
        write k ++ b':' ∷ (write v ++ (write_columns n cs ++ b',' ∷ write_entries n es))
