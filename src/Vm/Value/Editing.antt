-- ===== src/Vm/Value/Editing.antt =====
-- The methods of `Mapping` in include/kjdmud/vm/Value.hpp: reading and writing a column of an entry,
-- adding an entry and erasing one. A column is counted from 0; an entry or a column past the end, which
-- the code does not test for, is `none`, and changes nothing when it is written.
use kjdmud.Base.{ℕ, zero, suc, ◌-◌, ◌≡◌, refl, ap, pos, Option, none, some, ltb, if◌then◌else◌}
use kjdmud.Vm.Value.{
  Value, void, int, Items, no_items, item, Columns, absent, columns, Entries, no_entries, entry,
}

unfoldable pub get_item : ℕ → Items → Option Value
get_item n no_items = none
get_item zero (item x xs) = some x
get_item (suc n) (item x xs) = get_item n xs

unfoldable pub set_item : ℕ → Value → Items → Items
set_item n v no_items = no_items
set_item zero v (item x xs) = item v xs
set_item (suc n) v (item x xs) = item x (set_item n v xs)

unfoldable pub get_extra : ℕ → Columns → Option Value
unfolding get_item
get_extra n absent = none
get_extra n (columns xs) = get_item n xs

unfoldable pub set_extra : ℕ → Value → Columns → Columns
unfolding set_item
set_extra n v absent = absent
set_extra n v (columns xs) = columns (set_item n v xs)

unfoldable pub get_column : ℕ → ℕ → Entries → Option Value
unfolding get_extra
get_column i col no_entries = none
get_column zero zero (entry k x cs es) = some x
get_column zero (suc c) (entry k x cs es) = get_extra c cs
get_column (suc i) col (entry k x cs es) = get_column i col es

unfoldable pub set_column : ℕ → ℕ → Value → Entries → Entries
unfolding set_extra
set_column i col v no_entries = no_entries
set_column zero zero v (entry k x cs es) = entry k v cs es
set_column zero (suc c) v (entry k x cs es) = entry k x (set_extra c v cs) es
set_column (suc i) col v (entry k x cs es) = entry k x cs (set_column i col v es)

-- The columns behind the first: those given, and 0 for the others.
unfoldable pub fill : ℕ → Items → Items
fill zero xs = no_items
fill (suc n) no_items = item (int (pos 0)) (fill n no_items)
fill (suc n) (item x xs) = item x (fill n xs)

unfoldable pub new_entry : ℕ → Value → Items → Entries
unfolding fill
new_entry width key no_items =
    entry key void (if ltb 1 width then columns (fill (width - 1) no_items) else absent) no_entries
new_entry width key (item x xs) =
    entry key x (if ltb 1 width then columns (fill (width - 1) xs) else absent) no_entries

unfoldable pub append : Entries → Entries → Entries
append no_entries fs = fs
append (entry k x cs es) fs = entry k x cs (append es fs)

unfoldable pub append_entry : ℕ → Value → Items → Entries → Entries
unfolding new_entry append
append_entry width key values es = append es (new_entry width key values)

unfoldable pub erase_at : ℕ → Entries → Entries
erase_at i no_entries = no_entries
erase_at zero (entry k x cs es) = es
erase_at (suc i) (entry k x cs es) = entry k x cs (erase_at i es)

abbrev pub size : Entries → ℕ
size no_entries = 0
size (entry k x cs es) = suc (size es)

-- Erasing the entry that was added last gives the entries of before.
pub erase_at-append_entry :
    (width : ℕ) (key : Value) (values : Items) (es : Entries)
    → erase_at (size es) (append_entry width key values es) ≡ es
unfolding erase_at append_entry
erase_at-append_entry width key no_items no_entries = refl
erase_at-append_entry width key (item x xs) no_entries = refl
erase_at-append_entry width key values (entry k x cs es) =
    ap (entry k x cs) (erase_at-append_entry width key values es)
