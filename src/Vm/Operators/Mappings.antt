-- ===== src/Vm/Operators/Mappings.antt =====
-- src/vm/VM.cpp, `OpCode::Add` of two mappings. A mapping is its width and its entries, each with its
-- columns; reading columns past the end of `extraColumns`, which the code does not test for, leaves the
-- entry without them.
use kjdmud.Base.{ℕ, zero, suc, ◌-◌, Bool, true, false, Option, none, some, ltb, ◌==◌, if◌then◌else◌}
use kjdmud.Core.Text.{codes}
use kjdmud.Vm.Value.{
  Value, void, Items, no_items, item, null_mapping, mapping, Columns, absent, columns, Entries,
  no_entries, entry, values_equal,
}
use kjdmud.Vm.Value.Editing.{append}
use kjdmud.Vm.Store.{Outcome, value, thrown, lpc_error}

-- A shared pointer to a mapping: null, or its width and its entries.
pub data KeyedMap : Type 0 where
  missing : KeyedMap
  present : ℕ → Entries → KeyedMap

abbrev pub keyed : Value → Option KeyedMap
keyed null_mapping = some missing
keyed (mapping w es) = some (present w es)
keyed _ = none

-- `extraColumns.empty()`.
abbrev pub no_columns : Entries → Bool
no_columns no_entries = true
no_columns (entry k x absent es) = true
no_columns (entry k x (columns xs) es) = false

-- `extraColumns.push_back`.
unfoldable pub push_columns : Columns → Entries → Entries
push_columns cs no_entries = no_entries
push_columns cs (entry k x absent es) = entry k x cs es
push_columns cs (entry k x (columns xs) es) = entry k x (columns xs) (push_columns cs es)

-- `std::vector<Value>(n)`.
unfoldable pub voids : ℕ → Items
voids zero = no_items
voids (suc n) = item void (voids n)

abbrev pub has_key : Value → Entries → Bool
has_key key no_entries = false
has_key key (entry k x cs es) = if values_equal k key then true else has_key key es

-- The value of the first entry of the key, and its columns unless they are `none`.
unfoldable pub replace : Value → Value → Option Columns → Entries → Entries
replace key v cols no_entries = no_entries
replace key v cols (entry k x cs es) =
    let rest = replace key v cols es in
    if values_equal k key
    then entry k v (elim cols [ none ↦ cs | some new ↦ new ]) es
    else entry k x cs rest

-- An entry of the right mapping; `bare` is whether that has no columns at all.
unfoldable pub join_entry : ℕ → Bool → Value → Value → Columns → Entries → Entries
unfolding push_columns voids replace append
join_entry width bare key v cs es =
    let new : Columns = if bare then columns (voids (width - 1)) else cs in
    let grown : Entries = append es (entry key v absent no_entries) in
    if has_key key es
    then replace key v (if no_columns es then none else some new) es
    else (if ltb 1 width then push_columns new grown else grown)

unfoldable pub join_entries : ℕ → Bool → Entries → Entries → Entries
unfolding join_entry
join_entries width bare es no_entries = es
join_entries width bare es (entry k v cs rest) =
    join_entries width bare (join_entry width bare k v cs es) rest

unfoldable pub union_mappings : KeyedMap → KeyedMap → Outcome Value Value
unfolding join_entries
union_mappings missing missing = value (mapping 1 no_entries)
union_mappings missing (present w es) =
    value (mapping w (join_entries w (no_columns es) no_entries es))
union_mappings (present w es) missing = value (mapping w es)
union_mappings (present w es) (present u fs) =
    if w == u
    then value (mapping w (join_entries w (no_columns fs) es fs))
    else thrown (lpc_error (codes "Add: mappings of different width"))
