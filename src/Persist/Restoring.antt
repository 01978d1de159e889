-- ===== src/Persist/Restoring.antt =====
-- Which values can be dumped, and what comes back for them.
use kjdmud.Base.{
  ℕ, suc, ◌-◌, ◌<◌, ◌^◌, ◌≡◌, Bool, true, false, Option, none, some, pos, ℤ, IsInt64, ◌||◌,
  if◌then◌else◌,
}
use kjdmud.Core.Text.{Text}
use kjdmud.Core.Errors.{Result, ok}
use kjdmud.Core.Split.{Lacks}
use kjdmud.Vm.Value.{
  ClosureHead, Value, Items, Columns, Entries, void, nil, int, float, str, symbol, object,
  null_array, array, null_mapping, mapping, null_closure, closure, null_buffer, buffer, no_items,
  item, absent, columns, no_entries, entry,
}
use kjdmud.Vm.Save.Read.{count}
use kjdmud.Vm.Save.Values.{zeros}

-- What has no text of its own.
abbrev pub is_dropped : Value → Bool
is_dropped void = true
is_dropped nil = true
is_dropped (symbol s) = true
is_dropped (object none) = true
is_dropped null_closure = true
is_dropped null_buffer = true
is_dropped (buffer a bs) = true
is_dropped _ = false

-- An object of the dump in the restored world.
abbrev pub found : Option ℕ → Value
found none = void
found (some a) = object (some a)

-- `round` is what a double turns into when it is shown and read.
module _ (round : ℕ → ℕ) (is_alive : ℕ → Bool) (id_of_object : ℕ → Option ℕ)
    (object_of_id : ℤ → Option ℕ) where
  abbrev pub restored_owner : Option ℕ → Option ℕ
  restored_owner none = none
  restored_owner (some a) =
      if is_alive a
      then (elim (id_of_object a) [ none ↦ none | some i ↦ object_of_id (pos i) ])
      else none

  abbrev pub restored_head : ClosureHead → ClosureHead
  restored_head h = record {
    owner = restored_owner h.owner;
    function_name = h.function_name;
    force_efun = h.force_efun;
    unbound_until_bound = false;
    quoted = false;
  }

  -- The second value comes back for the first. A closure has a new address.
  mutual
    pub data Restores : Value → Value → Type 0 where
      dropped_is_void : (v : Value) → is_dropped v ≡ true → Restores v void
      int_is_same : (i : ℤ) → Restores (int i) (int i)
      float_is_rounded : (d : ℕ) → Restores (float d) (float (round d))
      str_is_same : (s : Text) → Restores (str s) (str s)
      object_is_found :
          (a i : ℕ)
          → id_of_object a ≡ some i
          → Restores (object (some a)) (found (object_of_id (pos i)))
      null_is_empty : Restores null_array (array no_items)
      array_is_restored : {xs ys : Items} → RestoresItems xs ys → Restores (array xs) (array ys)
      null_has_no_rows : Restores null_mapping (mapping 1 no_entries)
      mapping_is_restored :
          (w : ℕ) {es fs : Entries}
          → RestoresEntries (w - 1) es fs
          → Restores (mapping w es) (mapping (suc (w - 1)) fs)
      closure_is_rebuilt :
          (a b : ℕ) (h : ClosureHead) {xs ys : Items}
          → RestoresItems xs ys
          → Restores (closure a h xs) (closure b (restored_head h) ys)

    pub data RestoresItems : Items → Items → Type 0 where
      no_items_left : RestoresItems no_items no_items
      item_is_restored :
          {x y : Value} {xs ys : Items}
          → Restores x y
          → RestoresItems xs ys
          → RestoresItems (item x xs) (item y ys)

    -- The columns behind the first of a row, of which there are so many.
    pub data RestoresColumns : ℕ → Columns → Columns → Type 0 where
      no_columns : (cs : Columns) → RestoresColumns 0 cs absent
      absent_is_zeros :
          (n : ℕ) {ys : Items}
          → RestoresItems (zeros (suc n)) ys
          → RestoresColumns (suc n) absent (columns ys)
      columns_are_restored :
          (n : ℕ) {xs ys : Items}
          → RestoresItems xs ys
          → RestoresColumns (suc n) (columns xs) (columns ys)

    pub data RestoresEntries : ℕ → Entries → Entries → Type 0 where
      no_entries_left : (n : ℕ) → RestoresEntries n no_entries no_entries
      entry_is_restored :
          {n : ℕ} {k l v w : Value} {cs ds : Columns} {es fs : Entries}
          → Restores k l
          → Restores v w
          → RestoresColumns n cs ds
          → RestoresEntries n es fs
          → RestoresEntries n (entry k v cs es) (entry l w ds fs)

  pub null_array-Restores :
      (ys : Items) → RestoresItems no_items ys → Restores null_array (array ys)
  null_array-Restores no_items no_items_left = null_is_empty
  null_array-Restores (item _ _) r = elim r [ ]

  pub null_mapping-Restores :
      (fs : Entries) → RestoresEntries 0 no_entries fs → Restores null_mapping (mapping 1 fs)
  null_mapping-Restores no_entries (no_entries_left n) = null_has_no_rows
  null_mapping-Restores (entry _ _ _ _) r = elim r [ ]

-- A bound closure, whose body is a function's name.
abbrev pub IsBound : ClosureHead → Type 0
IsBound h = (h.unbound_until_bound || h.quoted) ≡ false

-- Integers of 64 bits; doubles whose text the reader takes for `round` of it; objects with an id;
-- bound closures; mappings of 31-bit width whose rows have it.
module _ (show : ℕ → Text) (stod : Text → Result ℕ) (round : ℕ → ℕ)
    (id_of_object : ℕ → Option ℕ) where
  abbrev pub HasId : ℕ → Type 0
  HasId a = (i : ℕ) × (id_of_object a ≡ some i)

  unfoldable mutual
    pub IsDumpable : Value → Type 0
    IsDumpable (int i) = IsInt64 i
    IsDumpable (float d) = Lacks b';' (show d) × (stod (show d) ≡ ok (round d))
    IsDumpable (object (some a)) = HasId a
    IsDumpable (array xs) = AreDumpable xs
    IsDumpable (mapping w es) = (w < 2 ^ 31) × IsTable (w - 1) es
    IsDumpable (closure a h xs) = IsBound h × AreDumpable xs
    IsDumpable _ = Unit

    pub AreDumpable : Items → Type 0
    AreDumpable no_items = Unit
    AreDumpable (item x xs) = IsDumpable x × AreDumpable xs

    pub IsRow : ℕ → Columns → Type 0
    IsRow n absent = Unit
    IsRow n (columns xs) = (count xs ≡ n) × AreDumpable xs

    pub IsTable : ℕ → Entries → Type 0
    IsTable n no_entries = Unit
    IsTable n (entry k v cs es) = IsDumpable k × IsDumpable v × IsRow n cs × IsTable n es
