-- ===== src/Persist/Writing.antt =====
-- `serializeWorldValue` and `serializeClosure`: a value in the dump of the world.
use kjdmud.Base.{
  ℕ, zero, suc, ◌-◌, ◌||◌, Bool, Option, none, some, [], ◌∷◌, ◌++◌, length, if◌then◌else◌, ℤ, pos,
  negsuc,
}
use kjdmud.Core.Text.{Text, codes}
use kjdmud.Core.Errors.{Result, ok, err, ◌>>=◌, runtime}
use kjdmud.Core.Decimal.{to_string, digits}
use kjdmud.Vm.Value.{
  ClosureHead, Value, Items, Columns, Entries, int, float, str, object, null_array, array,
  null_mapping, mapping, closure, no_items, item, absent, columns, no_entries, entry,
}
use kjdmud.Vm.Save.Read.{count}

abbrev pub rows : Entries → ℕ
rows no_entries = 0
rows (entry k v cs es) = suc (rows es)

-- `(*mv)->width > 1` writes the width; `n` is the width less one.
unfoldable pub width_text : ℕ → Text
width_text zero = []
width_text (suc n) = b'w' ∷ digits (suc (suc n))

-- `n` times `Value(int64_t{0})`.
unfoldable pub zero_cells : ℕ → Text
zero_cells zero = []
zero_cells (suc n) = b'I' ∷ b'0' ∷ b';' ∷ zero_cells n

-- `owner.lock()` gives an object that `is_alive`; `id_of_object` is the table of ids.
module _ (is_alive : ℕ → Bool) (id_of_object : ℕ → Option ℕ) where
  unfoldable pub owner_id : Option ℕ → ℤ
  owner_id none = negsuc 0
  owner_id (some a) =
      if is_alive a then (elim (id_of_object a) [ none ↦ negsuc 0 | some i ↦ pos i ]) else negsuc 0

  -- Up to the number of bound arguments.
  unfoldable pub closure_text : ClosureHead → Text
  unfolding owner_id
  closure_text h =
      to_string (owner_id h.owner)
      ++ b';'
        ∷ (if h.force_efun then b'1' else b'0')
        ∷ b';'
        ∷ (digits (length h.function_name) ++ b':' ∷ h.function_name)

unfoldable pub object_text : (ℕ → Option ℕ) → Option ℕ → Result Text
object_text id_of_object none = ok (b'N' ∷ [])
object_text id_of_object (some a) = elim (id_of_object a) [
  | none ↦ err (runtime (codes "dump_state: object reference not found in id table"))
  | some i ↦ ok (b'O' ∷ (digits i ++ b';' ∷ []))
]

-- The stream writes a double by `show`. What stands in the file when an exception is thrown is not kept. A row of extra
-- columns that is shorter than the width, which no operation makes, is read by the code past its end;
-- here the row ends.
module _ (show : ℕ → Text) (is_alive : ℕ → Bool) (id_of_object : ℕ → Option ℕ) where
  unfoldable mutual
    unfolding width_text zero_cells closure_text object_text

    pub serialize : Value → Result Text
    serialize (int i) = ok (b'I' ∷ (to_string i ++ b';' ∷ []))
    serialize (float d) = ok (b'F' ∷ (show d ++ b';' ∷ []))
    serialize (str s) = ok (b'S' ∷ (digits (length s) ++ b':' ∷ s))
    serialize null_array = ok (codes "A0:")
    serialize (array xs) = serialize_items xs >>= λ t. ok (b'A' ∷ (digits (count xs) ++ b':' ∷ t))
    serialize null_mapping = ok (codes "M0:")
    serialize (mapping w es) = serialize_entries (w - 1) es >>= λ t.
        ok (b'M' ∷ (digits (rows es) ++ (width_text (w - 1) ++ b':' ∷ t)))
    serialize (object o) = object_text id_of_object o
    serialize (closure a h xs) =
        let args = serialize_items xs in
        if h.unbound_until_bound || h.quoted
        then err (runtime (codes "dump_state: cannot dump an unbound_lambda()/quoted-code closure"))
        else args >>= λ t.
            ok (b'C' ∷ (closure_text is_alive id_of_object h ++ (digits (count xs) ++ b';' ∷ t)))
    serialize _ = ok (b'N' ∷ [])

    pub serialize_items : Items → Result Text
    serialize_items no_items = ok []
    serialize_items (item x xs) = serialize x >>= λ t. serialize_items xs >>= λ u. ok (t ++ u)

    -- The columns behind the first of a row.
    pub serialize_cells : ℕ → Items → Result Text
    serialize_cells n no_items = ok []
    serialize_cells zero (item x xs) = ok []
    serialize_cells (suc n) (item x xs) =
        serialize x >>= λ t. serialize_cells n xs >>= λ u. ok (t ++ u)

    pub serialize_columns : ℕ → Columns → Result Text
    serialize_columns n absent = ok (zero_cells n)
    serialize_columns n (columns xs) = serialize_cells n xs

    pub serialize_entries : ℕ → Entries → Result Text
    serialize_entries n no_entries = ok []
    serialize_entries n (entry k v cs es) = serialize k >>= λ t. serialize v >>= λ u.
        serialize_columns n cs >>= λ c. serialize_entries n es >>= λ r. ok (t ++ (u ++ (c ++ r)))
