-- ===== src/Persist/Dumping.antt =====
-- Every value that can be dumped has a text that is read back.
use kjdmud.Base.{
  ℕ, ◌-◌, ◌^◌, ◌<◌, ◌≤◌, ◌≡◌, refl, sym, ap, ◌∙◌, Bool, true, Option, none, some, [], ◌∷◌, ◌++◌,
  length, length-append, arith, ℤ,
}
use kjdmud.Core.Text.{Text}
use kjdmud.Core.Errors.{Result, ok, ◌>>=◌, Returns}
use kjdmud.Core.Decimal.{digits}
use kjdmud.Vm.Value.{
  Value, Items, Columns, Entries, void, nil, int, float, str, symbol, object, null_array, array,
  null_mapping, mapping, null_closure, closure, null_buffer, buffer, no_items, item, absent,
  columns, no_entries, entry,
}
use kjdmud.Vm.Save.Read.{count}
use kjdmud.Persist.Writing.{
  serialize, serialize_items, serialize_cells, serialize_columns, serialize_entries, rows,
  width_text, zero_cells, closure_text, object_text,
}
use kjdmud.Persist.Restoring
use kjdmud.Persist.Restoring.{IsDumpable, AreDumpable, IsRow, IsTable}
use kjdmud.Persist.Steps
use kjdmud.Persist.Scalars
use kjdmud.Persist.Arrays
use kjdmud.Persist.Tables
use kjdmud.Persist.Closures

module _ (show : ℕ → Text) (stod : Text → Result ℕ) (round : ℕ → ℕ) (is_alive : ℕ → Bool)
    (id_of_object : ℕ → Option ℕ) (object_of_id : ℤ → Option ℕ)
    (small_ids : (a i : ℕ) → id_of_object a ≡ some i → i < 2 ^ 63) where
  -- A text is written, and it is read back.
  abbrev pub Dumps : Value → Type 0
  Dumps v =
      Returns (λ t. (0 < length t) × Steps.Reads stod round is_alive id_of_object object_of_id v t)
        (serialize show is_alive id_of_object v)

  abbrev DumpsItems : Items → Type 0
  DumpsItems xs =
      Returns
        (λ t.
          (count xs ≤ length t)
          × Steps.ReadsItems stod round is_alive id_of_object object_of_id xs t)
        (serialize_items show is_alive id_of_object xs)

  abbrev DumpsColumns : ℕ → Columns → Type 0
  DumpsColumns w cs =
      Returns (λ t. Steps.ReadsColumns stod round is_alive id_of_object object_of_id w cs t)
        (serialize_columns show is_alive id_of_object w cs)

  abbrev DumpsEntries : ℕ → Entries → Type 0
  DumpsEntries w es =
      Returns
        (λ t.
          (rows es ≤ length t)
          × Steps.ReadsEntries stod round is_alive id_of_object object_of_id w es t)
        (serialize_entries show is_alive id_of_object w es)

  cells-items :
      (xs : Items)
      → serialize_cells show is_alive id_of_object (count xs) xs
        ≡ serialize_items show is_alive id_of_object xs
  unfolding serialize
  cells-items no_items = refl
  cells-items (item x xs) =
      ap (λ r. serialize show is_alive id_of_object x >>= λ t. r >>= λ u. ok (t ++ u))
        (cells-items xs)

  dropped-Dumps :
      (v : Value)
      → Restoring.is_dropped v ≡ true
      → serialize show is_alive id_of_object v ≡ ok (b'N' ∷ [])
      → Dumps v
  dropped-Dumps v dropped e = (
    b'N' ∷ [],
    e,
    (omega arith, Scalars.dropped-Reads stod round is_alive id_of_object object_of_id v dropped),
  )

  none_left :
      (xs : Items) (t : Text)
      → serialize_items show is_alive id_of_object xs ≡ ok t
      → count xs ≡ 0
      → t ≡ []
  unfolding serialize
  none_left no_items t e h = ground (arith, e)
  none_left (item x xs) t e h = absurd (omega (arith, h))

  object_text-id :
      (a i : ℕ)
      → id_of_object a ≡ some i
      → object_text id_of_object (some a) ≡ ok (b'O' ∷ (digits i ++ b';' ∷ []))
  unfolding object_text
  object_text-id a i e = rw (e, object_text) refl

  null_array-Dumps : Dumps null_array
  unfolding serialize digits
  null_array-Dumps = (
    _,
    refl,
    (
      omega arith,
      Arrays.array-Reads stod round is_alive id_of_object object_of_id null_array no_items []
          (λ ys r. Restoring.null_array-Restores round is_alive id_of_object object_of_id ys r)
          (omega arith) (Arrays.no_items-Reads stod round is_alive id_of_object object_of_id),
    ),
  )

  null_mapping-Dumps : Dumps null_mapping
  unfolding serialize digits width_text
  null_mapping-Dumps = (
    _,
    refl,
    (
      omega arith,
      Tables.mapping-Reads stod round is_alive id_of_object object_of_id null_mapping 0 no_entries
          [] (λ fs r. Restoring.null_mapping-Restores round is_alive id_of_object object_of_id fs r)
          (omega arith) (omega arith)
          (Tables.no_entries-Reads stod round is_alive id_of_object object_of_id 0),
    ),
  )

  mutual
    unfolding serialize IsDumpable object_text

    pub value-Dumps : (v : Value) → IsDumpable show stod round id_of_object v → Dumps v
    value-Dumps (int i) h = (
      _,
      refl,
      (omega arith, Scalars.int-Reads stod round is_alive id_of_object object_of_id i h),
    )
    value-Dumps (float d) h = (
      _,
      refl,
      (
        omega arith,
        Scalars.float-Reads stod round is_alive id_of_object object_of_id show d h.0 h.1,
      ),
    )
    value-Dumps (str t) h =
        (_, refl, (omega arith, Scalars.str-Reads stod round is_alive id_of_object object_of_id t))
    value-Dumps null_array h = null_array-Dumps
    value-Dumps (array xs) h =
        let (t, e, (few, reads)) = items-Dumps xs h in
        (
          b'A' ∷ (digits (count xs) ++ b':' ∷ t),
          rw e refl,
          (
            omega arith,
            Arrays.array-Reads stod round is_alive id_of_object object_of_id (array xs) xs t
                (λ ys r. Restoring.array_is_restored r) few reads,
          ),
        )
    value-Dumps null_mapping h = null_mapping-Dumps
    value-Dumps (mapping w es) h =
        let (t, e, (few, reads)) = entries-Dumps (w - 1) es h.1 in
        (
          b'M' ∷ (digits (rows es) ++ (width_text (w - 1) ++ b':' ∷ t)),
          rw e refl,
          (
            omega arith,
            Tables.mapping-Reads stod round is_alive id_of_object object_of_id (mapping w es)
                (w - 1) es t (λ fs r. Restoring.mapping_is_restored w r) (omega arith) few reads,
          ),
        )
    value-Dumps (object none) h = dropped-Dumps (object none) refl refl
    value-Dumps (object (some a)) h = (
      b'O' ∷ (digits (h.0) ++ b';' ∷ []),
      object_text-id a h.0 h.1,
      (
        omega arith,
        Scalars.object-Reads stod round is_alive id_of_object object_of_id a h.0 h.1
            (small_ids a h.0 h.1),
      ),
    )
    value-Dumps (closure a c xs) h =
        let (t, e, (few, reads)) = items-Dumps xs h.1 in
        (
          b'C' ∷ (closure_text is_alive id_of_object c ++ (digits (count xs) ++ b';' ∷ t)),
          rw (h.0, e) refl,
          (
            omega arith,
            Closures.closure-Reads stod round is_alive id_of_object object_of_id small_ids a c xs t
                few reads,
          ),
        )
    value-Dumps void h = dropped-Dumps void refl refl
    value-Dumps nil h = dropped-Dumps nil refl refl
    value-Dumps (symbol t) h = dropped-Dumps (symbol t) refl refl
    value-Dumps null_closure h = dropped-Dumps null_closure refl refl
    value-Dumps null_buffer h = dropped-Dumps null_buffer refl refl
    value-Dumps (buffer a bs) h = dropped-Dumps (buffer a bs) refl refl

    items-Dumps : (xs : Items) → AreDumpable show stod round id_of_object xs → DumpsItems xs
    items-Dumps no_items h = (
      [],
      refl,
      (omega arith, Arrays.no_items-Reads stod round is_alive id_of_object object_of_id),
    )
    items-Dumps (item x xs) h =
        let (t, e, (some_text, reads)) = value-Dumps x h.0 in
        let (u, f, (few, others)) = items-Dumps xs h.1 in
        (
          t ++ u,
          rw (e, f) refl,
          (
            omega (arith, length-append t u),
            Arrays.item-Reads stod round is_alive id_of_object object_of_id x xs t u reads others,
          ),
        )

    columns-Dumps :
        (w : ℕ) (cs : Columns) → IsRow show stod round id_of_object w cs → DumpsColumns w cs
    columns-Dumps w absent h =
        (zero_cells w, refl, Arrays.absent-Reads stod round is_alive id_of_object object_of_id w)
    columns-Dumps w (columns xs) h =
        let (t, e, (few, reads)) = items-Dumps xs h.1 in
        (
          t,
          ap (λ n. serialize_cells show is_alive id_of_object n xs) (sym h.0) ∙ cells-items xs ∙ e,
          Arrays.columns-Reads stod round is_alive id_of_object object_of_id w xs t h.0
              (λ z. none_left xs t e (h.0 ∙ z)) reads,
        )

    entries-Dumps :
        (w : ℕ) (es : Entries) → IsTable show stod round id_of_object w es → DumpsEntries w es
    entries-Dumps w no_entries h = (
      [],
      refl,
      (omega arith, Tables.no_entries-Reads stod round is_alive id_of_object object_of_id w),
    )
    entries-Dumps w (entry k v cs es) h =
        let (t, e, (some_text, key)) = value-Dumps k h.0 in
        let (u, f, (more_text, value)) = value-Dumps v h.1 in
        let (c, g, extra) = columns-Dumps w cs h.2 in
        let (r, i, (few, others)) = entries-Dumps w es h.3 in
        (
          t ++ (u ++ (c ++ r)),
          rw (e, f, g, i) refl,
          (
            omega (
              arith,
              length-append t (u ++ (c ++ r)),
              length-append u (c ++ r),
              length-append c r,
            ),
            Tables.entry-Reads stod round is_alive id_of_object object_of_id w k v cs es t u c r key
                value extra others,
          ),
        )
