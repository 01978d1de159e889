-- ===== src/Vm/Save/RoundTrip.antt =====
-- What the writer writes, the reader reads back.
use kjdmud.Base.{
  ℕ, zero, suc, ◌+◌, ◌*◌, ◌-◌, ◌<◌, ◌≡◌, refl, ap, ap₂, subst, ◌∙◌, true, [], ◌∷◌, ◌++◌,
  append_assoc, arith, length, length-append, ltb, lt→ltb, if◌then◌else◌,
}
use kjdmud.Core.Text.{Text}
use kjdmud.Core.Errors.{ok}
use kjdmud.Vm.Value.{
  Value, Items, Columns, Entries, void, nil, int, float, str, null_array, array, null_mapping,
  mapping, no_items, item, absent, columns, no_entries, entry, symbol, object, null_closure,
  closure, null_buffer, buffer,
}
use kjdmud.Vm.Save.Format.{Format}
use kjdmud.Vm.Save.Write.{write, write_items, write_cells, write_columns, write_entries}
use kjdmud.Vm.Save.Read.{read_value, read_cells, count, max_width, pad, entries_of, mapping_of}
use kjdmud.Vm.Save.Values.{
  restored, restored_items, restored_columns, restored_entries, IsSavable, IsRow, IsTable,
}
use kjdmud.Vm.Save.Pieces.{is_stop}
use kjdmud.Vm.Save.Steps

same_width : (w n : ℕ) → n ≡ w → (if ltb (suc w) (1 + n) then 1 + n else suc w) ≡ suc w
same_width w n h = ground arith

first_width : (w n : ℕ) → n ≡ w → (if ltb 1 (1 + n) then 1 + n else 1) ≡ suc w
first_width w n h = ground arith

module _ (f : Format) (round : ℕ → ℕ) where
  cells_of-count :
      (w : ℕ) (cs : Columns) → IsRow f round w cs → count (Steps.cells_of f round w cs) ≡ w
  unfolding Steps.cells_of IsSavable
  cells_of-count w absent h = Steps.count-zeros f round w
  cells_of-count w (columns xs) h = Steps.count-restored f round xs ∙ h.0

  max_width-rows :
      (w : ℕ) (es : Entries)
      → IsTable f round w es
      → max_width (suc w) (Steps.rows_of f round w es) ≡ suc w
  unfolding max_width Steps.rows_of IsSavable
  max_width-rows w no_entries h = refl
  max_width-rows w (entry k v cs es) h =
      ap (λ m. max_width m (Steps.rows_of f round w es))
        (same_width w (count (Steps.cells_of f round w cs)) (cells_of-count w cs h.2))
      ∙ max_width-rows w es h.3

  columns-restored :
      (w : ℕ) (cs : Columns)
      → IsRow f round w cs
      → (if ltb 1 (suc w) then columns (pad (suc w - 1) (Steps.cells_of f round w cs)) else absent)
        ≡ restored_columns round w cs
  unfolding restored Steps.cells_of
  columns-restored zero cs h = refl
  columns-restored (suc w) cs h =
      rw
        (
          lt→ltb 1 (suc (suc w)) (omega arith),
          Steps.pad-count f round (suc (suc w) - 1) (Steps.cells_of f round (suc w) cs)
              (cells_of-count (suc w) cs h ∙ omega arith),
        )
        (columns_same w cs)
    where
      columns_same :
          (n : ℕ) (ds : Columns)
          → columns (Steps.cells_of f round (suc n) ds) ≡ restored_columns round (suc n) ds
      columns_same n absent = refl
      columns_same n (columns xs) = refl

  entries_of-rows :
      (w : ℕ) (es : Entries)
      → IsTable f round w es
      → entries_of (suc w) (Steps.rows_of f round w es) ≡ restored_entries round w es
  unfolding entries_of Steps.rows_of IsSavable restored
  entries_of-rows w no_entries h = refl
  entries_of-rows w (entry k v cs es) h =
      ap₂ (entry (restored round k) (restored round v)) (columns-restored w cs h.2)
        (entries_of-rows w es h.3)

  mapping_of-rows :
      (w : ℕ) (es : Entries)
      → IsTable f round (w - 1) es
      → mapping_of (Steps.rows_of f round (w - 1) es) ≡ restored round (mapping w es)
  unfolding mapping_of Steps.rows_of restored max_width IsSavable
  mapping_of-rows w no_entries h = refl
  mapping_of-rows w (entry k v cs es) h =
      ap (λ m. mapping m (entries_of m (Steps.rows_of f round (w - 1) (entry k v cs es))))
        (ap (λ m. max_width m (Steps.rows_of f round (w - 1) es))
            (first_width (w - 1) _ (cells_of-count (w - 1) cs h.2))
          ∙ max_width-rows (w - 1) es h.3)
      ∙ ap (mapping (suc (w - 1))) (entries_of-rows (w - 1) (entry k v cs es) h)

  mutual
    unfolding write restored IsSavable Steps.cells_of Steps.rows_of

    value-Reads : (v : Value) → Steps.ReadsValue f round v
    value-Reads (int i) h t e = Steps.int-Reads f round i h t e
    value-Reads (float d) h t e = Steps.float-Reads f round d h t e
    value-Reads (str s) h t e = Steps.string-Reads f round s h t e
    value-Reads void h t e = λ n b. Steps.zero-Reads f round t e n (omega arith)
    value-Reads (array xs) h t e = Steps.spend _ λ n b. rw (append_assoc (write_items f xs)) (
        Steps.array_step f round xs (restored_items round xs) t n (
          items-Reads xs h (b')' ∷ t) n
            (omega (arith, length-append (write_items f xs) (b'}' ∷ b')' ∷ [])))))
    value-Reads (mapping w es) h t e = Steps.spend _ λ n b.
        rw (append_assoc (write_entries f (w - 1) es)) (
          Steps.mapping_step f round (write_entries f (w - 1) es) _ t n (
            entries-Reads es (w - 1) h (b')' ∷ t) n
              (omega (arith, length-append (write_entries f (w - 1) es) (b']' ∷ b')' ∷ []))))
          ∙ ap (λ m. ok (m, t)) (mapping_of-rows w es h))
    value-Reads null_array h t e = Steps.spend _ λ n b.
        Steps.array_step f round no_items no_items t n
          (Steps.items_end f round (b')' ∷ t) n (omega arith))
    value-Reads null_mapping h t e = Steps.spend _ λ n b.
        Steps.mapping_step f round [] [] t n (Steps.rows_end f round (b')' ∷ t) n (omega arith))
        ∙ ap (λ m. ok (m, t)) (mapping_of-rows 1 no_entries tt)
    value-Reads nil h t e = Steps.nothing-Reads f round nil refl refl h t e
    value-Reads (symbol s) h t e = Steps.nothing-Reads f round (symbol s) refl refl h t e
    value-Reads (object o) h t e = Steps.nothing-Reads f round (object o) refl refl h t e
    value-Reads null_closure h t e = Steps.nothing-Reads f round null_closure refl refl h t e
    value-Reads null_buffer h t e = Steps.nothing-Reads f round null_buffer refl refl h t e
    value-Reads (closure a c xs) h t e =
        Steps.nothing-Reads f round (closure a c xs) refl refl h t e
    value-Reads (buffer a bs) h t e = Steps.nothing-Reads f round (buffer a bs) refl refl h t e

    items-Reads : (xs : Items) → Steps.ReadsItems f round xs
    items-Reads no_items h t = λ n b. Steps.items_end f round t n (omega arith)
    items-Reads (item x xs) h t = Steps.spend _ λ n b.
        let size = length-append (write f x) (b',' ∷ write_items f xs) in
        rw (
          append_assoc (write f x),
          Steps.item-Reads f round x n (write_items f xs ++ b'}' ∷ t) h.0 (
              value-Reads x h.0 (b',' ∷ (write_items f xs ++ b'}' ∷ t)) refl n
                (omega (arith, size))),
          items-Reads xs h.1 t n (omega (arith, size)),
        )

    cells-Reads : (xs : Items) → Steps.ReadsCells f round xs
    cells-Reads no_items h t = Steps.spend _ λ n b. Steps.cells_end f round n t
    cells-Reads (item x xs) h t = Steps.spend _ λ n b.
        let more = write_cells f (count xs) xs in
        let size = length-append (write f x) more in
        rw (
          append_assoc (write f x),
          Steps.cell_step f round x more n (b',' ∷ t) (
              value-Reads x h.0 (more ++ (b',' ∷ t)) (Steps.cells-stop f round (count xs) xs t) n
                (omega (arith, size))),
          cells-Reads xs h.1 t n (omega (arith, size)),
        )

    columns-Reads : (cs : Columns) → Steps.ReadsColumns f round cs
    columns-Reads absent w h t n b = Steps.zero_columns-Reads f round w t n b
    columns-Reads (columns xs) w h t n b =
        subst
          (λ m.
            2 * length (write_cells f m xs) + 1 < n
            → read_cells f n (write_cells f m xs ++ b',' ∷ t)
              ≡ ok (restored_items round xs, b',' ∷ t))
          h.0 (cells-Reads xs h.1 t n) b

    entries-Reads : (es : Entries) → Steps.ReadsEntries f round es
    entries-Reads no_entries w h t = λ n b. Steps.rows_end f round t n (omega arith)
    entries-Reads (entry k v cs es) w h t = Steps.spend _ λ n b.
        let cells = write_columns f w cs in
        let rest = write_entries f w es in
        let size_k = length-append (write f k) (b':' ∷ (write f v ++ (cells ++ b',' ∷ rest))) in
        let size_v = length-append (write f v) (cells ++ b',' ∷ rest) in
        let size_c = length-append cells (b',' ∷ rest) in
        let after = rest ++ b']' ∷ t in
        rw (
          append_assoc (write f k),
          append_assoc (write f v),
          append_assoc cells,
          Steps.row_step f round k v (Steps.cells_of f round w cs) cells after n h.0
              (value-Reads k h.0 (b':' ∷ (write f v ++ (cells ++ b',' ∷ after))) refl n
                (omega (arith, size_k, size_v, size_c)))
              (value-Reads v h.1 (cells ++ b',' ∷ after) (Steps.columns-stop f round w cs after) n
                (omega (arith, size_k, size_v, size_c)))
              (columns-Reads cs w h.2 after n (omega (arith, size_k, size_v, size_c))),
          entries-Reads es w h.3 t n (omega (arith, size_k, size_v, size_c)),
        )

-- The reader undoes the writer: for a value whose integers are of 64 bits, whose doubles are written
-- within the buffer in fixed notation and read back, and whose mapping rows have the mapping's width,
-- the text that `write` makes, with the end of the text or a delimiter behind it, is read as the
-- restored value, and the reader stops at that delimiter. Fuel of more than twice the length of the
-- text is enough.
pub read_value-write :
    (f : Format) (round : ℕ → ℕ) (v : Value) (t : Text) (n : ℕ)
    → IsSavable f round v
    → is_stop t ≡ true
    → 2 * length (write f v) < n
    → read_value f n (write f v ++ t) ≡ ok (restored round v, t)
read_value-write f round v t n h e b = value-Reads f round v h t e n b
