-- ===== src/Vm/Save/Steps.antt =====
-- One round of each loop of the reader, on what the writer wrote.
use kjdmud.Base.{
  ℕ, zero, suc, ◌+◌, ◌*◌, ◌<◌, ◌≡◌, refl, ap, ◌∙◌, inl, inr, ℤ, pos, true, false, List, [], ◌∷◌,
  ◌++◌, append_assoc, arith, length, take_all,
}
use kjdmud.Core.Text.{Text}
use kjdmud.Core.Errors.{ok, ◌>>=◌}
use kjdmud.Core.Decimal.{to_string}
use kjdmud.Vm.Value.{
  Value, Items, Columns, Entries, int, float, str, array, no_items, item, absent, columns,
  no_entries, entry,
}
use kjdmud.Vm.Save.Format.{Format}
use kjdmud.Vm.Save.Write.{
  write, write_bytes, write_items, write_cells, write_columns, write_entries, zero_columns,
  write_string,
}
use kjdmud.Vm.Save.Read.{
  is_at, skip_byte, read_number, read_value, read_items, read_rows, read_cells, Row, count, pad,
  mapping_of, stops_at,
}
use kjdmud.Vm.Save.Values.{restored, restored_items, zeros, IsSavable, AreSavable, IsRow, IsTable}
use kjdmud.Vm.Save.Pieces.{is_stop, read_string-write_bytes, read_number-int, read_number-fixed}
use kjdmud.Vm.Save.Heads.{Opens, Numeric, int-Numeric, fixed-Numeric, write-head}

-- Fuel above a bound is a successor.
pub spend {ℓ} : {n : ℕ} (P : ℕ → Type ℓ) → ((k : ℕ) → n < suc k → P (suc k)) → (k : ℕ) → n < k → P k
spend P go zero h = absurd (omega arith)
spend P go (suc k) h = go k h

pub open_goes_on :
    (s u : Text)
    → Opens s
    → (stops_at b'}' (s ++ u) ≡ false)
      × (stops_at b']' (s ++ u) ≡ false)
      × (is_at b',' (s ++ u) ≡ false)
open_goes_on s u (c, r, e, h) = rw e (ground arith, ground arith, ground arith)

module _ (f : Format) (round : ℕ → ℕ) where
  abbrev pub ReadsValue : Value → Type 0
  ReadsValue v =
      IsSavable f round v
      → (t : Text) → is_stop t ≡ true
      → (n : ℕ) → 2 * length (write f v) < n
      → read_value f n (write f v ++ t) ≡ ok (restored round v, t)

  -- A string, a number, or a value of which nothing is written.
  pub string-Reads : (s : Text) → ReadsValue (str s)
  unfolding read_value write restored write_string
  string-Reads s h t e =
      spend _ λ n _. rw (append_assoc (write_bytes s) (b'"' ∷ []) t, read_string-write_bytes s t)

  read_value_number :
      (n : ℕ) (s t : Text) → Numeric s → read_value f (suc n) (s ++ t) ≡ read_number f (s ++ t)
  unfolding read_value
  read_value_number n s t (c, r, e, h) = rw e (ground arith)

  pub int-Reads : (i : ℤ) → ReadsValue (int i)
  unfolding IsSavable write restored
  int-Reads i h t e =
      spend _ λ n _. read_value_number n (to_string i) t (int-Numeric i) ∙ read_number-int f i t h e

  pub float-Reads : (d : ℕ) → ReadsValue (float d)
  unfolding IsSavable write restored
  float-Reads d h t e = spend _ λ n _. rw (take_all 63 (f.format d) h.1) (
      read_value_number n (f.format d) t (fixed-Numeric (f.format d) h.0)
      ∙ read_number-fixed f (round d) (f.format d) t h.0 e h.2)

  read_value_stop :
      (n : ℕ) (t : Text) → is_stop t ≡ true → read_value f (suc n) t ≡ ok (int (pos 0), t)
  unfolding read_value
  read_value_stop n [] e = refl
  read_value_stop n (c ∷ t) e = ground arith

  pub nothing-Reads : (v : Value) → write f v ≡ [] → restored round v ≡ int (pos 0) → ReadsValue v
  nothing-Reads v p q h t e = spend _ λ n _. rw (p, q) (read_value_stop n t e)

  abbrev pub ReadsItems : Items → Type 0
  ReadsItems xs =
      AreSavable f round xs
      → (t : Text) (n : ℕ) → 2 * length (write_items f xs) + 1 < n
      → read_items f n (write_items f xs ++ b'}' ∷ t) ≡ ok (restored_items round xs, b'}' ∷ t)

  items_step :
      (x : Value) (n : ℕ) (t : Text)
      → Opens (write f x)
      → read_value f n (write f x ++ b',' ∷ t) ≡ ok (restored round x, b',' ∷ t)
      → read_items f (suc n) (write f x ++ b',' ∷ t)
        ≡ (read_items f n t >>= λ r. ok (item (restored round x) r.0, r.1))
  unfolding read_items skip_byte
  items_step x n t o k =
      let (no_end, _, no_comma) = open_goes_on (write f x) (b',' ∷ t) o in rw (no_end, no_comma, k)

  items_step_nothing :
      (x : Value) (n : ℕ) (t : Text)
      → write f x ≡ []
      → restored round x ≡ int (pos 0)
      → read_items f (suc n) (write f x ++ b',' ∷ t)
        ≡ (read_items f n t >>= λ r. ok (item (restored round x) r.0, r.1))
  unfolding read_items
  items_step_nothing x n t p q = rw (p, q)

  pub item-Reads :
      (x : Value) (n : ℕ) (t : Text)
      → IsSavable f round x
      → read_value f n (write f x ++ b',' ∷ t) ≡ ok (restored round x, b',' ∷ t)
      → read_items f (suc n) (write f x ++ b',' ∷ t)
        ≡ (read_items f n t >>= λ r. ok (item (restored round x) r.0, r.1))
  item-Reads x n t h k = elim (write-head f round x h) [
    | inl (p, q) ↦ items_step_nothing x n t p q
    | inr o ↦ items_step x n t o k
  ]

  -- The row that is read for a row of columns behind the first.
  unfoldable pub cells_of : ℕ → Columns → Items
  unfolding restored
  cells_of n absent = zeros n
  cells_of n (columns xs) = restored_items round xs

  unfoldable pub rows_of : ℕ → Entries → List Row
  rows_of n no_entries = []
  rows_of n (entry k v cs es) = (restored round k, restored round v, cells_of n cs) ∷ rows_of n es

  abbrev pub ReadsCells : Items → Type 0
  ReadsCells xs =
      AreSavable f round xs
      → (t : Text) (n : ℕ) → 2 * length (write_cells f (count xs) xs) + 1 < n
      → read_cells f n (write_cells f (count xs) xs ++ b',' ∷ t)
        ≡ ok (restored_items round xs, b',' ∷ t)

  abbrev pub ReadsColumns : Columns → Type 0
  ReadsColumns cs =
      (w : ℕ)
      → IsRow f round w cs
      → (t : Text) (n : ℕ) → 2 * length (write_columns f w cs) + 1 < n
      → read_cells f n (write_columns f w cs ++ b',' ∷ t) ≡ ok (cells_of w cs, b',' ∷ t)

  abbrev pub ReadsEntries : Entries → Type 0
  ReadsEntries es =
      (w : ℕ)
      → IsTable f round w es
      → (t : Text) (n : ℕ) → 2 * length (write_entries f w es) + 1 < n
      → read_rows f n (write_entries f w es ++ b']' ∷ t) ≡ ok (rows_of w es, b']' ∷ t)

  pub cell_step :
      (x : Value) (s : Text) (n : ℕ) (t : Text)
      → read_value f n (write f x ++ (s ++ t)) ≡ ok (restored round x, s ++ t)
      → read_cells f (suc n) (b';' ∷ (write f x ++ (s ++ t)))
        ≡ (read_cells f n (s ++ t) >>= λ r. ok (item (restored round x) r.0, r.1))
  unfolding read_cells
  cell_step x s n t k = rw k

  pub cells_end : (n : ℕ) (t : Text) → read_cells f (suc n) (b',' ∷ t) ≡ ok (no_items, b',' ∷ t)
  unfolding read_cells
  cells_end n t = refl

  zero_columns-stop : (w : ℕ) (t : Text) → is_stop (zero_columns w ++ b',' ∷ t) ≡ true
  unfolding zero_columns
  zero_columns-stop zero t = refl
  zero_columns-stop (suc w) t = refl

  pub cells-stop : (w : ℕ) (xs : Items) (t : Text) → is_stop (write_cells f w xs ++ b',' ∷ t) ≡ true
  unfolding write_cells
  cells-stop zero no_items t = refl
  cells-stop (suc w) no_items t = refl
  cells-stop zero (item x xs) t = refl
  cells-stop (suc w) (item x xs) t = refl

  pub columns-stop :
      (w : ℕ) (cs : Columns) (t : Text) → is_stop (write_columns f w cs ++ b',' ∷ t) ≡ true
  unfolding write_columns
  columns-stop w absent t = zero_columns-stop w t
  columns-stop w (columns xs) t = cells-stop w xs t

  pub zero-Reads :
      (u : Text)
      → is_stop u ≡ true
      → (n : ℕ) → 0 < n
      → read_value f n (b'0' ∷ u) ≡ ok (int (pos 0), u)
  unfolding to_string
  zero-Reads u e = spend _ λ n _.
      read_value_number n (b'0' ∷ []) u (b'0', [], refl, refl)
      ∙ read_number-int f (pos 0) u (omega arith) e

  pub zero_columns-Reads :
      (w : ℕ) (t : Text) (n : ℕ)
      → 2 * length (zero_columns w) + 1 < n
      → read_cells f n (zero_columns w ++ b',' ∷ t) ≡ ok (zeros w, b',' ∷ t)
  unfolding zero_columns read_cells
  zero_columns-Reads zero t = spend _ λ n _. refl
  zero_columns-Reads (suc w) t = spend _ λ n h. rw (
    zero-Reads (zero_columns w ++ b',' ∷ t) (zero_columns-stop w t) n (omega arith),
    zero_columns-Reads w t n (omega arith),
  )

  key-goes_on :
      (k : Value) (u : Text) → IsSavable f round k → stops_at b']' (write f k ++ b':' ∷ u) ≡ false
  key-goes_on k u h = elim (write-head f round k h) [
    | inl (p, q) ↦ rw p
    | inr o ↦ (open_goes_on (write f k) (b':' ∷ u) o).1
  ]

  pub row_step :
      (k v : Value) (cells : Items) (c t : Text) (n : ℕ)
      → IsSavable f round k
      → read_value f n (write f k ++ b':' ∷ (write f v ++ (c ++ b',' ∷ t)))
        ≡ ok (restored round k, b':' ∷ (write f v ++ (c ++ b',' ∷ t)))
      → read_value f n (write f v ++ (c ++ b',' ∷ t)) ≡ ok (restored round v, c ++ b',' ∷ t)
      → read_cells f n (c ++ b',' ∷ t) ≡ ok (cells, b',' ∷ t)
      → read_rows f (suc n) (write f k ++ b':' ∷ (write f v ++ (c ++ b',' ∷ t)))
        ≡ (read_rows f n t >>= λ r. ok ((restored round k, restored round v, cells) ∷ r.0, r.1))
  unfolding read_rows skip_byte
  row_step k v cells c t n h ek ev ec = rw (key-goes_on k _ h, ek, ev, ec)

  pub items_end : (t : Text) (n : ℕ) → 0 < n → read_items f n (b'}' ∷ t) ≡ ok (no_items, b'}' ∷ t)
  unfolding read_items
  items_end t = spend _ λ n _. refl

  pub rows_end : (t : Text) (n : ℕ) → 0 < n → read_rows f n (b']' ∷ t) ≡ ok ([], b']' ∷ t)
  unfolding read_rows
  rows_end t = spend _ λ n _. refl

  pub array_step :
      (xs rs : Items) (t : Text) (n : ℕ)
      → read_items f n (write_items f xs ++ b'}' ∷ b')' ∷ t) ≡ ok (rs, b'}' ∷ b')' ∷ t)
      → read_value f (suc n) (b'(' ∷ b'{' ∷ (write_items f xs ++ b'}' ∷ b')' ∷ t))
        ≡ ok (array rs, t)
  unfolding read_value skip_byte
  array_step xs rs t n h = rw h

  pub mapping_step :
      (s : Text) (rows : List Row) (t : Text) (n : ℕ)
      → read_rows f n (s ++ b']' ∷ b')' ∷ t) ≡ ok (rows, b']' ∷ b')' ∷ t)
      → read_value f (suc n) (b'(' ∷ b'[' ∷ (s ++ b']' ∷ b')' ∷ t)) ≡ ok (mapping_of rows, t)
  unfolding read_value skip_byte
  mapping_step s rows t n h = rw h

  pub count-restored : (xs : Items) → count (restored_items round xs) ≡ count xs
  unfolding restored
  count-restored no_items = refl
  count-restored (item x xs) = ap suc (count-restored xs)

  pub count-zeros : (n : ℕ) → count (zeros n) ≡ n
  count-zeros zero = refl
  count-zeros (suc n) = ap suc (count-zeros n)

  pub pad-count : (n : ℕ) (xs : Items) → count xs ≡ n → pad n xs ≡ xs
  unfolding pad
  pad-count n no_items h = rw (← h)
  pad-count zero (item x xs) h = absurd (omega (arith, h))
  pad-count (suc n) (item x xs) h = ap (item x) (pad-count n xs (omega (arith, h)))
