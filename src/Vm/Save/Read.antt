-- ===== src/Vm/Save/Read.antt =====
-- `parseRealSaveString`, `parseRealSaveNumber` and `parseRealSaveValue`. The position is the part of
-- the text that is left.
use kjdmud.Base.{
  ℕ, zero, suc, ◌+◌, ◌-◌, pos, Bool, true, false, ◌||◌, List, [], ◌∷◌, ◌++◌, ◌==◌, ltb,
  if◌then◌else◌,
}
use kjdmud.Core.Text.{Text, codes, is_digit}
use kjdmud.Core.Errors.{Result, ok, err, runtime, out_of_fuel, ◌>>=◌}
use kjdmud.Core.Decimal.{stoll}
use kjdmud.Vm.Value.{
  Value, Items, Entries, int, float, str, array, mapping, no_items, item, absent, columns,
  no_entries, entry,
}
use kjdmud.Vm.Save.Format.{Format}

abbrev pub is_at : ℕ → Text → Bool
is_at c [] = false
is_at c (d ∷ s) = d == c

-- `if (pos < s.size() && s[pos] == c) ++pos;`
unfoldable pub skip_byte : ℕ → Text → Text
skip_byte c [] = []
skip_byte c (d ∷ s) = if d == c then s else d ∷ s

-- `if (pos < s.size()) ++pos;`
abbrev pub skip_any : Text → Text
skip_any [] = []
skip_any (c ∷ s) = s

abbrev pub push : ℕ → Text × Text → Text × Text
push c (text, rest) = (c ∷ text, rest)

-- What a byte of a string that is not escaped stands for.
abbrev pub unescaped : ℕ → ℕ
unescaped c = if c == b'\r' then b'\n' else c

unfoldable pub read_string : Text → Text × Text
read_string [] = ([], [])
read_string (c ∷ []) = if c == b'"' then ([], []) else (unescaped c ∷ [], [])
read_string (c ∷ e ∷ s) =
    let escaped = push e (read_string s) in
    let plain = push (unescaped c) (read_string (e ∷ s)) in
    if c == b'"' then ([], e ∷ s) else if c == b'\\' then escaped else plain

-- `while (pos < s.size() && isdigit(s[pos])) ++pos;`, with the digits passed.
unfoldable pub span_digits : Text → Text × Text
span_digits [] = ([], [])
span_digits (c ∷ s) = let more = push c (span_digits s) in if is_digit c then more else ([], c ∷ s)

-- The token from its digits on, behind the sign; a point makes it a double.
unfoldable pub read_unsigned : Format → Text → Text → Result (Value × Text)
unfolding span_digits
read_unsigned f sign s =
    let (whole, rest) = span_digits s in
    let (fraction, after) = span_digits (skip_any rest) in
    if is_at b'.' rest
    then (f.stod (sign ++ (whole ++ b'.' ∷ fraction)) >>= λ d. ok (float d, after))
    else (stoll (sign ++ whole) >>= λ i. ok (int i, rest))

unfoldable pub read_number : Format → Text → Result (Value × Text)
read_number f s =
    if is_at b'-' s then read_unsigned f (b'-' ∷ []) (skip_any s) else read_unsigned f [] s

-- The rows of a mapping as they are read: key, first column, further columns.
abbrev pub Row : Type 0
Row = Value × Value × Items

abbrev pub count : Items → ℕ
count no_items = 0
count (item x xs) = suc (count xs)

-- `1 + extra.size()` of the widest row, 1 at least.
unfoldable pub max_width : ℕ → List Row → ℕ
max_width w [] = w
max_width w ((k, v, extra) ∷ rows) =
    max_width (if ltb w (1 + count extra) then 1 + count extra else w) rows

-- A row of `n` further columns, 0 where the text has none.
unfoldable pub pad : ℕ → Items → Items
pad zero xs = no_items
pad (suc n) no_items = item (int (pos 0)) (pad n no_items)
pad (suc n) (item x xs) = item x (pad n xs)

unfoldable pub entries_of : ℕ → List Row → Entries
unfolding pad
entries_of w [] = no_entries
entries_of w ((k, v, extra) ∷ rows) =
    entry k v (if ltb 1 w then columns (pad (w - 1) extra) else absent) (entries_of w rows)

unfoldable pub mapping_of : List Row → Value
unfolding max_width entries_of
mapping_of rows = mapping (max_width 1 rows) (entries_of (max_width 1 rows) rows)

abbrev pub close : ℕ → Text → Text
close c s = skip_byte c (skip_any s)

-- `c == '-' || isdigit(c)`.
abbrev pub starts_number : ℕ → Bool
starts_number c = c == b'-' || is_digit c

-- The loops stop at the end of the text too.
abbrev pub stops_at : ℕ → Text → Bool
stops_at c [] = true
stops_at c (d ∷ s) = d == c

module _ (f : Format) where
  unfoldable mutual
    pub read_value : ℕ → Text → Result (Value × Text)
    read_value zero s = err out_of_fuel
    read_value (suc n) [] = ok (int (pos 0), [])
    read_value (suc n) (c ∷ s) =
        let items = read_items n (skip_any s) >>= λ r. ok (array r.0, close b')' r.1) in
        let rows = read_rows n (skip_any s) >>= λ r. ok (mapping_of r.0, close b')' r.1) in
        let bad = err (runtime (codes "restore_object: class-typed save data is not supported")) in
        let (text, rest) = read_string s in
        if c == b'"'
        then ok (str text, rest)
        else if c == b'('
        then (if is_at b'{' s then items else if is_at b'[' s then rows else bad)
        else if starts_number c
        then read_number f (c ∷ s)
        else ok (int (pos 0), c ∷ s)

    -- The loop of an array: a bare comma is an element 0.
    pub read_items : ℕ → Text → Result (Items × Text)
    read_items zero s = err out_of_fuel
    read_items (suc n) s =
        let skipped = read_items n (skip_any s) >>= λ r. ok (item (int (pos 0)) r.0, r.1) in
        let next = read_value n s >>= λ v.
        read_items n (skip_byte b',' v.1) >>= λ r. ok (item v.0 r.0, r.1) in
        if stops_at b'}' s then ok (no_items, s) else if is_at b',' s then skipped else next

    -- The loop of a mapping.
    pub read_rows : ℕ → Text → Result (List Row × Text)
    read_rows zero s = err out_of_fuel
    read_rows (suc n) s =
        let next = read_value n s >>= λ k. read_value n (skip_byte b':' k.1) >>= λ v.
        read_cells n v.1 >>= λ extra.
        read_rows n (skip_byte b',' extra.1) >>= λ r. ok ((k.0, v.0, extra.0) ∷ r.0, r.1) in
        if stops_at b']' s then ok ([], s) else next

    -- The further columns of a row, each behind a semicolon.
    pub read_cells : ℕ → Text → Result (Items × Text)
    read_cells zero s = err out_of_fuel
    read_cells (suc n) s =
        let next =
          read_value n (skip_any s) >>= λ v. read_cells n v.1 >>= λ r. ok (item v.0 r.0, r.1) in
        if is_at b';' s then next else ok (no_items, s)
