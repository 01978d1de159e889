-- ===== src/Persist/Reading.antt =====
-- `deserializeWorldValue` and `deserializeClosure`: a value out of the dump of the world.
use kjdmud.Base.{
  ℕ, zero, suc, ◌+◌, ◌-◌, ◌%◌, ◌^◌, false, ◌||◌, Option, none, some, [], ◌∷◌, length, take, drop,
  ltb, leb, ◌==◌, if◌then◌else◌, ℤ, pos, negsuc,
}
use kjdmud.Core.Text.{Text, codes, text_eq}
use kjdmud.Core.Errors.{Result, ok, err, ◌>>=◌, runtime, out_of_range, out_of_fuel}
use kjdmud.Core.Decimal.{stoll}
use kjdmud.Core.Unsigned.{stoull}
use kjdmud.Core.Split.{split_at}
use kjdmud.Vm.Value.{
  Value, Items, Columns, Entries, void, int, float, str, object, array, mapping, closure, no_items,
  item, absent, columns, no_entries, entry,
}

-- A position of 64 bits.
abbrev pub wrapped : ℕ → ℕ
wrapped p = p % 2 ^ 64

-- `static_cast<int>` of a width; a width below 1 is 1.
unfoldable pub width_of : ℤ → ℕ
width_of v =
    let word : ℕ = elim v [ pos n ↦ n % 2 ^ 32 | negsuc n ↦ (2 ^ 32 - suc n % 2 ^ 32) % 2 ^ 32 ] in
    if leb 1 word then (if ltb word (2 ^ 31) then word else 1) else 1

-- `find_first_of(":w")`: the text before the separator, and from it on.
unfoldable pub split_first : Text → Option (Text × Text)
split_first [] = none
split_first (c ∷ s) =
    let more = split_first s in
    if c == b':' || c == b'w'
    then some ([], c ∷ s)
    else elim more [ none ↦ none | some (before, from) ↦ some (c ∷ before, from) ]

abbrev pub truncated_width : Result (ℕ × ℕ)
truncated_width =
    err (runtime (codes "restore_state: corrupt statedump data (truncated mapping width)"))

-- A reading at a position: the value, and the position behind it.
module _ (read : ℕ → Result (Value × ℕ)) where
  unfoldable pub read_items : ℕ → ℕ → Result (Items × ℕ)
  read_items zero p = ok (no_items, p)
  read_items (suc n) p = read p >>= λ x. read_items n x.1 >>= λ xs. ok (item x.0 xs.0, xs.1)

  -- The columns behind the first, of which there are `n`.
  unfoldable pub read_columns : ℕ → ℕ → Result (Columns × ℕ)
  unfolding read_items
  read_columns zero p = ok (absent, p)
  read_columns (suc n) p = read_items (suc n) p >>= λ xs. ok (columns xs.0, xs.1)

  unfoldable pub read_entries : ℕ → ℕ → ℕ → Result (Entries × ℕ)
  unfolding read_columns
  read_entries n zero p = ok (no_entries, p)
  read_entries n (suc rows) p = read p >>= λ k. read k.1 >>= λ v. read_columns n v.1 >>= λ cs.
      read_entries n rows cs.1 >>= λ es. ok (entry k.0 v.0 cs.0 es.0, es.1)

-- `objectOfId.find(ownerId)`, if the id is 0 or more.
unfoldable pub owner_of : (ℤ → Option ℕ) → ℤ → Option ℕ
owner_of object_of_id (pos i) = object_of_id (pos i)
owner_of object_of_id (negsuc i) = none

-- `std::stod` is a parameter, and so is `objectOfId`. The text is the whole file. A delimiter that is
-- not found is at `npos`, so that the field is all that is left, and the position behind it is 0. The
-- address of a new closure is the position of its fields. Memory does not run out.
module _ (stod : Text → Result ℕ) (object_of_id : ℤ → Option ℕ) (s : Text) where
  -- `s.substr(pos, end - pos)` with `end = s.find(d, pos)`, and `end + 1`.
  unfoldable pub field : ℕ → ℕ → Result (Text × ℕ)
  unfolding split_at
  field d p = if ltb (length s) p then err out_of_range else elim (split_at d (drop p s)) [
    | none ↦ ok (drop p s, 0)
    | some (before, behind) ↦ ok (before, p + length before + 1)
  ]

  -- A number of bytes, and the bytes.
  unfoldable pub read_counted : ℕ → Result (Text × ℕ)
  unfolding field stoull
  read_counted p =
      field b':' p >>= λ f. stoull f.0 >>= λ len. ok (take len (drop f.1 s), wrapped (f.1 + len))

  -- The count of a mapping's rows, its width and the position of the first.
  unfoldable pub read_width : Text → ℕ → Result (ℕ × ℕ)
  unfolding split_at width_of stoll
  read_width [] p = ok (1, p + 1)
  read_width (c ∷ from) p =
      if c == b'w'
      then (elim (split_at b':' from) [
        | none ↦ truncated_width
        | some (text, rest) ↦ stoll text >>= λ w. ok (width_of w, p + 1 + length text + 1)
      ])
      else ok (1, p + 1)

  unfoldable pub read_table : ℕ → Result (ℕ × (ℕ × ℕ))
  unfolding split_first read_width stoull
  read_table p = elim (split_first (drop p s)) [
    | none ↦ err (runtime (codes "restore_state: corrupt statedump data (truncated mapping)"))
    | some (text, from) ↦
        stoull text >>= λ rows. read_width from (p + length text) >>= λ w. ok (rows, (w.0, w.1))
  ]

  module _ (read : ℕ → Result (Value × ℕ)) where
    unfoldable pub read_closure : ℕ → Result (Value × ℕ)
    unfolding field stoll stoull read_counted owner_of read_items text_eq
    read_closure p = field b';' p >>= λ owner. stoll owner.0 >>= λ id.
        field b';' owner.1 >>= λ forced. read_counted forced.1 >>= λ name.
        field b';' name.1 >>= λ args. stoull args.0 >>= λ n. read_items read n args.1 >>= λ xs. ok (
          closure p
              (record {
                owner = owner_of object_of_id id;
                function_name = name.0;
                force_efun = text_eq forced.0 (b'1' ∷ []);
                unbound_until_bound = false;
                quoted = false;
              })
              xs.0,
          xs.1,
        )

    -- The `switch` on the tag.
    unfoldable pub read_kind : ℕ → ℕ → Result (Value × ℕ)
    unfolding field stoll stoull read_counted read_items read_entries read_table read_closure
    read_kind kind p =
        if kind == b'N'
        then ok (void, p)
        else if kind == b'I'
        then (field b';' p >>= λ f. stoll f.0 >>= λ v. ok (int v, f.1))
        else if kind == b'F'
        then (field b';' p >>= λ f. stod f.0 >>= λ d. ok (float d, f.1))
        else if kind == b'S'
        then (read_counted p >>= λ f. ok (str f.0, f.1))
        else if kind == b'A'
        then (field b':' p >>= λ f.
            stoull f.0 >>= λ n. read_items read n f.1 >>= λ xs. ok (array xs.0, xs.1))
        else if kind == b'M'
        then (read_table p >>= λ t.
            read_entries read (t.1.0 - 1) t.0 t.1.1 >>= λ es. ok (mapping t.1.0 es.0, es.1))
        else if kind == b'O'
        then (field b';' p >>= λ f. stoll f.0 >>= λ i.
            ok ((elim (object_of_id i) [ none ↦ void | some a ↦ object (some a) ]), f.1))
        else if kind == b'C'
        then read_closure p
        else err (runtime (codes "restore_state: corrupt statedump data (unknown value kind)"))

  -- On fuel: one more than the depth to which values are nested.
  unfoldable pub deserialize : ℕ → ℕ → Result (Value × ℕ)
  unfolding read_kind
  deserialize zero p = err out_of_fuel
  deserialize (suc n) p = elim (drop p s) [
    | [] ↦ ok (void, p)
    | kind ∷ rest ↦ read_kind (deserialize n) kind (suc p)
  ]
