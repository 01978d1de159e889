-- ===== src/Vm/Operators/Laws.antt =====
-- What the operators do to arrays and mappings, by the equality of LPC.
use kjdmud.Base.{
  ℕ, ◌-◌, ◌≡◌, refl, sym, ap, ◌∙◌, Bool, true, false, not, ◌&&◌, ◌||◌, Option, none, some, ltb,
  if◌then◌else◌, arith, Bool-cases, inl, inr,
}
use kjdmud.Vm.Value.{
  Value, Items, no_items, item, Columns, absent, columns, Entries, no_entries, entry, values_equal,
}
use kjdmud.Vm.Value.Equality.{values_equal_symm, values_equal_trans}
use kjdmud.Vm.Value.Editing.{append}
use kjdmud.Vm.Operators.{is_member, items_in, items_append, items_or}
use kjdmud.Vm.Operators.Mappings.{
  has_key, replace, push_columns, join_entry, join_entries, no_columns, voids,
}

Bool-same : (a b : Bool) → (a ≡ true → b ≡ true) → (b ≡ true → a ≡ true) → a ≡ b
Bool-same true b h k = sym (h refl)
Bool-same false true h k = k refl
Bool-same false false h k = refl

-- Equal values are equal to the same values.
values_equal-same : (a b c : Value) → values_equal a b ≡ true → values_equal a c ≡ values_equal b c
values_equal-same a b c h =
    Bool-same (values_equal a c) (values_equal b c)
      (values_equal_trans b a c (values_equal_symm a b h)) (values_equal_trans a b c h)

is_member-same :
    (a b : Value) (xs : Items) → values_equal a b ≡ true → is_member a xs ≡ is_member b xs
is_member-same a b no_items h = refl
is_member-same a b (item x xs) h =
    let e = values_equal-same a b x h in let rest = is_member-same a b xs h in rw (e, rest) refl

is_member-items_append :
    (a : Value) (xs ys : Items)
    → is_member a (items_append xs ys) ≡ (is_member a xs || is_member a ys)
unfolding items_append
is_member-items_append a no_items ys = refl
is_member-items_append a (item x xs) ys = ground (arith, is_member-items_append a xs ys)

-- `found` is true for `&` and false for `-`.
abbrev agrees : Bool → Bool → Bool
agrees true b = b
agrees false b = not b

is_member-items_in :
    (found : Bool) (a : Value) (xs ys : Items)
    → is_member a (items_in found xs ys) ≡ (is_member a xs && agrees found (is_member a ys))
unfolding items_in
is_member-items_in found a no_items ys = refl
is_member-items_in true a (item x xs) ys = elim (Bool-cases (values_equal a x)) [
  | inl e ↦ ground (arith, e, is_member-same a x ys e, is_member-items_in true a xs ys)
  | inr e ↦ ground (arith, e, is_member-items_in true a xs ys)
]
is_member-items_in false a (item x xs) ys = elim (Bool-cases (values_equal a x)) [
  | inl e ↦ ground (arith, e, is_member-same a x ys e, is_member-items_in false a xs ys)
  | inr e ↦ ground (arith, e, is_member-items_in false a xs ys)
]

-- `-`, `&` and `|` of arrays are difference, intersection and union: what equals an item of the result
-- is what equals an item of the left array but none of the right, of both, or of one of them.
pub array_operators-is_member :
    (a : Value) (xs ys : Items)
    → (is_member a (items_in false xs ys) ≡ (is_member a xs && not (is_member a ys)))
      × (is_member a (items_in true xs ys) ≡ (is_member a xs && is_member a ys))
      × (is_member a (items_or xs ys) ≡ (is_member a xs || is_member a ys))
unfolding items_or
array_operators-is_member a xs ys = (
  is_member-items_in false a xs ys,
  is_member-items_in true a xs ys,
  ground
      (arith, is_member-items_append a xs (items_in false ys xs), is_member-items_in false a ys xs),
)

-- The value of the first entry of a key.
abbrev pub find_value : Value → Entries → Option Value
find_value key no_entries = none
find_value key (entry k x cs es) = if values_equal k key then some x else find_value key es

abbrev pub or_else_find : Option Value → Option Value → Option Value
or_else_find (some x) other = some x
or_else_find none other = other

find_value-push_columns :
    (key : Value) (cs : Columns) (es : Entries)
    → find_value key (push_columns cs es) ≡ find_value key es
unfolding push_columns
find_value-push_columns key cs no_entries = refl
find_value-push_columns key cs (entry k x absent es) = refl
find_value-push_columns key cs (entry k x (columns xs) es) =
    ap (λ o. if values_equal k key then some x else o) (find_value-push_columns key cs es)

-- Unequal values are not both equal to a third.
apart :
    (j k key : Value)
    → values_equal j k ≡ false
    → values_equal j key ≡ true
    → values_equal k key ≡ false
apart j k key n h = elim (Bool-cases (values_equal k key)) [
  | inl e ↦ absurd (cc (n, values_equal_trans j key k h (values_equal_symm k key e)))
  | inr e ↦ e
]

find_value-replace :
    (key k v : Value) (cols : Option Columns) (es : Entries)
    → has_key k es ≡ true
    → find_value key (replace k v cols es)
      ≡ (if values_equal k key then some v else find_value key es)
unfolding replace
find_value-replace key k v cols no_entries h = cc
find_value-replace key k v cols (entry j x cs es) h = elim (Bool-cases (values_equal j k)) [
  | inl e ↦ ground (arith, e, values_equal-same j k key e)
  | inr e ↦ elim (Bool-cases (values_equal j key)) [
    | inl q ↦ rw (e, q, apart j k key e q) refl
    | inr q ↦
        let h' : has_key k es ≡ true = ground (arith, e, h) in
        ground (arith, e, q, find_value-replace key k v cols es h')
  ]
]

find_value-append :
    (key k v : Value) (es : Entries)
    → has_key k es ≡ false
    → find_value key (append es (entry k v absent no_entries))
      ≡ (if values_equal k key then some v else find_value key es)
unfolding append
find_value-append key k v no_entries h = refl
find_value-append key k v (entry j x cs es) h = elim (Bool-cases (values_equal j k)) [
  | inl e ↦ absurd (ground (arith, e, h))
  | inr e ↦
      let h' : has_key k es ≡ false = ground (arith, e, h) in
      elim (Bool-cases (values_equal j key)) [
        | inl q ↦ rw (q, apart j k key e q) refl
        | inr q ↦ ground (arith, q, find_value-append key k v es h')
      ]
]

find_value-join_entry :
    (width : ℕ) (bare : Bool) (key k v : Value) (cs : Columns) (es : Entries)
    → find_value key (join_entry width bare k v cs es)
      ≡ (if values_equal k key then some v else find_value key es)
unfolding join_entry
find_value-join_entry width bare key k v cs es = elim (Bool-cases (has_key k es)) [
  | inl h ↦
      rw (h, join_entry)
        (find_value-replace key k v
          (if no_columns es then none else some (if bare then columns (voids (width - 1)) else cs))
          es h)
  | inr h ↦ elim (Bool-cases (ltb 1 width)) [
    | inl w ↦
        rw (h, w, join_entry)
          (find_value-push_columns key _ (append es (entry k v absent no_entries))
            ∙ find_value-append key k v es h)
    | inr w ↦ rw (h, w, join_entry) (find_value-append key k v es h)
  ]
]

-- The value of the last entry of a key.
abbrev pub last_value : Value → Entries → Option Value
last_value key no_entries = none
last_value key (entry k x cs es) =
    or_else_find (last_value key es) (if values_equal k key then some x else none)

later_first :
    (o : Option Value) (b : Bool) (v : Value) (first : Option Value)
    → or_else_find o (if b then some v else first)
      ≡ or_else_find (or_else_find o (if b then some v else none)) first
later_first (some x) b v first = refl
later_first none true v first = refl
later_first none false v first = refl

-- In the sum of two mappings a key has the value that it has last in the right one, and if it is not
-- there, that of the left one.
pub find_value-join_entries :
    (width : ℕ) (bare : Bool) (key : Value) (es fs : Entries)
    → find_value key (join_entries width bare es fs)
      ≡ or_else_find (last_value key fs) (find_value key es)
unfolding join_entries
find_value-join_entries width bare key es no_entries = refl
find_value-join_entries width bare key es (entry k v cs fs) =
    find_value-join_entries width bare key (join_entry width bare k v cs es) fs
    ∙ ap (or_else_find (last_value key fs)) (find_value-join_entry width bare key k v cs es)
    ∙ later_first (last_value key fs) (values_equal k key) v (find_value key es)
