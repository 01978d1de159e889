-- ===== src/Vm/Indexing.antt =====
-- src/vm/VM.cpp, `OpCode::Index` and `OpCode::RangeIndex`, on the values of Vm/Value.antt. Where the code
-- turns a destructed object inside an array into 0, the value that is read is 0 and the array is kept.
use kjdmud.Base.{
  ℕ, zero, suc, ◌+◌, ◌-◌, ◌≤◌, ◌≡◌, refl, ap, ◌∙◌, Bool, true, false, not, List, [], ◌∷◌, ◌++◌,
  length, take, drop, Option, none, some, ltb, if◌then◌else◌, ℤ, pos, negsuc, sub_ℕ, ltb_ℤ,
  pos_part, arith, Bool-cases, inl, inr,
}
use kjdmud.Core.Text.{Text, codes}
use kjdmud.Core.Decimal.{to_string}
use kjdmud.Object.Heap.{Heap}
use kjdmud.Vm.Value.{
  Value, void, int, str, null_array, null_mapping, array, mapping, Items, no_items, item, Entries,
  no_entries, entry, values_equal,
}
use kjdmud.Vm.Value.Editing.{get_column}
use kjdmud.Vm.Bytecode.{get_elem?}
use kjdmud.Vm.Store.{Outcome, value, thrown, lpc_error}
use kjdmud.Vm.Operators.{throw}
use kjdmud.Compiler.CodeGen.{int32}
use kjdmud.Vm.Activation.{coerce_if_destructed, items, get_elem?-take}

abbrev pub values : Items → List Value
values no_items = []
values (item v vs) = v ∷ values vs

-- `len - i`, and the index that the flag "from the end" makes of `i`.
abbrev pub from_end : ℕ → ℤ → ℤ
from_end len (pos n) = sub_ℕ len n
from_end len (negsuc n) = pos (len + suc n)

abbrev pub resolve : Bool → ℕ → ℤ → ℤ
resolve true len i = from_end len i
resolve false len i = i

-- The element at an integer index.
abbrev pub item_at {ℓ} : {A : Type ℓ} → ℤ → List A → Option A
item_at (pos n) xs = get_elem? n xs
item_at (negsuc n) xs = none

-- The first entry of the key.
unfoldable pub key_index : Value → Entries → Option ℕ
key_index key no_entries = none
key_index key (entry k x cs es) =
    let later : Option ℕ = elim (key_index key es) [ none ↦ none | some i ↦ some (suc i) ] in
    if values_equal k key then some 0 else later

abbrev pub bad_column : ℤ → ℕ → Text
bad_column col width =
    codes "Illegal sub-index "
    ++ (to_string col ++ (codes ", mapping width is " ++ (to_string (pos width) ++ codes ".")))

-- A column that the entry does not have is void.
abbrev pub or_void : Option Value → Value
or_void none = void
or_void (some v) = v

module _ (heap : Heap) where
  -- `missing` is the value for a key that is not there.
  unfoldable pub read_entry : Value → ℕ → Value → Entries → Outcome Value Value
  unfolding key_index get_column coerce_if_destructed
  read_entry key col missing es = elim (key_index key es) [
    | none ↦ value missing
    | some i ↦ value (coerce_if_destructed heap (or_void (get_column i col es)))
  ]

  unfoldable pub index_column : Value → ℤ → ℕ → Entries → Outcome Value Value
  unfolding read_entry
  index_column key (negsuc n) width es = thrown (lpc_error (bad_column (negsuc n) width))
  index_column key (pos col) width es =
      let result : Outcome Value Value = read_entry key col (int (pos 0)) es in
      if ltb col width then result else thrown (lpc_error (bad_column (pos col) width))

  unfoldable pub index_mapping : Value → Option Value → ℕ → Entries → Outcome Value Value
  unfolding read_entry index_column
  index_mapping key none width es = read_entry key 0 void es
  index_mapping key (some (int i)) width es = index_column key (int32 i) width es
  index_mapping key (some _) width es = throw "Illegal sub-index type, expected number."

  unfoldable pub index_array : Bool → Value → Items → Outcome Value Value
  unfolding get_elem? coerce_if_destructed
  index_array end_flag (int i) xs =
      elim (item_at (resolve end_flag (length (values xs)) i) (values xs)) [
        | none ↦ throw "Index: array index out of bounds"
        | some v ↦ value (coerce_if_destructed heap v)
      ]
  index_array end_flag _ xs = throw "Index: array index must be an integer"

  -- A text has a 0 behind its last byte.
  unfoldable pub index_string : Bool → Value → Text → Outcome Value Value
  unfolding get_elem?
  index_string end_flag (int i) s = elim (item_at (resolve end_flag (length s) i) (s ++ (0 ∷ []))) [
    | none ↦ throw "Index: string index out of bounds"
    | some b ↦ value (int (pos b))
  ]
  index_string end_flag _ s = throw "Index: string index must be an integer"

  -- `column` is the value of the mapping's column, if the instruction has one.
  unfoldable pub index_value : Bool → Value → Value → Option Value → Outcome Value Value
  unfolding index_array index_mapping index_string
  index_value end_flag null_array i column = throw "Index: target array is null"
  index_value end_flag (array xs) i column = index_array end_flag i xs
  index_value end_flag null_mapping i column = throw "Index: target mapping is null"
  index_value end_flag (mapping w es) i column = index_mapping i column w es
  index_value end_flag (str s) i column = index_string end_flag i s
  index_value end_flag _ i column = throw "Index: target is not an array, mapping, or string"

-- `std::min(end, len - 1)`.
unfoldable pub clamped_end : ℤ → ℕ → ℤ
clamped_end e len = if ltb_ℤ (sub_ℕ len 1) e then sub_ℕ len 1 else e

-- The elements from `start` to the end of the range.
unfoldable pub slice {ℓ} : {A : Type ℓ} → ℕ → ℤ → List A → List A
unfolding clamped_end
slice start e xs = elim (clamped_end e (length xs)) [
  | negsuc n ↦ []
  | pos last ↦ if ltb last start then [] else take (suc last - start) (drop start xs)
]

-- The flags are for the start and for the end; a start below 0 that was counted from the end is 0.
abbrev pub range_of {ℓ} : {A : Type ℓ} → Bool → Bool → ℤ → ℤ → List A → List A
range_of start_flag end_flag i j xs =
    slice (pos_part (resolve start_flag (length xs) i)) (resolve end_flag (length xs) j) xs

abbrev pub is_negative : ℤ → Bool
is_negative (pos n) = false
is_negative (negsuc n) = true

unfoldable pub range_ints : Bool → Bool → Value → ℤ → ℤ → Outcome Value Value
unfolding slice
range_ints start_flag end_flag (str s) i j = value (str (range_of start_flag end_flag i j s))
range_ints start_flag end_flag null_array i j = throw "RangeIndex: target array is null"
range_ints start_flag end_flag (array xs) i j =
    value (array (items (range_of start_flag end_flag i j (values xs))))
range_ints start_flag end_flag _ i j = throw "RangeIndex: target is not an array or string"

unfoldable pub range_value : Bool → Bool → Value → Value → Value → Outcome Value Value
unfolding range_ints
range_value start_flag end_flag target (int i) (int j) =
    let result : Outcome Value Value = range_ints start_flag end_flag target i j in
    if start_flag
    then result
    else (if is_negative i then throw "RangeIndex: start index must be non-negative" else result)
range_value start_flag end_flag target (int i) _ = throw "RangeIndex: end index must be an integer"
range_value start_flag end_flag target _ j = throw "RangeIndex: start index must be an integer"

get_elem?-drop {ℓ} :
    {A : Type ℓ} (xs : List A) (k s : ℕ) → get_elem? k (drop s xs) ≡ get_elem? (s + k) xs
unfolding get_elem?
get_elem?-drop xs k zero = let e : k ≡ 0 + k = omega arith in ap (λ n. get_elem? n xs) e
get_elem?-drop [] k (suc s) = refl
get_elem?-drop (x ∷ xs) k (suc s) =
    get_elem?-drop xs k s ∙ (let e : suc s + k ≡ suc (s + k) = omega arith in rw e refl)

get_elem?-behind {ℓ} : {A : Type ℓ} (xs : List A) (i : ℕ) → length xs ≤ i → get_elem? i xs ≡ none
unfolding get_elem?
get_elem?-behind [] i h = refl
get_elem?-behind (x ∷ xs) zero h = absurd (omega arith)
get_elem?-behind (x ∷ xs) (suc i) h = get_elem?-behind xs i (omega arith)

if-not {ℓ} : {A : Type ℓ} (b : Bool) (x y : A) → (if not b then x else y) ≡ (if b then y else x)
if-not true x y = refl
if-not false x y = refl

get_elem?-cut {ℓ} :
    {A : Type ℓ} (last start k : ℕ) (xs : List A)
    → get_elem? k (if ltb last start then [] else take (suc last - start) (drop start xs))
      ≡ (if ltb last (start + k) then none else get_elem? (start + k) xs)
unfolding get_elem?
get_elem?-cut last start k xs = elim (Bool-cases (ltb last start)) [
  | inl h ↦ let e : ltb last (start + k) ≡ true = ground (arith, h) in rw (h, e) refl
  | inr h ↦
      let e : ltb k (suc last - start) ≡ not (ltb last (start + k)) = ground (arith, h) in
      rw (h, get_elem?-take, get_elem?-drop, e) (if-not (ltb last (start + k)) _ _)
]

-- A bound behind the last element makes no difference.
get_elem?-bound {ℓ} :
    {A : Type ℓ} (m n i : ℕ) (xs : List A)
    → length xs ≤ suc m
    → m ≤ n
    → (if ltb m i then none else get_elem? i xs) ≡ (if ltb n i then none else get_elem? i xs)
get_elem?-bound m n i xs h l = elim (Bool-cases (ltb m i)) [
  | inl e ↦
      let q : get_elem? i xs ≡ none = get_elem?-behind xs i (ground (arith, h, e)) in
      ground (arith, e, q)
  | inr e ↦ ground (arith, e, l)
]

clamped-negative : (n len : ℕ) → clamped_end (negsuc n) len ≡ negsuc n
unfolding clamped_end
clamped-negative n zero = ground arith
clamped-negative n (suc len) = ground arith

clamped-empty : (n : ℕ) → clamped_end (pos n) 0 ≡ negsuc 0
unfolding clamped_end
clamped-empty n = ground arith

clamped-cut : (n m : ℕ) → ltb m n ≡ true → clamped_end (pos n) (suc m) ≡ pos m
unfolding clamped_end
clamped-cut n m h = ground (arith, h)

clamped-kept : (n m : ℕ) → ltb m n ≡ false → clamped_end (pos n) (suc m) ≡ pos n
unfolding clamped_end
clamped-kept n m h = ground (arith, h)

ltb_ℤ-pos : (a b : ℕ) → ltb_ℤ (pos a) (pos b) ≡ ltb a b
ltb_ℤ-pos a b = ground arith

-- The element `k` of a range is the element `k` behind its start, if that is not behind its end.
pub slice-get :
    {A : Type 0} (start k : ℕ) (e : ℤ) (xs : List A)
    → get_elem? k (slice start e xs)
      ≡ (if ltb_ℤ e (pos (start + k)) then none else get_elem? (start + k) xs)
unfolding slice get_elem?
slice-get start k (negsuc n) [] = rw (clamped-negative n 0, slice) (ground arith)
slice-get start k (pos n) [] = rw (clamped-empty n, slice) (ground arith)
slice-get start k (negsuc n) (x ∷ xs) =
    rw (clamped-negative n (suc (length xs)), slice) (ground arith)
slice-get start k (pos n) (x ∷ xs) = elim (Bool-cases (ltb (length xs) n)) [
  | inl h ↦
      rw (clamped-cut n (length xs) h, ltb_ℤ-pos, slice)
        (get_elem?-cut (length xs) start k (x ∷ xs)
          ∙ get_elem?-bound (length xs) n (start + k) (x ∷ xs) (omega arith) (ground (arith, h)))
  | inr h ↦ rw (clamped-kept n (length xs) h, ltb_ℤ-pos, slice) (get_elem?-cut n start k (x ∷ xs))
]
