-- ===== src/Persist/World.antt =====
-- `StateSerializer::dumpState`: the whole world in a text.
use kjdmud.Base.{
  ℕ, suc, Bool, List, [], ◌∷◌, ◌++◌, Option, none, some, length, ◌==◌, if◌then◌else◌, ℤ, pos,
  negsuc,
}
use kjdmud.Core.Text.{Text, codes}
use kjdmud.Core.Errors.{Result, ok, ◌>>=◌}
use kjdmud.Core.Decimal.{to_string, digits}
use kjdmud.Vm.Value.{Items}
use kjdmud.Vm.Save.Read.{count}
use kjdmud.Persist.Writing.{serialize_items}

abbrev pub magic : Text
magic = codes "AMLPSTATE1\n"

-- What is dumped of an object; the environment is the one that `lock` gives.
pub record Dumped : Type 0 where
  pub filename : Text
  pub is_clone : Bool
  pub environment : Option ℕ
  pub inventory : List ℕ
  pub variables : Items

-- `idOfObject`: the index in the list of the live objects, which begins with `n`.
unfoldable pub id_from : ℕ → List ℕ → ℕ → Option ℕ
id_from n [] a = none
id_from n (b ∷ live) a = elim (id_from (suc n) live a) [
  | some i ↦ some i
  | none ↦ if a == b then some n else none
]

pub record PlacementEntry : Type 0 where
  pub id : ℤ
  pub is_clone : Bool
  pub env_id : ℤ
  pub inv_ids : List ℤ
  pub filename : Text

-- An id, or -1.
unfoldable pub id_or_none : Option ℕ → ℤ
id_or_none none = negsuc 0
id_or_none (some i) = pos i

-- A child that has no id is skipped.
unfoldable pub child_ids : (ℕ → Option ℕ) → List ℕ → List ℤ
child_ids ids [] = []
child_ids ids (a ∷ children) =
    let rest = child_ids ids children in elim (ids a) [ none ↦ rest | some i ↦ pos i ∷ rest ]

unfoldable pub placement : (ℕ → Option ℕ) → ℕ → Dumped → PlacementEntry
unfolding id_or_none child_ids
placement ids i thing = record {
  id = pos i;
  is_clone = thing.is_clone;
  env_id = elim thing.environment [ none ↦ negsuc 0 | some a ↦ id_or_none (ids a) ];
  inv_ids = child_ids ids thing.inventory;
  filename = thing.filename;
}

unfoldable pub ids_text : List ℤ → Text
ids_text [] = []
ids_text (i ∷ []) = to_string i
ids_text (i ∷ j ∷ ids) = to_string i ++ b',' ∷ ids_text (j ∷ ids)

-- `size` is the number of children, with those that have no id.
unfoldable pub placement_text : ℕ → PlacementEntry → Text
unfolding ids_text
placement_text size e =
    to_string e.id
    ++ b';'
      ∷ (if e.is_clone then b'1' else b'0')
      ∷ b';'
      ∷ (to_string e.env_id
          ++ b';'
            ∷ (digits size
                ++ b';'
                  ∷ (ids_text e.inv_ids
                      ++ b';' ∷ (digits (length e.filename) ++ b':' ∷ e.filename))))

-- `idOfObject[obj.get()]`.
unfoldable pub id_of : (ℕ → Option ℕ) → ℕ → ℕ
id_of ids a = elim (ids a) [ none ↦ 0 | some i ↦ i ]

-- Section A, for the live objects, each with its address.
unfoldable pub placements_text : (ℕ → Option ℕ) → List (ℕ × Dumped) → Text
unfolding placement placement_text id_of
placements_text ids [] = []
placements_text ids ((a, thing) ∷ things) =
    placement_text (length thing.inventory) (placement ids (id_of ids a) thing)
    ++ placements_text ids things

abbrev pub addresses : List (ℕ × Dumped) → List ℕ
addresses [] = []
addresses ((a, thing) ∷ things) = a ∷ addresses things

module _ (show : ℕ → Text) (is_alive : ℕ → Bool) where
  -- Section B.
  unfoldable pub variables_text : (ℕ → Option ℕ) → List (ℕ × Dumped) → Result Text
  unfolding id_of
  variables_text ids [] = ok []
  variables_text ids ((a, thing) ∷ things) =
      serialize_items show is_alive ids thing.variables >>= λ values.
      variables_text ids things >>= λ rest.
      ok
        (digits (id_of ids a) ++ b';' ∷ (digits (count thing.variables) ++ b';' ∷ (values ++ rest)))

  -- The file is opened, or the answer is `none`.
  unfoldable pub dump_state : Bool → List (ℕ × Dumped) → Result (Option Text)
  unfolding id_from placements_text variables_text
  dump_state opens things =
      let ids = id_from 0 (addresses things) in
      let text = variables_text ids things >>= λ values.
      ok (
        some
          (magic ++ (digits (length things) ++ b';' ∷ (placements_text ids things ++ values)))) in
      if opens then text else ok none
