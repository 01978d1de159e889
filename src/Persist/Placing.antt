-- ===== src/Persist/Placing.antt =====
-- `StateSerializer::restoreState`: section A of a dump, the placement of the objects.
use kjdmud.Base.{
  ℕ, zero, suc, ◌+◌, ◌-◌, ◌^◌, not, List, [], ◌∷◌, none, some, length, take, drop, ℤ, pos, negsuc,
  eqb_ℤ,
}
use kjdmud.Core.Text.{Text, codes}
use kjdmud.Core.Errors.{Result, ok, err, ◌>>=◌, runtime}
use kjdmud.Core.Decimal.{stoll}
use kjdmud.Core.Unsigned.{stoull}
use kjdmud.Core.Split.{split_at}
use kjdmud.Persist.Reading.{wrapped}
use kjdmud.Persist.World.{PlacementEntry}

-- `static_cast<size_t>`.
unfoldable pub to_size : ℤ → ℕ
to_size (pos n) = n
to_size (negsuc n) = 2 ^ 64 - suc n

-- The numbers between commas, so many of them.
unfoldable pub read_ids : ℕ → Text → Result (List ℤ)
unfolding split_at stoll
read_ids zero s = ok []
read_ids (suc n) s = elim (split_at b',' s) [
  | none ↦ stoll s >>= λ i. read_ids n [] >>= λ ids. ok (i ∷ ids)
  | some (token, rest) ↦ stoll token >>= λ i. read_ids n rest >>= λ ids. ok (i ∷ ids)
]

module _ (s : Text) where
  -- A text up to a delimiter, which must be there.
  unfoldable pub delimited : ℕ → Text → ℕ → Result (Text × ℕ)
  unfolding split_at
  delimited d message p = elim (split_at d (drop p s)) [
    | none ↦ err (runtime message)
    | some (before, behind) ↦ ok (before, p + length before + 1)
  ]

  -- `readIntField`.
  unfoldable pub read_int_field : ℕ → Result (ℤ × ℕ)
  unfolding delimited stoll
  read_int_field p =
      delimited b';' (codes "restore_state: corrupt statedump data (truncated field)") p >>= λ f.
      stoll f.0 >>= λ v. ok (v, f.1)

  unfoldable pub read_filename : ℕ → Result (Text × ℕ)
  unfolding delimited stoull
  read_filename p =
      delimited b':' (codes "restore_state: corrupt statedump data (truncated filename)") p >>= λ f.
      stoull f.0 >>= λ len. ok (take len (drop f.1 s), wrapped (f.1 + len))

  unfoldable pub read_placement : ℕ → Result (PlacementEntry × ℕ)
  unfolding read_int_field delimited read_ids to_size read_filename
  read_placement p = read_int_field p >>= λ id. read_int_field id.1 >>= λ clone.
      read_int_field clone.1 >>= λ env. read_int_field env.1 >>= λ size.
      delimited b';' (codes "restore_state: corrupt statedump data (truncated inventory list)")
        size.1
      >>= λ children. read_ids (to_size size.0) children.0 >>= λ ids.
          read_filename children.1 >>= λ name. ok (
            record {
              id = id.0;
              is_clone = not (eqb_ℤ clone.0 (pos 0));
              env_id = env.0;
              inv_ids = ids;
              filename = name.0;
            },
            name.1,
          )

  unfoldable pub read_placements : ℕ → ℕ → Result (List PlacementEntry × ℕ)
  unfolding read_placement
  read_placements zero p = ok ([], p)
  read_placements (suc n) p =
      read_placement p >>= λ e. read_placements n e.1 >>= λ es. ok (e.0 ∷ es.0, es.1)
