-- ===== src/Persist/Restore.antt =====
-- `StateSerializer::restoreState`: the objects are made again, placed, and given their variables.
use kjdmud.Base.{
  ℕ, zero, suc, Bool, true, false, List, [], ◌∷◌, ◌++◌, Option, none, some, length, ◌==◌,
  if◌then◌else◌, ℤ, pos, negsuc, eqb_ℤ,
}
use kjdmud.Core.Text.{Text, codes}
use kjdmud.Core.Split.{begins_with}
use kjdmud.Core.Errors.{Result, ok, err, ◌>>=◌, runtime}
use kjdmud.Vm.Value.{Items, no_items, item}
use kjdmud.Persist.Reading.{read_items, deserialize}
use kjdmud.Persist.World.{PlacementEntry, magic}
use kjdmud.Persist.Placing.{to_size, read_int_field, read_placements}

-- What restoreState changes of the objects, by their addresses.
pub record World : Type 0 where
  pub environment : ℕ → Option ℕ
  pub inventory : ℕ → List ℕ
  pub variables : ℕ → Items
  pub retained : List ℕ

-- The object manager, which compiles and runs LPC code: an object or null, or an exception.
pub record Manager : Type 0 where
  pub clone_object : Text → World → Result (Option ℕ × World)
  pub lookup_loaded_object : Text → World → Option ℕ
  pub load_object : Text → World → Result (Option ℕ × World)

abbrev pub Table : Type 0
Table = ℤ → Option ℕ

-- `objectOfId[id] = obj`.
unfoldable pub put_id : ℤ → ℕ → Table → Table
put_id id a objects = λ i. if eqb_ℤ i id then some a else objects i

abbrev pub set {ℓ} : {A : Type ℓ} → ℕ → A → (ℕ → A) → ℕ → A
set a v f = λ b. if b == a then v else f b

module _ (m : Manager) where
  unfoldable pub make_again : PlacementEntry → World → Result (Option ℕ × World)
  make_again e w =
      let loaded = m.lookup_loaded_object e.filename w in
      if e.is_clone
      then m.clone_object e.filename w
      else elim loaded [ some a ↦ ok (some a, w) | none ↦ m.load_object e.filename w ]

  -- The table of the ids, the objects that are made again and the world behind it.
  unfoldable pub reconstruct :
      List PlacementEntry → Table → World → Result (Table × (List ℕ × World))
  unfolding make_again put_id
  reconstruct [] objects w = ok (objects, ([], w))
  reconstruct (e ∷ entries) objects w = make_again e w >>= λ r. elim r.0 [
    | none ↦ err (runtime (codes "restore_state: could not reconstruct object for " ++ e.filename))
    | some a ↦ reconstruct entries (put_id e.id a objects) r.1 >>= λ more.
        ok (more.0, (a ∷ more.1.0, more.1.1))
  ]

-- The objects that the ids stand for; an id without one is skipped.
unfoldable pub found_all : Table → List ℤ → List ℕ
found_all objects [] = []
found_all objects (i ∷ ids) =
    let rest = found_all objects ids in elim (objects i) [ none ↦ rest | some a ↦ a ∷ rest ]

-- The environment that is set, if any.
unfoldable pub new_environment : Table → ℤ → Option ℕ
new_environment objects (pos i) = objects (pos i)
new_environment objects (negsuc i) = none

unfoldable pub place_at : Table → PlacementEntry → ℕ → World → World
unfolding found_all new_environment
place_at objects e a w =
    let moved : World = elim (new_environment objects e.env_id) [
      | none ↦ w
      | some room ↦ record w { environment = set a (some room) w.environment }
    ] in
    record moved { inventory = set a (found_all objects e.inv_ids) moved.inventory }

-- Every entry's id is in the table.
unfoldable pub place_all : Table → List PlacementEntry → World → World
unfolding place_at
place_all objects [] w = w
place_all objects (e ∷ entries) w =
    place_all objects entries (elim (objects e.id) [ none ↦ w | some a ↦ place_at objects e a w ])

-- The variables, up to the shorter of the two lengths.
unfoldable pub assign : Items → Items → Items
assign no_items values = no_items
assign (item v vars) no_items = item v vars
assign (item v vars) (item x values) = item x (assign vars values)

module _ (stod : Text → Result ℕ) (s : Text) (fuel : ℕ) where
  unfoldable pub read_variables : Table → ℕ → ℕ → World → Result World
  unfolding read_int_field to_size read_items deserialize assign
  read_variables objects zero p w = ok w
  read_variables objects (suc n) p w = read_int_field s p >>= λ id.
      read_int_field s id.1 >>= λ size.
      read_items (deserialize stod objects s fuel) (to_size size.0) size.1 >>= λ values.
      read_variables objects n values.1 (elim (objects id.0) [
        | none ↦ w
        | some a ↦ record w { variables = set a (assign (w.variables a) values.0) w.variables }
      ])

  -- The file, behind the magic.
  unfoldable pub restore_body : Manager → World → Result World
  unfolding read_placements reconstruct place_all read_variables
  restore_body m w = read_int_field s (length magic) >>= λ size.
      read_placements s (to_size size.0) size.1 >>= λ entries.
      reconstruct m entries.0 (λ i. none) w >>= λ made.
      read_variables made.0 (length entries.0) entries.1
        (place_all made.0 entries.0 (record made.1.1 { retained = made.1.1.retained ++ made.1.0 }))

-- The file's text, or `none` if it cannot be opened. The answer, and the world behind it.
unfoldable pub restore_state :
    (Text → Result ℕ) → ℕ → Manager → Option Text → World → Result (Bool × World)
unfolding restore_body
restore_state stod fuel m none w = ok (false, w)
restore_state stod fuel m (some s) w =
    let body = restore_body stod s fuel m w in
    if begins_with magic s then (body >>= λ v. ok (true, v)) else ok (false, w)
