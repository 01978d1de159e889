-- ===== src/Tests/Replaced.antt =====
-- A stone that is put back into its room.
use kjdmud.Base.{◌≡◌, refl, none, some, [], ◌∷◌, ◌==◌, if◌then◌else◌, All, pos, negsuc, true, false}
use kjdmud.Core.Text.{codes}
use kjdmud.Core.Errors.{ok}
use kjdmud.Vm.Value.{no_items}
use kjdmud.Persist.World.{PlacementEntry}
use kjdmud.Persist.Restore.{World, Table, Manager, place_all, restore_state}
use kjdmud.Persist.Restored.{IsPlaced, place_all-IsPlaced}

abbrev empty : World
empty = record {
  environment = λ a. none;
  inventory = λ a. 9 ∷ [];
  variables = λ a. no_items;
  retained = [];
}

abbrev room : PlacementEntry
room = record {
  id = pos 0;
  is_clone = false;
  env_id = negsuc 0;
  inv_ids = pos 1 ∷ pos 5 ∷ [];
  filename = codes "/room";
}

abbrev stone : PlacementEntry
stone = record {
  id = pos 1;
  is_clone = true;
  env_id = pos 0;
  inv_ids = [];
  filename = codes "/stone";
}

-- The room is at address 70, the stone at 71.
abbrev made : Table
made (pos n) = if n == 0 then some 70 else if n == 1 then some 71 else none
made (negsuc n) = none

place_all-IsPlaced_example :
    All (IsPlaced made empty (place_all made (room ∷ stone ∷ []) empty)) (room ∷ stone ∷ [])
place_all-IsPlaced_example =
    place_all-IsPlaced made (room ∷ stone ∷ []) empty ((70, refl, (refl, tt)), ((71, refl, tt), tt))

abbrev manager : Manager
manager = record {
  clone_object = λ name w. ok (some 71, w);
  lookup_loaded_object = λ name w. none;
  load_object = λ name w. ok (some 70, w);
}

garbage_is_refused :
    restore_state (λ s. ok 0) 9 manager (some (codes "AMLPSTATE2\n")) empty ≡ ok (false, empty)
unfolding restore_state
garbage_is_refused = refl
