-- ===== src/Tests/Objects.antt =====
-- The registries on a heap of two objects.
use kjdmud.Base.{
  ◌≡◌, ◌≢◌, refl, List, [], ◌∷◌, ℕ, ◌==◌, pos, true, false, Option, none, some, if◌then◌else◌, ◌⊎◌,
}
use kjdmud.Core.Text.{codes}
use kjdmud.Object.Heap.{Heap, LpcObject}
use kjdmud.Object.Living
use kjdmud.Object.Living.Laws.{Listed, find_sound, find-set_name}
use kjdmud.Net.Interactive

abbrev pub player : LpcObject
player = record {
  filename = codes "/obj/player";
  destructed = false;
  commands_enabled = true;
  ever_interactive = true;
  is_clone = true;
  heartbeat_interval = pos 2;
  shadowing = none;
  reset_state = false;
  will_clean_up = false;
  time_reset = none;
  time_of_ref = 0;
}

-- A player at 1 and at 2.
abbrev pub heap : Heap
heap = λ a. if a == 1 then some player else if a == 2 then some player else none

abbrev live : List (Option ℕ)
live = some 1 ∷ some 9 ∷ some 2 ∷ []

abbrev livings : List Living.Entry
livings =
    record { obj = some 1; name = codes "ann" } ∷ record { obj = some 2; name = codes "bob" } ∷ []

find_bob : Living.find heap (codes "bob") true livings ≡ some 2
unfolding Living.find
find_bob = refl

find_sound_example :
    Listed heap (codes "bob") 2 livings
    × ((o : LpcObject) × (heap 2 ≡ some o)
        × (o.destructed ≡ false)
        × (o.commands_enabled ≡ true)
        × ((true ≡ false) ⊎ (o.ever_interactive ≡ true)))
find_sound_example = find_sound heap (codes "bob") true livings 2 find_bob

find-set_name_example :
    (let before = Living.find heap (codes "eve") true livings in
      let after =
        Living.find heap (codes "eve") true (Living.set heap (some 2) (codes "eve") livings) in
      (((b : ℕ) × (after ≡ some b) × (b ≢ 2) × Listed heap (codes "eve") b livings)
        ⊎ (((after ≡ some 2) × (codes "eve" ≡ codes "eve"))
            ⊎ ((after ≡ none) × (codes "eve" ≢ codes "eve"))))
      × ((before ≡ none) ⊎ ((before ≡ some 2) ⊎ (after ≡ before))))
unfolding Living.qualifies
find-set_name_example =
    find-set_name heap 2 player (codes "eve") (codes "eve") true livings refl refl

abbrev pub connected : List Interactive.Entry
connected = record { obj = some 1; conn = 70 } ∷ record { obj = some 2; conn = 80 } ∷ []
