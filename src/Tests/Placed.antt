-- ===== src/Tests/Placed.antt =====
-- A room with two things in it, dumped and read back.
use kjdmud.Base.{
  ℕ, zero, suc, ◌+◌, ◌<◌, ◌^◌, ◌≡◌, refl, true, false, Option, none, some, List, [], ◌∷◌, ◌++◌,
  arith, length,
}
use kjdmud.Core.Text.{codes}
use kjdmud.Core.Errors.{ok}
use kjdmud.Core.Decimal.{digits, to_string}
use kjdmud.Vm.Value.{no_items}
use kjdmud.Persist.World.{
  Dumped, id_of, placement, placement_text, placements_text, ids_text, child_ids, id_or_none,
}
use kjdmud.Persist.Placing.{read_placements}
use kjdmud.Persist.Placed.{placements, read_placements-text}

abbrev room : Dumped
room = record {
  filename = codes "/room";
  is_clone = false;
  environment = none;
  inventory = 1 ∷ 2 ∷ [];
  variables = no_items;
}

abbrev stone : Dumped
stone = record {
  filename = codes "/stone";
  is_clone = true;
  environment = some 0;
  inventory = [];
  variables = no_items;
}

abbrev things : List (ℕ × Dumped)
things = (0, room) ∷ (1, stone) ∷ (2, stone) ∷ []

-- Object `a` has the id `a`.
abbrev ids : ℕ → Option ℕ
ids zero = some 0
ids (suc zero) = some 1
ids (suc (suc zero)) = some 2
ids (suc (suc (suc a))) = none

ids_are_small : (a i : ℕ) → ids a ≡ some i → i < 2 ^ 63
ids_are_small zero i e = ground arith
ids_are_small (suc zero) i e = ground arith
ids_are_small (suc (suc zero)) i e = ground arith
ids_are_small (suc (suc (suc a))) i e = cc

section_a_is_written :
    placements_text ids things ≡ codes "0;0;-1;2;1,2;5:/room1;1;0;0;;6:/stone2;1;0;0;;6:/stone"
unfolding placements_text placement_text placement child_ids id_or_none id_of ids_text digits
    to_string
section_a_is_written = refl

read_placements-text_example :
    read_placements (codes "3;" ++ (placements_text ids things ++ codes "0;0;")) 3 2
    ≡ ok (placements ids things, 2 + length (placements_text ids things))
unfolding placements_text placement_text placement child_ids id_or_none id_of ids_text digits
    to_string
read_placements-text_example =
    read_placements-text ids ids_are_small things (codes "3;") (codes "0;0;")
      ((((1, refl), ((2, refl), tt)), omega arith), ((tt, omega arith), ((tt, omega arith), tt)))
      (omega arith)
