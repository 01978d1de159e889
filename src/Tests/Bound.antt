-- ===== src/Tests/Bound.antt =====
-- A player who connects and leaves.
use kjdmud.Base.{◌≡◌, refl, true, false, none, some, ◌==◌, if◌then◌else◌}
use kjdmud.Object.Heap.{change, lock}
use kjdmud.Net.Interactive
use kjdmud.Net.Binding.{Binding, attach, close}
use kjdmud.Net.Unbinding.{close-attach, find-attach, left_over}
use kjdmud.Tests.Objects.{heap, connected}

-- The player at 2 snoops on the player at 1.
abbrev open_one : Binding
open_one = record {
  bound_object = none;
  is_open = true;
  closed = false;
  registry = connected;
  heap = heap;
  snooped_by = λ a. if a == 1 then some 2 else none;
  snooping = λ a. if a == 2 then some 1 else none;
}

close-attach_example :
    (let after = close (attach 90 (some 1) open_one) in
      (Interactive.find after.heap (some 2) after.registry
        ≡ (if 2 == 1 then none else Interactive.find open_one.heap (some 2) open_one.registry))
      × (after.snooped_by 1 ≡ none)
      × (after.bound_object ≡ none))
close-attach_example = close-attach 90 1 2 open_one refl

snooper_is_free : (close (attach 90 (some 1) open_one)).snooping 2 ≡ none
unfolding close attach change
snooper_is_free = refl

-- The player at 1 has the connection 70 already, and keeps it; the connection 80 gives up the player
-- at 2.
abbrev second : Binding
second = record open_one { bound_object = some 2 }

find-attach_example :
    (let after = attach 80 (some 1) second in
      Interactive.find after.heap (some 2) after.registry ≡ left_over second 2)
unfolding lock
find-attach_example = find-attach 80 1 2 second refl
