-- ===== src/Tests/Scheduled.antt =====
-- The scheduler, with a VM whose calls add a call_out and return 0, and two entries to begin with.
use kjdmud.Base.{
  ◌+◌, ◌*◌, ◌≡◌, ◌≤◌, refl, List, [], ◌∷◌, ◌++◌, ◌==◌, arith, pos, true, false, none, some,
  if◌then◌else◌, All, length,
}
use kjdmud.Core.Text.{codes}
use kjdmud.Core.Errors.{ok, err, runtime}
use kjdmud.Dialect.{ld_mud}
use kjdmud.Vm.Value.{int, void}
use kjdmud.Object.Live
use kjdmud.Scheduler.State.{State, CallOutEntry, Vm}
use kjdmud.Scheduler.CallOuts.{
  add_call_out, remaining_seconds, minus_one, remove_call_out_by_name, remove_call_out_by_handle,
  find_call_out_by_name, find_call_out_by_handle, remove_all_call_outs_for_object, tick_call_outs,
}
use kjdmud.Scheduler.CallOuts.Handles.{
  HasHandles, adds, apply, apply-HasHandles, find-add_call_out, find-remove_by_handle, remove-find,
}
use kjdmud.Scheduler.CallOuts.Firing.{
  tick_call_outs_isolated, IsKept, remove_all_call_outs_for_object-IsKept,
}
use kjdmud.Scheduler.Heartbeats.{has_entry, set_heartbeat, tick_heartbeats}
use kjdmud.Scheduler.Heartbeats.Laws.{beats, beats-heart, tick_heartbeats-command_givers}
use kjdmud.Scheduler.Heartbeats.Entries.{Sole, set_heartbeat-has_entry}
use kjdmud.Scheduler.Resets.{tick_resets_and_cleanup}
use kjdmud.Scheduler.Resets.Laws.{limit, tick_resets-calls}
use kjdmud.Tests.Objects.{player, heap}
use kjdmud.Core.Errors.{Returns}
use kjdmud.Scheduler.Loop.{Driver, Loop, IsSpaced, run, run-IsSpaced}

abbrev greet : CallOutEntry
greet = record {
  handle = 1;
  target = some 1;
  function = codes "greet";
  closure = none;
  args = [];
  due_at = 1000;
}

abbrev later : CallOutEntry
later = record greet { handle = 2; target = some 2; due_at = 9000000000 }

abbrev start : State
start = record {
  clock = 2000;
  heap = heap;
  live = some 1 ∷ some 2 ∷ [];
  command_givers = [];
  call_outs = greet ∷ later ∷ [];
  heartbeats = record { target = some 1; ticks_remaining = pos 2 } ∷ [];
  next_handle = 3;
}

-- Every call queues one more call_out; the second VM throws on top of that.
abbrev calling : State → State
calling s = record s { call_outs = s.call_outs ++ later ∷ [] }

abbrev vm : Vm
vm = record {
  run = λ c s. (calling s, ok (int (pos 0)));
  function_exists = λ s a name. true;
  driver_hook = λ s n. void;
  random = λ s. 30;
  dialect = ld_mud;
}

abbrev throwing : Vm
throwing = record vm { run = λ c s. (calling s, err (runtime (codes "bad"))) }

start-HasHandles : HasHandles start
start-HasHandles = (omega arith, (omega arith, omega arith))

apply-HasHandles_example : HasHandles (apply (adds greet) start)
apply-HasHandles_example = apply-HasHandles (adds greet) start start-HasHandles

find-add_call_out_example : find_call_out_by_handle 2 (add_call_out greet start).0 ≡ (
    if 2 == (add_call_out greet start).1
    then remaining_seconds 2000 1000
    else find_call_out_by_handle 2 start)
find-add_call_out_example = find-add_call_out start greet 2 start-HasHandles

find-remove_by_handle_example :
    find_call_out_by_handle 1 (remove_call_out_by_handle 1 start).0 ≡ minus_one
find-remove_by_handle_example = find-remove_by_handle start 1 1 start-HasHandles

remove-find_example :
    ((remove_call_out_by_handle 2 start).1 ≡ find_call_out_by_handle 2 start)
    × ((remove_call_out_by_name (some 1) (codes "greet") start).1
        ≡ find_call_out_by_name (some 1) (codes "greet") start)
remove-find_example = remove-find start 2 (some 1) (codes "greet")

tick_call_outs_isolated_example : tick_call_outs vm start ≡ tick_call_outs throwing start
tick_call_outs_isolated_example = tick_call_outs_isolated vm throwing (λ c s. refl) start

remove_all_call_outs_for_object-IsKept_example :
    All (IsKept heap (some 1)) (remove_all_call_outs_for_object (some 1) start).call_outs
remove_all_call_outs_for_object-IsKept_example =
    remove_all_call_outs_for_object-IsKept (some 1) start

beats-heart_example : beats 7 heap (record { target = some 1; ticks_remaining = pos 1 } ∷ []) ≡ 4
beats-heart_example = beats-heart 7 heap 1 2 1 player refl refl (omega arith) (omega arith)

tick_heartbeats-command_givers_example : (tick_heartbeats vm 1 start).command_givers ≡ []
tick_heartbeats-command_givers_example = tick_heartbeats-command_givers vm (λ c s. refl) 1 start

start-Sole : Sole heap start.heartbeats
unfolding has_entry
start-Sole = (λ b h. refl, tt)

set_heartbeat-has_entry_example :
    has_entry (set_heartbeat 2 (pos 5) start).heap 2 (set_heartbeat 2 (pos 5) start).heartbeats
    ≡ true
set_heartbeat-has_entry_example = set_heartbeat-has_entry 2 2 (pos 5) start player refl start-Sole

tick_resets-calls_example :
    length (tick_resets_and_cleanup vm start).1 ≤ length (Live.all heap start.live) * limit vm
tick_resets-calls_example = tick_resets-calls vm start

-- Each round of the server takes a second and a half.
abbrev driver : Driver
driver = record {
  poll_once = λ s. record s { clock = s.clock + 1500000000 };
  process_replacements = λ s. s;
  resume_tasks = λ t s. s;
  clear_shutdown = λ s. s;
  shutdown = λ s. false;
}

abbrev loop : Loop
loop = record { last_heartbeat = 0; state = start }

run-IsSpaced_example : Returns (λ r. IsSpaced 0 r.1) (run driver vm 1 5 4 loop)
run-IsSpaced_example = run-IsSpaced driver vm 1 5 4 loop (omega arith) (omega arith)
