-- ===== src/Scheduler/Resets.antt =====
-- `tickResetsAndCleanup`: reset() and clean_up() of the live objects.
pub mod Laws
use kjdmud.Base.{
  ℕ, zero, suc, ◌+◌, ◌*◌, ◌<◌, ◌≤◌, ℤ, pos, Bool, true, false, not, ◌&&◌, ◌||◌, List, [], ◌∷◌, ◌++◌,
  Option, none, some, leb, ltb, if◌then◌else◌,
}
use kjdmud.Core.Text.{Text, codes}
use kjdmud.Core.Errors.{Result, ok, err}
use kjdmud.Dialect.{LpcDialect, ld_mud, fluff_os, dgd}
use kjdmud.Object.Heap.{Heap, LpcObject, change}
use kjdmud.Object.Live
use kjdmud.Vm.Value.{Value, void, int, str, is_truthy}
use kjdmud.Scheduler.State.{State, Vm, Call, function_call, driver}

-- `kTimeToReset` and `kTimeToCleanUp`, in nanoseconds.
abbrev pub time_to_reset : ℕ
time_to_reset = 1800000000000

abbrev pub time_to_clean_up : ℕ
time_to_clean_up = 3600000000000

-- `hookFunctionName`.
unfoldable pub hook_function_name : Value → Text → Text
hook_function_name (str name) fallback = name
hook_function_name _ fallback = fallback

-- `LpcObject::armReset`: half the time and a jitter below the other half, drawn in seconds.
unfoldable pub arm_reset : Vm → ℕ → State → State
unfolding change
arm_reset vm a s = record s {
  heap =
      change a
        (λ o. record o {
          time_reset = some (s.clock + 900000000000 + vm.random s * 1000000000);
          reset_state = true;
        })
        s.heap;
}

abbrev pub set_object : ℕ → (LpcObject → LpcObject) → State → State
set_object a f s = record s { heap = change a f s.heap }

abbrev pub is_gone : State → ℕ → Bool
is_gone s a = elim (s.heap a) [ none ↦ true | some o ↦ o.destructed ]

-- `now >= timeReset()`.
abbrev pub is_reset_due : ℕ → LpcObject → Bool
is_reset_due now o = elim o.time_reset [ none ↦ false | some t ↦ leb t now ]

-- `willCleanUp() && (now - timeOfRef()) > kTimeToCleanUp`.
abbrev pub is_ready_for_clean_up : ℕ → LpcObject → Bool
is_ready_for_clean_up now o = o.will_clean_up && ltb (o.time_of_ref + time_to_clean_up) now

-- The state, the calls made so far in the order in which they were made, and whether reset() was
-- called for the object; `none` where the loop goes on to the next object.
abbrev pub Sweep : Type 0
Sweep = State × List Call × Option Bool

-- `functionExists`, and then the call or `disableReset`.
unfoldable pub run_reset : Vm → ℕ → Text → State → State × List Call
run_reset vm a name s =
    if vm.function_exists s a name
    then ((vm.run (function_call a name [] driver) s).0, function_call a name [] driver ∷ [])
    else (set_object a (λ o. record o { time_reset = none }) s, [])

-- What follows the call: the next object if this one is destructed, or `setResetState(true)`.
unfoldable pub mark_reset : ℕ → State × List Call → Sweep
mark_reset a (after, calls) =
    if is_gone after a
    then (after, calls, none)
    else (set_object a (λ o. record o { reset_state = true }) after, calls, some true)

-- The branch that calls reset().
unfoldable pub call_reset : Vm → ℕ → State → Sweep
call_reset vm a s =
    let armed = arm_reset vm a s in
    mark_reset a
      (run_reset vm a (hook_function_name (vm.driver_hook armed 7) (codes "reset")) armed)

unfoldable pub reset_object : Vm → ℕ → ℕ → LpcObject → State → Sweep
reset_object vm now a o s =
    if not (is_reset_due now o)
    then (s, [], some false)
    else if o.reset_state
    then (arm_reset vm a s, [], some false)
    else call_reset vm a s

abbrev pub truth_of : Result Value → Bool
truth_of (ok v) = is_truthy v
truth_of (err e) = is_truthy void

-- What follows clean_up(), with the reset state of before it.
unfoldable pub mark_clean_up : ℕ → Bool → State × Result Value → State
unfolding is_truthy
mark_clean_up a saved (after, result) =
    let kept =
      if truth_of result
      then after
      else set_object a (λ o. record o { will_clean_up = false }) after in
    if is_gone after a then after else set_object a (λ o. record o { reset_state = saved }) kept

-- The branch that calls clean_up().
unfoldable pub call_clean_up : Vm → ℕ → LpcObject → State → State × List Call
call_clean_up vm a o s =
    let name = hook_function_name (vm.driver_hook s 8) (codes "clean_up") in
    let call = function_call a name (int (if o.is_clone then pos 0 else pos 1) ∷ []) driver in
    (mark_clean_up a o.reset_state (vm.run call s), call ∷ [])

abbrev pub is_ld_mud : LpcDialect → Bool
is_ld_mud ld_mud = true
is_ld_mud fluff_os = false
is_ld_mud dgd = false

unfoldable pub clean_up_object : Vm → ℕ → Bool → Bool → State → State × List Call
clean_up_object vm a ready reset_called s =
    if ready && not (reset_called && is_ld_mud vm.dialect)
    then (elim (s.heap a) [ none ↦ (s, []) | some o ↦ call_clean_up vm a o s ])
    else (s, [])

-- The second half of a round.
unfoldable pub finish : Vm → ℕ → Bool → Sweep → State × List Call
finish vm a ready (s, calls, none) = (s, calls)
finish vm a ready (s, calls, some reset_called) =
    let (after, more) = clean_up_object vm a ready reset_called s in (after, calls ++ more)

-- One round of the loop, at the time `now` that was read before it.
unfoldable pub sweep_object : Vm → ℕ → ℕ → State → State × List Call
sweep_object vm now a s = elim (s.heap a) [
  | none ↦ (s, [])
  | some o ↦
      if o.destructed
      then (s, [])
      else finish vm a (is_ready_for_clean_up now o) (reset_object vm now a o s)
]

unfoldable pub sweep : Vm → ℕ → List ℕ → State → State × List Call
sweep vm now [] s = (s, [])
sweep vm now (a ∷ objects) s =
    let (after, calls) = sweep_object vm now a s in
    let (last, more) = sweep vm now objects after in (last, calls ++ more)

unfoldable pub tick_resets_and_cleanup : Vm → State → State × List Call
tick_resets_and_cleanup vm s = sweep vm s.clock (Live.all s.heap s.live) s
