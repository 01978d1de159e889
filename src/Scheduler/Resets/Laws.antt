-- ===== src/Scheduler/Resets/Laws.antt =====
-- How often a sweep calls into an object, in each dialect.
use kjdmud.Base.{
  ℕ, ◌*◌, ◌≤◌, ◌≡◌, refl, Bool, true, false, not, ◌&&◌, List, [], ◌∷◌, Option, none, some, arith,
  if◌then◌else◌, Option-cases, if_both, inl, inr, length, length-append,
}
use kjdmud.Core.Text.{Text}
use kjdmud.Object.Heap.{LpcObject}
use kjdmud.Object.Live
use kjdmud.Scheduler.State.{State, Vm, Call}
use kjdmud.Scheduler.Resets.{
  Sweep, is_gone, is_ld_mud, is_reset_due, is_ready_for_clean_up, arm_reset, run_reset, mark_reset,
  call_reset, reset_object, finish, call_clean_up, clean_up_object, sweep_object, sweep,
  tick_resets_and_cleanup,
}

-- At most one call so far, and none if reset() does not count as called.
abbrev Once : Sweep → Type 0
Once r = (length r.1 ≤ 1) × (r.2 ≡ some false → r.1 ≡ [])

run_reset-calls : (vm : Vm) (a : ℕ) (name : Text) (s : State) → length (run_reset vm a name s).1 ≤ 1
unfolding run_reset
run_reset-calls vm a name s = ground arith

mark_reset-Once : (a : ℕ) (r : State × List Call) → length r.1 ≤ 1 → Once (mark_reset a r)
unfolding mark_reset
mark_reset-Once a r h = if_both Once (is_gone r.0 a) (λ _. (h, λ e. cc)) (λ _. (h, λ e. cc))

reset_object-Once :
    (vm : Vm) (now a : ℕ) (o : LpcObject) (s : State) → Once (reset_object vm now a o s)
unfolding reset_object call_reset
reset_object-Once vm now a o s =
    if_both Once (not (is_reset_due now o)) (λ _. (omega arith, λ _. refl))
      λ _.
        if_both Once o.reset_state (λ _. (omega arith, λ _. refl))
          λ _. mark_reset-Once a _ (run_reset-calls vm a _ (arm_reset vm a s))

clean_up_object-calls :
    (vm : Vm) (a : ℕ) (ready called : Bool) (s : State)
    → length (clean_up_object vm a ready called s).1
      ≤ (if called && is_ld_mud vm.dialect then 0 else 1)
unfolding clean_up_object call_clean_up
clean_up_object-calls vm a ready called s = ground arith

-- LDMud calls an object once in a sweep at most, the other dialects twice at most.
abbrev pub limit : Vm → ℕ
limit vm = if is_ld_mud vm.dialect then 1 else 2

finish-calls :
    (vm : Vm) (a : ℕ) (ready : Bool) (s : State) (calls : List Call) (called : Option Bool)
    → Once (s, calls, called)
    → length (finish vm a ready (s, calls, called)).1 ≤ limit vm
unfolding finish
finish-calls vm a ready s calls none h = ground arith
finish-calls vm a ready s calls (some false) h =
    rw (h.1 refl) (ground (arith, clean_up_object-calls vm a ready false s))
finish-calls vm a ready s calls (some true) h = ground (
  arith,
  clean_up_object-calls vm a ready true s,
  length-append calls (clean_up_object vm a ready true s).1,
)

sweep_object-calls :
    (vm : Vm) (now a : ℕ) (s : State) → length (sweep_object vm now a s).1 ≤ limit vm
unfolding sweep_object
sweep_object-calls vm now a s = elim (Option-cases (s.heap a)) [
  | inl gone ↦ rw (gone, sweep_object) (omega arith)
  | inr (o, here) ↦
      let r = reset_object vm now a o s in
      rw (here, sweep_object)
        (if_both {A = State × List Call} (λ q. length q.1 ≤ limit vm) o.destructed
          (λ _. omega arith)
          (λ _. finish-calls vm a _ r.0 r.1 r.2 (reset_object-Once vm now a o s)))
]

sweep-calls :
    (vm : Vm) (now : ℕ) (objects : List ℕ) (s : State)
    → length (sweep vm now objects s).1 ≤ length objects * limit vm
unfolding sweep
sweep-calls vm now [] s = omega arith
sweep-calls vm now (a ∷ objects) s =
    let first = sweep_object vm now a s in
    omega (
      arith,
      length-append {0} first.1 (sweep vm now objects first.0).1,
      sweep_object-calls vm now a s,
      sweep-calls vm now objects first.0,
    )

-- A sweep makes at most two calls into LPC code for each object that was live at its start, and under
-- LDMud at most one for each.
pub tick_resets-calls :
    (vm : Vm) (s : State)
    → length (tick_resets_and_cleanup vm s).1 ≤ length (Live.all s.heap s.live) * limit vm
unfolding tick_resets_and_cleanup
tick_resets-calls vm s = sweep-calls vm s.clock (Live.all s.heap s.live) s

-- An object on the heap whose reset is not due and that is not ready for clean_up() is left alone.
pub sweep_object_idle :
    (vm : Vm) (now a : ℕ) (s : State) (o : LpcObject)
    → s.heap a ≡ some o
    → is_reset_due now o ≡ false
    → is_ready_for_clean_up now o ≡ false
    → sweep_object vm now a s ≡ (s, [])
unfolding sweep_object finish reset_object clean_up_object
sweep_object_idle vm now a s o here reset clean =
    rw (here, sweep_object) (ground (arith, reset, clean))
