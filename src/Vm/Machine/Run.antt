-- ===== src/Vm/Machine/Run.antt =====
-- src/vm/VM.cpp, the loop of `VM::run`, with `evalCost_` and `maxEvalCost_`. The loop is recursion on
-- fuel. Both counters are members of the VM, so they are part of the world, and what an instruction
-- calls may change them.
use kjdmud.Base.{ℕ, zero, suc, Bool, ◌++◌, Option, none, some, ℤ, pos, ltb_ℤ, if◌then◌else◌}
use kjdmud.Core.Text.{Text, codes}
use kjdmud.Vm.Bytecode.{CompiledProgram, get_elem?}
use kjdmud.Vm.Store.{Thrown, lpc_error, lpc_value, uncatchable, Semantics, Store}
use kjdmud.Vm.Machine.{Machine, goes, returns, raises, advance}

-- How a function ends.
pub data Finished (V W : Type 0) : Type 0 where
  returned : V → Store V W → Finished V W
  failed : Thrown V → Store V W → Finished V W

-- `evalCost_`, which no code makes negative, and `maxEvalCost_`, which `set_eval_limit` sets to any
-- integer.
pub record Meter (W : Type 0) : Type 0 where
  pub eval_cost : W → ℕ
  pub max_eval_cost : W → ℤ
  pub set_eval_cost : ℕ → W → W

-- `++evalCost_`, and `evalCost_ > maxEvalCost_`.
unfoldable pub count : {W : Type 0} → Meter W → W → W
count meter w = meter.set_eval_cost (suc (meter.eval_cost w)) w

unfoldable pub is_exceeded : {W : Type 0} → Meter W → W → Bool
is_exceeded meter w = ltb_ℤ (meter.max_eval_cost w) (pos (meter.eval_cost w))

abbrev pub counted : {V W : Type 0} → Meter W → Machine V W → Machine V W
counted meter m = record m { store = record m.store { world = count meter m.store.world } }

-- `place` is the file and the function, which a runtime error is marked with when it leaves.
unfoldable pub tag : {V : Type 0} → Text → Thrown V → Thrown V
tag place (lpc_error message) = lpc_error (place ++ message)
tag place (lpc_value v) = lpc_value v
tag place (uncatchable what) = uncatchable what

abbrev pub cost_exceeded : {V : Type 0} → Thrown V
cost_exceeded = uncatchable (codes "eval cost exceeded")

module _ {V W : Type 0} (sem : Semantics V W) (meter : Meter W) (base : ℕ)
    (program : CompiledProgram) (place : Text) where
  unfoldable pub run : ℕ → Machine V W → Option (Finished V W)
  unfolding advance tag count is_exceeded
  run zero m = none
  run (suc fuel) m = elim (get_elem? m.ip program.code) [
    | none ↦ some (returned sem.void m.store)
    | some i ↦
        let now = counted meter m in
        let result : Option (Finished V W) = elim (advance sem base program now) [
          | goes m' ↦ run fuel m'
          | returns v s ↦ some (returned v s)
          | raises t m' ↦ some (failed (tag place t) m'.store)
        ] in
        if is_exceeded meter now.store.world then some (failed cost_exceeded now.store) else result
  ]
