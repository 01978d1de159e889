-- ===== src/Vm/Machine/Cost.antt =====
-- The limit of the eval cost ends the loop of `VM::run`, when nothing that is called takes the count
-- back or raises the limit.
use kjdmud.Base.{
  ℕ, zero, suc, ◌+◌, ◌≤◌, ◌≡◌, refl, ap, subst, true, false, some, pos_part, arith, Option-cases,
  Bool-cases, inl, inr,
}
use kjdmud.Core.Text.{Text}
use kjdmud.Vm.Bytecode.{CompiledProgram, Instruction, get_elem?}
use kjdmud.Vm.Store.{Semantics}
use kjdmud.Vm.Machine.{Machine, Effect, goes, returns, raises, advance}
use kjdmud.Vm.Machine.Run.{
  Finished, returned, failed, Meter, count, counted, is_exceeded, tag, cost_exceeded, run,
}
use kjdmud.Vm.Machine.Steady.{Spends, IsMetered, Steady, advance-Steady}

module _ {V W : Type 0} (sem : Semantics V W) (meter : Meter W) (laws : IsMetered sem meter)
    (base : ℕ) (program : CompiledProgram) where
  -- A pass that is not stopped leaves one less below the limit.
  pass_spends :
      (m m' : Machine V W) (fuel : ℕ)
      → pos_part (meter.max_eval_cost m.store.world) ≤ meter.eval_cost m.store.world + suc fuel
      → advance sem base program (counted meter m) ≡ goes m'
      → pos_part (meter.max_eval_cost m'.store.world) ≤ meter.eval_cost m'.store.world + fuel
  unfolding count
  pass_spends m m' fuel h e =
      let w = m.store.world in
      let steady : Spends meter (count meter w) m'.store.world =
        subst (Steady sem meter laws base program (count meter w)) e
          (advance-Steady sem meter laws base program (counted meter m)) in
      let cost = laws.cost-set (suc (meter.eval_cost w)) w in
      let limit = ap pos_part (laws.limit-set (suc (meter.eval_cost w)) w) in
      omega (arith, steady, cost, limit)

  -- The last pass below the limit.
  no_pass :
      (m : Machine V W)
      → pos_part (meter.max_eval_cost m.store.world) ≤ meter.eval_cost m.store.world
      → is_exceeded meter (count meter m.store.world) ≡ true
  unfolding is_exceeded count
  no_pass m h =
      let w = m.store.world in
      let cost = laws.cost-set (suc (meter.eval_cost w)) w in
      let limit = laws.limit-set (suc (meter.eval_cost w)) w in
      rw (cost, limit, is_exceeded, count) (ground arith)

  -- The limit ends the loop, when nothing that is called takes the count back or raises the limit: with
  -- fuel for one pass more than the instructions that are left below the limit, the loop ends.
  pub run-Returns :
      (place : Text) (fuel : ℕ) (m : Machine V W)
      → pos_part (meter.max_eval_cost m.store.world) ≤ meter.eval_cost m.store.world + fuel
      → (r : Finished V W) × (run sem meter base program place (suc fuel) m ≡ some r)
  unfolding run
  run-Returns place zero m h = elim (Option-cases (get_elem? m.ip program.code)) [
    | inl past ↦ (returned sem.void m.store, rw (past, run) refl)
    | inr (i, here) ↦
        (failed cost_exceeded (counted meter m).store, rw (here, no_pass m (omega arith), run) refl)
  ]
  run-Returns place (suc fuel) m h = elim (Option-cases (get_elem? m.ip program.code)) [
    | inl past ↦ (returned sem.void m.store, rw (past, run) refl)
    | inr (i, here) ↦ elim (Bool-cases (is_exceeded meter (counted meter m).store.world)) [
      | inl over ↦ (failed cost_exceeded (counted meter m).store, rw (here, over, run) refl)
      | inr below ↦
          effect_case i here below (advance sem base program (counted meter m)) refl
            (λ m' e. run-Returns place fuel m' (pass_spends m m' fuel h e))
    ]
  ]
    where
      effect_case :
          (i : Instruction)
          → get_elem? m.ip program.code ≡ some i
          → is_exceeded meter (counted meter m).store.world ≡ false
          → (e : Effect V W) → advance sem base program (counted meter m) ≡ e
          → ((m' : Machine V W)
              → advance sem base program (counted meter m) ≡ goes m'
              → (r : Finished V W) × (run sem meter base program place (suc fuel) m' ≡ some r))
          → (r : Finished V W) × (run sem meter base program place (suc (suc fuel)) m ≡ some r)
      effect_case i here below (goes m') e next =
          let (r, q) = next m' e in (r, rw (here, below, e, run) q)
      effect_case i here below (returns v s) e next = (returned v s, rw (here, below, e, run) refl)
      effect_case i here below (raises t m') e next =
          (failed (tag place t) m'.store, rw (here, below, e, run) refl)
