-- ===== src/Compiler/Simulation/Jumps.antt =====
-- What the jumps and the instructions of catch frames bring about.
use kjdmud.Base.{ℕ, suc, ◌≡◌, ◌≤◌, refl, ◌∙◌, true, false, List, ◌∷◌, length, leb, pos, arith}
use kjdmud.Vm.Bytecode.{jump, jump_if_false, push_catch_frame, pop_catch_frame, CompiledProgram}
use kjdmud.Vm.Store.{Semantics, Store}
use kjdmud.Vm.Machine.{
  CatchFrame, execute_op, execute_jump_if_false, execute_push_catch, execute_pop_catch, proceed,
  jump_to,
}
use kjdmud.Compiler.Simulation.{At, machine, Reaches, Reaches-perform, perform-at}

le→leb : (a b : ℕ) → a ≤ b → leb a b ≡ true
le→leb a b h = ground arith

module _ {V W : Type 0} (sem : Semantics V W) (base : ℕ) (program : CompiledProgram) (ip : ℕ)
    (st : List V) (s : Store V W) (fs : List CatchFrame) where
  pub jump-Reaches :
      (target : ℕ)
      → At program ip jump (pos target) 0
      → target ≤ length program.code
      → Reaches sem base program (machine ip st s fs) (machine target st s fs)
  unfolding execute_op jump_to
  jump-Reaches target h l =
      Reaches-perform sem base program
        (perform-at sem base program _ _ h ∙ rw (le→leb target _ l, execute_op, jump_to) refl)

  pub jump_if_false-passes :
      (v : V) (target : ℕ)
      → At program ip jump_if_false (pos target) 0
      → sem.is_truthy v ≡ true
      → Reaches sem base program (machine ip (v ∷ st) s fs) (machine (suc ip) st s fs)
  unfolding execute_op execute_jump_if_false proceed
  jump_if_false-passes v target h e =
      Reaches-perform sem base program (
        perform-at sem base program _ _ h ∙ rw (e, execute_op, execute_jump_if_false, proceed) refl)

  pub jump_if_false-jumps :
      (v : V) (target : ℕ)
      → At program ip jump_if_false (pos target) 0
      → target ≤ length program.code
      → sem.is_truthy v ≡ false
      → Reaches sem base program (machine ip (v ∷ st) s fs) (machine target st s fs)
  unfolding execute_op execute_jump_if_false jump_to
  jump_if_false-jumps v target h l e = Reaches-perform sem base program (
      perform-at sem base program _ _ h
      ∙ rw (e, le→leb target _ l, execute_op, execute_jump_if_false, jump_to) refl)

  pub push_catch-Reaches :
      (target : ℕ)
      → At program ip push_catch_frame (pos target) 0
      → target ≤ length program.code
      → Reaches sem base program
          (machine ip st s fs)
          (machine (suc ip) st s (record { resume_ip = target; stack_depth = length st } ∷ fs))
  unfolding execute_op execute_push_catch
  push_catch-Reaches target h l = Reaches-perform sem base program (
      perform-at sem base program _ _ h
      ∙ rw (le→leb target _ l, execute_op, execute_push_catch) refl)

  pub pop_catch-Reaches :
      (f : CatchFrame)
      → At program ip pop_catch_frame (pos 0) 0
      → Reaches sem base program
          (machine ip st s (f ∷ fs))
          (machine (suc ip) (sem.number (pos 0) ∷ st) s fs)
  unfolding execute_op execute_pop_catch
  pop_catch-Reaches f h = Reaches-perform sem base program (perform-at sem base program _ _ h)
