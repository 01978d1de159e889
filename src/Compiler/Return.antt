-- ===== src/Compiler/Return.antt =====
-- `return e;` as the body of a function: the loop of the machine on the emitted code ends with what the
-- evaluator gives.
use kjdmud.Base.{
  ℕ, zero, suc, true, Option, ltb_ℤ, Bool-cases, subst, ◌≤◌, ◌≡◌, refl, sym, ap, ◌∙◌, false, List,
  [], ◌∷◌, ◌++◌, ◌⊎◌, none, some, arith, Option-cases, inl, inr, pos,
}
use kjdmud.Core.Text.{Text}
use kjdmud.Core.Errors.{Ensures, holds, Ensures-bind}
use kjdmud.Vm.Bytecode.{OpCode, CompiledProgram, Instruction, get_elem?}
use kjdmud.Vm.Store.{Thrown, value, thrown, Semantics, Store}
use kjdmud.Vm.Machine.{
  Machine, CatchFrame, Effect, goes, returns, raises, advance, perform, settle, handle, caught,
  execute_op, execute_return,
}
use kjdmud.Vm.Machine.Run.{
  Finished, returned, failed, count, counted, is_exceeded, cost_exceeded, tag, run,
}
use kjdmud.Vm.Machine.Metered.{
  Counts, counters, Spending, metered, plain_store, plain, plain_effect,
}
use kjdmud.Vm.Machine.Plain.{advance-plain}
use kjdmud.Compiler.Ast.{Expr}
use kjdmud.Compiler.CodeGen.{Tables, emit, emit_return}
use kjdmud.Compiler.CodeGen.Growth.{emit-Keeps, get_elem?-emit}
use kjdmud.Compiler.Eval.{Answer, eval}
use kjdmud.Compiler.Simulation.{At, machine, Reaches, Raises, Arrives, lands, breaks, perform-at}
use kjdmud.Compiler.Correct.{emit_expr-Computes}

-- How a function ends, without the counters.
abbrev plain_finished : {V W : Type 0} → Finished V (W × Counts) → Finished V W
plain_finished (returned v s) = returned v (plain_store s)
plain_finished (failed t s) = failed t (plain_store s)

-- The loop ended with `r`, or it was stopped, with a count above the limit.
pub data Ended {V W : Type 0} (r : Finished V W) : Option (Finished V (W × Counts)) → Type 0 where
  as_given : {e : Finished V (W × Counts)} → plain_finished e ≡ r → Ended r (some e)
  stopped :
      {s : Store V (W × Counts)}
      → ltb_ℤ s.world.1.limit (pos s.world.1.cost) ≡ true
      → Ended r (some (failed cost_exceeded s))

module _ {V W : Type 0} (sem : Semantics V W) (spent : Spending V W) (base : ℕ)
    (program : CompiledProgram) (place : Text) where
  -- With fuel for more than `n` passes the loop ends, whatever the counters are.
  abbrev pub Ends : Finished V W → Machine V W → ℕ → Type 0
  Ends r m n =
      (full : Machine V (W × Counts))
      → plain full ≡ m
      → (fuel : ℕ) → n ≤ fuel
      → Ended r (run (metered sem spent) counters base program place (suc fuel) full)

  instruction-at :
      (m : Machine V W) (e : Effect V W)
      → advance sem base program m ≡ e
      → (e ≡ returns sem.void m.store)
        ⊎ ((i : Instruction) × (get_elem? m.ip program.code ≡ some i))
  unfolding advance perform settle
  instruction-at m e h = elim (Option-cases (get_elem? m.ip program.code)) [
    | inl q ↦ inl (sym h ∙ rw (q, advance, perform, settle) refl)
    | inr p ↦ inr p
  ]

  -- What is left of the loop behind a pass.
  abbrev Continues : Finished V W → Effect V W → ℕ → Type 0
  Continues r (goes m) n = Ends r m n
  Continues r (returns v s) n = returned v s ≡ r
  Continues r (raises t m) n = failed (tag place t) m.store ≡ r

  Ends-pass :
      (r : Finished V W) (m : Machine V W) (n : ℕ) (e : Effect V W) (i : Instruction)
      → advance sem base program m ≡ e
      → get_elem? m.ip program.code ≡ some i
      → Continues r e n
      → Ends r m (suc n)
  unfolding run count is_exceeded tag
  Ends-pass r m n e i does here h full q zero enough = absurd (omega arith)
  Ends-pass r m n e i does here h full q (suc fuel) enough =
      let now = counted counters full in
      let next = ap (λ x. get_elem? x.ip program.code) q ∙ here in
      let same =
        advance-plain sem spent base program now ∙ ap (advance sem base program) q ∙ does in
      elim (Bool-cases (ltb_ℤ now.store.world.1.limit (pos now.store.world.1.cost))) [
        | inl over ↦ rw (next, over, run) (stopped over)
        | inr under ↦
            effect_case next under (advance (metered sem spent) base program now) refl
              (subst (λ x. Continues r x n) (sym same) h)
      ]
    where
      effect_case :
          get_elem? full.ip program.code ≡ some i
          → ltb_ℤ full.store.world.1.limit (pos (suc full.store.world.1.cost)) ≡ false
          → (x : Effect V (W × Counts))
          → advance (metered sem spent) base program (counted counters full) ≡ x
          → Continues r (plain_effect x) n
          → Ended r (run (metered sem spent) counters base program place (suc (suc fuel)) full)
      effect_case next under (goes m') k rest =
          rw (next, under, k, run) (rest m' refl fuel (omega arith))
      effect_case next under (returns v s) k rest = rw (next, under, k, run) (as_given rest)
      effect_case next under (raises t m') k rest = rw (next, under, k, run) (as_given rest)

  Ends-goes :
      (r : Finished V W) (m m' : Machine V W) (n : ℕ)
      → advance sem base program m ≡ goes m'
      → Ends r m' n
      → Ends r m (suc n)
  Ends-goes r m m' n e h = elim (instruction-at m (goes m') e) [
    | inl q ↦ absurd (cc)
    | inr (i, here) ↦ Ends-pass r m n (goes m') i e here h
  ]

  Ends-Reaches :
      (r : Finished V W) (m m' : Machine V W) (n : ℕ)
      → Reaches sem base program m m'
      → Ends r m' n
      → (k : ℕ) × Ends r m k
  Ends-Reaches r m m' n Reaches.here h = (n, h)
  Ends-Reaches r m m' n (Reaches.further {m1} k e) h =
      Ends-Reaches r m m1 (suc n) k (Ends-goes r m1 m' n e h)

  Ends-raises :
      (m m' : Machine V W) (t : Thrown V)
      → advance sem base program m ≡ raises t m'
      → Ends (failed (tag place t) m'.store) m 1
  Ends-raises m m' t e = elim (instruction-at m (raises t m') e) [
    | inl q ↦ absurd (cc)
    | inr (i, here) ↦ Ends-pass _ m 0 (raises t m') i e here refl
  ]

  handle-uncaught :
      (t : Thrown V) (m : Machine V W) (fs : List CatchFrame)
      → (fs ≡ []) ⊎ (caught sem base t ≡ none)
      → handle sem base t m fs ≡ raises t m
  unfolding handle
  handle-uncaught t m [] p = refl
  handle-uncaught t m (f ∷ fs) (inl e) = cc
  handle-uncaught t m (f ∷ fs) (inr n) = rw (n, handle) refl

  -- An exception that no frame of the function holds up.
  uncaught :
      {m : Machine V W} {t : Thrown V} {s : Store V W} (h : Raises sem base program m t s [] [])
      → advance sem base program h.before ≡ raises t (machine h.ip (h.junk ++ []) s (h.extra ++ []))
  unfolding advance settle
  uncaught {t = t} h =
      ap (settle sem base) h.throws
      ∙ handle-uncaught t _ (h.extra ++ [])
          (elim h.passes [ inl e ↦ inl (ap (λ fs. fs ++ []) e) | inr n ↦ inr n ])

-- How a function ends whose body returns an expression with that answer.
unfoldable pub finish : {V W : Type 0} → Semantics V W → ℕ → Text → Answer V W V → Finished V W
unfolding tag
finish sem base place (s, value v) = returned v s
finish sem base place (s, thrown t) = failed (tag place t) s

abbrev pub no_code : CompiledProgram
no_code = record { code = []; string_pool = [] }

module _ {V W : Type 0} (sem : Semantics V W) (base : ℕ) (program : CompiledProgram) (place : Text)
    (spent : Spending V W) where
  return-advance :
      (j : ℕ) (v : V) (s : Store V W)
      → At program j OpCode.return (pos 0) 0
      → advance sem base program (machine j (v ∷ []) s []) ≡ returns v s
  unfolding advance settle execute_op execute_return
  return-advance j v s at = ap (settle sem base) (perform-at sem base program _ _ at)

  Arrives-Ends :
      {m : Machine V W} {j : ℕ} {r : Answer V W V}
      → At program j OpCode.return (pos 0) 0
      → Arrives sem base program m j (λ v. v ∷ []) [] [] r
      → (n : ℕ) × Ends sem spent base program place (finish sem base place r) m n
  unfolding finish
  Arrives-Ends {m} {j} at (lands {s} {a} h) =
      Ends-Reaches sem spent base program place _ m _ _ h
        (Ends-pass sem spent base program place _ _ 0 _ _ (return-advance j a s at) at refl)
  Arrives-Ends {m} at (breaks {t = t} h) =
      Ends-Reaches sem spent base program place _ m _ _ h.comes
        (Ends-raises sem spent base program place _ _ t (uncaught sem spent base program place h))

-- If the expression is compiled, then the loop of the machine ends on the function `return e;`, with
-- what the evaluator gives: its value, or its exception, marked with the place; or the loop is stopped by
-- `EvalCostError`, and then the count is above the limit. The counters are any to begin with, and each
-- call changes them in any way; what a call answers does not depend on them.
pub emit_return-Ends :
    {V W : Type 0} (sem : Semantics V W) (base : ℕ) (tables : Tables) (e : Expr)
    → Ensures
        (λ program.
          (place : Text) (spent : Spending V W) (s : Store V W)
          → (n : ℕ) × Ends sem spent base program place
              (finish sem base place (eval sem base tables e s))
              (machine 0 [] s [])
              n)
        (emit_return tables e no_code)
unfolding emit_return
emit_return-Ends sem base tables e =
    Ensures-bind (emit_expr-Computes sem base tables e no_code) λ o1 _ h. holds λ place spent s.
      let k = emit-Keeps OpCode.return (pos 0) 0 o1 in
      Arrives-Ends sem base _ place spent (get_elem?-emit OpCode.return (pos 0) 0 o1) (
        (h []).runs (emit OpCode.return (pos 0) 0 o1)
          (record {
            long = k.longer;
            has_code = λ i x _ q. k.same_code i x q;
            has_pool = k.same_pool;
          })
          s [])
