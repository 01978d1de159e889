-- ===== src/Compiler/Segments/Variables.antt =====
-- The code of assignments and of `++` and `--`.
use kjdmud.Base.{ℕ, ◌≡◌, refl, sym, subst, Bool, true, false, List, ◌∷◌, pos}
use kjdmud.Vm.Bytecode.{CompiledProgram, dup, push_int}
use kjdmud.Vm.Store.{Semantics}
use kjdmud.Compiler.Ast.{IncDecOp, inc, dec}
use kjdmud.Compiler.CodeGen.{
  emit, emit_push_var, emit_store_var, emit_inc_dec, ResolvedVar, delta_op,
}
use kjdmud.Compiler.CodeGen.Growth.{Keeps, Keeps-trans, emit-Keeps}
use kjdmud.Compiler.Eval.{write_var, apply, apply_binary, one_step, step_var}
use kjdmud.Compiler.Simulation.Instructions.{is_operator}
use kjdmud.Compiler.Segments.{Segment, Segment-bind, Segment-step, Segment-map, Segment-under}
use kjdmud.Compiler.Segments.Straight.{
  push_int-Segment, dup-Segment, operator-Segment, read-Segment, write-Segment,
}

pub emit_store_var-Keeps :
    (var : ResolvedVar) (o : CompiledProgram) → Keeps o (emit_store_var var o)
unfolding emit_store_var
emit_store_var-Keeps var o = emit-Keeps _ _ _ o

pub emit_push_var-Keeps : (var : ResolvedVar) (o : CompiledProgram) → Keeps o (emit_push_var var o)
unfolding emit_push_var
emit_push_var-Keeps var o = emit-Keeps _ _ _ o

delta_op-is_operator : (op : IncDecOp) → is_operator (delta_op op) ≡ true
unfolding delta_op
delta_op-is_operator inc = refl
delta_op-is_operator dec = refl

module _ {V W : Type 0} (sem : Semantics V W) (base : ℕ) where
  -- A copy of the value at the top is stored.
  pub keep-Segment :
      (o : CompiledProgram) (st : List V) (var : ResolvedVar) (v : V) (land : V → List V)
      → land v ≡ v ∷ st
      → Segment sem base o
          (emit_store_var var (emit dup (pos 0) 0 o))
          (v ∷ st)
          land
          st
          (write_var sem base var v)
  keep-Segment o st var v land q =
      Segment-step sem base (emit_store_var-Keeps var (emit dup (pos 0) 0 o))
        (dup-Segment sem base o st v)
        (write-Segment sem base (emit dup (pos 0) 0 o) st var v v land q)

  one_step-apply :
      (op : IncDecOp) → apply_binary sem base (one_step op) ≡ apply sem base (delta_op op)
  unfolding apply_binary delta_op
  one_step-apply inc = refl
  one_step-apply dec = refl

  -- One more or one less, below values that are kept.
  delta-Segment :
      (o : CompiledProgram) (st : List V) (op : IncDecOp) (old : V)
      → Segment sem base o
          (emit (delta_op op) (pos 0) 0 (emit push_int (pos 1) 0 o))
          (old ∷ st)
          (λ v. v ∷ st)
          st
          (apply_binary sem base (one_step op) old (sem.number (pos 1)))
  delta-Segment o st op old =
      subst
        (λ f.
          Segment sem base o (emit (delta_op op) (pos 0) 0 (emit push_int (pos 1) 0 o)) (old ∷ st)
            (λ v. v ∷ st) st (f old (sem.number (pos 1))))
        (sym (one_step-apply op))
        (Segment-step sem base (emit-Keeps (delta_op op) (pos 0) 0 (emit push_int (pos 1) 0 o))
          (Segment-under sem base (push_int-Segment sem base o (old ∷ st) (pos 1)))
          (operator-Segment sem base (emit push_int (pos 1) 0 o) st (delta_op op) old
            (sem.number (pos 1)) (delta_op-is_operator op)))

  pub inc_dec-Segment :
      (o : CompiledProgram) (st : List V) (op : IncDecOp) (prefix : Bool) (var : ResolvedVar)
      → Segment sem base o
          (emit_inc_dec op prefix var o)
          st
          (λ v. v ∷ st)
          st
          (step_var sem base op prefix var)
  unfolding step_var emit_inc_dec
  inc_dec-Segment o st op true var =
      let o1 = emit_push_var var o in
      let o2 = emit (delta_op op) (pos 0) 0 (emit push_int (pos 1) 0 o1) in
      let last =
        Keeps-trans (emit-Keeps dup (pos 0) 0 o2)
          (emit_store_var-Keeps var (emit dup (pos 0) 0 o2)) in
      let first =
        Keeps-trans (emit-Keeps push_int (pos 1) 0 o1)
          (emit-Keeps (delta_op op) (pos 0) 0 (emit push_int (pos 1) 0 o1)) in
      Segment-bind sem base (Keeps-trans first last) (read-Segment sem base o st var) λ old _.
        Segment-bind sem base last (delta-Segment o1 st op old)
          λ new _. Segment-map sem base (λ v. new) (keep-Segment o2 st var new (λ v. new ∷ st) refl)
  inc_dec-Segment o st op false var =
      let o1 = emit_push_var var o in
      let o2 = emit dup (pos 0) 0 o1 in
      let o3 = emit (delta_op op) (pos 0) 0 (emit push_int (pos 1) 0 o2) in
      let last = emit_store_var-Keeps var o3 in
      let middle =
        Keeps-trans (emit-Keeps push_int (pos 1) 0 o2)
          (emit-Keeps (delta_op op) (pos 0) 0 (emit push_int (pos 1) 0 o2)) in
      Segment-bind sem base (Keeps-trans (emit-Keeps dup (pos 0) 0 o1) (Keeps-trans middle last))
        (read-Segment sem base o st var)
        λ old _. Segment-step sem base (Keeps-trans middle last) (dup-Segment sem base o1 st old) (
          Segment-bind sem base last (Segment-under sem base (delta-Segment o2 (old ∷ st) op old))
            λ new _.
              Segment-map sem base (λ v. old)
                (write-Segment sem base o3 st var new old (λ v. old ∷ st) refl))
