-- ===== src/Compiler/Correct.antt =====
-- The code that `emitExpr` emits does what the evaluator does.
mod Cases
use kjdmud.Base.{
  ℕ, suc, ◌≡◌, ◌≢◌, refl, ap, subst, true, List, [], ◌∷◌, length, Option, none, some, pos, arith,
  Option-cases, inl, inr,
}
use kjdmud.Core.Text.{Text}
use kjdmud.Core.Errors.{
  Result, ok, err, out_of_fuel, ◌>>=◌, Ensures, holds, Ensures.thrown, Ensures-bind,
  Ensures-out_of_fuel,
}
use kjdmud.Vm.Bytecode.{
  OpCode, CompiledProgram, dup, pop, push_int, sub, logical_not, bit_not, make_array,
}
use kjdmud.Vm.Store.{value, thrown, Semantics, Store}
use kjdmud.Compiler.Ast.{
  BinOp, or_else, and_then, not_op, neg_op, bit_not_op, Expr, string_literal, int_literal,
  nil_literal, symbol_literal, var_ref, binary, comma, unary, ternary, call, catch, assign, inc_dec,
  array_literal, type_cast, Exprs, no_exprs, expr, size,
}
use kjdmud.Compiler.CodeGen.{
  Tables, ResolvedVar, resolve_variable, find, binary_op, compound_op, opcode_or, emit,
  emit_store_var, emit_push_var, call_op, emit_expr, emit_exprs, int32, or_test, or_start,
}
use kjdmud.Compiler.CodeGen.Growth.{Keeps, Keeps-trans, emit-Keeps, emit_pooled-Keeps}
use kjdmud.Compiler.Eval.{
  Answer, bind, eval, eval_all, with_var, apply_binary, apply, read_var, write_var,
}
use kjdmud.Compiler.Simulation.Instructions.{is_operator, push_all}
use kjdmud.Compiler.Segments.{
  Segment, Segment-none, Segment-bind, Segment-step, Segment-map, Segment-under,
}
use kjdmud.Compiler.Segments.Straight.{
  push_int-Segment, push_nil-Segment, pop-Segment, not-Segment, bit_not-Segment, operator-Segment,
  array-Segment, read-Segment, push_const-Segment, push_symbol-Segment, call-Segment,
}
use kjdmud.Compiler.Segments.Jumps.{and-Segment}
use kjdmud.Compiler.Segments.Or.{or-Segment}
use kjdmud.Compiler.Segments.Ternary.{ternary-Segment}
use kjdmud.Compiler.Segments.Catch.{catch-Segment}
use kjdmud.Compiler.Segments.Variables.{emit_store_var-Keeps, keep-Segment, inc_dec-Segment}
use kjdmud.Compiler.Correct.Cases.{
  Ensures-map, int32-wrapped, with_var-Ensures, binary-Ensures, compound-Ensures, eval_all-size,
  binary-Segment, keep-Keeps, compound-Segment, Gives,
}

module _ {V W : Type 0} (sem : Semantics V W) (base : ℕ) (tables : Tables) where
  -- The code leaves the value on the stack; the code for several, all of them in their order.
  abbrev pub Computes : Expr → CompiledProgram → CompiledProgram → Type 0
  Computes e out out' =
      (st : List V) → Segment sem base out out' st (λ v. v ∷ st) st (eval sem base tables e)

  abbrev pub ComputesAll : Exprs → CompiledProgram → CompiledProgram → Type 0
  ComputesAll es out out' =
      (st : List V)
      → Segment sem base out out' st (λ vs. push_all vs st) st (eval_all sem base tables es)

  mutual
    unfolding emit_expr eval push_all apply_binary

    pub emit_expr-Computes :
        (e : Expr) (out : CompiledProgram) → Ensures (Computes e out) (emit_expr tables e out)
    emit_expr-Computes (string_literal t) out = holds λ st. push_const-Segment sem base out st t
    emit_expr-Computes (int_literal n) out = holds λ st.
        subst
          (λ i.
            Segment sem base out (emit push_int (int32 n) 0 out) st (λ v. v ∷ st) st
              (λ s. (s, value (sem.number i))))
          (int32-wrapped n) (push_int-Segment sem base out st (int32 n))
    emit_expr-Computes nil_literal out = holds λ st. push_nil-Segment sem base out st
    emit_expr-Computes (symbol_literal t) out = holds λ st. push_symbol-Segment sem base out st t
    emit_expr-Computes (var_ref name) out =
        with_var-Ensures sem base tables (λ f out'. Gives sem base tables f out out') name _ _
          (λ var. holds λ st. read-Segment sem base out st var)
    emit_expr-Computes (binary or_else l r) out = Ensures-bind (emit_expr-Computes l out) λ o1 _ hl.
        Ensures-bind (emit_expr-Computes r (or_start o1))
          λ o2 _ hr. holds λ st. or-Segment sem base out o1 o2 st _ _ (hl st) (hr st)
    emit_expr-Computes (binary and_then l r) out =
        Ensures-bind (emit_expr-Computes l out) λ o1 _ hl.
          Ensures-bind (emit_expr-Computes r (emit pop (pos 0) 0 (or_test o1)))
            λ o2 _ hr. holds λ st. and-Segment sem base out o1 o2 st _ _ (hl st) (hr st)
    emit_expr-Computes (binary op l r) out = Ensures-bind (emit_expr-Computes l out) λ o1 _ hl.
        Ensures-bind (emit_expr-Computes r o1) λ o2 _ hr.
          binary-Ensures sem base tables
            (λ f out'.
              Gives sem base tables
                (λ s.
                  bind (eval sem base tables l s) λ v s1. bind (eval sem base tables r s1) (f v))
                out out')
            _ op _
            λ code i. holds λ st.
              binary-Segment sem base tables out o1 o2 st code i (hl st) (λ v. hr (v ∷ st))
                (hr st).grows
    emit_expr-Computes (comma l r) out = Ensures-bind (emit_expr-Computes l out) λ o1 _ hl.
        Ensures-map (emit_expr-Computes r (emit pop (pos 0) 0 o1)) λ o2 hr. holds λ st.
          Segment-bind sem base (Keeps-trans (emit-Keeps pop (pos 0) 0 o1) (hr st).grows) (hl st)
            λ v _. Segment-step sem base (hr st).grows (pop-Segment sem base o1 st v) (hr st)
    emit_expr-Computes (unary not_op e) out = Ensures-bind (emit_expr-Computes e out) λ o1 _ h.
        holds λ st.
          Segment-bind sem base (emit-Keeps logical_not (pos 0) 0 o1) (h st)
            λ v _. not-Segment sem base o1 st v
    emit_expr-Computes (unary bit_not_op e) out = Ensures-bind (emit_expr-Computes e out) λ o1 _ h.
        holds λ st.
          Segment-bind sem base (emit-Keeps bit_not (pos 0) 0 o1) (h st)
            λ v _. bit_not-Segment sem base o1 st v
    emit_expr-Computes (unary neg_op e) out =
        Ensures-bind (emit_expr-Computes e (emit push_int (pos 0) 0 out)) λ o1 _ h. holds λ st.
          Segment-step sem base (Keeps-trans (h st).grows (emit-Keeps sub (pos 0) 0 o1))
            (push_int-Segment sem base out st (pos 0))
            (Segment-bind sem base (emit-Keeps sub (pos 0) 0 o1) (Segment-under sem base (h _))
              λ v _. operator-Segment sem base o1 st sub _ v refl)
    emit_expr-Computes (ternary c t e) out = Ensures-bind (emit_expr-Computes c out) λ o1 _ hc.
        Ensures-bind (emit_expr-Computes t _) λ o2 _ ht.
          Ensures-bind (emit_expr-Computes e _) λ o3 _ he.
            holds λ st. ternary-Segment sem base out o1 o2 o3 st _ _ _ (hc st) (ht st) (he st)
    emit_expr-Computes (call force_efun callee args) out =
        Ensures-bind (emit_exprs-ComputesAll args out) λ o1 _ h. holds λ st.
          Segment-bind sem base (emit_pooled-Keeps (call_op force_efun) callee (size args) o1)
            (h st)
            λ vs k.
              call-Segment sem base o1 st force_efun callee vs (size args)
                (eval_all-size sem base tables args k.0 k.1 vs k.2)
    emit_expr-Computes (catch e) out =
        Ensures-bind (emit_expr-Computes e _)
          λ o1 _ h. holds λ st. catch-Segment sem base out o1 st _ (h st)
    emit_expr-Computes (assign name none e) out =
        with_var-Ensures sem base tables (λ f out'. Gives sem base tables f out out') name _ _
          λ var. Ensures-bind (emit_expr-Computes e out) λ o1 _ h. holds λ st.
            Segment-bind sem base (keep-Keeps sem base tables var o1) (h st)
              λ v _. keep-Segment sem base o1 st var v (λ w. w ∷ st) refl
    emit_expr-Computes (assign name (some op) e) out =
        with_var-Ensures sem base tables (λ f out'. Gives sem base tables f out out') name _ _
          λ var. Ensures-bind (emit_expr-Computes e (emit_push_var var out)) λ o1 _ h.
            compound-Ensures sem base tables
              (λ f out'.
                Gives sem base tables
                  (λ s0. bind (read_var sem base var s0) λ old s1.
                    bind (eval sem base tables e s1)
                      λ v s2. bind (f old v s2) λ new s3. write_var sem base var new s3)
                  out out')
              _ op _
              λ code i. holds λ st.
                compound-Segment sem base tables out o1 st var code i (λ v. h (v ∷ st)) (h st).grows
    emit_expr-Computes (inc_dec op prefix name) out =
        with_var-Ensures sem base tables (λ f out'. Gives sem base tables f out out') name _ _
          (λ var. holds λ st. inc_dec-Segment sem base out st op prefix var)
    emit_expr-Computes (array_literal es) out =
        Ensures-bind (emit_exprs-ComputesAll es out) λ o1 _ h. holds λ st.
          Segment-bind sem base (emit-Keeps make_array (pos 0) (size es) o1) (h st) λ vs k.
            array-Segment sem base o1 st vs (size es)
              (eval_all-size sem base tables es k.0 k.1 vs k.2)
    emit_expr-Computes (type_cast e) out = emit_expr-Computes e out

    emit_exprs-ComputesAll :
        (es : Exprs) (out : CompiledProgram)
        → Ensures (ComputesAll es out) (emit_exprs tables es out)
    emit_exprs-ComputesAll no_exprs out = holds λ st. Segment-none sem base out st []
    emit_exprs-ComputesAll (expr e es) out = Ensures-bind (emit_expr-Computes e out) λ o1 _ h.
        Ensures-map (emit_exprs-ComputesAll es o1) λ o2 hs. holds λ st.
          Segment-bind sem base (hs st).grows (h st)
            λ v _. Segment-map sem base (λ vs. v ∷ vs) (Segment-under sem base (hs (v ∷ st)))

  -- If an expression is compiled, then in each program that has the code emitted for it, and from each
  -- stack, that code does what the evaluator does: it leaves the value on the stack, in the store of the
  -- evaluation, or it throws the exception of the evaluation, in its store, and keeps the stack and the
  -- catch frames of before below.
  pub emit_expr-Segment :
      (e : Expr) (out : CompiledProgram)
      → Ensures
          (λ out'.
            (st : List V) → Segment sem base out out' st (λ v. v ∷ st) st (eval sem base tables e))
          (emit_expr tables e out)
  emit_expr-Segment e out = emit_expr-Computes e out
