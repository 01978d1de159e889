-- ===== src/Compiler/CodeGen/Scoped.antt =====
-- Which expressions `emitExpr` compiles: those whose variables are declared and whose compound
-- assignments have an operator that the code knows.
use kjdmud.Base.{
  ◌≡◌, refl, ap, ◌∙◌, Bool, true, false, ◌&&◌, ◌||◌, Option, none, some, Option-cases, inl, inr,
}
use kjdmud.Core.Text.{Text}
use kjdmud.Core.Errors.{Result, ok, err, ◌>>=◌}
use kjdmud.Vm.Value.{is_some}
use kjdmud.Vm.Bytecode.{OpCode, CompiledProgram}
use kjdmud.Compiler.Ast.{
  or_else, and_then, not_op, neg_op, bit_not_op, Expr, string_literal, int_literal, nil_literal,
  symbol_literal, var_ref, binary, comma, unary, ternary, call, catch, assign, inc_dec,
  array_literal, type_cast, Exprs, no_exprs, expr,
}
use kjdmud.Compiler.CodeGen.{
  Tables, find, resolve_variable, binary_op, compound_op, opcode_or, emit_expr, emit_exprs,
}

abbrev pub is_ok {ℓ} : {A : Type ℓ} → Result A → Bool
is_ok (err e) = false
is_ok (ok a) = true

module _ (tables : Tables) where
  unfoldable pub is_declared : Text → Bool
  unfolding find
  is_declared name = is_some (find name tables.locals) || is_some (find name tables.object_vars)

  abbrev mutual
    pub is_scoped : Expr → Bool
    is_scoped (var_ref name) = is_declared name
    is_scoped (binary op l r) = is_scoped l && is_scoped r
    is_scoped (comma l r) = is_scoped l && is_scoped r
    is_scoped (unary op e) = is_scoped e
    is_scoped (ternary c t e) = is_scoped c && (is_scoped t && is_scoped e)
    is_scoped (call force_efun callee args) = are_scoped args
    is_scoped (catch e) = is_scoped e
    is_scoped (assign name none e) = is_declared name && is_scoped e
    is_scoped (assign name (some op) e) =
        is_declared name && (is_scoped e && is_some (compound_op op))
    is_scoped (inc_dec op prefix name) = is_declared name
    is_scoped (array_literal es) = are_scoped es
    is_scoped (type_cast e) = is_scoped e
    is_scoped _ = true

    pub are_scoped : Exprs → Bool
    are_scoped no_exprs = true
    are_scoped (expr e es) = is_scoped e && are_scoped es

  is_ok-bind {ℓ κ} :
      {A : Type ℓ} {B : Type κ} (r : Result A) (f : A → Result B) (a b : Bool)
      → is_ok r ≡ a
      → ((x : A) → is_ok (f x) ≡ b)
      → is_ok (r >>= f) ≡ (a && b)
  is_ok-bind (err e) f a b h k = ap (λ c. c && b) h
  is_ok-bind (ok x) f a b h k = k x ∙ ap (λ c. c && b) h

  is_ok-then {ℓ κ} :
      {A : Type ℓ} {B : Type κ} (r : Result A) (f : A → Result B) (a : Bool)
      → is_ok r ≡ a
      → ((x : A) → is_ok (f x) ≡ true)
      → is_ok (r >>= f) ≡ a
  is_ok-then (err e) f a h k = h
  is_ok-then (ok x) f a h k = k x ∙ h

  is_ok-resolve : (name : Text) → is_ok (resolve_variable tables name) ≡ is_declared name
  unfolding resolve_variable is_declared
  is_ok-resolve name = elim (Option-cases (find name tables.locals)) [
    | inr (i, q) ↦ rw (q, resolve_variable, is_declared) refl
    | inl q ↦ elim (Option-cases (find name tables.object_vars)) [
      | inr (i, p) ↦ rw (q, p, resolve_variable, is_declared) refl
      | inl p ↦ rw (q, p, resolve_variable, is_declared) refl
    ]
  ]

  is_ok-opcode : (message : Text) (o : Option OpCode) → is_ok (opcode_or message o) ≡ is_some o
  unfolding opcode_or
  is_ok-opcode message none = refl
  is_ok-opcode message (some op) = refl

  mutual
    unfolding emit_expr opcode_or binary_op

    emit_expr-is_scoped :
        (e : Expr) (out : CompiledProgram) → is_ok (emit_expr tables e out) ≡ is_scoped e
    emit_expr-is_scoped (string_literal t) out = refl
    emit_expr-is_scoped (int_literal n) out = refl
    emit_expr-is_scoped nil_literal out = refl
    emit_expr-is_scoped (symbol_literal t) out = refl
    emit_expr-is_scoped (var_ref name) out = is_ok-then _ _ _ (is_ok-resolve name) λ var. refl
    emit_expr-is_scoped (binary or_else l r) out =
        is_ok-bind _ _ _ _ (emit_expr-is_scoped l out)
          λ o1. is_ok-then _ _ _ (emit_expr-is_scoped r _) λ o2. refl
    emit_expr-is_scoped (binary and_then l r) out =
        is_ok-bind _ _ _ _ (emit_expr-is_scoped l out)
          λ o1. is_ok-then _ _ _ (emit_expr-is_scoped r _) λ o2. refl
    emit_expr-is_scoped (binary op l r) out =
        is_ok-bind _ _ _ _ (emit_expr-is_scoped l out)
          λ o1. is_ok-then _ _ _ (emit_expr-is_scoped r _) λ o2. refl
    emit_expr-is_scoped (comma l r) out =
        is_ok-bind _ _ _ _ (emit_expr-is_scoped l out) λ o1. emit_expr-is_scoped r _
    emit_expr-is_scoped (unary not_op e) out = is_ok-then _ _ _ (emit_expr-is_scoped e _) λ o1. refl
    emit_expr-is_scoped (unary bit_not_op e) out =
        is_ok-then _ _ _ (emit_expr-is_scoped e _) λ o1. refl
    emit_expr-is_scoped (unary neg_op e) out = is_ok-then _ _ _ (emit_expr-is_scoped e _) λ o1. refl
    emit_expr-is_scoped (ternary c t e) out = is_ok-bind _ _ _ _ (emit_expr-is_scoped c out) λ o1.
        is_ok-bind _ _ _ _ (emit_expr-is_scoped t _)
          λ o2. is_ok-then _ _ _ (emit_expr-is_scoped e _) λ o3. refl
    emit_expr-is_scoped (call force_efun callee args) out =
        is_ok-then _ _ _ (emit_exprs-are_scoped args out) λ o1. refl
    emit_expr-is_scoped (catch e) out = is_ok-then _ _ _ (emit_expr-is_scoped e _) λ o1. refl
    emit_expr-is_scoped (assign name none e) out =
        is_ok-bind _ _ _ _ (is_ok-resolve name)
          λ var. is_ok-then _ _ _ (emit_expr-is_scoped e out) λ o1. refl
    emit_expr-is_scoped (assign name (some op) e) out =
        is_ok-bind _ _ _ _ (is_ok-resolve name) λ var.
          is_ok-bind _ _ _ _ (emit_expr-is_scoped e _)
            λ o1. is_ok-then _ _ _ (is_ok-opcode _ (compound_op op)) λ code. refl
    emit_expr-is_scoped (inc_dec op prefix name) out =
        is_ok-then _ _ _ (is_ok-resolve name) λ var. refl
    emit_expr-is_scoped (array_literal es) out =
        is_ok-then _ _ _ (emit_exprs-are_scoped es out) λ o1. refl
    emit_expr-is_scoped (type_cast e) out = emit_expr-is_scoped e out

    emit_exprs-are_scoped :
        (es : Exprs) (out : CompiledProgram) → is_ok (emit_exprs tables es out) ≡ are_scoped es
    emit_exprs-are_scoped no_exprs out = refl
    emit_exprs-are_scoped (expr e es) out =
        is_ok-bind _ _ _ _ (emit_expr-is_scoped e out) λ o1. emit_exprs-are_scoped es o1

  -- After any code, an expression is compiled exactly if each variable in it is declared and each
  -- operator of a compound assignment in it is one that the code knows.
  pub is_ok-emit_expr :
      (e : Expr) (out : CompiledProgram) → is_ok (emit_expr tables e out) ≡ is_scoped e
  is_ok-emit_expr e out = emit_expr-is_scoped e out
