-- ===== src/Compiler/Correct/Cases.antt =====
-- The cases of `emitExpr`: variables and operators that the unit may lack, operands and assignments.
use kjdmud.Base.{
  ℕ, suc, ◌≡◌, ◌≢◌, refl, sym, ap, subst, ◌∙◌, ◌++◌, append-nil, ℤ, negsuc, true, List, [], ◌∷◌,
  length, Option, none, some, pos, arith, Option-cases, inl, inr,
}
use kjdmud.Core.Text.{Text}
use kjdmud.Core.Errors.{
  Result, ok, out_of_fuel, runtime, ◌>>=◌, Ensures, holds, Ensures.thrown, Ensures-bind,
}
use kjdmud.Vm.Bytecode.{OpCode, CompiledProgram, dup}
use kjdmud.Vm.Store.{value, thrown, Semantics, Store}
use kjdmud.Compiler.Ast.{
  BinOp, is_eq, is_neq, is_lt, is_lte, is_gt, is_gte, plus, minus, times, divided, remainder,
  and_bits, or_bits, xor_bits, shift_left, shift_right, or_else, and_then, Exprs, no_exprs, expr,
  size,
}
use kjdmud.Compiler.CodeGen.{
  Tables, ResolvedVar, resolve_variable, find, int32, VarKind, local, object_var, binary_op,
  compound_op, opcode_or, undeclared, emit, emit_store_var, emit_push_var,
}
use kjdmud.Compiler.CodeGen.Growth.{Keeps, Keeps-trans, emit-Keeps}
use kjdmud.Compiler.Eval.{
  Answer, bind, eval, eval_all, with_var, apply_binary, Scope, variables_of, scope_of, stands_for,
  wrapped, apply, read_var, write_var,
}
use kjdmud.Compiler.Simulation.Instructions.{is_operator}
use kjdmud.Compiler.Segments.{Segment, Segment-bind, Segment-under}
use kjdmud.Compiler.Segments.Straight.{operator-Segment, read-Segment}
use kjdmud.Compiler.Segments.Variables.{emit_store_var-Keeps, keep-Segment}

binary_op-is_operator : (b : BinOp) (op : OpCode) → binary_op b ≡ some op → is_operator op ≡ true
unfolding binary_op
binary_op-is_operator or_else op e = cc
binary_op-is_operator and_then op e = cc
binary_op-is_operator _ op e = ground arith

compound_op-binary_op : (b : BinOp) (op : OpCode) → compound_op b ≡ some op → binary_op b ≡ some op
unfolding compound_op binary_op
compound_op-binary_op _ op e = ground arith

some_inj : {A : Type 0} {a b : A} → some a ≡ some b → a ≡ b
some_inj h = cc

-- The 32 bits of a literal are the integer that the evaluator has.
pub int32-wrapped : (n : ℤ) → int32 n ≡ wrapped n
unfolding int32
int32-wrapped (pos n) = ground arith
int32-wrapped (negsuc n) = ground arith

variables_of-find :
    (kind : VarKind) (name : Text) (table : List (Text × ℕ)) (scope : Scope)
    → stands_for name (variables_of kind table ++ scope) ≡ (elim (find name table) [
      | none ↦ stands_for name scope
      | some slot ↦ some (record { kind = kind; slot = slot })
    ])
unfolding stands_for variables_of find
variables_of-find kind name [] scope = refl
variables_of-find kind name ((key, slot) ∷ table) scope =
    ground (arith, variables_of-find kind name table scope)

pub Ensures-map {ℓ κ} :
    {A : Type ℓ} {P Q : A → Type κ} {r : Result A}
    → Ensures P r
    → ((a : A) → P a → Ensures Q (ok a))
    → Ensures Q r
Ensures-map (holds {a} h) k = k a h
Ensures-map (Ensures.thrown n) k = Ensures.thrown n

not_out_of_fuel : (t : Text) → runtime t ≢ out_of_fuel
not_out_of_fuel t e = cc

scope_of-local :
    (tables : Tables) (name : Text) (slot : ℕ)
    → find name tables.locals ≡ some slot
    → stands_for name (scope_of tables) ≡ some (record { kind = local; slot = slot })
scope_of-local tables name slot q = variables_of-find local name tables.locals _ ∙ rw q refl

scope_of-object_var :
    (tables : Tables) (name : Text) (slot : ℕ)
    → find name tables.locals ≡ none
    → find name tables.object_vars ≡ some slot
    → stands_for name (scope_of tables) ≡ some (record { kind = object_var; slot = slot })
scope_of-object_var tables name slot q p =
    variables_of-find local name tables.locals _
    ∙ rw q (
        ap (stands_for name) (sym (append-nil (variables_of object_var tables.object_vars)))
        ∙ variables_of-find object_var name tables.object_vars []
        ∙ rw p refl)

-- The code finds the variable that the name stands for, or throws.
resolve_variable-stands_for :
    (tables : Tables) (name : Text)
    → Ensures (λ var. stands_for name (scope_of tables) ≡ some var) (resolve_variable tables name)
unfolding resolve_variable
resolve_variable-stands_for tables name = elim (Option-cases (find name tables.locals)) [
  | inr (i, q) ↦ rw (q, resolve_variable) (holds (scope_of-local tables name i q))
  | inl q ↦ elim (Option-cases (find name tables.object_vars)) [
    | inr (i, p) ↦ rw (q, p, resolve_variable) (holds (scope_of-object_var tables name i q p))
    | inl p ↦ rw (q, p, resolve_variable) (Ensures.thrown (not_out_of_fuel (undeclared name)))
  ]
]

module _ {V W : Type 0} (sem : Semantics V W) (base : ℕ) (tables : Tables) where
  -- With a variable that is resolved, or not.
  pub with_var-Ensures :
      (P : (Store V W → Answer V W V) → CompiledProgram → Type 0) (name : Text)
      (F : ResolvedVar → Result CompiledProgram) (k : ResolvedVar → Store V W → Answer V W V)
      → ((var : ResolvedVar) → Ensures (P (k var)) (F var))
      → Ensures
          (P (with_var sem base name (stands_for name (scope_of tables)) k))
          (resolve_variable tables name >>= F)
  unfolding with_var
  with_var-Ensures P name F k h =
      Ensures-bind (resolve_variable-stands_for tables name) λ var _ found.
        subst (λ o. Ensures (P (with_var sem base name o k)) (F var)) (sym found) (h var)

  binary_op-apply :
      (b : BinOp) (op : OpCode)
      → binary_op b ≡ some op
      → apply_binary sem base b ≡ apply sem base op
  unfolding binary_op apply_binary
  binary_op-apply is_eq op e = ap (apply sem base) (some_inj e)
  binary_op-apply is_neq op e = ap (apply sem base) (some_inj e)
  binary_op-apply is_lt op e = ap (apply sem base) (some_inj e)
  binary_op-apply is_lte op e = ap (apply sem base) (some_inj e)
  binary_op-apply is_gt op e = ap (apply sem base) (some_inj e)
  binary_op-apply is_gte op e = ap (apply sem base) (some_inj e)
  binary_op-apply plus op e = ap (apply sem base) (some_inj e)
  binary_op-apply minus op e = ap (apply sem base) (some_inj e)
  binary_op-apply times op e = ap (apply sem base) (some_inj e)
  binary_op-apply divided op e = ap (apply sem base) (some_inj e)
  binary_op-apply remainder op e = ap (apply sem base) (some_inj e)
  binary_op-apply and_bits op e = ap (apply sem base) (some_inj e)
  binary_op-apply or_bits op e = ap (apply sem base) (some_inj e)
  binary_op-apply xor_bits op e = ap (apply sem base) (some_inj e)
  binary_op-apply shift_left op e = ap (apply sem base) (some_inj e)
  binary_op-apply shift_right op e = ap (apply sem base) (some_inj e)
  binary_op-apply or_else op e = absurd (ground arith)
  binary_op-apply and_then op e = absurd (ground arith)

  -- With an operator that has an opcode, or not.
  opcode-Ensures :
      (P : (V → V → Store V W → Answer V W V) → CompiledProgram → Type 0) (message : Text)
      (b : BinOp) (o : Option OpCode) (F : OpCode → Result CompiledProgram)
      → ((op : OpCode) → o ≡ some op → binary_op b ≡ some op)
      → ((op : OpCode) → is_operator op ≡ true → Ensures (P (apply sem base op)) (F op))
      → Ensures (P (apply_binary sem base b)) (opcode_or message o >>= F)
  unfolding opcode_or
  opcode-Ensures P message b none F n h = Ensures.thrown (λ e. cc)
  opcode-Ensures P message b (some op) F n h =
      subst (λ f. Ensures (P f) (F op)) (sym (binary_op-apply b op (n op refl)))
        (h op (binary_op-is_operator b op (n op refl)))

  pub binary-Ensures :
      (P : (V → V → Store V W → Answer V W V) → CompiledProgram → Type 0) (message : Text)
      (b : BinOp) (F : OpCode → Result CompiledProgram)
      → ((op : OpCode) → is_operator op ≡ true → Ensures (P (apply sem base op)) (F op))
      → Ensures (P (apply_binary sem base b)) (opcode_or message (binary_op b) >>= F)
  binary-Ensures P message b F h = opcode-Ensures P message b (binary_op b) F (λ op e. e) h

  pub compound-Ensures :
      (P : (V → V → Store V W → Answer V W V) → CompiledProgram → Type 0) (message : Text)
      (b : BinOp) (F : OpCode → Result CompiledProgram)
      → ((op : OpCode) → is_operator op ≡ true → Ensures (P (apply sem base op)) (F op))
      → Ensures (P (apply_binary sem base b)) (opcode_or message (compound_op b) >>= F)
  compound-Ensures P message b F h =
      opcode-Ensures P message b (compound_op b) F (compound_op-binary_op b) h

  value_inj :
      {A : Type 0} (s s' : Store V W) (a b : A)
      → ◌≡◌ {A = Answer V W A} (s, value a) (s', value b)
      → a ≡ b
  value_inj s s' a b e = cc

  bind_value :
      {A B : Type 0} (r : Answer V W A) (k : A → Store V W → Answer V W B) (s : Store V W) (b : B)
      → bind r k ≡ (s, value b)
      → (a : A) × (s1 : Store V W) × (r ≡ (s1, value a)) × (k a s1 ≡ (s, value b))
  unfolding bind
  bind_value (s1, value a) k s b e = (a, s1, refl, e)
  bind_value (s1, thrown t) k s b e = absurd (ground arith)

  -- There are as many values as expressions.
  pub eval_all-size :
      (es : Exprs) (s s' : Store V W) (vs : List V)
      → eval_all sem base tables es s ≡ (s', value vs)
      → length vs ≡ size es
  unfolding eval_all bind
  eval_all-size no_exprs s s' vs e =
      let q : [] ≡ vs = value_inj s s' [] vs e in subst (λ us. length us ≡ 0) q refl
  eval_all-size (expr e es) s s' vs h =
      let (v, s1, _, h1) = bind_value (eval sem base tables e s) _ s' vs h in
      let (us, s2, h2, h3) = bind_value (eval_all sem base tables es s1) _ s' vs h1 in
      subst (λ ws. length ws ≡ suc (size es)) (value_inj s2 s' (v ∷ us) vs h3)
        (ap suc (eval_all-size es s1 s2 us h2))

  -- The code for an expression computes `f`.
  abbrev pub Gives : (Store V W → Answer V W V) → CompiledProgram → CompiledProgram → Type 0
  Gives f out out' = (st : List V) → Segment sem base out out' st (λ v. v ∷ st) st f

  pub binary-Segment :
      (out o1 o2 : CompiledProgram) (st : List V) (code : OpCode) {f g : Store V W → Answer V W V}
      → is_operator code ≡ true
      → Segment sem base out o1 st (λ v. v ∷ st) st f
      → ((v : V) → Segment sem base o1 o2 (v ∷ st) (λ w. w ∷ v ∷ st) (v ∷ st) g)
      → Keeps o1 o2
      → Segment sem base out
          (emit code (pos 0) 0 o2)
          st
          (λ v. v ∷ st)
          st
          (λ s. bind (f s) λ v s1. bind (g s1) (apply sem base code v))
  binary-Segment out o1 o2 st code i hl hr k =
      Segment-bind sem base (Keeps-trans k (emit-Keeps code (pos 0) 0 o2)) hl λ v _.
        Segment-bind sem base (emit-Keeps code (pos 0) 0 o2) (Segment-under sem base (hr v))
          λ w _. operator-Segment sem base o2 st code v w i

  pub keep-Keeps :
      (var : ResolvedVar) (o : CompiledProgram)
      → Keeps o (emit_store_var var (emit dup (pos 0) 0 o))
  keep-Keeps var o =
      Keeps-trans (emit-Keeps dup (pos 0) 0 o) (emit_store_var-Keeps var (emit dup (pos 0) 0 o))

  pub compound-Segment :
      (out o1 : CompiledProgram) (st : List V) (var : ResolvedVar) (code : OpCode)
      {f : Store V W → Answer V W V}
      → is_operator code ≡ true
      → ((v : V)
          → Segment sem base (emit_push_var var out) o1 (v ∷ st) (λ w. w ∷ v ∷ st) (v ∷ st) f)
      → Keeps (emit_push_var var out) o1
      → Segment sem base out
          (emit_store_var var (emit dup (pos 0) 0 (emit code (pos 0) 0 o1)))
          st
          (λ v. v ∷ st)
          st
          (λ s0. bind (read_var sem base var s0) λ old s1.
            bind
              (f s1)
              λ v s2. bind (apply sem base code old v s2) λ new s3. write_var sem base var new s3)
  compound-Segment out o1 st var code i h k =
      let last = keep-Keeps var (emit code (pos 0) 0 o1) in
      let after = Keeps-trans (emit-Keeps code (pos 0) 0 o1) last in
      Segment-bind sem base (Keeps-trans k after) (read-Segment sem base out st var) λ old _.
        Segment-bind sem base after (Segment-under sem base (h old)) λ v _.
          Segment-bind sem base last (operator-Segment sem base o1 st code old v i)
            λ new _. keep-Segment sem base (emit code (pos 0) 0 o1) st var new (λ w. w ∷ st) refl
