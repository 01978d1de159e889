-- ===== src/Compiler/Eval.antt =====
-- What an expression means: an independent evaluator, for the constructs that src/compiler/CodeGen.cpp
-- compiles, over the same store and the same operations of values as the machine of Vm/Machine.antt.
use kjdmud.Base.{
  ℕ, Bool, List, [], ◌∷◌, ◌++◌, Option, none, some, if◌then◌else◌, ℤ, pos, negsuc, sub_ℕ, ◌+◌, ◌-◌,
  ◌%◌,
}
use kjdmud.Core.Text.{Text, codes, text_eq}
use kjdmud.Compiler.Ast.{
  BinOp, is_eq, is_neq, is_lt, is_lte, is_gt, is_gte, plus, minus, times, divided, remainder,
  and_bits, or_bits, xor_bits, shift_left, shift_right, or_else, and_then, IncDecOp, inc, dec,
  not_op, neg_op, bit_not_op, Expr, string_literal, int_literal, nil_literal, symbol_literal,
  var_ref, binary, comma, unary, ternary, call, catch, assign, inc_dec, array_literal, type_cast,
  Exprs, no_exprs, expr,
}
use kjdmud.Compiler.CodeGen.{VarKind, local, object_var, ResolvedVar, Tables, undeclared}
use kjdmud.Vm.Bytecode.{
  OpCode, eq, neq, lt, lte, gt, gte, add, sub, mul, div, modulo, bit_and, bit_or, bit_xor, shl, shr,
}
use kjdmud.Vm.Store.{
  lpc_error, Outcome, value, thrown, Semantics, Store, read_local, write_local, read_object_var,
  write_object_var,
}
use kjdmud.Vm.Machine.{caught}

-- The value or what is thrown, with the store in which the evaluation ends.
abbrev pub Answer : (V W A : Type 0) → Type 0
Answer V W A = Store V W × Outcome V A

module _ {V W : Type 0} where
  unfoldable pub bind :
      {A B : Type 0} → Answer V W A → (A → Store V W → Answer V W B) → Answer V W B
  bind (s, value a) k = k a s
  bind (s, thrown t) k = (s, thrown t)

  -- The answer of an operation that changes the world.
  unfoldable pub in_store : Store V W → W × Outcome V V → Answer V W V
  in_store s (w, o) = (record s { world = w }, o)

  unfoldable pub read_answer : Text → Store V W → Option (V × Store V W) → Answer V W V
  read_answer bad s none = (s, thrown (lpc_error bad))
  read_answer bad s (some (v, s')) = (s', value v)

  unfoldable pub write_answer : Text → V → Store V W → Option (Store V W) → Answer V W V
  write_answer bad v s none = (s, thrown (lpc_error bad))
  write_answer bad v s (some s') = (s', value v)

abbrev pub bad_push : VarKind → Text
bad_push local = codes "PushLocal: bad local slot index"
bad_push object_var = codes "PushObjectVar: bad object variable slot index"

abbrev pub bad_store : VarKind → Text
bad_store local = codes "StoreLocal: bad local slot index"
bad_store object_var = codes "StoreObjectVar: bad object variable slot index"

-- `++` adds 1 and `--` takes 1 away.
abbrev pub one_step : IncDecOp → BinOp
one_step inc = plus
one_step dec = minus

module _ {V W : Type 0} (sem : Semantics V W) (base : ℕ) where
  abbrev pub read_slot : VarKind → ℤ → Store V W → Option (V × Store V W)
  read_slot local = read_local sem
  read_slot object_var = read_object_var sem base

  abbrev pub write_slot : VarKind → ℤ → V → Store V W → Option (Store V W)
  write_slot local = write_local sem
  write_slot object_var = write_object_var sem base

  unfoldable pub read_var : ResolvedVar → Store V W → Answer V W V
  unfolding read_answer
  read_var var s = read_answer (bad_push var.kind) s (read_slot var.kind (pos var.slot) s)

  unfoldable pub write_var : ResolvedVar → V → Store V W → Answer V W V
  unfolding write_answer
  write_var var v s = write_answer (bad_store var.kind) v s (write_slot var.kind (pos var.slot) v s)

  unfoldable pub apply : OpCode → V → V → Store V W → Answer V W V
  unfolding in_store
  apply op l r s = in_store s (sem.operate op l r s.world)

  -- What the operators of the language mean. `||` and `&&` are here for two values that are there both.
  unfoldable pub apply_binary : BinOp → V → V → Store V W → Answer V W V
  unfolding apply
  apply_binary is_eq = apply eq
  apply_binary is_neq = apply neq
  apply_binary is_lt = apply lt
  apply_binary is_lte = apply lte
  apply_binary is_gt = apply gt
  apply_binary is_gte = apply gte
  apply_binary plus = apply add
  apply_binary minus = apply sub
  apply_binary times = apply mul
  apply_binary divided = apply div
  apply_binary remainder = apply modulo
  apply_binary and_bits = apply bit_and
  apply_binary or_bits = apply bit_or
  apply_binary xor_bits = apply bit_xor
  apply_binary shift_left = apply shl
  apply_binary shift_right = apply shr
  apply_binary or_else = λ l r s. (s, value (if sem.is_truthy l then l else r))
  apply_binary and_then = λ l r s. (s, value (if sem.is_truthy l then r else l))

  -- `catch(...)` of an evaluation: 0, or what was thrown.
  unfoldable pub guard : Answer V W V → Answer V W V
  unfolding caught
  guard (s, value v) = (s, value (sem.number (pos 0)))
  guard (s, thrown t) = elim (caught sem base t) [ none ↦ (s, thrown t) | some v ↦ (s, value v) ]

  unfoldable pub make : List V → Store V W → Answer V W V
  make vs s = let (w, v) = sem.new_array vs s.world in (record s { world = w }, value v)

  unfoldable pub step_var : IncDecOp → Bool → ResolvedVar → Store V W → Answer V W V
  step_var op prefix var s = bind (read_var var s) λ old s1.
      bind (apply_binary (one_step op) old (sem.number (pos 1)) s1)
        λ new s2. bind (write_var var new s2) λ v s3. (s3, value (if prefix then new else old))

  -- With the variable that the name stands for, if there is one.
  unfoldable pub with_var :
      Text
      → Option ResolvedVar
      → (ResolvedVar → Store V W → Answer V W V)
      → Store V W
      → Answer V W V
  with_var name none k s = (s, thrown (lpc_error (undeclared name)))
  with_var name (some var) k s = k var s

-- The variables in scope, those that hide others first: a name stands for the first variable of the
-- name.
abbrev pub Scope : Type 0
Scope = List (Text × ResolvedVar)

unfoldable pub variables_of : VarKind → List (Text × ℕ) → Scope
variables_of kind [] = []
variables_of kind ((name, slot) ∷ table) =
    (name, record { kind = kind; slot = slot }) ∷ variables_of kind table

-- Local variables hide those of the object.
abbrev pub scope_of : Tables → Scope
scope_of tables = variables_of local tables.locals ++ variables_of object_var tables.object_vars

unfoldable pub stands_for : Text → Scope → Option ResolvedVar
stands_for name [] = none
stands_for name ((key, var) ∷ scope) =
    let hidden = stands_for name scope in if text_eq key name then some var else hidden

-- The integer of 32 bits that differs from the literal by a multiple of 2^32: the place in the interval
-- from -2^31 on.
abbrev pub wrapped : ℤ → ℤ
wrapped (pos n) = sub_ℕ ((n + 2147483648) % 4294967296) 2147483648
wrapped (negsuc n) = sub_ℕ (4294967295 - (n + 2147483648) % 4294967296) 2147483648

module _ {V W : Type 0} (sem : Semantics V W) (base : ℕ) (tables : Tables) where
  unfoldable mutual
    pub eval : Expr → Store V W → Answer V W V
    eval (string_literal t) s = (s, value (sem.text t))
    eval (int_literal n) s = (s, value (sem.number (wrapped n)))
    eval nil_literal s = (s, value sem.nil)
    eval (symbol_literal t) s = (s, value (sem.symbol t))
    eval (var_ref name) s =
        with_var sem base name (stands_for name (scope_of tables)) (λ var. read_var sem base var) s
    eval (binary or_else l r) s =
        bind (eval l s) λ v s1. (let w = eval r s1 in if sem.is_truthy v then (s1, value v) else w)
    eval (binary and_then l r) s =
        bind (eval l s) λ v s1. (let w = eval r s1 in if sem.is_truthy v then w else (s1, value v))
    eval (binary op l r) s =
        bind (eval l s) λ v s1. bind (eval r s1) λ w s2. apply_binary sem base op v w s2
    eval (comma l r) s = bind (eval l s) λ v s1. eval r s1
    eval (unary not_op e) s =
        bind (eval e s) λ v s1. (s1, value (sem.number (if sem.is_truthy v then pos 0 else pos 1)))
    eval (unary bit_not_op e) s = bind (eval e s) λ v s1. in_store s1 (s1.world, sem.complement v)
    eval (unary neg_op e) s =
        bind (eval e s) λ v s1. apply_binary sem base minus (sem.number (pos 0)) v s1
    eval (ternary c t e) s = bind (eval c s) λ v s1.
        (let yes_value = eval t s1 in
          let no_value = eval e s1 in if sem.is_truthy v then yes_value else no_value)
    eval (call force_efun callee args) s =
        bind (eval_all args s) λ vs s1. in_store s1 (sem.call force_efun callee vs s1.world)
    eval (catch e) s = guard sem base (eval e s)
    eval (assign name none e) s =
        with_var sem base name (stands_for name (scope_of tables))
          (λ var s0. bind (eval e s0) λ v s1. write_var sem base var v s1) s
    eval (assign name (some op) e) s =
        with_var sem base name (stands_for name (scope_of tables))
          (λ var s0. bind (read_var sem base var s0) λ old s1. bind (eval e s1) λ v s2.
            bind (apply_binary sem base op old v s2) λ new s3. write_var sem base var new s3)
          s
    eval (inc_dec op prefix name) s =
        with_var sem base name (stands_for name (scope_of tables))
          (λ var. step_var sem base op prefix var) s
    eval (array_literal es) s = bind (eval_all es s) λ vs s1. make sem base vs s1
    eval (type_cast e) s = eval e s

    -- From the first to the last.
    pub eval_all : Exprs → Store V W → Answer V W (List V)
    eval_all no_exprs s = (s, value [])
    eval_all (expr e es) s =
        bind (eval e s) λ v s1. bind (eval_all es s1) λ vs s2. (s2, value (v ∷ vs))
