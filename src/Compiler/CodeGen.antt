-- ===== src/Compiler/CodeGen.antt =====
-- src/compiler/CodeGen.cpp: `emitExpr` and what it calls, for the expressions of Ast.antt. The tables
-- of the variables are lists of names and slots. The sizes of the code, of the pool and of a list of
-- arguments, which the code casts to `int`, are taken to fit.
pub mod Growth
pub mod Scoped
use kjdmud.Base.{
  ℕ, zero, suc, ◌≡◌, Bool, true, false, List, [], ◌∷◌, ◌++◌, length, Option, none, some, leb, ltb,
  ◌-◌, ◌+◌, ◌%◌, if◌then◌else◌, ℤ, pos, negsuc,
}
use kjdmud.Core.Text.{Text, codes, text_eq}
use kjdmud.Core.Errors.{Result, ok, err, runtime, ◌>>=◌}
use kjdmud.Compiler.Ast.{
  BinOp, is_eq, is_neq, is_lt, is_lte, is_gt, is_gte, plus, or_else, and_then, minus, times,
  divided, remainder, and_bits, or_bits, xor_bits, shift_left, shift_right, UnaryOp, not_op, neg_op,
  bit_not_op, IncDecOp, inc, dec, Expr, string_literal, int_literal, nil_literal, symbol_literal,
  var_ref, binary, comma, unary, ternary, call, catch, assign, inc_dec, array_literal, type_cast,
  Exprs, no_exprs, expr, size,
}
use kjdmud.Vm.Bytecode.{
  OpCode, push_const, push_int, push_nil, push_symbol, push_local, store_local, push_object_var,
  store_object_var, eq, neq, lt, lte, gt, gte, add, sub, mul, div, modulo, bit_and, bit_or, bit_xor,
  shl, shr, logical_not, bit_not, jump, jump_if_false, push_catch_frame, pop_catch_frame,
  make_array, invoke, call_efun, pop, dup, Instruction, CompiledProgram,
}

pub data VarKind : Type 0 where
  local object_var : VarKind

pub record ResolvedVar : Type 0 where
  pub kind : VarKind
  pub slot : ℕ

-- `locals_` and `objectVars_`.
pub record Tables : Type 0 where
  pub locals : List (Text × ℕ)
  pub object_vars : List (Text × ℕ)

unfoldable pub find : Text → List (Text × ℕ) → Option ℕ
unfolding text_eq
find name [] = none
find name ((key, slot) ∷ table) =
    let later = find name table in if text_eq key name then some slot else later

abbrev pub undeclared : Text → Text
undeclared name = codes "codegen: undeclared variable \"" ++ (name ++ codes "\"")

unfoldable pub resolve_variable : Tables → Text → Result ResolvedVar
unfolding find
resolve_variable tables name = elim (find name tables.locals) [
  | some slot ↦ ok (record { kind = local; slot = slot })
  | none ↦ elim (find name tables.object_vars) [
    | some slot ↦ ok (record { kind = object_var; slot = slot })
    | none ↦ err (runtime (undeclared name))
  ]
]

-- The first index at which the text stands in the pool.
unfoldable pub pool_index : Text → List Text → Option ℕ
unfolding text_eq
pool_index s [] = none
pool_index s (t ∷ pool) =
    let later = pool_index s pool in
    if text_eq t s then some 0 else (elim later [ none ↦ none | some i ↦ some (suc i) ])

unfoldable pub intern_string : Text → CompiledProgram → ℕ × CompiledProgram
unfolding pool_index
intern_string s out = elim (pool_index s out.string_pool) [
  | some i ↦ (i, out)
  | none ↦ (length out.string_pool, record out { string_pool = out.string_pool ++ (s ∷ []) })
]

-- `out_->code.push_back(Instruction{op, operand, argCount})`.
unfoldable pub emit : OpCode → ℤ → ℕ → CompiledProgram → CompiledProgram
emit op operand argc out = record out {
  code = out.code ++ (record { op = op; operand = operand; arg_count = argc } ∷ []);
}

-- The instruction before its target is known; its index is the size of the code before it.
unfoldable pub emit_jump_placeholder : OpCode → CompiledProgram → CompiledProgram
unfolding emit
emit_jump_placeholder op out = emit op (negsuc 0) 0 out

-- `code[index].operand = code.size()`.
unfoldable pub set_operand : ℕ → ℤ → List Instruction → List Instruction
set_operand n target [] = []
set_operand zero target (i ∷ code) = record i { operand = target } ∷ code
set_operand (suc n) target (i ∷ code) = i ∷ set_operand n target code

unfoldable pub patch_jump_to_here : ℕ → CompiledProgram → CompiledProgram
unfolding set_operand
patch_jump_to_here index out = record out {
  code = set_operand index (pos (length out.code)) out.code;
}

-- `static_cast<int32_t>` of a 64-bit integer.
unfoldable pub int32 : ℤ → ℤ
int32 (pos n) =
    if ltb (n % 4294967296) 2147483648
    then pos (n % 4294967296)
    else negsuc (4294967295 - n % 4294967296)
int32 (negsuc n) =
    if ltb (n % 4294967296) 2147483648
    then negsuc (n % 4294967296)
    else pos (4294967295 - n % 4294967296)

unfoldable pub binary_op : BinOp → Option OpCode
binary_op is_eq = some eq
binary_op is_neq = some neq
binary_op is_lt = some lt
binary_op is_lte = some lte
binary_op is_gt = some gt
binary_op is_gte = some gte
binary_op plus = some add
binary_op minus = some sub
binary_op times = some mul
binary_op divided = some div
binary_op remainder = some modulo
binary_op and_bits = some bit_and
binary_op or_bits = some bit_or
binary_op xor_bits = some bit_xor
binary_op shift_left = some shl
binary_op shift_right = some shr
binary_op or_else = none
binary_op and_then = none

unfoldable pub compound_op : BinOp → Option OpCode
compound_op plus = some add
compound_op minus = some sub
compound_op times = some mul
compound_op divided = some div
compound_op remainder = some modulo
compound_op and_bits = some bit_and
compound_op or_bits = some bit_or
compound_op xor_bits = some bit_xor
compound_op shift_left = some shl
compound_op shift_right = some shr
compound_op _ = none

-- The opcode, or the error of the `default:` of the switch.
unfoldable pub opcode_or : Text → Option OpCode → Result OpCode
opcode_or message none = err (runtime message)
opcode_or message (some op) = ok op

abbrev pub unsupported : Text
unsupported = codes "codegen: unsupported compound assignment operator"

abbrev pub push_op : VarKind → OpCode
push_op local = push_local
push_op object_var = push_object_var

abbrev pub store_op : VarKind → OpCode
store_op local = store_local
store_op object_var = store_object_var

unfoldable pub delta_op : IncDecOp → OpCode
delta_op inc = add
delta_op dec = sub

abbrev pub call_op : Bool → OpCode
call_op true = call_efun
call_op false = invoke

unfoldable pub emit_push_var : ResolvedVar → CompiledProgram → CompiledProgram
unfolding emit
emit_push_var var out = emit (push_op var.kind) (pos var.slot) 0 out

unfoldable pub emit_store_var : ResolvedVar → CompiledProgram → CompiledProgram
unfolding emit
emit_store_var var out = emit (store_op var.kind) (pos var.slot) 0 out

-- `++x` and `x++`.
unfoldable pub emit_inc_dec : IncDecOp → Bool → ResolvedVar → CompiledProgram → CompiledProgram
unfolding emit emit_push_var emit_store_var delta_op
emit_inc_dec op true var out = emit_store_var var (
    emit dup (pos 0) 0
      (emit (delta_op op) (pos 0) 0 (emit push_int (pos 1) 0 (emit_push_var var out))))
emit_inc_dec op false var out = emit_store_var var (
    emit (delta_op op) (pos 0) 0
      (emit push_int (pos 1) 0 (emit dup (pos 0) 0 (emit_push_var var out))))

-- An instruction for the index at which the text is interned.
unfoldable pub emit_pooled : OpCode → Text → ℕ → CompiledProgram → CompiledProgram
unfolding intern_string emit
emit_pooled op s argc out = let (i, out') = intern_string s out in emit op (pos i) argc out'

-- A copy of the left value is tested; for `||` a jump to the end follows, and then, where the test
-- jumps to, the left value is discarded.
unfoldable pub or_test : CompiledProgram → CompiledProgram
unfolding emit emit_jump_placeholder
or_test o1 = emit_jump_placeholder jump_if_false (emit dup (pos 0) 0 o1)

unfoldable pub or_start : CompiledProgram → CompiledProgram
unfolding emit emit_jump_placeholder patch_jump_to_here or_test
or_start o1 = emit pop (pos 0) 0 (
    patch_jump_to_here (length (emit dup (pos 0) 0 o1).code)
      (emit_jump_placeholder jump (or_test o1)))

module _ (tables : Tables) where
  unfoldable mutual
    pub emit_expr : Expr → CompiledProgram → Result CompiledProgram
    emit_expr (string_literal s) out = ok (emit_pooled push_const s 0 out)
    emit_expr (int_literal n) out = ok (emit push_int (int32 n) 0 out)
    emit_expr nil_literal out = ok (emit push_nil (pos 0) 0 out)
    emit_expr (symbol_literal s) out = ok (emit_pooled push_symbol s 0 out)
    emit_expr (var_ref name) out =
        resolve_variable tables name >>= λ var. ok (emit_push_var var out)
    emit_expr (binary or_else l r) out = emit_expr l out >>= λ o1.
        emit_expr r (or_start o1) >>= λ o2. ok (patch_jump_to_here (length (or_test o1).code) o2)
    emit_expr (binary and_then l r) out = emit_expr l out >>= λ o1.
        emit_expr r (emit pop (pos 0) 0 (or_test o1)) >>= λ o2.
        ok (patch_jump_to_here (length (emit dup (pos 0) 0 o1).code) o2)
    emit_expr (binary op l r) out = emit_expr l out >>= λ o1. emit_expr r o1 >>= λ o2.
        opcode_or (codes "codegen: unknown BinOp") (binary_op op) >>= λ code.
        ok (emit code (pos 0) 0 o2)
    emit_expr (comma l r) out = emit_expr l out >>= λ o1. emit_expr r (emit pop (pos 0) 0 o1)
    emit_expr (unary not_op e) out = emit_expr e out >>= λ o1. ok (emit logical_not (pos 0) 0 o1)
    emit_expr (unary bit_not_op e) out = emit_expr e out >>= λ o1. ok (emit bit_not (pos 0) 0 o1)
    emit_expr (unary neg_op e) out =
        emit_expr e (emit push_int (pos 0) 0 out) >>= λ o1. ok (emit sub (pos 0) 0 o1)
    emit_expr (ternary c t e) out = emit_expr c out >>= λ o1.
        emit_expr t (emit_jump_placeholder jump_if_false o1) >>= λ o2.
        emit_expr e (patch_jump_to_here (length o1.code) (emit_jump_placeholder jump o2)) >>= λ o3.
        ok (patch_jump_to_here (length o2.code) o3)
    emit_expr (call force_efun callee args) out =
        emit_exprs args out >>= λ o1. ok (emit_pooled (call_op force_efun) callee (size args) o1)
    emit_expr (catch e) out = emit_expr e (emit_jump_placeholder push_catch_frame out) >>= λ o1.
        ok (
          patch_jump_to_here (length out.code)
            (emit pop_catch_frame (pos 0) 0 (emit pop (pos 0) 0 o1)))
    emit_expr (assign name none e) out = resolve_variable tables name >>= λ var.
        emit_expr e out >>= λ o1. ok (emit_store_var var (emit dup (pos 0) 0 o1))
    emit_expr (assign name (some op) e) out = resolve_variable tables name >>= λ var.
        emit_expr e (emit_push_var var out) >>= λ o1.
        opcode_or unsupported (compound_op op) >>= λ code.
        ok (emit_store_var var (emit dup (pos 0) 0 (emit code (pos 0) 0 o1)))
    emit_expr (inc_dec op prefix name) out =
        resolve_variable tables name >>= λ var. ok (emit_inc_dec op prefix var out)
    emit_expr (array_literal es) out =
        emit_exprs es out >>= λ o1. ok (emit make_array (pos 0) (size es) o1)
    emit_expr (type_cast e) out = emit_expr e out

    pub emit_exprs : Exprs → CompiledProgram → Result CompiledProgram
    emit_exprs no_exprs out = ok out
    emit_exprs (expr e es) out = emit_expr e out >>= λ o1. emit_exprs es o1

  -- `emitReturnStmt` with a value.
  unfoldable pub emit_return : Expr → CompiledProgram → Result CompiledProgram
  unfolding emit emit_expr
  emit_return e out = emit_expr e out >>= λ o1. ok (emit OpCode.return (pos 0) 0 o1)
