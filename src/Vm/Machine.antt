-- ===== src/Vm/Machine.antt =====
-- src/vm/VM.cpp, `VM::run`: one instruction, and what becomes of an exception.
pub mod Run
pub mod Steady
pub mod Cost
pub mod Metered
pub mod Plain
use kjdmud.Base.{
  ℕ, zero, suc, ◌-◌, Bool, true, false, List, [], ◌∷◌, ◌++◌, length, drop, Option, none, some, leb,
  if◌then◌else◌, ℤ, pos, negsuc,
}
use kjdmud.Core.Text.{Text, codes}
use kjdmud.Vm.Bytecode.{
  OpCode, push_const, push_int, push_nil, push_symbol, push_local, store_local, push_object_var,
  store_object_var, eq, neq, lt, lte, gt, gte, add, sub, mul, div, modulo, bit_and, bit_or, bit_xor,
  shl, shr, logical_not, bit_not, jump, jump_if_false, push_catch_frame, pop_catch_frame,
  make_array, invoke, call_efun, pop, dup, return, halt, Instruction, CompiledProgram, get_elem?,
  index_of,
}
use kjdmud.Vm.Store.{
  Thrown, lpc_error, lpc_value, uncatchable, Outcome, value, thrown, Semantics, Store, read_local,
  write_local, read_object_var, write_object_var, at_index,
}

pub record CatchFrame : Type 0 where
  pub resume_ip : ℕ
  pub stack_depth : ℕ

-- The local variables of `run`; the top of the stack and the innermost frame come first.
pub record Machine (V W : Type 0) : Type 0 where
  pub ip : ℕ
  pub stack : List V
  pub store : Store V W
  pub frames : List CatchFrame

-- What one instruction comes to: the loop goes on, the function returns, or it throws.
pub data Effect (V W : Type 0) : Type 0 where
  goes : Machine V W → Effect V W
  returns : V → Store V W → Effect V W
  raises : Thrown V → Machine V W → Effect V W

-- The last `n` values pushed, the first of them first, and the stack without them.
unfoldable pub pop_many {ℓ} : {A : Type ℓ} → ℕ → List A → List A → Option (List A × List A)
pop_many zero st args = some (args, st)
pop_many (suc n) [] args = none
pop_many (suc n) (v ∷ st) args = pop_many n st (v ∷ args)

-- Values put on top of a stack.
unfoldable pub pad {ℓ} : {A : Type ℓ} → ℕ → A → List A → List A
pad zero v st = st
pad (suc n) v st = v ∷ pad n v st

abbrev pub underflow : OpCode → Text
underflow eq = codes "Eq/Neq: stack underflow"
underflow neq = codes "Eq/Neq: stack underflow"
underflow lt = codes "comparison: stack underflow"
underflow lte = codes "comparison: stack underflow"
underflow gt = codes "comparison: stack underflow"
underflow gte = codes "comparison: stack underflow"
underflow add = codes "Add: stack underflow"
underflow bit_and = codes "BitAnd: stack underflow"
underflow bit_or = codes "BitOr: stack underflow"
underflow bit_xor = codes "BitXor: stack underflow"
underflow shl = codes "Shl/Shr: stack underflow"
underflow shr = codes "Shl/Shr: stack underflow"
underflow _ = codes "arithmetic: stack underflow"

module _ {V W : Type 0} where
  -- `++ip`, with this stack; with this store too; a jump; a runtime error.
  unfoldable pub proceed : Machine V W → List V → Effect V W
  proceed m st = goes (record m { ip = suc m.ip; stack = st })

  unfoldable pub proceed_in : Machine V W → List V → Store V W → Effect V W
  proceed_in m st s = goes (record { ip = suc m.ip; stack = st; store = s; frames = m.frames })

  unfoldable pub jump_to : List Instruction → ℤ → Text → Machine V W → Effect V W
  jump_to code (negsuc n) message m = raises (lpc_error message) m
  jump_to code (pos target) message m =
      if leb target (length code)
      then goes (record m { ip = target })
      else raises (lpc_error message) m

  unfoldable pub fail : Text → Machine V W → Effect V W
  fail message m = raises (lpc_error message) m

  -- What an operation came to, which left this stack below its result.
  unfoldable pub answer : Machine V W → List V → W × Outcome V V → Effect V W
  unfolding proceed_in
  answer m st (w, value v) = proceed_in m (v ∷ st) (record m.store { world = w })
  answer m st (w, thrown t) =
      raises t (record m { stack = st; store = record m.store { world = w } })

module _ {V W : Type 0} (sem : Semantics V W) (base : ℕ) where
  -- A binary opcode on the two values at the top, which are off the stack when it throws.
  unfoldable pub execute_binary : OpCode → Machine V W → List V → Effect V W
  unfolding answer fail
  execute_binary op m [] = fail (underflow op) m
  execute_binary op m (rhs ∷ []) = fail (underflow op) m
  execute_binary op m (rhs ∷ lhs ∷ st) = answer m st (sem.operate op lhs rhs m.store.world)

  -- What is pushed, or the error if there is nothing to push.
  unfoldable pub push_read : Text → Option (V × Store V W) → Machine V W → Effect V W
  unfolding proceed_in fail
  push_read message none m = fail message m
  push_read message (some (v, s)) m = proceed_in m (v ∷ m.stack) s

  -- A store through `write`, which is `none` for a bad slot; the slot is tested before the stack.
  unfoldable pub execute_store :
      Text → Text → (V → Store V W → Option (Store V W)) → Machine V W → List V → Effect V W
  unfolding proceed_in fail
  execute_store bad empty write m [] = elim (write sem.void m.store) [
    | none ↦ fail bad m
    | some s ↦ fail empty m
  ]
  execute_store bad empty write m (v ∷ st) = elim (write v m.store) [
    | none ↦ fail bad m
    | some s ↦ proceed_in m st s
  ]

  -- The arguments are off the stack when the call throws.
  unfoldable pub execute_call :
      Text → Text → Bool → Option (ℕ × Text) → ℕ → Machine V W → Effect V W
  unfolding pop_many answer fail
  execute_call bad few is_efun none argc m = fail bad m
  execute_call bad few is_efun (some (i, name)) argc m = elim (pop_many argc m.stack []) [
    | none ↦ fail (few ++ name) m
    | some (args, st) ↦ answer m st (sem.call is_efun name args m.store.world)
  ]

  unfoldable pub execute_array : Option (List V × List V) → Machine V W → Effect V W
  unfolding proceed_in fail
  execute_array none m = fail (codes "MakeArray: bad arg count") m
  execute_array (some (args, st)) m =
      let (w, v) = sem.new_array args m.store.world in
      proceed_in m (v ∷ st) (record m.store { world = w })

  unfoldable pub push_pooled : Text → (Text → V) → Option (ℕ × Text) → Machine V W → Effect V W
  unfolding proceed fail
  push_pooled bad make none m = fail bad m
  push_pooled bad make (some (i, s)) m = proceed m (make s ∷ m.stack)

  unfoldable pub execute_jump_if_false : List Instruction → ℤ → Machine V W → List V → Effect V W
  unfolding proceed jump_to fail
  execute_jump_if_false code operand m [] = fail (codes "JumpIfFalse: stack underflow") m
  execute_jump_if_false code operand m (v ∷ st) =
      if sem.is_truthy v
      then proceed m st
      else jump_to code operand (codes "JumpIfFalse: bad target") (record m { stack = st })

  unfoldable pub execute_push_catch : List Instruction → ℤ → Machine V W → Effect V W
  unfolding fail
  execute_push_catch code (negsuc n) m = fail (codes "PushCatchFrame: bad resume target") m
  execute_push_catch code (pos target) m =
      if leb target (length code)
      then goes (record m {
        ip = suc m.ip;
        frames = record { resume_ip = target; stack_depth = length m.stack } ∷ m.frames;
      })
      else fail (codes "PushCatchFrame: bad resume target") m

  unfoldable pub execute_pop_catch : Machine V W → List CatchFrame → Effect V W
  unfolding fail
  execute_pop_catch m [] = fail (codes "PopCatchFrame: no active catch frame") m
  execute_pop_catch m (f ∷ fs) =
      goes (record m { ip = suc m.ip; stack = sem.number (pos 0) ∷ m.stack; frames = fs })

  unfoldable pub execute_not : Machine V W → List V → Effect V W
  unfolding proceed fail
  execute_not m [] = fail (codes "Not: stack underflow") m
  execute_not m (v ∷ st) = proceed m (sem.number (if sem.is_truthy v then pos 0 else pos 1) ∷ st)

  unfoldable pub execute_bit_not : Machine V W → List V → Effect V W
  unfolding answer fail
  execute_bit_not m [] = fail (codes "BitNot: stack underflow") m
  execute_bit_not m (v ∷ st) = answer m st (m.store.world, sem.complement v)

  unfoldable pub execute_dup : Machine V W → List V → Effect V W
  unfolding proceed fail
  execute_dup m [] = fail (codes "Dup: stack underflow") m
  execute_dup m (v ∷ st) = proceed m (v ∷ v ∷ st)

  unfoldable pub execute_return : Machine V W → List V → Effect V W
  execute_return m [] = returns sem.void m.store
  execute_return m (v ∷ st) = returns v m.store

  -- The `switch` of `run`.
  unfoldable pub execute_op : CompiledProgram → OpCode → ℤ → ℕ → Machine V W → Effect V W
  unfolding execute_binary push_read execute_store execute_call execute_array push_pooled
      execute_jump_if_false execute_push_catch execute_pop_catch execute_not execute_bit_not
      execute_dup execute_return at_index proceed jump_to
  execute_op program push_const operand argc m =
      push_pooled (codes "PushConst: bad string pool index") sem.text
        (at_index (index_of operand) program.string_pool) m
  execute_op program push_int operand argc m = proceed m (sem.number operand ∷ m.stack)
  execute_op program push_nil operand argc m = proceed m (sem.nil ∷ m.stack)
  execute_op program push_symbol operand argc m =
      push_pooled (codes "PushSymbol: bad symbol name index") sem.symbol
        (at_index (index_of operand) program.string_pool) m
  execute_op program push_local operand argc m =
      push_read (codes "PushLocal: bad local slot index") (read_local sem operand m.store) m
  execute_op program store_local operand argc m =
      execute_store (codes "StoreLocal: bad local slot index") (codes "StoreLocal: stack underflow")
        (write_local sem operand) m m.stack
  execute_op program push_object_var operand argc m =
      push_read (codes "PushObjectVar: bad object variable slot index")
        (read_object_var sem base operand m.store) m
  execute_op program store_object_var operand argc m =
      execute_store (codes "StoreObjectVar: bad object variable slot index")
        (codes "StoreObjectVar: stack underflow") (write_object_var sem base operand) m m.stack
  execute_op program logical_not operand argc m = execute_not m m.stack
  execute_op program bit_not operand argc m = execute_bit_not m m.stack
  execute_op program jump operand argc m = jump_to program.code operand (codes "Jump: bad target") m
  execute_op program jump_if_false operand argc m =
      execute_jump_if_false program.code operand m m.stack
  execute_op program push_catch_frame operand argc m = execute_push_catch program.code operand m
  execute_op program pop_catch_frame operand argc m = execute_pop_catch m m.frames
  execute_op program make_array operand argc m = execute_array (pop_many argc m.stack []) m
  execute_op program invoke operand argc m =
      execute_call (codes "Call: bad function name index") (codes "Call: bad arg count for ") false
        (at_index (index_of operand) program.string_pool) argc m
  execute_op program call_efun operand argc m =
      execute_call (codes "CallEfun: bad efun name index") (codes "CallEfun: bad arg count for ")
        true (at_index (index_of operand) program.string_pool) argc m
  execute_op program pop operand argc m = proceed m (drop 1 m.stack)
  execute_op program dup operand argc m = execute_dup m m.stack
  execute_op program return operand argc m = execute_return m m.stack
  execute_op program halt operand argc m = returns sem.void m.store
  execute_op program binary_op operand argc m = execute_binary binary_op m m.stack

  -- `localStack.resize(depth)`.
  unfoldable pub resize : ℕ → List V → List V
  unfolding pad
  resize depth st = pad (depth - length st) sem.void (drop (length st - depth) st)

  -- What `catch()` gives for an exception that it holds up.
  unfoldable pub caught : Thrown V → Option V
  caught (lpc_error message) = some (sem.text message)
  caught (lpc_value v) = some v
  caught (uncatchable what) = none

  -- The handlers: the innermost frame takes the exception, or it leaves the function.
  unfoldable pub handle : Thrown V → Machine V W → List CatchFrame → Effect V W
  unfolding resize caught
  handle t m [] = raises t m
  handle t m (f ∷ fs) = elim (caught t) [
    | none ↦ raises t m
    | some v ↦ goes (record {
      ip = f.resume_ip;
      stack = v ∷ resize f.stack_depth m.stack;
      store = m.store;
      frames = fs;
    })
  ]

  -- The instruction at `ip`, or the end of the loop.
  unfoldable pub perform : CompiledProgram → Machine V W → Effect V W
  unfolding execute_op
  perform program m = elim (get_elem? m.ip program.code) [
    | none ↦ returns sem.void m.store
    | some i ↦ execute_op program i.op i.operand i.arg_count m
  ]

  unfoldable pub settle : Effect V W → Effect V W
  unfolding handle
  settle (goes m) = goes m
  settle (returns v s) = returns v s
  settle (raises t m) = handle t m m.frames

  -- One pass of the loop but for the count of the instructions.
  unfoldable pub advance : CompiledProgram → Machine V W → Effect V W
  unfolding perform settle
  advance program m = settle (perform program m)
