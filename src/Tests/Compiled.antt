-- ===== src/Tests/Compiled.antt =====
-- Expressions compiled and run, and the operators on small arrays and mappings.
use kjdmud.Base.{
  ℕ, suc, ◌+◌, ◌-◌, ◌*◌, ◌/◌, ◌%◌, ◌≡◌, refl, Bool, true, false, not, ◌&&◌, ◌||◌, List, [], ◌∷◌,
  Option, none, some, ltb, leb, pos, negsuc, arith,
}
use kjdmud.Core.Text.{Text, codes, text_eq}
use kjdmud.Core.Errors.{Result, ok, Ensures}
use kjdmud.Vm.Value.{
  Value, int, str, array, Items, no_items, item, Entries, no_entries, entry, absent, values_equal,
  is_truthy,
}
use kjdmud.Vm.Bytecode.{CompiledProgram, jump, get_elem?, set_elem}
use kjdmud.Vm.Store.{
  Outcome, thrown, lpc_error, Semantics, Store, read_local, write_local, at_index,
}
use kjdmud.Vm.Machine.{
  Machine, advance, settle, perform, execute_op, execute_dup, execute_binary, answer, execute_store,
  push_read, execute_return, execute_jump_if_false, jump_to, proceed, proceed_in, execute_call,
  execute_push_catch, pop_many, handle, caught, resize, pad,
}
use kjdmud.Vm.Machine.Run.{Finished, returned, run, count, is_exceeded}
use kjdmud.Vm.Machine.Cost.{run-Returns}
use kjdmud.Vm.Machine.Steady.{IsMetered}
use kjdmud.Vm.Machine.Metered.{Counts, counters, Spending, metered}
use kjdmud.Vm.Operators.{
  Doubles, is_member, items_in, items_or, operate, add_values, add_others, as_arithmetic_operand,
  format_number_for_concat, number_of,
}
use kjdmud.Vm.Operators.Mappings.{join_entries}
use kjdmud.Vm.Operators.Laws.{array_operators-is_member, find_value, find_value-join_entries}
use kjdmud.Vm.Activation.{World, lpc, coerce_if_destructed, bind_locals, bind_locals-get}
use kjdmud.Compiler.Ast.{
  Expr, int_literal, var_ref, binary, plus, or_else, ternary, call, catch, assign, no_exprs, expr,
}
use kjdmud.Compiler.CodeGen.{
  Tables, emit_expr, emit_exprs, emit_return, or_start, or_test, emit, emit_jump_placeholder,
  patch_jump_to_here, set_operand, emit_pooled, intern_string, pool_index, emit_push_var,
  emit_store_var, int32, resolve_variable, find, opcode_or, binary_op,
}
use kjdmud.Compiler.CodeGen.Scoped.{is_ok, is_declared, is_ok-emit_expr}
use kjdmud.Compiler.Eval.{eval}
use kjdmud.Compiler.Simulation.{machine}
use kjdmud.Compiler.Segments.{Segment}
use kjdmud.Compiler.Correct.{emit_expr-Segment}
use kjdmud.Compiler.Return.{Ends, finish, no_code, emit_return-Ends}

-- Doubles that count, for the small numbers here.
abbrev counting : Doubles
counting = record {
  of_int = λ i. elim i [ pos n ↦ n | negsuc n ↦ 0 ];
  truncated = pos;
  plus = ◌+◌;
  minus = ◌-◌;
  times = ◌*◌;
  divided = ◌/◌;
  fmod = ◌%◌;
  less = ltb;
  less_eq = leb;
  fixed = λ d. codes "1.000000";
  shift_left = λ a b. a;
  shift_right = λ a b. a;
}

-- Each call throws.
abbrev throwing : Bool → Text → List Value → World → World × Outcome Value Value
throwing is_efun name args w = (w, thrown (lpc_error (codes "no such function")))

abbrev driver : Semantics Value World
driver = lpc counting throwing

abbrev names : Tables
names = record { locals = (codes "x", 0) ∷ (codes "y", 1) ∷ []; object_vars = [] }

-- `x = 0 || y ? y + 3 : catch(f(1))`.
abbrev sample : Expr
sample = assign (codes "x") none (
    ternary (binary or_else (int_literal (pos 0)) (var_ref (codes "y")))
      (binary plus (var_ref (codes "y")) (int_literal (pos 3)))
      (catch (call false (codes "f") (expr (int_literal (pos 1)) no_exprs))))

abbrev start : Store Value World
start = record {
  locals = int (pos 0) ∷ int (pos 4) ∷ [];
  world = record { heap = λ a. none; variables = [] };
}

emit_expr-Segment_example :
    Ensures
      (λ out'.
        (st : List Value)
        → Segment driver 0 no_code out' st (λ v. v ∷ st) st (eval driver 0 names sample))
      (emit_expr names sample no_code)
emit_expr-Segment_example = emit_expr-Segment driver 0 names sample no_code

is_ok-emit_expr_example : is_ok (emit_expr names sample no_code) ≡ true
unfolding is_declared
is_ok-emit_expr_example = is_ok-emit_expr names sample no_code

-- A call sets the count to 0, as `set_eval_limit(0)` does.
abbrev taking_back : Spending Value World
taking_back is_efun name args w = record w.1 { cost = 0 }

emit_return-Ends_example :
    Ensures
      (λ program.
        (place : Text) (spent : Spending Value World) (s : Store Value World)
        → (n : ℕ) × Ends driver spent 0 program place
            (finish driver 0 place (eval driver 0 names sample s))
            (machine 0 [] s [])
            n)
      (emit_return names sample no_code)
emit_return-Ends_example = emit_return-Ends driver 0 names sample

-- Runs of the emitted code below a limit of 40, and what the evaluator gives.
abbrev counting_from : ℕ → Machine Value (World × Counts)
counting_from n = record {
  ip = 0;
  stack = [];
  store = record {
    locals = start.locals;
    world = (start.world, record { cost = n; limit = pos 40 });
  };
  frames = [];
}

abbrev outcome : ℕ → Result CompiledProgram → Option (Finished Value (World × Counts))
outcome n (ok program) =
    run (metered driver taking_back) counters 0 program (codes "/a::f(): ") 41 (counting_from n)
outcome n _ = none

abbrev ended_at : ℕ → List Value → Store Value (World × Counts)
ended_at n locals = record {
  locals = locals;
  world = (start.world, record { cost = n; limit = pos 40 });
}

run_sample :
    outcome 0 (emit_return names sample no_code)
    ≡ some (returned (int (pos 7)) (ended_at 13 (int (pos 7) ∷ int (pos 4) ∷ [])))
unfolding emit_return emit_expr or_start or_test emit emit_jump_placeholder patch_jump_to_here
    set_operand emit_pooled intern_string pool_index emit_push_var emit_store_var int32
    resolve_variable find opcode_or binary_op run count is_exceeded advance settle perform
    execute_op read_local write_local at_index get_elem? set_elem coerce_if_destructed is_truthy
    operate add_values add_others as_arithmetic_operand format_number_for_concat number_of text_eq
    execute_dup execute_binary answer execute_store push_read execute_return execute_jump_if_false
    jump_to proceed proceed_in
run_sample = refl

-- `catch(f(1))`: the call throws, and the message is the value.
run_catch :
    outcome 30 (
      emit_return names
        (catch (call false (codes "f") (expr (int_literal (pos 1)) no_exprs)))
        no_code)
    ≡ some (returned (str (codes "no such function")) (ended_at 1 start.locals))
unfolding emit_return emit_expr emit_exprs emit emit_jump_placeholder patch_jump_to_here set_operand
    emit_pooled intern_string pool_index int32 run count is_exceeded advance settle perform
    execute_op at_index get_elem? execute_call execute_push_catch pop_many answer handle caught
    resize pad execute_return proceed proceed_in
run_catch = refl

-- `while (1);`, in a driver whose calls change nothing of the counters.
abbrev endless : CompiledProgram
endless = record {
  code = record { op = jump; operand = pos 0; arg_count = 0 } ∷ [];
  string_pool = [];
}

abbrev keeping : Spending Value World
keeping is_efun name args w = w.1

keeping-IsMetered : IsMetered (metered driver keeping) counters
keeping-IsMetered = record {
  cost-set = λ n w. refl;
  limit-set = λ n w. refl;
  operate_spends = λ op l r w. (omega arith, omega arith);
  array_spends = λ vs w. (omega arith, omega arith);
  variables_spend = λ vs w. (omega arith, omega arith);
  call_spends = λ is_efun name vs w. (omega arith, omega arith);
}

run-Returns_example :
    (r : Finished Value (World × Counts)) × (run
        (metered driver keeping)
        counters
        0
        endless
        []
        (suc 40)
        (counting_from 0)
      ≡ some r)
run-Returns_example =
    run-Returns (metered driver keeping) counters keeping-IsMetered 0 endless [] 40
      (counting_from 0) (omega arith)

abbrev ones : Items
ones = item (int (pos 1)) (item (int (pos 2)) no_items)

abbrev twos : Items
twos = item (int (pos 2)) (item (int (pos 3)) no_items)

array_operators-is_member_example :
    (is_member (int (pos 2)) (items_in false ones twos)
      ≡ (is_member (int (pos 2)) ones && not (is_member (int (pos 2)) twos)))
    × (is_member (int (pos 2)) (items_in true ones twos)
        ≡ (is_member (int (pos 2)) ones && is_member (int (pos 2)) twos))
    × (is_member (int (pos 2)) (items_or ones twos)
        ≡ (is_member (int (pos 2)) ones || is_member (int (pos 2)) twos))
array_operators-is_member_example = array_operators-is_member (int (pos 2)) ones twos

abbrev left_map : Entries
left_map = entry (str (codes "a")) (int (pos 1)) absent no_entries

abbrev right_map : Entries
right_map = entry (str (codes "a")) (int (pos 2)) absent no_entries

find_value-join_entries_example :
    find_value (str (codes "a")) (join_entries 1 true left_map right_map) ≡ some (int (pos 2))
unfolding values_equal
find_value-join_entries_example =
    find_value-join_entries 1 true (str (codes "a")) left_map right_map

bind_locals-get_example :
    get_elem? 1 (bind_locals (int (pos 0)) 3 2 true (int (pos 7) ∷ int (pos 8) ∷ int (pos 9) ∷ []))
    ≡ some (array (item (int (pos 8)) (item (int (pos 9)) no_items)))
bind_locals-get_example =
    bind_locals-get (int (pos 0)) 3 2 1 true (int (pos 7) ∷ int (pos 8) ∷ int (pos 9) ∷ [])
      (omega arith)
