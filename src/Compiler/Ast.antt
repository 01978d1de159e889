-- ===== src/Compiler/Ast.antt =====
-- include/kjdmud/compiler/Ast.hpp: the expressions. Left out: floats, calls through `->` and of
-- inherited functions, sscanf, closures, indexing, mappings, classes, time_expression and spreads.
use kjdmud.Base.{ℕ, suc, Bool, Option, ℤ}
use kjdmud.Core.Text.{Text}

pub data BinOp : Type 0 where
  is_eq is_neq is_lt is_lte is_gt is_gte plus or_else and_then minus times divided remainder : BinOp
  and_bits or_bits xor_bits shift_left shift_right : BinOp

pub data UnaryOp : Type 0 where
  not_op neg_op bit_not_op : UnaryOp

pub data IncDecOp : Type 0 where
  inc dec : IncDecOp

-- A call is to an efun if its flag `forceEfun` is set. An assignment has the operator that it
-- combines with, if it has one. `++` and `--` stand in front of the name if `prefix` is set.
mutual
  pub data Expr : Type 0 where
    string_literal : Text → Expr
    int_literal : ℤ → Expr
    nil_literal : Expr
    symbol_literal : Text → Expr
    var_ref : Text → Expr
    binary : BinOp → Expr → Expr → Expr
    comma : Expr → Expr → Expr
    unary : UnaryOp → Expr → Expr
    ternary : Expr → Expr → Expr → Expr
    call : Bool → Text → Exprs → Expr
    catch : Expr → Expr
    assign : Text → Option BinOp → Expr → Expr
    inc_dec : IncDecOp → Bool → Text → Expr
    array_literal : Exprs → Expr
    type_cast : Expr → Expr

  pub data Exprs : Type 0 where
    no_exprs : Exprs
    expr : Expr → Exprs → Exprs

abbrev pub size : Exprs → ℕ
size no_exprs = 0
size (expr e es) = suc (size es)
