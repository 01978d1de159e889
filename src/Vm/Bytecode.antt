-- ===== src/Vm/Bytecode.antt =====
-- include/kjdmud/vm/Bytecode.hpp: instructions and programs, for the opcodes of the expressions that
-- are modelled and for `return`.
use kjdmud.Base.{ℕ, zero, suc, List, [], ◌∷◌, Option, none, some, ℤ, pos, negsuc}
use kjdmud.Core.Text.{Text}

pub data OpCode : Type 0 where
  push_const push_int push_nil push_symbol : OpCode
  push_local store_local push_object_var store_object_var : OpCode
  eq neq lt lte gt gte add sub mul div modulo bit_and bit_or bit_xor shl shr : OpCode
  logical_not bit_not jump jump_if_false push_catch_frame pop_catch_frame : OpCode
  make_array invoke call_efun pop dup return halt : OpCode

pub record Instruction : Type 0 where
  pub op : OpCode
  pub operand : ℤ
  pub arg_count : ℕ

-- `code` and `stringPool` of a `CompiledProgram`.
pub record CompiledProgram : Type 0 where
  pub code : List Instruction
  pub string_pool : List Text

-- The element at an index, and the sequence with another element there.
unfoldable pub get_elem? {ℓ} : {A : Type ℓ} → ℕ → List A → Option A
get_elem? n [] = none
get_elem? zero (x ∷ xs) = some x
get_elem? (suc n) (x ∷ xs) = get_elem? n xs

unfoldable pub set_elem {ℓ} : {A : Type ℓ} → ℕ → A → List A → List A
set_elem n y [] = []
set_elem zero y (x ∷ xs) = y ∷ xs
set_elem (suc n) y (x ∷ xs) = x ∷ set_elem n y xs

-- An operand as an index: a negative one is none.
abbrev pub index_of : ℤ → Option ℕ
index_of (pos n) = some n
index_of (negsuc n) = none
