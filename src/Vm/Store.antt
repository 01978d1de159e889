-- ===== src/Vm/Store.antt =====
-- src/vm/VM.cpp: what an activation of `VM::run` reads and writes besides its stack, and what the
-- opcodes ask of the values and of the rest of the driver.
use kjdmud.Base.{
  ℕ, suc, ◌+◌, ◌-◌, Bool, List, Option, none, some, ltb, if◌then◌else◌, ℤ, pos, negsuc,
}
use kjdmud.Core.Text.{Text}
use kjdmud.Vm.Bytecode.{OpCode, get_elem?, set_elem, index_of}

-- What is thrown: an `LpcRuntimeError` with its message, an `LpcThrownValue` with its value, and any
-- other exception (`EvalCostError`, `NotImplementedError`, ...), which `catch()` does not hold up.
pub data Thrown (V : Type 0) : Type 0 where
  lpc_error : Text → Thrown V
  lpc_value : V → Thrown V
  uncatchable : Text → Thrown V

pub data Outcome (V A : Type 0) : Type 0 where
  value : A → Outcome V A
  thrown : Thrown V → Outcome V A

-- The values, and the driver outside the activation: `operate` is a binary opcode, `coerce` is
-- `coerceIfDestructed`, `variables` are those of the object whose function runs, and `call` is what a
-- call of a function (the flag is set for an efun) does.
pub record Semantics (V W : Type 0) : Type 0 where
  pub void : V
  pub nil : V
  pub number : ℤ → V
  pub text : Text → V
  pub symbol : Text → V
  pub is_truthy : V → Bool
  pub coerce : W → V → V
  pub operate : OpCode → V → V → W → W × Outcome V V
  pub complement : V → Outcome V V
  pub new_array : List V → W → W × V
  pub variables : W → List V
  pub set_variables : List V → W → W
  pub call : Bool → Text → List V → W → W × Outcome V V

-- `locals`, and the driver outside the activation.
pub record Store (V W : Type 0) : Type 0 where
  pub locals : List V
  pub world : W

-- `objectVarBase + operand` as an index.
unfoldable pub slot_index : ℕ → ℤ → Option ℕ
slot_index base (pos n) = some (base + n)
slot_index base (negsuc n) = if ltb n base then some (base - suc n) else none

-- The element that an index leads to, if there is one.
unfoldable pub at_index {ℓ} : {A : Type ℓ} → Option ℕ → List A → Option (ℕ × A)
unfolding get_elem?
at_index none xs = none
at_index (some i) xs = elim (get_elem? i xs) [ none ↦ none | some x ↦ some (i, x) ]

module _ {V W : Type 0} (sem : Semantics V W) where
  -- The value of a slot, which a destructed object in it turns into 0 there as well.
  unfoldable pub read_local : ℤ → Store V W → Option (V × Store V W)
  unfolding at_index
  read_local operand s = elim (at_index (index_of operand) s.locals) [
    | none ↦ none
    | some (i, v) ↦
        some
          (sem.coerce s.world v, record s { locals = set_elem i (sem.coerce s.world v) s.locals })
  ]

  unfoldable pub write_local : ℤ → V → Store V W → Option (Store V W)
  unfolding at_index
  write_local operand v s = elim (at_index (index_of operand) s.locals) [
    | none ↦ none
    | some (i, old) ↦ some (record s { locals = set_elem i v s.locals })
  ]

  unfoldable pub read_object_var : ℕ → ℤ → Store V W → Option (V × Store V W)
  unfolding at_index slot_index
  read_object_var base operand s =
      elim (at_index (slot_index base operand) (sem.variables s.world)) [
        | none ↦ none
        | some (i, v) ↦ some (
          sem.coerce s.world v,
          record s {
            world =
                sem.set_variables (set_elem i (sem.coerce s.world v) (sem.variables s.world))
                  s.world;
          },
        )
      ]

  unfoldable pub write_object_var : ℕ → ℤ → V → Store V W → Option (Store V W)
  unfolding at_index slot_index
  write_object_var base operand v s =
      elim (at_index (slot_index base operand) (sem.variables s.world)) [
        | none ↦ none
        | some (i, old) ↦
            some (record s {
              world = sem.set_variables (set_elem i v (sem.variables s.world)) s.world;
            })
      ]
