-- ===== src/Compiler/Segments/Patched.antt =====
-- A jump that was emitted before its target was known, once it is patched.
use kjdmud.Base.{
  ℕ, suc, ◌≤◌, ◌≡◌, ◌≢◌, refl, subst, Bool, true, false, List, length, ℤ, pos, negsuc, arith,
  if◌then◌else◌,
}
use kjdmud.Vm.Bytecode.{OpCode, CompiledProgram}
use kjdmud.Vm.Store.{Semantics, Store}
use kjdmud.Vm.Machine.{Machine, CatchFrame}
use kjdmud.Compiler.CodeGen.{emit_jump_placeholder, patch_jump_to_here}
use kjdmud.Compiler.CodeGen.Growth.{
  Keeps, Keeps-trans, Agrees, emit-Keeps, Keeps-patch, length-emit, get_elem?-emit, get_elem?-patch,
  get_elem?-patch_other,
}
use kjdmud.Compiler.Eval.{Answer}
use kjdmud.Compiler.Simulation.{At, machine, Reaches, Arrives}

-- Facts about the code that is not patched yet hold later.
pub At-Keeps :
    {a b : CompiledProgram} (i : ℕ) {op : OpCode} {operand : ℤ} {argc : ℕ}
    → Keeps a b
    → At a i op operand argc
    → At b i op operand argc
At-Keeps i k h = k.same_code i _ h

pub At-index :
    (p : CompiledProgram) {i j : ℕ} {op : OpCode} {operand : ℤ} {argc : ℕ}
    → i ≡ j
    → At p i op operand argc
    → At p j op operand argc
At-index p {op} {operand} {argc} e h = subst (λ k. At p k op operand argc) e h

pub At-Agrees :
    {b : ℕ} {out program : CompiledProgram} {op : OpCode} {operand : ℤ} {argc : ℕ} (i : ℕ)
    → Agrees b out program
    → b ≤ i
    → At out i op operand argc
    → At program i op operand argc
At-Agrees i a l h = a.has_code i _ l h

pub At-patch_other :
    (out : CompiledProgram) (index i : ℕ) {op : OpCode} {operand : ℤ} {argc : ℕ}
    → At out i op operand argc
    → i ≢ index
    → At (patch_jump_to_here index out) i op operand argc
At-patch_other out index i h n = get_elem?-patch_other out index i _ h n

pub placeholder-emitted :
    (op : OpCode) (o : CompiledProgram)
    → At (emit_jump_placeholder op o) (length o.code) op (negsuc 0) 0
unfolding emit_jump_placeholder
placeholder-emitted op o = get_elem?-emit op (negsuc 0) 0 o

-- A placeholder that is still there, when it is patched.
pub At-patch :
    (out : CompiledProgram) (index : ℕ) {op : OpCode} {operand : ℤ} {argc : ℕ}
    → At out index op operand argc
    → At (patch_jump_to_here index out) index op (pos (length out.code)) argc
At-patch out index h = get_elem?-patch out index _ h

-- A placeholder, for the code that stands when it is patched.
pub placeholder-At :
    (op : OpCode) (o out : CompiledProgram)
    → Keeps (emit_jump_placeholder op o) out
    → At (patch_jump_to_here (length o.code) out) (length o.code) op (pos (length out.code)) 0
unfolding emit_jump_placeholder
placeholder-At op o out k = At-patch out _ (At-Keeps _ k (placeholder-emitted op o))

pub placeholder-Keeps : (op : OpCode) (o : CompiledProgram) → Keeps o (emit_jump_placeholder op o)
unfolding emit_jump_placeholder
placeholder-Keeps op o = emit-Keeps op (negsuc 0) 0 o

pub length-placeholder :
    (op : OpCode) (o : CompiledProgram)
    → length (emit_jump_placeholder op o).code ≡ suc (length o.code)
unfolding emit_jump_placeholder
length-placeholder op o = length-emit op (negsuc 0) 0 o

pub patched-Keeps :
    (op : OpCode) (o out : CompiledProgram)
    → Keeps (emit_jump_placeholder op o) out
    → Keeps o (patch_jump_to_here (length o.code) out)
patched-Keeps op o out k =
    Keeps-patch (length o.code) (Keeps-trans (placeholder-Keeps op o) k) (omega arith)

module _ {V W : Type 0} (sem : Semantics V W) (base : ℕ) (program : CompiledProgram) where
  pub Reaches-index :
      {m : Machine V W} {i j : ℕ} {st : List V} {s : Store V W} {fs : List CatchFrame}
      → i ≡ j
      → Reaches sem base program m (machine i st s fs)
      → Reaches sem base program m (machine j st s fs)
  Reaches-index {m} {st} {s} {fs} e h =
      subst (λ k. Reaches sem base program m (machine k st s fs)) e h

  pub Arrives-index :
      {A : Type 0} {m : Machine V W} {i j : ℕ} {land : A → List V} {st : List V}
      {fs : List CatchFrame} {r : Answer V W A}
      → i ≡ j
      → Arrives sem base program m i land st fs r
      → Arrives sem base program m j land st fs r
  Arrives-index {m} {land} {st} {fs} {r} e h =
      subst (λ k. Arrives sem base program m k land st fs r) e h

  pub Arrives-if :
      {A : Type 0} {m : Machine V W} {i : ℕ} {land : A → List V} {st : List V}
      {fs : List CatchFrame} {r q : Answer V W A} (b : Bool)
      → (b ≡ true → Arrives sem base program m i land st fs r)
      → (b ≡ false → Arrives sem base program m i land st fs q)
      → Arrives sem base program m i land st fs (if b then r else q)
  Arrives-if true h k = h refl
  Arrives-if false h k = k refl
