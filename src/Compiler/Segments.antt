-- ===== src/Compiler/Segments.antt =====
-- Emitted code that brings an answer about, piece by piece.
pub mod Straight
pub mod Patched
pub mod Jumps
pub mod Or
pub mod Variables
pub mod Ternary
pub mod Catch
use kjdmud.Base.{ℕ, suc, ◌≤◌, ◌≡◌, refl, sym, ap, subst, List, [], ◌∷◌, length, ℤ, pos, arith}
use kjdmud.Vm.Bytecode.{OpCode, CompiledProgram, get_elem?}
use kjdmud.Vm.Store.{Outcome, value, Semantics, Store}
use kjdmud.Vm.Machine.{CatchFrame}
use kjdmud.Compiler.CodeGen.{emit}
use kjdmud.Compiler.CodeGen.Growth.{
  Keeps, Keeps-refl, Keeps-trans, Agrees, Agrees-Keeps, emit-Keeps, length-emit, get_elem?-emit,
}
use kjdmud.Compiler.Eval.{Answer, bind}
use kjdmud.Compiler.Simulation.{
  At, machine, Reaches, Arrives, lands, Arrives-bind, Arrives-under, Arrives-Reaches, Arrives-value,
  Arrives-map,
}

module _ {V W : Type 0} (sem : Semantics V W) (base : ℕ) where
  -- In each program that has the code of `o2` from the end of `o1` on, that code brings the answer of
  -- `f` about from the stack `start`, and keeps the stack `st` if something is thrown.
  pub record Segment {A : Type 0} (o1 o2 : CompiledProgram) (start : List V) (land : A → List V)
      (st : List V) (f : Store V W → Answer V W A) : Type 0 where
    pub grows : Keeps o1 o2
    pub runs :
        (program : CompiledProgram)
        → Agrees (length o1.code) o2 program
        → (s : Store V W) (fs : List CatchFrame)
        → Arrives sem base program
            (machine (length o1.code) start s fs)
            (length o2.code)
            land
            st
            fs
            (f s)

  -- No code at all.
  pub Segment-none :
      {A : Type 0} (o : CompiledProgram) {land : A → List V} (st : List V) (a : A)
      → Segment o o (land a) land st (λ s. (s, value a))
  Segment-none o st a = record { grows = Keeps-refl o; runs = λ program h s fs. lands Reaches.here }

  pub Segment-bind :
      {A B : Type 0} {o1 o2 o3 : CompiledProgram} {start st : List V} {land : A → List V}
      {land' : B → List V} {f : Store V W → Answer V W A} {k : A → Store V W → Answer V W B}
      → Keeps o2 o3
      → Segment o1 o2 start land st f
      → ((a : A)
          → (s s' : Store V W) × (f s ≡ (s', value a))
          → Segment o2 o3 (land a) land' st (k a))
      → Segment o1 o3 start land' st (λ s. bind (f s) k)
  Segment-bind {o1} {o2} {o3} g h k = record {
    grows = Keeps-trans h.grows g;
    runs = λ program a s fs.
        Arrives-bind sem base program (h.runs program (Agrees-Keeps a g (omega arith)) s fs)
          (λ x s' e.
            (k x (s, s', e)).runs program (Agrees-Keeps a (Keeps-refl o3) h.grows.longer) s' fs);
  }

  -- Code that only puts a value there, and then more.
  pub Segment-step :
      {A B : Type 0} {o1 o2 o3 : CompiledProgram} {start st : List V} {land : A → List V}
      {land' : B → List V} {a : A} {k : Store V W → Answer V W B}
      → Keeps o2 o3
      → Segment o1 o2 start land st (λ s. (s, value a))
      → Segment o2 o3 (land a) land' st k
      → Segment o1 o3 start land' st k
  Segment-step {o1} {o2} {o3} g h k = record {
    grows = Keeps-trans h.grows g;
    runs = λ program a s fs.
        Arrives-Reaches sem base program
          (Arrives-value sem base program (h.runs program (Agrees-Keeps a g (omega arith)) s fs))
          (k.runs program (Agrees-Keeps a (Keeps-refl o3) h.grows.longer) s fs);
  }

  pub Segment-map :
      {A B : Type 0} {o1 o2 : CompiledProgram} {start st : List V} {land : B → List V}
      {f : Store V W → Answer V W A} (h : A → B)
      → Segment o1 o2 start (λ a. land (h a)) st f
      → Segment o1 o2 start land st (λ s. bind (f s) λ a s1. (s1, value (h a)))
  Segment-map h k = record {
    grows = k.grows;
    runs = λ program a s fs. Arrives-map sem base program h (k.runs program a s fs);
  }

  pub Segment-under :
      {A : Type 0} {o1 o2 : CompiledProgram} {start : List V} {land : A → List V} {v : V}
      {st : List V} {f : Store V W → Answer V W A}
      → Segment o1 o2 start land (v ∷ st) f
      → Segment o1 o2 start land st f
  Segment-under h = record {
    grows = h.grows;
    runs = λ program a s fs. Arrives-under sem base program (h.runs program a s fs);
  }

  -- One instruction.
  pub Segment-emit :
      {A : Type 0} (op : OpCode) (operand : ℤ) (argc : ℕ) (o : CompiledProgram) {start : List V}
      {land : A → List V} {st : List V} {f : Store V W → Answer V W A}
      → ((program : CompiledProgram) (s : Store V W) (fs : List CatchFrame)
          → At program (length o.code) op operand argc
          → Arrives sem base program
              (machine (length o.code) start s fs)
              (suc (length o.code))
              land
              st
              fs
              (f s))
      → Segment o (emit op operand argc o) start land st f
  Segment-emit op operand argc o {start} {land} {st} {f} h = record {
    grows = emit-Keeps op operand argc o;
    runs = λ program a s fs.
        subst
          (λ n. Arrives sem base program (machine (length o.code) start s fs) n land st fs (f s))
          (sym (length-emit op operand argc o))
          (h program s fs (a.has_code _ _ (omega arith) (get_elem?-emit op operand argc o)));
  }
