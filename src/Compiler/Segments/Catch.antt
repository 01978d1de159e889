-- ===== src/Compiler/Segments/Catch.antt =====
-- The code of `catch(...)`: an exception cuts the stack back to what it was at the frame.
use kjdmud.Base.{
  ℕ, ◌-◌, ◌≡◌, refl, sym, ap, ◌∙◌, subst, List, [], ◌∷◌, ◌++◌, append_assoc, length, length-append,
  drop-append, none, some, Option-cases, inl, inr, pos, arith,
}
use kjdmud.Vm.Bytecode.{CompiledProgram, push_catch_frame, pop_catch_frame, pop}
use kjdmud.Vm.Store.{Thrown, thrown, Semantics, Store}
use kjdmud.Vm.Machine.{
  Machine, CatchFrame, goes, raises, advance, perform, settle, handle, caught, resize, pad,
}
use kjdmud.Compiler.CodeGen.{emit, emit_jump_placeholder, patch_jump_to_here}
use kjdmud.Compiler.CodeGen.Growth.{
  Keeps-trans, Agrees, Agrees-Keeps, Agrees-patch, emit-Keeps, length-emit, length-patch,
  get_elem?-emit,
}
use kjdmud.Compiler.Eval.{Answer, guard}
use kjdmud.Compiler.Simulation.{
  machine, Reaches, Reaches-trans, Raises, Arrives, lands, breaks, Arrives-Reaches,
}
use kjdmud.Compiler.Simulation.Jumps.{push_catch-Reaches, pop_catch-Reaches}
use kjdmud.Compiler.Simulation.Slots.{pop-Reaches}
use kjdmud.Compiler.Segments.{Segment}
use kjdmud.Compiler.Segments.Patched.{
  At-Keeps, At-Agrees, placeholder-At, length-placeholder, patched-Keeps, Reaches-index,
  Arrives-index,
}

module _ {V W : Type 0} (sem : Semantics V W) (base : ℕ) where
  -- The values above the depth of the frame are cut off.
  resize-append : (junk st : List V) → resize sem base (length st) (junk ++ st) ≡ st
  unfolding resize pad
  resize-append junk st =
      let none_missing : length st - length (junk ++ st) ≡ 0 = omega (arith, length-append junk) in
      let e : length (junk ++ st) - length st ≡ length junk = omega (arith, length-append junk) in
      rw (e, none_missing, resize, pad) (drop-append junk st)

  handled :
      (t : Thrown V) (v : V) (ip j : ℕ) (junk st : List V) (s : Store V W)
      (extra fs : List CatchFrame)
      → extra ≡ []
      → caught sem base t ≡ some v
      → settle sem base (
          raises t (
            machine ip
              (junk ++ st)
              s
              (extra ++ (record { resume_ip = j; stack_depth = length st } ∷ fs))))
        ≡ goes (machine j (v ∷ st) s fs)
  unfolding settle handle
  handled t v ip j junk st s [] fs e c = rw (c, resize-append, settle, handle) refl
  handled t v ip j junk st s (f ∷ extra) fs e c = cc

  module _ (program : CompiledProgram) {m : Machine V W} {t : Thrown V} {s : Store V W}
      {st : List V} {fs : List CatchFrame} (j : ℕ)
      (h : Raises sem base program m t s st
        (record { resume_ip = j; stack_depth = length st } ∷ fs)) where
    abbrev frame : CatchFrame
    frame = record { resume_ip = j; stack_depth = length st }

    Raises-caught :
        (v : V) → caught sem base t ≡ some v → Reaches sem base program m (machine j (v ∷ st) s fs)
    unfolding advance
    Raises-caught v c =
        let e : h.extra ≡ [] = elim h.passes [ inl e ↦ e | inr n ↦ cc ] in
        Reaches.further h.comes
          (ap (settle sem base) h.throws ∙ handled t v h.ip j h.junk st s h.extra fs e c)

    Raises-passed : caught sem base t ≡ none → Raises sem base program m t s st fs
    Raises-passed n = record {
      before = h.before;
      ip = h.ip;
      junk = h.junk;
      extra = h.extra ++ (frame ∷ []);
      passes = inr n;
      comes = h.comes;
      throws =
          subst
            (λ frames.
              perform sem base program h.before ≡ raises t (machine h.ip (h.junk ++ st) s frames))
            (sym (append_assoc h.extra (frame ∷ []) fs)) h.throws;
    }

    -- The handler, after the guarded code threw.
    Raises-guard : Arrives sem base program m j (λ v. v ∷ st) st fs (guard sem base (s, thrown t))
    unfolding guard
    Raises-guard = elim (Option-cases (caught sem base t)) [
      | inl e ↦ rw (e, guard) (breaks (Raises-passed e))
      | inr (v, e) ↦ rw (e, guard) (lands (Raises-caught v e))
    ]

  -- The guarded code is followed by the removal of its value and of the frame.
  Arrives-guard :
      (program : CompiledProgram) {m : Machine V W} {i j : ℕ} {st : List V} {fs : List CatchFrame}
      {r : Answer V W V}
      → Arrives sem base program m i
          (λ v. v ∷ st)
          st
          (record { resume_ip = j; stack_depth = length st } ∷ fs)
          r
      → ((v : V) (s : Store V W)
          → Reaches sem base program
              (machine i (v ∷ st) s (record { resume_ip = j; stack_depth = length st } ∷ fs))
              (machine j (sem.number (pos 0) ∷ st) s fs))
      → Arrives sem base program m j (λ v. v ∷ st) st fs (guard sem base r)
  unfolding guard
  Arrives-guard program (lands {s} {a} h) k = lands (Reaches-trans sem base program h (k a s))
  Arrives-guard program {j} (breaks h) k = Raises-guard program j h

  -- `catch(e)`, whose guarded expression ends with `o1`.
  pub catch-Segment :
      (out o1 : CompiledProgram) (st : List V) (f : Store V W → Answer V W V)
      → Segment sem base (emit_jump_placeholder push_catch_frame out) o1 st (λ v. v ∷ st) st f
      → Segment sem base out
          (patch_jump_to_here
            (length out.code)
            (emit pop_catch_frame (pos 0) 0 (emit pop (pos 0) 0 o1)))
          st
          (λ v. v ∷ st)
          st
          (λ s. guard sem base (f s))
  catch-Segment out o1 st f h =
      let o2 : CompiledProgram = emit pop (pos 0) 0 o1 in
      let o3 : CompiledProgram = emit pop_catch_frame (pos 0) 0 o2 in
      let g = h.grows in
      let g3 =
        Keeps-trans (emit-Keeps pop (pos 0) 0 o1) (emit-Keeps pop_catch_frame (pos 0) 0 o2) in
      let first = length-placeholder push_catch_frame out in
      let end = length-patch (length out.code) o3 in
      let size = length-emit pop (pos 0) 0 o1 in
      let size3 = length-emit pop_catch_frame (pos 0) 0 o2 in
      record {
        grows = patched-Keeps push_catch_frame out o3 (Keeps-trans g g3);
        runs = λ program a s fs.
            let rest : Agrees (length (emit_jump_placeholder push_catch_frame out).code) o3
                program =
              Agrees-patch a (omega arith) (omega (arith, first)) in
            let guarded : Agrees (length (emit_jump_placeholder push_catch_frame out).code) o1
                program =
              Agrees-Keeps rest g3 (omega arith) in
            let start =
              At-Agrees _ a (omega arith)
                (placeholder-At push_catch_frame out o3 (Keeps-trans g g3)) in
            let discard = At-Agrees _ rest g.longer (
              At-Keeps _ (emit-Keeps pop_catch_frame (pos 0) 0 o2)
                (get_elem?-emit pop (pos 0) 0 o1)) in
            let leave =
              At-Agrees _ rest (omega (arith, g.longer, size))
                (get_elem?-emit pop_catch_frame (pos 0) 0 o2) in
            Arrives-index sem base program (sym end) (
              Arrives-Reaches sem base program
                (Reaches-index sem base program (sym first) (
                  push_catch-Reaches sem base program _ st s fs _ start
                    (omega (arith, end, a.long))))
                (Arrives-guard program (h.runs program guarded s _) λ v s1.
                  Reaches-trans sem base program
                    (Reaches-index sem base program (sym size)
                      (pop-Reaches sem base program _ st s1 _ v discard))
                    (Reaches-index sem base program (sym size3)
                      (pop_catch-Reaches sem base program _ st s1 fs _ leave))));
      }
