-- ===== src/Compiler/Segments/Or.antt =====
-- The code of `||`.
use kjdmud.Base.{ℕ, suc, ◌≡◌, sym, List, ◌∷◌, length, pos, arith, if◌then◌else◌}
use kjdmud.Vm.Bytecode.{CompiledProgram, dup, pop, jump, jump_if_false}
use kjdmud.Vm.Store.{value, Semantics, Store}
use kjdmud.Compiler.CodeGen.{emit, emit_jump_placeholder, patch_jump_to_here, or_test, or_start}
use kjdmud.Compiler.CodeGen.Growth.{
  Keeps, Keeps-trans, Agrees-Keeps, Agrees-patch, emit-Keeps, Keeps-patch, length-emit,
  length-patch, get_elem?-emit,
}
use kjdmud.Compiler.Eval.{Answer, bind}
use kjdmud.Compiler.Simulation.{At, Reaches-trans, lands, Arrives-bind, Arrives-Reaches}
use kjdmud.Compiler.Simulation.Jumps.{jump-Reaches, jump_if_false-passes, jump_if_false-jumps}
use kjdmud.Compiler.Simulation.Slots.{dup-Reaches, pop-Reaches}
use kjdmud.Compiler.Segments.{Segment}
use kjdmud.Compiler.Segments.Jumps.{length-or_test}
use kjdmud.Compiler.Segments.Patched.{
  At-Keeps, At-index, At-Agrees, At-patch, At-patch_other, placeholder-At, placeholder-emitted,
  placeholder-Keeps, length-placeholder, patched-Keeps, Reaches-index, Arrives-index, Arrives-if,
}

-- What a program has of the code for `l || r`, whose left operand ends with `o1` and whose right one
-- ends with `o2`.
module _ (o1 o2 : CompiledProgram) (k : Keeps (or_start o1) o2) where
  abbrev copied : CompiledProgram
  copied = emit dup (pos 0) 0 o1

  abbrev both : CompiledProgram
  both = emit_jump_placeholder jump (or_test o1)

  abbrev or_jumps : CompiledProgram
  or_jumps = patch_jump_to_here (length copied.code) both

  abbrev or_end : CompiledProgram
  or_end = patch_jump_to_here (length (or_test o1).code) o2

  length-copied : length copied.code ≡ suc (length o1.code)
  length-copied = length-emit dup (pos 0) 0 o1

  length-both : length both.code ≡ suc (suc (suc (length o1.code)))
  length-both = omega (arith, length-placeholder jump (or_test o1), length-or_test o1)

  length-or_jumps : length or_jumps.code ≡ suc (suc (suc (length o1.code)))
  length-or_jumps = omega (arith, length-patch (length copied.code) both, length-both)

  length-or_start : length (or_start o1).code ≡ suc (suc (suc (suc (length o1.code))))
  unfolding or_start
  length-or_start = omega (arith, length-emit pop (pos 0) 0 or_jumps, length-or_jumps)

  jumps_kept : Keeps or_jumps o2
  unfolding or_start
  jumps_kept = Keeps-trans (emit-Keeps pop (pos 0) 0 or_jumps) k

  or_grows : Keeps copied or_end
  unfolding or_test
  or_grows =
      Keeps-patch (length (or_test o1).code)
        (Keeps-trans (patched-Keeps jump_if_false copied both (placeholder-Keeps jump (or_test o1)))
          jumps_kept)
        (omega (arith, length-copied, length-or_test o1))

  or_dup : At or_end (length o1.code) dup (pos 0) 0
  or_dup = At-Keeps _ or_grows (get_elem?-emit dup (pos 0) 0 o1)

  or_tested : At or_jumps (length copied.code) jump_if_false (pos (length both.code)) 0
  unfolding or_test
  or_tested = placeholder-At jump_if_false copied both (placeholder-Keeps jump (or_test o1))

  or_branch : At or_end (suc (length o1.code)) jump_if_false (pos (length both.code)) 0
  or_branch = At-index or_end length-copied (
      At-patch_other o2 _ _ (At-Keeps _ jumps_kept or_tested)
        (λ e. omega (arith, e, length-copied, length-or_test o1)))

  or_jump : At or_end (suc (suc (length o1.code))) jump (pos (length o2.code)) 0
  or_jump = At-index or_end (length-or_test o1) (
      At-patch o2 _ (
        At-Keeps _ jumps_kept (
          At-patch_other both _ _ (placeholder-emitted jump (or_test o1))
            (λ e. omega (arith, e, length-copied, length-or_test o1)))))

  or_pop : At or_end (suc (suc (suc (length o1.code)))) pop (pos 0) 0
  unfolding or_start
  or_pop = At-index or_end length-or_jumps (
      At-patch_other o2 _ _ (At-Keeps _ k (get_elem?-emit pop (pos 0) 0 or_jumps))
        (λ e. omega (arith, e, length-or_jumps, length-or_test o1)))

module _ {V W : Type 0} (sem : Semantics V W) (base : ℕ) where
  -- `l || r`: where the left value is true it is the result, else the right operand takes its place.
  pub or-Segment :
      (out o1 o2 : CompiledProgram) (st : List V) (f g : Store V W → Answer V W V)
      → Segment sem base out o1 st (λ v. v ∷ st) st f
      → Segment sem base (or_start o1) o2 st (λ v. v ∷ st) st g
      → Segment sem base out
          (patch_jump_to_here (length (or_test o1).code) o2)
          st
          (λ v. v ∷ st)
          st
          (λ s. bind (f s) λ v s1. (let w = g s1 in if sem.is_truthy v then (s1, value v) else w))
  or-Segment out o1 o2 st f g l r = record {
    grows =
        Keeps-trans l.grows (Keeps-trans (emit-Keeps dup (pos 0) 0 o1) (or_grows o1 o2 r.grows));
    runs = λ program a s fs.
        let k = Keeps-trans (emit-Keeps dup (pos 0) 0 o1) (or_grows o1 o2 r.grows) in
        let b = l.grows.longer in
        let end = length-patch (length (or_test o1).code) o2 in
        Arrives-bind sem base program (l.runs program (Agrees-Keeps a k (omega arith)) s fs)
          λ v s1 _.
            let start =
              dup-Reaches sem base program _ st s1 fs v (At-Agrees _ a b (or_dup o1 o2 r.grows)) in
            let test = At-Agrees _ a (omega (arith, b)) (or_branch o1 o2 r.grows) in
            let skip = At-Agrees _ a (omega (arith, b)) (or_jump o1 o2 r.grows) in
            let discard = At-Agrees _ a (omega (arith, b)) (or_pop o1 o2 r.grows) in
            let size = length-or_start o1 o2 r.grows in
            let after = length-both o1 o2 r.grows in
            Arrives-index sem base program (sym end) (
              Arrives-if sem base program (sem.is_truthy v)
                (λ t. lands (
                  Reaches-trans sem base program start (
                    Reaches-trans sem base program
                      (jump_if_false-passes sem base program _ _ s1 fs v _ test t)
                      (jump-Reaches sem base program _ _ s1 fs _ skip
                        (omega (arith, end, a.long))))))
                (λ t.
                  Arrives-Reaches sem base program
                    (Reaches-trans sem base program start (
                      Reaches-trans sem base program
                        (Reaches-index sem base program after (
                          jump_if_false-jumps sem base program _ _ s1 fs v _ test
                            (omega (arith, end, a.long, after, size, r.grows.longer)) t))
                        (Reaches-index sem base program (sym size)
                          (pop-Reaches sem base program _ st s1 fs v discard))))
                    (r.runs program
                      (Agrees-patch a (omega (arith, b, size))
                        (omega (arith, size, length-or_test o1)))
                      s1 fs)));
  }
