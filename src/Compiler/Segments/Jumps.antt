-- ===== src/Compiler/Segments/Jumps.antt =====
-- The code of `||`, `&&` and of the ternary.
use kjdmud.Base.{ℕ, suc, ◌≡◌, sym, List, ◌∷◌, length, pos, arith, if◌then◌else◌}
use kjdmud.Vm.Bytecode.{CompiledProgram, dup, pop, jump_if_false}
use kjdmud.Vm.Store.{value, Semantics, Store}
use kjdmud.Compiler.CodeGen.{emit, patch_jump_to_here, or_test}
use kjdmud.Compiler.CodeGen.Growth.{
  Keeps, Keeps-trans, Agrees-Keeps, Agrees-patch, emit-Keeps, length-emit, length-patch,
  get_elem?-emit,
}
use kjdmud.Compiler.Eval.{Answer, bind}
use kjdmud.Compiler.Simulation.{At, Reaches-trans, lands, Arrives-bind, Arrives-Reaches}
use kjdmud.Compiler.Simulation.Jumps.{jump_if_false-passes, jump_if_false-jumps}
use kjdmud.Compiler.Simulation.Slots.{dup-Reaches, pop-Reaches}
use kjdmud.Compiler.Segments.{Segment}
use kjdmud.Compiler.Segments.Patched.{
  At-Keeps, At-index, At-Agrees, At-patch_other, placeholder-At, length-placeholder, patched-Keeps,
  Reaches-index, Arrives-index, Arrives-if,
}

pub length-or_test : (o1 : CompiledProgram) → length (or_test o1).code ≡ suc (suc (length o1.code))
unfolding or_test
length-or_test o1 =
    omega (
      arith,
      length-placeholder jump_if_false (emit dup (pos 0) 0 o1),
      length-emit dup (pos 0) 0 o1,
    )

length-and_start :
    (o1 : CompiledProgram)
    → length (emit pop (pos 0) 0 (or_test o1)).code ≡ suc (suc (suc (length o1.code)))
length-and_start o1 = omega (arith, length-emit pop (pos 0) 0 (or_test o1), length-or_test o1)

-- What a program has of the code for `l && r`, whose left operand ends with `o1` and whose right one
-- ends with `o2`.
module _ (o1 o2 : CompiledProgram) (k : Keeps (emit pop (pos 0) 0 (or_test o1)) o2) where
  abbrev and_end : CompiledProgram
  and_end = patch_jump_to_here (length (emit dup (pos 0) 0 o1).code) o2

  and_kept : Keeps (or_test o1) o2
  and_kept = Keeps-trans (emit-Keeps pop (pos 0) 0 (or_test o1)) k

  and_grows : Keeps (emit dup (pos 0) 0 o1) and_end
  unfolding or_test
  and_grows = patched-Keeps jump_if_false (emit dup (pos 0) 0 o1) o2 and_kept

  and_dup : At and_end (length o1.code) dup (pos 0) 0
  and_dup = At-Keeps _ and_grows (get_elem?-emit dup (pos 0) 0 o1)

  and_jump : At and_end (suc (length o1.code)) jump_if_false (pos (length o2.code)) 0
  unfolding or_test
  and_jump =
      At-index and_end (length-emit dup (pos 0) 0 o1)
        (placeholder-At jump_if_false (emit dup (pos 0) 0 o1) o2 and_kept)

  and_pop : At and_end (suc (suc (length o1.code))) pop (pos 0) 0
  and_pop = At-index and_end (length-or_test o1) (
      At-patch_other o2 _ _ (At-Keeps _ k (get_elem?-emit pop (pos 0) 0 (or_test o1)))
        (λ e. omega (arith, e, length-or_test o1, length-emit dup (pos 0) 0 o1)))

module _ {V W : Type 0} (sem : Semantics V W) (base : ℕ) where
  -- `l && r`: where the left value is false it is the result, else the right operand takes its place.
  pub and-Segment :
      (out o1 o2 : CompiledProgram) (st : List V) (f g : Store V W → Answer V W V)
      → Segment sem base out o1 st (λ v. v ∷ st) st f
      → Segment sem base (emit pop (pos 0) 0 (or_test o1)) o2 st (λ v. v ∷ st) st g
      → Segment sem base out
          (patch_jump_to_here (length (emit dup (pos 0) 0 o1).code) o2)
          st
          (λ v. v ∷ st)
          st
          (λ s. bind (f s) λ v s1. (let w = g s1 in if sem.is_truthy v then w else (s1, value v)))
  and-Segment out o1 o2 st f g l r = record {
    grows =
        Keeps-trans l.grows (Keeps-trans (emit-Keeps dup (pos 0) 0 o1) (and_grows o1 o2 r.grows));
    runs = λ program a s fs.
        let k = Keeps-trans (emit-Keeps dup (pos 0) 0 o1) (and_grows o1 o2 r.grows) in
        let b = l.grows.longer in
        let end = length-patch (length (emit dup (pos 0) 0 o1).code) o2 in
        Arrives-bind sem base program (l.runs program (Agrees-Keeps a k (omega arith)) s fs)
          λ v s1 _.
            let start =
              dup-Reaches sem base program _ st s1 fs v (At-Agrees _ a b (and_dup o1 o2 r.grows)) in
            let test = At-Agrees _ a (omega (arith, b)) (and_jump o1 o2 r.grows) in
            let discard = At-Agrees _ a (omega (arith, b)) (and_pop o1 o2 r.grows) in
            let size = length-and_start o1 in
            let copy = length-emit dup (pos 0) 0 o1 in
            Arrives-index sem base program (sym end) (
              Arrives-if sem base program (sem.is_truthy v)
                (λ t.
                  Arrives-Reaches sem base program
                    (Reaches-trans sem base program start (
                      Reaches-trans sem base program
                        (jump_if_false-passes sem base program _ _ s1 fs v _ test t)
                        (Reaches-index sem base program (sym (length-and_start o1))
                          (pop-Reaches sem base program _ st s1 fs v discard))))
                    (r.runs program
                      (Agrees-patch a (omega (arith, b, size)) (omega (arith, size, copy))) s1 fs))
                (λ t. lands (
                  Reaches-trans sem base program start (
                    jump_if_false-jumps sem base program _ _ s1 fs v _ test
                      (omega (arith, end, a.long)) t))));
  }
