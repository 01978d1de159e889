-- ===== src/Compiler/Segments/Ternary.antt =====
-- The code of the ternary.
use kjdmud.Base.{ℕ, suc, ◌≤◌, ◌≡◌, sym, List, ◌∷◌, length, pos, arith, if◌then◌else◌}
use kjdmud.Vm.Bytecode.{CompiledProgram, jump, jump_if_false}
use kjdmud.Vm.Store.{Semantics, Store}
use kjdmud.Compiler.CodeGen.{emit_jump_placeholder, patch_jump_to_here}
use kjdmud.Compiler.CodeGen.Growth.{
  Keeps, Keeps-trans, Agrees, Agrees-Keeps, Agrees-patch, Keeps-patch, length-patch, get_elem?-lt,
  get_elem?-patch_other,
}
use kjdmud.Compiler.Eval.{Answer, bind}
use kjdmud.Compiler.Simulation.{At, Arrives-bind, Arrives-Reaches, Arrives-after}
use kjdmud.Compiler.Simulation.Jumps.{jump-Reaches, jump_if_false-passes, jump_if_false-jumps}
use kjdmud.Compiler.Segments.{Segment}
use kjdmud.Compiler.Segments.Patched.{
  At-Keeps, At-Agrees, At-patch, At-patch_other, placeholder-At, placeholder-emitted,
  placeholder-Keeps, length-placeholder, patched-Keeps, Reaches-index, Arrives-index, Arrives-if,
}

-- What a program has of the code for `c ? t : e`, whose parts end with `o1`, `o2` and `o3`.
module _ (o1 o2 o3 : CompiledProgram) (h : Keeps (emit_jump_placeholder jump_if_false o1) o2)
    (k : Keeps (patch_jump_to_here (length o1.code) (emit_jump_placeholder jump o2)) o3) where
  abbrev both : CompiledProgram
  both = emit_jump_placeholder jump o2

  abbrev else_start : CompiledProgram
  else_start = patch_jump_to_here (length o1.code) both

  abbrev ternary_end : CompiledProgram
  ternary_end = patch_jump_to_here (length o2.code) o3

  then_longer : suc (length o1.code) ≤ length o2.code
  then_longer = omega (arith, h.longer, length-placeholder jump_if_false o1)

  length-else_start : length else_start.code ≡ suc (length o2.code)
  length-else_start = omega (arith, length-patch (length o1.code) both, length-placeholder jump o2)

  both_kept : Keeps (emit_jump_placeholder jump_if_false o1) both
  both_kept = Keeps-trans h (placeholder-Keeps jump o2)

  ternary_grows : Keeps o1 ternary_end
  ternary_grows =
      Keeps-patch (length o2.code) (Keeps-trans (patched-Keeps jump_if_false o1 both both_kept) k)
        (omega (arith, then_longer))

  ternary_branch : At ternary_end (length o1.code) jump_if_false (pos (length both.code)) 0
  ternary_branch =
      At-patch_other o3 _ _ (At-Keeps _ k (placeholder-At jump_if_false o1 both both_kept))
        (λ e. omega (arith, e, then_longer))

  ternary_jump : At ternary_end (length o2.code) jump (pos (length o3.code)) 0
  ternary_jump = At-patch o3 _ (
      At-Keeps _ k (
        At-patch_other both _ _ (placeholder-emitted jump o2) (λ e. omega (arith, e, then_longer))))

  -- The code of the middle part, which lies between the two jumps.
  then_part :
      {b : ℕ} {program : CompiledProgram}
      → Agrees b ternary_end program
      → b ≤ length o1.code
      → Agrees (length (emit_jump_placeholder jump_if_false o1).code) o2 program
  unfolding patch_jump_to_here
  then_part a l = record {
    long = omega (arith, a.long, length-patch (length o2.code) o3, k.longer, length-else_start);
    has_code = λ i x n e.
        let behind = length-placeholder jump_if_false o1 in
        let before = get_elem?-lt o2.code i x e in
        a.has_code i x (omega (arith, l, n, behind)) (
          get_elem?-patch_other o3 (length o2.code) i x
            (k.same_code i x (
              get_elem?-patch_other both (length o1.code) i x
                ((placeholder-Keeps jump o2).same_code i x e) (λ q. omega (arith, q, n, behind))))
            (λ q. omega (arith, q, before)));
    has_pool =
        λ i t e. a.has_pool i t (k.same_pool i t ((placeholder-Keeps jump o2).same_pool i t e));
  }

module _ {V W : Type 0} (sem : Semantics V W) (base : ℕ) where
  -- `c ? t : e`: one of the two parts is evaluated.
  pub ternary-Segment :
      (out o1 o2 o3 : CompiledProgram) (st : List V) (f g g' : Store V W → Answer V W V)
      → Segment sem base out o1 st (λ v. v ∷ st) st f
      → Segment sem base (emit_jump_placeholder jump_if_false o1) o2 st (λ v. v ∷ st) st g
      → Segment sem base
          (patch_jump_to_here (length o1.code) (emit_jump_placeholder jump o2))
          o3
          st
          (λ v. v ∷ st)
          st
          g'
      → Segment sem base out
          (patch_jump_to_here (length o2.code) o3)
          st
          (λ v. v ∷ st)
          st
          (λ s. bind (f s) λ v s1.
            (let yes_value = g s1 in
              let no_value = g' s1 in if sem.is_truthy v then yes_value else no_value))
  ternary-Segment out o1 o2 o3 st f g g' c t e = record {
    grows = Keeps-trans c.grows (ternary_grows o1 o2 o3 t.grows e.grows);
    runs = λ program a s fs.
        let b = c.grows.longer in
        let end = length-patch (length o2.code) o3 in
        let size = length-else_start o1 o2 o3 t.grows e.grows in
        let first = then_longer o1 o2 o3 t.grows e.grows in
        let test = At-Agrees _ a b (ternary_branch o1 o2 o3 t.grows e.grows) in
        let skip =
          At-Agrees _ a (omega (arith, b, first)) (ternary_jump o1 o2 o3 t.grows e.grows) in
        Arrives-bind sem base program
          (c.runs program (Agrees-Keeps a (ternary_grows o1 o2 o3 t.grows e.grows) (omega arith)) s
            fs)
          λ v s1 _. Arrives-index sem base program (sym end) (
            Arrives-if sem base program (sem.is_truthy v)
              (λ yes_case.
                Arrives-Reaches sem base program
                  (Reaches-index sem base program (sym (length-placeholder jump_if_false o1))
                    (jump_if_false-passes sem base program _ st s1 fs v _ test yes_case))
                  (Arrives-after sem base program
                    (t.runs program (then_part o1 o2 o3 t.grows e.grows a b) s1 fs)
                    λ w s2.
                      jump-Reaches sem base program _ _ s2 fs _ skip (omega (arith, end, a.long))))
              (λ no_case.
                Arrives-Reaches sem base program
                  (Reaches-index sem base program (sym (length-patch (length o1.code) _)) (
                    jump_if_false-jumps sem base program _ st s1 fs v _ test
                      (omega (arith, end, a.long, e.grows.longer, size, length-placeholder jump o2))
                      no_case))
                  (e.runs program
                    (Agrees-patch a (omega (arith, b, size, first)) (omega (arith, size))) s1 fs)));
  }
