-- ===== src/Compiler/Segments/Straight.antt =====
-- The code of the expressions without jumps: constants, variables, operators, calls and arrays.
use kjdmud.Base.{
  ℕ, suc, ◌≡◌, sym, subst, Bool, true, List, ◌∷◌, length, some, ℤ, pos, arith, if◌then◌else◌,
}
use kjdmud.Core.Text.{Text}
use kjdmud.Vm.Bytecode.{
  OpCode, push_const, push_int, push_nil, push_symbol, logical_not, bit_not, dup, pop, make_array,
  CompiledProgram, get_elem?,
}
use kjdmud.Vm.Store.{value, Semantics, Store}
use kjdmud.Vm.Machine.{CatchFrame}
use kjdmud.Compiler.CodeGen.{emit, emit_pooled, emit_push_var, emit_store_var, ResolvedVar, call_op}
use kjdmud.Compiler.CodeGen.Growth.{emit_pooled-Keeps, length-emit_pooled, get_elem?-emit_pooled}
use kjdmud.Compiler.Eval.{Answer, in_store, read_var, write_var, apply, make}
use kjdmud.Compiler.Simulation.{At, machine, Arrives, lands}
use kjdmud.Compiler.Simulation.Instructions.{
  push_all, is_operator, operator-Arrives, not-Reaches, bit_not-Arrives, call-Arrives,
  array-Arrives,
}
use kjdmud.Compiler.Simulation.Slots.{
  push_int-Arrives, push_nil-Arrives, push_const-Arrives, push_symbol-Arrives, read-Arrives,
  dup-Reaches, pop-Reaches, write-Arrives,
}
use kjdmud.Compiler.Segments.{Segment, Segment-emit}

module _ {V W : Type 0} (sem : Semantics V W) (base : ℕ) where
  module _ (o : CompiledProgram) (st : List V) where
    pub push_int-Segment :
        (n : ℤ)
        → Segment sem base o
            (emit push_int n 0 o)
            st
            (λ v. v ∷ st)
            st
            (λ s. (s, value (sem.number n)))
    push_int-Segment n =
        Segment-emit sem base push_int n 0 o
          λ program s fs h. push_int-Arrives sem base program _ st s fs n h

    pub push_nil-Segment :
        Segment sem base o (emit push_nil (pos 0) 0 o) st (λ v. v ∷ st) st (λ s. (s, value sem.nil))
    push_nil-Segment =
        Segment-emit sem base push_nil (pos 0) 0 o
          λ program s fs h. push_nil-Arrives sem base program _ st s fs h

    pub dup-Segment :
        (v : V)
        → Segment sem base o
            (emit dup (pos 0) 0 o)
            (v ∷ st)
            (λ w. w ∷ v ∷ st)
            st
            (λ s. (s, value v))
    dup-Segment v =
        Segment-emit sem base dup (pos 0) 0 o
          λ program s fs h. lands (dup-Reaches sem base program _ st s fs v h)

    pub pop-Segment :
        (v : V)
        → Segment sem base o (emit pop (pos 0) 0 o) (v ∷ st) (λ (w : V). st) st (λ s. (s, value v))
    pop-Segment v =
        Segment-emit sem base pop (pos 0) 0 o
          λ program s fs h. lands (pop-Reaches sem base program _ st s fs v h)

    pub not-Segment :
        (v : V)
        → Segment sem base o
            (emit logical_not (pos 0) 0 o)
            (v ∷ st)
            (λ w. w ∷ st)
            st
            (λ s. (s, value (sem.number (if sem.is_truthy v then pos 0 else pos 1))))
    not-Segment v =
        Segment-emit sem base logical_not (pos 0) 0 o
          λ program s fs h. lands (not-Reaches sem base program _ st s fs v h)

    pub bit_not-Segment :
        (v : V)
        → Segment sem base o
            (emit bit_not (pos 0) 0 o)
            (v ∷ st)
            (λ w. w ∷ st)
            st
            (λ s. in_store s (s.world, sem.complement v))
    bit_not-Segment v =
        Segment-emit sem base bit_not (pos 0) 0 o
          λ program s fs h. bit_not-Arrives sem base program _ st s fs v h

    pub operator-Segment :
        (op : OpCode) (l r : V)
        → is_operator op ≡ true
        → Segment sem base o
            (emit op (pos 0) 0 o)
            (r ∷ l ∷ st)
            (λ w. w ∷ st)
            st
            (apply sem base op l r)
    operator-Segment op l r e =
        Segment-emit sem base op (pos 0) 0 o
          λ program s fs h. operator-Arrives sem base program _ st s fs op l r e h

    pub array-Segment :
        (vs : List V) (n : ℕ)
        → length vs ≡ n
        → Segment sem base o
            (emit make_array (pos 0) n o)
            (push_all vs st)
            (λ w. w ∷ st)
            st
            (make sem base vs)
    array-Segment vs n e = Segment-emit sem base make_array (pos 0) n o λ program s fs h.
        array-Arrives sem base program _ st s fs vs
          (subst (λ k. At program (length o.code) make_array (pos 0) k) (sym e) h)

    pub read-Segment :
        (var : ResolvedVar)
        → Segment sem base o (emit_push_var var o) st (λ v. v ∷ st) st (read_var sem base var)
    unfolding emit_push_var
    read-Segment var =
        Segment-emit sem base _ (pos var.slot) 0 o
          λ program s fs h. read-Arrives sem base program _ st s fs var h

    pub write-Segment :
        (var : ResolvedVar) (v w : V) (land : V → List V)
        → land v ≡ w ∷ st
        → Segment sem base o (emit_store_var var o) (v ∷ w ∷ st) land st (write_var sem base var v)
    unfolding emit_store_var
    write-Segment var v w land q =
        Segment-emit sem base _ (pos var.slot) 0 o
          λ program s fs h. write-Arrives sem base program _ st s fs var v w land q h

    -- An instruction with a text of the pool.
    pooled-Segment :
        {A : Type 0} (op : OpCode) (t : Text) (argc : ℕ) {start : List V} {land : A → List V}
        {f : Store V W → Answer V W A}
        → ((program : CompiledProgram) (s : Store V W) (fs : List CatchFrame) (i : ℕ)
            → At program (length o.code) op (pos i) argc
            → get_elem? i program.string_pool ≡ some t
            → Arrives sem base program
                (machine (length o.code) start s fs)
                (suc (length o.code))
                land
                st
                fs
                (f s))
        → Segment sem base o (emit_pooled op t argc o) start land st f
    pooled-Segment op t argc {start} {land} {f} h = record {
      grows = emit_pooled-Keeps op t argc o;
      runs = λ program a s fs.
          let (i, at, found) = get_elem?-emit_pooled op t argc o in
          subst
            (λ n. Arrives sem base program (machine (length o.code) start s fs) n land st fs (f s))
            (sym (length-emit_pooled op t argc o))
            (h program s fs i (a.has_code _ _ (omega arith) at) (a.has_pool i t found));
    }

    pub push_const-Segment :
        (t : Text)
        → Segment sem base o
            (emit_pooled push_const t 0 o)
            st
            (λ v. v ∷ st)
            st
            (λ s. (s, value (sem.text t)))
    push_const-Segment t =
        pooled-Segment push_const t 0
          λ program s fs i h k. push_const-Arrives sem base program _ st s fs i t h k

    pub push_symbol-Segment :
        (t : Text)
        → Segment sem base o
            (emit_pooled push_symbol t 0 o)
            st
            (λ v. v ∷ st)
            st
            (λ s. (s, value (sem.symbol t)))
    push_symbol-Segment t =
        pooled-Segment push_symbol t 0
          λ program s fs i h k. push_symbol-Arrives sem base program _ st s fs i t h k

    pub call-Segment :
        (is_efun : Bool) (name : Text) (vs : List V) (n : ℕ)
        → length vs ≡ n
        → Segment sem base o
            (emit_pooled (call_op is_efun) name n o)
            (push_all vs st)
            (λ w. w ∷ st)
            st
            (λ s. in_store s (sem.call is_efun name vs s.world))
    call-Segment is_efun name vs n e = pooled-Segment (call_op is_efun) name n λ program s fs i h k.
        call-Arrives sem base program _ st s fs is_efun i name vs
          (subst (λ m. At program (length o.code) (call_op is_efun) (pos i) m) (sym e) h) k
