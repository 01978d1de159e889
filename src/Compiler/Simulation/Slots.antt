-- ===== src/Compiler/Simulation/Slots.antt =====
-- What the instructions that push, copy, drop and store values bring about.
use kjdmud.Base.{ℕ, suc, ◌≡◌, refl, sym, ◌∙◌, subst, List, [], ◌∷◌, Option, none, some, ℤ, pos, inl}
use kjdmud.Core.Text.{Text, codes}
use kjdmud.Vm.Bytecode.{
  push_const, push_int, push_nil, push_symbol, pop, dup, CompiledProgram, get_elem?,
}
use kjdmud.Vm.Store.{value, Semantics, Store, at_index, write_local, write_object_var}
use kjdmud.Vm.Machine.{
  CatchFrame, perform, execute_op, execute_store, execute_dup, push_read, push_pooled, proceed,
  proceed_in, fail,
}
use kjdmud.Compiler.CodeGen.{VarKind, local, object_var, ResolvedVar, push_op, store_op}
use kjdmud.Compiler.Eval.{
  read_answer, write_answer, read_var, write_var, bad_push, bad_store, read_slot, write_slot,
}
use kjdmud.Compiler.Simulation.{
  At, machine, Reaches, Arrives, lands, breaks, Reaches-perform, perform-at,
}

module _ {V W : Type 0} (sem : Semantics V W) (base : ℕ) (program : CompiledProgram) (ip : ℕ)
    (st : List V) (s : Store V W) (fs : List CatchFrame) where
  pub push_int-Arrives :
      (n : ℤ)
      → At program ip push_int n 0
      → Arrives sem base program
          (machine ip st s fs)
          (suc ip)
          (λ v. v ∷ st)
          st
          fs
          (s, value (sem.number n))
  unfolding execute_op proceed
  push_int-Arrives n h =
      lands (Reaches-perform sem base program (perform-at sem base program _ _ h))

  pub push_nil-Arrives :
      At program ip push_nil (pos 0) 0
      → Arrives sem base program
          (machine ip st s fs)
          (suc ip)
          (λ v. v ∷ st)
          st
          fs
          (s, value sem.nil)
  unfolding execute_op proceed
  push_nil-Arrives h = lands (Reaches-perform sem base program (perform-at sem base program _ _ h))

  pub push_const-Arrives :
      (i : ℕ) (t : Text)
      → At program ip push_const (pos i) 0
      → get_elem? i program.string_pool ≡ some t
      → Arrives sem base program
          (machine ip st s fs)
          (suc ip)
          (λ v. v ∷ st)
          st
          fs
          (s, value (sem.text t))
  unfolding execute_op proceed push_pooled at_index
  push_const-Arrives i t h k = lands (
      Reaches-perform sem base program
        (perform-at sem base program _ _ h ∙ rw (k, execute_op, at_index) refl))

  pub push_symbol-Arrives :
      (i : ℕ) (t : Text)
      → At program ip push_symbol (pos i) 0
      → get_elem? i program.string_pool ≡ some t
      → Arrives sem base program
          (machine ip st s fs)
          (suc ip)
          (λ v. v ∷ st)
          st
          fs
          (s, value (sem.symbol t))
  unfolding execute_op proceed push_pooled at_index
  push_symbol-Arrives i t h k = lands (
      Reaches-perform sem base program
        (perform-at sem base program _ _ h ∙ rw (k, execute_op, at_index) refl))

  push_read-Arrives :
      (bad : Text) (o : Option (V × Store V W))
      → perform sem base program (machine ip st s fs)
        ≡ push_read sem base bad o (machine ip st s fs)
      → Arrives sem base program
          (machine ip st s fs)
          (suc ip)
          (λ v. v ∷ st)
          st
          fs
          (read_answer bad s o)
  unfolding push_read read_answer proceed_in fail
  push_read-Arrives bad none h = breaks (record {
    before = machine ip st s fs;
    ip = ip;
    junk = [];
    extra = [];
    passes = inl refl;
    comes = Reaches.here;
    throws = h;
  })
  push_read-Arrives bad (some (v, s')) h = lands (Reaches-perform sem base program h)

  read_slot-Arrives :
      (kind : VarKind) (slot : ℕ)
      → At program ip (push_op kind) (pos slot) 0
      → Arrives sem base program
          (machine ip st s fs)
          (suc ip)
          (λ v. v ∷ st)
          st
          fs
          (read_answer (bad_push kind) s (read_slot sem base kind (pos slot) s))
  unfolding execute_op
  read_slot-Arrives local slot h = push_read-Arrives _ _ (perform-at sem base program _ _ h)
  read_slot-Arrives object_var slot h = push_read-Arrives _ _ (perform-at sem base program _ _ h)

  pub read-Arrives :
      (var : ResolvedVar)
      → At program ip (push_op var.kind) (pos var.slot) 0
      → Arrives sem base program
          (machine ip st s fs)
          (suc ip)
          (λ v. v ∷ st)
          st
          fs
          (read_var sem base var s)
  unfolding read_var
  read-Arrives var h = read_slot-Arrives var.kind var.slot h

  pub dup-Reaches :
      (v : V)
      → At program ip dup (pos 0) 0
      → Reaches sem base program (machine ip (v ∷ st) s fs) (machine (suc ip) (v ∷ v ∷ st) s fs)
  unfolding execute_op execute_dup proceed
  dup-Reaches v h = Reaches-perform sem base program (perform-at sem base program _ _ h)

  pub pop-Reaches :
      (v : V)
      → At program ip pop (pos 0) 0
      → Reaches sem base program (machine ip (v ∷ st) s fs) (machine (suc ip) st s fs)
  unfolding execute_op proceed
  pop-Reaches v h = Reaches-perform sem base program (perform-at sem base program _ _ h)

  store-Arrives :
      (bad empty : Text) (write : V → Store V W → Option (Store V W)) (v w : V) (land : V → List V)
      (o : Option (Store V W))
      → land v ≡ w ∷ st
      → write v s ≡ o
      → perform sem base program (machine ip (v ∷ w ∷ st) s fs)
        ≡ execute_store sem base bad empty write (machine ip (v ∷ w ∷ st) s fs) (v ∷ w ∷ st)
      → Arrives sem base program
          (machine ip (v ∷ w ∷ st) s fs)
          (suc ip)
          land
          st
          fs
          (write_answer bad v s o)
  unfolding execute_store write_answer proceed_in fail
  store-Arrives bad empty write v w land none q e h = breaks (record {
    before = machine ip (v ∷ w ∷ st) s fs;
    ip = ip;
    junk = v ∷ w ∷ [];
    extra = [];
    passes = inl refl;
    comes = Reaches.here;
    throws = h ∙ rw (e, execute_store) refl;
  })
  store-Arrives bad empty write v w land (some s') q e h = lands (
      subst
        (λ stack.
          Reaches sem base program (machine ip (v ∷ w ∷ st) s fs) (machine (suc ip) stack s' fs))
        (sym q) (Reaches-perform sem base program (h ∙ rw (e, execute_store) refl)))

  write_slot-Arrives :
      (kind : VarKind) (slot : ℕ) (v w : V) (land : V → List V)
      → land v ≡ w ∷ st
      → At program ip (store_op kind) (pos slot) 0
      → Arrives sem base program
          (machine ip (v ∷ w ∷ st) s fs)
          (suc ip)
          land
          st
          fs
          (write_answer (bad_store kind) v s (write_slot sem base kind (pos slot) v s))
  unfolding execute_op
  write_slot-Arrives local slot v w land q h =
      store-Arrives (bad_store local) (codes "StoreLocal: stack underflow")
        (write_local sem (pos slot)) v w land _ q refl (perform-at sem base program _ _ h)
  write_slot-Arrives object_var slot v w land q h =
      store-Arrives (bad_store object_var) (codes "StoreObjectVar: stack underflow")
        (write_object_var sem base (pos slot)) v w land _ q refl (perform-at sem base program _ _ h)

  pub write-Arrives :
      (var : ResolvedVar) (v w : V) (land : V → List V)
      → land v ≡ w ∷ st
      → At program ip (store_op var.kind) (pos var.slot) 0
      → Arrives sem base program
          (machine ip (v ∷ w ∷ st) s fs)
          (suc ip)
          land
          st
          fs
          (write_var sem base var v s)
  unfolding write_var
  write-Arrives var v w land q h = write_slot-Arrives var.kind var.slot v w land q h
