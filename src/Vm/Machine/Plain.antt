-- ===== src/Vm/Machine/Plain.antt =====
-- What the instructions do with the counters of the eval cost is what they do without them.
use kjdmud.Base.{
  ℕ, ◌≡◌, refl, sym, ap, ◌∙◌, Bool, true, false, List, [], ◌∷◌, length, Option, none, some, leb, ℤ,
  pos, negsuc, if◌then◌else◌, Option-cases, inl, inr,
}
use kjdmud.Core.Text.{Text, codes}
use kjdmud.Vm.Bytecode.{
  OpCode, push_const, push_int, push_nil, push_symbol, push_local, store_local, push_object_var,
  store_object_var, logical_not, bit_not, jump, jump_if_false, push_catch_frame, pop_catch_frame,
  make_array, invoke, call_efun, pop, dup, return, halt, CompiledProgram, get_elem?, index_of,
}
use kjdmud.Vm.Store.{
  Outcome, value, thrown, Semantics, Store, read_local, write_local, read_object_var,
  write_object_var, at_index, slot_index,
}
use kjdmud.Vm.Machine.{
  Machine, CatchFrame, Effect, goes, returns, raises, advance, perform, settle, handle, caught,
  execute_op, execute_binary, push_read, execute_store, execute_call, execute_array, push_pooled,
  execute_jump_if_false, execute_push_catch, execute_pop_catch, execute_not, execute_bit_not,
  execute_dup, execute_return, pop_many, proceed, proceed_in, jump_to, fail, answer,
}
use kjdmud.Vm.Machine.Metered.{
  Counts, Spending, metered, plain_store, plain, plain_effect, plain_read, plain_write,
}

module _ {V W : Type 0} (sem : Semantics V W) (spent : Spending V W) (base : ℕ)
    (program : CompiledProgram) where
  abbrev full : Semantics V (W × Counts)
  full = metered sem spent

  answer-plain :
      (m : Machine V (W × Counts)) (st : List V) (w : W) (c : Counts) (o : Outcome V V)
      → plain_effect (answer m st ((w, c), o)) ≡ answer (plain m) st (w, o)
  unfolding answer proceed_in
  answer-plain m st w c (value v) = refl
  answer-plain m st w c (thrown t) = refl

  if-plain :
      (b : Bool) (x y : Effect V (W × Counts)) (x' y' : Effect V W)
      → plain_effect x ≡ x'
      → plain_effect y ≡ y'
      → plain_effect (if b then x else y) ≡ (if b then x' else y')
  if-plain true x y x' y' h k = h
  if-plain false x y x' y' h k = k

  jump_to-plain :
      (target : ℤ) (message : Text) (m : Machine V (W × Counts))
      → plain_effect (jump_to program.code target message m)
        ≡ jump_to program.code target message (plain m)
  unfolding jump_to
  jump_to-plain (negsuc n) message m = refl
  jump_to-plain (pos n) message m = if-plain (leb n (length program.code)) _ _ _ _ refl refl

  binary-plain :
      (op : OpCode) (m : Machine V (W × Counts)) (st : List V)
      → plain_effect (execute_binary full base op m st) ≡ execute_binary sem base op (plain m) st
  unfolding execute_binary fail
  binary-plain op m [] = refl
  binary-plain op m (v ∷ []) = refl
  binary-plain op m (r ∷ l ∷ st) =
      let a = sem.operate op l r m.store.world.0 in answer-plain m st a.0 m.store.world.1 a.1

  read-plain :
      (message : Text) (o : Option (V × Store V (W × Counts))) (m : Machine V (W × Counts))
      → plain_effect (push_read full base message o m)
        ≡ push_read sem base message (plain_read o) (plain m)
  unfolding push_read proceed_in fail
  read-plain message none m = refl
  read-plain message (some (v, s)) m = refl

  read_local-plain :
      (operand : ℤ) (s : Store V (W × Counts))
      → plain_read (read_local full operand s) ≡ read_local sem operand (plain_store s)
  unfolding read_local
  read_local-plain operand s = elim (Option-cases (at_index (index_of operand) s.locals)) [
    | inl bad ↦ rw (bad, read_local) refl
    | inr (x, here) ↦ rw (here, read_local) refl
  ]

  read_object_var-plain :
      (operand : ℤ) (s : Store V (W × Counts))
      → plain_read (read_object_var full base operand s)
        ≡ read_object_var sem base operand (plain_store s)
  unfolding read_object_var
  read_object_var-plain operand s =
      elim (Option-cases (at_index (slot_index base operand) (sem.variables s.world.0))) [
        | inl bad ↦ rw (bad, read_object_var) refl
        | inr (x, here) ↦ rw (here, read_object_var) refl
      ]

  write_local-plain :
      (operand : ℤ) (v : V) (s : Store V (W × Counts))
      → plain_write (write_local full operand v s) ≡ write_local sem operand v (plain_store s)
  unfolding write_local
  write_local-plain operand v s = elim (Option-cases (at_index (index_of operand) s.locals)) [
    | inl bad ↦ rw (bad, write_local) refl
    | inr (x, here) ↦ rw (here, write_local) refl
  ]

  write_object_var-plain :
      (operand : ℤ) (v : V) (s : Store V (W × Counts))
      → plain_write (write_object_var full base operand v s)
        ≡ write_object_var sem base operand v (plain_store s)
  unfolding write_object_var
  write_object_var-plain operand v s =
      elim (Option-cases (at_index (slot_index base operand) (sem.variables s.world.0))) [
        | inl bad ↦ rw (bad, write_object_var) refl
        | inr (x, here) ↦ rw (here, write_object_var) refl
      ]

  store-plain :
      (bad empty : Text) (f : V → Store V (W × Counts) → Option (Store V (W × Counts)))
      (g : V → Store V W → Option (Store V W)) (m : Machine V (W × Counts)) (st : List V)
      → ((v : V) (s : Store V (W × Counts)) → plain_write (f v s) ≡ g v (plain_store s))
      → plain_effect (execute_store full base bad empty f m st)
        ≡ execute_store sem base bad empty g (plain m) st
  unfolding execute_store proceed_in fail
  store-plain bad empty f g m [] h = elim (Option-cases (f sem.void m.store)) [
    | inl no_slot ↦
        let k = sym (h sem.void m.store) ∙ ap plain_write no_slot in
        rw (no_slot, k, execute_store) refl
    | inr (s, here) ↦
        let k = sym (h sem.void m.store) ∙ ap plain_write here in rw (here, k, execute_store) refl
  ]
  store-plain bad empty f g m (v ∷ st) h = elim (Option-cases (f v m.store)) [
    | inl no_slot ↦
        let k = sym (h v m.store) ∙ ap plain_write no_slot in rw (no_slot, k, execute_store) refl
    | inr (s, here) ↦
        let k = sym (h v m.store) ∙ ap plain_write here in rw (here, k, execute_store) refl
  ]

  call-plain :
      (bad few : Text) (is_efun : Bool) (o : Option (ℕ × Text)) (argc : ℕ)
      (m : Machine V (W × Counts))
      → plain_effect (execute_call full base bad few is_efun o argc m)
        ≡ execute_call sem base bad few is_efun o argc (plain m)
  unfolding execute_call fail
  call-plain bad few is_efun none argc m = refl
  call-plain bad few is_efun (some (i, name)) argc m =
      elim (Option-cases (pop_many argc m.stack [])) [
        | inl missing ↦ rw (missing, execute_call) refl
        | inr ((vs, st), here) ↦
            rw (here, execute_call)
              (answer-plain m st (sem.call is_efun name vs m.store.world.0).0
                (spent is_efun name vs m.store.world) (sem.call is_efun name vs m.store.world.0).1)
      ]

  array-plain :
      (o : Option (List V × List V)) (m : Machine V (W × Counts))
      → plain_effect (execute_array full base o m) ≡ execute_array sem base o (plain m)
  unfolding execute_array proceed_in fail
  array-plain none m = refl
  array-plain (some (vs, st)) m = refl

  pooled-plain :
      (bad : Text) (make : Text → V) (o : Option (ℕ × Text)) (m : Machine V (W × Counts))
      → plain_effect (push_pooled full base bad make o m)
        ≡ push_pooled sem base bad make o (plain m)
  unfolding push_pooled proceed fail
  pooled-plain bad make none m = refl
  pooled-plain bad make (some (i, t)) m = refl

  jump_if_false-plain :
      (target : ℤ) (m : Machine V (W × Counts)) (st : List V)
      → plain_effect (execute_jump_if_false full base program.code target m st)
        ≡ execute_jump_if_false sem base program.code target (plain m) st
  unfolding execute_jump_if_false proceed fail
  jump_if_false-plain target m [] = refl
  jump_if_false-plain target m (v ∷ st) =
      if-plain (sem.is_truthy v) _ _ _ _ refl (jump_to-plain target _ (record m { stack = st }))

  push_catch-plain :
      (target : ℤ) (m : Machine V (W × Counts))
      → plain_effect (execute_push_catch full base program.code target m)
        ≡ execute_push_catch sem base program.code target (plain m)
  unfolding execute_push_catch fail
  push_catch-plain (negsuc n) m = refl
  push_catch-plain (pos n) m = if-plain (leb n (length program.code)) _ _ _ _ refl refl

  pop_catch-plain :
      (m : Machine V (W × Counts)) (fs : List CatchFrame)
      → plain_effect (execute_pop_catch full base m fs) ≡ execute_pop_catch sem base (plain m) fs
  unfolding execute_pop_catch fail
  pop_catch-plain m [] = refl
  pop_catch-plain m (f ∷ fs) = refl

  -- `!`, `~`, the copy of the top, and `return`.
  top-plain :
      (m : Machine V (W × Counts)) (st : List V)
      → (plain_effect (execute_not full base m st) ≡ execute_not sem base (plain m) st)
        × ((plain_effect (execute_bit_not full base m st) ≡ execute_bit_not sem base (plain m) st)
            × ((plain_effect (execute_dup full base m st) ≡ execute_dup sem base (plain m) st)
                × (plain_effect (execute_return full base m st)
                    ≡ execute_return sem base (plain m) st)))
  unfolding execute_not execute_bit_not execute_dup execute_return proceed fail
  top-plain m [] = (refl, (refl, (refl, refl)))
  top-plain m (v ∷ st) =
      (refl, (answer-plain m st m.store.world.0 m.store.world.1 (sem.complement v), (refl, refl)))

  op-plain :
      (op : OpCode) (operand : ℤ) (argc : ℕ) (m : Machine V (W × Counts))
      → plain_effect (execute_op full base program op operand argc m)
        ≡ execute_op sem base program op operand argc (plain m)
  unfolding execute_op proceed
  op-plain push_const operand argc m = pooled-plain _ _ _ m
  op-plain push_int operand argc m = refl
  op-plain push_nil operand argc m = refl
  op-plain push_symbol operand argc m = pooled-plain _ _ _ m
  op-plain push_local operand argc m =
      read-plain _ _ m
      ∙ ap (λ o. push_read sem base (codes "PushLocal: bad local slot index") o (plain m))
          (read_local-plain operand m.store)
  op-plain store_local operand argc m =
      store-plain (codes "StoreLocal: bad local slot index") (codes "StoreLocal: stack underflow")
        (write_local full operand) (write_local sem operand) m m.stack (write_local-plain operand)
  op-plain push_object_var operand argc m =
      read-plain _ _ m
      ∙ ap
          (λ o.
            push_read sem base (codes "PushObjectVar: bad object variable slot index") o (plain m))
          (read_object_var-plain operand m.store)
  op-plain store_object_var operand argc m =
      store-plain (codes "StoreObjectVar: bad object variable slot index")
        (codes "StoreObjectVar: stack underflow") (write_object_var full base operand)
        (write_object_var sem base operand) m m.stack (write_object_var-plain operand)
  op-plain logical_not operand argc m = (top-plain m m.stack).0
  op-plain bit_not operand argc m = (top-plain m m.stack).1.0
  op-plain jump operand argc m = jump_to-plain operand _ m
  op-plain jump_if_false operand argc m = jump_if_false-plain operand m m.stack
  op-plain push_catch_frame operand argc m = push_catch-plain operand m
  op-plain pop_catch_frame operand argc m = pop_catch-plain m m.frames
  op-plain make_array operand argc m = array-plain _ m
  op-plain invoke operand argc m = call-plain _ (codes "Call: bad arg count for ") false _ argc m
  op-plain call_efun operand argc m =
      call-plain _ (codes "CallEfun: bad arg count for ") true _ argc m
  op-plain pop operand argc m = refl
  op-plain dup operand argc m = (top-plain m m.stack).1.1.0
  op-plain return operand argc m = (top-plain m m.stack).1.1.1
  op-plain halt operand argc m = refl
  op-plain op operand argc m = binary-plain op m m.stack

  settle-plain :
      (e : Effect V (W × Counts))
      → plain_effect (settle full base e) ≡ settle sem base (plain_effect e)
  unfolding settle
  settle-plain (goes m) = refl
  settle-plain (returns v s) = refl
  settle-plain (raises t m) = frames_case m.frames
    where
      frames_case :
          (fs : List CatchFrame)
          → plain_effect (handle full base t m fs) ≡ handle sem base t (plain m) fs
      frames_case [] = refl
      frames_case (f ∷ fs) = elim (Option-cases (caught sem base t)) [
        | inl passes ↦ rw (passes, handle) refl
        | inr (v, held) ↦ rw (held, handle) refl
      ]

  perform-plain :
      (m : Machine V (W × Counts))
      → plain_effect (perform full base program m) ≡ perform sem base program (plain m)
  unfolding perform
  perform-plain m = elim (Option-cases (get_elem? m.ip program.code)) [
    | inl past ↦ rw (past, perform) refl
    | inr (i, here) ↦ rw (here, perform) (op-plain i.op i.operand i.arg_count m)
  ]

  -- A pass does the same with the counters and without them.
  pub advance-plain :
      (m : Machine V (W × Counts))
      → plain_effect (advance full base program m) ≡ advance sem base program (plain m)
  unfolding advance
  advance-plain m =
      settle-plain (perform full base program m) ∙ ap (settle sem base) (perform-plain m)
