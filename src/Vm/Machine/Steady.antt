-- ===== src/Vm/Machine/Steady.antt =====
-- No pass of the loop of `VM::run` takes the count back or raises the limit, if nothing that is called
-- does.
use kjdmud.Base.{
  ℕ, ◌≤◌, ◌≡◌, refl, subst, Bool, true, false, List, [], ◌∷◌, length, Option, none, some, leb, ℤ,
  pos, negsuc, pos_part, if◌then◌else◌, arith, Option-cases, inl, inr,
}
use kjdmud.Core.Text.{Text, codes}
use kjdmud.Vm.Bytecode.{
  OpCode, push_const, push_int, push_nil, push_symbol, push_local, store_local, push_object_var,
  store_object_var, logical_not, bit_not, jump, jump_if_false, push_catch_frame, pop_catch_frame,
  make_array, invoke, call_efun, pop, dup, return, halt, CompiledProgram, get_elem?, index_of,
}
use kjdmud.Vm.Store.{
  Outcome, value, thrown, Semantics, Store, read_local, write_local, read_object_var,
  write_object_var, at_index, slot_index,
}
use kjdmud.Vm.Machine.{
  Machine, CatchFrame, Effect, goes, returns, raises, advance, perform, settle, handle, caught,
  execute_op, execute_binary, push_read, execute_store, execute_call, execute_array, push_pooled,
  execute_jump_if_false, execute_push_catch, execute_pop_catch, execute_not, execute_bit_not,
  execute_dup, execute_return, pop_many, proceed, proceed_in, jump_to, fail, answer,
}
use kjdmud.Vm.Machine.Run.{Meter}

-- The count does not go back, and the limit does not go up.
abbrev pub Spends : {W : Type 0} → Meter W → W → W → Type 0
Spends meter w w' =
    (meter.eval_cost w ≤ meter.eval_cost w')
    × (pos_part (meter.max_eval_cost w') ≤ pos_part (meter.max_eval_cost w))

-- What is asked of the driver: `set_eval_cost` sets the count and nothing of the limit, and no operation
-- and no call takes the count back or raises the limit (an efun that does is `set_eval_limit`).
pub record IsMetered {V W : Type 0} (sem : Semantics V W) (meter : Meter W) : Type 0 where
  pub cost-set : (n : ℕ) (w : W) → meter.eval_cost (meter.set_eval_cost n w) ≡ n
  pub limit-set :
      (n : ℕ) (w : W) → meter.max_eval_cost (meter.set_eval_cost n w) ≡ meter.max_eval_cost w
  pub operate_spends : (op : OpCode) (l r : V) (w : W) → Spends meter w (sem.operate op l r w).0
  pub array_spends : (vs : List V) (w : W) → Spends meter w (sem.new_array vs w).0
  pub variables_spend : (vs : List V) (w : W) → Spends meter w (sem.set_variables vs w)
  pub call_spends :
      (is_efun : Bool) (name : Text) (vs : List V) (w : W)
      → Spends meter w (sem.call is_efun name vs w).0

module _ {V W : Type 0} (sem : Semantics V W) (meter : Meter W) (laws : IsMetered sem meter)
    (base : ℕ) (program : CompiledProgram) where
  -- The machine with which the loop or a handler goes on has spent no less.
  abbrev pub Steady : W → Effect V W → Type 0
  Steady w (goes m) = Spends meter w m.store.world
  Steady w (returns v s) = Unit
  Steady w (raises t m) = Spends meter w m.store.world

  same : (w : W) → Spends meter w w
  same w = (omega arith, omega arith)

  answer-Steady :
      (m : Machine V W) (st : List V) (r : W × Outcome V V)
      → Spends meter m.store.world r.0
      → Steady m.store.world (answer m st r)
  unfolding answer proceed_in
  answer-Steady m st (w, value v) h = h
  answer-Steady m st (w, thrown t) h = h

  push_read-Steady :
      (message : Text) (o : Option (V × Store V W)) (m : Machine V W)
      → ((v : V) (s : Store V W) → o ≡ some (v, s) → Spends meter m.store.world s.world)
      → Steady m.store.world (push_read sem base message o m)
  unfolding push_read proceed_in fail
  push_read-Steady message none m h = same m.store.world
  push_read-Steady message (some (v, s)) m h = h v s refl

  if-Steady :
      (w : W) (b : Bool) (x y : Effect V W)
      → Steady w x
      → Steady w y
      → Steady w (if b then x else y)
  if-Steady w true x y h k = h
  if-Steady w false x y h k = k

  jump_to-Steady :
      (target : ℤ) (message : Text) (m : Machine V W)
      → Steady m.store.world (jump_to program.code target message m)
  unfolding jump_to
  jump_to-Steady (negsuc n) message m = same m.store.world
  jump_to-Steady (pos n) message m =
      if-Steady m.store.world (leb n (length program.code)) _ _ (same m.store.world)
        (same m.store.world)

  binary-Steady :
      (op : OpCode) (m : Machine V W) (st : List V)
      → Steady m.store.world (execute_binary sem base op m st)
  unfolding execute_binary fail
  binary-Steady op m [] = same m.store.world
  binary-Steady op m (v ∷ []) = same m.store.world
  binary-Steady op m (r ∷ l ∷ st) = answer-Steady m st _ (laws.operate_spends op l r m.store.world)

  store-Steady :
      (bad empty : Text) (write : V → Store V W → Option (Store V W)) (m : Machine V W)
      (st : List V)
      → ((v : V) (s : Store V W) → write v m.store ≡ some s → Spends meter m.store.world s.world)
      → Steady m.store.world (execute_store sem base bad empty write m st)
  unfolding execute_store proceed_in fail
  store-Steady bad empty write m [] h = elim (Option-cases (write sem.void m.store)) [
    | inl none_here ↦ rw (none_here, execute_store) (same m.store.world)
    | inr (s, here) ↦ rw (here, execute_store) (same m.store.world)
  ]
  store-Steady bad empty write m (v ∷ st) h = elim (Option-cases (write v m.store)) [
    | inl none_here ↦ rw (none_here, execute_store) (same m.store.world)
    | inr (s, here) ↦ rw (here, execute_store) (h v s here)
  ]

  call-Steady :
      (bad few : Text) (is_efun : Bool) (o : Option (ℕ × Text)) (argc : ℕ) (m : Machine V W)
      → Steady m.store.world (execute_call sem base bad few is_efun o argc m)
  unfolding execute_call fail
  call-Steady bad few is_efun none argc m = same m.store.world
  call-Steady bad few is_efun (some (i, name)) argc m =
      elim (Option-cases (pop_many argc m.stack [])) [
        | inl none_here ↦ rw (none_here, execute_call) (same m.store.world)
        | inr ((vs, st), here) ↦
            rw (here, execute_call)
              (answer-Steady m st _ (laws.call_spends is_efun name vs m.store.world))
      ]

  array-Steady :
      (o : Option (List V × List V)) (m : Machine V W)
      → Steady m.store.world (execute_array sem base o m)
  unfolding execute_array proceed_in fail
  array-Steady none m = same m.store.world
  array-Steady (some (vs, st)) m = laws.array_spends vs m.store.world

  pooled-Steady :
      (bad : Text) (make : Text → V) (o : Option (ℕ × Text)) (m : Machine V W)
      → Steady m.store.world (push_pooled sem base bad make o m)
  unfolding push_pooled proceed fail
  pooled-Steady bad make none m = same m.store.world
  pooled-Steady bad make (some (i, t)) m = same m.store.world

  jump_if_false-Steady :
      (target : ℤ) (m : Machine V W) (st : List V)
      → Steady m.store.world (execute_jump_if_false sem base program.code target m st)
  unfolding execute_jump_if_false proceed fail
  jump_if_false-Steady target m [] = same m.store.world
  jump_if_false-Steady target m (v ∷ st) =
      if-Steady m.store.world (sem.is_truthy v) _ _ (same m.store.world)
        (jump_to-Steady target _ (record m { stack = st }))

  push_catch-Steady :
      (target : ℤ) (m : Machine V W)
      → Steady m.store.world (execute_push_catch sem base program.code target m)
  unfolding execute_push_catch fail
  push_catch-Steady (negsuc n) m = same m.store.world
  push_catch-Steady (pos n) m =
      if-Steady m.store.world (leb n (length program.code)) _ _ (same m.store.world)
        (same m.store.world)

  pop_catch-Steady :
      (m : Machine V W) (fs : List CatchFrame)
      → Steady m.store.world (execute_pop_catch sem base m fs)
  unfolding execute_pop_catch fail
  pop_catch-Steady m [] = same m.store.world
  pop_catch-Steady m (f ∷ fs) = same m.store.world

  -- `!`, `~`, the copy of the top, and `return`.
  top-Steady :
      (m : Machine V W) (st : List V)
      → Steady m.store.world (execute_not sem base m st)
        × (Steady m.store.world (execute_bit_not sem base m st)
            × (Steady m.store.world (execute_dup sem base m st)
                × Steady m.store.world (execute_return sem base m st)))
  unfolding execute_not execute_bit_not execute_dup execute_return proceed fail
  top-Steady m [] = (same m.store.world, (same m.store.world, (same m.store.world, tt)))
  top-Steady m (v ∷ st) = (
    same m.store.world,
    (
      answer-Steady m st (m.store.world, sem.complement v) (same m.store.world),
      (same m.store.world, tt),
    ),
  )

  stored : {s s' : Store V W} → some s ≡ some s' → s ≡ s'
  stored h = cc

  read_pair :
      {v v' : V} {s s' : Store V W}
      → ◌≡◌ {A = Option (V × Store V W)} (some (v, s)) (some (v', s'))
      → s ≡ s'
  read_pair h = cc

  read_local-Spends :
      (operand : ℤ) (v : V) (s s' : Store V W)
      → read_local sem operand s ≡ some (v, s')
      → Spends meter s.world s'.world
  unfolding read_local
  read_local-Spends operand v s s' h = elim (Option-cases (at_index (index_of operand) s.locals)) [
    | inl bad ↦ absurd (ground (arith, bad))
    | inr ((i, x), here) ↦
        subst (λ t. Spends meter s.world t.world) (read_pair (rw (here, read_local) at h))
          (same s.world)
  ]

  write_local-Spends :
      (operand : ℤ) (v : V) (s s' : Store V W)
      → write_local sem operand v s ≡ some s'
      → Spends meter s.world s'.world
  unfolding write_local
  write_local-Spends operand v s s' h = elim (Option-cases (at_index (index_of operand) s.locals)) [
    | inl bad ↦ absurd (ground (arith, bad))
    | inr ((i, x), here) ↦
        subst (λ t. Spends meter s.world t.world) (stored (rw (here, write_local) at h))
          (same s.world)
  ]

  read_object_var-Spends :
      (operand : ℤ) (v : V) (s s' : Store V W)
      → read_object_var sem base operand s ≡ some (v, s')
      → Spends meter s.world s'.world
  unfolding read_object_var
  read_object_var-Spends operand v s s' h =
      elim (Option-cases (at_index (slot_index base operand) (sem.variables s.world))) [
        | inl bad ↦ absurd (ground (arith, bad))
        | inr ((i, x), here) ↦
            subst (λ t. Spends meter s.world t.world) (read_pair (rw (here, read_object_var) at h))
              (laws.variables_spend _ s.world)
      ]

  write_object_var-Spends :
      (operand : ℤ) (v : V) (s s' : Store V W)
      → write_object_var sem base operand v s ≡ some s'
      → Spends meter s.world s'.world
  unfolding write_object_var
  write_object_var-Spends operand v s s' h =
      elim (Option-cases (at_index (slot_index base operand) (sem.variables s.world))) [
        | inl bad ↦ absurd (ground (arith, bad))
        | inr ((i, x), here) ↦
            subst (λ t. Spends meter s.world t.world) (stored (rw (here, write_object_var) at h))
              (laws.variables_spend _ s.world)
      ]

  op-Steady :
      (op : OpCode) (operand : ℤ) (argc : ℕ) (m : Machine V W)
      → Steady m.store.world (execute_op sem base program op operand argc m)
  unfolding execute_op proceed
  op-Steady push_const operand argc m = pooled-Steady _ _ _ m
  op-Steady push_int operand argc m = same m.store.world
  op-Steady push_nil operand argc m = same m.store.world
  op-Steady push_symbol operand argc m = pooled-Steady _ _ _ m
  op-Steady push_local operand argc m =
      push_read-Steady _ _ m (λ v s h. read_local-Spends operand v m.store s h)
  op-Steady store_local operand argc m =
      store-Steady (codes "StoreLocal: bad local slot index") (codes "StoreLocal: stack underflow")
        (write_local sem operand) m m.stack (λ v s h. write_local-Spends operand v m.store s h)
  op-Steady push_object_var operand argc m =
      push_read-Steady _ _ m (λ v s h. read_object_var-Spends operand v m.store s h)
  op-Steady store_object_var operand argc m =
      store-Steady (codes "StoreObjectVar: bad object variable slot index")
        (codes "StoreObjectVar: stack underflow") (write_object_var sem base operand) m m.stack
        (λ v s h. write_object_var-Spends operand v m.store s h)
  op-Steady logical_not operand argc m = (top-Steady m m.stack).0
  op-Steady bit_not operand argc m = (top-Steady m m.stack).1.0
  op-Steady jump operand argc m = jump_to-Steady operand _ m
  op-Steady jump_if_false operand argc m = jump_if_false-Steady operand m m.stack
  op-Steady push_catch_frame operand argc m = push_catch-Steady operand m
  op-Steady pop_catch_frame operand argc m = pop_catch-Steady m m.frames
  op-Steady make_array operand argc m = array-Steady _ m
  op-Steady invoke operand argc m = call-Steady _ (codes "Call: bad arg count for ") false _ argc m
  op-Steady call_efun operand argc m =
      call-Steady _ (codes "CallEfun: bad arg count for ") true _ argc m
  op-Steady pop operand argc m = same m.store.world
  op-Steady dup operand argc m = (top-Steady m m.stack).1.1.0
  op-Steady return operand argc m = (top-Steady m m.stack).1.1.1
  op-Steady halt operand argc m = tt
  op-Steady op operand argc m = binary-Steady op m m.stack

  settle-Steady : (w : W) (e : Effect V W) → Steady w e → Steady w (settle sem base e)
  unfolding settle
  settle-Steady w (goes m) h = h
  settle-Steady w (returns v s) h = h
  settle-Steady w (raises t m) h = frames_case m.frames
    where
      frames_case : (fs : List CatchFrame) → Steady w (handle sem base t m fs)
      frames_case [] = h
      frames_case (f ∷ fs) = elim (Option-cases (caught sem base t)) [
        | inl passes ↦ rw (passes, handle) h
        | inr (v, held) ↦ rw (held, handle) h
      ]

  pub advance-Steady : (m : Machine V W) → Steady m.store.world (advance sem base program m)
  unfolding advance perform
  advance-Steady m =
      settle-Steady m.store.world (perform sem base program m)
        (elim (Option-cases (get_elem? m.ip program.code)) [
          | inl past ↦ rw (past, perform) tt
          | inr (i, here) ↦ rw (here, perform) (op-Steady i.op i.operand i.arg_count m)
        ])
