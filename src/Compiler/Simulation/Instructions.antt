-- ===== src/Compiler/Simulation/Instructions.antt =====
-- What the instructions of operators, calls and arrays bring about.
use kjdmud.Base.{
  ℕ, suc, ◌≡◌, ◌+◌, refl, ap, ◌∙◌, subst, Bool, true, false, List, [], ◌∷◌, ◌++◌, length, some,
  if◌then◌else◌, ℤ, pos, arith, inl, append-nil,
}
use kjdmud.Core.Text.{Text}
use kjdmud.Vm.Bytecode.{
  OpCode, eq, neq, lt, lte, gt, gte, add, sub, mul, div, modulo, bit_and, bit_or, bit_xor, shl, shr,
  logical_not, bit_not, make_array, CompiledProgram, get_elem?,
}
use kjdmud.Vm.Store.{Outcome, value, thrown, Semantics, Store, at_index}
use kjdmud.Vm.Machine.{
  Machine, CatchFrame, perform, execute_op, execute_binary, execute_call, execute_array,
  execute_not, execute_bit_not, answer, proceed, proceed_in, pop_many,
}
use kjdmud.Compiler.CodeGen.{call_op}
use kjdmud.Compiler.Eval.{in_store, apply, make}
use kjdmud.Compiler.Simulation.{
  At, machine, Reaches, Arrives, lands, breaks, Reaches-perform, perform-at,
}

-- The opcodes of the binary operators.
abbrev pub is_operator : OpCode → Bool
is_operator eq = true
is_operator neq = true
is_operator lt = true
is_operator lte = true
is_operator gt = true
is_operator gte = true
is_operator add = true
is_operator sub = true
is_operator mul = true
is_operator div = true
is_operator modulo = true
is_operator bit_and = true
is_operator bit_or = true
is_operator bit_xor = true
is_operator shl = true
is_operator shr = true
is_operator _ = false

-- The stack after the values were pushed, the first of them first.
unfoldable pub push_all {ℓ} : {A : Type ℓ} → List A → List A → List A
push_all [] st = st
push_all (v ∷ vs) st = push_all vs (v ∷ st)

pop_many-push_all_more {ℓ} :
    {A : Type ℓ} (vs st args : List A) (n : ℕ)
    → pop_many (length vs + n) (push_all vs st) args ≡ pop_many n st (vs ++ args)
unfolding push_all pop_many
pop_many-push_all_more [] st args n = let e : 0 + n ≡ n = omega arith in rw e refl
pop_many-push_all_more (v ∷ vs) st args n =
    let e : suc (length vs) + n ≡ length vs + suc n = omega arith in
    rw e (pop_many-push_all_more vs (v ∷ st) args (suc n))

-- As many values are popped as were pushed, in their order.
pub pop_many-push_all {ℓ} :
    {A : Type ℓ} (vs st : List A) → pop_many (length vs) (push_all vs st) [] ≡ some (vs, st)
unfolding pop_many
pop_many-push_all vs st =
    let e : length vs + 0 ≡ length vs = omega arith in
    subst (λ n. pop_many n (push_all vs st) [] ≡ some (vs, st)) e
      (pop_many-push_all_more vs st [] 0 ∙ ap (λ vs'. some (vs', st)) (append-nil vs))

module _ {V W : Type 0} (sem : Semantics V W) (base : ℕ) (program : CompiledProgram) where
  operator-perform :
      (op : OpCode) (operand : ℤ) (argc : ℕ) (m : Machine V W)
      → is_operator op ≡ true
      → execute_op sem base program op operand argc m ≡ execute_binary sem base op m m.stack
  unfolding execute_op
  operator-perform eq operand argc m h = refl
  operator-perform neq operand argc m h = refl
  operator-perform lt operand argc m h = refl
  operator-perform lte operand argc m h = refl
  operator-perform gt operand argc m h = refl
  operator-perform gte operand argc m h = refl
  operator-perform add operand argc m h = refl
  operator-perform sub operand argc m h = refl
  operator-perform mul operand argc m h = refl
  operator-perform div operand argc m h = refl
  operator-perform modulo operand argc m h = refl
  operator-perform bit_and operand argc m h = refl
  operator-perform bit_or operand argc m h = refl
  operator-perform bit_xor operand argc m h = refl
  operator-perform shl operand argc m h = refl
  operator-perform shr operand argc m h = refl
  operator-perform _ operand argc m h = ground arith

  -- What an instruction comes to that pushes the answer of an operation.
  answer-Arrives :
      {m : Machine V W} (ip : ℕ) (st st' : List V) (s : Store V W) (fs : List CatchFrame)
      (r : W × Outcome V V)
      → perform sem base program m ≡ answer (machine ip st' s fs) st r
      → Arrives sem base program m (suc ip) (λ v. v ∷ st) st fs (in_store s r)
  unfolding answer in_store proceed_in
  answer-Arrives ip st st' s fs (w, value v) h = lands (Reaches-perform sem base program h)
  answer-Arrives {m} ip st st' s fs (w, thrown t) h = breaks (record {
    before = m;
    ip = ip;
    junk = [];
    extra = [];
    passes = inl refl;
    comes = Reaches.here;
    throws = h;
  })

  module _ (ip : ℕ) (st : List V) (s : Store V W) (fs : List CatchFrame) where
    pub operator-Arrives :
        (op : OpCode) (l r : V)
        → is_operator op ≡ true
        → At program ip op (pos 0) 0
        → Arrives sem base program
            (machine ip (r ∷ l ∷ st) s fs)
            (suc ip)
            (λ v. v ∷ st)
            st
            fs
            (apply sem base op l r s)
    unfolding apply execute_binary
    operator-Arrives op l r e h =
        answer-Arrives ip st (r ∷ l ∷ st) s fs (sem.operate op l r s.world)
          (perform-at sem base program _ _ h ∙ operator-perform op (pos 0) 0 _ e)

    pub not-Reaches :
        (v : V)
        → At program ip logical_not (pos 0) 0
        → Reaches sem base program
            (machine ip (v ∷ st) s fs)
            (machine (suc ip) (sem.number (if sem.is_truthy v then pos 0 else pos 1) ∷ st) s fs)
    unfolding execute_op execute_not proceed
    not-Reaches v h = Reaches-perform sem base program (perform-at sem base program _ _ h)

    pub bit_not-Arrives :
        (v : V)
        → At program ip bit_not (pos 0) 0
        → Arrives sem base program
            (machine ip (v ∷ st) s fs)
            (suc ip)
            (λ w. w ∷ st)
            st
            fs
            (in_store s (s.world, sem.complement v))
    unfolding execute_op execute_bit_not
    bit_not-Arrives v h =
        answer-Arrives ip st (v ∷ st) s fs (s.world, sem.complement v)
          (perform-at sem base program _ _ h)

    pub call-Arrives :
        (is_efun : Bool) (i : ℕ) (name : Text) (vs : List V)
        → At program ip (call_op is_efun) (pos i) (length vs)
        → get_elem? i program.string_pool ≡ some name
        → Arrives sem base program
            (machine ip (push_all vs st) s fs)
            (suc ip)
            (λ v. v ∷ st)
            st
            fs
            (in_store s (sem.call is_efun name vs s.world))
    unfolding execute_op execute_call at_index
    call-Arrives true i name vs h k =
        answer-Arrives ip st (push_all vs st) s fs (sem.call true name vs s.world) (
          perform-at sem base program _ _ h
          ∙ rw (k, pop_many-push_all, execute_op, execute_call, at_index) refl)
    call-Arrives false i name vs h k =
        answer-Arrives ip st (push_all vs st) s fs (sem.call false name vs s.world) (
          perform-at sem base program _ _ h
          ∙ rw (k, pop_many-push_all, execute_op, execute_call, at_index) refl)

    pub array-Arrives :
        (vs : List V)
        → At program ip make_array (pos 0) (length vs)
        → Arrives sem base program
            (machine ip (push_all vs st) s fs)
            (suc ip)
            (λ v. v ∷ st)
            st
            fs
            (make sem base vs s)
    unfolding execute_op execute_array make proceed_in
    array-Arrives vs h = lands (
        Reaches-perform sem base program (
          perform-at sem base program _ _ h
          ∙ rw (pop_many-push_all, execute_op, execute_array) refl))
