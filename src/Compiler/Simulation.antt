-- ===== src/Compiler/Simulation.antt =====
-- The machine of Vm/Machine.antt brings about the answer of an evaluation.
pub mod Instructions
pub mod Slots
pub mod Jumps
use kjdmud.Base.{
  ℕ, ℤ, suc, subst, ◌≡◌, refl, sym, ap, ◌∙◌, List, [], ◌∷◌, ◌++◌, append_assoc, Option, none, some,
  ◌⊎◌, inl, inr,
}
use kjdmud.Vm.Bytecode.{CompiledProgram, OpCode, Instruction, get_elem?}
use kjdmud.Vm.Store.{Thrown, Outcome, value, thrown, Semantics, Store}
use kjdmud.Vm.Machine.{
  Machine, CatchFrame, Effect, goes, returns, raises, advance, perform, settle, execute_op, caught,
}
use kjdmud.Compiler.Eval.{Answer, bind}

abbrev pub machine : {V W : Type 0} → ℕ → List V → Store V W → List CatchFrame → Machine V W
machine ip st s fs = record { ip = ip; stack = st; store = s; frames = fs }

-- The instruction at `ip`.
abbrev pub At : CompiledProgram → ℕ → OpCode → ℤ → ℕ → Type 0
At program ip op operand argc =
    get_elem? ip program.code ≡ some (record { op = op; operand = operand; arg_count = argc })

module _ {V W : Type 0} (sem : Semantics V W) (base : ℕ) (program : CompiledProgram) where
  -- One machine goes over into another in some passes of the loop.
  pub data Reaches (m : Machine V W) : Machine V W → Type 0 where
    here : Reaches m m
    further :
        {m1 m2 : Machine V W} → Reaches m m1 → advance sem base program m1 ≡ goes m2 → Reaches m m2

  pub Reaches-trans : {a b c : Machine V W} → Reaches a b → Reaches b c → Reaches a c
  Reaches-trans h here = h
  Reaches-trans h (further k e) = further (Reaches-trans h k) e

  -- The machine comes to an instruction that throws `t`, in the store `s`, and has the stack `st` still
  -- below what it has pushed, and the frames `fs` below those that `t` passes by.
  pub record Raises (m : Machine V W) (t : Thrown V) (s : Store V W) (st : List V)
      (fs : List CatchFrame) : Type 0 where
    pub before : Machine V W
    pub ip : ℕ
    pub junk : List V
    pub extra : List CatchFrame
    pub passes : (extra ≡ []) ⊎ (caught sem base t ≡ none)
    pub comes : Reaches m before
    pub throws :
        perform sem base program before ≡ raises t (machine ip (junk ++ st) s (extra ++ fs))

  -- The machine brings the answer about: it comes to `ip` with the value on the stack, as `land` puts
  -- it there, or it throws what the answer has.
  pub data Arrives {A : Type 0} (m : Machine V W) (ip : ℕ) (land : A → List V) (st : List V)
      (fs : List CatchFrame) : Answer V W A → Type 0 where
    lands :
        {s : Store V W} {a : A}
        → Reaches m (machine ip (land a) s fs)
        → Arrives m ip land st fs (s, value a)
    breaks :
        {s : Store V W} {t : Thrown V} → Raises m t s st fs → Arrives m ip land st fs (s, thrown t)

  Raises-Reaches :
      {m m' : Machine V W} {t : Thrown V} {s : Store V W} {st : List V} {fs : List CatchFrame}
      → Reaches m m'
      → Raises m' t s st fs
      → Raises m t s st fs
  Raises-Reaches h r = record {
    before = r.before;
    ip = r.ip;
    junk = r.junk;
    extra = r.extra;
    passes = r.passes;
    comes = Reaches-trans h r.comes;
    throws = r.throws;
  }

  pub Arrives-Reaches :
      {A : Type 0} {m m' : Machine V W} {ip : ℕ} {land : A → List V} {st : List V}
      {fs : List CatchFrame} {r : Answer V W A}
      → Reaches m m'
      → Arrives m' ip land st fs r
      → Arrives m ip land st fs r
  Arrives-Reaches h (lands k) = lands (Reaches-trans h k)
  Arrives-Reaches h (breaks k) = breaks (Raises-Reaches h k)

  -- One evaluation and then another.
  pub Arrives-bind :
      {A B : Type 0} {m : Machine V W} {i j : ℕ} {land : A → List V} {land' : B → List V}
      {st : List V} {fs : List CatchFrame} {r : Answer V W A} {k : A → Store V W → Answer V W B}
      → Arrives m i land st fs r
      → ((a : A) (s : Store V W)
          → r ≡ (s, value a)
          → Arrives (machine i (land a) s fs) j land' st fs (k a s))
      → Arrives m j land' st fs (bind r k)
  unfolding bind
  Arrives-bind (lands {s} {a} h) f = Arrives-Reaches h (f a s refl)
  Arrives-bind (breaks h) f = breaks h

  pub Arrives-value :
      {A : Type 0} {m : Machine V W} {i : ℕ} {land : A → List V} {st : List V}
      {fs : List CatchFrame} {s : Store V W} {a : A}
      → Arrives m i land st fs (s, value a)
      → Reaches m (machine i (land a) s fs)
  Arrives-value (lands h) = h

  -- The same stack, for a value that is computed from the answer's.
  pub Arrives-map :
      {A B : Type 0} {m : Machine V W} {i : ℕ} {land : B → List V} {st : List V}
      {fs : List CatchFrame} {r : Answer V W A} (h : A → B)
      → Arrives m i (λ a. land (h a)) st fs r
      → Arrives m i land st fs (bind r λ a s. (s, value (h a)))
  unfolding bind
  Arrives-map h (lands k) = lands k
  Arrives-map h (breaks k) = breaks k

  -- Some more passes after the value is there.
  pub Arrives-after :
      {A : Type 0} {m : Machine V W} {i j : ℕ} {land land' : A → List V} {st : List V}
      {fs : List CatchFrame} {r : Answer V W A}
      → Arrives m i land st fs r
      → ((a : A) (s : Store V W) → Reaches (machine i (land a) s fs) (machine j (land' a) s fs))
      → Arrives m j land' st fs r
  Arrives-after (lands {s} {a} h) k = lands (Reaches-trans h (k a s))
  Arrives-after (breaks h) k = breaks h

  -- What is kept with one value more is kept without it.
  pub Arrives-under :
      {A : Type 0} {m : Machine V W} {i : ℕ} {land : A → List V} {v : V} {st : List V}
      {fs : List CatchFrame} {r : Answer V W A}
      → Arrives m i land (v ∷ st) fs r
      → Arrives m i land st fs r
  Arrives-under (lands h) = lands h
  Arrives-under {v} {st} {fs} (breaks {s} {t} h) = breaks (record {
    before = h.before;
    ip = h.ip;
    junk = h.junk ++ (v ∷ []);
    extra = h.extra;
    passes = h.passes;
    comes = h.comes;
    throws =
        subst
          (λ stack.
            perform sem base program h.before ≡ raises t (machine h.ip stack s (h.extra ++ fs)))
          (sym (append_assoc h.junk (v ∷ []) st)) h.throws;
  })

  -- A pass that performs an instruction which does not throw.
  pub Reaches-perform : {m m' : Machine V W} → perform sem base program m ≡ goes m' → Reaches m m'
  unfolding advance
  Reaches-perform h = further here (ap (settle sem base) h)

  pub perform-at :
      (m : Machine V W) (i : Instruction)
      → get_elem? m.ip program.code ≡ some i
      → perform sem base program m ≡ execute_op sem base program i.op i.operand i.arg_count m
  unfolding perform
  perform-at m i h = rw (h, perform) refl
