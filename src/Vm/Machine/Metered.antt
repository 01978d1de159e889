-- ===== src/Vm/Machine/Metered.antt =====
-- A driver with the two counters: what it does besides counting does not depend on them.
use kjdmud.Base.{ℕ, Bool, List, Option, none, some, ℤ}
use kjdmud.Core.Text.{Text}
use kjdmud.Vm.Store.{Semantics, Store}
use kjdmud.Vm.Machine.{Machine, Effect, goes, returns, raises}
use kjdmud.Vm.Machine.Run.{Meter}

pub record Counts : Type 0 where
  pub cost : ℕ
  pub limit : ℤ

abbrev pub counters : {W : Type 0} → Meter (W × Counts)
counters = record {
  eval_cost = λ w. w.1.cost;
  max_eval_cost = λ w. w.1.limit;
  set_eval_cost = λ n w. (w.0, record w.1 { cost = n });
}

-- A call changes the counters in any way.
abbrev pub Spending : (V W : Type 0) → Type 0
Spending V W = Bool → Text → List V → W × Counts → Counts

abbrev pub metered : {V W : Type 0} → Semantics V W → Spending V W → Semantics V (W × Counts)
metered sem spent = record {
  void = sem.void;
  nil = sem.nil;
  number = sem.number;
  text = sem.text;
  symbol = sem.symbol;
  is_truthy = sem.is_truthy;
  coerce = λ w. sem.coerce w.0;
  operate = λ op l r w. let a = sem.operate op l r w.0 in ((a.0, w.1), a.1);
  complement = sem.complement;
  new_array = λ vs w. let a = sem.new_array vs w.0 in ((a.0, w.1), a.1);
  variables = λ w. sem.variables w.0;
  set_variables = λ vs w. (sem.set_variables vs w.0, w.1);
  call = λ is_efun name vs w.
      let a = sem.call is_efun name vs w.0 in ((a.0, spent is_efun name vs w), a.1);
}

module _ {V W : Type 0} where
  -- Without the counters.
  abbrev pub plain_store : Store V (W × Counts) → Store V W
  plain_store s = record { locals = s.locals; world = s.world.0 }

  abbrev pub plain : Machine V (W × Counts) → Machine V W
  plain m = record { ip = m.ip; stack = m.stack; store = plain_store m.store; frames = m.frames }

  abbrev pub plain_effect : Effect V (W × Counts) → Effect V W
  plain_effect (goes m) = goes (plain m)
  plain_effect (returns v s) = returns v (plain_store s)
  plain_effect (raises t m) = raises t (plain m)

  abbrev pub plain_read : Option (V × Store V (W × Counts)) → Option (V × Store V W)
  plain_read none = none
  plain_read (some (v, s)) = some (v, plain_store s)

  abbrev pub plain_write : Option (Store V (W × Counts)) → Option (Store V W)
  plain_write none = none
  plain_write (some s) = some (plain_store s)
