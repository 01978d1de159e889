-- ===== src/Scheduler/CallOuts/Firing.antt =====
-- What a sweep of the call_outs fires, and that an error in one of them does not reach the others.
use mathlib.Core.List.{Perm}
use mathlib.Core.List.Perm
use kjdmud.Base.{
  ℕ, ◌≡◌, refl, Bool, true, false, not, List, [], ◌∷◌, Option, some, select, arith, Bool-cases,
  Option-cases, ◌≢◌, inl, inr, All,
}
use kjdmud.Object.Heap.{Heap, lock, is_destructed}
use kjdmud.Scheduler.State.{State, CallOutEntry, Vm, Call, function_call, closure_call, internal}
use kjdmud.Scheduler.CallOuts.{
  is_due, fire_call_out, fire_call_outs, tick_call_outs, owner_of, is_dropped,
  remove_all_call_outs_for_object,
}

All-select :
    (P : CallOutEntry → Type 0) (test : CallOutEntry → Bool) (es : List CallOutEntry)
    → ((e : CallOutEntry) → test e ≡ true → P e)
    → All P (select test es)
All-select P test [] h = tt
All-select P test (e ∷ es) h = elim (Bool-cases (test e)) [
  | inl hit ↦ rw hit (h e hit, All-select P test es h)
  | inr miss ↦ rw miss (All-select P test es h)
]

module _ (vm other : Vm) (same : (c : Call) (s : State) → (vm.run c s).0 ≡ (other.run c s).0) where
  fire_call_out-same :
      (e : CallOutEntry) (s : State) → fire_call_out vm e s ≡ fire_call_out other e s
  unfolding fire_call_out
  fire_call_out-same e s = elim (Option-cases e.closure) [
    | inr (c, h) ↦ ground (arith, h, same (closure_call c.address e.args) s)
    | inl h ↦ elim (Option-cases (lock s.heap e.target)) [
      | inl gone ↦ ground (arith, h, gone)
      | inr (a, here) ↦ ground (arith, h, here, same (function_call a e.function e.args internal) s)
    ]
  ]

  fire_call_outs-same :
      (es : List CallOutEntry) (s : State) → fire_call_outs vm es s ≡ fire_call_outs other es s
  unfolding fire_call_outs
  fire_call_outs-same [] s = refl
  fire_call_outs-same (e ∷ es) s =
      rw (fire_call_out-same e s) (fire_call_outs-same es (fire_call_out other e s))

  -- Whether a fired call returns or throws makes no difference to the sweep: two virtual machines
  -- whose calls change the state alike give the same sweep.
  pub tick_call_outs_isolated : (s : State) → tick_call_outs vm s ≡ tick_call_outs other s
  unfolding tick_call_outs
  tick_call_outs_isolated s =
      fire_call_outs-same (select (is_due s.clock) s.call_outs)
        (record s { call_outs = select (λ e. not (is_due s.clock e)) s.call_outs })

-- The entry belongs to an object that is there, is not destructed, and is not `obj`.
abbrev pub IsKept : Heap → Option ℕ → CallOutEntry → Type 0
IsKept heap obj e =
    (a : ℕ) × (owner_of heap e ≡ some a) × (is_destructed heap (some a) ≡ false) × (obj ≢ some a)

not-is_dropped :
    (heap : Heap) (obj : Option ℕ) (e : CallOutEntry)
    → is_dropped heap obj e ≡ false
    → IsKept heap obj e
unfolding is_dropped
not-is_dropped heap obj e h = elim (Option-cases (owner_of heap e)) [
  | inl gone ↦ absurd (ground (arith, gone))
  | inr (a, here) ↦ (a, here, ground (arith, here), λ p. ground (arith, here, p))
]

-- After the call_outs of an object are removed, every entry left belongs to an object that is there,
-- is not destructed, and is another one.
pub remove_all_call_outs_for_object-IsKept :
    (obj : Option ℕ) (s : State)
    → All (IsKept s.heap obj) (remove_all_call_outs_for_object obj s).call_outs
unfolding remove_all_call_outs_for_object
remove_all_call_outs_for_object-IsKept obj s =
    All-select _ _ s.call_outs (λ e h. not-is_dropped s.heap obj e (ground arith))
