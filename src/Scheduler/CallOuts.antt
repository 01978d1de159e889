-- ===== src/Scheduler/CallOuts.antt =====
-- `call_out`: adding, finding, removing and firing entries.
pub mod Handles
pub mod Firing
use kjdmud.Base.{
  ℕ, zero, suc, ◌+◌, ◌-◌, ◌/◌, ℤ, pos, negsuc, Bool, true, false, not, ◌&&◌, ◌||◌, List, [], ◌∷◌,
  ◌++◌, Option, none, some, select, leb, ◌==◌, if◌then◌else◌,
}
use kjdmud.Core.Text.{Text, text_eq}
use kjdmud.Object.Heap.{Heap, lock, is_null, is_destructed}
use kjdmud.Vm.Value.{address_eq}
use kjdmud.Scheduler.State.{
  State, CallOutEntry, Closure, Vm, Call, function_call, closure_call, internal,
}

-- `addCallOut`, with `newCallOutHandle`: the handle is the counter before it goes up.
unfoldable pub add_call_out : CallOutEntry → State → State × ℕ
add_call_out entry s = (
  record s {
    next_handle = s.next_handle + 1;
    call_outs = s.call_outs ++ record entry { handle = s.next_handle } ∷ [];
  },
  s.next_handle,
)

abbrev pub nanoseconds : ℕ
nanoseconds = 1000000000

unfoldable pub remaining_seconds : ℕ → ℕ → ℤ
remaining_seconds now due_at = if leb due_at now then pos 0 else pos ((due_at - now) / nanoseconds)

abbrev pub minus_one : ℤ
minus_one = negsuc 0

-- `!closure && target.lock() == owner && function == name`.
unfoldable pub is_named : Heap → Option ℕ → Text → CallOutEntry → Bool
unfolding lock text_eq
is_named heap owner name e = elim e.closure [
  | some c ↦ false
  | none ↦ address_eq (lock heap e.target) owner && text_eq e.function name
]

abbrev pub has_handle : ℕ → CallOutEntry → Bool
has_handle h e = e.handle == h

-- The loop of the two `remove` methods: the first entry that passes is erased, and the seconds that
-- it had left are returned.
unfoldable pub erase_first : (CallOutEntry → Bool) → ℕ → List CallOutEntry → ℤ × List CallOutEntry
unfolding remaining_seconds
erase_first test now [] = (minus_one, [])
erase_first test now (e ∷ es) =
    let (left, rest) = erase_first test now es in
    if test e then (remaining_seconds now e.due_at, es) else (left, e ∷ rest)

-- The loop of the two `find` methods.
unfoldable pub find_first : (CallOutEntry → Bool) → ℕ → List CallOutEntry → ℤ
unfolding remaining_seconds
find_first test now [] = minus_one
find_first test now (e ∷ es) =
    let later = find_first test now es in if test e then remaining_seconds now e.due_at else later

abbrev pub with_call_outs : State → ℤ × List CallOutEntry → State × ℤ
with_call_outs s (left, es) = (record s { call_outs = es }, left)

unfoldable pub remove_call_out_by_name : Option ℕ → Text → State → State × ℤ
unfolding is_named erase_first
remove_call_out_by_name none name s = (s, minus_one)
remove_call_out_by_name (some a) name s =
    with_call_outs s (erase_first (is_named s.heap (some a) name) s.clock s.call_outs)

unfoldable pub remove_call_out_by_handle : ℕ → State → State × ℤ
unfolding erase_first
remove_call_out_by_handle h s = with_call_outs s (erase_first (has_handle h) s.clock s.call_outs)

unfoldable pub find_call_out_by_name : Option ℕ → Text → State → ℤ
unfolding is_named find_first
find_call_out_by_name none name s = minus_one
find_call_out_by_name (some a) name s =
    find_first (is_named s.heap (some a) name) s.clock s.call_outs

unfoldable pub find_call_out_by_handle : ℕ → State → ℤ
unfolding find_first
find_call_out_by_handle h s = find_first (has_handle h) s.clock s.call_outs

-- The object that an entry belongs to, if it is still there.
unfoldable pub owner_of : Heap → CallOutEntry → Option ℕ
unfolding lock
owner_of heap e = elim e.closure [ some c ↦ lock heap c.owner | none ↦ lock heap e.target ]

-- `matchesObj || ownerGone`.
unfoldable pub is_dropped : Heap → Option ℕ → CallOutEntry → Bool
unfolding owner_of is_destructed
is_dropped heap obj e =
    let owner = owner_of heap e in
    (not (is_null obj) && address_eq owner obj) || (is_null owner || is_destructed heap owner)

unfoldable pub remove_all_call_outs_for_object : Option ℕ → State → State
unfolding is_dropped
remove_all_call_outs_for_object obj s = record s {
  call_outs = select (λ e. not (is_dropped s.heap obj e)) s.call_outs;
}

abbrev pub is_due : ℕ → CallOutEntry → Bool
is_due now e = leb e.due_at now

-- One call of the second loop of `tickCallOuts`; an error in it is caught and goes no further.
unfoldable pub fire_call_out : Vm → CallOutEntry → State → State
unfolding lock
fire_call_out vm e s = elim e.closure [
  | some c ↦ (vm.run (closure_call c.address e.args) s).0
  | none ↦ elim (lock s.heap e.target) [
    | none ↦ s
    | some a ↦ (vm.run (function_call a e.function e.args internal) s).0
  ]
]

unfoldable pub fire_call_outs : Vm → List CallOutEntry → State → State
unfolding fire_call_out
fire_call_outs vm [] s = s
fire_call_outs vm (e ∷ es) s = fire_call_outs vm es (fire_call_out vm e s)

-- The first loop takes the due entries out before any of them is called.
unfoldable pub tick_call_outs : Vm → State → State
unfolding fire_call_outs
tick_call_outs vm s =
    fire_call_outs vm (select (is_due s.clock) s.call_outs)
      (record s { call_outs = select (λ e. not (is_due s.clock e)) s.call_outs })
