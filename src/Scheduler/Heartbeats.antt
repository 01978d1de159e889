-- ===== src/Scheduler/Heartbeats.antt =====
-- `set_heart_beat` and the heart beat cycle.
pub mod Laws
pub mod Entries
use kjdmud.Base.{
  ℕ, zero, suc, ◌+◌, ◌-◌, ◌*◌, ◌/◌, ◌%◌, ℤ, pos, negsuc, pos_part, neg_part, sub_ℕ, Bool, true,
  false, not, ◌&&◌, ◌||◌, List, [], ◌∷◌, ◌++◌, Option, none, some, leb, ltb, ltb_ℤ, eqb_ℤ, ◌==◌,
  if◌then◌else◌,
}
use kjdmud.Core.Text.{Text, codes}
use kjdmud.Object.Heap.{Heap, LpcObject, lock, change}
use kjdmud.Vm.Value.{address_eq}
use kjdmud.Scheduler.State.{State, HeartbeatEntry, Vm, function_call, driver}

-- `static_cast<int>` of an `int64_t`: the low 32 bits, with the sign in the highest of them.
unfoldable pub to_int : ℤ → ℤ
to_int i =
    let bits = (pos_part i + (4294967296 - neg_part i % 4294967296)) % 4294967296 in
    if ltb bits 2147483648 then pos bits else negsuc (4294967295 - bits)

abbrev pub is_negative : ℤ → Bool
is_negative (pos n) = false
is_negative (negsuc n) = true

abbrev pub is_for : Heap → ℕ → HeartbeatEntry → Bool
is_for heap a e = address_eq (lock heap e.target) (some a)

-- `std::find_if` and `erase`.
unfoldable pub erase_entry : Heap → ℕ → List HeartbeatEntry → List HeartbeatEntry
unfolding lock
erase_entry heap a [] = []
erase_entry heap a (e ∷ es) =
    let rest = erase_entry heap a es in if is_for heap a e then es else e ∷ rest

unfoldable pub has_entry : Heap → ℕ → List HeartbeatEntry → Bool
unfolding lock
has_entry heap a [] = false
has_entry heap a (e ∷ es) = let rest = has_entry heap a es in if is_for heap a e then true else rest

-- `it->ticksRemaining = ticks` at the entry that `std::find_if` finds.
unfoldable pub restart_entry : Heap → ℕ → ℤ → List HeartbeatEntry → List HeartbeatEntry
unfolding lock
restart_entry heap a ticks [] = []
restart_entry heap a ticks (e ∷ es) =
    let rest = restart_entry heap a ticks es in
    if is_for heap a e then record e { ticks_remaining = ticks } ∷ es else e ∷ rest

-- `obj->setHeartbeatInterval(interval)`.
abbrev pub set_interval : ℕ → ℤ → Heap → Heap
set_interval a interval = change a λ o. record o { heartbeat_interval = interval }

unfoldable pub set_heartbeat : ℕ → ℤ → State → State
set_heartbeat a to s =
    if eqb_ℤ to (pos 0)
    then record s {
      heap = set_interval a (pos 0) s.heap;
      heartbeats = erase_entry s.heap a s.heartbeats;
    }
    else if has_entry s.heap a s.heartbeats
    then (if is_negative to then s else record s {
      heap = set_interval a (to_int to) s.heap;
      heartbeats = restart_entry s.heap a (to_int to) s.heartbeats;
    })
    else let interval = if is_negative to then pos 1 else to_int to in
      record s {
        heap = set_interval a interval s.heap;
        heartbeats = s.heartbeats ++ record { target = some a; ticks_remaining = interval } ∷ [];
      }

unfoldable pub set_heartbeat_interval : Option ℕ → ℤ → State → State
unfolding set_heartbeat
set_heartbeat_interval none to s = s
set_heartbeat_interval (some a) to s = set_heartbeat a to s

-- `--ticks`.
abbrev pub decrement : ℤ → ℤ
decrement i = sub_ℕ (pos_part i) (neg_part i + 1)

-- The first loop of `tickHeartbeats`: the entries that stay, and the objects whose turn it is.
unfoldable pub count_down : Heap → List HeartbeatEntry → List HeartbeatEntry × List ℕ
count_down heap [] = ([], [])
count_down heap (e ∷ es) =
    let (rest, due) = count_down heap es in
    elim e.target [
      | none ↦ (rest, due)
      | some a ↦ elim (heap a) [
        | none ↦ (rest, due)
        | some o ↦
            if ltb_ℤ (decrement e.ticks_remaining) (pos 1)
            then (record e { ticks_remaining = o.heartbeat_interval } ∷ rest, a ∷ due)
            else (record e { ticks_remaining = decrement e.ticks_remaining } ∷ rest, due)
      ]
    ]

-- `while (auto shadowed = giver->shadowing().lock()) giver = shadowed;` in at most `fuel` rounds.
unfoldable pub shadow_root : ℕ → Heap → ℕ → ℕ
shadow_root zero heap a = a
shadow_root (suc f) heap a = elim (heap a) [
  | none ↦ a
  | some o ↦ elim (lock heap o.shadowing) [ none ↦ a | some b ↦ shadow_root f heap b ]
]

unfoldable pub command_giver : ℕ → Heap → ℕ → Option ℕ
unfolding shadow_root
command_giver fuel heap a =
    let root = shadow_root fuel heap a in
    elim (heap root) [ none ↦ none | some o ↦ if o.commands_enabled then some root else none ]

abbrev pub pop : List (Option ℕ) → List (Option ℕ)
pop [] = []
pop (g ∷ gs) = gs

-- One call of the second loop: the command giver is pushed, and popped whether or not the call throws.
unfoldable pub beat : Vm → ℕ → ℕ → State → State
unfolding command_giver
beat vm fuel a s =
    let pushed = record s { command_givers = command_giver fuel s.heap a ∷ s.command_givers } in
    let after = (vm.run (function_call a (codes "heart_beat") [] driver) pushed).0 in
    record after { command_givers = pop after.command_givers }

unfoldable pub beat_all : Vm → ℕ → List ℕ → State → State
unfolding beat
beat_all vm fuel [] s = s
beat_all vm fuel (a ∷ due) s = beat_all vm fuel due (beat vm fuel a s)

unfoldable pub tick_heartbeats : Vm → ℕ → State → State
unfolding count_down beat_all
tick_heartbeats vm fuel s =
    let (entries, due) = count_down s.heap s.heartbeats in
    beat_all vm fuel due (record s { heartbeats = entries })
