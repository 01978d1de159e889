-- ===== src/Net/Binding.antt =====
-- `Connection::attach` and `Connection::close`, and `deliverToConnection` of src/net/SnoopRelay.cpp.
use kjdmud.Base.{ℕ, Bool, true, false, List, Option, none, some, ◌==◌, if◌then◌else◌}
use kjdmud.Core.Text.{Text}
use kjdmud.Object.Heap.{Heap, LpcObject, lock, change}
use kjdmud.Net.Interactive
use kjdmud.Net.Connection.State.{Connection}
use kjdmud.Net.Connection.Output.{send}

-- The object that a connection is bound to, the registry, and what is changed of the objects. A
-- connection holds its object, which is therefore alive. The TLS session is not kept.
pub record Binding : Type 0 where
  pub bound_object : Option ℕ
  pub is_open : Bool
  pub closed : Bool
  pub registry : List Interactive.Entry
  pub heap : Heap
  pub snooped_by : ℕ → Option ℕ
  pub snooping : ℕ → Option ℕ

abbrev pub ever_interactive_set : LpcObject → LpcObject
ever_interactive_set o = record o { ever_interactive = true }

-- The first line of `attach`, for the connection at the address `self`.
unfoldable pub detach : Binding → Binding
detach s = elim s.bound_object [
  | none ↦ s
  | some old ↦ record s { registry = Interactive.remove s.heap (some old) s.registry }
]

unfoldable pub attach : ℕ → Option ℕ → Binding → Binding
unfolding detach
attach self none s = record (detach s) { bound_object = none }
attach self (some a) s =
    let d = detach s in
    record d {
      bound_object = some a;
      registry = Interactive.add (some a) self d.registry;
      heap = change a ever_interactive_set d.heap;
    }

abbrev put_link : ℕ → Option ℕ → (ℕ → Option ℕ) → ℕ → Option ℕ
put_link a link f = λ b. if b == a then link else f b

-- The snooper of the object stops to snoop.
unfoldable pub unlink : ℕ → Binding → Binding
unfolding lock
unlink a s =
    let snooping : ℕ → Option ℕ = elim (lock s.heap (s.snooped_by a)) [
      | none ↦ s.snooping
      | some snooper ↦ put_link snooper none s.snooping
    ] in
    record s { snooping = snooping; snooped_by = put_link a none s.snooped_by }

unfoldable pub release : Binding → Binding
unfolding unlink
release s = elim s.bound_object [
  | none ↦ s
  | some a ↦
      let d = unlink a s in
      record d { registry = Interactive.remove d.heap (some a) d.registry; bound_object = none }
]

unfoldable pub close : Binding → Binding
unfolding release
close s = record (release s) { is_open = false; closed = true }

-- `vm.callFunction(snooper, "receive_snoop", {text})`, if there is a snooper.
unfoldable pub snoop_call : Text → Binding → Option (ℕ × Text)
unfolding lock
snoop_call text s = elim s.bound_object [
  | none ↦ none
  | some victim ↦ elim (lock s.heap (s.snooped_by victim)) [
    | none ↦ none
    | some snooper ↦ some (snooper, text)
  ]
]

-- Nothing for a null connection; else the text is sent, and the call is made.
unfoldable pub deliver_to_connection :
    Text → Option (Connection × Binding) → Option (Connection × Option (ℕ × Text))
unfolding send snoop_call
deliver_to_connection text none = none
deliver_to_connection text (some (c, s)) = some (send text c, snoop_call text s)
