-- ===== src/Object/Heap.antt =====
-- include/kjdmud/object/LpcObject.hpp: the fields of an object that the scheduler and the registries
-- read, and the heap. A `shared_ptr` is null or an address; a `weak_ptr` is null or an address that
-- may hold nothing any more.
use kjdmud.Base.{ℕ, ◌≡◌, refl, arith, Bool, true, false, Option, none, some, ◌==◌, if◌then◌else◌, ℤ}
use kjdmud.Core.Text.{Text}

-- `time_reset` is `none` for the time point's `max()`.
pub record LpcObject : Type 0 where
  pub filename : Text
  pub destructed : Bool
  pub commands_enabled : Bool
  pub ever_interactive : Bool
  pub is_clone : Bool
  pub heartbeat_interval : ℤ
  pub shadowing : Option ℕ
  pub reset_state : Bool
  pub will_clean_up : Bool
  pub time_reset : Option ℕ
  pub time_of_ref : ℕ

abbrev pub Heap : Type 0
Heap = ℕ → Option LpcObject

-- `weak_ptr::lock()`: the address, if it still holds an object.
unfoldable pub lock : Heap → Option ℕ → Option ℕ
lock heap none = none
lock heap (some a) = elim (heap a) [ none ↦ none | some o ↦ some a ]

abbrev pub is_null : Option ℕ → Bool
is_null none = true
is_null (some a) = false

-- `isDestructed()` of the object that the pointer holds.
unfoldable pub is_destructed : Heap → Option ℕ → Bool
is_destructed heap none = false
is_destructed heap (some a) = elim (heap a) [ none ↦ false | some o ↦ o.destructed ]

-- An assignment to the object at the address.
unfoldable pub change : ℕ → (LpcObject → LpcObject) → Heap → Heap
change a f heap =
    λ b. if b == a then (elim (heap b) [ none ↦ none | some o ↦ some (f o) ]) else heap b

-- A change keeps what is on the heap.
pub lock-change :
    (a : ℕ) (f : LpcObject → LpcObject) (heap : Heap) (w : Option ℕ)
    → lock (change a f heap) w ≡ lock heap w
unfolding lock change
lock-change a f heap none = refl
lock-change a f heap (some b) = ground arith
