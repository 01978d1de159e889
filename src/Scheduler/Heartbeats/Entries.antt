-- ===== src/Scheduler/Heartbeats/Entries.antt =====
-- Which objects have an entry after `set_heart_beat`, and with which interval.
use kjdmud.Base.{
  ℕ, ◌≡◌, refl, ◌∙◌, ℤ, pos, false, not, ◌||◌, List, [], ◌∷◌, ◌++◌, some, arith, ◌==◌,
  if◌then◌else◌, Bool-cases, Option-cases, inl, inr, eqb_ℤ,
}
use kjdmud.Object.Heap.{Heap, LpcObject, lock, change, lock-change}
use kjdmud.Scheduler.State.{State, HeartbeatEntry}
use kjdmud.Scheduler.Heartbeats.{
  to_int, is_for, erase_entry, has_entry, restart_entry, set_heartbeat, is_negative,
}

lock-some : (heap : Heap) (a : ℕ) (o : LpcObject) → heap a ≡ some o → lock heap (some a) ≡ some a
unfolding lock
lock-some heap a o h = rw (h, lock)

has_entry-change :
    (a b : ℕ) (f : LpcObject → LpcObject) (heap : Heap) (es : List HeartbeatEntry)
    → has_entry (change a f heap) b es ≡ has_entry heap b es
unfolding has_entry
has_entry-change a b f heap [] = refl
has_entry-change a b f heap (e ∷ es) =
    ground (arith, lock-change a f heap e.target, has_entry-change a b f heap es)

-- No object has two entries.
abbrev pub Sole : Heap → List HeartbeatEntry → Type 0
Sole heap [] = Unit
Sole heap (e ∷ es) =
    ((b : ℕ) → lock heap e.target ≡ some b → has_entry heap b es ≡ false) × Sole heap es

module _ (heap : Heap) (a b : ℕ) where
  has_entry-erase :
      (es : List HeartbeatEntry)
      → Sole heap es
      → has_entry heap b (erase_entry heap a es) ≡ (if b == a then false else has_entry heap b es)
  unfolding has_entry erase_entry
  has_entry-erase [] h = ground arith
  has_entry-erase (e ∷ es) h = elim (Option-cases (lock heap e.target)) [
    | inl gone ↦ ground (arith, gone, has_entry-erase es h.1)
    | inr (d, here) ↦ ground (arith, here, h.0 d here, has_entry-erase es h.1)
  ]

  has_entry-restart :
      (ticks : ℤ) (es : List HeartbeatEntry)
      → has_entry heap b (restart_entry heap a ticks es) ≡ has_entry heap b es
  unfolding has_entry restart_entry
  has_entry-restart ticks [] = refl
  has_entry-restart ticks (e ∷ es) = ground (arith, has_entry-restart ticks es)

  has_entry-append :
      (e : HeartbeatEntry) (es : List HeartbeatEntry)
      → has_entry heap b (es ++ e ∷ []) ≡ (has_entry heap b es || is_for heap b e)
  unfolding has_entry
  has_entry-append e [] = ground arith
  has_entry-append e (d ∷ es) = ground (arith, has_entry-append e es)

-- If no object has two entries, then after `set_heart_beat(to)` on an object that is there it has an entry exactly if `to` is not 0, and
-- every other object has one exactly if it had one.
pub set_heartbeat-has_entry :
    (a b : ℕ) (to : ℤ) (s : State) (o : LpcObject)
    → s.heap a ≡ some o
    → Sole s.heap s.heartbeats
    → has_entry (set_heartbeat a to s).heap b (set_heartbeat a to s).heartbeats
      ≡ (if b == a then not (eqb_ℤ to (pos 0)) else has_entry s.heap b s.heartbeats)
unfolding set_heartbeat
set_heartbeat-has_entry a b to s o h sole = elim (Bool-cases (eqb_ℤ to (pos 0))) [
  | inl off ↦
      rw (off, has_entry-change a b _ s.heap (erase_entry s.heap a s.heartbeats))
        (has_entry-erase s.heap a b s.heartbeats sole)
  | inr set ↦ elim (Bool-cases (has_entry s.heap a s.heartbeats)) [
    | inl old ↦ elim (Bool-cases (is_negative to)) [
      | inl negative ↦ ground (arith, set, old, negative)
      | inr positive ↦
          rw
            (
              set,
              old,
              positive,
              has_entry-change a b _ s.heap (restart_entry s.heap a (to_int to) s.heartbeats),
            )
            (has_entry-restart s.heap a b (to_int to) s.heartbeats ∙ ground (arith, old))
    ]
    | inr new ↦
        rw (set, new, has_entry-change a b _ s.heap _, has_entry-append s.heap a b _ s.heartbeats)
          (ground (arith, lock-some s.heap a o h))
  ]
]
