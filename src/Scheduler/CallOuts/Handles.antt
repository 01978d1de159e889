-- ===== src/Scheduler/CallOuts/Handles.antt =====
-- The handles of `call_out` are unique, and what the find and remove methods do by handle.
use kjdmud.Base.{
  ℕ, ◌+◌, ◌≤◌, ◌<◌, ◌≡◌, refl, Bool, List, [], ◌∷◌, ◌++◌, Option, none, some, select, arith, ◌==◌,
  if◌then◌else◌, Bool-cases, inl, inr,
}
use kjdmud.Core.Text.{Text}
use kjdmud.Scheduler.State.{State, CallOutEntry}
use kjdmud.Scheduler.CallOuts.{
  add_call_out, remaining_seconds, minus_one, is_named, has_handle, erase_first, find_first,
  remove_call_out_by_name, remove_call_out_by_handle, find_call_out_by_name,
  find_call_out_by_handle, remove_all_call_outs_for_object,
}

-- The handles rise along the list, from `low` on and below `high`.
abbrev pub Rising : ℕ → ℕ → List CallOutEntry → Type 0
Rising low high [] = low ≤ high
Rising low high (e ∷ es) = (low ≤ e.handle) × Rising (e.handle + 1) high es

abbrev pub HasHandles : State → Type 0
HasHandles s = Rising 1 s.next_handle s.call_outs

Rising-le : (low high : ℕ) (es : List CallOutEntry) → Rising low high es → low ≤ high
Rising-le low high [] h = h
Rising-le low high (e ∷ es) h = omega (arith, Rising-le (e.handle + 1) high es h.1)

Rising-lower :
    (low low' high : ℕ) (es : List CallOutEntry)
    → low ≤ low'
    → Rising low' high es
    → Rising low high es
Rising-lower low low' high [] k h = omega arith
Rising-lower low low' high (e ∷ es) k h = (omega (arith, h.0), h.1)

pub Rising-select :
    (test : CallOutEntry → Bool) (low high : ℕ) (es : List CallOutEntry)
    → Rising low high es
    → Rising low high (select test es)
Rising-select test low high [] h = h
Rising-select test low high (e ∷ es) h =
    let rest = Rising-select test (e.handle + 1) high es h.1 in
    let from_low =
      Rising-lower low (e.handle + 1) high (select test es) (omega (arith, h.0)) rest in
    elim (Bool-cases (test e)) [ inl keep ↦ rw keep (h.0, rest) | inr drop ↦ rw drop from_low ]

Rising-erase :
    (test : CallOutEntry → Bool) (now low high : ℕ) (es : List CallOutEntry)
    → Rising low high es
    → Rising low high (erase_first test now es).1
unfolding erase_first
Rising-erase test now low high [] h = h
Rising-erase test now low high (e ∷ es) h = elim (Bool-cases (test e)) [
  | inl hit ↦ rw hit (Rising-lower low (e.handle + 1) high es (omega (arith, h.0)) h.1)
  | inr miss ↦ rw miss (h.0, Rising-erase test now (e.handle + 1) high es h.1)
]

Rising-add :
    (low n : ℕ) (e : CallOutEntry) (es : List CallOutEntry)
    → Rising low n es
    → Rising low (n + 1) (es ++ record e { handle = n } ∷ [])
Rising-add low n e [] h = (h, omega arith)
Rising-add low n e (d ∷ es) h = (h.0, Rising-add (d.handle + 1) n e es h.1)

-- What LPC code asks of the scheduler.
pub data Request : Type 0 where
  adds : CallOutEntry → Request
  removes_name : Option ℕ → Text → Request
  removes_handle : ℕ → Request
  removes_all : Option ℕ → Request

pub apply : Request → State → State
apply (adds e) s = (add_call_out e s).0
apply (removes_name owner name) s = (remove_call_out_by_name owner name s).0
apply (removes_handle h) s = (remove_call_out_by_handle h s).0
apply (removes_all obj) s = remove_all_call_outs_for_object obj s

-- Every request keeps the handles distinct and below the counter.
pub apply-HasHandles : (r : Request) (s : State) → HasHandles s → HasHandles (apply r s)
unfolding apply add_call_out remove_call_out_by_name remove_call_out_by_handle
    remove_all_call_outs_for_object
apply-HasHandles (adds e) s h = Rising-add 1 s.next_handle e s.call_outs h
apply-HasHandles (removes_name none name) s h = h
apply-HasHandles (removes_name (some a) name) s h =
    Rising-erase _ s.clock 1 s.next_handle s.call_outs h
apply-HasHandles (removes_handle k) s h = Rising-erase _ s.clock 1 s.next_handle s.call_outs h
apply-HasHandles (removes_all obj) s h = Rising-select _ 1 s.next_handle s.call_outs h

find_below :
    (k low high now : ℕ) (es : List CallOutEntry)
    → Rising low high es
    → k < low
    → find_first (has_handle k) now es ≡ minus_one
unfolding find_first
find_below k low high now [] h b = refl
find_below k low high now (e ∷ es) h b = ground (arith, find_below k (e.handle + 1) high now es h.1)

find_above :
    (k low high now : ℕ) (es : List CallOutEntry)
    → Rising low high es
    → high ≤ k
    → find_first (has_handle k) now es ≡ minus_one
unfolding find_first
find_above k low high now [] h b = refl
find_above k low high now (e ∷ es) h b =
    ground
      (arith, find_above k (e.handle + 1) high now es h.1, Rising-le (e.handle + 1) high es h.1)

find-add :
    (k low n now : ℕ) (e : CallOutEntry) (es : List CallOutEntry)
    → Rising low n es
    → find_first (has_handle k) now (es ++ record e { handle = n } ∷ [])
      ≡ (if k == n then remaining_seconds now e.due_at else find_first (has_handle k) now es)
unfolding find_first
find-add k low n now e [] h = ground arith
find-add k low n now e (d ∷ es) h =
    ground (arith, find-add k (d.handle + 1) n now e es h.1, Rising-le (d.handle + 1) n es h.1)

find-erase :
    (k j low high now : ℕ) (es : List CallOutEntry)
    → Rising low high es
    → find_first (has_handle k) now (erase_first (has_handle j) now es).1
      ≡ (if k == j then minus_one else find_first (has_handle k) now es)
unfolding find_first erase_first
find-erase k j low high now [] h = ground arith
find-erase k j low high now (e ∷ es) h = ground (
  arith,
  find-erase k j (e.handle + 1) high now es h.1,
  find_below k (e.handle + 1) high now es h.1,
)

-- If the handles rise and lie below the counter, a new call_out is found by the handle that was
-- returned, with its own delay, and every other handle is found as before.
pub find-add_call_out :
    (s : State) (e : CallOutEntry) (k : ℕ)
    → HasHandles s
    → find_call_out_by_handle k (add_call_out e s).0 ≡ (
        if k == (add_call_out e s).1
        then remaining_seconds s.clock e.due_at
        else find_call_out_by_handle k s)
unfolding find_call_out_by_handle add_call_out
find-add_call_out s e k h = find-add k 1 s.next_handle s.clock e s.call_outs h

-- If the handles rise and lie below the counter, then after a removal by handle that handle is not
-- found any more, and every other one as before.
pub find-remove_by_handle :
    (s : State) (j k : ℕ)
    → HasHandles s
    → find_call_out_by_handle k (remove_call_out_by_handle j s).0
      ≡ (if k == j then minus_one else find_call_out_by_handle k s)
unfolding find_call_out_by_handle remove_call_out_by_handle
find-remove_by_handle s j k h = find-erase k j 1 s.next_handle s.clock s.call_outs h

erase-find :
    (test : CallOutEntry → Bool) (now : ℕ) (es : List CallOutEntry)
    → (erase_first test now es).0 ≡ find_first test now es
unfolding erase_first find_first
erase-find test now [] = refl
erase-find test now (e ∷ es) = ground (arith, erase-find test now es)

-- A removal returns what the search returned just before it, by handle and by name.
pub remove-find :
    (s : State) (j : ℕ) (owner : Option ℕ) (name : Text)
    → ((remove_call_out_by_handle j s).1 ≡ find_call_out_by_handle j s)
      × ((remove_call_out_by_name owner name s).1 ≡ find_call_out_by_name owner name s)
unfolding remove_call_out_by_handle find_call_out_by_handle remove_call_out_by_name
    find_call_out_by_name
remove-find s j none name = (erase-find (has_handle j) s.clock s.call_outs, refl)
remove-find s j (some a) name = (
  erase-find (has_handle j) s.clock s.call_outs,
  erase-find (is_named s.heap (some a) name) s.clock s.call_outs,
)
