-- ===== src/Object/Registry.antt =====
-- What the three registries share: `remove` erases, with one `remove_if`, the entries that it is
-- called for and those whose object is gone.
use kjdmud.Base.{ℕ, ◌≡◌, Bool, true, ◌||◌, Option, none, some, ◌==◌}
use kjdmud.Object.Heap.{Heap, lock, is_null}
use kjdmud.Vm.Value.{address_eq}

-- `!locked || locked == obj`, for the entry whose weak pointer is `w`.
unfoldable pub is_stale : Heap → Option ℕ → Option ℕ → Bool
unfolding lock
is_stale heap obj w = let locked = lock heap w in is_null locked || address_eq locked obj

-- An entry stays under `remove` of `a` exactly if it leads to an object other than `a`.
pub is_stale-none :
    (heap : Heap) (a : ℕ) (w : Option ℕ) → lock heap w ≡ none → is_stale heap (some a) w ≡ true
unfolding is_stale
is_stale-none heap a w h = rw h

pub is_stale-some :
    (heap : Heap) (a b : ℕ) (w : Option ℕ)
    → lock heap w ≡ some b
    → is_stale heap (some a) w ≡ (b == a)
unfolding is_stale
is_stale-some heap a b w h = rw h
