-- ===== src/Net/Interactive/Laws.antt =====
-- What `find` gives after `add` and `remove`.
use kjdmud.Base.{
  ℕ, ◌≡◌, refl, ap, ◌∙◌, ◌⊎◌, false, Option, List, [], ◌∷◌, none, some, arith, Option-cases, inl,
  inr, ◌==◌, if◌then◌else◌,
}
use kjdmud.Object.Heap.{Heap, lock}
use kjdmud.Object.Registry.{is_stale-none, is_stale-some}
use kjdmud.Net.Interactive.{Entry, add, remove, find, find_locked}

find_locked-removed :
    (heap : Heap) (a b : ℕ) (r : List Entry)
    → find_locked heap b (remove heap (some a) r) ≡ (if b == a then none else find_locked heap b r)
unfolding find_locked remove
find_locked-removed heap a b [] = ground arith
find_locked-removed heap a b (e ∷ r) = elim (Option-cases (lock heap e.obj)) [
  | inl gone ↦ ground (arith, gone, is_stale-none heap a e.obj gone, find_locked-removed heap a b r)
  | inr (d, here) ↦
      ground (arith, here, is_stale-some heap a d e.obj here, find_locked-removed heap a b r)
]

-- After an object is removed it has no connection, and the others have theirs.
pub find-remove :
    (heap : Heap) (a b : ℕ) (r : List Entry)
    → find heap (some b) (remove heap (some a) r) ≡ (if b == a then none else find heap (some b) r)
unfolding find
find-remove heap a b r = find_locked-removed heap a b r

lock_cases : (heap : Heap) (a : ℕ) → (lock heap (some a) ≡ none) ⊎ (lock heap (some a) ≡ some a)
unfolding lock
lock_cases heap a = elim (Option-cases (heap a)) [
  | inl gone ↦ inl (rw (gone, lock) refl)
  | inr (o, here) ↦ inr (rw (here, lock) refl)
]

find_locked-add :
    (heap : Heap) (a b conn : ℕ) (r : List Entry)
    → (b == a) ≡ false
    → find_locked heap b (add (some a) conn r) ≡ find_locked heap b r
unfolding find_locked add
find_locked-add heap a b conn [] h = elim (lock_cases heap a) [
  | inl gone ↦ ground (arith, gone)
  | inr here ↦ ground (arith, here)
]
find_locked-add heap a b conn (e ∷ r) h = rw (find_locked-add heap a b conn r h) refl

find_locked-lock :
    (before after : Heap) (b : ℕ) (r : List Entry)
    → ((w : Option ℕ) → lock after w ≡ lock before w)
    → find_locked after b r ≡ find_locked before b r
unfolding find_locked
find_locked-lock before after b [] same = refl
find_locked-lock before after b (e ∷ r) same =
    rw (same e.obj, find_locked-lock before after b r same) refl

-- Adding an object and a change of the objects that keeps them on the heap leave the others' connections.
pub find-add :
    (before after : Heap) (a b conn : ℕ) (r : List Entry)
    → ((w : Option ℕ) → lock after w ≡ lock before w)
    → (b == a) ≡ false
    → find after (some b) (add (some a) conn r) ≡ find before (some b) r
unfolding find
find-add before after a b conn r same h =
    find_locked-add after a b conn r h ∙ find_locked-lock before after b r same

-- The connection that was found, or the new one.
abbrev pub or_new : ℕ → Option ℕ → Option ℕ
or_new conn none = some conn
or_new conn (some c) = some c

find_locked-added :
    (heap : Heap) (a conn : ℕ) (r : List Entry)
    → lock heap (some a) ≡ some a
    → find_locked heap a (add (some a) conn r) ≡ or_new conn (find_locked heap a r)
unfolding find_locked add
find_locked-added heap a conn [] here = ground (arith, here)
find_locked-added heap a conn (e ∷ r) here = ground (arith, find_locked-added heap a conn r here)

-- The object itself is found with the new connection only if it was found with none.
pub find-added :
    (before after : Heap) (a conn : ℕ) (r : List Entry)
    → ((w : Option ℕ) → lock after w ≡ lock before w)
    → lock before (some a) ≡ some a
    → find after (some a) (add (some a) conn r) ≡ or_new conn (find before (some a) r)
unfolding find
find-added before after a conn r same here =
    find_locked-added after a conn r (same (some a) ∙ here)
    ∙ ap (or_new conn) (find_locked-lock before after a r same)
