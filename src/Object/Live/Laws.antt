-- ===== src/Object/Live/Laws.antt =====
-- What `all` lists after an object is added.
use kjdmud.Base.{ℕ, ◌≡◌, false, [], ◌∷◌, ◌++◌, some, arith}
use kjdmud.Object.Heap.{Heap, LpcObject, is_destructed}
use kjdmud.Object.Live.{Registry, add, all}

-- A new object that is there and not destructed comes last.
pub all-add :
    (heap : Heap) (a : ℕ) (o : LpcObject) (r : Registry)
    → heap a ≡ some o
    → o.destructed ≡ false
    → all heap (add (some a) r) ≡ all heap r ++ a ∷ []
unfolding all add is_destructed
all-add heap a o [] h k = ground arith
all-add heap a o (w ∷ r) h k = ground (arith, all-add heap a o r h k)
