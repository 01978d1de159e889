-- ===== src/Object/Live.antt =====
-- src/object/LiveObjectRegistry.cpp: every object, in the order in which they were made.
pub mod Laws
use kjdmud.Base.{
  ℕ, ◌≡◌, refl, Bool, true, false, not, List, [], ◌∷◌, ◌++◌, Option, none, some, arith, select, All,
  Bool-cases, inl, inr, if◌then◌else◌,
}
use kjdmud.Object.Heap.{Heap, lock, is_null, is_destructed}
use kjdmud.Object.Registry.{is_stale}

-- `g_registry`: weak pointers.
abbrev pub Registry : Type 0
Registry = List (Option ℕ)

unfoldable pub add : Option ℕ → Registry → Registry
add none r = r
add (some a) r = r ++ some a ∷ []

unfoldable pub remove : Heap → Option ℕ → Registry → Registry
unfolding is_stale
remove heap none r = r
remove heap (some a) r = select (λ w. not (is_stale heap (some a) w)) r

-- The addresses of the objects that are there and not destructed.
unfoldable pub all : Heap → Registry → List ℕ
unfolding lock
all heap [] = []
all heap (w ∷ r) =
    let rest = all heap r in
    elim (lock heap w) [
      | none ↦ rest
      | some a ↦ if is_destructed heap (some a) then rest else a ∷ rest
    ]
