-- ===== src/Net/Interactive.antt =====
-- src/net/InteractiveRegistry.cpp: the objects that have a connection.
pub mod Laws
use kjdmud.Base.{
  ℕ, ◌≡◌, refl, Bool, true, false, not, List, [], ◌∷◌, ◌++◌, Option, none, some, select,
  if◌then◌else◌,
}
use kjdmud.Object.Heap.{Heap, lock}
use kjdmud.Object.Registry.{is_stale}
use kjdmud.Vm.Value.{address_eq}

-- `conn` is the address of a `Connection`.
pub record Entry : Type 0 where
  pub obj : Option ℕ
  pub conn : ℕ

unfoldable pub add : Option ℕ → ℕ → List Entry → List Entry
add none conn r = r
add (some a) conn r = r ++ record { obj = some a; conn = conn } ∷ []

unfoldable pub remove : Heap → Option ℕ → List Entry → List Entry
unfolding is_stale
remove heap none r = r
remove heap (some a) r = select (λ e. not (is_stale heap (some a) e.obj)) r

unfoldable pub all : Heap → List Entry → List ℕ
unfolding lock
all heap [] = []
all heap (e ∷ r) =
    let rest = all heap r in elim (lock heap e.obj) [ none ↦ rest | some a ↦ a ∷ rest ]

find_locked : Heap → ℕ → List Entry → Option ℕ
unfolding lock
find_locked heap a [] = none
find_locked heap a (e ∷ r) =
    let later = find_locked heap a r in
    if address_eq (lock heap e.obj) (some a) then some e.conn else later

unfoldable pub find : Heap → Option ℕ → List Entry → Option ℕ
unfolding find_locked
find heap none r = none
find heap (some a) r = find_locked heap a r
