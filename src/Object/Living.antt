-- ===== src/Object/Living.antt =====
-- src/object/LivingNameRegistry.cpp: the names of the living objects.
pub mod Laws
use kjdmud.Base.{
  ℕ, ◌≡◌, refl, Bool, true, false, not, ◌&&◌, ◌||◌, List, [], ◌∷◌, ◌++◌, Option, none, some, select,
  if◌then◌else◌,
}
use kjdmud.Core.Text.{Text, text_eq}
use kjdmud.Object.Heap.{Heap, LpcObject, lock}
use kjdmud.Object.Registry.{is_stale}

pub record Entry : Type 0 where
  pub obj : Option ℕ
  pub name : Text

unfoldable pub remove : Heap → Option ℕ → List Entry → List Entry
unfolding is_stale
remove heap none r = r
remove heap (some a) r = select (λ e. not (is_stale heap (some a) e.obj)) r

unfoldable pub set : Heap → Option ℕ → Text → List Entry → List Entry
unfolding remove
set heap none name r = r
set heap (some a) name r = remove heap (some a) r ++ record { obj = some a; name = name } ∷ []

-- The tests of `find` on the object of an entry of that name.
unfoldable pub qualifies : Bool → LpcObject → Bool
qualifies require_once_interactive o =
    if o.destructed
    then false
    else if require_once_interactive && not o.ever_interactive
    then false
    else o.commands_enabled

-- The object that an entry leads to, if it passes the tests.
unfoldable pub candidate : Heap → Bool → Entry → Option ℕ
unfolding lock qualifies
candidate heap once e = elim e.obj [
  | none ↦ none
  | some a ↦ elim (heap a) [ none ↦ none | some o ↦ if qualifies once o then some a else none ]
]

unfoldable pub find : Heap → Text → Bool → List Entry → Option ℕ
unfolding candidate text_eq
find heap name once [] = none
find heap name once (e ∷ r) =
    let later = find heap name once r in
    if not (text_eq e.name name)
    then later
    else elim (candidate heap once e) [ none ↦ later | some a ↦ some a ]

unfoldable pub all_with_commands_enabled : Heap → List Entry → List ℕ
unfolding candidate
all_with_commands_enabled heap [] = []
all_with_commands_enabled heap (e ∷ r) =
    let rest = all_with_commands_enabled heap r in
    elim (candidate heap false e) [ none ↦ rest | some a ↦ a ∷ rest ]
