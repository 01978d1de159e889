-- ===== src/Net/Unbinding.antt =====
-- A connection that is attached to an object and closed.
use kjdmud.Base.{
  arith, ℕ, ◌≡◌, refl, sym, ap, subst, ◌∙◌, Bool, false, Option, Option-cases, none, some, ◌==◌,
  ==_self, if◌then◌else◌, Bool-cases, inl, inr,
}
use kjdmud.Object.Heap.{lock, change, lock-change}
use kjdmud.Net.Interactive
use kjdmud.Net.Interactive.Laws.{find-remove, find-add, find-added, or_new}
use kjdmud.Net.Binding.{Binding, ever_interactive_set, attach, close, detach, release, unlink}

-- After a connection without an object is attached to one and closed, the object has no connection in
-- the registry and no snooper, every other object has the connection that it had, and the connection
-- is bound to none.
pub close-attach :
    (self a b : ℕ) (s : Binding)
    → s.bound_object ≡ none
    → (let after = close (attach self (some a) s) in
        (Interactive.find after.heap (some b) after.registry
          ≡ (if b == a then none else Interactive.find s.heap (some b) s.registry))
        × (after.snooped_by a ≡ none)
        × (after.bound_object ≡ none))
unfolding attach close release unlink detach
close-attach self a b s free =
    let heap = change a ever_interactive_set s.heap in
    let registry = Interactive.add (some a) self s.registry in
    let found : (if b == a then none else Interactive.find heap (some b) registry)
        ≡ (if b == a then none else Interactive.find s.heap (some b) s.registry) =
      elim (Bool-cases (b == a)) [
        | inl same ↦ rw same refl
        | inr other ↦ rw other (
            find-add s.heap heap a b self s.registry (lock-change a ever_interactive_set s.heap)
              other)
      ] in
    rw (free, ==_self a) ((find-remove heap a b registry ∙ found, refl, refl))

abbrev is_at : Option ℕ → ℕ → Bool
is_at none b = false
is_at (some a) b = b == a

-- The connection that an object has in the registry when the connection that is attached has given up
-- the object it was bound to.
abbrev pub left_over : Binding → ℕ → Option ℕ
left_over s b = if is_at s.bound_object b then none else Interactive.find s.heap (some b) s.registry

find-detach :
    (s : Binding) (b : ℕ)
    → (Interactive.find (detach s).heap (some b) (detach s).registry ≡ left_over s b)
      × ((detach s).heap ≡ s.heap)
unfolding detach
find-detach s b = elim (Option-cases s.bound_object) [
  | inl free ↦ rw (free, detach) (refl, refl)
  | inr (old, bound) ↦ rw (bound, detach) (find-remove s.heap old b s.registry, refl)
]

-- After a connection is attached to an object on the heap, the object that the connection was bound to
-- before, if it is another, is in the registry with none, and every other object but the new one has
-- the connection that it had. The new one has the connection that is attached, but if it had another
-- one already, the registry still finds that one.
pub find-attach :
    (self a b : ℕ) (s : Binding)
    → lock s.heap (some a) ≡ some a
    → (let after = attach self (some a) s in
        Interactive.find after.heap (some b) after.registry
        ≡ (if b == a then or_new self (left_over s b) else left_over s b))
unfolding attach
find-attach self a b s here =
    let d = detach s in
    let (left, same) = find-detach s b in
    let locks = lock-change a ever_interactive_set d.heap in
    elim (Bool-cases (b == a)) [
      | inl e ↦
          let q : b ≡ a = ground arith in
          rw e (
            subst
              (λ c.
                Interactive.find (change a ever_interactive_set d.heap) (some c)
                  (Interactive.add (some a) self d.registry)
                ≡ or_new self (Interactive.find d.heap (some c) d.registry))
              (sym q)
              (find-added d.heap (change a ever_interactive_set d.heap) a self d.registry locks
                (subst (λ h. lock h (some a) ≡ some a) (sym same) here))
            ∙ ap (or_new self) left)
      | inr e ↦ rw e (
          find-add d.heap (change a ever_interactive_set d.heap) a b self d.registry locks e ∙ left)
    ]
