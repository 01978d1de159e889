-- ===== src/Object/Living/Laws.antt =====
-- A living has one name, and `find` finds it by that name alone.
use kjdmud.Base.{
  ℕ, ◌≡◌, ◌≢◌, ◌⊎◌, refl, sym, subst, ◌∙◌, Bool, true, false, List, [], ◌∷◌, ◌++◌, Option, none,
  some, arith, Bool-cases, Option-cases, inl, inr, if◌then◌else◌,
}
use kjdmud.Core.Text.{Text, text_eq, text_eq_iff}
use kjdmud.Object.Heap.{Heap, LpcObject, lock}
use kjdmud.Object.Registry.{is_stale-none, is_stale-some}
use kjdmud.Object.Living.{Entry, remove, set, qualifies, candidate, find}

-- A candidate is the object of its entry, it is there, and it passes the tests.
abbrev pub Qualifies : Heap → Bool → ℕ → Type 0
Qualifies heap once a = (o : LpcObject) × (heap a ≡ some o) × (qualifies once o ≡ true)

candidate-Qualifies :
    (heap : Heap) (once : Bool) (e : Entry) (a : ℕ)
    → candidate heap once e ≡ some a
    → (lock heap e.obj ≡ some a) × Qualifies heap once a
unfolding candidate lock
candidate-Qualifies heap once e a h = go e.obj h
  where
    go :
        (w : Option ℕ)
        → candidate heap once (record { obj = w; name = e.name }) ≡ some a
        → (lock heap w ≡ some a) × Qualifies heap once a
    go none k = cc
    go (some b) k = elim (Option-cases (heap b)) [
      | inl gone ↦ absurd (ground arith)
      | inr (o, here) ↦ (ground arith, (o, ground arith, ground arith))
    ]

-- What `find` returns has an entry of that name and passes the tests.
abbrev pub Listed : Heap → Text → ℕ → List Entry → Type 0
Listed heap name a [] = ⊥
Listed heap name a (e ∷ r) = ((e.name ≡ name) × (lock heap e.obj ≡ some a)) ⊎ Listed heap name a r

find-Listed :
    (heap : Heap) (name : Text) (once : Bool) (r : List Entry) (a : ℕ)
    → find heap name once r ≡ some a
    → Listed heap name a r × Qualifies heap once a
unfolding find
find-Listed heap name once [] a h = cc
find-Listed heap name once (e ∷ r) a h = elim (Bool-cases (text_eq e.name name)) [
  | inr other ↦
      let later = find-Listed heap name once r a (rw (find, other) at h) in (inr later.0, later.1)
  | inl same ↦ elim (Option-cases (candidate heap once e)) [
    | inl none_here ↦
        let later = find-Listed heap name once r a (ground (arith, same, none_here)) in
        (inr later.0, later.1)
    | inr (b, here) ↦
        let found = candidate-Qualifies heap once e a (ground (arith, same, here)) in
        (inl ((text_eq_iff e.name name).0 same, found.0), found.1)
  ]
]

-- What `find` returns has an entry of that name; it is on the heap and not destructed, its commands
-- are enabled, and if that is asked for it was once interactive.
pub find_sound :
    (heap : Heap) (name : Text) (once : Bool) (r : List Entry) (a : ℕ)
    → find heap name once r ≡ some a
    → Listed heap name a r
      × ((o : LpcObject) × (heap a ≡ some o)
          × (o.destructed ≡ false)
          × (o.commands_enabled ≡ true)
          × ((once ≡ false) ⊎ (o.ever_interactive ≡ true)))
unfolding qualifies
find_sound heap name once r a h =
    let (listed, (o, here, good)) = find-Listed heap name once r a h in
    (listed, (o, here, ground arith, ground arith, ground arith))

not-Listed-remove :
    (heap : Heap) (name : Text) (a : ℕ) (r : List Entry)
    → ¬ Listed heap name a (remove heap (some a) r)
unfolding remove
not-Listed-remove heap name a [] h = h
not-Listed-remove heap name a (e ∷ r) h = elim (Option-cases (lock heap e.obj)) [
  | inl gone ↦ ground (arith, is_stale-none heap a e.obj gone, not-Listed-remove heap name a r)
  | inr (b, here) ↦
      ground (arith, here, is_stale-some heap a b e.obj here, not-Listed-remove heap name a r)
]

find-append :
    (heap : Heap) (name : Text) (once : Bool) (r : List Entry) (e : Entry)
    → find heap name once (r ++ e ∷ []) ≡ (elim (find heap name once r) [
      | none ↦ if text_eq e.name name then candidate heap once e else none
      | some b ↦ some b
    ])
unfolding find
find-append heap name once [] e = ground arith
find-append heap name once (d ∷ r) e = ground (arith, find-append heap name once r e)

Listed-remove :
    (heap : Heap) (name : Text) (a b : ℕ) (r : List Entry)
    → Listed heap name b (remove heap (some a) r)
    → Listed heap name b r
unfolding remove
Listed-remove heap name a b [] h = h
Listed-remove heap name a b (e ∷ r) h = elim (Option-cases (lock heap e.obj)) [
  | inl gone ↦ ground (arith, is_stale-none heap a e.obj gone, Listed-remove heap name a b r)
  | inr (d, here) ↦
      ground (arith, here, is_stale-some heap a d e.obj here, Listed-remove heap name a b r)
]

candidate-lock :
    (heap : Heap) (once : Bool) (e : Entry)
    → (candidate heap once e ≡ none) ⊎ (candidate heap once e ≡ lock heap e.obj)
candidate-lock heap once e = elim (Option-cases (candidate heap once e)) [
  | inl h ↦ inl h
  | inr (b, h) ↦ inr (h ∙ sym (candidate-Qualifies heap once e b h).0)
]

-- Without the entries of `a` another object is found if it was found with them.
find-remove :
    (heap : Heap) (name : Text) (once : Bool) (a : ℕ) (r : List Entry)
    → (find heap name once r ≡ none)
      ⊎ ((find heap name once r ≡ some a)
          ⊎ (find heap name once (remove heap (some a) r) ≡ find heap name once r))
unfolding find remove
find-remove heap name once a [] = inl refl
find-remove heap name once a (e ∷ r) = elim (Option-cases (lock heap e.obj)) [
  | inl gone ↦ ground (
    arith,
    gone,
    is_stale-none heap a e.obj gone,
    find-remove heap name once a r,
    candidate-lock heap once e,
  )
  | inr (d, here) ↦ ground (
    arith,
    here,
    is_stale-some heap a d e.obj here,
    find-remove heap name once a r,
    candidate-lock heap once e,
  )
]

-- Once a living whose commands are enabled, and which passes the other tests of `find`, has set a name,
-- a search for any name gives another object that has an entry of that name; or it gives the living, and
-- the name is the one it set; or it gives nobody, and the name is not the one it set. The search gives
-- what it gave before, unless that was nobody or the living.
pub find-set_name :
    (heap : Heap) (a : ℕ) (o : LpcObject) (name other : Text) (once : Bool) (r : List Entry)
    → heap a ≡ some o
    → qualifies once o ≡ true
    → (let before = find heap other once r in
        let after = find heap other once (set heap (some a) name r) in
        (((b : ℕ) × (after ≡ some b) × (b ≢ a) × Listed heap other b r)
          ⊎ (((after ≡ some a) × (other ≡ name)) ⊎ ((after ≡ none) × (other ≢ name))))
        × ((before ≡ none) ⊎ ((before ≡ some a) ⊎ (after ≡ before))))
unfolding set candidate
find-set_name heap a o name other once r here good =
    let rest = remove heap (some a) r in
    let e : Entry = record { obj = some a; name = name } in
    let last : candidate heap once e ≡ some a = rw (here, good, candidate) refl in
    let split = find-append heap other once rest e in
    elim (Option-cases (find heap other once rest)) [
      | inr (b, earlier) ↦
          let found : find heap other once (rest ++ e ∷ []) ≡ some b = split ∙ rw earlier refl in
          let listed = (find-Listed heap other once rest b earlier).0 in
          (
            inl (
              b,
              found,
              (λ same.
                  not-Listed-remove heap other a r
                    (subst (λ c. Listed heap other c rest) same listed)),
              Listed-remove heap other a b r listed,
            ),
            ground (arith, found, earlier, find-remove heap other once a r),
          )
      | inl absent ↦ elim (Bool-cases (text_eq name other)) [
        | inl same ↦ (
          inr (inl (split ∙ rw (absent, same) last, sym ((text_eq_iff name other).0 same))),
          ground (arith, absent, find-remove heap other once a r),
        )
        | inr different ↦ (
          inr (
              inr (
                split ∙ rw (absent, different) refl,
                λ q. absurd (ground (arith, different, (text_eq_iff name other).1 (sym q))),
              )),
          ground (arith, absent, find-remove heap other once a r),
        )
      ]
    ]
