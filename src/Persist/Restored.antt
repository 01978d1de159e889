-- ===== src/Persist/Restored.antt =====
-- The objects of a restored world stand where the dump says.
use kjdmud.Base.{
  ℕ, ◌≡◌, refl, sym, ap, subst, ◌∙◌, Bool, false, List, [], ◌∷◌, Option, none, some, ◌==◌, arith,
  All, inl, inr, ==_self, ℤ, pos, negsuc, Option-cases,
}
use kjdmud.Persist.World.{PlacementEntry}
use kjdmud.Persist.Restore.{World, Table, set, found_all, new_environment, place_at, place_all}

abbrev is_at : Option ℕ → ℕ → Bool
is_at none a = false
is_at (some b) a = b == a

-- No entry's object is the one at the address.
abbrev Avoid : Table → ℕ → List PlacementEntry → Type 0
Avoid objects a entries = All (λ e. is_at (objects e.id) a ≡ false) entries

-- Each entry has an object, and no two entries the same one.
abbrev pub HaveOwn : Table → List PlacementEntry → Type 0
HaveOwn objects [] = Unit
HaveOwn objects (e ∷ entries) =
    ((a : ℕ) × (objects e.id ≡ some a) × Avoid objects a entries) × HaveOwn objects entries

-- The objects that the ids name, in the order of the ids; an id that names nothing is passed over.
pub data Named (objects : Table) : List ℤ → List ℕ → Type 0 where
  no_ids : Named objects [] []
  passed_over :
      {i : ℤ} {ids : List ℤ} {found : List ℕ}
      → objects i ≡ none
      → Named objects ids found
      → Named objects (i ∷ ids) found
  named :
      {i : ℤ} {ids : List ℤ} {a : ℕ} {found : List ℕ}
      → objects i ≡ some a
      → Named objects ids found
      → Named objects (i ∷ ids) (a ∷ found)

-- The environment that an id asks for, `before` being what the object had: an id below 0 asks for none,
-- and an id that names nothing is passed over.
pub data Moved (objects : Table) (before after : Option ℕ) : ℤ → Type 0 where
  outside : {n : ℕ} → after ≡ before → Moved objects before after (negsuc n)
  nowhere : {n : ℕ} → objects (pos n) ≡ none → after ≡ before → Moved objects before after (pos n)
  into :
      {n room : ℕ}
      → objects (pos n) ≡ some room
      → after ≡ some room
      → Moved objects before after (pos n)

-- The entry's object has the children and the environment that its ids name.
abbrev pub IsPlaced : Table → World → World → PlacementEntry → Type 0
IsPlaced objects before after e =
    (a : ℕ) × (objects e.id ≡ some a)
    × Named objects e.inv_ids (after.inventory a)
    × Moved objects (before.environment a) (after.environment a) e.env_id

found_all-Named : (objects : Table) (ids : List ℤ) → Named objects ids (found_all objects ids)
unfolding found_all
found_all-Named objects [] = no_ids
found_all-Named objects (i ∷ ids) = elim (Option-cases (objects i)) [
  | inl h ↦ rw (h, found_all) (passed_over h (found_all-Named objects ids))
  | inr (a, h) ↦ rw (h, found_all) (named h (found_all-Named objects ids))
]

==_apart : (a b : ℕ) → (b == a) ≡ false → (a == b) ≡ false
==_apart a b h = ground arith

set_other : {A : Type 0} (a b : ℕ) (v : A) (f : ℕ → A) → (a == b) ≡ false → set a v f b ≡ f b
set_other a b v f h = let other : (b == a) ≡ false = ground arith in rw other refl

module _ (objects : Table) where
  place_at-other :
      (e : PlacementEntry) (a b : ℕ) (w : World)
      → (a == b) ≡ false
      → ((place_at objects e a w).inventory b ≡ w.inventory b)
        × ((place_at objects e a w).environment b ≡ w.environment b)
  unfolding place_at
  place_at-other e a b w h = room_cases (new_environment objects e.env_id)
    where
      moved : Option ℕ → World
      moved none = w
      moved (some room) = record w { environment = set a (some room) w.environment }

      room_cases :
          (room : Option ℕ)
          → (set a (found_all objects e.inv_ids) (moved room).inventory b ≡ w.inventory b)
            × ((moved room).environment b ≡ w.environment b)
      room_cases none = (set_other a b _ w.inventory h, refl)
      room_cases (some room) =
          (set_other a b _ w.inventory h, set_other a b (some room) w.environment h)

  place_at-inventory :
      (e : PlacementEntry) (a : ℕ) (w : World)
      → (place_at objects e a w).inventory a ≡ found_all objects e.inv_ids
  unfolding place_at
  place_at-inventory e a w = rw (==_self a) refl

  place_at-Moved :
      (e : PlacementEntry) (a : ℕ) (w : World)
      → Moved objects (w.environment a) ((place_at objects e a w).environment a) e.env_id
  unfolding place_at new_environment
  place_at-Moved e a w = id_case e.env_id refl
    where
      id_case :
          (i : ℤ)
          → e.env_id ≡ i
          → Moved objects (w.environment a) ((place_at objects e a w).environment a) i
      id_case (negsuc n) q = outside (rw (q, place_at, new_environment) refl)
      id_case (pos n) q = elim (Option-cases (objects (pos n))) [
        | inl h ↦ nowhere h (rw (q, place_at, new_environment, h) refl)
        | inr (room, h) ↦ into h (rw (q, place_at, new_environment, h) (rw (==_self a) refl))
      ]

  -- An object that is no entry's stays as it is.
  place_all-other :
      (entries : List PlacementEntry) (b : ℕ) (w : World)
      → Avoid objects b entries
      → ((place_all objects entries w).inventory b ≡ w.inventory b)
        × ((place_all objects entries w).environment b ≡ w.environment b)
  unfolding place_all
  place_all-other [] b w h = (refl, refl)
  place_all-other (e ∷ entries) b w (h, hs) =
      one_case (objects e.id) h (λ v. place_all-other entries b v hs)
    where
      Same : World → World → Type 0
      Same v u = (v.inventory b ≡ u.inventory b) × (v.environment b ≡ u.environment b)

      one_case :
          (o : Option ℕ)
          → is_at o b ≡ false
          → ((v : World) → Same (place_all objects entries v) v)
          → Same
              (place_all objects entries (elim o [ none ↦ w | some a ↦ place_at objects e a w ]))
              w
      one_case none k rest = rest w
      one_case (some a) k rest =
          let others = rest (place_at objects e a w) in
          let here = place_at-other e a b w k in (others.0 ∙ here.0, others.1 ∙ here.1)

  place_all-next :
      (e : PlacementEntry) (entries : List PlacementEntry) (a : ℕ) (w : World)
      → objects e.id ≡ some a
      → place_all objects (e ∷ entries) w ≡ place_all objects entries (place_at objects e a w)
  unfolding place_all
  place_all-next e entries a w known =
      ap (λ o. place_all objects entries (elim o [ none ↦ w | some b ↦ place_at objects e b w ]))
        known

  -- A change before the placing of objects that are no entry's leaves the entries placed.
  IsPlaced-before :
      (before other after : World) (a : ℕ) (entries : List PlacementEntry)
      → Avoid objects a entries
      → ((b : ℕ) → (a == b) ≡ false → other.environment b ≡ before.environment b)
      → All (IsPlaced objects other after) entries
      → All (IsPlaced objects before after) entries
  IsPlaced-before before other after a [] avoid same h = tt
  IsPlaced-before before other after a (e ∷ entries) (here, avoid) same
        ((b, known, names, moves), hs) =
      let apart : (a == b) ≡ false = ==_apart a b (subst (λ o. is_at o a ≡ false) known here) in
      (
        (
          b,
          known,
          names,
          subst (λ o. Moved objects o (after.environment b) e.env_id) (same b apart) moves,
        ),
        IsPlaced-before before other after a entries avoid same hs,
      )

  -- After the placing, the inventory of each entry's object is the objects that its ids name, in their
  -- order, and its environment is the object that its id names; if that id is below 0 or names nothing,
  -- the environment is the one of before. This is for entries each of which has an object of its own.
  pub place_all-IsPlaced :
      (entries : List PlacementEntry) (w : World)
      → HaveOwn objects entries
      → All (IsPlaced objects w (place_all objects entries w)) entries
  place_all-IsPlaced [] w h = tt
  place_all-IsPlaced (e ∷ entries) w ((a, known, avoid), h) =
      let first = place_at objects e a w in
      let others = place_all-other entries a first avoid in
      subst (λ v. All (IsPlaced objects w v) (e ∷ entries))
        (sym (place_all-next e entries a w known))
        (
          (
            a,
            known,
            subst (Named objects e.inv_ids) (sym (others.0 ∙ place_at-inventory e a w))
                (found_all-Named objects e.inv_ids),
            subst (λ o. Moved objects (w.environment a) o e.env_id) (sym others.1)
                (place_at-Moved e a w),
          ),
          IsPlaced-before w first (place_all objects entries first) a entries avoid
              (λ b apart. (place_at-other e a b w apart).1) (place_all-IsPlaced entries first h),
        )
