-- ===== src/Persist/Placed.antt =====
-- The placements that are dumped are read back.
use kjdmud.Base.{
  ℕ, suc, ◌+◌, ◌^◌, ◌<◌, ◌≡◌, refl, sym, ap, ap₂, subst, ◌∙◌, List, [], ◌∷◌, ◌++◌, Option, none,
  some, length, length-append, arith, append_assoc, drop-append, if◌then◌else◌, pos, negsuc,
  IsInt64, All,
}
use kjdmud.Core.Text.{Text}
use kjdmud.Core.Errors.{ok}
use kjdmud.Core.Decimal.{to_string, digits}
use kjdmud.Persist.World.{
  Dumped, PlacementEntry, child_ids, placement, ids_text, placement_text, placements_text, id_of,
  id_or_none,
}
use kjdmud.Persist.Placing.{read_ids, read_int_field, read_placement, read_placements, to_size}
use kjdmud.Persist.Places.{At, At-behind}
use kjdmud.Persist.Steps.{At-first}
use kjdmud.Persist.Placements.{
  At-past, delimited-At, read_int_field-At, AreInt64, read_ids-text, Lacks-ids_text, flag_value,
  flag-text, flag-IsInt64, flag-back, flag-length, read_filename-At,
}

-- The text of a placement, from the left to the right.
placement_text-append :
    (x y z l k name rest : Text) (f : ℕ)
    → (x ++ b';' ∷ f ∷ b';' ∷ (y ++ b';' ∷ (z ++ b';' ∷ (l ++ b';' ∷ (k ++ b':' ∷ name))))) ++ rest
      ≡ x
        ++ b';' ∷ f ∷ b';' ∷ (y ++ b';' ∷ (z ++ b';' ∷ (l ++ b';' ∷ (k ++ b':' ∷ (name ++ rest)))))
placement_text-append x y z l k name rest f =
    let t1 = k ++ b':' ∷ name in
    let t2 = l ++ b';' ∷ t1 in
    let t3 = z ++ b';' ∷ t2 in
    append_assoc x (b';' ∷ f ∷ b';' ∷ (y ++ b';' ∷ t3)) rest
    ∙ ap (λ q. x ++ b';' ∷ f ∷ b';' ∷ q)
        (append_assoc y (b';' ∷ t3) rest
          ∙ ap (λ q. y ++ b';' ∷ q)
              (append_assoc z (b';' ∷ t2) rest
                ∙ ap (λ q. z ++ b';' ∷ q)
                    (append_assoc l (b';' ∷ t1) rest
                      ∙ ap (λ q. l ++ b';' ∷ q) (append_assoc k (b':' ∷ name) rest))))

-- Every number of the placement has 64 bits, and `size` children are listed.
abbrev IsListed : ℕ → PlacementEntry → Type 0
IsListed size e =
    IsInt64 e.id
    × IsInt64 e.env_id
    × AreInt64 e.inv_ids
    × (size ≡ length e.inv_ids)
    × (size < 2 ^ 63)

read_placement-At :
    (s : Text) (p size : ℕ) (e : PlacementEntry) (rest : Text)
    → IsListed size e
    → At s p (placement_text size e ++ rest)
    → read_placement s p ≡ ok (e, p + length (placement_text size e))
unfolding read_placement placement_text to_string to_size
read_placement-At s p size e rest (id, env, children, listed, few) here =
    let flag : ℕ = if e.is_clone then b'1' else b'0' in
    let x = to_string e.id in
    let w = to_string (flag_value e.is_clone) in
    let y = to_string e.env_id in
    let z = digits size in
    let l = ids_text e.inv_ids in
    let k = digits (length e.filename) in
    let named = k ++ b':' ∷ (e.filename ++ rest) in
    let listing = l ++ b';' ∷ named in
    let sized = z ++ b';' ∷ listing in
    let located = y ++ b';' ∷ sized in
    let at_id = subst (At s p) (placement_text-append x y z l k e.filename rest flag) here in
    let at_flag =
      subst (At s (p + length x + 1)) (sym (flag-text e.is_clone (b';' ∷ located)))
        (At-past s b';' p x (flag ∷ b';' ∷ located) at_id) in
    let p2 = p + length x + 1 + length w + 1 in
    let at_env = At-past s b';' (p + length x + 1) w located at_flag in
    let at_size = At-past s b';' p2 y sized at_env in
    let p3 = p2 + length y + 1 in
    let at_children = At-past s b';' p3 z listing at_size in
    let p4 = p3 + length z + 1 in
    let at_name = At-past s b';' p4 l named at_children in
    let p5 = p4 + length l + 1 in
    let number : read_int_field s p3 ≡ ok (pos size, p4) =
      read_int_field-At s p3 (pos size) listing few at_size in
    let ids : read_ids size l ≡ ok e.inv_ids =
      ap (λ n. read_ids n l) listed ∙ read_ids-text e.inv_ids children in
    rw
      (
        read_int_field-At s p e.id (flag ∷ b';' ∷ located) id at_id,
        read_int_field-At s (p + length x + 1) (flag_value e.is_clone) located
            (flag-IsInt64 e.is_clone) at_flag,
        read_int_field-At s p2 e.env_id sized env at_env,
        number,
        delimited-At s _ b';' p4 l named (Lacks-ids_text e.inv_ids) at_children,
        ids,
        read_filename-At s p5 e.filename rest at_name,
      )
      (ap₂
        (λ b q. ok (
          record {
            id = e.id;
            is_clone = b;
            env_id = e.env_id;
            inv_ids = e.inv_ids;
            filename = e.filename;
          },
          q,
        ))
        (flag-back e.is_clone)
        (omega (
          arith,
          flag-length e.is_clone,
          length-append x (
              b';'
              ∷ flag
              ∷ b';'
              ∷ (y ++ b';' ∷ (z ++ b';' ∷ (l ++ b';' ∷ (k ++ b':' ∷ e.filename))))),
          length-append y (b';' ∷ (z ++ b';' ∷ (l ++ b';' ∷ (k ++ b':' ∷ e.filename)))),
          length-append z (b';' ∷ (l ++ b';' ∷ (k ++ b':' ∷ e.filename))),
          length-append l (b';' ∷ (k ++ b':' ∷ e.filename)),
          length-append k (b':' ∷ e.filename),
        )))

-- Every child has an id.
abbrev pub HaveIds : (ℕ → Option ℕ) → List ℕ → Type 0
HaveIds ids children = All (λ a. (i : ℕ) × (ids a ≡ some i)) children

-- The children of each object have ids, and are fewer than 2^63.
abbrev pub ArePlaceable : (ℕ → Option ℕ) → List (ℕ × Dumped) → Type 0
ArePlaceable ids things =
    All (λ o. HaveIds ids o.1.inventory × (length o.1.inventory < 2 ^ 63)) things

-- What `placement` makes of each object.
abbrev pub placements : (ℕ → Option ℕ) → List (ℕ × Dumped) → List PlacementEntry
placements ids [] = []
placements ids ((a, thing) ∷ things) = placement ids (id_of ids a) thing ∷ placements ids things

module _ (ids : ℕ → Option ℕ) (small_ids : (a i : ℕ) → ids a ≡ some i → i < 2 ^ 63) where
  children-AreInt64 : (children : List ℕ) → HaveIds ids children → AreInt64 (child_ids ids children)
  unfolding child_ids
  children-AreInt64 [] h = tt
  children-AreInt64 (a ∷ children) ((i, e), h) =
      rw (e, child_ids) (small_ids a i e, children-AreInt64 children h)

  length-child_ids :
      (children : List ℕ) → HaveIds ids children → length children ≡ length (child_ids ids children)
  unfolding child_ids
  length-child_ids [] h = refl
  length-child_ids (a ∷ children) ((i, e), h) =
      rw (e, child_ids) (ap suc (length-child_ids children h))

  id_of-small : (a : ℕ) → id_of ids a < 2 ^ 63
  unfolding id_of
  id_of-small a = id_cases (ids a) refl
    where
      id_cases : (o : Option ℕ) → ids a ≡ o → (elim o [ none ↦ 0 | some i ↦ i ]) < 2 ^ 63
      id_cases none e = omega arith
      id_cases (some i) e = small_ids a i e

  env_id-IsInt64 :
      (environment : Option ℕ)
      → IsInt64 (elim environment [ none ↦ negsuc 0 | some a ↦ id_or_none (ids a) ])
  unfolding id_or_none
  env_id-IsInt64 none = omega arith
  env_id-IsInt64 (some a) = id_cases (ids a) refl
    where
      id_cases : (o : Option ℕ) → ids a ≡ o → IsInt64 (id_or_none o)
      id_cases none e = omega arith
      id_cases (some i) e = small_ids a i e

  placement-IsListed :
      (a : ℕ) (thing : Dumped)
      → HaveIds ids thing.inventory
      → length thing.inventory < 2 ^ 63
      → IsListed (length thing.inventory) (placement ids (id_of ids a) thing)
  unfolding placement
  placement-IsListed a thing h few = (
    id_of-small a,
    env_id-IsInt64 thing.environment,
    children-AreInt64 thing.inventory h,
    length-child_ids thing.inventory h,
    few,
  )

  placements-At :
      (s : Text) (p : ℕ) (things : List (ℕ × Dumped)) (rest : Text)
      → ArePlaceable ids things
      → At s p (placements_text ids things ++ rest)
      → read_placements s (length things) p
        ≡ ok (placements ids things, p + length (placements_text ids things))
  unfolding read_placements placements_text
  placements-At s p [] rest h here = ap (λ q. ok ([], q)) (omega arith)
  placements-At s p ((a, thing) ∷ things) rest ((known, few), h) here =
      let e = placement ids (id_of ids a) thing in
      let t = placement_text (length thing.inventory) e in
      let u = placements_text ids things in
      let start = At-first s p t u rest here in
      rw
        (
          read_placement-At s p (length thing.inventory) e (u ++ rest)
              (placement-IsListed a thing known few) start,
          placements-At s (p + length t) things rest h (At-behind s p t (u ++ rest) start),
        )
        (ap (λ q. ok (e ∷ placements ids things, q)) (omega (arith, length-append t u)))

  -- Section A of a dump is read back: for objects whose children all have ids below 2^63, and are fewer
  -- than 2^63, the placements that are read are those of the objects, in their order, and the reader
  -- stops behind them, wherever the section stands in a file of less than 2^64 bytes.
  pub read_placements-text :
      (things : List (ℕ × Dumped)) (before rest : Text)
      → ArePlaceable ids things
      → length (before ++ (placements_text ids things ++ rest)) < 2 ^ 64
      → read_placements
          (before ++ (placements_text ids things ++ rest))
          (length things)
          (length before)
        ≡ ok (placements ids things, length before + length (placements_text ids things))
  read_placements-text things before rest h small =
      placements-At (before ++ (placements_text ids things ++ rest)) (length before) things rest h (
        drop-append before (placements_text ids things ++ rest),
        sym (length-append before (placements_text ids things ++ rest)),
        small,
      )
