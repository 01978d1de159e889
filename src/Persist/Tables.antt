-- ===== src/Persist/Tables.antt =====
-- Mappings and their rows.
use kjdmud.Base.{
  ℕ, zero, suc, ◌+◌, ◌-◌, ◌%◌, ◌^◌, ◌<◌, ◌≤◌, ◌≡◌, refl, ap, subst, ◌∙◌, Bool, true, false, Option,
  some, [], ◌∷◌, ◌++◌, length, length-append, arith, append_assoc, ◌||◌, ◌==◌, ℤ, pos,
}
use kjdmud.Core.Text.{Text}
use kjdmud.Core.Errors.{Result, ok}
use kjdmud.Core.Decimal.{digits, to_string}
use kjdmud.Core.Unsigned.{stoull-digits, stoll-all, Lacks-digits}
use kjdmud.Vm.Value.{Value, Columns, Entries, mapping, no_entries, entry}
use kjdmud.Persist.Reading.{
  read_columns, read_entries, read_kind, read_table, read_width, split_first, width_of, deserialize,
}
use kjdmud.Core.Decimal.{IsDigits, digits-IsDigits}
use kjdmud.Core.Split.{split_at-append}
use kjdmud.Persist.Restoring
use kjdmud.Persist.Writing.{width_text, rows}
use kjdmud.Persist.Steps
use kjdmud.Persist.Steps.{At-tag}
use kjdmud.Persist.Places.{At, At-next, At-behind, At-field, deserialize-At}

-- A text with a separator behind it.
split_first-append :
    (x t : Text) (c : ℕ)
    → IsDigits x
    → (c == b':' || c == b'w') ≡ true
    → split_first (x ++ c ∷ t) ≡ some (x, c ∷ t)
unfolding split_first
split_first-append [] t c h e = rw e refl
split_first-append (d ∷ x) t c h e =
    let digit : (d == b':' || d == b'w') ≡ false = ground (arith, h.0) in
    rw (digit, split_first-append x t c h.1 e) refl

width_of-pos : (w : ℕ) → 1 ≤ w → w < 2 ^ 31 → width_of (pos w) ≡ w
unfolding width_of
width_of-pos w positive small = let word : w % 2 ^ 32 ≡ w = omega arith in rw word (ground arith)

module _ (stod : Text → Result ℕ) (round : ℕ → ℕ) (is_alive : ℕ → Bool)
    (id_of_object : ℕ → Option ℕ) (object_of_id : ℤ → Option ℕ) where
  -- The head of a mapping, up to its first row.
  pub read_table-At :
      (s : Text) (p total w : ℕ) (rest : Text)
      → total < 2 ^ 64
      → suc w < 2 ^ 31
      → At s p (digits total ++ (width_text w ++ b':' ∷ rest))
      → read_table stod object_of_id s p
        ≡ ok (total, (suc w, p + length (digits total) + length (width_text w) + 1))
  unfolding read_table read_width width_text to_string
  read_table-At s p total zero rest few narrow (here, size, small) =
      rw
        (
          read_table,
          here,
          split_first-append (digits total) rest b':' (digits-IsDigits total) refl,
          stoull-digits total few,
        )
        (ap (λ q. ok (total, (1, q))) (omega arith))
  read_table-At s p total (suc w) rest few narrow (here, size, small) =
      let n = suc (suc w) in
      rw
        (
          read_table,
          here,
          split_first-append (digits total) (digits n ++ b':' ∷ rest) b'w' (digits-IsDigits total)
              refl,
          stoull-digits total few,
          split_at-append b':' (digits n) rest (Lacks-digits b':' n refl),
          stoll-all (pos n) (omega arith),
          width_of-pos n (omega arith) narrow,
        )
        (ap (λ q. ok (total, (n, q))) (omega arith))

  pub no_entries-Reads :
      (w : ℕ) → Steps.ReadsEntries stod round is_alive id_of_object object_of_id w no_entries []
  unfolding read_entries
  no_entries-Reads w s n p rest here b =
      ((no_entries, p), refl, (Restoring.no_entries_left w, omega arith))

  entry_step :
      (read : ℕ → Result (Value × ℕ)) (w total p : ℕ) (k v : Value × ℕ) (cs : Columns × ℕ)
      (es : Entries × ℕ)
      → read p ≡ ok k
      → read k.1 ≡ ok v
      → read_columns read w v.1 ≡ ok cs
      → read_entries read w total cs.1 ≡ ok es
      → read_entries read w (suc total) p ≡ ok (entry k.0 v.0 cs.0 es.0, es.1)
  unfolding read_entries
  entry_step read w total p k v cs es a b c d = rw (a, b, c, d) refl

  pub entry-Reads :
      (w : ℕ) (k v : Value) (cs : Columns) (es : Entries) (t u c r : Text)
      → Steps.Reads stod round is_alive id_of_object object_of_id k t
      → Steps.Reads stod round is_alive id_of_object object_of_id v u
      → Steps.ReadsColumns stod round is_alive id_of_object object_of_id w cs c
      → Steps.ReadsEntries stod round is_alive id_of_object object_of_id w es r
      → Steps.ReadsEntries stod round is_alive id_of_object object_of_id w
          (entry k v cs es)
          (t ++ (u ++ (c ++ r)))
  entry-Reads w k v cs es t u c r key value extra others s n p rest here b =
      let size_t = length-append t (u ++ (c ++ r)) in
      let size_u = length-append u (c ++ r) in
      let size_c = length-append c r in
      let at_key = Steps.At-first s p t (u ++ (c ++ r)) rest here in
      let (k', runs_k, (back_k, place_k)) =
        key s n p ((u ++ (c ++ r)) ++ rest) at_key (omega (arith, size_t)) in
      let at_value =
        Steps.At-first s k'.1 u (c ++ r) rest
          (Steps.At-part s p k'.1 t ((u ++ (c ++ r)) ++ rest) place_k at_key) in
      let (v', runs_v, (back_v, place_v)) =
        value s n k'.1 ((c ++ r) ++ rest) at_value (omega (arith, size_t, size_u)) in
      let at_extra =
        Steps.At-first s v'.1 c r rest
          (Steps.At-part s k'.1 v'.1 u ((c ++ r) ++ rest) place_v at_value) in
      let (c', runs_c, (back_c, place_c)) =
        extra s n v'.1 (r ++ rest) at_extra (omega (arith, size_t, size_u, size_c)) in
      let (r', runs_r, (back_r, place_r)) =
        others s n c'.1 rest (Steps.At-part s v'.1 c'.1 c (r ++ rest) place_c at_extra)
          (omega (arith, size_t, size_u, size_c)) in
      (
        (entry k'.0 v'.0 c'.0 r'.0, r'.1),
        entry_step (deserialize stod object_of_id s n) w (rows es) p k' v' c' r' runs_k runs_v
            runs_c runs_r,
        (
          Restoring.entry_is_restored back_k back_v back_c back_r,
          omega (arith, size_t, size_u, size_c, place_k, place_v, place_c, place_r),
        ),
      )

  pub mapping-Reads :
      (v : Value) (w : ℕ) (es : Entries) (t : Text)
      → ((fs : Entries)
          → Restoring.RestoresEntries round is_alive id_of_object object_of_id w es fs
          → Restoring.Restores round is_alive id_of_object object_of_id v (mapping (suc w) fs))
      → suc w < 2 ^ 31
      → rows es ≤ length t
      → Steps.ReadsEntries stod round is_alive id_of_object object_of_id w es t
      → Steps.Reads stod round is_alive id_of_object object_of_id v
          (b'M' ∷ (digits (rows es) ++ (width_text w ++ b':' ∷ t)))
  unfolding read_kind
  mapping-Reads v w es t comes narrow few entries s zero p rest here b = absurd (omega arith)
  mapping-Reads v w es t comes narrow few entries s (suc n) p rest here b =
      let x = digits (rows es) in
      let y = width_text w in
      let size_x = length-append x (y ++ b':' ∷ t) in
      let size_y = length-append y (b':' ∷ t) in
      let head : At s (suc p) (x ++ (y ++ b':' ∷ (t ++ rest))) =
        subst (At s (suc p))
          (append_assoc x (y ++ b':' ∷ t) rest ∙ ap (λ q. x ++ q) (append_assoc y (b':' ∷ t) rest))
          (At-next s p b'M' ((x ++ (y ++ b':' ∷ t)) ++ rest) here) in
      let rows_here =
        At-field stod object_of_id s b':' (suc p + length x) y (t ++ rest)
          (At-behind s (suc p) x (y ++ b':' ∷ (t ++ rest)) head) in
      let less : suc w - 1 ≡ w = omega arith in
      let small : rows es < 2 ^ 64 =
        omega (arith, rows_here.1, rows_here.2, length-append t rest) in
      let (r, runs, (back, place)) =
        entries s n (suc p + length x + length y + 1) rest rows_here
          (omega (arith, size_x, size_y)) in
      (
        (mapping (suc w) r.0, r.1),
        deserialize-At stod object_of_id s n p b'M' _ here
            ∙ rw (read_table-At s (suc p) (rows es) w (t ++ rest) small narrow head, less, runs)
                refl,
        (comes r.0 back, omega (arith, size_x, size_y, place)),
      )
