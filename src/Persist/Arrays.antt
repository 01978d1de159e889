-- ===== src/Persist/Arrays.antt =====
-- Arrays and their items.
use kjdmud.Base.{
  ℕ, zero, suc, ◌+◌, ◌^◌, ◌<◌, ◌≤◌, ◌≡◌, refl, sym, ap, ◌∙◌, Bool, Option, [], ◌∷◌, ◌++◌, length,
  length-append, arith, ℤ, pos,
}
use kjdmud.Core.Text.{Text}
use kjdmud.Core.Errors.{Result, ok, ◌>>=◌}
use kjdmud.Core.Decimal.{digits, to_string}
use kjdmud.Core.Unsigned.{stoull-digits, Lacks-digits}
use kjdmud.Vm.Value.{Value, Items, int, array, no_items, item, absent, columns}
use kjdmud.Vm.Save.Read.{count}
use kjdmud.Persist.Reading.{read_items, read_columns, read_kind, deserialize}
use kjdmud.Persist.Restoring
use kjdmud.Vm.Save.Values.{zeros}
use kjdmud.Persist.Writing.{zero_cells}
use kjdmud.Persist.Scalars
use kjdmud.Persist.Steps
use kjdmud.Persist.Steps.{At-tag}
use kjdmud.Persist.Places.{At-field, field-At, deserialize-At}

module _ (stod : Text → Result ℕ) (round : ℕ → ℕ) (is_alive : ℕ → Bool)
    (id_of_object : ℕ → Option ℕ) (object_of_id : ℤ → Option ℕ) where
  pub array-Reads :
      (v : Value) (xs : Items) (t : Text)
      → ((ys : Items)
          → Restoring.RestoresItems round is_alive id_of_object object_of_id xs ys
          → Restoring.Restores round is_alive id_of_object object_of_id v (array ys))
      → count xs ≤ length t
      → Steps.ReadsItems stod round is_alive id_of_object object_of_id xs t
      → Steps.Reads stod round is_alive id_of_object object_of_id v
          (b'A' ∷ (digits (count xs) ++ b':' ∷ t))
  unfolding read_kind
  array-Reads v xs t comes few items s zero p rest here b = absurd (omega arith)
  array-Reads v xs t comes few items s (suc n) p rest here b =
      let x = digits (count xs) in
      let size = length-append x (b':' ∷ t) in
      let field_here = At-tag s p b'A' b':' x t rest here in
      let items_here = At-field stod object_of_id s b':' (suc p) x (t ++ rest) field_here in
      let small : count xs < 2 ^ 64 =
        omega (arith, items_here.1, items_here.2, length-append t rest) in
      let (r, runs, (back, place)) =
        items s n (suc p + length x + 1) rest items_here (omega (arith, size)) in
      (
        (array r.0, r.1),
        deserialize-At stod object_of_id s n p b'A' _ here
            ∙ rw
                (
                  field-At stod object_of_id s b':' (suc p) x (t ++ rest)
                      (Lacks-digits b':' (count xs) refl) field_here,
                  stoull-digits (count xs) small,
                  runs,
                )
                refl,
        (comes r.0 back, omega (arith, size, place)),
      )

  pub no_items-Reads : Steps.ReadsItems stod round is_alive id_of_object object_of_id no_items []
  unfolding read_items
  no_items-Reads s n p rest here b = ((no_items, p), refl, (Restoring.no_items_left, omega arith))

  pub item-Reads :
      (x : Value) (xs : Items) (t u : Text)
      → Steps.Reads stod round is_alive id_of_object object_of_id x t
      → Steps.ReadsItems stod round is_alive id_of_object object_of_id xs u
      → Steps.ReadsItems stod round is_alive id_of_object object_of_id (item x xs) (t ++ u)
  unfolding read_items
  item-Reads x xs t u first others s n p rest here b =
      let size = length-append t u in
      let start = Steps.At-first s p t u rest here in
      let (a, runs_a, (back_a, place_a)) = first s n p (u ++ rest) start (omega (arith, size)) in
      let behind = Steps.At-part s p a.1 t (u ++ rest) place_a start in
      let (r, runs_r, (back_r, place_r)) = others s n a.1 rest behind (omega (arith, size)) in
      (
        (item a.0 r.0, r.1),
        rw (runs_a, runs_r) refl,
        (Restoring.item_is_restored back_a back_r, omega (arith, size, place_a, place_r)),
      )

  pub zeros-Reads :
      (n : ℕ)
      → Steps.ReadsItems stod round is_alive id_of_object object_of_id (zeros n) (zero_cells n)
  unfolding zero_cells to_string digits
  zeros-Reads zero = no_items-Reads
  zeros-Reads (suc n) =
      item-Reads (int (pos 0)) (zeros n) (b'I' ∷ b'0' ∷ b';' ∷ []) (zero_cells n)
        (Scalars.int-Reads stod round is_alive id_of_object object_of_id (pos 0) (omega arith))
        (zeros-Reads n)

  count-zeros : (n : ℕ) → count (zeros n) ≡ n
  count-zeros zero = refl
  count-zeros (suc n) = ap suc (count-zeros n)

  pub absent-Reads :
      (n : ℕ)
      → Steps.ReadsColumns stod round is_alive id_of_object object_of_id n absent (zero_cells n)
  unfolding read_columns zero_cells
  absent-Reads zero s n p rest here b =
      ((absent, p), refl, (Restoring.no_columns absent, omega arith))
  absent-Reads (suc w) s n p rest here b =
      let (r, runs, (back, place)) = zeros-Reads (suc w) s n p rest here b in
      (
        (columns r.0, r.1),
        ap
              (λ k. read_items (deserialize stod object_of_id s n) k p >>= λ xs.
                ok (columns xs.0, xs.1))
              (sym (count-zeros (suc w)))
            ∙ rw runs refl,
        (Restoring.absent_is_zeros w back, place),
      )

  pub columns-Reads :
      (w : ℕ) (xs : Items) (t : Text)
      → count xs ≡ w
      → (w ≡ 0 → t ≡ [])
      → Steps.ReadsItems stod round is_alive id_of_object object_of_id xs t
      → Steps.ReadsColumns stod round is_alive id_of_object object_of_id w (columns xs) t
  unfolding read_columns
  columns-Reads zero xs t h none_left items s n p rest here b =
      ((absent, p), refl, (Restoring.no_columns (columns xs), rw (none_left refl) (omega arith)))
  columns-Reads (suc w) xs t h none_left items s n p rest here b =
      let (r, runs, (back, place)) = items s n p rest here b in
      (
        (columns r.0, r.1),
        ap
              (λ k. read_items (deserialize stod object_of_id s n) k p >>= λ ys.
                ok (columns ys.0, ys.1))
              (sym h)
            ∙ rw runs refl,
        (Restoring.columns_are_restored w back, place),
      )
