-- ===== src/Persist/Scalars.antt =====
-- The values without parts.
use kjdmud.Base.{
  ℕ, zero, suc, ◌+◌, ◌^◌, ◌<◌, ◌≡◌, refl, ap, ◌∙◌, Bool, true, Option, none, some, [], ◌∷◌, ◌++◌,
  length, length-append, arith, ℤ, pos, IsInt64,
}
use kjdmud.Core.Text.{Text}
use kjdmud.Core.Errors.{Result, ok}
use kjdmud.Core.Decimal.{digits, to_string, stoll}
use kjdmud.Core.Unsigned.{stoll-all, Lacks-digits, Lacks-to_string}
use kjdmud.Core.Split.{Lacks}
use kjdmud.Vm.Value.{Value, void, int, float, str, object}
use kjdmud.Persist.Reading.{read_kind}
use kjdmud.Persist.Restoring
use kjdmud.Persist.Steps
use kjdmud.Persist.Steps.{At-tag}
use kjdmud.Persist.Places.{field-At, read_counted-At, deserialize-At}

module _ (stod : Text → Result ℕ) (round : ℕ → ℕ) (is_alive : ℕ → Bool)
    (id_of_object : ℕ → Option ℕ) (object_of_id : ℤ → Option ℕ) where
  pub int-Reads :
      (i : ℤ)
      → IsInt64 i
      → Steps.Reads stod round is_alive id_of_object object_of_id
          (int i)
          (b'I' ∷ (to_string i ++ b';' ∷ []))
  unfolding read_kind
  int-Reads i h s zero p rest here b = absurd (omega arith)
  int-Reads i h s (suc n) p rest here b =
      let x = to_string i in
      let field_here = At-tag s p b'I' b';' x [] rest here in
      (
        (int i, suc p + length x + 1),
        deserialize-At stod object_of_id s n p b'I' _ here
            ∙ rw
                (
                  field-At stod object_of_id s b';' (suc p) x rest
                      (Lacks-to_string b';' i refl refl) field_here,
                  stoll-all i h,
                )
                refl,
        (Restoring.int_is_same i, omega (arith, length-append x (b';' ∷ []))),
      )

  pub float-Reads :
      (show : ℕ → Text) (d : ℕ)
      → Lacks b';' (show d)
      → stod (show d) ≡ ok (round d)
      → Steps.Reads stod round is_alive id_of_object object_of_id
          (float d)
          (b'F' ∷ (show d ++ b';' ∷ []))
  unfolding read_kind
  float-Reads show d clean e s zero p rest here b = absurd (omega arith)
  float-Reads show d clean e s (suc n) p rest here b =
      let x = show d in
      let field_here = At-tag s p b'F' b';' x [] rest here in
      (
        (float (round d), suc p + length x + 1),
        deserialize-At stod object_of_id s n p b'F' _ here
            ∙ rw (field-At stod object_of_id s b';' (suc p) x rest clean field_here, e) refl,
        (Restoring.float_is_rounded d, omega (arith, length-append x (b';' ∷ []))),
      )

  pub str-Reads :
      (t : Text)
      → Steps.Reads stod round is_alive id_of_object object_of_id
          (str t)
          (b'S' ∷ (digits (length t) ++ b':' ∷ t))
  unfolding read_kind
  str-Reads t s zero p rest here b = absurd (omega arith)
  str-Reads t s (suc n) p rest here b =
      let x = digits (length t) in
      let bytes_here = At-tag s p b'S' b':' x t rest here in
      (
        (str t, suc p + length x + 1 + length t),
        deserialize-At stod object_of_id s n p b'S' _ here
            ∙ rw (read_counted-At stod object_of_id s (suc p) t rest bytes_here) refl,
        (Restoring.str_is_same t, omega (arith, length-append x (b':' ∷ t))),
      )

  pub dropped-Reads :
      (v : Value)
      → Restoring.is_dropped v ≡ true
      → Steps.Reads stod round is_alive id_of_object object_of_id v (b'N' ∷ [])
  unfolding read_kind
  dropped-Reads v dropped s zero p rest here b = absurd (omega arith)
  dropped-Reads v dropped s (suc n) p rest here b = (
    (void, suc p),
    deserialize-At stod object_of_id s n p b'N' _ here,
    (Restoring.dropped_is_void v dropped, omega arith),
  )

  found_cases :
      (o : Option ℕ) → (elim o [ none ↦ void | some a ↦ object (some a) ]) ≡ Restoring.found o
  found_cases none = refl
  found_cases (some a) = refl

  pub object-Reads :
      (a i : ℕ)
      → id_of_object a ≡ some i
      → i < 2 ^ 63
      → Steps.Reads stod round is_alive id_of_object object_of_id
          (object (some a))
          (b'O' ∷ (digits i ++ b';' ∷ []))
  unfolding read_kind to_string
  object-Reads a i e small s zero p rest here b = absurd (omega arith)
  object-Reads a i e small s (suc n) p rest here b =
      let x = digits i in
      let field_here = At-tag s p b'O' b';' x [] rest here in
      let number : stoll x ≡ ok (pos i) = stoll-all (pos i) small in
      (
        (Restoring.found (object_of_id (pos i)), suc p + length x + 1),
        deserialize-At stod object_of_id s n p b'O' _ here
            ∙ rw
                (
                  field-At stod object_of_id s b';' (suc p) x rest (Lacks-digits b';' i refl)
                      field_here,
                  number,
                )
                (ap (λ v. ok (v, suc p + length x + 1)) (found_cases (object_of_id (pos i)))),
        (Restoring.object_is_found a i e, omega (arith, length-append x (b';' ∷ []))),
      )
