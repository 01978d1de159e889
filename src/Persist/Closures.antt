-- ===== src/Persist/Closures.antt =====
-- Closures.
use kjdmud.Base.{
  ℕ, zero, suc, ◌+◌, ◌^◌, ◌<◌, ◌≤◌, ◌≡◌, refl, ap, ap₂, subst, ◌∙◌, Bool, true, false, Option, none,
  some, [], ◌∷◌, ◌++◌, length, length-append, arith, append_assoc, if◌then◌else◌, ℤ, pos, negsuc,
  IsInt64,
}
use kjdmud.Core.Text.{Text, text_eq}
use kjdmud.Core.Errors.{Result, ok}
use kjdmud.Core.Decimal.{digits, to_string}
use kjdmud.Core.Unsigned.{stoull-digits, stoll-all, Lacks-digits, Lacks-to_string}
use kjdmud.Core.Split.{Lacks}
use kjdmud.Vm.Value.{ClosureHead, Value, Items, closure}
use kjdmud.Vm.Save.Read.{count}
use kjdmud.Persist.Reading.{read_items, read_kind, read_closure, owner_of, deserialize}
use kjdmud.Persist.Restoring
use kjdmud.Persist.Writing.{owner_id, closure_text}
use kjdmud.Persist.Steps
use kjdmud.Persist.Steps.{At-tag}
use kjdmud.Persist.Places.{
  At, At-next, At-behind, At-field, field-At, read_counted-At, deserialize-At,
}

abbrev flag : Bool → ℕ
flag b = if b then b'1' else b'0'

flag-text_eq : (b : Bool) → text_eq (flag b ∷ []) (b'1' ∷ []) ≡ b
unfolding text_eq
flag-text_eq true = refl
flag-text_eq false = refl

Lacks-flag : (b : Bool) → Lacks b';' (flag b ∷ [])
Lacks-flag true = (refl, tt)
Lacks-flag false = (refl, tt)

-- The text of a closure, from the left to the right.
closure_text-append :
    (x y name z t rest : Text) (f : ℕ)
    → ((x ++ b';' ∷ f ∷ b';' ∷ (y ++ b':' ∷ name)) ++ (z ++ b';' ∷ t)) ++ rest
      ≡ x ++ b';' ∷ f ∷ b';' ∷ (y ++ b':' ∷ (name ++ (z ++ b';' ∷ (t ++ rest))))
closure_text-append x y name z t rest f =
    let tail = z ++ b';' ∷ t in
    append_assoc (x ++ b';' ∷ f ∷ b';' ∷ (y ++ b':' ∷ name)) tail rest
    ∙ append_assoc x (b';' ∷ f ∷ b';' ∷ (y ++ b':' ∷ name)) (tail ++ rest)
    ∙ ap (λ q. x ++ b';' ∷ f ∷ b';' ∷ q)
        (append_assoc y (b':' ∷ name) (tail ++ rest)
          ∙ ap (λ q. y ++ b':' ∷ (name ++ q)) (append_assoc z (b';' ∷ t) rest))

module _ (stod : Text → Result ℕ) (round : ℕ → ℕ) (is_alive : ℕ → Bool)
    (id_of_object : ℕ → Option ℕ) (object_of_id : ℤ → Option ℕ)
    (small_ids : (a i : ℕ) → id_of_object a ≡ some i → i < 2 ^ 63) where
  owner_id-IsInt64 : (o : Option ℕ) → IsInt64 (owner_id is_alive id_of_object o)
  unfolding owner_id
  owner_id-IsInt64 none = omega arith
  owner_id-IsInt64 (some a) = id_cases (is_alive a) (id_of_object a) refl
    where
      id_cases :
          (alive : Bool) (i : Option ℕ)
          → id_of_object a ≡ i
          → IsInt64 (if alive then (elim i [ none ↦ negsuc 0 | some i ↦ pos i ]) else negsuc 0)
      id_cases false i e = omega arith
      id_cases true none e = omega arith
      id_cases true (some i) e = small_ids a i e

  owner_of-owner_id :
      (o : Option ℕ)
      → owner_of object_of_id (owner_id is_alive id_of_object o)
        ≡ Restoring.restored_owner round is_alive id_of_object object_of_id o
  unfolding owner_of owner_id
  owner_of-owner_id none = refl
  owner_of-owner_id (some a) = id_cases (is_alive a) (id_of_object a)
    where
      id_cases :
          (alive : Bool) (i : Option ℕ)
          → owner_of object_of_id
              (if alive then (elim i [ none ↦ negsuc 0 | some i ↦ pos i ]) else negsuc 0)
            ≡ (if alive then (elim i [ none ↦ none | some i ↦ object_of_id (pos i) ]) else none)
      id_cases false i = refl
      id_cases true none = refl
      id_cases true (some i) = refl

  -- The fields in front of the bound arguments, and the arguments.
  closure_step :
      (s : Text) (read : ℕ → Result (Value × ℕ)) (h : ClosureHead) (total p : ℕ) (tail : Text)
      (xs : Items × ℕ)
      → total < 2 ^ 64
      → (let x = to_string (owner_id is_alive id_of_object h.owner) in
          let y = digits (length h.function_name) in
          let z = digits total in
          At s p (
            x
            ++ b';'
              ∷ flag h.force_efun
              ∷ b';'
              ∷ (y ++ b':' ∷ (h.function_name ++ (z ++ b';' ∷ tail))))
          → read_items read total
              (p + length x + 1 + 1 + 1 + length y + 1 + length h.function_name + length z + 1)
            ≡ ok xs
          → read_closure stod object_of_id s read p
            ≡ ok (
              closure p (Restoring.restored_head round is_alive id_of_object object_of_id h) xs.0,
              xs.1,
            ))
  unfolding read_closure
  closure_step s read h total p tail xs few here runs =
      let id = owner_id is_alive id_of_object h.owner in
      let f = flag h.force_efun in
      let name = h.function_name in
      let x = to_string id in
      let y = digits (length name) in
      let z = digits total in
      let args = z ++ b';' ∷ tail in
      let counted = y ++ b':' ∷ (name ++ args) in
      let p1 = p + length x + 1 in
      let p2 = p1 + 1 + 1 in
      let p3 = p2 + length y + 1 + length name in
      let at_flag = At-field stod object_of_id s b';' p x (f ∷ b';' ∷ counted) here in
      let at_name = At-field stod object_of_id s b';' p1 (f ∷ []) counted at_flag in
      let at_args =
        At-behind s (p2 + length y + 1) name args
          (At-field stod object_of_id s b':' p2 y (name ++ args) at_name) in
      rw
        (
          field-At stod object_of_id s b';' p x (f ∷ b';' ∷ counted)
              (Lacks-to_string b';' id refl refl) here,
          stoll-all id (owner_id-IsInt64 h.owner),
          field-At stod object_of_id s b';' p1 (f ∷ []) counted (Lacks-flag h.force_efun) at_flag,
          read_counted-At stod object_of_id s p2 name args at_name,
          field-At stod object_of_id s b';' p3 z tail (Lacks-digits b';' total refl) at_args,
          stoull-digits total few,
          runs,
        )
        (ap₂
          (λ o b. ok (
            closure p
                (record {
                  owner = o;
                  function_name = name;
                  force_efun = b;
                  unbound_until_bound = false;
                  quoted = false;
                })
                xs.0,
            xs.1,
          ))
          (owner_of-owner_id h.owner) (flag-text_eq h.force_efun))

  pub closure-Reads :
      (a : ℕ) (h : ClosureHead) (xs : Items) (t : Text)
      → count xs ≤ length t
      → Steps.ReadsItems stod round is_alive id_of_object object_of_id xs t
      → Steps.Reads stod round is_alive id_of_object object_of_id
          (closure a h xs)
          (b'C' ∷ (closure_text is_alive id_of_object h ++ (digits (count xs) ++ b';' ∷ t)))
  unfolding read_kind closure_text
  closure-Reads a h xs t few items s zero p rest here b = absurd (omega arith)
  closure-Reads a h xs t few items s (suc n) p rest here b =
      let x = to_string (owner_id is_alive id_of_object h.owner) in
      let f = flag h.force_efun in
      let name = h.function_name in
      let y = digits (length name) in
      let z = digits (count xs) in
      let size = length-append (x ++ b';' ∷ f ∷ b';' ∷ (y ++ b':' ∷ name)) (z ++ b';' ∷ t) in
      let size_x = length-append x (b';' ∷ f ∷ b';' ∷ (y ++ b':' ∷ name)) in
      let size_y = length-append y (b':' ∷ name) in
      let size_z = length-append z (b';' ∷ t) in
      let fields_here =
        subst (At s (suc p)) (closure_text-append x y name z t rest f) (At-next s p b'C' _ here) in
      let q = suc p + length x + 1 + 1 + 1 + length y + 1 + length name + length z + 1 in
      let items_here : At s q (t ++ rest) = At-field stod object_of_id s b';' _ z (t ++ rest) (
        At-behind s _ name (z ++ b';' ∷ (t ++ rest)) (
          At-field stod object_of_id s b':' _ y _ (
            At-field stod object_of_id s b';' _ (f ∷ []) _
              (At-field stod object_of_id s b';' (suc p) x _ fields_here)))) in
      let few_bytes : count xs < 2 ^ 64 =
        omega (arith, items_here.1, items_here.2, length-append t rest) in
      let (r, runs, (back, place)) =
        items s n q rest items_here (omega (arith, size, size_x, size_y, size_z)) in
      (
        (
          closure (suc p) (Restoring.restored_head round is_alive id_of_object object_of_id h) r.0,
          r.1,
        ),
        deserialize-At stod object_of_id s n p b'C' _ here
            ∙ closure_step s (deserialize stod object_of_id s n) h (count xs) (suc p) (t ++ rest) r
                few_bytes fields_here runs,
        (
          Restoring.closure_is_rebuilt a (suc p) h back,
          omega (arith, size, size_x, size_y, size_z, place),
        ),
      )
