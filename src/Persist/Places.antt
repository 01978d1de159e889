-- ===== src/Persist/Places.antt =====
-- What stands at a position of the dump, and the steps of the reader there.
use kjdmud.Base.{
  ℕ, zero, suc, ◌+◌, ◌^◌, ◌<◌, ◌≡◌, refl, sym, ap, ◌∙◌, false, Option, [], ◌∷◌, ◌++◌, length,
  length-append, take, drop, ltb, arith, drop-append, ℤ,
}
use kjdmud.Core.Text.{Text}
use kjdmud.Core.Errors.{Result, ok}
use kjdmud.Core.Decimal.{digits}
use kjdmud.Core.Unsigned.{stoull-digits, Lacks-digits}
use kjdmud.Core.Split.{Lacks, split_at-append}
use kjdmud.Persist.Reading.{field, read_counted, read_kind, deserialize, wrapped}

-- The text stands at the position, up to the end of a file of less than 2^64 bytes.
abbrev pub At : Text → ℕ → Text → Type 0
At s p rest = (drop p s ≡ rest) × (p + length rest ≡ length s) × (length s < 2 ^ 64)

drop-nil : (n : ℕ) → drop {A = ℕ} n [] ≡ []
drop-nil zero = refl
drop-nil (suc n) = refl

drop-drop : (n m : ℕ) (s : Text) → drop (n + m) s ≡ drop m (drop n s)
drop-drop zero m s = ap (λ k. drop k s) (omega arith)
drop-drop (suc n) m [] = drop-nil (suc n + m) ∙ sym (drop-nil m)
drop-drop (suc n) m (c ∷ s) =
    let next : suc n + m ≡ suc (n + m) = omega arith in
    ap (λ k. drop k (c ∷ s)) next ∙ drop-drop n m s

-- Behind the first part.
pub At-behind : (s : Text) (p : ℕ) (x rest : Text) → At s p (x ++ rest) → At s (p + length x) rest
At-behind s p x rest (here, size, small) = (
  drop-drop p (length x) s ∙ ap (drop (length x)) here ∙ drop-append x rest,
  omega (arith, length-append x rest),
  small,
)

pub At-next : (s : Text) (p c : ℕ) (rest : Text) → At s p (c ∷ rest) → At s (suc p) rest
At-next s p c rest h =
    let (here, size, small) = At-behind s p (c ∷ []) rest h in
    (ap (λ n. drop n s) (the_next p) ∙ here, omega arith, small)
  where
    the_next : (n : ℕ) → suc n ≡ n + 1
    the_next n = omega arith

pub take-At :
    (s : Text) (p : ℕ) (t rest : Text) → drop p s ≡ t ++ rest → take (length t) (drop p s) ≡ t
take-At s p t rest h = ap (take (length t)) h ∙ take-append t rest
  where
    take-append : (xs ys : Text) → take (length xs) (xs ++ ys) ≡ xs
    take-append [] ys = refl
    take-append (x ∷ xs) ys = ap (λ t. x ∷ t) (take-append xs ys)

module _ (stod : Text → Result ℕ) (object_of_id : ℤ → Option ℕ) (s : Text) where
  pub field-At :
      (d p : ℕ) (t rest : Text)
      → Lacks d t
      → At s p (t ++ d ∷ rest)
      → field stod object_of_id s d p ≡ ok (t, p + length t + 1)
  unfolding field
  field-At d p t rest h (here, size, small) =
      let inside : ltb (length s) p ≡ false = ground (arith, length-append t (d ∷ rest)) in
      rw (inside, here, split_at-append d t rest h) refl

  pub At-field : (d p : ℕ) (t rest : Text) → At s p (t ++ d ∷ rest) → At s (p + length t + 1) rest
  At-field d p t rest h = At-behind s (p + length t) (d ∷ []) rest (At-behind s p t (d ∷ rest) h)

  pub read_counted-At :
      (p : ℕ) (t rest : Text)
      → At s p (digits (length t) ++ b':' ∷ (t ++ rest))
      → read_counted stod object_of_id s p ≡ ok (t, p + length (digits (length t)) + 1 + length t)
  unfolding read_counted
  read_counted-At p t rest h =
      let q = p + length (digits (length t)) + 1 in
      let behind = At-field b':' p (digits (length t)) (t ++ rest) h in
      let count : length t < 2 ^ 64 = omega (arith, length-append t rest, behind.1, behind.2) in
      let whole : wrapped (q + length t) ≡ q + length t =
        omega (arith, length-append t rest, behind.1, behind.2) in
      rw
        (
          field-At b':' p (digits (length t)) (t ++ rest) (Lacks-digits b':' (length t) refl) h,
          stoull-digits (length t) count,
          take-At s q t rest behind.0,
          whole,
        )
        refl

  pub deserialize-At :
      (n p kind : ℕ) (rest : Text)
      → At s p (kind ∷ rest)
      → deserialize stod object_of_id s (suc n) p
        ≡ read_kind stod object_of_id s (deserialize stod object_of_id s n) kind (suc p)
  unfolding deserialize
  deserialize-At n p kind rest (here, size, small) = rw (here, deserialize) refl
