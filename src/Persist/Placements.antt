-- ===== src/Persist/Placements.antt =====
-- The fields of a placement are read back.
use kjdmud.Base.{
  ℕ, ◌+◌, ◌%◌, ◌^◌, ◌<◌, ◌≡◌, refl, Bool, true, false, not, List, [], ◌∷◌, ◌++◌, length,
  length-append, arith, if◌then◌else◌, ℤ, pos, eqb_ℤ, IsInt64, All,
}
use kjdmud.Core.Text.{Text}
use kjdmud.Core.Errors.{ok}
use kjdmud.Core.Decimal.{to_string, digits}
use kjdmud.Core.Unsigned.{stoull-digits, stoll-all, Lacks-digits, Lacks-to_string}
use kjdmud.Core.Split.{Lacks, split_at-append, split_at-none}
use kjdmud.Persist.World.{ids_text}
use kjdmud.Persist.Placing.{read_ids, delimited, read_int_field, read_filename}
use kjdmud.Persist.Places.{At, At-behind, take-At}

pub At-past :
    (s : Text) (d p : ℕ) (t rest : Text) → At s p (t ++ d ∷ rest) → At s (p + length t + 1) rest
At-past s d p t rest h = At-behind s (p + length t) (d ∷ []) rest (At-behind s p t (d ∷ rest) h)

pub delimited-At :
    (s message : Text) (d p : ℕ) (t rest : Text)
    → Lacks d t
    → At s p (t ++ d ∷ rest)
    → delimited s d message p ≡ ok (t, p + length t + 1)
unfolding delimited
delimited-At s message d p t rest h (here, size, small) =
    rw (delimited, here, split_at-append d t rest h) refl

pub read_int_field-At :
    (s : Text) (p : ℕ) (v : ℤ) (rest : Text)
    → IsInt64 v
    → At s p (to_string v ++ b';' ∷ rest)
    → read_int_field s p ≡ ok (v, p + length (to_string v) + 1)
unfolding read_int_field
read_int_field-At s p v rest h here =
    rw
      (
        delimited-At s _ b';' p (to_string v) rest (Lacks-to_string b';' v refl refl) here,
        stoll-all v h,
      )
      refl

abbrev pub AreInt64 : List ℤ → Type 0
AreInt64 ids = All IsInt64 ids

pub read_ids-text : (ids : List ℤ) → AreInt64 ids → read_ids (length ids) (ids_text ids) ≡ ok ids
unfolding read_ids ids_text
read_ids-text [] h = refl
read_ids-text (i ∷ []) h =
    rw
      (
        read_ids,
        split_at-none b',' (to_string i) (Lacks-to_string b',' i refl refl),
        stoll-all i h.0,
      )
      refl
read_ids-text (i ∷ j ∷ ids) h =
    let rest = ids_text (j ∷ ids) in
    rw
      (
        read_ids,
        split_at-append b',' (to_string i) rest (Lacks-to_string b',' i refl refl),
        stoll-all i h.0,
        read_ids-text (j ∷ ids) h.1,
      )
      refl

Lacks-append : (d : ℕ) (s t : Text) → Lacks d s → Lacks d t → Lacks d (s ++ t)
Lacks-append d [] t h k = k
Lacks-append d (c ∷ s) t h k = (h.0, Lacks-append d s t h.1 k)

pub Lacks-ids_text : (ids : List ℤ) → Lacks b';' (ids_text ids)
unfolding ids_text
Lacks-ids_text [] = tt
Lacks-ids_text (i ∷ []) = Lacks-to_string b';' i refl refl
Lacks-ids_text (i ∷ j ∷ ids) =
    Lacks-append b';' (to_string i) (b',' ∷ ids_text (j ∷ ids)) (Lacks-to_string b';' i refl refl)
      (refl, Lacks-ids_text (j ∷ ids))

abbrev pub flag_value : Bool → ℤ
flag_value b = if b then pos 1 else pos 0

pub flag-text :
    (b : Bool) (rest : Text) → to_string (flag_value b) ++ rest ≡ (if b then b'1' else b'0') ∷ rest
unfolding to_string digits
flag-text true rest = refl
flag-text false rest = refl

pub flag-IsInt64 : (b : Bool) → IsInt64 (flag_value b)
flag-IsInt64 true = omega arith
flag-IsInt64 false = omega arith

pub flag-back : (b : Bool) → not (eqb_ℤ (flag_value b) (pos 0)) ≡ b
flag-back true = refl
flag-back false = refl

pub flag-length : (b : Bool) → length (to_string (flag_value b)) ≡ 1
unfolding to_string digits
flag-length true = refl
flag-length false = refl

pub read_filename-At :
    (s : Text) (p : ℕ) (t rest : Text)
    → At s p (digits (length t) ++ b':' ∷ (t ++ rest))
    → read_filename s p ≡ ok (t, p + length (digits (length t)) + 1 + length t)
unfolding read_filename
read_filename-At s p t rest h =
    let q = p + length (digits (length t)) + 1 in
    let behind = At-past s b':' p (digits (length t)) (t ++ rest) h in
    let few : length t < 2 ^ 64 = omega (arith, length-append t rest, behind.1, behind.2) in
    let whole : (q + length t) % 2 ^ 64 ≡ q + length t =
      omega (arith, length-append t rest, behind.1, behind.2) in
    rw
      (
        delimited-At s _ b':' p (digits (length t)) (t ++ rest) (Lacks-digits b':' (length t) refl)
            h,
        stoull-digits (length t) few,
        take-At s q t rest behind.0,
        whole,
      )
      refl
