-- ===== src/Vm/Save/Pieces.antt =====
-- Strings and numbers are read back as they are written.
use kjdmud.Base.{
  ℕ, suc, ◌<◌, ◌≡◌, refl, ◌⊎◌, inl, inr, ℤ, pos, negsuc, Bool, true, false, ◌||◌, [], ◌∷◌, ◌++◌,
  append_assoc, append-nil, arith, length, ◌==◌, Bool-cases, IsInt64,
}
use kjdmud.Core.Text.{Text}
use kjdmud.Core.Errors.{ok}
use kjdmud.Core.Decimal.{
  digits, to_string, stoll, IsDigits, digits-IsDigits, starts_digit, starts_digit-digits,
  stoll-to_string,
}
use kjdmud.Vm.Value.{int, float}
use kjdmud.Vm.Save.Format.{Format, IsFixed}
use kjdmud.Vm.Save.Write.{write_bytes}
use kjdmud.Vm.Save.Read.{
  is_at, push, unescaped, read_string, span_digits, read_unsigned, read_number,
}
use kjdmud.Vm.Save.Values.{restored_bytes}

read_string_close : (s : Text) → read_string (b'"' ∷ s) ≡ ([], s)
unfolding read_string
read_string_close [] = refl
read_string_close (c ∷ s) = refl

read_string_plain :
    (c : ℕ) (s : Text)
    → (c == b'"') ≡ false
    → (c == b'\\') ≡ false
    → read_string (c ∷ s) ≡ push (unescaped c) (read_string s)
unfolding read_string
read_string_plain c [] h k = rw h
read_string_plain c (e ∷ s) h k = rw (h, k)

read_string_escape : (e : ℕ) (s : Text) → read_string (b'\\' ∷ e ∷ s) ≡ push e (read_string s)
unfolding read_string
read_string_escape e s = refl

pub read_string-write_bytes :
    (s rest : Text) → read_string (write_bytes s ++ b'"' ∷ rest) ≡ (restored_bytes s, rest)
unfolding write_bytes restored_bytes
read_string-write_bytes [] rest = read_string_close rest
read_string-write_bytes (c ∷ s) rest =
    let more = read_string-write_bytes s rest in
    elim (Bool-cases (c == b'"' || c == b'\\')) [
      | inl special ↦ rw (special, read_string_escape c _, more) (ground arith)
      | inr plain ↦ elim (Bool-cases (c == b'\n')) [
        | inl line ↦ rw (plain, line, read_string_plain b'\r' _ refl refl, more) (ground arith)
        | inr same ↦ rw (plain, same, read_string_plain c _ (ground arith) (ground arith), more)
      ]
    ]

-- Behind a saved value: the end, or one of the three delimiters.
abbrev pub is_stop : Text → Bool
is_stop [] = true
is_stop (c ∷ t) = c == b',' || c == b':' || c == b';'

stop-digit : (t : Text) → is_stop t ≡ true → starts_digit t ≡ false
unfolding starts_digit
stop-digit [] h = refl
stop-digit (c ∷ t) h = ground arith

stop-point : (t : Text) → is_stop t ≡ true → is_at b'.' t ≡ false
stop-point [] h = refl
stop-point (c ∷ t) h = ground arith

span_digits_stop : (t : Text) → starts_digit t ≡ false → span_digits t ≡ ([], t)
unfolding span_digits starts_digit
span_digits_stop [] h = refl
span_digits_stop (c ∷ t) h = rw h

pub span_digits-append :
    (s t : Text) → IsDigits s → starts_digit t ≡ false → span_digits (s ++ t) ≡ (s, t)
unfolding span_digits
span_digits-append [] t h k = span_digits_stop t k
span_digits-append (c ∷ s) t h k = rw (h.0, span_digits-append s t h.1 k)

read_unsigned_whole :
    (f : Format) (sign s t : Text) (i : ℤ)
    → IsDigits s
    → is_stop t ≡ true
    → stoll (sign ++ s) ≡ ok i
    → read_unsigned f sign (s ++ t) ≡ ok (int i, t)
unfolding read_unsigned
read_unsigned_whole f sign s t i h k e =
    rw (span_digits-append s t h (stop-digit t k), stop-point t k, e)

read_unsigned_point :
    (f : Format) (sign whole fraction t : Text) (d : ℕ)
    → IsDigits whole
    → IsDigits fraction
    → is_stop t ≡ true
    → f.stod (sign ++ (whole ++ b'.' ∷ fraction)) ≡ ok d
    → read_unsigned f sign (whole ++ b'.' ∷ (fraction ++ t)) ≡ ok (float d, t)
unfolding read_unsigned starts_digit
read_unsigned_point f sign whole fraction t d h k p e = rw (
  span_digits-append whole (b'.' ∷ (fraction ++ t)) h refl,
  span_digits-append fraction t k (stop-digit t p),
  e,
)

digits-no_sign : (s t : Text) → IsDigits s → 0 < length s → is_at b'-' (s ++ t) ≡ false
digits-no_sign [] t h k = absurd (omega arith)
digits-no_sign (c ∷ s) t h k = ground arith

starts-some : (s : Text) → starts_digit s ≡ true → 0 < length s
unfolding starts_digit
starts-some [] h = cc
starts-some (c ∷ s) h = omega arith

digits-some : (n : ℕ) → 0 < length (digits n)
digits-some n = starts-some (digits n) (rw append-nil at (starts_digit-digits n []))

stoll_whole : (i : ℤ) → IsInt64 i → stoll (to_string i) ≡ ok i
unfolding starts_digit
stoll_whole i h = rw append-nil at (stoll-to_string i [] h refl)

pub read_number-int :
    (f : Format) (i : ℤ) (t : Text)
    → IsInt64 i
    → is_stop t ≡ true
    → read_number f (to_string i ++ t) ≡ ok (int i, t)
unfolding read_number to_string
read_number-int f (pos n) t h k =
    rw (digits-no_sign (digits n) t (digits-IsDigits n) (digits-some n))
      (read_unsigned_whole f [] (digits n) t (pos n) (digits-IsDigits n) k (stoll_whole (pos n) h))
read_number-int f (negsuc n) t h k =
    read_unsigned_whole f (b'-' ∷ []) (digits (suc n)) t (negsuc n) (digits-IsDigits (suc n)) k
      (stoll_whole (negsuc n) h)

read_number-parts :
    (f : Format) (d : ℕ) (sign whole fraction t : Text)
    → (sign ≡ []) ⊎ (sign ≡ b'-' ∷ [])
    → IsDigits whole
    → 0 < length whole
    → IsDigits fraction
    → is_stop t ≡ true
    → f.stod (sign ++ (whole ++ b'.' ∷ fraction)) ≡ ok d
    → read_number f (sign ++ (whole ++ b'.' ∷ (fraction ++ t))) ≡ ok (float d, t)
unfolding read_number
read_number-parts f d sign whole fraction t (inl p) h l k q e =
    rw (p, digits-no_sign whole (b'.' ∷ (fraction ++ t)) h l)
      (read_unsigned_point f [] whole fraction t d h k q (rw p at e))
read_number-parts f d sign whole fraction t (inr p) h l k q e =
    rw p (read_unsigned_point f (b'-' ∷ []) whole fraction t d h k q (rw p at e))

pub read_number-fixed :
    (f : Format) (d : ℕ) (text t : Text)
    → IsFixed text
    → is_stop t ≡ true
    → f.stod text ≡ ok d
    → read_number f (text ++ t) ≡ ok (float d, t)
read_number-fixed f d text t x k e =
    let read =
      read_number-parts f d x.sign x.whole x.fraction t x.is_sign x.whole_digits x.whole_some
        x.fraction_digits k (rw x.parts at e) in
    rw (x.parts, append_assoc x.sign, append_assoc x.whole) read
