-- ===== src/Core/Unsigned.antt =====
-- `std::stoull`, and that it reads the digits of a number.
use kjdmud.Base.{
  ℕ, suc, ◌-◌, ◌%◌, ◌^◌, ◌<◌, ◌≡◌, refl, true, false, [], ◌∷◌, append-nil, arith, ltb, lt→ltb, ◌==◌,
  if◌then◌else◌, ap, ◌∙◌, sym, ◌++◌, IsInt64, ℤ, pos, negsuc,
}
use kjdmud.Core.Text.{Text, is_digit, is_space}
use kjdmud.Core.Errors.{Result, ok, err, ◌>>=◌, invalid_argument, out_of_range}
use kjdmud.Core.Decimal.{
  digits, read_digits, starts_digit, starts_digit-digits, read_digits-digits, IsDigits,
  digits-IsDigits, to_string, stoll, stoll-to_string,
}
use kjdmud.Core.Split.{Lacks}

-- The number that the digits say, if it has 64 bits.
unsigned_digits : Text → Result ℕ
unfolding starts_digit read_digits
unsigned_digits s =
    let value = read_digits 0 s in
    if starts_digit s
    then (if ltb value (2 ^ 64) then ok value else err out_of_range)
    else err invalid_argument

-- `std::stoull` in base 10: blanks, a sign, and digits; a minus negates modulo 2^64.
unfoldable pub stoull : Text → Result ℕ
unfolding unsigned_digits
stoull [] = err invalid_argument
stoull (c ∷ s) =
    let blank = stoull s in
    if is_space c
    then blank
    else if c == b'-'
    then (unsigned_digits s >>= λ value. ok ((2 ^ 64 - value) % 2 ^ 64))
    else if c == b'+'
    then unsigned_digits s
    else unsigned_digits (c ∷ s)

stoull-unsigned : (s : Text) → starts_digit s ≡ true → stoull s ≡ unsigned_digits s
unfolding stoull starts_digit
stoull-unsigned [] h = cc
stoull-unsigned (c ∷ s) h = ground arith

unsigned_digits-digits : (n : ℕ) → n < 2 ^ 64 → unsigned_digits (digits n ++ []) ≡ ok n
unfolding unsigned_digits
unsigned_digits-digits n h =
    rw (starts_digit-digits n [], read_digits-digits n [] refl, lt→ltb n (2 ^ 64) h) refl

pub stoull-digits : (n : ℕ) → n < 2 ^ 64 → stoull (digits n) ≡ ok n
stoull-digits n h =
    ap stoull (sym (append-nil (digits n)))
    ∙ stoull-unsigned (digits n ++ []) (starts_digit-digits n [])
    ∙ unsigned_digits-digits n h

pub stoll-all : (v : ℤ) → IsInt64 v → stoll (to_string v) ≡ ok v
unfolding starts_digit
stoll-all v h = ap stoll (sym (append-nil (to_string v))) ∙ stoll-to_string v [] h refl

-- A byte that is no digit does not stand among digits.
Lacks-IsDigits : (d : ℕ) (s : Text) → is_digit d ≡ false → IsDigits s → Lacks d s
Lacks-IsDigits d [] other h = tt
Lacks-IsDigits d (c ∷ s) other h = (ground arith, Lacks-IsDigits d s other h.1)

pub Lacks-digits : (d n : ℕ) → is_digit d ≡ false → Lacks d (digits n)
Lacks-digits d n other = Lacks-IsDigits d (digits n) other (digits-IsDigits n)

pub Lacks-to_string :
    (d : ℕ) (v : ℤ) → is_digit d ≡ false → (b'-' == d) ≡ false → Lacks d (to_string v)
unfolding to_string
Lacks-to_string d (pos n) other minus = Lacks-digits d n other
Lacks-to_string d (negsuc n) other minus = (minus, Lacks-digits d (suc n) other)
