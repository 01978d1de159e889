-- ===== src/Core/Decimal.antt =====
-- `std::to_string` of an integer and `std::stoll`, and that they are inverse.
use kjdmud.Base.{
  ℕ, zero, suc, ◌+◌, ◌-◌, ◌*◌, ◌/◌, ◌%◌, ◌<◌, ◌≡◌, refl, Bool, true, false, [], ◌∷◌, ◌++◌,
  append_assoc, arith, ltb, ◌==◌, if◌then◌else◌, Bool-cases, inl, inr, ltb→lt, ℤ, pos, negsuc,
  is_int64, IsInt64, lt→ltb, All, All-append,
}
use kjdmud.Core.Text.{Text, is_digit, is_space}
use kjdmud.Core.Errors.{Result, ok, err, invalid_argument, out_of_range}

-- The decimal digits of `n`, most significant first; `n + 1` rounds are enough.
digits_fuel : ℕ → ℕ → Text
digits_fuel zero n = []
digits_fuel (suc f) n =
    let front = digits_fuel f (n / 10) in
    if ltb n 10 then (48 + n) ∷ [] else front ++ (48 + n % 10) ∷ []

unfoldable pub digits : ℕ → Text
unfolding digits_fuel
digits n = digits_fuel (suc n) n

-- `std::to_string` of an `int64_t`.
unfoldable pub to_string : ℤ → Text
unfolding digits
to_string (pos n) = digits n
to_string (negsuc n) = 45 ∷ digits (suc n)

-- The value of the digits at the front of a text, after `acc`.
unfoldable pub read_digits : ℕ → Text → ℕ
read_digits acc [] = acc
read_digits acc (c ∷ s) =
    let more = read_digits (acc * 10 + (c - 48)) s in if is_digit c then more else acc

unfoldable pub starts_digit : Text → Bool
starts_digit [] = false
starts_digit (c ∷ _) = is_digit c

in_range : ℤ → Result ℤ
in_range v = if is_int64 v then ok v else err out_of_range

negated : ℕ → ℤ
negated zero = pos zero
negated (suc n) = negsuc n

unsigned_part : Text → Result ℤ
unfolding starts_digit read_digits in_range
unsigned_part s = if starts_digit s then in_range (pos (read_digits 0 s)) else err invalid_argument

negative_part : Text → Result ℤ
unfolding starts_digit read_digits in_range negated
negative_part s =
    if starts_digit s then in_range (negated (read_digits 0 s)) else err invalid_argument

-- `std::stoll` in base 10: blanks, a sign, and the longest run of digits; what follows is ignored.
unfoldable pub stoll : Text → Result ℤ
unfolding unsigned_part negative_part
stoll [] = err invalid_argument
stoll (c ∷ s) =
    let blank = stoll s in
    if is_space c
    then blank
    else if c == 45
    then negative_part s
    else if c == 43
    then unsigned_part s
    else unsigned_part (c ∷ s)

abbrev pub IsDigits : Text → Type 0
IsDigits s = All (λ c. is_digit c ≡ true) s

pub read_digits-append :
    (acc : ℕ) (s t : Text)
    → IsDigits s
    → read_digits acc (s ++ t) ≡ read_digits (read_digits acc s) t
unfolding read_digits
read_digits-append acc [] t h = refl
read_digits-append acc (c ∷ s) t h = rw (h.0) (read_digits-append (acc * 10 + (c - 48)) s t h.1)

pub read_digits_stop : (acc : ℕ) (t : Text) → starts_digit t ≡ false → read_digits acc t ≡ acc
unfolding read_digits starts_digit
read_digits_stop acc [] h = refl
read_digits_stop acc (c ∷ t) h = ground arith

digit-is_digit : (r : ℕ) → r < 10 → is_digit (48 + r) ≡ true
digit-is_digit r h = ground arith

digits_fuel-IsDigits : (f n : ℕ) → IsDigits (digits_fuel f n)
unfolding digits_fuel
digits_fuel-IsDigits zero n = tt
digits_fuel-IsDigits (suc f) n = elim (Bool-cases (ltb n 10)) [
  | inl small ↦ rw small (digit-is_digit n (ltb→lt n 10 small), tt)
  | inr large ↦ rw large (
      All-append _ (digits_fuel f (n / 10)) _ (digits_fuel-IsDigits f (n / 10))
        (digit-is_digit (n % 10) (omega arith), tt))
]

read-digits_fuel : (f n : ℕ) → n < f → read_digits 0 (digits_fuel f n) ≡ n
unfolding digits_fuel read_digits
read-digits_fuel zero n h = absurd (omega arith)
read-digits_fuel (suc f) n h = elim (Bool-cases (ltb n 10)) [
  | inl small ↦ rw (small, digit-is_digit n (ltb→lt n 10 small)) (omega arith)
  | inr large ↦
      rw
        (
          large,
          read_digits-append 0 (digits_fuel f (n / 10)) _ (digits_fuel-IsDigits f (n / 10)),
          read-digits_fuel f (n / 10) (ground arith),
          digit-is_digit (n % 10) (omega arith),
        )
        (omega arith)
]

starts_digit-digits_fuel : (f n : ℕ) (t : Text) → starts_digit (digits_fuel (suc f) n ++ t) ≡ true
unfolding digits_fuel starts_digit
starts_digit-digits_fuel zero n t = elim (Bool-cases (ltb n 10)) [
  | inl small ↦ rw small (digit-is_digit n (ltb→lt n 10 small))
  | inr large ↦ rw large (digit-is_digit (n % 10) (omega arith))
]
starts_digit-digits_fuel (suc f) n t = elim (Bool-cases (ltb n 10)) [
  | inl small ↦ rw small (digit-is_digit n (ltb→lt n 10 small))
  | inr large ↦
      rw (large, append_assoc (digits_fuel (suc f) (n / 10)))
        (starts_digit-digits_fuel f (n / 10) ((48 + n % 10) ∷ t))
]

pub digits-IsDigits : (n : ℕ) → IsDigits (digits n)
unfolding digits
digits-IsDigits n = digits_fuel-IsDigits (suc n) n

pub starts_digit-digits : (n : ℕ) (t : Text) → starts_digit (digits n ++ t) ≡ true
unfolding digits
starts_digit-digits n t = starts_digit-digits_fuel n n t

pub read_digits-digits :
    (n : ℕ) (t : Text) → starts_digit t ≡ false → read_digits 0 (digits n ++ t) ≡ n
unfolding digits
read_digits-digits n t h =
    rw
      (
        read_digits-append 0 (digits_fuel (suc n) n) t (digits_fuel-IsDigits (suc n) n),
        read-digits_fuel (suc n) n (omega arith),
      )
      (read_digits_stop n t h)

pub is_int64_of : (v : ℤ) → IsInt64 v → is_int64 v ≡ true
is_int64_of (pos n) h = lt→ltb _ _ h
is_int64_of (negsuc n) h = lt→ltb _ _ h

stoll-unsigned : (s : Text) → starts_digit s ≡ true → stoll s ≡ unsigned_part s
unfolding stoll starts_digit
stoll-unsigned [] h = cc
stoll-unsigned (c ∷ s) h = ground arith

-- What `to_string` writes, `stoll` reads back, with anything after it but a digit.
pub stoll-to_string :
    (v : ℤ) (t : Text) → IsInt64 v → starts_digit t ≡ false → stoll (to_string v ++ t) ≡ ok v
unfolding to_string stoll in_range negated unsigned_part negative_part
stoll-to_string (pos n) t h k = rw (
  stoll-unsigned (digits n ++ t) (starts_digit-digits n t),
  starts_digit-digits n t,
  read_digits-digits n t k,
  is_int64_of (pos n) h,
)
stoll-to_string (negsuc n) t h k =
    rw (starts_digit-digits (suc n) t, read_digits-digits (suc n) t k, is_int64_of (negsuc n) h)
