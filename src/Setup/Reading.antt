-- ===== src/Setup/Reading.antt =====
-- `trim`, and what the loader uses of the C++ library: `std::stoi`, `std::getline`, and `>>` of a word
-- and of an integer.
use kjdmud.Base.{
  ℕ, zero, suc, ℤ, pos, negsuc, ltb, Bool, true, false, ◌||◌, List, [], ◌∷◌, Option, none, some,
  ◌==◌, if◌then◌else◌,
}
use kjdmud.Core.Text.{Text, is_digit, is_space}
use kjdmud.Core.Split.{put, split_after}
use kjdmud.Core.Errors.{Result, ok, err, out_of_range, ◌>>=◌}
use kjdmud.Core.Decimal.{stoll, read_digits, starts_digit}

abbrev is_trimmed : ℕ → Bool
is_trimmed c = c == 32 || c == b'\t' || c == b'\r' || c == b'\n'

unfoldable pub trim_front : Text → Text
trim_front [] = []
trim_front (c ∷ s) = let rest = trim_front s in if is_trimmed c then rest else c ∷ s

unfoldable pub trim_back : Text → Text
trim_back [] = []
trim_back (c ∷ s) = elim (trim_back s) [
  | [] ↦ if is_trimmed c then [] else c ∷ []
  | d ∷ r ↦ c ∷ d ∷ r
]

unfoldable pub trim : Text → Text
unfolding trim_front trim_back
trim s = trim_back (trim_front s)

abbrev pub is_int : ℤ → Bool
is_int (pos n) = ltb n 2147483648
is_int (negsuc n) = ltb n 2147483648

unfoldable pub stoi : Text → Result ℤ
unfolding stoll
stoi s = stoll s >>= λ i. if is_int i then ok i else err out_of_range

unfoldable pub skip_spaces : Text → Text
skip_spaces [] = []
skip_spaces (c ∷ s) = let rest = skip_spaces s in if is_space c then rest else c ∷ s

unfoldable pub span_word : Text → Text × Text
span_word [] = ([], [])
span_word (c ∷ s) =
    let (word, rest) = span_word s in if is_space c then ([], c ∷ s) else (c ∷ word, rest)

-- `in >> word`; the word is empty at the end.
unfoldable pub next_word : Text → Text × Text
unfolding skip_spaces span_word
next_word s = span_word (skip_spaces s)

unfoldable pub skip_digits : Text → Text
skip_digits [] = []
skip_digits (c ∷ s) = let rest = skip_digits s in if is_digit c then rest else c ∷ s

abbrev in_int : ℤ → Text → Option (ℤ × Text)
in_int i s = if is_int i then some (i, s) else none

abbrev negated : ℕ → ℤ
negated zero = pos 0
negated (suc n) = negsuc n

unfoldable pub read_unsigned_int : Bool → Text → Option (ℤ × Text)
unfolding starts_digit read_digits skip_digits
read_unsigned_int minus s =
    if starts_digit s
    then in_int (if minus then negated (read_digits 0 s) else pos (read_digits 0 s)) (skip_digits s)
    else none

abbrev signed_int : Text → Option (ℤ × Text)
signed_int [] = none
signed_int (c ∷ s) =
    if c == b'-'
    then read_unsigned_int true s
    else if c == b'+'
    then read_unsigned_int false s
    else read_unsigned_int false (c ∷ s)

-- `in >> number`: `none` where the stream fails.
unfoldable pub read_int : Text → Option (ℤ × Text)
unfolding read_unsigned_int skip_spaces
read_int s = signed_int (skip_spaces s)

-- `while (in >> flag)`.
abbrev pub starts_space : Text → Bool
starts_space [] = true
starts_space (c ∷ s) = is_space c

unfoldable pub words : Text → List Text
words [] = []
words (c ∷ s) =
    let more = words s in
    if is_space c then more else if starts_space s then (c ∷ []) ∷ more else put c more

-- The lines of a text, each without its line break.
unfoldable pub lines : Text → List Text
unfolding split_after
lines s = split_after b'\n' s
