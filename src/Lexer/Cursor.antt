-- ===== src/Lexer/Cursor.antt =====
-- The reading position of `Lexer`: `pos_` is the part of the source that is left, `line_` is kept.
use kjdmud.Base.{
  ℕ, ◌+◌, ◌≤◌, ◌<◌, ◌≡◌, refl, Bool, true, false, [], ◌∷◌, ◌++◌, arith, length, ◌==◌, if◌then◌else◌,
  Bool-cases, inl, inr, All,
}
use kjdmud.Core.Text.{Text}

pub record Cursor : Type 0 where
  pub rest : Text
  pub line : ℕ

abbrev pub at : Text → ℕ → Cursor
at s n = record { rest = s; line = n }

-- `peek()`: the byte under the cursor, 0 past the end.
abbrev pub head_or_nul : Text → ℕ
head_or_nul [] = 0
head_or_nul (c ∷ s) = c

abbrev pub rest_of : Text → Text
rest_of [] = []
rest_of (c ∷ s) = s

abbrev pub is_empty : Text → Bool
is_empty [] = true
is_empty (c ∷ s) = false

abbrev pub at_end : Cursor → Bool
at_end c = is_empty c.rest

abbrev pub peek : Cursor → ℕ
peek c = head_or_nul c.rest

abbrev pub peek_next : Cursor → ℕ
peek_next c = head_or_nul (rest_of c.rest)

-- The line after the byte `c`.
abbrev pub next_line : ℕ → ℕ → ℕ
next_line c n = if c == 10 then n + 1 else n

-- `advance()`, without the byte that it returns.
unfoldable pub advance : Cursor → Cursor
advance c = at (rest_of c.rest) (next_line (peek c) c.line)

-- `while (!atEnd() && p(peek())) text += advance();`
unfoldable pub take_while : (ℕ → Bool) → Text → ℕ → Text × Cursor
take_while p [] n = ([], at [] n)
take_while p (c ∷ s) n =
    let more = take_while p s (next_line c n) in
    if p c then (c ∷ more.0, more.1) else ([], at (c ∷ s) n)

-- The line breaks of a text.
abbrev pub breaks : Text → ℕ
breaks [] = 0
breaks (c ∷ s) = next_line c (breaks s)

-- From `c` to `d` the lexer read forward and counted every line break that it passed.
pub record Advances (c d : Cursor) : Type 0 where
  pub shorter : length d.rest ≤ length c.rest
  pub counted : d.line + breaks d.rest ≡ c.line + breaks c.rest
  pub later : c.line ≤ d.line

pub Advances-refl : (c : Cursor) → Advances c c
Advances-refl c = omega arith

pub Advances-trans : {b c d : Cursor} → Advances b c → Advances c d → Advances b d
Advances-trans h k = omega arith

step-Advances :
    (s : Text) (n : ℕ) → Advances (at s n) (at (rest_of s) (next_line (head_or_nul s) n))
step-Advances [] n = omega arith
step-Advances (c ∷ s) n = ground arith

pub advance-Advances : (c : Cursor) → Advances c (advance c)
unfolding advance
advance-Advances c = step-Advances c.rest c.line

pub length-advance : (c : Cursor) → at_end c ≡ false → length (advance c).rest < length c.rest
unfolding advance
length-advance c h = go c.rest h
  where
    go : (s : Text) → is_empty s ≡ false → length (rest_of s) < length s
    go [] e = cc
    go (x ∷ s) e = omega arith

pub take_while-Advances : (p : ℕ → Bool) (s : Text) (n : ℕ) → Advances (at s n) (take_while p s n).1
unfolding take_while
take_while-Advances p [] n = Advances-refl (at [] n)
take_while-Advances p (c ∷ s) n = elim (Bool-cases (p c)) [
  | inl e ↦
      rw e (Advances-trans (step-Advances (c ∷ s) n) (take_while-Advances p s (next_line c n)))
  | inr e ↦ rw e (Advances-refl (at (c ∷ s) n))
]

-- The run is read off the front, every byte of it passes the test, and the byte after it fails.
pub take_while-append :
    (p : ℕ → Bool) (s : Text) (n : ℕ) → (take_while p s n).0 ++ (take_while p s n).1.rest ≡ s
unfolding take_while
take_while-append p [] n = refl
take_while-append p (c ∷ s) n = elim (Bool-cases (p c)) [
  | inl e ↦ rw (e, take_while-append p s (next_line c n))
  | inr e ↦ rw e
]

-- A run of bytes other than a line break that pass the test, ended by one that fails.
pub take_while_run :
    (p : ℕ → Bool) (s t : Text) (n : ℕ)
    → All (λ c. (p c ≡ true) × ((c == 10) ≡ false)) s
    → p (head_or_nul t) ≡ false
    → take_while p (s ++ t) n ≡ (s, at t n)
unfolding take_while
take_while_run p [] [] n h k = refl
take_while_run p [] (c ∷ t) n h k = rw k
take_while_run p (c ∷ s) t n h k = rw (h.0.0, h.0.1, take_while_run p s t n h.1 k)
