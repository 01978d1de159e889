-- ===== src/Lexer/Progress.antt =====
-- Every lexing function of the lexer reads forward, counts the line breaks that it passes, and puts
-- the line of its first byte on its token. Words, numbers and operators.
use kjdmud.Base.{
  ℕ, ◌<◌, ◌≡◌, refl, Bool, true, false, ◌&&◌, [], ◌∷◌, arith, length, ◌==◌, ◌&◌, if_chain-All,
  if_both,
}
use kjdmud.Core.Text.{Text, codes, is_digit, is_xdigit}
use kjdmud.Dialect.{LpcDialect}
use kjdmud.Lexer.Token.{Token}
use kjdmud.Lexer.Cursor.{
  Cursor, at, head_or_nul, is_empty, at_end, peek, peek_next, next_line, advance, take_while,
  Advances, Advances-refl, Advances-trans, advance-Advances, length-advance, take_while-Advances,
}
use kjdmud.Lexer.Word.{
  is_ident_start, is_ident_char, lex_ident_or_keyword, lex_fraction, lex_hex, lex_number,
  lex_lambda_param,
}
use kjdmud.Lexer.Symbol.{doubled, lex_symbol}

-- `r` is a token on the line of `c`, and what is left after reading at least a byte from `c`.
pub record Reads (c : Cursor) (r : Token × Cursor) : Type 0 where
  pub on_line : r.0.line ≡ c.line
  pub onward : Advances c r.1
  pub consumed : length r.1.rest < length c.rest

take_while_consumed :
    (p : ℕ → Bool) (s : Text) (n : ℕ)
    → is_empty s ≡ false
    → p (head_or_nul s) ≡ true
    → length (take_while p s n).1.rest < length s
unfolding take_while
take_while_consumed p [] n h k = cc
take_while_consumed p (c ∷ s) n h k = rw k (omega (arith, take_while-Advances p s (next_line c n)))

take_while_stop :
    (p : ℕ → Bool) (s : Text) (n : ℕ) → p (head_or_nul s) ≡ false → take_while p s n ≡ ([], at s n)
unfolding take_while
take_while_stop p [] n k = refl
take_while_stop p (c ∷ s) n k = rw k

-- A token of the line `n`, and what is left after reading forward from `c`.
abbrev Goes : ℕ → Cursor → Token × Cursor → Type 0
Goes n c r = (r.0.line ≡ n) × Advances c r.1

advance-take_while :
    (p : ℕ → Bool) (c : Cursor) → Advances c (take_while p (advance c).rest (advance c).line).1
advance-take_while p c =
    Advances-trans (advance-Advances c) (take_while-Advances p (advance c).rest (advance c).line)

lex_fraction-Goes : (n : ℕ) (text : Text) (c : Cursor) → Goes n c (lex_fraction n text c)
unfolding lex_fraction
lex_fraction-Goes n text c =
    if_both (Goes n c) (peek c == b'.' && is_digit (peek_next c))
      (λ _. (refl, advance-take_while is_digit c)) (λ _. (refl, Advances-refl c))

lex_hex-Goes : (n : ℕ) (text : Text) (c : Cursor) → Goes n c (lex_hex n text c)
unfolding lex_hex
lex_hex-Goes n text c = (refl, advance-take_while is_xdigit c)

module _ (c : Cursor) (more : at_end c ≡ false) where
  pub lex_ident_or_keyword-Reads :
      (d : LpcDialect) → is_ident_start (peek c) ≡ true → Reads c (lex_ident_or_keyword d c)
  unfolding lex_ident_or_keyword
  lex_ident_or_keyword-Reads d h = record {
    on_line = refl;
    onward = take_while-Advances is_ident_char c.rest c.line;
    consumed = take_while_consumed is_ident_char c.rest c.line more (ground arith);
  }

  Goes-Reads :
      (d : Cursor) (r : Token × Cursor)
      → Advances c d
      → length d.rest < length c.rest
      → Goes c.line d r
      → Reads c r
  Goes-Reads d r h k g = omega arith

  pub lex_number-Reads-digit : is_digit (peek c) ≡ true → Reads c (lex_number c)
  unfolding lex_number
  lex_number-Reads-digit h =
      let word = take_while is_digit c.rest c.line in
      let fewer = take_while_consumed is_digit c.rest c.line more h in
      let forth = take_while-Advances is_digit c.rest c.line in
      let hex =
        Goes-Reads word.1 (lex_hex c.line word.0 word.1) forth fewer
          (lex_hex-Goes c.line word.0 word.1) in
      let plain =
        Goes-Reads word.1 (lex_fraction c.line word.0 word.1) forth fewer
          (lex_fraction-Goes c.line word.0 word.1) in
      ground arith

  pub lex_number-Reads-point :
      (peek c == b'.') ≡ true → is_digit (peek_next c) ≡ true → Reads c (lex_number c)
  unfolding lex_number lex_fraction
  lex_number-Reads-point h k =
      rw (take_while_stop is_digit c.rest c.line (ground arith), h, k)
        (omega (
          arith,
          length-advance c more,
          advance-Advances c,
          take_while-Advances is_digit (advance c).rest (advance c).line,
        ))

  pub lex_lambda_param-Reads : Reads c (lex_lambda_param c)
  unfolding lex_lambda_param
  lex_lambda_param-Reads =
      if_both (Reads c) (is_digit (peek (advance c)))
        (λ _. omega (
          arith,
          length-advance c more,
          advance-Advances c,
          take_while-Advances is_digit (advance c).rest (advance c).line,
        ))
        (λ _. omega (arith, length-advance c more, advance-Advances c))

  two-Reads : (t : Token) → t.line ≡ c.line → Reads c (t, advance (advance c))
  two-Reads t e =
      omega (arith, length-advance c more, advance-Advances c, advance-Advances (advance c))

  doubled-Reads :
      (third : ℕ) (long short : Text)
      → Reads c (doubled c.line (advance (advance c)) third long short)
  doubled-Reads third long short =
      if_both (Reads c) (peek (advance (advance c)) == third)
        (λ _. omega (
          arith,
          length-advance c more,
          advance-Advances c,
          advance-Advances (advance c),
          advance-Advances (advance (advance c)),
        ))
        (λ _. two-Reads _ refl)

  one-Reads : (t : Token) → t.line ≡ c.line → Reads c (t, advance c)
  one-Reads t e = omega (arith, length-advance c more, advance-Advances c)

  three-Reads : (t : Token) → t.line ≡ c.line → Reads c (t, advance (advance (advance c)))
  three-Reads t e = omega (
    arith,
    length-advance c more,
    advance-Advances c,
    advance-Advances (advance c),
    advance-Advances (advance (advance c)),
  )

  pub lex_symbol-Reads : Reads c (lex_symbol c)
  unfolding lex_symbol
  lex_symbol-Reads =
      if_chain-All (Reads c) _ _
        ((λ _. two-Reads _ refl)
          & (λ _. two-Reads _ refl)
          & (λ _. two-Reads _ refl)
          & (λ _. two-Reads _ refl)
          & (λ _. two-Reads _ refl)
          & (λ _. two-Reads _ refl)
          & (λ _. two-Reads _ refl)
          & (λ _. two-Reads _ refl)
          & (λ _. doubled-Reads b'=' (codes "<<=") (codes "<<"))
          & (λ _. doubled-Reads b'=' (codes ">>=") (codes ">>"))
          & (λ _. two-Reads _ refl)
          & (λ _. two-Reads _ refl)
          & (λ _. two-Reads _ refl)
          & (λ _. two-Reads _ refl)
          & (λ _. doubled-Reads b'.' (codes "...") (codes ".."))
          & tt)
        (one-Reads _ refl)
