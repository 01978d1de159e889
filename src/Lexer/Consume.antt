-- ===== src/Lexer/Consume.antt =====
-- The same for what may throw: strings, character constants, quotes and heredocs; and the dispatch.
use kjdmud.Base.{
  ℕ, zero, suc, ◌<◌, ◌≡◌, Bool, true, false, not, ◌&&◌, ◌||◌, [], ◌∷◌, arith, length, ◌==◌, if_both,
  &&-elim,
}
use kjdmud.Core.Text.{Text, is_digit}
use kjdmud.Core.Errors.{Result, Ensures, holds, thrown, Ensures-bind}
use kjdmud.Dialect.{LpcDialect}
use kjdmud.Lexer.Token.{Token}
use kjdmud.Lexer.Cursor.{
  Cursor, at, at_end, is_empty, peek, peek_next, next_line, advance, take_while, Advances,
  Advances-refl, Advances-trans, advance-Advances, length-advance, take_while-Advances,
}
use kjdmud.Lexer.Word.{is_ident_start, is_ident_char}
use kjdmud.Lexer.Literal.{
  prepend, string_body, lex_string, close_char, lex_char, is_single, lex_quote, lex_hash_quote,
}
use kjdmud.Lexer.Heredoc.{starts_with, advance_by, heredoc_body, lex_heredoc}
use kjdmud.Lexer.Tokenize.{is_ld_mud, is_punctuation, lex_token}
use kjdmud.Lexer.Progress.{
  Reads, lex_ident_or_keyword-Reads, lex_number-Reads-digit, lex_number-Reads-point,
  lex_lambda_param-Reads, lex_symbol-Reads,
}

-- What a loop returns lies ahead of `c`.
abbrev Ahead : Cursor → Text × Cursor → Type 0
Ahead c r = Advances c r.1

step-Advances : (c : ℕ) (s : Text) (n : ℕ) → Advances (at (c ∷ s) n) (at s (next_line c n))
step-Advances c s n = ground arith

prepend-Ahead :
    {a b : Cursor} (c : ℕ) {m : Result (Text × Cursor)}
    → Advances a b
    → Ensures (Ahead b) m
    → Ensures (Ahead a) (prepend c m)
prepend-Ahead c h e = Ensures-bind e λ r _ k. holds (Advances-trans h k)

string_body-Ahead :
    (start : ℕ) (s : Text) (n : ℕ) → Ensures (Ahead (at s n)) (string_body start s n)
unfolding string_body
string_body-Ahead start [] n = thrown (λ e. cc)
string_body-Ahead start (c ∷ []) n =
    if_both (Ensures (Ahead (at (c ∷ []) n))) (c == b'"') (λ e. holds (ground arith))
      (λ _. thrown (λ e. cc))
string_body-Ahead start (c ∷ e ∷ s) n =
    let line = next_line e (next_line c n) in
    let one = step-Advances c (e ∷ s) n in
    let both = Advances-trans one (step-Advances e s (next_line c n)) in
    let escaped = string_body-Ahead start s line in
    let plain = string_body-Ahead start (e ∷ s) (next_line c n) in
    if_both (Ensures (Ahead (at (c ∷ e ∷ s) n))) (c == b'"') (λ q. holds (ground arith))
      λ _.
        if_both (Ensures (Ahead (at (c ∷ e ∷ s) n))) (c == b'\\')
          (λ _. prepend-Ahead _ both escaped) (λ _. prepend-Ahead c one plain)

advance_by-Advances : (k : ℕ) (c : Cursor) → Advances c (advance_by k c)
unfolding advance_by
advance_by-Advances zero c = Advances-refl c
advance_by-Advances (suc k) c =
    Advances-trans (advance-Advances c) (advance_by-Advances k (advance c))

heredoc_body-Ahead :
    (w : Text) (start : ℕ) (first : Bool) (s : Text) (n : ℕ)
    → Ensures (Ahead (at s n)) (heredoc_body w start first s n)
unfolding heredoc_body
heredoc_body-Ahead w start first [] n =
    if_both (Ensures (Ahead (at [] n))) (first && starts_with w [])
      (λ _. holds (advance_by-Advances (length w) (at [] n))) (λ _. thrown (λ e. cc))
heredoc_body-Ahead w start first (c ∷ s) n =
    if_both (Ensures (Ahead (at (c ∷ s) n))) (first && starts_with w (c ∷ s))
      (λ _. holds (advance_by-Advances (length w) (at (c ∷ s) n)))
      (λ _.
        prepend-Ahead c (step-Advances c s n)
          (heredoc_body-Ahead w start (c == b'\n') s (next_line c n)))

module _ (c : Cursor) (more : at_end c ≡ false) where
  lex_string-Reads : Ensures (Reads c) (lex_string c)
  unfolding lex_string
  lex_string-Reads =
      Ensures-bind (string_body-Ahead c.line (advance c).rest (advance c).line)
        λ r _ h. holds (omega (arith, length-advance c more, advance-Advances c))

  close_char-Reads :
      (value : ℕ) (d : Cursor)
      → Advances c d
      → length d.rest < length c.rest
      → Ensures (Reads c) (close_char c.line value d)
  unfolding close_char
  close_char-Reads value d h k =
      if_both (Ensures (Reads c)) (at_end d || not (peek d == b'\'')) (λ _. thrown (λ e. cc))
        (λ _. holds (omega (arith, advance-Advances d)))

  lex_char-Reads : Ensures (Reads c) (lex_char c)
  unfolding lex_char
  lex_char-Reads =
      let one = advance-Advances c in
      let two = Advances-trans one (advance-Advances (advance c)) in
      let three = Advances-trans two (advance-Advances (advance (advance c))) in
      let fewer = length-advance c more in
      if_both (Ensures (Reads c)) (at_end (advance c)) (λ _. thrown (λ e. cc))
        λ _.
          if_both (Ensures (Reads c))
            (peek (advance c) == b'\\' && not (at_end (advance (advance c))))
            (λ _. close_char-Reads _ (advance (advance (advance c))) three (
              omega (
                arith,
                fewer,
                advance-Advances (advance c),
                advance-Advances (advance (advance c)),
              )))
            (λ _.
              close_char-Reads _ (advance (advance c)) two
                (omega (arith, fewer, advance-Advances (advance c))))

  lex_quote-Reads : Ensures (Reads c) (lex_quote c)
  unfolding lex_quote
  lex_quote-Reads =
      let name = advance c in
      let word = take_while is_ident_char name.rest name.line in
      if_both (Ensures (Reads c))
        (is_ident_start (peek name) && not (is_single word.0 && peek word.1 == b'\''))
        (λ _. holds (
          omega (
            arith,
            length-advance c more,
            advance-Advances c,
            take_while-Advances is_ident_char name.rest name.line,
          )))
        (λ _. lex_char-Reads)

  lex_hash_quote-Reads : Reads c (lex_hash_quote c)
  unfolding lex_hash_quote
  lex_hash_quote-Reads =
      omega (arith, length-advance c more, advance-Advances c, advance-Advances (advance c))

  lex_heredoc-Reads : Ensures (Reads c) (lex_heredoc c)
  unfolding lex_heredoc
  lex_heredoc-Reads =
      let opened = advance c in
      let word = take_while (λ b. not (b == b'\n')) opened.rest opened.line in
      let body = advance word.1 in
      if_both (Ensures (Reads c)) (peek opened == b'@') (λ _. thrown (λ e. cc))
        λ _.
          if_both (Ensures (Reads c)) (is_empty word.0) (λ _. thrown (λ e. cc))
            λ _.
              if_both (Ensures (Reads c)) (at_end word.1) (λ _. thrown (λ e. cc))
                λ _.
                  Ensures-bind (heredoc_body-Ahead word.0 c.line true body.rest body.line) λ r _ h.
                    holds (
                      omega (
                        arith,
                        length-advance c more,
                        advance-Advances c,
                        take_while-Advances (λ b. not (b == b'\n')) opened.rest opened.line,
                        advance-Advances word.1,
                      ))

  -- A token starts on the line of the byte under the cursor, and takes at least that byte.
  pub lex_token-Reads : (d : LpcDialect) → Ensures (Reads c) (lex_token d c)
  unfolding lex_token
  lex_token-Reads d =
      let P : Result (Token × Cursor) → Type 0 = Ensures (Reads c) in
      let b = peek c in
      if_both P (is_ident_start b) (λ h. holds (lex_ident_or_keyword-Reads c more d h))
        λ _.
          if_both P (is_digit b) (λ h. holds (lex_number-Reads-digit c more h))
            λ _.
              if_both P (b == b'.' && is_digit (peek_next c))
                (λ h.
                  let (point, digit) = &&-elim (b == b'.') (is_digit (peek_next c)) h in
                  holds (lex_number-Reads-point c more point digit))
                λ _.
                  if_both P (b == b'"') (λ _. lex_string-Reads)
                    λ _.
                      if_both P (b == b'\'')
                        (λ _. if_both P (is_ld_mud d) (λ _. lex_quote-Reads) (λ _. lex_char-Reads))
                        λ _.
                          if_both P (b == b'#' && is_ld_mud d && peek_next c == b'\'')
                            (λ _. holds lex_hash_quote-Reads)
                            λ _.
                              if_both P (b == b'@') (λ _. lex_heredoc-Reads)
                                λ _.
                                  if_both P (b == b'$') (λ _. holds (lex_lambda_param-Reads c more))
                                    λ _.
                                      if_both P (is_punctuation b)
                                        (λ _. holds (lex_symbol-Reads c more))
                                        (λ _. thrown (λ e. cc))
