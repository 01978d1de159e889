-- ===== src/Lexer/Total.antt =====
-- The fuel of the lexer's two loops is enough, what `skip` stops at, and the lines of the tokens.
use kjdmud.Base.{
  ℕ, zero, suc, ◌+◌, ◌<◌, ◌≤◌, ◌≡◌, refl, ◌⊎◌, true, false, ◌&&◌, List, [], ◌∷◌, arith, length,
  ◌==◌, inl, inr, ap, if_both, &&-elim,
}
use kjdmud.Core.Text.{Text}
use kjdmud.Core.Errors.{Result, Returns, Ensures, holds, Ensures-bind}
use kjdmud.Dialect.{LpcDialect}
use kjdmud.Lexer.Token.{Token, token, end}
use kjdmud.Lexer.Cursor.{
  Cursor, at, at_end, is_empty, head_or_nul, peek, peek_next, next_line, advance, breaks, Advances,
  Advances-refl, Advances-trans, advance-Advances, length-advance,
}
use kjdmud.Lexer.Blank.{
  is_blank, skip_to_break, skip_to_close, skip_block, starts_line_comment, starts_block_comment,
  skip_fuel, skip,
}
use kjdmud.Lexer.Tokenize.{tokenize_fuel, tokenize}
use kjdmud.Lexer.Consume.{lex_token-Reads}

step-Advances : (c : ℕ) (s : Text) (n : ℕ) → Advances (at (c ∷ s) n) (at s (next_line c n))
step-Advances c s n = ground arith

skip_to_break-Advances : (s : Text) (n : ℕ) → Advances (at s n) (skip_to_break s n)
unfolding skip_to_break
skip_to_break-Advances [] n = Advances-refl (at [] n)
skip_to_break-Advances (c ∷ s) n =
    if_both (Advances (at (c ∷ s) n)) (c == b'\n') (λ _. Advances-refl (at (c ∷ s) n))
      (λ _. Advances-trans (step-Advances c s n) (skip_to_break-Advances s (next_line c n)))

skip_to_close-Advances : (s : Text) (n : ℕ) → Advances (at s n) (skip_to_close s n)
unfolding skip_to_close
skip_to_close-Advances [] n = Advances-refl (at [] n)
skip_to_close-Advances (c ∷ s) n =
    if_both (Advances (at (c ∷ s) n)) (c == b'*' && head_or_nul s == b'/')
      (λ _. Advances-refl (at (c ∷ s) n))
      (λ _. Advances-trans (step-Advances c s n) (skip_to_close-Advances s (next_line c n)))

-- A line comment is not empty: its first slash is passed.
skip_to_break-consumed :
    (s : Text) (n : ℕ) → (head_or_nul s == b'/') ≡ true → length (skip_to_break s n).rest < length s
unfolding skip_to_break
skip_to_break-consumed [] n h = absurd (cc)
skip_to_break-consumed (c ∷ s) n h = ground (arith, skip_to_break-Advances s (next_line c n))

module _ (c : Cursor) (more : at_end c ≡ false) where
  skip_block-consumed : Advances c (skip_block c) × (length (skip_block c).rest < length c.rest)
  unfolding skip_block
  skip_block-consumed =
      let body = advance (advance c) in
      let close = skip_to_close body.rest body.line in
      if_both (λ d. Advances c d × (length d.rest < length c.rest)) (at_end close)
        (λ _. omega (
          arith,
          length-advance c more,
          advance-Advances c,
          advance-Advances (advance c),
          skip_to_close-Advances body.rest body.line,
        ))
        (λ _. omega (
          arith,
          length-advance c more,
          advance-Advances c,
          advance-Advances (advance c),
          skip_to_close-Advances body.rest body.line,
          advance-Advances close,
          advance-Advances (advance close),
        ))

-- Where `skip` may stop: at the end, or at a byte that is no blank and opens no comment.
abbrev pub IsToken : Cursor → Type 0
IsToken c =
    (at_end c ≡ true)
    ⊎ ((is_blank (peek c) ≡ false)
        × (starts_line_comment c ≡ false)
        × (starts_block_comment c ≡ false))

abbrev Skips : Cursor → Cursor → Type 0
Skips c d = Advances c d × IsToken d

Skips-after :
    {b c : Cursor} (r : Result Cursor) → Advances b c → Returns (Skips c) r → Returns (Skips b) r
Skips-after r h (d, e, (k, t)) = (d, e, (Advances-trans h k, t))

skip_fuel-Skips : (f : ℕ) (c : Cursor) → length c.rest < f → Returns (Skips c) (skip_fuel f c)
unfolding skip_fuel
skip_fuel-Skips zero c h = absurd (omega arith)
skip_fuel-Skips (suc f) c h =
    let P : Result Cursor → Type 0 = Returns (Skips c) in
    if_both P (at_end c) (λ e. (c, refl, (Advances-refl c, inl e)))
      λ more.
        if_both P (is_blank (peek c))
          (λ _.
            Skips-after (skip_fuel f (advance c)) (advance-Advances c)
              (skip_fuel-Skips f (advance c) (omega (arith, length-advance c more))))
          λ solid.
            if_both P (starts_line_comment c)
              (λ e.
                let d = skip_to_break c.rest c.line in
                let slash = &&-elim (peek c == b'/') (peek_next c == b'/') e in
                Skips-after (skip_fuel f d) (skip_to_break-Advances c.rest c.line) (
                  skip_fuel-Skips f d
                    (omega (arith, skip_to_break-consumed c.rest c.line slash.0))))
              λ no_line.
                if_both P (starts_block_comment c)
                  (λ _.
                    let d = skip_block c in
                    let passed = skip_block-consumed c more in
                    Skips-after (skip_fuel f d) passed.0
                      (skip_fuel-Skips f d (omega (arith, passed.1))))
                  λ no_block. (c, refl, (Advances-refl c, inr (solid, no_line, no_block)))

-- Skipping always returns: it reads forward, counts the line breaks that it passes, and stops at the
-- end or at a byte that is no blank and opens no comment.
skip-Returns : (c : Cursor) → Returns (λ d. Advances c d × IsToken d) (skip c)
unfolding skip
skip-Returns c = skip_fuel-Skips (suc (length c.rest)) c (omega arith)

-- The list ends in an end token on the line `last`, and the lines of its tokens rise from `first`.
abbrev pub Ends : ℕ → ℕ → List Token → Type 0
Ends first last [] = ⊥
Ends first last (t ∷ []) = (t ≡ record { type = end; text = []; line = last }) × (first ≤ last)
Ends first last (t ∷ u ∷ ts) = (first ≤ t.line) × Ends t.line last (u ∷ ts)

Ends-cons :
    (first m last : ℕ) (t : Token) (ts : List Token)
    → first ≤ t.line
    → t.line ≤ m
    → Ends m last ts
    → Ends first last (t ∷ ts)
Ends-cons first m last t [] h k e = absurd e
Ends-cons first m last t (u ∷ []) h k e = (h, (e.0, omega (arith, e.1)))
Ends-cons first m last t (u ∷ v ∷ ts) h k e = (h, (omega (arith, e.0), e.1))

at_end-breaks : (c : Cursor) → at_end c ≡ true → breaks c.rest ≡ 0
at_end-breaks c h = go c.rest h
  where
    go : (s : Text) → is_empty s ≡ true → breaks s ≡ 0
    go [] e = refl
    go (x ∷ s) e = cc

tokenize_fuel-Ends :
    (d : LpcDialect) (f : ℕ) (c : Cursor) (last : ℕ)
    → length c.rest < f
    → c.line + breaks c.rest ≡ last
    → Ensures (Ends c.line last) (tokenize_fuel d f c)
unfolding tokenize_fuel
tokenize_fuel-Ends d zero c last h k = absurd (omega arith)
tokenize_fuel-Ends d (suc f) c last h k =
    let (s, e, (skipped, _)) = skip-Returns c in
    rw e (
      if_both (Ensures (Ends c.line last)) (at_end s)
        (λ done.
          let here : s.line ≡ last = omega (arith, skipped, at_end-breaks s done) in
          holds (ap (λ n. token end [] n) here, omega (arith, skipped)))
        λ more. Ensures-bind (lex_token-Reads s more d) λ r _ reads.
          Ensures-bind
            (tokenize_fuel-Ends d f r.1 last (omega (arith, skipped, reads))
              (omega (arith, skipped, reads)))
            λ ts _ rest. holds (
              Ends-cons c.line r.1.line last r.0 ts (omega (arith, skipped, reads))
                (omega (arith, reads)) rest))

-- On every source and in every dialect the loops of the lexer end, whatever is thrown on the way; a
-- list of tokens that is returned ends in an end token, the lines of its tokens rise from 1, and the
-- end token's line is one more than the number of line breaks in the source.
pub tokenize-Ends : (d : LpcDialect) (s : Text) → Ensures (Ends 1 (1 + breaks s)) (tokenize d s)
unfolding tokenize
tokenize-Ends d s = tokenize_fuel-Ends d (suc (length s)) (at s 1) (1 + breaks s) (omega arith) refl
