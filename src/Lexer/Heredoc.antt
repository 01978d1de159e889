-- ===== src/Lexer/Heredoc.antt =====
-- `Lexer::lexHeredoc`: text up to a line that starts with the terminator.
use kjdmud.Base.{
  ℕ, zero, suc, Bool, true, false, not, ◌&&◌, [], ◌∷◌, ◌++◌, length, ◌==◌, if◌then◌else◌,
}
use kjdmud.Core.Text.{Text, codes}
use kjdmud.Core.Errors.{Result, ok, err, runtime, not_implemented, ◌>>=◌}
use kjdmud.Lexer.Token.{Token, token, string}
use kjdmud.Lexer.Cursor.{Cursor, at, is_empty, at_end, peek, next_line, advance, take_while}
use kjdmud.Lexer.Literal.{at_line, prepend}

-- `src_.compare(pos_, w.size(), w) == 0` with `w` inside the source.
unfoldable pub starts_with : Text → Text → Bool
starts_with [] s = true
starts_with (a ∷ w) [] = false
starts_with (a ∷ w) (c ∷ s) = if a == c then starts_with w s else false

unfoldable pub advance_by : ℕ → Cursor → Cursor
unfolding advance
advance_by zero c = c
advance_by (suc k) c = advance_by k (advance c)

unfoldable pub unterminated : Text → ℕ → Text
unterminated terminator start =
    at_line
      (codes "unterminated heredoc: missing closing \"" ++ (terminator ++ codes "\" at line "))
      start

-- The `for (;;)`; `first` is `atLineStart`.
unfoldable pub heredoc_body : Text → ℕ → Bool → Text → ℕ → Result (Text × Cursor)
unfolding starts_with advance_by unterminated
heredoc_body w start first [] n =
    if first && starts_with w []
    then ok ([], advance_by (length w) (at [] n))
    else err (runtime (unterminated w start))
heredoc_body w start first (c ∷ s) n =
    let more = heredoc_body w start (c == b'\n') s (next_line c n) in
    if first && starts_with w (c ∷ s)
    then ok ([], advance_by (length w) (at (c ∷ s) n))
    else prepend c more

unfoldable pub lex_heredoc : Cursor → Result (Token × Cursor)
unfolding heredoc_body take_while advance
lex_heredoc c =
    let opened = advance c in
    let (terminator, after) = take_while (λ b. not (b == b'\n')) opened.rest opened.line in
    let body = advance after in
    if peek opened == b'@'
    then err (not_implemented (codes "\"@@\" array-block heredoc syntax"))
    else if is_empty terminator
    then err (runtime (at_line (codes "heredoc: missing terminator at line ") c.line))
    else if at_end after
    then err (runtime (unterminated terminator c.line))
    else heredoc_body terminator c.line true body.rest body.line >>= λ r.
        ok (token string r.0 c.line, r.1)
