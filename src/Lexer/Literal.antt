-- ===== src/Lexer/Literal.antt =====
-- `Lexer::lexString`, `Lexer::lexChar`, `Lexer::lexQuote` and `Lexer::lexHashQuote`.
use kjdmud.Base.{ℕ, Bool, true, false, not, ◌&&◌, ◌||◌, [], ◌∷◌, ◌++◌, ◌==◌, if◌then◌else◌}
use kjdmud.Core.Text.{Text, codes}
use kjdmud.Core.Errors.{Result, ok, err, runtime, ◌>>=◌}
use kjdmud.Core.Decimal.{digits}
use kjdmud.Lexer.Token.{Token, token, number, string, symbol, quoted_symbol}
use kjdmud.Lexer.Cursor.{Cursor, at, at_end, peek, next_line, advance, take_while}
use kjdmud.Lexer.Word.{is_ident_start, is_ident_char}

-- `... at line N`, the end of each of the lexer's messages.
abbrev pub at_line : Text → ℕ → Text
at_line message n = message ++ digits n

-- The byte that `\e` stands for in a string.
unfoldable pub unescape : ℕ → ℕ
unescape e = if e == b'n' then b'\n' else if e == b't' then b'\t' else e

-- A byte put in front of what a loop reads after it.
abbrev pub prepend : ℕ → Result (Text × Cursor) → Result (Text × Cursor)
prepend c more = more >>= λ r. ok (c ∷ r.0, r.1)

-- The loop of `lexString` behind the opening quote, and the closing quote; `start` is the line of
-- the opening one.
unfoldable pub string_body : ℕ → Text → ℕ → Result (Text × Cursor)
unfolding unescape
string_body start [] n =
    err (runtime (at_line (codes "unterminated string literal at line ") start))
string_body start (c ∷ []) n =
    if c == b'"'
    then ok ([], at [] n)
    else err (runtime (at_line (codes "unterminated string literal at line ") start))
string_body start (c ∷ e ∷ s) n =
    let escaped = string_body start s (next_line e (next_line c n)) in
    let plain = string_body start (e ∷ s) (next_line c n) in
    if c == b'"'
    then ok ([], at (e ∷ s) n)
    else if c == b'\\'
    then prepend (unescape e) escaped
    else prepend c plain

unfoldable pub lex_string : Cursor → Result (Token × Cursor)
unfolding string_body advance
lex_string c =
    let body = advance c in
    string_body c.line body.rest body.line >>= λ r. ok (token string r.0 c.line, r.1)

-- The byte that `\e` stands for in a character constant.
unfoldable pub unescape_char : ℕ → ℕ
unescape_char e = if e == b'n' then b'\n' else if e == b't' then b'\t' else e

-- The closing quote of a character constant.
unfoldable pub close_char : ℕ → ℕ → Cursor → Result (Token × Cursor)
unfolding advance
close_char start value c =
    if at_end c || not (peek c == b'\'')
    then err (
        runtime
          (at_line (codes "character literal must contain exactly one character, at line ") start))
    else ok (token number (digits value) start, advance c)

unfoldable pub lex_char : Cursor → Result (Token × Cursor)
unfolding close_char unescape_char advance
lex_char c =
    let first = advance c in
    let second = advance first in
    if at_end first
    then err (runtime (at_line (codes "unterminated character literal at line ") c.line))
    else if peek first == b'\\' && not (at_end second)
    then close_char c.line (unescape_char (peek second)) (advance second)
    else close_char c.line (peek first) second

abbrev pub is_single : Text → Bool
is_single [] = false
is_single (c ∷ []) = true
is_single (c ∷ d ∷ s) = false

unfoldable pub lex_quote : Cursor → Result (Token × Cursor)
unfolding lex_char take_while advance
lex_quote c =
    let name = advance c in
    let (text, after) = take_while is_ident_char name.rest name.line in
    if is_ident_start (peek name) && not (is_single text && peek after == b'\'')
    then ok (token quoted_symbol text c.line, after)
    else lex_char c

unfoldable pub lex_hash_quote : Cursor → Token × Cursor
unfolding advance
lex_hash_quote c = (token symbol (codes "#'") c.line, advance (advance c))
