-- ===== src/Lexer/Word.antt =====
-- `Lexer::lexIdentOrKeyword`, `Lexer::lexNumber` and `Lexer::lexLambdaParam`.
use kjdmud.Base.{ℕ, Bool, true, false, ◌&&◌, ◌||◌, List, [], ◌∷◌, ◌++◌, any, ◌==◌, if◌then◌else◌}
use kjdmud.Core.Text.{Text, codes, text_eq, is_alpha, is_alnum, is_digit, is_xdigit}
use kjdmud.Dialect.{LpcDialect, fluff_os, ld_mud, dgd}
use kjdmud.Lexer.Token.{Token, token, ident, number, symbol, keyword}
use kjdmud.Lexer.Cursor.{Cursor, peek, peek_next, advance, take_while}

abbrev pub keywords : List Text
keywords =
    codes "void"
    ∷ codes "int"
    ∷ codes "string"
    ∷ codes "object"
    ∷ codes "float"
    ∷ codes "mapping"
    ∷ codes "status"
    ∷ codes "mixed"
    ∷ codes "function"
    ∷ codes "return"
    ∷ codes "if"
    ∷ codes "else"
    ∷ codes "while"
    ∷ codes "for"
    ∷ codes "do"
    ∷ codes "static"
    ∷ codes "private"
    ∷ codes "public"
    ∷ codes "protected"
    ∷ codes "nomask"
    ∷ codes "varargs"
    ∷ codes "inherit"
    ∷ codes "break"
    ∷ codes "continue"
    ∷ codes "foreach"
    ∷ codes "in"
    ∷ codes "switch"
    ∷ codes "case"
    ∷ codes "default"
    ∷ []

abbrev pub dgd_only_keywords : List Text
dgd_only_keywords = codes "atomic" ∷ codes "nil" ∷ []

unfoldable pub contains : List Text → Text → Bool
contains ws w = any (λ k. text_eq k w) ws

abbrev pub is_dgd : LpcDialect → Bool
is_dgd dgd = true
is_dgd fluff_os = false
is_dgd ld_mud = false

abbrev pub is_ident_start : ℕ → Bool
is_ident_start c = is_alpha c || c == b'_'

abbrev pub is_ident_char : ℕ → Bool
is_ident_char c = is_alnum c || c == b'_'

unfoldable pub is_keyword : LpcDialect → Text → Bool
unfolding contains
is_keyword d w = contains keywords w || (is_dgd d && contains dgd_only_keywords w)

unfoldable pub lex_ident_or_keyword : LpcDialect → Cursor → Token × Cursor
unfolding take_while is_keyword
lex_ident_or_keyword d c =
    let (text, after) = take_while is_ident_char c.rest c.line in
    (token (if is_keyword d text then keyword else ident) text c.line, after)

-- The fraction of `1.5`: a point with a digit behind it.
unfoldable pub lex_fraction : ℕ → Text → Cursor → Token × Cursor
unfolding take_while advance
lex_fraction start text c =
    let point = advance c in
    let (fraction, after) = take_while is_digit point.rest point.line in
    if peek c == b'.' && is_digit (peek_next c)
    then (token number (text ++ peek c ∷ fraction) start, after)
    else (token number text start, c)

-- The digits of `0x1A`, behind the 0.
unfoldable pub lex_hex : ℕ → Text → Cursor → Token × Cursor
unfolding take_while advance
lex_hex start text c =
    let prefix = advance c in
    let (hex, after) = take_while is_xdigit prefix.rest prefix.line in
    (token number (text ++ peek c ∷ hex) start, after)

unfoldable pub lex_number : Cursor → Token × Cursor
unfolding lex_fraction lex_hex take_while text_eq
lex_number c =
    let (text, after) = take_while is_digit c.rest c.line in
    if text_eq text (codes "0")
      && (peek after == b'x' || peek after == b'X')
      && is_xdigit (peek_next after)
    then lex_hex c.line text after
    else lex_fraction c.line text after

unfoldable pub lex_lambda_param : Cursor → Token × Cursor
unfolding take_while advance
lex_lambda_param c =
    let dollar = advance c in
    let (text, after) = take_while is_digit dollar.rest dollar.line in
    if is_digit (peek dollar)
    then (token ident (b'$' ∷ text) c.line, after)
    else (token symbol (codes "$") c.line, dollar)
