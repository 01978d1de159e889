-- ===== src/Lexer/Tokenize.antt =====
-- `Lexer::tokenize`: the dispatch on the first byte of a token, and the loop.
use kjdmud.Base.{
  ℕ, zero, suc, Bool, true, false, ◌&&◌, List, [], ◌∷◌, ◌++◌, length, any, ◌==◌, if◌then◌else◌,
}
use kjdmud.Core.Text.{Text, codes, is_digit}
use kjdmud.Core.Errors.{Result, ok, err, runtime, out_of_fuel, ◌>>=◌}
use kjdmud.Dialect.{LpcDialect, fluff_os, ld_mud, dgd}
use kjdmud.Lexer.Token.{Token, token, end}
use kjdmud.Lexer.Cursor.{Cursor, at, at_end, peek, peek_next}
use kjdmud.Lexer.Blank.{skip}
use kjdmud.Lexer.Word.{is_ident_start, lex_ident_or_keyword, lex_number, lex_lambda_param}
use kjdmud.Lexer.Literal.{at_line, lex_string, lex_char, lex_quote, lex_hash_quote}
use kjdmud.Lexer.Heredoc.{lex_heredoc}
use kjdmud.Lexer.Symbol.{lex_symbol}

abbrev pub is_ld_mud : LpcDialect → Bool
is_ld_mud ld_mud = true
is_ld_mud fluff_os = false
is_ld_mud dgd = false

abbrev pub is_punctuation : ℕ → Bool
is_punctuation c = any (λ p. c == p) (codes "(){}[]:;,-=!<>*+|&/%.?^~")

unfoldable pub lex_token : LpcDialect → Cursor → Result (Token × Cursor)
unfolding lex_ident_or_keyword lex_number lex_lambda_param lex_string lex_char lex_quote
    lex_hash_quote lex_heredoc lex_symbol
lex_token d c =
    let b = peek c in
    if is_ident_start b
    then ok (lex_ident_or_keyword d c)
    else if is_digit b
    then ok (lex_number c)
    else if b == b'.' && is_digit (peek_next c)
    then ok (lex_number c)
    else if b == b'"'
    then lex_string c
    else if b == b'\''
    then (if is_ld_mud d then lex_quote c else lex_char c)
    else if b == b'#' && is_ld_mud d && peek_next c == b'\''
    then ok (lex_hash_quote c)
    else if b == b'@'
    then lex_heredoc c
    else if b == b'$'
    then ok (lex_lambda_param c)
    else if is_punctuation b
    then ok (lex_symbol c)
    else err (
        runtime
          (at_line (codes "lexer: unrecognized character '" ++ b ∷ codes "' at line ") c.line))

unfoldable pub tokenize_fuel : LpcDialect → ℕ → Cursor → Result (List Token)
unfolding skip lex_token
tokenize_fuel d zero c = err out_of_fuel
tokenize_fuel d (suc f) c = skip c >>= λ s.
    if at_end s
    then ok (token end [] s.line ∷ [])
    else lex_token d s >>= λ r. tokenize_fuel d f r.1 >>= λ more. ok (r.0 ∷ more)

-- `Lexer(source, dialect).tokenize()`.
unfoldable pub tokenize : LpcDialect → Text → Result (List Token)
unfolding tokenize_fuel
tokenize d s = tokenize_fuel d (suc (length s)) (at s 1)
