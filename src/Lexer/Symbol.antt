-- ===== src/Lexer/Symbol.antt =====
-- `Lexer::lexSymbol`: operators and punctuation.
use kjdmud.Base.{ℕ, ◌&&◌, ◌||◌, [], ◌∷◌, ◌==◌, if◌then◌else◌, if_chain}
use kjdmud.Core.Text.{Text, codes}
use kjdmud.Lexer.Token.{Token, token, symbol}
use kjdmud.Lexer.Cursor.{Cursor, peek, advance}

-- `<`, `>` or `.` doubled: the operator may go on with one byte more.
abbrev pub doubled : ℕ → Cursor → ℕ → Text → Text → Token × Cursor
doubled start two third long short =
    if peek two == third
    then (token symbol long start, advance two)
    else (token symbol short start, two)

unfoldable pub lex_symbol : Cursor → Token × Cursor
unfolding advance
lex_symbol s =
    let c = peek s in
    let one = advance s in
    let next = peek one in
    let two = advance one in
    let pair : Text → Token × Cursor = λ text. (token symbol text s.line, two) in
    if_chain
      ((c == b'-' && next == b'>', pair (codes "->"))
        ∷ (c == b':' && next == b':', pair (codes "::"))
        ∷ (c == b'+' && next == b'+', pair (codes "++"))
        ∷ (c == b'-' && next == b'-', pair (codes "--"))
        ∷ (
          (c == b'+' || c == b'-' || c == b'*' || c == b'/' || c == b'%') && next == b'=',
          pair (c ∷ codes "="),
        )
        ∷ ((c == b'|' || c == b'&' || c == b'^') && next == b'=', pair (c ∷ codes "="))
        ∷ (c == b'=' && next == b'=', pair (codes "=="))
        ∷ (c == b'!' && next == b'=', pair (codes "!="))
        ∷ (c == b'<' && next == b'<', doubled s.line two b'=' (codes "<<=") (codes "<<"))
        ∷ (c == b'>' && next == b'>', doubled s.line two b'=' (codes ">>=") (codes ">>"))
        ∷ (c == b'<' && next == b'=', pair (codes "<="))
        ∷ (c == b'>' && next == b'=', pair (codes ">="))
        ∷ (c == b'|' && next == b'|', pair (codes "||"))
        ∷ (c == b'&' && next == b'&', pair (codes "&&"))
        ∷ (c == b'.' && next == b'.', doubled s.line two b'.' (codes "...") (codes ".."))
        ∷ [])
      (token symbol (c ∷ []) s.line, one)
