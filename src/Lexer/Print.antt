-- ===== src/Lexer/Print.antt =====
-- A printer of LPC lexemes, independent of the lexer: words, naturals, string literals and operators,
-- each with a blank behind it.
use kjdmud.Base.{ℕ, ◌≡◌, ◌⊎◌, true, ◌||◌, List, [], ◌∷◌, ◌++◌, ◌==◌, if◌then◌else◌, All}
use kjdmud.Core.Text.{Text, codes}
use kjdmud.Core.Decimal.{digits}
use kjdmud.Dialect.{LpcDialect}
use kjdmud.Lexer.Token.{Token, token, ident, number, string, symbol, keyword, end}
use kjdmud.Lexer.Cursor.{head_or_nul}
use kjdmud.Lexer.Word.{is_ident_start, is_ident_char, is_keyword}

pub data Lexeme : Type 0 where
  word : Text → Lexeme
  natural : ℕ → Lexeme
  literal : Text → Lexeme
  operator : Text → Lexeme

abbrev pub operators : List Text
operators =
    codes "->"
    ∷ codes "::"
    ∷ codes "++"
    ∷ codes "--"
    ∷ codes "+="
    ∷ codes "-="
    ∷ codes "*="
    ∷ codes "/="
    ∷ codes "%="
    ∷ codes "|="
    ∷ codes "&="
    ∷ codes "^="
    ∷ codes "=="
    ∷ codes "!="
    ∷ codes "<<="
    ∷ codes "<<"
    ∷ codes ">>="
    ∷ codes ">>"
    ∷ codes "<="
    ∷ codes ">="
    ∷ codes "||"
    ∷ codes "&&"
    ∷ codes "..."
    ∷ codes ".."
    ∷ codes "("
    ∷ codes ")"
    ∷ codes "{"
    ∷ codes "}"
    ∷ codes "["
    ∷ codes "]"
    ∷ codes ":"
    ∷ codes ";"
    ∷ codes ","
    ∷ codes "-"
    ∷ codes "="
    ∷ codes "!"
    ∷ codes "<"
    ∷ codes ">"
    ∷ codes "*"
    ∷ codes "+"
    ∷ codes "|"
    ∷ codes "&"
    ∷ codes "/"
    ∷ codes "%"
    ∷ codes "."
    ∷ codes "?"
    ∷ codes "^"
    ∷ codes "~"
    ∷ []

abbrev pub OneOf : Text → List Text → Type 0
OneOf s [] = ⊥
OneOf s (t ∷ ts) = (s ≡ t) ⊎ OneOf s ts

abbrev pub IsLexeme : Lexeme → Type 0
IsLexeme (word w) = (is_ident_start (head_or_nul w) ≡ true) × All (λ c. is_ident_char c ≡ true) w
IsLexeme (natural n) = Unit
IsLexeme (literal v) = Unit
IsLexeme (operator o) = OneOf o operators

unfoldable pub escaped : Text → Text
escaped [] = []
escaped (c ∷ v) =
    let rest = escaped v in
    if c == b'"' || c == b'\\'
    then b'\\' ∷ c ∷ rest
    else if c == b'\n'
    then b'\\' ∷ b'n' ∷ rest
    else if c == b'\t'
    then b'\\' ∷ b't' ∷ rest
    else c ∷ rest

unfoldable pub show : Lexeme → Text
unfolding escaped
show (word w) = w
show (natural n) = digits n
show (literal v) = b'"' ∷ (escaped v ++ b'"' ∷ [])
show (operator o) = o

-- The token of a lexeme on line `n`.
unfoldable pub meaning : LpcDialect → ℕ → Lexeme → Token
meaning d n (word w) = token (if is_keyword d w then keyword else ident) w n
meaning d n (natural k) = token number (digits k) n
meaning d n (literal v) = token string v n
meaning d n (operator o) = token symbol o n

unfoldable pub print : List Lexeme → Text
unfolding show
print [] = []
print (l ∷ ls) = show l ++ b' ' ∷ print ls

unfoldable pub meanings : LpcDialect → ℕ → List Lexeme → List Token
unfolding meaning
meanings d n [] = token end [] n ∷ []
meanings d n (l ∷ ls) = meaning d n l ∷ meanings d n ls
