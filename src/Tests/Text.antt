-- ===== src/Tests/Text.antt =====
-- src/compiler/Lexer.cpp, src/dialect/LpcDialect.cpp and the decimal numbers, on short texts.
use kjdmud.Base.{◌+◌, if_chain, inr, ◌≡◌, refl, List, [], ◌∷◌, ◌++◌, All, arith, inl, pos}
use kjdmud.Core.Text.{codes}
use kjdmud.Core.Errors.{ok, Ensures}
use kjdmud.Core.Decimal.{to_string, stoll, stoll-to_string, starts_digit}
use kjdmud.Dialect.{ld_mud}
use kjdmud.Lexer.Token.{token, ident, symbol, number, end}
use kjdmud.Lexer.Tokenize.{tokenize}
use kjdmud.Lexer.Print.{Lexeme, word, natural, literal, operator, IsLexeme, print, meanings}
use kjdmud.Lexer.Total.{Ends, tokenize-Ends}
use kjdmud.Lexer.Cursor.{breaks}
use kjdmud.Lexer.RoundTrip.{tokenize-print}

tokenize_assignment :
    tokenize ld_mud (codes "x += 7; // seven")
    ≡ ok (
        token ident (codes "x") 1
        ∷ token symbol (codes "+=") 1
        ∷ token number (codes "7") 1
        ∷ token symbol (codes ";") 1
        ∷ token end [] 1
        ∷ [])
unfolding tokenize if_chain
tokenize_assignment = refl

abbrev statement : List Lexeme
statement =
    word (codes "ob")
    ∷ operator (codes "->")
    ∷ word (codes "x")
    ∷ operator (codes "::")
    ∷ literal (codes "a\"b")
    ∷ natural 12
    ∷ []

statement-IsLexeme : All IsLexeme statement
statement-IsLexeme =
    ((refl, (refl, (refl, tt))), (inl refl, ((refl, (refl, tt)), (inr (inl refl), (tt, (tt, tt))))))

tokenize-print_example : tokenize ld_mud (print statement) ≡ ok (meanings ld_mud 1 statement)
tokenize-print_example = tokenize-print ld_mud statement statement-IsLexeme

tokenize-Ends_example :
    Ensures (Ends 1 (1 + breaks (codes "x\ny"))) (tokenize ld_mud (codes "x\ny"))
tokenize-Ends_example = tokenize-Ends ld_mud (codes "x\ny")

stoll-to_string_example : stoll (to_string (pos 42) ++ codes ";") ≡ ok (pos 42)
unfolding starts_digit
stoll-to_string_example = stoll-to_string (pos 42) (codes ";") (omega arith) refl
