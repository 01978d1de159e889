-- ===== src/Lexer/RoundTrip.antt =====
-- What `Print` prints, the lexer reads back.
use kjdmud.Base.{
  ℕ, zero, suc, ◌<◌, ◌≡◌, refl, ap, ◌∙◌, inl, inr, true, false, ◌||◌, List, [], ◌∷◌, ◌++◌,
  append_assoc, append-nil, arith, length, length-append, ◌==◌, Bool-cases, All, if_chain,
}
use kjdmud.Core.Text.{Text, is_digit}
use kjdmud.Core.Errors.{ok}
use kjdmud.Core.Decimal.{digits, IsDigits, digits-IsDigits, starts_digit, starts_digit-digits}
use kjdmud.Dialect.{LpcDialect}
use kjdmud.Lexer.Token.{token, number}
use kjdmud.Lexer.Cursor.{at, is_empty, next_line, take_while_run}
use kjdmud.Lexer.Blank.{is_blank, skip}
use kjdmud.Lexer.Word.{
  is_ident_start, is_ident_char, lex_ident_or_keyword, lex_number, lex_fraction,
}
use kjdmud.Lexer.Literal.{prepend, unescape, string_body, lex_string}
use kjdmud.Lexer.Symbol.{lex_symbol}
use kjdmud.Lexer.Tokenize.{lex_token, tokenize_fuel, tokenize}
use kjdmud.Lexer.Print.{
  Lexeme, word, natural, literal, operator, operators, OneOf, IsLexeme, escaped, show, meaning,
  print, meanings,
}

string_body_close :
    (start : ℕ) (s : Text) (n : ℕ) → string_body start (b'"' ∷ s) n ≡ ok ([], at s n)
unfolding string_body
string_body_close start [] n = refl
string_body_close start (c ∷ s) n = refl

string_body_plain :
    (start c : ℕ) (s : Text) (n : ℕ)
    → (c == b'"') ≡ false
    → (c == b'\\') ≡ false
    → string_body start (c ∷ s) n ≡ prepend c (string_body start s (next_line c n))
unfolding string_body
string_body_plain start c [] n h k = rw h
string_body_plain start c (e ∷ s) n h k = rw (h, k)

string_body_escape :
    (start e : ℕ) (s : Text) (n : ℕ)
    → (e == b'\n') ≡ false
    → string_body start (b'\\' ∷ e ∷ s) n ≡ prepend (unescape e) (string_body start s n)
unfolding string_body
string_body_escape start e s n h = rw h

unescape_same : (c : ℕ) → (c == b'n') ≡ false → (c == b't') ≡ false → unescape c ≡ c
unfolding unescape
unescape_same c h k = rw (h, k)

unescape_n : unescape b'n' ≡ b'\n'
unfolding unescape
unescape_n = refl

unescape_t : unescape b't' ≡ b'\t'
unfolding unescape
unescape_t = refl

-- A text is read back from its escaped form, whatever follows the closing quote.
pub string_body-escaped :
    (start : ℕ) (v rest : Text) (n : ℕ)
    → string_body start (escaped v ++ b'"' ∷ rest) n ≡ ok (v, at rest n)
unfolding escaped
string_body-escaped start [] rest n = string_body_close start rest n
string_body-escaped start (c ∷ v) rest n =
    let more = string_body-escaped start v rest n in
    elim (Bool-cases (c == b'"' || c == b'\\')) [
      | inl special ↦
          rw (special, string_body_escape start c _ n (ground arith), more)
            (ap (λ e. ok (e ∷ v, at rest n)) (unescape_same c (ground arith) (ground arith)))
      | inr plain ↦ elim (Bool-cases (c == b'\n')) [
        | inl line ↦
            rw (plain, line, string_body_escape start b'n' _ n refl, more)
              (ap (λ e. ok (e ∷ v, at rest n)) (unescape_n ∙ ground arith))
        | inr same ↦ elim (Bool-cases (c == b'\t')) [
          | inl tab ↦
              rw (plain, same, tab, string_body_escape start b't' _ n refl, more)
                (ap (λ e. ok (e ∷ v, at rest n)) (unescape_t ∙ ground arith))
          | inr other ↦ rw (
            plain,
            same,
            other,
            string_body_plain start c _ n (ground arith) (ground arith),
            same,
            more,
          )
        ]
      ]
    ]

-- The lexer finds the lexeme under the cursor, and reads it up to the blank behind it.
abbrev Lexes : Lexeme → Type 0
Lexes l =
    (d : LpcDialect) (n : ℕ) (t : Text)
    → (is_empty (show l ++ b' ' ∷ t) ≡ false)
      × (skip (at (show l ++ b' ' ∷ t) n) ≡ ok (at (show l ++ b' ' ∷ t) n))
      × (lex_token d (at (show l ++ b' ' ∷ t) n) ≡ ok (meaning d n l, at (b' ' ∷ t) n))

skip_solid :
    (c : ℕ) (s : Text) (n : ℕ)
    → is_blank c ≡ false
    → (c == b'/') ≡ false
    → skip (at (c ∷ s) n) ≡ ok (at (c ∷ s) n)
unfolding skip
skip_solid c s n h k = rw (h, k)

literal-Lexes : (v : Text) → Lexes (literal v)
unfolding lex_token lex_string show meaning
literal-Lexes v d n t = (
  refl,
  skip_solid b'"' _ n refl refl,
  rw (append_assoc (escaped v) (b'"' ∷ []) (b' ' ∷ t), string_body-escaped n v (b' ' ∷ t) n),
)

ident_run :
    (w : Text)
    → All (λ c. is_ident_char c ≡ true) w
    → All (λ c. (is_ident_char c ≡ true) × ((c == 10) ≡ false)) w
ident_run [] h = tt
ident_run (c ∷ w) h = ((h.0, ground arith), ident_run w h.1)

word-Lexes : (w : Text) → IsLexeme (word w) → Lexes (word w)
unfolding lex_token lex_ident_or_keyword show meaning
word-Lexes [] h d n t = cc
word-Lexes (c ∷ w) h d n t = (
  refl,
  skip_solid c _ n (ground arith) (ground arith),
  rw (h.0, take_while_run is_ident_char (c ∷ w) (b' ' ∷ t) n (ident_run (c ∷ w) h.1) refl),
)

operators-Lexes : All (λ o. Lexes (operator o)) operators
unfolding lex_token lex_symbol show meaning skip if_chain
operators-Lexes = search

operator-Lexes :
    (o : Text) (os : List Text) → All (λ p. Lexes (operator p)) os → OneOf o os → Lexes (operator o)
operator-Lexes o [] a h = absurd h
operator-Lexes o (p ∷ os) a (inl e) = rw e a.0
operator-Lexes o (p ∷ os) a (inr h) = operator-Lexes o os a.1 h

digit_run : (s : Text) → IsDigits s → All (λ c. (is_digit c ≡ true) × ((c == 10) ≡ false)) s
digit_run [] h = tt
digit_run (c ∷ s) h = ((h.0, ground arith), digit_run s h.1)

lex_number-digits :
    (s t : Text) (n : ℕ)
    → IsDigits s
    → lex_number (at (s ++ b' ' ∷ t) n) ≡ (token number s n, at (b' ' ∷ t) n)
unfolding lex_number lex_fraction
lex_number-digits s t n h =
    rw (take_while_run is_digit s (b' ' ∷ t) n (digit_run s h) refl) (ground arith)

digit_no_ident : (c : ℕ) → is_digit c ≡ true → is_ident_start c ≡ false
digit_no_ident c h = ground arith

digits-Lexes :
    (s t : Text) (d : LpcDialect) (n : ℕ)
    → IsDigits s
    → starts_digit s ≡ true
    → (is_empty (s ++ b' ' ∷ t) ≡ false)
      × (skip (at (s ++ b' ' ∷ t) n) ≡ ok (at (s ++ b' ' ∷ t) n))
      × (lex_token d (at (s ++ b' ' ∷ t) n) ≡ ok (lex_number (at (s ++ b' ' ∷ t) n)))
unfolding lex_token starts_digit
digits-Lexes [] t d n h k = cc
digits-Lexes (c ∷ s) t d n h k =
    (refl, skip_solid c _ n (ground arith) (ground arith), rw (digit_no_ident c k, k))

natural-Lexes : (k : ℕ) → Lexes (natural k)
unfolding show meaning
natural-Lexes k d n t =
    let lexed =
      digits-Lexes (digits k) t d n (digits-IsDigits k)
        (rw append-nil at (starts_digit-digits k [])) in
    (lexed.0, lexed.1, lexed.2 ∙ ap ok (lex_number-digits (digits k) t n (digits-IsDigits k)))

lexeme-Lexes : (l : Lexeme) → IsLexeme l → Lexes l
lexeme-Lexes (word w) h = word-Lexes w h
lexeme-Lexes (natural k) h = natural-Lexes k
lexeme-Lexes (literal v) h = literal-Lexes v
lexeme-Lexes (operator o) h = operator-Lexes o operators operators-Lexes h

-- A blank in front changes nothing.
tokenize_fuel-blank :
    (d : LpcDialect) (f : ℕ) (s : Text) (n : ℕ)
    → tokenize_fuel d f (at (b' ' ∷ s) n) ≡ tokenize_fuel d f (at s n)
unfolding tokenize_fuel skip
tokenize_fuel-blank d zero s n = refl
tokenize_fuel-blank d (suc f) s n = refl

tokenize_fuel-print :
    (d : LpcDialect) (f : ℕ) (ls : List Lexeme) (n : ℕ)
    → All IsLexeme ls
    → length (print ls) < f
    → tokenize_fuel d f (at (print ls) n) ≡ ok (meanings d n ls)
unfolding tokenize_fuel print meanings
tokenize_fuel-print d zero ls n h k = absurd (omega arith)
tokenize_fuel-print d (suc f) [] n h k = unfold skip in refl
tokenize_fuel-print d (suc f) (l ∷ ls) n h k =
    let (nonempty, skipped, lexed) = lexeme-Lexes l h.0 d n (print ls) in
    let fewer = length-append (show l) (b' ' ∷ print ls) in
    rw (
      skipped,
      nonempty,
      lexed,
      tokenize_fuel-blank d f (print ls) n,
      tokenize_fuel-print d f ls n h.1 (omega (arith, fewer)),
    )

-- The lexer reads back every printed list of words, naturals, string literals and operators: one
-- token for each, words as keywords exactly if the dialect has them, strings with their escapes
-- undone, all on line 1, and the end token.
pub tokenize-print :
    (d : LpcDialect) (ls : List Lexeme)
    → All IsLexeme ls
    → tokenize d (print ls) ≡ ok (meanings d 1 ls)
unfolding tokenize
tokenize-print d ls h = tokenize_fuel-print d (suc (length (print ls))) ls 1 h (omega arith)
