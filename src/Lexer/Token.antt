-- ===== src/Lexer/Token.antt =====
-- include/kjdmud/compiler/Lexer.hpp: the kinds of token and the token.
use kjdmud.Base.{ℕ}
use kjdmud.Core.Text.{Text}

pub data TokenType : Type 0 where
  ident number string symbol quoted_symbol keyword end : TokenType

pub record Token : Type 0 where
  pub type : TokenType
  pub text : Text
  pub line : ℕ

abbrev pub token : TokenType → Text → ℕ → Token
token k s n = record { type = k; text = s; line = n }
