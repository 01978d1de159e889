-- ===== src/Lexer.antt =====
-- src/compiler/Lexer.cpp and include/kjdmud/compiler/Lexer.hpp: the tokens of an LPC source.
pub mod Token
pub mod Cursor
pub mod Blank
pub mod Tokenize
pub mod Progress
pub mod Consume
pub mod Total
pub mod Print
pub mod RoundTrip
pub mod Symbol
pub mod Heredoc
pub mod Literal
pub mod Word
pub use Token.*
pub use Cursor.*
pub use Blank.*
pub use Tokenize.*
pub use Symbol.*
pub use Heredoc.*
pub use Literal.*
pub use Word.*
