-- ===== src/Lex.antt =====
-- src/parsing/lex.rs and src/parsing/tokens.rs: the text of a file as a list of tokens.
--
-- `State` has the lexer and the runs on it, `Number`, `Literal` and `Next` its functions, `Tokens` and
-- `Words` the tokens; `Ends`, `Decimal`, `Radix` and `Escape` are about what the runs do.
pub mod Tokens
pub mod Words
pub mod State
pub mod Number
pub mod Literal
pub mod Next
pub mod Ends
pub mod Decimal
pub mod Radix
pub mod Escape
mod Tests
