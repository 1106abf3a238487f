-- ===== src/Happy.antt =====
-- The schema compiler: tools/happy/src.
pub mod Ast
pub mod Reader
pub mod Lexer
pub mod Parser
pub mod View
pub mod Advance
pub mod Strings
pub mod Endless
pub mod Digits
pub mod Blanks
pub mod Skip
pub mod Symbols
pub mod Tokens
pub mod Words
pub mod Names
pub mod Number
pub mod Scans
pub mod Literals
pub mod Values
pub mod Integers
pub mod Types
pub mod Fields
pub mod Print
pub mod Printed
pub mod Samples
pub mod Quotes
pub mod Fronts
pub mod Places
pub mod Ends
pub mod Main
pub mod Reports
mod Tests
mod MainTests
