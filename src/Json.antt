-- ===== src/Json.antt =====
-- src/ewa_base/util/json.cpp: the parser and the writer of JSON texts.
pub mod Lexer
pub mod Strings
pub mod Parser
pub mod Reads
pub mod Scans
pub mod Unquote
pub mod Total
pub mod Printed
pub mod Writer
pub mod Blanks
pub mod Texts
pub mod Steps
pub mod ReadsBack
pub mod Items
pub mod Entries
pub mod RoundTrip
