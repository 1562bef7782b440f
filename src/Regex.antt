-- ===== src/Regex.antt =====
-- src/ewa_base/util/regex_impl.cpp: the backtracking machine of the regular expressions.
pub mod Items
pub mod Machine
pub mod Reference
pub mod Rounds
pub mod Plain
pub mod Ends
pub mod Matches
pub mod Decides
pub mod Layout
pub mod Compiled
