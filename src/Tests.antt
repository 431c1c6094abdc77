-- ===== src/Tests.antt =====
-- Tests and examples at concrete inputs.
pub mod Types
pub mod Dicts
pub mod Arrays
pub mod Objects
pub mod Scopes
pub mod Memory
pub mod Functions
pub mod Operators
pub mod Strings
pub mod Syntax
