-- ===== src/Derivre.antt =====
-- The regular expressions of controllers/derivre/src.
pub mod HashCons
pub mod Language
pub mod Ast
pub mod Simplify
pub mod Deriv
pub mod NextByte
pub mod Denotes
pub mod Sound
mod Examples
