-- ===== src/Trie.antt =====
-- The token trie of controllers/aici_abi/src/toktree.rs and the recognizers that walk it.
pub mod Node
pub mod Hash
pub mod Recognizer
pub mod Tok
mod Examples
