-- ===== src/Blocks.antt =====
-- The blocks of the KV cache: rllm/rllm-cuda/src/llm/paged/blocks.rs. `none` is a panic.
pub mod Allocator
pub mod Table
pub mod Seqs
pub mod Manager
mod Examples
