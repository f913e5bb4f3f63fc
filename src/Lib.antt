-- ===== src/Lib.antt =====
-- Verification of the parts of the aici repository that decide which tokens a model may produce
-- and where the KV cache of its sequences is kept. The definitions are translations of the Rust
-- sources; `none` is a panic (a failed assertion, an index out of range), and state is passed
-- explicitly.
--
-- The program's parts and the files:
--
-- - Vob: the token masks of controllers/aici_abi/src/svob.rs. `SimpleVob` is the list of u32
--   words with the size; each method is a function of its name (`set` is `set_bit`). Words are
--   numbers below 2 ^ 32 and `!x` is `u32_max - x`. Vob/Bits reads a mask as a function from
--   indices to flags and states when it is sized and valid; Vob/Update, Vob/OrMinus, Vob/Search,
--   Vob/Iter, Vob/Entries and Vob/Count hold the theorems on updates, searches, iteration and
--   counting.
-- - Trie: the token trie of controllers/aici_abi/src/toktree.rs. Trie/Node is the node packed in
--   two words, Trie/Hash the tree that the words are put in and its serialisation to an array,
--   Trie/Tok the walks in that array, Trie/Tok/Build its construction from a vocabulary, and
--   Trie/Tok/Bias the walks that ask a recognizer: `add_bias` and its users. Trie/Recognizer is
--   the trait `Recognizer` with a contract, after the comments of the trait, and the stack of
--   controllers/aici_abi/src/recognizer.rs. Trie/Hash/Order is about the sort of
--   the children. Trie/Hash/Flat, Trie/Hash/Spells and Trie/Tok/Bias/*
--   lead from the loop over the array, with its levels and pops, to words: Visit is a recursion
--   on the tree, Loop relates the loop to it, Mask reads its effect on the mask, Words compares
--   the recursion with the words of the trie, and Laws puts these together.
-- - Blocks: the paged KV cache of rllm/rllm-cuda/src/llm/paged/blocks.rs. Blocks/Allocator has
--   the reference counts and the free list, Blocks/Table the hash map of the sequences' blocks
--   as an association list, Blocks/Seqs the operations on sequences, and Blocks/Manager
--   `BlockSpaceManager` and `TchSeqMgr`, which hold an allocator for the GPU and one for the
--   CPU. A mutex makes each operation of an allocator one step.
-- - Variables: the store of versioned variables of controllers/aici_native/src/variables.rs,
--   with the commands of controllers/aici_abi/src/host.rs.
-- - Seq: sequences and groups of rllm/rllm-base/src/seq.rs, with the operations on their tokens
--   and on the number of their KV entries; Seq/Splice is about `splice_tokens`.
-- - Scheduler: the scheduler of rllm/rllm-base/src/scheduler.rs, on the queues of groups and the
--   traits of rllm/rllm-base/src/exec.rs as a record of operations. Scheduler/Steps has the
--   steps that drop groups, choose prompts and preempt, Scheduler/Generation the step that runs
--   groups on the GPU, and `schedule`. The head of a list of groups is the back of its vector,
--   where the code pushes and pops. Scheduler/Conserve and its children count a request among
--   the queues and the outputs step by step, Scheduler/Budget is about the token budget,
--   Scheduler/Order about the order of arrival, and Scheduler/Fuel, with its
--   child, about the end of the loops.
-- - Derivre: the regular expressions of controllers/derivre/src. Derivre/HashCons is the store
--   of vectors (hashcons.rs), with its backing, its elements and the vector being inserted;
--   Derivre/Ast the expressions, their encoding and `ExprSet` (ast.rs); Derivre/Simplify the
--   constructors (simplify.rs), of which Union and Prefixes are `mk_or` with its trie of common
--   prefixes; Derivre/NextByte the bytes that can come next (nextbyte.rs); Derivre/Deriv the
--   derivatives by a byte with their cache (deriv.rs, and `map` of ast.rs). The modules Windows,
--   Inserting, Search and Laws below HashCons follow an insertion through its pushes, Ast/Encode
--   and Ast/Store do so for an expression, Ast/Overflow adds the case of a full backing, and the
--   modules Grows, GrowsOr and Reaches carry that to all calls. Derivre/Language defines languages
--   as tests on words, with concatenation, powers and repetition; Derivre/Denotes says which
--   language an expression in a set stands for, by induction on the expression; and
--   Derivre/Sound follows the constructors and the derivative, Flatten, Sort, ByteSet, Order and
--   Groups their parts, And, Or and Trie the n-ary ones, Derive one step of the derivative and
--   Derivative its work list and cache, Rounds the number of its rounds, and
--   Walk the derivatives along a word.
-- - Prelude: lists, bits of machine words, loops, tests and what chains of partial steps ensure,
--   which the parts share.
--
-- Bounds and fuel: the loops of `add_bias` and `has_valid_extensions` have as many rounds as the
-- array has nodes and one more, since each round moves the offset forward. `append_slots` has
-- one round for each block of the sequence and one more. The two loops of `step_generation` have
-- one round for each group on the GPU and one more. `trie_rec` has the 101 levels of the code's
-- limit. `derivative` and `next_byte` take the rounds of their loops as an argument.
-- `greedy_tokenize` takes its fuel as an argument, since its loop need not end, and so does
-- `from`, which calls it. Sums of type usize (lengths, sizes, counters) are not bounded, and a
-- difference of two in seq.rs wraps at 2 ^ 64; the casts of an index to u32 in svob.rs and the
-- offsets of the store of vectors wrap at 2 ^ 32. Token ids are below 2 ^ 24, bytes and levels
-- below 2 ^ 8, where a theorem needs it.
--
-- Not modelled: text output, f32 logits, tokenizer files, the model execution, the wasm runtime
-- and the servers. A request id and a time of arrival are numbers. The logs of sequences, logits
-- and the text of prompts are left out of their records. The block manager is taken to leave a
-- group as it is in `allocate` and `append_slots`, as both implementations of its trait do.
pub mod Blocks
pub mod Derivre
pub mod Prelude
pub mod Scheduler
pub mod Seq
pub mod Trie
pub mod Variables
pub mod Vob
