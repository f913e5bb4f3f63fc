-- ===== src/Trie/Node.antt =====
-- `TrieNode` of controllers/aici_abi/src/toktree.rs: a token, a byte, the size of the subtree and
-- the number of levels to leave after it, packed in two u32 words.
use aici.Prelude.{
  ℕ, ◌+◌, ◌*◌, ◌/◌, ◌%◌, ◌^◌, ◌<◌, ◌≡◌, refl, ◌∙◌, arith, ◌==◌, Option, none, some, bit_and, bit_or,
  if◌then◌else◌,
}
use aici.Prelude.Bits.{bit_or_comm, bit_or_fields, bit_and_mask}

pub record TrieNode : Type 0 where
  pub bits : ℕ
  pub bits2 : ℕ

abbrev pub no_token : ℕ
no_token = 0xffffff

pub new : ℕ → ℕ → ℕ → TrieNode
new byte token_id num_parents = record {
  bits = bit_or (token_id * 2 ^ 8 % 2 ^ 32) byte;
  bits2 = num_parents;
}

-- `bits2 |= (size as u32) << 8`.
pub add_size : TrieNode → ℕ → TrieNode
add_size n size = record n { bits2 = bit_or n.bits2 (size % 2 ^ 32 * 2 ^ 8 % 2 ^ 32) }

unfoldable pub byte : TrieNode → ℕ
byte n = bit_and n.bits 0xff

unfoldable pub subtree_size : TrieNode → ℕ
subtree_size n = n.bits2 / 2 ^ 8

unfoldable pub num_parents : TrieNode → ℕ
num_parents n = bit_and n.bits2 0xff

unfoldable pub token_id : TrieNode → Option ℕ
token_id n = let r = n.bits / 2 ^ 8 in if r == no_token then none else some r

-- The node that a subtree of `size` nodes begins with.
pub packed : ℕ → ℕ → ℕ → ℕ → TrieNode
packed byte token_id num_parents size = record {
  bits = token_id * 2 ^ 8 + byte;
  bits2 = size * 2 ^ 8 + num_parents;
}

module _ (b t k s : ℕ) (fits_b : b < 2 ^ 8) (fits_k : k < 2 ^ 8) where
  -- The four fields come back from the packed words.
  pub byte-packed : byte (packed b t k s) ≡ b
  unfolding byte packed
  byte-packed = bit_and_mask 8 (t * 2 ^ 8 + b) ∙ omega arith

  pub num_parents-packed : num_parents (packed b t k s) ≡ k
  unfolding num_parents packed
  num_parents-packed = bit_and_mask 8 (s * 2 ^ 8 + k) ∙ omega arith

  pub subtree_size-packed : subtree_size (packed b t k s) ≡ s
  unfolding subtree_size packed
  subtree_size-packed = omega arith

  pub token_id-packed : token_id (packed b t k s) ≡ (if t == no_token then none else some t)
  unfolding token_id packed
  token_id-packed = let e : (t * 2 ^ 8 + b) / 2 ^ 8 ≡ t = omega arith in rw e

  pub add_size-new : t < 2 ^ 24 → s < 2 ^ 24 → add_size (new b t k) s ≡ packed b t k s
  unfolding add_size new packed
  add_size-new ht hs =
      let e : t * 2 ^ 8 % 2 ^ 32 ≡ t * 2 ^ 8 = omega arith in
      let f : s % 2 ^ 32 * 2 ^ 8 % 2 ^ 32 ≡ s * 2 ^ 8 = omega arith in
      rw (e, f, bit_or_comm k (s * 2 ^ 8), bit_or_fields 8 t b fits_b, bit_or_fields 8 s k fits_k)
        refl
