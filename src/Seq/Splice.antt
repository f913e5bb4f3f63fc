-- ===== src/Seq/Splice.antt =====
-- What `splice_tokens` of rllm/rllm-base/src/seq.rs leaves of a sequence.
use aici.Prelude.{
  ℕ, ◌-◌, ◌^◌, zero, suc, ◌∷◌, ◌≤◌, ◌<◌, ◌∙◌, ◌≡◌, refl, sym, ap, arith, ◌==◌, ltb, some, List, [],
  ◌++◌, min, length, take, ◌>>◌, guard,
}
use aici.Prelude.Results.{
  Ensures, returns, Ensures-after, Ensures-bind, Ensures-if, Ensures-some, Ensures-weaken,
}
use aici.Seq.{
  Sequence, SequenceManager, get_len, trim_computed_kv, trim_physical_blocks, backtracked,
  append_tokens, splice_tokens, sub_usize,
}

-- The marks of a sequence lie within its first tokens.
pub record Within (seq : Sequence) (n : ℕ) : Type 0 where
  pub kv_within : seq.num_kv_computed ≤ n
  pub output_within : seq.output_ptr ≤ n
  pub prompt_within : seq.prompt_len ≤ n

length-take : {A : Type 0} (n : ℕ) (xs : List A) → n ≤ length xs → length (take n xs) ≡ n
length-take zero xs h = refl
length-take (suc n) [] h = absurd (omega (arith, h))
length-take (suc n) (x ∷ xs) h = omega (arith, length-take n xs (omega (arith, h)))

take-length : {A : Type 0} (n : ℕ) (xs : List A) → n ≡ length xs → take n xs ≡ xs
take-length zero [] e = refl
take-length zero (x ∷ xs) e = absurd (omega (arith, e))
take-length (suc n) [] e = absurd (omega (arith, e))
take-length (suc n) (x ∷ xs) e = ap (λ ys. x ∷ ys) (take-length n xs (omega (arith, e)))

-- A difference that is not below zero does not wrap.
sub_usize_lem : (a b : ℕ) → b ≤ a → a < 2 ^ 64 → sub_usize a b ≡ a - b
unfolding sub_usize
sub_usize_lem a b le fits = omega (arith, le, fits)

module _ {S : Type 0} (mgr : SequenceManager S) where
  -- The sequence with its number of KV entries set.
  trim_computed_kv-sets :
      (seq : Sequence) (v : ℕ) (m : S)
      → Ensures (λ x. x.0 ≡ (record seq { num_kv_computed = v })) (trim_computed_kv mgr seq v m)
  unfolding trim_computed_kv
  trim_computed_kv-sets seq v m =
      Ensures-if (seq.num_kv_computed == v)
        (λ same.
          returns (ap (λ (n : ℕ). record seq { num_kv_computed = n }) (ground (arith, same))))
        (λ _.
          Ensures-after (guard (ltb v seq.num_kv_computed) >> mgr.trim m seq.seq_id v)
            λ m'. returns refl)

  -- The tokens that are left after going back, and then the new ones.
  abbrev Spliced : Sequence → ℕ → List ℕ → Sequence → Type 0
  Spliced seq backtrack tokens seq' =
      (seq'.tokens ≡ take (get_len seq - backtrack) seq.tokens ++ tokens)
      × Within seq' (get_len seq - backtrack)

  backtracked-Spliced :
      (seq : Sequence) (backtrack : ℕ) (tokens : List ℕ) (m : S)
      → backtrack ≤ get_len seq
      → get_len seq < 2 ^ 64
      → Ensures
          (λ x. Spliced seq backtrack tokens (append_tokens x.0 tokens))
          (trim_physical_blocks mgr (backtracked mgr seq backtrack) m)
  unfolding backtracked
  backtracked-Spliced seq backtrack tokens m le fits =
      let no_wrap = sub_usize_lem (get_len seq) backtrack le fits in
      let left : length (take (sub_usize (get_len seq) backtrack) seq.tokens)
          ≡ get_len seq - backtrack =
        rw no_wrap (length-take (get_len seq - backtrack) seq.tokens (omega arith)) in
      let seq1 = backtracked mgr seq backtrack in
      Ensures-weaken
        (λ x e. (
          ap (λ (y : Sequence). y.tokens ++ tokens) e ∙ rw no_wrap,
          record {
            kv_within = omega (arith, ap (λ (y : Sequence). y.num_kv_computed) e, left);
            output_within = omega (arith, ap (λ (y : Sequence). y.output_ptr) e, left);
            prompt_within = omega (arith, ap (λ (y : Sequence). y.prompt_len) e, left);
          },
        ))
        (trim_computed_kv-sets seq1 (min seq1.num_kv_computed (get_len seq1)) m)

  splice_tokens-Ensures :
      (seq : Sequence) (backtrack : ℕ) (tokens : List ℕ) (m : S)
      → Within seq (get_len seq)
      → backtrack ≤ get_len seq
      → get_len seq < 2 ^ 64
      → Ensures (λ x. Spliced seq backtrack tokens x.0) (splice_tokens mgr seq backtrack tokens m)
  unfolding splice_tokens
  splice_tokens-Ensures seq backtrack tokens m w le fits =
      Ensures-if (ltb 0 backtrack)
        (λ _. Ensures-bind (backtracked-Spliced seq backtrack tokens m le fits) λ x h. returns h)
        (λ none_back.
          let zero_back : backtrack ≡ 0 = ground (arith, none_back) in
          returns (
            rw zero_back (
              ap (λ (ts : List ℕ). ts ++ tokens)
                  (sym (take-length (get_len seq - 0) seq.tokens (omega arith))),
              record {
                kv_within = omega (arith, w.kv_within);
                output_within = omega (arith, w.output_within);
                prompt_within = omega (arith, w.prompt_within);
              },
            )))

  -- If the KV entries, the output position and the prompt of a sequence lie within its tokens,
  -- which are less than 2 ^ 64 and not fewer than `backtrack`, and `splice_tokens` returns, the
  -- tokens are the first ones without the last `backtrack`, followed by the new tokens, and
  -- these three lie within what was left of the old ones.
  pub splice_tokens-Within :
      (seq seq' : Sequence) (backtrack : ℕ) (tokens : List ℕ) (m m' : S)
      → Within seq (get_len seq)
      → backtrack ≤ get_len seq
      → get_len seq < 2 ^ 64
      → splice_tokens mgr seq backtrack tokens m ≡ some (seq', m')
      → (seq'.tokens ≡ take (get_len seq - backtrack) seq.tokens ++ tokens)
        × Within seq' (get_len seq - backtrack)
  splice_tokens-Within seq seq' backtrack tokens m m' w le fits e =
      Ensures-some (splice_tokens-Ensures seq backtrack tokens m w le fits) e
