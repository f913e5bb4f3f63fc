-- ===== src/Seq/Examples.antt =====
-- A sequence of three tokens, of which two have KV entries.
use aici.Prelude.{ℕ, suc, ◌-◌, ◌≡◌, refl, arith, false, some, [], ◌∷◌, ◌++◌, take}
use aici.Seq.{
  Sequence, SequenceManager, running, get_len, splice_tokens, backtracked, sub_usize,
  trim_computed_kv, backtrack_mark,
}
use aici.Seq.Splice.{Within, splice_tokens-Within}

abbrev manager : SequenceManager ℕ
manager = record {
  new_sequence = λ m. (m, suc m);
  copy = λ m src dst n. some m;
  trim = λ m id n. some (suc m);
  delete = λ m id. some m;
}

abbrev mid : Sequence
mid = record {
  seq_id = 4;
  index = 0;
  tokens = 5 ∷ 6 ∷ 7 ∷ [];
  prompt_len = 2;
  output_ptr = 3;
  output_pending = [];
  num_kv_computed = 2;
  has_aici = false;
  sched_phase = running;
}

abbrev spliced : Sequence
spliced = record mid {
  tokens = 5 ∷ 9 ∷ [];
  prompt_len = 1;
  output_ptr = 1;
  output_pending = backtrack_mark;
  num_kv_computed = 1;
}

splice_tokens-mid : splice_tokens manager mid 2 (9 ∷ []) 0 ≡ some (spliced, 1)
unfolding splice_tokens backtracked sub_usize trim_computed_kv
splice_tokens-mid = refl

splice_tokens-Within_example :
    (spliced.tokens ≡ take (get_len mid - 2) mid.tokens ++ (9 ∷ []))
    × Within spliced (get_len mid - 2)
splice_tokens-Within_example =
    splice_tokens-Within manager mid spliced 2 (9 ∷ []) 0 1
      (record { kv_within = omega arith; output_within = omega arith; prompt_within = omega arith })
      (omega arith) (omega arith) splice_tokens-mid
