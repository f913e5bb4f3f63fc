-- ===== src/Trie/Tok/Build/Words.antt =====
-- The packed offsets and bytes that `TokTrie::from` of controllers/aici_abi/src/toktree.rs makes give
-- each word back.
use aici.Prelude.{
  true, ℕ, zero, suc, ◌+◌, ◌-◌, ◌*◌, ◌/◌, ◌%◌, ◌^◌, ◌<◌, ◌≡◌, refl, sym, ap, ◌∙◌, arith, ◌==◌, leb,
  lt→ltb, le→leb, some, List, [], ◌∷◌, ◌++◌, append-nil, append_assoc, bit_and, length, get_elem?,
  take, drop, length-append, if◌then◌else◌,
}
use aici.Prelude.Bits.{bit_or_comm, bit_or_fields, bit_and_mask}
use aici.Trie.Hash.{insert}
use aici.Trie.Tok.{TokTrie, slice, token}
use aici.Trie.Tok.Build.{Building, desc, add_word, add_words}

-- The words fit: each is shorter than 2 ^ 10, and starts below 2 ^ 22.
abbrev pub Packs : ℕ → List (List ℕ) → Type 0
Packs start [] = Unit {0}
Packs start (w ∷ ws) = (length w < 2 ^ 10) × (start < 2 ^ 22) × Packs (start + length w) ws

abbrev pub descs : ℕ → List (List ℕ) → List ℕ
descs start [] = []
descs start (w ∷ ws) = desc start w ∷ descs (start + length w) ws

abbrev pub bytes_of : List (List ℕ) → List ℕ
bytes_of [] = []
bytes_of (w ∷ ws) = w ++ bytes_of ws

add_word_lem :
    (s : Building) (idx : ℕ) (w : List ℕ)
    → length w < 2 ^ 10
    → length s.token_data < 2 ^ 22
    → (s' : Building) × (add_word s idx w ≡ some s')
      × (s'.token_offsets ≡ s.token_offsets ++ desc (length s.token_data) w ∷ [])
      × (s'.token_data ≡ s.token_data ++ w)
unfolding add_word
add_word_lem s idx w h l = (
  record {
    trie = if length w == 0 then s.trie else insert w (idx % 2 ^ 32) s.trie;
    token_offsets = s.token_offsets ++ desc (length s.token_data) w ∷ [];
    token_data = s.token_data ++ w;
  },
  rw (lt→ltb (length w) (2 ^ 10) h, lt→ltb (length s.token_data) (2 ^ 22) l) refl,
  refl,
  refl,
)

add_words_lem :
    (words : List (List ℕ)) (s : Building) (idx : ℕ)
    → Packs (length s.token_data) words
    → (s' : Building) × (add_words s idx words ≡ some s')
      × (s'.token_offsets ≡ s.token_offsets ++ descs (length s.token_data) words)
      × (s'.token_data ≡ s.token_data ++ bytes_of words)
unfolding add_words
add_words_lem [] s idx h = (s, refl, sym (append-nil _), sym (append-nil _))
add_words_lem (w ∷ ws) s idx h =
    let (s1, e1, o1, d1) = add_word_lem s idx w h.0 h.1 in
    let starts : length s1.token_data ≡ length s.token_data + length w =
      ap length d1 ∙ length-append s.token_data w in
    let (s2, e2, o2, d2) = add_words_lem ws s1 (suc idx) (rw starts h.2) in
    (
      s2,
      rw (e1, e2),
      o2
          ∙ rw (o1, starts)
              (append_assoc s.token_offsets (desc (length s.token_data) w ∷ [])
                (descs (length s.token_data + length w) ws)),
      d2 ∙ rw d1 (append_assoc s.token_data w (bytes_of ws)),
    )

desc_lem :
    (start : ℕ) (w : List ℕ)
    → length w < 2 ^ 10
    → start < 2 ^ 22
    → desc start w ≡ start * 2 ^ 10 + length w
desc_lem start w h l =
    let e : length w % 2 ^ 32 ≡ length w = omega arith in
    let f : start % 2 ^ 32 * 2 ^ 10 % 2 ^ 32 ≡ start * 2 ^ 10 = omega arith in
    rw (e, f, bit_or_comm (length w) (start * 2 ^ 10)) (bit_or_fields 10 start (length w) h)

take-middle : (w post : List ℕ) → take (length w) (w ++ post) ≡ w
take-middle [] post = refl
take-middle (x ∷ w) post = ap (◌∷◌ x) (take-middle w post)

drop-middle : (pre post : List ℕ) → drop (length pre) (pre ++ post) ≡ post
drop-middle [] post = refl
drop-middle (x ∷ pre) post = drop-middle pre post

slice-middle :
    (pre w post : List ℕ) → slice (pre ++ (w ++ post)) (length pre) (length pre + length w) ≡ some w
slice-middle pre w post =
    let low : leb (length pre) (length pre + length w) ≡ true = le→leb _ _ (omega arith) in
    let high : leb (length pre + length w) (length (pre ++ (w ++ post))) ≡ true =
      le→leb _ _ (omega (arith, length-append pre (w ++ post), length-append w post)) in
    let cut : length pre + length w - length pre ≡ length w = omega arith in
    rw (low, high, cut, drop-middle pre (w ++ post)) (ap some (take-middle w post))

-- The token at `i` of the words from `start` on, in the data that holds them after `pre`.
token-descs :
    (words : List (List ℕ)) (pre : List ℕ) (i : ℕ) (w : List ℕ)
    → Packs (length pre) words
    → get_elem? words i ≡ some w
    → (d : ℕ) × (get_elem? (descs (length pre) words) i ≡ some d)
      × (slice (pre ++ bytes_of words) (d / 2 ^ 10) (d / 2 ^ 10 + bit_and d (2 ^ 10 - 1)) ≡ some w)
token-descs [] pre i w h e = absurd (cc e)
token-descs (x ∷ ws) pre zero w h e =
    let same : x ≡ w = cc e in
    let packed = desc_lem (length pre) x h.0 h.1 in
    let start : (length pre * 2 ^ 10 + length x) / 2 ^ 10 ≡ length pre = omega (arith, h.0) in
    let len : bit_and (length pre * 2 ^ 10 + length x) (2 ^ 10 - 1) ≡ length x =
      bit_and_mask 10 (length pre * 2 ^ 10 + length x) ∙ omega (arith, h.0) in
    (
      desc (length pre) x,
      refl,
      rw (packed, start, len) (slice-middle pre x (bytes_of ws) ∙ ap some same),
    )
token-descs (x ∷ ws) pre (suc i) w h e =
    let starts : length (pre ++ x) ≡ length pre + length x = length-append pre x in
    let (d, found, cut) = token-descs ws (pre ++ x) i w (rw starts h.2) e in
    (d, (rw starts at found), (rw (append_assoc pre x (bytes_of ws)) at cut))

-- For words that are shorter than 2 ^ 10 bytes each and start below 2 ^ 22 in the concatenation,
-- the loop of `TokTrie::from` over them, from empty offsets and data, returns, and `token` reads
-- each word back from the packed offsets and the data, whatever the rest of the trie is.
pub token-add_words :
    (words : List (List ℕ)) (empty : Building) (t : TokTrie) (i : ℕ) (w : List ℕ)
    → empty.token_offsets ≡ []
    → empty.token_data ≡ []
    → Packs 0 words
    → get_elem? words i ≡ some w
    → (built : Building) × (add_words empty 0 words ≡ some built)
      × (token (record t { token_offsets = built.token_offsets; token_data = built.token_data }) i
          ≡ some w)
unfolding token
token-add_words words empty t i w no_offsets no_data h e =
    let (built, ok, offsets, bytes) = add_words_lem words empty 0 (rw no_data h) in
    let (d, found, cut) = token-descs words [] i w h e in
    let there : get_elem? built.token_offsets i ≡ some d =
      ap (λ xs. get_elem? xs i) (offsets ∙ rw (no_offsets, no_data) refl) ∙ found in
    let whole : built.token_data ≡ bytes_of words = bytes ∙ rw no_data refl in
    (built, ok, rw (there, whole) cut)
