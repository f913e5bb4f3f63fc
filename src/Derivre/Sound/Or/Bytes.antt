-- ===== src/Derivre/Sound/Or/Bytes.antt =====
-- The byte sets that `mk_or` of controllers/derivre/src/simplify.rs joins.
use mathlib.Core.Path.{fun_ext}
use aici.Prelude.{
  ℕ, ◌≡◌, refl, sym, ◌∙◌, ap, arith, ◌==◌, ltb, Bool, false, ◌||◌, Option, none, some, List, [],
  ◌∷◌, length, length-replicate, replicate,
}
use aici.Prelude.Results.{Ensures, panics, returns, Ensures-bind, Ensures-weaken, Ensures-if}
use aici.Derivre.Ast.{Expr, ExprSet}
use aici.Derivre.Ast.Overflow.{Grows}
use aici.Derivre.Simplify.Union.{
  OrScan, take_bytes, put_bytes, retain_bytes, add_to_sorted, join_bytes,
}
use aici.Derivre.Simplify.Grows.{Grows-refl}
use aici.Derivre.Language.{Lang, one_byte, either, any_of}
use aici.Derivre.Denotes.{
  Denotes, DenotesAll, Means, Ready, none_denoted, one_denoted, means_empty, means_nothing,
  means_byte, means_set, means_ahead, means_not, means_repeat, means_concat, means_or, means_and,
  in_set,
}
use aici.Derivre.Denotes.Laws.{DenotesAll-Grows}
use aici.Derivre.Sound.ByteSet.{mk_byte_set-Makes}
use aici.Derivre.Sound.ByteSet.Union.{
  HasBytes, in_set-replicate, byteset_set-HasBytes, byteset_union-HasBytes,
}
use aici.Derivre.Sound.Or.{get-Denotes, swap_either}

-- The bytes of the language are in the new set.
abbrev pub Taken : Lang → List ℕ → Option (List ℕ) → Type 0
Taken l bs none = Unit
Taken l bs (some bs') =
    (length bs' ≡ length bs) × (either l (one_byte (in_set bs)) ≡ one_byte (in_set bs'))

joins_set :
    {l : Lang} (bs bs' : List ℕ) (q : ℕ → Bool)
    → l ≡ one_byte q
    → HasBytes (length bs) (λ c. in_set bs c || q c) bs'
    → Taken l bs (some bs')
joins_set {l} bs bs' q p h = (h.0, fun_ext same)
  where
    same : (w : List ℕ) → either l (one_byte (in_set bs)) w ≡ one_byte (in_set bs') w
    same [] = let e = ap (λ k. k []) p in ground (arith, e)
    same (b ∷ []) = let e = ap (λ k. k (b ∷ [])) p in let i = h.1 b in ground (arith, e, i)
    same (b ∷ c ∷ w) = let e = ap (λ k. k (b ∷ c ∷ w)) p in ground (arith, e)

take_bytes-Taken :
    (s : ExprSet) (bs : List ℕ) {x : Expr} {l : Lang}
    → length bs ≡ s.alphabet_words
    → Means s x l
    → Ensures (Taken l bs) (take_bytes bs x)
take_bytes-Taken s bs len (means_byte b lt p) =
    Ensures-bind (byteset_set-HasBytes bs b) λ bs' h. returns (joins_set bs bs' (λ c. b == c) p h)
take_bytes-Taken s bs len (means_set cs room p) =
    Ensures-bind (byteset_union-HasBytes bs cs (len ∙ sym room))
      λ bs' h. returns (joins_set bs bs' (in_set cs) p h)
take_bytes-Taken s bs len (means_empty p) = returns tt
take_bytes-Taken s bs len (means_nothing p) = returns tt
take_bytes-Taken s bs len (means_ahead f e2 k m d2 t p) = returns tt
take_bytes-Taken s bs len (means_not f e2 m d2 p) = returns tt
take_bytes-Taken s bs len (means_repeat f e2 lo hi m d2 o a b c p) = returns tt
take_bytes-Taken s bs len (means_concat f es ks ds p) = returns tt
take_bytes-Taken s bs len (means_or f es ks ds p) = returns tt
take_bytes-Taken s bs len (means_and f es ks ds p) = returns tt

module _ (s : ExprSet) where
  -- The arguments that are left and the set have the words of the arguments and the set before.
  abbrev pub Left : List Lang → List ℕ → List ℕ × List ℕ → Type 0
  Left ls bs r =
      (ks : List Lang) × DenotesAll s r.0 ks
      × (length r.1 ≡ s.alphabet_words)
      × (either (any_of ls) (one_byte (in_set bs)) ≡ either (any_of ks) (one_byte (in_set r.1)))

  put_bytes-Left :
      {e : ℕ} {l : Lang} (ls : List Lang) (bs : List ℕ) {next : List ℕ → Option (List ℕ × List ℕ)}
      → length bs ≡ s.alphabet_words
      → Denotes s e l
      → ((cs : List ℕ) → length cs ≡ s.alphabet_words → Ensures (Left ls cs) (next cs))
      → (t : Option (List ℕ)) → Taken l bs t
      → Ensures (Left (l ∷ ls) bs) (put_bytes e t next bs)
  put_bytes-Left {e} {l} ls bs len d rest none t = Ensures-bind (rest bs len) λ x k.
      returns (
        l ∷ k.0,
        one_denoted d k.1,
        k.2,
        fun_ext λ w. let h = ap (λ m. m w) k.3 in ground (arith, h),
      )
  put_bytes-Left {e} {l} ls bs len d rest (some bs') t =
      Ensures-weaken
        (λ x k. (
          k.0,
          k.1,
          k.2,
          fun_ext
              λ w. let h = ap (λ m. m w) k.3 in let i = ap (λ m. m w) t.1 in ground (arith, h, i),
        ))
        (rest bs' (t.0 ∙ len))

  retain_bytes-Left :
      {es : List ℕ} {ls : List Lang}
      → DenotesAll s es ls
      → (bs : List ℕ) → length bs ≡ s.alphabet_words
      → Ensures (Left ls bs) (retain_bytes s es bs)
  unfolding retain_bytes
  retain_bytes-Left none_denoted bs len = returns ([], none_denoted, len, refl)
  retain_bytes-Left (one_denoted {e} {l} {es} {ls} d ds) bs len =
      let read = get-Denotes s d in
      rw read.1 (
        Ensures-bind (take_bytes-Taken s bs len read.2)
          λ t taken. put_bytes-Left ls bs len d (λ cs room. retain_bytes-Left ds cs room) t taken)

  add_to_sorted-DenotesAll :
      {e : ℕ} {l : Lang} {es : List ℕ} {ls : List Lang}
      → Denotes s e l
      → DenotesAll s es ls
      → Ensures
          (λ fs. (ks : List Lang) × DenotesAll s fs ks × (any_of ks ≡ either l (any_of ls)))
          (add_to_sorted es e)
  add_to_sorted-DenotesAll {l = l} d none_denoted =
      returns (l ∷ [], one_denoted d none_denoted, refl)
  add_to_sorted-DenotesAll {e} {l} d (one_denoted {e = x} {l = m} {es} {ls} d2 ds) =
      Ensures-if (x == e) (λ _. panics)
        λ _.
          Ensures-if (ltb e x) (λ _. returns (l ∷ m ∷ ls, one_denoted d (one_denoted d2 ds), refl))
            λ _. Ensures-bind (add_to_sorted-DenotesAll d ds) λ fs k.
              returns (m ∷ k.0, one_denoted d2 k.1, ap (either m) k.2 ∙ swap_either m l (any_of ls))

-- The set has grown, and the arguments have the same words.
abbrev pub Joined : ExprSet → List Lang → List ℕ × ExprSet → Type 0
Joined s ls x = Grows s x.1 × ((ks : List Lang) × DenotesAll x.1 x.0 ks × (any_of ks ≡ any_of ls))

pub join_bytes-Joined :
    (s : ExprSet) {ls : List Lang} (x : OrScan)
    → Ready s
    → DenotesAll s x.kept ls
    → Ensures (Joined s ls) (join_bytes s x)
join_bytes-Joined s {ls} x r ds =
    Ensures-if (ltb 1 x.num_bytes)
      (λ _.
        Ensures-bind
          (retain_bytes-Left s ds (replicate s.alphabet_words 0)
            (length-replicate s.alphabet_words 0))
          λ left k. Ensures-bind (mk_byte_set-Makes s left.1 r) λ made h.
            Ensures-bind (add_to_sorted-DenotesAll made.1 h.1 (DenotesAll-Grows s made.1 h.0 k.1))
              λ es' q. returns (h.0, (q.0, q.1, q.2 ∙ all_words left.1 k.0 k.3)))
      λ _. returns (Grows-refl s r.valid, (ls, ds, refl))
  where
    all_words :
        (bs : List ℕ) (ks : List Lang)
        → either (any_of ls) (one_byte (in_set (replicate s.alphabet_words 0)))
          ≡ either (any_of ks) (one_byte (in_set bs))
        → either (one_byte (in_set bs)) (any_of ks) ≡ any_of ls
    all_words bs ks same =
        fun_ext λ w. let h = ap (λ m. m w) same in let z = no_bytes w in ground (arith, h, z)
      where
        no_bytes : (w : List ℕ) → one_byte (in_set (replicate s.alphabet_words 0)) w ≡ false
        no_bytes [] = refl
        no_bytes (b ∷ []) = in_set-replicate s.alphabet_words b
        no_bytes (b ∷ c ∷ w) = refl
