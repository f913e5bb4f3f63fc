-- ===== src/Derivre/Denotes/Within.antt =====
-- The words of the language that an expression stands for are over the alphabet.
use mathlib.Core.Path.{subst}
use aici.Prelude.{
  ℕ, ◌*◌, ◌/◌, ◌<◌, ◌^◌, ◌≡◌, refl, sym, arith, ◌==◌, Bool, true, Option, none, some, List, [], ◌∷◌,
  ◌++◌, length, zero, suc, not, Bool-cases, inl, inr, get_elem?, lt_of_get_elem?, ◌>>=◌, bit_and,
  ◌%◌,
}
use aici.Derivre.Ast.{Expr, ExprSet}
use aici.Derivre.Language.{
  Lang, eps, cat, cat_all, any_of, all_of, first_match, one_byte, letters, after_byte, pow,
}
use aici.Derivre.Language.Cat.{cat-Split}
use aici.Derivre.Language.Rep.{rep-InRep}
use aici.Derivre.Denotes.{
  Denotes, Means, DenotesAll, node, means_empty, means_nothing, means_byte, means_set, means_ahead,
  means_not, means_repeat, means_concat, means_or, means_and, none_denoted, one_denoted, alphabet,
  in_set, holds,
}

letters-append :
    (n : ℕ) (u v : List ℕ) → letters n u ≡ true → letters n v ≡ true → letters n (u ++ v) ≡ true
letters-append n [] v p q = q
letters-append n (b ∷ u) v p q = ground (arith, letters-append n u v)

eps-letters : (n : ℕ) (w : List ℕ) → eps w ≡ true → letters n w ≡ true
eps-letters n [] e = refl
eps-letters n (b ∷ w) e = cc e

one_byte-letters :
    (n : ℕ) (p : ℕ → Bool) (w : List ℕ)
    → ((c : ℕ) → p c ≡ true → c < n)
    → one_byte p w ≡ true
    → letters n w ≡ true
one_byte-letters n p [] h e = refl
one_byte-letters n p (b ∷ []) h e = let lt = h b e in ground (arith, lt)
one_byte-letters n p (b ∷ c ∷ w) h e = cc e

first_match-matches : (l : Lang) (w : List ℕ) → first_match l w ≡ true → l w ≡ true
first_match-matches l [] e = e
first_match-matches l (b ∷ w) e = first_match-matches (after_byte b l) w (ground arith)

-- Only bytes of the alphabet are in its words.
abbrev pub Within : ℕ → Lang → Type 0
Within n l = (w : List ℕ) → l w ≡ true → letters n w ≡ true

cat-Within : (n : ℕ) (l m : Lang) → Within n l → Within n m → Within n (cat l m)
cat-Within n l m f g w e =
    let s = cat-Split l m w e in
    subst (λ v. letters n v ≡ true) (sym s.whole)
      (letters-append n s.front s.back (f s.front s.in_front) (g s.back s.in_back))

pow-Within : (n : ℕ) (l : Lang) → Within n l → (k : ℕ) → Within n (pow l k)
pow-Within n l f zero = eps-letters n
pow-Within n l f (suc k) = cat-Within n l (pow l k) f (pow-Within n l f k)

pub all_of-Within : (n : ℕ) (ls : List Lang) → Within n (all_of n ls)
all_of-Within n [] w e = e
all_of-Within n (l ∷ ls) w e = all_of-Within n ls w (ground arith)

holds-bind :
    (m : Option ℕ) (f : ℕ → Bool) → holds (m >>= λ w. some (f w)) ≡ true → (w : ℕ) × (m ≡ some w)
holds-bind none f e = absurd (cc e)
holds-bind (some w) f e = (w, refl)

pub in_set-lt : (bs : List ℕ) (n c : ℕ) → length bs ≡ n → in_set bs c ≡ true → c < n * 32
in_set-lt bs n c len e =
    let word = get_elem? bs (c / 32) in
    let r = holds-bind word (λ w. not (bit_and w (2 ^ (c % 32)) == 0)) e in
    let there = lt_of_get_elem? bs (c / 32) r.0 r.1 in omega (arith, len)

mutual
  pub Denotes-Within : (s : ExprSet) {id : ℕ} {l : Lang} → Denotes s id l → Within (alphabet s) l
  Denotes-Within s (node e st w n d) = Means-Within s d

  Means-Within : (s : ExprSet) {e : Expr} {l : Lang} → Means s e l → Within (alphabet s) l
  Means-Within s (means_empty p) = rw p (eps-letters (alphabet s))
  Means-Within s (means_nothing p) = rw p λ w e. cc e
  Means-Within s (means_byte b lt p) =
      rw p λ w. one_byte-letters (alphabet s) (λ c. b == c) w λ c e. ground (arith, e, lt)
  Means-Within s (means_set bs len p) =
      rw p λ w. one_byte-letters (alphabet s) (in_set bs) w λ c. in_set-lt bs s.alphabet_words c len
  Means-Within s (means_ahead f e n m d t p) =
      rw p λ w e. Denotes-Within s d w (first_match-matches m w e)
  Means-Within s (means_not f e m d p) = rw p λ w e. ground arith
  Means-Within s (means_repeat f e lo hi m d o a b c p) = rw p λ w q.
      let r = rep-InRep m lo hi w q in pow-Within (alphabet s) m (Denotes-Within s d) r.0 w r.3
  Means-Within s (means_concat f es ms ds p) = rw p (DenotesAll-cat_all s ds)
  Means-Within s (means_or f es ms ds p) = rw p (DenotesAll-any_of s ds)
  Means-Within s (means_and f es ms ds p) = rw p (all_of-Within (alphabet s) ms)

  DenotesAll-cat_all :
      (s : ExprSet) {es : List ℕ} {ls : List Lang}
      → DenotesAll s es ls
      → Within (alphabet s) (cat_all ls)
  DenotesAll-cat_all s none_denoted = eps-letters (alphabet s)
  DenotesAll-cat_all s (one_denoted {l = l} {ls = ls} d ds) =
      cat-Within (alphabet s) l (cat_all ls) (Denotes-Within s d) (DenotesAll-cat_all s ds)

  pub DenotesAll-any_of :
      (s : ExprSet) {es : List ℕ} {ls : List Lang}
      → DenotesAll s es ls
      → Within (alphabet s) (any_of ls)
  DenotesAll-any_of s none_denoted w e = cc e
  DenotesAll-any_of s (one_denoted {l = l} {ls = ls} d ds) w e = elim (Bool-cases (l w)) [
    | inl here ↦ Denotes-Within s d w here
    | inr later ↦ DenotesAll-any_of s ds w (ground arith)
  ]
