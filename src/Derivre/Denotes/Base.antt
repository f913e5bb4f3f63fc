-- ===== src/Derivre/Denotes/Base.antt =====
-- The expressions that `ExprSet::new` of controllers/derivre/src/ast.rs puts first, and what they
-- stand for.
use mathlib.Core.Path.{fun_ext}
use aici.Prelude.{
  ℕ, zero, suc, ◌*◌, ◌/◌, ◌%◌, ◌≤◌, ◌<◌, ◌^◌, ◌≡◌, ◌≢◌, refl, sym, ◌∙◌, ap, arith, ◌==◌, true,
  false, ltb, if◌then◌else◌, not, Bool-cases, inl, inr, none, some, List, [], ◌∷◌, length,
  replicate, length-replicate, get_elem?, bit_and,
}
use aici.Prelude.Bits.{test_bit, test_bit-not, test_bit_zero}
use aici.Vob.Bits.{masked}
use aici.Derivre.Ast.{empty_string, no_match, byte_set, repeat, ExprSet, is_nullable, u32_max}
use aici.Derivre.Ast.Encode.{words}
use aici.Derivre.Ast.Overflow.{Grows}
use aici.Derivre.Language.{Lang, nothing, eps, cat, one_byte, letters, pow, outside}
use aici.Derivre.Language.Cat.{cat-one_byte}
use aici.Derivre.Language.Rep.{rep, rep_ext}
use aici.Derivre.Denotes.{
  Denotes, Ready, node, means_empty, means_nothing, means_set, means_repeat, alphabet, in_set,
}
use aici.Derivre.Denotes.Nodes.{stored_ref, is_nullable-stored}

pub Denotes-is_nullable :
    (s : ExprSet) {id : ℕ} {l : Lang} → Ready s → Denotes s id l → is_nullable s id ≡ some (l [])
Denotes-is_nullable s {id = id} r (node e st w n d) = is_nullable-stored s id e st w r ∙ ap some n

pub Denotes-ref : (s : ExprSet) {id : ℕ} {l : Lang} → Ready s → Denotes s id l → id ≢ 0
Denotes-ref s {id = id} r (node e st w n d) = stored_ref s id e st w r

pub Ready-Grows : (s t : ExprSet) → Grows s t → Ready s → Ready t
Ready-Grows s t g r =
    let few = r.few_bytes in
    let size = g.same_size in
    record {
      valid = g.valid;
      few_bytes = omega (arith, few, size);
      blank_at = g.keeps_words 0 [] r.blank_at;
      empty_at = g.keeps_words 1 (words empty_string) r.empty_at;
      nothing_at = g.keeps_words 2 (words no_match) r.nothing_at;
      byte_at = rw g.same_words (g.keeps_words 3 _ r.byte_at);
      any_at = g.keeps_words 4 _ r.any_at;
      more_at = g.keeps_words 5 _ r.more_at;
    }

pub Denotes-eps : (s : ExprSet) → Ready s → Denotes s 1 eps
Denotes-eps s r = node empty_string r.empty_at tt refl (means_empty refl)

pub Denotes-nothing : (s : ExprSet) → Ready s → Denotes s 2 nothing
Denotes-nothing s r = node no_match r.nothing_at tt refl (means_nothing refl)

all_ones : (k : ℕ) → k < 32 → test_bit u32_max k ≡ true
all_ones k h = test_bit-not 32 k 0 (omega arith) h ∙ ap not (test_bit_zero k)

get_elem?-replicate : (n i w : ℕ) → get_elem? (replicate n w) i ≡ (if ltb i n then some w else none)
get_elem?-replicate zero i w = ground arith
get_elem?-replicate (suc n) zero w = ground arith
get_elem?-replicate (suc n) (suc i) w = ground (arith, get_elem?-replicate n i w)

in_full : (n b : ℕ) → in_set (replicate n u32_max) b ≡ ltb b (n * 32)
in_full n b =
    let room = get_elem?-replicate n (b / 32) u32_max in
    let bit = masked u32_max (b % 32) in
    let one = all_ones (b % 32) (omega arith) in
    let set : not (bit_and u32_max (2 ^ (b % 32)) == 0) ≡ true = bit ∙ one in
    elim (Bool-cases (ltb (b / 32) n)) [
      | inl inside ↦
          let below : ltb b (n * 32) ≡ true = ground (arith, inside) in rw (room, inside, below) set
      | inr outer ↦
          let above : ltb b (n * 32) ≡ false = ground (arith, outer) in rw (room, outer, above) refl
    ]

any_byte : ℕ → Lang
any_byte n = one_byte (λ c. ltb c n)

cat-one_byte_blank : (n k : ℕ) → pow (any_byte n) (suc k) [] ≡ false
unfolding any_byte cat
cat-one_byte_blank n k = refl

pow-letters :
    (n k : ℕ) (w : List ℕ) → pow (any_byte n) k w ≡ true → (letters n w ≡ true) × (length w ≡ k)
unfolding any_byte
pow-letters n zero [] p = (refl, refl)
pow-letters n zero (b ∷ w) p = absurd (cc p)
pow-letters n (suc k) [] p = absurd (cc (p, cat-one_byte_blank n k))
pow-letters n (suc k) (b ∷ w) p =
    let q = cat-one_byte (λ c. ltb c n) (pow (any_byte n) k) b w in
    let r = pow-letters n k w (ground (arith, p, q)) in (ground (arith, p, q, r), omega (arith, r))

letters-pow : (n : ℕ) (w : List ℕ) → letters n w ≡ true → pow (any_byte n) (length w) w ≡ true
unfolding any_byte
letters-pow n [] e = refl
letters-pow n (b ∷ w) e =
    let q = cat-one_byte (λ c. ltb c n) (pow (any_byte n) (length w)) b w in
    ground (arith, e, q, letters-pow n w)

any_of_bytes : (n : ℕ) → rep (any_byte n) 0 u32_max ≡ letters n
any_of_bytes n =
    rep_ext (any_byte n) 0 u32_max (letters n) (λ w (k, above, below, p). (pow-letters n k w p).0)
      λ w e. (length w, omega arith, inr refl, letters-pow n w e)

more_of_bytes : (n : ℕ) → rep (any_byte n) 1 u32_max ≡ outside n eps
more_of_bytes n =
    rep_ext (any_byte n) 1 u32_max (outside n eps) (λ w (k, above, below, p). not_blank k w above p)
      λ w e. (length w, filled w e, inr refl, letters-pow n w (ground arith))
  where
    not_blank : (k : ℕ) (w : List ℕ) → 1 ≤ k → pow (any_byte n) k w ≡ true → outside n eps w ≡ true
    not_blank k [] above p = absurd (let r = pow-letters n k [] p in omega (arith, above, r))
    not_blank k (b ∷ w) above p = let r = pow-letters n k (b ∷ w) p in ground (arith, r)

    filled : (w : List ℕ) → outside n eps w ≡ true → 1 ≤ length w
    filled [] e = absurd (cc e)
    filled (b ∷ w) e = omega arith

Denotes-any_byte : (s : ExprSet) → Ready s → Denotes s 3 (any_byte (alphabet s))
unfolding any_byte
Denotes-any_byte s r =
    node (byte_set (replicate s.alphabet_words u32_max)) r.byte_at tt refl
      (means_set _ (length-replicate s.alphabet_words u32_max) (fun_ext same))
  where
    same :
        (w : List ℕ)
        → one_byte (λ c. ltb c (alphabet s)) w
          ≡ one_byte (in_set (replicate s.alphabet_words u32_max)) w
    same [] = refl
    same (b ∷ []) = sym (in_full s.alphabet_words b)
    same (b ∷ c ∷ w) = refl

pub Denotes-letters : (s : ExprSet) → Ready s → Denotes s 4 (letters (alphabet s))
unfolding any_byte
Denotes-letters s r =
    node (repeat 256 3 0 u32_max) r.any_at (inr refl, λ e. cc e) refl
      (means_repeat 256 3 0 u32_max (any_byte (alphabet s)) (Denotes-any_byte s r) (omega arith)
        (λ e. cc e) (omega arith) (λ e. refl) (sym (any_of_bytes (alphabet s))))

pub Denotes-more : (s : ExprSet) → Ready s → Denotes s 5 (outside (alphabet s) eps)
unfolding any_byte
Denotes-more s r =
    node (repeat 0 3 1 u32_max) r.more_at (inl refl, λ e. cc e) refl
      (means_repeat 0 3 1 u32_max (any_byte (alphabet s)) (Denotes-any_byte s r) (omega arith)
        (λ e. cc e) (omega arith) (λ e. cc e) (sym (more_of_bytes (alphabet s))))
