-- ===== src/Derivre/Language/Cat.antt =====
-- The laws of concatenation.
use mathlib.Core.Path.{fun_ext}
use aici.Prelude.{
  ℕ, ◌≡◌, refl, sym, ◌∙◌, ap, arith, Bool, true, false, ◌&&◌, ◌||◌, Bool-cases, inl, inr, List, [],
  ◌∷◌, ◌++◌,
}
use aici.Derivre.Language.{Lang, nothing, eps, after_byte, one_byte, cat, cat_all, either}

pub bool_ext : (a b : Bool) → (a ≡ true → b ≡ true) → (b ≡ true → a ≡ true) → a ≡ b
bool_ext true b f g = sym (f refl)
bool_ext false true f g = g refl
bool_ext false false f g = refl

cat-either : (l m n : Lang) (w : List ℕ) → cat (either l m) n w ≡ (cat l n w || cat m n w)
unfolding cat
cat-either l m n [] = ground arith
cat-either l m n (b ∷ w) = ground (arith, cat-either (after_byte b l) (after_byte b m) n w)

cat-guard : (c : Bool) (l n : Lang) (w : List ℕ) → cat (λ v. c && l v) n w ≡ (c && cat l n w)
unfolding cat
cat-guard c l n [] = ground arith
cat-guard c l n (b ∷ w) = ground (arith, cat-guard c (after_byte b l) n w)

cat_regroup : (l m n : Lang) (w : List ℕ) → cat (cat l m) n w ≡ cat l (cat m n) w
unfolding cat
cat_regroup l m n [] = ground arith
cat_regroup l m n (b ∷ w) = ground (
  arith,
  cat-either (λ v. l [] && m (b ∷ v)) (cat (after_byte b l) m) n w,
  cat-guard (l []) (after_byte b m) n w,
  cat_regroup (after_byte b l) m n w,
)

pub cat_assoc : (l m n : Lang) → cat (cat l m) n ≡ cat l (cat m n)
cat_assoc l m n = fun_ext (cat_regroup l m n)

nothing_left : (m : Lang) (w : List ℕ) → cat nothing m w ≡ false
unfolding cat
nothing_left m [] = refl
nothing_left m (b ∷ w) = nothing_left m w

pub cat-nothing_left : (m : Lang) → cat nothing m ≡ nothing
cat-nothing_left m = fun_ext (nothing_left m)

nothing_right : (l : Lang) (w : List ℕ) → cat l nothing w ≡ false
unfolding cat
nothing_right l [] = ground arith
nothing_right l (b ∷ w) = ground (arith, nothing_right (after_byte b l) w)

pub cat-nothing_right : (l : Lang) → cat l nothing ≡ nothing
cat-nothing_right l = fun_ext (nothing_right l)

blank_left : (m : Lang) (w : List ℕ) → cat eps m w ≡ m w
unfolding cat
blank_left m [] = refl
blank_left m (b ∷ w) = ground (arith, nothing_left m w)

pub cat-eps_left : (m : Lang) → cat eps m ≡ m
cat-eps_left m = fun_ext (blank_left m)

blank_right : (l : Lang) (w : List ℕ) → cat l eps w ≡ l w
unfolding cat
blank_right l [] = ground arith
blank_right l (b ∷ w) = ground (arith, blank_right (after_byte b l) w)

pub cat-eps_right : (l : Lang) → cat l eps ≡ l
cat-eps_right l = fun_ext (blank_right l)

after_byte-one_byte : (p : ℕ → Bool) (b : ℕ) (w : List ℕ) → one_byte p (b ∷ w) ≡ (p b && eps w)
after_byte-one_byte p b [] = ground arith
after_byte-one_byte p b (c ∷ w) = ground arith

pub cat-one_byte :
    (p : ℕ → Bool) (m : Lang) (b : ℕ) (w : List ℕ) → cat (one_byte p) m (b ∷ w) ≡ (p b && m w)
unfolding cat
cat-one_byte p m b w =
    ap (λ l. cat l m w) (fun_ext (after_byte-one_byte p b))
    ∙ cat-guard (p b) eps m w
    ∙ ap (λ x. p b && x) (blank_left m w)

-- Concatenation is over the ways to split the word.
pub record Split (l m : Lang) (w : List ℕ) : Type 0 where
  pub front : List ℕ
  pub back : List ℕ
  pub whole : w ≡ front ++ back
  pub in_front : l front ≡ true
  pub in_back : m back ≡ true

pub cat-Split : (l m : Lang) (w : List ℕ) → cat l m w ≡ true → Split l m w
unfolding cat
cat-Split l m [] e = record {
  front = [];
  back = [];
  whole = refl;
  in_front = ground arith;
  in_back = ground arith;
}
cat-Split l m (b ∷ w) e = elim (Bool-cases (l [] && m (b ∷ w))) [
  | inl here ↦ record {
    front = [];
    back = b ∷ w;
    whole = refl;
    in_front = ground arith;
    in_back = ground arith;
  }
  | inr later ↦
      let s = cat-Split (after_byte b l) m w (ground arith) in
      record {
        front = b ∷ s.front;
        back = s.back;
        whole = ap (◌∷◌ b) s.whole;
        in_front = s.in_front;
        in_back = s.in_back;
      }
]

pub cat-append : (l m : Lang) (u v : List ℕ) → l u ≡ true → m v ≡ true → cat l m (u ++ v) ≡ true
unfolding cat
cat-append l m [] [] p q = ground arith
cat-append l m [] (b ∷ v) p q = ground arith
cat-append l m (b ∷ u) v p q = ground (arith, cat-append (after_byte b l) m u v p q)

pub cat_all-append : (ls ms : List Lang) → cat_all (ls ++ ms) ≡ cat (cat_all ls) (cat_all ms)
cat_all-append [] ms = sym (cat-eps_left (cat_all ms))
cat_all-append (l ∷ ls) ms =
    ap (cat l) (cat_all-append ls ms) ∙ sym (cat_assoc l (cat_all ls) (cat_all ms))

-- Alternatives with a common front.
pub cat-any_of : (l m n : Lang) (w : List ℕ) → cat l (either m n) w ≡ (cat l m w || cat l n w)
unfolding cat
cat-any_of l m n [] = ground arith
cat-any_of l m n (b ∷ w) = ground (arith, cat-any_of (after_byte b l) m n w)
