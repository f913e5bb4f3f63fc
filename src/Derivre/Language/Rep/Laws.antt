-- ===== src/Derivre/Language/Rep/Laws.antt =====
-- Repetitions that need no expression of their own, and what follows a byte in a repetition.
use mathlib.Core.Path.{fun_ext, subst}
use aici.Prelude.{
  ℕ, zero, suc, ◌-◌, ◌≤◌, ◌<◌, ◌^◌, ◌≡◌, ◌≢◌, refl, sym, ◌∙◌, ap, arith, ◌==◌, leb, true,
  Bool-cases, ◌⊎◌, inl, inr, List, [], ◌∷◌, ◌++◌, if◌then◌else◌,
}
use aici.Derivre.Language.{Lang, nothing, eps, after_byte, cat, pow, AtMost, InRep}
use aici.Derivre.Language.Cat.{
  bool_ext, cat-Split, cat-append, cat-nothing_left, cat-eps_left, cat-eps_right,
}
use aici.Derivre.Language.Rep.{pow_grows, pow_at, rep, rep-intro, rep-InRep, rep_ext}

pow-eps : (n : ℕ) → pow eps n ≡ eps
pow-eps zero = refl
pow-eps (suc n) = cat-eps_left (pow eps n) ∙ pow-eps n

pub rep-eps : (lo hi : ℕ) → lo ≤ hi → rep eps lo hi ≡ eps
rep-eps lo hi le =
    rep_ext eps lo hi eps (λ w (n, above, below, p). subst (λ l. l w ≡ true) (pow-eps n) p)
      λ w e. (lo, omega arith, inl le, subst (λ l. l w ≡ true) (sym (pow-eps lo)) e)

pub rep-nothing_zero : (hi : ℕ) → rep nothing 0 hi ≡ eps
rep-nothing_zero hi =
    rep_ext nothing 0 hi eps (λ w (n, above, below, p). only_blank n w p)
      λ w e. (0, omega arith, inl (omega arith), e)
  where
    only_blank : (n : ℕ) (w : List ℕ) → pow nothing n w ≡ true → eps w ≡ true
    only_blank zero w p = p
    only_blank (suc n) w p = absurd (cc (p, ap (λ l. l w) (cat-nothing_left (pow nothing n))))

pub rep-nothing_more : (lo hi : ℕ) → lo ≢ 0 → rep nothing lo hi ≡ nothing
rep-nothing_more lo hi more =
    rep_ext nothing lo hi nothing (λ w (n, above, below, p). none_there n w above p) λ w e. cc e
  where
    none_there : (n : ℕ) (w : List ℕ) → lo ≤ n → pow nothing n w ≡ true → nothing w ≡ true
    none_there zero w above p = absurd (more (omega arith))
    none_there (suc n) w above p = absurd (cc (p, ap (λ l. l w) (cat-nothing_left (pow nothing n))))

pub rep_none : (l : Lang) → rep l 0 0 ≡ eps
rep_none l =
    rep_ext l 0 0 eps (λ w (n, above, below, p). pow_at l n 0 w (at_zero n below) p)
      λ w e. (0, omega arith, inl (omega arith), e)
  where
    at_zero : (n : ℕ) → AtMost n 0 → n ≡ 0
    at_zero n (inl le) = omega arith
    at_zero n (inr top) = absurd (omega arith)

pub rep_once : (l : Lang) → rep l 1 1 ≡ l
rep_once l =
    rep_ext l 1 1 l
      (λ w (n, above, below, p).
        subst (λ m. m w ≡ true) (cat-eps_right l) (pow_at l n 1 w (at_one n above below) p))
      λ w e. (1, omega arith, inl (omega arith), subst (λ m. m w ≡ true) (sym (cat-eps_right l)) e)
  where
    at_one : (n : ℕ) → 1 ≤ n → AtMost n 1 → n ≡ 1
    at_one n above (inl le) = omega arith
    at_one n above (inr top) = absurd (omega arith)

-- The empty word fills up the powers below the bound.
pub rep_from_zero : (l : Lang) (lo hi : ℕ) → lo ≤ hi → l [] ≡ true → rep l 0 hi ≡ rep l lo hi
rep_from_zero l lo hi le e =
    rep_ext l 0 hi (rep l lo hi)
      (λ w (n, above, below, p). rep-intro l lo hi w (filled n w below p))
      λ w q. let r = rep-InRep l lo hi w q in (r.0, omega arith, r.2, r.3)
  where
    filled : (n : ℕ) (w : List ℕ) → AtMost n hi → pow l n w ≡ true → InRep l lo hi w
    filled n w below p = elim (Bool-cases (leb lo n)) [
      | inl enough ↦ (n, ground arith, below, p)
      | inr few ↦ (lo, omega arith, inl le, pow_grows l n lo w e (ground arith) p)
    ]

pow-blank : (l : Lang) (n : ℕ) → n ≢ 0 → pow l n [] ≡ true → l [] ≡ true
unfolding cat
pow-blank l zero more p = absurd (more refl)
pow-blank l (suc n) more p = ground arith

pub rep-blank : (l : Lang) (lo hi : ℕ) → (l [] ≡ true → lo ≡ 0) → rep l lo hi [] ≡ (lo == 0)
rep-blank l lo hi tight =
    bool_ext (rep l lo hi []) (lo == 0)
      (λ e.
        let r = rep-InRep l lo hi [] e in
        elim (Bool-cases (lo == 0)) [
          | inl z ↦ z
          | inr p ↦
              let z = tight (pow-blank l r.0 (let a = r.1 in ground (arith, a, p)) r.3) in
              ground (arith, z)
        ])
      λ z. rep-intro l lo hi [] (0, ground (arith, z), inl (omega arith), refl)

pow_front :
    (l : Lang) (n b : ℕ) (w : List ℕ)
    → pow l n (b ∷ w) ≡ true
    → (m : ℕ) × (m < n) × ((suc m ≡ n) ⊎ (l [] ≡ true)) × (cat (after_byte b l) (pow l m) w ≡ true)
unfolding cat
pow_front l zero b w p = absurd (cc p)
pow_front l (suc n) b w p = elim (Bool-cases (cat (after_byte b l) (pow l n) w)) [
  | inl here ↦ (n, omega arith, inl refl, here)
  | inr later ↦
      let r = pow_front l n b w (ground arith) in (r.0, omega arith, inr (ground arith), r.3)
]

-- The bound that is left for the rest.
abbrev pub less_one : ℕ → ℕ
less_one hi = if hi == 4294967295 then 4294967295 else hi - 1

less_one-AtMost : (n hi : ℕ) → AtMost (suc n) hi → AtMost n (less_one hi)
less_one-AtMost n hi below = elim (Bool-cases (hi == 4294967295)) [
  | inl top ↦ inr (rw top refl)
  | inr bound ↦ inl (rw bound (elim below [ inl le ↦ omega arith | inr top ↦ ground arith ]))
]

AtMost-less_one : (n hi : ℕ) → hi ≢ 0 → hi < 2 ^ 32 → AtMost n (less_one hi) → AtMost (suc n) hi
AtMost-less_one n hi pos small below = elim (Bool-cases (hi == 4294967295)) [
  | inl top ↦ inr (ground arith)
  | inr bound ↦
      let le : n ≤ hi - 1 = elim below [ inl le ↦ ground arith | inr top ↦ ground arith ] in
      inl (omega (arith, le, pos))
]

pub after_byte-rep :
    (l : Lang) (lo hi b : ℕ)
    → hi ≢ 0
    → hi < 2 ^ 32
    → (l [] ≡ true → lo ≡ 0)
    → after_byte b (rep l lo hi) ≡ cat (after_byte b l) (rep l (lo - 1) (less_one hi))
after_byte-rep l lo hi b pos small tight = fun_ext λ w.
    bool_ext (rep l lo hi (b ∷ w)) (cat (after_byte b l) (rep l (lo - 1) (less_one hi)) w) (split w)
      (join w)
  where
    bounded :
        (n m : ℕ)
        → m < n
        → (suc m ≡ n) ⊎ (l [] ≡ true)
        → lo ≤ n
        → AtMost n hi
        → (lo - 1 ≤ m) × AtMost m (less_one hi)
    bounded n m lt which above below = (
      elim which [
        | inl last ↦ omega (arith, last, above)
        | inr blank ↦ let z = tight blank in omega (arith, z)
      ],
      less_one-AtMost m hi (elim below [ inl le ↦ inl (omega arith) | inr top ↦ inr top ]),
    )

    split :
        (w : List ℕ)
        → rep l lo hi (b ∷ w) ≡ true
        → cat (after_byte b l) (rep l (lo - 1) (less_one hi)) w ≡ true
    split w e =
        let r = rep-InRep l lo hi (b ∷ w) e in
        let f = pow_front l r.0 b w r.3 in
        let s = cat-Split (after_byte b l) (pow l f.0) w f.3 in
        let k = bounded r.0 f.0 f.1 f.2 r.1 r.2 in
        let back = rep-intro l (lo - 1) (less_one hi) s.back (f.0, k.0, k.1, s.in_back) in
        subst (λ v. cat (after_byte b l) (rep l (lo - 1) (less_one hi)) v ≡ true) (sym s.whole)
          (cat-append (after_byte b l) (rep l (lo - 1) (less_one hi)) s.front s.back s.in_front
            back)

    join :
        (w : List ℕ)
        → cat (after_byte b l) (rep l (lo - 1) (less_one hi)) w ≡ true
        → rep l lo hi (b ∷ w) ≡ true
    join w e =
        let s = cat-Split (after_byte b l) (rep l (lo - 1) (less_one hi)) w e in
        let r = rep-InRep l (lo - 1) (less_one hi) s.back s.in_back in
        let more = r.1 in
        subst (λ v. rep l lo hi (b ∷ v) ≡ true) (sym s.whole)
          (rep-intro l lo hi (b ∷ (s.front ++ s.back)) (
            suc r.0,
            omega (arith, more),
            AtMost-less_one r.0 hi pos small r.2,
            cat-append l (pow l r.0) (b ∷ s.front) s.back s.in_front r.3,
          ))
