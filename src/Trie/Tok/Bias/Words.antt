-- ===== src/Trie/Tok/Bias/Words.antt =====
-- Which words the recursion of `Visit` allows: those of the trie that the recognizer accepts.
use aici.Prelude.{
  ℕ, ◌≡◌, ◌≢◌, refl, arith, ◌==◌, Bool, true, false, ◌||◌, Option, none, some, List, [], ◌∷◌, ◌++◌,
  Option-cases, inl, inr, ◌⊎◌,
}
use aici.Trie.Node.{no_token}
use aici.Trie.Hash.{Children, node, nil, cons}
use aici.Trie.Hash.Spells.{Spells, here, down, aside}
use aici.Trie.Tok.Bias.Visit.{or_default, visit, visit_children}
use aici.Trie.Tok.Bias.Mask.{contains}

contains-append :
    (ts us : List ℕ) (j : ℕ) → contains (ts ++ us) j ≡ (contains ts j || contains us j)
contains-append [] us j = refl
contains-append (t ∷ ts) us j = ground (arith, contains-append ts us j)

or_split : (p q : Bool) → (p || q) ≡ true → (p ≡ true) ⊎ (q ≡ true)
or_split true q e = inl refl
or_split false q e = inr e

module _ {A : Type 0} (next : A → ℕ → Option A) where
  abbrev pub accepts_from : Option A → (A → Bool) → Bool
  accepts_from none f = false
  accepts_from (some a) f = f a

  -- All bytes of the word are allowed, one after the other.
  abbrev pub accepts : A → List ℕ → Bool
  accepts a [] = true
  accepts a (b ∷ w) = accepts_from (next a b) (λ a'. accepts a' w)

  -- There is an accepted word of the trie with the token.
  pub record HasWord (ch : Children) (a : A) (j : ℕ) : Type 0 where
    pub word : List ℕ
    pub spelled : Spells ch word j
    pub accepted : accepts a word ≡ true
    pub real : j ≢ no_token

  module _ (defl j : ℕ) (other : j ≢ defl) where
    or_default_eq : (t : ℕ) → (or_default defl t == j) ≡ true → (j ≡ t) × (j ≢ no_token)
    or_default_eq t e = ground arith

    -- Of a child whose byte is allowed, either its own token is met or one below it.
    first-HasWord :
        (t b : ℕ) (ch cs : Children) (a a' : A)
        → next a b ≡ some a'
        → ((j ≡ t) × (j ≢ no_token)) ⊎ HasWord ch a' j
        → HasWord (cons (node t b ch) cs) a j
    first-HasWord t b ch cs a a' e (inl (same, real)) = record {
      word = b ∷ [];
      spelled = rw same here;
      accepted = rw e;
      real = real;
    }
    first-HasWord t b ch cs a a' e (inr h) = record {
      word = b ∷ h.word;
      spelled = down h.spelled;
      accepted = rw e h.accepted;
      real = h.real;
    }

    -- A token that the recursion meets belongs to an accepted word.
    pub visit-HasWord :
        (ch : Children) (a : A) → contains (visit_children next defl ch a) j ≡ true → HasWord ch a j
    visit-HasWord nil a e = absurd (ground arith)
    visit-HasWord (cons (node t b ch) cs) a e =
        elim (or_split (contains (visit next defl (node t b ch) a) j)
          (contains (visit_children next defl cs a) j) (rw split at e)) [
            | inr rest ↦
                let h = visit-HasWord cs a rest in
                record {
                  word = h.word;
                  spelled = aside h.spelled;
                  accepted = h.accepted;
                  real = h.real;
                }
            | inl first ↦ elim (Option-cases (next a b)) [
              | inl no_step ↦ absurd (cc (rw no_step at first))
              | inr (a', step) ↦
                  first-HasWord t b ch cs a a' step
                    (elim (or_split (or_default defl t == j)
                      (contains (visit_children next defl ch a') j) (rw step at first)) [
                        | inl own ↦ inl (or_default_eq t own)
                        | inr lower ↦ inr (visit-HasWord ch a' lower)
                      ])
            ]
          ]
      where
        split : contains (visit_children next defl (cons (node t b ch) cs) a) j ≡ (
            contains (visit next defl (node t b ch) a) j
            || contains (visit_children next defl cs a) j)
        split = contains-append (visit next defl (node t b ch) a) (visit_children next defl cs a) j

  -- The recursion meets the token of every accepted word.
  pub Spells-visit :
      (defl : ℕ) (a : A) {ch : Children} {w : List ℕ} {j : ℕ}
      → Spells ch w j
      → j ≢ no_token
      → accepts a w ≡ true
      → contains (visit_children next defl ch a) j ≡ true
  Spells-visit defl a (here {t = t} {b = b} {ch = ch} {cs = cs}) ne h =
      elim (Option-cases (next a b)) [
        | inl no_step ↦ absurd (cc (rw no_step at h))
        | inr (a', step) ↦ rw step (ground arith)
      ]
  Spells-visit defl a (down {t = t} {b = b} {j = j} {ch = ch} {cs = cs} s) ne h =
      elim (Option-cases (next a b)) [
        | inl no_step ↦ absurd (cc (rw no_step at h))
        | inr (a', step) ↦
            rw
              (
                contains-append (visit next defl (node t b ch) a) (visit_children next defl cs a) j,
                step,
                Spells-visit defl a' s ne (rw step at h),
              )
              (ground arith)
      ]
  Spells-visit defl a (aside {c = c} {cs = cs} {j = j} s) ne h =
      rw
        (
          contains-append (visit next defl c a) (visit_children next defl cs a) j,
          Spells-visit defl a s ne h,
        )
        (ground arith)
