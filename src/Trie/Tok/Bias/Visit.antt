-- ===== src/Trie/Tok/Bias/Visit.antt =====
-- What a recognizer allows in a trie, by recursion on the tree: the reference for the walk over the
-- array of nodes in controllers/aici_abi/src/toktree.rs.
use aici.Prelude.{
  ℕ, suc, ◌≡◌, refl, arith, ◌==◌, Option, none, some, List, [], ◌∷◌, ◌++◌, max, if◌then◌else◌,
  ◌>>=◌, Option-cases, inl, inr,
}
use aici.Prelude.Loops.{for_each}
use aici.Trie.Node.{no_token}
use aici.Trie.Hash.{TrieHash, Children, node, nil, cons}
use aici.Vob.{SimpleVob, allow_token}

abbrev mutual
  pub depth : TrieHash → ℕ
  depth (node t b ch) = suc (depth_children ch)

  pub depth_children : Children → ℕ
  depth_children nil = 0
  depth_children (cons c cs) = max (depth c) (depth_children cs)

-- The token that is allowed at a node: the default one where no word ends.
abbrev pub or_default : ℕ → ℕ → ℕ
or_default defl t = if t == no_token then defl else t

abbrev pub if_allowed : {A : Type 0} → Option A → (A → List ℕ) → List ℕ
if_allowed none f = []
if_allowed (some a) f = f a

module _ {A : Type 0} (next : A → ℕ → Option A) (defl : ℕ) where
  -- The tokens met at the nodes whose bytes are allowed from state `a`, in the order of the tree.
  abbrev mutual
    pub visit : TrieHash → A → List ℕ
    visit (node t b ch) a = if_allowed (next a b) (λ a'. or_default defl t ∷ visit_children ch a')

    pub visit_children : Children → A → List ℕ
    visit_children nil a = []
    visit_children (cons c cs) a = visit c a ++ visit_children cs a

abbrev pub allow_all : List ℕ → SimpleVob → Option SimpleVob
allow_all ts v = for_each ts (λ tok s. allow_token s tok) v

pub allow_all-append :
    (ts us : List ℕ) (v : SimpleVob) → allow_all (ts ++ us) v ≡ (allow_all ts v >>= allow_all us)
allow_all-append [] us v = refl
allow_all-append (t ∷ ts) us v = elim (Option-cases (allow_token v t)) [
  | inl e ↦ rw e
  | inr (s, e) ↦ rw e (allow_all-append ts us s)
]

pub Option-split :
    {A B : Type 0} (o : Option A) (f : A → Option B) (b : B)
    → (o >>= f) ≡ some b
    → (a : A) × (o ≡ some a) × (f a ≡ some b)
Option-split none f b e = absurd (ground arith)
Option-split (some a) f b e = (a, refl, e)
