-- ===== src/Derivre/Sound/Groups.antt =====
-- The groups of vectors in `trie_rec` of controllers/derivre/src/simplify.rs.
use mathlib.Core.Path.{fun_ext, subst}
use aici.Prelude.{
  ℕ, zero, suc, ◌≡◌, refl, ◌∙◌, ap, arith, true, false, Bool-cases, inl, inr, Option, none, some,
  List, [], ◌∷◌, drop, get_elem?,
}
use aici.Derivre.Ast.{ExprSet}
use aici.Derivre.Ast.Overflow.{Grows}
use aici.Derivre.Simplify.Prefixes.{before_ids, Group, same_key, join_group, groups}
use aici.Derivre.Language.{Lang, eps, cat_all, either, any_of}
use aici.Derivre.Denotes.{DenotesAll, none_denoted}
use aici.Derivre.Denotes.Laws.{DenotesAll-Grows}
use aici.Derivre.Sound.Order.{AllAfter, Sorted}

-- The languages of the vectors past an offset.
pub data Rests (s : ExprSet) (o : ℕ) : List (List ℕ) → List Lang → Type 0 where
  no_rest : Rests s o [] []
  one_rest :
      {v : List ℕ} {ks : List Lang} {vs : List (List ℕ)} {ls : List Lang}
      → DenotesAll s (drop o v) ks
      → Rests s o vs ls
      → Rests s o (v ∷ vs) (cat_all ks ∷ ls)

pub Rests-Grows :
    (s t : ExprSet) {o : ℕ} {vs : List (List ℕ)} {ls : List Lang}
    → Grows s t
    → Rests s o vs ls
    → Rests t o vs ls
Rests-Grows s t g no_rest = no_rest
Rests-Grows s t g (one_rest ds rs) = one_rest (DenotesAll-Grows s t g ds) (Rests-Grows s t g rs)

-- A group whose members have ended stands for the empty word.
abbrev pub Ended : Option ℕ → Lang → Type 0
Ended none l = l ≡ eps
Ended (some id) l = Unit

-- The languages of the groups.
pub data Grouped (s : ExprSet) (o : ℕ) : List Group → List Lang → Type 0 where
  no_group : Grouped s o [] []
  one_group :
      {g : Group} {ls : List Lang} {gs : List Group} {ks : List Lang}
      → Rests s o g.members ls
      → Sorted o g.members
      → Ended g.cur (any_of ls)
      → Grouped s o gs ks
      → Grouped s o (g ∷ gs) (any_of ls ∷ ks)

pub Grouped-Grows :
    (s t : ExprSet) {o : ℕ} {gs : List Group} {ls : List Lang}
    → Grows s t
    → Grouped s o gs ls
    → Grouped t o gs ls
Grouped-Grows s t g no_group = no_group
Grouped-Grows s t g (one_group {g = k} rs sorted ended rest) =
    one_group {g = k} (Rests-Grows s t g rs) sorted ended (Grouped-Grows s t g rest)

abbrev pub AllBehind : ℕ → List ℕ → List Group → Type 0
AllBehind o v [] = Unit
AllBehind o v (g ∷ gs) = AllAfter o v g.members × AllBehind o v gs

join_group-AllBehind :
    (o : ℕ) (cur : Option ℕ) (u v : List ℕ) (gs : List Group)
    → before_ids (drop o v) (drop o u) ≡ false
    → AllBehind o u gs
    → AllBehind o u (join_group cur v gs)
join_group-AllBehind o cur u v [] p all = ((p, tt), tt)
join_group-AllBehind o cur u v (g ∷ gs) p all = elim (Bool-cases (same_key cur g.cur)) [
  | inl alike ↦ rw alike ((p, all.0), all.1)
  | inr other ↦ rw other ((p, tt), all)
]

groups-AllBehind :
    (o : ℕ) (u : List ℕ) (vs : List (List ℕ)) → AllAfter o u vs → AllBehind o u (groups o vs)
groups-AllBehind o u [] all = tt
groups-AllBehind o u (v ∷ vs) all =
    join_group-AllBehind o (get_elem? v o) u v (groups o vs) all.0 (groups-AllBehind o u vs all.1)

drop_ended : (v : List ℕ) (o : ℕ) → get_elem? v o ≡ none → drop o v ≡ []
drop_ended [] zero e = refl
drop_ended [] (suc o) e = refl
drop_ended (x ∷ v) zero e = absurd (cc e)
drop_ended (x ∷ v) (suc o) e = drop_ended v o e

same_key-eq : (a b : Option ℕ) → same_key a b ≡ true → a ≡ b
same_key-eq none none e = refl
same_key-eq none (some y) e = absurd (cc e)
same_key-eq (some x) none e = absurd (cc e)
same_key-eq (some x) (some y) e = ap some (ground arith)

Ended-cat_all :
    (s : ExprSet) (o : ℕ) (v : List ℕ) {ks : List Lang} (cur : Option ℕ)
    → get_elem? v o ≡ cur
    → DenotesAll s (drop o v) ks
    → Ended cur (cat_all ks)
Ended-cat_all s o v (some id) e ds = tt
Ended-cat_all s o v {ks} none e ds = blank (subst (λ es. DenotesAll s es ks) (drop_ended v o e) ds)
  where
    blank : {ks : List Lang} → DenotesAll s [] ks → cat_all ks ≡ eps
    blank none_denoted = refl

Ended-either : (cur : Option ℕ) (l m : Lang) → Ended cur l → Ended cur m → Ended cur (either l m)
Ended-either none l m p q =
    fun_ext λ w. let h = ap (λ k. k w) p in let i = ap (λ k. k w) q in ground (arith, h, i)
Ended-either (some id) l m p q = tt

Ended-single : (cur : Option ℕ) (l : Lang) → Ended cur l → Ended cur (any_of (l ∷ []))
Ended-single none l p = fun_ext λ w. let h = ap (λ k. k w) p in ground (arith, h)
Ended-single (some id) l p = tt

join_group-Grouped :
    (s : ExprSet) (o : ℕ) (v : List ℕ) {ks : List Lang} {gs : List Group} {ls : List Lang}
    → DenotesAll s (drop o v) ks
    → AllBehind o v gs
    → Grouped s o gs ls
    → (ms : List Lang) × Grouped s o (join_group (get_elem? v o) v gs) ms
      × (any_of ms ≡ either (cat_all ks) (any_of ls))
join_group-Grouped s o v {ks} ds all no_group =
    let l = cat_all ks in
    (
      any_of (l ∷ []) ∷ [],
      one_group {g = record { cur = get_elem? v o; members = v ∷ [] }} (one_rest ds no_rest)
          (tt, tt) (Ended-single (get_elem? v o) l (Ended-cat_all s o v (get_elem? v o) refl ds))
          no_group,
      fun_ext λ w. ground arith,
    )
join_group-Grouped s o v {ks} ds all (one_group {g} {ls} {gs} {ks = ms} rs sorted ended rest) =
    let l = cat_all ks in
    elim (Bool-cases (same_key (get_elem? v o) g.cur)) [
      | inl alike ↦
          let same = same_key-eq (get_elem? v o) g.cur alike in
          rw alike (
            any_of (l ∷ ls) ∷ ms,
            one_group {g = record g { members = v ∷ g.members }} (one_rest ds rs) (all.0, sorted)
                (Ended-either g.cur l (any_of ls) (Ended-cat_all s o v g.cur same ds) ended) rest,
            fun_ext λ w. ground arith,
          )
      | inr other ↦ rw other (
        any_of (l ∷ []) ∷ any_of ls ∷ ms,
        one_group {g = record { cur = get_elem? v o; members = v ∷ [] }} (one_rest ds no_rest)
            (tt, tt) (Ended-single (get_elem? v o) l (Ended-cat_all s o v (get_elem? v o) refl ds))
            (one_group {g = g} rs sorted ended rest),
        fun_ext λ w. ground arith,
      )
    ]

pub groups-Grouped :
    (s : ExprSet) (o : ℕ) {vs : List (List ℕ)} {ls : List Lang}
    → Rests s o vs ls
    → Sorted o vs
    → (ms : List Lang) × Grouped s o (groups o vs) ms × (any_of ms ≡ any_of ls)
groups-Grouped s o no_rest sorted = ([], no_group, refl)
groups-Grouped s o (one_rest {v} {ks} {vs} ds rs) sorted =
    let rest = groups-Grouped s o rs sorted.1 in
    let joined = join_group-Grouped s o v ds (groups-AllBehind o v vs sorted.0) rest.1 in
    (joined.0, joined.1, joined.2 ∙ ap (either (cat_all ks)) rest.2)
