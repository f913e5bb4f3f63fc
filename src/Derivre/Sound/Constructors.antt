-- ===== src/Derivre/Sound/Constructors.antt =====
-- The constructors of controllers/derivre/src/simplify.rs on a set that `ExprSet::new` began.
use aici.Prelude.{ℕ, ◌≤◌, ◌<◌, ◌^◌, List}
use aici.Prelude.Results.{Ensures}
use aici.Derivre.Ast.{ExprSet}
use aici.Derivre.Ast.Overflow.{Grows}
use aici.Derivre.Simplify.{mk_concat, mk_and, mk_repeat, mk_not, mk_lookahead}
use aici.Derivre.Simplify.Prefixes.{mk_or}
use aici.Derivre.Language.{Lang, cat_all, any_of, all_of, outside, first_match}
use aici.Derivre.Language.Rep.{rep}
use aici.Derivre.Denotes.{Denotes, DenotesAll, Ready, alphabet}
use aici.Derivre.Sound.Simple.{mk_repeat-Makes, mk_not-Makes, mk_lookahead-Makes}
use aici.Derivre.Sound.Concat.{mk_concat-Makes}
use aici.Derivre.Sound.And.Result.{mk_and-Makes}
use aici.Derivre.Sound.Trie.{mk_or-Makes}

-- On a set of expressions that `ExprSet::new` began, and arguments that stand for languages,
-- `mk_or`, where it returns, keeps what is in the set and gives an expression for the union of
-- the languages, although it joins byte sets and lookaheads and shares common prefixes.
pub mk_or-Denotes :
    (s : ExprSet) (es : List ℕ) (ls : List Lang)
    → Ready s
    → DenotesAll s es ls
    → Ensures (λ x. Grows s x.1 × Denotes x.1 x.0 (any_of ls)) (mk_or s es)
mk_or-Denotes s es ls r ds = mk_or-Makes s ds r

-- On a set of expressions that `ExprSet::new` began, and arguments that stand for languages,
-- `mk_and`, where it returns, keeps what is in the set and gives an expression for the words
-- over the alphabet that are in all the languages.
pub mk_and-Denotes :
    (s : ExprSet) (es : List ℕ) (ls : List Lang)
    → Ready s
    → DenotesAll s es ls
    → Ensures (λ x. Grows s x.1 × Denotes x.1 x.0 (all_of (alphabet s) ls)) (mk_and s es)
mk_and-Denotes s es ls r ds = mk_and-Makes s ds r

-- On a set of expressions that `ExprSet::new` began, and arguments that stand for languages,
-- `mk_concat`, where it returns, keeps what is in the set and gives an expression for the
-- concatenation of the languages in their order.
pub mk_concat-Denotes :
    (s : ExprSet) (es : List ℕ) (ls : List Lang)
    → Ready s
    → DenotesAll s es ls
    → Ensures (λ x. Grows s x.1 × Denotes x.1 x.0 (cat_all ls)) (mk_concat s es)
mk_concat-Denotes s es ls r ds = mk_concat-Makes s ds r

-- On a set of expressions that `ExprSet::new` began, an argument that stands for a language, and
-- bounds in order and below 2 ^ 32, `mk_repeat`, where it returns, keeps what is in the set and
-- gives an expression for the words that are made of as many words of the language as the bounds
-- say, where the upper bound u32::MAX is none.
pub mk_repeat-Denotes :
    (s : ExprSet) (e lo hi : ℕ) (l : Lang)
    → Ready s
    → Denotes s e l
    → lo ≤ hi
    → hi < 2 ^ 32
    → Ensures (λ x. Grows s x.1 × Denotes x.1 x.0 (rep l lo hi)) (mk_repeat s e lo hi)
mk_repeat-Denotes s e lo hi l r d le small = mk_repeat-Makes s d lo hi le small r

-- On a set of expressions that `ExprSet::new` began, and an argument that stands for a language,
-- `mk_not`, where it returns, keeps what is in the set and gives an expression for the other
-- words over the alphabet.
pub mk_not-Denotes :
    (s : ExprSet) (e : ℕ) (l : Lang)
    → Ready s
    → Denotes s e l
    → Ensures (λ x. Grows s x.1 × Denotes x.1 x.0 (outside (alphabet s) l)) (mk_not s e)
mk_not-Denotes s e l r d = mk_not-Makes s d r

-- P
pub mk_lookahead-Denotes :
    (s : ExprSet) (e offset : ℕ) (l : Lang)
    → Ready s
    → Denotes s e l
    → Ensures (λ x. Grows s x.1 × Denotes x.1 x.0 (first_match l)) (mk_lookahead s e offset)
mk_lookahead-Denotes s e offset l r d = mk_lookahead-Makes s d offset r
