-- ===== src/Derivre/Sound/New.antt =====
-- `ExprSet::new` of controllers/derivre/src/ast.rs.
use mathlib.Core.Path.{subst}
use aici.Prelude.{ℕ, ◌+◌, ◌/◌, ◌≤◌, ◌≡◌, refl, arith, ◌==◌, true, ◌∙◌, some, [], replicate}
use aici.Prelude.Results.{Ensures, returns, Ensures-bind, Ensures-weaken, guard-true}
use aici.Derivre.HashCons.{new as new_store, get as get_vec}
use aici.Derivre.HashCons.Inserting.{IsValid}
use aici.Derivre.HashCons.Laws.{insert-Interned, new-IsValid}
use aici.Derivre.Ast.{
  Expr, ExprSet, empty_string, no_match, byte_set, repeat, u32_max, any_byte_id, mk_at, new,
}
use aici.Derivre.Ast.Encode.{words}
use aici.Derivre.Ast.Overflow.{Grows, mk-Stores}
use aici.Derivre.Simplify.Grows.{Grows-trans}
use aici.Derivre.Denotes.{Ready}

-- The expression is under the id that the assertion names.
abbrev pub AtId : ℕ → Expr → ExprSet → ExprSet → Type 0
AtId id e s t = Grows s t × (get_vec t.exprs id ≡ some (words e))

mk_at-AtId :
    (id : ℕ) (e : Expr) (s : ExprSet) → IsValid s.exprs → Ensures (AtId id e s) (mk_at id e s)
mk_at-AtId id e s v = Ensures-bind (mk-Stores s e v) λ x k.
    Ensures-bind (guard-true (x.0 == id))
      λ _ at_id. let same : x.0 ≡ id = ground arith in returns (k.0, rw (← same) k.1)

pub new-Ready : (n : ℕ) → n ≤ 256 → Ensures Ready (new n)
unfolding new new_store
new-Ready n few =
    let i = insert-Interned new_store [] new-IsValid (omega arith) in
    rw i.2 (
      Ensures-bind (guard-true (i.0 == 0)) λ _ at_zero.
        let s0 : ExprSet = record {
          exprs = i.1;
          alphabet_size = n;
          alphabet_words = (n + 31) / 32;
          cost = 0;
          optimize = true;
        } in
        let zero_id : i.0 ≡ 0 = ground arith in
        let blank : get_vec s0.exprs 0 ≡ some [] =
          subst (λ j. get_vec i.1 j ≡ some []) zero_id i.3.reads in
        Ensures-bind (mk_at-AtId 1 empty_string s0 i.3.valid) λ s1 k1.
          Ensures-bind (mk_at-AtId 2 no_match s1 k1.0.valid) λ s2 k2.
            Ensures-bind (mk_at-AtId 3 (byte_set (replicate ((n + 31) / 32) u32_max)) s2 k2.0.valid)
              λ s3 k3.
                Ensures-bind (mk_at-AtId 4 (repeat 256 any_byte_id 0 u32_max) s3 k3.0.valid)
                  λ s4 k4.
                    Ensures-weaken (λ s5 k5. whole s0 s1 s2 s3 s4 s5 few refl blank k1 k2 k3 k4 k5)
                      (mk_at-AtId 5 (repeat 0 any_byte_id 1 u32_max) s4 k4.0.valid))
  where
    whole :
        (s0 s1 s2 s3 s4 s5 : ExprSet)
        → s0.alphabet_size ≤ 256
        → s0.alphabet_words ≡ (n + 31) / 32
        → get_vec s0.exprs 0 ≡ some []
        → AtId 1 empty_string s0 s1
        → AtId 2 no_match s1 s2
        → AtId 3 (byte_set (replicate ((n + 31) / 32) u32_max)) s2 s3
        → AtId 4 (repeat 256 any_byte_id 0 u32_max) s3 s4
        → AtId 5 (repeat 0 any_byte_id 1 u32_max) s4 s5
        → Ready s5
    whole s0 s1 s2 s3 s4 s5 few room blank k1 k2 k3 k4 k5 =
        let g35 = Grows-trans s3 s4 s5 k4.0 k5.0 in
        let g25 = Grows-trans s2 s3 s5 k3.0 g35 in
        let g15 = Grows-trans s1 s2 s5 k2.0 g25 in
        let g05 = Grows-trans s0 s1 s5 k1.0 g15 in
        let size = g05.same_size in
        let words_same : s5.alphabet_words ≡ (n + 31) / 32 = g05.same_words ∙ room in
        record {
          valid = k5.0.valid;
          few_bytes = omega (arith, few, size);
          blank_at = g05.keeps_words 0 [] blank;
          empty_at = g15.keeps_words 1 _ k1.1;
          nothing_at = g25.keeps_words 2 _ k2.1;
          byte_at = rw words_same (g35.keeps_words 3 _ k3.1);
          any_at = k5.0.keeps_words 4 _ k4.1;
          more_at = k5.1;
        }
