-- ===== src/Derivre/Examples.antt =====
-- A small alphabet.
use aici.Prelude.{
  ◌+◌, ◌⊎◌, ℕ, ◌≡◌, refl, arith, true, none, some, Option, [], ◌∷◌, replicate, ◌>>=◌, inr,
}
use aici.Prelude.Results.{Ensures, Ensures-some}
use aici.Derivre.HashCons.{
  VecHashCons, start_insert, ensure_size, push_u32, push_slice, entry, finish_insert, insert, write,
  new as new_store,
}
use aici.Derivre.HashCons.Inserting.{IsValid}
use aici.Derivre.HashCons.Laws.{Interned, insert-Interned, new-IsValid}
use aici.Derivre.Ast.{
  ExprSet, is_nullable, get_tag, byte, repeat, u32_max, from_slice, serialize, mk, new, get,
}
use aici.Derivre.Ast.Store.{Added, mk-Added}
use aici.Derivre.Sound.New.{new-Ready}
use aici.Derivre.Sound.Constructors.{
  mk_or-Denotes, mk_and-Denotes, mk_concat-Denotes, mk_repeat-Denotes, mk_not-Denotes,
}
use aici.Derivre.Sound.Walk.{derivatives, derivatives-is_nullable, AllBelow}
use aici.Derivre.Sound.Rounds.Ends.{Panics}
use aici.Derivre.Sound.Rounds.Enough.{derivative-returns}
use aici.Derivre.Language.{after_byte, eps, cat_all, any_of, all_of, outside}
use aici.Derivre.Language.Rep.{rep}
use aici.Derivre.Denotes.{Denotes, DenotesAll, Ready, none_denoted, one_denoted, alphabet}
use aici.Derivre.Denotes.Base.{Denotes-eps, Denotes-more}
use aici.Derivre.Simplify.{
  mk_concat, mk_and, mk_repeat, mk_not, get_args, flatten_rest, flatten_tag,
}
use aici.Derivre.Simplify.Prefixes.{mk_or}
use aici.Derivre.Deriv.{DerivCache, map_args, derive, map_loop, derivative}
use aici.Derivre.Ast.Overflow.{Grows, mk-Grows}
use aici.Derivre.Simplify.{mk_byte}
use aici.Derivre.Deriv.Reaches.{here, after, byte_step, get-Reaches}

insert-Interned_example :
    (id : ℕ) × (h' : VecHashCons) × (insert new_store (8 ∷ 9 ∷ []) ≡ some (id, h'))
    × Interned new_store (8 ∷ 9 ∷ []) id h'
unfolding new_store
insert-Interned_example = insert-Interned new_store (8 ∷ 9 ∷ []) new-IsValid (omega arith)

-- The assertions of `ExprSet::new` hold, and its last constant reads as it should.
new-get : (new 40 >>= λ s. get s 5) ≡ some (repeat 0 3 1 u32_max)
unfolding new new_store insert mk start_insert push_slice push_u32 ensure_size finish_insert entry
    serialize get from_slice
new-get = refl

abbrev blank : ExprSet
blank = record {
  exprs = new_store;
  alphabet_size = 40;
  alphabet_words = 2;
  cost = 0;
  optimize = true;
}

mk-Added_example :
    (id : ℕ) × (s' : ExprSet) × (mk blank (repeat 256 3 0 7) ≡ some (id, s'))
    × Added blank (repeat 256 3 0 7) id s'
unfolding new_store
mk-Added_example = mk-Added blank (repeat 256 3 0 7) new-IsValid (inr refl, λ e. cc e) (omega arith)

abbrev one_byte : ExprSet
one_byte = record blank {
  exprs = record {
    backing = write 4 (3 ∷ 5 ∷ []) (replicate 134 0);
    elements = record { backing_start = 4; backing_end = 6 } ∷ [];
    table = 0 ∷ [];
    curr_elt = record { backing_start = 6; backing_end = 0 };
  };
}

mk-one_byte : mk blank (byte 5) ≡ some (0, one_byte)
unfolding new_store mk start_insert push_slice ensure_size finish_insert entry serialize
mk-one_byte = refl

abbrev two_bytes : ExprSet
two_bytes = record blank {
  exprs = record {
    backing = write 6 (3 ∷ 7 ∷ []) (write 4 (3 ∷ 5 ∷ []) (replicate 134 0));
    elements =
        record { backing_start = 4; backing_end = 6 }
        ∷ record { backing_start = 6; backing_end = 8 }
        ∷ [];
    table = 1 ∷ 0 ∷ [];
    curr_elt = record { backing_start = 8; backing_end = 0 };
  };
  cost = 1;
}

mk_byte-two_bytes : mk_byte one_byte 7 ≡ some (1, two_bytes)
unfolding mk_byte mk start_insert push_slice ensure_size finish_insert entry serialize
mk_byte-two_bytes = refl

one_byte-IsValid : IsValid one_byte.exprs
one_byte-IsValid =
    let g : Grows blank one_byte = Ensures-some (mk-Grows blank (byte 5) new-IsValid) mk-one_byte in
    g.valid

get-one_byte : get one_byte 0 ≡ some (byte 5)
unfolding get from_slice
get-one_byte = refl

get-Reaches_example : IsValid two_bytes.exprs × (get two_bytes 0 ≡ some (byte 5))
get-Reaches_example =
    get-Reaches one_byte two_bytes 0 (byte 5) one_byte-IsValid
      (after here (byte_step 7 1 two_bytes mk_byte-two_bytes)) get-one_byte

-- The set that `ExprSet::new` makes for 32 bytes.
abbrev or_blank : Option ExprSet → ExprSet
or_blank none = blank
or_blank (some s) = s

abbrev fresh : ExprSet
fresh = or_blank (new 32)

new-fresh : new 32 ≡ some fresh
unfolding new new_store insert mk start_insert push_slice push_u32 ensure_size finish_insert entry
    serialize
new-fresh = refl

fresh-Ready : Ready fresh
fresh-Ready = Ensures-some (new-Ready 32 (omega arith)) new-fresh

abbrev no_cache : DerivCache
no_cache = record { num_deriv = 0; state_table = [] }

-- A word of one byte is not empty, and the derivative by it returns.
derivatives-fresh :
    (derivatives 10 no_cache fresh 5 (3 ∷ []) >>= λ (d, cache, s). is_nullable s d) ≡ some true
unfolding derivatives derivative map_loop map_args derive get_args flatten_rest flatten_tag
    mk_concat mk_repeat get_tag is_nullable get from_slice mk new new_store insert start_insert
    push_slice push_u32 ensure_size finish_insert entry serialize
derivatives-fresh = refl

three_below : AllBelow (alphabet fresh) (3 ∷ [])
unfolding new new_store insert mk start_insert push_slice push_u32 ensure_size finish_insert entry
    serialize
three_below = (omega arith, tt)

derivatives-is_nullable_example :
    Ensures
      (λ x. is_nullable x.2 x.0 ≡ some (outside (alphabet fresh) eps (3 ∷ [])))
      (derivatives 10 no_cache fresh 5 (3 ∷ []))
derivatives-is_nullable_example =
    derivatives-is_nullable 10 no_cache fresh 5 (3 ∷ []) (outside (alphabet fresh) eps) fresh-Ready
      tt (Denotes-more fresh fresh-Ready) three_below

two_denoted : DenotesAll fresh (5 ∷ 1 ∷ []) (outside (alphabet fresh) eps ∷ eps ∷ [])
two_denoted =
    one_denoted (Denotes-more fresh fresh-Ready)
      (one_denoted (Denotes-eps fresh fresh-Ready) none_denoted)

mk_or-Denotes_example :
    Ensures
      (λ x. Grows fresh x.1 × Denotes x.1 x.0 (any_of (outside (alphabet fresh) eps ∷ eps ∷ [])))
      (mk_or fresh (5 ∷ 1 ∷ []))
mk_or-Denotes_example =
    mk_or-Denotes fresh (5 ∷ 1 ∷ []) (outside (alphabet fresh) eps ∷ eps ∷ []) fresh-Ready
      two_denoted

mk_and-Denotes_example :
    Ensures
      (λ x.
        Grows fresh x.1
        × Denotes x.1 x.0 (all_of (alphabet fresh) (outside (alphabet fresh) eps ∷ eps ∷ [])))
      (mk_and fresh (5 ∷ 1 ∷ []))
mk_and-Denotes_example =
    mk_and-Denotes fresh (5 ∷ 1 ∷ []) (outside (alphabet fresh) eps ∷ eps ∷ []) fresh-Ready
      two_denoted

mk_concat-Denotes_example :
    Ensures
      (λ x. Grows fresh x.1 × Denotes x.1 x.0 (cat_all (outside (alphabet fresh) eps ∷ eps ∷ [])))
      (mk_concat fresh (5 ∷ 1 ∷ []))
mk_concat-Denotes_example =
    mk_concat-Denotes fresh (5 ∷ 1 ∷ []) (outside (alphabet fresh) eps ∷ eps ∷ []) fresh-Ready
      two_denoted

mk_repeat-Denotes_example :
    Ensures
      (λ x. Grows fresh x.1 × Denotes x.1 x.0 (rep (outside (alphabet fresh) eps) 2 3))
      (mk_repeat fresh 5 2 3)
mk_repeat-Denotes_example =
    mk_repeat-Denotes fresh 5 2 3 (outside (alphabet fresh) eps) fresh-Ready
      (Denotes-more fresh fresh-Ready) (omega arith) (omega arith)

mk_not-Denotes_example :
    Ensures
      (λ x.
        Grows fresh x.1 × Denotes x.1 x.0 (outside (alphabet fresh) (outside (alphabet fresh) eps)))
      (mk_not fresh 5)
mk_not-Denotes_example =
    mk_not-Denotes fresh 5 (outside (alphabet fresh) eps) fresh-Ready
      (Denotes-more fresh fresh-Ready)

derivative-returns_example :
    (n : ℕ) × ((k : ℕ)
      → ((x : ℕ × DerivCache × ExprSet) × (derivative (n + k) no_cache fresh 5 3 ≡ some x)
          × Denotes x.2 x.0 (after_byte 3 (outside (alphabet fresh) eps)))
        ⊎ Panics 3 (5 ∷ []) no_cache fresh)
derivative-returns_example =
    derivative-returns no_cache fresh 5 3 (outside (alphabet fresh) eps) fresh-Ready tt
      (Denotes-more fresh fresh-Ready) three_below.0
