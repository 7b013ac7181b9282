-- ===== src/Classfile/Pool/Again.antt =====
-- A constant that is interned a second time gets the index that it has.
use mocha.Prelude.{
  Bool-cases, List, Option, [], arith, false, inl, inr, ltb, none, refl, some, ℕ, ◌∷◌, ◌≡◌, ◌≢◌,
}
use mocha.Classfile.Pool.{
  M, PoolBuilder, PoolError, add, fail, find, intern_at, intern_class, intern_double, intern_float,
  intern_int, intern_long, intern_method_type, intern_name_and_type, intern_string, intern_utf8,
  member_ref, new_pool_builder, remember, utf8_at, utf8_entry, utf8_too_long,
}
use mocha.Classfile.Pool.Interning.{intern_key, intern_key_lem}
use mocha.Classfile.Pool.Keys.{Key, utf8}
use mocha.Classfile.Pool.Remember.{find_same}
use mocha.Classfile.Pool.Rules.{Inv, Step, Step-refl, Step-trans}
use mocha.Jvm.Mutf8.{encoded_len}

pub new-Inv : Inv new_pool_builder
unfolding new_pool_builder
new-Inv = record { nonempty = omega arith; bounded = omega arith; entries = λ e. tt }

remember-found :
    (k : Key) (r : ℕ × PoolBuilder) → find k (remember k r).1.map ≡ some (remember k r).0
unfolding remember
remember-found k (i, q) = find_same k k i q.map refl

intern_at-found :
    (k : Key) (build : M) (p : PoolBuilder) (o : Option ℕ)
    → find k p.map ≡ o
    → find k (intern_at o k build p).1.map ≡ some (intern_at o k build p).0
unfolding intern_at
intern_at-found k build p none e = remember-found k (build p)
intern_at-found k build p (some i) e = e

fail-ne-none : (x : PoolError) (p : PoolBuilder) → (fail x p).1.err ≢ none
unfolding fail
fail-ne-none x p = λ e. ground arith

utf8_at-found :
    (s : List ℕ) (p : PoolBuilder) (o : Option ℕ)
    → find (utf8 s) p.map ≡ o
    → (utf8_at o s p).1.err ≡ none
    → find (utf8 s) (utf8_at o s p).1.map ≡ some (utf8_at o s p).0
unfolding utf8_at
utf8_at-found s p none e clean = elim (Bool-cases (ltb 65535 (encoded_len s))) [
  | inl over ↦ absurd (fail-ne-none utf8_too_long p (rw over at clean))
  | inr fits ↦ rw fits (remember-found (utf8 s) (add (utf8_entry s) false p))
]
utf8_at-found s p (some i) e clean = e

-- What was interned without an error is remembered.
intern_key-found :
    (k : Key) (p : PoolBuilder)
    → (intern_key k p).1.err ≡ none
    → find k (intern_key k p).1.map ≡ some (intern_key k p).0
unfolding intern_utf8 intern_class intern_string intern_method_type intern_name_and_type member_ref
    intern_int intern_long intern_float intern_double
intern_key-found (utf8 s) p clean = utf8_at-found s p (find (utf8 s) p.map) refl clean
intern_key-found k p clean = intern_at-found k _ p (find k p.map) refl

-- What is remembered is returned, and nothing changes.
intern_key-known :
    (k : Key) (p : PoolBuilder) (i : ℕ) → find k p.map ≡ some i → intern_key k p ≡ (i, p)
unfolding intern_utf8 intern_class intern_string intern_method_type intern_name_and_type member_ref
    intern_int intern_long intern_float intern_double
intern_key-known (utf8 s) p i e = rw e
intern_key-known k p i e = rw e

-- A run of the builder.
abbrev pub intern_all : List Key → PoolBuilder → PoolBuilder
intern_all [] p = p
intern_all (k ∷ ks) p = intern_all ks (intern_key k p).1

pub intern_all_lem :
    (ks : List Key) (p : PoolBuilder) → Inv p → Step p (intern_all ks p) × Inv (intern_all ks p)
intern_all_lem [] p v = (Step-refl p, v)
intern_all_lem (k ∷ ks) p v =
    let (step, valid, holds) = intern_key_lem k p v in
    let (steps, valids) = intern_all_lem ks (intern_key k p).1 valid in
    (Step-trans step steps, valids)

-- A constant that was interned without an error gets the same index whenever it is interned again,
-- whatever was interned in between, and the builder is left as it is. This is so even if an
-- interning in between failed.
pub intern_again :
    (k : Key) (ks : List Key) (p : PoolBuilder)
    → Inv p
    → (intern_key k p).1.err ≡ none
    → let q : PoolBuilder = intern_all ks (intern_key k p).1 in
      intern_key k q ≡ ((intern_key k p).0, q)
intern_again k ks p v clean =
    let (step, valid, holds) = intern_key_lem k p v in
    let (steps, valids) = intern_all_lem ks (intern_key k p).1 valid in
    intern_key-known k (intern_all ks (intern_key k p).1) (intern_key k p).0
      (steps.kept k (intern_key k p).0 (intern_key-found k p clean))
