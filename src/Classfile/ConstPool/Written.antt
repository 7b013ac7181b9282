-- ===== src/Classfile/ConstPool/Written.antt =====
-- classfile/poolbuilder.go and classfile/constpool.go: a pool that is built, written and read.
use mocha.Prelude.{All, List, [], length, none, refl, some, suc, sym, ℕ, ◌++◌, ◌+◌, ◌∷◌, ◌≡◌, ◌≤◌}
use mocha.Classfile.ConstPool.{ConstPool, read_pool}
use mocha.Classfile.ConstPool.Clear.{IsFaithful}
use mocha.Classfile.ConstPool.Content.{Content, IsSpelled, intern_key-Spells, slots_of}
use mocha.Classfile.ConstPool.Cursor.{cursor}
use mocha.Classfile.ConstPool.Meaning.{IsKey-IsReadable, IsKeyOf, Resolves, known_key}
use mocha.Classfile.ConstPool.Memo.{kept_text-replicate}
use mocha.Classfile.ConstPool.ReadBack.{emit-IsAt, pool_at, read_pool-emit}
use mocha.Classfile.Pool.{PoolBuilder, emit, new_pool_builder}
use mocha.Classfile.Pool.Again.{intern_all, intern_all_lem, new-Inv}
use mocha.Classfile.Pool.Entries.{Denotes, Denotes-append}
use mocha.Classfile.Pool.Interning.{intern_key, intern_key_lem}
use mocha.Classfile.Pool.Keys.{Key}
use mathlib.Core.Path.{subst}

pub new-IsSpelled : (major : ℕ) → IsSpelled major new_pool_builder
unfolding new_pool_builder
new-IsSpelled major = record { contents = []; spelled = refl; sound = tt }

intern_all-IsSpelled :
    (major : ℕ) (ks : List Key) (p : PoolBuilder)
    → All (IsKeyOf major) ks
    → IsSpelled major p
    → IsSpelled major (intern_all ks p)
intern_all-IsSpelled major [] p good v = v
intern_all-IsSpelled major (k ∷ ks) p (good, goods) v =
    intern_all-IsSpelled major ks (intern_key k p).1 goods
      ((intern_key-Spells major k (IsKey-IsReadable major k good)).after p v)

pub pool_at-IsFaithful : (src : List ℕ) (k : ℕ) (cs : List Content) → IsFaithful (pool_at src k cs)
pool_at-IsFaithful src k cs i s e h found =
    cc (kept_text-replicate (suc (length (slots_of cs))) i, h)

-- The bytes of a builder read back as a pool, behind which the reader stops, and in which the index
-- that a constant got resolves to that constant.
pub record ReadsBack (major : ℕ) (q : PoolBuilder) (w rest : List ℕ) (k : Key) (i : ℕ)
    : Type 0 where
  pub pool : ConstPool
  pub read :
      read_pool major (cursor (emit q w ++ rest) (length w))
      ≡ (some pool, cursor (emit q w ++ rest) (length (emit q w)))
  pub faithful : IsFaithful pool
  pub resolves : Resolves major pool k i

-- A pool reads back. Constants `js`, then `k`, then `ks` are interned in a new builder, with no error
-- noted, and the pool is written behind the bytes `w`, with any bytes `rest` behind it. Then a reader
-- that stands behind `w`, in a file of major version 45 or more, reads a pool with no error and stops
-- where `rest` starts; and the index that interning `k` returned resolves in that pool to `k`: a text
-- to its runes, a class, string or method type to its text, a name and type or a member to its
-- parts, and a number to its bits. (The names are Go strings, the numbers fit their types, and there
-- are method types only from version 51 on.)
pub read_pool-Resolves :
    (major : ℕ) (js ks : List Key) (k : Key) (w rest : List ℕ)
    → 45 ≤ major
    → All (IsKeyOf major) js
    → IsKeyOf major k
    → All (IsKeyOf major) ks
    → (intern_all ks (intern_key k (intern_all js new_pool_builder)).1).err ≡ none
    → ReadsBack major
        (intern_all ks (intern_key k (intern_all js new_pool_builder)).1)
        w
        rest
        k
        (intern_key k (intern_all js new_pool_builder)).0
read_pool-Resolves major js ks k w rest new_enough gj gk gks clean =
    let p = intern_all js new_pool_builder in
    let (_, valid) = intern_all_lem js new_pool_builder new-Inv in
    let (_, valid', holds) = intern_key_lem k p valid in
    let i = (intern_key k p).0 in
    let r = (intern_key k p).1 in
    let (steps, valid'') = intern_all_lem ks r valid' in
    let q = intern_all ks r in
    let src = emit q w ++ rest in
    let v : IsSpelled major q = intern_all-IsSpelled major ks r gks (
      (intern_key-Spells major k (IsKey-IsReadable major k gk)).after p
        (intern_all-IsSpelled major js new_pool_builder gj (new-IsSpelled major))) in
    let denotes : Denotes q.slots k i =
      subst (λ s. Denotes s k i) (sym steps.grows)
        (Denotes-append r.slots steps.more k i (holds (steps.sticky clean))) in
    record {
      pool = pool_at src (length w + 2) v.contents;
      read = read_pool-emit major q w rest v new_enough valid''.bounded;
      faithful = pool_at-IsFaithful src (length w + 2) v.contents;
      resolves =
          known_key major new_enough q src (length w + 2) rest v valid''.bounded
            (emit-IsAt major q w rest v valid''.bounded) (pool_at src (length w + 2) v.contents)
            (record {
              entries_eq = refl;
              src_eq = refl;
              faithful = pool_at-IsFaithful src (length w + 2) v.contents;
            })
            k gk i denotes;
    }
