-- ===== src/Classfile/ConstPool/Tests.antt =====
-- Runs of the reader of the pool, and the theorems at concrete inputs.
use mocha.Prelude.{[], arith, err, none, ok, refl, some, suc, zero, ◌∷◌, ◌≡◌}
use mocha.Classfile.ConstPool.{ConstPool, read_pool, unusable}
use mocha.Classfile.ConstPool.Clear.{IsFaithful, SameFile}
use mocha.Classfile.ConstPool.Cursor.{cursor}
use mocha.Classfile.ConstPool.Memo.{const_of-forget, forget}
use mocha.Classfile.ConstPool.Resolve.{const_of, not_a_member, ref_of, text_const}
use mocha.Classfile.ConstPool.Written.{ReadsBack, read_pool-Resolves}
use mocha.Classfile.Pool.{PoolBuilder, intern_class, intern_long, intern_string, new_pool_builder}
use mocha.Classfile.Pool.Again.{intern_all}
use mocha.Classfile.Pool.Interning.{intern_key}
use mocha.Classfile.Pool.Keys.{Key, class, long, string}
use mocha.Classfile.Wire.{past_end, raw, u1, u2, u4, unknown_tag}
use mocha.Jvm.Mutf8.{decode, encode, encoded_len}

abbrev thread : Key
thread = class (0x54 ∷ [])

abbrev big : Key
big = long 0x1_0000_0002

abbrev hello : Key
hello = string (0x48 ∷ 0x69 ∷ [])

abbrev built : PoolBuilder
built = intern_all (hello ∷ []) (intern_key big (intern_all (thread ∷ []) new_pool_builder)).1

built_clean : built.err ≡ none
unfolding new_pool_builder intern_class intern_long intern_string encode raw u1 u2 u4 encoded_len
built_clean = refl

read_pool-Resolves_example :
    ReadsBack 49 built
      (0xCA ∷ [])
      (7 ∷ [])
      big
      (intern_key big (intern_all (thread ∷ []) new_pool_builder)).0
read_pool-Resolves_example =
    read_pool-Resolves 49 (thread ∷ []) (hello ∷ []) big (0xCA ∷ []) (7 ∷ []) (omega arith)
      (omega arith) (omega arith) (omega arith) built_clean

-- A text "T" at index 1, which has been decoded, and a class of that name at index 2.
abbrev sample : ConstPool
sample = record {
  entries = unusable ∷ record { tag = 1; a = 3; b = 1 } ∷ record { tag = 7; a = 1; b = 0 } ∷ [];
  src = 1 ∷ 0 ∷ 1 ∷ 0x54 ∷ 7 ∷ 0 ∷ 1 ∷ [];
  strs = none ∷ some (0x54 ∷ []) ∷ none ∷ [];
  bsms = [];
}

sample-IsFaithful : IsFaithful sample
unfolding decode
sample-IsFaithful zero s e h found = cc
sample-IsFaithful (suc zero) s e h found = cc
sample-IsFaithful (suc (suc zero)) s e h found = cc
sample-IsFaithful (suc (suc (suc i))) s e h found = cc

const_of-forget_example :
    ((const_of 2 52 sample).0 ≡ (const_of 2 52 (forget sample)).0)
    × IsFaithful (const_of 2 52 sample).1
    × SameFile sample (const_of 2 52 sample).1
    × ((ref_of 2 sample).0 ≡ (ref_of 2 (forget sample)).0)
    × IsFaithful (ref_of 2 sample).1
    × SameFile sample (ref_of 2 sample).1
const_of-forget_example = const_of-forget 2 52 sample sample-IsFaithful

-- A class that is asked for as a member, and an unknown tag.
sample_class : (const_of 2 52 sample).0 ≡ ok (text_const 7 (0x54 ∷ []))
unfolding const_of
sample_class = refl

sample_member : (ref_of 2 sample).0 ≡ err not_a_member
unfolding ref_of
sample_member = refl

bad_tag :
    (read_pool 52 (cursor (0 ∷ 2 ∷ 2 ∷ []) 0)).1.err ≡ some (record { off = 2; msg = unknown_tag })
unfolding read_pool
bad_tag = refl

-- A long in the last slot.
cut_long :
    (read_pool 52 (cursor (0 ∷ 2 ∷ 5 ∷ 0 ∷ 0 ∷ 0 ∷ 0 ∷ 0 ∷ 0 ∷ 0 ∷ 1 ∷ []) 0)).1.err
    ≡ some (record { off = 11; msg = past_end })
unfolding read_pool
cut_long = refl
