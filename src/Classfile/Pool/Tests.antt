-- ===== src/Classfile/Pool/Tests.antt =====
-- Runs of the builder, and the theorems at concrete inputs.
use mocha.Prelude.{[], arith, none, refl, some, ◌∷◌, ◌≡◌, ◌≢◌}
use mocha.Classfile.Pool.{PoolBuilder, emit, intern_class, intern_long}
use mocha.Classfile.Pool.Again.{intern_again, intern_all}
use mocha.Classfile.Pool.Distinct.{intern_distinct}
use mocha.Classfile.Pool.Entries.{Denotes}
use mocha.Classfile.Pool.Interning.{intern_key, intern_key_lem}
use mocha.Classfile.Pool.Keys.{Key, class, long}
use mocha.Classfile.Pool.Rules.{Inv, Step}
use mocha.Classfile.Wire.{raw, u1, u2, u4}
use mocha.Jvm.Mutf8.{encode, encoded_len}

abbrev empty : PoolBuilder
empty = record { slots = none ∷ []; err = none; map = [] }

empty-Inv : Inv empty
empty-Inv = record { nonempty = omega arith; bounded = omega arith; entries = λ e. tt }

abbrev thread : Key
thread = class (0x54 ∷ [])

abbrev big : Key
big = long 0x1_0000_0002

-- A class takes two slots, one for its name, and a long two more.
two_constants :
    (intern_all (thread ∷ big ∷ []) empty).slots
    ≡ none
      ∷ some (1 ∷ 0 ∷ 1 ∷ 0x54 ∷ [])
      ∷ some (7 ∷ 0 ∷ 1 ∷ [])
      ∷ some (5 ∷ 0 ∷ 0 ∷ 0 ∷ 1 ∷ 0 ∷ 0 ∷ 0 ∷ 2 ∷ [])
      ∷ none
      ∷ []
unfolding intern_class intern_long encode raw u1 u2 u4 encoded_len
two_constants = refl

emit-two : emit (intern_all (thread ∷ []) empty) [] ≡ 0 ∷ 3 ∷ 1 ∷ 0 ∷ 1 ∷ 0x54 ∷ 7 ∷ 0 ∷ 1 ∷ []
unfolding intern_class encode raw u1 u2 encoded_len emit
emit-two = refl

thread_clean : (intern_key thread empty).1.err ≡ none
unfolding intern_class encode raw u1 u2 encoded_len
thread_clean = refl

both_clean : (intern_key big (intern_all [] (intern_key thread empty).1)).1.err ≡ none
unfolding intern_class intern_long encode raw u1 u2 u4 encoded_len
both_clean = refl

intern_key_lem_example :
    Step empty (intern_key thread empty).1
    × Inv (intern_key thread empty).1
    × ((intern_key thread empty).1.err ≡ none
        → Denotes (intern_key thread empty).1.slots thread (intern_key thread empty).0)
intern_key_lem_example = intern_key_lem thread empty empty-Inv

intern_again_example :
    intern_key thread (intern_all (big ∷ []) (intern_key thread empty).1)
    ≡ ((intern_key thread empty).0, intern_all (big ∷ []) (intern_key thread empty).1)
intern_again_example = intern_again thread (big ∷ []) empty empty-Inv thread_clean

intern_distinct_example :
    (intern_key thread empty).0 ≢ (intern_key big (intern_all [] (intern_key thread empty).1)).0
intern_distinct_example =
    intern_distinct thread big [] empty empty-Inv (omega arith) (omega arith) (λ e. cc) both_clean
