-- ===== src/Classfile/Pool/Keys.antt =====
-- The keys of the ten maps of `PoolBuilder`: the constructor says which map a key belongs to. The
-- key of a member starts with its tag.
use mocha.Prelude.{List, ℕ}
use native.Mathlib.Decide.{ℕ_discrete}

pub data Key : Type 0 where
  utf8 class string method_type : List ℕ → Key
  name_and_type : List ℕ → List ℕ → Key
  member : ℕ → List ℕ → List ℕ → List ℕ → Key
  int long float double : ℕ → Key

unfoldable pub Key-discrete : Discrete Key
unfolding ℕ_discrete
Key-discrete = hlevel ℕ_discrete
