-- ===== src/Jvm/Desc/Elements.antt =====
-- The pieces of a descriptor: the brackets, and the class name up to its semicolon.
use mocha.Prelude.{
  All, List, Option-cases, [], ap, arith, drop, length, refl, replicate, some, suc, take, zero, ℕ,
  ◌++◌, ◌∷◌, ◌≡◌, ◌≢◌, ◌≤◌,
}
use mocha.Jvm.Desc.{count_dims, index_byte}

pub count_dims-replicate :
    (n c : ℕ) (s : List ℕ) → c ≢ b'[' → count_dims (replicate n b'[' ++ (c ∷ s)) ≡ n
unfolding count_dims
count_dims-replicate zero c s h = ground arith
count_dims-replicate (suc n) c s h = ap suc (count_dims-replicate n c s h)

pub drop-replicate : (n c : ℕ) (s : List ℕ) → drop n (replicate n c ++ s) ≡ s
drop-replicate zero c s = refl
drop-replicate (suc n) c s = drop-replicate n c s

-- The brackets that were counted, and what stands behind them.
pub replicate-count_dims : (s : List ℕ) → replicate (count_dims s) b'[' ++ drop (count_dims s) s ≡ s
unfolding count_dims
replicate-count_dims [] = refl
replicate-count_dims (c ∷ s) = ground (arith, replicate-count_dims s)

pub count_dims-le-length : (s : List ℕ) → count_dims s ≤ length s
unfolding count_dims
count_dims-le-length [] = omega arith
count_dims-le-length (c ∷ s) = ground (arith, count_dims-le-length s)

-- The first semicolon stands behind a name that holds none.
pub index_byte-append :
    (c : ℕ) (name rest : List ℕ)
    → All (λ x. x ≢ c) name
    → index_byte c (name ++ (c ∷ rest)) ≡ some (length name)
unfolding index_byte
index_byte-append c [] rest h = ground arith
index_byte-append c (x ∷ name) rest (hx, h) = ground (arith, index_byte-append c name rest h)

pub index_byte-some :
    (c : ℕ) (s : List ℕ) (j : ℕ)
    → index_byte c s ≡ some j
    → All (λ x. x ≢ c) (take j s) × (take j s ++ (c ∷ drop (suc j) s) ≡ s) × (length (take j s) ≡ j)
unfolding index_byte
index_byte-some c [] j e = cc
index_byte-some c (x ∷ s) zero e = ground (arith, Option-cases (index_byte c s))
index_byte-some c (x ∷ s) (suc j) e =
    ground (arith, index_byte-some c s j, Option-cases (index_byte c s))
