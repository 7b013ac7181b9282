-- ===== src/Classfile/Pool/Remember.antt =====
-- The maps: what a key was given is remembered.
use mocha.Prelude.{All, List, Option, [], none, refl, some, sym, ℕ, ◌∙◌, ◌∷◌, ◌≡◌, ◌≢◌}
use mocha.Classfile.Pool.{M, PoolBuilder, find, intern, intern_at, remember}
use mocha.Classfile.Pool.Entries.{Denotes}
use mocha.Classfile.Pool.Keys.{Key, Key-discrete}
use mocha.Classfile.Pool.Rules.{Any, Ensures, Inv, Step, Step-refl}
use mathlib.Core.Logic.{if_pos, if_neg}
use mathlib.Core.Path.{subst₂}

pub find_same : (k j : Key) (i : ℕ) (m : List (Key × ℕ)) → j ≡ k → find k ((j, i) ∷ m) ≡ some i
unfolding find
find_same k j i m e = if_pos (Key-discrete j k) e (some i) (find k m)

find_ne : (k j : Key) (i : ℕ) (m : List (Key × ℕ)) → j ≢ k → find k ((j, i) ∷ m) ≡ find k m
unfolding find
find_ne k j i m e = if_neg (Key-discrete j k) e (some i) (find k m)

-- An association list answers with an entry that it holds.
pub find-All :
    (P : Key → ℕ → Type 0) (k : Key) (m : List (Key × ℕ)) {i : ℕ}
    → All (λ e. P e.0 e.1) m
    → find k m ≡ some i
    → P k i
find-All P k [] h e = unfold find in cc
find-All P k ((j, n) ∷ m) {i} (hn, h) e = elim (Key-discrete j k) [
  | yes same ↦ let at_head : n ≡ i = cc (find_same k j n m same) in subst₂ P same at_head hn
  | no differ ↦ find-All P k m h (sym (find_ne k j n m differ) ∙ e)
]

-- What `remember` adds, where the key was not there before.
pub remember_lem :
    (k : Key) (p : PoolBuilder) (r : ℕ × PoolBuilder)
    → find k p.map ≡ none
    → Step p r.1
    → Inv r.1
    → (r.1.err ≡ none → Denotes r.1.slots k r.0)
    → Step p (remember k r).1
      × Inv (remember k r).1
      × ((remember k r).1.err ≡ none → Denotes (remember k r).1.slots k (remember k r).0)
unfolding remember
remember_lem k p (i, q) fresh step valid holds = (
  record {
    more = step.more;
    grows = step.grows;
    sticky = step.sticky;
    kept = λ j n e. find_ne j k i q.map (λ same. cc (rw same at fresh)) ∙ step.kept j n e;
  },
  record {
    nonempty = valid.nonempty;
    bounded = valid.bounded;
    entries = λ e. (holds e, valid.entries e);
  },
  holds,
)

intern_at-Ensures :
    (k : Key) (build : M) (p : PoolBuilder) (o : Option ℕ)
    → Ensures Any build (λ s i. Denotes s k i)
    → Inv p
    → find k p.map ≡ o
    → Step p (intern_at o k build p).1
      × Inv (intern_at o k build p).1
      × ((intern_at o k build p).1.err ≡ none
          → Denotes (intern_at o k build p).1.slots k (intern_at o k build p).0)
unfolding intern_at
intern_at-Ensures k build p none eb valid fresh =
    let (step, valid', holds) = eb.at p valid (λ e. tt) in
    remember_lem k p (build p) fresh step valid' holds
intern_at-Ensures k build p (some i) eb valid found =
    (Step-refl p, valid, λ e. find-All (Denotes p.slots) k p.map (valid.entries e) found)

-- The index of an interned constant stands for it.
pub intern-Ensures :
    (k : Key) (build : M)
    → Ensures Any build (λ s i. Denotes s k i)
    → Ensures Any (intern k build) (λ s i. Denotes s k i)
unfolding intern
intern-Ensures k build eb = record {
  at = λ p valid h. intern_at-Ensures k build p (find k p.map) eb valid refl;
}
