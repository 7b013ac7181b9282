-- ===== src/Classfile/Pool/Rules.antt =====
-- The invariant of the builder, and rules for what its methods ensure.
use mocha.Prelude.{
  All, [], append-nil, append_assoc, length, none, some, sym, ℕ, ◌++◌, ◌∙◌, ◌≡◌, ◌≤◌,
}
use mocha.Classfile.Pool.{M, PoolBuilder, Slots, find, ◌>>=◌}
use mocha.Classfile.Pool.Entries.{Denotes}
use mocha.Classfile.Pool.Keys.{Key}
use mathlib.Core.Path.{subst}

-- Every remembered index stands for its key, unless an error has been noted.
pub record Inv (p : PoolBuilder) : Type 0 where
  pub nonempty : 1 ≤ length p.slots
  pub bounded : length p.slots ≤ 65535
  pub entries : p.err ≡ none → All (λ e. Denotes p.slots e.0 e.1) p.map

-- Slots are only added, errors stay, and what was remembered is not forgotten.
pub record Step (p q : PoolBuilder) : Type 0 where
  pub more : Slots
  pub grows : q.slots ≡ p.slots ++ more
  pub sticky : q.err ≡ none → p.err ≡ none
  pub kept : (k : Key) (i : ℕ) → find k p.map ≡ some i → find k q.map ≡ some i

pub Step-refl : (p : PoolBuilder) → Step p p
Step-refl p = record {
  more = [];
  grows = sym (append-nil p.slots);
  sticky = λ e. e;
  kept = λ k i e. e;
}

pub Step-trans : {p q r : PoolBuilder} → Step p q → Step q r → Step p r
Step-trans {p} {q} {r} a c = record {
  more = a.more ++ c.more;
  grows = c.grows ∙ rw a.grows (append_assoc p.slots a.more c.more);
  sticky = λ e. a.sticky (c.sticky e);
  kept = λ k i e. c.kept k i (a.kept k i e);
}

-- From a valid builder of which `pre` holds, `m` leads to a valid one, and `post` holds of its slots
-- and the index returned, if there was no error.
pub record Ensures (pre : Slots → Type 0) (m : M) (post : Slots → ℕ → Type 0) : Type 0 where
  pub at :
      (p : PoolBuilder)
      → Inv p
      → (p.err ≡ none → pre p.slots)
      → Step p (m p).1 × Inv (m p).1 × ((m p).1.err ≡ none → post (m p).1.slots (m p).0)

abbrev pub Any : Slots → Type 0
Any s = Unit

-- A fact about slots that appending keeps.
abbrev pub Lasting : (Slots → Type 0) → Type 0
Lasting f = (s more : Slots) → f s → f (s ++ more)

module _ {pre : Slots → Type 0} {post : Slots → ℕ → Type 0} where
  pub Ensures-bind :
      {next : Slots → ℕ → Type 0} (m : M) (f : ℕ → M)
      → Ensures pre m post
      → ((n : ℕ) → Ensures (λ s. post s n) (f n) next)
      → Ensures pre (m >>= f) next
  Ensures-bind m f em ef = record {
    at = λ p v h.
        let (step, valid, holds) = em.at p v h in
        let (step', valid', holds') = (ef (m p).0).at (m p).1 valid holds in
        (Step-trans step step', valid', holds');
  }

  pub Ensures-frame :
      (f : Slots → Type 0) (m : M)
      → Lasting f
      → Ensures pre m post
      → Ensures (λ s. f s × pre s) m (λ s i. f s × post s i)
  Ensures-frame f m lasts em = record {
    at = λ p v h.
        let (step, valid, holds) = em.at p v (λ e. (h e).1) in
        (
          step,
          valid,
          λ e. (subst f (sym step.grows) (lasts p.slots step.more (h (step.sticky e)).0), holds e),
        );
  }

  pub Ensures-weaken :
      {pre' : Slots → Type 0} {post' : Slots → ℕ → Type 0} (m : M)
      → ((s : Slots) → pre' s → pre s)
      → ((s : Slots) (i : ℕ) → post s i → post' s i)
      → Ensures pre m post
      → Ensures pre' m post'
  Ensures-weaken m before behind em = record {
    at = λ p v h.
        let (step, valid, holds) = em.at p v (λ e. before p.slots (h e)) in
        (step, valid, λ e. behind _ _ (holds e));
  }

-- What may follow from an outcome of a method.
abbrev pub Reached : PoolBuilder → (Slots → ℕ → Type 0) → ℕ × PoolBuilder → Type 0
Reached p post r = Step p r.1 × Inv r.1 × (r.1.err ≡ none → post r.1.slots r.0)
