-- ===== src/Classfile/Pool/Add.antt =====
-- New entries: `add`, on each of its branches.
use mocha.Prelude.{
  All, Bool, List, [], append-nil, arith, false, get_elem?-append_length, if◌then◌else◌, inl, inr,
  length, length-append, none, refl, some, sym, true, ℕ, ◌++◌, ◌+◌, ◌∷◌, ◌≡◌, ◌≢◌, ◌≤◌, ◌⊎◌,
}
use mocha.Classfile.Pool.{PoolBuilder, PoolError, Slots, add, fail, too_many_entries}
use mocha.Classfile.Pool.Entries.{Denotes, Denotes-append, Holds}
use mocha.Classfile.Pool.Keys.{Key}
use mocha.Classfile.Pool.Rules.{Ensures, Inv, Reached, Step-refl}

-- The three ways of `add`.
abbrev with_entry : PoolBuilder → List ℕ → Bool → PoolBuilder
with_entry p b wide = record p { slots = p.slots ++ (some b ∷ (if wide then none ∷ [] else [])) }

add_cases :
    (b : List ℕ) (wide : Bool) (p : PoolBuilder)
    → ((p.err ≢ none) × (add b wide p ≡ (0, p)))
      ⊎ (((p.err ≡ none) × (add b wide p ≡ (0, record p { err = some too_many_entries })))
          ⊎ ((p.err ≡ none)
              × (length p.slots + (if wide then 2 else 1) ≤ 65535)
              × (add b wide p ≡ (length p.slots, with_entry p b wide))))
unfolding add
add_cases b true p = ground arith
add_cases b false p = ground arith

pub failed-Reached :
    (p : PoolBuilder) (post : Slots → ℕ → Type 0) (x : PoolError)
    → Inv p
    → p.err ≡ none
    → Reached p post (0, record p { err = some x })
failed-Reached p post x v clean = (
  record { more = []; grows = sym (append-nil p.slots); sticky = λ e. clean; kept = λ k i e. e },
  record { nonempty = v.nonempty; bounded = v.bounded; entries = λ e. cc },
  λ e. cc,
)

length-with_entry :
    (p : PoolBuilder) (b : List ℕ) (wide : Bool)
    → length (with_entry p b wide).slots ≡ length p.slots + (if wide then 2 else 1)
length-with_entry p b true = length-append p.slots (some b ∷ none ∷ [])
length-with_entry p b false = length-append p.slots (some b ∷ [])

All-mono :
    (s more : Slots) (m : List (Key × ℕ))
    → All (λ e. Denotes s e.0 e.1) m
    → All (λ e. Denotes (s ++ more) e.0 e.1) m
All-mono s more [] h = tt
All-mono s more ((k, i) ∷ m) (hk, h) = (Denotes-append s more k i hk, All-mono s more m h)

with_entry-Reached :
    (p : PoolBuilder) (b : List ℕ) (wide : Bool)
    → Inv p
    → p.err ≡ none
    → length p.slots + (if wide then 2 else 1) ≤ 65535
    → Reached p (λ s i. Holds s i b) (length p.slots, with_entry p b wide)
with_entry-Reached p b wide v clean fits =
    let more = some b ∷ (if wide then none ∷ [] else []) in
    (
      record { more = more; grows = refl; sticky = λ e. e; kept = λ k i e. e },
      record {
        nonempty = omega (arith, length-append p.slots more, v.nonempty);
        bounded = omega (arith, length-with_entry p b wide);
        entries = λ e. All-mono p.slots more p.map (v.entries e);
      },
      λ e. get_elem?-append_length p.slots (some b) (if wide then none ∷ [] else []),
    )

-- A new entry stands where its index says, and the pool stays within its limit.
pub add-Ensures :
    (pre : Slots → Type 0) (b : List ℕ) (wide : Bool)
    → Ensures pre (add b wide) (λ s i. Holds s i b)
add-Ensures pre b wide = record {
  at = λ p v h. elim (add_cases b wide p) [
    | inl (bad, e) ↦ rw e (Step-refl p, v, λ clean. absurd (bad clean))
    | inr (inl (clean, e)) ↦ rw e (failed-Reached p (λ s i. Holds s i b) too_many_entries v clean)
    | inr (inr (clean, fits, e)) ↦ rw e (with_entry-Reached p b wide v clean fits)
  ];
}

-- A refusal notes an error, or keeps the one that was there.
fail_cases :
    (x : PoolError) (p : PoolBuilder)
    → ((p.err ≢ none) × (fail x p ≡ (0, p)))
      ⊎ ((p.err ≡ none) × (fail x p ≡ (0, record p { err = some x })))
unfolding fail
fail_cases x p = ground arith

pub fail-Reached :
    (x : PoolError) (p : PoolBuilder) (post : Slots → ℕ → Type 0)
    → Inv p
    → Reached p post (fail x p)
fail-Reached x p post v = elim (fail_cases x p) [
  | inl (bad, e) ↦ rw e (Step-refl p, v, λ clean. absurd (bad clean))
  | inr (clean, e) ↦ rw e (failed-Reached p post x v clean)
]
