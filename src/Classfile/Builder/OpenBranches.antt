-- ===== src/Classfile/Builder/OpenBranches.antt =====
-- classfile/builder.go: the branches that no pass has widened, which a pass makes fewer.
use mocha.Prelude.{
  Bool-cases, List, [], arith, false, if◌then◌else◌, inl, inr, suc, true, zero, ℕ, ◌+◌, ◌<◌, ◌==◌,
  ◌≡◌, ◌≤◌,
}
use mocha.Classfile.Code.Delta.{member}
use mathlib.Core.Path.{subst}

-- The ordinals below `n` that are not widened.
abbrev pub open_count : ℕ → List ℕ → ℕ
open_count zero widen = 0
open_count (suc n) widen = (if member n widen then 0 else 1) + open_count n widen

abbrev pub Widened : List ℕ → List ℕ → Type 0
Widened w w' = (ord : ℕ) → member ord w ≡ true → member ord w' ≡ true

pub open_count_le : (n : ℕ) (w w' : List ℕ) → Widened w w' → open_count n w' ≤ open_count n w
open_count_le zero w w' wider = omega arith
open_count_le (suc n) w w' wider = elim (Bool-cases (member n w)) [
  | inl e ↦ rw (e, wider n e) (omega (arith, open_count_le n w w' wider))
  | inr e ↦ elim (Bool-cases (member n w')) [
    | inl e' ↦ rw (e, e') (omega (arith, open_count_le n w w' wider))
    | inr e' ↦ rw (e, e') (omega (arith, open_count_le n w w' wider))
  ]
]

pub open_count_lt :
    (n ord : ℕ) (w w' : List ℕ)
    → Widened w w'
    → ord < n
    → member ord w ≡ false
    → member ord w' ≡ true
    → open_count n w' < open_count n w
open_count_lt zero ord w w' wider small shut opened = absurd (omega arith)
open_count_lt (suc n) ord w w' wider small shut opened = elim (Bool-cases (ord == n)) [
  | inl e ↦
      let same : ord ≡ n = ground arith in
      rw (subst (λ k. member k w ≡ false) same shut) (
        rw (subst (λ k. member k w' ≡ true) same opened)
          (omega (arith, open_count_le n w w' wider)))
  | inr e ↦
      let less = open_count_lt n ord w w' wider (ground arith) shut opened in
      elim (Bool-cases (member n w)) [
        | inl f ↦ rw (f, wider n f) (omega (arith, less))
        | inr f ↦ elim (Bool-cases (member n w')) [
          | inl f' ↦ rw (f, f') (omega (arith, less))
          | inr f' ↦ rw (f, f') (omega (arith, less))
        ]
      ]
]

pub open_count_new : (n : ℕ) → open_count n [] ≤ n
open_count_new zero = omega arith
open_count_new (suc n) = omega (arith, open_count_new n)
