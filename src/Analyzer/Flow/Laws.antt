-- ===== src/Analyzer/Flow/Laws.antt =====
-- analyzer/flow/bits.go: `clear`, `and`, `or` and `equal` as operations on sets.
use mocha.Prelude.{
  ==_iff, Bool-cases, List, [], ap, arith, inl, inr, leb, length, not, refl, suc, sym, true, zero,
  ℕ, ◌%◌, ◌&&◌, ◌+◌, ◌-◌, ◌/◌, ◌<◌, ◌==◌, ◌^◌, ◌||◌, ◌∙◌, ◌∷◌, ◌≡◌, ◌≢◌, ◌≤◌,
}
use mocha.Analyzer.Flow.{
  Bits, and_bits, and_not, and_words, clear, equal_from, has, mask, or_bits, or_words, pos, word,
  word_at, word_bits,
}
use mocha.Analyzer.Flow.Digits.{
  digit, digit-bit_and, digit-bit_or, digit-complement, digit-lt, digit-zero,
}
use mocha.Analyzer.Flow.Sets.{
  digit-mask, digit_of, elsewhere, has-digit_of, here, mask-lt, one_word, same_place, word_at-past,
}
use mocha.Classfile.ConstPool.Resolve.{at}
use Prim.Native.Nat.{min, max}

complement-mask :
    (i j : ℕ)
    → (i % word_bits ≡ j % word_bits → digit (j % word_bits) (2 ^ word_bits - 1 - mask i) ≡ 0)
      × (i % word_bits ≢ j % word_bits → digit (j % word_bits) (2 ^ word_bits - 1 - mask i) ≡ 1)
complement-mask i j =
    let flipped = digit-complement word_bits (j % word_bits) (mask i) (omega arith) (mask-lt i) in
    (
      λ e. flipped ∙ omega (arith, (digit-mask i j).0 e),
      λ other. flipped ∙ omega (arith, (digit-mask i j).1 other),
    )

clear-here : (i : ℕ) (b : Bits) → digit_of i (clear (pos i) b).w ≡ 0
unfolding clear
clear-here i b = elim (Bool-cases (leb (length b.w) (i / word_bits))) [
  | inl past ↦ rw past (
      ap (digit (i % word_bits)) (word_at-past (i / word_bits) b.w (ground arith))
      ∙ digit-zero (i % word_bits))
  | inr inside ↦ rw inside (
      here i i (and_not (word_at (i / word_bits) b.w) (mask i)) b.w (ground arith) refl
      ∙ digit-bit_and (i % word_bits) (word_at (i / word_bits) b.w) _
      ∙ omega (arith, (complement-mask i i).0 refl))
]

clear-elsewhere : (i j : ℕ) (b : Bits) → i ≢ j → digit_of j (clear (pos i) b).w ≡ digit_of j b.w
unfolding clear
clear-elsewhere i j b other = elim (Bool-cases (leb (length b.w) (i / word_bits))) [
  | inl past ↦ rw past
  | inr inside ↦ rw inside (elim (Bool-cases (i / word_bits == j / word_bits)) [
    | inl e ↦
        let same = (==_iff _ _).0 e in
        here i j (and_not (word_at (i / word_bits) b.w) (mask i)) b.w (ground arith) same
        ∙ digit-bit_and (j % word_bits) (word_at (i / word_bits) b.w) _
        ∙ omega (
          arith,
          (complement-mask i j).1 (λ f. other (same_place i j same f)),
          one_word i j b.w same,
          digit-lt (j % word_bits) (word_at (i / word_bits) b.w),
        )
    | inr e ↦
        elsewhere i j (and_not (word_at (i / word_bits) b.w) (mask i)) b.w (ground arith)
          (ground arith)
  ])
]

-- `clear` takes its index out and nothing else.
pub has-clear : (i j : ℕ) (b : Bits) → has (pos j) (clear (pos i) b) ≡ not (i == j) && has (pos j) b
has-clear i j b = elim (Bool-cases (i == j)) [
  | inl e ↦
      let same = (==_iff i j).0 e in
      let gone = ap (λ (k : ℕ). digit_of k (clear (pos i) b).w) (sym same) ∙ clear-here i b in
      ground (arith, has-digit_of j (clear (pos i) b), gone)
  | inr e ↦
      let kept = clear-elsewhere i j b (ground arith) in
      rw (e, has-digit_of j b) (has-digit_of j (clear (pos i) b) ∙ ap (λ (x : ℕ). x == 1) kept)
]

digit-and_words :
    (i k : ℕ) (v w : List ℕ)
    → digit k (word_at i (and_words v w)) ≡ min (digit k (word_at i v)) (digit k (word_at i w))
digit-and_words i k [] w = omega (arith, digit-zero k)
digit-and_words i k (x ∷ v) [] = omega (arith, digit-zero k)
digit-and_words zero k (x ∷ v) (y ∷ w) = digit-bit_and k x y
digit-and_words (suc i) k (x ∷ v) (y ∷ w) = digit-and_words i k v w

max_right : (a b : ℕ) → a ≡ 0 → b ≡ max a b
max_right a b e = omega arith

digit-or_words :
    (i k : ℕ) (v w : List ℕ)
    → digit k (word_at i (or_words v w)) ≡ max (digit k (word_at i v)) (digit k (word_at i w))
digit-or_words i k [] [] = omega (arith, digit-zero k)
digit-or_words i k [] (y ∷ w) = max_right (digit k 0) (digit k (word_at i (y ∷ w))) (digit-zero k)
digit-or_words i k (x ∷ v) [] = omega (arith, digit-zero k)
digit-or_words zero k (x ∷ v) (y ∷ w) = digit-bit_or k x y
digit-or_words (suc i) k (x ∷ v) (y ∷ w) = digit-or_words i k v w

pub has-and_bits :
    (j : ℕ) (b o : Bits) → has (pos j) (and_bits b o) ≡ has (pos j) b && has (pos j) o
unfolding and_bits
has-and_bits j b o = ground (
  arith,
  has-digit_of j (and_bits b o),
  has-digit_of j b,
  has-digit_of j o,
  digit-and_words (j / word_bits) (j % word_bits) b.w o.w,
  digit-lt (j % word_bits) (word_at (j / word_bits) b.w),
  digit-lt (j % word_bits) (word_at (j / word_bits) o.w),
)

has-or_bits : (j : ℕ) (b o : Bits) → has (pos j) (or_bits b o) ≡ has (pos j) b || has (pos j) o
unfolding or_bits
has-or_bits j b o = ground (
  arith,
  has-digit_of j (or_bits b o),
  has-digit_of j b,
  has-digit_of j o,
  digit-or_words (j / word_bits) (j % word_bits) b.w o.w,
  digit-or_words (j / word_bits) (j % word_bits) o.w b.w,
  digit-lt (j % word_bits) (word_at (j / word_bits) b.w),
  digit-lt (j % word_bits) (word_at (j / word_bits) o.w),
)

pub equal_from_sound :
    (n i k : ℕ) (b o : Bits) → equal_from n i b o ≡ true → i ≤ k → k < i + n → word k b ≡ word k o
unfolding equal_from
equal_from_sound zero i k b o h low high = absurd (omega arith)
equal_from_sound (suc n) i k b o h low high = elim (Bool-cases (word i b == word i o)) [
  | inr e ↦ absurd (ground (arith, e, h))
  | inl e ↦ elim (Bool-cases (i == k)) [
    | inl at ↦
        let same = (==_iff i k).0 at in
        sym (ap (λ (x : ℕ). word x b) same) ∙ (==_iff _ _).0 e ∙ ap (λ (x : ℕ). word x o) same
    | inr later ↦ equal_from_sound n (suc i) k b o (rw e at h) (ground arith) (omega arith)
  ]
]

pub equal_from_complete :
    (n i : ℕ) (b o : Bits) → ((k : ℕ) → word k b ≡ word k o) → equal_from n i b o ≡ true
unfolding equal_from
equal_from_complete zero i b o same = refl
equal_from_complete (suc n) i b o same =
    let e = (==_iff (word i b) (word i o)).1 (same i) in
    rw e (equal_from_complete n (suc i) b o same)
