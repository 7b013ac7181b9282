-- ===== src/Analyzer/Flow/Sets.antt =====
-- analyzer/flow/bits.go: what the operations on bit sets do to the set of their members.
use mocha.Prelude.{
  ==_iff, All, Bool-cases, List, [], ap, arith, bit_and, bit_or, inl, inr, leb, length,
  length-append, not, refl, set, suc, sym, zero, ℕ, ◌%◌, ◌*◌, ◌++◌, ◌+◌, ◌-◌, ◌/◌, ◌<◌, ◌==◌, ◌^◌,
  ◌||◌, ◌∙◌, ◌∷◌, ◌≡◌, ◌≢◌, ◌≤◌,
}
use mocha.Analyzer.Flow.{Bits, append_zeros, grow, has, mask, pos, set_bit, word_at, word_bits}
use mocha.Analyzer.Flow.Digits.{
  bit_and-pow, digit, digit-bit_or, digit-lt, digit-pow_ne, digit-pow_self, digit-zero,
}
use native.Mathlib.Nat.{one-le-pow, pow-suc}

-- Every word has 64 bits.
abbrev pub IsBits : Bits → Type 0
IsBits b = All (λ x. x < 2 ^ word_bits) b.w

abbrev pub digit_of : ℕ → List ℕ → ℕ
digit_of i w = digit (i % word_bits) (word_at (i / word_bits) w)

pub word_at-past : (i : ℕ) (w : List ℕ) → length w ≤ i → word_at i w ≡ 0
word_at-past i [] h = refl
word_at-past zero (x ∷ w) h = absurd (omega arith)
word_at-past (suc i) (x ∷ w) h = word_at-past i w (omega arith)

positive : (x k : ℕ) → x < 2 → not (x * 2 ^ k == 0) ≡ (x == 1)
positive zero k h = ground arith
positive (suc zero) k h = ground (arith, one-le-pow k 2)
positive (suc (suc x)) k h = absurd (omega arith)

mask-pow : (i : ℕ) → mask i ≡ 2 ^ (i % word_bits)
mask-pow i = omega arith

-- A member is a digit that is one.
pub has-digit_of : (i : ℕ) (b : Bits) → has (pos i) b ≡ (digit_of i b.w == 1)
unfolding has
has-digit_of i b = elim (Bool-cases (leb (length b.w) (i / word_bits))) [
  | inl past ↦
      let gone = word_at-past (i / word_bits) b.w (ground arith) in
      let none_set = ap (digit (i % word_bits)) gone ∙ digit-zero (i % word_bits) in
      ground (arith, none_set)
  | inr inside ↦
      let anded =
        ap (bit_and (word_at (i / word_bits) b.w)) (mask-pow i)
        ∙ bit_and-pow (i % word_bits) (word_at (i / word_bits) b.w) in
      rw inside (
        ap (λ x. not (x == 0)) anded
        ∙ positive (digit_of i b.w) (i % word_bits)
            (digit-lt (i % word_bits) (word_at (i / word_bits) b.w)))
]

word_at-set_eq : (i : ℕ) (x : ℕ) (w : List ℕ) → i < length w → word_at i (set w i x) ≡ x
word_at-set_eq i x [] h = absurd (omega arith)
word_at-set_eq zero x (y ∷ w) h = refl
word_at-set_eq (suc i) x (y ∷ w) h = word_at-set_eq i x w (omega arith)

word_at-set_other : (i j : ℕ) (x : ℕ) (w : List ℕ) → i ≢ j → word_at j (set w i x) ≡ word_at j w
word_at-set_other i j x [] other = refl
word_at-set_other zero zero x (y ∷ w) other = absurd (other refl)
word_at-set_other zero (suc j) x (y ∷ w) other = refl
word_at-set_other (suc i) zero x (y ∷ w) other = refl
word_at-set_other (suc i) (suc j) x (y ∷ w) other =
    word_at-set_other i j x w (λ e. other (ap suc e))

word_at-append_zero : (i : ℕ) (w : List ℕ) → word_at i (w ++ (0 ∷ [])) ≡ word_at i w
word_at-append_zero zero [] = refl
word_at-append_zero (suc i) [] = refl
word_at-append_zero zero (x ∷ w) = refl
word_at-append_zero (suc i) (x ∷ w) = word_at-append_zero i w

pub append_zeros_lem :
    (n i : ℕ) (w : List ℕ)
    → (word_at i (append_zeros n w) ≡ word_at i w) × (length (append_zeros n w) ≡ length w + n)
append_zeros_lem zero i w = (refl, omega arith)
append_zeros_lem (suc n) i w =
    let (same, longer) = append_zeros_lem n i (w ++ (0 ∷ [])) in
    (same ∙ word_at-append_zero i w, omega (arith, longer, length-append w (0 ∷ [])))

-- Two indices are one where they have one word and one place in it.
pub same_place : (i j : ℕ) → i / word_bits ≡ j / word_bits → i % word_bits ≡ j % word_bits → i ≡ j
same_place i j = λ e f. omega arith

pub digit_of-set :
    (i j x : ℕ) (w : List ℕ)
    → i / word_bits < length w
    → (i / word_bits ≡ j / word_bits
        → digit_of j (set w (i / word_bits) x) ≡ digit (j % word_bits) x)
      × (i / word_bits ≢ j / word_bits → digit_of j (set w (i / word_bits) x) ≡ digit_of j w)
digit_of-set i j x w inside = (
  λ e. ap (digit (j % word_bits)) (
      ap (λ (k : ℕ). word_at k (set w (i / word_bits) x)) (sym e)
      ∙ word_at-set_eq (i / word_bits) x w inside),
  λ other. ap (digit (j % word_bits)) (word_at-set_other (i / word_bits) (j / word_bits) x w other),
)

pub digit-mask :
    (i j : ℕ)
    → (i % word_bits ≡ j % word_bits → digit (j % word_bits) (mask i) ≡ 1)
      × (i % word_bits ≢ j % word_bits → digit (j % word_bits) (mask i) ≡ 0)
digit-mask i j = (
  λ e.
      ap (digit (j % word_bits)) (mask-pow i ∙ ap (λ (k : ℕ). 2 ^ k) e)
      ∙ digit-pow_self (j % word_bits),
  λ other.
      ap (digit (j % word_bits)) (mask-pow i)
      ∙ digit-pow_ne (j % word_bits) (i % word_bits) (λ e. other (sym e)),
)

pow_below : (k n : ℕ) → k < n → 2 ^ k < 2 ^ n
pow_below k zero h = absurd (omega arith)
pow_below zero (suc n) h = omega (arith, pow-suc 2 n, one-le-pow n 2)
pow_below (suc k) (suc n) h = omega (arith, pow-suc 2 n, pow-suc 2 k, pow_below k n (omega arith))

pub mask-lt : (i : ℕ) → mask i < 2 ^ word_bits
mask-lt i = ground (arith, mask-pow i, pow_below (i % word_bits) word_bits (omega arith))

-- A word that is replaced changes the digits of its own places only.
module _ (i j x : ℕ) (w : List ℕ) (inside : i / word_bits < length w) where
  pub here :
      i / word_bits ≡ j / word_bits → digit_of j (set w (i / word_bits) x) ≡ digit (j % word_bits) x
  here = (digit_of-set i j x w inside).0

  pub elsewhere :
      i / word_bits ≢ j / word_bits → digit_of j (set w (i / word_bits) x) ≡ digit_of j w
  elsewhere = (digit_of-set i j x w inside).1

grow_digit : (i j : ℕ) (b : Bits) → digit_of j (grow i b).w ≡ digit_of j b.w
unfolding grow
grow_digit i j b =
    ap (digit (j % word_bits))
      (append_zeros_lem ((i + 64) / word_bits - length b.w) (j / word_bits) b.w).0

grow-inside : (i : ℕ) (b : Bits) → i / word_bits < length (grow i b).w
unfolding grow
grow-inside i b = omega (arith, (append_zeros_lem ((i + 64) / word_bits - length b.w) 0 b.w).1)

abbrev grown : ℕ → Bits → ℕ
grown i b = word_at (i / word_bits) (grow i b).w

-- The digit at j of the word of i, where the words are one.
pub one_word :
    (i j : ℕ) (w : List ℕ)
    → i / word_bits ≡ j / word_bits
    → digit (j % word_bits) (word_at (i / word_bits) w) ≡ digit_of j w
one_word i j w e = ap (λ (k : ℕ). digit (j % word_bits) (word_at k w)) e

set_bit-here : (i : ℕ) (b : Bits) → digit_of i (set_bit (pos i) b).w ≡ 1
unfolding set_bit
set_bit-here i b =
    here i i (bit_or (grown i b) (mask i)) (grow i b).w (grow-inside i b) refl
    ∙ digit-bit_or (i % word_bits) (grown i b) (mask i)
    ∙ omega (arith, (digit-mask i i).0 refl, digit-lt (i % word_bits) (grown i b))

set_bit-elsewhere : (i j : ℕ) (b : Bits) → i ≢ j → digit_of j (set_bit (pos i) b).w ≡ digit_of j b.w
unfolding set_bit
set_bit-elsewhere i j b other = elim (Bool-cases (i / word_bits == j / word_bits)) [
  | inl e ↦
      let same = (==_iff _ _).0 e in
      here i j (bit_or (grown i b) (mask i)) (grow i b).w (grow-inside i b) same
      ∙ digit-bit_or (j % word_bits) (grown i b) (mask i)
      ∙ omega (
        arith,
        (digit-mask i j).1 (λ f. other (same_place i j same f)),
        one_word i j (grow i b).w same,
        grow_digit i j b,
      )
  | inr e ↦
      elsewhere i j (bit_or (grown i b) (mask i)) (grow i b).w (grow-inside i b) (ground arith)
      ∙ grow_digit i j b
]

-- `set` adds its index and nothing else, whatever the length of the set was.
pub has-set_bit : (i j : ℕ) (b : Bits) → has (pos j) (set_bit (pos i) b) ≡ (i == j) || has (pos j) b
has-set_bit i j b = elim (Bool-cases (i == j)) [
  | inl e ↦
      let same = (==_iff i j).0 e in
      let one = ap (λ (k : ℕ). digit_of k (set_bit (pos i) b).w) (sym same) ∙ set_bit-here i b in
      ground (arith, has-digit_of j (set_bit (pos i) b), one)
  | inr e ↦
      let kept = set_bit-elsewhere i j b (ground arith) in
      rw (e, has-digit_of j b) (has-digit_of j (set_bit (pos i) b) ∙ ap (λ (x : ℕ). x == 1) kept)
]
