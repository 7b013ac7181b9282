-- ===== src/Analyzer/Flow/Equal.antt =====
-- analyzer/flow/bits.go: words stay within 64 bits, and `equal` compares the sets.
use mocha.Prelude.{
  All, All-append, Bool-cases, List, [], ap, arith, false, if◌then◌else◌, inl, inr, leb, length,
  ltb, replicate, set, suc, sym, true, zero, ℕ, ◌%◌, ◌*◌, ◌++◌, ◌+◌, ◌-◌, ◌/◌, ◌<◌, ◌==◌, ◌^◌, ◌↔◌,
  ◌∙◌, ◌∷◌, ◌≡◌, ◌≤◌,
}
use mocha.Analyzer.Flow.{
  Bits, and_bits, and_words, append_zeros, clear, equal, grow, has, mask, negsuc, new_bits, pos,
  set_bit, word, word_at, word_bits, ℤ,
}
use mocha.Analyzer.Flow.Digits.{digit, digit-ext, digit-lt, digits-fit}
use mocha.Analyzer.Flow.Laws.{equal_from_complete, equal_from_sound}
use mocha.Analyzer.Flow.Sets.{IsBits, has-digit_of, mask-lt, word_at-past}

All-set :
    (w : List ℕ) (i x : ℕ)
    → All (λ (v : ℕ). v < 2 ^ word_bits) w
    → x < 2 ^ word_bits
    → All (λ (v : ℕ). v < 2 ^ word_bits) (set w i x)
All-set [] i x h hx = tt
All-set (y ∷ w) zero x (hy, h) hx = (hx, h)
All-set (y ∷ w) (suc i) x (hy, h) hx = (hy, All-set w i x h hx)

word_at-lt :
    (i : ℕ) (w : List ℕ) → All (λ (v : ℕ). v < 2 ^ word_bits) w → word_at i w < 2 ^ word_bits
word_at-lt i [] h = omega arith
word_at-lt zero (x ∷ w) (hx, h) = hx
word_at-lt (suc i) (x ∷ w) (hx, h) = word_at-lt i w h

append_zeros-All :
    (n : ℕ) (w : List ℕ)
    → All (λ (v : ℕ). v < 2 ^ word_bits) w
    → All (λ (v : ℕ). v < 2 ^ word_bits) (append_zeros n w)
append_zeros-All zero w h = h
append_zeros-All (suc n) w h =
    append_zeros-All n (w ++ (0 ∷ []))
      (All-append (λ (v : ℕ). v < 2 ^ word_bits) w (0 ∷ []) h (omega arith, tt))

replicate-All : (n : ℕ) → All (λ (v : ℕ). v < 2 ^ word_bits) (replicate n 0)
replicate-All zero = tt
replicate-All (suc n) = (omega arith, replicate-All n)

pub new_bits-IsBits : (n : ℕ) → IsBits (new_bits n)
unfolding new_bits
new_bits-IsBits zero = tt
new_bits-IsBits (suc n) =
    let some_words : (suc n == 0) ≡ false = ground arith in
    rw some_words (replicate-All ((suc n + 63) / word_bits))

pub set_bit-IsBits : (i : ℤ) (b : Bits) → IsBits b → IsBits (set_bit i b)
unfolding set_bit grow
set_bit-IsBits (negsuc i) b h = h
set_bit-IsBits (pos i) b h =
    let grown = append_zeros-All ((i + 64) / word_bits - length b.w) b.w h in
    All-set (grow i b).w (i / word_bits) _ grown
      (digits-fit word_bits (word_at (i / word_bits) (grow i b).w) (mask i)
        (word_at-lt (i / word_bits) (grow i b).w grown) (mask-lt i)).0

pub clear-IsBits : (i : ℤ) (b : Bits) → IsBits b → IsBits (clear i b)
unfolding clear
clear-IsBits (negsuc i) b h = h
clear-IsBits (pos i) b h = elim (Bool-cases (leb (length b.w) (i / word_bits))) [
  | inl past ↦ rw past h
  | inr inside ↦ rw inside (
      All-set b.w (i / word_bits) _ h
        (digits-fit word_bits (word_at (i / word_bits) b.w) (2 ^ word_bits - 1 - mask i)
          (word_at-lt (i / word_bits) b.w h) (omega arith)).1)
]

and_words-All :
    (v w : List ℕ)
    → All (λ (x : ℕ). x < 2 ^ word_bits) v
    → All (λ (x : ℕ). x < 2 ^ word_bits) w
    → All (λ (x : ℕ). x < 2 ^ word_bits) (and_words v w)
and_words-All [] w h g = tt
and_words-All (x ∷ v) [] h g = tt
and_words-All (x ∷ v) (y ∷ w) (hx, h) (hy, g) =
    ((digits-fit word_bits x y hx hy).1, and_words-All v w h g)

pub and_bits-IsBits : (b o : Bits) → IsBits b → IsBits o → IsBits (and_bits b o)
unfolding and_bits
and_bits-IsBits b o h g = and_words-All b.w o.w h g

-- Where two sets have the same words, those past the end included.
same_words : (b o : Bits) → equal b o ≡ true → (k : ℕ) → word k b ≡ word k o
unfolding equal
same_words b o h k = elim (Bool-cases (ltb k n)) [
  | inl inside ↦ equal_from_sound n 0 k b o h (omega arith) (ground arith)
  | inr past ↦
      let longer = longest (length b.w) (length o.w) in
      word_at-past k b.w (ground (arith, longer))
      ∙ sym (word_at-past k o.w (ground (arith, longer)))
]
  where
    n : ℕ
    n = if ltb (length b.w) (length o.w) then length o.w else length b.w

    longest : (l m : ℕ) → (l ≤ (if ltb l m then m else l)) × (m ≤ (if ltb l m then m else l))
    longest l m = ground arith

-- The member at a place of a word.
member_at :
    (k d : ℕ) (b : Bits)
    → d < word_bits
    → has (pos (k * word_bits + d)) b ≡ (digit d (word k b) == 1)
member_at k d b h =
    let in_word : (k * word_bits + d) / word_bits ≡ k = omega arith in
    let in_place : (k * word_bits + d) % word_bits ≡ d = omega arith in
    has-digit_of (k * word_bits + d) b
    ∙ ap (λ (x : ℕ). digit x (word ((k * word_bits + d) / word_bits) b) == 1) in_place
    ∙ ap (λ (x : ℕ). digit d (word x b) == 1) in_word

-- Two sets of 64-bit words are `equal` exactly when they have the same members: zero words at the end of
-- one of them play no part.
pub equal_iff :
    (b o : Bits)
    → IsBits b
    → IsBits o
    → (equal b o ≡ true) ↔ ((j : ℕ) → has (pos j) b ≡ has (pos j) o)
unfolding equal
equal_iff b o hb ho = (
  λ h j.
      has-digit_of j b
      ∙ ap (λ (x : ℕ). digit (j % word_bits) x == 1) (same_words b o h (j / word_bits))
      ∙ sym (has-digit_of j o),
  λ same. equal_from_complete _ 0 b o λ k.
      digit-ext word_bits (word k b) (word k o) (word_at-lt k b.w hb) (word_at-lt k o.w ho)
        λ d h. at_place k d h (same (k * word_bits + d)),
)
  where
    at_place :
        (k d : ℕ)
        → d < word_bits
        → has (pos (k * word_bits + d)) b ≡ has (pos (k * word_bits + d)) o
        → digit d (word k b) ≡ digit d (word k o)
    at_place k d h same =
        ground (
          arith,
          member_at k d b h,
          member_at k d o h,
          digit-lt d (word k b),
          digit-lt d (word k o),
        )
