-- ===== src/Analyzer/Flow/Held.antt =====
-- analyzer/flow/bits.go: what the state of a method, a write and a join hold, as two sets of variables.
use mocha.Prelude.{
  Bool, List, [], ap, arith, false, inl, inr, leb, length, not, refl, replicate, suc, true, zero, ℕ,
  ◌%◌, ◌&&◌, ◌+◌, ◌-◌, ◌/◌, ◌<◌, ◌==◌, ◌||◌, ◌∙◌, ◌∷◌, ◌≡◌, ◌⊎◌,
}
use mocha.Analyzer.Flow.{
  State, assign, has, join, mark_from, negsuc, new_bits, new_state, pos, set_bit, word_at,
  word_bits, ℤ,
}
use mocha.Analyzer.Flow.Digits.{digit, digit-zero}
use mocha.Analyzer.Flow.Equal.{and_bits-IsBits, clear-IsBits, new_bits-IsBits, set_bit-IsBits}
use mocha.Analyzer.Flow.Laws.{has-and_bits, has-clear}
use mocha.Analyzer.Flow.Sets.{IsBits, has-digit_of, has-set_bit}

-- Whether the variable at an index is a blank final, and whether it is a parameter.
abbrev pub is_blank : List Bool → ℕ → Bool
is_blank [] j = false
is_blank (b ∷ bs) zero = b
is_blank (b ∷ bs) (suc j) = is_blank bs j

abbrev pub is_given : List Bool → ℕ → Bool
is_given [] j = false
is_given (b ∷ bs) zero = not b
is_given (b ∷ bs) (suc j) = is_given bs j

abbrev pub is_index : ℤ → ℕ → Bool
is_index (pos i) j = i == j
is_index (negsuc i) j = false

zeros : (n i : ℕ) → word_at i (replicate n 0) ≡ 0
zeros zero i = refl
zeros (suc n) zero = refl
zeros (suc n) (suc i) = zeros n i

has-new_bits : (n j : ℕ) → has (pos j) (new_bits n) ≡ false
unfolding new_bits
has-new_bits zero j =
    has-digit_of j (new_bits 0) ∙ ap (λ (x : ℕ). x == 1) (digit-zero (j % word_bits))
has-new_bits (suc n) j =
    let some_words : (suc n == 0) ≡ false = ground arith in
    let cleared = zeros ((suc n + 63) / word_bits) (j / word_bits) in
    has-digit_of j (new_bits (suc n))
    ∙ rw some_words (
        ap (λ (x : ℕ). digit (j % word_bits) x == 1) cleared
        ∙ ap (λ (x : ℕ). x == 1) (digit-zero (j % word_bits)))

-- What a state holds, and that its words are words.
pub record Holds (s : State) (da du : ℕ → Bool) : Type 0 where
  pub da_eq : (j : ℕ) → has (pos j) s.da ≡ da j
  pub du_eq : (j : ℕ) → has (pos j) s.du ≡ du j
  pub words : IsBits s.da × IsBits s.du

-- The variables from number i on.
abbrev from : ℕ → (ℕ → Bool) → ℕ → Bool
from i f j = leb i j && f (j - i)

compare_cases : (i j : ℕ) → (i < j) ⊎ ((i ≡ j) ⊎ (j < i))
compare_cases i j = ground arith

from-cons :
    (i j : ℕ) (f g : ℕ → Bool)
    → ((m : ℕ) → g (suc m) ≡ f m)
    → from i g j ≡ ((i == j) && g 0) || from (suc i) f j
from-cons i j f g next = elim (compare_cases i j) [
  | inl less ↦
      let e : j - i ≡ suc (j - suc i) = omega arith in ground (arith, ap g e ∙ next (j - suc i))
  | inr (inl same) ↦ let e : j - i ≡ 0 = omega arith in ground (arith, ap g e)
  | inr (inr more) ↦ ground arith
]

mark_from-Holds :
    (i : ℕ) (blanks : List Bool) (s : State) (da du : ℕ → Bool)
    → Holds s da du
    → Holds
        (mark_from i blanks s)
        (λ j. da j || from i (is_given blanks) j)
        (λ j. du j || from i (is_blank blanks) j)
unfolding mark_from
mark_from-Holds i [] s da du h = record {
  da_eq = λ j. ground (arith, h.da_eq j);
  du_eq = λ j. ground (arith, h.du_eq j);
  words = h.words;
}
mark_from-Holds i (true ∷ blanks) s da du h =
    let marked =
      mark_from-Holds (suc i) blanks (record s { du = set_bit (pos i) s.du }) da
        (λ j. (i == j) || du j)
        (record {
          da_eq = h.da_eq;
          du_eq = λ j. has-set_bit i j s.du ∙ ap (λ v. (i == j) || v) (h.du_eq j);
          words = (h.words.0, set_bit-IsBits (pos i) s.du h.words.1);
        }) in
    record {
      da_eq = λ j. ground (
        arith,
        marked.da_eq j,
        from-cons i j (is_given blanks) (is_given (true ∷ blanks)) (λ m. refl),
      );
      du_eq = λ j. ground (
        arith,
        marked.du_eq j,
        from-cons i j (is_blank blanks) (is_blank (true ∷ blanks)) (λ m. refl),
      );
      words = marked.words;
    }
mark_from-Holds i (false ∷ blanks) s da du h =
    let marked =
      mark_from-Holds (suc i) blanks (record s { da = set_bit (pos i) s.da })
        (λ j. (i == j) || da j) du
        (record {
          da_eq = λ j. has-set_bit i j s.da ∙ ap (λ v. (i == j) || v) (h.da_eq j);
          du_eq = h.du_eq;
          words = (set_bit-IsBits (pos i) s.da h.words.0, h.words.1);
        }) in
    record {
      da_eq = λ j. ground (
        arith,
        marked.da_eq j,
        from-cons i j (is_given blanks) (is_given (false ∷ blanks)) (λ m. refl),
      );
      du_eq = λ j. ground (
        arith,
        marked.du_eq j,
        from-cons i j (is_blank blanks) (is_blank (false ∷ blanks)) (λ m. refl),
      );
      words = marked.words;
    }

pub new_state-Holds :
    (blanks : List Bool) → Holds (new_state blanks) (is_given blanks) (is_blank blanks)
unfolding new_state
new_state-Holds blanks =
    let marked =
      mark_from-Holds 0 blanks
        (record { da = new_bits (length blanks); du = new_bits (length blanks) }) (λ j. false)
        (λ j. false)
        (record {
          da_eq = has-new_bits (length blanks);
          du_eq = has-new_bits (length blanks);
          words = (new_bits-IsBits (length blanks), new_bits-IsBits (length blanks));
        }) in
    record {
      da_eq = λ j. marked.da_eq j ∙ from_zero j (is_given blanks);
      du_eq = λ j. marked.du_eq j ∙ from_zero j (is_blank blanks);
      words = marked.words;
    }
  where
    from_zero : (j : ℕ) (f : ℕ → Bool) → false || from 0 f j ≡ f j
    from_zero j f = let e : j - 0 ≡ j = omega arith in ground (arith, ap f e)

pub assign-Holds :
    (i : ℤ) (s : State) (da du : ℕ → Bool)
    → Holds s da du
    → Holds (assign i s) (λ j. is_index i j || da j) (λ j. not (is_index i j) && du j)
unfolding assign
assign-Holds (negsuc i) s da du h = record { da_eq = h.da_eq; du_eq = h.du_eq; words = h.words }
assign-Holds (pos i) s da du h = record {
  da_eq = λ j. has-set_bit i j s.da ∙ ap (λ v. (i == j) || v) (h.da_eq j);
  du_eq = λ j. has-clear i j s.du ∙ ap (λ v. not (i == j) && v) (h.du_eq j);
  words = (set_bit-IsBits (pos i) s.da h.words.0, clear-IsBits (pos i) s.du h.words.1);
}

pub join-Holds :
    (s t : State) (da du da' du' : ℕ → Bool)
    → Holds s da du
    → Holds t da' du'
    → Holds (join s t) (λ j. da j && da' j) (λ j. du j && du' j)
unfolding join
join-Holds s t da du da' du' h g = record {
  da_eq = λ j. ground (arith, has-and_bits j s.da t.da, h.da_eq j, g.da_eq j);
  du_eq = λ j. ground (arith, has-and_bits j s.du t.du, h.du_eq j, g.du_eq j);
  words = (
    and_bits-IsBits s.da t.da h.words.0 g.words.0,
    and_bits-IsBits s.du t.du h.words.1 g.words.1,
  );
}
