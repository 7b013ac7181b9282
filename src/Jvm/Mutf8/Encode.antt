-- ===== src/Jvm/Mutf8/Encode.antt =====
-- What `Encode` writes, in plain arithmetic.
use mocha.Prelude.{
  All, All-append, List, [], arith, false, inl, inr, length, length-append, refl, sym, ℕ, ◌%◌, ◌*◌,
  ◌++◌, ◌+◌, ◌-◌, ◌/◌, ◌<◌, ◌∙◌, ◌∷◌, ◌≡◌, ◌≤◌, ◌⊎◌,
}
use mocha.Jvm.Mutf8.{IsScalar, encode, encode_one, encoded_len, is_surrogate, triple}
use mocha.Jvm.Mutf8.Bytes.{encode_rune_value, low_six, mark_six, mark_three, mark_two}
use mathlib.Core.Path.{subst}

pub triple_value :
    (r : ℕ) → r ≤ 0xFFFF → triple r ≡ (224 + r / 4096) ∷ (128 + r / 64 % 64) ∷ (128 + r % 64) ∷ []
unfolding triple
triple_value r h = ground (
  arith,
  mark_three (r / 4096) (omega arith),
  low_six (r / 64),
  low_six r,
  mark_six (r / 64 % 64) (omega arith),
  mark_six (r % 64) (omega arith),
)

-- The four forms.
pub encode_one_ascii : (r : ℕ) → 1 ≤ r → r ≤ 0x7F → encode_one r ≡ r ∷ []
unfolding encode_one
encode_one_ascii r lo hi = ground arith

pub encode_one_two :
    (r : ℕ) → (r ≡ 0) ⊎ (0x80 ≤ r) → r ≤ 0x7FF → encode_one r ≡ (192 + r / 64) ∷ (128 + r % 64) ∷ []
unfolding encode_one
encode_one_two r lo hi =
    ground (arith, mark_two (r / 64) (omega arith), low_six r, mark_six (r % 64) (omega arith))

pub encode_one_three :
    (r : ℕ)
    → 0x800 ≤ r
    → r ≤ 0xFFFF
    → encode_one r ≡ (224 + r / 4096) ∷ (128 + r / 64 % 64) ∷ (128 + r % 64) ∷ []
unfolding encode_one
encode_one_three r lo hi = ground (arith, triple_value r hi)

pub encode_one_six :
    (h l : ℕ)
    → h < 1024
    → l < 1024
    → encode_one (h * 1024 + l + 0x10000) ≡ triple (0xD800 + h) ++ triple (0xDC00 + l)
unfolding encode_one
encode_one_six h l hh hl =
    ground (arith, encode_rune_value (h * 1024 + l + 0x10000) (omega arith) (omega arith))

pub encode_one-triple : (r : ℕ) → 0x800 ≤ r → r ≤ 0xFFFF → encode_one r ≡ triple r
encode_one-triple r lo hi = encode_one_three r lo hi ∙ sym (triple_value r hi)

-- `EncodedLen` is the length of what `Encode` writes.
pub encoded_len-encode : (s : List ℕ) → encoded_len s ≡ length (encode s)
unfolding encoded_len encode
encoded_len-encode [] = refl
encoded_len-encode (r ∷ s) =
    ground (arith, encoded_len-encode s, length-append (encode_one r) (encode s))

-- The four forms cover the runes of a Go string.
pub forms :
    (r : ℕ)
    → IsScalar r
    → (((1 ≤ r) × (r ≤ 0x7F)) ⊎ (((r ≡ 0) ⊎ (0x80 ≤ r)) × (r ≤ 0x7FF)))
      ⊎ (((0x800 ≤ r) × (r ≤ 0xFFFF) × (is_surrogate r ≡ false)) ⊎ ((0x10000 ≤ r) × (r < 0x110000)))
forms r s = ground arith

abbrev IsFree : ℕ → Type 0
IsFree b = (0 < b) × (b < 0xF0)

triple-IsFree : (r : ℕ) → 0x800 ≤ r → r ≤ 0xFFFF → All IsFree (triple r)
triple-IsFree r lo hi = rw (triple_value r hi) (omega arith)

encode_one-IsFree : (r : ℕ) → IsScalar r → All IsFree (encode_one r)
encode_one-IsFree r s = elim (forms r s) [
  | inl (inl (lo, hi)) ↦ rw (encode_one_ascii r lo hi) (omega arith)
  | inl (inr (lo, hi)) ↦ rw (encode_one_two r lo hi) (omega arith)
  | inr (inl (lo, hi, plain)) ↦ rw (encode_one-triple r lo hi) (triple-IsFree r lo hi)
  | inr (inr (lo, hi)) ↦
      let h : ℕ = (r - 0x10000) / 1024 in
      let l : ℕ = (r - 0x10000) % 1024 in
      let back : h * 1024 + l + 0x10000 ≡ r = omega arith in
      subst (λ t. All IsFree (encode_one t)) back
        (rw (encode_one_six h l (omega arith) (omega arith)) (
          All-append IsFree (triple (0xD800 + h)) (triple (0xDC00 + l))
            (triple-IsFree (0xD800 + h) (omega arith) (omega arith))
            (triple-IsFree (0xDC00 + l) (omega arith) (omega arith))))
]

-- In the encoding of a Go string no byte is NUL and none is in the range 0xF0 to 0xFF.
pub encode-IsFree : (s : List ℕ) → All IsScalar s → All (λ b. (0 < b) × (b < 0xF0)) (encode s)
unfolding encode
encode-IsFree [] h = tt
encode-IsFree (r ∷ s) (hr, hs) =
    All-append IsFree (encode_one r) (encode s) (encode_one-IsFree r hr) (encode-IsFree s hs)
