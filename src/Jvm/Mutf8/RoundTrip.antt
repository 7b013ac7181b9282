-- ===== src/Jvm/Mutf8/RoundTrip.antt =====
-- `Decode` reads back what `Encode` wrote.
-- One round of the decoder on the encoding of one rune, whatever follows.
use mocha.Prelude.{
  All, List, [], ap, arith, drop, drop-append, false, inl, inr, length, length-append, ok, refl,
  suc, zero, ℕ, ◌%◌, ◌*◌, ◌++◌, ◌+◌, ◌-◌, ◌/◌, ◌<◌, ◌∷◌, ◌≡◌, ◌≤◌, ◌⊎◌,
}
use mocha.Jvm.Mutf8.{
  IsScalar, decode, decode_loop, decode_step, encode, encode_one, is_surrogate, pair_with,
  three_value, triple,
}
use mocha.Jvm.Mutf8.Bytes.{
  decode_rune_value, three_rune_value, top_four, top_three, top_two, two_rune_value,
}
use mocha.Jvm.Mutf8.Decode.{decode-decode_loop}
use mocha.Jvm.Mutf8.Encode.{
  encode_one_ascii, encode_one_six, encode_one_three, encode_one_two, forms, triple_value,
}
use mathlib.Core.Path.{subst}

abbrev Reads : ℕ → List ℕ → ℕ → List ℕ → Type 0
Reads r enc n rest =
    (x : ℕ) × (tail : List ℕ) × (enc ≡ x ∷ tail)
    × (length enc ≡ n)
    × ((i : ℕ) → decode_step i x (tail ++ rest) ≡ ok (r, n))

Reads-ascii : (r : ℕ) (rest : List ℕ) → 1 ≤ r → r ≤ 0x7F → Reads r (encode_one r) 1 rest
unfolding decode_step
Reads-ascii r rest lo hi = rw (encode_one_ascii r lo hi) (r, [], refl, refl, λ i. ground arith)

decode_two :
    (i a c : ℕ) (rest : List ℕ)
    → a < 32
    → c < 64
    → (a * 64 + c ≡ 0) ⊎ (0x80 ≤ a * 64 + c)
    → decode_step i (192 + a) ((128 + c) ∷ rest) ≡ ok (a * 64 + c, 2)
unfolding decode_step
decode_two i a c rest ha hc range =
    ground (arith, top_three (192 + a), top_two (128 + c), two_rune_value (192 + a) (128 + c))

Reads-two :
    (r : ℕ) (rest : List ℕ) → (r ≡ 0) ⊎ (0x80 ≤ r) → r ≤ 0x7FF → Reads r (encode_one r) 2 rest
Reads-two r rest lo hi = rw (encode_one_two r lo hi) (
  192 + r / 64,
  (128 + r % 64) ∷ [],
  refl,
  refl,
  λ i. ground (arith, decode_two i (r / 64) (r % 64) rest),
)

-- Three bytes of a rune, before surrogates are looked at.
decode_three :
    (i a b c : ℕ) (rest : List ℕ)
    → a < 16
    → b < 64
    → c < 64
    → 0x800 ≤ a * 4096 + b * 64 + c
    → decode_step i (224 + a) ((128 + b) ∷ (128 + c) ∷ rest)
      ≡ ok (three_value (a * 4096 + b * 64 + c) rest)
unfolding decode_step
decode_three i a b c rest ha hb hc range = ground (
  arith,
  top_three (224 + a),
  top_four (224 + a),
  top_two (128 + b),
  top_two (128 + c),
  three_rune_value (224 + a) (128 + b) (128 + c),
)

Reads-three :
    (r : ℕ) (rest : List ℕ)
    → 0x800 ≤ r
    → r ≤ 0xFFFF
    → is_surrogate r ≡ false
    → Reads r (encode_one r) 3 rest
unfolding three_value
Reads-three r rest lo hi plain = rw (encode_one_three r lo hi) (
  224 + r / 4096,
  (128 + r / 64 % 64) ∷ (128 + r % 64) ∷ [],
  refl,
  refl,
  λ i. ground (arith, decode_three i (r / 4096) (r / 64 % 64) (r % 64) rest),
)

-- A high half followed by the three bytes of a low half.
pair_with_low :
    (h l : ℕ) (rest : List ℕ)
    → h < 1024
    → l < 1024
    → pair_with (0xD800 + h) (triple (0xDC00 + l) ++ rest) ≡ h * 1024 + l + 0x10000
unfolding pair_with
pair_with_low h l rest hh hl =
    let r : ℕ = 0xDC00 + l in
    rw (triple_value (0xDC00 + l) (omega arith)) (
      ground (
        arith,
        top_four (224 + r / 4096),
        top_two (128 + r / 64 % 64),
        top_two (128 + r % 64),
        three_rune_value (224 + r / 4096) (128 + r / 64 % 64) (128 + r % 64),
        decode_rune_value h l,
      ))

Reads-six :
    (h l : ℕ) (rest : List ℕ)
    → h < 1024
    → l < 1024
    → Reads (h * 1024 + l + 0x10000) (encode_one (h * 1024 + l + 0x10000)) 6 rest
unfolding three_value
Reads-six h l rest hh hl =
    let r : ℕ = 0xD800 + h in
    rw (encode_one_six h l hh hl, triple_value (0xD800 + h) (omega arith))
      (
        224 + r / 4096,
        (128 + r / 64 % 64) ∷ (128 + r % 64) ∷ triple (0xDC00 + l),
        refl,
        rw (triple_value (0xDC00 + l) (omega arith)),
        λ i. ground (
          arith,
          decode_three i (r / 4096) (r / 64 % 64) (r % 64) (triple (0xDC00 + l) ++ rest),
          pair_with_low h l rest,
        ),
      )

-- Every rune of a Go string is read back from its encoding.
Reads-scalar : (r : ℕ) (rest : List ℕ) → IsScalar r → (n : ℕ) × Reads r (encode_one r) n rest
Reads-scalar r rest s = elim (forms r s) [
  | inl (inl (lo, hi)) ↦ (1, Reads-ascii r rest lo hi)
  | inl (inr (lo, hi)) ↦ (2, Reads-two r rest lo hi)
  | inr (inl (lo, hi, plain)) ↦ (3, Reads-three r rest lo hi plain)
  | inr (inr (lo, hi)) ↦
      let k : ℕ = r - 0x10000 in
      let back : k / 1024 * 1024 + k % 1024 + 0x10000 ≡ r = omega arith in
      (
        6,
        subst (λ t. Reads t (encode_one t) 6 rest) back
            (Reads-six (k / 1024) (k % 1024) rest (omega arith) (omega arith)),
      )
]

-- After the round the bytes of the rune are taken.
skip :
    (enc : List ℕ) {n x : ℕ} {tail : List ℕ} (rest : List ℕ)
    → enc ≡ x ∷ tail
    → length enc ≡ n
    → (drop n (x ∷ (tail ++ rest)) ≡ rest) × (length (enc ++ rest) ≡ n + length rest) × (1 ≤ n)
skip enc {n} rest form size = (
  subst (λ t. drop n (t ++ rest) ≡ rest) form
      (subst (λ k. drop k (enc ++ rest) ≡ rest) size (drop-append enc rest)),
  omega (arith, length-append enc rest),
  omega (arith, ap length form),
)

decode_loop_round :
    (fuel i r : ℕ) (enc rest s : List ℕ) {n : ℕ}
    → Reads r enc n rest
    → length (enc ++ rest) ≤ suc fuel
    → (length rest ≤ fuel → decode_loop fuel (i + n) rest ≡ ok s)
    → decode_loop (suc fuel) i (enc ++ rest) ≡ ok (r ∷ s)
unfolding decode_loop
decode_loop_round fuel i r enc rest s (x, tail, form, size, reads) f ih =
    let (skips, sizes, taken) = skip enc rest form size in
    rw (form, reads i) (rw (skips, ih (omega arith)))

decode_loop-encode :
    (s : List ℕ) (fuel i : ℕ)
    → All IsScalar s
    → length (encode s) ≤ fuel
    → decode_loop fuel i (encode s) ≡ ok s
unfolding encode
decode_loop-encode [] fuel i h f = unfold decode_loop in refl
decode_loop-encode (r ∷ s) zero i (hr, hs) f =
    let (n, reads) = Reads-scalar r (encode s) hr in
    let (skips, sizes, taken) = skip (encode_one r) (encode s) reads.2 reads.3 in
    absurd (omega arith)
decode_loop-encode (r ∷ s) (suc fuel) i (hr, hs) f =
    let (n, reads) = Reads-scalar r (encode s) hr in
    let (skips, sizes, taken) = skip (encode_one r) (encode s) reads.2 reads.3 in
    decode_loop_round fuel i r (encode_one r) (encode s) s reads (omega arith)
      (λ f'. decode_loop-encode s fuel (i + n) hs (omega arith))

-- `Decode` reads back what `Encode` wrote, for every Go string: a list of runes that are no
-- surrogates and lie below 0x110000.
pub decode-encode : (s : List ℕ) → All IsScalar s → decode (encode s) ≡ ok s
decode-encode s h =
    rw decode-decode_loop (decode_loop-encode s (length (encode s)) 0 h (omega arith))
