-- ===== src/Jvm/Mutf8/Canonical.antt =====
-- The encoding is canonical: `Decode` accepts no other spelling of the runes that it returns.
-- (A lone surrogate, which a Go string cannot hold, is replaced by U+FFFD and is not spelled back.)
use mocha.Prelude.{
  All, All-drop, List, Result, [], ap, append_assoc, arith, bind-eq-ok, bit_and, drop, err, length,
  ok, refl, stuck, suc, true, zero, ℕ, ◌++◌, ◌+◌, ◌-◌, ◌<◌, ◌∙◌, ◌∷◌, ◌≡◌, ◌≢◌, ◌≤◌, ◌⊎◌,
}
use mocha.Jvm.Mutf8.{
  IsByte, SyntaxError, decode, decode_loop, decode_rune, decode_step, encode, encode_one,
  is_continuation, pair_with, rune_error, three_byte, three_rune, three_value, triple, two_byte,
  two_rune,
}
use mocha.Jvm.Mutf8.Bytes.{
  decode_rune_value, three_rune_value, top_four, top_three, top_two, two_rune_value,
}
use mocha.Jvm.Mutf8.Decode.{decode-decode_loop}
use mocha.Jvm.Mutf8.Encode.{
  encode_one_ascii, encode_one_six, encode_one-triple, encode_one_two, triple_value,
}

module _ (x y : ℕ) (hx : IsByte x) (hy : IsByte y) where
  two_spelled :
      bit_and x 0xE0 ≡ 0xC0
      → is_continuation y ≡ true
      → (two_rune x y ≡ 0) ⊎ (0x80 ≤ two_rune x y)
      → encode_one (two_rune x y) ≡ x ∷ y ∷ []
  unfolding is_continuation
  two_spelled p q range = ground (
    arith,
    top_three x hx,
    top_two y hy,
    two_rune_value x y,
    encode_one_two (two_rune x y) range (omega (arith, two_rune_value x y)),
  )

module _ (x y z : ℕ) (hx : IsByte x) (hy : IsByte y) (hz : IsByte z) where
  -- The three bytes are those of `triple`.
  triple_spelled :
      bit_and x 0xF0 ≡ 0xE0
      → is_continuation y ≡ true
      → is_continuation z ≡ true
      → (triple (three_rune x y z) ≡ x ∷ y ∷ z ∷ []) × (three_rune x y z < 0x10000)
  unfolding is_continuation
  triple_spelled p q r = ground (
    arith,
    top_four x hx,
    top_two y hy,
    top_two z hz,
    three_rune_value x y z,
    triple_value (three_rune x y z) (omega (arith, three_rune_value x y z)),
  )

-- A pair of halves is spelled by the two triples.
halves_spelled :
    (h l : ℕ) {r1 r2 : ℕ}
    → h < 1024
    → l < 1024
    → 0xD800 + h ≡ r1
    → 0xDC00 + l ≡ r2
    → encode_one (decode_rune r1 r2) ≡ triple r1 ++ triple r2
halves_spelled h l hh hl e1 e2 =
    rw (← e1, ← e2, decode_rune_value h l hh hl) (encode_one_six h l hh hl)

decode_rune_spelled :
    (r1 r2 : ℕ)
    → decode_rune r1 r2 ≢ rune_error
    → encode_one (decode_rune r1 r2) ≡ triple r1 ++ triple r2
decode_rune_spelled r1 r2 ne =
    let (a, b, c, d) = halves in halves_spelled (r1 - 0xD800) (r2 - 0xDC00) a b c d
  where
    halves :
        (r1 - 0xD800 < 1024)
        × (r2 - 0xDC00 < 1024)
        × (0xD800 + (r1 - 0xD800) ≡ r1)
        × (0xDC00 + (r2 - 0xDC00) ≡ r2)
    halves = unfold decode_rune in ground arith

-- What a round took is the encoding of the rune that it wrote.
abbrev Spelled : List ℕ → Result SyntaxError (ℕ × ℕ) → Type 0
Spelled b (ok (r, n)) = r ≢ rune_error → encode_one r ++ drop n b ≡ b
Spelled b (err e) = Unit
Spelled b stuck = Unit

two_byte-Spelled :
    (i x : ℕ) (rest : List ℕ)
    → IsByte x
    → All IsByte rest
    → bit_and x 0xE0 ≡ 0xC0
    → Spelled (x ∷ rest) (two_byte i x rest)
unfolding two_byte
two_byte-Spelled i x [] hx hr p = tt
two_byte-Spelled i x (y ∷ rest) hx (hy, hr) p = ground (arith, two_spelled x y hx hy p)

pair_with-Spelled :
    (r : ℕ) (rest : List ℕ)
    → All IsByte rest
    → pair_with r rest ≢ rune_error
    → encode_one (pair_with r rest) ++ drop 3 rest ≡ triple r ++ rest
unfolding pair_with
pair_with-Spelled r [] h ne = absurd (ne refl)
pair_with-Spelled r (x ∷ []) h ne = absurd (ne refl)
pair_with-Spelled r (x ∷ y ∷ []) h ne = absurd (ne refl)
pair_with-Spelled r (x ∷ y ∷ z ∷ rest) (hx, (hy, (hz, hr))) ne = ground (
  arith,
  triple_spelled x y z hx hy hz,
  decode_rune_spelled r (three_rune x y z),
  append_assoc (triple r) (triple (three_rune x y z)) rest,
)

three_byte-Spelled :
    (i x : ℕ) (rest : List ℕ)
    → IsByte x
    → All IsByte rest
    → bit_and x 0xF0 ≡ 0xE0
    → Spelled (x ∷ rest) (three_byte i x rest)
unfolding three_byte three_value
three_byte-Spelled i x [] hx h p = tt
three_byte-Spelled i x (y ∷ []) hx h p = tt
three_byte-Spelled i x (y ∷ z ∷ rest) hx (hy, (hz, hr)) p = ground (
  arith,
  triple_spelled x y z hx hy hz p,
  encode_one-triple (three_rune x y z),
  pair_with-Spelled (three_rune x y z) rest hr,
)

decode_step-Spelled :
    (i x : ℕ) (rest : List ℕ)
    → IsByte x
    → All IsByte rest
    → Spelled (x ∷ rest) (decode_step i x rest)
unfolding decode_step
decode_step-Spelled i x rest hx h =
    ground
      (arith, encode_one_ascii x, two_byte-Spelled i x rest hx h, three_byte-Spelled i x rest hx h)

-- One round put in front of the rest.
Spelled-cons :
    (i x : ℕ) (rest rs : List ℕ) {r n : ℕ}
    → decode_step i x rest ≡ ok (r, n)
    → Spelled (x ∷ rest) (decode_step i x rest)
    → r ≢ rune_error
    → encode rs ≡ drop n (x ∷ rest)
    → encode (r ∷ rs) ≡ x ∷ rest
unfolding encode
Spelled-cons i x rest rs {r} e h ne ih = rw ih ((rw e at h) ne)

decode_loop-Spelled :
    (fuel i : ℕ) (b s : List ℕ)
    → All IsByte b
    → decode_loop fuel i b ≡ ok s
    → All (λ r. r ≢ rune_error) s
    → encode s ≡ b
unfolding decode_loop
decode_loop-Spelled fuel i [] [] h e ne = unfold encode in refl
decode_loop-Spelled fuel i [] (r ∷ rs) h e ne = cc
decode_loop-Spelled zero i (x ∷ rest) s h e ne = cc
decode_loop-Spelled (suc fuel) i (x ∷ rest) [] (hx, h) e ne =
    let (p, step, more) = bind-eq-ok (decode_step i x rest) _ e in
    let (rs, loop, whole) = bind-eq-ok (decode_loop fuel (i + p.1) (drop p.1 (x ∷ rest))) _ more in
    cc
decode_loop-Spelled (suc fuel) i (x ∷ rest) (r ∷ rs) (hx, h) e (ne, nes) =
    let (p, step, more) = bind-eq-ok (decode_step i x rest) _ e in
    let (qs, loop, whole) = bind-eq-ok (decode_loop fuel (i + p.1) (drop p.1 (x ∷ rest))) _ more in
    let same : p.0 ≡ r = cc in
    let sames : qs ≡ rs = cc in
    Spelled-cons i x rest rs {r = r} {n = p.1} (step ∙ ap (λ t. ok (t, p.1)) same)
      (decode_step-Spelled i x rest hx h) ne
      (decode_loop-Spelled fuel (i + p.1) (drop p.1 (x ∷ rest)) rs
        (All-drop IsByte p.1 (x ∷ rest) (hx, h)) (loop ∙ ap ok sames) nes)

-- Bytes below 256 that decode to runes without U+FFFD are the encoding of these runes: no other
-- spelling is accepted.
pub encode-decode :
    (b s : List ℕ) → All IsByte b → decode b ≡ ok s → All (λ r. r ≢ rune_error) s → encode s ≡ b
encode-decode b s h e ne = decode_loop-Spelled (length b) 0 b s h (rw decode-decode_loop at e) ne
