-- ===== src/Jvm/Mutf8/Decode.antt =====
-- `Decode` on any bytes: it ends, its fast path changes nothing, and what it writes is a rune.
use mocha.Prelude.{
  All, Bool-cases, List, Result, Result-cases, [], arith, drop, err, inl, inr, length, length-drop,
  ok, refl, stuck, suc, sym, true, zero, ℕ, ◌+◌, ◌<◌, ◌>>=◌, ◌∷◌, ◌≡◌, ◌≤◌, ◌⊎◌,
}
use mocha.Jvm.Mutf8.{
  IsScalar, SyntaxError, decode, decode_loop, decode_step, is_simple, pair_with, rune_error,
  three_byte, three_rune, three_value, two_byte,
}
use mocha.Jvm.Mutf8.Bytes.{decode_rune_range, three_rune_value, two_rune_value}

-- Taking `n` bytes keeps within the input.
abbrev pub Takes : ℕ → List ℕ → Result SyntaxError (ℕ × ℕ) → Type 0
Takes i rest (ok (r, n)) = IsScalar r × (1 ≤ n) × (n ≤ suc (length rest))
Takes i rest (err e) = (i ≤ e.off) × (e.off ≤ i + length rest)
Takes i rest stuck = ⊥

two_byte-Takes : (i x : ℕ) (rest : List ℕ) → Takes i rest (two_byte i x rest)
unfolding two_byte
two_byte-Takes i x [] = ground arith
two_byte-Takes i x (y ∷ rest) = ground (arith, two_rune_value x y)

pair_with_range :
    (r : ℕ) (rest : List ℕ)
    → (pair_with r rest ≡ rune_error)
      ⊎ ((0x10000 ≤ pair_with r rest) × (pair_with r rest < 0x110000) × (3 ≤ length rest))
unfolding pair_with
pair_with_range r [] = inl refl
pair_with_range r (x ∷ []) = inl refl
pair_with_range r (x ∷ y ∷ []) = inl refl
pair_with_range r (x ∷ y ∷ z ∷ rest) = ground (arith, decode_rune_range r (three_rune x y z))

three_value-Takes :
    (i r : ℕ) (rest : List ℕ)
    → r < 0x10000
    → IsScalar (three_value r rest).0
      × (3 ≤ (three_value r rest).1)
      × ((three_value r rest).1 ≤ 3 + length rest)
unfolding three_value
three_value-Takes i r rest h = ground (arith, pair_with_range r rest)

three_byte-Takes : (i x : ℕ) (rest : List ℕ) → Takes i rest (three_byte i x rest)
unfolding three_byte
three_byte-Takes i x [] = ground arith
three_byte-Takes i x (y ∷ []) = ground arith
three_byte-Takes i x (y ∷ z ∷ rest) = ground (
  arith,
  three_rune_value x y z,
  three_value-Takes i (three_rune x y z) rest (omega (arith, three_rune_value x y z)),
)

-- A round takes a byte at least and no more than there are, and writes a rune; an error lies in
-- the bytes not yet taken.
decode_step-Takes : (i x : ℕ) (rest : List ℕ) → Takes i rest (decode_step i x rest)
unfolding decode_step
decode_step-Takes i x rest = ground (arith, two_byte-Takes i x rest, three_byte-Takes i x rest)

-- What `decode_loop` answers at offset `i` on the bytes `b`: runes, no more than there are bytes,
-- or an error inside `b`.
abbrev pub Outcome : ℕ → List ℕ → Result SyntaxError (List ℕ) → Type 0
Outcome i b (ok s) = All IsScalar s × (length s ≤ length b)
Outcome i b (err e) = (i ≤ e.off) × (e.off < i + length b)
Outcome i b stuck = ⊥

Outcome-cons :
    (i r n : ℕ) (b : List ℕ) (m : Result SyntaxError (List ℕ))
    → IsScalar r
    → 1 ≤ n
    → n ≤ length b
    → Outcome (i + n) (drop n b) m
    → Outcome i b (do rs ← m; ok (r ∷ rs))
Outcome-cons i r n b (ok s) hr lo hi h = ((hr, h.0), omega (arith, length-drop n b))
Outcome-cons i r n b (err e) hr lo hi h = omega (arith, length-drop n b)
Outcome-cons i r n b stuck hr lo hi h = h

pub decode_loop-Outcome :
    (fuel i : ℕ) (b : List ℕ) → length b ≤ fuel → Outcome i b (decode_loop fuel i b)
unfolding decode_loop
decode_loop-Outcome fuel i [] h = (tt, omega arith)
decode_loop-Outcome zero i (x ∷ rest) h = absurd (omega arith)
decode_loop-Outcome (suc fuel) i (x ∷ rest) h = elim (Result-cases (decode_step i x rest)) [
  | inl ((r, n), e) ↦
      let (scalar, lo, hi) = step e in
      rw e (
        Outcome-cons i r n (x ∷ rest) _ scalar lo hi (
          decode_loop-Outcome fuel (i + n) (drop n (x ∷ rest))
            (omega (arith, length-drop n (x ∷ rest)))))
  | inr (inl (bad, e)) ↦ rw e (let (lo, hi) = step e in (lo, omega arith))
  | inr (inr e) ↦ absurd (rw e at (decode_step-Takes i x rest))
]
  where
    step : {m : Result SyntaxError (ℕ × ℕ)} → decode_step i x rest ≡ m → Takes i rest m
    step e = rw e at (decode_step-Takes i x rest)

decode_step_simple :
    (i x : ℕ) (rest : List ℕ)
    → is_simple (x ∷ rest) ≡ true
    → (decode_step i x rest ≡ ok (x, 1)) × (is_simple rest ≡ true)
unfolding decode_step is_simple
decode_step_simple i x rest h = ground arith

decode_loop_simple :
    (fuel i : ℕ) (b : List ℕ) → length b ≤ fuel → is_simple b ≡ true → decode_loop fuel i b ≡ ok b
unfolding decode_loop
decode_loop_simple fuel i [] h s = refl
decode_loop_simple zero i (x ∷ rest) h s = absurd (omega arith)
decode_loop_simple (suc fuel) i (x ∷ rest) h s =
    let (e, s') = decode_step_simple i x rest s in
    rw e (rw (decode_loop_simple fuel (i + 1) rest (omega arith) s'))

-- The fast path over ASCII bytes answers what the loop would.
pub decode-decode_loop : (b : List ℕ) → decode b ≡ decode_loop (length b) 0 b
unfolding decode
decode-decode_loop b = elim (Bool-cases (is_simple b)) [
  | inl s ↦ rw s (sym (decode_loop_simple (length b) 0 b (omega arith) s))
  | inr s ↦ rw s
]

-- `Decode` ends on every input. It writes runes only, at most one for a byte, and reports an
-- error at an offset inside the input.
pub decode-Outcome : (b : List ℕ) → Outcome 0 b (decode b)
decode-Outcome b = rw decode-decode_loop (decode_loop-Outcome (length b) 0 b (omega arith))
