-- ===== src/Classfile/Wire.antt =====
-- classfile/reader.go and classfile/writer.go: a bounded big-endian cursor with a sticky error, and
-- a byte sink with backpatching. A `uint16` or `uint32` is a number below 2 ^ 16 or 2 ^ 32.
pub mod ReadBack
pub mod Sticky
mod Tests
use mocha.Prelude.{
  Bool, List, Option, [], bit_or, drop, false, if◌then◌else◌, length, ltb, none, set, some, take,
  true, ℕ, ◌%◌, ◌++◌, ◌+◌, ◌-◌, ◌<<<◌, ◌>>>◌, ◌^◌, ◌∷◌,
}

-- What `fail` was told; the offset is kept beside it.
pub data Reason : Type 0 where
  end_of_file negative_length : Reason
  zero_count unknown_tag tag_too_new bad_utf8_byte past_end : Reason

pub record SyntaxError : Type 0 where
  pub off : ℕ
  pub msg : Reason

pub record Reader : Type 0 where
  pub b : List ℕ
  pub off : ℕ
  pub err : Option SyntaxError

-- Only the first failure is kept.
unfoldable pub fail : Reason → Reader → Reader
fail msg r = elim r.err [
  | none ↦ record r { err = some (record { off = r.off; msg = msg }) }
  | some e ↦ r
]

-- `short`: whether `n` bytes cannot be read, and the reader with the failure noted.
unfoldable pub short : ℕ → Reader → Bool × Reader
unfolding fail
short n r = elim r.err [
  | some e ↦ (true, r)
  | none ↦ if ltb (length r.b) (r.off + n) then (true, fail end_of_file r) else (false, r)
]

-- A read of `n` bytes once `short` has answered: the value is computed from the bytes at the offset.
abbrev pub advance {ℓ} : {A : Type ℓ} → ℕ → A → (List ℕ → A) → Bool × Reader → A × Reader
advance n zero_value value (true, r) = (zero_value, r)
advance n zero_value value (false, r) =
    (value (take n (drop r.off r.b)), record r { off = r.off + n })

-- Big-endian bytes: `v[0]<<8 | v[1]`, and so on.
abbrev pub big_endian : ℕ → List ℕ → ℕ
big_endian v [] = v
big_endian v (c ∷ bs) = big_endian (bit_or (v <<< 8) c) bs

unfoldable pub read_u1 : Reader → ℕ × Reader
unfolding short
read_u1 r = advance 1 0 (big_endian 0) (short 1 r)

unfoldable pub read_u2 : Reader → ℕ × Reader
unfolding short
read_u2 r = advance 2 0 (big_endian 0) (short 2 r)

unfoldable pub read_u4 : Reader → ℕ × Reader
unfolding short
read_u4 r = advance 4 0 (big_endian 0) (short 4 r)

-- `bytes`; the length is an `int`, and a negative one, `none` here, is refused.
unfoldable pub read_bytes : Option ℕ → Reader → List ℕ × Reader
unfolding short fail
read_bytes none r = ([], fail negative_length r)
read_bytes (some n) r = advance n [] (λ v. v) (short n r)

unfoldable pub skip : ℕ → Reader → Reader
unfolding short
skip n r = (advance n [] (λ v. v) (short n r)).1

abbrev pub done : Reader → Bool
done r = elim r.err [ none ↦ false | some e ↦ true ]

-- The writer is the bytes written so far.
unfoldable pub u1 : ℕ → List ℕ → List ℕ
u1 v w = w ++ (v ∷ [])

unfoldable pub u2 : ℕ → List ℕ → List ℕ
u2 v w = w ++ ((v >>> 8) % 256 ∷ v % 256 ∷ [])

unfoldable pub u4 : ℕ → List ℕ → List ℕ
u4 v w = w ++ ((v >>> 24) % 256 ∷ (v >>> 16) % 256 ∷ (v >>> 8) % 256 ∷ v % 256 ∷ [])

unfoldable pub raw : List ℕ → List ℕ → List ℕ
raw b w = w ++ b

-- An assignment past the end is a panic in Go; here it changes nothing.
unfoldable pub patch_u2 : ℕ → ℕ → List ℕ → List ℕ
patch_u2 off v w = set (set w off ((v >>> 8) % 256)) (off + 1) (v % 256)

unfoldable pub patch_u4 : ℕ → ℕ → List ℕ → List ℕ
patch_u4 off v w =
    set
      (set (set (set w off ((v >>> 24) % 256)) (off + 1) ((v >>> 16) % 256)) (off + 2)
        ((v >>> 8) % 256))
      (off + 3) (v % 256)

-- `attr`: the length of the body is patched in after the body has run.
unfoldable pub attr : ℕ → (List ℕ → List ℕ) → List ℕ → List ℕ
unfolding u2 u4 patch_u4
attr name_idx body w =
    let header = u2 name_idx w in
    let start = u4 0 header in
    let after = body start in
    patch_u4 (length header) ((length after - length start) % 2 ^ 32) after
