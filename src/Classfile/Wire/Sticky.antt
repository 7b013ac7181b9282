-- ===== src/Classfile/Wire/Sticky.antt =====
-- classfile/reader.go: what a read does, and that errors stick.
use mocha.Prelude.{List, [], arith, drop, length, none, some, take, ℕ, ◌+◌, ◌<◌, ◌≡◌, ◌≢◌, ◌≤◌, ◌⊎◌}
use mocha.Classfile.Wire.{Reader, advance, big_endian, read_bytes, read_u1, read_u2, read_u4, short}

-- What a read of `n` bytes does to a reader with no error.
pub advance_reads :
    {A : Type 0} (n : ℕ) (zero_value : A) (value : List ℕ → A) (r : Reader)
    → r.err ≡ none
    → r.off + n ≤ length r.b
    → advance n zero_value value (short n r)
      ≡ (value (take n (drop r.off r.b)), record r { off = r.off + n })
unfolding short
advance_reads n zero_value value r clean fits = ground arith

-- A read that finds an error, or too few bytes, answers the zero value and does not move.
abbrev pub Refused : {A : Type 0} → A → Reader → A × Reader → Type 0
Refused zero_value r (a, r') =
    (a ≡ zero_value) × (r'.off ≡ r.off) × (r'.b ≡ r.b) × (r'.err ≢ none) × (r.err ≢ none → r' ≡ r)

advance-Refused :
    {A : Type 0} (n : ℕ) (zero_value : A) (value : List ℕ → A) (r : Reader)
    → (r.err ≢ none) ⊎ (length r.b < r.off + n)
    → Refused zero_value r (advance n zero_value value (short n r))
unfolding short
advance-Refused n zero_value value r h = ground arith

-- After a failure, and where too few bytes are left, `u1`, `u2`, `u4` and `bytes` answer zero,
-- leave the offset and the input alone, and leave an error; an earlier error is kept as it was.
pub reads-Refused :
    (r : Reader) (n : ℕ)
    → (r.err ≢ none ⊎ (length r.b < r.off + 1) → Refused 0 r (read_u1 r))
      × (r.err ≢ none ⊎ (length r.b < r.off + 2) → Refused 0 r (read_u2 r))
      × (r.err ≢ none ⊎ (length r.b < r.off + 4) → Refused 0 r (read_u4 r))
      × (r.err ≢ none ⊎ (length r.b < r.off + n) → Refused [] r (read_bytes (some n) r))
      × Refused [] r (read_bytes none r)
unfolding read_u1 read_u2 read_u4 read_bytes
reads-Refused r n = (
  λ h. advance-Refused 1 0 (big_endian 0) r h,
  λ h. advance-Refused 2 0 (big_endian 0) r h,
  λ h. advance-Refused 4 0 (big_endian 0) r h,
  λ h. advance-Refused n [] (λ v. v) r h,
  ground arith,
)
