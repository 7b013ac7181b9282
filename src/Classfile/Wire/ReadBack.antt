-- ===== src/Classfile/Wire/ReadBack.antt =====
-- The cursor reads back what the sink wrote.
use mocha.Prelude.{
  All, List, [], ap, append_assoc, arith, drop, drop-append, length, length-append, none, refl, set,
  set-append, some, take, take-append, ℕ, ◌%◌, ◌*◌, ◌++◌, ◌+◌, ◌-◌, ◌<◌, ◌>>>◌, ◌^◌, ◌∙◌, ◌∷◌, ◌≡◌,
  ◌≤◌,
}
use mocha.Classfile.Wire.{
  Reader, advance, attr, big_endian, patch_u2, patch_u4, raw, read_bytes, read_u1, read_u2, read_u4,
  short, u1, u2, u4,
}
use mocha.Classfile.Wire.Sticky.{advance_reads}
use mocha.Prelude.Bits.{bit_or_field}

-- The reader over `b`, at the place where `w` ended.
abbrev pub at_end_of : List ℕ → List ℕ → Reader
at_end_of w b = record { b = b; off = length w; err = none }

field_at :
    {A : Type 0} (n : ℕ) (zero_value : A) (value : List ℕ → A) (w field rest : List ℕ)
    → length field ≡ n
    → advance n zero_value value (short n (at_end_of w ((w ++ field) ++ rest)))
      ≡ (value field, record { b = (w ++ field) ++ rest; off = length w + n; err = none })
field_at n zero_value value w field rest size =
    let r = at_end_of w ((w ++ field) ++ rest) in
    let fits : length w + n ≤ length ((w ++ field) ++ rest) =
      omega (arith, length-append (w ++ field) rest, length-append w field) in
    let here : take n (drop (length w) ((w ++ field) ++ rest)) ≡ field =
      rw (append_assoc w field rest)
        (rw (drop-append w (field ++ rest)) (rw (← size) (take-append field rest))) in
    advance_reads n zero_value value r refl fits
    ∙ ap (λ v. (value v, record { b = (w ++ field) ++ rest; off = length w + n; err = none })) here

abbrev pub horner : ℕ → List ℕ → ℕ
horner v [] = v
horner v (c ∷ bs) = horner (v * 256 + c) bs

pub big_endian-horner :
    (v : ℕ) (bs : List ℕ) → All (λ c. c < 256) bs → big_endian v bs ≡ horner v bs
big_endian-horner v [] h = refl
big_endian-horner v (c ∷ bs) (hc, h) =
    rw (bit_or_field 8 v c hc) (big_endian-horner (v * 256 + c) bs h)

abbrev pub u2_bytes : ℕ → List ℕ
u2_bytes v = (v >>> 8) % 256 ∷ v % 256 ∷ []

abbrev pub u4_bytes : ℕ → List ℕ
u4_bytes v = (v >>> 24) % 256 ∷ (v >>> 16) % 256 ∷ (v >>> 8) % 256 ∷ v % 256 ∷ []

u2_value : (v : ℕ) → v < 2 ^ 16 → big_endian 0 (u2_bytes v) ≡ v
u2_value v h = big_endian-horner 0 (u2_bytes v) (omega arith) ∙ omega arith

u4_value : (v : ℕ) → v < 2 ^ 32 → big_endian 0 (u4_bytes v) ≡ v
u4_value v h = big_endian-horner 0 (u4_bytes v) (omega arith) ∙ omega arith

-- The reader stands where `w` ended, over what was written since and the bytes `rest`.
abbrev pub after : {A : Type 0} → A → ℕ → List ℕ → List ℕ → A × Reader
after v n w b = (v, record { b = b; off = length w + n; err = none })

-- A value of one, two or four bytes, or a run of bytes, is read back where it was written, and the
-- reader moves behind it.
pub read-write :
    (v : ℕ) (bs w rest : List ℕ)
    → (v < 2 ^ 8 → read_u1 (at_end_of w (u1 v w ++ rest)) ≡ after v 1 w (u1 v w ++ rest))
      × (v < 2 ^ 16 → read_u2 (at_end_of w (u2 v w ++ rest)) ≡ after v 2 w (u2 v w ++ rest))
      × (v < 2 ^ 32 → read_u4 (at_end_of w (u4 v w ++ rest)) ≡ after v 4 w (u4 v w ++ rest))
      × (read_bytes (some (length bs)) (at_end_of w (raw bs w ++ rest))
          ≡ after bs (length bs) w (raw bs w ++ rest))
unfolding read_u1 read_u2 read_u4 read_bytes u1 u2 u4 raw
read-write v bs w rest = (
  λ h.
      field_at 1 0 (big_endian 0) w (v ∷ []) rest refl
      ∙ ap (λ t. after t 1 w ((w ++ (v ∷ [])) ++ rest))
          (big_endian-horner 0 (v ∷ []) (omega arith) ∙ omega arith),
  λ h.
      field_at 2 0 (big_endian 0) w (u2_bytes v) rest refl
      ∙ ap (λ t. after t 2 w ((w ++ u2_bytes v) ++ rest)) (u2_value v h),
  λ h.
      field_at 4 0 (big_endian 0) w (u4_bytes v) rest refl
      ∙ ap (λ t. after t 4 w ((w ++ u4_bytes v) ++ rest)) (u4_value v h),
  field_at (length bs) [] (λ x. x) w bs rest refl,
)

-- Four sets behind `w` are four sets of what follows it.
set_behind : (w ys : List ℕ) (k i v : ℕ) → k ≡ length w + i → set (w ++ ys) k v ≡ w ++ set ys i v
set_behind w ys k i v e = set-append w ys k i v e

-- Patching bytes that were reserved gives what writing the value at once would have given.
patch_reserved :
    (w rest : List ℕ) (a v : ℕ)
    → (patch_u2 (length w) v (u2 a w ++ rest) ≡ u2 v w ++ rest)
      × (patch_u4 (length w) v (u4 a w ++ rest) ≡ u4 v w ++ rest)
unfolding patch_u2 patch_u4 u2 u4
patch_reserved w rest a v = (
  rw (append_assoc w (u2_bytes a) rest, append_assoc w (u2_bytes v) rest)
      (rw (set_behind w _ (length w) 0 _ (omega arith))
        (rw (set_behind w _ (length w + 1) 1 _ (omega arith)))),
  rw (append_assoc w (u4_bytes a) rest, append_assoc w (u4_bytes v) rest)
      (rw (set_behind w _ (length w) 0 _ (omega arith)) (
        rw (set_behind w _ (length w + 1) 1 _ (omega arith)) (
          rw (set_behind w _ (length w + 2) 2 _ (omega arith))
            (rw (set_behind w _ (length w + 3) 3 _ (omega arith)))))),
)

-- `attr` writes the name index, the length of what its body appends, and that, in this order: the
-- length that it patches in is the body's, if it is below 2 ^ 32.
pub attr_layout :
    (name_idx : ℕ) (body : List ℕ → List ℕ) (w out : List ℕ)
    → ((start : List ℕ) → body start ≡ start ++ out)
    → length out < 2 ^ 32
    → attr name_idx body w ≡ raw out (u4 (length out) (u2 name_idx w))
unfolding attr raw
attr_layout name_idx body w out appends fits =
    let header = u2 name_idx w in
    let size : (length (u4 0 header ++ out) - length (u4 0 header)) % 2 ^ 32 ≡ length out =
      omega (arith, length-append (u4 0 header) out) in
    rw (appends (u4 0 header)) (rw size ((patch_reserved header out 0 (length out)).1))
