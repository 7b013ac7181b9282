-- ===== src/Classfile/ConstPool/Cursor.antt =====
-- classfile/reader.go: reading at an offset, from what the input holds behind it.
use mocha.Prelude.{
  List, [], ap, arith, drop, drop-append, drop-drop, length, length-append, length-drop, none, refl,
  some, sym, take, take-append, ℕ, ◌%◌, ◌++◌, ◌+◌, ◌<◌, ◌^◌, ◌∙◌, ◌∷◌, ◌≡◌, ◌≤◌,
}
use mocha.Classfile.Wire.{Reader, advance, big_endian, read_bytes, read_u1, read_u2, read_u4, short}
use mocha.Classfile.Wire.ReadBack.{big_endian-horner, u2_bytes, u4_bytes}
use mocha.Classfile.Wire.Sticky.{advance_reads}
use mathlib.Core.Path.{subst}

abbrev pub cursor : List ℕ → ℕ → Reader
cursor src k = record { b = src; off = k; err = none }

-- Behind the offset the input goes on with `bs`.
abbrev pub IsAt : List ℕ → ℕ → List ℕ → Type 0
IsAt src k bs = (k ≤ length src) × (drop k src ≡ bs)

pub IsAt-skip :
    (src : List ℕ) (k n : ℕ) (field rest : List ℕ)
    → length field ≡ n
    → IsAt src k (field ++ rest)
    → IsAt src (k + n) rest
IsAt-skip src k n field rest size (inside, here) = (
  omega (arith, ap length here, length-append field rest, length-drop k src),
  sym (drop-drop k n src)
      ∙ ap (drop n) here
      ∙ subst (λ m. drop m (field ++ rest) ≡ rest) size (drop-append field rest),
)

read_field :
    {A : Type 0} (n : ℕ) (zero_value : A) (value : List ℕ → A) (src : List ℕ) (k : ℕ)
    (field rest : List ℕ)
    → length field ≡ n
    → IsAt src k (field ++ rest)
    → advance n zero_value value (short n (cursor src k)) ≡ (value field, cursor src (k + n))
read_field n zero_value value src k field rest size (inside, here) =
    let fits : k + n ≤ length src =
      omega (arith, ap length here, length-append field rest, length-drop k src) in
    advance_reads n zero_value value (cursor src k) refl fits
    ∙ ap (λ (t : List ℕ). (value (take n t), cursor src (k + n))) here
    ∙ ap (λ (t : List ℕ). (value t, cursor src (k + n)))
        (subst (λ m. take m (field ++ rest) ≡ field) size (take-append field rest))

-- What the reads answer where a value has been written, and where they leave the cursor.
pub read_u1-IsAt :
    (src : List ℕ) (k v : ℕ) (rest : List ℕ)
    → v < 256
    → IsAt src k (v ∷ rest)
    → read_u1 (cursor src k) ≡ (v, cursor src (k + 1))
unfolding read_u1
read_u1-IsAt src k v rest small here =
    read_field 1 0 (big_endian 0) src k (v ∷ []) rest refl here
    ∙ ap (λ (x : ℕ). (x, cursor src (k + 1)))
        (big_endian-horner 0 (v ∷ []) (omega arith) ∙ omega arith)

pub read_u2-IsAt :
    (src : List ℕ) (k v : ℕ) (rest : List ℕ)
    → IsAt src k (u2_bytes v ++ rest)
    → read_u2 (cursor src k) ≡ (v % 2 ^ 16, cursor src (k + 2))
unfolding read_u2
read_u2-IsAt src k v rest here =
    read_field 2 0 (big_endian 0) src k (u2_bytes v) rest refl here
    ∙ ap (λ (x : ℕ). (x, cursor src (k + 2)))
        (big_endian-horner 0 (u2_bytes v) (omega arith) ∙ omega arith)

pub read_u4-IsAt :
    (src : List ℕ) (k v : ℕ) (rest : List ℕ)
    → IsAt src k (u4_bytes v ++ rest)
    → read_u4 (cursor src k) ≡ (v % 2 ^ 32, cursor src (k + 4))
unfolding read_u4
read_u4-IsAt src k v rest here =
    read_field 4 0 (big_endian 0) src k (u4_bytes v) rest refl here
    ∙ ap (λ (x : ℕ). (x, cursor src (k + 4)))
        (big_endian-horner 0 (u4_bytes v) (omega arith) ∙ omega arith)

pub read_bytes-IsAt :
    (src : List ℕ) (k : ℕ) (bs rest : List ℕ)
    → IsAt src k (bs ++ rest)
    → read_bytes (some (length bs)) (cursor src k) ≡ (bs, cursor src (k + length bs))
unfolding read_bytes
read_bytes-IsAt src k bs rest here = read_field (length bs) [] (λ x. x) src k bs rest refl here
