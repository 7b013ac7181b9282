-- ===== src/Classfile/ConstPool/Entry.antt =====
-- classfile/constpool.go: one round of the loop of `readPool`, on an entry that the builder spelled.
use mocha.Prelude.{
  All, List, [], ap, arith, inl, inr, length, none, refl, some, sym, ℕ, ◌%◌, ◌++◌, ◌+◌, ◌<◌, ◌>>>◌,
  ◌^◌, ◌∙◌, ◌∷◌, ◌≡◌, ◌≤◌,
}
use mocha.Classfile.ConstPool.{
  RawEntry, entry_with, first_bad, read_entry, read_one, read_operands, read_text, read_two,
  tag_since, text_operands,
}
use mocha.Classfile.ConstPool.Content.{
  Content, IsMemberTag, IsSound, bytes_of, class_at, double_bits, float_bits, int_bits, long_bits,
  member_at, method_type_at, names_at, string_at, text,
}
use mocha.Classfile.ConstPool.Cursor.{
  IsAt, IsAt-skip, cursor, read_bytes-IsAt, read_u1-IsAt, read_u2-IsAt, read_u4-IsAt,
}
use mocha.Classfile.Pool.{
  tag_class, tag_double, tag_fieldref, tag_float, tag_integer, tag_interface_methodref, tag_long,
  tag_method_type, tag_methodref, tag_name_and_type, tag_string, tag_utf8,
}
use mocha.Classfile.Wire.{raw, read_u2, read_u4, short, u1, u2, u4}
use mocha.Classfile.Wire.ReadBack.{u2_bytes, u4_bytes}
use mocha.Jvm.Mutf8.{encode}
use mocha.Jvm.Mutf8.Encode.{encode-IsFree}
use mathlib.Core.Path.{subst}

-- The entry of a content at the offset `k`.
abbrev pub entry_of : ℕ → Content → RawEntry
entry_of k (text s) = record { tag = tag_utf8; a = k + 3; b = length (encode s) }
entry_of k (class_at n) = record { tag = tag_class; a = n % 2 ^ 16; b = 0 }
entry_of k (string_at n) = record { tag = tag_string; a = n % 2 ^ 16; b = 0 }
entry_of k (method_type_at n) = record { tag = tag_method_type; a = n % 2 ^ 16; b = 0 }
entry_of k (int_bits v) = record { tag = tag_integer; a = v % 2 ^ 32; b = 0 }
entry_of k (float_bits v) = record { tag = tag_float; a = v % 2 ^ 32; b = 0 }
entry_of k (long_bits v) = record { tag = tag_long; a = (v >>> 32) % 2 ^ 32; b = v % 2 ^ 32 }
entry_of k (double_bits v) = record { tag = tag_double; a = (v >>> 32) % 2 ^ 32; b = v % 2 ^ 32 }
entry_of k (names_at a b) = record { tag = tag_name_and_type; a = a % 2 ^ 16; b = b % 2 ^ 16 }
entry_of k (member_at tag a b) = record { tag = tag; a = a % 2 ^ 16; b = b % 2 ^ 16 }

tag_step :
    (major tag since : ℕ) (src : List ℕ) (k : ℕ) (bs : List ℕ)
    → tag < 256
    → tag_since tag ≡ some since
    → since ≤ major
    → IsAt src k (tag ∷ bs)
    → read_entry major (cursor src k) ≡ entry_with tag (read_operands tag (cursor src (k + 1)))
unfolding read_entry
tag_step major tag since src k bs small known old here =
    rw (read_u1-IsAt src k tag bs small here) (rw known (ground arith))

-- The operands behind the tag.
abbrev Operands : ℕ → List ℕ → ℕ → ℕ × ℕ → ℕ → Type 0
Operands tag src k v n = read_operands tag (cursor src k) ≡ (some v, cursor src (k + n))

tagged_entry :
    (major tag since : ℕ) (src : List ℕ) (k : ℕ) (bs : List ℕ) (v : ℕ × ℕ) (n : ℕ)
    → tag < 256
    → tag_since tag ≡ some since
    → since ≤ major
    → IsAt src k (tag ∷ bs)
    → Operands tag src (k + 1) v n
    → read_entry major (cursor src k)
      ≡ (some (record { tag = tag; a = v.0; b = v.1 }), cursor src (k + (n + 1)))
tagged_entry major tag since src k bs v n small known old here operands =
    tag_step major tag since src k bs small known old here
    ∙ rw operands (
        ap (λ (m : ℕ). (some (record { tag = tag; a = v.0; b = v.1 }), cursor src m)) (omega arith))

IsAt-tail : (src : List ℕ) (k tag : ℕ) (bs : List ℕ) → IsAt src k (tag ∷ bs) → IsAt src (k + 1) bs
IsAt-tail src k tag bs here = IsAt-skip src k 1 (tag ∷ []) bs refl here

one_index :
    (src : List ℕ) (k n : ℕ) (rest : List ℕ)
    → IsAt src k (u2_bytes n ++ rest)
    → read_one read_u2 (cursor src k) ≡ (some (n % 2 ^ 16, 0), cursor src (k + 2))
one_index src k n rest here = rw (read_u2-IsAt src k n rest here)

two_indices :
    (src : List ℕ) (k a b : ℕ) (rest : List ℕ)
    → IsAt src k (u2_bytes a ++ (u2_bytes b ++ rest))
    → read_two read_u2 read_u2 (cursor src k) ≡ (some (a % 2 ^ 16, b % 2 ^ 16), cursor src (k + 4))
two_indices src k a b rest here = rw (read_u2-IsAt src k a (u2_bytes b ++ rest) here) (
    rw
      (read_u2-IsAt src (k + 2) b rest
        (IsAt-skip src k 2 (u2_bytes a) (u2_bytes b ++ rest) refl here))
      (ap (λ (m : ℕ). (some (a % 2 ^ 16, b % 2 ^ 16), cursor src m)) (omega arith)))

one_word :
    (src : List ℕ) (k n : ℕ) (rest : List ℕ)
    → IsAt src k (u4_bytes n ++ rest)
    → read_one read_u4 (cursor src k) ≡ (some (n % 2 ^ 32, 0), cursor src (k + 4))
one_word src k n rest here = rw (read_u4-IsAt src k n rest here)

two_words :
    (src : List ℕ) (k a b : ℕ) (rest : List ℕ)
    → IsAt src k (u4_bytes a ++ (u4_bytes b ++ rest))
    → read_two read_u4 read_u4 (cursor src k) ≡ (some (a % 2 ^ 32, b % 2 ^ 32), cursor src (k + 8))
two_words src k a b rest here = rw (read_u4-IsAt src k a (u4_bytes b ++ rest) here) (
    rw
      (read_u4-IsAt src (k + 4) b rest
        (IsAt-skip src k 4 (u4_bytes a) (u4_bytes b ++ rest) refl here))
      (ap (λ (m : ℕ). (some (a % 2 ^ 32, b % 2 ^ 32), cursor src m)) (omega arith)))

first_bad-none : (bs : List ℕ) → All (λ c. (0 < c) × (c < 0xF0)) bs → first_bad bs ≡ none
first_bad-none [] h = refl
first_bad-none (c ∷ bs) ((lo, hi), h) = ground (arith, first_bad-none bs h)

text_bytes :
    (src : List ℕ) (k : ℕ) (bs rest : List ℕ)
    → length bs ≤ 65535
    → All (λ c. (0 < c) × (c < 0xF0)) bs
    → IsAt src k (u2_bytes (length bs) ++ (bs ++ rest))
    → read_text (cursor src k) ≡ (some (k + 2, length bs), cursor src (k + (2 + length bs)))
unfolding read_text
text_bytes src k bs rest short free here =
    let size : length bs % 2 ^ 16 ≡ length bs = omega arith in
    rw (read_u2-IsAt src k (length bs) (bs ++ rest) here) (
      rw size (
        rw
          (read_bytes-IsAt src (k + 2) bs rest
            (IsAt-skip src k 2 (u2_bytes (length bs)) (bs ++ rest) refl here))
          (rw (first_bad-none bs free, text_operands)
            (ap (λ (m : ℕ). (some (k + 2, length bs), cursor src m)) (omega arith)))))

-- A round reads back the content that stands at the cursor, and moves behind it.
abbrev ReadsBack : ℕ → List ℕ → ℕ → Content → Type 0
ReadsBack major src k c =
    read_entry major (cursor src k) ≡ (some (entry_of k c), cursor src (k + length (bytes_of c)))

members-ReadsBack :
    (major : ℕ) (src : List ℕ) (k a b : ℕ) (rest : List ℕ) (tag : ℕ)
    → 45 ≤ major
    → tag < 256
    → tag_since tag ≡ some 45
    → read_operands tag ≡ read_two read_u2 read_u2
    → IsAt src k (bytes_of (member_at tag a b) ++ rest)
    → ReadsBack major src k (member_at tag a b)
unfolding u1 u2
members-ReadsBack major src k a b rest tag old small known reads here =
    tagged_entry major tag 45 src k (u2_bytes a ++ (u2_bytes b ++ rest)) (a % 2 ^ 16, b % 2 ^ 16) 4
      small known (omega arith) here
      (rw reads (two_indices src (k + 1) a b rest (IsAt-tail src k tag _ here)))

member-ReadsBack :
    (major : ℕ) (src : List ℕ) (k tag a b : ℕ) (rest : List ℕ)
    → 45 ≤ major
    → IsMemberTag tag
    → IsAt src k (bytes_of (member_at tag a b) ++ rest)
    → ReadsBack major src k (member_at tag a b)
unfolding read_operands tag_since
member-ReadsBack major src k tag a b rest old (inl e) =
    subst
      (λ t.
        IsAt src k (bytes_of (member_at t a b) ++ rest) → ReadsBack major src k (member_at t a b))
      (sym e) (members-ReadsBack major src k a b rest tag_fieldref old (omega arith) refl refl)
member-ReadsBack major src k tag a b rest old (inr (inl e)) =
    subst
      (λ t.
        IsAt src k (bytes_of (member_at t a b) ++ rest) → ReadsBack major src k (member_at t a b))
      (sym e) (members-ReadsBack major src k a b rest tag_methodref old (omega arith) refl refl)
member-ReadsBack major src k tag a b rest old (inr (inr e)) =
    subst
      (λ t.
        IsAt src k (bytes_of (member_at t a b) ++ rest) → ReadsBack major src k (member_at t a b))
      (sym e)
      (members-ReadsBack major src k a b rest tag_interface_methodref old (omega arith) refl refl)

-- The two halves of an eight-byte constant.
halves :
    (src : List ℕ) (k v : ℕ) (rest : List ℕ)
    → IsAt src k (u4_bytes ((v >>> 32) % 2 ^ 32) ++ (u4_bytes (v % 2 ^ 32) ++ rest))
    → read_two read_u4 read_u4 (cursor src k)
      ≡ (some ((v >>> 32) % 2 ^ 32, v % 2 ^ 32), cursor src (k + 8))
halves src k v rest here =
    let high : (v >>> 32) % 2 ^ 32 % 2 ^ 32 ≡ (v >>> 32) % 2 ^ 32 = omega arith in
    let low : v % 2 ^ 32 % 2 ^ 32 ≡ v % 2 ^ 32 = omega arith in
    two_words src k ((v >>> 32) % 2 ^ 32) (v % 2 ^ 32) rest here
    ∙ (λ i. (some (high i, low i), cursor src (k + 8)))

text-ReadsBack :
    (major : ℕ) (src : List ℕ) (k : ℕ) (s rest : List ℕ)
    → 45 ≤ major
    → IsSound major (text s)
    → IsAt src k (bytes_of (text s) ++ rest)
    → ReadsBack major src k (text s)
unfolding read_operands tag_since u1 u2 raw
text-ReadsBack major src k s rest old (good, short) here =
    let size : length (encode s) % 2 ^ 16 ≡ length (encode s) = omega arith in
    let behind : IsAt src (k + 1) (u2_bytes (length (encode s)) ++ (encode s ++ rest)) =
      subst (λ m. IsAt src (k + 1) (u2_bytes m ++ (encode s ++ rest))) size
        (IsAt-tail src k tag_utf8 _ here) in
    tagged_entry major tag_utf8 45 src k _ (k + 3, length (encode s)) (2 + length (encode s))
      (omega arith) refl (omega arith) here
      (text_bytes src (k + 1) (encode s) rest short (encode-IsFree s good) behind
        ∙ ap
            (λ (m : ℕ). (some (m, length (encode s)), cursor src (k + 1 + (2 + length (encode s)))))
            (omega arith))
    ∙ ap (λ (m : ℕ). (some (entry_of k (text s)), cursor src m)) (omega arith)

pub entry-ReadsBack :
    (major : ℕ) (src : List ℕ) (k : ℕ) (c : Content) (rest : List ℕ)
    → 45 ≤ major
    → IsSound major c
    → IsAt src k (bytes_of c ++ rest)
    → ReadsBack major src k c
unfolding read_operands tag_since u1 u2 u4 raw
entry-ReadsBack major src k (text s) rest old good here =
    text-ReadsBack major src k s rest old good here
entry-ReadsBack major src k (class_at n) rest old good here =
    tagged_entry major tag_class 45 src k (u2_bytes n ++ rest) (n % 2 ^ 16, 0) 2 (omega arith) refl
      (omega arith) here (one_index src (k + 1) n rest (IsAt-tail src k tag_class _ here))
entry-ReadsBack major src k (string_at n) rest old good here =
    tagged_entry major tag_string 45 src k (u2_bytes n ++ rest) (n % 2 ^ 16, 0) 2 (omega arith) refl
      (omega arith) here (one_index src (k + 1) n rest (IsAt-tail src k tag_string _ here))
entry-ReadsBack major src k (method_type_at n) rest old good here =
    tagged_entry major tag_method_type 51 src k (u2_bytes n ++ rest) (n % 2 ^ 16, 0) 2 (omega arith)
      refl good here (one_index src (k + 1) n rest (IsAt-tail src k tag_method_type _ here))
entry-ReadsBack major src k (int_bits v) rest old good here =
    tagged_entry major tag_integer 45 src k (u4_bytes v ++ rest) (v % 2 ^ 32, 0) 4 (omega arith)
      refl (omega arith) here (one_word src (k + 1) v rest (IsAt-tail src k tag_integer _ here))
entry-ReadsBack major src k (float_bits v) rest old good here =
    tagged_entry major tag_float 45 src k (u4_bytes v ++ rest) (v % 2 ^ 32, 0) 4 (omega arith) refl
      (omega arith) here (one_word src (k + 1) v rest (IsAt-tail src k tag_float _ here))
entry-ReadsBack major src k (long_bits v) rest old good here =
    tagged_entry major tag_long 45 src k
      (u4_bytes ((v >>> 32) % 2 ^ 32) ++ (u4_bytes (v % 2 ^ 32) ++ rest))
      ((v >>> 32) % 2 ^ 32, v % 2 ^ 32) 8 (omega arith) refl (omega arith) here
      (halves src (k + 1) v rest (IsAt-tail src k tag_long _ here))
entry-ReadsBack major src k (double_bits v) rest old good here =
    tagged_entry major tag_double 45 src k
      (u4_bytes ((v >>> 32) % 2 ^ 32) ++ (u4_bytes (v % 2 ^ 32) ++ rest))
      ((v >>> 32) % 2 ^ 32, v % 2 ^ 32) 8 (omega arith) refl (omega arith) here
      (halves src (k + 1) v rest (IsAt-tail src k tag_double _ here))
entry-ReadsBack major src k (names_at a b) rest old good here =
    tagged_entry major tag_name_and_type 45 src k (u2_bytes a ++ (u2_bytes b ++ rest))
      (a % 2 ^ 16, b % 2 ^ 16) 4 (omega arith) refl (omega arith) here
      (two_indices src (k + 1) a b rest (IsAt-tail src k tag_name_and_type _ here))
entry-ReadsBack major src k (member_at tag a b) rest old good here =
    member-ReadsBack major src k tag a b rest old good here
