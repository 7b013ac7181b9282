-- ===== src/Classfile/ConstPool.antt =====
-- classfile/constpool.go: the constant pool of a class file that is read. The raw entries come from
-- the cursor; they are resolved on demand, and the texts decoded are kept.
pub mod Resolve
pub mod Rules
pub mod Clear
pub mod Memo
pub mod Content
pub mod Cursor
pub mod Entry
pub mod ReadBack
pub mod Located
pub mod Gives
pub mod Meaning
pub mod Written
pub mod Answers
mod Tests
use mocha.Prelude.{
  Bool, List, Option, [], err, false, if◌then◌else◌, leb, ltb, none, replicate, some, suc, true,
  zero, ℕ, ◌&&◌, ◌++◌, ◌+◌, ◌-◌, ◌==◌, ◌||◌, ◌∷◌,
}
use mocha.Classfile.Pool.{
  count, tag_class, tag_double, tag_fieldref, tag_float, tag_integer, tag_interface_methodref,
  tag_long, tag_method_type, tag_methodref, tag_name_and_type, tag_string, tag_utf8,
}
use mocha.Classfile.Wire.{
  Reader, bad_utf8_byte, fail, past_end, read_bytes, read_u1, read_u2, read_u4, tag_too_new,
  unknown_tag, zero_count,
}
use mathlib.Core.Option

abbrev pub tag_method_handle : ℕ
tag_method_handle = 15

abbrev pub tag_dynamic : ℕ
tag_dynamic = 17

abbrev pub tag_invoke_dynamic : ℕ
tag_invoke_dynamic = 18

abbrev pub tag_module : ℕ
tag_module = 19

abbrev pub tag_package : ℕ
tag_package = 20

-- The major version from which on a tag is defined, and `none` for a tag that is not in the map.
unfoldable pub tag_since : ℕ → Option ℕ
tag_since tag =
    if tag == tag_utf8 || (leb tag_integer tag && leb tag tag_name_and_type)
    then some 45
    else if tag == tag_method_handle || tag == tag_method_type || tag == tag_invoke_dynamic
    then some 51
    else if tag == tag_module || tag == tag_package
    then some 53
    else if tag == tag_dynamic
    then some 55
    else none

-- `entry`; a tag of 0 is an unusable slot.
pub record RawEntry : Type 0 where
  pub tag : ℕ
  pub a : ℕ
  pub b : ℕ

abbrev pub unusable : RawEntry
unusable = record { tag = 0; a = 0; b = 0 }

-- The tests of the switch in `readPool`.
abbrev pub is_word_tag : ℕ → Bool
is_word_tag tag = tag == tag_integer || tag == tag_float

abbrev pub is_wide_tag : ℕ → Bool
is_wide_tag tag = tag == tag_long || tag == tag_double

abbrev pub is_one_index_tag : ℕ → Bool
is_one_index_tag tag =
    tag == tag_class
    || tag == tag_string
    || tag == tag_method_type
    || tag == tag_module
    || tag == tag_package

abbrev pub is_two_index_tag : ℕ → Bool
is_two_index_tag tag =
    tag == tag_fieldref
    || tag == tag_methodref
    || tag == tag_interface_methodref
    || tag == tag_name_and_type
    || tag == tag_dynamic
    || tag == tag_invoke_dynamic

-- The offset of the first byte that no text may hold.
abbrev pub first_bad : List ℕ → Option ℕ
first_bad [] = none
first_bad (c ∷ bs) = if c == 0 || leb 0xF0 c then some 0 else Option.map suc (first_bad bs)

-- The operands of a text are where its bytes lie and how many they are.
abbrev pub text_operands : ℕ → ℕ → List ℕ × Reader → Option (ℕ × ℕ) × Reader
text_operands off n (bs, r) = elim (first_bad bs) [
  | some j ↦ (none, fail bad_utf8_byte (record r { off = off + j }))
  | none ↦ (some (off, n), r)
]

unfoldable pub read_text : Reader → Option (ℕ × ℕ) × Reader
unfolding read_u2 read_bytes fail
read_text r = let (n, r1) = read_u2 r in text_operands r1.off n (read_bytes (some n) r1)

abbrev pub read_one : (Reader → ℕ × Reader) → Reader → Option (ℕ × ℕ) × Reader
read_one f r = (some ((f r).0, 0), (f r).1)

abbrev pub read_two :
    (Reader → ℕ × Reader) → (Reader → ℕ × Reader) → Reader → Option (ℕ × ℕ) × Reader
read_two f g r = (some ((f r).0, (g (f r).1).0), (g (f r).1).1)

unfoldable pub read_operands : ℕ → Reader → Option (ℕ × ℕ) × Reader
unfolding read_text read_u1 read_u2 read_u4
read_operands tag =
    if tag == tag_utf8
    then read_text
    else if is_word_tag tag
    then read_one read_u4
    else if is_wide_tag tag
    then read_two read_u4 read_u4
    else if is_one_index_tag tag
    then read_one read_u2
    else if is_two_index_tag tag
    then read_two read_u2 read_u2
    else read_two read_u1 read_u2

abbrev pub entry_with : ℕ → Option (ℕ × ℕ) × Reader → Option RawEntry × Reader
entry_with tag (none, r) = (none, r)
entry_with tag (some (a, b), r) = (some (record { tag = tag; a = a; b = b }), r)

-- One round of the loop; `none` where `readPool` returns before it stores an entry.
abbrev pub known_entry : ℕ → Reader → ℕ → Reader → Option ℕ → Option RawEntry × Reader
known_entry major start tag r none = (none, fail unknown_tag (record r { off = start.off }))
known_entry major start tag r (some since) =
    if ltb major since
    then (none, fail tag_too_new (record r { off = start.off }))
    else entry_with tag (read_operands tag r)

unfoldable pub read_entry : ℕ → Reader → Option RawEntry × Reader
unfolding read_u1 tag_since read_operands fail
read_entry major r = let (tag, r1) = read_u1 r in known_entry major r tag r1 (tag_since tag)

abbrev pub prepend : List RawEntry → List RawEntry × Reader → List RawEntry × Reader
prepend es (rest, r) = (es ++ rest, r)

-- What follows an entry: the rest of the pool, or behind an eight-byte constant a slot that stays
-- unusable, if there is one, and then the rest.
abbrev pub after_entry :
    ℕ
    → (Reader → List RawEntry × Reader)
    → (Reader → List RawEntry × Reader)
    → Option RawEntry × Reader
    → List RawEntry × Reader
after_entry left narrow eight (none, r) = (replicate left unusable, r)
after_entry left narrow eight (some e, r) = elim (is_wide_tag e.tag) [
  | true ↦ prepend (e ∷ []) (eight r)
  | false ↦ prepend (e ∷ []) (narrow r)
]

-- The loop, over the slots that are left.
unfoldable pub read_slots : ℕ → ℕ → Reader → List RawEntry × Reader
unfolding read_entry fail
read_slots zero major r = ([], r)
read_slots (suc zero) major r = elim r.err [
  | some e ↦ (unusable ∷ [], r)
  | none ↦ after_entry 1 (λ r'. ([], r')) (λ r'. ([], fail past_end r')) (read_entry major r)
]
read_slots (suc (suc left)) major r = elim r.err [
  | some e ↦ (replicate (suc (suc left)) unusable, r)
  | none ↦
      after_entry (suc (suc left)) (λ r'. read_slots (suc left) major r')
        (λ r'. prepend (unusable ∷ []) (read_slots left major r')) (read_entry major r)
]

pub record PoolRef : Type 0 where
  pub tag : ℕ
  pub class_name : List ℕ
  pub name : List ℕ
  pub descriptor : List ℕ

pub record Handle : Type 0 where
  pub kind : ℕ
  pub ref : PoolRef

pub record BootstrapMethod : Type 0 where
  pub method : Handle
  pub arguments : List ℕ

-- `strs` and `strOK` are one list of the texts decoded so far. The name of the file is left out, which
-- only messages use.
pub record ConstPool : Type 0 where
  pub entries : List RawEntry
  pub src : List ℕ
  pub strs : List (Option (List ℕ))
  pub bsms : List BootstrapMethod

abbrev pub pool_of : List ℕ → ℕ → List RawEntry × Reader → Option ConstPool × Reader
pool_of src count (es, r) = (
  some (record { entries = unusable ∷ es; src = src; strs = replicate count none; bsms = [] }),
  r,
)

-- `readPool`, on the major version of the file.
unfoldable pub read_pool : ℕ → Reader → Option ConstPool × Reader
unfolding read_u2 read_slots fail
read_pool major r =
    let (count, r1) = read_u2 r in
    if count == 0
    then (none, fail zero_count r1)
    else pool_of r1.b count (read_slots (count - 1) major r1)
