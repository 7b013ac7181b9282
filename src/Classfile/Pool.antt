-- ===== src/Classfile/Pool.antt =====
-- classfile/poolbuilder.go: the constant pool under construction. A Go string is the list of its
-- runes; an `int32`, `int64`, `float32` or `float64` constant is its bit pattern.
pub mod Keys
pub mod Entries
pub mod Rules
pub mod Remember
pub mod Add
pub mod Interning
pub mod Again
pub mod Distinct
mod Tests
use mocha.Prelude.{
  Bool, List, Option, [], drop, false, if◌then◌else◌, length, ltb, none, some, true, ℕ, ◌%◌, ◌++◌,
  ◌+◌, ◌-◌, ◌>>>◌, ◌^◌, ◌∷◌,
}
use mocha.Classfile.Pool.Keys.{
  Key, Key-discrete, class, double, float, int, long, member, method_type, name_and_type, string,
  utf8,
}
use mocha.Classfile.Wire.{raw, u1, u2, u4}
use mocha.Jvm.Mutf8.{encode, encoded_len}
use mocha.Jvm.Op.{wide}
use mathlib.Core.Logic.{ite}

abbrev pub max_pool_index : ℕ
max_pool_index = 65534

-- The tags of classfile/constpool.go that the builder writes.
abbrev pub tag_utf8 : ℕ
tag_utf8 = 1

abbrev pub tag_integer : ℕ
tag_integer = 3

abbrev pub tag_float : ℕ
tag_float = 4

abbrev pub tag_long : ℕ
tag_long = 5

abbrev pub tag_double : ℕ
tag_double = 6

abbrev pub tag_class : ℕ
tag_class = 7

abbrev pub tag_string : ℕ
tag_string = 8

abbrev pub tag_fieldref : ℕ
tag_fieldref = 9

abbrev pub tag_methodref : ℕ
tag_methodref = 10

abbrev pub tag_interface_methodref : ℕ
tag_interface_methodref = 11

abbrev pub tag_name_and_type : ℕ
tag_name_and_type = 12

abbrev pub tag_method_type : ℕ
tag_method_type = 16

pub data PoolError : Type 0 where
  utf8_too_long too_many_entries : PoolError

-- A slot is `none` at index 0 and behind an eight-byte constant.
abbrev pub Slots : Type 0
Slots = List (Option (List ℕ))

pub record PoolBuilder : Type 0 where
  pub slots : Slots
  pub err : Option PoolError
  pub map : List (Key × ℕ)

unfoldable pub new_pool_builder : PoolBuilder
new_pool_builder = record { slots = none ∷ []; err = none; map = [] }

-- A method: it returns an index and the builder as it left it.
abbrev pub M : Type 0
M = PoolBuilder → ℕ × PoolBuilder

infixl 5 ◌>>=◌
abbrev pub ◌>>=◌ : M → (ℕ → M) → M
◌>>=◌ m f p = f (m p).0 (m p).1

-- Only the first error is kept, and the index is 0.
unfoldable pub fail : PoolError → M
fail e p = elim p.err [ none ↦ (0, record p { err = some e }) | some x ↦ (0, p) ]

unfoldable pub append_entry : List ℕ → Bool → M
unfolding fail
append_entry b wide p =
    let n = length p.slots in
    if ltb max_pool_index (n + (if wide then 2 else 1) - 1)
    then fail too_many_entries p
    else (n % 2 ^ 16, record p { slots = p.slots ++ (some b ∷ (if wide then none ∷ [] else [])) })

unfoldable pub add : List ℕ → Bool → M
unfolding append_entry
add b wide p = elim p.err [ some e ↦ (0, p) | none ↦ append_entry b wide p ]

unfoldable pub find : Key → List (Key × ℕ) → Option ℕ
unfolding Key-discrete
find k [] = none
find k ((j, i) ∷ m) = ite (Key-discrete j k) (some i) (find k m)

unfoldable pub remember : Key → ℕ × PoolBuilder → ℕ × PoolBuilder
remember k (i, p) = (i, record p { map = (k, i) ∷ p.map })

-- The index that a map holds, or the entry that is built and then remembered.
unfoldable pub intern_at : Option ℕ → Key → M → M
unfolding remember
intern_at (some i) k build p = (i, p)
intern_at none k build p = remember k (build p)

unfoldable pub intern : Key → M → M
unfolding intern_at find
intern k build p = intern_at (find k p.map) k build p

abbrev pub utf8_entry : List ℕ → List ℕ
utf8_entry s = raw (encode s) (u2 (length (encode s) % 2 ^ 16) (u1 tag_utf8 []))

abbrev pub ref1_entry : ℕ → ℕ → List ℕ
ref1_entry tag a = u2 a (u1 tag [])

abbrev pub ref2_entry : ℕ → ℕ → ℕ → List ℕ
ref2_entry tag a b = u2 b (u2 a (u1 tag []))

abbrev pub word_entry : ℕ → ℕ → List ℕ
word_entry tag v = u4 v (u1 tag [])

abbrev pub wide_entry : ℕ → ℕ → List ℕ
wide_entry tag v = u4 (v % 2 ^ 32) (u4 ((v >>> 32) % 2 ^ 32) (u1 tag []))

-- A string that is too long is refused, and not remembered.
unfoldable pub utf8_at : Option ℕ → List ℕ → M
unfolding fail remember add
utf8_at (some i) s p = (i, p)
utf8_at none s p =
    if ltb 65535 (encoded_len s)
    then fail utf8_too_long p
    else remember (utf8 s) (add (utf8_entry s) false p)

unfoldable pub intern_utf8 : List ℕ → M
unfolding utf8_at find
intern_utf8 s p = utf8_at (find (utf8 s) p.map) s p

unfoldable pub add_ref1 : ℕ → ℕ → M
unfolding add
add_ref1 tag a = add (ref1_entry tag a) false

unfoldable pub add_ref2 : ℕ → ℕ → ℕ → M
unfolding add
add_ref2 tag a b = add (ref2_entry tag a b) false

unfoldable pub intern_class : List ℕ → M
unfolding intern intern_utf8 add_ref1
intern_class class_name =
    intern (class class_name) do n ← intern_utf8 class_name; add_ref1 tag_class n

unfoldable pub intern_string : List ℕ → M
unfolding intern intern_utf8 add_ref1
intern_string s = intern (string s) do n ← intern_utf8 s; add_ref1 tag_string n

unfoldable pub intern_method_type : List ℕ → M
unfolding intern intern_utf8 add_ref1
intern_method_type descriptor =
    intern (method_type descriptor) do n ← intern_utf8 descriptor; add_ref1 tag_method_type n

unfoldable pub intern_name_and_type : List ℕ → List ℕ → M
unfolding intern intern_utf8 add_ref2
intern_name_and_type name descriptor =
    intern (name_and_type name descriptor)
      do n ← intern_utf8 name; d ← intern_utf8 descriptor; add_ref2 tag_name_and_type n d

unfoldable pub member_ref : ℕ → List ℕ → List ℕ → List ℕ → M
unfolding intern intern_class intern_name_and_type add_ref2
member_ref tag owner name descriptor =
    intern (member tag owner name descriptor)
      do c ← intern_class owner; nt ← intern_name_and_type name descriptor; add_ref2 tag c nt

abbrev pub field_ref : List ℕ → List ℕ → List ℕ → M
field_ref = member_ref tag_fieldref

abbrev pub method_ref : List ℕ → List ℕ → List ℕ → M
method_ref = member_ref tag_methodref

abbrev pub interface_method_ref : List ℕ → List ℕ → List ℕ → M
interface_method_ref = member_ref tag_interface_methodref

unfoldable pub intern_int : ℕ → M
unfolding intern add
intern_int v = intern (int v) (add (word_entry tag_integer v) false)

unfoldable pub intern_float : ℕ → M
unfolding intern add
intern_float bits = intern (float bits) (add (word_entry tag_float bits) false)

unfoldable pub intern_long : ℕ → M
unfolding intern add
intern_long v = intern (long v) (add (wide_entry tag_long v) true)

unfoldable pub intern_double : ℕ → M
unfolding intern add
intern_double bits = intern (double bits) (add (wide_entry tag_double bits) true)

unfoldable pub count : PoolBuilder → ℕ
count p = length p.slots % 2 ^ 16

unfoldable pub emit_slots : Slots → List ℕ → List ℕ
emit_slots [] w = w
emit_slots (none ∷ s) w = emit_slots s w
emit_slots (some b ∷ s) w = emit_slots s (raw b w)

unfoldable pub emit : PoolBuilder → List ℕ → List ℕ
unfolding emit_slots count
emit p w = emit_slots (drop 1 p.slots) (u2 (count p) w)
