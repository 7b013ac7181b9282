-- ===== src/Classfile/Code/Instructions.antt =====
-- classfile/codewriter.go: the methods that emit one instruction which is no branch.
use mocha.Prelude.{
  Bool, List, Result, [], err, false, if◌then◌else◌, leb, ltb, not, ok, stuck, true, ℕ, ◌%◌, ◌&&◌,
  ◌++◌, ◌+◌, ◌-◌, ◌==◌, ◌^◌, ◌||◌, ◌∷◌,
}
use mocha.Classfile.Code.{
  M, bad_delta, bad_descriptor, bad_slot, class_not_loadable, emit_op, fail, local_op, locals_limit,
  pop, push, unless_failed, use_local, with_index, write_u1, write_u2, ◌>>◌,
}
use mocha.Classfile.Pool.{
  intern_class, intern_double, intern_float, intern_int, intern_long, intern_string,
}
use mocha.Jvm.Desc.{parse_field}
use mocha.Jvm.Op.{
  aload, aload_0, astore, astore_0, bipush, dconst_0, dconst_1, dload, dload_0, dstore, dstore_0,
  fconst_0, fconst_1, fconst_2, fload, fload_0, fstore, fstore_0, iconst_0, iload, iload_0, istore,
  istore_0, lconst_0, ldc2_w, ldc_w, lload, lload_0, lstore, lstore_0, sipush, wide,
}
use mocha.Jvm.Op

pub data LocalKind : Type 0 where
  reference int float long double : LocalKind

abbrev pub width_of : LocalKind → ℕ
width_of long = 2
width_of double = 2
width_of _ = 1

abbrev pub load_op : LocalKind → ℕ × ℕ
load_op reference = (Op.aload, Op.aload_0)
load_op int = (Op.iload, Op.iload_0)
load_op float = (Op.fload, Op.fload_0)
load_op long = (Op.lload, Op.lload_0)
load_op double = (Op.dload, Op.dload_0)

abbrev pub store_op : LocalKind → ℕ × ℕ
store_op reference = (Op.astore, Op.astore_0)
store_op int = (Op.istore, Op.istore_0)
store_op float = (Op.fstore, Op.fstore_0)
store_op long = (Op.lstore, Op.lstore_0)
store_op double = (Op.dstore, Op.dstore_0)

-- `Aload`, `Iload`, `Fload`, `Lload` and `Dload` by the kind.
unfoldable pub load : LocalKind → ℕ → M
unfolding local_op push
load k slot = local_op (load_op k).0 (load_op k).1 slot (width_of k) >> push (width_of k)

unfoldable pub store : LocalKind → ℕ → M
unfolding local_op pop
store k slot = local_op (store_op k).0 (store_op k).1 slot (width_of k) >> pop (width_of k)

-- Whether a `w`-bit pattern stands for a number from minus `low` to `high`.
abbrev pub is_between : ℕ → ℕ → ℕ → ℕ → Bool
is_between w low high v = leb v high || leb (2 ^ w - low) v

abbrev pub iinc_form : ℕ → ℕ → M
iinc_form slot delta =
    if not (is_between 64 32768 32767 delta)
    then fail bad_delta
    else if ltb slot 256 && is_between 64 128 127 delta
    then emit_op Op.iinc >> write_u1 slot >> write_u1 delta
    else emit_op Op.wide >> write_u1 Op.iinc >> write_u2 slot >> write_u2 delta

unfoldable pub iinc : ℕ → ℕ → M
unfolding use_local emit_op fail
iinc slot delta = use_local slot 1 >> unless_failed (iinc_form slot delta)

-- `Local`, on a descriptor that has been parsed.
abbrev pub record_local : ℕ → List ℕ → List ℕ → ℕ → ℕ → M
record_local slot name descriptor start end c =
    if ltb locals_limit slot then fail bad_slot c else record c {
      locals =
          c.locals
          ++ (record { slot = slot; name = name; descriptor = descriptor; start = start; end = end }
              ∷ []);
    }

-- What is done with a descriptor, unless it does not parse.
abbrev pub with_parsed {ℓ} : {A : Type ℓ} {E : Type ℓ} → Result E A → (A → M) → M
with_parsed (ok a) f = f a
with_parsed (err e) f = fail bad_descriptor
with_parsed stuck f = fail bad_descriptor

unfoldable pub local : ℕ → List ℕ → List ℕ → ℕ → ℕ → M
unfolding fail
local slot name descriptor start end =
    with_parsed (parse_field descriptor) λ t. record_local slot name descriptor start end

unfoldable pub ldc : ℕ → Bool → M
unfolding emit_op push
ldc idx wide =
    if wide
    then emit_op Op.ldc2_w >> write_u2 idx >> push 2
    else if ltb idx 256
    then emit_op Op.ldc >> write_u1 idx >> push 1
    else emit_op Op.ldc_w >> write_u2 idx >> push 1

abbrev pub ldc_index : Bool → ℕ → M
ldc_index wide idx = ldc idx wide

unfoldable pub iconst : ℕ → M
unfolding emit_op push ldc
iconst v =
    if is_between 32 1 5 v
    then emit_op ((Op.iconst_0 + v) % 256) >> push 1
    else if is_between 32 128 127 v
    then emit_op Op.bipush >> write_u1 v >> push 1
    else if is_between 32 32768 32767 v
    then emit_op Op.sipush >> write_u2 v >> push 1
    else with_index (intern_int v) (ldc_index false)

unfoldable pub lconst : ℕ → M
unfolding emit_op push ldc
lconst v =
    if v == 0 || v == 1
    then emit_op ((Op.lconst_0 + v) % 256) >> push 2
    else with_index (intern_long v) (ldc_index true)

-- The bit patterns of 0, 1 and 2.
unfoldable pub fconst : ℕ → M
unfolding emit_op push ldc
fconst bits =
    if bits == 0
    then emit_op Op.fconst_0 >> push 1
    else if bits == 0x3F800000
    then emit_op Op.fconst_1 >> push 1
    else if bits == 0x40000000
    then emit_op Op.fconst_2 >> push 1
    else with_index (intern_float bits) (ldc_index false)

unfoldable pub dconst : ℕ → M
unfolding emit_op push ldc
dconst bits =
    if bits == 0
    then emit_op Op.dconst_0 >> push 2
    else if bits == 0x3FF0000000000000
    then emit_op Op.dconst_1 >> push 2
    else with_index (intern_double bits) (ldc_index true)

unfoldable pub sconst : List ℕ → M
unfolding ldc
sconst s = with_index (intern_string s) (ldc_index false)

-- `Java5` is 49.
unfoldable pub cconst : List ℕ → M
unfolding ldc fail
cconst class_name c =
    if not (leb 49 c.major)
    then fail class_not_loadable c
    else with_index (intern_class class_name) (ldc_index false) c

unfoldable pub aconst_null : M
unfolding emit_op push
aconst_null = emit_op Op.aconst_null >> push 1
