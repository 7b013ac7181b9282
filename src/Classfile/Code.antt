-- ===== src/Classfile/Code.antt =====
-- classfile/codewriter.go: the state of the code writer, its labels, the operand stack, the locals,
-- and the opcodes it emits. A `*Label` is the label's id; an `int` or `int32` that may be negative is
-- its two's complement pattern. The depth and the offsets are numbers: the code's `int32` holds them.
pub mod Delta
pub mod Instructions
pub mod Members
pub mod Branches
pub mod Resolve
pub mod Calls
pub mod Kept
pub mod Fits
pub mod Limits
pub mod Quiet
pub mod Grows
pub mod Inverse
pub mod Reach
pub mod Widening
pub mod Constants
pub mod Rows
mod Tests
use mocha.Prelude.{
  Bool, List, Option, [], false, if◌then◌else◌, length, ltb, none, not, set, some, suc, true, zero,
  ℕ, ◌%◌, ◌&&◌, ◌++◌, ◌+◌, ◌-◌, ◌==◌, ◌^◌, ◌∷◌,
}
use mocha.Classfile.Pool.{PoolBuilder}
use mocha.Classfile.Wire.{u1, u2, u4}
use mocha.Jvm.Desc.{DescType}
use mocha.Jvm.Op

pub data CodeError : Type 0 where
  placed_twice fall_in_depth unreachable_label branch_depth : CodeError
  stack_overflow stack_underflow bad_slot too_many_locals unreachable_op : CodeError
  bad_delta class_not_loadable bad_descriptor too_many_args bad_array_type bad_dims : CodeError
  takes_operands not_permitted no_return empty_range wrong_targets duplicate_match : CodeError
  handler_depth never_placed : CodeError

pub record Label : Type 0 where
  pub pc : Option ℕ
  pub depth : Option ℕ

pub record Branch : Type 0 where
  pub ord : ℕ
  pub op : ℕ
  pub label : ℕ
  pub at : ℕ
  pub wide : Bool

pub record SwitchRec : Type 0 where
  pub op : ℕ
  pub at : ℕ
  pub pad : ℕ
  pub def : ℕ
  pub targets : List ℕ

pub record HandlerRec : Type 0 where
  pub start : ℕ
  pub end : ℕ
  pub handler : ℕ
  pub catch_type : List ℕ

pub record LineNumber : Type 0 where
  pub start_pc : ℕ
  pub line : ℕ

pub record LocalRec : Type 0 where
  pub slot : ℕ
  pub name : List ℕ
  pub descriptor : List ℕ
  pub start : ℕ
  pub end : ℕ

-- `Version`, of which the major number matters here.
pub record CodeWriter : Type 0 where
  pub p : PoolBuilder
  pub w : List ℕ
  pub err : Option CodeError
  pub ret : DescType
  pub major : ℕ
  pub labels : List Label
  pub branches : List Branch
  pub switches : List SwitchRec
  pub handlers : List HandlerRec
  pub lines : List LineNumber
  pub locals : List LocalRec
  pub widen : List ℕ
  pub pass : ℕ
  pub depth : ℕ
  pub max_stack : ℕ
  pub max_locals : ℕ
  pub reachable : Bool

abbrev pub stack_limit : ℕ
stack_limit = 65535

abbrev pub locals_limit : ℕ
locals_limit = 65535

-- A method without a result.
abbrev pub M : Type 0
M = CodeWriter → CodeWriter

infixl 5 ◌>>◌
abbrev pub ◌>>◌ : M → M → M
◌>>◌ f g c = g (f c)

unfoldable pub fail : CodeError → M
fail e c = elim c.err [ none ↦ record c { err = some e } | some x ↦ c ]

abbrev pub unplaced : Label
unplaced = record { pc = none; depth = none }

unfoldable pub label_at : List Label → ℕ → Label
label_at [] l = unplaced
label_at (x ∷ xs) zero = x
label_at (x ∷ xs) (suc l) = label_at xs l

-- `NewLabel`: the id and the writer.
unfoldable pub new_label : CodeWriter → ℕ × CodeWriter
new_label c = (length c.labels, record c { labels = c.labels ++ (unplaced ∷ []) })

-- A placed label, with the depth it expects, is entered.
unfoldable pub enter : ℕ → Option ℕ → M
unfolding fail
enter l (some n) c =
    if c.reachable && not (c.depth == n)
    then fail fall_in_depth c
    else record c { depth = n; reachable = true }
enter l none c =
    if c.reachable
    then record c {
      labels = set c.labels l (record { pc = (label_at c.labels l).pc; depth = some c.depth });
      reachable = true;
    }
    else fail unreachable_label c

abbrev pub place : ℕ → M
place l c = record c {
  labels = set c.labels l (record (label_at c.labels l) { pc = some (length c.w) });
}

unfoldable pub mark : ℕ → M
unfolding fail enter label_at
mark l c = elim (label_at c.labels l).pc [
  | some n ↦ fail placed_twice c
  | none ↦ enter l (label_at c.labels l).depth (place l c)
]

unfoldable pub note_depth : ℕ → M
unfolding fail label_at
note_depth l c = elim (label_at c.labels l).depth [
  | none ↦ record c {
    labels = set c.labels l (record (label_at c.labels l) { depth = some c.depth });
  }
  | some n ↦ if not (n == c.depth) then fail branch_depth c else c
]

unfoldable pub push : ℕ → M
unfolding fail
push n c =
    let d = record c { depth = c.depth + n } in
    if ltb c.max_stack (c.depth + n)
    then if ltb stack_limit (c.depth + n)
      then fail stack_overflow d
      else record d { max_stack = c.depth + n }
    else d

unfoldable pub pop : ℕ → M
unfolding fail
pop n c =
    if ltb c.depth n
    then record (fail stack_underflow c) { depth = 0 }
    else record c { depth = c.depth - n }

-- A negative slot has a pattern above the limit.
unfoldable pub use_local : ℕ → ℕ → M
unfolding fail
use_local slot width c =
    if ltb locals_limit slot
    then fail bad_slot c
    else if ltb locals_limit (slot + width)
    then fail too_many_locals c
    else if ltb c.max_locals (slot + width)
    then record c { max_locals = slot + width }
    else c

abbrev pub terminate : M
terminate c = record c { reachable = false }

-- The conversions to `uint8`, `uint16` and `uint32` are part of what is written.
abbrev pub write_u1 : ℕ → M
write_u1 v c = record c { w = u1 (v % 256) c.w }

abbrev pub write_u2 : ℕ → M
write_u2 v c = record c { w = u2 (v % 2 ^ 16) c.w }

abbrev pub write_u4 : ℕ → M
write_u4 v c = record c { w = u4 (v % 2 ^ 32) c.w }

unfoldable pub emit_op : ℕ → M
unfolding fail
emit_op o c = if not c.reachable then fail unreachable_op c else write_u1 o c

-- `if c.err != nil { return }`
abbrev pub unless_failed : M → M
unless_failed f c = elim c.err [ none ↦ f c | some e ↦ c ]

abbrev local_form : ℕ → ℕ → ℕ → M
local_form general compact slot =
    if ltb slot 4
    then emit_op ((compact + slot) % 256)
    else if ltb slot 256
    then emit_op general >> write_u1 slot
    else emit_op Op.wide >> write_u1 general >> write_u2 slot

unfoldable pub local_op : ℕ → ℕ → ℕ → ℕ → M
unfolding use_local emit_op
local_op general compact slot width =
    use_local slot width >> unless_failed (local_form general compact slot)

-- An index of the pool, as an operand.
abbrev pub with_index : (PoolBuilder → ℕ × PoolBuilder) → (ℕ → M) → M
with_index build use_index c = use_index (build c.p).0 (record c { p = (build c.p).1 })
