-- ===== src/Classfile/Code/Tests.antt =====
-- Runs of the code writer, and the theorems at concrete inputs.
use mocha.Prelude.{
  All, [], arith, false, none, not, refl, some, suc, zero, ℕ, ◌&&◌, ◌||◌, ◌∷◌, ◌≡◌, ◌≤◌,
}
use mocha.Classfile.Code.{Branch, CodeWriter, label_at, mark, new_label}
use mocha.Classfile.Code.Branches.{goto_label, icmp_lt}
use mocha.Classfile.Code.Calls.{
  does_iconst, does_simple_op, does_store, start_writer, stay, then_step,
}
use mocha.Classfile.Code.Constants.{
  Pushes, iconst-pushed_int, is_compact, is_some, is_some-simple_delta,
}
use mocha.Classfile.Code.Delta.{member, simple_delta}
use mocha.Classfile.Code.Fits.{Fits}
use mocha.Classfile.Code.Instructions.{iconst, int, store}
use mocha.Classfile.Code.Inverse.{Inverted, invert_lem}
use mocha.Classfile.Code.Limits.{Steps-Fits}
use mocha.Classfile.Code.Members.{simple_op}
use mocha.Classfile.Code.Resolve.{resolve}
use mocha.Classfile.Code.Rows.{IsWithin, local_rows, local_rows-IsWithin}
use mocha.Classfile.Code.Reach.{Addressed, is_ordinal_of, resolve_widens, some_short_of}
use mocha.Classfile.Pool.{new_pool_builder}
use mocha.Classfile.Wire.{patch_u2, u1, u2}
use mocha.Jvm.Desc.{DescType, void}
use mocha.Jvm.Op.{goto_op, is_plain, return_void, wide}
use mocha.Jvm.Op

abbrev no_result : DescType
no_result = record { kind = void; dims = 0; name = [] }

-- The writer of a static method with one argument.
abbrev first : CodeWriter
first = start_writer new_pool_builder no_result 52 [] 0 1

-- `iconst 7; istore_1; return`
store_seven :
    (simple_op Op.return_void (store int 1 (iconst 7 first))).w ≡ 0x10 ∷ 7 ∷ 0x3C ∷ 0xB1 ∷ []
unfolding simple_op store iconst u1 simple_delta new_pool_builder
store_seven = refl

store_seven-err : (simple_op Op.return_void (store int 1 (iconst 7 first))).err ≡ none
unfolding simple_op store iconst u1 simple_delta new_pool_builder
store_seven-err = refl

Steps-Fits_example : Fits (simple_op Op.return_void (store int 1 (iconst 7 first)))
Steps-Fits_example =
    Steps-Fits new_pool_builder no_result 52 [] 0 1
      (simple_op Op.return_void (store int 1 (iconst 7 first))) (omega arith)
      (then_step (then_step (then_step stay (does_iconst 7)) (does_store int 1))
        (does_simple_op Op.return_void))
      store_seven-err

invert_lem_example : Inverted icmp_lt
invert_lem_example = invert_lem icmp_lt

iconst-pushed_int_example : Pushes 300 first (iconst 300 first)
iconst-pushed_int_example = iconst-pushed_int 300 first (omega arith) refl refl

is_some-simple_delta_example :
    is_some (simple_delta 0x60) ≡ (Op.is_plain 0x60 && not (is_compact 0x60))
is_some-simple_delta_example = is_some-simple_delta 0x60 (omega arith)

-- An endless loop: a label, and a jump to it.
abbrev loop : CodeWriter
loop = goto_label 0 (mark 0 (new_label first).1)

loop-w : (resolve loop).1.w ≡ 0xA7 ∷ 0 ∷ 0 ∷ []
unfolding resolve goto_label mark new_label u1 u2 patch_u2
loop-w = refl

-- A short jump over 40000 bytes.
abbrev far_jump : Branch
far_jump = record { ord = 0; op = Op.goto_op; label = 0; at = 0; wide = false }

abbrev far_writer : CodeWriter
far_writer = record first {
  labels = record { pc = some 40000; depth = some 0 } ∷ [];
  branches = far_jump ∷ [];
}

far_writer-Addressed : Addressed far_writer.labels far_writer.branches
unfolding label_at
far_writer-Addressed = ((40000, refl, omega arith, omega arith), tt)

resolve_widens_example :
    ((resolve far_writer).0 ≡ some_short_of far_writer.labels far_writer.branches)
    × ((ord : ℕ)
        → member ord (resolve far_writer).1.widen ≡ (
            is_ordinal_of far_writer.labels ord far_writer.branches || member ord far_writer.widen))
resolve_widens_example = resolve_widens far_writer far_writer-Addressed

-- It is widened, and another pass is asked for.
far_jump-IsWidened : (resolve far_writer).1.widen ≡ 0 ∷ []
unfolding resolve label_at
far_jump-IsWidened = refl

-- A local between the first two of three labels, and one of an empty range.
abbrev scoped : CodeWriter
scoped = record first {
  labels = record { pc = some 2; depth = some 0 } ∷ record { pc = some 9; depth = some 0 } ∷ [];
  locals =
      record { slot = 1; name = []; descriptor = []; start = 0; end = 1 }
      ∷ record { slot = 2; name = []; descriptor = []; start = 1; end = 1 }
      ∷ [];
}

scoped-Placed : (l pc : ℕ) → (label_at scoped.labels l).pc ≡ some pc → pc ≤ 9
unfolding label_at
scoped-Placed zero pc e = ground arith
scoped-Placed (suc zero) pc e = ground arith
scoped-Placed (suc (suc l)) pc e = cc

local_rows-IsWithin_example : All (IsWithin 9) (local_rows scoped).0
local_rows-IsWithin_example = local_rows-IsWithin 9 scoped (omega arith) scoped-Placed

one_row :
    (local_rows scoped).0
    ≡ record { start_pc = 2; length = 7; name = []; descriptor = []; slot = 1 } ∷ []
unfolding local_rows label_at
one_row = refl
