-- ===== src/Classfile/Code/Resolve.antt =====
-- classfile/codewriter.go: `resolve`, which patches the offsets once all labels are placed.
use mocha.Prelude.{
  Bool, List, Option, [], false, if◌then◌else◌, none, not, some, suc, true, ℕ, ◌%◌, ◌&&◌, ◌*◌, ◌+◌,
  ◌-◌, ◌==◌, ◌^◌, ◌||◌, ◌∷◌,
}
use mocha.Classfile.Code.{Branch, CodeWriter, M, SwitchRec, fail, label_at, never_placed}
use mocha.Classfile.Code.Instructions.{is_between}
use mocha.Classfile.Wire.{patch_u2, patch_u4}
use mocha.Jvm.Op.{goto_op, tableswitch, wide}
use mocha.Jvm.Op

-- The difference of two offsets, as the pattern of an `int32`.
abbrev pub distance : ℕ → ℕ → ℕ
distance pc at = (pc + 2 ^ 32 - at) % 2 ^ 32

abbrev pub patch_short : ℕ → ℕ → M
patch_short off v c = record c { w = patch_u2 off (v % 2 ^ 16) c.w }

abbrev pub patch_word : ℕ → ℕ → M
patch_word off v c = record c { w = patch_u4 off (v % 2 ^ 32) c.w }

abbrev pub widen_branch : ℕ → M
widen_branch ord c = record c { widen = ord ∷ c.widen }

-- Whether the offset of a branch does not fit into 16 bits.
abbrev pub is_far : Branch → ℕ → Bool
is_far br pc = not br.wide && not (is_between 32 32768 32767 (distance pc br.at))

abbrev pub patch_branch : Branch → ℕ → M
patch_branch br pc =
    if br.wide && br.op == Op.goto_op
    then patch_word (br.at + 1) (distance pc br.at)
    else if br.wide
    then patch_word (br.at + 4) (distance pc (br.at + 3))
    else if is_far br pc
    then widen_branch br.ord
    else patch_short (br.at + 1) (distance pc br.at)

-- The loop over the branches; `none` where it returns at once.
unfoldable pub resolve_branches : List Branch → Bool → CodeWriter → Option Bool × CodeWriter
unfolding fail label_at
resolve_branches [] again c = (some again, c)
resolve_branches (br ∷ brs) again c = elim (label_at c.labels br.label).pc [
  | none ↦ (none, fail never_placed c)
  | some pc ↦ resolve_branches brs (again || is_far br pc) (patch_branch br pc c)
]

abbrev target_at : SwitchRec → ℕ → ℕ
target_at s i = s.at + 1 + s.pad + (if s.op == Op.tableswitch then 12 + 4 * i else 8 + 8 * i + 4)

-- The loop over the targets, and whether it came to its end.
unfoldable pub resolve_targets : SwitchRec → ℕ → List ℕ → CodeWriter → Bool × CodeWriter
unfolding fail label_at
resolve_targets s i [] c = (true, c)
resolve_targets s i (t ∷ ts) c = elim (label_at c.labels t).pc [
  | none ↦ (false, fail never_placed c)
  | some pc ↦ resolve_targets s (suc i) ts (patch_word (target_at s i) (distance pc s.at) c)
]

unfoldable pub resolve_switch : SwitchRec → CodeWriter → Bool × CodeWriter
unfolding fail label_at resolve_targets
resolve_switch s c = elim (label_at c.labels s.def).pc [
  | none ↦ (false, fail never_placed c)
  | some pc ↦ resolve_targets s 0 s.targets (patch_word (s.at + 1 + s.pad) (distance pc s.at) c)
]

unfoldable pub resolve_switches : List SwitchRec → M
unfolding resolve_switch
resolve_switches [] c = c
resolve_switches (s ∷ ss) c =
    let (more, d) = resolve_switch s c in
    let rest = resolve_switches ss d in if more then rest else d

abbrev pub after_branches : Option Bool × CodeWriter → Bool × CodeWriter
after_branches (none, c) = (false, c)
after_branches (some true, c) = (true, c)
after_branches (some false, c) = (false, resolve_switches c.switches c)

unfoldable pub resolve : CodeWriter → Bool × CodeWriter
unfolding resolve_branches resolve_switches
resolve c = after_branches (resolve_branches c.branches false c)
