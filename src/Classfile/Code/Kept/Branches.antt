-- ===== src/Classfile/Code/Kept/Branches.antt =====
-- classfile/codewriter.go: branches and switches keep what their parts keep.
use mocha.Prelude.{Bool, List, false, length, ltb, not, true, ℕ, ◌+◌, ◌-◌, ◌==◌}
use mocha.Classfile.Code.{Branch, M, empty_range, write_u4, wrong_targets, ◌>>◌}
use mocha.Classfile.Code.Branches.{
  Condition, branch, branch_form, each, goto_label, has_duplicate, if_branch, line, lookup_sorted,
  lookup_switch, order, padding, record_branch, seconds, sort_matches, switch_with, table_switch,
  zip_with,
}
use mocha.Classfile.Code.Kept.{
  Keeps, LabelRules, Rules, each-Keeps, emit_op-Keeps, fail-Keeps, if-Keeps, pop-Keeps,
  terminate-Keeps, times-Keeps, write_u1-Keeps, write_u4-Keeps, writes,
}
use mocha.Jvm.Op.{goto_op, tableswitch}
use mocha.Jvm.Op

module _ (r : Rules) where
  pub branch_form-Keeps : (o : ℕ) (long_form : Bool) → Keeps r (branch_form o long_form)
  branch_form-Keeps o false = search writes
  branch_form-Keeps o true = if-Keeps r (o == Op.goto_op) (search writes) (search writes)

  -- What a branch keeps whatever its ordinal and its form.
  pub branch-Keeps :
      ((b : Branch) → Keeps r (record_branch b)) → (o l pops : ℕ) → Keeps r (branch o l pops)
  unfolding branch
  branch-Keeps records o l pops c inv =
      records _ _ (branch_form-Keeps o _ _ (r.noting l _ (pop-Keeps r pops c inv)))

  switch_with-Keeps :
      (o def : ℕ) (targets : List ℕ) {operands : M}
      → Keeps r operands
      → Keeps r (switch_with o def targets operands)
  switch_with-Keeps o def targets keeps c inv = terminate-Keeps r _ (
      r.switching _ _ (
        keeps _ (
          write_u4-Keeps r 0 _ (
            times-Keeps r (padding (length c.w)) (write_u1-Keeps r 0) _ (
              emit_op-Keeps r o _
                (each-Keeps r r.noting targets _ (r.noting def _ (pop-Keeps r 1 c inv))))))))

  pub table_switch-Keeps :
      (low high def : ℕ) (targets : List ℕ) → Keeps r (table_switch low high def targets)
  unfolding table_switch
  table_switch-Keeps low high def targets =
      if-Keeps r (ltb (order high) (order low)) (fail-Keeps r empty_range) (
        if-Keeps r (not (order high - order low + 1 == length targets)) (fail-Keeps r wrong_targets)
          (switch_with-Keeps Op.tableswitch def targets
            {operands = write_u4 low >> write_u4 high >> each (λ t. write_u4 0) targets}
            λ c inv.
              each-Keeps r (λ (t : ℕ). write_u4-Keeps r 0) targets _
                (write_u4-Keeps r high _ (write_u4-Keeps r low c inv))))

  lookup_sorted-Keeps : (def : ℕ) (pairs : List (ℕ × ℕ)) → Keeps r (lookup_sorted def pairs)
  lookup_sorted-Keeps def pairs = if-Keeps r (has_duplicate pairs) (fail-Keeps r _) (
      switch_with-Keeps _ def (seconds pairs) λ c inv.
        each-Keeps r (λ m d v. write_u4-Keeps r 0 _ (write_u4-Keeps r m.0 d v)) pairs _
          (write_u4-Keeps r (length pairs) c inv))

  pub lookup_switch-Keeps :
      (def : ℕ) (matches targets : List ℕ) → Keeps r (lookup_switch def matches targets)
  unfolding lookup_switch
  lookup_switch-Keeps def matches targets =
      if-Keeps r (not (length matches == length targets)) (fail-Keeps r _)
        (lookup_sorted-Keeps def (sort_matches (zip_with matches targets)))

  pub line-Keeps : (n : ℕ) → Keeps r (line n)
  unfolding line
  line-Keeps n c inv = r.numbering _ c inv

module _ (r : LabelRules) where
  pub goto_label-Keeps : (l : ℕ) → Keeps r.rules (goto_label l)
  unfolding goto_label
  goto_label-Keeps l c inv = terminate-Keeps r.rules _ (r.branching Op.goto_op l 0 c inv)

  pub if_branch-Keeps : (k : Condition) (l : ℕ) → Keeps r.rules (if_branch k l)
  unfolding if_branch
  if_branch-Keeps k l = r.branching _ l _
