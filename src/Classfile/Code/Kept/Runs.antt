-- ===== src/Classfile/Code/Kept/Runs.antt =====
-- classfile/codewriter.go and classfile/builder.go: what the methods of the writer keep, a closure keeps.
use mocha.Classfile.Code.{CodeWriter}
use mocha.Classfile.Code.Calls.{
  Step, Steps, does_aconst_null, does_cconst, does_check_cast, does_dconst, does_fconst, does_field,
  does_goto_label, does_iconst, does_if_branch, does_iinc, does_instance_of, does_invoke,
  does_lconst, does_line, does_load, does_local, does_lookup_switch, does_mark, does_new_array,
  does_new_label, does_new_multi_array, does_new_object, does_new_reference_array,
  does_return_value, does_sconst, does_simple_op, does_store, does_table_switch, does_try_catch,
  stay, then_step,
}
use mocha.Classfile.Code.Kept.{LabelRules}
use mocha.Classfile.Code.Kept.Branches.{
  goto_label-Keeps, if_branch-Keeps, line-Keeps, lookup_switch-Keeps, table_switch-Keeps,
}
use mocha.Classfile.Code.Kept.Instructions.{
  aconst_null-Keeps, cconst-Keeps, dconst-Keeps, fconst-Keeps, iconst-Keeps, iinc-Keeps,
  lconst-Keeps, load-Keeps, local-Keeps, sconst-Keeps, store-Keeps,
}
use mocha.Classfile.Code.Kept.Members.{
  check_cast-Keeps, field-Keeps, instance_of-Keeps, invoke-Keeps, new_array-Keeps,
  new_multi_array-Keeps, new_object-Keeps, new_reference_array-Keeps, return_value-Keeps,
  simple_op-Keeps,
}

module _ (r : LabelRules) where
  Step-Inv : {c d : CodeWriter} → Step c d → r.rules.Inv c → r.rules.Inv d
  Step-Inv (does_new_label) inv = r.labelling _ inv
  Step-Inv (does_mark l) inv = r.marking l _ inv
  Step-Inv (does_load k slot) inv = load-Keeps r.rules k slot _ inv
  Step-Inv (does_store k slot) inv = store-Keeps r.rules k slot _ inv
  Step-Inv (does_iinc slot delta) inv = iinc-Keeps r.rules slot delta _ inv
  Step-Inv (does_iconst v) inv = iconst-Keeps r.rules v _ inv
  Step-Inv (does_lconst v) inv = lconst-Keeps r.rules v _ inv
  Step-Inv (does_fconst v) inv = fconst-Keeps r.rules v _ inv
  Step-Inv (does_dconst v) inv = dconst-Keeps r.rules v _ inv
  Step-Inv (does_sconst s) inv = sconst-Keeps r.rules s _ inv
  Step-Inv (does_cconst s) inv = cconst-Keeps r.rules s _ inv
  Step-Inv (does_aconst_null) inv = aconst_null-Keeps r.rules _ inv
  Step-Inv (does_new_object s) inv = new_object-Keeps r.rules s _ inv
  Step-Inv (does_new_reference_array s) inv = new_reference_array-Keeps r.rules s _ inv
  Step-Inv (does_new_array t) inv = new_array-Keeps r.rules t _ inv
  Step-Inv (does_new_multi_array s n) inv = new_multi_array-Keeps r.rules s n _ inv
  Step-Inv (does_check_cast s) inv = check_cast-Keeps r.rules s _ inv
  Step-Inv (does_instance_of s) inv = instance_of-Keeps r.rules s _ inv
  Step-Inv (does_simple_op o) inv = simple_op-Keeps r.rules o _ inv
  Step-Inv (does_return_value) inv = return_value-Keeps r.rules _ inv
  Step-Inv (does_goto_label l) inv = goto_label-Keeps r l _ inv
  Step-Inv (does_if_branch k l) inv = if_branch-Keeps r k l _ inv
  Step-Inv (does_try_catch h) inv = r.handling h _ inv
  Step-Inv (does_line n) inv = line-Keeps r.rules n _ inv
  Step-Inv (does_local slot name descriptor l m) inv =
      local-Keeps r.rules slot name descriptor l m _ inv
  Step-Inv (does_field o owner name descriptor) inv =
      field-Keeps r.rules o owner name descriptor _ inv
  Step-Inv (does_invoke o owner name descriptor) inv =
      invoke-Keeps r.rules o owner name descriptor _ inv
  Step-Inv (does_table_switch low high def targets) inv =
      table_switch-Keeps r.rules low high def targets _ inv
  Step-Inv (does_lookup_switch def matches targets) inv =
      lookup_switch-Keeps r.rules def matches targets _ inv

  pub Steps-Inv : {c d : CodeWriter} → Steps c d → r.rules.Inv c → r.rules.Inv d
  Steps-Inv stay inv = inv
  Steps-Inv (then_step run last) inv = Step-Inv last (Steps-Inv run inv)
