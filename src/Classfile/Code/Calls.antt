-- ===== src/Classfile/Code/Calls.antt =====
-- classfile/codewriter.go: what a closure given to MethodBuilder.Code can do, as steps: it calls the
-- methods of the writer, in any order and with any arguments. `start_writer` is the writer that it is given.
use mocha.Prelude.{List, [], none, true, ℕ}
use mocha.Classfile.Code.{CodeWriter, HandlerRec, mark, new_label}
use mocha.Classfile.Code.Branches.{
  Condition, goto_label, if_branch, line, lookup_switch, table_switch, try_catch,
}
use mocha.Classfile.Code.Instructions.{
  LocalKind, aconst_null, cconst, dconst, fconst, iconst, iinc, lconst, load, local, sconst, store,
}
use mocha.Classfile.Code.Members.{
  FieldOp, InvokeOp, check_cast, field, instance_of, invoke, new_array, new_multi_array, new_object,
  new_reference_array, return_value, simple_op,
}
use mocha.Classfile.Pool.{PoolBuilder}
use mocha.Jvm.Desc.{DescType}

pub data Step : CodeWriter → CodeWriter → Type 0 where
  does_new_label : {c : CodeWriter} → Step c (new_label c).1
  does_mark : {c : CodeWriter} (l : ℕ) → Step c (mark l c)
  does_load : {c : CodeWriter} (k : LocalKind) (slot : ℕ) → Step c (load k slot c)
  does_store : {c : CodeWriter} (k : LocalKind) (slot : ℕ) → Step c (store k slot c)
  does_iinc : {c : CodeWriter} (slot delta : ℕ) → Step c (iinc slot delta c)
  does_local :
      {c : CodeWriter} (slot : ℕ) (name descriptor : List ℕ) (l m : ℕ)
      → Step c (local slot name descriptor l m c)
  does_iconst : {c : CodeWriter} (v : ℕ) → Step c (iconst v c)
  does_lconst : {c : CodeWriter} (v : ℕ) → Step c (lconst v c)
  does_fconst : {c : CodeWriter} (v : ℕ) → Step c (fconst v c)
  does_dconst : {c : CodeWriter} (v : ℕ) → Step c (dconst v c)
  does_sconst : {c : CodeWriter} (s : List ℕ) → Step c (sconst s c)
  does_cconst : {c : CodeWriter} (s : List ℕ) → Step c (cconst s c)
  does_aconst_null : {c : CodeWriter} → Step c (aconst_null c)
  does_field :
      {c : CodeWriter} (o : FieldOp) (owner name descriptor : List ℕ)
      → Step c (field o owner name descriptor c)
  does_invoke :
      {c : CodeWriter} (o : InvokeOp) (owner name descriptor : List ℕ)
      → Step c (invoke o owner name descriptor c)
  does_new_object : {c : CodeWriter} (s : List ℕ) → Step c (new_object s c)
  does_new_reference_array : {c : CodeWriter} (s : List ℕ) → Step c (new_reference_array s c)
  does_new_array : {c : CodeWriter} (t : ℕ) → Step c (new_array t c)
  does_new_multi_array : {c : CodeWriter} (s : List ℕ) (n : ℕ) → Step c (new_multi_array s n c)
  does_check_cast : {c : CodeWriter} (s : List ℕ) → Step c (check_cast s c)
  does_instance_of : {c : CodeWriter} (s : List ℕ) → Step c (instance_of s c)
  does_simple_op : {c : CodeWriter} (o : ℕ) → Step c (simple_op o c)
  does_return_value : {c : CodeWriter} → Step c (return_value c)
  does_goto_label : {c : CodeWriter} (l : ℕ) → Step c (goto_label l c)
  does_if_branch : {c : CodeWriter} (k : Condition) (l : ℕ) → Step c (if_branch k l c)
  does_table_switch :
      {c : CodeWriter} (low high def : ℕ) (targets : List ℕ)
      → Step c (table_switch low high def targets c)
  does_lookup_switch :
      {c : CodeWriter} (def : ℕ) (matches targets : List ℕ)
      → Step c (lookup_switch def matches targets c)
  does_try_catch : {c : CodeWriter} (h : HandlerRec) → Step c (try_catch h c)
  does_line : {c : CodeWriter} (n : ℕ) → Step c (line n c)

-- A run of the closure.
pub data Steps : CodeWriter → CodeWriter → Type 0 where
  stay : {c : CodeWriter} → Steps c c
  then_step : {c d e : CodeWriter} → Steps c d → Step d e → Steps c e

-- The writer of one pass, in `Code` of classfile/builder.go.
abbrev pub start_writer : PoolBuilder → DescType → ℕ → List ℕ → ℕ → ℕ → CodeWriter
start_writer p return_type major widen pass args = record {
  p = p;
  w = [];
  err = none;
  ret = return_type;
  major = major;
  labels = [];
  branches = [];
  switches = [];
  handlers = [];
  lines = [];
  locals = [];
  widen = widen;
  pass = pass;
  depth = 0;
  max_stack = 0;
  max_locals = args;
  reachable = true;
}
