-- ===== src/Classfile/Code/Kept/Instructions.antt =====
-- classfile/codewriter.go: the instructions that are no branches keep what their parts keep.
use mocha.Prelude.{Bool, List, false, leb, ltb, not, true, ℕ, ◌&&◌, ◌==◌, ◌||◌}
use mocha.Classfile.Code.{locals_limit}
use mocha.Classfile.Code.Instructions.{
  LocalKind, aconst_null, cconst, dconst, fconst, iconst, iinc, iinc_form, is_between, lconst, ldc,
  load, local, sconst, store,
}
use mocha.Classfile.Code.Kept.{
  Keeps, Rules, fail-Keeps, if-Inv, if-Keeps, local_op-Keeps, unless_failed-Keeps, use_local-Keeps,
  with_index-Keeps, with_parsed-Keeps, writes,
}
use mocha.Classfile.Pool.{intern_class}
use mocha.Jvm.Desc.{parse_field}

module _ (r : Rules) where
  pub load-Keeps : (k : LocalKind) (slot : ℕ) → Keeps r (load k slot)
  unfolding load
  load-Keeps k slot = search (writes, local_op-Keeps)

  pub store-Keeps : (k : LocalKind) (slot : ℕ) → Keeps r (store k slot)
  unfolding store
  store-Keeps k slot = search (writes, local_op-Keeps)

  pub iinc-Keeps : (slot delta : ℕ) → Keeps r (iinc slot delta)
  unfolding iinc
  iinc-Keeps slot delta c inv =
      unless_failed-Keeps r (iinc_form slot delta)
        (if-Keeps r (not (is_between 64 32768 32767 delta)) (fail-Keeps r _) (
          if-Keeps r (ltb slot 256 && is_between 64 128 127 delta) (search writes) (search writes)))
        _ (use_local-Keeps r slot 1 c inv)

  pub local-Keeps :
      (slot : ℕ) (name descriptor : List ℕ) (l m : ℕ) → Keeps r (local slot name descriptor l m)
  unfolding local
  local-Keeps slot name descriptor l m =
      with_parsed-Keeps r (parse_field descriptor) λ t c inv.
        if-Inv r (ltb locals_limit slot) (λ b. fail-Keeps r _ c inv) λ b. r.naming _ c inv

  ldc-Keeps : (idx : ℕ) (wide : Bool) → Keeps r (ldc idx wide)
  unfolding ldc
  ldc-Keeps idx true = search writes
  ldc-Keeps idx false = if-Keeps r (ltb idx 256) (search writes) (search writes)

  pub iconst-Keeps : (v : ℕ) → Keeps r (iconst v)
  unfolding iconst
  iconst-Keeps v = if-Keeps r (is_between 32 1 5 v) (search writes) (
      if-Keeps r (is_between 32 128 127 v) (search writes) (
        if-Keeps r (is_between 32 32768 32767 v) (search writes)
          (with_index-Keeps r _ λ i. ldc-Keeps i false)))

  pub lconst-Keeps : (v : ℕ) → Keeps r (lconst v)
  unfolding lconst
  lconst-Keeps v =
      if-Keeps r (v == 0 || v == 1) (search writes) (with_index-Keeps r _ λ i. ldc-Keeps i true)

  pub fconst-Keeps : (bits : ℕ) → Keeps r (fconst bits)
  unfolding fconst
  fconst-Keeps bits = if-Keeps r (bits == 0) (search writes) (
      if-Keeps r (bits == 0x3F800000) (search writes) (
        if-Keeps r (bits == 0x40000000) (search writes)
          (with_index-Keeps r _ λ i. ldc-Keeps i false)))

  pub dconst-Keeps : (bits : ℕ) → Keeps r (dconst bits)
  unfolding dconst
  dconst-Keeps bits = if-Keeps r (bits == 0) (search writes) (
      if-Keeps r (bits == 0x3FF0000000000000) (search writes)
        (with_index-Keeps r _ λ i. ldc-Keeps i true))

  pub sconst-Keeps : (s : List ℕ) → Keeps r (sconst s)
  unfolding sconst
  sconst-Keeps s = with_index-Keeps r _ λ i. ldc-Keeps i false

  pub cconst-Keeps : (s : List ℕ) → Keeps r (cconst s)
  unfolding cconst
  cconst-Keeps s c inv =
      if-Inv r (not (leb 49 c.major)) (λ b. fail-Keeps r _ c inv)
        λ b. with_index-Keeps r (intern_class s) (λ i. ldc-Keeps i false) c inv

  pub aconst_null-Keeps : Keeps r aconst_null
  unfolding aconst_null
  aconst_null-Keeps = search writes
