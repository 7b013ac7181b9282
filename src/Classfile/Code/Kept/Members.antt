-- ===== src/Classfile/Code/Kept/Members.antt =====
-- classfile/codewriter.go: the instructions on members and objects keep what their parts keep.
use mocha.Prelude.{List, Option, ltb, none, not, some, ℕ, ◌||◌}
use mocha.Classfile.Code.{fail, no_return, with_index, write_u2}
use mocha.Classfile.Code.Delta.{simple_delta}
use mocha.Classfile.Code.Kept.{
  Keeps, Rules, emit_op-Keeps, fail-Keeps, if-Inv, if-Keeps, pop-Keeps, push-Keeps, terminate-Keeps,
  with_index-Keeps, with_parsed-Keeps, write_u2-Keeps, writes,
}
use mocha.Classfile.Code.Members.{
  FieldOp, InvokeOp, check_cast, emit_simple, field, field_effect, field_op, get_field, get_static,
  has_receiver, instance_of, invoke, invoke_interface, invoke_operands, invoke_special,
  invoke_static, invoke_virtual, new_array, new_multi_array, new_object, new_reference_array,
  put_field, put_static, return_op, return_value, simple_op,
}
use mocha.Classfile.Pool.{PoolBuilder, field_ref}
use mocha.Jvm.Desc.{check_arg_slots, is_ref, parse_field, parse_method, slots}
use mocha.Jvm.Op.{is_array_type, is_plain, ret, terminates}
use mocha.Jvm.Op

module _ (r : Rules) where
  index-Keeps : (build : PoolBuilder → ℕ × PoolBuilder) → Keeps r (with_index build write_u2)
  index-Keeps build = with_index-Keeps r build (write_u2-Keeps r)

  field_effect-Keeps : (o : FieldOp) (n : ℕ) → Keeps r (field_effect o n)
  field_effect-Keeps get_static n = search writes
  field_effect-Keeps put_static n = search writes
  field_effect-Keeps get_field n = search writes
  field_effect-Keeps put_field n = search writes

  pub field-Keeps :
      (o : FieldOp) (owner name descriptor : List ℕ) → Keeps r (field o owner name descriptor)
  unfolding field
  field-Keeps o owner name descriptor = with_parsed-Keeps r (parse_field descriptor) λ t c inv.
      field_effect-Keeps o (slots t) _
        (index-Keeps (field_ref owner name descriptor) _ (emit_op-Keeps r (field_op o) c inv))

  invoke_operands-Keeps :
      (o : InvokeOp) (args : ℕ) (owner name descriptor : List ℕ)
      → Keeps r (invoke_operands o args owner name descriptor)
  invoke_operands-Keeps invoke_virtual args owner name descriptor = index-Keeps _
  invoke_operands-Keeps invoke_special args owner name descriptor = index-Keeps _
  invoke_operands-Keeps invoke_static args owner name descriptor = index-Keeps _
  invoke_operands-Keeps invoke_interface args owner name descriptor = search (writes, index-Keeps)

  pub invoke-Keeps :
      (o : InvokeOp) (owner name descriptor : List ℕ) → Keeps r (invoke o owner name descriptor)
  unfolding invoke
  invoke-Keeps o owner name descriptor = with_parsed-Keeps r (parse_method descriptor) λ m.
      with_parsed-Keeps r (check_arg_slots m (has_receiver o))
        λ u. search (writes, invoke_operands-Keeps)

  pub new_object-Keeps : (s : List ℕ) → Keeps r (new_object s)
  unfolding new_object
  new_object-Keeps s = search (writes, index-Keeps)

  pub new_reference_array-Keeps : (s : List ℕ) → Keeps r (new_reference_array s)
  unfolding new_reference_array
  new_reference_array-Keeps s = search (writes, index-Keeps)

  pub new_array-Keeps : (t : ℕ) → Keeps r (new_array t)
  unfolding new_array
  new_array-Keeps t = if-Keeps r (not (Op.is_array_type t)) (fail-Keeps r _) (search writes)

  pub new_multi_array-Keeps : (s : List ℕ) (n : ℕ) → Keeps r (new_multi_array s n)
  unfolding new_multi_array
  new_multi_array-Keeps s n = if-Keeps r (ltb n 1 || ltb 255 n) (fail-Keeps r _) (
      with_parsed-Keeps r (parse_field s)
        λ t. if-Keeps r (ltb t.dims n) (fail-Keeps r _) (search (writes, index-Keeps)))

  pub check_cast-Keeps : (s : List ℕ) → Keeps r (check_cast s)
  unfolding check_cast
  check_cast-Keeps s = search (writes, index-Keeps)

  pub instance_of-Keeps : (s : List ℕ) → Keeps r (instance_of s)
  unfolding instance_of
  instance_of-Keeps s = search (writes, index-Keeps)

  emit_simple-Keeps : (o : ℕ) (d : Option (ℕ × ℕ)) → Keeps r (emit_simple o d)
  emit_simple-Keeps o none c inv = fail-Keeps r _ c inv
  emit_simple-Keeps o (some (a, b)) c inv =
      if-Keeps r (Op.terminates o) (terminate-Keeps r) (λ e v. v) _
        (push-Keeps r b _ (pop-Keeps r a _ (emit_op-Keeps r o c inv)))

  pub simple_op-Keeps : (o : ℕ) → Keeps r (simple_op o)
  unfolding simple_op
  simple_op-Keeps o =
      if-Keeps r (not (Op.is_plain o)) (fail-Keeps r _) (emit_simple-Keeps o (simple_delta o))

  return_with-Keeps :
      (o : Option ℕ) → Keeps r (λ c. elim o [ some x ↦ simple_op x c | none ↦ fail no_return c ])
  return_with-Keeps none = fail-Keeps r _
  return_with-Keeps (some o) = simple_op-Keeps o

  pub return_value-Keeps : Keeps r return_value
  unfolding return_value
  return_value-Keeps c inv =
      if-Inv r (is_ref c.ret) (λ b. simple_op-Keeps _ c inv)
        λ b. return_with-Keeps (return_op c.ret.kind) c inv
