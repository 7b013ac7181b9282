-- ===== src/Classfile/Code/Members.antt =====
-- classfile/codewriter.go: the instructions on members and objects, those without operands, and the
-- return of a method.
use mocha.Prelude.{
  Bool, List, Option, false, if◌then◌else◌, ltb, none, not, some, true, ℕ, ◌+◌, ◌||◌,
}
use mocha.Classfile.Code.{
  M, bad_array_type, bad_dims, emit_op, fail, no_return, not_permitted, pop, push, takes_operands,
  terminate, with_index, write_u1, write_u2, ◌>>◌,
}
use mocha.Classfile.Code.Delta.{simple_delta}
use mocha.Classfile.Code.Instructions.{with_parsed}
use mocha.Classfile.Pool.{field_ref, interface_method_ref, intern_class, method_ref}
use mocha.Jvm.Desc.{
  DescType, Kind, Method, arg_slots, boolean, byte, char, check_arg_slots, double, float, int,
  is_ref, long, parse_field, parse_method, short, slots, void,
}
use mocha.Jvm.Op.{
  anewarray, areturn, athrow, checkcast, dreturn, freturn, getfield, getstatic, instanceof,
  invokeinterface, invokespecial, invokestatic, invokevirtual, ireturn, is_array_type, is_plain,
  lreturn, multianewarray, newarray, putfield, putstatic, ret, return_void, terminates,
}
use mocha.Jvm.Op

pub data FieldOp : Type 0 where
  get_static put_static get_field put_field : FieldOp

abbrev pub field_op : FieldOp → ℕ
field_op get_static = Op.getstatic
field_op put_static = Op.putstatic
field_op get_field = Op.getfield
field_op put_field = Op.putfield

abbrev pub field_effect : FieldOp → ℕ → M
field_effect get_static width = push width
field_effect put_static width = pop width
field_effect get_field width = pop 1 >> push width
field_effect put_field width = pop (width + 1)

-- `GetStatic`, `PutStatic`, `GetField` and `PutField` by the opcode.
unfoldable pub field : FieldOp → List ℕ → List ℕ → List ℕ → M
unfolding emit_op push pop fail
field o owner name descriptor = with_parsed (parse_field descriptor) λ t.
    emit_op (field_op o)
    >> with_index (field_ref owner name descriptor) write_u2
    >> field_effect o (slots t)

pub data InvokeOp : Type 0 where
  invoke_virtual invoke_special invoke_static invoke_interface : InvokeOp

abbrev pub invoke_op : InvokeOp → ℕ
invoke_op invoke_virtual = Op.invokevirtual
invoke_op invoke_special = Op.invokespecial
invoke_op invoke_static = Op.invokestatic
invoke_op invoke_interface = Op.invokeinterface

abbrev pub has_receiver : InvokeOp → Bool
has_receiver invoke_static = false
has_receiver _ = true

abbrev pub invoke_operands : InvokeOp → ℕ → List ℕ → List ℕ → List ℕ → M
invoke_operands invoke_interface args owner name descriptor =
    with_index (interface_method_ref owner name descriptor) write_u2 >> write_u1 args >> write_u1 0
invoke_operands _ args owner name descriptor =
    with_index (method_ref owner name descriptor) write_u2

abbrev pub invoke_parsed : InvokeOp → List ℕ → List ℕ → List ℕ → Method → M
invoke_parsed o owner name descriptor m = with_parsed (check_arg_slots m (has_receiver o)) λ u.
    emit_op (invoke_op o)
    >> invoke_operands o (arg_slots m (has_receiver o)) owner name descriptor
    >> pop (arg_slots m (has_receiver o))
    >> push (slots m.ret)

-- `InvokeVirtual`, `InvokeSpecial`, `InvokeStatic` and `InvokeInterface` by the opcode.
unfoldable pub invoke : InvokeOp → List ℕ → List ℕ → List ℕ → M
unfolding emit_op push pop fail
invoke o owner name descriptor =
    with_parsed (parse_method descriptor) (invoke_parsed o owner name descriptor)

unfoldable pub new_object : List ℕ → M
unfolding emit_op push
new_object class_name =
    emit_op Op.new_object >> with_index (intern_class class_name) write_u2 >> push 1

unfoldable pub new_reference_array : List ℕ → M
unfolding emit_op push pop
new_reference_array component =
    emit_op Op.anewarray >> with_index (intern_class component) write_u2 >> pop 1 >> push 1

unfoldable pub new_array : ℕ → M
unfolding emit_op push pop fail
new_array type_code =
    if not (Op.is_array_type type_code)
    then fail bad_array_type
    else emit_op Op.newarray >> write_u1 type_code >> pop 1 >> push 1

abbrev pub multi_parsed : List ℕ → ℕ → DescType → M
multi_parsed descriptor dims t =
    if ltb t.dims dims
    then fail bad_dims
    else emit_op Op.multianewarray
      >> with_index (intern_class descriptor) write_u2
      >> write_u1 dims
      >> pop dims
      >> push 1

unfoldable pub new_multi_array : List ℕ → ℕ → M
unfolding emit_op push pop fail
new_multi_array descriptor dims =
    if ltb dims 1 || ltb 255 dims
    then fail bad_dims
    else with_parsed (parse_field descriptor) (multi_parsed descriptor dims)

unfoldable pub check_cast : List ℕ → M
unfolding emit_op
check_cast class_name = emit_op Op.checkcast >> with_index (intern_class class_name) write_u2

unfoldable pub instance_of : List ℕ → M
unfolding emit_op
instance_of class_name = emit_op Op.instanceof >> with_index (intern_class class_name) write_u2

abbrev pub emit_simple : ℕ → Option (ℕ × ℕ) → M
emit_simple o none = fail not_permitted
emit_simple o (some (pops, pushes)) =
    emit_op o >> pop pops >> push pushes >> (if Op.terminates o then terminate else λ c. c)

-- `Op`
unfoldable pub simple_op : ℕ → M
unfolding emit_op push pop fail
simple_op o = if not (Op.is_plain o) then fail takes_operands else emit_simple o (simple_delta o)

abbrev pub throw : M
throw = simple_op Op.athrow

-- The opcode that returns a value of the type.
abbrev pub return_op : Kind → Option ℕ
return_op void = some Op.return_void
return_op long = some Op.lreturn
return_op float = some Op.freturn
return_op double = some Op.dreturn
return_op boolean = some Op.ireturn
return_op byte = some Op.ireturn
return_op char = some Op.ireturn
return_op short = some Op.ireturn
return_op int = some Op.ireturn
return_op _ = none

unfoldable pub return_value : M
unfolding fail
return_value c =
    if is_ref c.ret
    then simple_op Op.areturn c
    else elim (return_op c.ret.kind) [ some o ↦ simple_op o c | none ↦ fail no_return c ]
