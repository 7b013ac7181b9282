-- ===== src/Jvm/Op.antt =====
-- jvm/op/op.go: the opcodes that the code writer names, by their mnemonics, and the questions that
-- it asks about an opcode, which is a byte.
use mocha.Prelude.{Bool, leb, ℕ, ◌&&◌, ◌==◌, ◌||◌}

abbrev pub aload : ℕ
aload = 0x19

abbrev pub aload_0 : ℕ
aload_0 = 0x2a

abbrev pub iload : ℕ
iload = 0x15

abbrev pub iload_0 : ℕ
iload_0 = 0x1a

abbrev pub fload : ℕ
fload = 0x17

abbrev pub fload_0 : ℕ
fload_0 = 0x22

abbrev pub lload : ℕ
lload = 0x16

abbrev pub lload_0 : ℕ
lload_0 = 0x1e

abbrev pub dload : ℕ
dload = 0x18

abbrev pub dload_0 : ℕ
dload_0 = 0x26

abbrev pub astore : ℕ
astore = 0x3a

abbrev pub astore_0 : ℕ
astore_0 = 0x4b

abbrev pub istore : ℕ
istore = 0x36

abbrev pub istore_0 : ℕ
istore_0 = 0x3b

abbrev pub fstore : ℕ
fstore = 0x38

abbrev pub fstore_0 : ℕ
fstore_0 = 0x43

abbrev pub lstore : ℕ
lstore = 0x37

abbrev pub lstore_0 : ℕ
lstore_0 = 0x3f

abbrev pub dstore : ℕ
dstore = 0x39

abbrev pub dstore_0 : ℕ
dstore_0 = 0x47

abbrev pub wide : ℕ
wide = 0xc4

abbrev pub iinc : ℕ
iinc = 0x84

abbrev pub iconst_0 : ℕ
iconst_0 = 0x03

abbrev pub bipush : ℕ
bipush = 0x10

abbrev pub sipush : ℕ
sipush = 0x11

abbrev pub lconst_0 : ℕ
lconst_0 = 0x09

abbrev pub fconst_0 : ℕ
fconst_0 = 0x0b

abbrev pub fconst_1 : ℕ
fconst_1 = 0x0c

abbrev pub fconst_2 : ℕ
fconst_2 = 0x0d

abbrev pub dconst_0 : ℕ
dconst_0 = 0x0e

abbrev pub dconst_1 : ℕ
dconst_1 = 0x0f

abbrev pub aconst_null : ℕ
aconst_null = 0x01

abbrev pub ldc : ℕ
ldc = 0x12

abbrev pub ldc_w : ℕ
ldc_w = 0x13

abbrev pub ldc2_w : ℕ
ldc2_w = 0x14

abbrev pub getstatic : ℕ
getstatic = 0xb2

abbrev pub putstatic : ℕ
putstatic = 0xb3

abbrev pub getfield : ℕ
getfield = 0xb4

abbrev pub putfield : ℕ
putfield = 0xb5

abbrev pub invokevirtual : ℕ
invokevirtual = 0xb6

abbrev pub invokespecial : ℕ
invokespecial = 0xb7

abbrev pub invokestatic : ℕ
invokestatic = 0xb8

abbrev pub invokeinterface : ℕ
invokeinterface = 0xb9

abbrev pub new_object : ℕ
new_object = 0xbb

abbrev pub anewarray : ℕ
anewarray = 0xbd

abbrev pub newarray : ℕ
newarray = 0xbc

abbrev pub multianewarray : ℕ
multianewarray = 0xc5

abbrev pub checkcast : ℕ
checkcast = 0xc0

abbrev pub instanceof : ℕ
instanceof = 0xc1

abbrev pub athrow : ℕ
athrow = 0xbf

abbrev pub areturn : ℕ
areturn = 0xb0

abbrev pub return_void : ℕ
return_void = 0xb1

abbrev pub lreturn : ℕ
lreturn = 0xad

abbrev pub freturn : ℕ
freturn = 0xae

abbrev pub dreturn : ℕ
dreturn = 0xaf

abbrev pub ireturn : ℕ
ireturn = 0xac

abbrev pub goto_op : ℕ
goto_op = 0xa7

abbrev pub goto_w : ℕ
goto_w = 0xc8

abbrev pub ifeq : ℕ
ifeq = 0x99

abbrev pub ifne : ℕ
ifne = 0x9a

abbrev pub iflt : ℕ
iflt = 0x9b

abbrev pub ifge : ℕ
ifge = 0x9c

abbrev pub ifgt : ℕ
ifgt = 0x9d

abbrev pub ifle : ℕ
ifle = 0x9e

abbrev pub if_icmpeq : ℕ
if_icmpeq = 0x9f

abbrev pub if_icmpne : ℕ
if_icmpne = 0xa0

abbrev pub if_icmplt : ℕ
if_icmplt = 0xa1

abbrev pub if_icmpge : ℕ
if_icmpge = 0xa2

abbrev pub if_icmpgt : ℕ
if_icmpgt = 0xa3

abbrev pub if_icmple : ℕ
if_icmple = 0xa4

abbrev pub if_acmpeq : ℕ
if_acmpeq = 0xa5

abbrev pub if_acmpne : ℕ
if_acmpne = 0xa6

abbrev pub ifnull : ℕ
ifnull = 0xc6

abbrev pub ifnonnull : ℕ
ifnonnull = 0xc7

abbrev pub tableswitch : ℕ
tableswitch = 0xaa

abbrev pub lookupswitch : ℕ
lookupswitch = 0xab

abbrev pub ret : ℕ
ret = 0xa9

-- The opcodes that `table` gives the kind `None`.
abbrev pub is_plain : ℕ → Bool
is_plain o =
    (leb 0x00 o && leb o 0x0f)
    || (leb 0x1a o && leb o 0x35)
    || (leb 0x3b o && leb o 0x83)
    || (leb 0x85 o && leb o 0x98)
    || (leb 0xac o && leb o 0xb1)
    || (leb 0xbe o && leb o 0xbf)
    || (leb 0xc2 o && leb o 0xc3)

abbrev is_return : ℕ → Bool
is_return o = leb ireturn o && leb o return_void

abbrev pub terminates : ℕ → Bool
terminates o =
    is_return o
    || o == athrow
    || o == goto_op
    || o == goto_w
    || o == tableswitch
    || o == lookupswitch
    || o == ret

-- `ArrayTypeName` names the codes of the eight primitive types.
abbrev pub is_array_type : ℕ → Bool
is_array_type code = leb 4 code && leb code 11
