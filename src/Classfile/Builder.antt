-- ===== src/Classfile/Builder.antt =====
-- classfile/builder.go: the builder of a class file. A `*MethodBuilder` or `*FieldBuilder` is its index
-- in the builder; a name is the list of its runes, a descriptor that of its bytes.
pub mod Body
pub mod OpenBranches
pub mod Converges
pub mod Stored
pub mod Sticks
pub mod Runs
pub mod Members
pub mod Bytes
pub mod Interns
pub mod TextRules
pub mod Layout
pub mod ClassFile
mod Tests
use mocha.Prelude.{
  Bool, List, Option, Result, [], bit_and, bit_or, err, false, get_elem?, if◌then◌else◌, leb,
  length, ltb, none, ok, set, some, stuck, ℕ, ◌++◌, ◌==◌, ◌∷◌,
}
use mocha.Classfile.Code.{CodeError, LineNumber}
use mocha.Classfile.Code.Rows.{LocalVariable}
use mocha.Classfile.Pool.{M, PoolBuilder, PoolError, new_pool_builder}
use mocha.Classfile.Version.{Version}
use mocha.Jvm.Desc.{Reason, internal, parse_field, parse_method}
use mocha.Classfile.Pool

pub data BuilderError : Type 0 where
  stack_map_needed below_minimum preview_target : BuilderError
  bad_field bad_method : Reason → BuilderError
  not_static_final no_convergence falls_off empty_code code_too_long : BuilderError
  frame_too_large body_not_allowed body_missing no_superclass : BuilderError
  body_failed : CodeError → BuilderError
  pool_failed : PoolError → BuilderError

abbrev pub acc_public : ℕ
acc_public = 0x1

abbrev pub acc_static : ℕ
acc_static = 0x8

abbrev pub acc_final : ℕ
acc_final = 0x10

abbrev pub acc_super : ℕ
acc_super = 0x20

abbrev pub acc_native : ℕ
acc_native = 0x100

abbrev pub acc_abstract : ℕ
acc_abstract = 0x400

abbrev pub has_flags : ℕ → ℕ → Bool
has_flags flags mask = bit_and flags mask == mask

pub record FieldBuilder : Type 0 where
  pub flags : ℕ
  pub name : List ℕ
  pub descriptor : List ℕ
  pub constant : ℕ
  pub signature : List ℕ

pub record EncodedHandler : Type 0 where
  pub start : ℕ
  pub end : ℕ
  pub handler : ℕ
  pub catch_type : ℕ

pub record MethodBuilder : Type 0 where
  pub flags : ℕ
  pub name : List ℕ
  pub descriptor : List ℕ
  pub signature : List ℕ
  pub exceptions : List (List ℕ)
  pub code : List ℕ
  pub max_stack : ℕ
  pub max_locals : ℕ
  pub handlers : List EncodedHandler
  pub lines : List LineNumber
  pub locals : List LocalVariable
  pub has_code : Bool

pub record Builder : Type 0 where
  pub pool : PoolBuilder
  pub version : Version
  pub flags : ℕ
  pub name : List ℕ
  pub super : List ℕ
  pub ifaces : List (List ℕ)
  pub fields : List FieldBuilder
  pub methods : List MethodBuilder
  pub source_file : List ℕ
  pub err : Option BuilderError

-- "java/lang/Object"
abbrev pub object_name : List ℕ
object_name =
    b'j' ∷ b'a' ∷ b'v' ∷ b'a' ∷ b'/' ∷ b'l' ∷ b'a' ∷ b'n' ∷ b'g' ∷ b'/' ∷ b'O' ∷ b'b' ∷ b'j' ∷ b'e'
    ∷ b'c' ∷ b't' ∷ []

unfoldable pub new_builder : List ℕ → Builder
unfolding new_pool_builder
new_builder internal = record {
  pool = new_pool_builder;
  version = record { major = 49; minor = 0 };
  flags = bit_or acc_public acc_super;
  name = internal;
  super = object_name;
  ifaces = [];
  fields = [];
  methods = [];
  source_file = [];
  err = none;
}

-- A method of the builder.
abbrev pub B : Type 0
B = Builder → Builder

unfoldable pub fail : BuilderError → B
fail e b = elim b.err [ none ↦ record b { err = some e } | some x ↦ b ]

unfoldable pub set_version : Version → B
unfolding fail
set_version v b =
    if leb 50 v.major
    then fail stack_map_needed b
    else if ltb v.major 45
    then fail below_minimum b
    else if v.minor == 65535
    then fail preview_target b
    else record b { version = v }

abbrev pub set_flags : ℕ → B
set_flags f b = record b { flags = f }

abbrev pub set_super : List ℕ → B
set_super internal b = record b { super = internal }

abbrev pub add_interface : List ℕ → B
add_interface internal b = record b { ifaces = b.ifaces ++ (internal ∷ []) }

abbrev pub set_source_file : List ℕ → B
set_source_file name b = record b { source_file = name }

-- The error of a descriptor is noted, and the member is added all the same.
abbrev pub unless_parsed : {A : Type 0} → (Reason → BuilderError) → Result Reason A → B
unless_parsed wrap (ok a) b = b
unless_parsed wrap (err e) b = fail (wrap e) b
unless_parsed wrap stuck b = b

unfoldable pub add_field : ℕ → List ℕ → List ℕ → Builder → ℕ × Builder
unfolding fail parse_field
add_field flags name descriptor b =
    let c = unless_parsed bad_field (parse_field descriptor) b in
    let f : FieldBuilder = record {
      flags = flags;
      name = name;
      descriptor = descriptor;
      constant = 0;
      signature = [];
    } in
    (length c.fields, record c { fields = c.fields ++ (f ∷ []) })

abbrev pub update_field : ℕ → FieldBuilder → B
update_field j f b = record b { fields = set b.fields j f }

unfoldable pub set_constant : ℕ → ℕ → B
unfolding fail
set_constant j idx b = elim (get_elem? b.fields j) [
  | none ↦ b
  | some f ↦
      if has_flags f.flags (bit_or acc_static acc_final)
      then update_field j (record f { constant = idx }) b
      else fail not_static_final b
]

-- `ConstantInt` and its siblings, on the method of the pool that each calls.
abbrev pub constant_of : Pool.M → ℕ → B
constant_of build j b = let (idx, p) = build b.pool in set_constant j idx (record b { pool = p })

abbrev pub set_field_signature : ℕ → List ℕ → B
set_field_signature j s b = elim (get_elem? b.fields j) [
  | none ↦ b
  | some f ↦ update_field j (record f { signature = s }) b
]

abbrev new_method : ℕ → List ℕ → List ℕ → MethodBuilder
new_method flags name descriptor = record {
  flags = flags;
  name = name;
  descriptor = descriptor;
  signature = [];
  exceptions = [];
  code = [];
  max_stack = 0;
  max_locals = 0;
  handlers = [];
  lines = [];
  locals = [];
  has_code = false;
}

unfoldable pub add_method : ℕ → List ℕ → List ℕ → Builder → ℕ × Builder
unfolding fail parse_method
add_method flags name descriptor b =
    let c = unless_parsed bad_method (parse_method descriptor) b in
    (length c.methods, record c { methods = c.methods ++ (new_method flags name descriptor ∷ []) })

abbrev pub update_method : ℕ → MethodBuilder → B
update_method j m b = record b { methods = set b.methods j m }

abbrev pub throws : ℕ → List ℕ → B
throws j internal b = elim (get_elem? b.methods j) [
  | none ↦ b
  | some m ↦ update_method j (record m { exceptions = m.exceptions ++ (internal ∷ []) }) b
]

abbrev pub set_method_signature : ℕ → List ℕ → B
set_method_signature j s b = elim (get_elem? b.methods j) [
  | none ↦ b
  | some m ↦ update_method j (record m { signature = s }) b
]
