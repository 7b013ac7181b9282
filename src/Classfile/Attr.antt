-- ===== src/Classfile/Attr.antt =====
-- classfile/attribute.go and classfile/attrs.go: attributes, attribute tables, and where each predefined
-- attribute may stand.
use mocha.Prelude.{List, Option, [], if◌then◌else◌, none, some, ℕ, ◌+◌, ◌∷◌}
use mocha.Classfile.ConstPool.{BootstrapMethod}
use mocha.Classfile.ConstPool.Resolve.{Const, is_text}
use Prim.Native.String.{String}
use Prim.Native.Char.{code}

pub record InnerClass : Type 0 where
  pub inner : List ℕ
  pub outer : List ℕ
  pub simple_name : List ℕ
  pub flags : ℕ

pub record MethodParameter : Type 0 where
  pub name : List ℕ
  pub flags : ℕ

pub record LineNumber : Type 0 where
  pub start_pc : ℕ
  pub line : ℕ

pub record LocalVariable : Type 0 where
  pub start_pc : ℕ
  pub span : ℕ
  pub name : List ℕ
  pub descriptor : List ℕ
  pub slot : ℕ

pub record ExceptionHandler : Type 0 where
  pub start_pc : ℕ
  pub end_pc : ℕ
  pub handler_pc : ℕ
  pub catch_type : List ℕ

-- An attribute, a table of attributes, the components of a record, and `Code`: its stack, locals, bytes,
-- handlers and attributes, and the two of these that are hoisted.
mutual
  pub data Attr : Type 0 where
    raw_attr : List ℕ → List ℕ → Attr
    source_file_attr signature_attr nest_host_attr : List ℕ → Attr
    constant_value_attr : Const → Attr
    exceptions_attr nest_members_attr permitted_subclasses_attr : List (List ℕ) → Attr
    synthetic_attr deprecated_attr : Attr
    inner_classes_attr : List InnerClass → Attr
    enclosing_method_attr : List ℕ → List ℕ → List ℕ → Attr
    record_attr : Components → Attr
    method_parameters_attr : List MethodParameter → Attr
    bootstrap_methods_attr : List BootstrapMethod → Attr
    stack_map_table_attr : List ℕ → Attr
    line_number_table_attr : List LineNumber → Attr
    local_variable_table_attr local_variable_type_table_attr : List LocalVariable → Attr
    code_attr : Code → Attr

  pub data Attrs : Type 0 where
    no_attrs : Attrs
    attr_then : Attr → Attrs → Attrs

  pub data Components : Type 0 where
    no_components : Components
    component_then : List ℕ → List ℕ → List ℕ → Attrs → Components → Components

  pub data Code : Type 0 where
    code_with :
        ℕ
        → ℕ
        → List ℕ
        → List ExceptionHandler
        → Attrs
        → Option (List LineNumber)
        → Option (List ℕ)
        → Code

abbrev pub ascii : String → List ℕ
ascii String.[] = []
ascii (String.◌∷◌ c s) = code c ∷ ascii s

-- `AttrName`
abbrev pub attr_name : Attr → List ℕ
attr_name (raw_attr name bs) = name
attr_name (source_file_attr v) = ascii "SourceFile"
attr_name (signature_attr v) = ascii "Signature"
attr_name (nest_host_attr v) = ascii "NestHost"
attr_name (constant_value_attr v) = ascii "ConstantValue"
attr_name (exceptions_attr v) = ascii "Exceptions"
attr_name (nest_members_attr v) = ascii "NestMembers"
attr_name (permitted_subclasses_attr v) = ascii "PermittedSubclasses"
attr_name synthetic_attr = ascii "Synthetic"
attr_name deprecated_attr = ascii "Deprecated"
attr_name (inner_classes_attr v) = ascii "InnerClasses"
attr_name (enclosing_method_attr c n d) = ascii "EnclosingMethod"
attr_name (record_attr v) = ascii "Record"
attr_name (method_parameters_attr v) = ascii "MethodParameters"
attr_name (bootstrap_methods_attr v) = ascii "BootstrapMethods"
attr_name (stack_map_table_attr v) = ascii "StackMapTable"
attr_name (line_number_table_attr v) = ascii "LineNumberTable"
attr_name (local_variable_table_attr v) = ascii "LocalVariableTable"
attr_name (local_variable_type_table_attr v) = ascii "LocalVariableTypeTable"
attr_name (code_attr v) = ascii "Code"

-- `Find`
unfoldable pub find : List ℕ → Attrs → Option Attr
find name no_attrs = none
find name (attr_then a ats) = if is_text (attr_name a) name then some a else find name ats

-- `Raws`, each a name and its bytes
unfoldable pub raws : Attrs → List (List ℕ × List ℕ)
raws no_attrs = []
raws (attr_then (raw_attr name bs) ats) = (name, bs) ∷ raws ats
raws (attr_then _ ats) = raws ats

-- `location`
abbrev pub loc_class : ℕ
loc_class = 1

abbrev pub loc_field : ℕ
loc_field = 2

abbrev pub loc_method : ℕ
loc_method = 4

abbrev pub loc_code : ℕ
loc_code = 8

abbrev pub loc_record : ℕ
loc_record = 16

-- The cases of the switch in `attribute`, with `retained` for the names of `where` that have none.
pub data Kind : Type 0 where
  a_source_file a_signature a_constant_value a_synthetic a_deprecated a_nest_host : Kind
  a_exceptions a_nest_members a_permitted_subclasses a_enclosing_method : Kind
  a_inner_classes a_bootstrap_methods a_method_parameters a_record a_stack_map_table : Kind
  a_line_number_table a_local_variable_table a_local_variable_type_table a_code : Kind
  retained : Kind

pub record Spec : Type 0 where
  pub name : List ℕ
  pub at : ℕ
  pub since : ℕ
  pub kind : Kind

abbrev spec : String → ℕ → ℕ → Kind → Spec
spec name at since kind = record { name = ascii name; at = at; since = since; kind = kind }

-- The sums of the bits of the locations: class, field and method, and with a record's component.
abbrev loc_members : ℕ
loc_members = loc_class + loc_field + loc_method

-- `where`
abbrev pub where_specs : List Spec
where_specs =
    spec "ConstantValue" loc_field 45 a_constant_value
    ∷ spec "Code" loc_method 45 a_code
    ∷ spec "StackMapTable" loc_code 50 a_stack_map_table
    ∷ spec "Exceptions" loc_method 45 a_exceptions
    ∷ spec "InnerClasses" loc_class 45 a_inner_classes
    ∷ spec "EnclosingMethod" loc_class 49 a_enclosing_method
    ∷ spec "Synthetic" loc_members 45 a_synthetic
    ∷ spec "Signature" (loc_members + loc_record) 49 a_signature
    ∷ spec "SourceFile" loc_class 45 a_source_file
    ∷ spec "SourceDebugExtension" loc_class 49 retained
    ∷ spec "LineNumberTable" loc_code 45 a_line_number_table
    ∷ spec "LocalVariableTable" loc_code 45 a_local_variable_table
    ∷ spec "LocalVariableTypeTable" loc_code 49 a_local_variable_type_table
    ∷ spec "Deprecated" loc_members 45 a_deprecated
    ∷ spec "RuntimeVisibleAnnotations" (loc_members + loc_record) 49 retained
    ∷ spec "RuntimeInvisibleAnnotations" (loc_members + loc_record) 49 retained
    ∷ spec "RuntimeVisibleParameterAnnotations" loc_method 49 retained
    ∷ spec "RuntimeInvisibleParameterAnnotations" loc_method 49 retained
    ∷ spec "RuntimeVisibleTypeAnnotations" (loc_members + loc_code + loc_record) 52 retained
    ∷ spec "RuntimeInvisibleTypeAnnotations" (loc_members + loc_code + loc_record) 52 retained
    ∷ spec "AnnotationDefault" loc_method 49 retained
    ∷ spec "BootstrapMethods" loc_class 51 a_bootstrap_methods
    ∷ spec "MethodParameters" loc_method 52 a_method_parameters
    ∷ spec "Module" loc_class 53 retained
    ∷ spec "ModulePackages" loc_class 53 retained
    ∷ spec "ModuleMainClass" loc_class 53 retained
    ∷ spec "NestHost" loc_class 55 a_nest_host
    ∷ spec "NestMembers" loc_class 55 a_nest_members
    ∷ spec "Record" loc_class 60 a_record
    ∷ spec "PermittedSubclasses" loc_class 61 a_permitted_subclasses
    ∷ []

-- The row of a name.
abbrev pub spec_of : List ℕ → List Spec → Option Spec
spec_of name [] = none
spec_of name (s ∷ ss) = if is_text name s.name then some s else spec_of name ss
