-- ===== src/Classfile/Decoder/Attributes.antt =====
-- classfile/decoder.go: `attribute` and `attributes`. A table inside an attribute is read by the argument
-- that stands for `attributes`, which is fuel-bounded by the depth of the nesting.
use mocha.Prelude.{
  Bool, List, Option, bit_and, false, if◌then◌else◌, leb, none, not, some, stuck, suc, true, zero,
  ℕ, ◌&&◌, ◌==◌,
}
use mocha.Classfile.Attr.{
  Attr, Attrs, Kind, LocalVariable, Spec, a_bootstrap_methods, a_code, a_constant_value,
  a_deprecated, a_enclosing_method, a_exceptions, a_inner_classes, a_line_number_table,
  a_local_variable_table, a_local_variable_type_table, a_method_parameters, a_nest_host,
  a_nest_members, a_permitted_subclasses, a_record, a_signature, a_source_file, a_stack_map_table,
  a_synthetic, attr_then, bootstrap_methods_attr, deprecated_attr, exceptions_attr,
  inner_classes_attr, line_number_table_attr, local_variable_table_attr,
  local_variable_type_table_attr, method_parameters_attr, nest_host_attr, nest_members_attr,
  no_attrs, permitted_subclasses_attr, raw_attr, record_attr, retained, signature_attr,
  source_file_attr, spec_of, stack_map_table_attr, synthetic_attr, where_specs,
}
use mocha.Classfile.Decoder.{
  Context, D, class, finish, give, has_mode, keep_raw, nested, next_bytes, next_u1, next_u2,
  next_u4, or_err, rows, skip_code, skip_debug, until_done, utf8, ◌>>=◌,
}
use mocha.Classfile.Decoder.Bodies.{
  bootstrap_method, class_list, code_body, components, constant_value, enclosing, inner_class,
  line_number, local_vars, method_parameter,
}
use mocha.Classfile.Pool.{count}

-- A body that is only resolved texts.
unfoldable pub text_body : (List ℕ → Attr) → D Attr
unfolding ◌>>=◌ next_u2 utf8 or_err
text_body f = do i ← next_u2; v ← utf8 i; or_err (f v)

unfoldable pub class_body : (List ℕ → Attr) → D Attr
unfolding ◌>>=◌ next_u2 class or_err
class_body f = do i ← next_u2; v ← class i; or_err (f v)

unfoldable pub list_body : (List (List ℕ) → Attr) → D Attr
unfolding ◌>>=◌ class_list or_err
list_body f = do cs ← class_list; or_err (f cs)

-- A counted table, with the width of its count.
unfoldable pub table_body : {A : Type 0} → D ℕ → D A → (List A → Attr) → D Attr
unfolding ◌>>=◌ rows or_err
table_body count m f = do n ← count; xs ← rows n m; or_err (f xs)

unfoldable pub vars_body : (List LocalVariable → Attr) → D Attr
unfolding ◌>>=◌ local_vars or_err
vars_body f = do vs ← local_vars; or_err (f vs)

-- What a round of the loop appends: what was decoded, and under KeepRaw the bytes, but once.
abbrev pub is_raw : Option Attr → Bool
is_raw (some (raw_attr n bs)) = true
is_raw _ = false

abbrev pub with_raw : Bool → List ℕ → List ℕ → Attrs → Attrs
with_raw true name body ats = attr_then (raw_attr name body) ats
with_raw false name body ats = ats

abbrev pub with_decoded : Option Attr → Attrs → Attrs
with_decoded (some a) ats = attr_then a ats
with_decoded none ats = ats

module _ (cx : Context) where
  -- `SkipDebug` drops the three tables, and `SkipCode` the code.
  abbrev pub is_dropped : Kind → Bool
  is_dropped a_line_number_table = has_mode cx.mode skip_debug
  is_dropped a_local_variable_table = has_mode cx.mode skip_debug
  is_dropped a_local_variable_type_table = has_mode cx.mode skip_debug
  is_dropped a_code = has_mode cx.mode skip_code
  is_dropped _ = false

  -- Not in `where`, not at this location, or too new.
  abbrev pub applies : ℕ → Spec → Bool
  applies loc s = not (bit_and s.at loc == 0) && leb s.since cx.major

  abbrev pub kept : Option Attr → List ℕ → List ℕ → Attrs → Attrs
  kept a name body ats =
      with_decoded a (with_raw (has_mode cx.mode keep_raw && not (is_raw a)) name body ats)

module _ (cx : Context) (attributes_at : ℕ → D Attrs) where
  unfoldable pub record_body : D Attr
  unfolding ◌>>=◌ next_u2 components or_err
  record_body = do n ← next_u2; cs ← components attributes_at n; or_err (record_attr cs)

  -- The switch of `attribute`, on the sub-decoder; the cases of the modes and those that do not read are
  -- in `attribute`.
  unfoldable pub decode_body : Kind → List ℕ → List ℕ → D Attr
  unfolding text_body class_body list_body table_body vars_body record_body constant_value enclosing
      inner_class bootstrap_method method_parameter line_number code_body next_u1 next_u2 or_err
      give
  decode_body a_source_file name body = text_body source_file_attr
  decode_body a_signature name body = text_body signature_attr
  decode_body a_constant_value name body = constant_value cx.major
  decode_body a_synthetic name body = or_err synthetic_attr
  decode_body a_deprecated name body = or_err deprecated_attr
  decode_body a_nest_host name body = class_body nest_host_attr
  decode_body a_exceptions name body = list_body exceptions_attr
  decode_body a_nest_members name body = list_body nest_members_attr
  decode_body a_permitted_subclasses name body = list_body permitted_subclasses_attr
  decode_body a_enclosing_method name body = enclosing
  decode_body a_inner_classes name body = table_body next_u2 inner_class inner_classes_attr
  decode_body a_bootstrap_methods name body =
      table_body next_u2 (bootstrap_method cx.major) bootstrap_methods_attr
  decode_body a_method_parameters name body =
      table_body next_u1 method_parameter method_parameters_attr
  decode_body a_record name body = record_body
  decode_body a_stack_map_table name body = give (stack_map_table_attr body)
  decode_body a_line_number_table name body = table_body next_u2 line_number line_number_table_attr
  decode_body a_local_variable_table name body = vars_body local_variable_table_attr
  decode_body a_local_variable_type_table name body = vars_body local_variable_type_table_attr
  decode_body a_code name body = code_body attributes_at
  decode_body retained name body = give (raw_attr name body)

  unfoldable pub decode_as : Kind → List ℕ → List ℕ → D (Option Attr)
  unfolding ◌>>=◌ nested decode_body give
  decode_as k name body =
      if is_dropped cx k
      then give none
      else (do a ← nested body (decode_body k name body); give (some a))

  abbrev pub decode_spec : ℕ → List ℕ → List ℕ → Option Spec → D (Option Attr)
  decode_spec loc name body none = give (some (raw_attr name body))
  decode_spec loc name body (some s) =
      if applies cx loc s then decode_as s.kind name body else give (some (raw_attr name body))

  -- `attribute`; `none` for an attribute that was dropped.
  unfoldable pub attribute : List ℕ → List ℕ → ℕ → D (Option Attr)
  unfolding give decode_as spec_of
  attribute name body loc = decode_spec loc name body (spec_of name where_specs)

  -- A round of the loop of `attributes`, with the loop that follows, from where the body has been read,
  -- and from where its length has.
  abbrev pub with_body : ℕ → D Attrs → List ℕ → List ℕ → D Attrs
  with_body loc others_of name body = do
    a ← attribute name body loc
    others ← others_of
    give (kept cx a name body others)

  abbrev pub with_length : ℕ → D Attrs → ℕ → ℕ → D Attrs
  with_length loc others_of name_idx body_length = do
    name ← utf8 name_idx
    body ← next_bytes body_length
    until_done no_attrs (with_body loc others_of name body)

  -- The loop.
  unfoldable pub table : ℕ → ℕ → D Attrs
  unfolding ◌>>=◌ next_u2 next_u4 next_bytes utf8 until_done attribute give
  table loc zero = give no_attrs
  table loc (suc n) = until_done no_attrs (do
    name_idx ← next_u2
    body_length ← next_u4
    until_done no_attrs (with_length loc (table loc n) name_idx body_length))

-- `attributes`, for attributes nested to the depth given.
unfoldable pub attributes : Context → ℕ → ℕ → D Attrs
unfolding ◌>>=◌ next_u2 table finish
attributes cx zero loc = λ d. (stuck, d)
attributes cx (suc depth) loc = do
  n ← next_u2
  ats ← table cx (attributes cx depth) loc n
  finish ats
