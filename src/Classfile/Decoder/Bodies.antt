-- ===== src/Classfile/Decoder/Bodies.antt =====
-- classfile/decoder.go: the attribute bodies, `attribute`, and `attributes`.
use mocha.Prelude.{Bool, List, Option, [], if◌then◌else◌, leb, none, some, suc, zero, ℕ, ◌==◌, ◌||◌}
use mocha.Classfile.Attr.{
  Attr, Attrs, Components, ExceptionHandler, InnerClass, LineNumber, LocalVariable, MethodParameter,
  ascii, attr_then, code_attr, code_with, component_then, constant_value_attr,
  enclosing_method_attr, find, line_number_table_attr, loc_code, loc_record, no_attrs,
  no_components, signature_attr, stack_map_table_attr,
}
use mocha.Classfile.ConstPool.{BootstrapMethod, is_wide_tag, is_word_tag}
use mocha.Classfile.ConstPool.Resolve.{const_of, handle_of, name_and_type_of}
use mocha.Classfile.Decoder.{
  D, bad_constant_value, class, code_too_long, empty_code, give, in_pool, next_bytes, next_u2,
  next_u4, opt_class, opt_utf8, or_err, refuse, rows, until_done, utf8, ◌>>=◌,
}
use mocha.Classfile.Pool.{tag_string}

-- `classList`
unfoldable pub class_list : D (List (List ℕ))
unfolding ◌>>=◌ next_u2 rows class
class_list = do n ← next_u2; rows n (do i ← next_u2; class i)

unfoldable pub local_var : D LocalVariable
unfolding ◌>>=◌ next_u2 utf8 give
local_var = do
  start_pc ← next_u2
  span ← next_u2
  name_idx ← next_u2
  name ← utf8 name_idx
  descriptor_idx ← next_u2
  descriptor ← utf8 descriptor_idx
  slot ← next_u2
  give (record {
    start_pc = start_pc;
    span = span;
    name = name;
    descriptor = descriptor;
    slot = slot;
  })

-- `localVars`
unfoldable pub local_vars : D (List LocalVariable)
unfolding ◌>>=◌ next_u2 rows local_var
local_vars = do n ← next_u2; rows n local_var

unfoldable pub inner_class : D InnerClass
unfolding ◌>>=◌ next_u2 class opt_class opt_utf8 give
inner_class = do
  inner_idx ← next_u2
  inner ← class inner_idx
  outer_idx ← next_u2
  outer ← opt_class outer_idx
  name_idx ← next_u2
  simple_name ← opt_utf8 name_idx
  flags ← next_u2
  give (record { inner = inner; outer = outer; simple_name = simple_name; flags = flags })

unfoldable pub line_number : D LineNumber
unfolding ◌>>=◌ next_u2 give
line_number = do
  start_pc ← next_u2
  line ← next_u2
  give (record { start_pc = start_pc; line = line })

unfoldable pub method_parameter : D MethodParameter
unfolding ◌>>=◌ next_u2 opt_utf8 give
method_parameter = do
  name_idx ← next_u2
  name ← opt_utf8 name_idx
  flags ← next_u2
  give (record { name = name; flags = flags })

unfoldable pub bootstrap_method : ℕ → D BootstrapMethod
unfolding ◌>>=◌ next_u2 in_pool handle_of rows give
bootstrap_method major = do
  handle_idx ← next_u2
  h ← in_pool (handle_of handle_idx major)
  argc ← next_u2
  args ← rows argc next_u2
  give (record { method = h; arguments = args })

unfoldable pub handler : D ExceptionHandler
unfolding ◌>>=◌ next_u2 opt_class give
handler = do
  start_pc ← next_u2
  end_pc ← next_u2
  handler_pc ← next_u2
  type_idx ← next_u2
  catch_type ← opt_class type_idx
  give (record {
    start_pc = start_pc;
    end_pc = end_pc;
    handler_pc = handler_pc;
    catch_type = catch_type;
  })

-- The body of EnclosingMethod: `method_index` is zero where the class sits in an initialiser.
unfoldable pub enclosing : D Attr
unfolding ◌>>=◌ next_u2 class in_pool name_and_type_of or_err
enclosing = do
  class_idx ← next_u2
  c ← class class_idx
  mi ← next_u2
  if mi == 0
      then or_err (enclosing_method_attr c [] [])
      else (do nt ← in_pool (name_and_type_of mi); or_err (enclosing_method_attr c nt.0 nt.1))

-- Table 4.7.2-A
abbrev pub is_field_constant : ℕ → Bool
is_field_constant tag = is_word_tag tag || is_wide_tag tag || tag == tag_string

unfoldable pub constant_value : ℕ → D Attr
unfolding ◌>>=◌ next_u2 in_pool const_of or_err refuse
constant_value major = do
  i ← next_u2
  v ← in_pool (const_of i major)
  if is_field_constant v.tag then or_err (constant_value_attr v) else refuse bad_constant_value

-- `rc.Attrs.Find("Signature").(*Signature)`, and "" where it is not one.
abbrev pub signature_text : Option Attr → List ℕ
signature_text (some (signature_attr v)) = v
signature_text _ = []

-- The last table of lines, and the last stack map.
abbrev pub hoist_lines : Option (List LineNumber) → Attrs → Option (List LineNumber)
hoist_lines o no_attrs = o
hoist_lines o (attr_then (line_number_table_attr ls) ats) = hoist_lines (some ls) ats
hoist_lines o (attr_then _ ats) = hoist_lines o ats

abbrev pub hoist_stack_map : Option (List ℕ) → Attrs → Option (List ℕ)
hoist_stack_map o no_attrs = o
hoist_stack_map o (attr_then (stack_map_table_attr bs) ats) = hoist_stack_map (some bs) ats
hoist_stack_map o (attr_then _ ats) = hoist_stack_map o ats

-- `attributes` is an argument of the bodies that hold attributes.
module _ (attributes_at : ℕ → D Attrs) where
  unfoldable pub components : ℕ → D Components
  unfolding ◌>>=◌ next_u2 utf8 until_done give find
  components zero = give no_components
  components (suc n) = until_done no_components (do
    name_idx ← next_u2
    name ← utf8 name_idx
    descriptor_idx ← next_u2
    descriptor ← utf8 descriptor_idx
    ats ← attributes_at loc_record
    others ← components n
    give
        (component_then name descriptor (signature_text (find (ascii "Signature") ats)) ats others))

  -- `code`
  unfoldable pub code_body : D Attr
  unfolding ◌>>=◌ next_u2 next_u4 next_bytes rows handler or_err refuse
  code_body = do
    max_stack ← next_u2
    max_locals ← next_u2
    code_length ← next_u4
    if code_length == 0
        then refuse empty_code
        else if leb 65536 code_length
        then refuse code_too_long
        else (do
          bs ← next_bytes code_length
          n ← next_u2
          handlers ← rows n handler
          ats ← attributes_at loc_code
          or_err (
              code_attr (
                code_with max_stack max_locals bs handlers ats (hoist_lines none ats)
                  (hoist_stack_map none ats))))
