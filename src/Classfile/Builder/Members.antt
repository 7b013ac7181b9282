-- ===== src/Classfile/Builder/Members.antt =====
-- classfile/builder.go: how the fields, the methods and their attributes are written.
use mocha.Prelude.{Bool, List, [], false, length, not, suc, true, ℕ, ◌%◌, ◌==◌, ◌^◌, ◌∷◌}
use mocha.Classfile.Builder.{EncodedHandler, FieldBuilder, MethodBuilder}
use mocha.Classfile.Code.{LineNumber}
use mocha.Classfile.Code.Rows.{LocalVariable}
use mocha.Classfile.Pool.{M, PoolBuilder, intern_class, intern_utf8}
use mocha.Classfile.Wire.{attr, raw, u2, u4}
use mocha.Classfile.Pool

-- Bytes written so far, and the pool that is interned into on the way.
abbrev pub S : Type 0
S = List ℕ × PoolBuilder

infixl 5 ◌>>>>◌
unfoldable pub ◌>>>>◌ : (S → S) → (S → S) → S → S
◌>>>>◌ f g s = g (f s)

unfoldable pub put : (List ℕ → List ℕ) → S → S
put f s = (f s.0, s.1)

unfoldable pub put_index : Pool.M → S → S
put_index build s = (u2 (build s.1).0 s.0, (build s.1).1)

-- `w.attr(pool.UTF8(name), body)`, on a body that may intern names itself.
unfoldable pub attr_in : List ℕ → (S → S) → S → S
attr_in name body s =
    let i = (intern_utf8 name s.1).0 in
    let p = (intern_utf8 name s.1).1 in
    (attr i (λ w. (body (w, p)).0) s.0, (body (u4 0 (u2 i s.0), p)).1)

-- What a scratch writer got, spliced in.
unfoldable pub splice : (S → S) → S → S
splice f s = (raw (f ([], s.1)).0 s.0, (f ([], s.1)).1)

unfoldable pub when : Bool → (S → S) → S → S
when true f = f
when false f = λ s. s

abbrev pub is_some_text : {A : Type 0} → List A → Bool
is_some_text [] = false
is_some_text (x ∷ xs) = true

abbrev pub count_true : List Bool → ℕ
count_true [] = 0
count_true (true ∷ bs) = suc (count_true bs)
count_true (false ∷ bs) = count_true bs

-- "ConstantValue", "Signature", "Code", "LineNumberTable", "LocalVariableTable", "Exceptions" and
-- "SourceFile"
abbrev pub constant_value_name : List ℕ
constant_value_name =
    b'C' ∷ b'o' ∷ b'n' ∷ b's' ∷ b't' ∷ b'a' ∷ b'n' ∷ b't' ∷ b'V' ∷ b'a' ∷ b'l' ∷ b'u' ∷ b'e' ∷ []

abbrev pub signature_name : List ℕ
signature_name = b'S' ∷ b'i' ∷ b'g' ∷ b'n' ∷ b'a' ∷ b't' ∷ b'u' ∷ b'r' ∷ b'e' ∷ []

abbrev pub code_name : List ℕ
code_name = b'C' ∷ b'o' ∷ b'd' ∷ b'e' ∷ []

abbrev pub line_table_name : List ℕ
line_table_name =
    b'L' ∷ b'i' ∷ b'n' ∷ b'e' ∷ b'N' ∷ b'u' ∷ b'm' ∷ b'b' ∷ b'e' ∷ b'r' ∷ b'T' ∷ b'a' ∷ b'b' ∷ b'l'
    ∷ b'e' ∷ []

abbrev pub local_table_name : List ℕ
local_table_name =
    b'L' ∷ b'o' ∷ b'c' ∷ b'a' ∷ b'l' ∷ b'V' ∷ b'a' ∷ b'r' ∷ b'i' ∷ b'a' ∷ b'b' ∷ b'l' ∷ b'e' ∷ b'T'
    ∷ b'a' ∷ b'b' ∷ b'l' ∷ b'e' ∷ []

abbrev pub exceptions_name : List ℕ
exceptions_name = b'E' ∷ b'x' ∷ b'c' ∷ b'e' ∷ b'p' ∷ b't' ∷ b'i' ∷ b'o' ∷ b'n' ∷ b's' ∷ []

abbrev pub source_file_name : List ℕ
source_file_name = b'S' ∷ b'o' ∷ b'u' ∷ b'r' ∷ b'c' ∷ b'e' ∷ b'F' ∷ b'i' ∷ b'l' ∷ b'e' ∷ []

-- An attribute whose content is the index of a text, which is interned before the attribute's name.
unfoldable pub text_attr : List ℕ → List ℕ → S → S
text_attr name value s =
    attr_in name (put (u2 (intern_utf8 value s.1).0)) (s.0, (intern_utf8 value s.1).1)

unfoldable pub field_attrs : FieldBuilder → S → S
unfolding u2 u4 attr intern_utf8
field_attrs f =
    put (u2 (count_true (not (f.constant == 0) ∷ is_some_text f.signature ∷ [])))
    >>>> when (not (f.constant == 0)) (attr_in constant_value_name (put (u2 f.constant)))
    >>>> when (is_some_text f.signature) (text_attr signature_name f.signature)

unfoldable pub emit_field : FieldBuilder → S → S
unfolding field_attrs intern_utf8 u2 raw
emit_field f =
    put (u2 (f.flags % 2 ^ 16))
    >>>> put_index (intern_utf8 f.name)
    >>>> put_index (intern_utf8 f.descriptor)
    >>>> splice (field_attrs f)

unfoldable pub put_each : {A : Type 0} → (A → S → S) → List A → S → S
put_each f [] = λ s. s
put_each f (x ∷ xs) = f x >>>> put_each f xs

abbrev pub put_handler : EncodedHandler → S → S
put_handler h =
    put (u2 h.start) >>>> put (u2 h.end) >>>> put (u2 h.handler) >>>> put (u2 h.catch_type)

abbrev pub put_line : LineNumber → S → S
put_line l = put (u2 l.start_pc) >>>> put (u2 l.line)

pub record LocalRow : Type 0 where
  pub start_pc : ℕ
  pub length : ℕ
  pub name : ℕ
  pub descriptor : ℕ
  pub slot : ℕ

-- The names and descriptors of the locals are interned before the Code attribute is written.
unfoldable pub local_table : List LocalVariable → PoolBuilder → List LocalRow × PoolBuilder
unfolding intern_utf8
local_table [] p = ([], p)
local_table (v ∷ vs) p =
    let (n, q) = intern_utf8 v.name p in
    let (d, r) = intern_utf8 v.descriptor q in
    let (rows, t) = local_table vs r in
    (
      record { start_pc = v.start_pc; length = v.length; name = n; descriptor = d; slot = v.slot }
          ∷ rows,
      t,
    )

abbrev pub put_row : LocalRow → S → S
put_row l =
    put (u2 l.start_pc)
    >>>> put (u2 l.length)
    >>>> put (u2 l.name)
    >>>> put (u2 l.descriptor)
    >>>> put (u2 l.slot)

abbrev pub put_count : {A : Type 0} → List A → S → S
put_count xs = put (u2 (length xs % 2 ^ 16))

unfoldable pub code_body : MethodBuilder → List LocalRow → S → S
unfolding u2 u4 raw attr intern_utf8
code_body m rows =
    put (u2 m.max_stack)
    >>>> put (u2 m.max_locals)
    >>>> put (u4 (length m.code % 2 ^ 32))
    >>>> put (raw m.code)
    >>>> put_count m.handlers
    >>>> put_each put_handler m.handlers
    >>>> put (u2 (count_true (is_some_text m.lines ∷ is_some_text rows ∷ [])))
    >>>> when (is_some_text m.lines)
        (attr_in line_table_name (put_count m.lines >>>> put_each put_line m.lines))
    >>>> when (is_some_text rows)
        (attr_in local_table_name (put_count rows >>>> put_each put_row rows))

unfoldable pub code_attr : MethodBuilder → S → S
unfolding code_body local_table
code_attr m s =
    let (rows, p) = local_table m.locals s.1 in attr_in code_name (code_body m rows) (s.0, p)

unfoldable pub class_indices : List (List ℕ) → PoolBuilder → List ℕ × PoolBuilder
unfolding intern_class
class_indices [] p = ([], p)
class_indices (x ∷ xs) p =
    let (i, q) = intern_class x p in let (is, r) = class_indices xs q in (i ∷ is, r)

abbrev pub put_number : ℕ → S → S
put_number i = put (u2 i)

unfoldable pub exceptions_attr : List (List ℕ) → S → S
unfolding class_indices u2 u4 attr intern_utf8
exceptions_attr xs s =
    let (is, p) = class_indices xs s.1 in
    attr_in exceptions_name (put_count is >>>> put_each put_number is) (s.0, p)

unfoldable pub method_attrs : MethodBuilder → S → S
unfolding code_attr exceptions_attr u2 u4 attr intern_utf8
method_attrs m =
    put (u2 (count_true (m.has_code ∷ is_some_text m.exceptions ∷ is_some_text m.signature ∷ [])))
    >>>> when m.has_code (code_attr m)
    >>>> when (is_some_text m.exceptions) (exceptions_attr m.exceptions)
    >>>> when (is_some_text m.signature) (text_attr signature_name m.signature)

unfoldable pub write_method : MethodBuilder → S → S
unfolding method_attrs intern_utf8 u2 raw
write_method m =
    put (u2 (m.flags % 2 ^ 16))
    >>>> put_index (intern_utf8 m.name)
    >>>> put_index (intern_utf8 m.descriptor)
    >>>> splice (method_attrs m)
