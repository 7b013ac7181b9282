-- ===== src/Classfile/Builder/Interns.antt =====
-- classfile/builder.go: the parts of a class file only intern into the pool.
use mocha.Prelude.{All, Bool, List, [], arith, false, length, true, ℕ, ◌%◌, ◌<◌, ◌^◌, ◌∷◌}
use mocha.Classfile.Builder.{Builder, EncodedHandler, FieldBuilder, MethodBuilder}
use mocha.Classfile.Builder.Bytes.{fields_of}
use mocha.Classfile.Builder.Members.{
  LocalRow, S, attr_in, class_indices, code_attr, code_body, code_name, constant_value_name,
  emit_field, exceptions_attr, exceptions_name, field_attrs, line_table_name, local_table,
  local_table_name, method_attrs, put, put_count, put_each, put_handler, put_index, put_line,
  put_number, put_row, signature_name, splice, text_attr, when, write_method, ◌>>>>◌,
}
use mocha.Classfile.Code.{LineNumber}
use mocha.Classfile.Code.Rows.{LocalVariable}
use mocha.Classfile.Pool.{PoolBuilder, intern_class, intern_utf8}
use mocha.Classfile.Wire.{u2, u4}

-- What is asked of the texts of a builder, and what interning one of them keeps between two pools.
pub record Interning (IsText : List ℕ → Type 0) (On : PoolBuilder → PoolBuilder → Type 0)
    : Type 0 where
  pub on_refl : (p : PoolBuilder) → On p p
  pub on_trans : (p q r : PoolBuilder) → On p q → On q r → On p r
  pub of_utf8 : (x : List ℕ) (p : PoolBuilder) → IsText x → On p (intern_utf8 x p).1
  pub of_class : (x : List ℕ) (p : PoolBuilder) → IsText x → On p (intern_class x p).1
  pub of_ascii : (x : List ℕ) → All (λ c. c < 128) x → IsText x

-- The texts that are interned for a field, a method, and a class.
pub record FieldTexts (IsText : List ℕ → Type 0) (f : FieldBuilder) : Type 0 where
  pub name_ok : IsText f.name
  pub descriptor_ok : IsText f.descriptor
  pub signature_ok : IsText f.signature

pub record MethodTexts (IsText : List ℕ → Type 0) (m : MethodBuilder) : Type 0 where
  pub name_ok : IsText m.name
  pub descriptor_ok : IsText m.descriptor
  pub signature_ok : IsText m.signature
  pub exceptions_ok : All IsText m.exceptions
  pub locals_ok : All (λ v. IsText v.name × IsText v.descriptor) m.locals

pub record Texts (IsText : List ℕ → Type 0) (b : Builder) : Type 0 where
  pub name_ok : IsText b.name
  pub super_ok : IsText b.super
  pub ifaces_ok : All IsText b.ifaces
  pub fields_ok : All (FieldTexts IsText) b.fields
  pub methods_ok : All (MethodTexts IsText) b.methods
  pub source_file_ok : IsText b.source_file

-- A part of the output that only interns.
pub record Interns (On : PoolBuilder → PoolBuilder → Type 0) (f : S → S) : Type 0 where
  pub at : (s : S) → On s.1 (f s).1

module _ {IsText : List ℕ → Type 0} {On : PoolBuilder → PoolBuilder → Type 0}
    (laws : Interning IsText On) where
  put-Interns : (f : List ℕ → List ℕ) → Interns On (put f)
  unfolding put
  put-Interns f = record { at = λ s. laws.on_refl s.1 }

  then-Interns : {f g : S → S} → Interns On f → Interns On g → Interns On (f >>>> g)
  unfolding ◌>>>>◌
  then-Interns {f} {g} a c = record {
    at = λ s. laws.on_trans s.1 (f s).1 (g (f s)).1 (a.at s) (c.at (f s));
  }

  put_index-Interns : (x : List ℕ) → IsText x → Interns On (put_index (intern_utf8 x))
  unfolding put_index
  put_index-Interns x good = record { at = λ s. laws.of_utf8 x s.1 good }

  when-Interns : (t : Bool) {f : S → S} → Interns On f → Interns On (when t f)
  unfolding when
  when-Interns true a = a
  when-Interns false a = record { at = λ s. laws.on_refl s.1 }

  attr_in-Interns :
      (name : List ℕ) {body : S → S}
      → IsText name
      → Interns On body
      → Interns On (attr_in name body)
  unfolding attr_in
  attr_in-Interns name {body} good a = record {
    at = λ s.
        laws.on_trans s.1 (intern_utf8 name s.1).1 _ (laws.of_utf8 name s.1 good)
          (a.at (u4 0 (u2 (intern_utf8 name s.1).0 s.0), (intern_utf8 name s.1).1));
  }

  splice-Interns : {f : S → S} → Interns On f → Interns On (splice f)
  unfolding splice
  splice-Interns a = record { at = λ s. a.at ([], s.1) }

  put_each-Interns :
      {A : Type 0} (f : A → S → S) (xs : List A)
      → All (λ x. Interns On (f x)) xs
      → Interns On (put_each f xs)
  unfolding put_each
  put_each-Interns f [] each = record { at = λ s. laws.on_refl s.1 }
  put_each-Interns f (x ∷ xs) (first, each) = then-Interns first (put_each-Interns f xs each)

  text_attr-Interns :
      (name value : List ℕ) → IsText name → IsText value → Interns On (text_attr name value)
  unfolding text_attr
  text_attr-Interns name value good_name good_value = record {
    at = λ s.
        let i = (intern_utf8 value s.1).0 in
        laws.on_trans s.1 (intern_utf8 value s.1).1 _ (laws.of_utf8 value s.1 good_value) (
          (attr_in-Interns name good_name (put-Interns (u2 i))).at
            (s.0, (intern_utf8 value s.1).1));
  }

  constant_value_name-IsText : IsText constant_value_name
  constant_value_name-IsText = laws.of_ascii constant_value_name (omega arith)

  signature_name-IsText : IsText signature_name
  signature_name-IsText = laws.of_ascii signature_name (omega arith)

  code_name-IsText : IsText code_name
  code_name-IsText = laws.of_ascii code_name (omega arith)

  line_table_name-IsText : IsText line_table_name
  line_table_name-IsText = laws.of_ascii line_table_name (omega arith)

  local_table_name-IsText : IsText local_table_name
  local_table_name-IsText = laws.of_ascii local_table_name (omega arith)

  exceptions_name-IsText : IsText exceptions_name
  exceptions_name-IsText = laws.of_ascii exceptions_name (omega arith)

  ruleset interning = (
    put-Interns, then-Interns, put_index-Interns, when-Interns, attr_in-Interns, splice-Interns,
    text_attr-Interns, constant_value_name-IsText, signature_name-IsText, code_name-IsText,
    line_table_name-IsText, local_table_name-IsText, exceptions_name-IsText,
  )

  emit_field-Interns : (f : FieldBuilder) → FieldTexts IsText f → Interns On (emit_field f)
  unfolding emit_field field_attrs
  emit_field-Interns f good =
      let name : IsText f.name = good.name_ok in
      let descriptor : IsText f.descriptor = good.descriptor_ok in
      let signature : IsText f.signature = good.signature_ok in search interning depth 12

  emit_fields-Interns :
      (fs : List FieldBuilder)
      → All (FieldTexts IsText) fs
      → All (λ f. Interns On (emit_field f)) fs
  emit_fields-Interns [] goods = tt
  emit_fields-Interns (f ∷ fs) (good, goods) =
      (emit_field-Interns f good, emit_fields-Interns fs goods)

  local_table-On :
      (vs : List LocalVariable) (p : PoolBuilder)
      → All (λ v. IsText v.name × IsText v.descriptor) vs
      → On p (local_table vs p).1
  unfolding local_table
  local_table-On [] p goods = laws.on_refl p
  local_table-On (v ∷ vs) p ((good_name, good_descriptor), goods) =
      let q = (intern_utf8 v.name p).1 in
      let t = (intern_utf8 v.descriptor q).1 in
      laws.on_trans p q _ (laws.of_utf8 v.name p good_name) (
        laws.on_trans q t _ (laws.of_utf8 v.descriptor q good_descriptor)
          (local_table-On vs t goods))

  pub class_indices-On :
      (xs : List (List ℕ)) (p : PoolBuilder) → All IsText xs → On p (class_indices xs p).1
  unfolding class_indices
  class_indices-On [] p goods = laws.on_refl p
  class_indices-On (x ∷ xs) p (good, goods) =
      let q = (intern_class x p).1 in
      laws.on_trans p q _ (laws.of_class x p good) (class_indices-On xs q goods)

  -- Parts that only put numbers.
  numbers-Interns :
      {A : Type 0} (f : A → S → S) (xs : List A)
      → ((x : A) → Interns On (f x))
      → Interns On (put_each f xs)
  unfolding put_each
  numbers-Interns f [] each = record { at = λ s. laws.on_refl s.1 }
  numbers-Interns f (x ∷ xs) each = then-Interns (each x) (numbers-Interns f xs each)

  put_handler-Interns : (h : EncodedHandler) → Interns On (put_handler h)
  put_handler-Interns h = search interning

  put_line-Interns : (l : LineNumber) → Interns On (put_line l)
  put_line-Interns l = search interning

  put_row-Interns : (l : LocalRow) → Interns On (put_row l)
  put_row-Interns l = search interning

  put_number-Interns : (i : ℕ) → Interns On (put_number i)
  put_number-Interns i = put-Interns (u2 i)

  code_body-Interns : (m : MethodBuilder) (rows : List LocalRow) → Interns On (code_body m rows)
  unfolding code_body
  code_body-Interns m rows =
      let handlers = numbers-Interns put_handler m.handlers put_handler-Interns in
      let lines = numbers-Interns put_line m.lines put_line-Interns in
      let row_each = numbers-Interns put_row rows put_row-Interns in search interning depth 20

  code_attr-Interns :
      (m : MethodBuilder)
      → All (λ v. IsText v.name × IsText v.descriptor) m.locals
      → Interns On (code_attr m)
  unfolding code_attr
  code_attr-Interns m goods = record {
    at = λ s.
        let rows = (local_table m.locals s.1).0 in
        let p = (local_table m.locals s.1).1 in
        laws.on_trans s.1 p _ (local_table-On m.locals s.1 goods)
          ((attr_in-Interns code_name code_name-IsText (code_body-Interns m rows)).at (s.0, p));
  }

  exceptions_attr-Interns : (xs : List (List ℕ)) → All IsText xs → Interns On (exceptions_attr xs)
  unfolding exceptions_attr
  exceptions_attr-Interns xs goods = record {
    at = λ s.
        let is = (class_indices xs s.1).0 in
        let p = (class_indices xs s.1).1 in
        let table : Interns On (put_count is >>>> put_each put_number is) =
          then-Interns (put-Interns (u2 (length is % 2 ^ 16)))
            (numbers-Interns put_number is put_number-Interns) in
        laws.on_trans s.1 p _ (class_indices-On xs s.1 goods)
          ((attr_in-Interns exceptions_name exceptions_name-IsText table).at (s.0, p));
  }

  pub write_method-Interns :
      (m : MethodBuilder) → MethodTexts IsText m → Interns On (write_method m)
  unfolding write_method method_attrs
  write_method-Interns m good =
      let name : IsText m.name = good.name_ok in
      let descriptor : IsText m.descriptor = good.descriptor_ok in
      let signature : IsText m.signature = good.signature_ok in
      let code = code_attr-Interns m good.locals_ok in
      let exceptions = exceptions_attr-Interns m.exceptions good.exceptions_ok in
      search interning depth 16

  pub fields_of-On :
      (fs : List FieldBuilder) (p : PoolBuilder)
      → All (FieldTexts IsText) fs
      → On p (fields_of fs p).1
  unfolding ◌>>>>◌ put
  fields_of-On fs p goods =
      (put_each-Interns emit_field fs (emit_fields-Interns fs goods)).at
        (u2 (length fs % 2 ^ 16) [], p)
