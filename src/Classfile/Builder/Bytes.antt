-- ===== src/Classfile/Builder/Bytes.antt =====
-- classfile/builder.go: `Bytes`, which writes the class file.
use mocha.Prelude.{
  List, Option, Result, [], err, if◌then◌else◌, length, none, not, ok, some, ℕ, ◌%◌, ◌&&◌, ◌^◌,
  ◌||◌, ◌∷◌,
}
use mocha.Classfile.Builder.{
  Builder, BuilderError, FieldBuilder, MethodBuilder, acc_abstract, acc_native, body_missing,
  body_not_allowed, fail, has_flags, no_superclass, object_name, pool_failed,
}
use mocha.Classfile.Builder.Members.{
  S, class_indices, count_true, emit_field, is_some_text, put, put_count, put_each, put_number,
  source_file_name, when, write_method, ◌>>>>◌,
}
use mocha.Classfile.ConstPool.Resolve.{is_text}
use mocha.Classfile.Pool.{PoolBuilder, emit, intern_class, intern_utf8}
use mocha.Classfile.Wire.{attr, raw, u2, u4}

-- The error of a method that must or must not have a body.
abbrev pub body_error : MethodBuilder → Option BuilderError
body_error m =
    let bodiless = has_flags m.flags acc_abstract || has_flags m.flags acc_native in
    if m.has_code && bodiless
    then some body_not_allowed
    else if not m.has_code && not bodiless
    then some body_missing
    else none

unfoldable pub emit_method : MethodBuilder → List ℕ × Builder → List ℕ × Builder
unfolding write_method fail
emit_method m (w, b) = elim (body_error m) [
  | some e ↦ (w, fail e b)
  | none ↦ ((write_method m (w, b.pool)).0, record b { pool = (write_method m (w, b.pool)).1 })
]

unfoldable pub emit_methods : List MethodBuilder → List ℕ × Builder → List ℕ × Builder
unfolding emit_method
emit_methods [] s = s
emit_methods (m ∷ ms) s = emit_methods ms (emit_method m s)

unfoldable pub class_attrs : List ℕ → S → S
unfolding u2 u4 attr intern_utf8
class_attrs source s =
    (put (u2 (count_true (is_some_text source ∷ [])))
        >>>> when (is_some_text source) (λ t.
          let value = intern_utf8 source (intern_utf8 source_file_name t.1).1 in
          (attr (intern_utf8 source_file_name t.1).0 (u2 value.0) t.0, value.1)))
      s

abbrev pub magic : ℕ
magic = 0xCAFEBABE

-- What is written once everything is interned.
abbrev pub assemble : Builder → ℕ → ℕ → List ℕ → List ℕ → List ℕ → List ℕ → List ℕ
assemble b this super ifaces fields methods attrs =
    let header = u2 (b.version.major % 2 ^ 16) (u2 (b.version.minor % 2 ^ 16) (u4 magic [])) in
    let names =
      u2 (length ifaces % 2 ^ 16)
        (u2 super (u2 this (u2 (b.flags % 2 ^ 16) (emit b.pool header)))) in
    raw attrs (raw methods (raw fields ((put_each put_number ifaces (names, b.pool)).0)))

abbrev pub fields_of : List FieldBuilder → PoolBuilder → S
fields_of fs p = (put_count fs >>>> put_each emit_field fs) ([], p)

abbrev pub methods_of : List MethodBuilder → Builder → List ℕ × Builder
methods_of ms b = emit_methods ms (u2 (length ms % 2 ^ 16) [], b)

-- `Bytes`, from the indices of the class and its superclass on.
unfoldable pub bytes_with : ℕ → ℕ → Builder → Result BuilderError (List ℕ) × Builder
unfolding class_indices emit_field emit_methods class_attrs emit
bytes_with this super b =
    let (ifaces, p) = class_indices b.ifaces b.pool in
    let (fields, q) = fields_of b.fields p in
    let (methods, c) = methods_of b.methods (record b { pool = q }) in
    let (attrs, r) = class_attrs b.source_file ([], c.pool) in
    let d : Builder = record c { pool = r } in
    elim r.err [
      | some e ↦ (err (pool_failed e), d)
      | none ↦ elim d.err [
        | some e ↦ (err e, d)
        | none ↦ (ok (assemble d this super ifaces fields methods attrs), d)
      ]
    ]

unfoldable pub bytes : Builder → Result BuilderError (List ℕ) × Builder
unfolding bytes_with intern_class
bytes b = elim b.err [
  | some e ↦ (err e, b)
  | none ↦
      let (this, p) = intern_class b.name b.pool in
      if is_some_text b.super
      then bytes_with this (intern_class b.super p).0
          (record b { pool = (intern_class b.super p).1 })
      else if not (is_text b.name object_name)
      then (err no_superclass, record b { pool = p })
      else bytes_with this 0 (record b { pool = p })
]
