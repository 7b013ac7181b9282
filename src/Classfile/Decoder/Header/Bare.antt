-- ===== src/Classfile/Decoder/Header/Bare.antt =====
-- classfile/builder.go and classfile/classfile.go: a class without members is read back as it is.
use mocha.Prelude.{
  All, List, [], ap, arith, false, length, length-drop, ok, refl, true, ℕ, ◌++◌, ◌+◌, ◌<◌, ◌==◌,
  ◌^◌, ◌∙◌, ◌∷◌, ◌≡◌,
}
use mocha.Classfile.Attr.{Attrs, loc_class, loc_field, no_attrs}
use mocha.Classfile.Builder.{Builder}
use mocha.Classfile.Builder.Bytes.{bytes}
use mocha.Classfile.Builder.Interns.{Texts}
use mocha.Classfile.Builder.Layout.{IsBare, no_tables}
use mocha.Classfile.ConstPool.{ConstPool}
use mocha.Classfile.ConstPool.Content.{IsSpelled}
use mocha.Classfile.ConstPool.Cursor.{IsAt, IsAt-skip}
use mocha.Classfile.ConstPool.Meaning.{IsKeyOf, Resolves}
use mocha.Classfile.Decoder.{
  Context, D, allow_preview, finish, give, has_mode, next_u2, rows, ◌>>=◌,
}
use mocha.Classfile.Decoder.Attributes.{attributes, table}
use mocha.Classfile.Decoder.ClassFile.{
  Class, class_with, hoist_class, read, read_tables, whole_file,
}
use mocha.Classfile.Decoder.Header.{bind-ok, next_u2-IsAt, stands}
use mocha.Classfile.Decoder.Header.Written.{read-bytes}
use mocha.Classfile.Decoder.Members.{
  Field, Method, field_info, max_depth, members, method_info, methods,
}
use mocha.Classfile.Pool.Entries.{Denotes}
use mocha.Classfile.Pool.Keys.{Key}
use mocha.Classfile.Pool.Rules.{Inv}
use mocha.Classfile.Version.{IsReadable}
use mocha.Classfile.Wire.ReadBack.{u2_bytes}
use mocha.Jvm.Mutf8.{IsScalar}
use mathlib.Core.Path.{subst}

no_rows :
    {A : Type 0} (m : D A) (src : List ℕ) (k : ℕ) (rest : List ℕ) (q : ConstPool)
    → IsAt src k (u2_bytes 0 ++ rest)
    → (next_u2 >>= λ n. (rows n m >>= finish)) (stands src k q) ≡ (ok [], stands src (k + 2) q)
unfolding rows give finish ◌>>=◌
no_rows m src k rest q here =
    next_u2-IsAt (λ n. rows n m >>= finish) src k 0 rest q (omega arith) here

no_attributes :
    (cx : Context) (loc : ℕ) (src : List ℕ) (k : ℕ) (rest : List ℕ) (q : ConstPool)
    → IsAt src k (u2_bytes 0 ++ rest)
    → attributes cx max_depth loc (stands src k q) ≡ (ok no_attrs, stands src (k + 2) q)
unfolding attributes table give finish ◌>>=◌
no_attributes cx loc src k rest q here =
    next_u2-IsAt (λ n. table cx (attributes cx 1) loc n >>= finish) src k 0 rest q (omega arith)
      here

-- What is read where there are no members.
abbrev pub bare_class : Builder → ConstPool → Class
bare_class b q = record {
  version = b.version;
  pool = q;
  flags = b.flags;
  name = b.name;
  super = b.super;
  interfaces = b.ifaces;
  fields = [];
  methods = [];
  attrs = no_attrs;
  source_file = [];
  signature = [];
  nest_host = [];
  is_deprecated = false;
  is_synthetic = false;
}

read_tables-none :
    (b : Builder) (mode : ℕ) (src : List ℕ) (k : ℕ) (q : ConstPool)
    → IsAt src k no_tables
    → (read_tables b.version mode b.flags b.name b.super b.ifaces (stands src k q)).0
      ≡ ok (bare_class b q)
unfolding read_tables members methods whole_file class_with give hoist_class bare_class
read_tables-none b mode src k q (inside, here) =
    let v = b.version in
    let cx : Context = record { major = v.major; mode = mode } in
    let size : k + 2 + 2 + 2 ≡ length src =
      omega (arith, ap length here, length-drop k src, inside) in
    let at_methods = IsAt-skip src k 2 (u2_bytes 0) (0 ∷ 0 ∷ 0 ∷ 0 ∷ []) refl (inside, here) in
    let at_attrs = IsAt-skip src (k + 2) 2 (u2_bytes 0) (0 ∷ 0 ∷ []) refl at_methods in
    let end : List Field → List Method → Attrs → D Class =
      λ fs ms ats. whole_file >>= λ u. class_with v b.flags b.name b.super b.ifaces fs ms ats in
    let with_methods : List Field → List Method → D Class =
      λ fs ms. attributes cx max_depth loc_class >>= end fs ms in
    let with_fields : List Field → D Class = λ fs. methods cx >>= with_methods fs in
    let whole : (k + 2 + 2 + 2 == length src) ≡ true = ground arith in
    let at_end : whole_file (stands src (k + 2 + 2 + 2) q) ≡ (ok tt, stands src (k + 2 + 2 + 2) q) =
      rw whole refl in
    ap (λ r. r.0)
      (bind-ok (members cx loc_field) with_fields {d = stands src k q}
          (no_rows (field_info cx loc_field) src k (0 ∷ 0 ∷ 0 ∷ 0 ∷ []) q (inside, here))
        ∙ bind-ok (methods cx) (with_methods []) {d = stands src (k + 2) q}
            (no_rows (method_info cx) src (k + 2) (0 ∷ 0 ∷ []) q at_methods)
        ∙ bind-ok (attributes cx max_depth loc_class) (end [] []) {d = stands src (k + 2 + 2) q}
            (no_attributes cx loc_class src (k + 2 + 2) [] q at_attrs)
        ∙ bind-ok whole_file (λ u. class_with v b.flags b.name b.super b.ifaces [] [] no_attrs)
            {d = stands src (k + 2 + 2 + 2) q} at_end)

-- A class without members is read back as it is. `Bytes` succeeds on a builder without fields, methods
-- and a source file, whose pool is valid and holds entries that a file of its version may hold, whose
-- version a reader in this mode accepts, whose minor version and flags are `uint16`s, which has less
-- than 65536 interfaces, and whose texts are Go strings. Then `read` succeeds on the bytes, to the last
-- one, with the class of that version, flags, name, superclass and interfaces, with nothing else in it
-- but a pool, in which every index of the pool that was written resolves to its constant.
pub read-bytes_bare :
    (b : Builder) (mode : ℕ) (out : List ℕ)
    → IsBare b
    → Inv b.pool
    → IsReadable (has_mode mode allow_preview) b.version
    → b.version.minor < 2 ^ 16
    → b.flags < 2 ^ 16
    → length b.ifaces < 2 ^ 16
    → Texts (All IsScalar) b
    → IsSpelled b.version.major b.pool
    → (bytes b).0 ≡ ok out
    → (q : ConstPool) × (read out mode ≡ ok (bare_class b q))
      × ((k : Key)
          → IsKeyOf b.version.major k
          → (i : ℕ) → Denotes (bytes b).1.pool.slots k i
          → Resolves b.version.major q k i)
read-bytes_bare b mode out bare valid readable minor_small flags_small few texts spelling done =
    let r = read-bytes b mode out valid readable minor_small flags_small few texts spelling done in
    (
      r.pool,
      r.reads
          ∙ read_tables-none b mode out r.behind r.pool
              (subst (λ t. IsAt out r.behind t) (r.bare bare) r.tables_here),
      r.resolves,
    )
