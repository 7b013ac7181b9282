-- ===== src/Classfile/Decoder/Header/Names.antt =====
-- classfile/builder.go and classfile/classfile.go: the header that `Bytes` writes, part by part.
use mocha.Prelude.{
  All, List, [], ap, append_assoc, arith, drop-append, get_elem?_lt, inl, inr, length,
  length-append, ok, refl, suc, ℕ, ◌%◌, ◌++◌, ◌+◌, ◌<◌, ◌^◌, ◌∙◌, ◌≡◌, ◌≢◌, ◌⊎◌,
}
use mocha.Classfile.Builder.{Builder}
use mocha.Classfile.Builder.Bytes.{magic}
use mocha.Classfile.Builder.ClassFile.{IsRoot}
use mocha.Classfile.Builder.Interns.{Texts}
use mocha.Classfile.Builder.Layout.{IsSameHeader, up_to_names}
use mocha.Classfile.ConstPool.{ConstPool}
use mocha.Classfile.ConstPool.Content.{IsSpelled, class_at, slots_of}
use mocha.Classfile.ConstPool.Cursor.{IsAt, IsAt-skip}
use mocha.Classfile.ConstPool.Gives.{Gives, IsOf}
use mocha.Classfile.ConstPool.Located.{entry_known}
use mocha.Classfile.ConstPool.Meaning.{class_known}
use mocha.Classfile.ConstPool.ReadBack.{body_of, emit-IsAt, emit-body, pool_at, read_pool-emit}
use mocha.Classfile.ConstPool.Resolve.{class_name_of}
use mocha.Classfile.ConstPool.Written.{pool_at-IsFaithful}
use mocha.Classfile.Decoder.{allow_preview, has_mode}
use mocha.Classfile.Decoder.ClassFile.{read, read_class, super_class}
use mocha.Classfile.Decoder.Header.{
  read-IsAt, read_version-IsAt, stands, super_class-named, super_class-root,
}
use mocha.Classfile.Pool.{emit}
use mocha.Classfile.Pool.Entries.{Denotes}
use mocha.Classfile.Pool.Keys.{class as class_key}
use mocha.Classfile.Pool.Rules.{Inv}
use mocha.Classfile.Version.{IsReadable, Version, check_iff}
use mocha.Classfile.Wire.{u2, u4}
use mocha.Classfile.Wire.ReadBack.{u2_bytes, u4_bytes}
use mocha.Jvm.Mutf8.{IsScalar}

abbrev pub header_of : Builder → List ℕ
header_of d = u2 (d.version.major % 2 ^ 16) (u2 (d.version.minor % 2 ^ 16) (u4 magic []))

abbrev pub names_of : Builder → ℕ → ℕ → List ℕ → List ℕ
names_of d this super rest =
    u2_bytes (d.flags % 2 ^ 16) ++ (u2_bytes this ++ (u2_bytes super ++ rest))

pub names_spelled :
    (d : Builder) (this super : ℕ) (rest : List ℕ)
    → up_to_names d this super ++ rest ≡ emit d.pool (header_of d) ++ names_of d this super rest
unfolding u2
names_spelled d this super rest =
    let head = emit d.pool (header_of d) in
    let flags = u2_bytes (d.flags % 2 ^ 16) in
    append_assoc ((head ++ flags) ++ u2_bytes this) (u2_bytes super) rest
    ∙ append_assoc (head ++ flags) (u2_bytes this) (u2_bytes super ++ rest)
    ∙ append_assoc head flags (u2_bytes this ++ (u2_bytes super ++ rest))

pub IsAt-end : (w rest : List ℕ) → IsAt (w ++ rest) (length w) rest
IsAt-end w rest = (omega (arith, length-append w rest), drop-append w rest)

-- What is known of a file that `Bytes` wrote for `b`, leaving `d`.
pub record Setting (b d : Builder) (this super mode : ℕ) : Type 0 where
  pub readable : IsReadable (has_mode mode allow_preview) b.version
  pub minor_small : b.version.minor < 2 ^ 16
  pub flags_small : b.flags < 2 ^ 16
  pub texts : Texts (All IsScalar) b
  pub valid : Inv d.pool
  pub header : IsSameHeader b d
  pub spelling : IsSpelled b.version.major d.pool
  pub this_is : Denotes d.pool.slots (class_key b.name) this
  pub super_is : Denotes d.pool.slots (class_key b.super) super ⊎ IsRoot b super

module _ {b d : Builder} {this super mode : ℕ} (set : Setting b d this super mode)
    (rest : List ℕ) where
  abbrev pub src : List ℕ
  src = emit d.pool (header_of d) ++ names_of d this super rest

  abbrev pub major : ℕ
  major = b.version.major

  abbrev pub start : ℕ
  start = length (header_of d) + 2

  abbrev pub read_entries : ConstPool
  read_entries = pool_at src start set.spelling.contents

  pub read_entries-IsOf : IsOf read_entries.entries src read_entries
  read_entries-IsOf = record {
    entries_eq = refl;
    src_eq = refl;
    faithful = pool_at-IsFaithful src start set.spelling.contents;
  }

  pub entries_here : IsAt src start (body_of set.spelling.contents ++ names_of d this super rest)
  entries_here =
      emit-IsAt major d.pool (header_of d) (names_of d this super rest) set.spelling
        set.valid.bounded

  pub name_known :
      (i : ℕ) (s : List ℕ)
      → All IsScalar s
      → Denotes d.pool.slots (class_key s) i
      → (i ≢ 0) × (i < 2 ^ 16) × Gives read_entries.entries src (class_name_of i) s
  name_known i s good (n, h, u) =
      let (positive, found) =
        entry_known major d.pool src start (names_of d this super rest) set.spelling i (class_at n)
          set.readable.known.0 entries_here tt h in
      (
        positive,
        omega (arith, get_elem?_lt d.pool.slots i h, set.valid.bounded),
        class_known major set.readable.known.0 d.pool src start (names_of d this super rest)
            set.spelling set.valid.bounded entries_here i s good (n, h, u),
      )

  -- `super_class` at the index that was written.
  pub super_read :
      (flags k : ℕ) (q : ConstPool)
      → IsOf read_entries.entries src q
      → (q' : ConstPool) × IsOf read_entries.entries src q'
        × (IsAt src k (u2_bytes super ++ rest)
            → super_class flags b.name (stands src k q) ≡ (ok b.super, stands src (k + 2) q'))
  super_read flags k q of = elim set.super_is [
    | inl named ↦
        let (positive, small, known) = name_known super b.super set.texts.super_ok named in
        let (value, of') = known.run q of in
        (
          (class_name_of super q).1,
          of',
          λ here.
              super_class-named flags b.name src k super b.super rest q small positive here value,
        )
    | inr root ↦ (
      q,
      of,
      λ here.
          rw root.super_eq
            (super_class-root flags b.name src k super rest q root.index_eq root.name_is here),
    )
  ]

  abbrev behind_header : List ℕ
  behind_header =
      (u2_bytes (suc (length (slots_of set.spelling.contents))) ++ body_of set.spelling.contents)
      ++ names_of d this super rest

  header_here : IsAt src 0 (
      u4_bytes magic
      ++ (u2_bytes (d.version.minor % 2 ^ 16)
          ++ (u2_bytes (d.version.major % 2 ^ 16) ++ behind_header)))
  unfolding u2 u4
  header_here = (
    omega arith,
    ap (λ (t : List ℕ). t ++ names_of d this super rest)
        (emit-body major d.pool (header_of d) set.spelling set.valid.bounded),
  )

  pub up_to_entries :
      read src mode
      ≡ (read_class b.version mode (stands src (length (emit d.pool (header_of d))) read_entries)).0
  unfolding u2 u4
  up_to_entries =
      let minor = d.version.minor % 2 ^ 16 in
      let major' = d.version.major % 2 ^ 16 in
      let behind = u2_bytes minor ++ (u2_bytes major' ++ behind_header) in
      read-IsAt mode src behind header_here
      ∙ read_version-IsAt mode b.version src 4 (length (emit d.pool (header_of d))) minor major'
          behind_header read_entries
          (omega (arith, ap (λ (v : Version). v.minor) set.header.version_eq))
          (omega (arith, ap (λ (v : Version). v.major) set.header.version_eq, set.readable.known))
          (IsAt-skip src 0 4 (u4_bytes magic) behind refl header_here)
          ((check_iff (has_mode mode allow_preview) b.version).1 set.readable)
          (read_pool-emit major d.pool (header_of d) (names_of d this super rest) set.spelling
            set.readable.known.0 set.valid.bounded)
