-- ===== src/Classfile/Builder/Layout.antt =====
-- classfile/builder.go: everything that `Bytes` interns reaches the pool that it writes.
use mocha.Prelude.{
  All, List, Option, Result, [], ap, append-nil, append_assoc, arith, err, length, none, ok, refl,
  some, sym, ℕ, ◌%◌, ◌++◌, ◌^◌, ◌∙◌, ◌∷◌, ◌≡◌,
}
use mocha.Classfile.Builder.{Builder, BuilderError, FieldBuilder, MethodBuilder, fail, pool_failed}
use mocha.Classfile.Builder.Bytes.{
  assemble, body_error, bytes_with, class_attrs, emit_method, emit_methods, fields_of, magic,
  methods_of,
}
use mocha.Classfile.Builder.Interns.{
  Interning, MethodTexts, Texts, class_indices-On, fields_of-On, write_method-Interns,
}
use mocha.Classfile.Builder.Members.{
  S, class_indices, put, put_each, put_number, source_file_name, when, write_method, ◌>>>>◌,
}
use mocha.Classfile.Pool.{PoolBuilder, PoolError, emit, intern_utf8}
use mocha.Classfile.Wire.{raw, u2, u4}
use mocha.Classfile.Wire.ReadBack.{u2_bytes}

-- What a method that is written leaves as it was.
pub record IsSameHeader (b c : Builder) : Type 0 where
  pub version_eq : c.version ≡ b.version
  pub flags_eq : c.flags ≡ b.flags

fail-IsSameHeader : (e : BuilderError) (b : Builder) → IsSameHeader b (fail e b)
unfolding fail
fail-IsSameHeader e b =
    elim b.err as (λ o. IsSameHeader b (elim o [ none ↦ record b { err = some e } | some x ↦ b ])) [
      | none ↦ record { version_eq = refl; flags_eq = refl }
      | some x ↦ record { version_eq = refl; flags_eq = refl }
    ]

emit_method-IsSameHeader :
    (m : MethodBuilder) (w : List ℕ) (b : Builder) → IsSameHeader b (emit_method m (w, b)).1
unfolding emit_method
emit_method-IsSameHeader m w b =
    elim (body_error m)
      as (λ o.
        let r : List ℕ × Builder = elim o [
          | some e ↦ (w, fail e b)
          | none ↦
              ((write_method m (w, b.pool)).0, record b { pool = (write_method m (w, b.pool)).1 })
        ] in
        IsSameHeader b r.1) [
          | some e ↦ fail-IsSameHeader e b
          | none ↦ record { version_eq = refl; flags_eq = refl }
        ]

emit_methods-IsSameHeader :
    (ms : List MethodBuilder) (w : List ℕ) (b : Builder) → IsSameHeader b (emit_methods ms (w, b)).1
unfolding emit_methods
emit_methods-IsSameHeader [] w b = record { version_eq = refl; flags_eq = refl }
emit_methods-IsSameHeader (m ∷ ms) w b =
    let first = emit_method-IsSameHeader m w b in
    let more = emit_methods-IsSameHeader ms (emit_method m (w, b)).0 (emit_method m (w, b)).1 in
    record {
      version_eq = more.version_eq ∙ first.version_eq;
      flags_eq = more.flags_eq ∙ first.flags_eq;
    }

-- The file up to the interfaces: magic, version, pool, flags, class and superclass.
abbrev pub up_to_names : Builder → ℕ → ℕ → List ℕ
up_to_names b this super =
    let header = u2 (b.version.major % 2 ^ 16) (u2 (b.version.minor % 2 ^ 16) (u4 magic [])) in
    u2 super (u2 this (u2 (b.flags % 2 ^ 16) (emit b.pool header)))

-- The indices of the interfaces, behind their count and in front of the tables.
abbrev pub numbers : List ℕ → List ℕ
numbers [] = []
numbers (i ∷ is) = u2_bytes i ++ numbers is

abbrev pub ifaces_then : List ℕ → List ℕ → List ℕ
ifaces_then is tables = u2_bytes (length is % 2 ^ 16) ++ (numbers is ++ tables)

numbers-append :
    (is : List ℕ) (w : List ℕ) (p : PoolBuilder)
    → (put_each put_number is (w, p)).0 ≡ w ++ numbers is
unfolding put_each put ◌>>>>◌ u2
numbers-append [] w p = sym (append-nil w)
numbers-append (i ∷ is) w p =
    numbers-append is (u2 i w) p ∙ append_assoc w (u2_bytes i) (numbers is)

assemble-append :
    (b : Builder) (this super : ℕ) (ifaces fields methods attrs : List ℕ)
    → assemble b this super ifaces fields methods attrs
      ≡ up_to_names b this super ++ ifaces_then ifaces (fields ++ (methods ++ attrs))
unfolding raw u2
assemble-append b this super ifaces fields methods attrs =
    let names = up_to_names b this super in
    let count = u2_bytes (length ifaces % 2 ^ 16) in
    let more = numbers ifaces in
    ap (λ (w : List ℕ). ((w ++ fields) ++ methods) ++ attrs)
      (numbers-append ifaces (u2 (length ifaces % 2 ^ 16) names) b.pool)
    ∙ append_assoc (((names ++ count) ++ more) ++ fields) methods attrs
    ∙ append_assoc ((names ++ count) ++ more) fields (methods ++ attrs)
    ∙ append_assoc (names ++ count) more (fields ++ (methods ++ attrs))
    ∙ append_assoc names count (more ++ (fields ++ (methods ++ attrs)))

-- Neither members nor attributes, which leaves three counts of zero.
pub record IsBare (b : Builder) : Type 0 where
  pub fields_eq : b.fields ≡ []
  pub methods_eq : b.methods ≡ []
  pub source_file_eq : b.source_file ≡ []

abbrev pub no_tables : List ℕ
no_tables = 0 ∷ 0 ∷ 0 ∷ 0 ∷ 0 ∷ 0 ∷ []

bare_tables :
    (b c : Builder) (p q : PoolBuilder)
    → IsBare b
    → (fields_of b.fields p).0
        ++ ((methods_of b.methods c).0 ++ (class_attrs b.source_file ([], q)).0)
      ≡ no_tables
unfolding emit_methods class_attrs ◌>>>>◌ when put put_each u2
bare_tables b c p q bare =
    ap
      (λ (fs : List FieldBuilder).
        (fields_of fs p).0 ++ ((methods_of b.methods c).0 ++ (class_attrs b.source_file ([], q)).0))
      bare.fields_eq
    ∙ ap
        (λ (ms : List MethodBuilder).
          (fields_of [] p).0 ++ ((methods_of ms c).0 ++ (class_attrs b.source_file ([], q)).0))
        bare.methods_eq
    ∙ ap (λ (s : List ℕ). (fields_of [] p).0 ++ ((methods_of [] c).0 ++ (class_attrs s ([], q)).0))
        bare.source_file_eq

-- What a file that was written says of the builder `d` that `Bytes` left, from the builder `b` on.
pub record IsWritten (On : PoolBuilder → PoolBuilder → Type 0) (b d : Builder) (this super : ℕ)
    (out : List ℕ) : Type 0 where
  pub tables : List ℕ
  pub spelled :
      out ≡ up_to_names d this super ++ ifaces_then (class_indices b.ifaces b.pool).0 tables
  pub bare : IsBare b → tables ≡ no_tables
  pub pool_clean : d.pool.err ≡ none
  pub clean : d.err ≡ none
  pub onward : On b.pool d.pool
  pub behind : On (class_indices b.ifaces b.pool).1 d.pool
  pub header : IsSameHeader b d

ok_inj : (x y : List ℕ) → let r : Result BuilderError (List ℕ) = ok x in r ≡ ok y → x ≡ y
ok_inj x y h = cc

module _ {IsText : List ℕ → Type 0} {On : PoolBuilder → PoolBuilder → Type 0}
    (laws : Interning IsText On) where
  fail-pool : (e : BuilderError) (b : Builder) → On b.pool (fail e b).pool
  unfolding fail
  fail-pool e b =
      elim b.err
        as (λ o.
          let d : Builder = elim o [ none ↦ record b { err = some e } | some x ↦ b ] in
          On b.pool d.pool) [ none ↦ laws.on_refl b.pool | some x ↦ laws.on_refl b.pool ]

  emit_method-On :
      (m : MethodBuilder) (w : List ℕ) (b : Builder)
      → MethodTexts IsText m
      → On b.pool (emit_method m (w, b)).1.pool
  unfolding emit_method fail
  emit_method-On m w b good =
      elim (body_error m)
        as (λ o.
          let r : List ℕ × Builder = elim o [
            | some e ↦ (w, fail e b)
            | none ↦
                ((write_method m (w, b.pool)).0, record b { pool = (write_method m (w, b.pool)).1 })
          ] in
          On b.pool r.1.pool) [
            | some e ↦ fail-pool e b
            | none ↦ (write_method-Interns laws m good).at (w, b.pool)
          ]

  emit_methods-On :
      (ms : List MethodBuilder) (w : List ℕ) (b : Builder)
      → All (MethodTexts IsText) ms
      → On b.pool (emit_methods ms (w, b)).1.pool
  unfolding emit_methods
  emit_methods-On [] w b goods = laws.on_refl b.pool
  emit_methods-On (m ∷ ms) w b (good, goods) =
      laws.on_trans b.pool (emit_method m (w, b)).1.pool _ (emit_method-On m w b good)
        (emit_methods-On ms (emit_method m (w, b)).0 (emit_method m (w, b)).1 goods)

  class_attrs-On : (source : List ℕ) (s : S) → IsText source → On s.1 (class_attrs source s).1
  unfolding class_attrs ◌>>>>◌ when put
  class_attrs-On [] s good = laws.on_refl s.1
  class_attrs-On (x ∷ xs) s good =
      laws.on_trans s.1 (intern_utf8 source_file_name s.1).1 _
        (laws.of_utf8 source_file_name s.1 (laws.of_ascii source_file_name (omega arith)))
        (laws.of_utf8 (x ∷ xs) _ good)

  finished :
      (b d : Builder) (this super : ℕ) (written out : List ℕ) (o : Option PoolError)
      (x : Option BuilderError)
      → d.pool.err ≡ o
      → d.err ≡ x
      → On b.pool d.pool
      → On (class_indices b.ifaces b.pool).1 d.pool
      → IsSameHeader b d
      → ((tables : List ℕ) × (written
            ≡ up_to_names d this super ++ ifaces_then (class_indices b.ifaces b.pool).0 tables)
          × (IsBare b → tables ≡ no_tables))
      → let r : Result BuilderError (List ℕ) × Builder = elim o [
        | some e ↦ (err (pool_failed e), d)
        | none ↦ elim x [ some e ↦ (err e, d) | none ↦ (ok written, d) ]
      ] in
        r.0 ≡ ok out → IsWritten On b r.1 this super out
  finished b d this super written out (some e) x eo ex on behind same spelled = λ h. cc
  finished b d this super written out none (some e) eo ex on behind same spelled = λ h. cc
  finished b d this super written out none none eo ex on behind same (tables, spelled, bare) = λ h.
      record {
        tables = tables;
        spelled = sym (ok_inj written out h) ∙ spelled;
        bare = bare;
        pool_clean = eo;
        clean = ex;
        onward = on;
        behind = behind;
        header = same;
      }

  pub bytes_with-IsWritten :
      (this super : ℕ) (b : Builder) (out : List ℕ)
      → Texts IsText b
      → (bytes_with this super b).0 ≡ ok out
      → IsWritten On b (bytes_with this super b).1 this super out
  unfolding bytes_with
  bytes_with-IsWritten this super b out texts =
      let is = (class_indices b.ifaces b.pool).0 in
      let p = (class_indices b.ifaces b.pool).1 in
      let q = (fields_of b.fields p).1 in
      let b1 : Builder = record b { pool = q } in
      let c = (methods_of b.methods b1).1 in
      let kept = emit_methods-IsSameHeader b.methods (u2 (length b.methods % 2 ^ 16) []) b1 in
      let attrs = class_attrs b.source_file ([], c.pool) in
      let d : Builder = record c { pool = attrs.1 } in
      let fields = (fields_of b.fields p).0 in
      let methods = (methods_of b.methods b1).0 in
      let behind = laws.on_trans p q d.pool (fields_of-On laws b.fields p texts.fields_ok) (
        laws.on_trans q c.pool d.pool (emit_methods-On b.methods _ b1 texts.methods_ok)
          (class_attrs-On b.source_file ([], c.pool) texts.source_file_ok)) in
      finished b d this super (assemble d this super is fields methods attrs.0) out attrs.1.err
        c.err refl refl
        (laws.on_trans b.pool p d.pool (class_indices-On laws b.ifaces b.pool texts.ifaces_ok)
          behind)
        behind (record { version_eq = kept.version_eq; flags_eq = kept.flags_eq })
        (
          fields ++ (methods ++ attrs.0),
          assemble-append d this super is fields methods attrs.0,
          bare_tables b b1 p c.pool,
        )
