-- ===== src/Classfile/Decoder/ClassFile.antt =====
-- classfile/classfile.go: a class, and `read` over all the bytes of its file.
use mocha.Prelude.{
  Bool, List, Option, Result, [], err, false, if◌then◌else◌, length, none, not, ok, some, stuck,
  true, ℕ, ◌&&◌, ◌==◌,
}
use mocha.Classfile.Attr.{
  Attrs, attr_then, bootstrap_methods_attr, deprecated_attr, loc_class, loc_field, nest_host_attr,
  no_attrs, signature_attr, source_file_attr, synthetic_attr,
}
use mocha.Classfile.Builder.{has_flags, object_name}
use mocha.Classfile.Builder.Bytes.{magic}
use mocha.Classfile.ConstPool.{ConstPool, read_pool}
use mocha.Classfile.ConstPool.Resolve.{is_text}
use mocha.Classfile.Decoder.{
  D, DecodeError, allow_preview, bad_magic, bad_version, class, give, has_mode, next_u2, no_pool,
  refuse, rows, super_missing, syntax, trailing, ◌>>=◌,
}
use mocha.Classfile.Decoder.Attributes.{attributes}
use mocha.Classfile.Decoder.Members.{Field, Method, max_depth, members, methods}
use mocha.Classfile.Version.{Version, VersionError, check}
use mocha.Classfile.Wire.{Reader, read_u2, read_u4}

pub record Class : Type 0 where
  pub version : Version
  pub pool : ConstPool
  pub flags : ℕ
  pub name : List ℕ
  pub super : List ℕ
  pub interfaces : List (List ℕ)
  pub fields : List Field
  pub methods : List Method
  pub attrs : Attrs
  pub source_file : List ℕ
  pub signature : List ℕ
  pub nest_host : List ℕ
  pub is_deprecated : Bool
  pub is_synthetic : Bool

-- `hoistClass`; the bootstrap methods go to the pool.
unfoldable pub hoist_class : Attrs → Class → Class
hoist_class no_attrs c = c
hoist_class (attr_then (source_file_attr v) ats) c = hoist_class ats (record c { source_file = v })
hoist_class (attr_then (signature_attr v) ats) c = hoist_class ats (record c { signature = v })
hoist_class (attr_then (nest_host_attr v) ats) c = hoist_class ats (record c { nest_host = v })
hoist_class (attr_then deprecated_attr ats) c = hoist_class ats (record c { is_deprecated = true })
hoist_class (attr_then synthetic_attr ats) c = hoist_class ats (record c { is_synthetic = true })
hoist_class (attr_then (bootstrap_methods_attr ms) ats) c =
    hoist_class ats (record c { pool = record c.pool { bsms = ms } })
hoist_class (attr_then _ ats) c = hoist_class ats c

abbrev pub acc_module : ℕ
acc_module = 0x8000

-- super_class, which is zero for Object and for a module only.
unfoldable pub super_class : ℕ → List ℕ → D (List ℕ)
unfolding ◌>>=◌ next_u2 class give refuse
super_class flags name = do
  super ← next_u2
  if not (super == 0)
      then class super
      else if not (is_text name object_name) && not (has_flags flags acc_module)
      then refuse super_missing
      else give []

-- The bytes that are left after the tables.
unfoldable pub whole_file : D Unit
whole_file d = elim d.r.err [
  | some e ↦ (err (syntax e), d)
  | none ↦ if not (d.r.off == length d.r.b) then (err (trailing d.r.off), d) else (ok tt, d)
]

-- The class of what was read, with what is hoisted.
unfoldable pub class_with :
    Version → ℕ → List ℕ → List ℕ → List (List ℕ) → List Field → List Method → Attrs → D Class
unfolding give hoist_class
class_with v flags name super interfaces fs ms ats d =
    give
      (hoist_class ats (record {
        version = v;
        pool = d.pool;
        flags = flags;
        name = name;
        super = super;
        interfaces = interfaces;
        fields = fs;
        methods = ms;
        attrs = ats;
        source_file = [];
        signature = [];
        nest_host = [];
        is_deprecated = false;
        is_synthetic = false;
      }))
      d

-- What follows the interfaces.
unfoldable pub read_tables : Version → ℕ → ℕ → List ℕ → List ℕ → List (List ℕ) → D Class
unfolding ◌>>=◌ members methods attributes whole_file give hoist_class
read_tables v mode flags name super interfaces = do
  fs ← members (record { major = v.major; mode = mode }) loc_field
  ms ← methods (record { major = v.major; mode = mode })
  ats ← attributes (record { major = v.major; mode = mode }) max_depth loc_class
  end ← whole_file
  class_with v flags name super interfaces fs ms ats

-- What follows the pool.
unfoldable pub read_class : Version → ℕ → D Class
unfolding ◌>>=◌ next_u2 class super_class rows read_tables
read_class v mode = do
  flags ← next_u2
  name_idx ← next_u2
  name ← class name_idx
  super ← super_class flags name
  n ← next_u2
  interfaces ← rows n (do i ← next_u2; class i)
  read_tables v mode flags name super interfaces

-- The result of the decoder that starts behind the pool; a pool is not there only with an error.
abbrev pub read_behind : Version → ℕ → Option ConstPool × Reader → Result DecodeError Class
read_behind v mode (o, r) = elim r.err [
  | some e ↦ err (syntax e)
  | none ↦ elim o [
    | none ↦ err no_pool
    | some p ↦ (read_class v mode (record { r = r; pool = p })).0
  ]
]

abbrev pub checked_version :
    Version → ℕ → Reader → Result VersionError Unit → Result DecodeError Class
checked_version v mode r (ok u) = read_behind v mode (read_pool v.major r)
checked_version v mode r (err e) = err (bad_version e)
checked_version v mode r stuck = stuck

abbrev pub read_version : ℕ → Reader → Result DecodeError Class
read_version mode r =
    let (minor, r1) = read_u2 r in
    let (major, r2) = read_u2 r1 in
    elim r2.err [
      | some e ↦ err (syntax e)
      | none ↦
          checked_version (record { major = major; minor = minor }) mode r2
            (check (has_mode mode allow_preview) (record { major = major; minor = minor }))
    ]

-- `read`
unfoldable pub read : List ℕ → ℕ → Result DecodeError Class
unfolding read_u4 read_u2 check read_pool read_class
read b mode =
    let (m, r) = read_u4 (record { b = b; off = 0; err = none }) in
    if not (m == magic)
    then (elim r.err [ none ↦ err bad_magic | some e ↦ err (syntax e) ])
    else read_version mode r
