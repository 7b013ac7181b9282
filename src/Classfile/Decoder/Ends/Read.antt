-- ===== src/Classfile/Decoder/Ends/Read.antt =====
-- classfile/classfile.go: `read` returns on every input.
use mocha.Prelude.{
  Bool, List, Option, Result, [], arith, err, false, if◌then◌else◌, none, not, ok, refl, some,
  stuck, true, ℕ, ◌&&◌, ◌==◌, ◌≢◌,
}
use mocha.Classfile.Attr.{Attrs, loc_class, loc_field, loc_method}
use mocha.Classfile.Builder.{has_flags, object_name}
use mocha.Classfile.Builder.Bytes.{magic}
use mocha.Classfile.ConstPool.{ConstPool, read_pool}
use mocha.Classfile.ConstPool.Resolve.{is_text}
use mocha.Classfile.Decoder.{
  Context, D, DecodeError, allow_preview, bad_magic, give, has_mode, next_u2, no_pool,
  super_missing, syntax, utf8, ◌>>=◌,
}
use mocha.Classfile.Decoder.ClassFile.{
  Class, acc_module, checked_version, class_with, read, read_behind, read_class, read_tables,
  read_version, super_class, whole_file,
}
use mocha.Classfile.Decoder.Ends.{IsEnding, bind-IsEnding, ending, give-IsEnding, refuse-IsEnding}
use mocha.Classfile.Decoder.Ends.Depth.{attributes-IsEnding, if-IsEnding}
use mocha.Classfile.Decoder.Members.{
  Field, Method, field_info, field_with, hoist_field, hoist_method, members, method_info,
  method_with, methods,
}
use mocha.Classfile.Decoder.Rules.{rows-Has}
use mocha.Classfile.Version.{Version, VersionError, check}
use mocha.Classfile.Wire.{Reader, SyntaxError, read_u2, read_u4}

next_u2-then : {A : Type 0} {f : ℕ → D A} → ((i : ℕ) → IsEnding (f i)) → IsEnding (next_u2 >>= f)
unfolding ending
next_u2-then = bind-IsEnding ending.reading_u2

text-then :
    {A : Type 0} {f : List ℕ → D A} (i : ℕ)
    → ((s : List ℕ) → IsEnding (f s))
    → IsEnding (utf8 i >>= f)
unfolding ending
text-then i = bind-IsEnding (ending.text_at i)

field_info-IsEnding : (cx : Context) (loc : ℕ) → IsEnding (field_info cx loc)
unfolding field_info
field_info-IsEnding cx loc = next_u2-then λ flags. next_u2-then λ i. text-then i λ name.
    next_u2-then λ j. text-then j λ descriptor.
      bind-IsEnding (attributes-IsEnding cx loc)
        λ ats. give-IsEnding (hoist_field ats (field_with flags name descriptor ats))

method_info-IsEnding : (cx : Context) → IsEnding (method_info cx)
unfolding method_info
method_info-IsEnding cx = next_u2-then λ flags. next_u2-then λ i. text-then i λ name.
    next_u2-then λ j. text-then j λ descriptor.
      bind-IsEnding (attributes-IsEnding cx loc_method)
        λ ats. give-IsEnding (hoist_method ats (method_with flags name descriptor ats))

members-IsEnding : (cx : Context) (loc : ℕ) → IsEnding (members cx loc)
unfolding members ending
members-IsEnding cx loc =
    next_u2-then
      λ n. bind-IsEnding (rows-Has ending n (field_info-IsEnding cx loc)) ending.finishing

methods-IsEnding : (cx : Context) → IsEnding (methods cx)
unfolding methods ending
methods-IsEnding cx =
    next_u2-then λ n. bind-IsEnding (rows-Has ending n (method_info-IsEnding cx)) ending.finishing

super_class-IsEnding : (flags : ℕ) (name : List ℕ) → IsEnding (super_class flags name)
unfolding super_class ending
super_class-IsEnding flags name = next_u2-then λ i.
    if-IsEnding (not (i == 0)) (ending.class_name_at i) (
      if-IsEnding (not (is_text name object_name) && not (has_flags flags acc_module))
        (refuse-IsEnding super_missing) (give-IsEnding []))

whole_file-IsEnding : IsEnding whole_file
unfolding whole_file
whole_file-IsEnding = record { run = λ d h. ground arith }

class_with-IsEnding :
    (v : Version) (flags : ℕ) (name super : List ℕ) (interfaces : List (List ℕ)) (fs : List Field)
    (ms : List Method) (ats : Attrs)
    → IsEnding (class_with v flags name super interfaces fs ms ats)
unfolding class_with give
class_with-IsEnding v flags name super interfaces fs ms ats = record { run = λ d h. cc }

abbrev context : Version → ℕ → Context
context v mode = record { major = v.major; mode = mode }

read_tables-IsEnding :
    (v : Version) (mode flags : ℕ) (name super : List ℕ) (interfaces : List (List ℕ))
    → IsEnding (read_tables v mode flags name super interfaces)
unfolding read_tables ending
read_tables-IsEnding v mode flags name super interfaces =
    bind-IsEnding (members-IsEnding (context v mode) loc_field) λ fs.
      bind-IsEnding (methods-IsEnding (context v mode)) λ ms.
        bind-IsEnding (attributes-IsEnding (context v mode) loc_class) λ ats.
          bind-IsEnding whole_file-IsEnding
            λ u. class_with-IsEnding v flags name super interfaces fs ms ats

read_class-IsEnding : (v : Version) (mode : ℕ) → IsEnding (read_class v mode)
unfolding read_class ending
read_class-IsEnding v mode = next_u2-then λ flags. next_u2-then λ i.
    bind-IsEnding (ending.class_name_at i) λ name.
      bind-IsEnding (super_class-IsEnding flags name) λ super. next_u2-then λ n.
        bind-IsEnding (rows-Has ending n (next_u2-then ending.class_name_at))
          λ interfaces. read_tables-IsEnding v mode flags name super interfaces

check-ne-stuck : (allow : Bool) (v : Version) → check allow v ≢ stuck
unfolding check
check-ne-stuck allow v = ground arith

read_behind-ne-stuck :
    (v : Version) (mode : ℕ) (o : Option ConstPool) (r : Reader) → read_behind v mode (o, r) ≢ stuck
read_behind-ne-stuck v mode o r =
    elim r.err
      as (λ x.
        (elim x [
          | some e ↦ err (syntax e)
          | none ↦ elim o [
            | none ↦ err no_pool
            | some p ↦ (read_class v mode (record { r = r; pool = p })).0
          ]
        ])
        ≢ stuck) [
          | some e ↦ λ h. cc
          | none ↦
              elim o
                as (λ x.
                  (elim x [
                    | none ↦ err no_pool
                    | some p ↦ (read_class v mode (record { r = r; pool = p })).0
                  ])
                  ≢ stuck) [
                    | none ↦ λ h. cc
                    | some p ↦ (read_class-IsEnding v mode).run (record { r = r; pool = p })
                  ]
        ]

checked_version-ne-stuck :
    (v : Version) (mode : ℕ) (r : Reader) (c : Result VersionError Unit)
    → c ≢ stuck
    → checked_version v mode r c ≢ stuck
checked_version-ne-stuck v mode r (ok u) h =
    read_behind-ne-stuck v mode (read_pool v.major r).0 (read_pool v.major r).1
checked_version-ne-stuck v mode r (err e) h = λ g. cc
checked_version-ne-stuck v mode r stuck h = absurd (h refl)

unless-ne-stuck :
    (o : Option SyntaxError) (m : Result DecodeError Class)
    → m ≢ stuck
    → (elim o [ some e ↦ err (syntax e) | none ↦ m ]) ≢ stuck
unless-ne-stuck none m h = h
unless-ne-stuck (some e) m h = λ g. cc

read_version-ne-stuck : (mode : ℕ) (r : Reader) → read_version mode r ≢ stuck
read_version-ne-stuck mode r = unless-ne-stuck (read_u2 (read_u2 r).1).1.err _ (
    checked_version-ne-stuck (version_of r) mode (read_u2 (read_u2 r).1).1 _
      (check-ne-stuck (has_mode mode allow_preview) (version_of r)))
  where
    version_of : Reader → Version
    version_of r = record { major = (read_u2 (read_u2 r).1).0; minor = (read_u2 r).0 }

by_magic :
    (bad : Bool) (o : Option SyntaxError) (m : Result DecodeError Class)
    → m ≢ stuck
    → (if bad then (elim o [ none ↦ err bad_magic | some e ↦ err (syntax e) ]) else m) ≢ stuck
by_magic true none m h = λ g. cc
by_magic true (some e) m h = λ g. cc
by_magic false o m h = h

-- `read` returns on every input and in every mode: it gives a class or an error, and no attribute that it
-- meets is nested deeper than the depth that it is read with.
pub read-ne-stuck : (b : List ℕ) (mode : ℕ) → read b mode ≢ stuck
unfolding read
read-ne-stuck b mode =
    by_magic (not ((read_u4 (record { b = b; off = 0; err = none })).0 == magic)) _ _
      (read_version-ne-stuck mode (read_u4 (record { b = b; off = 0; err = none })).1)
