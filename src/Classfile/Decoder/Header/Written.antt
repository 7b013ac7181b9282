-- ===== src/Classfile/Decoder/Header/Written.antt =====
-- classfile/builder.go and classfile/classfile.go: the header that `Bytes` writes, read by `read`.
use mocha.Prelude.{
  All, List, [], ap, arith, length, ok, refl, sym, ℕ, ◌%◌, ◌*◌, ◌++◌, ◌+◌, ◌<◌, ◌^◌, ◌∙◌, ◌∷◌, ◌≡◌,
}
use mocha.Classfile.Builder.{Builder}
use mocha.Classfile.Builder.Bytes.{bytes}
use mocha.Classfile.Builder.ClassFile.{AreClasses, bytes-IsClassFile}
use mocha.Classfile.Builder.Interns.{Texts}
use mocha.Classfile.Builder.Layout.{IsBare, ifaces_then, no_tables, numbers, up_to_names}
use mocha.Classfile.ConstPool.{ConstPool}
use mocha.Classfile.ConstPool.Content.{IsSpelled}
use mocha.Classfile.ConstPool.Cursor.{IsAt, IsAt-skip}
use mocha.Classfile.ConstPool.Meaning.{IsKeyOf, Resolves, known_key}
use mocha.Classfile.ConstPool.Resolve.{class_name_of}
use mocha.Classfile.Decoder.{allow_preview, has_mode}
use mocha.Classfile.Decoder.ClassFile.{read, read_tables}
use mocha.Classfile.Decoder.Header.{AreNamed, names_at_indices, read_class-IsAt, rows-IsAt, stands}
use mocha.Classfile.Decoder.Header.Names.{
  IsAt-end, Setting, entries_here, header_of, name_known, names_of, names_spelled, read_entries,
  read_entries-IsOf, src, start, super_read, up_to_entries,
}
use mocha.Classfile.Pool.{Slots, emit}
use mocha.Classfile.Pool.Entries.{Denotes}
use mocha.Classfile.Pool.Keys.{Key}
use mocha.Classfile.Pool.Rules.{Inv}
use mocha.Classfile.Version.{IsReadable}
use mocha.Classfile.Wire.ReadBack.{u2_bytes}
use mocha.Jvm.Mutf8.{IsScalar}
use mathlib.Core.Path.{subst}

-- The reader has come to the tables of the class with what the builder `b` was given, and goes on there
-- with a pool in which the indices of the pool that was written resolve.
pub record ReadsOn (b d : Builder) (mode : ℕ) (out : List ℕ) : Type 0 where
  pub this : ℕ
  pub super : ℕ
  pub ifaces : List ℕ
  pub tables : List ℕ
  pub spelled : out ≡ up_to_names d this super ++ ifaces_then ifaces tables
  pub bare : IsBare b → tables ≡ no_tables
  pub behind : ℕ
  pub tables_here : IsAt out behind tables
  pub pool : ConstPool
  pub reads :
      read out mode
      ≡ (read_tables b.version mode b.flags b.name b.super b.ifaces (stands out behind pool)).0
  pub resolves :
      (k : Key)
      → IsKeyOf b.version.major k
      → (i : ℕ) → Denotes d.pool.slots k i
      → Resolves b.version.major pool k i

AreClasses-length :
    (s : Slots) (xs : List (List ℕ)) (is : List ℕ) → AreClasses s xs is → length is ≡ length xs
AreClasses-length s [] [] h = refl
AreClasses-length s [] (i ∷ is) h = absurd h
AreClasses-length s (x ∷ xs) [] h = absurd h
AreClasses-length s (x ∷ xs) (i ∷ is) (hi, h) = omega (arith, AreClasses-length s xs is h)

numbers-length : (is : List ℕ) → length (numbers is) ≡ 2 * length is
numbers-length [] = refl
numbers-length (i ∷ is) = omega (arith, numbers-length is)

module _ {b d : Builder} {this super mode : ℕ} (set : Setting b d this super mode)
    (is tables : List ℕ) (few : length is < 2 ^ 16)
    (ifaces_are : AreClasses d.pool.slots b.ifaces is) (bare : IsBare b → tables ≡ no_tables) where
  abbrev rest : List ℕ
  rest = ifaces_then is tables

  abbrev file : List ℕ
  file = src set rest

  named :
      (xs : List (List ℕ)) (js : List ℕ)
      → All (All IsScalar) xs
      → AreClasses d.pool.slots xs js
      → AreNamed (read_entries set rest).entries file xs js
  named [] [] goods h = tt
  named [] (j ∷ js) goods h = absurd h
  named (x ∷ xs) [] goods h = absurd h
  named (x ∷ xs) (j ∷ js) (good, goods) (hj, h) =
      let (positive, small, known) = name_known set rest j x good hj in
      ((small, known), named xs js goods h)

  reads_on : ReadsOn b d mode file
  reads_on =
      let p = read_entries set rest in
      let k = length (emit d.pool (header_of d)) in
      let flags = d.flags % 2 ^ 16 in
      let n = length is % 2 ^ 16 in
      let size : n ≡ length is = omega arith in
      let (positive, small, known) =
        name_known set rest this b.name set.texts.name_ok set.this_is in
      let (value, of) = known.run p (read_entries-IsOf set rest) in
      let (q, of1, super_known) =
        super_read set rest flags (k + 2 + 2) (class_name_of this p).1 of in
      let listed = u2_bytes n ++ (numbers is ++ tables) in
      let here = IsAt-end (emit d.pool (header_of d)) (names_of d this super rest) in
      let at_this =
        IsAt-skip file k 2 (u2_bytes flags) (u2_bytes this ++ (u2_bytes super ++ listed)) refl
          here in
      let at_super =
        IsAt-skip file (k + 2) 2 (u2_bytes this) (u2_bytes super ++ listed) refl at_this in
      let at_count = IsAt-skip file (k + 2 + 2) 2 (u2_bytes super) listed refl at_super in
      let at_list =
        IsAt-skip file (k + 2 + 2 + 2) 2 (u2_bytes n) (numbers is ++ tables) refl at_count in
      let j = k + 2 + 2 + 2 + 2 in
      let (q1, of2, rows_read) =
        rows-IsAt p.entries file b.ifaces is j tables q
          (named b.ifaces is set.texts.ifaces_ok ifaces_are) of1 at_list in
      let flags_eq : flags ≡ b.flags = omega (arith, set.header.flags_eq, set.flags_small) in
      record {
        this = this;
        super = super;
        ifaces = is;
        tables = tables;
        spelled = sym (names_spelled d this super rest);
        bare = bare;
        behind = j + 2 * length is;
        tables_here =
            IsAt-skip file j (2 * length is) (numbers is) tables (numbers-length is) at_list;
        pool = q1;
        reads =
            up_to_entries set rest
            ∙ ap (λ r. r.0)
                (read_class-IsAt b.version mode flags this super n b.name b.super b.ifaces file k
                  (numbers is ++ tables) p q (stands file (j + 2 * length is) q1) (omega arith)
                  small (omega arith) here value super_known
                  (λ h. ap (λ (m : ℕ). names_at_indices m (stands file j q)) size ∙ rows_read))
            ∙ ap
                (λ (m : ℕ).
                  (read_tables b.version mode m b.name b.super b.ifaces
                    (stands file (j + 2 * length is) q1)).0)
                flags_eq;
        resolves = λ key good i h.
            known_key b.version.major set.readable.known.0 d.pool file (start set rest)
              (names_of d this super rest) set.spelling set.valid.bounded (entries_here set rest) q1
              of2 key good i h;
      }

-- A file that was written is read up to its tables. `Bytes` succeeds on a builder whose pool is valid
-- and holds entries that a file of its version may hold, whose version a reader in this mode accepts,
-- whose minor version and flags are `uint16`s, which has less than 65536 interfaces, and whose texts,
-- those of its fields and methods included, are Go strings. Then `read` finds the magic number, the
-- version, the pool, the flags, the name, the superclass and the interfaces, all as the builder had
-- them, makes no error, and goes on with the fields where the tables were written; and there every
-- index of the pool that was written resolves to its constant.
pub read-bytes :
    (b : Builder) (mode : ℕ) (out : List ℕ)
    → Inv b.pool
    → IsReadable (has_mode mode allow_preview) b.version
    → b.version.minor < 2 ^ 16
    → b.flags < 2 ^ 16
    → length b.ifaces < 2 ^ 16
    → Texts (All IsScalar) b
    → IsSpelled b.version.major b.pool
    → (bytes b).0 ≡ ok out
    → ReadsOn b (bytes b).1 mode out
read-bytes b mode out valid readable minor_small flags_small few texts spelling done =
    let d = (bytes b).1 in
    let f = bytes-IsClassFile b out valid done in
    let set : Setting b d f.this f.super mode = record {
      readable = readable;
      minor_small = minor_small;
      flags_small = flags_small;
      texts = texts;
      valid = f.valid;
      header = f.header;
      spelling = f.spells b.version.major texts spelling;
      this_is = f.this_is;
      super_is = f.super_is;
    } in
    let size : length f.ifaces < 2 ^ 16 =
      omega (arith, AreClasses-length d.pool.slots b.ifaces f.ifaces f.ifaces_are) in
    subst (λ o. ReadsOn b d mode o)
      (sym (f.spelled ∙ names_spelled d f.this f.super (ifaces_then f.ifaces f.tables)))
      (reads_on set f.ifaces f.tables size f.ifaces_are f.bare)
