-- ===== src/Classfile/Decoder/Header.antt =====
-- classfile/classfile.go over classfile/builder.go: `read` at the names of the class.
pub mod Names
pub mod Written
pub mod Bare
mod Tests
use mocha.Prelude.{
  List, Result, [], ap, append_assoc, arith, err, if◌then◌else◌, length, none, not, ok, refl, some,
  true, ℕ, ◌%◌, ◌&&◌, ◌*◌, ◌++◌, ◌+◌, ◌<◌, ◌==◌, ◌^◌, ◌∙◌, ◌∷◌, ◌≡◌, ◌≢◌,
}
use mocha.Classfile.Builder.{has_flags, object_name}
use mocha.Classfile.Builder.Bytes.{magic}
use mocha.Classfile.Builder.Layout.{numbers}
use mocha.Classfile.ConstPool.{ConstPool, RawEntry, read_pool}
use mocha.Classfile.ConstPool.Cursor.{IsAt, IsAt-skip, cursor, read_u2-IsAt, read_u4-IsAt}
use mocha.Classfile.ConstPool.Gives.{Gives, IsOf}
use mocha.Classfile.ConstPool.Resolve.{PoolReadError, class_name_of, is_text}
use mocha.Classfile.Decoder.{
  D, DecodeError, Decoder, allow_preview, bad_magic, class, give, has_mode, in_pool, next_u2,
  reading, refuse, resolved, resume, rows, super_missing, syntax, until_done, ◌>>=◌,
}
use mocha.Classfile.Decoder.ClassFile.{
  Class, acc_module, checked_version, read, read_behind, read_class, read_tables, read_version,
  super_class,
}
use mocha.Classfile.Version.{Version, check}
use mocha.Classfile.Wire.{Reader, read_u2}
use mocha.Classfile.Wire.ReadBack.{u2_bytes, u4_bytes}
use mathlib.Core.Path.{subst}

-- The decoder at an offset of the input.
abbrev pub stands : List ℕ → ℕ → ConstPool → Decoder
stands src k q = record { r = cursor src k; pool = q }

-- A number that is read, and a name that is looked up, with the steps behind.
pub next_u2-IsAt :
    {A : Type 0} (f : ℕ → D A) (src : List ℕ) (k v : ℕ) (rest : List ℕ) (q : ConstPool)
    → v < 2 ^ 16
    → IsAt src k (u2_bytes v ++ rest)
    → (next_u2 >>= f) (stands src k q) ≡ f v (stands src (k + 2) q)
unfolding next_u2 reading ◌>>=◌
next_u2-IsAt f src k v rest q small here =
    ap (λ (x : ℕ × Reader). f x.0 (record { r = x.1; pool = q })) (read_u2-IsAt src k v rest here)
    ∙ ap (λ (n : ℕ). f n (stands src (k + 2) q)) (omega arith)

class-stands :
    (src : List ℕ) (k i : ℕ) (s : List ℕ) (q : ConstPool)
    → (class_name_of i q).0 ≡ ok s
    → class i (stands src k q) ≡ (ok s, stands src k (class_name_of i q).1)
unfolding class in_pool
class-stands src k i s q known =
    ap (λ (x : Result PoolReadError (List ℕ)). resolved (stands src k q) (x, (class_name_of i q).1))
      known

-- The steps behind a step that succeeds.
pub bind-ok :
    {A B : Type 0} (m : D A) (f : A → D B) {a : A} {d e : Decoder}
    → m d ≡ (ok a, e)
    → (m >>= f) d ≡ f a e
unfolding ◌>>=◌
bind-ok m f known = ap (resume f) known

-- `super_class` behind the index.
abbrev super_at : ℕ → List ℕ → ℕ → D (List ℕ)
super_at flags name super =
    if not (super == 0)
    then class super
    else if not (is_text name object_name) && not (has_flags flags acc_module)
    then refuse super_missing
    else give []

pub super_class-named :
    (flags : ℕ) (name : List ℕ) (src : List ℕ) (k i : ℕ) (s rest : List ℕ) (q : ConstPool)
    → i < 2 ^ 16
    → i ≢ 0
    → IsAt src k (u2_bytes i ++ rest)
    → (class_name_of i q).0 ≡ ok s
    → super_class flags name (stands src k q) ≡ (ok s, stands src (k + 2) (class_name_of i q).1)
unfolding super_class
super_class-named flags name src k i s rest q small positive here known =
    let indexed : not (i == 0) ≡ true = ground arith in
    next_u2-IsAt (super_at flags name) src k i rest q small here
    ∙ rw indexed (class-stands src (k + 2) i s q known)

pub super_class-root :
    (flags : ℕ) (name : List ℕ) (src : List ℕ) (k super : ℕ) (rest : List ℕ) (q : ConstPool)
    → super ≡ 0
    → is_text name object_name ≡ true
    → IsAt src k (u2_bytes super ++ rest)
    → super_class flags name (stands src k q) ≡ (ok [], stands src (k + 2) q)
unfolding super_class give
super_class-root flags name src k super rest q empty object here =
    next_u2-IsAt (super_at flags name) src k super rest q (omega arith) here
    ∙ rw (empty, object) refl

-- The indices of classes, which a pool of these entries gives the names of.
abbrev pub AreNamed : List RawEntry → List ℕ → List (List ℕ) → List ℕ → Type 0
AreNamed es src [] [] = Unit
AreNamed es src [] (i ∷ is) = ⊥
AreNamed es src (x ∷ xs) [] = ⊥
AreNamed es src (x ∷ xs) (i ∷ is) =
    ((i < 2 ^ 16) × Gives es src (class_name_of i) x) × AreNamed es src xs is

abbrev pub names_at_indices : ℕ → D (List (List ℕ))
names_at_indices n = rows n (next_u2 >>= class)

pub rows-IsAt :
    (es : List RawEntry) (src : List ℕ) (xs : List (List ℕ)) (is : List ℕ) (k : ℕ) (rest : List ℕ)
    (q : ConstPool)
    → AreNamed es src xs is
    → IsOf es src q
    → IsAt src k (numbers is ++ rest)
    → (q' : ConstPool) × IsOf es src q'
      × (names_at_indices (length is) (stands src k q) ≡ (ok xs, stands src (k + 2 * length is) q'))
unfolding rows give until_done
rows-IsAt es src [] [] k rest q named of here =
    (q, of, ap (λ (m : ℕ). (ok [], stands src m q)) (omega arith))
rows-IsAt es src [] (i ∷ is) k rest q named of here = absurd named
rows-IsAt es src (x ∷ xs) [] k rest q named of here = absurd named
rows-IsAt es src (x ∷ xs) (i ∷ is) k rest q ((small, known), named) of here =
    let at_i = subst (λ t. IsAt src k t) (append_assoc (u2_bytes i) (numbers is) rest) here in
    let (value, of1) = known.run q of in
    let q1 = (class_name_of i q).1 in
    let (q2, of2, more) =
      rows-IsAt es src xs is (k + 2) rest q1 named of1
        (IsAt-skip src k 2 (u2_bytes i) (numbers is ++ rest) refl at_i) in
    let entry =
      next_u2-IsAt class src k i (numbers is ++ rest) q small at_i
      ∙ class-stands src (k + 2) i x q value in
    (
      q2,
      of2,
      bind-ok (next_u2 >>= class) (λ y. names_at_indices (length is) >>= λ ys. give (y ∷ ys))
            {d = stands src k q} entry
          ∙ bind-ok (names_at_indices (length is)) (λ ys. give (x ∷ ys)) {d = stands src (k + 2) q1}
              more
          ∙ ap (λ (m : ℕ). (ok (x ∷ xs), stands src m q2)) (omega arith),
    )

pub read_class-IsAt :
    (v : Version) (mode flags this super n : ℕ) (name super_name : List ℕ) (xs : List (List ℕ))
    (src : List ℕ) (k : ℕ) (rest : List ℕ) (q q' : ConstPool) (d : Decoder)
    → flags < 2 ^ 16
    → this < 2 ^ 16
    → n < 2 ^ 16
    → IsAt src k (u2_bytes flags ++ (u2_bytes this ++ (u2_bytes super ++ (u2_bytes n ++ rest))))
    → (class_name_of this q).0 ≡ ok name
    → (IsAt src (k + 2 + 2) (u2_bytes super ++ (u2_bytes n ++ rest))
        → super_class flags name (stands src (k + 2 + 2) (class_name_of this q).1)
          ≡ (ok super_name, stands src (k + 2 + 2 + 2) q'))
    → (IsAt src (k + 2 + 2 + 2 + 2) rest
        → names_at_indices n (stands src (k + 2 + 2 + 2 + 2) q') ≡ (ok xs, d))
    → read_class v mode (stands src k q) ≡ read_tables v mode flags name super_name xs d
unfolding read_class
read_class-IsAt v mode flags this super n name super_name xs src k rest q q' d hf ht hn here known
      behind listed =
    let counted = u2_bytes n ++ rest in
    let at_this =
      IsAt-skip src k 2 (u2_bytes flags) (u2_bytes this ++ (u2_bytes super ++ counted)) refl here in
    let at_super =
      IsAt-skip src (k + 2) 2 (u2_bytes this) (u2_bytes super ++ counted) refl at_this in
    let at_count = IsAt-skip src (k + 2 + 2) 2 (u2_bytes super) counted refl at_super in
    let at_list = IsAt-skip src (k + 2 + 2 + 2) 2 (u2_bytes n) rest refl at_count in
    let listing : ℕ → List ℕ → List ℕ → ℕ → D Class =
      λ fl x s m. names_at_indices m >>= λ ys. read_tables v mode fl x s ys in
    let counting : ℕ → List ℕ → List ℕ → D Class = λ fl x s. next_u2 >>= listing fl x s in
    let named : ℕ → List ℕ → D Class = λ fl x. super_class fl x >>= counting fl x in
    let flagged : ℕ → D Class = λ fl. next_u2 >>= λ i. class i >>= named fl in
    next_u2-IsAt flagged src k flags (u2_bytes this ++ (u2_bytes super ++ counted)) q hf here
    ∙ next_u2-IsAt (λ i. class i >>= named flags) src (k + 2) this (u2_bytes super ++ counted) q ht
        at_this
    ∙ bind-ok (class this) (named flags) {d = stands src (k + 2 + 2) q}
        (class-stands src (k + 2 + 2) this name q known)
    ∙ bind-ok (super_class flags name) (counting flags name)
        {d = stands src (k + 2 + 2) (class_name_of this q).1} (behind at_super)
    ∙ next_u2-IsAt (listing flags name super_name) src (k + 2 + 2 + 2) n rest q' hn at_count
    ∙ bind-ok (names_at_indices n) (λ ys. read_tables v mode flags name super_name ys)
        {d = stands src (k + 2 + 2 + 2 + 2) q'} (listed at_list)

-- What `read_version` does with its two numbers.
abbrev versioned : ℕ → ℕ → ℕ × Reader → Result DecodeError Class
versioned mode minor (major, r) = elim r.err [
  | some e ↦ err (syntax e)
  | none ↦
      checked_version (record { major = major; minor = minor }) mode r
        (check (has_mode mode allow_preview) (record { major = major; minor = minor }))
]

pub read_version-IsAt :
    (mode : ℕ) (v : Version) (src : List ℕ) (k k' minor major : ℕ) (rest : List ℕ) (q : ConstPool)
    → minor % 2 ^ 16 ≡ v.minor
    → major % 2 ^ 16 ≡ v.major
    → IsAt src k (u2_bytes minor ++ (u2_bytes major ++ rest))
    → check (has_mode mode allow_preview) v ≡ ok tt
    → read_pool v.major (cursor src (k + 2 + 2)) ≡ (some q, cursor src k')
    → read_version mode (cursor src k) ≡ (read_class v mode (stands src k' q)).0
read_version-IsAt mode v src k k' minor major rest q minor_is major_is here readable pool_is =
    let at_major = IsAt-skip src k 2 (u2_bytes minor) (u2_bytes major ++ rest) refl here in
    let checks : Version → Result DecodeError Class = λ x.
      checked_version x mode (cursor src (k + 2 + 2)) (check (has_mode mode allow_preview) x) in
    ap (λ (x : ℕ × Reader). versioned mode x.0 (read_u2 x.1))
      (read_u2-IsAt src k minor (u2_bytes major ++ rest) here)
    ∙ ap (versioned mode (minor % 2 ^ 16)) (read_u2-IsAt src (k + 2) major rest at_major)
    ∙ ap (λ (m : ℕ). checks (record { major = m; minor = minor % 2 ^ 16 })) major_is
    ∙ ap (λ (m : ℕ). checks (record { major = v.major; minor = m })) minor_is
    ∙ ap (checked_version v mode (cursor src (k + 2 + 2))) readable
    ∙ ap (read_behind v mode) pool_is

pub read-IsAt :
    (mode : ℕ) (src rest : List ℕ)
    → IsAt src 0 (u4_bytes magic ++ rest)
    → read src mode ≡ read_version mode (cursor src 4)
unfolding read
read-IsAt mode src rest here =
    ap
      (λ (x : ℕ × Reader).
        if not (x.0 == magic)
        then (elim x.1.err [ none ↦ err bad_magic | some e ↦ err (syntax e) ])
        else read_version mode x.1)
      (read_u4-IsAt src 0 magic rest here)
