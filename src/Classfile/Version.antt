-- ===== src/Classfile/Version.antt =====
-- classfile/version.go: the version of a class file, and whether it is read.
mod Tests
use mocha.Prelude.{
  Bool, Result, arith, err, if◌then◌else◌, leb, ltb, not, ok, true, ℕ, ◌&&◌, ◌==◌, ◌||◌, ◌↔◌, ◌≡◌,
  ◌≤◌, ◌⊎◌,
}

pub record Version : Type 0 where
  pub major : ℕ
  pub minor : ℕ

abbrev java_1_0 : ℕ
java_1_0 = 45

abbrev java_25 : ℕ
java_25 = 69

abbrev java_26 : ℕ
java_26 = 70

abbrev preview_minor : ℕ
preview_minor = 65535

abbrev max_supported : Version
max_supported = record { major = java_26; minor = 0 }

abbrev preview_release : ℕ
preview_release = java_25

abbrev preview : Version → Bool
preview v = v.minor == preview_minor

abbrev at_least : Version → ℕ → Bool
at_least v major = leb major v.major

pub data VersionError : Type 0 where
  unsupported illegal_minor other_preview preview_refused : VersionError

abbrev check_preview : Bool → Version → Result VersionError Unit
check_preview allow_preview v =
    if not (v.major == preview_release)
    then err other_preview
    else if not allow_preview
    then err preview_refused
    else ok tt

unfoldable pub check : Bool → Version → Result VersionError Unit
check allow_preview v =
    if ltb v.major java_1_0 || ltb max_supported.major v.major
    then err unsupported
    else if leb 56 v.major && not (v.minor == 0) && not (v.minor == preview_minor)
    then err illegal_minor
    else if preview v
    then check_preview allow_preview v
    else ok tt

-- The rules that `check` applies, for a reader of the releases up to 26. They are not quite those of
-- the class file format, in which 65535 is an ordinary minor number below major 56.
pub record IsReadable (allow_preview : Bool) (v : Version) : Type 0 where
  pub known : (45 ≤ v.major) × (v.major ≤ 70)
  pub minor_ok : 56 ≤ v.major → (v.minor ≡ 0) ⊎ (v.minor ≡ 65535)
  pub preview_ok : v.minor ≡ 65535 → (v.major ≡ 69) × (allow_preview ≡ true)

sound :
    (allow_preview : Bool) (v : Version)
    → check allow_preview v ≡ ok tt
    → IsReadable allow_preview v
unfolding check
sound allow_preview v h = record {
  known = ground arith;
  minor_ok = λ up. ground arith;
  preview_ok = λ e. ground arith;
}

complete :
    (allow_preview : Bool) (v : Version)
    → IsReadable allow_preview v
    → check allow_preview v ≡ ok tt
unfolding check
complete allow_preview v r = ground (arith, r.known, r.minor_ok, r.preview_ok)

-- A version is accepted exactly when its major number is 45 to 70, its minor number is 0 or 65535 from
-- major 56 on, and a minor number of 65535 comes with major 69 and the permission to read previews, so
-- that 65535 is refused below major 56 also.
pub check_iff :
    (allow_preview : Bool) (v : Version)
    → (check allow_preview v ≡ ok tt) ↔ IsReadable allow_preview v
check_iff allow_preview v = (sound allow_preview v, complete allow_preview v)
