-- ===== src/Classfile/Decoder/Header/Tests.antt =====
-- The header of a small interface that is written and read.
use mocha.Prelude.{All, List, [], arith, ok, refl, ℕ, ◌∷◌, ◌≡◌}
use mocha.Classfile.Builder.{Builder, add_interface, new_builder, set_flags}
use mocha.Classfile.Builder.Bytes.{bytes}
use mocha.Classfile.Builder.Interns.{Texts}
use mocha.Classfile.Builder.Layout.{IsBare}
use mocha.Classfile.Builder.Members.{put, put_each, when, ◌>>>>◌}
use mocha.Classfile.ConstPool.{ConstPool}
use mocha.Classfile.ConstPool.Content.{IsSpelled}
use mocha.Classfile.ConstPool.Meaning.{IsKeyOf, Resolves}
use mocha.Classfile.ConstPool.Written.{new-IsSpelled}
use mocha.Classfile.Decoder.{allow_preview, has_mode}
use mocha.Classfile.Decoder.ClassFile.{read}
use mocha.Classfile.Decoder.Header.Bare.{bare_class, read-bytes_bare}
use mocha.Classfile.Decoder.Header.Written.{ReadsOn, read-bytes}
use mocha.Classfile.Pool.Again.{new-Inv}
use mocha.Classfile.Pool.Entries.{Denotes}
use mocha.Classfile.Pool.Keys.{Key}
use mocha.Classfile.Pool.Rules.{Inv}
use mocha.Classfile.Version.{IsReadable}
use mocha.Classfile.Wire.{u1}
use mocha.Jvm.Mutf8.{IsScalar, encode, encoded_len}

-- The interface "C", which extends "D", with Object as the superclass.
abbrev sample : Builder
sample = add_interface (b'D' ∷ []) (set_flags 0x601 (new_builder (b'C' ∷ [])))

sample-Inv : Inv sample.pool
unfolding new_builder
sample-Inv = new-Inv

abbrev out : List ℕ
out =
    0xCA ∷ 0xFE ∷ 0xBA ∷ 0xBE ∷ 0 ∷ 0 ∷ 0 ∷ 49 ∷ 0 ∷ 7 ∷ 1 ∷ 0 ∷ 1 ∷ b'C' ∷ 7 ∷ 0 ∷ 1 ∷ 1 ∷ 0 ∷ 16
    ∷ b'j' ∷ b'a' ∷ b'v' ∷ b'a' ∷ b'/' ∷ b'l' ∷ b'a' ∷ b'n' ∷ b'g' ∷ b'/' ∷ b'O' ∷ b'b' ∷ b'j'
    ∷ b'e' ∷ b'c' ∷ b't' ∷ 7 ∷ 0 ∷ 3 ∷ 1 ∷ 0 ∷ 1 ∷ b'D' ∷ 7 ∷ 0 ∷ 5 ∷ 6 ∷ 1 ∷ 0 ∷ 2 ∷ 0 ∷ 4 ∷ 0 ∷ 1
    ∷ 0 ∷ 6 ∷ 0 ∷ 0 ∷ 0 ∷ 0 ∷ 0 ∷ 0 ∷ []

sample_written : (bytes sample).0 ≡ ok out
unfolding bytes new_builder ◌>>>>◌ when put put_each encoded_len u1 encode
sample_written = refl

sample-IsSpelled : IsSpelled 49 sample.pool
unfolding new_builder
sample-IsSpelled = new-IsSpelled 49

sample-Texts : Texts (All IsScalar) sample
unfolding new_builder
sample-Texts = record {
  name_ok = omega arith;
  super_ok = omega arith;
  ifaces_ok = omega arith;
  fields_ok = tt;
  methods_ok = tt;
  source_file_ok = tt;
}

sample-IsReadable : IsReadable (has_mode 0 allow_preview) (record { major = 49; minor = 0 })
sample-IsReadable = record {
  known = (omega arith, omega arith);
  minor_ok = λ up. ground arith;
  preview_ok = λ e. ground arith;
}

read-bytes_example : ReadsOn sample (bytes sample).1 0 out
unfolding new_builder
read-bytes_example =
    read-bytes sample 0 out sample-Inv sample-IsReadable (omega arith) (omega arith) (omega arith)
      sample-Texts sample-IsSpelled sample_written

sample-IsBare : IsBare sample
unfolding new_builder
sample-IsBare = record { fields_eq = refl; methods_eq = refl; source_file_eq = refl }

read-bytes_bare_example :
    (q : ConstPool) × (read out 0 ≡ ok (bare_class sample q))
    × ((k : Key)
        → IsKeyOf sample.version.major k
        → (i : ℕ) → Denotes (bytes sample).1.pool.slots k i
        → Resolves sample.version.major q k i)
unfolding new_builder
read-bytes_bare_example =
    read-bytes_bare sample 0 out sample-IsBare sample-Inv sample-IsReadable (omega arith)
      (omega arith) (omega arith) sample-Texts sample-IsSpelled sample_written
