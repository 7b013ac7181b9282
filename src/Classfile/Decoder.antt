-- ===== src/Classfile/Decoder.antt =====
-- classfile/decoder.go: the state of the decoder and the steps that it is made of. A resolver of the
-- pool may keep a text, so the pool is part of the state; a sub-decoder shares it.
pub mod Bodies
pub mod Attributes
pub mod Members
pub mod ClassFile
pub mod Checks
pub mod BodyRules
pub mod Rules
pub mod Steady
pub mod LeftOver
pub mod Ends
pub mod Header
pub mod Framing
mod Tests
use mocha.Prelude.{
  Bool, List, Result, [], bit_and, err, if◌then◌else◌, length, none, not, ok, some, stuck, suc,
  zero, ℕ, ◌-◌, ◌==◌, ◌∷◌,
}
use mocha.Classfile.Builder.{B}
use mocha.Classfile.ConstPool.{ConstPool}
use mocha.Classfile.ConstPool.Resolve.{L, PoolReadError, class_name_of, utf8_text}
use mocha.Classfile.Version.{VersionError}
use mocha.Classfile.Wire.{Reader, SyntaxError, read_bytes, read_u1, read_u2, read_u4}

-- `version` and `mode`, which no step changes. Only the major version is asked for.
pub record Context : Type 0 where
  pub major : ℕ
  pub mode : ℕ

abbrev pub skip_code : ℕ
skip_code = 2

abbrev pub skip_debug : ℕ
skip_debug = 4

abbrev pub keep_raw : ℕ
keep_raw = 8

abbrev pub allow_preview : ℕ
allow_preview = 16

-- `mode&flag != 0`
abbrev pub has_mode : ℕ → ℕ → Bool
has_mode mode flag = not (bit_and mode flag == 0)

pub data DecodeError : Type 0 where
  syntax : SyntaxError → DecodeError
  unresolved : PoolReadError → DecodeError
  left_over : ℕ → ℕ → DecodeError
  bad_constant_value empty_code code_too_long bad_magic no_pool super_missing : DecodeError
  bad_version : VersionError → DecodeError
  trailing : ℕ → DecodeError

pub record Decoder : Type 0 where
  pub r : Reader
  pub pool : ConstPool

abbrev pub D : Type 0 → Type 0
D A = Decoder → Result DecodeError A × Decoder

unfoldable pub give : {A : Type 0} → A → D A
give a d = (ok a, d)

unfoldable pub refuse : {A : Type 0} → DecodeError → D A
refuse e d = (err e, d)

abbrev pub resume :
    {A B : Type 0} → (A → D B) → Result DecodeError A × Decoder → Result DecodeError B × Decoder
resume f (ok a, d) = f a d
resume f (err e, d) = (err e, d)
resume f (stuck, d) = (stuck, d)

infixl 5 ◌>>=◌
unfoldable pub ◌>>=◌ : {A B : Type 0} → D A → (A → D B) → D B
◌>>=◌ m f d = resume f (m d)

-- A read of the cursor; a failed one answers zero and leaves its error behind.
unfoldable pub reading : {A : Type 0} → (Reader → A × Reader) → D A
reading f d = (ok (f d.r).0, record d { r = (f d.r).1 })

unfoldable pub next_u1 : D ℕ
unfolding reading read_u1
next_u1 = reading read_u1

unfoldable pub next_u2 : D ℕ
unfolding reading read_u2
next_u2 = reading read_u2

unfoldable pub next_u4 : D ℕ
unfolding reading read_u4
next_u4 = reading read_u4

-- `bytes(int(length))`, where an `int` has 64 bits.
unfoldable pub next_bytes : ℕ → D (List ℕ)
unfolding reading read_bytes
next_bytes n = reading (read_bytes (some n))

abbrev pub resolved :
    {A : Type 0} → Decoder → Result PoolReadError A × ConstPool → Result DecodeError A × Decoder
resolved d (ok a, p) = (ok a, record d { pool = p })
resolved d (err e, p) = (err (unresolved e), record d { pool = p })
resolved d (stuck, p) = (stuck, record d { pool = p })

-- A method of the pool.
unfoldable pub in_pool : {A : Type 0} → L A → D A
in_pool m d = resolved d (m d.pool)

-- `utf8`, `class`, `optClass` and `optUTF8`
unfoldable pub utf8 : ℕ → D (List ℕ)
unfolding in_pool utf8_text
utf8 i = in_pool (utf8_text i)

unfoldable pub class : ℕ → D (List ℕ)
unfolding in_pool class_name_of
class i = in_pool (class_name_of i)

unfoldable pub opt_class : ℕ → D (List ℕ)
unfolding class give
opt_class i = if i == 0 then give [] else class i

unfoldable pub opt_utf8 : ℕ → D (List ℕ)
unfolding utf8 give
opt_utf8 i = if i == 0 then give [] else utf8 i

-- What a loop does while `!d.r.done()`.
unfoldable pub until_done : {A : Type 0} → A → D A → D A
until_done a m d = elim d.r.err [ none ↦ m d | some e ↦ (ok a, d) ]

-- `for i := 0; i < n && !d.r.done(); i++`, with what each round appends
unfoldable pub rows : {A : Type 0} → ℕ → D A → D (List A)
unfolding give until_done ◌>>=◌
rows zero m = give []
rows (suc n) m = until_done [] (do x ← m; xs ← rows n m; give (x ∷ xs))

-- `return a, d.r.err`
unfoldable pub finish : {A : Type 0} → A → D A
finish a d = elim d.r.err [ none ↦ (ok a, d) | some e ↦ (err (syntax e), d) ]

-- `orErr(nil, sub)`; an explicit error has ended the steps before.
unfoldable pub or_err : {A : Type 0} → A → D A
or_err a d = elim d.r.err [
  | some e ↦ (err (syntax e), d)
  | none ↦
      if d.r.off == length d.r.b
      then (ok a, d)
      else (err (left_over d.r.off (length d.r.b - d.r.off)), d)
]

-- `&decoder{r: reader{b: body}, pool: d.pool}`, after which `d` goes on with its own reader.
abbrev pub restored :
    {A : Type 0} → Reader → Result DecodeError A × Decoder → Result DecodeError A × Decoder
restored r (x, d) = (x, record d { r = r })

unfoldable pub nested : {A : Type 0} → List ℕ → D A → D A
nested body m d = restored d.r (m (record d { r = record { b = body; off = 0; err = none } }))
