-- ===== src/Jvm/Mutf8.antt =====
-- jvm/mutf8/mutf8.go: the modified UTF-8 of class files. A byte slice is a list of numbers, and a
-- Go string is the list of its runes; what `utf16` and `utf8` supply is written out.
pub mod Bytes
pub mod Encode
pub mod Decode
pub mod RoundTrip
pub mod Canonical
mod Tests
use mocha.Prelude.{
  ℕ, zero, suc, ◌+◌, ◌-◌, ◌*◌, ◌/◌, ◌%◌, ◌^◌, ◌<◌, ◌≤◌, bit_and, bit_or, ◌⊎◌, Bool, true, false,
  not, ◌&&◌, ◌||◌, List, [], ◌∷◌, ◌++◌, leb, ltb, ◌==◌, if◌then◌else◌, ◌<<<◌, ◌>>>◌, length, drop,
  Result, ok, err, stuck, ◌>>=◌,
}

pub data Reason : Type 0 where
  nul_byte truncated_two bad_continuation overlong_two : Reason
  truncated_three overlong_three four_byte : Reason

pub record SyntaxError : Type 0 where
  pub off : ℕ
  pub byte : ℕ
  pub msg : Reason

abbrev pub rune_error : ℕ
rune_error = 0xFFFD

-- `utf16.IsSurrogate`
abbrev pub is_surrogate : ℕ → Bool
is_surrogate r = leb 0xD800 r && ltb r 0xE000

-- `utf16.DecodeRune`
unfoldable pub decode_rune : ℕ → ℕ → ℕ
decode_rune r1 r2 =
    if leb 0xD800 r1 && ltb r1 0xDC00 && leb 0xDC00 r2 && ltb r2 0xE000
    then bit_or ((r1 - 0xD800) <<< 10) (r2 - 0xDC00) + 0x10000
    else rune_error

-- `utf16.EncodeRune`
unfoldable pub encode_rune : ℕ → ℕ × ℕ
encode_rune r =
    if leb 0x10000 r && leb r 0x10FFFF
    then (0xD800 + bit_and ((r - 0x10000) >>> 10) 0x3FF, 0xDC00 + bit_and (r - 0x10000) 0x3FF)
    else (rune_error, rune_error)

fail : ℕ → ℕ → Reason → Result SyntaxError (ℕ × ℕ)
fail off byte msg = err (record { off = off; byte = byte; msg = msg })

-- `y&0xC0 == 0x80`
unfoldable pub is_continuation : ℕ → Bool
is_continuation y = bit_and y 0xC0 == 0x80

unfoldable pub two_rune : ℕ → ℕ → ℕ
two_rune x y = bit_or (bit_and x 0x1F <<< 6) (bit_and y 0x3F)

unfoldable pub three_rune : ℕ → ℕ → ℕ → ℕ
three_rune x y z = bit_or (bit_or (bit_and x 0x0F <<< 12) (bit_and y 0x3F <<< 6)) (bit_and z 0x3F)

-- The two-byte case of the switch, at offset `i` on `x` and the bytes behind it. The result is the
-- rune written and the number of bytes taken.
unfoldable pub two_byte : ℕ → ℕ → List ℕ → Result SyntaxError (ℕ × ℕ)
unfolding fail is_continuation two_rune
two_byte i x [] = fail i x truncated_two
two_byte i x (y ∷ rest) =
    if not (is_continuation y)
    then fail (i + 1) y bad_continuation
    else if not (two_rune x y == 0) && ltb (two_rune x y) 0x80
    then fail i x overlong_two
    else ok (two_rune x y, 2)

-- What the surrogate `r` pairs with, if three bytes follow that spell its other half.
unfoldable pub pair_with : ℕ → List ℕ → ℕ
unfolding is_continuation three_rune decode_rune
pair_with r [] = rune_error
pair_with r (x ∷ []) = rune_error
pair_with r (x ∷ y ∷ []) = rune_error
pair_with r (x ∷ y ∷ z ∷ rest) =
    if bit_and x 0xF0 == 0xE0 && is_continuation y && is_continuation z
    then decode_rune r (three_rune x y z)
    else rune_error

-- A rune of three bytes: a surrogate is paired, or else replaced.
unfoldable pub three_value : ℕ → List ℕ → ℕ × ℕ
unfolding pair_with
three_value r rest =
    if is_surrogate r
    then if not (pair_with r rest == rune_error) then (pair_with r rest, 6) else (rune_error, 3)
    else (r, 3)

unfoldable pub three_byte : ℕ → ℕ → List ℕ → Result SyntaxError (ℕ × ℕ)
unfolding fail is_continuation three_rune three_value
three_byte i x [] = fail i x truncated_three
three_byte i x (y ∷ []) = fail i x truncated_three
three_byte i x (y ∷ z ∷ rest) =
    if not (is_continuation y) || not (is_continuation z)
    then fail (i + 1) 0 bad_continuation
    else if ltb (three_rune x y z) 0x800
    then fail i x overlong_three
    else ok (three_value (three_rune x y z) rest)

-- One round of the loop of `Decode`.
unfoldable pub decode_step : ℕ → ℕ → List ℕ → Result SyntaxError (ℕ × ℕ)
unfolding fail two_byte three_byte
decode_step i x rest =
    if x == 0
    then fail i x nul_byte
    else if ltb x 0x80
    then ok (x, 1)
    else if bit_and x 0xE0 == 0xC0
    then two_byte i x rest
    else if bit_and x 0xF0 == 0xE0
    then three_byte i x rest
    else fail i x four_byte

unfoldable pub decode_loop : ℕ → ℕ → List ℕ → Result SyntaxError (List ℕ)
unfolding decode_step
decode_loop fuel i [] = ok []
decode_loop zero i (x ∷ rest) = stuck
decode_loop (suc fuel) i (x ∷ rest) = do
  (r, n) ← decode_step i x rest
  rs ← decode_loop fuel (i + n) (drop n (x ∷ rest))
  ok (r ∷ rs)

unfoldable pub is_simple : List ℕ → Bool
is_simple [] = true
is_simple (c ∷ b) = if c == 0 || leb 0x80 c then false else is_simple b

-- Each round takes a byte at least, so `length b` rounds are enough.
unfoldable pub decode : List ℕ → Result SyntaxError (List ℕ)
unfolding decode_loop is_simple
decode b = if is_simple b then ok b else decode_loop (length b) 0 b

-- `byte(v)` keeps the low eight bits.
abbrev byte_of : ℕ → ℕ
byte_of v = v % 256

unfoldable pub triple : ℕ → List ℕ
triple r =
    byte_of (bit_or 0xE0 (r >>> 12))
    ∷ byte_of (bit_or 0x80 (bit_and (r >>> 6) 0x3F))
    ∷ byte_of (bit_or 0x80 (bit_and r 0x3F))
    ∷ []

unfoldable pub encode_one : ℕ → List ℕ
unfolding triple encode_rune
encode_one r =
    if leb 0x01 r && leb r 0x7F
    then byte_of r ∷ []
    else if r == 0 || leb r 0x7FF
    then byte_of (bit_or 0xC0 (r >>> 6)) ∷ byte_of (bit_or 0x80 (bit_and r 0x3F)) ∷ []
    else if leb r 0xFFFF
    then triple r
    else triple (encode_rune r).0 ++ triple (encode_rune r).1

unfoldable pub encode : List ℕ → List ℕ
unfolding encode_one
encode [] = []
encode (r ∷ s) = encode_one r ++ encode s

unfoldable pub encoded_len : List ℕ → ℕ
encoded_len [] = 0
encoded_len (r ∷ s) =
    (if leb 0x01 r && leb r 0x7F
      then 1
      else if r == 0 || leb r 0x7FF
      then 2
      else if leb r 0xFFFF
      then 3
      else 6)
    + encoded_len s

abbrev pub IsByte : ℕ → Type 0
IsByte b = b < 256

-- What a rune of a Go string is: a code point that is no surrogate.
abbrev pub IsScalar : ℕ → Type 0
IsScalar r = (r < 0xD800) ⊎ ((0xE000 ≤ r) × (r < 0x110000))
