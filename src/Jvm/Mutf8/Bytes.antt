-- ===== src/Jvm/Mutf8/Bytes.antt =====
-- The masks of the encoding as arithmetic on one byte.
use mocha.Prelude.{
  ==_iff, arith, bit_and, bit_or, refl, true, ℕ, ◌%◌, ◌*◌, ◌+◌, ◌-◌, ◌/◌, ◌<◌, ◌==◌, ◌≡◌, ◌≤◌, ◌⊎◌,
}
use mocha.Jvm.Mutf8.{decode_rune, encode_rune, three_rune, two_rune}
use mocha.Prelude.Bits.{bit_and_mask, bit_or_field, holds_below, holds_below_sound}

module _ (f g : ℕ → ℕ) where
  agree : (n : ℕ) → holds_below n (λ b. f b == g b) ≡ true → (b : ℕ) → b < n → f b ≡ g b
  agree n h b lt = (==_iff _ _).0 (holds_below_sound n _ h b lt)

pub top_two : (b : ℕ) → b < 256 → bit_and b 0xC0 ≡ b / 64 * 64
unfolding holds_below
top_two = agree _ _ 256 refl

pub top_three : (b : ℕ) → b < 256 → bit_and b 0xE0 ≡ b / 32 * 32
unfolding holds_below
top_three = agree _ _ 256 refl

pub top_four : (b : ℕ) → b < 256 → bit_and b 0xF0 ≡ b / 16 * 16
unfolding holds_below
top_four = agree _ _ 256 refl

pub low_four : (b : ℕ) → bit_and b 0x0F ≡ b % 16
low_four b = bit_and_mask 4 b

pub low_five : (b : ℕ) → bit_and b 0x1F ≡ b % 32
low_five b = bit_and_mask 5 b

pub low_six : (b : ℕ) → bit_and b 0x3F ≡ b % 64
low_six b = bit_and_mask 6 b

pub low_ten : (b : ℕ) → bit_and b 0x3FF ≡ b % 1024
low_ten b = bit_and_mask 10 b

pub mark_six : (a : ℕ) → a < 64 → bit_or 0x80 a ≡ 128 + a
mark_six a h = bit_or_field 6 2 a h

pub mark_two : (a : ℕ) → a < 32 → bit_or 0xC0 a ≡ 192 + a
mark_two a h = bit_or_field 5 6 a h

pub mark_three : (a : ℕ) → a < 16 → bit_or 0xE0 a ≡ 224 + a
mark_three a h = bit_or_field 4 14 a h

-- The runes that two and three bytes spell.
pub two_rune_value : (x y : ℕ) → two_rune x y ≡ x % 32 * 64 + y % 64
unfolding two_rune
two_rune_value x y = omega (
  arith,
  low_five x,
  low_six y,
  bit_or_field 6 (bit_and x 0x1F) (bit_and y 0x3F) (omega (arith, low_six y)),
)

pub three_rune_value : (x y z : ℕ) → three_rune x y z ≡ x % 16 * 4096 + y % 64 * 64 + z % 64
unfolding three_rune
three_rune_value x y z = rw (low_four x, low_six y, low_six z, high, whole) (omega arith)
  where
    high : bit_or (x % 16 * 4096) (y % 64 * 64) ≡ (x % 16 * 64 + y % 64) * 64
    high = omega (arith, bit_or_field 12 (x % 16) (y % 64 * 64) (omega arith))

    whole : bit_or ((x % 16 * 64 + y % 64) * 64) (z % 64) ≡ (x % 16 * 64 + y % 64) * 64 + z % 64
    whole = bit_or_field 6 (x % 16 * 64 + y % 64) (z % 64) (omega arith)

-- The halves of a supplementary code point.
pub encode_rune_value :
    (r : ℕ)
    → 0x10000 ≤ r
    → r ≤ 0x10FFFF
    → encode_rune r ≡ (0xD800 + (r - 0x10000) / 1024, 0xDC00 + (r - 0x10000) % 1024)
unfolding encode_rune
encode_rune_value r lo hi = ground (arith, low_ten ((r - 0x10000) / 1024), low_ten (r - 0x10000))

pub decode_rune_value :
    (h l : ℕ) → h < 1024 → l < 1024 → decode_rune (0xD800 + h) (0xDC00 + l) ≡ h * 1024 + l + 0x10000
unfolding decode_rune
decode_rune_value h l hh hl = ground (arith, bit_or_field 10 h l hl)

-- A pair is a supplementary code point, or it is no pair.
pub decode_rune_range :
    (r1 r2 : ℕ)
    → (decode_rune r1 r2 ≡ 0xFFFD)
      ⊎ ((0x10000 ≤ decode_rune r1 r2) × (decode_rune r1 r2 < 0x110000))
unfolding decode_rune
decode_rune_range r1 r2 =
    ground (arith, λ (p : r2 - 0xDC00 < 1024). bit_or_field 10 (r1 - 0xD800) (r2 - 0xDC00) p)
