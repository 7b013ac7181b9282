-- ===== src/Analyzer/Flow/Digits.antt =====
-- The binary digits of numbers, and what the bit operations do to them.
use mocha.Prelude.{
  ap, arith, bit_and, bit_or, refl, suc, zero, ℕ, ◌%◌, ◌*◌, ◌-◌, ◌/◌, ◌<◌, ◌^◌, ◌∙◌, ◌≡◌, ◌≢◌, ◌≤◌,
}
use mocha.Prelude.Bits.{bit_and-digit, bit_or-digit}
use Prim.Native.Nat.{min, max}
use native.Mathlib.Nat.{pow-suc}

abbrev pub digit : ℕ → ℕ → ℕ
digit zero x = x % 2
digit (suc k) x = digit k (x / 2)

pub digit-lt : (k x : ℕ) → digit k x < 2
digit-lt zero x = omega arith
digit-lt (suc k) x = digit-lt k (x / 2)

half-pow : (k : ℕ) → (2 ^ suc k / 2 ≡ 2 ^ k) × (2 ^ suc k % 2 ≡ 0)
half-pow k = (omega (arith, pow-suc 2 k), omega (arith, pow-suc 2 k))

pub digit-zero : (k : ℕ) → digit k 0 ≡ 0
digit-zero zero = refl
digit-zero (suc k) = digit-zero k

bit_and-zero : (n x : ℕ) → x ≤ n → bit_and x 0 ≡ 0
bit_and-zero n zero h = refl
bit_and-zero zero (suc x) h = absurd (omega arith)
bit_and-zero (suc n) (suc x) h =
    omega (arith, bit_and-digit (suc x) 0, bit_and-zero n (suc x / 2) (omega arith))

pub bit_and-pow : (k x : ℕ) → bit_and x (2 ^ k) ≡ digit k x * 2 ^ k
bit_and-pow zero x = omega (arith, bit_and-digit x 1, bit_and-zero (x / 2) (x / 2) (omega arith))
bit_and-pow (suc k) x =
    let (half, even) = half-pow k in
    let inner : bit_and (x / 2) (2 ^ suc k / 2) ≡ digit k (x / 2) * 2 ^ k =
      rw half (bit_and-pow k (x / 2)) in
    let double : digit k (x / 2) * 2 ^ suc k ≡ digit k (x / 2) * 2 ^ k * 2 =
      omega (arith, ap (λ (t : ℕ). digit k (x / 2) * t) (pow-suc 2 k)) in
    omega (arith, bit_and-digit x (2 ^ suc k), even, inner, double)

pub digit-bit_or : (k a b : ℕ) → digit k (bit_or a b) ≡ max (digit k a) (digit k b)
digit-bit_or zero a b = ground (arith, bit_or-digit a b)
digit-bit_or (suc k) a b =
    let half : bit_or a b / 2 ≡ bit_or (a / 2) (b / 2) = ground (arith, bit_or-digit a b) in
    ap (digit k) half ∙ digit-bit_or k (a / 2) (b / 2)

pub digit-bit_and : (k a b : ℕ) → digit k (bit_and a b) ≡ min (digit k a) (digit k b)
digit-bit_and zero a b = ground (arith, bit_and-digit a b)
digit-bit_and (suc k) a b =
    let half : bit_and a b / 2 ≡ bit_and (a / 2) (b / 2) = ground (arith, bit_and-digit a b) in
    ap (digit k) half ∙ digit-bit_and k (a / 2) (b / 2)

pub digit-pow_self : (k : ℕ) → digit k (2 ^ k) ≡ 1
digit-pow_self zero = refl
digit-pow_self (suc k) = ap (digit k) (half-pow k).0 ∙ digit-pow_self k

pub digit-pow_ne : (j k : ℕ) → j ≢ k → digit j (2 ^ k) ≡ 0
digit-pow_ne zero zero other = absurd (other refl)
digit-pow_ne zero (suc k) other = (half-pow k).1
digit-pow_ne (suc j) zero other = digit-zero j
digit-pow_ne (suc j) (suc k) other =
    ap (digit j) (half-pow k).0 ∙ digit-pow_ne j k (λ e. other (ap suc e))

pub digit-complement : (n k x : ℕ) → k < n → x < 2 ^ n → digit k (2 ^ n - 1 - x) ≡ 1 - digit k x
digit-complement zero k x low small = absurd (omega arith)
digit-complement (suc n) zero x low small = omega (arith, pow-suc 2 n)
digit-complement (suc n) (suc k) x low small =
    let half : (2 ^ suc n - 1 - x) / 2 ≡ 2 ^ n - 1 - x / 2 = omega (arith, pow-suc 2 n) in
    ap (digit k) half ∙ digit-complement n k (x / 2) (omega arith) (omega (arith, pow-suc 2 n))

-- Numbers of n digits are equal when their digits are.
pub digit-ext :
    (n a b : ℕ) → a < 2 ^ n → b < 2 ^ n → ((k : ℕ) → k < n → digit k a ≡ digit k b) → a ≡ b
digit-ext zero a b ha hb same = omega arith
digit-ext (suc n) a b ha hb same = omega (
  arith,
  digit-ext n (a / 2) (b / 2) (omega (arith, pow-suc 2 n)) (omega (arith, pow-suc 2 n))
      (λ k h. same (suc k) (omega arith)),
  same 0 (omega arith),
)

-- What fits in n digits stays there.
pub digits-fit : (n a b : ℕ) → a < 2 ^ n → b < 2 ^ n → (bit_or a b < 2 ^ n) × (bit_and a b < 2 ^ n)
digits-fit zero a b ha hb =
    let none_in : bit_and a b ≡ 0 = ap (bit_and a) (omega arith) ∙ bit_and-zero a a (omega arith) in
    (ground (arith, bit_or-digit a b), omega (arith, none_in))
digits-fit (suc n) a b ha hb =
    let (both, common) =
      digits-fit n (a / 2) (b / 2) (omega (arith, pow-suc 2 n)) (omega (arith, pow-suc 2 n)) in
    (ground (arith, bit_or-digit a b, pow-suc 2 n), ground (arith, bit_and-digit a b, pow-suc 2 n))
