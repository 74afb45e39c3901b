-- ===== src/Prelude/Bits.antt =====
-- Bit operations at variables: masks on one byte by evaluation, and `|` of disjoint parts.
use Prim.Native.Nat.{
  ℕ, zero, suc, ◌+◌, ◌*◌, ◌/◌, ◌%◌, ◌^◌, ◌≤◌, ◌<◌, max, bit_and, bit_or, digits, bit_or-bitwise,
}
use mathlib.Core.Path.{◌≡◌, refl, ap}
use mathlib.Core.Bool.{Bool, true, ◌&&◌}
use native.Mathlib.Nat.{pow-suc}
use native.Mathlib.Omega.{arith}
use ai_agent_cloud_runtime.Prelude.Tests.{◌==◌, ==_iff}

-- `p` holds of `k` and of every number below it.
every_to : (ℕ → Bool) → ℕ → Bool
every_to p zero = p zero
every_to p (suc k) = every_to p k && p (suc k)

every_to-le : (p : ℕ → Bool) (k i : ℕ) → i ≤ k → every_to p k ≡ true → p i ≡ true
unfolding every_to
every_to-le p zero i le h = let none_lower : i ≡ 0 = omega arith in rw none_lower h
every_to-le p (suc k) i le h = ground (arith, every_to-le p k i)

-- the low seven bits of a byte
low_seven_table : every_to (λ b. bit_and b 0x7f == b % 128) 255 ≡ true
unfolding every_to
low_seven_table = refl

pub bit_and-low_seven : (b : ℕ) → b < 256 → bit_and b 0x7f ≡ b % 128
bit_and-low_seven b h = (==_iff _ _).0 (every_to-le _ 255 b (omega arith) low_seven_table)

-- setting the top bit of a byte
top_bit_table : every_to (λ b. bit_or b 0x80 == b % 128 + 128) 255 ≡ true
unfolding every_to
top_bit_table = refl

pub bit_or-top_bit : (b : ℕ) → b < 256 → bit_or b 0x80 ≡ b % 128 + 128
bit_or-top_bit b h = (==_iff _ _).0 (every_to-le _ 255 b (omega arith) top_bit_table)

abbrev or_digits : ℕ → ℕ → ℕ → ℕ
or_digits n a b = digits (λ b. b) max n a b

or_digits_fuel : (n m a b : ℕ) → a ≤ n → a ≤ m → or_digits n a b ≡ or_digits m a b
or_digits_fuel zero zero a b p q = refl
or_digits_fuel zero (suc m) zero b p q = refl
or_digits_fuel zero (suc m) (suc a) b p q = absurd (omega arith)
or_digits_fuel (suc n) zero zero b p q = refl
or_digits_fuel (suc n) zero (suc a) b p q = absurd (omega arith)
or_digits_fuel (suc n) (suc m) zero b p q = refl
or_digits_fuel (suc n) (suc m) (suc a) b p q =
    omega (arith, or_digits_fuel n m (suc a / 2) (b / 2) (omega arith) (omega arith))

pub zero-bit_or : (b : ℕ) → bit_or 0 b ≡ b
zero-bit_or b = bit_or-bitwise 0 b

-- the lowest digit, and the others
pub bit_or_step : (a b : ℕ) → bit_or a b ≡ bit_or (a / 2) (b / 2) * 2 + max (a % 2) (b % 2)
bit_or_step zero b = omega (arith, zero-bit_or b, zero-bit_or (b / 2))
bit_or_step (suc a) b = omega (
  arith,
  bit_or-bitwise (suc a) b,
  bit_or-bitwise (suc a / 2) (b / 2),
  or_digits_fuel a (suc a / 2) (suc a / 2) (b / 2) (omega arith) (omega arith),
)

pow_double : (s : ℕ) → 2 ^ suc s ≡ 2 ^ s * 2
pow_double s = pow-suc 2 s

-- `x | y << s` is a sum where `x` lies below bit `s`.
pub bit_or-disjoint : (s x y : ℕ) → x < 2 ^ s → bit_or x (y * 2 ^ s) ≡ x + y * 2 ^ s
bit_or-disjoint zero x y h =
    let x-zero : x ≡ 0 = omega arith in rw x-zero (omega (arith, zero-bit_or (y * 1)))
bit_or-disjoint (suc s) x y h =
    let even : y * 2 ^ suc s ≡ y * 2 ^ s * 2 =
      omega (arith, ap (λ (t : ℕ). y * t) (pow_double s)) in
    let halved : y * 2 ^ suc s / 2 ≡ y * 2 ^ s = omega arith in
    let low : x / 2 < 2 ^ s = omega (arith, pow_double s) in
    rw bit_or_step (rw halved (rw (bit_or-disjoint s (x / 2) y low) (omega arith)))
