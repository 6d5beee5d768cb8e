-- ===== src/Base/Bits.antt =====
-- `|` of disjoint fields is a sum and `&` with a low mask is a remainder, at every width.
use Prim.Native.Nat.{
  ℕ, zero, suc, ◌+◌, ◌-◌, ◌*◌, ◌/◌, ◌%◌, ◌^◌, ◌≤◌, ◌<◌, min, max, bit_and, bit_or, digits, bitwise,
  bit_and-bitwise, bit_or-bitwise,
}
use mathlib.Core.Path.{◌≡◌, refl, ap, ◌∙◌}
use native.Mathlib.Omega.{arith}
use native.Mathlib.Nat.{le_refl, pow-suc, one-le-pow}

-- One round of the digit recursion, without its fuel.
module _ (ended : ℕ → ℕ) (join : ℕ → ℕ → ℕ) where
  more_fuel : (a b n m : ℕ) → a ≤ m → a ≤ n → digits ended join n a b ≡ digits ended join m a b
  more_fuel (suc a) b (suc n) (suc m) hm hn =
      rw (more_fuel (suc a / 2) (b / 2) n m (omega arith) (omega arith))
  more_fuel (suc a) b (suc n) zero hm hn = absurd (omega arith)
  more_fuel (suc a) b zero m hm hn = absurd (omega arith)
  more_fuel zero b (suc n) (suc m) hm hn = refl
  more_fuel zero b (suc n) zero hm hn = refl
  more_fuel zero b zero (suc m) hm hn = refl
  more_fuel zero b zero zero hm hn = refl

  lowest_digit :
      (a b : ℕ)
      → bitwise ended join (suc a) b
        ≡ bitwise ended join (suc a / 2) (b / 2) * 2 + join (suc a % 2) (b % 2)
  lowest_digit a b =
      omega (arith, more_fuel (suc a / 2) (b / 2) a (suc a / 2) (le_refl _) (omega arith))

bit_and_digit : (a b : ℕ) → bit_and a b ≡ bit_and (a / 2) (b / 2) * 2 + min (a % 2) (b % 2)
bit_and_digit (suc a) b = simp bit_and-bitwise (lowest_digit (λ rest. 0) min a b)
bit_and_digit zero b = simp bit_and-bitwise (omega arith)

zero-bit_or : (b : ℕ) → bit_or 0 b ≡ b
zero-bit_or b = simp bit_or-bitwise refl

bit_or_digit : (a b : ℕ) → bit_or a b ≡ bit_or (a / 2) (b / 2) * 2 + max (a % 2) (b % 2)
bit_or_digit (suc a) b = simp bit_or-bitwise (lowest_digit (λ rest. rest) max a b)
bit_or_digit zero b = simp bit_or-bitwise (omega arith)

and_zero : (a n : ℕ) → a ≤ n → bit_and a 0 ≡ 0
and_zero (suc a) (suc n) h =
    omega (arith, bit_and_digit (suc a) 0, and_zero (suc a / 2) n (omega arith))
and_zero (suc a) zero h = absurd (omega arith)
and_zero zero n h = refl

double : (q k : ℕ) → q * 2 ^ suc k ≡ 2 * (q * 2 ^ k)
double q k = omega (arith, ap (λ (t : ℕ). q * t) (pow-suc 2 k))

-- `r | (q << k)` where `r` fits `k` bits.
pub bit_or_above : (k r q : ℕ) → r < 2 ^ k → bit_or r (q * 2 ^ k) ≡ r + q * 2 ^ k
bit_or_above zero r q h =
    let e : r ≡ 0 = omega arith in rw e (zero-bit_or (q * 2 ^ 0) ∙ omega arith)
bit_or_above (suc k) r q h = ground (
  arith,
  bit_or_digit r (q * 2 ^ suc k),
  double q k,
  pow-suc 2 k,
  bit_or_above k (r / 2) q (omega arith),
)

low_field : (k q r : ℕ) → r < 2 ^ k → bit_and (r + q * 2 ^ k) (2 ^ k - 1) ≡ r
low_field zero q r h = and_zero _ _ (le_refl _) ∙ omega arith
low_field (suc k) q r h = ground (
  arith,
  bit_and_digit (r + q * 2 ^ suc k) (2 ^ suc k - 1),
  double q k,
  pow-suc 2 k,
  one-le-pow k 2,
  low_field k q (r / 2) (omega arith),
)

-- `a & (2 ** k - 1)`
pub bit_and_low : (k a : ℕ) → bit_and a (2 ^ k - 1) ≡ a % 2 ^ k
bit_and_low k a = ground (arith, one-le-pow k 2, low_field k (a / 2 ^ k) (a % 2 ^ k))

pub bit_and_127 : (a : ℕ) → bit_and a 0x7f ≡ a % 128
bit_and_127 = bit_and_low 7

pub bit_and_15 : (a : ℕ) → bit_and a 0x0f ≡ a % 16
bit_and_15 = bit_and_low 4

pub bit_and_7 : (a : ℕ) → bit_and a 7 ≡ a % 8
bit_and_7 = bit_and_low 3

pub bit_and_3 : (a : ℕ) → bit_and a 3 ≡ a % 4
bit_and_3 = bit_and_low 2

-- `a | 0x80` on seven bits.
pub bit_or_128 : (a : ℕ) → a < 128 → bit_or a 0x80 ≡ a + 128
bit_or_128 a h = bit_or_above 7 a 1 h

or_zero : (a n : ℕ) → a ≤ n → bit_or a 0 ≡ a
or_zero (suc a) (suc n) h =
    omega (arith, bit_or_digit (suc a) 0, or_zero (suc a / 2) n (omega arith))
or_zero (suc a) zero h = absurd (omega arith)
or_zero zero n h = zero-bit_or 0

-- `(q << k) | r` where `r` fits `k` bits.
pub bit_or_below : (k q r : ℕ) → r < 2 ^ k → bit_or (q * 2 ^ k) r ≡ q * 2 ^ k + r
bit_or_below zero q r h =
    let e : r ≡ 0 = omega arith in
    let p : q * 2 ^ 0 ≡ q = omega arith in rw (e, p) (or_zero q q (le_refl _) ∙ omega arith)
bit_or_below (suc k) q r h = ground (
  arith,
  bit_or_digit (q * 2 ^ suc k) r,
  double q k,
  pow-suc 2 k,
  bit_or_below k q (r / 2) (omega arith),
)
