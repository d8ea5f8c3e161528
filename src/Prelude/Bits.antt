-- ===== src/Prelude/Bits.antt =====
-- `bit_and` and `bit_or` at variables. The native operations stand for a recursion on binary
-- digits, which the first lemmas turn into one equation for the lowest digit.
use Prim.Native.Nat.{
  ℕ, zero, suc, ◌+◌, ◌-◌, ◌*◌, ◌/◌, ◌%◌, ◌^◌, ◌≤◌, ◌<◌, min, max, bit_and, bit_or, digits, bitwise,
  bit_and-bitwise, bit_or-bitwise,
}
use mathlib.Core.Path.{◌≡◌, refl, ap, ◌∙◌}
use native.Mathlib.Nat.{pow-suc, one-le-pow}
use native.Mathlib.Omega.{arith}

module _ (unit : ℕ → ℕ) (op : ℕ → ℕ → ℕ) where
  -- Any fuel from `a` on gives the same digits.
  enough_digits :
      (fuel more a b : ℕ) → a ≤ fuel → a ≤ more → digits unit op fuel a b ≡ digits unit op more a b
  enough_digits zero zero a b p q = refl
  enough_digits (suc fuel) zero zero b p q = refl
  enough_digits (suc fuel) zero (suc a) b p q = elim q [ ]
  enough_digits zero (suc more) zero b p q = refl
  enough_digits zero (suc more) (suc a) b p q = elim p [ ]
  enough_digits (suc fuel) (suc more) zero b p q = refl
  enough_digits (suc fuel) (suc more) (suc a) b p q =
      ap (λ (high : ℕ). high * 2 + op (suc a % 2) (b % 2))
        (enough_digits fuel more (suc a / 2) (b / 2) (omega arith) (omega arith))

  lowest_digit :
      (a b : ℕ)
      → bitwise unit op (suc a) b ≡ bitwise unit op (suc a / 2) (b / 2) * 2 + op (suc a % 2) (b % 2)
  lowest_digit a b =
      ap (λ (high : ℕ). high * 2 + op (suc a % 2) (b % 2))
        (enough_digits a (suc a / 2) (suc a / 2) (b / 2) (omega arith) (omega arith))

pub bit_and-halves : (a b : ℕ) → bit_and a b ≡ bit_and (a / 2) (b / 2) * 2 + min (a % 2) (b % 2)
bit_and-halves zero b = omega (arith, bit_and-bitwise 0 b, bit_and-bitwise 0 (b / 2))
bit_and-halves (suc a) b = omega (
  arith,
  bit_and-bitwise (suc a) b,
  bit_and-bitwise (suc a / 2) (b / 2),
  lowest_digit (λ _. 0) min a b,
)

pub bit_or-halves : (a b : ℕ) → bit_or a b ≡ bit_or (a / 2) (b / 2) * 2 + max (a % 2) (b % 2)
bit_or-halves zero b = omega (arith, bit_or-bitwise 0 b, bit_or-bitwise 0 (b / 2))
bit_or-halves (suc a) b = omega (
  arith,
  bit_or-bitwise (suc a) b,
  bit_or-bitwise (suc a / 2) (b / 2),
  lowest_digit (λ y. y) max a b,
)

-- Induction over halving, with a bound that falls.
bit_or-zero_below : (bound a : ℕ) → a ≤ bound → bit_or a 0 ≡ a
bit_or-zero_below bound zero h = refl
bit_or-zero_below zero (suc a) h = elim h [ ]
bit_or-zero_below (suc bound) (suc a) h =
    omega (arith, bit_or-halves (suc a) 0, bit_or-zero_below bound (suc a / 2) (omega arith))

pub bit_or-zero : (a : ℕ) → bit_or a 0 ≡ a
bit_or-zero a = bit_or-zero_below a a (omega arith)

pub double_pow : (q k : ℕ) → q * 2 ^ suc k ≡ 2 * (q * 2 ^ k)
double_pow q k = omega (arith, ap (λ (t : ℕ). q * t) (pow-suc 2 k))

-- Disjoint fields: the upper one shifted by `k` bits, the lower one of `k` bits.
pub bit_or-disjoint :
    (k high low : ℕ) → low < 2 ^ k → bit_or (high * 2 ^ k) low ≡ high * 2 ^ k + low
bit_or-disjoint zero high low h =
    ap (λ (t : ℕ). bit_or (high * 1) t) (omega arith) ∙ bit_or-zero (high * 1) ∙ omega arith
bit_or-disjoint (suc k) high low h = ground (
  arith,
  pow-suc 2 k,
  double_pow high k,
  bit_or-halves (high * 2 ^ suc k) low,
  bit_or-disjoint k high (low / 2),
)

-- Ones above bit `k`, as a negative number sign-extended to `w + k` bits has, absorb what they meet.
pub bit_or-ones : (w a : ℕ) → a < 2 ^ w → bit_or a (2 ^ w - 1) ≡ 2 ^ w - 1
bit_or-ones zero a h = omega (arith, bit_or-zero a)
bit_or-ones (suc w) a h =
    ground
      (arith, pow-suc 2 w, one-le-pow w 2, bit_or-halves a (2 ^ suc w - 1), bit_or-ones w (a / 2))

pub bit_or-shifted :
    (k high ones low : ℕ)
    → low < 2 ^ k
    → bit_or (high * 2 ^ k) (ones * 2 ^ k + low) ≡ bit_or high ones * 2 ^ k + low
bit_or-shifted zero high ones low h = ground (arith)
bit_or-shifted (suc k) high ones low h = ground (
  arith,
  pow-suc 2 k,
  double_pow high k,
  double_pow ones k,
  double_pow (bit_or high ones) k,
  bit_or-halves (high * 2 ^ suc k) (ones * 2 ^ suc k + low),
  bit_or-shifted k high ones (low / 2),
)
