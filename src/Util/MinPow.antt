-- ===== src/Util/MinPow.antt =====
-- `min_pow` of util.cpp: it finds the least power of two that is not below its argument.
use Prim.Native.Nat.{bit_and}
use mathlib.Core.Logic.{dif_pos}
use mathlib.Core.WellFounded.{Acc}
use native.Mathlib.Nat.{pow-suc, one-le-pow}
use native.Mathlib.Bridge.{le_prop}
use pluto_server.Prelude.{
  ℕ, zero, suc, ◌+◌, ◌-◌, ◌*◌, ◌/◌, ◌%◌, ◌^◌, ◌≤◌, ◌<◌, ◌≡◌, ◌≢◌, refl, arith, ◌∙◌, dec_lt,
  ℕ_discrete,
}
use pluto_server.Prelude.Bits.{bit_and-halves, double_pow}
use pluto_server.Util.{double_while, min_pow, lt_wf}

-- A power of two.
abbrev pub IsPow : ℕ → Type 0
IsPow m = (k : ℕ) × (m ≡ 2 ^ k)

-- A number of `k` binary digits takes `k` rounds.
double_while-pow :
    (k num r : ℕ) (w : Acc ◌<◌ num)
    → num < 2 ^ k
    → 2 ^ k ≤ 2 * num + 1
    → r * 2 ^ k < 2 ^ 32
    → double_while num r w ≡ r * 2 ^ k
unfolding double_while
double_while-pow zero num r (Acc.intro _ smaller) h l b = ground arith
double_while-pow (suc k) num r (Acc.intro _ smaller) h l b = rw (dif_pos _ le_prop more) (
    double_while-pow k (num / 2) (r * 2 % 2 ^ 32) (smaller (num / 2) _) (omega (arith, pow-suc 2 k))
      (omega (arith, pow-suc 2 k)) (rw wrap (omega (arith, double_pow r k)))
    ∙ rw wrap (omega (arith, double_pow r k)))
  where
    more : 0 < num
    more = omega (arith, pow-suc 2 k, one-le-pow k 2)

    grown : r * 2 * 1 ≤ r * 2 * 2 ^ k
    grown = grind (arith, one-le-pow k 2)

    wrap : r * 2 % 2 ^ 32 ≡ r * 2
    wrap = omega (arith, grown, double_pow r k)

-- The number of binary digits.
digits_of : (bound n : ℕ) → 0 < n → n ≤ bound → (k : ℕ) × (2 ^ k ≤ n) × (n < 2 ^ suc k)
digits_of zero n h le = absurd (omega arith)
digits_of (suc bound) n h le = elim (dec_lt 1 n) [
  | yes more ↦
      let (k, low, high) = digits_of bound (n / 2) (omega arith) (omega arith) in
      (suc k, omega (arith, pow-suc 2 k), omega (arith, pow-suc 2 (suc k)))
  | no one ↦ (0, omega arith, omega arith)
]

bit_and-self_below : (bound n : ℕ) → n ≤ bound → bit_and n n ≡ n
bit_and-self_below bound zero h = refl
bit_and-self_below zero (suc n) h = elim h [ ]
bit_and-self_below (suc bound) (suc n) h =
    omega
      (arith, bit_and-halves (suc n) (suc n), bit_and-self_below bound (suc n / 2) (omega arith))

-- `num & (num - 1)` is 0 at the powers of two, and at no other positive number.
bit_and-pred_pow : (k : ℕ) → bit_and (2 ^ k) (2 ^ k - 1) ≡ 0
bit_and-pred_pow zero = refl
bit_and-pred_pow (suc k) = ground (
  arith,
  pow-suc 2 k,
  one-le-pow k 2,
  bit_and-halves (2 ^ suc k) (2 ^ suc k - 1),
  bit_and-pred_pow k,
)

low_bits-IsPow : (bound n : ℕ) → 0 < n → n ≤ bound → bit_and n (n - 1) ≡ 0 → IsPow n
low_bits-IsPow zero n h le e = absurd (omega arith)
low_bits-IsPow (suc bound) n h le e = elim (ℕ_discrete (n % 2) 0) [
  | yes even ↦
      let (k, p) =
        low_bits-IsPow bound (n / 2) (omega arith) (omega arith)
          (ground (arith, bit_and-halves n (n - 1))) in
      (suc k, omega (arith, pow-suc 2 k))
  | no odd ↦ (0, ground (arith, bit_and-halves n (n - 1), bit_and-self_below n (n / 2)))
]

-- What `min_pow` promises.
pub record IsLeastPow (n m : ℕ) : Type 0 where
  pub pow : IsPow m
  pub above : n ≤ m
  pub least : m < 2 * n

-- A number that is no power of two lies strictly between two of them.
not_pow-IsLeastPow :
    (num k : ℕ)
    → num < 2 ^ 31
    → 2 ^ k ≤ num
    → num < 2 ^ suc k
    → num ≢ 2 ^ k
    → IsLeastPow num (double_while num 1 (lt_wf.apply num))
not_pow-IsLeastPow num k fits low high ne =
    rw rounds (record {
      pow = (suc k, omega arith);
      above = omega arith;
      least = omega (arith, pow-suc 2 k);
    })
  where
    rounds : double_while num 1 (lt_wf.apply num) ≡ 1 * 2 ^ suc k
    rounds =
        double_while-pow (suc k) num 1 (lt_wf.apply num) high (omega (arith, pow-suc 2 k))
          (omega (arith, pow-suc 2 k))

min_pow-of_pow : (num : ℕ) → bit_and num (num - 1) ≡ 0 → min_pow num ≡ num
unfolding min_pow
min_pow-of_pow num e = ground arith

min_pow-not_pow :
    (num : ℕ)
    → 0 < num
    → num < 2 ^ 31
    → bit_and num (num - 1) ≢ 0
    → min_pow num ≡ double_while num 1 (lt_wf.apply num)
unfolding min_pow
min_pow-not_pow num h fits ne = elim (dec_lt 1 num) [
  | yes more ↦ ground arith
  | no one ↦ absurd (ne (let e : num ≡ 1 = omega arith in rw e refl))
]

pub min_pow-IsLeastPow : (num : ℕ) → 0 < num → num < 2 ^ 31 → IsLeastPow num (min_pow num)
min_pow-IsLeastPow num h fits = elim (ℕ_discrete (bit_and num (num - 1)) 0) [
  | yes e ↦ rw (min_pow-of_pow num e) (record {
    pow = low_bits-IsPow num num h (omega arith) e;
    above = omega arith;
    least = omega arith;
  })
  | no ne ↦
      let (k, low, high) = digits_of num num h (omega arith) in
      rw (min_pow-not_pow num h fits ne)
        (not_pow-IsLeastPow num k fits low high λ e. ne (rw e (bit_and-pred_pow k)))
]

pow_below : (k j : ℕ) → 2 ^ k < 2 ^ suc j → 2 ^ k ≤ 2 ^ j
pow_below zero j h = omega (arith, one-le-pow j 2)
pow_below (suc k) zero h = absurd (omega (arith, pow-suc 2 k, one-le-pow k 2))
pow_below (suc k) (suc j) h =
    omega (arith, pow-suc 2 k, pow-suc 2 j, pow-suc 2 (suc j), pow_below k j)

-- So a number up to `2 ^ j` is rounded up to at most `2 ^ j`.
pub min_pow-le : (j num : ℕ) → 0 < num → num < 2 ^ 31 → num ≤ 2 ^ j → min_pow num ≤ 2 ^ j
min_pow-le j num h fits le =
    let p = min_pow-IsLeastPow num h fits in
    let (k, e) = p.pow in rw e (pow_below k j (omega (arith, p.least, pow-suc 2 j, e)))

pub min_pow-zero : min_pow 0 ≡ 0
unfolding min_pow
min_pow-zero = refl
