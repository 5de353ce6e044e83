-- ===== src/Common/Powers.antt =====
-- Powers of two: the test `v && !(v & (v - 1))`, and their division.
use Prim.Native.Nat.{
  ℕ, zero, suc, ◌+◌, ◌-◌, ◌*◌, ◌/◌, ◌%◌, ◌^◌, ◌≤◌, ◌<◌, min, bit_and, digits, bit_and-bitwise,
}
use mathlib.Core.Path.{◌≡◌, refl, sym, ◌∙◌, ap}
use mathlib.Core.Logic.{◌↔◌, ◌⊎◌, inl, inr}
use mathlib.Core.Bool.{Bool, true, ◌&&◌, not}
use pim_sw.Common.Division.{parts_of}
use native.Mathlib.Nat.{
  mul_comm, zero-div, zero-mod, div-div-eq-div-mul, mod-lt, div-add-mod', pow-suc, mul-mod_left,
  mul_assoc, one-le-pow, pow-le-pow_right,
}
use native.Mathlib.Omega.{arith}
use pim_sw.Common.Tests.{◌==◌, ltb, Bool-cases}

abbrev pub IsPow2 : ℕ → Type 0
IsPow2 v = (k : ℕ) × (v ≡ 2 ^ k)

-- The C expression on a 64-bit number; `v - 1` is computed for `v = 0` too, where it does not count.
abbrev pub lone_bit : ℕ → Bool
lone_bit v = not (v == 0) && bit_and v (v - 1) == 0

abbrev and_on : ℕ → ℕ → ℕ → ℕ
and_on n a b = digits (λ _. 0) min n a b

and_on_same : (n a : ℕ) → a ≤ n → and_on n a a ≡ a
and_on_same zero zero h = refl
and_on_same zero (suc a) h = absurd (omega arith)
and_on_same (suc n) zero h = refl
and_on_same (suc n) (suc a) h = omega (arith, and_on_same n (suc a / 2) (omega arith))

double-IsPow2 : (w : ℕ) → IsPow2 w → IsPow2 (2 * w)
double-IsPow2 w (k, e) = (suc k, omega (arith, e, pow-suc 2 k))

half-IsPow2 : (w : ℕ) → IsPow2 (2 * w) → IsPow2 w
half-IsPow2 w (zero, e) = absurd (omega (arith, e))
half-IsPow2 w (suc k, e) = (k, omega (arith, e, pow-suc 2 k))

odd-IsPow2 : (w : ℕ) → IsPow2 (suc (2 * w)) → w ≡ 0
odd-IsPow2 w (zero, e) = omega (arith, e)
odd-IsPow2 w (suc k, e) = absurd (omega (arith, e, pow-suc 2 k))

IsPow2_ext : {v w : ℕ} → v ≡ w → IsPow2 v → IsPow2 w
IsPow2_ext e (k, f) = (k, sym e ∙ f)

and_on_pred : (n a : ℕ) → a < n → (and_on n (suc a) a ≡ 0) ↔ IsPow2 (suc a)
and_on_pred zero a h = absurd (omega arith)
and_on_pred (suc n) a h =
    let w = a / 2 in
    elim (Bool-cases (a % 2 == 0)) [
      | inl even ↦
          let same : suc a / 2 ≡ w = ground arith in
          let low = and_on_same n w (omega arith) in
          let double : suc a ≡ suc (2 * w) = ground arith in
          rw same (
            λ z. (0, ground (arith, low)),
            λ p. ground (arith, low, odd-IsPow2 w (IsPow2_ext double p)),
          )
      | inr odd ↦
          let up : suc a / 2 ≡ suc w = ground arith in
          let double : suc a ≡ 2 * suc w = ground arith in
          let (to, from) = and_on_pred n w (ground arith) in
          rw up (
            λ z. IsPow2_ext (sym double) (double-IsPow2 (suc w) (to (ground arith))),
            λ p. ground (arith, from (half-IsPow2 (suc w) (IsPow2_ext double p))),
          )
    ]

pub lone_bit_iff : (v : ℕ) → (lone_bit v ≡ true) ↔ IsPow2 v
lone_bit_iff zero =
    (λ h. absurd (ground arith), λ (k, e). absurd (omega (arith, e, one-le-pow k 2)))
lone_bit_iff (suc a) =
    let (to, from) = and_on_pred (suc a) a (omega arith) in
    let e : bit_and (suc a) a ≡ and_on (suc a) (suc a) a = bit_and-bitwise (suc a) a in
    (λ h. to (ground (arith, e)), λ p. ground (arith, e, from p))

pub pow_sum : (a b : ℕ) → 2 ^ (a + b) ≡ 2 ^ a * 2 ^ b
pow_sum a zero = let e : a + 0 ≡ a = omega arith in rw e (omega arith)
pow_sum a (suc b) =
    let e : a + suc b ≡ suc (a + b) = omega arith in
    rw (e, pow-suc 2 (a + b), pow_sum a b, pow-suc 2 b) (mul_assoc (2 ^ a) (2 ^ b) 2)

pub pow_mono : (a b : ℕ) → a ≤ b → 2 ^ a ≤ 2 ^ b
pow_mono a b h = pow-le-pow_right (omega arith) h

pub pow_strict : (a b : ℕ) → a < b → 2 ^ a < 2 ^ b
pow_strict a b h = omega (arith, pow_mono (suc a) b h, pow-suc 2 a, one-le-pow a 2)

pub IsPow2-pos : {v : ℕ} → IsPow2 v → 0 < v
IsPow2-pos (k, e) = omega (arith, e, one-le-pow k 2)

pub product-IsPow2 : (v w : ℕ) → IsPow2 v → IsPow2 w → IsPow2 (v * w)
product-IsPow2 v w (a, e) (b, f) = (a + b, rw (e, f) (sym (pow_sum a b)))

-- A power of two that does not fit into 64 bits is cut to 0.
pub pow_cut : (k : ℕ) → 2 ^ k < 2 ^ 64 ⊎ (2 ^ k % 2 ^ 64 ≡ 0)
pow_cut k = elim (Bool-cases (ltb k 64)) [
  | inl short ↦ inl (omega (arith, pow_mono k 63 (ground (arith, short))))
  | inr long ↦
      let e : k ≡ k - 64 + 64 = ground (arith, long) in
      inr (rw (e, pow_sum (k - 64) 64) (mul-mod_left (2 ^ (k - 64)) (2 ^ 64)))
]

-- The same of any number that is a power of two.
pub word_of_pow2 : {v : ℕ} → IsPow2 v → (v % 2 ^ 64 ≡ v) ⊎ (v % 2 ^ 64 ≡ 0)
word_of_pow2 (k, e) = elim (pow_cut k) [
  | inl fits ↦ inl (omega (arith, e, fits))
  | inr cut ↦ inr (omega (arith, e, cut))
]

and_on_zero : (n a : ℕ) → and_on n a 0 ≡ 0
and_on_zero zero a = refl
and_on_zero (suc n) zero = refl
and_on_zero (suc n) (suc a) = omega (arith, and_on_zero n (suc a / 2))

and_on_mask : (n a k : ℕ) → a ≤ n → and_on n a (2 ^ k - 1) ≡ a % 2 ^ k
and_on_mask n a zero h = omega (arith, and_on_zero n a)
and_on_mask zero zero (suc k) h = omega (arith, one-le-pow (suc k) 2)
and_on_mask zero (suc a) (suc k) h = absurd (omega arith)
and_on_mask (suc n) zero (suc k) h = omega (arith, one-le-pow (suc k) 2)
and_on_mask (suc n) (suc a) (suc k) h =
    let m = 2 ^ k in
    let e : 2 ^ suc k ≡ m * 2 = pow-suc 2 k in
    let pos : 0 < m = omega (arith, one-le-pow k 2) in
    let half : (2 ^ suc k - 1) / 2 ≡ m - 1 = omega (arith, e, pos) in
    let odd : (2 ^ suc k - 1) % 2 ≡ 1 = omega (arith, e, pos) in
    let rest = and_on_mask n (suc a / 2) k (omega arith) in
    let b = suc a / 2 in
    let low : b % m < m = mod-lt b pos in
    let whole : suc a ≡ b / m * (m * 2) + (b % m * 2 + suc a % 2) =
      omega (arith, div-add-mod' b m, mul_assoc (b / m) m 2) in
    let parts =
      (parts_of (suc a) (b / m) (b % m * 2 + suc a % 2) (m * 2) whole (omega (arith, low))).1 in
    rw (half, odd, rest, e) (omega (arith, parts))

-- Masking with `2 ^ k - 1` is the remainder.
pub bit_and_mask : (a k : ℕ) → bit_and a (2 ^ k - 1) ≡ a % 2 ^ k
bit_and_mask a k = omega (arith, bit_and-bitwise a (2 ^ k - 1), and_on_mask a a k (omega arith))

and_on_high : (n a k m : ℕ) → a ≤ n → and_on n a (2 ^ k * (2 ^ m - 1)) ≡ a / 2 ^ k % 2 ^ m * 2 ^ k
and_on_high n a zero m h =
    let e : 2 ^ 0 * (2 ^ m - 1) ≡ 2 ^ m - 1 = omega arith in
    let d : a / 2 ^ 0 ≡ a = omega arith in rw (e, d) (omega (arith, and_on_mask n a m h))
and_on_high zero zero (suc k) m h =
    let d : 0 / 2 ^ suc k ≡ 0 = zero-div (2 ^ suc k) in
    let e : 0 % 2 ^ m ≡ 0 = zero-mod (2 ^ m) in rw (d, e) (omega arith)
and_on_high zero (suc a) (suc k) m h = absurd (omega arith)
and_on_high (suc n) zero (suc k) m h =
    let d : 0 / 2 ^ suc k ≡ 0 = zero-div (2 ^ suc k) in
    let e : 0 % 2 ^ m ≡ 0 = zero-mod (2 ^ m) in rw (d, e) (omega arith)
and_on_high (suc n) (suc a) (suc k) m h =
    let b = suc a / 2 in
    let mask = 2 ^ k * (2 ^ m - 1) in
    let twice : 2 ^ suc k * (2 ^ m - 1) ≡ mask * 2 =
      ap (λ t. t * (2 ^ m - 1)) (pow-suc 2 k ∙ mul_comm (2 ^ k) 2)
      ∙ mul_assoc 2 (2 ^ k) (2 ^ m - 1)
      ∙ mul_comm 2 mask in
    let half : 2 ^ suc k * (2 ^ m - 1) / 2 ≡ mask = omega (arith, twice) in
    let even : 2 ^ suc k * (2 ^ m - 1) % 2 ≡ 0 = omega (arith, twice) in
    let rest = and_on_high n b k m (omega (arith, h)) in
    let quot : suc a / 2 ^ suc k ≡ b / 2 ^ k =
      ap (λ t. suc a / t) (pow-suc 2 k ∙ mul_comm (2 ^ k) 2)
      ∙ sym (div-div-eq-div-mul (suc a) 2 (2 ^ k)) in
    let unit = b / 2 ^ k % 2 ^ m in
    let out : unit * 2 ^ suc k ≡ unit * 2 ^ k * 2 =
      ap (λ t. unit * t) (pow-suc 2 k) ∙ sym (mul_assoc unit (2 ^ k) 2) in
    rw (half, even, quot, rest, out) (omega arith)

-- Masking with all bits from `k` to `k + m` clears the others.
pub bit_and_high : (a k m : ℕ) → bit_and a (2 ^ k * (2 ^ m - 1)) ≡ a / 2 ^ k % 2 ^ m * 2 ^ k
bit_and_high a k m =
    omega (arith, bit_and-bitwise a (2 ^ k * (2 ^ m - 1)), and_on_high a a k m (omega arith))
