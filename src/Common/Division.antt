-- ===== src/Common/Division.antt =====
-- Quotient and remainder by a divisor that is not a constant.
use Prim.Native.Nat.{ℕ, zero, suc, ◌+◌, ◌*◌, ◌/◌, ◌%◌, ◌≤◌, ◌<◌}
use mathlib.Core.Path.{◌≡◌, ap, sym, ◌∙◌}
use native.Mathlib.Nat.{
  mul-add-div_right, div-eq_of_lt, mul-add-mod_self_right, mod-eq_of_lt, div-add-mod',
  div-lt_iff_lt-mul, div-div-eq-div-mul, mul_comm, mul_assoc, add-mul, mul-le-mul_right, suc-mul,
}
use native.Mathlib.Omega.{arith}

pub div_of_parts : (q r b : ℕ) → r < b → (q * b + r) / b ≡ q
div_of_parts q r b h = omega (arith, mul-add-div_right {m = b} (omega arith) q r, div-eq_of_lt h)

pub mod_of_parts : (q r b : ℕ) → r < b → (q * b + r) % b ≡ r
mod_of_parts q r b h = omega (arith, mul-add-mod_self_right q b r, mod-eq_of_lt h)

-- Both at once, for a number given by its parts.
pub parts_of : (a q r b : ℕ) → a ≡ q * b + r → r < b → (a / b ≡ q) × (a % b ≡ r)
parts_of a q r b e h = rw e (div_of_parts q r b h, mod_of_parts q r b h)

pub quotient_lt : (a b n : ℕ) → 0 < b → a < n * b → a / b < n
quotient_lt a b n p h = (div-lt_iff_lt-mul p).1 h

-- The `q`-th of `n` blocks ends within them.
pub block_le : (q n b : ℕ) → q < n → q * b + b ≤ n * b
block_le q n b h = omega (arith, mul-le-mul_right b h, suc-mul q b)

-- A number by its blocks of `n * b`, its blocks of `b` within them, and the rest.
pub three_parts : (a b n : ℕ) → a / (n * b) * (n * b) + a / b % n * b + a % b ≡ a
three_parts a b n =
    let x = a / b in
    let e : a / (n * b) ≡ x / n = ap (λ m. a / m) (mul_comm n b) ∙ sym (div-div-eq-div-mul a b n) in
    let f : x * b ≡ x / n * (n * b) + x % n * b =
      ap (λ m. m * b) (sym (div-add-mod' x n))
      ∙ add-mul (x / n * n) (x % n) b
      ∙ ap (λ m. m + x % n * b) (mul_assoc (x / n) n b) in
    omega (arith, e, f, div-add-mod' a b, ap (λ m. m * (n * b)) e)

pub three_back :
    (p q r n b : ℕ)
    → q < n
    → r < b
    → let a = p * (n * b) + q * b + r in (a / (n * b) ≡ p) × (a / b % n ≡ q) × (a % b ≡ r)
three_back p q r n b hq hr =
    let a = p * (n * b) + q * b + r in
    let e : a ≡ (p * n + q) * b + r = omega (arith, add-mul (p * n) q b, mul_assoc p n b) in
    let (d, m) = parts_of a (p * n + q) r b e hr in
    let f : a ≡ p * (n * b) + (q * b + r) = omega arith in
    (
      (parts_of a p (q * b + r) (n * b) f (omega (arith, block_le q n b hq))).0,
      ap (λ x. x % n) d ∙ mod_of_parts p q n hq,
      m,
    )

pub factor_pos : (n s : ℕ) → 0 < n * s → 0 < s
factor_pos n zero h = omega (arith, h)
factor_pos n (suc s) h = omega arith
