-- ===== src/Runtime/MacExact/Latch/Exact.antt =====
-- The sum of a beat in sw/runtime/pim_mac_exact.c, which 29 bits hold.
use pim_sw.Common.{
  ℕ, ◌+◌, ◌-◌, ◌*◌, ◌/◌, ◌%◌, ◌^◌, ◌≤◌, ◌<◌, ◌≡◌, ap, Bool, true, false, List, [], ◌∷◌, length,
  ltb_ℤ, ◌==◌, if◌then◌else◌, arith, ℤ, pos, negsuc, size, pos_part, neg_part, sub_ℕ, ◌+ℤ◌,
}
use native.Mathlib.Nat.{div-le_self}
use pim_sw.Runtime.MacExact.{Lane, low_bits, beat_of, max_exp, sum_from, aligned, ingest}

divided : (over : Bool) (n d : ℕ) → (if over then 0 else n % 2 ^ 16 * 2 ^ 8 / d) ≤ 2 ^ 24 - 1
divided true n d = omega arith
divided false n d = omega (arith, div-le_self (n % 2 ^ 16 * 2 ^ 8) d)

aligned_le : (m : ℤ) (l : Lane) → aligned m l ≤ 2 ^ 24 - 1
unfolding aligned
aligned_le m l = divided _ l.man _

size-sub_ℕ : (a b : ℕ) → size (sub_ℕ a b) ≤ a + b
size-sub_ℕ a b = ground arith

size-add : (a b : ℤ) → size (a +ℤ b) ≤ size a + size b
unfolding ◌+ℤ◌
size-add a b = ground (arith, size-sub_ℕ (pos_part a + pos_part b) (neg_part a + neg_part b))

abbrev signed : Bool → ℕ → ℤ
signed s n = if s then sub_ℕ 0 n else pos n

size-signed : (s : Bool) (n : ℕ) → size (signed s n) ≡ n
size-signed true n = ground arith
size-signed false n = omega arith

sum_le :
    (m : ℤ) (s : ℤ) (ls : List Lane) → size (sum_from m s ls) ≤ size s + length ls * (2 ^ 24 - 1)
unfolding sum_from
sum_le m s [] = omega arith
sum_le m s (l ∷ ls) =
    let t = signed l.sign (aligned m l) in
    omega
      (arith, sum_le m (s +ℤ t) ls, size-add s t, size-signed l.sign (aligned m l), aligned_le m l)

magnitude : ℕ → ℕ
magnitude m = if m / 2 ^ 28 % 2 == 1 then (2 ^ 29 - m) % 2 ^ 29 else m

-- What 29 bits keep of an integer of at most 28.
kept_sign : (s : ℤ) → size s < 2 ^ 28 → (low_bits 29 s / 2 ^ 28 % 2 == 1) ≡ ltb_ℤ s (pos 0)
unfolding low_bits
kept_sign (pos n) h = ground arith
kept_sign (negsuc n) h = ground arith

kept_size : (s : ℤ) → size s < 2 ^ 28 → magnitude (low_bits 29 s) ≡ size s
unfolding low_bits magnitude
kept_size (pos n) h = ground arith
kept_size (negsuc n) h = ground arith

abbrev total : List Lane → ℤ
total ls = sum_from (max_exp ls) (pos 0) ls

-- The beat has the sum's own sign, and none where the sum is 0: no bit of the sum is lost in 29.
pub record Exact (ls : List Lane) : Type 0 where
  pub bits : size (total ls) ≤ 2 ^ 28 - 16
  pub sign : (beat_of ls).sign ≡ ltb_ℤ (total ls) (pos 0)
  pub none : (beat_of ls).none ≡ (size (total ls) == 0)

-- The sum of sixteen lanes or fewer is at most 2 ^ 28 - 16 away from 0, so that 29 bits with a sign
-- hold it: the beat made of them is negative just when the sum is, and counts as zero just when the
-- sum is 0.
pub beat_of-Exact : (ls : List Lane) → length ls ≤ 16 → Exact ls
unfolding beat_of ingest magnitude
beat_of-Exact ls h =
    let b : size (total ls) ≤ 2 ^ 28 - 16 = omega (arith, sum_le (max_exp ls) (pos 0) ls, h) in
    let b' : size (total ls) < 2 ^ 28 = omega (arith, b) in
    record {
      bits = b;
      sign = kept_sign (total ls) b';
      none = ap (λ n. n == 0) (kept_size (total ls) b');
    }
