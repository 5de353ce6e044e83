-- ===== src/Runtime/MacExact.antt =====
-- sw/runtime/pim_mac_exact.c: the arithmetic of the card's accumulation. A beat of sixteen products
-- is aligned and summed here; Runtime/MacExact/Latch.antt adds it to the accumulator. A flag of one bit
-- is a Boolean; a shift is a division or a product by a power of two.
pub mod Latch
use pim_sw.Common.{
  ℕ, zero, suc, ◌+◌, ◌-◌, ◌*◌, ◌/◌, ◌%◌, ◌^◌, Bool, true, false, ◌&&◌, ◌||◌, not, List, [], ◌∷◌,
  ltb, leb, ◌==◌, if◌then◌else◌, u32, bit_xor, ℤ, pos, negsuc, pos_part, sub_ℕ, ◌+ℤ◌, ◌-ℤ◌, ltb_ℤ,
}
use pim_sw.Runtime.Isr.{bit}

pub differ : Bool → Bool → Bool
differ true b = not b
differ false b = b

-- The low `w` bits of an `int64_t`, of which negative numbers are complements.
pub low_bits : ℕ → ℤ → ℕ
low_bits w (pos n) = n % 2 ^ w
low_bits w (negsuc n) = 2 ^ w - 1 - n % 2 ^ w

-- `(int64_t)(((uint32_t)v & 0x3FFu) ^ 0x200u) - 0x200`: ten bits with a sign
pub signed10 : ℤ → ℤ
unfolding low_bits
signed10 v = sub_ℕ (bit_xor (low_bits 10 v) 0x200) 0x200

-- `while (t >>= 1) n++;` with `fuel` rounds left: a 32-bit number has at most 31 shifts to 0.
pub highest : ℕ → ℕ → ℕ
highest zero t = 0
highest (suc fuel) t = let rest = highest fuel (t / 2) in if t / 2 == 0 then 0 else rest + 1

-- What a lane gives: the sign, exponent and mantissa of the product, and whether it is infinite or no
-- number.
pub record Lane : Type 0 where
  pub sign : Bool
  pub exp : ℤ
  pub man : ℕ
  pub inf : Bool
  pub nan : Bool

-- The fields of a BF16 number, and its kinds.
abbrev pub exponent : ℕ → ℕ
exponent a = a / 2 ^ 7 % 2 ^ 8

abbrev pub fraction : ℕ → ℕ
fraction a = a % 2 ^ 7

pub is_normal : ℕ → Bool
is_normal a = not (exponent a == 0) && not (exponent a == 255)

pub is_subnormal : ℕ → Bool
is_subnormal a = exponent a == 0 && not (fraction a == 0)

pub is_zero : ℕ → Bool
is_zero a = exponent a == 0 && fraction a == 0

pub is_inf : ℕ → Bool
is_inf a = exponent a == 255 && fraction a == 0

pub is_nan : ℕ → Bool
is_nan a = exponent a == 255 && not (fraction a == 0)

-- The exponent that counts, and the mantissa with its hidden bit; the two parts have no bit in common.
pub exponent_used : ℕ → ℕ
unfolding is_subnormal
exponent_used a = if is_subnormal a then 1 else exponent a

pub mantissa : ℕ → ℕ
unfolding is_normal
mantissa a = (if is_normal a then 2 ^ 7 else 0) + fraction a

pub product_nan : ℕ → ℕ → Bool
unfolding is_zero is_inf is_nan
product_nan a b = is_nan a || is_nan b || (is_zero a && is_inf b || is_inf a && is_zero b)

pub product_inf : ℕ → ℕ → Bool
unfolding product_nan is_inf
product_inf a b = not (product_nan a b) && (is_inf a || is_inf b)

pub product_zero : ℕ → ℕ → Bool
unfolding product_nan product_inf is_zero
product_zero a b = not (product_nan a b) && not (product_inf a b) && (is_zero a || is_zero b)

-- bf16_mul
pub multiply : ℕ → ℕ → Lane
unfolding differ product_nan product_inf product_zero exponent_used mantissa
multiply a b =
    let over = product_nan a b || product_inf a b || product_zero a b in
    record {
      sign = differ (bit a 15) (bit b 15);
      exp = if over then pos 0 else sub_ℕ (exponent_used a + exponent_used b) 127;
      man = if over then 0 else mantissa a * mantissa b % 2 ^ 16;
      inf = product_inf a b;
      nan = product_nan a b;
    }

-- The lanes of a beat from number `idx` on, `n` of them; those past the end are zeros.
pub lanes : ℕ → ℕ → (ℕ → ℕ) → (ℕ → ℕ) → ℕ → List Lane
unfolding multiply
lanes zero idx w x k = []
lanes (suc n) idx w x k =
    multiply (if ltb idx k then w idx else 0) (if ltb idx k then x idx else 0)
    ∷ lanes n (idx + 1) w x k

-- bwms_exp_compare: the greatest exponent, that of the first lane being `m` so far.
pub max_from : ℤ → List Lane → ℤ
max_from m [] = m
max_from m (l ∷ ls) = max_from (if ltb_ℤ m l.exp then l.exp else m) ls

pub max_exp : List Lane → ℤ
unfolding max_from
max_exp [] = pos 0
max_exp (l ∷ ls) = max_from l.exp ls

-- The loops that gather the flags.
pub any : (Lane → Bool) → List Lane → Bool
any p [] = false
any p (l ∷ ls) = p l || any p ls

-- bwms_shifter_cell: the mantissa moved to the greatest exponent, which is never less than the lane's.
pub aligned : ℤ → Lane → ℕ
unfolding ◌-ℤ◌
aligned m l =
    let sh = pos_part (m -ℤ l.exp) in
    if leb 24 sh then 0 else l.man % 2 ^ 16 * 2 ^ 8 / 2 ^ (sh % 2 ^ 5)

-- mau_tree: the sum of the aligned lanes, `s` being that of those before.
pub sum_from : ℤ → ℤ → List Lane → ℤ
unfolding aligned ◌+ℤ◌
sum_from m s [] = s
sum_from m s (l ∷ ls) =
    sum_from m (s +ℤ (if l.sign then sub_ℕ 0 (aligned m l) else pos (aligned m l))) ls

-- A beat as the accumulator takes it in.
pub record Beat : Type 0 where
  pub sign : Bool
  pub exp : ℤ
  pub man : ℕ
  pub none : Bool
  pub inf : Bool
  pub nan : Bool
  pub inf_sign : Bool

-- The sum as a sign and 28 bits, moved so that its highest bit is bit 23.
pub ingest : ℤ → ℤ → Bool → Bool → Bool → Beat
unfolding low_bits signed10 highest ◌+ℤ◌
ingest m s inf nan inf_sign =
    let ma_sum = low_bits 29 s in
    let sign = bit ma_sum 28 in
    let new_abs = if sign then (2 ^ 29 - ma_sum) % 2 ^ 29 else ma_sum in
    let mag28 = new_abs % 2 ^ 28 in
    let shift = if mag28 == 0 then pos 0 else sub_ℕ (highest 32 mag28) 23 in
    record {
      sign = sign;
      exp = signed10 (m +ℤ shift +ℤ pos 1);
      man = new_abs * 2 ^ 23 / 2 ^ low_bits 6 (pos 23 +ℤ shift) % 2 ^ 24;
      none = new_abs == 0;
      inf = inf;
      nan = nan;
      inf_sign = inf_sign;
    }

pub beat_of : List Lane → Beat
unfolding max_exp any sum_from ingest
beat_of ls =
    let m = max_exp ls in
    let pinf = any (λ l. l.inf && not l.sign) ls in
    let ninf = any (λ l. l.inf && l.sign) ls in
    let nan = any (λ l. l.nan) ls || (pinf && ninf) in
    ingest m (sum_from m (pos 0) ls) ((pinf || ninf) && not nan) nan
      (if nan then false else if pinf then false else true)
