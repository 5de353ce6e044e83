-- ===== src/Runtime/MacExact/Latch.antt =====
-- The accumulator of sw/runtime/pim_mac_exact.c, its conversion to BF16, and the whole of
-- `pim_mac_exact`.
mod Nan
mod Silence
mod Exact
mod Tests
use pim_sw.Common.{
  ℕ, zero, suc, ◌+◌, ◌-◌, ◌*◌, ◌/◌, ◌%◌, ◌^◌, Bool, true, false, ◌&&◌, ◌||◌, not, List, [], ◌∷◌,
  ltb, leb, ◌==◌, if◌then◌else◌, u32, bit_or, ℤ, pos, negsuc, pos_part, neg_part, size, sub_ℕ, ◌+ℤ◌,
  ◌-ℤ◌, ltb_ℤ,
}
use pim_sw.Runtime.Isr.{bit}
use pim_sw.Runtime.MacExact.{differ, low_bits, signed10, highest, lanes, Beat, beat_of}

-- The latch of acc_top.
pub record Latch : Type 0 where
  pub sign : Bool
  pub exp : ℤ
  pub man : ℕ
  pub inf : Bool
  pub nan : Bool
  pub inf_sign : Bool

abbrev pub empty_latch : Latch
empty_latch = record {
  sign = false;
  exp = pos 0;
  man = 0;
  inf = false;
  nan = false;
  inf_sign = false;
}

-- A number before its exponent is brought into range.
pub record Sum : Type 0 where
  pub sign : Bool
  pub exp : ℤ
  pub man : ℕ
  pub zero : Bool

abbrev signed : Bool → ℕ → ℤ
signed s n = if s then sub_ℕ 0 n else pos n

-- The smaller operand moved to the exponent of the bigger, with what is lost in its last bit.
pub align : ℕ → ℕ → ℕ
align smaller diff =
    let over = ltb 27 diff in
    let moved = smaller * 2 ^ 27 / 2 ^ (if over then 27 else diff % 2 ^ 6) in
    let lost = not (moved % 2 ^ 24 == 0) || (over && not (smaller == 0)) in
    bit_or (moved / 2 ^ 24 % 2 ^ 27) (if lost then 1 else 0)

-- The sum of 28 bits with exponent `e`, moved so that its highest bit is bit 26 and rounded to the
-- nearest, to even in a tie.
pub round : Bool → ℤ → ℕ → Sum
unfolding highest signed10 ◌+ℤ◌ ◌-ℤ◌
round sign e abs28 =
    let lz = if abs28 == 0 then 0 else highest 32 abs28 in
    let cut = abs28 * 2 ^ 27 / 2 ^ (lz + 1) % 2 ^ 27 in
    let norm = if lz == 27 then bit_or cut (abs28 % 2) else cut in
    let up = bit norm 2 && (bit norm 1 || bit norm 0 || bit norm 3) in
    let rounded = norm / 2 ^ 3 % 2 ^ 24 + (if up then 1 else 0) in
    let carry = bit rounded 24 in
    let before = signed10 (e +ℤ pos lz -ℤ pos 26) in
    record {
      sign = sign;
      exp = signed10 (if carry then before +ℤ pos 1 else before);
      man = if carry then rounded / 2 % 2 ^ 24 else rounded % 2 ^ 24;
      zero = false;
    }

abbrev zero_sum : Sum
zero_sum = record { sign = false; exp = pos 0; man = 0; zero = true }

-- The addition of two operands that are not zero.
pub add : Latch → Beat → Sum
unfolding align round ◌+ℤ◌ ◌-ℤ◌
add l b =
    let e =
      if size l.exp == 0 && not (l.man == 0) && not l.inf && not l.nan then pos 1 else l.exp in
    let diff = e -ℤ b.exp in
    let prev_bigger = not (ltb_ℤ diff (pos 0)) in
    let bigger = if prev_bigger then l.man else b.man in
    let smaller = if prev_bigger then b.man else l.man in
    let sum =
      signed (if prev_bigger then l.sign else b.sign) (bigger * 2 ^ 3 % 2 ^ 27)
      +ℤ signed (if prev_bigger then b.sign else l.sign) (align smaller (size diff)) in
    let abs28 = size sum % 2 ^ 28 in
    if abs28 == 0
    then zero_sum
    else round (ltb_ℤ sum (pos 0)) (if prev_bigger then e else b.exp) abs28

-- The ways round the addition where an operand is zero.
pub sum_of : Latch → Beat → Sum
unfolding add
sum_of l b =
    let prev_zero = l.man == 0 && not l.inf && not l.nan in
    let new_zero = b.none && not b.inf && not b.nan in
    if prev_zero && new_zero
    then zero_sum
    else if prev_zero
    then record { sign = b.sign; exp = b.exp; man = b.man; zero = false }
    else if new_zero
    then record { sign = l.sign; exp = l.exp; man = l.man; zero = false }
    else add l b

abbrev no_number : Latch
no_number = record empty_latch { nan = true }

abbrev infinite : Bool → Latch
infinite s = record { sign = s; exp = pos 255; man = 0; inf = true; nan = false; inf_sign = s }

abbrev number : Bool → ℤ → ℕ → Latch
number s e m = record {
  sign = s;
  exp = e;
  man = m % 2 ^ 24;
  inf = false;
  nan = false;
  inf_sign = false;
}

-- The exponent is brought into range.
pub saturate : Sum → Latch
saturate n =
    if n.zero
    then empty_latch
    else if ltb_ℤ (pos 254) n.exp
    then infinite n.sign
    else if not (ltb_ℤ n.exp (pos 1))
    then number n.sign n.exp n.man
    else if not (ltb_ℤ n.exp (negsuc 21))
    then number n.sign (pos 0) (n.man / 2 ^ ((1 + neg_part n.exp) % 2 ^ 5))
    else empty_latch

-- One beat.
pub accumulate : Latch → Beat → Latch
unfolding differ sum_of saturate
accumulate l b =
    let prev_sign = if l.inf then l.inf_sign else l.sign in
    let new_sign = if b.inf then b.inf_sign else b.sign in
    let nan = l.nan || b.nan || (l.inf && b.inf && differ prev_sign new_sign) in
    let inf = (l.inf || b.inf) && not nan in
    if nan
    then no_number
    else if inf
    then infinite (if l.inf then prev_sign else new_sign)
    else saturate (sum_of l b)

-- The number in the latch as BF16.
pub to_bf16 : Latch → ℕ
unfolding signed10 ◌+ℤ◌
to_bf16 l =
    let sign = if (if l.inf then l.inf_sign else l.sign) then 2 ^ 15 else 0 in
    let up = bit l.man 15 && (bit l.man 16 || not (l.man % 2 ^ 15 == 0)) in
    let sum = l.man / 2 ^ 16 % 2 ^ 8 + (if up then 1 else 0) in
    let carry = if bit l.man 23 then bit sum 8 else bit sum 7 in
    let frac = if carry then 0 else sum % 2 ^ 7 in
    let e = signed10 (l.exp +ℤ pos (if carry then 1 else 0)) in
    if l.nan
    then 0x7fc0
    else if l.inf
    then sign + 0x7f80
    else if l.man == 0
    then sign
    else if ltb_ℤ (pos 254) e
    then sign + 0x7f80
    else sign + low_bits 8 e * 2 ^ 7 + frac

-- The loop over the beats with `n` rounds left, from lane `idx` on.
pub beats_from : ℕ → ℕ → (ℕ → ℕ) → (ℕ → ℕ) → ℕ → Latch → Latch
unfolding accumulate beat_of lanes
beats_from zero idx w x k l = l
beats_from (suc n) idx w x k l =
    beats_from n (idx + 16) w x k (accumulate l (beat_of (lanes 16 idx w x k)))

-- `pim_mac_exact`
pub mac_exact : (ℕ → ℕ) → (ℕ → ℕ) → ℕ → ℕ
unfolding beats_from to_bf16
mac_exact w x k = to_bf16 (beats_from (u32 (k + 15) / 16) 0 w x k empty_latch)
