-- ===== src/Library/Allocator/Rounding.antt =====
-- The rounding of sizes and addresses in sw/lib/pim_alloc.c: clearing the low bits of a word goes down
-- to a multiple of the alignment.
use native.Mathlib.Nat.{
  div-add-mod', mod-lt, mod-eq_of_lt, div-eq_of_lt, mul-mod_left, suc-mul, mul_comm, one-le-pow,
}
use pim_sw.Common.{
  sub64, false, ◌&&◌, ℕ, suc, ◌+◌, ◌-◌, ◌*◌, ◌/◌, ◌%◌, ◌^◌, ◌≤◌, ◌<◌, ◌≡◌, refl, ap, ◌∙◌, none,
  some, arith, bit_and, bit_and_high, pow_sum, pow_mono, quotient_lt, u64, ltb, Bool-cases, inl,
  inr, ◌==◌,
}
use pim_sw.Library.Geometry.{Geometry}
use pim_sw.Library.Allocator.{round_up, refuse, vspace_reserve, Reservation}

-- A 64-bit word with its low `k` bits cleared.
pub clear_low : (x k : ℕ) → k ≤ 64 → x < 2 ^ 64 → bit_and x (2 ^ 64 - 2 ^ k) ≡ x / 2 ^ k * 2 ^ k
clear_low x k h w =
    let m = 64 - k in
    let pos : 0 < 2 ^ k = omega (arith, one-le-pow k 2) in
    let whole : 2 ^ 64 ≡ 2 ^ m * 2 ^ k =
      (let e : 64 ≡ m + k = omega (arith, h) in ap (λ t. 2 ^ t) e) ∙ pow_sum m k in
    let mask : 2 ^ 64 - 2 ^ k ≡ 2 ^ k * (2 ^ m - 1) =
      let t = 2 ^ m - 1 in
      let up : 2 ^ m ≡ suc t = omega (arith, one-le-pow m 2) in
      omega (arith, whole, ap (λ n. n * 2 ^ k) up, suc-mul t (2 ^ k), mul_comm t (2 ^ k)) in
    let small : x / 2 ^ k < 2 ^ m = quotient_lt x (2 ^ k) (2 ^ m) pos (omega (arith, w, whole)) in
    rw mask (bit_and_high x k m ∙ ap (λ t. t * 2 ^ k) (mod-eq_of_lt small))

-- Rounding up, where the sum does not wrap.
round_up_lem :
    (nbytes k : ℕ)
    → k ≤ 64
    → nbytes + 2 ^ k - 1 < 2 ^ 64
    → round_up nbytes (2 ^ k) ≡ (nbytes + 2 ^ k - 1) / 2 ^ k * 2 ^ k
unfolding round_up
round_up_lem nbytes k h w =
    let word : u64 (nbytes + 2 ^ k - 1) ≡ nbytes + 2 ^ k - 1 = omega (arith, w) in
    rw word (clear_low (nbytes + 2 ^ k - 1) k h w)

-- Rounding up, where the sum wraps: the result is 0.
round_up-wraps :
    (nbytes k : ℕ)
    → k ≤ 64
    → nbytes < 2 ^ 64
    → 2 ^ 64 ≤ nbytes + 2 ^ k - 1
    → round_up nbytes (2 ^ k) ≡ 0
unfolding round_up
round_up-wraps nbytes k h w long =
    let x = u64 (nbytes + 2 ^ k - 1) in
    let pos : 0 < 2 ^ k = omega (arith, one-le-pow k 2) in
    let most = pow_mono k 64 h in
    let low : x < 2 ^ k = omega (arith, w, long, most) in
    let quot : x / 2 ^ k ≡ 0 = div-eq_of_lt low in
    clear_low x k h (omega arith) ∙ ap (λ t. t * 2 ^ k) quot ∙ omega arith

-- A request that passes the tests, for a region whose granule is a power of two, is for one of the two
-- regions and has no flag but PIM_ALLOC_F_ZERO. It is rounded up to a whole number of granules:
-- at least what was asked for, less than one granule more, and within the region.
pub refuse_passed :
    (g : Geometry) (nbytes mem flags k : ℕ)
    → (g.mem mem).gran ≡ 2 ^ k
    → k ≤ 64
    → nbytes < 2 ^ 64
    → refuse g nbytes mem flags ≡ none
    → let bytes = round_up nbytes (g.mem mem).gran in
      (mem < 2)
      × (flags < 2)
      × (bytes % (g.mem mem).gran ≡ 0)
      × (0 < nbytes)
      × (nbytes ≤ bytes)
      × (bytes < nbytes + (g.mem mem).gran)
      × (bytes ≤ (g.mem mem).bytes)
unfolding refuse
refuse_passed g nbytes mem flags k e h w passed =
    let bytes = round_up nbytes (g.mem mem).gran in
    let some_bytes : 0 < nbytes = ground (arith, passed) in
    let enough : nbytes ≤ bytes = ground (arith, passed) in
    let x = nbytes + 2 ^ k - 1 in
    let pos : 0 < 2 ^ k = omega (arith, one-le-pow k 2) in
    elim (Bool-cases (ltb x (2 ^ 64))) [
      | inr long ↦ absurd (
          omega (
            arith,
            some_bytes,
            enough,
            ap (round_up nbytes) e,
            round_up-wraps nbytes k h w (ground (arith, long)),
          ))
      | inl short ↦
          let value : bytes ≡ x / 2 ^ k * 2 ^ k =
            ap (round_up nbytes) e ∙ round_up_lem nbytes k h (ground (arith, short)) in
          (
            ground (arith, passed),
            ground (arith, passed),
            rw (value, e) (mul-mod_left (x / 2 ^ k) (2 ^ k)),
            some_bytes,
            enough,
            omega (arith, value, e, div-add-mod' x (2 ^ k), pos),
            ground (arith, passed),
          )
    ]

-- For an alignment that is a power of two and at least a page, within a mapping that does not reach
-- the end of the addresses, the reservation is aligned, and with the two ends that are given back it
-- makes up the mapping.
pub vspace_reserve_parts :
    (page raw bytes k : ℕ)
    → k ≤ 64
    → page ≤ 2 ^ k
    → 0 < bytes
    → raw + bytes + 2 ^ k < 2 ^ 64
    → (v : Reservation) × (vspace_reserve page (some raw) bytes (2 ^ k) ≡ some v)
      × (v.at % 2 ^ k ≡ 0)
      × (raw + v.head ≡ v.at)
      × (v.at + bytes + v.tail ≡ raw + (bytes + 2 ^ k))
unfolding vspace_reserve
vspace_reserve_parts page raw bytes k h big pos w =
    let x = raw + 2 ^ k - 1 in
    let some_align : 0 < 2 ^ k = omega (arith, one-le-pow k 2) in
    let keep : (ltb 0 page && ltb (2 ^ k) page) ≡ false = ground (arith, big) in
    let some_bytes : (bytes == 0) ≡ false = ground (arith, pos) in
    let word : u64 x ≡ x = omega (arith, w) in
    let at = x / 2 ^ k * 2 ^ k in
    let value : bit_and x (2 ^ 64 - 2 ^ k) ≡ at = clear_low x k h (omega (arith, w)) in
    let parts = div-add-mod' x (2 ^ k) in
    let low = mod-lt x some_align in
    let span : u64 (bytes + 2 ^ k) ≡ bytes + 2 ^ k = omega (arith, w) in
    let head : sub64 at raw ≡ at - raw = omega (arith, parts, low, w) in
    let tail : sub64 (sub64 (bytes + 2 ^ k) (at - raw)) bytes ≡ 2 ^ k - (at - raw) =
      omega (arith, parts, low, w) in
    (
      record { at = at; head = at - raw; tail = 2 ^ k - (at - raw) },
      rw (keep, some_bytes, word, value, span, head, tail) refl,
      mul-mod_left (x / 2 ^ k) (2 ^ k),
      omega (arith, parts, low),
      omega (arith, parts, low, w),
    )
