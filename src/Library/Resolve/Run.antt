-- ===== src/Library/Resolve/Run.antt =====
-- The run that `pim_resolve_ctx` returns is one stretch of card addresses: each of its bytes is where
-- the table of granules has it.
use native.Mathlib.Nat.{one-le-pow, div-add-mod', mod-lt, suc-mul, add-mul}
use pim_sw.Common.{
  ℕ, zero, suc, ◌+◌, ◌-◌, ◌*◌, ◌/◌, ◌%◌, ◌^◌, ◌≤◌, ◌<◌, ◌≡◌, refl, sym, ◌∙◌, ap, false, ◌&&◌, arith,
  ltb, ◌==◌, bit_and, min, u32, add64, sub64, Bool-cases, inl, inr, parts_of, quotient_lt,
  bit_and_mask,
}
use pim_sw.Library.Geometry.{Region}
use pim_sw.Library.Records.{Rec}
use pim_sw.Library.Resolve.{found, extend, resolve_in}

-- `n + 1` granules from `g` on follow one another on the card.
abbrev pub Follow : Rec → ℕ → ℕ → ℕ → Type 0
Follow r gran g n = (i : ℕ) → i ≤ n → r.gran_addr (g + i) ≡ r.gran_addr g + i * gran

-- No granule of the record reaches the end of the 64-bit addresses.
abbrev pub Below : Rec → ℕ → Type 0
Below r gran = (i : ℕ) → i < r.nr_grans → r.gran_addr i + gran < 2 ^ 64

Follow-start : (r : Rec) (gran g : ℕ) → Follow r gran g 0
Follow-start r gran g i p =
    let e : i ≡ 0 = omega arith in
    let zero_on : g + 0 ≡ g = omega arith in rw (e, zero_on) (omega arith)

extend-Follow :
    (fuel : ℕ) (r : Rec) (gran len g n inner avail : ℕ)
    → Below r gran
    → g + n < r.nr_grans
    → inner + avail ≡ suc n * gran
    → Follow r gran g n
    → (m : ℕ) × (g + m < r.nr_grans)
      × (inner + extend fuel r gran len (g + n) avail ≡ suc m * gran)
      × Follow r gran g m
unfolding extend
extend-Follow zero r gran len g n inner avail w h e f = (n, h, e, f)
extend-Follow (suc fuel) r gran len g n inner avail w h e f =
    elim (Bool-cases (
      ltb avail len
      && ltb (g + n + 1) r.nr_grans
      && r.gran_addr (g + n + 1) == add64 (r.gran_addr (g + n)) gran)) [
        | inr stop ↦ rw stop (n, h, e, f)
        | inl on ↦
            let s : g + n + 1 ≡ g + suc n = omega arith in
            let next : r.gran_addr (g + suc n) ≡ r.gran_addr g + suc n * gran =
              ap r.gran_addr (sym s)
              ∙ ground (arith, on, w (g + n) h, f n (omega arith), suc-mul n gran) in
            rw (on, s)
              (extend-Follow fuel r gran len g (suc n) inner (avail + gran) w (ground (arith, on))
                (omega (arith, e, suc-mul (suc n) gran))
                (λ i p. elim (Bool-cases (i == suc n)) [
                  | inl last ↦ let q : i ≡ suc n = ground (arith, last) in rw q next
                  | inr before ↦ f i (ground (arith, before))
                ]))
      ]

-- The record covers its bytes with granules of the region.
pub record Covers (region : Region) (r : Rec) : Type 0 where
  pub shift : 2 ^ region.gran_shift ≡ region.gran
  pub size : r.bytes ≡ r.nr_grans * region.gran
  pub few : r.nr_grans < 2 ^ 32
  pub below : Below r region.gran

-- Where the granules `g .. g + m` follow one another, a byte of that stretch is found by its offset.
byte_at :
    (r : Rec) (gran g m off b : ℕ)
    → 0 < gran
    → Follow r gran g m
    → off / gran ≡ g
    → off % gran + b < suc m * gran
    → r.gran_addr g + off % gran + b ≡ r.gran_addr ((off + b) / gran) + (off + b) % gran
byte_at r gran g m off b pos f at h =
    let t = off % gran + b in
    let i = t / gran in
    let low = mod-lt t pos in
    let most : i < suc m = quotient_lt t gran (suc m) pos h in
    let whole : off + b ≡ (g + i) * gran + t % gran = omega (
      arith,
      div-add-mod' off gran,
      ap (λ x. x * gran) at,
      div-add-mod' t gran,
      add-mul g i gran,
    ) in
    let (d, e) = parts_of (off + b) (g + i) (t % gran) gran whole low in
    rw (d, e) (omega (arith, f i (omega (arith, most)), div-add-mod' t gran))

-- A request of at least one byte within the allocation is resolved to a run of at least one byte and
-- at most the bytes asked for, in which each byte stands where the table of granules has it.
pub resolve_in_lem :
    (region : Region) (r : Rec) (off len : ℕ)
    → Covers region r
    → 0 < len
    → off + len ≤ r.bytes
    → (axi run : ℕ) × (resolve_in region r off len ≡ found r.mem axi (sub64 axi region.base) run)
      × (0 < run)
      × (run ≤ len)
      × ((b : ℕ)
          → b < run
          → axi + b ≡ r.gran_addr ((off + b) / region.gran) + (off + b) % region.gran)
unfolding resolve_in
resolve_in_lem region r off len c some h =
    let gran = region.gran in
    let k = region.gran_shift in
    let pos : 0 < gran = omega (arith, c.shift, one-le-pow k 2) in
    let g = off / gran in
    let few : g < r.nr_grans =
      quotient_lt off gran r.nr_grans pos (omega (arith, c.size, h, some)) in
    let at : u32 (off / 2 ^ k) ≡ g = rw c.shift (omega (arith, few, c.few)) in
    let inner : bit_and off (gran - 1) ≡ off % gran = rw (← c.shift) (bit_and_mask off k) in
    let low = mod-lt off pos in
    let zero_on : g + 0 ≡ g = omega arith in
    let (m, there, sum, follow) =
      extend-Follow r.nr_grans r gran len g 0 (off % gran) (gran - off % gran) c.below
        (omega (arith, few)) (omega (arith, low)) (λ i p. Follow-start r gran g i p) in
    let avail = extend r.nr_grans r gran len g (gran - off % gran) in
    let total : off % gran + avail ≡ suc m * gran = rw zero_on at sum in
    let short : ltb (r.bytes - off) len ≡ false = ground (arith, h) in
    let axi : add64 (r.gran_addr g) (off % gran) ≡ r.gran_addr g + off % gran =
      omega (arith, c.below g few, low) in
    (
      r.gran_addr g + off % gran,
      min avail len,
      rw (at, inner, short, axi) refl,
      omega (arith, total, low, suc-mul m gran, some),
      omega arith,
      λ b p. byte_at r gran g m off b pos follow refl (omega (arith, total, p)),
    )
