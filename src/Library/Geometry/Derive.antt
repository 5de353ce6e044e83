-- ===== src/Library/Geometry/Derive.antt =====
-- What a device that opens works with: the geometry that the driver reports, after
-- `pim_geom_derive` and `pim_geom_check` of sw/lib/pim_geom.c.
use native.Mathlib.Nat.{mul_comm, mod-lt, mul-le-mul_right, mul_assoc}
use pim_sw.Common.{
  ◌-◌, sym, ap, ◌∙◌, three_parts, three_back, factor_pos, pow_mono, ℕ, zero, suc, ◌+◌, ◌*◌, ◌/◌,
  ◌%◌, ◌^◌, ◌≤◌, ◌<◌, ◌≡◌, refl, false, not, ◌&&◌, arith, ltb, ◌==◌, none, Bool-cases, inl, inr,
  u32, u64, pow_strict, pow_cut, product-IsPow2, IsPow2-pos,
}
use pim_sw.Library.Geometry.{
  derive_region, Region, Geometry, dram, gpr, robaco_row, log2_from, log2u, geom_derive, geom_check,
  is_ch_ro,
}
use pim_sw.Library.Geometry.Check.{RegionFits, Fits, geom_check-Fits}

-- `k` rounds of the loop reach any power of two that is at most `k` places on.
log2_from-pow : (fuel s k : ℕ) → s ≤ k → k ≤ s + fuel → log2_from fuel s (2 ^ k) ≡ k
unfolding log2_from
log2_from-pow zero s k p q = omega arith
log2_from-pow (suc fuel) s k p q = elim (Bool-cases (s == k)) [
  | inl same ↦ let e : s ≡ k = ground arith in rw e (ground arith)
  | inr less ↦ ground (
    arith,
    pow_strict s k (ground arith),
    log2_from-pow fuel (s + 1) k (ground arith) (omega arith),
  )
]

-- The loop of `log2u` ends within its 64 rounds, with the exponent, on a power of two of 64 bits.
pub log2u-pow : (k : ℕ) → k < 64 → log2u (2 ^ k) ≡ k
unfolding log2u
log2u-pow k h = log2_from-pow 64 0 k (omega arith) (omega arith)

-- The fields have the widths of the C type.
pub record Words (g : Geometry) : Type 0 where
  pub nbank : g.nbank < 2 ^ 32
  pub row_bytes : g.row_bytes < 2 ^ 32
  pub unit_bytes : g.unit_bytes < 2 ^ 64
  pub nr_hugepages : (m : ℕ) → (g.mem m).nr_hugepages < 2 ^ 64
  pub bytes : (m : ℕ) → (g.mem m).bytes < 2 ^ 64
  pub hugepage_bytes : (m : ℕ) → (g.mem m).hugepage_bytes < 2 ^ 64

-- What the rest of the library rests on. In each region a granule is a shift by `gran_shift`, and a
-- hugepage is `grans_per_hugepage` granules, at most 64; the broadcast unit is the product of the
-- topology, none of its products wraps, and it divides the hugepage of the DRAM.
pub record Usable (g : Geometry) : Type 0 where
  pub nch_pos : 0 < g.nch
  pub nch_most : g.nch ≤ 8
  pub nbank_pos : 0 < g.nbank
  pub nbank_word : g.nbank < 2 ^ 32
  pub row_long : 32 ≤ g.row_bytes
  pub row_word : g.row_bytes < 2 ^ 32
  pub rbr : robaco_row g ≡ g.nbank * g.row_bytes
  pub unit : g.unit_bytes ≡ g.nch * (g.nbank * g.row_bytes)
  pub straddle : (g.mem dram).hugepage_bytes % g.unit_bytes ≡ 0
  pub even : (is_ch_ro g.map && not ((g.mem dram).bytes % g.nch == 0)) ≡ false
  pub gran_dram : (g.mem dram).gran ≡ g.unit_bytes
  pub gran_gpr : (g.mem gpr).gran ≡ (g.mem gpr).hugepage_bytes
  pub shift : (m : ℕ) → m < 2 → 2 ^ (g.mem m).gran_shift ≡ (g.mem m).gran
  pub grans :
      (m : ℕ) → m < 2 → (g.mem m).grans_per_hugepage * (g.mem m).gran ≡ (g.mem m).hugepage_bytes
  pub grans_most : (m : ℕ) → m < 2 → (g.mem m).grans_per_hugepage ≤ 64
  pub page : (m : ℕ) → m < 2 → 0 < (g.mem m).hugepage_bytes
  pub aligned : (m : ℕ) → m < 2 → (g.mem m).base % (g.mem m).hugepage_bytes ≡ 0
  pub whole : (m : ℕ) → m < 2 → (g.mem m).nr_hugepages * (g.mem m).hugepage_bytes ≡ (g.mem m).bytes

-- What holds of both regions.
both {ℓ} : (P : ℕ → Type ℓ) → P 0 → P 1 → (m : ℕ) → m < 2 → P m
both P p q zero h = p
both P p q (suc zero) h = q
both P p q (suc (suc m)) h = absurd (omega arith)

-- What `pim_geom_derive` computes of a region.
-- `pim_geom_derive` sets the two granules, and leaves what the driver reports.
pub record Derived (g d : Geometry) : Type 0 where
  pub nch : d.nch ≡ g.nch
  pub nbank : d.nbank ≡ g.nbank
  pub row_bytes : d.row_bytes ≡ g.row_bytes
  pub map : d.map ≡ g.map
  pub unit : d.unit_bytes ≡ g.unit_bytes
  pub base : (m : ℕ) → (d.mem m).base ≡ (g.mem m).base
  pub bytes : (m : ℕ) → (d.mem m).bytes ≡ (g.mem m).bytes
  pub page : (m : ℕ) → (d.mem m).hugepage_bytes ≡ (g.mem m).hugepage_bytes
  pub count : (m : ℕ) → (d.mem m).nr_hugepages ≡ (g.mem m).nr_hugepages
  pub gran_dram : (d.mem dram).gran ≡ g.unit_bytes
  pub gran_gpr : (d.mem gpr).gran ≡ (g.mem gpr).hugepage_bytes

pub geom_derive-Derived : (g : Geometry) → Derived g (geom_derive g)
unfolding geom_derive derive_region
geom_derive-Derived g = record {
  nch = refl;
  nbank = refl;
  row_bytes = refl;
  map = refl;
  unit = refl;
  base = λ m. ground arith;
  bytes = λ m. ground arith;
  page = λ m. ground arith;
  count = λ m. ground arith;
  gran_dram = refl;
  gran_gpr = refl;
}

derive-gran :
    (g : Geometry)
    → let d = geom_derive g in
      ((d.mem dram).gran ≡ d.unit_bytes) × ((d.mem gpr).gran ≡ (d.mem gpr).hugepage_bytes)
unfolding geom_derive derive_region
derive-gran g = (refl, refl)

derive-shift :
    (g : Geometry) (m : ℕ)
    → m < 2
    → 0 < ((geom_derive g).mem m).gran
    → (((geom_derive g).mem m).gran_shift ≡ log2u ((geom_derive g).mem m).gran)
      × (((geom_derive g).mem m).grans_per_hugepage
          ≡ u32 (((geom_derive g).mem m).hugepage_bytes / ((geom_derive g).mem m).gran))
unfolding geom_derive derive_region
derive-shift g zero h p = (ground (arith, p), ground (arith, p))
derive-shift g (suc zero) h p = (ground (arith, p), ground (arith, p))
derive-shift g (suc (suc m)) h p = absurd (omega arith)

derive-Words : (g : Geometry) → Words g → Words (geom_derive g)
unfolding geom_derive derive_region
derive-Words g w = record {
  nbank = w.nbank;
  row_bytes = w.row_bytes;
  unit_bytes = w.unit_bytes;
  nr_hugepages = λ m. ground (arith, w.nr_hugepages m);
  bytes = λ m. ground (arith, w.bytes m);
  hugepage_bytes = λ m. ground (arith, w.hugepage_bytes m);
}

-- The shift of a region that passes the check.
region-shift :
    (r : Region)
    → RegionFits r
    → r.gran < 2 ^ 64
    → (2 ^ log2u r.gran ≡ r.gran) × (u32 (r.hugepage_bytes / r.gran) * r.gran ≡ r.hugepage_bytes)
region-shift r f w =
    let (k, e) = f.grain in
    let small : k < 64 = elim (Bool-cases (ltb k 64)) [
      | inl fits ↦ ground (arith, fits)
      | inr long ↦ absurd (omega (arith, pow_mono 64 k (ground (arith, long)), e, w))
    ] in
    let fits : u32 (r.hugepage_bytes / r.gran) ≡ r.hugepage_bytes / r.gran = omega (arith, f.few) in
    (rw (e, log2u-pow k small), rw fits f.divides)

-- The broadcast unit that passes the check is the product, not only modulo 2 ^ 64.
unit-exact :
    (g : Geometry)
    → Words g
    → Fits g
    → 0 < g.unit_bytes
    → (robaco_row g ≡ g.nbank * g.row_bytes) × (g.unit_bytes ≡ g.nch * (g.nbank * g.row_bytes))
unfolding robaco_row
unit-exact g w f pos =
    let short : g.nch * g.nbank < 2 ^ 35 =
      omega (arith, mul-le-mul_right g.nbank f.most, w.nbank) in
    let row : g.nbank * g.row_bytes ≤ 2 ^ 32 * g.row_bytes =
      mul-le-mul_right g.row_bytes (omega (arith, w.nbank)) in
    let same : g.nch * g.nbank * g.row_bytes ≡ g.nch * (g.nbank * g.row_bytes) =
      mul_assoc g.nch g.nbank g.row_bytes in
    let (k, e) =
      product-IsPow2 (g.nch * g.nbank) g.row_bytes (product-IsPow2 g.nch g.nbank f.nch f.nbank)
        f.row_bytes in
    let inner : u64 (g.nch * g.nbank) ≡ g.nch * g.nbank = omega (arith, short) in
    let outer : g.unit_bytes ≡ u64 (g.nch * g.nbank * g.row_bytes) = rw inner at f.unit in
    (
      omega (arith, row, w.row_bytes),
      elim (pow_cut k) [
        | inl fits ↦ omega (arith, outer, same, e, fits)
        | inr cut ↦ absurd (omega (arith, outer, e, cut, pos))
      ],
    )

-- A device opens only with a usable geometry: what the driver reports in fields of the C widths,
-- once derived and passed by the check, is usable.
pub derive-Usable :
    (g : Geometry) → Words g → geom_check (geom_derive g) ≡ none → Usable (geom_derive g)
derive-Usable g w h =
    let d = geom_derive g in
    let f = geom_check-Fits d h in
    let v = derive-Words g w in
    let (gd, gg) = derive-gran g in
    let pd = IsPow2-pos f.dram_fits.grain in
    let pg = IsPow2-pos f.gpr_fits.grain in
    let (rbr, unit) = unit-exact d v f (omega (arith, gd, pd)) in
    let (sd, nd) = derive-shift g dram (omega arith) pd in
    let (sg, ng) = derive-shift g gpr (omega arith) pg in
    let (ed, td) = region-shift (d.mem dram) f.dram_fits (omega (arith, gd, v.unit_bytes)) in
    let (eg, tg) = region-shift (d.mem gpr) f.gpr_fits (omega (arith, gg, v.hugepage_bytes gpr)) in
    record {
      nch_pos = IsPow2-pos f.nch;
      nch_most = f.most;
      nbank_pos = IsPow2-pos f.nbank;
      nbank_word = v.nbank;
      row_long = f.long_row;
      row_word = v.row_bytes;
      rbr = rbr;
      unit = unit;
      straddle = f.straddle;
      even = f.even;
      gran_dram = gd;
      gran_gpr = gg;
      shift = both _ (rw sd ed) (rw sg eg);
      grans = both _ (rw nd td) (rw ng tg);
      grans_most = both _ (omega (arith, nd, f.dram_fits.few)) (omega (arith, ng, f.gpr_fits.few));
      page = both _ (IsPow2-pos f.dram_fits.page) (IsPow2-pos f.gpr_fits.page);
      aligned = both _ f.dram_fits.aligned f.gpr_fits.aligned;
      whole = both _ f.dram_fits.whole f.gpr_fits.whole;
    }

-- On a usable geometry, an operand of one broadcast unit, aligned to the unit from the start of the
-- DRAM region, lies within one hugepage: its first and its last byte have the same hugepage index.
pub unit_one_hugepage :
    (g : Geometry) (off : ℕ)
    → Usable g
    → off % g.unit_bytes ≡ 0
    → off / (g.mem dram).hugepage_bytes ≡ (off + g.unit_bytes - 1) / (g.mem dram).hugepage_bytes
unit_one_hugepage g off v h =
    let u = g.unit_bytes in
    let k = (g.mem dram).grans_per_hugepage in
    let page : (g.mem dram).hugepage_bytes ≡ k * u =
      sym (v.grans dram (omega arith)) ∙ ap (λ x. k * x) v.gran_dram in
    let some : 0 < k * u = omega (arith, page, v.page dram (omega arith)) in
    let pos : 0 < u = factor_pos k u some in
    let some_gran : 0 < k = factor_pos u k (omega (arith, some, mul_comm k u)) in
    let p = off / (k * u) in
    let q = off / u % k in
    let r = mod-lt (off / u) some_gran in
    let whole : p * (k * u) + q * u + 0 ≡ off = omega (arith, three_parts off u k, h) in
    let end : p * (k * u) + q * u + (u - 1) ≡ off + u - 1 = omega (arith, whole, pos) in
    let first = (three_back p q 0 k u r pos).0 in
    let last = (three_back p q (u - 1) k u r (omega (arith, pos))).0 in
    rw page (sym (rw end at last))
