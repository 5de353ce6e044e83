-- ===== src/Library/Geometry/Check.antt =====
-- What `pim_geom_check` of sw/lib/pim_geom.c promises of the geometry that it lets pass, with what
-- `pim_geom_derive` has computed of it.
use native.Mathlib.Nat.{div-add-mod'}
use pim_sw.Common.{
  parts_of, ◌↔◌, IsPow2-pos, ◌*◌, ◌/◌, ◌%◌, ◌≤◌, ◌<◌, ◌≡◌, false, not, ◌&&◌, arith, ◌==◌, none, u64,
  lone_bit_iff, IsPow2,
}
use pim_sw.Library.Geometry.{Region, Geometry, dram, gpr, check_region, geom_check, is_ch_ro}

-- What holds of a region that passes.
pub record RegionFits (r : Region) : Type 0 where
  pub page : IsPow2 r.hugepage_bytes
  pub grain : IsPow2 r.gran
  pub divides : (r.hugepage_bytes / r.gran) * r.gran ≡ r.hugepage_bytes
  pub few : r.hugepage_bytes / r.gran ≤ 64
  pub aligned : r.base % r.hugepage_bytes ≡ 0
  pub whole : r.nr_hugepages * r.hugepage_bytes ≡ r.bytes
  pub some_bytes : 0 < r.bytes

check_region-RegionFits : (r : Region) → check_region r ≡ none → RegionFits r
unfolding check_region
check_region-RegionFits r h = record {
  page = (lone_bit_iff r.hugepage_bytes).0 (ground arith);
  grain = (lone_bit_iff r.gran).0 (ground arith);
  divides = ground (arith, div-add-mod' r.hugepage_bytes r.gran);
  few = ground arith;
  aligned = ground arith;
  whole = ground (arith, div-add-mod' r.bytes r.hugepage_bytes);
  some_bytes = ground arith;
}

-- What holds of a geometry that passes.
pub record Fits (g : Geometry) : Type 0 where
  pub nch : IsPow2 g.nch
  pub most : g.nch ≤ 8
  pub nbank : IsPow2 g.nbank
  pub row_bytes : IsPow2 g.row_bytes
  pub long_row : 32 ≤ g.row_bytes
  pub unit : g.unit_bytes ≡ u64 (u64 (g.nch * g.nbank) * g.row_bytes)
  pub dram_fits : RegionFits (g.mem dram)
  pub gpr_fits : RegionFits (g.mem gpr)
  pub straddle : (g.mem dram).hugepage_bytes % g.unit_bytes ≡ 0
  pub even : (is_ch_ro g.map && not ((g.mem dram).bytes % g.nch == 0)) ≡ false
  pub words : (g.mem gpr).gran % 32 ≡ 0

pub geom_check-Fits : (g : Geometry) → geom_check g ≡ none → Fits g
unfolding geom_check
geom_check-Fits g h = record {
  nch = (lone_bit_iff g.nch).0 (ground arith);
  most = ground arith;
  nbank = (lone_bit_iff g.nbank).0 (ground arith);
  row_bytes = (lone_bit_iff g.row_bytes).0 (ground arith);
  long_row = ground arith;
  unit = ground arith;
  dram_fits = check_region-RegionFits (g.mem dram) (ground arith);
  gpr_fits = check_region-RegionFits (g.mem gpr) (ground arith);
  straddle = ground arith;
  even = ground arith;
  words = ground arith;
}

RegionFits-check_region : (r : Region) → RegionFits r → check_region r ≡ none
unfolding check_region
RegionFits-check_region r f =
    let hp = (lone_bit_iff r.hugepage_bytes).1 f.page in
    let gp = (lone_bit_iff r.gran).1 f.grain in
    let at_least : 0 < r.hugepage_bytes = IsPow2-pos f.page in
    let whole =
      parts_of r.bytes r.nr_hugepages 0 r.hugepage_bytes (omega (arith, f.whole)) at_least in
    ground (arith, hp, gp, div-add-mod' r.hugepage_bytes r.gran, f, whole)

-- The check passes a geometry exactly when all that it promises holds.
pub geom_check_iff : (g : Geometry) → (geom_check g ≡ none) ↔ Fits g
unfolding geom_check
geom_check_iff g = (
  geom_check-Fits g,
  λ f. ground (
    arith,
    (lone_bit_iff g.nch).1 f.nch,
    (lone_bit_iff g.nbank).1 f.nbank,
    (lone_bit_iff g.row_bytes).1 f.row_bytes,
    RegionFits-check_region (g.mem dram) f.dram_fits,
    RegionFits-check_region (g.mem gpr) f.gpr_fits,
    f,
  ),
)
