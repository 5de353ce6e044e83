-- ===== src/Library/Resolve/Whole.antt =====
-- A request for one granule, at a granule's start, is one run.
use native.Mathlib.Nat.{one-le-pow}
use pim_sw.Common.{
  ℕ, zero, suc, ◌+◌, ◌-◌, ◌*◌, ◌/◌, ◌^◌, ◌≤◌, ◌<◌, ◌≡◌, refl, false, arith, ltb, bit_and, min, u32,
  add64, sub64, bit_and_mask, parts_of, block_le, ◌==◌,
}
use pim_sw.Library.Geometry.{Geometry, Region}
use pim_sw.Library.Records.{Rec, Table}
use pim_sw.Library.Records.Lookup.{Inside, Ordered, rec_lookup-found}
use pim_sw.Library.Resolve.{found, extend, resolve_in, resolve}
use pim_sw.Library.Resolve.Run.{Covers}

extend_enough :
    (fuel : ℕ) (r : Rec) (gran len gi avail : ℕ)
    → len ≤ avail
    → extend fuel r gran len gi avail ≡ avail
unfolding extend
extend_enough zero r gran len gi avail h = refl
extend_enough (suc fuel) r gran len gi avail h =
    let e : ltb avail len ≡ false = ground arith in rw e refl

-- From the record on, for the start of granule `q`.
resolve_in-granule :
    (region : Region) (r : Rec) (off q : ℕ)
    → Covers region r
    → off ≡ q * region.gran
    → q < r.nr_grans
    → resolve_in region r off region.gran
      ≡ found r.mem (r.gran_addr q) (sub64 (r.gran_addr q) region.base) region.gran
unfolding resolve_in
resolve_in-granule region r off q c e h =
    let gran = region.gran in
    let k = region.gran_shift in
    let pos : 0 < gran = omega (arith, c.shift, one-le-pow k 2) in
    let (d, m) = parts_of off q 0 gran (omega (arith, e)) pos in
    let at : u32 (off / 2 ^ k) ≡ q = rw c.shift (omega (arith, d, h, c.few)) in
    let inner : bit_and off (gran - 1) ≡ 0 = rw (← c.shift) (rw (bit_and_mask off k, c.shift) m) in
    let fits : ltb (r.bytes - off) gran ≡ false =
      ground (arith, c.size, e, block_le q r.nr_grans gran h) in
    let axi : add64 (r.gran_addr q) 0 ≡ r.gran_addr q = omega (arith, c.below q h) in
    let run : min (extend r.nr_grans r gran gran q (gran - 0)) gran ≡ gran =
      omega (arith, extend_enough r.nr_grans r gran gran q (gran - 0) (omega arith)) in
    rw (at, inner, fits, axi, run) refl

-- In a table in order, the start of a granule of an allocation, other than NULL, is resolved to that
-- granule's place on the card, whole.
pub resolve-granule :
    (t : Table) (ptr i : ℕ)
    → Ordered t
    → i < t.nallocs
    → Inside (t.allocs i) ptr
    → 0 < ptr
    → (g : Geometry) (q : ℕ)
    → let r = t.allocs i in
      let region = g.mem r.mem in
      Covers region r
      → ptr ≡ r.vbase + q * region.gran
      → q < r.nr_grans
      → resolve g t ptr region.gran
        ≡ found r.mem (r.gran_addr q) (sub64 (r.gran_addr q) region.base) region.gran
unfolding resolve
resolve-granule t ptr i o h inside pos g q c e l =
    let r = t.allocs i in
    let offset : sub64 ptr r.vbase ≡ ptr - r.vbase =
      omega (arith, inside.0, inside.1, o.room i h) in
    let there : (ptr == 0) ≡ false = ground (arith, pos) in
    rw (there, rec_lookup-found t ptr i o h inside, resolve, offset)
      (resolve_in-granule (g.mem r.mem) r (ptr - r.vbase) q c (omega (arith, e)) l)
