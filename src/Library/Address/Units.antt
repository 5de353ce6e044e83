-- ===== src/Library/Address/Units.antt =====
-- `pim_addr_unit_ctx` of sw/lib/pim_addr.c finds each unit of an operand whole on the card.
use native.Mathlib.Nat.{div-lt_iff_lt-mul, mul-le-mul_right, one-le-pow, add-mul, suc-mul}
use pim_sw.Common.{
  sym, ℕ, suc, ◌+◌, ◌-◌, ◌*◌, ◌/◌, ◌%◌, ◌^◌, ◌≤◌, ◌<◌, ◌≡◌, refl, false, some, arith, ltb, leb,
  ◌==◌, ◌||◌, u32, u64, Bool-cases, inl, inr, ap, ◌∙◌, mod_of_parts, not,
}
use pim_sw.Library.Geometry.{Geometry, dram, geom_decode}
use pim_sw.Library.Records.{Table, Rec}
use pim_sw.Library.Records.Lookup.{Inside, Ordered}
use pim_sw.Library.Resolve.{usable, where_is}
use pim_sw.Library.Resolve.Run.{Covers}
use pim_sw.Library.Resolve.Pointer.{usable-where_is}
use pim_sw.Library.Resolve.Whole.{resolve-granule}
use pim_sw.Library.Address.{unit_count, addr_unit, unit_from, unit_at}

-- An operand: a range of DRAM within an allocation that its granules cover, from the start of its
-- unit `q` on.
pub record Operand (g : Geometry) (t : Table) (p len i q : ℕ) : Type 0 where
  pub order : Ordered t
  pub there : i < t.nallocs
  pub not_null : 0 < p
  pub some_len : 0 < len
  pub in_dram : (t.allocs i).mem ≡ dram
  pub unit : (g.mem (t.allocs i).mem).gran ≡ g.unit_bytes
  pub covers : Covers (g.mem (t.allocs i).mem) (t.allocs i)
  pub start : p ≡ (t.allocs i).vbase + q * g.unit_bytes
  pub fits : p + len ≤ (t.allocs i).vbase + (t.allocs i).bytes
  pub words : len + g.unit_bytes < 2 ^ 64

scaled_lt : (a b u : ℕ) → a * u < b * u → a < b
scaled_lt a b u h = elim (Bool-cases (ltb a b)) [
  | inl e ↦ ground (arith, e)
  | inr e ↦ absurd (omega (arith, h, mul-le-mul_right {m = b} {n = a} u (ground (arith, e))))
]

module _ (g : Geometry) (t : Table) (p len i q : ℕ) (o : Operand g t p len i q) where
  abbrev rec : Rec
  rec = t.allocs i

  unit_pos : 0 < g.unit_bytes
  unit_pos = omega (arith, o.covers.shift, o.unit, one-le-pow (g.mem (t.allocs i).mem).gran_shift 2)

  size : rec.bytes ≡ rec.nr_grans * g.unit_bytes
  size = o.covers.size ∙ ap (λ u. rec.nr_grans * u) o.unit

  -- The start of the `k`-th unit is that of a granule of the allocation.
  granule : (k : ℕ) → k * g.unit_bytes < len → q + k < rec.nr_grans
  granule k h =
      scaled_lt (q + k) rec.nr_grans g.unit_bytes
        (omega (arith, add-mul q k g.unit_bytes, size, o.start, o.fits, h))

  queries : (usable t p ≡ rec.vbase + rec.bytes - p) × (where_is t p ≡ some rec.mem)
  queries =
      let inside : Inside rec p = (omega (arith, o.start), omega (arith, o.fits, o.some_len)) in
      let (a, b, c) =
        usable-where_is t p i o.order o.there inside o.not_null g (rec.vbase + rec.bytes)
          (omega (arith, o.not_null)) in
      (a, b)

  -- What is left from `p` on is a whole number of units.
  left_whole : (rec.vbase + rec.bytes - p) % g.unit_bytes ≡ 0
  left_whole =
      let u = g.unit_bytes in
      let first = granule 0 (omega (arith, o.some_len)) in
      let d = rec.nr_grans - q in
      let parts : rec.nr_grans * u ≡ d * u + q * u =
        ap (λ n. n * u) (let e : rec.nr_grans ≡ d + q = omega (arith, first) in e)
        ∙ add-mul d q u in
      let e : rec.vbase + rec.bytes - p ≡ d * u + 0 = omega (arith, parts, size, o.start) in
      ap (λ n. n % u) e ∙ mod_of_parts d 0 u unit_pos

  count_lem : unit_count g t p len ≡ (len + g.unit_bytes - 1) / g.unit_bytes
  unfolding unit_count
  count_lem =
      let (a, b) = queries in
      let there : (p == 0 || len == 0) ≡ false = ground (arith, o.not_null, o.some_len) in
      let in_dram : not (rec.mem == dram) ≡ false = ground (arith, o.in_dram) in
      let room : (usable t p == 0 || ltb (usable t p) len) ≡ false =
        ground (arith, a, o.fits, o.some_len) in
      let aligned : not (usable t p % g.unit_bytes == 0) ≡ false =
        ground (arith, ap (λ n. n % g.unit_bytes) a, left_whole) in
      let word : u64 (len + g.unit_bytes - 1) ≡ len + g.unit_bytes - 1 = omega (arith, o.words) in
      rw (there, b, in_dram, room, aligned, word) refl

  counted : (k : ℕ) → k * g.unit_bytes < len → k < (len + g.unit_bytes - 1) / g.unit_bytes
  counted k h =
      let u = g.unit_bytes in
      let n = (len + u - 1) / u in
      elim (Bool-cases (ltb k n)) [
        | inl e ↦ ground (arith, e)
        | inr e ↦ absurd (
            omega (
              arith,
              (div-lt_iff_lt-mul unit_pos).0 (let less : n < suc k = ground (arith, e) in less),
              suc-mul k u,
              h,
              unit_pos,
            ))
      ]

  -- Each unit of an operand in DRAM that begins at a unit's start is found at the place of its granule
  -- on the card, whole, with the row that the address decodes to.
  pub addr_unit-unit_at :
      (k : ℕ)
      → k * g.unit_bytes < len
      → let a = (t.allocs i).gran_addr (q + k) in
        addr_unit g t p len k false ≡ unit_at a (geom_decode g a).row (u32 k)
  unfolding addr_unit unit_from
  addr_unit-unit_at k h =
      let u = g.unit_bytes in
      let c = counted k h in
      let some_units : (unit_count g t p len == 0) ≡ false = ground (arith, count_lem, c) in
      let inside_count : leb (unit_count g t p len) k ≡ false = ground (arith, count_lem, c) in
      let ptr : u64 (p + k * u) ≡ p + k * u = omega (arith, o.fits, h, o.order.room i o.there) in
      let at : p + k * u ≡ rec.vbase + (q + k) * (g.mem rec.mem).gran =
        omega (arith, o.start, add-mul q k u) ∙ ap (λ n. rec.vbase + (q + k) * n) (sym o.unit) in
      let inside : Inside rec (p + k * u) = (omega (arith, o.start), omega (arith, o.fits, h)) in
      let answer =
        resolve-granule t (p + k * u) i o.order o.there inside (omega (arith, o.not_null)) g (q + k)
          o.covers at (granule k h) in
      let answer2 = rw o.unit at answer in
      let whole : not (u == u) ≡ false = ground arith in
      rw (some_units, inside_count, ptr, answer2, unit_from, whole) refl
