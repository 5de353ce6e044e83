-- ===== src/Library/Resolve/Pointer.antt =====
-- What the three queries say of a pointer into an allocation of the table.
use pim_sw.Common.{
  true, ℕ, ◌+◌, ◌-◌, ◌/◌, ◌%◌, ◌≤◌, ◌<◌, ◌≡◌, refl, false, some, arith, ltb, ◌==◌, sub64,
}
use pim_sw.Library.Geometry.{Geometry}
use pim_sw.Library.Records.{Table}
use pim_sw.Library.Records.Lookup.{Inside, Ordered, rec_lookup-found}
use pim_sw.Library.Resolve.{found, too_long, resolve, resolve_in, usable, where_is}
use pim_sw.Library.Resolve.Run.{Covers, resolve_in_lem}

module _ (t : Table) (ptr i : ℕ) (o : Ordered t) (h : i < t.nallocs)
    (inside : Inside (t.allocs i) ptr) (pos : 0 < ptr) where
  offset : sub64 ptr (t.allocs i).vbase ≡ ptr - (t.allocs i).vbase
  offset = omega (arith, inside.0, inside.1, o.room i h)

  -- In a table in order, a pointer other than NULL into an allocation that its granules cover is
  -- resolved, for any number of bytes that remain there, to a run of at least one of them: each
  -- byte of the run stands on the card where the granules have it.
  pub resolve-run :
      (g : Geometry) (len : ℕ)
      → Covers (g.mem (t.allocs i).mem) (t.allocs i)
      → 0 < len
      → ptr + len ≤ (t.allocs i).vbase + (t.allocs i).bytes
      → let r = t.allocs i in
        let region = g.mem r.mem in
        let off = ptr - r.vbase in
        (axi run : ℕ) × (resolve g t ptr len ≡ found r.mem axi (sub64 axi region.base) run)
        × (0 < run)
        × (run ≤ len)
        × ((b : ℕ)
            → b < run
            → axi + b ≡ r.gran_addr ((off + b) / region.gran) + (off + b) % region.gran)
  unfolding resolve
  resolve-run g len c some_len fits =
      let r = t.allocs i in
      let (axi, run, e, some_run, most, bytes) =
        resolve_in_lem (g.mem r.mem) r (ptr - r.vbase) len c some_len
          (omega (arith, inside.0, fits)) in
      let there : (ptr == 0) ≡ false = ground (arith, pos) in
      (
        axi,
        run,
        rw (there, rec_lookup-found t ptr i o h inside, resolve, offset) e,
        some_run,
        most,
        bytes,
      )

  -- In a table in order, for a pointer other than NULL into an allocation, the usable bytes are
  -- those to its end, the region is that of the record, and a longer request is refused with that
  -- number.
  pub usable-where_is :
      (g : Geometry) (len : ℕ)
      → (t.allocs i).vbase + (t.allocs i).bytes < ptr + len
      → (usable t ptr ≡ (t.allocs i).vbase + (t.allocs i).bytes - ptr)
        × (where_is t ptr ≡ some (t.allocs i).mem)
        × (resolve g t ptr len ≡ too_long (usable t ptr))
  unfolding usable where_is resolve resolve_in
  usable-where_is g len long =
      let r = t.allocs i in
      let there : (ptr == 0) ≡ false = ground (arith, pos) in
      let known = rec_lookup-found t ptr i o h inside in
      let refused : ltb (r.bytes - (ptr - r.vbase)) len ≡ true = ground (arith, inside.0, long) in
      let left : r.bytes - (ptr - r.vbase) ≡ r.vbase + r.bytes - ptr =
        omega (arith, inside.0, inside.1) in
      rw (there, known, usable, where_is, resolve, offset, refused, left) (refl, refl, refl)
