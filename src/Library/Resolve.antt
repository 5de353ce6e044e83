-- ===== src/Library/Resolve.antt =====
-- `pim_resolve_ctx`, `pim_usable_ctx` and `pim_where_ctx` of sw/lib/pim_alloc.c: from a pointer into
-- an allocation to a run of card addresses. The lock holds for the whole of a call.
pub mod Run
pub mod Pointer
pub mod Whole
pub mod Tests
use pim_sw.Common.{
  ℕ, zero, suc, ◌+◌, ◌-◌, ◌/◌, ◌^◌, Bool, true, false, ◌&&◌, Option, none, some, ltb, ◌==◌, bit_and,
  if◌then◌else◌, u32, u64, add64, sub64, min,
}
use pim_sw.Library.Geometry.{Region, Geometry}
use pim_sw.Library.Records.{Rec, Table, rec_lookup}

-- The messages, and what a call that succeeds stores through `loc` and `run`.
pub data Resolved : Type 0 where
  null_argument not_inside : Resolved
  too_long : ℕ → Resolved
  found : (mem axi off run : ℕ) → Resolved

-- The loop that extends the run, with `fuel` rounds left.
unfoldable pub extend : ℕ → Rec → ℕ → ℕ → ℕ → ℕ → ℕ
extend zero r gran len gi avail = avail
extend (suc fuel) r gran len gi avail =
    let rest = extend fuel r gran len (gi + 1) (avail + gran) in
    if ltb avail len
      && ltb (gi + 1) r.nr_grans
      && r.gran_addr (gi + 1) == add64 (r.gran_addr gi) gran
    then rest
    else avail

-- From the record on, for a pointer that is `off` bytes into it.
unfoldable pub resolve_in : Region → Rec → ℕ → ℕ → Resolved
unfolding extend
resolve_in region r off len =
    let gi = u32 (off / 2 ^ region.gran_shift) in
    let inner = bit_and off (region.gran - 1) in
    let addr = add64 (r.gran_addr gi) inner in
    let avail = extend r.nr_grans r region.gran len gi (region.gran - inner) in
    if ltb (r.bytes - off) len
    then too_long (r.bytes - off)
    else found r.mem addr (sub64 addr region.base) (min avail len)

unfoldable pub resolve : Geometry → Table → ℕ → ℕ → Resolved
unfolding resolve_in
resolve g t ptr len = if ptr == 0 then null_argument else elim (rec_lookup t ptr) [
  | none ↦ not_inside
  | some r ↦ resolve_in (g.mem r.mem) r (sub64 ptr r.vbase) len
]

unfoldable pub usable : Table → ℕ → ℕ
usable t ptr =
    if ptr == 0
    then 0
    else elim (rec_lookup t ptr) [ none ↦ 0 | some r ↦ r.bytes - sub64 ptr r.vbase ]

-- The region that the call stores, where it returns true.
unfoldable pub where_is : Table → ℕ → Option ℕ
where_is t ptr =
    if ptr == 0 then none else elim (rec_lookup t ptr) [ none ↦ none | some r ↦ some r.mem ]
