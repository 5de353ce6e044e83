-- ===== src/Library/Allocator.antt =====
-- The public allocator of sw/lib/pim_alloc.c: from a request for bytes to granules, host addresses and
-- a record, and back. What the operating system and the driver answer are arguments.
pub mod Rounding
pub mod Outcome
pub mod Freed
mod Tests
use pim_sw.Common.{
  ℕ, zero, suc, ◌+◌, ◌-◌, ◌*◌, ◌/◌, ◌%◌, ◌^◌, Bool, true, false, ◌&&◌, ◌||◌, not, Option, none,
  some, List, [], ◌∷◌, ltb, leb, ◌==◌, if◌then◌else◌, u32, u64, sub64, add64, bit_and, update,
}
use pim_sw.Library.Geometry.{Geometry, Region}
use pim_sw.Library.Records.{bisect, Rec, Table, rec_insert, rec_remove, rec_lookup}
use pim_sw.Library.Pool.{Pool, pool_take, pool_give, pool_trim}
use pim_sw.Library.Pool.Supply.{Source}
use pim_sw.Library.Transfer.{Queues, Window, Bad, memcpy, to_dev}

-- The address that `mmap` has returned, and what `vspace_reserve` makes of it: the address and the
-- sizes of the two ends that it gives back.
pub record Reservation : Type 0 where
  pub at : ℕ
  pub head : ℕ
  pub tail : ℕ

-- `page` is the page size, and `raw` the address of the mapping where there is one. Clearing the low
-- bits of a word is `bit_and` with the complement of the mask.
pub vspace_reserve : ℕ → Option ℕ → ℕ → ℕ → Option Reservation
vspace_reserve page raw bytes align0 =
    let align = if ltb 0 page && ltb align0 page then page else align0 in
    if bytes == 0 then none else elim raw [
      | none ↦ none
      | some r ↦
          let span = u64 (bytes + align) in
          let at = bit_and (u64 (r + align - 1)) (2 ^ 64 - align) in
          let head = sub64 at r in
          some (record { at = at; head = head; tail = sub64 (sub64 span head) bytes })
    ]

-- The size of a request in whole granules.
pub round_up : ℕ → ℕ → ℕ
round_up nbytes gran = bit_and (u64 (nbytes + gran - 1)) (2 ^ 64 - gran)

-- The fields of `pim_ctx` that an allocation changes or reads; `driver` is what the driver keeps.
pub record Context (St : Type 0) : Type 0 where
  pub geom : Geometry
  pub table : Table
  pub pool : ℕ → Pool
  pub keep_free : ℕ
  pub window : Window
  pub driver : St

-- What the operating system grants in a call: whether memory for the record, for the list of extents,
-- for the arrays of the pool and of the records, for trimming and for the zero buffer is refused,
-- and the mapping of `vspace_reserve`.
pub record Services : Type 0 where
  pub no_record : Bool
  pub no_extents : Bool
  pub no_pool : ℕ → Bool
  pub no_table : Bool
  pub no_trim : Bool
  pub zeroes : Option ℕ
  pub page : ℕ
  pub raw : Option ℕ

-- NULL with the reason, or the address.
pub data AllocReturn : Type 0 where
  no_bytes bad_flags no_contiguous bad_region too_big no_memory no_room no_addresses : AllocReturn
  not_zeroed : Option Bad → AllocReturn
  allocated : ℕ → AllocReturn

-- The tests of `pim_alloc_ex_ctx` before memory is asked for. PIM_ALLOC_F_ZERO is bit 0 and
-- PIM_ALLOC_F_CONTIG is bit 1.
pub refuse : Geometry → ℕ → ℕ → ℕ → Option AllocReturn
unfolding round_up
refuse g nbytes mem flags =
    let bytes = round_up nbytes (g.mem mem).gran in
    if nbytes == 0
    then some no_bytes
    else if not (flags / 4 == 0)
    then some bad_flags
    else if flags / 2 % 2 == 1
    then some no_contiguous
    else if leb 2 mem
    then some bad_region
    else if ltb bytes nbytes || ltb (g.mem mem).bytes bytes
    then some too_big
    else none

-- `gran_addr[]`, which has nothing beyond the granules.
pub entry_of : List ℕ → ℕ → ℕ
entry_of [] i = 0
entry_of (a ∷ l) zero = a
entry_of (a ∷ l) (suc i) = entry_of l i

-- The addresses of the `n` granules of a record from the `i`-th on.
pub granules : ℕ → ℕ → (ℕ → ℕ) → List ℕ
granules zero i f = []
granules (suc n) i f = f i ∷ granules n (i + 1) f

abbrev pub zero_chunk : ℕ
zero_chunk = 256 * 1024

-- The loop of `zero_fill` with `fuel` rounds left.
pub zero_from : ℕ → Queues → Window → Geometry → Table → ℕ → ℕ → ℕ → ℕ → ℕ → Option Bad
zero_from zero Q w g t ptr buf chunk bytes off = none
zero_from (suc fuel) Q w g t ptr buf chunk bytes off =
    let n = if ltb (bytes - off) chunk then bytes - off else chunk in
    let bad = (memcpy Q w g t (ptr + off) buf n to_dev 0).1 in
    let rest = zero_from fuel Q w g t ptr buf chunk bytes (off + chunk) in
    if not (ltb off bytes) then none else elim bad [ none ↦ rest | some b ↦ some b ]

-- `zero_fill`: nothing where it returns NULL; the inner value is missing where there is no buffer.
pub zero_fill : Option ℕ → Queues → Window → Geometry → Table → ℕ → ℕ → Option (Option Bad)
unfolding zero_from
zero_fill buffer Q w g t ptr bytes = elim buffer [
  | none ↦ some none
  | some buf ↦
      let chunk = if ltb bytes zero_chunk then bytes else zero_chunk in
      elim (zero_from (suc bytes) Q w g t ptr buf chunk bytes 0) [
        | none ↦ none
        | some b ↦ some (some b)
      ]
]

-- `pim_tag_set_ctx`: false where it returns a message. The place is that of `rec_lookup`.
pub tag_set : Table → ℕ → ℕ → Bool × Table
unfolding bisect
tag_set t ptr tag =
    let lo = bisect t.nallocs (λ i. leb (t.allocs i).vbase ptr) 0 t.nallocs in
    if ptr == 0 then (false, t) else elim (rec_lookup t ptr) [
      | none ↦ (false, t)
      | some r ↦ (true, record t { allocs = update t.allocs (lo - 1) (record r { tag = tag }) })
    ]

unfoldable pub tag_get : Table → ℕ → ℕ
tag_get t ptr = if ptr == 0 then 0 else elim (rec_lookup t ptr) [ none ↦ 0 | some r ↦ r.tag ]

-- The loop of `pim_meminfo_ctx`: the bytes of the records of region `mem` among the first `n`.
pub sum_bytes : ℕ → Table → ℕ → ℕ
sum_bytes zero t mem = 0
sum_bytes (suc n) t mem =
    let r = t.allocs n in u64 ((if r.mem == mem then r.bytes else 0) + sum_bytes n t mem)

-- What `pim_meminfo_ctx` stores.
pub record Meminfo : Type 0 where
  pub allocated : ℕ
  pub pooled : ℕ
  pub hugepages_held : ℕ

module _ {St : Type 0} where
  pub meminfo : Context St → ℕ → Option Meminfo
  unfolding sum_bytes
  meminfo c mem =
      let alloc_b = sum_bytes c.table.nallocs c.table mem in
      let held_b = u64 ((c.pool mem).n * (c.geom.mem mem).hugepage_bytes) in
      if leb 2 mem
      then none
      else some (record {
        allocated = alloc_b;
        pooled = sub64 held_b alloc_b;
        hugepages_held = (c.pool mem).n;
      })

module _ {St : Type 0} (D : ℕ → Source St) where
  -- `pim_free_ctx`, where `ptr` is not NULL: whether there was such an allocation.
  pub free_ctx : Services → Context St → ℕ → Bool × Context St
  unfolding granules
  free_ctx os c ptr =
      let (found, t) = rec_remove c.table ptr in
      elim found [
        | none ↦ (false, record c { table = t })
        | some r ↦
            let p =
              pool_give (c.geom.mem r.mem) (c.pool r.mem) (granules r.nr_grans 0 r.gran_addr) in
            let (q, d) =
              pool_trim (D r.mem) os.no_trim (c.geom.mem r.mem) c.keep_free false p c.driver in
            (true, record c { table = t; pool = update c.pool r.mem q; driver = d })
      ]

  -- The end of `pim_alloc_ex_ctx`: the allocation at `at` is cleared where that is asked for.
  pub cleared : Queues → Services → Context St → ℕ → ℕ → ℕ → AllocReturn × Context St
  unfolding zero_fill free_ctx
  cleared Q os c at bytes flags =
      if flags % 2 == 1
      then elim (zero_fill os.zeroes Q c.window c.geom c.table at bytes) [
        | none ↦ (allocated at, c)
        | some bad ↦ (not_zeroed bad, (free_ctx os c at).1)
      ]
      else (allocated at, c)

  -- `out` is what `pool_take` has written: the addresses are reserved and the record is inserted, or
  -- the granules go back.
  pub enter : Services → Context St → ℕ → ℕ → List ℕ → Option ℕ × Context St
  unfolding vspace_reserve entry_of
  enter os c mem bytes out =
      let region = c.geom.mem mem in
      let back = record c { pool = update c.pool mem (pool_give region (c.pool mem) out) } in
      elim (vspace_reserve os.page os.raw bytes region.hugepage_bytes) [
        | none ↦ (none, back)
        | some v ↦
            if v.at == 0
            then (none, back)
            else let r : Rec = record {
              vbase = v.at;
              bytes = bytes;
              mem = mem;
              nr_grans = u32 (bytes / region.gran);
              tag = 0;
              gran_addr = entry_of out;
            } in
              elim (rec_insert os.no_table c.table r) [
                | none ↦ (none, back)
                | some t ↦ (some v.at, record c { table = t })
              ]
      ]

  -- What `pim_alloc_ex_ctx` makes of the reserved address, where there is one.
  pub after_enter : Queues → Services → ℕ → ℕ → Option ℕ × Context St → AllocReturn × Context St
  unfolding cleared
  after_enter Q os bytes flags (none, c) = (no_addresses, c)
  after_enter Q os bytes flags (some a, c) = cleared Q os c a bytes flags

  -- What it makes of the granules, where the pool has given them.
  pub after_pool :
      Queues → Services → ℕ → ℕ → ℕ → Option (List ℕ) → Context St → AllocReturn × Context St
  unfolding after_enter enter
  after_pool Q os mem bytes flags none c = (no_room, c)
  after_pool Q os mem bytes flags (some out) c =
      after_enter Q os bytes flags (enter os c mem bytes out)

  -- `pim_alloc_ex_ctx` after its tests.
  pub obtain : Queues → Services → Context St → ℕ → ℕ → ℕ → AllocReturn × Context St
  unfolding after_pool
  obtain Q os c mem bytes flags =
      let region = c.geom.mem mem in
      let (got, q, d) =
        pool_take (D mem) os.no_extents os.no_pool region (u32 (bytes / region.gran)) (c.pool mem)
          c.driver in
      if os.no_record
      then (no_memory, c)
      else after_pool Q os mem bytes flags got (record c { pool = update c.pool mem q; driver = d })

  -- `pim_alloc_ex_ctx` on a context that is there.
  pub alloc_ex : Queues → Services → Context St → ℕ → ℕ → ℕ → AllocReturn × Context St
  unfolding refuse obtain round_up
  alloc_ex Q os c nbytes mem flags = elim (refuse c.geom nbytes mem flags) [
    | some why ↦ (why, c)
    | none ↦ obtain Q os c mem (round_up nbytes (c.geom.mem mem).gran) flags
  ]

  -- `pim_alloc_ctx`
  pub alloc_ctx : Queues → Services → Context St → ℕ → ℕ → AllocReturn × Context St
  unfolding alloc_ex
  alloc_ctx Q os c nbytes mem = alloc_ex Q os c nbytes mem 0

  -- The loop of `pim_mem_fini` over the regions.
  pub drain : Bool → ℕ → ℕ → Context St → Context St
  drain no_trim zero mem c = c
  drain no_trim (suc n) mem c =
      let (q, d) =
        pool_trim (D mem) no_trim (c.geom.mem mem) c.keep_free true (c.pool mem) c.driver in
      drain no_trim n (mem + 1)
        (record c { pool = update c.pool mem (record q { n = 0; cap = 0 }); driver = d })

  -- `pim_mem_fini`, without the release of the host addresses.
  pub mem_fini : Bool → Context St → Context St
  unfolding drain
  mem_fini no_trim c =
      drain no_trim 2 0 (record c { table = record c.table { nallocs = 0; allocs_cap = 0 } })
