-- ===== src/Library/Allocator/Tests.antt =====
-- Allocations from the pool of Library/Device/Tests.antt, on the driver of the module, and freeing one
-- of its granules; the rounding of 9000 bytes.
use pim_sw.Common.{All, ◌+◌, ◌%◌, ◌≤◌, ◌<◌, ◌≡◌, refl, true, false, none, some, arith}
use pim_sw.Library.Geometry.{Geometry}
use pim_sw.Library.Records.{Rec, Table, rec_remove, find_exact, remove_at}
use pim_sw.Library.Pool.Give.{Granule}
use pim_sw.Library.Device.Laws.{GoodState}
use pim_sw.Library.Device.Tests.{
  region_of_taken, module_driver, module_driver-Lawful, known_pool, in_order, region_of_taken-Cut,
  known_pool-Ok, known_pool-InSet,
}
use pim_sw.Library.Allocator.{granules}
use pim_sw.Library.Pool.Tests.{pairs}
use pim_sw.Library.Resolve.Tests.{card}
use pim_sw.Library.Transfer.Tests.{limits}
use pim_sw.Library.Allocator.{Context, Services, free_ctx, refuse, round_up}
use pim_sw.Library.Allocator.Rounding.{refuse_passed}
use pim_sw.Library.Allocator.Freed.{Freed, free_ctx-Freed}

abbrev two_pools : Geometry
two_pools = record card { mem = λ _. pairs }

abbrev taken : Rec
taken = record {
  vbase = 0x900000;
  bytes = 0x1000;
  mem = 0;
  nr_grans = 1;
  tag = 0;
  gran_addr = λ _. 0x4000;
}

abbrev willing : Services
willing = record {
  no_record = false;
  no_extents = false;
  no_pool = λ _. false;
  no_table = false;
  no_trim = false;
  zeroes = none;
  page = 0x1000;
  raw = some 0x500800;
}

-- 9000 bytes are three granules of 4 KiB.
rounded : round_up 9000 0x1000 ≡ 0x3000
unfolding round_up
rounded = refl

passes : refuse two_pools 9000 0 0 ≡ none
unfolding refuse round_up
passes = refl

refuse_passed_example :
    (0 < 2)
    × (0 < 2)
    × (round_up 9000 0x1000 % 0x1000 ≡ 0)
    × (0 < 9000)
    × (9000 ≤ round_up 9000 0x1000)
    × (round_up 9000 0x1000 < 9000 + 0x1000)
    × (round_up 9000 0x1000 ≤ 0x6000)
refuse_passed_example = refuse_passed two_pools 9000 0 0 12 refl (omega arith) (omega arith) passes

-- The pool with the driver of the module as its supply, and the record of its granule in use.
abbrev held_rec : Rec
held_rec = record taken { bytes = 2; gran_addr = λ _. 20 }

abbrev held_table : Table
held_table = record { allocs = λ _. held_rec; nallocs = 1; allocs_cap = 16 }

abbrev left_table : Table
left_table = record held_table { allocs = remove_at 0 (λ _. held_rec); nallocs = 0 }

abbrev supplied : Context (GoodState region_of_taken 0)
supplied = record {
  geom = record card { mem = λ _. region_of_taken };
  table = held_table;
  pool = λ _. known_pool;
  keep_free = 4;
  window = limits;
  driver = in_order;
}

granule : All (Granule region_of_taken known_pool.v 1) (granules 1 0 held_rec.gran_addr)
unfolding granules
granule = ((0, 0, omega arith, omega arith, refl), tt)

removed : rec_remove held_table 0x900000 ≡ (some held_rec, left_table)
unfolding rec_remove find_exact
removed = refl

free_ctx-Freed_example :
    let res = free_ctx (λ _. module_driver) willing supplied 0x900000 in
    (res.0 ≡ true)
    × Freed (λ _. module_driver) supplied res.1 held_rec left_table module_driver-Lawful.held
free_ctx-Freed_example =
    free_ctx-Freed (λ _. module_driver) willing supplied 0x900000 held_rec left_table
      module_driver-Lawful region_of_taken-Cut known_pool-Ok known_pool-InSet granule removed
