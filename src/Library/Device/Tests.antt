-- ===== src/Library/Device/Tests.antt =====
-- The calls on the driver's state of Driver/Module/Tests.antt, in which the second of the four
-- hugepages of a region is held, and those of a pool that has this driver.
use pim_sw.Common.{if◌then◌else◌, ◌-◌, false, arith, ◌<◌, ◌==◌, ◌≡◌, refl, some, none, [], ◌∷◌}
use pim_sw.Driver.Bitmap.{zeros}
use pim_sw.Driver.Bitmap.Plain.{plain_ops, area_from, clear_run}
use pim_sw.Driver.Ledger.{hugepage_addr, hugepages_alloc}
use pim_sw.Driver.File.{nregion, share, ioc_alloc}
use pim_sw.Driver.Module.Tests.{taken, no_faults}
use pim_sw.Library.Device.{ioctl_alloc}
use pim_sw.Library.Device.Laws.{GoodState, Good, driver, driver-Lawful}
use pim_sw.Library.Geometry.{Region}
use pim_sw.Library.Pool.{Pool, pool_take, pool_trim, count_free}
use pim_sw.Library.Pool.Supply.{Source, Lawful}
use pim_sw.Library.Pool.Slots.{Cut, Ok}
use pim_sw.Library.Pool.Run.{InSet}
use pim_sw.Library.Pool.Taken.{Taken, given, pool_take-Taken}
use pim_sw.Library.Pool.Trim.{Trimmed, pool_trim-Trimmed}

-- Two hugepages are the third and the fourth; four are too many.
granted :
    ((ioctl_alloc plain_ops no_faults 0 2 0 64 2 taken).0
      ≡ some (record { addr = 24; nr_hugepages = 2 } ∷ []))
    × ((ioctl_alloc plain_ops no_faults 0 4 0 64 4 taken).0 ≡ none)
unfolding ioctl_alloc ioc_alloc hugepages_alloc hugepage_addr plain_ops area_from clear_run
granted = (refl, refl)

abbrev pub region_of_taken : Region
region_of_taken = record {
  base = (taken.led 0).base;
  bytes = (taken.led 0).bytes;
  hugepage_bytes = (taken.led 0).hugepage_bytes;
  gran = 2;
  nr_hugepages = (taken.led 0).nr_hugepages;
  gran_shift = 1;
  grans_per_hugepage = 2;
}

pub taken-Good : Good region_of_taken (share taken 0)
unfolding share
taken-Good = record {
  consistent = record {
    span = record { page = omega arith; size = refl; room = omega arith; few = omega arith };
    owns = λ j h. ground (arith, h);
    inside = λ j h. ground (arith, h);
  };
  base = refl;
  page = refl;
}

-- The driver's calls on this state and those that they lead to.
abbrev known_mem : 0 < nregion
known_mem = omega arith

abbrev pub module_driver : Source (GoodState region_of_taken 0)
module_driver = driver plain_ops no_faults region_of_taken 0 known_mem 64

abbrev pub module_driver-Lawful : Lawful module_driver region_of_taken
module_driver-Lawful = (driver-Lawful plain_ops no_faults region_of_taken 0 known_mem 64).0

pub region_of_taken-Cut : Cut region_of_taken
region_of_taken-Cut = record {
  gran_pos = omega arith;
  few = omega arith;
  whole = refl;
  some_bytes = omega arith;
}

-- The pool knows the hugepage that is held, and its first granule is in use.
abbrev pub known_pool : Pool
known_pool = record {
  v = λ _. record { addr = 20; used = λ g. g == 0; free_grans = 1 };
  n = 1;
  cap = 16;
}

pub known_pool-Ok : Ok region_of_taken known_pool.v 1
unfolding zeros
known_pool-Ok = record {
  sorted = λ i j p q. absurd (omega arith);
  place = λ i p. (1, refl);
  below = λ i p. omega arith;
  count = λ i p. refl;
}

abbrev pub in_order : GoodState region_of_taken 0
in_order = (taken, taken-Good)

pub known_pool-InSet : InSet known_pool (module_driver-Lawful.held in_order)
unfolding share
known_pool-InSet i p =
    (driver-Lawful plain_ops no_faults region_of_taken 0 known_mem 64).1 in_order 1 refl

-- Four granules: the free one of the known hugepage, and three of two hugepages of the driver.
pool_take-Taken_example :
    let (o, q, t) =
      pool_take module_driver false (λ _. false) region_of_taken 4 known_pool in_order in
    Taken region_of_taken region_of_taken-Cut module_driver module_driver-Lawful 4
      (given region_of_taken known_pool)
      o
      q
      t
pool_take-Taken_example =
    pool_take-Taken region_of_taken region_of_taken-Cut module_driver module_driver-Lawful false
      (λ _. false) 4 known_pool in_order known_pool-Ok known_pool-InSet

-- The same hugepage with no granule in use: a trim that keeps none gives it back.
abbrev idle_pool : Pool
idle_pool = record {
  v = λ _. record { addr = 20; used = λ g. false; free_grans = 2 };
  n = 1;
  cap = 16;
}

idle_pool-Ok : Ok region_of_taken idle_pool.v 1
unfolding zeros
idle_pool-Ok = record {
  sorted = λ i j p q. absurd (omega arith);
  place = λ i p. (1, refl);
  below = λ i p. omega arith;
  count = λ i p. refl;
}

idle_pool-InSet : InSet idle_pool (module_driver-Lawful.held in_order)
unfolding share
idle_pool-InSet i p =
    (driver-Lawful plain_ops no_faults region_of_taken 0 known_mem 64).1 in_order 1 refl

pool_trim-Trimmed_example :
    let (q, t) = pool_trim module_driver false region_of_taken 0 false idle_pool in_order in
    Trimmed region_of_taken region_of_taken-Cut module_driver module_driver-Lawful idle_pool q t
      (count_free 1 region_of_taken idle_pool.v - (if false then 0 else 0))
pool_trim-Trimmed_example =
    pool_trim-Trimmed region_of_taken region_of_taken-Cut module_driver module_driver-Lawful false 0
      false idle_pool in_order idle_pool-Ok idle_pool-InSet
