-- ===== src/Library/Resolve/Tests.antt =====
-- A pointer into an allocation of three granules of 4 KiB, of which two follow one another.
use pim_sw.Common.{
  ℕ, ◌+◌, ◌-◌, ◌*◌, ◌/◌, ◌%◌, ◌≤◌, ◌<◌, ◌≡◌, refl, some, arith, ◌==◌, if◌then◌else◌, sub64,
}
use pim_sw.Library.Geometry.{Geometry, Region, ro_ch_ba_co}
use pim_sw.Library.Records.{Rec, Table, rec_lookup, bisect}
use pim_sw.Library.Records.Lookup.{Ordered}
use pim_sw.Library.Resolve.{found, too_long, extend, resolve, usable, where_is}
use pim_sw.Library.Resolve.Run.{Covers}
use pim_sw.Library.Resolve.Pointer.{resolve-run, usable-where_is}

abbrev pub pages : Region
pages = record {
  base = 0;
  bytes = 0x400000;
  hugepage_bytes = 4096;
  gran = 4096;
  nr_hugepages = 1024;
  gran_shift = 12;
  grans_per_hugepage = 1;
}

abbrev pub card : Geometry
card = record {
  nch = 4;
  nbank = 16;
  row_bytes = 2048;
  map = ro_ch_ba_co;
  unit_bytes = 131072;
  mem = λ _. pages;
}

abbrev pub buffer : Rec
buffer = record {
  vbase = 0x10000;
  bytes = 3 * 4096;
  mem = 1;
  nr_grans = 3;
  tag = 0;
  gran_addr = λ i. if i == 2 then 0x9000 else 0x4000 + i * 4096;
}

abbrev pub table : Table
table = record { allocs = λ _. buffer; nallocs = 1; allocs_cap = 16 }

pub table-Ordered : Ordered table
table-Ordered = record {
  apart = λ i j p q. absurd (omega arith);
  filled = λ i p. omega arith;
  room = λ i p. omega arith;
}

pub buffer-Covers : Covers pages buffer
buffer-Covers = record { shift = refl; size = refl; few = omega arith; below = λ i p. ground arith }

-- 5000 bytes from byte 3 of the first granule on end in the second, 10000 would need the third.
runs :
    (resolve card table 0x10003 5000 ≡ found 1 0x4003 0x4003 5000)
    × (resolve card table 0x10003 10000 ≡ found 1 0x4003 0x4003 8189)
unfolding resolve extend rec_lookup bisect
runs = (refl, refl)

resolve-run_example :
    (axi run : ℕ) × (resolve card table 0x10003 10000 ≡ found 1 axi (sub64 axi 0) run)
    × (0 < run)
    × (run ≤ 10000)
    × ((b : ℕ) → b < run → axi + b ≡ buffer.gran_addr ((3 + b) / 4096) + (3 + b) % 4096)
resolve-run_example =
    resolve-run table 0x10003 0 table-Ordered (omega arith) (omega arith, omega arith) (omega arith)
      card 10000 buffer-Covers (omega arith) (omega arith)

usable-where_is_example :
    (usable table 0x10003 ≡ 3 * 4096 - 3)
    × (where_is table 0x10003 ≡ some 1)
    × (resolve card table 0x10003 20000 ≡ too_long (usable table 0x10003))
usable-where_is_example =
    usable-where_is table 0x10003 0 table-Ordered (omega arith) (omega arith, omega arith)
      (omega arith) card 20000 (omega arith)
