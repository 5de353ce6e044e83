-- ===== src/Library/Address/Tests.antt =====
-- An operand of three units in DRAM, from the second unit of its allocation on, and a GPR range.
use pim_sw.Common.{◌+◌, ◌*◌, ◌≡◌, refl, false, arith, u32}
use pim_sw.Library.Geometry.{Geometry, Region, geom_decode}
use pim_sw.Library.Records.{Rec, Table, rec_lookup, bisect}
use pim_sw.Library.Resolve.{resolve, resolve_in, extend, usable, where_is}
use pim_sw.Library.Resolve.Tests.{card, table}
use pim_sw.Library.Address.{unit_count, addr_unit, unit_at, gpr_words, words, words_from}
use pim_sw.Library.Address.Units.{Operand, addr_unit-unit_at}

abbrev units : Region
units = record {
  base = 0;
  bytes = 0x40000000;
  hugepage_bytes = 0x200000;
  gran = 0x20000;
  nr_hugepages = 512;
  gran_shift = 17;
  grans_per_hugepage = 16;
}

abbrev board : Geometry
board = record card { mem = λ _. units }

abbrev matrix : Rec
matrix = record {
  vbase = 0x700000;
  bytes = 4 * 0x20000;
  mem = 0;
  nr_grans = 4;
  tag = 0;
  gran_addr = λ i. 0x400000 + i * 0x40000;
}

abbrev matrices : Table
matrices = record { allocs = λ _. matrix; nallocs = 1; allocs_cap = 16 }

operand : Operand board matrices 0x720000 0x50000 0 1
operand = record {
  order = record {
    apart = λ i j p q. absurd (omega arith);
    filled = λ i p. omega arith;
    room = λ i p. omega arith;
  };
  there = omega arith;
  not_null = omega arith;
  some_len = omega arith;
  in_dram = refl;
  unit = refl;
  covers = record { shift = refl; size = refl; few = omega arith; below = λ i p. omega (arith, p) };
  start = refl;
  fits = omega arith;
  words = omega arith;
}

addr_unit-unit_at_example :
    addr_unit board matrices 0x720000 0x50000 2 false
    ≡ unit_at (matrix.gran_addr 3) (geom_decode board (matrix.gran_addr 3)).row (u32 2)
addr_unit-unit_at_example =
    addr_unit-unit_at board matrices 0x720000 0x50000 0 1 operand 2 (omega arith)

counted : unit_count board matrices 0x720000 0x50000 ≡ 3
unfolding unit_count usable where_is rec_lookup bisect
counted = refl

-- 100 bytes from 32 bytes into the buffer are 4 words from word 513 on; it is no DRAM operand.
in_words : gpr_words card table 0x10020 100 ≡ words 513 4
unfolding gpr_words words_from where_is resolve resolve_in extend rec_lookup bisect
in_words = refl
