-- ===== src/Library/Geometry/Tests.antt =====
-- The geometry on the numbers of the board: 4 channels of 16 banks with rows of 2 KiB.
use pim_sw.Common.{
  zero, suc, ◌↔◌, suc, ℕ, ◌+◌, ◌-◌, ◌*◌, ◌/◌, ◌^◌, ◌≤◌, ◌<◌, ◌≡◌, refl, arith, none,
}
use pim_sw.Library.Geometry.{
  Geometry, Region, Coord, ro_ch_ba_co, geom_derive, geom_check, geom_decode, geom_encode,
  log2_from, check_region, derive_region,
}
use pim_sw.Library.Geometry.Check.{Fits, geom_check_iff}
use pim_sw.Library.Geometry.Derive.{Words, Usable, derive-Usable, unit_one_hugepage}
use pim_sw.Library.Geometry.Decode.{InRange, geom_encode-geom_decode, geom_decode-geom_encode}

abbrev pub two_regions : ℕ → Region
two_regions zero = record {
  base = 0x020400000000;
  bytes = 0x400000000;
  hugepage_bytes = 0x200000;
  gran = 0;
  nr_hugepages = 8192;
  gran_shift = 0;
  grans_per_hugepage = 0;
}
two_regions (suc m) = record {
  base = 0x020200000000;
  bytes = 0x400000;
  hugepage_bytes = 4096;
  gran = 0;
  nr_hugepages = 1024;
  gran_shift = 0;
  grans_per_hugepage = 0;
}

abbrev pub board : Geometry
board = record {
  nch = 4;
  nbank = 16;
  row_bytes = 2048;
  map = ro_ch_ba_co;
  unit_bytes = 131072;
  mem = two_regions;
}

small :
    (m : ℕ)
    → ((two_regions m).nr_hugepages < 2 ^ 64)
      × ((two_regions m).bytes < 2 ^ 64)
      × ((two_regions m).hugepage_bytes < 2 ^ 64)
small zero = (omega arith, omega arith, omega arith)
small (suc m) = (omega arith, omega arith, omega arith)

pub board-Words : Words board
board-Words = record {
  nbank = omega arith;
  row_bytes = omega arith;
  unit_bytes = omega arith;
  nr_hugepages = λ m. (small m).0;
  bytes = λ m. (small m).1;
  hugepage_bytes = λ m. (small m).2;
}

pub board_passes : geom_check (geom_derive board) ≡ none
unfolding geom_check geom_derive check_region derive_region log2_from
board_passes = refl

derive-Usable_example : Usable (geom_derive board)
derive-Usable_example = derive-Usable board board-Words board_passes

geom_check_iff_example : (geom_check (geom_derive board) ≡ none) ↔ Fits (geom_derive board)
geom_check_iff_example = geom_check_iff (geom_derive board)

-- Row 5, channel 2, bank 3, byte 64.
abbrev place : Coord
place = record { row = 5; ch = 2; bank = 3; col_byte = 64 }

abbrev pub opened : Geometry
opened = geom_derive board

geom_encode-geom_decode_example :
    (geom_encode opened (geom_decode opened 0x0204000c1840) ≡ 0x0204000c1840)
    × InRange opened (geom_decode opened 0x0204000c1840)
unfolding geom_derive derive_region
geom_encode-geom_decode_example =
    geom_encode-geom_decode opened 0x0204000c1840 derive-Usable_example (omega arith) (omega arith)
      (omega arith)

geom_decode-geom_encode_example :
    (geom_decode opened (geom_encode opened place) ≡ place)
    × (0x020400000000 ≤ geom_encode opened place)
    × (geom_encode opened place < 0x020800000000)
unfolding geom_derive derive_region
geom_decode-geom_encode_example =
    geom_decode-geom_encode opened place derive-Usable_example
      (record { ch = omega arith; bank = omega arith; col_byte = omega arith }) (omega arith)
      (omega arith)

unit_one_hugepage_example : (15 * 131072) / 0x200000 ≡ (15 * 131072 + 131072 - 1) / 0x200000
unfolding geom_derive derive_region
unit_one_hugepage_example = unit_one_hugepage opened (15 * 131072) derive-Usable_example refl
