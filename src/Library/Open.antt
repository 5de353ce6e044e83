-- ===== src/Library/Open.antt =====
-- `pim_open` of sw/lib/pim_dev.c, as far as it decides on the geometry: what it takes over from the
-- driver's information, and whether it goes on with that. Opening the device files is left out.
pub mod Started
mod Tests
use pim_sw.Common.{ℕ, zero, suc, ◌==◌, Option, none, some, if◌then◌else◌}
use pim_sw.Driver.Init.{Info}
use pim_sw.Library.Geometry.{
  Geometry, Region, Map, ch_ro_ba_co, ro_ch_ba_co, Fault, geom_derive, geom_check, is_ch_ro,
}

-- The conversion to `pim_map` of a number that is 0 or 1, the two that a module loads with.
pub map_of : ℕ → Map
map_of zero = ch_ro_ba_co
map_of (suc n) = ro_ch_ba_co

-- The fields that are copied, the others being zero.
pub adopt : Info → Geometry
unfolding map_of
adopt info = record {
  nch = info.nch;
  nbank = info.nbank;
  row_bytes = info.row_bytes;
  map = map_of info.addr_map;
  unit_bytes = info.unit_bytes;
  mem = λ m. record {
    base = (info.region m).base;
    bytes = (info.region m).bytes;
    hugepage_bytes = (info.region m).hugepage_bytes;
    gran = 0;
    nr_hugepages = (info.region m).nr_hugepages;
    gran_shift = 0;
    grans_per_hugepage = 0;
  };
}

pub data Opened : Type 0 where
  unusable : Fault → Opened
  wrong_map : Opened
  opened : Geometry → Opened

-- What it makes of the answer of the check.
pub verdict : Option Fault → Geometry → Opened
verdict (some f) g = unusable f
verdict none g = if is_ch_ro g.map then wrong_map else opened g

pub open_geometry : Info → Opened
unfolding adopt verdict
open_geometry info = let g = geom_derive (adopt info) in verdict (geom_check g) g
