-- ===== src/Library/Geometry.antt =====
-- sw/include/pim/pim_geometry.h and sw/lib/pim_geom.c: the geometry that the library works with, how
-- it is derived and checked when a device is opened, and the decoding of DRAM addresses.
pub mod Check
pub mod Derive
pub mod Decode
pub mod Tests
use pim_sw.Common.{
  false, true, ℕ, zero, suc, ◌+◌, ◌-◌, ◌*◌, ◌/◌, ◌%◌, ◌^◌, Bool, ◌&&◌, ◌||◌, not, Option, none,
  some, ltb, leb, ◌==◌, if◌then◌else◌, lone_bit, u32, u64, sub64, update,
}

-- `pim_map`
pub data Map : Type 0 where
  ch_ro_ba_co ro_ch_ba_co : Map

-- `pim_mem`, as an index: PIM_MEM_DRAM and PIM_MEM_GPR.
abbrev pub dram : ℕ
dram = 0

abbrev pub gpr : ℕ
gpr = 1

-- `pim_region`
pub record Region : Type 0 where
  pub base : ℕ
  pub bytes : ℕ
  pub hugepage_bytes : ℕ
  pub gran : ℕ
  pub nr_hugepages : ℕ
  pub gran_shift : ℕ
  pub grans_per_hugepage : ℕ

-- `pim_geometry`
pub record Geometry : Type 0 where
  pub nch : ℕ
  pub nbank : ℕ
  pub row_bytes : ℕ
  pub map : Map
  pub unit_bytes : ℕ
  pub mem : ℕ → Region

pub robaco_row : Geometry → ℕ
robaco_row g = u64 (g.nbank * g.row_bytes)

abbrev pub gpr_word_bytes : ℕ
gpr_word_bytes = 32

pub gpr_word_of : Geometry → ℕ → ℕ
gpr_word_of g axi = sub64 axi (g.mem gpr).base / gpr_word_bytes

pub pow2 : ℕ → Bool
pow2 v = lone_bit v

-- The loop of `log2u` with `fuel` rounds left; a shift by 64 is not defined.
pub log2_from : ℕ → ℕ → ℕ → ℕ
log2_from zero s v = s
log2_from (suc fuel) s v = let rest = log2_from fuel (s + 1) v in if ltb (2 ^ s) v then rest else s

pub log2u : ℕ → ℕ
unfolding log2_from
log2u v = log2_from 64 0 v

-- The last two assignments of `pim_geom_derive` for one region.
derive_region : Region → Region
unfolding log2u
derive_region r = record r {
  gran_shift = if r.gran == 0 then 0 else log2u r.gran;
  grans_per_hugepage = if r.gran == 0 then 0 else u32 (r.hugepage_bytes / r.gran);
}

unfoldable pub geom_derive : Geometry → Geometry
unfolding derive_region
geom_derive g =
    let units = update g.mem dram (record (g.mem dram) { gran = g.unit_bytes }) in
    let pages = update units gpr (record (units gpr) { gran = (units gpr).hugepage_bytes }) in
    record g { mem = λ m. if ltb m 2 then derive_region (pages m) else pages m }

-- Why a region or a geometry is refused: one constructor for each message.
pub data RegionFault : Type 0 where
  not_powers not_dividing too_many not_aligned not_whole wrong_count : RegionFault

pub data Fault : Type 0 where
  channels banks unit straddle uneven word : Fault
  region : ℕ → RegionFault → Fault

pub check_region : Region → Option RegionFault
check_region r =
    if not (lone_bit r.hugepage_bytes) || not (lone_bit r.gran)
    then some not_powers
    else if not (r.hugepage_bytes % r.gran == 0)
    then some not_dividing
    else if ltb 64 (r.hugepage_bytes / r.gran)
    then some too_many
    else if not (r.base % r.hugepage_bytes == 0)
    then some not_aligned
    else if r.bytes == 0 || not (r.bytes % r.hugepage_bytes == 0)
    then some not_whole
    else if not (r.nr_hugepages == r.bytes / r.hugepage_bytes)
    then some wrong_count
    else none

unfoldable pub is_ch_ro : Map → Bool
is_ch_ro ch_ro_ba_co = true
is_ch_ro ro_ch_ba_co = false

-- What `pim_geom_check` tests after the regions.
check_rest : Geometry → Option Fault
unfolding is_ch_ro
check_rest g =
    if not ((g.mem dram).hugepage_bytes % g.unit_bytes == 0)
    then some straddle
    else if is_ch_ro g.map && not ((g.mem dram).bytes % g.nch == 0)
    then some uneven
    else if not ((g.mem gpr).gran % gpr_word_bytes == 0)
    then some word
    else none

-- `pim_geom_check`: nothing where it returns NULL.
pub geom_check : Geometry → Option Fault
unfolding check_rest pow2
geom_check g =
    if not (pow2 g.nch) || ltb 8 g.nch
    then some channels
    else if not (pow2 g.nbank) || not (pow2 g.row_bytes) || ltb g.row_bytes 32
    then some banks
    else if not (g.unit_bytes == u64 (u64 (g.nch * g.nbank) * g.row_bytes))
    then some unit
    else elim (check_region (g.mem dram)) [
      | some f ↦ some (region dram f)
      | none ↦ elim (check_region (g.mem gpr)) [
        | some f ↦ some (region gpr f)
        | none ↦ check_rest g
      ]
    ]

-- `pim_coord`
pub record Coord : Type 0 where
  pub row : ℕ
  pub ch : ℕ
  pub bank : ℕ
  pub col_byte : ℕ

-- The row, the channel and the offset within a row of all banks.
locate : Map → Geometry → ℕ → ℕ × ℕ × ℕ
locate ro_ch_ba_co g off =
    let rbr = robaco_row g in (off / g.unit_bytes, u32 (off / rbr % g.nch), off % rbr)
locate ch_ro_ba_co g off =
    let rbr = robaco_row g in
    let ch_span = (g.mem dram).bytes / g.nch in
    let rest = off % ch_span in (rest / rbr, u32 (off / ch_span), rest % rbr)

pub geom_decode : Geometry → ℕ → Coord
unfolding locate
geom_decode g a =
    let (row, ch, rest) = locate g.map g (sub64 a (g.mem dram).base) in
    record {
      row = row;
      ch = ch;
      bank = u32 (rest / g.row_bytes);
      col_byte = u32 (rest % g.row_bytes);
    }

encode_in : Map → Geometry → ℕ → Coord → ℕ
encode_in ro_ch_ba_co g inner c =
    u64 ((g.mem dram).base + c.row * g.unit_bytes + c.ch * robaco_row g + inner)
encode_in ch_ro_ba_co g inner c =
    u64 ((g.mem dram).base + c.ch * ((g.mem dram).bytes / g.nch) + c.row * robaco_row g + inner)

-- The sums and products wrap at 64 bits, which is the same as wrapping once at the end.
pub geom_encode : Geometry → Coord → ℕ
unfolding encode_in
geom_encode g c = encode_in g.map g (c.bank * g.row_bytes + c.col_byte) c
