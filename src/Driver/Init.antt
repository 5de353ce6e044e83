-- ===== src/Driver/Init.antt =====
-- The start of the module, in sw/drv/pim_main.c: the checks of its parameters, the two ledgers, and
-- the information that PIM_IOC_GET_INFO reports (sw/drv/pim_file.c).
pub mod Loads
use pim_sw.Common.{
  ℕ, zero, suc, ◌*◌, ◌/◌, ◌%◌, Bool, true, false, ◌||◌, not, Option, none, some, ltb, ◌==◌,
  if◌then◌else◌, lone_bit, u64,
}
use pim_sw.Driver.Ledger.{Ledger, Status, ok, einval, enomem, efault}
use pim_sw.Driver.File.{nregion}
use pim_sw.Driver.Module.{ledger_init}

-- The parameters of the module.
pub record Params : Type 0 where
  pub channels : ℕ
  pub banks : ℕ
  pub row_size : ℕ
  pub addr_map : ℕ
  pub base : ℕ
  pub ch_span : ℕ
  pub hugepage_size : ℕ
  pub gpr_base : ℕ
  pub gpr_size : ℕ
  pub gpr_page : ℕ
  pub track_owners : Bool

pub is_pow2_u64 : ℕ → Bool
is_pow2_u64 v = lone_bit v

-- A `unit` of 0, to which a topology of 2 ^ 64 bytes wraps, would trap in C at the `%`; here it
-- is refused.
unfoldable pub check_geometry : Params → ℕ → Status
unfolding is_pow2_u64
check_geometry p unit =
    if p.channels == 0 || ltb 8 p.channels || not (is_pow2_u64 p.channels)
    then einval
    else if not (is_pow2_u64 p.banks) || not (is_pow2_u64 p.row_size) || ltb p.row_size 32
    then einval
    else if ltb 1 p.addr_map
    then einval
    else if not (is_pow2_u64 p.hugepage_size)
    then einval
    else if not (p.hugepage_size % unit == 0)
    then einval
    else if not (is_pow2_u64 p.gpr_page) || ltb p.gpr_page 32
    then einval
    else ok

-- `struct pim_region_info` and `struct pim_info`, without the version and the flags.
pub record RegionInfo : Type 0 where
  pub base : ℕ
  pub bytes : ℕ
  pub hugepage_bytes : ℕ
  pub nr_hugepages : ℕ
  pub nr_free : ℕ

pub record Info : Type 0 where
  pub nch : ℕ
  pub nbank : ℕ
  pub row_bytes : ℕ
  pub addr_map : ℕ
  pub unit_bytes : ℕ
  pub region : ℕ → RegionInfo

-- Which of the kernel's services fail: the bitmap and the owner table of each region, and the
-- registration of the device.
pub record InitFaults : Type 0 where
  pub dram_bitmap : Bool
  pub dram_owner : Bool
  pub gpr_bitmap : Bool
  pub gpr_owner : Bool
  pub register : Bool

-- What `ledger_init` writes to the template of the information.
pub region_info : Ledger → RegionInfo
region_info l = record {
  base = l.base;
  bytes = l.bytes;
  hugepage_bytes = l.hugepage_bytes;
  nr_hugepages = l.nr_hugepages;
  nr_free = l.nr_hugepages;
}

-- `pim_led` and `pim_info_tmpl` of the loaded module.
pub record Started : Type 0 where
  pub led : ℕ → Ledger
  pub tmpl : Info

abbrev pub pick {ℓ} : {A : Type ℓ} → A → A → ℕ → A
pick a b zero = a
pick a b (suc m) = b

-- `pim_init` once the second ledger has been tried, on what that gave. `bad` is the error that the
-- registration of the device returns where it fails.
finish_init : Params → Bool → Status → ℕ → Ledger → Status × Option Ledger → Status × Option Started
unfolding region_info
finish_init p no_device bad unit l (st, none) = (st, none)
finish_init p no_device bad unit l (st, some k) = if no_device then (bad, none) else (
  ok,
  some (record {
    led = pick l k;
    tmpl = record {
      nch = p.channels;
      nbank = p.banks;
      row_bytes = p.row_size;
      addr_map = p.addr_map;
      unit_bytes = unit;
      region = pick (region_info l) (region_info k);
    };
  }),
)

-- `pim_init` on what the checks and the two ledgers give; the C function goes on only after an ok.
start_init :
    Params
    → Bool
    → Status
    → ℕ
    → Status
    → Status × Option Ledger
    → Status × Option Ledger
    → Status × Option Started
unfolding finish_init
start_init p no_device bad unit ok (st, none) second = (st, none)
start_init p no_device bad unit ok (st, some l) second = finish_init p no_device bad unit l second
start_init p no_device bad unit refused first second = (refused, none)

unfoldable pub pim_init : Params → InitFaults → Status → Status × Option Started
unfolding start_init
pim_init p fault bad =
    let unit = u64 (u64 (p.channels * p.banks) * p.row_size) in
    start_init p fault.register bad unit (check_geometry p unit)
      (ledger_init p.base (u64 (p.channels * p.ch_span)) p.hugepage_size p.track_owners
        fault.dram_bitmap fault.dram_owner)
      (ledger_init p.gpr_base p.gpr_size p.gpr_page p.track_owners fault.gpr_bitmap fault.gpr_owner)

-- `ioc_get_info` on the ledgers of a moment: the template with the counts of that moment.
unfoldable pub get_info : Info → (ℕ → Ledger) → Info
get_info tmpl led = record tmpl {
  region = λ m. record (tmpl.region m) {
    nr_free = if ltb m nregion then (led m).nr_free else (tmpl.region m).nr_free;
  };
}
