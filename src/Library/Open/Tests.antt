-- ===== src/Library/Open/Tests.antt =====
-- The default parameters of the module: the library opens the device.
use pim_sw.Common.{ℕ, zero, suc, ◌/◌, ◌≤◌, ◌≡◌, ◌↔◌, refl, true, false, some}
use pim_sw.Driver.Ledger.{Ledger, ok, enomem}
use pim_sw.Driver.Module.{ledger_init}
use pim_sw.Driver.Init.{
  region_info, check_geometry, pick, Params, InitFaults, Started, pim_init, get_info,
}
use pim_sw.Driver.Init.Loads.{Reports, pim_init-Reports}
use pim_sw.Library.Geometry.{geom_derive}
use pim_sw.Library.Open.{adopt, open_geometry, opened}
use pim_sw.Library.Open.Started.{started_opens}

abbrev defaults : Params
defaults = record {
  channels = 4;
  banks = 16;
  row_size = 2048;
  addr_map = 1;
  base = 0x020400000000;
  ch_span = 0x100000000;
  hugepage_size = 0x200000;
  gpr_base = 0x020200000000;
  gpr_size = 0x400000;
  gpr_page = 4096;
  track_owners = true;
}

abbrev no_faults : InitFaults
no_faults = record {
  dram_bitmap = false;
  dram_owner = false;
  gpr_bitmap = false;
  gpr_owner = false;
  register = false;
}

abbrev fresh : ℕ → ℕ → ℕ → Ledger
fresh base bytes page = record {
  bitmap = λ _. false;
  owner = some (λ _. 0);
  nr_free = bytes / page;
  base = base;
  bytes = bytes;
  hugepage_bytes = page;
  nr_hugepages = bytes / page;
}

abbrev ledgers : ℕ → Ledger
ledgers zero = fresh 0x020400000000 0x400000000 0x200000
ledgers (suc m) = fresh 0x020200000000 0x400000 4096

abbrev module_loaded : Started
module_loaded = record {
  led = pick (ledgers 0) (ledgers 1);
  tmpl = record {
    nch = 4;
    nbank = 16;
    row_bytes = 2048;
    addr_map = 1;
    unit_bytes = 131072;
    region = pick (region_info (ledgers 0)) (region_info (ledgers 1));
  };
}

loads : pim_init defaults no_faults enomem ≡ (ok, some module_loaded)
unfolding pim_init check_geometry ledger_init
loads = refl

pim_init-Reports_example : Reports defaults module_loaded
pim_init-Reports_example = pim_init-Reports defaults no_faults enomem module_loaded loads

started_opens_example :
    (open_geometry (get_info module_loaded.tmpl ledgers)
      ≡ opened (geom_derive (adopt (get_info module_loaded.tmpl ledgers))))
    ↔ ((0x200000 / 131072 ≤ 64) × (defaults.addr_map ≡ 1))
started_opens_example = started_opens defaults no_faults enomem module_loaded ledgers loads
