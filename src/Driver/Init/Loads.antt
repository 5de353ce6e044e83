-- ===== src/Driver/Init/Loads.antt =====
-- What the start of the module in sw/drv/pim_main.c has made sure of where it succeeds.
use mathlib.Core.Option.{some_inj}
use pim_sw.Common.{
  subst, Bool, ℕ, ◌*◌, ◌/◌, ◌%◌, ◌≤◌, ◌<◌, ◌≡◌, refl, ap, arith, some, none, Option, Bool-cases,
  inl, inr, u64, lone_bit_iff, IsPow2,
}
use pim_sw.Driver.Ledger.{Ledger, Status, ok}
use pim_sw.Driver.Module.{ledger_init}
use pim_sw.Driver.Module.Lifetime.{init-sizes}
use pim_sw.Driver.Init.{
  Params, InitFaults, RegionInfo, Started, check_geometry, pim_init, start_init, finish_init,
  region_info, is_pow2_u64,
}

-- What `check_geometry` has made sure of.
pub record Checked (p : Params) (unit : ℕ) : Type 0 where
  pub channels : IsPow2 p.channels
  pub most : p.channels ≤ 8
  pub banks : IsPow2 p.banks
  pub row_size : IsPow2 p.row_size
  pub long_row : 32 ≤ p.row_size
  pub map : p.addr_map ≤ 1
  pub hugepage_size : IsPow2 p.hugepage_size
  pub straddle : p.hugepage_size % unit ≡ 0
  pub gpr_page : IsPow2 p.gpr_page
  pub long_page : 32 ≤ p.gpr_page

check_geometry-Checked : (p : Params) (unit : ℕ) → check_geometry p unit ≡ ok → Checked p unit
unfolding check_geometry is_pow2_u64
check_geometry-Checked p unit h = record {
  channels = (lone_bit_iff p.channels).0 (ground arith);
  most = ground arith;
  banks = (lone_bit_iff p.banks).0 (ground arith);
  row_size = (lone_bit_iff p.row_size).0 (ground arith);
  long_row = ground arith;
  map = ground arith;
  hugepage_size = (lone_bit_iff p.hugepage_size).0 (ground arith);
  straddle = ground arith;
  gpr_page = (lone_bit_iff p.gpr_page).0 (ground arith);
  long_page = ground arith;
}

-- What a region reports of its span.
pub record Spans (r : RegionInfo) (base bytes hugepage : ℕ) : Type 0 where
  pub base_eq : r.base ≡ base
  pub bytes_eq : r.bytes ≡ bytes
  pub hugepage_eq : r.hugepage_bytes ≡ hugepage
  pub count : r.nr_hugepages ≡ bytes / hugepage
  pub some_bytes : 0 < bytes
  pub aligned : base % hugepage ≡ 0
  pub whole : bytes % hugepage ≡ 0

-- What the information of a module says that has started with the parameters `p`.
pub record Reports (p : Params) (d : Started) : Type 0 where
  pub nch : d.tmpl.nch ≡ p.channels
  pub nbank : d.tmpl.nbank ≡ p.banks
  pub row_bytes : d.tmpl.row_bytes ≡ p.row_size
  pub addr_map : d.tmpl.addr_map ≡ p.addr_map
  pub unit : d.tmpl.unit_bytes ≡ u64 (u64 (p.channels * p.banks) * p.row_size)
  pub checked : Checked p d.tmpl.unit_bytes
  pub dram_spans : Spans (d.tmpl.region 0) p.base (u64 (p.channels * p.ch_span)) p.hugepage_size
  pub gpr_spans : Spans (d.tmpl.region 1) p.gpr_base p.gpr_size p.gpr_page

init-Spans :
    {l : Ledger} {st : Status} (base bytes hugepage : ℕ) (track no_bitmap no_owner : Bool)
    → ledger_init base bytes hugepage track no_bitmap no_owner ≡ (st, some l)
    → Spans (region_info l) base bytes hugepage
unfolding region_info
init-Spans base bytes hugepage track no_bitmap no_owner e =
    let (_, eb, en, eh, ec, _, al, sb, wh) =
      init-sizes base bytes hugepage track no_bitmap no_owner e in
    record {
      base_eq = eb;
      bytes_eq = en;
      hugepage_eq = eh;
      count = ec;
      some_bytes = sb;
      aligned = al;
      whole = wh;
    }

start-Reports :
    (p : Params) (fault : InitFaults) (bad : Status) (d : Started) (c : Status)
    (a b : Status × Option Ledger)
    → let unit = u64 (u64 (p.channels * p.banks) * p.row_size) in
      check_geometry p unit ≡ c
      → ledger_init p.base
          (u64 (p.channels * p.ch_span))
          p.hugepage_size
          p.track_owners
          fault.dram_bitmap
          fault.dram_owner
        ≡ a
      → ledger_init p.gpr_base p.gpr_size p.gpr_page p.track_owners fault.gpr_bitmap fault.gpr_owner
        ≡ b
      → start_init p fault.register bad unit c a b ≡ (ok, some d)
      → Reports p d
unfolding start_init finish_init
start-Reports p fault bad d ok (st, none) b e f g h = absurd (ground arith)
start-Reports p fault bad d ok (st, some l) (st', none) e f g h = absurd (ground arith)
start-Reports p fault bad d ok (st, some l) (st', some k) e f g h =
    elim (Bool-cases fault.register) [
      | inl no_device ↦ absurd (ground (arith, no_device))
      | inr fine ↦
          let same = some_inj.0 (ap (λ x. x.1) (rw fine at h)) in
          subst (Reports p) same (record {
            nch = refl;
            nbank = refl;
            row_bytes = refl;
            addr_map = refl;
            unit = refl;
            checked = check_geometry-Checked p _ e;
            dram_spans = init-Spans _ _ _ _ _ _ f;
            gpr_spans = init-Spans _ _ _ _ _ _ g;
          })
    ]
start-Reports p fault bad d refused a b e f g h = absurd (ground arith)

-- A module that starts reports its parameters, its two spans and the broadcast unit that they give,
-- and all of these have passed the checks.
pub pim_init-Reports :
    (p : Params) (fault : InitFaults) (bad : Status) (d : Started)
    → pim_init p fault bad ≡ (ok, some d)
    → Reports p d
unfolding pim_init
pim_init-Reports p fault bad d h = start-Reports p fault bad d _ _ _ refl refl refl h
