-- ===== src/Driver/Ledger.antt =====
-- sw/drv/pim_drv.h and sw/drv/pim_chunk.c: the ledger of one region, the part of an open file that
-- belongs to it, and the allocator over the two. The mutexes hold for the whole of a call, so a
-- call is one step. Messages are left out.
pub mod Extents
pub mod Search
pub mod Invariant
pub mod Commit
pub mod Release
pub mod Alloc
pub mod Free
pub mod Reclaim
pub mod Moves
pub mod Bits
mod Tests
use pim_sw.Common.{
  ℕ, zero, suc, ◌+◌, ◌-◌, ◌*◌, ◌/◌, ◌%◌, Bool, true, ◌&&◌, ◌||◌, Option, none, some, List, [], ◌∷◌,
  ltb, leb, ◌==◌, if◌then◌else◌, update, u32, u64, add64, sub64, not,
}
use pim_sw.Driver.Bitmap.{Bitmap, BitmapOps}

-- `struct pim_ledger`; `owner` is absent where the module runs without it.
pub record Ledger : Type 0 where
  pub bitmap : Bitmap
  pub owner : Option (ℕ → ℕ)
  pub nr_free : ℕ
  pub base : ℕ
  pub bytes : ℕ
  pub hugepage_bytes : ℕ
  pub nr_hugepages : ℕ

-- What a call on one region works with: `pim_led[mem]`, and `hugepages[mem]`, `nr_held[mem]` and
-- `slot` of the file.
pub record Share : Type 0 where
  pub l : Ledger
  pub hugepages : Bitmap
  pub nr_held : ℕ
  pub slot : ℕ

-- `struct pim_extent`, without its padding.
pub record Extent : Type 0 where
  pub addr : ℕ
  pub nr_hugepages : ℕ

-- 0 and the negative error numbers that the module returns.
pub data Status : Type 0 where
  ok einval enomem enospc eperm efault enotty : Status

-- PIM_ALLOC_CONTIG is bit 0; the flags hold no other bit.
abbrev pub alloc_contig : ℕ
alloc_contig = 1

unfoldable pub hugepage_addr : Ledger → ℕ → ℕ
hugepage_addr l idx = u64 (l.base + u64 (idx * l.hugepage_bytes))

-- The index that the C function stores through `idx` where it returns true.
pub addr_to_hugepage : Ledger → ℕ → Option ℕ
addr_to_hugepage l addr =
    if ltb addr l.base
    then none
    else let off = addr - l.base in
      let idx = off / l.hugepage_bytes in
      if not (off % l.hugepage_bytes == 0)
      then none
      else if ltb idx l.nr_hugepages
      then some idx
      else none

-- `for (i = 0; i < run; i++) owner[idx + i] = v`
pub stamp : ℕ → ℕ → ℕ → (ℕ → ℕ) → ℕ → ℕ
stamp zero idx v owner = owner
stamp (suc n) idx v owner = stamp n (idx + 1) v (update owner idx v)

pub stamp_owner : Option (ℕ → ℕ) → ℕ → ℕ → ℕ → Option (ℕ → ℕ)
unfolding stamp
stamp_owner none idx run v = none
stamp_owner (some owner) idx run v = some (stamp run idx v owner)

-- What `pim_hugepages_alloc` leaves: its status, `*nr_out` if it was written, the extents written
-- to `out`, and the state.
pub record Allocated : Type 0 where
  pub ret : Status
  pub nr_out : Option ℕ
  pub out : List Extent
  pub share : Share

-- The inner loop of stage 2: how far the zero bits go from `idx`, at most `left` of them.
pub run_length : Ledger → ℕ → ℕ → ℕ
run_length l idx zero = 0
run_length l idx (suc left) =
    let more = suc (run_length l (idx + 1) left) in
    if ltb idx l.nr_hugepages && not (l.bitmap idx) then more else 0

-- The test of one extent in the first loop of `pim_hugepages_free`; the inner loop over its
-- hugepages is `holds`.
pub holds : Bitmap → ℕ → ℕ → Bool
holds m idx zero = true
holds m idx (suc n) = m idx && holds m (idx + 1) n

check_extent : Share → Extent → Status
unfolding holds
check_extent s e = if e.nr_hugepages == 0 then einval else elim (addr_to_hugepage s.l e.addr) [
  | none ↦ einval
  | some idx ↦
      if ltb s.l.nr_hugepages (add64 idx e.nr_hugepages)
      then einval
      else if holds s.hugepages idx e.nr_hugepages
      then ok
      else eperm
]

pub check_all : Share → List Extent → Status
unfolding check_extent
check_all s [] = ok
check_all s (e ∷ es) = elim (check_extent s e) [ ok ↦ check_all s es | bad ↦ bad ]

-- The variables of the outer loop of stage 2.
pub record Scan : Type 0 where
  pub out : List Extent
  pub nex : ℕ
  pub got : ℕ

module _ (K : BitmapOps) where
  open K use {set, clear, next_zero_area, next_zero_bit}

  unfoldable pub commit_extent : Share → ℕ → ℕ → Share
  commit_extent s idx run = record s {
    l = record l {
      bitmap = set l.bitmap idx run;
      owner = stamp_owner l.owner idx run s.slot;
      nr_free = sub64 l.nr_free run;
    };
    hugepages = set s.hugepages idx run;
    nr_held = add64 s.nr_held run;
  }
    where
      open s use {l}

  pub release_extent : Share → ℕ → ℕ → Share
  release_extent s idx run = record s {
    l = record l {
      bitmap = clear l.bitmap idx run;
      owner = stamp_owner l.owner idx run 0;
      nr_free = add64 l.nr_free run;
    };
    hugepages = clear s.hugepages idx run;
    nr_held = sub64 s.nr_held run;
  }
    where
      open s use {l}

  -- Stage 2: the outer loop on fuel, from `idx` with `got` hugepages found in `nex` runs. An extent
  -- is written to `out` while there is room for it.
  pub scan : ℕ → Ledger → ℕ → ℕ → ℕ → ℕ → ℕ → Scan
  scan zero l nr cap idx got nex = record { out = []; nex = nex; got = got }
  scan (suc fuel) l nr cap idx got nex =
      let start = next_zero_bit l.bitmap l.nr_hugepages idx in
      let run = run_length l start (nr - got) in
      let rest = scan fuel l nr cap (start + run) (got + run) (nex + 1) in
      let found : Scan = record rest {
        out =
            if ltb nex cap
            then record { addr = hugepage_addr l start; nr_hugepages = u32 run } ∷ rest.out
            else rest.out;
      } in
      if ltb got nr
      then if leb l.nr_hugepages start then record { out = []; nex = nex; got = got } else found
      else record { out = []; nex = nex; got = got }

  -- The commit loop. An address that is no hugepage of the ledger would leave `bidx` unset; the
  -- extents of `scan` have none.
  pub commit_all : Share → List Extent → Share
  commit_all s [] = s
  commit_all s (e ∷ es) =
      commit_all
        (elim (addr_to_hugepage s.l e.addr) [
          | none ↦ s
          | some idx ↦ commit_extent s idx e.nr_hugepages
        ])
        es

  stage_two : Share → ℕ → ℕ → Allocated
  stage_two s nr cap =
      let r = scan nr s.l nr cap 0 0 0 in
      if ltb r.got nr
      then record { ret = enomem; nr_out = some r.nex; out = r.out; share = s }
      else if ltb cap r.nex
      then record { ret = enospc; nr_out = some r.nex; out = r.out; share = s }
      else record { ret = ok; nr_out = some r.nex; out = r.out; share = commit_all s r.out }

  -- The part of `pim_hugepages_alloc` under the locks.
  alloc_locked : Share → ℕ → ℕ → ℕ → Allocated
  alloc_locked s nr flags cap =
      let idx = next_zero_area s.l.bitmap s.l.nr_hugepages 0 nr in
      if ltb s.l.nr_free nr
      then record { ret = enomem; nr_out = some 0; out = []; share = s }
      else if ltb idx s.l.nr_hugepages
      then if ltb cap 1
        then record { ret = enospc; nr_out = some 1; out = []; share = s }
        else record {
          ret = ok;
          nr_out = some 1;
          out = record { addr = hugepage_addr s.l idx; nr_hugepages = nr } ∷ [];
          share = commit_extent s idx nr;
        }
      else if flags % 2 == alloc_contig
      then record { ret = enospc; nr_out = some 0; out = []; share = s }
      else stage_two s nr cap

  -- `pim_hugepages_alloc` for a region that exists. `flags & ~PIM_ALLOC_CONTIG` is `flags / 2`.
  unfoldable pub hugepages_alloc : Share → ℕ → ℕ → ℕ → Allocated
  unfolding alloc_locked stage_two
  hugepages_alloc s nr flags cap =
      if nr == 0 || ltb s.l.nr_hugepages nr || not (flags / 2 == 0)
      then record { ret = einval; nr_out = none; out = []; share = s }
      else alloc_locked s nr flags cap

  pub release_all : Share → List Extent → Share
  release_all s [] = s
  release_all s (e ∷ es) =
      release_all
        (elim (addr_to_hugepage s.l e.addr) [
          | none ↦ s
          | some idx ↦ release_extent s idx e.nr_hugepages
        ])
        es

  -- `pim_hugepages_free` for a region that exists.
  pub hugepages_free : Share → List Extent → Status × Share
  hugepages_free s es = elim (check_all s es) [ ok ↦ (ok, release_all s es) | bad ↦ (bad, s) ]

  -- One region of `pim_hugepages_reclaim`: the loop over the indices below `n`, downwards from the
  -- rounds left.
  reclaim_from : ℕ → ℕ → Share → Share
  reclaim_from zero idx s = s
  reclaim_from (suc n) idx s =
      reclaim_from n (idx + 1) (if s.hugepages idx then release_extent s idx 1 else s)

  pub hugepages_reclaim : Share → Share
  unfolding reclaim_from
  hugepages_reclaim s = reclaim_from s.l.nr_hugepages 0 s
