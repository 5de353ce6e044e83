-- ===== src/Driver/File.antt =====
-- sw/drv/pim_file.c, the file operations, and the entry points of sw/drv/pim_chunk.c that take a
-- region's number: the state of the module and of one open file, and the ioctls on them. User
-- memory, kernel allocation and their failures are an argument of each call.
pub mod Shares
pub mod Ioctl
pub mod Bits
use pim_sw.Common.{
  ℕ, ◌+◌, ◌*◌, ◌%◌, ◌^◌, min, Bool, true, false, ◌||◌, Option, none, some, List, [], ◌∷◌, ◌++◌, ltb,
  leb, ◌==◌, if◌then◌else◌, update, add64, u64, not,
}
use pim_sw.Driver.Bitmap.{Bitmap, BitmapOps}
use pim_sw.Driver.Ledger.{
  Ledger, Share, Extent, Allocated, Status, ok, einval, enomem, enospc, eperm, efault, enotty,
}
use pim_sw.Driver.Ledger

-- PIM_NREGION; region 0 is the DRAM and region 1 the GPR.
abbrev pub nregion : ℕ
nregion = 2

-- `struct pim_vbase`
pub record Vbase : Type 0 where
  pub vbase : ℕ
  pub bytes : ℕ

-- `struct pim_file`; the arrays are functions of the region's number.
pub record File : Type 0 where
  pub hugepages : ℕ → Bitmap
  pub nr_held : ℕ → ℕ
  pub slot : ℕ
  pub pid : ℕ
  pub vbases : List Vbase

-- `pim_led` and the file that makes a call.
pub record State : Type 0 where
  pub led : ℕ → Ledger
  pub file : File

-- The part of the state that a call on region `mem` works with, and the state after it.
unfoldable pub share : State → ℕ → Share
share s mem = record {
  l = s.led mem;
  hugepages = s.file.hugepages mem;
  nr_held = s.file.nr_held mem;
  slot = s.file.slot;
}

unfoldable pub put_back : State → ℕ → Share → State
put_back s mem t = record {
  led = update s.led mem t.l;
  file = record file {
    hugepages = update file.hugepages mem t.hugepages;
    nr_held = update file.nr_held mem t.nr_held;
  };
}
  where
    open s use {file}

-- `pim_dev_open`: the file that opening makes, where its allocations succeed. `seq` is the value of
-- `atomic_inc_return(&pim_slot_seq)`. The bitmaps have a bit for every hugepage, as those of
-- `ledger_init` do.
unfoldable pub dev_open : ℕ → ℕ → File
dev_open seq pid = record {
  hugepages = λ _ _. false;
  nr_held = λ _. 0;
  slot = seq % 2 ^ 15 + 1;
  pid = pid;
  vbases = [];
}

-- `record_vbase`, where its allocation succeeds; an overlap is only reported.
pub record_vbase : File → ℕ → ℕ → File
record_vbase f vbase bytes =
    if vbase == 0 || bytes == 0
    then f
    else record f { vbases = f.vbases ++ record { vbase = vbase; bytes = bytes } ∷ [] }

-- The first entry with this address goes.
drop_vbase : ℕ → List Vbase → List Vbase
drop_vbase a [] = []
drop_vbase a (v ∷ vs) = if v.vbase == a then vs else v ∷ drop_vbase a vs

pub forget_vbase : File → ℕ → File
unfolding drop_vbase
forget_vbase f vbase = if vbase == 0 then f else record f { vbases = drop_vbase vbase f.vbases }

-- `struct pim_alloc_req` and `struct pim_free_req`; the extents of a free request are those that
-- its pointer names, and `extents` is that pointer.
pub record AllocReq : Type 0 where
  pub region : ℕ
  pub nr_hugepages : ℕ
  pub nr_extents : ℕ
  pub flags : ℕ
  pub vbase : ℕ
  pub extents : ℕ

pub record FreeReq : Type 0 where
  pub region : ℕ
  pub nr_extents : ℕ
  pub flags : ℕ
  pub pad : ℕ
  pub extents : ℕ
  pub vbase : ℕ

-- Which of the kernel's services fail in a call: the copy of the request, the temporary array, the
-- copy of the extents, the copy of the reply, the record of `vbase`.
pub record Faults : Type 0 where
  pub request : Bool
  pub memory : Bool
  pub extents : Bool
  pub reply : Bool
  pub vbase : Bool

-- What `ioc_alloc` leaves: its result, the extents and the count that the caller can read, none
-- where a copy to it fails, and the state.
pub record AllocReply : Type 0 where
  pub ret : Status
  pub out : List Extent
  pub nr_extents : Option ℕ
  pub state : State

count_of : Option ℕ → ℕ
count_of none = 0
count_of (some n) = n

-- The tests of `ioc_alloc` and `ioc_free` before the ledger is touched, in their order.
check_alloc : Faults → State → AllocReq → Status
check_alloc fault s req =
    if fault.request
    then efault
    else if leb nregion req.region
    then einval
    else if req.nr_hugepages == 0 || ltb (s.led req.region).nr_hugepages req.nr_hugepages
    then einval
    else if req.nr_extents == 0 || req.extents == 0
    then einval
    else if fault.memory
    then enomem
    else ok

check_free : Faults → State → FreeReq → Status
check_free fault s req =
    if fault.request
    then efault
    else if leb nregion req.region || not (req.flags == 0) || not (req.pad == 0)
    then einval
    else if req.nr_extents == 0
        || ltb (s.led req.region).nr_hugepages req.nr_extents
        || req.extents == 0
    then einval
    else if fault.memory
    then enomem
    else if fault.extents
    then efault
    else ok

-- `ioc_free` from `pim_hugepages_free` on.
finish_free : FreeReq → Status × State → Status × State
unfolding forget_vbase
finish_free req (ok, t) = (ok, record t { file = forget_vbase t.file req.vbase })
finish_free req (bad, t) = (bad, t)

module _ (K : BitmapOps) where
  -- `pim_hugepages_alloc` and `pim_hugepages_free`, which check the region themselves.
  pub hugepages_alloc : State → ℕ → ℕ → ℕ → ℕ → Allocated × State
  unfolding share put_back
  hugepages_alloc s mem nr flags cap =
      let r = Ledger.hugepages_alloc K (share s mem) nr flags cap in
      if leb nregion mem
      then (record { ret = einval; nr_out = none; out = []; share = share s mem }, s)
      else (r, put_back s mem r.share)

  pub hugepages_free : State → ℕ → List Extent → Status × State
  unfolding share put_back
  hugepages_free s mem es =
      let (st, t) = Ledger.hugepages_free K (share s mem) es in
      if leb nregion mem then (einval, s) else (st, put_back s mem t)

  -- `pim_hugepages_reclaim`; the bitmaps of an open file are never NULL.
  pub hugepages_reclaim : State → State
  unfolding share put_back
  hugepages_reclaim s =
      let t = put_back s 0 (Ledger.hugepages_reclaim K (share s 0)) in
      put_back t 1 (Ledger.hugepages_reclaim K (share t 1))

  -- `pim_dev_release`: the ledgers that closing a file leaves.
  pub dev_release : State → ℕ → Ledger
  unfolding hugepages_reclaim
  dev_release s = (hugepages_reclaim s).led

  -- `ioc_alloc` from `pim_hugepages_alloc` on, given what that has returned.
  finish_alloc : Faults → AllocReq → Allocated × State → AllocReply
  unfolding hugepages_free record_vbase count_of
  finish_alloc fault req (r, s) =
      let undone = (hugepages_free s req.region r.out).1 in
      elim r.ret [
        | ok ↦
            if fault.extents || fault.reply
            then record { ret = efault; out = []; nr_extents = none; state = undone }
            else record {
              ret = ok;
              out = r.out;
              nr_extents = some (count_of r.nr_out);
              state = if fault.vbase then s else record s {
                file =
                    record_vbase s.file req.vbase
                      (u64 (req.nr_hugepages * (s.led req.region).hugepage_bytes));
              };
            }
        | bad ↦
            if fault.reply
            then record { ret = efault; out = []; nr_extents = none; state = s }
            else record { ret = bad; out = []; nr_extents = some (count_of r.nr_out); state = s }
      ]

  unfoldable pub ioc_alloc : Faults → State → AllocReq → AllocReply
  unfolding finish_alloc hugepages_alloc check_alloc
  ioc_alloc fault s req = elim (check_alloc fault s req) [
    | ok ↦ finish_alloc fault req (
        hugepages_alloc s req.region req.nr_hugepages req.flags
          (min req.nr_extents req.nr_hugepages))
    | bad ↦ record { ret = bad; out = []; nr_extents = none; state = s }
  ]

  -- The list holds the extents that the request's pointer names.
  pub ioc_free : Faults → State → FreeReq → List Extent → Status × State
  unfolding hugepages_free finish_free check_free
  ioc_free fault s req es = elim (check_free fault s req) [
    | ok ↦ finish_free req (hugepages_free s req.region es)
    | bad ↦ (bad, s)
  ]
