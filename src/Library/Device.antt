-- ===== src/Library/Device.antt =====
-- The calls of the driver in sw/lib/pim_dev.c, `pim_ioctl_alloc` and `pim_ioctl_free`, on the model of
-- the driver, and what the pool of one region asks of it through them.
pub mod Pages
pub mod Laws
pub mod Tests
use pim_sw.Common.{if◌then◌else◌, ℕ, Bool, true, false, Option, none, some, List, length, u32}
use pim_sw.Driver.Bitmap.{BitmapOps}
use pim_sw.Driver.Ledger.{Extent, Status, ok}
use pim_sw.Driver.File.{State, Faults, AllocReq, FreeReq, ioc_alloc, ioc_free}
use pim_sw.Library.Pool.Supply.{Source}

pub is_ok : Status → Bool
is_ok ok = true
is_ok st = false

module _ (K : BitmapOps) (fault : Faults) (mem : ℕ) where
  -- The extents that the caller finds in its list, which is at the address `ext` and has room for
  -- `cap` of them, or nothing for -1.
  unfoldable pub ioctl_alloc : ℕ → ℕ → ℕ → ℕ → State → Option (List Extent) × State
  unfolding is_ok
  ioctl_alloc nr_hugepages vbase ext cap s =
      let r = ioc_alloc K fault s (record {
        region = mem;
        nr_hugepages = nr_hugepages;
        nr_extents = cap;
        flags = 0;
        vbase = vbase;
        extents = ext;
      }) in
      (if is_ok r.ret then some r.out else none, r.state)

  -- False for -1.
  unfoldable pub ioctl_free : List Extent → ℕ → ℕ → State → Bool × State
  unfolding is_ok
  ioctl_free es ext vbase s =
      let r =
        ioc_free K fault s
          (record {
            region = mem;
            nr_extents = length es;
            flags = 0;
            pad = 0;
            extents = ext;
            vbase = vbase;
          })
          es in
      (is_ok r.0, r.1)

  -- The calls that the pool makes, with no `vbase` and its list at `ext`.
  abbrev pub source : ℕ → Source State
  source ext = record {
    alloc = λ n room s. ioctl_alloc n 0 ext room s;
    free = λ es s. ioctl_free es ext 0 s;
  }
