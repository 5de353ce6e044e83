-- ===== src/Driver/Module.antt =====
-- The loaded module as a whole: `ledger_init` of sw/drv/pim_main.c, and the ledgers with all the
-- files that are open, stepping by the file operations of sw/drv/pim_file.c. The mutexes make each
-- call a step of its own.
pub mod Ownership
pub mod Lifetime
pub mod Tests
use pim_sw.Common.{
  ℕ, ◌/◌, ◌%◌, ◌^◌, ◌<◌, ◌≡◌, Bool, true, false, ◌||◌, Option, none, some, List, [], ◌∷◌, ◌++◌,
  ◌==◌, if◌then◌else◌, not,
}
use pim_sw.Driver.Bitmap.{BitmapOps}
use pim_sw.Driver.Ledger.{Ledger, Extent, Status, ok, einval, enomem}
use pim_sw.Driver.Ledger.Release.{Apart, Words}
use pim_sw.Driver.File.{
  File, State, Faults, AllocReq, FreeReq, dev_open, dev_release, ioc_alloc, ioc_free,
}

-- `ledger_init`: its result, and the ledger where it succeeds. `track` is `pim_track_owners`;
-- `no_bitmap` and `no_owner` say that an allocation fails. The bitmap has a bit for every hugepage; the
-- C function asks for `(unsigned int)nr` bits, which is the same below 2 ^ 32.
unfoldable pub ledger_init : ℕ → ℕ → ℕ → Bool → Bool → Bool → Status × Option Ledger
ledger_init base bytes hugepage track no_bitmap no_owner =
    let nr = bytes / hugepage in
    if not (base % hugepage == 0)
    then (einval, none)
    else if bytes == 0 || not (bytes % hugepage == 0)
    then (einval, none)
    else if no_bitmap
    then (enomem, none)
    else if (if track then no_owner else false)
    then (enomem, none)
    else (
      ok,
      some (record {
        bitmap = λ _. false;
        owner = if track then some (λ _. 0) else none;
        nr_free = nr;
        base = base;
        bytes = bytes;
        hugepage_bytes = hugepage;
        nr_hugepages = nr;
      }),
    )

-- `pim_led` and `pim_files`.
pub record System : Type 0 where
  pub led : ℕ → Ledger
  pub files : List File

-- What a call of the file `f` works with.
abbrev pub call : System → File → State
call s f = record { led = s.led; file = f }

module _ (K : BitmapOps) where
  -- One call of a file operation. The number of hugepages in a request is a u32; a free request
  -- that names a hugepage twice is left out.
  pub data Step (s : System) : System → Type 0 where
    opened : (seq pid : ℕ) → Step s (record s { files = s.files ++ (dev_open seq pid ∷ []) })
    allocated :
        (before after : List File) (f : File) (fault : Faults) (req : AllocReq)
        → s.files ≡ before ++ (f ∷ after)
        → req.nr_hugepages < 2 ^ 32
        → Step s (record {
          led = (ioc_alloc K fault (call s f) req).state.led;
          files = before ++ ((ioc_alloc K fault (call s f) req).state.file ∷ after);
        })
    freed :
        (before after : List File) (f : File) (fault : Faults) (req : FreeReq) (es : List Extent)
        → s.files ≡ before ++ (f ∷ after)
        → Words es
        → Apart (s.led req.region) es
        → Step s (record {
          led = (ioc_free K fault (call s f) req es).1.led;
          files = before ++ ((ioc_free K fault (call s f) req es).1.file ∷ after);
        })
    released :
        (before after : List File) (f : File)
        → s.files ≡ before ++ (f ∷ after)
        → Step s (record { led = dev_release K (call s f); files = before ++ after })

  pub data Reach (s : System) : System → Type 0 where
    here : Reach s s
    next : {t u : System} → Reach s t → Step t u → Reach s u
