-- ===== src/Driver/Module/Tests.antt =====
-- The ioctls and the life of the module on small data: two regions of four hugepages.
use pim_sw.Common.{ℕ, ◌≡◌, refl, true, false, arith, ◌==◌, some, [], ◌∷◌}
use pim_sw.Driver.Bitmap.{zeros}
use pim_sw.Driver.Bitmap.Plain.{plain_ops, area_from, clear_run}
use pim_sw.Driver.Ledger.{efault, Ledger, Extent, commit_extent, hugepages_alloc}
use pim_sw.Driver.Ledger.Extents.{covered}
use pim_sw.Driver.File.{
  State, share, Faults, AllocReq, FreeReq, dev_open, ioc_alloc, ioc_free, dev_release, put_back,
}
use pim_sw.Driver.File.Shares.{Sound, Moved}
use pim_sw.Driver.File.Ioctl.{ioc_alloc-Kept, ioc_alloc-Moved, ioc_free-Moved, Kept}
use pim_sw.Driver.Module.{System, Reach, opened, allocated, released, here, next, call, ledger_init}
use pim_sw.Driver.Module.Lifetime.{Loaded, run_exclusive, run_no_leak}

abbrev pub blank : Ledger
blank = record {
  bitmap = λ _. false;
  owner = some (λ _. 0);
  nr_free = 4;
  base = 16;
  bytes = 16;
  hugepage_bytes = 4;
  nr_hugepages = 4;
}

abbrev start : System
start = record { led = λ _. blank; files = [] }

start-Loaded : Loaded start
unfolding ledger_init
start-Loaded = record {
  ledgers = λ mem h. record {
    base = 16;
    bytes = 16;
    hugepage = 4;
    track = true;
    made = refl;
    page = omega arith;
    room = omega arith;
    few = omega arith;
  };
  unopened = refl;
}

abbrev pub no_faults : Faults
no_faults = record {
  request = false;
  memory = false;
  extents = false;
  reply = false;
  vbase = false;
}

abbrev no_reply : Faults
no_reply = record no_faults { reply = true }

abbrev request : AllocReq
request = record {
  region = 0;
  nr_hugepages = 2;
  nr_extents = 2;
  flags = 0;
  vbase = 0;
  extents = 64;
}

-- A system in which hugepage 1 of each region is taken by the one open file.
abbrev pub taken : State
taken = record {
  led = λ _. record blank { bitmap = λ j. j == 1; nr_free = 3 };
  file = record (dev_open 6 100) { hugepages = λ _ j. j == 1; nr_held = λ _. 1 };
}

taken-Sound : Sound taken
unfolding zeros share
taken-Sound mem h = record {
  span = omega arith;
  free = refl;
  held = refl;
  owns = λ j e. e;
  inside = λ j e. ground arith;
}

abbrev page : Extent
page = record { addr = 20; nr_hugepages = 1 }

abbrev give_back : FreeReq
give_back = record { region = 1; nr_extents = 1; flags = 0; pad = 0; extents = 64; vbase = 0 }

ioc_alloc-Moved_example : Moved taken (ioc_alloc plain_ops no_faults taken request).state
ioc_alloc-Moved_example =
    ioc_alloc-Moved plain_ops no_faults taken request taken-Sound (omega arith)

-- The copy of the reply fails after the grant.
reply_lost : (ioc_alloc plain_ops no_reply taken request).ret ≡ efault
unfolding ioc_alloc hugepages_alloc plain_ops area_from clear_run
reply_lost = refl

ioc_alloc-Kept_example : Kept taken (ioc_alloc plain_ops no_reply taken request).state
ioc_alloc-Kept_example =
    ioc_alloc-Kept plain_ops no_reply taken request taken-Sound (omega arith)
      (λ e. let h = reply_lost in cc)

ioc_free-Moved_example : Moved taken (ioc_free plain_ops no_faults taken give_back (page ∷ [])).1
unfolding covered
ioc_free-Moved_example =
    ioc_free-Moved plain_ops no_faults taken give_back (page ∷ []) taken-Sound (omega arith, tt)
      ((λ j h. refl), tt)

-- Two files are opened and the first allocates.
abbrev two_files : System
two_files = record start { files = dev_open 1 100 ∷ dev_open 2 200 ∷ [] }

abbrev reply : State
reply = (ioc_alloc plain_ops no_faults (call two_files (dev_open 1 100)) request).state

abbrev one_holds : System
one_holds = record { led = reply.led; files = reply.file ∷ dev_open 2 200 ∷ [] }

open_two : Reach plain_ops start two_files
open_two = next (next here (opened 1 100)) (opened 2 200)

run_to_holds : Reach plain_ops start one_holds
run_to_holds =
    next open_two
      (allocated [] (dev_open 2 200 ∷ []) (dev_open 1 100) no_faults request refl (omega arith))

holds_first : reply.file.hugepages 0 0 ≡ true
unfolding ioc_alloc put_back hugepages_alloc commit_extent plain_ops area_from clear_run
holds_first = refl

run_exclusive_example : (dev_open 2 200).hugepages 0 0 ≡ false
run_exclusive_example =
    run_exclusive plain_ops start one_holds start-Loaded run_to_holds 0 0 [] [] [] reply.file
      (dev_open 2 200) (omega arith) refl holds_first

-- Both files are closed, the first without freeing what it holds.
abbrev one_left : System
one_left = record {
  led = dev_release plain_ops (call one_holds reply.file);
  files = dev_open 2 200 ∷ [];
}

abbrev closed : System
closed = record { led = dev_release plain_ops (call one_left (dev_open 2 200)); files = [] }

run_to_closed : Reach plain_ops start closed
run_to_closed =
    next (next run_to_holds (released [] (dev_open 2 200 ∷ []) reply.file refl))
      (released [] [] (dev_open 2 200) refl)

run_no_leak_example :
    ((closed.led 0).nr_free ≡ (closed.led 0).nr_hugepages)
    × ((j : ℕ) → (closed.led 0).bitmap j ≡ false)
run_no_leak_example =
    run_no_leak plain_ops start closed start-Loaded run_to_closed 0 (omega arith) refl
