-- ===== src/Driver/Ledger/Tests.antt =====
-- The driver on small data: a region of four hugepages of four bytes, of which the file has one.
use pim_sw.Common.{
  ℕ, ◌+◌, ◌≤◌, ◌<◌, ◌≡◌, ◌↔◌, ◌⊎◌, refl, arith, ◌==◌, some, [], ◌∷◌, length, if◌then◌else◌,
}
use pim_sw.Driver.Bitmap.{Clear, zeros}
use pim_sw.Driver.Bitmap.Plain.{plain_ops, area_from, bit_from, clear_run}
use pim_sw.Driver.Ledger.{
  eperm, check_all, commit_all, commit_extent, run_length, scan, Ledger, Share, Extent, ok, einval,
  enomem, enospc, alloc_contig, hugepages_alloc, hugepages_free, commit_all, hugepage_addr,
  addr_to_hugepage,
}
use pim_sw.Driver.Ledger.Extents.{HasSpan, covered, addr_to_hugepage-hugepage_addr}
use pim_sw.Driver.Ledger.Invariant.{IsValid}
use pim_sw.Driver.Ledger.Release.{Held, Released}
use pim_sw.Driver.Ledger.Alloc.{
  Granted, alloc-ok, alloc_enough, alloc-enomem, alloc_retry, alloc_contiguous, alloc_refused,
}
use pim_sw.Driver.Ledger.Free.{free_accepts, free-Released, free-alloc, free_duplicate}

abbrev region : Ledger
region = record {
  bitmap = λ j. j == 1;
  owner = some (λ j. if j == 1 then 7 else 0);
  nr_free = 3;
  base = 16;
  bytes = 16;
  hugepage_bytes = 4;
  nr_hugepages = 4;
}

abbrev mine : Share
mine = record { l = region; hugepages = λ j. j == 1; nr_held = 1; slot = 7 }

-- The hugepage of the file as an extent.
abbrev page : Extent
page = record { addr = 20; nr_hugepages = 1 }

-- The one after it.
abbrev other : Extent
other = record { addr = 24; nr_hugepages = 1 }

region-HasSpan : HasSpan region
region-HasSpan = omega arith

mine-IsValid : IsValid mine
unfolding zeros
mine-IsValid = record {
  span = region-HasSpan;
  free = refl;
  held = refl;
  owns = λ j h. h;
  inside = λ j h. ground arith;
}

page-Held : Held mine (page ∷ [])
unfolding addr_to_hugepage
page-Held = (1, refl, omega arith, omega arith, λ j p q. ground arith, tt)

-- Three hugepages are free, but no three in a row.
alloc_scattered :
    ((hugepages_alloc plain_ops mine 3 0 3).ret ≡ ok)
    × ((hugepages_alloc plain_ops mine 3 0 3).out
        ≡ (record { addr = 16; nr_hugepages = 1 } ∷ record { addr = 24; nr_hugepages = 2 } ∷ []))
    × ((hugepages_alloc plain_ops mine 3 0 1).ret ≡ enospc)
    × ((hugepages_alloc plain_ops mine 3 0 1).nr_out ≡ some 2)
    × ((hugepages_alloc plain_ops mine 3 alloc_contig 3).ret ≡ enospc)
    × ((hugepages_alloc plain_ops mine 4 0 4).ret ≡ enomem)
    × ((hugepages_alloc plain_ops mine 5 0 5).ret ≡ einval)
unfolding hugepages_alloc scan run_length commit_extent commit_all addr_to_hugepage hugepage_addr
    plain_ops area_from bit_from clear_run
alloc_scattered = (refl, refl, refl, refl, refl, refl, refl)

alloc-ok_example : Granted mine 3 3 (hugepages_alloc plain_ops mine 3 0 3)
alloc-ok_example = alloc-ok plain_ops mine mine-IsValid 3 3 (omega arith) 0 alloc_scattered.0

alloc_enough_example : (hugepages_alloc plain_ops mine 3 0 3).ret ≡ ok
alloc_enough_example =
    alloc_enough plain_ops mine mine-IsValid 3 3 (omega arith) (omega arith) (omega arith)
      (omega arith)

alloc-enomem_example : ((hugepages_alloc plain_ops mine 4 0 4).ret ≡ enomem) ↔ (3 < 4)
alloc-enomem_example =
    alloc-enomem plain_ops mine mine-IsValid 4 4 (omega arith) (omega arith) (omega arith)

alloc_retry_example : (1 < 2) × ((hugepages_alloc plain_ops mine 3 0 2).ret ≡ ok)
alloc_retry_example =
    alloc_retry plain_ops mine mine-IsValid 3 1 (omega arith) 2 2 alloc_scattered.2
      alloc_scattered.3 (omega arith)

alloc_contiguous_example :
    (((hugepages_alloc plain_ops mine 3 alloc_contig 1).ret ≡ ok)
      × (length (hugepages_alloc plain_ops mine 3 alloc_contig 1).out ≡ 1))
    ⊎ (((hugepages_alloc plain_ops mine 3 alloc_contig 1).ret ≡ enospc)
        × ((i : ℕ) → i + 3 ≤ 4 → ¬ Clear region.bitmap i 3))
alloc_contiguous_example =
    alloc_contiguous plain_ops mine mine-IsValid 3 1 (omega arith) (omega arith) (omega arith)
      (omega arith)

alloc_refused_example : (hugepages_alloc plain_ops mine 4 0 4).share ≡ mine
alloc_refused_example = alloc_refused plain_ops mine 4 0 4 (λ e. let h = alloc_scattered.5 in cc)

free_accepts_example : ((hugepages_free plain_ops mine (page ∷ [])).0 ≡ ok) ↔ Held mine (page ∷ [])
free_accepts_example = free_accepts plain_ops mine (page ∷ []) mine-IsValid (omega arith, tt)

-- The file does not hold hugepage 2.
other_refused : (hugepages_free plain_ops mine (other ∷ [])).0 ≡ eperm
unfolding hugepages_free check_all addr_to_hugepage
other_refused = refl

free-Released_example :
    ((hugepages_free plain_ops mine (page ∷ [])).0 ≡ ok)
    × Released mine (page ∷ []) (hugepages_free plain_ops mine (page ∷ [])).1
unfolding covered
free-Released_example =
    free-Released plain_ops mine (page ∷ []) mine-IsValid page-Held ((λ j h. refl), tt)

free-alloc_example :
    let r = hugepages_alloc plain_ops mine 3 0 3 in
    let (st, t) = hugepages_free plain_ops r.share r.out in
    (st ≡ ok)
    × IsValid t
    × ((j : ℕ) → t.l.bitmap j ≡ (j == 1))
    × ((j : ℕ) → t.hugepages j ≡ (j == 1))
    × (t.l.nr_free ≡ 3)
    × (t.nr_held ≡ 1)
    × (t.l.nr_hugepages ≡ 4)
free-alloc_example = free-alloc plain_ops mine 3 0 3 mine-IsValid (omega arith) alloc_scattered.0

free_duplicate_example :
    let (st, t) = hugepages_free plain_ops mine (page ∷ page ∷ []) in
    (st ≡ ok) × (t.l.nr_free ≡ zeros t.l.bitmap t.l.nr_hugepages + 1)
free_duplicate_example = free_duplicate plain_ops mine page mine-IsValid page-Held

addr_to_hugepage-hugepage_addr_example : addr_to_hugepage region (hugepage_addr region 3) ≡ some 3
addr_to_hugepage-hugepage_addr_example =
    addr_to_hugepage-hugepage_addr {l = region} 3 region-HasSpan (omega arith)
