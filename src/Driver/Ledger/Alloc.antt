-- ===== src/Driver/Ledger/Alloc.antt =====
-- `pim_hugepages_alloc` of sw/drv/pim_chunk.c: what each of its results means.
use pim_sw.Common.{
  ℕ, ◌+◌, ◌%◌, ◌/◌, ◌≤◌, ◌<◌, ◌^◌, ◌≡◌, ◌≢◌, ◌↔◌, ◌⊎◌, refl, false, ◌||◌, not, arith, ltb, ◌==◌, [],
  ◌∷◌, some, Bool-cases, inl, inr, length,
}
use pim_sw.Driver.Bitmap.{BitmapOps, Clear, zeros-le, zeros-zero}
use pim_sw.Driver.Ledger.{
  Share, Allocated, ok, enomem, enospc, alloc_contig, hugepages_alloc, stage_two, commit_extent,
  scan, hugepage_addr,
}
use pim_sw.Driver.Ledger.Extents.{total, Fits}
use pim_sw.Driver.Ledger.Search.{scan_enough, scan-Fits, scan_room}
use pim_sw.Driver.Ledger.Invariant.{IsValid}
use pim_sw.Driver.Ledger.Commit.{Committed, commit_all-Committed, commit_all-single}

-- A request for `nr` hugepages with room for `cap` extents was granted by `r`: the extents name
-- `nr` hugepages that were free, none of them twice, and these are what has changed hands.
pub record Granted (s : Share) (nr cap : ℕ) (r : Allocated) : Type 0 where
  pub fits : Fits s.l 0 r.out
  pub size : total r.out ≡ nr
  pub count : r.nr_out ≡ some (length r.out)
  pub room : length r.out ≤ cap
  pub committed : Committed s r.out r.share

module _ (K : BitmapOps) (s : Share) (v : IsValid s) (nr cap : ℕ) (word : nr < 2 ^ 32) where
  open K use {next_zero_area, area_fits, area_clear, area_complete}

  -- The search with fuel `nr` from the start.
  search :
      nr ≤ s.l.nr_free
      → ((scan K nr s.l nr cap 0 0 0).got ≡ nr) × ((scan K nr s.l nr cap 0 0 0).nex + 0 ≤ 0 + nr)
  search h =
      scan_enough K s.l nr cap nr 0 0 0 (omega arith) (omega arith) (omega arith)
        (omega (arith, v.free, zeros-zero s.l.bitmap))

  stage_two-ok :
      nr ≤ s.l.nr_free → (stage_two K s nr cap).ret ≡ ok → Granted s nr cap (stage_two K s nr cap)
  unfolding stage_two
  stage_two-ok h e =
      let (all, few) = search h in
      elim (Bool-cases (ltb cap (scan K nr s.l nr cap 0 0 0).nex)) [
        | inl over ↦ absurd (ground (arith, all, over))
        | inr fit ↦
            let (fits, size, count) =
              scan-Fits K s.l nr cap nr 0 0 0 (omega arith) word (ground (arith, fit)) in
            let got : ltb (scan K nr s.l nr cap 0 0 0).got nr ≡ false = ground (arith, all) in
            rw (got, fit)
              (record {
                fits = fits;
                size = omega (arith, size, all);
                count = ground (arith, count);
                room = ground (arith, count, fit);
                committed = commit_all-Committed K s 0 _ v fits;
              })
      ]

  area-ok :
      next_zero_area s.l.bitmap s.l.nr_hugepages 0 nr < s.l.nr_hugepages
      → 0 < nr
      → 0 < cap
      → Granted s nr cap (record {
        ret = ok;
        nr_out = some 1;
        out =
            record {
              addr = hugepage_addr s.l (next_zero_area s.l.bitmap s.l.nr_hugepages 0 nr);
              nr_hugepages = nr;
            }
            ∷ [];
        share = commit_extent K s (next_zero_area s.l.bitmap s.l.nr_hugepages 0 nr) nr;
      })
  area-ok h pos room =
      let idx = next_zero_area s.l.bitmap s.l.nr_hugepages 0 nr in
      let inside = area_fits s.l.bitmap s.l.nr_hugepages 0 nr h in
      let clear = area_clear s.l.bitmap s.l.nr_hugepages 0 nr h in
      record {
        fits = (idx, refl, omega arith, pos, inside, clear, tt);
        size = omega arith;
        count = refl;
        room = omega arith;
        committed = rw (commit_all-single K s idx nr v.span h) at (
            commit_all-Committed K s 0
              (record { addr = hugepage_addr s.l idx; nr_hugepages = nr } ∷ []) v
              (idx, refl, omega arith, pos, inside, clear, tt));
      }

  -- On a valid state, a granted request for a 32-bit number of hugepages has got as many as it
  -- asked for, within its room for extents and from the free hugepages alone, and the invariant
  -- holds after it.
  pub alloc-ok :
      (flags : ℕ)
      → (hugepages_alloc K s nr flags cap).ret ≡ ok
      → Granted s nr cap (hugepages_alloc K s nr flags cap)
  unfolding hugepages_alloc
  alloc-ok flags e =
      elim (Bool-cases (ltb (next_zero_area s.l.bitmap s.l.nr_hugepages 0 nr) s.l.nr_hugepages)) [
        | inl run ↦ elim (Bool-cases (ltb cap 1)) [
          | inl none_fits ↦ absurd (ground (arith, run, none_fits))
          | inr room ↦
              let asked : (nr == 0 || ltb s.l.nr_hugepages nr || not (flags / 2 == 0)) ≡ false =
                ground arith in
              let free : ltb s.l.nr_free nr ≡ false = ground arith in
              rw (asked, free, run, room) (area-ok (ground arith) (ground arith) (ground arith))
        ]
        | inr scattered ↦
            let asked : (nr == 0 || ltb s.l.nr_hugepages nr || not (flags / 2 == 0)) ≡ false =
              ground arith in
            let free : ltb s.l.nr_free nr ≡ false = ground arith in
            let split : (flags % 2 == 1) ≡ false = ground (arith, scattered) in
            rw (asked, free, scattered, split)
              (stage_two-ok (ground arith) (rw (asked, free, scattered, split) at e))
      ]

  -- On a valid state, a request with no flags for at least one hugepage, of which enough are free,
  -- and with room for as many extents as hugepages, is granted, however scattered the free ones
  -- lie.
  pub alloc_enough : 0 < nr → nr ≤ s.l.nr_free → nr ≤ cap → (hugepages_alloc K s nr 0 cap).ret ≡ ok
  unfolding hugepages_alloc
  alloc_enough pos free room =
      ground (arith, search free, zeros-le s.l.bitmap s.l.nr_hugepages, v.free)

  -- On a valid state, a request with no flags for at least one hugepage and at most the whole
  -- region fails with ENOMEM exactly when fewer are free; the disagreement of bitmap and counter
  -- never shows.
  pub alloc-enomem :
      0 < nr
      → nr ≤ s.l.nr_hugepages
      → ((hugepages_alloc K s nr 0 cap).ret ≡ enomem) ↔ (s.l.nr_free < nr)
  unfolding hugepages_alloc
  alloc-enomem pos most = (
    λ e. elim (Bool-cases (ltb s.l.nr_free nr)) [
      | inl short ↦ ground arith
      | inr free ↦ absurd (ground (arith, free, search (ground arith)))
    ],
    λ short. ground arith,
  )

  -- On a valid state, where a request with no flags fails because its room for extents is too
  -- small, `*nr_out` says how many are needed: more than there was room for, and with that much
  -- room or more the same request is granted.
  pub alloc_retry :
      (k cap' : ℕ)
      → (hugepages_alloc K s nr 0 cap).ret ≡ enospc
      → (hugepages_alloc K s nr 0 cap).nr_out ≡ some k
      → k ≤ cap'
      → (cap < k) × ((hugepages_alloc K s nr 0 cap').ret ≡ ok)
  unfolding hugepages_alloc
  alloc_retry k cap' e out room =
      let free : nr ≤ s.l.nr_free = ground arith in
      (
        ground (arith, search free),
        ground (arith, search free, scan_room K s.l nr cap cap' nr 0 0 0),
      )

  -- On a valid state, a request with PIM_ALLOC_CONTIG for at least one hugepage, of which enough
  -- are free, with room for an extent, is granted as one extent, or it fails with ENOSPC and no
  -- stretch of that many hugepages is free.
  pub alloc_contiguous :
      0 < nr
      → nr ≤ s.l.nr_free
      → 0 < cap
      → (((hugepages_alloc K s nr alloc_contig cap).ret ≡ ok)
          × (length (hugepages_alloc K s nr alloc_contig cap).out ≡ 1))
        ⊎ (((hugepages_alloc K s nr alloc_contig cap).ret ≡ enospc)
            × ((i : ℕ) → i + nr ≤ s.l.nr_hugepages → ¬ Clear s.l.bitmap i nr))
  unfolding hugepages_alloc
  alloc_contiguous pos free room =
      let most : nr ≤ s.l.nr_hugepages =
        omega (arith, zeros-le s.l.bitmap s.l.nr_hugepages, v.free) in
      elim (Bool-cases (ltb (next_zero_area s.l.bitmap s.l.nr_hugepages 0 nr) s.l.nr_hugepages)) [
        | inl run ↦ inl (ground (arith, run), ground (arith, run))
        | inr scattered ↦ inr (
          ground (arith, scattered),
          λ i h.
              area_complete s.l.bitmap s.l.nr_hugepages 0 nr i pos (ground arith) (omega arith) h,
        )
      ]

-- A request that is not granted changes nothing, whatever it asks for.
pub alloc_refused :
    (K : BitmapOps) (s : Share) (nr flags cap : ℕ)
    → (hugepages_alloc K s nr flags cap).ret ≢ ok
    → (hugepages_alloc K s nr flags cap).share ≡ s
unfolding hugepages_alloc
alloc_refused K s nr flags cap h = ground arith
