-- ===== src/Driver/Ledger/Commit.antt =====
-- The commit loop of `pim_hugepages_alloc`: committing a list of extents that fit.
use pim_sw.Common.{
  ℕ, ◌+◌, ◌≤◌, ◌<◌, ◌≡◌, refl, ◌∙◌, true, false, ◌||◌, if◌then◌else◌, within, arith, List, [], ◌∷◌,
  some,
}
use pim_sw.Driver.Bitmap.{BitmapOps}
use pim_sw.Driver.Ledger.{
  Share, Ledger, Extent, hugepage_addr, addr_to_hugepage, commit_extent, commit_all,
}
use pim_sw.Driver.Ledger.Extents.{HasSpan, covered, total, Fits, addr_to_hugepage-hugepage_addr}
use pim_sw.Driver.Ledger.Invariant.{IsValid, commit_extent-IsValid}

-- Extents that fit name hugepages of the ledger from `lo` on.
pub covered-Fits :
    (l : Ledger) (lo : ℕ) (es : List Extent) (j : ℕ)
    → HasSpan l
    → Fits l lo es
    → covered l es j ≡ true
    → (lo ≤ j) × (j < l.nr_hugepages) × (l.bitmap j ≡ false)
unfolding covered
covered-Fits l lo [] j v f h = cc
covered-Fits l lo (e ∷ es) j v (idx, a, low, pos, fits, clear, rest) h =
    let known : addr_to_hugepage l e.addr ≡ some idx =
      rw a (addr_to_hugepage-hugepage_addr idx v (omega arith)) in
    ground (arith, known, clear j, covered-Fits l (idx + e.nr_hugepages) es j v rest)

-- What committing the extents `es` in the state `s` has come to in `t`.
pub record Committed (s : Share) (es : List Extent) (t : Share) : Type 0 where
  pub valid : IsValid t
  pub bits : (j : ℕ) → t.l.bitmap j ≡ (covered s.l es j || s.l.bitmap j)
  pub mine : (j : ℕ) → t.hugepages j ≡ (covered s.l es j || s.hugepages j)
  pub taken : t.l.nr_free + total es ≡ s.l.nr_free
  pub addresses : (a : ℕ) → addr_to_hugepage t.l a ≡ addr_to_hugepage s.l a
  pub count : t.l.nr_hugepages ≡ s.l.nr_hugepages
  pub slot : t.slot ≡ s.slot

module _ (K : BitmapOps) where
  open K use {set_bit}

  -- What a commit does to one bit, and that it leaves the conversion of addresses alone.
  pub commit-bits :
      (s : Share) (idx run j : ℕ)
      → ((commit_extent K s idx run).l.bitmap j ≡ (if within idx run j then true else s.l.bitmap j))
        × ((commit_extent K s idx run).hugepages j
            ≡ (if within idx run j then true else s.hugepages j))
  unfolding commit_extent
  commit-bits s idx run j = (set_bit s.l.bitmap idx run j, set_bit s.hugepages idx run j)

  pub addr_to_hugepage-commit :
      (s : Share) (idx run addr : ℕ)
      → addr_to_hugepage (commit_extent K s idx run).l addr ≡ addr_to_hugepage s.l addr
  unfolding commit_extent addr_to_hugepage
  addr_to_hugepage-commit s idx run addr = refl

  pub hugepage_addr-commit :
      (s : Share) (idx run i : ℕ)
      → hugepage_addr (commit_extent K s idx run).l i ≡ hugepage_addr s.l i
  unfolding commit_extent hugepage_addr
  hugepage_addr-commit s idx run i = refl

  pub nr_hugepages-commit :
      (s : Share) (idx run : ℕ) → (commit_extent K s idx run).l.nr_hugepages ≡ s.l.nr_hugepages
  unfolding commit_extent
  nr_hugepages-commit s idx run = refl

  slot-commit : (s : Share) (idx run : ℕ) → (commit_extent K s idx run).slot ≡ s.slot
  unfolding commit_extent
  slot-commit s idx run = refl

  pub covered-commit :
      (s : Share) (idx run : ℕ) (es : List Extent) (j : ℕ)
      → covered (commit_extent K s idx run).l es j ≡ covered s.l es j
  unfolding covered
  covered-commit s idx run [] j = refl
  covered-commit s idx run (e ∷ es) j =
      ground (arith, addr_to_hugepage-commit s idx run e.addr, covered-commit s idx run es j)

  -- Extents behind the committed stretch still fit.
  pub Fits-commit :
      (s : Share) (idx run lo : ℕ) (es : List Extent)
      → idx + run ≤ lo
      → Fits s.l lo es
      → Fits (commit_extent K s idx run).l lo es
  Fits-commit s idx run lo [] h f = tt
  Fits-commit s idx run lo (e ∷ es) h (i, a, low, pos, fits, clear, rest) = (
    i,
    rw hugepage_addr-commit a,
    low,
    pos,
    rw nr_hugepages-commit fits,
    λ j p q. ground (arith, commit-bits s idx run j, clear j p q),
    Fits-commit s idx run (i + e.nr_hugepages) es (omega arith) rest,
  )

  pub commit_all-Committed :
      (s : Share) (lo : ℕ) (es : List Extent)
      → IsValid s
      → Fits s.l lo es
      → Committed s es (commit_all K s es)
  unfolding commit_all covered
  commit_all-Committed s lo [] v f = record {
    valid = v;
    bits = λ j. refl;
    mine = λ j. refl;
    taken = omega arith;
    addresses = λ a. refl;
    count = refl;
    slot = refl;
  }
  commit_all-Committed s lo (e ∷ es) v (idx, a, low, pos, fits, clear, rest) =
      let known : addr_to_hugepage s.l e.addr ≡ some idx =
        rw a (addr_to_hugepage-hugepage_addr idx v.span (omega arith)) in
      let run = e.nr_hugepages in
      let first = commit_extent-IsValid K s idx run v fits clear in
      let ih =
        commit_all-Committed (commit_extent K s idx run) (idx + run) es first.0
          (Fits-commit s idx run (idx + run) es (omega arith) rest) in
      rw (known, commit_all)
        (record {
          valid = ih.valid;
          bits = λ j.
              ground
                (arith, known, ih.bits j, covered-commit s idx run es j, commit-bits s idx run j);
          mine = λ j.
              ground
                (arith, known, ih.mine j, covered-commit s idx run es j, commit-bits s idx run j);
          taken = omega (arith, ih.taken, first.1);
          addresses = λ i. ih.addresses i ∙ addr_to_hugepage-commit s idx run i;
          count = ih.count ∙ nr_hugepages-commit s idx run;
          slot = ih.slot ∙ slot-commit s idx run;
        })

  pub commit_all-single :
      (s : Share) (idx run : ℕ)
      → HasSpan s.l
      → idx < s.l.nr_hugepages
      → commit_all K s (record { addr = hugepage_addr s.l idx; nr_hugepages = run } ∷ [])
        ≡ commit_extent K s idx run
  unfolding commit_all
  commit_all-single s idx run v h = rw (addr_to_hugepage-hugepage_addr idx v h, commit_all)
