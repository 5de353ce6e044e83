-- ===== src/Driver/Ledger/Free.antt =====
-- `pim_hugepages_free` of sw/drv/pim_chunk.c, and how it undoes `pim_hugepages_alloc`.
use pim_sw.Common.{
  ℕ, zero, suc, ◌+◌, ◌≤◌, ◌<◌, ◌^◌, ◌≡◌, ◌≢◌, ◌↔◌, refl, true, false, arith, List, [], ◌∷◌, some,
  Bool-cases, inl, inr, ◌∙◌, sym, ap,
}
use pim_sw.Driver.Bitmap.{BitmapOps, zeros, zeros-le, zeros_ext, Bitmap}
use pim_sw.Driver.Ledger.{
  Share, Ledger, Extent, ok, eperm, addr_to_hugepage, hugepage_addr, hugepages_alloc,
  hugepages_free, check_all, holds, release_all, release_extent,
}
use pim_sw.Driver.Ledger.Extents.{
  HasSpan, covered, covered_ext, Fits, addr_to_hugepage-hugepage_addr,
}
use pim_sw.Driver.Ledger.Invariant.{IsValid, Full, release_extent-IsValid}
use pim_sw.Driver.Ledger.Commit.{covered-Fits}
use pim_sw.Driver.Ledger.Release.{
  Held, Apart, Words, Released, check_all-Held, Held-check_all, release_all-Released, release-bits,
  release-nr_free, nr_hugepages-release, addr_to_hugepage-release,
}
use pim_sw.Driver.Ledger.Alloc.{alloc-ok}

-- Where one extent that fits begins and ends.
single :
    (l : Ledger) (lo : ℕ) (e : Extent) (idx j : ℕ)
    → HasSpan l
    → e.addr ≡ hugepage_addr l idx
    → idx + e.nr_hugepages ≤ l.nr_hugepages
    → covered l (e ∷ []) j ≡ true
    → j < idx + e.nr_hugepages
unfolding covered
single l lo e idx j v a fits h =
    let known : addr_to_hugepage l e.addr ≡ some idx =
      rw a (addr_to_hugepage-hugepage_addr idx v (ground (arith, h))) in
    ground (arith, known)

-- Extents that fit are apart, and a file that holds what they name holds them.
Fits-Apart : (l : Ledger) (lo : ℕ) (es : List Extent) → HasSpan l → Fits l lo es → Apart l es
Fits-Apart l lo [] v f = tt
Fits-Apart l lo (e ∷ es) v (idx, a, low, pos, fits, clear, rest) = (
  λ j h. elim (Bool-cases (covered l es j)) [
    | inr apart ↦ apart
    | inl twice ↦ absurd (
        ground (
          arith,
          single l lo e idx j v a fits h,
          covered-Fits l (idx + e.nr_hugepages) es j v rest twice,
        ))
  ],
  Fits-Apart l (idx + e.nr_hugepages) es v rest,
)

pub Fits-Held :
    (l : Ledger) (lo : ℕ) (es : List Extent) (t : Share)
    → HasSpan l
    → ((a : ℕ) → addr_to_hugepage t.l a ≡ addr_to_hugepage l a)
    → t.l.nr_hugepages ≡ l.nr_hugepages
    → ((j : ℕ) → covered l es j ≡ true → t.hugepages j ≡ true)
    → Fits l lo es
    → Held t es
unfolding covered
Fits-Held l lo [] t v same count mine f = tt
Fits-Held l lo (e ∷ es) t v same count mine (idx, a, low, pos, fits, clear, rest) =
    let known : addr_to_hugepage l e.addr ≡ some idx =
      rw a (addr_to_hugepage-hugepage_addr idx v (omega arith)) in
    (
      idx,
      same e.addr ∙ known,
      pos,
      omega (arith, count),
      λ j p q. mine j (ground (arith, known)),
      Fits-Held l (idx + e.nr_hugepages) es t v same count
          (λ j h. mine j (ground (arith, known, h))) rest,
    )

Apart-ext :
    (l l' : Ledger) (es : List Extent)
    → ((a : ℕ) → addr_to_hugepage l' a ≡ addr_to_hugepage l a)
    → Apart l es
    → Apart l' es
Apart-ext l l' [] same a = tt
Apart-ext l l' (e ∷ es) same (a, rest) = (
  λ j h. covered_ext l' l es j same ∙ a j (sym (covered_ext l' l (e ∷ []) j same) ∙ h),
  Apart-ext l l' es same rest,
)

holds_gone : (m : Bitmap) (idx n : ℕ) → 0 < n → m idx ≡ false → holds m idx n ≡ false
unfolding holds
holds_gone m idx zero p h = absurd (omega arith)
holds_gone m idx (suc n) p h = ground arith

-- An extent whose first hugepage the file does not hold is refused.
check_all-eperm :
    (t : Share) (e : Extent) (es : List Extent) (idx : ℕ)
    → addr_to_hugepage t.l e.addr ≡ some idx
    → 0 < e.nr_hugepages
    → idx + e.nr_hugepages ≤ t.l.nr_hugepages
    → HasSpan t.l
    → t.hugepages idx ≡ false
    → check_all t (e ∷ es) ≡ eperm
unfolding check_all
check_all-eperm t e es idx known pos fits span gone =
    ground (arith, known, holds_gone t.hugepages idx e.nr_hugepages pos gone, span.few)

covered_first :
    (l : Ledger) (e : Extent) (es : List Extent) (idx : ℕ)
    → addr_to_hugepage l e.addr ≡ some idx
    → 0 < e.nr_hugepages
    → covered l (e ∷ es) idx ≡ true
unfolding covered
covered_first l e es idx known pos = ground (arith, known)

-- The counter of the file follows from its bitmap.
held-eq :
    (s t : Share)
    → IsValid s
    → IsValid t
    → t.l.nr_hugepages ≡ s.l.nr_hugepages
    → ((j : ℕ) → t.hugepages j ≡ s.hugepages j)
    → t.nr_held ≡ s.nr_held
held-eq s t v w same mine = omega (
  arith,
  v.held,
  w.held,
  same,
  zeros_ext t.hugepages s.hugepages s.l.nr_hugepages (λ j h. mine j),
  ap (zeros t.hugepages) same,
)

module _ (K : BitmapOps) where
  -- On a valid state, a free of extents of 32-bit sizes is accepted exactly when each extent is a
  -- stretch of the ledger that the file holds.
  pub free_accepts :
      (s : Share) (es : List Extent)
      → IsValid s
      → Words es
      → ((hugepages_free K s es).0 ≡ ok) ↔ Held s es
  unfolding hugepages_free
  free_accepts s es v w = (
    λ e. check_all-Held s es v.span w (ground (arith, e)),
    λ h. ground (arith, Held-check_all s es v.span h),
  )

  -- A free that is not accepted changes nothing.
  pub free_refused :
      (s : Share) (es : List Extent)
      → (hugepages_free K s es).0 ≢ ok
      → (hugepages_free K s es).1 ≡ s
  unfolding hugepages_free
  free_refused s es ne = ground (arith, ne)

  -- On a valid state, extents that the file holds and that name no hugepage twice are freed: their
  -- hugepages and no others go back to the ledger, and the invariant holds after it.
  pub free-Released :
      (s : Share) (es : List Extent)
      → IsValid s
      → Held s es
      → Apart s.l es
      → ((hugepages_free K s es).0 ≡ ok) × Released s es (hugepages_free K s es).1
  unfolding hugepages_free
  free-Released s es v h a =
      rw (Held-check_all s es v.span h, hugepages_free) (refl, release_all-Released K s es v h a)

  -- On a valid state, freeing what a request has granted takes back exactly that: the free is
  -- accepted, the invariant holds, and bitmaps and counters are what they were before the request.
  pub free-alloc :
      (s : Share) (nr flags cap : ℕ)
      → IsValid s
      → nr < 2 ^ 32
      → (hugepages_alloc K s nr flags cap).ret ≡ ok
      → let r = hugepages_alloc K s nr flags cap in
        let (st, t) = hugepages_free K r.share r.out in
        (st ≡ ok)
        × IsValid t
        × ((j : ℕ) → t.l.bitmap j ≡ s.l.bitmap j)
        × ((j : ℕ) → t.hugepages j ≡ s.hugepages j)
        × (t.l.nr_free ≡ s.l.nr_free)
        × (t.nr_held ≡ s.nr_held)
        × (t.l.nr_hugepages ≡ s.l.nr_hugepages)
  free-alloc s nr flags cap v w e =
      let r = hugepages_alloc K s nr flags cap in
      let g = alloc-ok K s v nr cap w flags e in
      let c = g.committed in
      let held =
        Fits-Held s.l 0 r.out r.share v.span c.addresses c.count
          (λ j h. ground (arith, c.mine j, h)) g.fits in
      let apart =
        Apart-ext s.l r.share.l r.out c.addresses (Fits-Apart s.l 0 r.out v.span g.fits) in
      let (fine, f) = free-Released r.share r.out c.valid held apart in
      let was_free =
        λ (j : ℕ) (h : covered s.l r.out j ≡ true). covered-Fits s.l 0 r.out j v.span g.fits h in
      let t = (hugepages_free K r.share r.out).1 in
      let mine : (j : ℕ) → t.hugepages j ≡ s.hugepages j = λ j. ground (
        arith,
        f.mine j,
        c.mine j,
        covered_ext r.share.l s.l r.out j c.addresses,
        was_free j,
        v.owns j,
      ) in
      let same_held = held-eq s t v f.valid (f.count ∙ c.count) mine in
      (
        fine,
        f.valid,
        λ j.
            ground (
              arith,
              f.bits j,
              c.bits j,
              covered_ext r.share.l s.l r.out j c.addresses,
              was_free j,
            ),
        mine,
        omega (arith, f.returned, c.taken),
        same_held,
        f.count ∙ c.count,
      )

  free-eperm :
      (t : Share) (e : Extent) (es : List Extent) (idx : ℕ)
      → addr_to_hugepage t.l e.addr ≡ some idx
      → 0 < e.nr_hugepages
      → idx + e.nr_hugepages ≤ t.l.nr_hugepages
      → HasSpan t.l
      → t.hugepages idx ≡ false
      → hugepages_free K t (e ∷ es) ≡ (eperm, t)
  unfolding hugepages_free
  free-eperm t e es idx known pos fits span gone =
      rw (check_all-eperm t e es idx known pos fits span gone, hugepages_free) refl

  -- Releasing the same stretch twice in a row leaves the bitmap and raises the counter again.
  release_twice :
      (s : Share) (idx run : ℕ)
      → IsValid s
      → idx + run ≤ s.l.nr_hugepages
      → Full s.hugepages idx run
      → let u = release_extent K (release_extent K s idx run) idx run in
        u.l.nr_free ≡ zeros u.l.bitmap u.l.nr_hugepages + run
  release_twice s idx run v fits full =
      let t = release_extent K s idx run in
      let first = (release_extent-IsValid K s idx run v fits full).0 in
      let same =
        zeros_ext (release_extent K t idx run).l.bitmap t.l.bitmap t.l.nr_hugepages
          (λ j h. ground (arith, release-bits K t idx run j, release-bits K s idx run j)) in
      omega (
        arith,
        same,
        first.free,
        first.span.few,
        zeros-le t.l.bitmap t.l.nr_hugepages,
        nr_hugepages-release K s idx run,
        release-nr_free K t idx run,
        nr_hugepages-release K t idx run,
        ap (zeros (release_extent K t idx run).l.bitmap) (nr_hugepages-release K t idx run),
      )

  release_all-pair :
      (s : Share) (e : Extent) (idx : ℕ)
      → addr_to_hugepage s.l e.addr ≡ some idx
      → release_all K s (e ∷ e ∷ [])
        ≡ release_extent K (release_extent K s idx e.nr_hugepages) idx e.nr_hugepages
  unfolding release_all
  release_all-pair s e idx known =
      ground (arith, known, addr_to_hugepage-release K s idx e.nr_hugepages e.addr)

  -- A flaw: the ownership of all extents is checked before any of them is released, so on a valid
  -- state one that the file holds is accepted twice in a request, and `nr_free` counts its
  -- hugepages twice.
  pub free_duplicate :
      (s : Share) (e : Extent)
      → IsValid s
      → Held s (e ∷ [])
      → let (st, t) = hugepages_free K s (e ∷ e ∷ []) in
        (st ≡ ok) × (t.l.nr_free ≡ zeros t.l.bitmap t.l.nr_hugepages + e.nr_hugepages)
  unfolding hugepages_free
  free_duplicate s e v (idx, known, pos, fits, full, _) =
      rw
        (
          Held-check_all s (e ∷ e ∷ []) v.span
              (idx, known, pos, fits, full, (idx, known, pos, fits, full, tt)),
          hugepages_free,
        )
        (refl, rw (release_all-pair s e idx known) (release_twice s idx e.nr_hugepages v fits full))
