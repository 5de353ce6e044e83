-- ===== src/Driver/Ledger/Release.antt =====
-- `pim_hugepages_free`: what its first loop accepts, and what its second loop does to that.
use pim_sw.Common.{
  add64, ℕ, zero, suc, ◌+◌, ◌≤◌, ◌<◌, ◌^◌, ◌≡◌, refl, ◌∙◌, true, false, if◌then◌else◌, within,
  arith, ltb, List, [], ◌∷◌, some, Bool-cases, Option-cases, inl, inr,
}
use pim_sw.Driver.Bitmap.{Bitmap, BitmapOps}
use pim_sw.Driver.Ledger.{
  Share, Ledger, Extent, ok, addr_to_hugepage, release_extent, release_all, holds, check_extent,
  check_all,
}
use pim_sw.Driver.Ledger.Extents.{HasSpan, covered, total, addr_to_hugepage-eq-some}
use pim_sw.Driver.Ledger.Invariant.{IsValid, Full, release_extent-IsValid}

-- Each extent is a stretch of hugepages of the ledger that the file holds.
abbrev pub Held : Share → List Extent → Type 0
Held s [] = Unit
Held s (e ∷ es) =
    (idx : ℕ) × (addr_to_hugepage s.l e.addr ≡ some idx)
    × (0 < e.nr_hugepages)
    × (idx + e.nr_hugepages ≤ s.l.nr_hugepages)
    × Full s.hugepages idx e.nr_hugepages
    × Held s es

-- No hugepage is named twice.
abbrev pub Apart : Ledger → List Extent → Type 0
Apart l [] = Unit
Apart l (e ∷ es) = ((j : ℕ) → covered l (e ∷ []) j ≡ true → covered l es j ≡ false) × Apart l es

pub holds-Full : (m : Bitmap) (idx n : ℕ) → holds m idx n ≡ true → Full m idx n
unfolding holds
holds-Full m idx zero h j p q = absurd (omega arith)
holds-Full m idx (suc n) h j p q = elim (Bool-cases (ltb idx j)) [
  | inl later ↦ ground (arith, holds-Full m (idx + 1) n (ground arith) j)
  | inr same ↦ let e : j ≡ idx = ground arith in ground (arith, e)
]

Full-holds : (m : Bitmap) (idx n : ℕ) → Full m idx n → holds m idx n ≡ true
unfolding holds
Full-holds m idx zero f = refl
Full-holds m idx (suc n) f = ground (
  arith,
  f idx (omega arith) (omega arith),
  Full-holds m (idx + 1) n (λ j p q. f j (omega arith) (omega arith)),
)

-- One extent passes exactly when it is held; the sizes are 32-bit numbers.
check_extent-ok :
    (s : Share) (e : Extent)
    → HasSpan s.l
    → e.nr_hugepages < 2 ^ 32
    → check_extent s e ≡ ok
    → Held s (e ∷ [])
unfolding check_extent
check_extent-ok s e v w h = elim (Option-cases (addr_to_hugepage s.l e.addr)) [
  | inl miss ↦ absurd (ground (arith, miss))
  | inr (idx, known) ↦
      let lt = (addr_to_hugepage-eq-some e.addr idx v known).0 in
      (
        idx,
        known,
        ground (arith, known),
        ground (arith, known, lt, v.few),
        holds-Full s.hugepages idx e.nr_hugepages (ground (arith, known)),
        tt,
      )
]

Held-check_extent : (s : Share) (e : Extent) → HasSpan s.l → Held s (e ∷ []) → check_extent s e ≡ ok
unfolding check_extent
Held-check_extent s e v (idx, known, pos, fits, full, _) =
    ground (arith, known, Full-holds s.hugepages idx e.nr_hugepages full, v.few)

abbrev pub Words : List Extent → Type 0
Words [] = Unit
Words (e ∷ es) = (e.nr_hugepages < 2 ^ 32) × Words es

pub check_all-Held :
    (s : Share) (es : List Extent) → HasSpan s.l → Words es → check_all s es ≡ ok → Held s es
unfolding check_all
check_all-Held s [] v w h = tt
check_all-Held s (e ∷ es) v (we, ws) h =
    let (idx, known, pos, fits, full, _) = check_extent-ok s e v we (ground arith) in
    (idx, known, pos, fits, full, check_all-Held s es v ws (ground arith))

pub Held-check_all : (s : Share) (es : List Extent) → HasSpan s.l → Held s es → check_all s es ≡ ok
unfolding check_all
Held-check_all s [] v h = refl
Held-check_all s (e ∷ es) v (idx, known, pos, fits, full, rest) =
    ground
      (arith, Held-check_extent s e v (idx, known, pos, fits, full, tt), Held-check_all s es v rest)

-- What releasing the extents `es` in the state `s` has come to in `t`.
pub record Released (s : Share) (es : List Extent) (t : Share) : Type 0 where
  pub valid : IsValid t
  pub bits : (j : ℕ) → t.l.bitmap j ≡ (if covered s.l es j then false else s.l.bitmap j)
  pub mine : (j : ℕ) → t.hugepages j ≡ (if covered s.l es j then false else s.hugepages j)
  pub returned : t.l.nr_free ≡ s.l.nr_free + total es
  pub addresses : (a : ℕ) → addr_to_hugepage t.l a ≡ addr_to_hugepage s.l a
  pub count : t.l.nr_hugepages ≡ s.l.nr_hugepages

module _ (K : BitmapOps) where
  open K use {clear_bit}

  pub release-bits :
      (s : Share) (idx run j : ℕ)
      → ((release_extent K s idx run).l.bitmap j
          ≡ (if within idx run j then false else s.l.bitmap j))
        × ((release_extent K s idx run).hugepages j
            ≡ (if within idx run j then false else s.hugepages j))
  unfolding release_extent
  release-bits s idx run j = (clear_bit s.l.bitmap idx run j, clear_bit s.hugepages idx run j)

  pub addr_to_hugepage-release :
      (s : Share) (idx run addr : ℕ)
      → addr_to_hugepage (release_extent K s idx run).l addr ≡ addr_to_hugepage s.l addr
  unfolding release_extent addr_to_hugepage
  addr_to_hugepage-release s idx run addr = refl

  pub nr_hugepages-release :
      (s : Share) (idx run : ℕ) → (release_extent K s idx run).l.nr_hugepages ≡ s.l.nr_hugepages
  unfolding release_extent
  nr_hugepages-release s idx run = refl

  pub release-nr_free :
      (s : Share) (idx run : ℕ) → (release_extent K s idx run).l.nr_free ≡ add64 s.l.nr_free run
  unfolding release_extent
  release-nr_free s idx run = refl

  pub covered-release :
      (s : Share) (idx run : ℕ) (es : List Extent) (j : ℕ)
      → covered (release_extent K s idx run).l es j ≡ covered s.l es j
  unfolding covered
  covered-release s idx run [] j = refl
  covered-release s idx run (e ∷ es) j =
      ground (arith, addr_to_hugepage-release s idx run e.addr, covered-release s idx run es j)

  Apart-release :
      (s : Share) (idx run : ℕ) (es : List Extent)
      → Apart s.l es
      → Apart (release_extent K s idx run).l es
  Apart-release s idx run [] a = tt
  Apart-release s idx run (e ∷ es) (a, as_rest) = (
    λ j h. rw covered-release (a j (rw covered-release at h)),
    Apart-release s idx run es as_rest,
  )

  -- Extents apart from the released stretch are still held.
  Held-release :
      (s : Share) (idx run : ℕ) (es : List Extent)
      → ((j : ℕ) → within idx run j ≡ true → covered s.l es j ≡ false)
      → Held s es
      → Held (release_extent K s idx run) es
  unfolding covered
  Held-release s idx run [] a h = tt
  Held-release s idx run (e ∷ es) a (i, known, pos, fits, full, rest) = (
    i,
    addr_to_hugepage-release s idx run e.addr ∙ known,
    pos,
    rw nr_hugepages-release fits,
    λ j p q. ground (arith, release-bits s idx run j, full j p q, a j, known),
    Held-release s idx run es (λ j w. ground (arith, a j w, known)) rest,
  )

  pub release_all-Released :
      (s : Share) (es : List Extent)
      → IsValid s
      → Held s es
      → Apart s.l es
      → Released s es (release_all K s es)
  unfolding release_all covered
  release_all-Released s [] v h a = record {
    valid = v;
    bits = λ j. refl;
    mine = λ j. refl;
    returned = omega arith;
    addresses = λ a. refl;
    count = refl;
  }
  release_all-Released s (e ∷ es) v (idx, known, pos, fits, full, rest) (a, as_rest) =
      let run = e.nr_hugepages in
      let first = release_extent-IsValid K s idx run v fits full in
      let ih =
        release_all-Released (release_extent K s idx run) es first.0
          (Held-release s idx run es (λ j w. a j (ground (arith, known, w))) rest)
          (Apart-release s idx run es as_rest) in
      rw (known, release_all)
        (record {
          valid = ih.valid;
          bits = λ j.
              ground
                (arith, known, ih.bits j, covered-release s idx run es j, release-bits s idx run j);
          mine = λ j.
              ground
                (arith, known, ih.mine j, covered-release s idx run es j, release-bits s idx run j);
          returned = omega (arith, ih.returned, first.1);
          addresses = λ i. ih.addresses i ∙ addr_to_hugepage-release s idx run i;
          count = ih.count ∙ nr_hugepages-release s idx run;
        })
