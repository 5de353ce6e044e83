-- ===== src/Driver/Ledger/Bits.antt =====
-- What the calls of sw/drv/pim_chunk.c do to the bits of a file, whatever the counters say: so also
-- after a free request that names a hugepage twice.
use pim_sw.Common.{
  ℕ, ◌+◌, ◌-◌, ◌/◌, ◌%◌, ◌≤◌, ◌<◌, ◌^◌, ◌≡◌, refl, ◌∙◌, true, false, ◌||◌, not, if◌then◌else◌,
  arith, ltb, ◌==◌, List, [], ◌∷◌, some, Bool-cases, Option-cases, inl, inr,
}
use pim_sw.Driver.Bitmap.{BitmapOps}
use pim_sw.Driver.Ledger.{
  Share, Ledger, Extent, ok, Allocated, addr_to_hugepage, hugepage_addr, commit_extent, commit_all,
  release_extent, release_all, scan, stage_two, hugepages_alloc, hugepages_free, check_all,
  check_extent, holds,
}
use pim_sw.Driver.Ledger.Extents.{
  HasSpan, covered, covered_ext, total, Fits, addr_to_hugepage-hugepage_addr,
}
use pim_sw.Driver.Ledger.Search.{scan-Fits, scan_most}
use pim_sw.Driver.Ledger.Commit.{
  covered-Fits, commit-bits, addr_to_hugepage-commit, covered-commit, Fits-commit,
  commit_all-single,
}
use pim_sw.Driver.Ledger.Release.{
  Held, holds-Full, release-bits, addr_to_hugepage-release, covered-release, Held-check_all,
}
use pim_sw.Driver.Ledger.Free.{Fits-Held}

-- The file holds only hugepages of the ledger that are allocated there.
pub record Consistent (s : Share) : Type 0 where
  pub span : HasSpan s.l
  pub owns : (j : ℕ) → s.hugepages j ≡ true → s.l.bitmap j ≡ true
  pub inside : (j : ℕ) → s.hugepages j ≡ true → j < s.l.nr_hugepages

-- The two ledgers are of one region.
pub record Alike (s t : Ledger) : Type 0 where
  pub base : t.base ≡ s.base
  pub bytes : t.bytes ≡ s.bytes
  pub page : t.hugepage_bytes ≡ s.hugepage_bytes
  pub count : t.nr_hugepages ≡ s.nr_hugepages

pub Alike-self : (l : Ledger) → Alike l l
Alike-self l = record { base = refl; bytes = refl; page = refl; count = refl }

pub Alike-trans : (a b c : Ledger) → Alike a b → Alike b c → Alike a c
Alike-trans a b c m k = record {
  base = k.base ∙ m.base;
  bytes = k.bytes ∙ m.bytes;
  page = k.page ∙ m.page;
  count = k.count ∙ m.count;
}

-- From `s` to `t` the hugepages of `es` have come to be held.
pub record Took (s : Share) (es : List Extent) (t : Share) : Type 0 where
  pub alike : Alike s.l t.l
  pub addresses : (a : ℕ) → addr_to_hugepage t.l a ≡ addr_to_hugepage s.l a
  pub bits : (j : ℕ) → t.l.bitmap j ≡ (covered s.l es j || s.l.bitmap j)
  pub mine : (j : ℕ) → t.hugepages j ≡ (covered s.l es j || s.hugepages j)

-- They have ceased to be held.
pub record Gave (s : Share) (es : List Extent) (t : Share) : Type 0 where
  pub alike : Alike s.l t.l
  pub addresses : (a : ℕ) → addr_to_hugepage t.l a ≡ addr_to_hugepage s.l a
  pub bits : (j : ℕ) → t.l.bitmap j ≡ (if covered s.l es j then false else s.l.bitmap j)
  pub mine : (j : ℕ) → t.hugepages j ≡ (if covered s.l es j then false else s.hugepages j)

module _ (K : BitmapOps) where
  open K use {next_zero_area, area_fits, area_clear}

  commit-Alike : (s : Share) (idx run : ℕ) → Alike s.l (commit_extent K s idx run).l
  unfolding commit_extent
  commit-Alike s idx run = record { base = refl; bytes = refl; page = refl; count = refl }

  release-Alike : (s : Share) (idx run : ℕ) → Alike s.l (release_extent K s idx run).l
  unfolding release_extent
  release-Alike s idx run = record { base = refl; bytes = refl; page = refl; count = refl }

  commit-HasSpan : (s : Share) (idx run : ℕ) → HasSpan s.l → HasSpan (commit_extent K s idx run).l
  unfolding commit_extent
  commit-HasSpan s idx run v = omega (arith, v)

  commit_all-Took :
      (s : Share) (lo : ℕ) (es : List Extent)
      → HasSpan s.l
      → Fits s.l lo es
      → Took s es (commit_all K s es)
  unfolding commit_all covered
  commit_all-Took s lo [] v f = record {
    alike = Alike-self s.l;
    addresses = λ a. refl;
    bits = λ j. refl;
    mine = λ j. refl;
  }
  commit_all-Took s lo (e ∷ es) v (idx, a, low, pos, fits, clear, rest) =
      let known : addr_to_hugepage s.l e.addr ≡ some idx =
        rw a (addr_to_hugepage-hugepage_addr idx v (omega arith)) in
      let run = e.nr_hugepages in
      let ih =
        commit_all-Took (commit_extent K s idx run) (idx + run) es (commit-HasSpan s idx run v)
          (Fits-commit K s idx run (idx + run) es (omega arith) rest) in
      rw (known, commit_all)
        (record {
          alike = Alike-trans s.l _ _ (commit-Alike s idx run) ih.alike;
          addresses = λ i. ih.addresses i ∙ addr_to_hugepage-commit K s idx run i;
          bits = λ j.
              ground (
                arith,
                known,
                ih.bits j,
                covered-commit K s idx run es j,
                commit-bits K s idx run j,
              );
          mine = λ j.
              ground (
                arith,
                known,
                ih.mine j,
                covered-commit K s idx run es j,
                commit-bits K s idx run j,
              );
        })

  -- Whatever the extents are, and however often a hugepage stands in them.
  release_all-Gave : (s : Share) (es : List Extent) → Gave s es (release_all K s es)
  unfolding release_all covered
  release_all-Gave s [] = record {
    alike = Alike-self s.l;
    addresses = λ a. refl;
    bits = λ j. refl;
    mine = λ j. refl;
  }
  release_all-Gave s (e ∷ es) = elim (Option-cases (addr_to_hugepage s.l e.addr)) [
    | inl miss ↦
        let ih = release_all-Gave s es in
        rw (miss, release_all)
          (record {
            alike = ih.alike;
            addresses = ih.addresses;
            bits = λ j. ground (arith, miss, ih.bits j);
            mine = λ j. ground (arith, miss, ih.mine j);
          })
    | inr (idx, known) ↦
        let run = e.nr_hugepages in
        let ih = release_all-Gave (release_extent K s idx run) es in
        rw (known, release_all)
          (record {
            alike = Alike-trans s.l _ _ (release-Alike s idx run) ih.alike;
            addresses = λ i. ih.addresses i ∙ addr_to_hugepage-release K s idx run i;
            bits = λ j. ground (
              arith,
              known,
              ih.bits j,
              covered-release K s idx run es j,
              release-bits K s idx run j,
            );
            mine = λ j. ground (
              arith,
              known,
              ih.mine j,
              covered-release K s idx run es j,
              release-bits K s idx run j,
            );
          })
  ]

  -- What a granted request has come to.
  pub record Got (s : Share) (nr : ℕ) (r : Allocated) : Type 0 where
    pub fits : Fits s.l 0 r.out
    pub size : total r.out ≡ nr
    pub took : Took s r.out r.share

  stage_two-Got :
      (s : Share) (nr cap : ℕ)
      → HasSpan s.l
      → nr < 2 ^ 32
      → (stage_two K s nr cap).ret ≡ ok
      → Got s nr (stage_two K s nr cap)
  unfolding stage_two
  stage_two-Got s nr cap v word e =
      let r = scan K nr s.l nr cap 0 0 0 in
      elim (Bool-cases (ltb r.got nr)) [
        | inl few ↦ absurd (ground (arith, few))
        | inr enough ↦ elim (Bool-cases (ltb cap r.nex)) [
          | inl over ↦ absurd (ground (arith, enough, over))
          | inr fit ↦
              let most = scan_most K s.l nr cap nr 0 0 0 (omega arith) (omega arith) in
              let (fits, size, count) =
                scan-Fits K s.l nr cap nr 0 0 0 (omega arith) word (ground (arith, fit)) in
              rw (enough, fit)
                (record {
                  fits = fits;
                  size = ground (arith, size, most, enough);
                  took = commit_all-Took s 0 _ v fits;
                })
        ]
      ]

  pub alloc-Got :
      (s : Share) (nr flags cap : ℕ)
      → HasSpan s.l
      → (hugepages_alloc K s nr flags cap).ret ≡ ok
      → Got s nr (hugepages_alloc K s nr flags cap)
  unfolding hugepages_alloc
  alloc-Got s nr flags cap v e =
      let asked : (nr == 0 || ltb s.l.nr_hugepages nr || not (flags / 2 == 0)) ≡ false =
        ground arith in
      let free : ltb s.l.nr_free nr ≡ false = ground arith in
      let idx = next_zero_area s.l.bitmap s.l.nr_hugepages 0 nr in
      elim (Bool-cases (ltb idx s.l.nr_hugepages)) [
        | inl run ↦ elim (Bool-cases (ltb cap 1)) [
          | inl none_fits ↦ absurd (ground (arith, run, none_fits))
          | inr room ↦
              let h : idx < s.l.nr_hugepages = ground (arith, run) in
              let fits : Fits s.l 0
                  (record { addr = hugepage_addr s.l idx; nr_hugepages = nr } ∷ []) =
                (
                  idx,
                  refl,
                  omega arith,
                  ground (arith, asked),
                  area_fits s.l.bitmap s.l.nr_hugepages 0 nr h,
                  area_clear s.l.bitmap s.l.nr_hugepages 0 nr h,
                  tt,
                ) in
              rw (asked, free, run, room)
                (record {
                  fits = fits;
                  size = omega arith;
                  took = rw (commit_all-single K s idx nr v h) at (
                      commit_all-Took s 0
                        (record { addr = hugepage_addr s.l idx; nr_hugepages = nr } ∷ []) v fits);
                })
        ]
        | inr scattered ↦
            let split : (flags % 2 == 1) ≡ false = ground (arith, scattered) in
            rw (asked, free, scattered, split)
              (stage_two-Got s nr cap v (ground (arith, asked, v.few))
                (rw (asked, free, scattered, split) at e))
      ]

  stretch_ends :
      (s : Share) (idx n : ℕ)
      → Consistent s
      → holds s.hugepages idx n ≡ true
      → 0 < n
      → idx + n ≤ s.l.nr_hugepages
  stretch_ends s idx n c h pos = omega (
    arith,
    c.inside (idx + (n - 1))
        (holds-Full s.hugepages idx n h (idx + (n - 1)) (omega arith) (omega (arith, pos))),
    pos,
  )

  check_extent-Held :
      (s : Share) (e : Extent) → Consistent s → check_extent s e ≡ ok → Held s (e ∷ [])
  unfolding check_extent
  check_extent-Held s e c h = elim (Option-cases (addr_to_hugepage s.l e.addr)) [
    | inl miss ↦ absurd (ground (arith, miss))
    | inr (idx, known) ↦
        let mine : holds s.hugepages idx e.nr_hugepages ≡ true = ground (arith, known) in
        let pos : 0 < e.nr_hugepages = ground (arith, known) in
        (
          idx,
          known,
          pos,
          stretch_ends s idx e.nr_hugepages c mine pos,
          holds-Full s.hugepages idx e.nr_hugepages mine,
          tt,
        )
  ]

  check_all-Held : (s : Share) (es : List Extent) → Consistent s → check_all s es ≡ ok → Held s es
  unfolding check_all
  check_all-Held s [] c h = tt
  check_all-Held s (e ∷ es) c h =
      let (idx, known, pos, fits, full, _) = check_extent-Held s e c (ground arith) in
      (idx, known, pos, fits, full, check_all-Held s es c (ground arith))

  -- An accepted request has taken from the file hugepages that it held.
  pub free-Gave :
      (s : Share) (es : List Extent)
      → Consistent s
      → (hugepages_free K s es).0 ≡ ok
      → Held s es × Gave s es (hugepages_free K s es).1
  unfolding hugepages_free
  free-Gave s es c h =
      let passed : check_all s es ≡ ok = ground arith in
      rw (passed, hugepages_free) (check_all-Held s es c passed, release_all-Gave s es)

  -- What has just been granted can be given back.
  pub undo-Gave :
      (s t : Share) (es : List Extent)
      → HasSpan s.l
      → Fits s.l 0 es
      → Took s es t
      → HasSpan t.l
      → Gave t es (hugepages_free K t es).1
  unfolding hugepages_free
  undo-Gave s t es v f k w =
      let held =
        Fits-Held s.l 0 es t v k.addresses k.alike.count (λ j c. ground (arith, k.mine j, c)) f in
      rw (Held-check_all t es w held, hugepages_free) (release_all-Gave t es)

pub Took-self : (s : Share) → Took s [] s
unfolding covered
Took-self s = record {
  alike = Alike-self s.l;
  addresses = λ a. refl;
  bits = λ j. refl;
  mine = λ j. refl;
}

-- The slot has no part in it.
pub Took-slot :
    {s t : Share} {es : List Extent} {i : ℕ} → Took s es t → Took s es (record t { slot = i })
Took-slot k = record {
  alike = record {
    base = k.alike.base;
    bytes = k.alike.bytes;
    page = k.alike.page;
    count = k.alike.count;
  };
  addresses = k.addresses;
  bits = k.bits;
  mine = k.mine;
}

pub Gave-slot :
    {s t : Share} {es : List Extent} {i : ℕ} → Gave s es t → Gave s es (record t { slot = i })
Gave-slot k = record {
  alike = record {
    base = k.alike.base;
    bytes = k.alike.bytes;
    page = k.alike.page;
    count = k.alike.count;
  };
  addresses = k.addresses;
  bits = k.bits;
  mine = k.mine;
}

-- A grant and its return come to nothing.
pub Took-Gave :
    (s t u : Share) (es : List Extent)
    → Consistent s
    → Fits s.l 0 es
    → Took s es t
    → Gave t es u
    → Took s [] u
unfolding covered
Took-Gave s t u es c f k g =
    let same : (j : ℕ) → covered t.l es j ≡ covered s.l es j =
      λ j. covered_ext t.l s.l es j k.addresses in
    record {
      alike = Alike-trans s.l t.l u.l k.alike g.alike;
      addresses = λ a. g.addresses a ∙ k.addresses a;
      bits = λ j. ground (arith, g.bits j, k.bits j, same j, covered-Fits s.l 0 es j c.span f);
      mine = λ j.
          ground (arith, g.mine j, k.mine j, same j, covered-Fits s.l 0 es j c.span f, c.owns j);
    }

span-Alike : (l m : Ledger) → Alike l m → HasSpan l → HasSpan m
span-Alike l m a v = record {
  page = rw a.page v.page;
  size = rw (a.bytes, a.count, a.page) v.size;
  room = rw (a.base, a.bytes) v.room;
  few = rw a.count v.few;
}

pub Took-Consistent :
    (s t : Share) (es : List Extent) → Consistent s → Fits s.l 0 es → Took s es t → Consistent t
Took-Consistent s t es c f k = record {
  span = span-Alike s.l t.l k.alike c.span;
  owns = λ j h. ground (arith, k.bits j, k.mine j, c.owns j, h);
  inside = λ j h.
      ground (arith, k.mine j, k.alike.count, c.inside j, covered-Fits s.l 0 es j c.span f, h);
}

pub Gave-Consistent : (s t : Share) (es : List Extent) → Consistent s → Gave s es t → Consistent t
Gave-Consistent s t es c k = record {
  span = span-Alike s.l t.l k.alike c.span;
  owns = λ j h. ground (arith, k.bits j, k.mine j, c.owns j, h);
  inside = λ j h. ground (arith, k.mine j, k.alike.count, c.inside j, h);
}
