-- ===== src/Driver/Ledger/Reclaim.antt =====
-- `pim_hugepages_reclaim` of sw/drv/pim_chunk.c, which runs when a file is closed.
use pim_sw.Common.{
  ℕ, zero, suc, ◌+◌, ◌≤◌, ◌<◌, ◌≡◌, refl, false, arith, ◌&&◌, if◌then◌else◌, within, Bool-cases,
  inl, inr, ◌∙◌,
}
use pim_sw.Driver.Bitmap.{BitmapOps, zeros, zeros-zero, zeros-Clear}
use pim_sw.Driver.Ledger.{Share, release_extent, reclaim_from, hugepages_reclaim}
use pim_sw.Driver.Ledger.Invariant.{IsValid, release_extent-IsValid}
use pim_sw.Driver.Ledger.Release.{release-bits, nr_hugepages-release}

-- What the loop over the indices `idx .. idx + n` makes of `s`.
pub record Reclaimed (s : Share) (idx n : ℕ) (t : Share) : Type 0 where
  pub valid : IsValid t
  pub count : t.l.nr_hugepages ≡ s.l.nr_hugepages
  pub mine : (j : ℕ) → t.hugepages j ≡ (if within idx n j then false else s.hugepages j)
  pub bits :
      (j : ℕ) → t.l.bitmap j ≡ (if within idx n j && s.hugepages j then false else s.l.bitmap j)

module _ (K : BitmapOps) where
  release_one :
      (s : Share) (idx : ℕ)
      → IsValid s
      → idx < s.l.nr_hugepages
      → Reclaimed s idx 1 (if s.hugepages idx then release_extent K s idx 1 else s)
  release_one s idx v h = elim (Bool-cases (s.hugepages idx)) [
    | inl mine ↦ rw mine (record {
      valid = (release_extent-IsValid K s idx 1 v (omega arith) (λ j p q. ground (arith, mine))).0;
      count = nr_hugepages-release K s idx 1;
      mine = λ j. (release-bits K s idx 1 j).1;
      bits = λ j. ground (arith, release-bits K s idx 1 j, mine);
    })
    | inr other ↦ rw other (record {
      valid = v;
      count = refl;
      mine = λ j. ground (arith, other);
      bits = λ j. ground (arith, other);
    })
  ]

  reclaim_from-Reclaimed :
      (n idx : ℕ) (s : Share)
      → IsValid s
      → idx + n ≤ s.l.nr_hugepages
      → Reclaimed s idx n (reclaim_from K n idx s)
  unfolding reclaim_from
  reclaim_from-Reclaimed zero idx s v h = record {
    valid = v;
    count = refl;
    mine = λ j. ground arith;
    bits = λ j. ground arith;
  }
  reclaim_from-Reclaimed (suc n) idx s v h =
      let t : Share = if s.hugepages idx then release_extent K s idx 1 else s in
      let one = release_one s idx v (omega arith) in
      let rest = reclaim_from-Reclaimed n (idx + 1) t one.valid (omega (arith, one.count)) in
      record {
        valid = rest.valid;
        count = rest.count ∙ one.count;
        mine = λ j. ground (arith, rest.mine j, one.mine j);
        bits = λ j. ground (arith, rest.bits j, one.bits j, one.mine j);
      }

  -- On a valid state, reclaiming leaves the file nothing: every hugepage that it held is free
  -- again, every other one is as it was, and the invariant holds after it.
  pub reclaim-Reclaimed :
      (s : Share)
      → IsValid s
      → let t = hugepages_reclaim K s in
        IsValid t
        × (t.nr_held ≡ 0)
        × (t.l.nr_hugepages ≡ s.l.nr_hugepages)
        × ((j : ℕ) → t.hugepages j ≡ false)
        × ((j : ℕ) → t.l.bitmap j ≡ (if s.hugepages j then false else s.l.bitmap j))
  unfolding hugepages_reclaim
  reclaim-Reclaimed s v =
      let n = s.l.nr_hugepages in
      let r = reclaim_from-Reclaimed n 0 s v (omega arith) in
      let t = reclaim_from K n 0 s in
      let e : 0 + n ≡ n = omega arith in
      let none_held : zeros t.hugepages n ≡ n = omega (
        arith,
        rw e at (zeros-Clear t.hugepages 0 n (λ j p q. ground (arith, r.mine j))),
        zeros-zero t.hugepages,
      ) in
      (
        r.valid,
        ground (arith, r.valid.held, r.count, none_held),
        r.count,
        λ j. ground (arith, r.mine j, v.inside j),
        λ j. ground (arith, r.bits j, v.inside j),
      )
