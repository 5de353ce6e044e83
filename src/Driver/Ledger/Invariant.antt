-- ===== src/Driver/Ledger/Invariant.antt =====
-- The invariant of a ledger and of the file that works on it, kept by the two functions of
-- sw/drv/pim_chunk.c that change them, `commit_extent` and `release_extent`.
use pim_sw.Common.{ℕ, ◌+◌, ◌≤◌, ◌<◌, ◌≡◌, true, arith}
use pim_sw.Driver.Bitmap.{Bitmap, BitmapOps, Clear, zeros, zeros-le, zeros-set, zeros-clear}
use pim_sw.Driver.Ledger.{Share, commit_extent, release_extent}
use pim_sw.Driver.Ledger.Extents.{HasSpan}

-- The bits `i .. i + n` are all set.
abbrev pub Full : Bitmap → ℕ → ℕ → Type 0
Full m i n = (j : ℕ) → i ≤ j → j < i + n → m j ≡ true

-- `nr_free` counts the free hugepages, `nr_held` those of the file, and the file holds none that
-- the ledger has free.
pub record IsValid (s : Share) : Type 0 where
  pub span : HasSpan s.l
  pub free : s.l.nr_free ≡ zeros s.l.bitmap s.l.nr_hugepages
  pub held : s.nr_held + zeros s.hugepages s.l.nr_hugepages ≡ s.l.nr_hugepages
  pub owns : (j : ℕ) → s.hugepages j ≡ true → s.l.bitmap j ≡ true
  pub inside : (j : ℕ) → s.hugepages j ≡ true → j < s.l.nr_hugepages

module _ (K : BitmapOps) where
  open K use {set_bit, clear_bit}

  -- Committing free hugepages keeps the invariant and takes them off `nr_free`.
  pub commit_extent-IsValid :
      (s : Share) (idx run : ℕ)
      → IsValid s
      → idx + run ≤ s.l.nr_hugepages
      → Clear s.l.bitmap idx run
      → IsValid (commit_extent K s idx run)
        × ((commit_extent K s idx run).l.nr_free + run ≡ s.l.nr_free)
  unfolding commit_extent
  commit_extent-IsValid s idx run v fits clear =
      let n = s.l.nr_hugepages in
      let mine : Clear s.hugepages idx run = λ j p q. ground (arith, clear j p q, v.owns j) in
      let a = zeros-set K s.l.bitmap idx run n clear in
      let b = zeros-set K s.hugepages idx run n mine in
      (
        record {
          span = omega (arith, v.span);
          free = omega (arith, a, zeros-le s.l.bitmap n, v.free, v.span.few);
          held = omega (arith, b, zeros-le s.hugepages n, v.held, v.span.few);
          owns = λ j h.
              ground (arith, set_bit s.l.bitmap idx run j, set_bit s.hugepages idx run j, v.owns j);
          inside = λ j h. ground (arith, set_bit s.hugepages idx run j, v.inside j);
        },
        omega (arith, a, zeros-le s.l.bitmap n, v.free, v.span.few),
      )

  -- Releasing hugepages of the file keeps the invariant and adds them to `nr_free`.
  pub release_extent-IsValid :
      (s : Share) (idx run : ℕ)
      → IsValid s
      → idx + run ≤ s.l.nr_hugepages
      → Full s.hugepages idx run
      → IsValid (release_extent K s idx run)
        × ((release_extent K s idx run).l.nr_free ≡ s.l.nr_free + run)
  unfolding release_extent
  release_extent-IsValid s idx run v fits mine =
      let n = s.l.nr_hugepages in
      let full : Full s.l.bitmap idx run = λ j p q. v.owns j (mine j p q) in
      let a = zeros-clear K s.l.bitmap idx run n full in
      let b = zeros-clear K s.hugepages idx run n mine in
      let c = zeros-le (K.clear s.l.bitmap idx run) n in
      let d = zeros-le (K.clear s.hugepages idx run) n in
      (
        record {
          span = omega (arith, v.span);
          free = omega (arith, a, c, v.free, v.span.few);
          held = omega (arith, a, b, c, d, v.held, v.span.few);
          owns = λ j h.
              ground
                (arith, clear_bit s.l.bitmap idx run j, clear_bit s.hugepages idx run j, v.owns j);
          inside = λ j h. ground (arith, clear_bit s.hugepages idx run j, v.inside j);
        },
        omega (arith, a, c, v.free, v.span.few),
      )
