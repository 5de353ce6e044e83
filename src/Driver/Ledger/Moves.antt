-- ===== src/Driver/Ledger/Moves.antt =====
-- What every operation of sw/drv/pim_chunk.c does to the ownership of hugepages: it moves them
-- between the ledger and the file of the call, one by one, and touches nobody else's.
use pim_sw.Common.{
  ℕ, ◌+◌, ◌<◌, ◌^◌, ◌≡◌, refl, ◌∙◌, true, false, arith, Bool, List, [], ◌∷◌, inl, inr, ◌⊎◌, ◌≢◌,
}
use pim_sw.Driver.Bitmap.{BitmapOps}
use pim_sw.Driver.Ledger.{
  Share, Extent, Status, ok, hugepages_alloc, hugepages_free, hugepages_reclaim,
}
use pim_sw.Driver.Ledger.Extents.{covered}
use pim_sw.Driver.Ledger.Invariant.{IsValid}
use pim_sw.Driver.Ledger.Commit.{covered-Fits}
use pim_sw.Driver.Ledger.Release.{Held, Apart, Words}
use pim_sw.Driver.Ledger.Alloc.{alloc-ok, alloc_refused}
use pim_sw.Driver.Ledger.Free.{free_accepts, free_refused, free-Released}
use pim_sw.Driver.Ledger.Reclaim.{reclaim-Reclaimed}

-- A bit as a number.
abbrev pub bit : Bool → ℕ
bit true = 1
bit false = 0

-- From `s` to `t` hugepages change between the ledger's free ones and those of the file.
pub record Moves (s t : Share) : Type 0 where
  pub valid : IsValid t
  pub count : t.l.nr_hugepages ≡ s.l.nr_hugepages
  pub balance :
      (j : ℕ) → bit (t.l.bitmap j) + bit (s.hugepages j) ≡ bit (s.l.bitmap j) + bit (t.hugepages j)

pub Moves-self : (s : Share) → IsValid s → Moves s s
Moves-self s v = record { valid = v; count = refl; balance = λ j. refl }

pub Moves-trans : {s t u : Share} → Moves s t → Moves t u → Moves s u
Moves-trans m k = record {
  valid = k.valid;
  count = k.count ∙ m.count;
  balance = λ j. omega (arith, m.balance j, k.balance j);
}

pub Status-cases : (st : Status) → (st ≡ ok) ⊎ (st ≢ ok)
Status-cases ok = inl refl
Status-cases st = inr (λ e. cc)

module _ (K : BitmapOps) where
  pub alloc-Moves :
      (s : Share) (nr flags cap : ℕ)
      → IsValid s
      → nr < 2 ^ 32
      → Moves s (hugepages_alloc K s nr flags cap).share
  alloc-Moves s nr flags cap v w = elim (Status-cases (hugepages_alloc K s nr flags cap).ret) [
    | inl fine ↦
        let g = alloc-ok K s v nr cap w flags fine in
        let c = g.committed in
        record {
          valid = c.valid;
          count = c.count;
          balance = λ j.
              ground (arith, c.bits j, c.mine j, covered-Fits s.l 0 _ j v.span g.fits, v.owns j);
        }
    | inr bad ↦ rw (alloc_refused K s nr flags cap bad) (Moves-self s v)
  ]

  covered-Held :
      (s : Share) (es : List Extent) (j : ℕ)
      → Held s es
      → covered s.l es j ≡ true
      → s.hugepages j ≡ true
  unfolding covered
  covered-Held s [] j h c = cc
  covered-Held s (e ∷ es) j (idx, known, pos, fits, full, rest) c =
      ground (arith, known, full j, covered-Held s es j rest)

  pub free-Moves :
      (s : Share) (es : List Extent)
      → IsValid s
      → Words es
      → Apart s.l es
      → Moves s (hugepages_free K s es).1
  free-Moves s es v w a = elim (Status-cases (hugepages_free K s es).0) [
    | inl fine ↦
        let held = (free_accepts K s es v w).0 fine in
        let r = (free-Released K s es v held a).1 in
        record {
          valid = r.valid;
          count = r.count;
          balance = λ j. ground (arith, r.bits j, r.mine j, covered-Held s es j held, v.owns j);
        }
    | inr bad ↦ rw (free_refused K s es bad) (Moves-self s v)
  ]

  pub reclaim-Moves : (s : Share) → IsValid s → Moves s (hugepages_reclaim K s)
  reclaim-Moves s v =
      let (valid, none_held, count, mine, bits) = reclaim-Reclaimed K s v in
      record {
        valid = valid;
        count = count;
        balance = λ j. ground (arith, mine j, bits j, v.owns j);
      }
