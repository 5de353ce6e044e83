-- ===== src/Driver/File/Shares.antt =====
-- How a call on one region of the module's state looks from each region: the region of the call
-- moves, the other one stays.
use pim_sw.Common.{
  subst, sym, false, ℕ, ◌<◌, ◌^◌, ◌≡◌, refl, ◌||◌, arith, leb, ◌==◌, ==_iff, if◌then◌else◌, if_ind,
  List, Bool-cases, inl, inr,
}
use pim_sw.Driver.Bitmap.{BitmapOps}
use pim_sw.Driver.Ledger.{Share, Extent}
use pim_sw.Driver.Ledger
use pim_sw.Driver.Ledger.Invariant.{IsValid}
use pim_sw.Driver.Ledger.Release.{Apart, Words}
use pim_sw.Driver.Ledger.Reclaim.{reclaim-Reclaimed}
use pim_sw.Driver.Ledger.Moves.{
  Moves, Moves-self, Moves-trans, alloc-Moves, free-Moves, reclaim-Moves,
}
use pim_sw.Driver.File.{
  State, share, put_back, nregion, hugepages_alloc, hugepages_free, hugepages_reclaim, dev_release,
  record_vbase, forget_vbase,
}

-- Every region of the state is valid, as this file sees it.
abbrev pub Sound : State → Type 0
Sound s = (mem : ℕ) → mem < nregion → IsValid (share s mem)

-- In every region, hugepages have moved between the ledger and the file only.
abbrev pub Moved : State → State → Type 0
Moved s t = (mem : ℕ) → mem < nregion → Moves (share s mem) (share t mem)

pub Moved-self : (s : State) → Sound s → Moved s s
Moved-self s v mem h = Moves-self (share s mem) (v mem h)

pub Moved-Sound : (s t : State) → Moved s t → Sound t
Moved-Sound s t m mem h = (m mem h).valid

pub Moved-trans : (s t u : State) → Moved s t → Moved t u → Moved s u
Moved-trans s t u m k mem h = Moves-trans (m mem h) (k mem h)

-- The slot has no part in it.
pub Moves-slot : {s t : Share} {i : ℕ} → Moves s t → Moves s (record t { slot = i })
Moves-slot m = record {
  valid = record {
    span = m.valid.span;
    free = m.valid.free;
    held = m.valid.held;
    owns = m.valid.owns;
    inside = m.valid.inside;
  };
  count = m.count;
  balance = m.balance;
}

pub put_back-Moved :
    (s : State) (mem : ℕ) (t : Share) → Sound s → Moves (share s mem) t → Moved s (put_back s mem t)
unfolding share put_back
put_back-Moved s mem t v m k h = elim (Bool-cases (k == mem)) [
  | inl e ↦ rw (((==_iff k mem).0 e), (==_iff mem mem).1 refl) (Moves-slot m)
  | inr e ↦ rw e (Moves-self (share s k) (v k h))
]

-- What each region sees of a state that is put back.
pub share-put_back :
    (s : State) (mem : ℕ) (t : Share) (k : ℕ)
    → share (put_back s mem t) k ≡ (if k == mem then record t { slot = s.file.slot } else share s k)
unfolding share put_back
share-put_back s mem t k = elim (Bool-cases (k == mem)) [ inl e ↦ rw e | inr e ↦ rw e ]

module _ (K : BitmapOps) where
  pub alloc-Moved :
      (s : State) (mem nr flags cap : ℕ)
      → Sound s
      → nr < 2 ^ 32
      → Moved s (hugepages_alloc K s mem nr flags cap).1
  unfolding hugepages_alloc
  alloc-Moved s mem nr flags cap v w = elim (Bool-cases (leb nregion mem)) [
    | inl out ↦ rw out (Moved-self s v)
    | inr fine ↦ rw fine (
        put_back-Moved s mem _ v
          (alloc-Moves K (share s mem) nr flags cap (v mem (ground (arith, fine))) w))
  ]

  pub free-Moved :
      (s : State) (mem : ℕ) (es : List Extent)
      → Sound s
      → Words es
      → Apart (s.led mem) es
      → Moved s (hugepages_free K s mem es).1
  unfolding hugepages_free
  free-Moved s mem es v w a = elim (Bool-cases (leb nregion mem)) [
    | inl out ↦ rw out (Moved-self s v)
    | inr fine ↦ rw fine (
        put_back-Moved s mem _ v (free-Moves K (share s mem) es (v mem (ground (arith, fine))) w a))
  ]

  pub reclaim-Moved : (s : State) → Sound s → Moved s (hugepages_reclaim K s)
  unfolding hugepages_reclaim
  reclaim-Moved s v =
      let t0 = Ledger.hugepages_reclaim K (share s 0) in
      let s0 = put_back s 0 t0 in
      let t1 = Ledger.hugepages_reclaim K (share s0 1) in
      let first = put_back-Moved s 0 t0 v (reclaim-Moves K (share s 0) (v 0 (omega arith))) in
      let v' : Sound s0 = Moved-Sound s s0 first in
      Moved-trans s s0 (put_back s0 1 t1) first
        (put_back-Moved s0 1 t1 v' (reclaim-Moves K (share s0 1) (v' 1 (omega arith))))

  -- The ledgers that closing leaves, and that the file has nothing left of any region.
  pub dev_release_lem : (s : State) → dev_release K s ≡ (hugepages_reclaim K s).led
  unfolding dev_release
  dev_release_lem s = refl

  reclaim-empty :
      (s : Share) → IsValid s → (j : ℕ) → (Ledger.hugepages_reclaim K s).hugepages j ≡ false
  reclaim-empty s v = (reclaim-Reclaimed K s v).3

  pub reclaim_all-empty :
      (s : State)
      → Sound s
      → (mem : ℕ) → mem < nregion
      → (j : ℕ) → (share (hugepages_reclaim K s) mem).hugepages j ≡ false
  unfolding hugepages_reclaim
  reclaim_all-empty s v mem h j =
      let t0 = Ledger.hugepages_reclaim K (share s 0) in
      let s0 = put_back s 0 t0 in
      let t1 = Ledger.hugepages_reclaim K (share s0 1) in
      let v' : Sound s0 =
        Moved-Sound s s0
          (put_back-Moved s 0 t0 v (reclaim-Moves K (share s 0) (v 0 (omega arith)))) in
      let P = λ (x : Share). x.hugepages j ≡ false in
      subst P (sym (share-put_back s0 1 t1 mem)) (
        if_ind P (mem == 1) _ _ (λ _. reclaim-empty (share s0 1) (v' 1 (omega arith)) j)
          (λ other. subst P (sym (share-put_back s 0 t0 mem)) (
            if_ind P (mem == 0) _ _ (λ _. reclaim-empty (share s 0) (v 0 (omega arith)) j)
              (λ neither. absurd (ground (arith, other, neither))))))

-- The list of `vbase`s has no part in it either.
pub record_vbase-Moved :
    (s t : State) (a n : ℕ) → Moved s t → Moved s (record t { file = record_vbase t.file a n })
unfolding record_vbase share
record_vbase-Moved s t a n m mem h = elim (Bool-cases (a == 0 || n == 0)) [
  | inl skip ↦ rw skip (m mem h)
  | inr add ↦ rw add (m mem h)
]

pub forget_vbase-Moved :
    (s t : State) (a : ℕ) → Moved s t → Moved s (record t { file = forget_vbase t.file a })
unfolding forget_vbase share
forget_vbase-Moved s t a m mem h = elim (Bool-cases (a == 0)) [
  | inl skip ↦ rw skip (m mem h)
  | inr drop ↦ rw drop (m mem h)
]
