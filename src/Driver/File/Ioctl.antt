-- ===== src/Driver/File/Ioctl.antt =====
-- The ioctls of sw/drv/pim_file.c: a call that fails has moved nothing, and what any call moves is
-- between the ledgers and its own file.
use pim_sw.Common.{
  ℕ, ◌<◌, ◌^◌, ◌≡◌, ◌≢◌, refl, min, false, ◌||◌, arith, leb, ◌==◌, if_ind, ==_iff, sym, subst, List,
  [], none,
}
use pim_sw.Driver.Bitmap.{BitmapOps}
use pim_sw.Driver.Ledger
use pim_sw.Driver.Ledger.{
  Share, Extent, Status, ok, einval, enomem, enospc, eperm, efault, enotty, Allocated,
}
use pim_sw.Driver.Ledger.Release.{Apart, Words}
use pim_sw.Driver.Ledger.Alloc.{alloc-ok, alloc_refused}
use pim_sw.Driver.Ledger.Free.{free-alloc}
use pim_sw.Driver.Ledger.Moves.{Moves, Moves-self, alloc-Moves}
use pim_sw.Driver.File.{
  put_back, State, Faults, AllocReq, FreeReq, AllocReply, share, nregion, finish_alloc,
  hugepages_alloc, hugepages_free, ioc_alloc, ioc_free, check_free, check_alloc, finish_free,
}
use pim_sw.Driver.File.Shares.{
  Sound, Moved, Moved-self, put_back-Moved, Moves-slot, share-put_back, free-Moved,
  record_vbase-Moved, forget_vbase-Moved,
}

finish_free-Moved :
    (s : State) (req : FreeReq) (r : Status × State) → Moved s r.1 → Moved s (finish_free req r).1
unfolding finish_free
finish_free-Moved s req (ok, t) m = forget_vbase-Moved s t req.vbase m
finish_free-Moved s req (bad, t) m = m

-- The two records agree on what is held of the region, and on the counters.
pub record Same (s t : Share) : Type 0 where
  pub bits : (j : ℕ) → t.l.bitmap j ≡ s.l.bitmap j
  pub mine : (j : ℕ) → t.hugepages j ≡ s.hugepages j
  pub free : t.l.nr_free ≡ s.l.nr_free
  pub held : t.nr_held ≡ s.nr_held

pub Same-self : (s : Share) → Same s s
Same-self s = record { bits = λ j. refl; mine = λ j. refl; free = refl; held = refl }

-- The same, seen from each region.
abbrev pub Kept : State → State → Type 0
Kept s u = (k : ℕ) → k < nregion → Same (share s k) (share u k)

record_slot : (t : Share) (i : ℕ) → t.slot ≡ i → ◌≡◌ {A = Share} (record t { slot = i }) t
record_slot t i e = rw (← e) refl

region_known :
    (fault : Faults) (s : State) (req : AllocReq)
    → check_alloc fault s req ≡ ok
    → req.region < nregion
unfolding check_alloc
region_known fault s req e = ground arith

module _ (K : BitmapOps) where
  -- Where every region is valid, what `ioc_free` moves for extents of 32-bit sizes that name no
  -- hugepage twice, it moves between the ledgers and the file of the call, and the invariant holds
  -- after it.
  pub ioc_free-Moved :
      (fault : Faults) (s : State) (req : FreeReq) (es : List Extent)
      → Sound s
      → Words es
      → Apart (s.led req.region) es
      → Moved s (ioc_free K fault s req es).1
  unfolding ioc_free
  ioc_free-Moved fault s req es v w a =
      elim (check_free fault s req)
        as (λ st.
          Moved s
            (let x : Status × State = elim st [
              | ok ↦ finish_free req (hugepages_free K s req.region es)
              | bad ↦ (bad, s)
            ] in
              x).1) [
                | ok ↦ finish_free-Moved s req _ (free-Moved K s req.region es v w a)
                | bad ↦ Moved-self s v
              ]

  -- A grant that is taken back at once, as `ioc_alloc` does where the caller's memory cannot be
  -- written, leaves every region as it was.
  module _ (s : State) (v : Sound s) (mem nr flags cap : ℕ) (known : mem < nregion)
      (word : nr < 2 ^ 32) where
    granted : Allocated
    granted = Ledger.hugepages_alloc K (share s mem) nr flags cap

    taken_back : Share
    unfolding granted
    taken_back = (Ledger.hugepages_free K (share (put_back s mem granted.share) mem) granted.out).1

    slot-granted : granted.ret ≡ ok → granted.share.slot ≡ (share s mem).slot
    unfolding granted
    slot-granted fine =
        (alloc-ok K (share s mem) (v mem known) nr cap word flags fine).committed.slot

    share-granted : granted.ret ≡ ok → share (put_back s mem granted.share) mem ≡ granted.share
    share-granted fine =
        rw (share-put_back s mem granted.share mem, (==_iff mem mem).1 refl, ← slot_of_file)
          (record_slot granted.share _ (slot-granted fine))
      where
        slot_of_file : (share s mem).slot ≡ s.file.slot
        slot_of_file = unfold share in refl

    taken_back_lem :
        granted.ret ≡ ok → Same (share s mem) taken_back × Moves (share s mem) taken_back
    unfolding taken_back
    taken_back_lem fine =
        let (_, valid, bits, mine, free, held, count) =
          free-alloc K (share s mem) nr flags cap (v mem known) word fine in
        subst
          (λ x.
            let t = (Ledger.hugepages_free K x granted.out).1 in
            Same (share s mem) t × Moves (share s mem) t)
          (sym (share-granted fine))
          (
            record { bits = bits; mine = mine; free = free; held = held },
            record { valid = valid; count = count; balance = λ j. ground (arith, bits j, mine j) },
          )

  put_back-Kept :
      (s : State) (mem : ℕ) (t : Share) → Same (share s mem) t → Kept s (put_back s mem t)
  put_back-Kept s mem t same k h = rw (share-put_back s mem t k) (
      if_ind (Same (share s k)) (k == mem) _ _
        (λ e.
          rw ((==_iff k mem).0 e)
            (record { bits = same.bits; mine = same.mine; free = same.free; held = same.held }))
        (λ e. Same-self (share s k)))

  undone-Moved :
      (s : State) (mem : ℕ) (a t : Share)
      → Sound s
      → Moves (share s mem) t
      → Moved s (put_back (put_back s mem a) mem t)
  undone-Moved s mem a t v m k h = rw (share-put_back (put_back s mem a) mem t k) (
      if_ind (Moves (share s k)) (k == mem) _ _ (λ e. rw ((==_iff k mem).0 e) (Moves-slot m))
        (λ e. rw (share-put_back s mem a k, e) (Moves-self (share s k) (v k h))))

  undone-Kept :
      (s : State) (mem : ℕ) (a t : Share)
      → Same (share s mem) t
      → Kept s (put_back (put_back s mem a) mem t)
  undone-Kept s mem a t same k h = rw (share-put_back (put_back s mem a) mem t k) (
      if_ind (Same (share s k)) (k == mem) _ _
        (λ e.
          rw ((==_iff k mem).0 e)
            (record { bits = same.bits; mine = same.mine; free = same.free; held = same.held }))
        (λ e. rw (share-put_back s mem a k, e) (Same-self (share s k))))

  -- What a reply has done to the state.
  Behaves : State → AllocReply → Type 0
  Behaves s r = Moved s r.state × (r.ret ≢ ok → Kept s r.state)

  finish-Behaves :
      (fault : Faults) (s : State) (req : AllocReq) (r : Allocated) (t : State) (st : Status)
      → r.ret ≡ st
      → Moved s t
      → (r.ret ≢ ok → Kept s t)
      → (r.ret ≡ ok
          → Behaves s (record {
            ret = efault;
            out = [];
            nr_extents = none;
            state = (hugepages_free K t req.region r.out).1;
          }))
      → Behaves s (finish_alloc K fault req (r, t))
  unfolding finish_alloc Behaves
  finish-Behaves fault s req r t ok e m k undone =
      rw (e, finish_alloc)
        (if_ind (Behaves s) (fault.extents || fault.reply) _ _ (λ _. undone e)
          (λ _. (
            if_ind (Moved s) fault.vbase _ _ (λ _. m) (λ _. record_vbase-Moved s t req.vbase _ m),
            λ no. absurd (no refl),
          )))
  finish-Behaves fault s req r t st e m k undone =
      rw (e, finish_alloc)
        (if_ind (Behaves s) fault.reply _ _ (λ _. (m, λ _. k (λ good. cc)))
          (λ _. (m, λ _. k (λ good. cc))))

  -- A granted request on a region that exists, as `ioc_alloc` goes on from it.
  finish_granted :
      (fault : Faults) (s : State) (req : AllocReq) (cap : ℕ)
      → Sound s
      → req.nr_hugepages < 2 ^ 32
      → req.region < nregion
      → Behaves s
          (finish_alloc K fault req (hugepages_alloc K s req.region req.nr_hugepages req.flags cap))
  unfolding hugepages_alloc hugepages_free Behaves taken_back
  finish_granted fault s req cap v w known =
      let mem = req.region in
      let there : leb nregion mem ≡ false = ground arith in
      let r = Ledger.hugepages_alloc K (share s mem) req.nr_hugepages req.flags cap in
      let m = alloc-Moves K (share s mem) req.nr_hugepages req.flags cap (v mem known) w in
      let t = put_back s mem r.share in
      let back = taken_back_lem s v mem req.nr_hugepages req.flags cap known w in
      rw there (
        finish-Behaves fault s req r t r.ret refl (put_back-Moved s mem r.share v m)
          (λ bad.
            let same : r.share ≡ share s mem =
              alloc_refused K (share s mem) req.nr_hugepages req.flags cap bad in
            put_back-Kept s mem r.share (rw same (Same-self (share s mem))))
          (λ fine.
            rw (there, hugepages_free)
              (
                undone-Moved s mem r.share _ v (back fine).1,
                λ _. undone-Kept s mem r.share _ (back fine).0,
              )))

  ioc_alloc-Behaves :
      (fault : Faults) (s : State) (req : AllocReq)
      → Sound s
      → req.nr_hugepages < 2 ^ 32
      → Behaves s (ioc_alloc K fault s req)
  unfolding ioc_alloc Behaves
  ioc_alloc-Behaves fault s req v w = go (check_alloc fault s req) refl
    where
      go :
          (st : Status)
          → check_alloc fault s req ≡ st
          → Behaves s (elim st [
            | ok ↦ finish_alloc K fault req (
                hugepages_alloc K s req.region req.nr_hugepages req.flags
                  (min req.nr_extents req.nr_hugepages))
            | bad ↦ record { ret = bad; out = []; nr_extents = none; state = s }
          ])
      go ok e = finish_granted fault s req _ v w (region_known fault s req e)
      go bad e = (Moved-self s v, λ _ k _. Same-self (share s k))

  -- Where every region is valid, what `ioc_alloc` moves for a 32-bit number of hugepages, it moves
  -- between the ledgers and the file of the call, and the invariant holds in every region after it.
  pub ioc_alloc-Moved :
      (fault : Faults) (s : State) (req : AllocReq)
      → Sound s
      → req.nr_hugepages < 2 ^ 32
      → Moved s (ioc_alloc K fault s req).state
  unfolding Behaves
  ioc_alloc-Moved fault s req v w = (ioc_alloc-Behaves fault s req v w).0

  -- Where every region is valid, an `ioc_alloc` that fails, whether the ledger refuses or the
  -- caller's memory cannot be written after a grant, changes no bitmap and no counter of any
  -- region.
  pub ioc_alloc-Kept :
      (fault : Faults) (s : State) (req : AllocReq)
      → Sound s
      → req.nr_hugepages < 2 ^ 32
      → (ioc_alloc K fault s req).ret ≢ ok
      → Kept s (ioc_alloc K fault s req).state
  unfolding Behaves
  ioc_alloc-Kept fault s req v w bad = (ioc_alloc-Behaves fault s req v w).1 bad
