-- ===== src/Driver/File/Bits.antt =====
-- What the ioctls of sw/drv/pim_file.c do to the bits of the file on the region of the call, whatever
-- the counters say.
use pim_sw.Common.{
  ℕ, ◌*◌, u64, ◌<◌, ◌≡◌, ◌≢◌, refl, min, false, ◌||◌, arith, leb, ◌==◌, if_ind, ==_iff, sym, subst,
  List, [], none, Bool-cases, inl, inr,
}
use pim_sw.Driver.Bitmap.{BitmapOps}
use pim_sw.Driver.Ledger
use pim_sw.Driver.Ledger.{
  Share, Extent, Status, ok, einval, enomem, enospc, eperm, efault, enotty, Allocated,
}
use pim_sw.Driver.Ledger.Extents.{Fits, total}
use pim_sw.Driver.Ledger.Release.{Held}
use pim_sw.Driver.Ledger.Alloc.{alloc_refused}
use pim_sw.Driver.Ledger.Free.{free_refused}
use pim_sw.Driver.Ledger.Bits.{
  Consistent, Took, Gave, alloc-Got, free-Gave, undo-Gave, Took-self, Took-slot, Gave-slot,
  Took-Gave, Took-Consistent,
}
use pim_sw.Driver.File.{
  put_back, State, Faults, AllocReq, FreeReq, AllocReply, share, nregion, finish_alloc,
  hugepages_alloc, hugepages_free, ioc_alloc, ioc_free, check_free, check_alloc, finish_free,
  record_vbase, forget_vbase,
}
use pim_sw.Driver.File.Shares.{share-put_back}

-- The list of `vbase`s is not seen.
share-record_vbase :
    (t : State) (a n mem : ℕ)
    → share (record t { file = record_vbase t.file a n }) mem ≡ share t mem
unfolding record_vbase share
share-record_vbase t a n mem = elim (Bool-cases (a == 0 || n == 0)) [
  | inl e ↦ rw e refl
  | inr e ↦ rw e refl
]

share-forget_vbase :
    (t : State) (a mem : ℕ) → share (record t { file = forget_vbase t.file a }) mem ≡ share t mem
unfolding forget_vbase share
share-forget_vbase t a mem = elim (Bool-cases (a == 0)) [ inl e ↦ rw e refl | inr e ↦ rw e refl ]

share-mine :
    (s : State) (mem : ℕ) (t : Share)
    → share (put_back s mem t) mem ≡ record t { slot = s.file.slot }
share-mine s mem t = rw (share-put_back s mem t mem, (==_iff mem mem).1 refl) refl

-- What a grant request for `n` hugepages has come to, by its result.
pub record AllocTold (s : Share) (n : ℕ) (ret : Status) (out : List Extent) (t : Share)
    : Type 0 where
  pub granted : ret ≡ ok → Fits s.l 0 out × (total out ≡ n) × Took s out t
  pub refused : ret ≢ ok → Took s [] t

-- What a free request has come to.
pub record FreeTold (s : Share) (es : List Extent) (ret : Status) (t : Share) : Type 0 where
  pub freed : ret ≡ ok → Held s es × Gave s es t
  pub kept : ret ≢ ok → Took s [] t

module _ (K : BitmapOps) (fault : Faults) (s : State) (mem : ℕ) (c : Consistent (share s mem)) where
  abbrev Told : ℕ → AllocReply → Type 0
  Told n r = AllocTold (share s mem) n r.ret r.out (share r.state mem)

  untouched :
      (n : ℕ) (bad : Status)
      → bad ≢ ok
      → Told n (record { ret = bad; out = []; nr_extents = none; state = s })
  untouched n bad no_grant = record {
    granted = λ e. absurd (no_grant e);
    refused = λ e. Took-self (share s mem);
  }

  finish_step :
      (req : AllocReq) (r : Allocated) (t : State) (st : Status)
      → r.ret ≡ st
      → (r.ret ≡ ok
          → Fits (share s mem).l 0 r.out
            × (total r.out ≡ req.nr_hugepages)
            × Took (share s mem) r.out (share t mem))
      → (r.ret ≢ ok → Took (share s mem) [] (share t mem))
      → (r.ret ≡ ok → Took (share s mem) [] (share (hugepages_free K t req.region r.out).1 mem))
      → Told req.nr_hugepages (finish_alloc K fault req (r, t))
  unfolding finish_alloc
  finish_step req r t ok e good bad undone =
      rw (e, finish_alloc)
        (if_ind (Told req.nr_hugepages) (fault.extents || fault.reply) _ _
          (λ _. record { granted = λ x. absurd cc; refused = λ _. undone e })
          (λ _. record {
            granted = λ _.
                let (f, z, k) = good e in
                (
                  f,
                  z,
                  if_ind (λ u. Took (share s mem) r.out (share u mem)) fault.vbase _ _ (λ _. k)
                      (λ _.
                        subst (λ x. Took (share s mem) r.out x)
                          (sym (
                            share-record_vbase t req.vbase
                              (u64 (req.nr_hugepages * (t.led req.region).hugepage_bytes)) mem))
                          k),
                );
            refused = λ no_grant. absurd (no_grant refl);
          }))
  finish_step req r t st e good bad undone =
      rw (e, finish_alloc)
        (if_ind (Told req.nr_hugepages) fault.reply _ _
          (λ _. record { granted = λ x. absurd cc; refused = λ _. bad (λ x. cc) })
          (λ _. record { granted = λ x. absurd cc; refused = λ _. bad (λ x. cc) }))

  abbrev FreedTold : List Extent → Status × State → Type 0
  FreedTold es r = FreeTold (share s mem) es r.0 (share r.1 mem)

  finish_freed :
      (req : FreeReq) (es : List Extent) (r : Status × State)
      → FreedTold es r
      → FreedTold es (finish_free req r)
  unfolding finish_free
  finish_freed req es (ok, t) h = record {
    freed = λ e. let (a, b) = h.freed e in (a, rw (share-forget_vbase t req.vbase mem) b);
    kept = λ e. rw (share-forget_vbase t req.vbase mem) (h.kept e);
  }
  finish_freed req es (bad, t) h = h

  free_region : (es : List Extent) → mem < nregion → FreedTold es (hugepages_free K s mem es)
  unfolding hugepages_free
  free_region es known =
      let there : leb nregion mem ≡ false = ground (arith, known) in
      let r = Ledger.hugepages_free K (share s mem) es in
      rw there (record {
        freed = λ e.
            let (a, b) = free-Gave K (share s mem) es c e in
            (a, rw (share-mine s mem r.1) (Gave-slot b));
        kept = λ e.
            rw (share-mine s mem r.1, free_refused K (share s mem) es e)
              (Took-slot (Took-self (share s mem)));
      })

  -- What `ioc_free` does there.
  pub ioc_free-Told :
      (req : FreeReq) (es : List Extent)
      → (e : mem ≡ req.region) → mem < nregion
      → FreedTold es (ioc_free K fault s req es)
  unfolding ioc_free
  ioc_free-Told req es e known =
      elim (check_free fault s req)
        as (λ st. FreedTold es (
          let x : Status × State = elim st [
            | ok ↦ finish_free req (hugepages_free K s req.region es)
            | bad ↦ (bad, s)
          ] in
          x)) [
            | ok ↦
                finish_freed req es _
                  (subst (λ m. FreedTold es (hugepages_free K s m es)) e (free_region es known))
            | bad ↦ record { freed = λ x. absurd cc; kept = λ _. Took-self (share s mem) }
          ]

module _ (K : BitmapOps) (fault : Faults) (s : State) (req : AllocReq)
    (c : Consistent (share s req.region)) (known : req.region < nregion) where
  abbrev mem : ℕ
  mem = req.region

  finish_got :
      (cap : ℕ)
      → Told K fault s mem c req.nr_hugepages
          (finish_alloc K fault req (hugepages_alloc K s req.region req.nr_hugepages req.flags cap))
  unfolding hugepages_alloc hugepages_free
  finish_got cap =
      let there : leb nregion mem ≡ false = ground (arith, known) in
      let r = Ledger.hugepages_alloc K (share s mem) req.nr_hugepages req.flags cap in
      let t = put_back s mem r.share in
      let slot = share-mine s mem r.share in
      rw there (
        finish_step K fault s mem c req r t r.ret refl
          (λ fine.
            let g = alloc-Got K (share s mem) req.nr_hugepages req.flags cap c.span fine in
            (g.fits, g.size, rw slot (Took-slot g.took)))
          (λ bad.
            let same : r.share ≡ share s mem =
              alloc_refused K (share s mem) req.nr_hugepages req.flags cap bad in
            rw (slot, same) (Took-slot (Took-self (share s mem))))
          (λ fine.
            let g = alloc-Got K (share s mem) req.nr_hugepages req.flags cap c.span fine in
            let took : Took (share s mem) r.out (share t mem) = rw slot (Took-slot g.took) in
            let back =
              undo-Gave K (share s mem) (share t mem) r.out c.span g.fits took
                (Took-Consistent (share s mem) (share t mem) r.out c g.fits took).span in
            let u = (Ledger.hugepages_free K (share t mem) r.out).1 in
            rw (there, hugepages_free)
              (rw (share-mine t mem u)
                (Took-slot (Took-Gave (share s mem) (share t mem) u r.out c g.fits took back)))))

  -- What `ioc_alloc` does on the region of its request, with every failure of the kernel's services.
  pub ioc_alloc-Told : Told K fault s mem c req.nr_hugepages (ioc_alloc K fault s req)
  unfolding ioc_alloc
  ioc_alloc-Told =
      elim (check_alloc fault s req)
        as (λ st. Told K fault s mem c req.nr_hugepages (elim st [
          | ok ↦ finish_alloc K fault req (
              hugepages_alloc K s req.region req.nr_hugepages req.flags
                (min req.nr_extents req.nr_hugepages))
          | bad ↦ record { ret = bad; out = []; nr_extents = none; state = s }
        ])) [
          | ok ↦ finish_got (min req.nr_extents req.nr_hugepages)
          | bad ↦ untouched K fault s mem c req.nr_hugepages bad (λ x. cc)
        ]
