-- ===== src/Library/Device/Laws.antt =====
-- The laws that the pools rely on, for the driver as `pim_ioctl_alloc` and `pim_ioctl_free` of
-- sw/lib/pim_dev.c reach it, with any failure of the kernel's services.
use pim_sw.Common.{
  ℕ, ◌+◌, ◌*◌, ◌<◌, ◌≡◌, ◌≢◌, refl, ◌∙◌, subst, fun_ext, Bool, true, false, none, some, List, [],
  ◌∷◌, length, mark, unmark, mark-mem, unmark-mem, mem, Fresh, arith, Option-cases, Bool-cases, inl,
  inr,
}
use mathlib.Core.Option.{some_inj}
use pim_sw.Driver.Bitmap.{BitmapOps}
use pim_sw.Driver.Ledger.{Share, Extent, Status, ok, addr_to_hugepage}
use pim_sw.Driver.Ledger.Extents.{covered, total, Fits}
use pim_sw.Driver.Ledger.Release.{Held}
use pim_sw.Driver.Ledger.Bits.{Consistent, Took, Gave, Took-Consistent, Gave-Consistent}
use pim_sw.Driver.File.{State, Faults, AllocReq, FreeReq, share, nregion, ioc_alloc, ioc_free}
use pim_sw.Driver.File.Bits.{ioc_alloc-Told, ioc_free-Told}
use pim_sw.Library.Geometry.{Region}
use pim_sw.Library.Pool.Supply.{Source, Lawful, pages_of}
use pim_sw.Library.Device.{ioctl_alloc, ioctl_free, is_ok}
use pim_sw.Library.Device.Pages.{
  known_at, Stretches, at_index, mem-pages_of, length-pages_of, pages_of-Place, Fits-Stretches,
  pages_of-Fresh,
}

-- The part of a state that concerns the region, as the library has it.
pub record Good (r : Region) (s : Share) : Type 0 where
  pub consistent : Consistent s
  pub base : s.l.base ≡ r.base
  pub page : s.l.hugepage_bytes ≡ r.hugepage_bytes

-- The hugepages of the file, by their addresses.
pub holding : Share → ℕ → Bool
holding s a = at_index s.l s.hugepages a

holding_known :
    (r : Region) (s : Share) (i : ℕ)
    → Good r s
    → s.hugepages i ≡ true
    → holding s (r.base + i * r.hugepage_bytes) ≡ true
unfolding holding
holding_known r s i g h =
    let known = known_at s.l r g.consistent.span g.base g.page i (g.consistent.inside i h) in
    rw (known, h) refl

is_ok-true : (st : Status) → is_ok st ≡ true → st ≡ ok
unfolding is_ok
is_ok-true ok e = refl
is_ok-true st e = absurd cc

is_ok-false : (st : Status) → is_ok st ≡ false → st ≢ ok
unfolding is_ok
is_ok-false ok e = absurd cc
is_ok-false st e = λ x. cc

Held-Stretches : (s : Share) (es : List Extent) → Held s es → Stretches s.l es
Held-Stretches s [] h = tt
Held-Stretches s (e ∷ es) (idx, known, pos, fits, full, rest) =
    (idx, known, fits, pos, Held-Stretches s es rest)

holding-nothing : (s t : Share) → Took s [] t → holding t ≡ holding s
unfolding holding covered
holding-nothing s t k = fun_ext (λ a. elim (Option-cases (addr_to_hugepage s.l a)) [
  | inl miss ↦ ground (arith, miss, k.addresses a)
  | inr (j, e) ↦ ground (arith, e, k.addresses a, k.mine j)
])

module _ (r : Region) (s t : Share) (g : Good r s) (es : List Extent) where
  named :
      (a : ℕ) → Stretches s.l es → mem a (pages_of r es) ≡ at_index s.l (λ j. covered s.l es j) a
  named a w = mem-pages_of s.l r g.consistent.span g.base g.page es a w

  holding-Took : Stretches s.l es → Took s es t → holding t ≡ mark (pages_of r es) (holding s)
  unfolding holding
  holding-Took w k = fun_ext (λ a.
      let m = mark-mem (pages_of r es) (holding s) a in
      let n = named a w in
      elim (Option-cases (addr_to_hugepage s.l a)) [
        | inl miss ↦ ground (arith, miss, k.addresses a, m, n)
        | inr (j, e) ↦ ground (arith, e, k.addresses a, k.mine j, m, n)
      ])

  holding-Gave : Stretches s.l es → Gave s es t → holding t ≡ unmark (pages_of r es) (holding s)
  unfolding holding
  holding-Gave w k = fun_ext (λ a.
      let m = unmark-mem (pages_of r es) (holding s) a in
      let n = named a w in
      elim (Option-cases (addr_to_hugepage s.l a)) [
        | inl miss ↦ ground (arith, miss, k.addresses a, m, n)
        | inr (j, e) ↦ ground (arith, e, k.addresses a, k.mine j, m, n)
      ])

  Took-Good : Fits s.l 0 es → Took s es t → Good r t
  Took-Good f k = record {
    consistent = Took-Consistent s t es g.consistent f k;
    base = k.alike.base ∙ g.base;
    page = k.alike.page ∙ g.page;
  }

  Gave-Good : Gave s es t → Good r t
  Gave-Good k = record {
    consistent = Gave-Consistent s t es g.consistent k;
    base = k.alike.base ∙ g.base;
    page = k.alike.page ∙ g.page;
  }

  -- The hugepages of a grant are free ones, and so none of the file.
  Fits-Fresh : Fits s.l 0 es → Fresh (pages_of r es) (holding s)
  unfolding holding
  Fits-Fresh f = pages_of-Fresh s.l r g.consistent.span g.base g.page 0 es (holding s) f (λ i p q z.
      let known = known_at s.l r g.consistent.span g.base g.page i q in
      ground (arith, known, z, g.consistent.owns i))

-- A state of the module in which the region `mem` is in order for the file.
abbrev pub GoodState : Region → ℕ → Type 0
GoodState r mem = (s : State) × Good r (share s mem)

module _ (K : BitmapOps) (fault : Faults) (r : Region) (mem : ℕ) (known : mem < nregion)
    (ext : ℕ) where
  alloc_result :
      (n room : ℕ) (x : GoodState r mem)
      → let res = ioctl_alloc K fault mem n 0 ext room x.0 in
        ((es : List Extent)
          → res.0 ≡ some es
          → Fits (share x.0 mem).l 0 es
            × (total es ≡ n)
            × Took (share x.0 mem) es (share res.1 mem))
        × (res.0 ≡ none → Took (share x.0 mem) [] (share res.1 mem))
  unfolding ioctl_alloc
  alloc_result n room x =
      let req : AllocReq = record {
        region = mem;
        nr_hugepages = n;
        nr_extents = room;
        flags = 0;
        vbase = 0;
        extents = ext;
      } in
      let told = ioc_alloc-Told K fault x.0 req x.1.consistent known in
      let out = ioc_alloc K fault x.0 req in
      elim (Bool-cases (is_ok out.ret)) [
        | inl fine ↦ (
          λ es e.
              let same : out.out ≡ es = some_inj.0 (rw fine at e) in
              subst
                (λ l.
                  Fits (share x.0 mem).l 0 l
                  × (total l ≡ n)
                  × Took (share x.0 mem) l (share out.state mem))
                same (told.granted (is_ok-true out.ret fine)),
          λ e. absurd (let k : some out.out ≡ none = rw fine at e in cc),
        )
        | inr bad ↦ (
          λ es e. absurd (let k : none ≡ some es = rw bad at e in cc),
          λ e. told.refused (is_ok-false out.ret bad),
        )
      ]

  free_result :
      (es : List Extent) (x : GoodState r mem)
      → let res = ioctl_free K fault mem es ext 0 x.0 in
        (res.0 ≡ true → Held (share x.0 mem) es × Gave (share x.0 mem) es (share res.1 mem))
        × (res.0 ≡ false → Took (share x.0 mem) [] (share res.1 mem))
  unfolding ioctl_free
  free_result es x =
      let req : FreeReq = record {
        region = mem;
        nr_extents = length es;
        flags = 0;
        pad = 0;
        extents = ext;
        vbase = 0;
      } in
      let told = ioc_free-Told K fault x.0 mem x.1.consistent req es refl known in
      let ret = (ioc_free K fault x.0 req es).0 in
      (λ e. told.freed (is_ok-true ret e), λ e. told.kept (is_ok-false ret e))

  after_alloc :
      (n room : ℕ) (x : GoodState r mem)
      → Good r (share (ioctl_alloc K fault mem n 0 ext room x.0).1 mem)
  after_alloc n room x =
      let (fine, bad) = alloc_result n room x in
      elim (Option-cases (ioctl_alloc K fault mem n 0 ext room x.0).0) [
        | inl e ↦ Took-Good r (share x.0 mem) _ x.1 [] tt (bad e)
        | inr (es, e) ↦ let (f, size, k) = fine es e in Took-Good r (share x.0 mem) _ x.1 es f k
      ]

  after_free :
      (es : List Extent) (x : GoodState r mem)
      → Good r (share (ioctl_free K fault mem es ext 0 x.0).1 mem)
  after_free es x =
      let (fine, bad) = free_result es x in
      elim (Bool-cases (ioctl_free K fault mem es ext 0 x.0).0) [
        | inl e ↦ Gave-Good r (share x.0 mem) _ x.1 es (fine e).1
        | inr e ↦ Took-Good r (share x.0 mem) _ x.1 [] tt (bad e)
      ]

  -- The calls of the pool on such states: the ioctls keep them in order, so that the calls of
  -- `source` are calls on them.
  pub driver : Source (GoodState r mem)
  driver = record {
    alloc = λ n room x.
        let res = ioctl_alloc K fault mem n 0 ext room x.0 in
        (res.0, (res.1, after_alloc n room x));
    free =
        λ es x. let res = ioctl_free K fault mem es ext 0 x.0 in (res.0, (res.1, after_free es x));
  }

  -- The ioctls of the module keep the laws that the pools rely on: whatever they have allocated and
  -- freed before, however often a free request named a hugepage, and whichever of the kernel's
  -- services fail. The hugepages of the file are among those that the laws call held.
  pub driver-Lawful :
      (laws : Lawful driver r) × ((x : GoodState r mem)
        → (i : ℕ) → (share x.0 mem).hugepages i ≡ true
        → laws.held x (r.base + i * r.hugepage_bytes) ≡ true)
  unfolding driver
  driver-Lawful = (
    record {
      held = λ x. holding (share x.0 mem);
      granted = λ n room x es e.
          let s = share x.0 mem in
          let (f, size, k) = (alloc_result n room x).0 es e in
          let w = Fits-Stretches s.l r x.1.consistent.span x.1.base x.1.page 0 es f in
          (
            Fits-Fresh r s s x.1 es f,
            holding-Took r s _ x.1 es w k,
            pages_of-Place s.l r x.1.consistent.span x.1.base x.1.page es w,
            length-pages_of s.l r x.1.consistent.span x.1.base x.1.page es ∙ size,
          );
      refused = λ n room x e. holding-nothing (share x.0 mem) _ ((alloc_result n room x).1 e);
      freed = λ es x e.
          let s = share x.0 mem in
          let (h, k) = (free_result es x).0 e in
          holding-Gave r s _ x.1 es (Held-Stretches s es h) k;
      kept = λ es x e. holding-nothing (share x.0 mem) _ ((free_result es x).1 e);
    },
    λ x i. holding_known r (share x.0 mem) i x.1,
  )
