-- ===== src/Library/Allocator/Freed.antt =====
-- `pim_free_ctx` of sw/lib/pim_alloc.c: the granules of the allocation leave use, and no others.
use pim_sw.Common.{
  ℕ, suc, ◌+◌, ◌<◌, ◌≡◌, refl, sym, ap, ◌∙◌, Bool, true, false, some, arith, List, All, unmark,
  subst, update_self, length, [], ◌∷◌,
}
use pim_sw.Library.Records.{Rec, Table, rec_remove}
use pim_sw.Library.Pool.{Pool, pool_give, pool_trim}
use pim_sw.Library.Pool.Supply.{Source, Lawful}
use pim_sw.Library.Pool.Slots.{in_use, Cut, Ok}
use pim_sw.Library.Pool.Give.{Granule, pool_give-Gives}
use pim_sw.Library.Pool.Run.{InSet}
use pim_sw.Library.Pool.Trim.{pool_trim-Trimmed}
use pim_sw.Library.Allocator.{Context, Services, free_ctx, granules, entry_of}
use pim_sw.Library.Allocator.Outcome.{out_of}

-- The granules of a record are the list that was written into it.
granules-entry_of :
    (l : List ℕ) (i : ℕ) (f : ℕ → ℕ)
    → ((j : ℕ) → f (i + j) ≡ entry_of l j)
    → granules (length l) i f ≡ l
unfolding granules entry_of
granules-entry_of [] i f h = refl
granules-entry_of (a ∷ l) i f h =
    let zero_on : i + 0 ≡ i = omega arith in
    let first : f i ≡ a = ap f (sym zero_on) ∙ h 0 in
    let rest =
      granules-entry_of l (i + 1) f
        (λ j. let e : i + 1 + j ≡ i + suc j = omega arith in ap f e ∙ h (suc j)) in
    rw (first, rest) refl

module _ {St : Type 0} (D : ℕ → Source St) where
  -- The record is gone, its granules are out of use, and those of the pool are in order and held.
  pub record Freed (c c2 : Context St) (r : Rec) (t : Table) (held : St → ℕ → Bool) : Type 0 where
    pub table : c2.table ≡ t
    pub in_use : out_of D r.mem c2 ≡ unmark (granules r.nr_grans 0 r.gran_addr) (out_of D r.mem c)
    pub order : Ok (c.geom.mem r.mem) (c2.pool r.mem).v (c2.pool r.mem).n
    pub known : InSet (c2.pool r.mem) (held c2.driver)

  -- With a driver that keeps its promises and a pool in order, freeing an allocation whose granules
  -- belong to the pool removes its record and takes exactly its granules out of use. The pool is in
  -- order and its hugepages are held after it, those that were trimmed being gone.
  pub free_ctx-Freed :
      (os : Services) (c : Context St) (ptr : ℕ) (r : Rec) (t : Table)
      → (law : Lawful (D r.mem) (c.geom.mem r.mem)) → Cut (c.geom.mem r.mem)
      → Ok (c.geom.mem r.mem) (c.pool r.mem).v (c.pool r.mem).n
      → InSet (c.pool r.mem) (law.held c.driver)
      → All
          (Granule (c.geom.mem r.mem) (c.pool r.mem).v (c.pool r.mem).n)
          (granules r.nr_grans 0 r.gran_addr)
      → rec_remove c.table ptr ≡ (some r, t)
      → ((free_ctx D os c ptr).0 ≡ true) × Freed c (free_ctx D os c ptr).1 r t law.held
  unfolding free_ctx
  free_ctx-Freed os c ptr r t law cut o k places e =
      let region = c.geom.mem r.mem in
      let l = granules r.nr_grans 0 r.gran_addr in
      let p = pool_give region (c.pool r.mem) l in
      let g = pool_give-Gives region cut l (c.pool r.mem) o places in
      let in_set : InSet p (law.held c.driver) =
        λ i x. ap (law.held c.driver) (g.pages i) ∙ k i (subst (λ n. i < n) g.number x) in
      let q = (pool_trim (D r.mem) os.no_trim region c.keep_free false p c.driver).0 in
      let d = (pool_trim (D r.mem) os.no_trim region c.keep_free false p c.driver).1 in
      let z =
        pool_trim-Trimmed region cut (D r.mem) law os.no_trim c.keep_free false p c.driver g.order
          in_set in
      let here = update_self c.pool r.mem q in
      rw (e, free_ctx)
        (
          refl,
          record {
            table = ap (λ x. x.1) e;
            in_use = ap (λ (x : Pool). in_use region x.v x.n) here ∙ z.same_use ∙ g.left;
            order = subst (λ (x : Pool). Ok region x.v x.n) (sym here) z.order;
            known = subst (λ (x : Pool). InSet x (law.held d)) (sym here) z.known;
          },
        )
