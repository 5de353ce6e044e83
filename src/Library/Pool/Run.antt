-- ===== src/Library/Pool/Run.antt =====
-- The inner loop of `pool_grow` of sw/lib/pim_alloc.c: the hugepages of one extent enter the pool, as
-- far as they can be recorded.
use mathlib.Core.List.{append-nil}
use native.Mathlib.Nat.{add-mul, suc-mul}
use pim_sw.Common.{
  sym, update_self, add64, update, ap, Option-cases, ◌∙◌, ℕ, zero, suc, ◌+◌, ◌*◌, ◌<◌, ◌≡◌, refl,
  Bool, true, false, arith, inl, inr, List, [], ◌∷◌, ◌++◌, All, length, mark, Fresh,
}
use pim_sw.Driver.Ledger.{Extent}
use pim_sw.Library.Geometry.{Region}
use pim_sw.Library.Pool.{Pool, pool_insert, insert_run}
use pim_sw.Library.Pool.Supply.{Place, run}
use pim_sw.Library.Pool.Slots.{Ok, in_use}
use pim_sw.Library.Pool.Take.{total}
use pim_sw.Library.Pool.Insert.{pool_insert-Inserted, Inserted}

-- All `n` are there where the call reports success.
abbrev pub Whole : Bool → ℕ → ℕ → Type 0
Whole true m n = m ≡ n
Whole false m n = Unit {0}

pub Whole-sum : (ok : Bool) (m n k all : ℕ) → all ≡ k + n → Whole ok m n → Whole ok (k + m) all
Whole-sum true m n k all e h = omega (arith, e, h)
Whole-sum false m n k all e h = tt

-- Each hugepage of the pool is in the set.
abbrev pub InSet : Pool → (ℕ → Bool) → Type 0
InSet p h = (i : ℕ) → i < p.n → h (p.v i).addr ≡ true

-- More hugepages have come, `more` of them, and no granule with them.
pub record Grown (r : Region) (p q : Pool) (more : ℕ) : Type 0 where
  pub order : Ok r q.v q.n
  pub same_use : in_use r q.v q.n ≡ in_use r p.v p.n
  pub total_more : total r q.v q.n ≡ total r p.v p.n + more * r.grans_per_hugepage

pub Grown-none : (r : Region) (p : Pool) → Ok r p.v p.n → Grown r p p 0
Grown-none r p o = record { order = o; same_use = refl; total_more = omega arith }

pub Grown-then :
    (r : Region) (p q s : Pool) (m n : ℕ) → Grown r p q m → Grown r q s n → Grown r p s (m + n)
Grown-then r p q s m n a b = record {
  order = b.order;
  same_use = b.same_use ∙ a.same_use;
  total_more = omega (arith, a.total_more, b.total_more, add-mul m n r.grans_per_hugepage);
}

Grown-suc :
    (r : Region) (p q s : Pool) (a n : ℕ) → Inserted r p a q → Grown r q s n → Grown r p s (suc n)
Grown-suc r p q s a n i b = record {
  order = b.order;
  same_use = b.same_use ∙ i.same_use;
  total_more = omega (arith, i.more, b.total_more, suc-mul n r.grans_per_hugepage);
}

-- A part of a run of hugepages has been recorded, and `rest` is the other part.
pub record RunDone (r : Region) (p q : Pool) (rest : Extent) (todo : List ℕ) (h : ℕ → Bool)
    : Type 0 where
  pub past : List ℕ
  pub parts : todo ≡ past ++ run r rest.addr rest.nr_hugepages
  pub grown : Grown r p q (length past)
  pub known : InSet q (mark past h)

pub RunDone-whole :
    (r : Region) (p q : Pool) (rest : Extent) (todo : List ℕ) (h : ℕ → Bool)
    → (d : RunDone r p q rest todo h) → rest.nr_hugepages ≡ 0
    → d.past ≡ todo
RunDone-whole r p q rest todo h d z =
    sym (append-nil d.past) ∙ ap (λ n. d.past ++ run r rest.addr n) (sym z) ∙ sym d.parts

pub insert_run-RunDone :
    (r : Region) (refused : ℕ → Bool) (a n : ℕ) (p : Pool) (h : ℕ → Bool)
    → Ok r p.v p.n
    → InSet p h
    → All (Place r) (run r a n)
    → Fresh (run r a n) h
    → RunDone r p (insert_run refused r a n p).0 (insert_run refused r a n p).1 (run r a n) h
unfolding insert_run
insert_run-RunDone r refused a zero p h o k pl f = record {
  past = [];
  parts = refl;
  grown = Grown-none r p o;
  known = k;
}
insert_run-RunDone r refused a (suc n) p h o k pl f =
    elim (Option-cases (pool_insert refused r p a)) [
      | inl e ↦
          rw (e, insert_run)
            (record { past = []; parts = refl; grown = Grown-none r p o; known = k })
      | inr (q, e) ↦
          let one =
            pool_insert-Inserted r p a refused q o pl.0
              (λ i x y. ground (arith, k i x, f.0, ap h y)) e in
          let inset : InSet q (update h a true) = λ i x. elim (one.entries i x) [
            | inl y ↦ rw y (update_self h a true)
            | inr (j, y, z) ↦ rw z (ground (arith, k j y))
          ] in
          let rest =
            insert_run-RunDone r refused (add64 a r.hugepage_bytes) n q (update h a true) one.order
              inset pl.1 f.1 in
          rw (e, insert_run)
            (record {
              past = a ∷ rest.past;
              parts = ap (λ l. a ∷ l) rest.parts;
              grown = Grown-suc r p q _ a (length rest.past) one rest.grown;
              known = rest.known;
            })
    ]
