-- ===== src/Library/Pool/Grow.antt =====
-- `pool_grow` of sw/lib/pim_alloc.c: new hugepages enter the pool entirely free, and those that it
-- cannot record go back to the driver.
use pim_sw.Common.{
  Fresh-out, length-append, Fresh-append, sym, Fresh-split, All-split, mark-mem, mem-append,
  unmark-mem, mark-append, subst, ap, Option-cases, ◌∙◌, ℕ, ◌+◌, ◌≡◌, refl, Bool, true, false,
  arith, ◌==◌, Bool-cases, inl, inr, List, [], ◌∷◌, ◌++◌, All, length, mark, Fresh, mem,
}
use pim_sw.Driver.Ledger.{Extent}
use pim_sw.Library.Geometry.{Region}
use pim_sw.Library.Pool.{Pool, insert_run, insert_all, free_each, pool_grow}
use pim_sw.Library.Pool.Supply.{Place, run, pages_of, Source, Lawful}
use pim_sw.Library.Pool.Slots.{Ok}
use pim_sw.Library.Pool.Run.{
  Whole, Whole-sum, InSet, Grown, Grown-none, Grown-then, RunDone, RunDone-whole,
  insert_run-RunDone,
}

mark-most :
    (xs ys : List ℕ) (s : ℕ → Bool) (a : ℕ) → mark xs s a ≡ true → mark (xs ++ ys) s a ≡ true
mark-most xs ys s a h =
    ap (λ f. f a) (mark-append xs ys s) ∙ ground (arith, mark-mem ys (mark xs s) a, h)

-- What was recorded is part of the run.
RunDone-sub :
    (r : Region) (p q : Pool) (rest : Extent) (todo : List ℕ) (h : ℕ → Bool)
    → (d : RunDone r p q rest todo h) → (a : ℕ) → mark d.past h a ≡ true
    → mark todo h a ≡ true
RunDone-sub r p q rest todo h d a t =
    ap (λ l. mark l h a) d.parts ∙ mark-most d.past (run r rest.addr rest.nr_hugepages) h a t

-- What was not recorded is outside what was.
RunDone-Fresh :
    (r : Region) (p q : Pool) (rest : Extent) (todo more : List ℕ) (h : ℕ → Bool)
    → (d : RunDone r p q rest todo h) → Fresh todo h
    → Fresh more (mark todo h)
    → Fresh (run r rest.addr rest.nr_hugepages ++ more) (mark d.past h)
RunDone-Fresh r p q rest todo more h d f g =
    let left = run r rest.addr rest.nr_hugepages in
    let (_, x) = Fresh-split d.past left h (subst (λ l. Fresh l h) d.parts f) in
    Fresh-append left more (mark d.past h) x
      (subst (Fresh more) (ap (λ l. mark l h) d.parts ∙ mark-append d.past left h) g)

module _ {St : Type 0} (D : Source St) (r : Region) (law : Lawful D r) where
  open law use {held, freed, kept}

  -- What is in the set `h` is held.
  abbrev pub Holds : (ℕ → Bool) → St → Type 0
  Holds h s = (a : ℕ) → h a ≡ true → held s a ≡ true

  -- Giving back hugepages outside a set leaves the set held.
  free-Holds :
      (h : ℕ → Bool) (es : List Extent) (s : St)
      → Holds h s
      → ((a : ℕ) → h a ≡ true → mem a (pages_of r es) ≡ false)
      → Holds h (D.free es s).1
  free-Holds h es s k out a t = elim (Bool-cases (D.free es s).0) [
    | inl e ↦
        ap (λ f. f a) (freed es s e)
        ∙ ground (arith, unmark-mem (pages_of r es) (held s) a, out a t, k a t)
    | inr e ↦ ap (λ f. f a) (kept es s e) ∙ k a t
  ]

  free_each-Holds :
      (h : ℕ → Bool) (es : List Extent) (s : St)
      → Holds h s
      → ((a : ℕ) → h a ≡ true → mem a (pages_of r es) ≡ false)
      → Holds h (free_each D es s)
  unfolding free_each
  free_each-Holds h [] s k out = k
  free_each-Holds h (e ∷ es) s k out =
      let split = λ (a : ℕ). mem-append (run r e.addr e.nr_hugepages) (pages_of r es) a in
      free_each-Holds h es (D.free (e ∷ []) s).1
        (free-Holds h (e ∷ []) s k
          (λ a t. ground (arith, mem-append (run r e.addr e.nr_hugepages) [] a, out a t, split a)))
        (λ a t. ground (arith, out a t, split a))

  -- The pool has grown within what is held, by `more` hugepages where it could record all.
  pub record Settled (p q : Pool) (ok : Bool) (t : St) (more : ℕ) : Type 0 where
    pub by : ℕ
    pub all : Whole ok by more
    pub grown : Grown r p q by
    pub known : InSet q (held t)

  insert_all-Settled :
      (refused : ℕ → Bool) (es : List Extent) (p : Pool) (s : St) (h : ℕ → Bool)
      → Ok r p.v p.n
      → InSet p h
      → All (Place r) (pages_of r es)
      → Fresh (pages_of r es) h
      → Holds (mark (pages_of r es) h) s
      → let (ok, q, t) = insert_all D refused r es p s in Settled p q ok t (length (pages_of r es))
  unfolding insert_all
  insert_all-Settled refused [] p s h o k pl f hs = record {
    by = 0;
    all = refl;
    grown = Grown-none r p o;
    known = λ i x. hs (p.v i).addr (k i x);
  }
  insert_all-Settled refused (e ∷ es) p s h o k pl f hs =
      let here = run r e.addr e.nr_hugepages in
      let (pl1, pl2) = All-split (Place r) here (pages_of r es) pl in
      let (f1, f2) = Fresh-split here (pages_of r es) h f in
      let d = insert_run-RunDone r refused e.addr e.nr_hugepages p h o k pl1 f1 in
      let q = (insert_run refused r e.addr e.nr_hugepages p).0 in
      let rest = (insert_run refused r e.addr e.nr_hugepages p).1 in
      elim (Bool-cases (rest.nr_hugepages == 0)) [
        | inl z ↦
            let whole = RunDone-whole r p q rest here h d (ground (arith, z)) in
            let next =
              insert_all-Settled refused es q s (mark here h) d.grown.order
                (λ i x. ap (λ l. mark l h (q.v i).addr) (sym whole) ∙ d.known i x) pl2 f2
                (λ a t. hs a (ap (λ g. g a) (mark-append here (pages_of r es) h) ∙ t)) in
            rw z (record {
              by = length d.past + next.by;
              all =
                  Whole-sum (insert_all D refused r es q s).0 next.by (length (pages_of r es))
                    (length d.past) (length (here ++ pages_of r es))
                    (omega (arith, ap length whole, length-append {0} here (pages_of r es)))
                    next.all;
              grown = Grown-then r p q _ (length d.past) next.by d.grown next.grown;
              known = next.known;
            })
        | inr z ↦
            let kept_set =
              free_each-Holds (mark d.past h) (rest ∷ es) s
                (λ a t.
                  hs a (mark-most here (pages_of r es) h a (RunDone-sub r p q rest here h d a t)))
                (λ a t.
                  Fresh-out (run r rest.addr rest.nr_hugepages ++ pages_of r es) (mark d.past h) a
                    (RunDone-Fresh r p q rest here (pages_of r es) h d f1 f2) t) in
            rw z (record {
              by = length d.past;
              all = tt;
              grown = d.grown;
              known = λ i x. kept_set (q.v i).addr (d.known i x);
            })
      ]

  -- `pool_grow` leaves the granules in use as they are, in a pool in order whose hugepages are held;
  -- where it reports success, there are as many free granules more as it asked hugepages for.
  pub pool_grow-Settled :
      (no_extents : Bool) (refused : ℕ → Bool) (n : ℕ) (p : Pool) (s : St)
      → Ok r p.v p.n
      → InSet p (held s)
      → let (ok, q, t) = pool_grow D no_extents refused r n p s in Settled p q ok t n
  unfolding pool_grow
  pool_grow-Settled no_extents refused n p s o k = elim (Bool-cases no_extents) [
    | inl e ↦ rw e (record { by = 0; all = tt; grown = Grown-none r p o; known = k })
    | inr e ↦ elim (Option-cases (D.alloc n n s).0) [
      | inl f ↦
          rw (e, f)
            (record {
              by = 0;
              all = tt;
              grown = Grown-none r p o;
              known = λ i x. ap (λ g. g (p.v i).addr) (law.refused n n s f) ∙ k i x;
            })
      | inr (es, f) ↦
          let (fresh, new, places, many) = law.granted n n s es f in
          rw (e, f)
            (subst (Settled p _ _ _) many (
              insert_all-Settled refused es p (D.alloc n n s).1 (held s) o k places fresh
                (λ a t. ap (λ g. g a) new ∙ t)))
    ]
  ]
