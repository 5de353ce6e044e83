-- ===== src/Library/Pool/Taken.antt =====
-- `pool_take` of sw/lib/pim_alloc.c against what it promises: all of the granules that were asked
-- for, each free before, or nothing.
use pim_sw.Common.{
  update_self, update, mark-keeps, mark-append, sym, Fresh-append, subst, unmark-mark,
  length-append, ◌∙◌, u32, ap, All-map, ℕ, ◌+◌, ◌-◌, ◌/◌, ◌≤◌, ◌<◌, ◌≡◌, refl, Bool, true, false,
  Option, none, some, arith, ltb, Bool-cases, inl, inr, List, [], ◌∷◌, ◌++◌, All, length, mark,
  Fresh, unmark,
}
use pim_sw.Library.Geometry.{Region}
use pim_sw.Library.Pool.{Pool, sweep_from, sweep, pool_grow, pool_give, take_new, pool_take}
use pim_sw.Library.Pool.Supply.{Source, Lawful}
use pim_sw.Library.Pool.Slots.{Cut, Ok, in_use, in_use-found}
use pim_sw.Library.Pool.Take.{total, Takes-append}
use pim_sw.Library.Pool.Sweep.{sweep_from-Swept, sweep_from-Takes, sweep_from-length}
use pim_sw.Library.Pool.Give.{Granule, pool_give-Gives}
use pim_sw.Library.Pool.Grow.{pool_grow-Settled}
use pim_sw.Library.Pool.Run.{InSet}

-- The granules that a pool has given out.
abbrev pub given : Region → Pool → ℕ → Bool
given r p = in_use r p.v p.n

-- The addresses of a list all lie in the set.
all_marked : (l : List ℕ) (s : ℕ → Bool) → All (λ a. mark l s a ≡ true) l
all_marked [] s = tt
all_marked (x ∷ l) s = (
  mark-keeps l (update s x true) x (ap (λ t. t) (update_self s x true)),
  all_marked l (update s x true),
)

module _ (r : Region) (c : Cut r) where
  -- What has been taken can be given back, and the pool has then given out what it had before.
  pub give-take :
      (p : Pool) (s : ℕ → Bool) (out : List ℕ)
      → Ok r p.v p.n
      → Fresh out s
      → given r p ≡ mark out s
      → (Ok r (pool_give r p out).v (pool_give r p out).n)
        × (given r (pool_give r p out) ≡ s)
        × ((pool_give r p out).n ≡ p.n)
        × ((i : ℕ) → ((pool_give r p out).v i).addr ≡ (p.v i).addr)
  give-take p s out o f e =
      let places : All (Granule r p.v p.n) out =
        All-map (λ a. mark out s a ≡ true) (Granule r p.v p.n) out
          (λ a h.
            let (k, g, x, y, z, u) = in_use-found r p.v p.n a (ap (λ t. t a) e ∙ h) in
            (k, g, x, y, z))
          (all_marked out s) in
      let g = pool_give-Gives r c out p o places in
      (g.order, g.left ∙ ap (unmark out) e ∙ unmark-mark out s f, g.number, g.pages)

  -- The result of a request for `n` granules, for a pool that had given out `s`.
  abbrev pub Answer : ℕ → (ℕ → Bool) → Option (List ℕ) → Pool → Type 0
  Answer n s (some out) q = (length out ≡ n) × Fresh out s × (given r q ≡ mark out s)
  Answer n s none q = given r q ≡ s

module _ (r : Region) (c : Cut r) {St : Type 0} (D : Source St) (law : Lawful D r) where
  open law use {held}

  -- A request for `n` granules, for a pool that had given out `s`, has led to the pool `q`.
  pub record Taken (n : ℕ) (s : ℕ → Bool) (o : Option (List ℕ)) (q : Pool) (t : St) : Type 0 where
    pub order : Ok r q.v q.n
    pub known : InSet q (held t)
    pub answer : Answer r c n s o q

  -- A request that fails gives back what it had gathered.
  undo-Taken :
      (n : ℕ) (s : ℕ → Bool) (out : List ℕ) (q : Pool) (t : St)
      → Ok r q.v q.n
      → InSet q (held t)
      → Fresh out s
      → given r q ≡ mark out s
      → Taken n s none (pool_give r q out) t
  undo-Taken n s out q t o k f e =
      let (ord, back, num, pages) = give-take r c q s out o f e in
      record {
        order = ord;
        known = λ i x. ap (held t) (pages i) ∙ k i (subst (λ m. i < m) num x);
        answer = back;
      }

  take_new-Taken :
      (no_extents : Bool) (refused : ℕ → Bool) (n : ℕ) (s : ℕ → Bool) (out : List ℕ) (p : Pool)
      (st : St)
      → Ok r p.v p.n
      → InSet p (held st)
      → Fresh out s
      → given r p ≡ mark out s
      → length out ≤ n
      → let (o, q, t) = take_new D no_extents refused r (n - length out) out p st in Taken n s o q t
  unfolding take_new sweep
  take_new-Taken no_extents refused n s out p st o k f e l =
      let need = n - length out in
      let want = u32 (need + r.grans_per_hugepage - 1) / r.grans_per_hugepage in
      let grown = (pool_grow D no_extents refused r want p st).0 in
      let q = (pool_grow D no_extents refused r want p st).1 in
      let t = (pool_grow D no_extents refused r want p st).2 in
      let g = pool_grow-Settled D r law no_extents refused want p st o k in
      let same : given r q ≡ mark out s = g.grown.same_use ∙ e in
      let more = (sweep_from q.n r false 0 need q.v).1 in
      let w = (sweep_from q.n r false 0 need q.v).0 in
      let y = sweep_from-Takes r c q.n q.n false 0 need q.v g.grown.order (omega arith) in
      let many = sweep_from-length r c q.n need q.v g.grown.order in
      let sum = length-append {0} out more in
      let fresh = Fresh-append out more s f (subst (Fresh more) same y.fresh) in
      let entered : in_use r w q.n ≡ mark (out ++ more) s =
        y.entered ∙ ap (mark more) same ∙ sym (mark-append out more s) in
      let known : InSet (record q { v = w }) (held t) =
        λ i x. ap (held t) (y.pages i) ∙ g.known i x in
      elim (Bool-cases grown) [
        | inr h ↦ rw h (undo-Taken n s out q t g.grown.order g.known f same)
        | inl h ↦ elim (Bool-cases (ltb (length more) need)) [
          | inl short ↦
              rw (h, short)
                (undo-Taken n s (out ++ more) (record q { v = w }) t y.order known fresh entered)
          | inr enough ↦
              rw (h, enough)
                (record {
                  order = y.order;
                  known = known;
                  answer = (ground (arith, sum, many, enough, l), fresh, entered);
                })
        ]
      ]

  -- A request to a pool in order leads to a pool in order, whose hugepages the driver holds for this
  -- process. Either it gets as many granules as it asks for, each of which was free when it was
  -- added, and they are what comes into use; or it gets nothing, and the granules in use are those
  -- that were before.
  pub pool_take-Taken :
      (no_extents : Bool) (refused : ℕ → Bool) (n : ℕ) (p : Pool) (st : St)
      → Ok r p.v p.n
      → InSet p (held st)
      → let (o, q, t) = pool_take D no_extents refused r n p st in Taken n (given r p) o q t
  unfolding pool_take sweep
  pool_take-Taken no_extents refused n p st o k =
      let s = given r p in
      let v1 = (sweep_from p.n r true 0 n p.v).0 in
      let out1 = (sweep_from p.n r true 0 n p.v).1 in
      let t1 = sweep_from-Takes r c p.n p.n true 0 n p.v o (omega arith) in
      let s1 = sweep_from-Swept r c p.n p.n true 0 n p.v in
      let v2 = (sweep_from p.n r false 0 (n - length out1) v1).0 in
      let out2 = (sweep_from p.n r false 0 (n - length out1) v1).1 in
      let t2 = sweep_from-Takes r c p.n p.n false 0 (n - length out1) v1 t1.order (omega arith) in
      let s2 = sweep_from-Swept r c p.n p.n false 0 (n - length out1) v1 in
      let t = Takes-append r p.n p.v v1 v2 out1 out2 t1 t2 in
      let sum = length-append {0} out1 out2 in
      let known : InSet (record p { v = v2 }) (held st) = λ i x. ap (held st) (t.pages i) ∙ k i x in
      elim (Bool-cases (ltb (length (out1 ++ out2)) n)) [
        | inl short ↦ rw short (
            take_new-Taken no_extents refused n s (out1 ++ out2) (record p { v = v2 }) st t.order
              known t.fresh t.entered (ground (arith, short)))
        | inr enough ↦ rw enough (record {
          order = t.order;
          known = known;
          answer = (ground (arith, sum, enough, s1.most, s2.most), t.fresh, t.entered);
        })
      ]

module _ (r : Region) (c : Cut r) {St : Type 0} (D : Source St) where
  -- Where the pool has as many free granules as are asked for, the request succeeds without a call
  -- of the driver.
  pub pool_take-enough :
      (no_extents : Bool) (refused : ℕ → Bool) (n : ℕ) (p : Pool) (st : St)
      → Ok r p.v p.n
      → n ≤ total r p.v p.n
      → (out : List ℕ) × (q : Pool) × (pool_take D no_extents refused r n p st ≡ (some out, q, st))
        × (length out ≡ n)
        × (total r q.v q.n + n ≡ total r p.v p.n)
  unfolding pool_take sweep
  pool_take-enough no_extents refused n p st o h =
      let v1 = (sweep_from p.n r true 0 n p.v).0 in
      let out1 = (sweep_from p.n r true 0 n p.v).1 in
      let t1 = sweep_from-Takes r c p.n p.n true 0 n p.v o (omega arith) in
      let s1 = sweep_from-Swept r c p.n p.n true 0 n p.v in
      let v2 = (sweep_from p.n r false 0 (n - length out1) v1).0 in
      let out2 = (sweep_from p.n r false 0 (n - length out1) v1).1 in
      let t2 = sweep_from-Takes r c p.n p.n false 0 (n - length out1) v1 t1.order (omega arith) in
      let many = sweep_from-length r c p.n (n - length out1) v1 t1.order in
      let sum = length-append {0} out1 out2 in
      let all : length (out1 ++ out2) ≡ n = omega (arith, sum, many, t1.left, s1.most, h) in
      let enough : ltb (length (out1 ++ out2)) n ≡ false = ground (arith, all) in
      (
        out1 ++ out2,
        record p { v = v2 },
        rw enough refl,
        all,
        omega (arith, t1.left, t2.left, sum, all),
      )
