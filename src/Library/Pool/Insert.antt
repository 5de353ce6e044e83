-- ===== src/Library/Pool/Insert.antt =====
-- `pool_insert` of sw/lib/pim_alloc.c adds a hugepage that is entirely free, at its place.
use mathlib.Core.Option.{some_inj}
use pim_sw.Common.{
  ◌&&◌, u32, if◌then◌else◌, subst, sym, ap, ◌∙◌, ℕ, zero, suc, ◌+◌, ◌-◌, ◌*◌, ◌≤◌, ◌<◌, ◌≡◌, ◌≢◌,
  ◌⊎◌, refl, Bool, true, false, some, arith, ltb, ◌==◌, Bool-cases, inl, inr, fun_ext,
}
use pim_sw.Driver.Bitmap.{zeros_of_empty}
use pim_sw.Library.Geometry.{Region}
use pim_sw.Library.Records.{bisect, insert_at}
use pim_sw.Library.Records.Search.{bisect-Border}
use pim_sw.Library.Pool.{Hugepage, Pool, pool_insert}
use pim_sw.Library.Pool.Supply.{Place}
use pim_sw.Library.Pool.Slots.{Ok, in_use, bool_ext, in_use-found, in_use-holds}
use pim_sw.Library.Pool.Take.{total}

-- Each hugepage of `v` that has a granule in use is one of `w`.
abbrev pub Within : ℕ → (ℕ → Hugepage) → ℕ → (ℕ → Hugepage) → ℕ → Type 0
Within gpb v n w m =
    (k : ℕ) → k < n → ((g : ℕ) → g < gpb → (v k).used g ≡ false) ⊎ ((i : ℕ) × (i < m) × (w i ≡ v k))

Within-Slot :
    (r : Region) (v : ℕ → Hugepage) (n : ℕ) (w : ℕ → Hugepage) (m : ℕ)
    → Within r.grans_per_hugepage v n w m
    → (a : ℕ) → in_use r v n a ≡ true
    → in_use r w m a ≡ true
Within-Slot r v n w m h a t =
    let (k, g, p, q, e, u) = in_use-found r v n a t in
    elim (h k p) [
      | inl clear ↦ absurd (ground (arith, clear g q, u))
      | inr (i, x, s) ↦
          in_use-holds r w m a
            (i, g, x, q, e ∙ ap (λ b. b.addr + g * r.gran) (sym s), ap (λ b. b.used g) s ∙ u)
    ]

-- Two arrays with the same hugepages, but for entirely free ones, have the same granules in use.
pub in_use-Within :
    (r : Region) (v : ℕ → Hugepage) (n : ℕ) (w : ℕ → Hugepage) (m : ℕ)
    → Within r.grans_per_hugepage v n w m
    → Within r.grans_per_hugepage w m v n
    → in_use r v n ≡ in_use r w m
in_use-Within r v n w m h k = fun_ext (λ a.
    bool_ext (in_use r v n a) (in_use r w m a) (Within-Slot r v n w m h a)
      (Within-Slot r w m v n k a))

-- Where an entry of the array with an insertion comes from.
insert_at-below :
    {A : Type 0} (lo : ℕ) (b : A) (f : ℕ → A) (j : ℕ) → j < lo → insert_at lo b f j ≡ f j
unfolding insert_at
insert_at-below lo b f j h = let e : ltb j lo ≡ true = ground arith in rw e refl

insert_at-here : {A : Type 0} (lo : ℕ) (b : A) (f : ℕ → A) → insert_at lo b f lo ≡ b
unfolding insert_at
insert_at-here lo b f =
    let e : ltb lo lo ≡ false = ground arith in
    let q : (lo == lo) ≡ true = ground arith in rw (e, q) refl

insert_at-above :
    {A : Type 0} (lo : ℕ) (b : A) (f : ℕ → A) (j : ℕ) → lo ≤ j → insert_at lo b f (suc j) ≡ f j
unfolding insert_at
insert_at-above lo b f j h =
    let e : ltb (suc j) lo ≡ false = ground arith in
    let q : (suc j == lo) ≡ false = ground arith in
    let d : suc j - 1 ≡ j = omega arith in rw (e, q) (ap f d)

-- The pool with one more hugepage, which is entirely free.
pub record Inserted (r : Region) (p : Pool) (a : ℕ) (q : Pool) : Type 0 where
  pub order : Ok r q.v q.n
  pub number : q.n ≡ p.n + 1
  pub same_use : in_use r q.v q.n ≡ in_use r p.v p.n
  pub more : total r q.v q.n ≡ total r p.v p.n + r.grans_per_hugepage
  pub entries :
      (i : ℕ) → i < q.n → ((q.v i).addr ≡ a) ⊎ ((k : ℕ) × (k < p.n) × ((q.v i).addr ≡ (p.v k).addr))

module _ (r : Region) (v : ℕ → Hugepage) (n a lo : ℕ) where
  abbrev new : Hugepage
  new = record { addr = a; used = λ _. false; free_grans = r.grans_per_hugepage }

  abbrev grown : ℕ → Hugepage
  grown = insert_at lo new v

  -- Where each entry comes from.
  data From (j : ℕ) : Type 0 where
    below : j < lo → j < n → grown j ≡ v j → From j
    here : j ≡ lo → grown j ≡ new → From j
    above : (k : ℕ) → j ≡ suc k → lo ≤ k → k < n → grown j ≡ v k → From j

  from : (j : ℕ) → lo ≤ n → j < n + 1 → From j
  from j x y = elim (Bool-cases (ltb j lo)) [
    | inl h ↦
        below (ground (arith, h)) (ground (arith, h))
          (insert_at-below lo new v j (ground (arith, h)))
    | inr h ↦ elim (Bool-cases (j == lo)) [
      | inl e ↦ let q : j ≡ lo = ground (arith, e) in here q (ap grown q ∙ insert_at-here lo new v)
      | inr e ↦
          let s : j ≡ suc (j - 1) = ground (arith, h, e) in
          above (j - 1) s (ground (arith, h, e)) (ground (arith, h, e))
            (ap grown s ∙ insert_at-above lo new v (j - 1) (ground (arith, h, e)))
    ]
  ]

  total-step :
      (m : ℕ)
      → grown (suc m) ≡ v m
      → total r grown (suc m) ≡ total r v m + r.grans_per_hugepage
      → total r grown (suc (suc m)) ≡ total r v (suc m) + r.grans_per_hugepage
  unfolding total
  total-step m e h = rw e (omega (arith, h))

  total-before : (m : ℕ) → m ≤ lo → total r grown m ≡ total r v m
  unfolding total
  total-before zero h = refl
  total-before (suc m) h =
      rw (insert_at-below lo new v m (omega arith)) (omega (arith, total-before m (omega arith)))

  total-at : (m : ℕ) → m ≡ lo → total r grown (suc m) ≡ total r v m + r.grans_per_hugepage
  unfolding total
  total-at m e =
      let w : grown m ≡ new = ap grown e ∙ insert_at-here lo new v in
      rw w (omega (arith, total-before m (omega (arith, e)), zeros_of_empty r.grans_per_hugepage))

  total-insert : (m : ℕ) → lo ≤ m → total r grown (suc m) ≡ total r v m + r.grans_per_hugepage
  total-insert zero h = total-at zero (omega (arith, h))
  total-insert (suc m) h = elim (Bool-cases (suc m == lo)) [
    | inl e ↦ total-at (suc m) (ground (arith, e))
    | inr e ↦
        let up : lo ≤ m = ground (arith, e, h) in
        total-step m (insert_at-above lo new v m up) (total-insert m up)
  ]

  total-more : lo ≤ n → total r grown (n + 1) ≡ total r v n + r.grans_per_hugepage
  total-more h = let e : n + 1 ≡ suc n = omega arith in rw e (total-insert n h)

  grown-Ok :
      Ok r v n
      → Place r a
      → lo ≤ n
      → ((i : ℕ) → i < lo → (v i).addr < a)
      → ((i : ℕ) → lo ≤ i → i < n → a < (v i).addr)
      → Ok r grown (n + 1)
  grown-Ok o pl x low high = record {
    sorted = λ i j p q. elim (from i x (omega (arith, p, q))) [
      | below s t e ↦ elim (from j x q) [
        | below s2 t2 e2 ↦ rw (e, e2) (o.sorted i j p t2)
        | here s2 e2 ↦ rw (e, e2) (low i s)
        | above k s2 t2 u2 e2 ↦ rw (e, e2) (o.sorted i k (omega (arith, s, t2)) u2)
      ]
      | here s e ↦ elim (from j x q) [
        | below s2 t2 e2 ↦ absurd (omega (arith, s, s2, p))
        | here s2 e2 ↦ absurd (omega (arith, s, s2, p))
        | above k s2 t2 u2 e2 ↦ rw (e, e2) (high k t2 u2)
      ]
      | above h s t u e ↦ elim (from j x q) [
        | below s2 t2 e2 ↦ absurd (omega (arith, s, s2, t, p))
        | here s2 e2 ↦ absurd (omega (arith, s, s2, t, p))
        | above k s2 t2 u2 e2 ↦ rw (e, e2) (o.sorted h k (omega (arith, s, s2, p)) u2)
      ]
    ];
    place = λ i p. elim (from i x p) [
      | below s t e ↦ rw e (o.place i t)
      | here s e ↦ rw e (pl.index, pl.place)
      | above k s t u e ↦ rw e (o.place k u)
    ];
    below = λ i p. elim (from i x p) [
      | below s t e ↦ rw e (o.below i t)
      | here s e ↦ rw e pl.below
      | above k s t u e ↦ rw e (o.below k u)
    ];
    count = λ i p. elim (from i x p) [
      | below s t e ↦ rw e (o.count i t)
      | here s e ↦ rw e (sym (zeros_of_empty r.grans_per_hugepage))
      | above k s t u e ↦ rw e (o.count k u)
    ];
  }

  grown-in_use : lo ≤ n → in_use r grown (n + 1) ≡ in_use r v n
  grown-in_use x =
      in_use-Within r grown (n + 1) v n
        (λ i p. elim (from i x p) [
          | below s t e ↦ inr (i, t, sym e)
          | here s e ↦ inl (λ g _. ap (λ b. b.used g) e)
          | above k s t u e ↦ inr (k, u, sym e)
        ])
        (λ k p. elim (Bool-cases (ltb k lo)) [
          | inl h ↦ inr (k, omega (arith, p), insert_at-below lo new v k (ground (arith, h)))
          | inr h ↦ inr (suc k, omega (arith, p), insert_at-above lo new v k (ground (arith, h)))
        ])

  grown-entries :
      lo ≤ n
      → (i : ℕ) → i < n + 1
      → ((grown i).addr ≡ a) ⊎ ((k : ℕ) × (k < n) × ((grown i).addr ≡ (v k).addr))
  grown-entries x i p = elim (from i x p) [
    | below s t e ↦ inr (i, t, ap (λ b. b.addr) e)
    | here s e ↦ inl (ap (λ b. b.addr) e)
    | above k s t u e ↦ inr (k, u, ap (λ b. b.addr) e)
  ]

-- A hugepage of the region that the pool does not have is added, entirely free, where there is
-- memory for it.
pub pool_insert-Inserted :
    (r : Region) (p : Pool) (a : ℕ) (refused : ℕ → Bool) (q : Pool)
    → Ok r p.v p.n
    → Place r a
    → ((i : ℕ) → i < p.n → (p.v i).addr ≢ a)
    → pool_insert refused r p a ≡ some q
    → Inserted r p a q
unfolding pool_insert
pool_insert-Inserted r p a refused q o pl fresh e =
    let before : ℕ → Bool = λ i. ltb (p.v i).addr a in
    let b =
      bisect-Border p.n before 0 p.n
        (λ i j x y h. elim (Bool-cases (i == j)) [
          | inl s ↦ let t : i ≡ j = ground (arith, s) in rw t h
          | inr s ↦ ground (arith, h, o.sorted i j (ground (arith, s, x)) y)
        ])
        (omega arith) (omega arith) in
    let lo = bisect p.n before 0 p.n in
    let full = p.n == p.cap in
    let cap = if p.cap == 0 then 16 else u32 (p.cap * 2) in
    elim (Bool-cases (full && refused cap)) [
      | inl h ↦ absurd (ground (arith, rw h at e))
      | inr h ↦
          let s = some_inj.0 (rw h at e) in
          subst (Inserted r p a) s (record {
            order =
                grown-Ok r p.v p.n a lo o pl b.high
                  (λ i x. ground (arith, b.holds i (omega arith) x))
                  (λ i x y. ground (arith, b.fails i x y, fresh i y));
            number = refl;
            same_use = grown-in_use r p.v p.n a lo b.high;
            more = total-more r p.v p.n a lo b.high;
            entries = grown-entries r p.v p.n a lo b.high;
          })
    ]
