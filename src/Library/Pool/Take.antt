-- ===== src/Library/Pool/Take.antt =====
-- `grab` and `sweep` of sw/lib/pim_alloc.c give out granules that were free, each once, and as many
-- as are asked for or there are.
use pim_sw.Common.{
  subst, update_ne, ◌≢◌, inr, update, inl, ◌==◌, Bool-cases, ltb, if◌then◌else◌, u32, add64,
  length-append, mark-append, sym, ap, Fresh-append, ◌∙◌, ℕ, zero, suc, ◌+◌, ◌-◌, ◌*◌, ◌^◌, ◌≤◌,
  ◌<◌, min, ◌≡◌, refl, Bool, true, false, List, [], ◌∷◌, ◌++◌, arith, length, mark, Fresh,
}
use pim_sw.Driver.Bitmap.{zeros-suc, zeros_mono, zeros-update, zeros-le, zeros}
use pim_sw.Library.Geometry.{Region}
use pim_sw.Library.Pool.{Hugepage, grab_from, set_gran}
use pim_sw.Library.Pool.Slots.{in_use-at, granule_inside, Cut, Ok, in_use}
use pim_sw.Library.Pool.Wrote.{wrote-here, wrote-in_use, wrote-addr, wrote-Ok, wrote}

-- How many granules of the first `n` hugepages are free.
unfoldable pub total : Region → (ℕ → Hugepage) → ℕ → ℕ
unfolding zeros
total r v zero = 0
total r v (suc n) = zeros (v n).used r.grans_per_hugepage + total r v n

-- Giving out `out` leads from `v` to `w`: the hugepages stay, the granules of `out` come into use
-- one by one, each having been free, and nothing else changes.
pub record Takes (r : Region) (n : ℕ) (v w : ℕ → Hugepage) (out : List ℕ) : Type 0 where
  pub order : Ok r w n
  pub pages : (i : ℕ) → (w i).addr ≡ (v i).addr
  pub fresh : Fresh out (in_use r v n)
  pub entered : in_use r w n ≡ mark out (in_use r v n)
  pub left : total r w n + length out ≡ total r v n

pub Takes-none : (r : Region) (n : ℕ) (v : ℕ → Hugepage) → Ok r v n → Takes r n v v []
Takes-none r n v o = record {
  order = o;
  pages = λ i. refl;
  fresh = tt;
  entered = refl;
  left = omega arith;
}

pub Takes-append :
    (r : Region) (n : ℕ) (u v w : ℕ → Hugepage) (xs ys : List ℕ)
    → Takes r n u v xs
    → Takes r n v w ys
    → Takes r n u w (xs ++ ys)
Takes-append r n u v w xs ys s t = record {
  order = t.order;
  pages = λ i. t.pages i ∙ s.pages i;
  fresh = Fresh-append xs ys (in_use r u n) s.fresh (rw s.entered at t.fresh);
  entered = t.entered ∙ ap (mark ys) s.entered ∙ sym (mark-append xs ys (in_use r u n));
  left = omega (arith, s.left, t.left, length-append {0} xs ys);
}

-- Writing one bit of hugepage `k` moves the total as it moves the count of that hugepage.
pub total-wrote :
    (r : Region) (v : ℕ → Hugepage) (k g free : ℕ) (b : Bool) (n : ℕ)
    → g < r.grans_per_hugepage
    → total r (wrote v k g b free) n + (if ltb k n then if (v k).used g then 0 else 1 else 0)
      ≡ total r v n + (if ltb k n then if b then 0 else 1 else 0)
unfolding total
total-wrote r v k g free b zero q = ground arith
total-wrote r v k g free b (suc n) q = elim (Bool-cases (n == k)) [
  | inl e ↦
      let s : n ≡ k = ground (arith, e) in
      ground (
        arith,
        s,
        total-wrote r v k g free b n q,
        zeros-update (v k).used g b r.grans_per_hugepage q,
      )
  | inr e ↦ ground (arith, e, total-wrote r v k g free b n q)
]

set_gran-here : (v : ℕ → Hugepage) (k g : ℕ) → (set_gran v k g k).used ≡ update (v k).used g true
unfolding set_gran
set_gran-here v k g = wrote-here v k g true (u32 ((v k).free_grans + 2 ^ 32 - 1))

set_gran-others : (v : ℕ → Hugepage) (k g j : ℕ) → j ≢ k → set_gran v k g j ≡ v j
unfolding set_gran
set_gran-others v k g j h = update_ne v k j _ h

module _ (r : Region) (c : Cut r) where
  -- One round of the loop of `grab`.
  pub set-Takes :
      (v : ℕ → Hugepage) (n k g : ℕ)
      → Ok r v n
      → k < n
      → g < r.grans_per_hugepage
      → (v k).used g ≡ false
      → Takes r n v (set_gran v k g) (add64 (v k).addr (g * r.gran) ∷ [])
  unfolding set_gran
  set-Takes v n k g o p q u =
      let free = u32 ((v k).free_grans + 2 ^ 32 - 1) in
      let word : add64 (v k).addr (g * r.gran) ≡ (v k).addr + g * r.gran =
        omega (arith, o.below k p, granule_inside r c g q, c.gran_pos) in
      let most = zeros-le (v k).used r.grans_per_hugepage in
      let moved = zeros-update (v k).used g true r.grans_per_hugepage q in
      let down : free ≡ zeros (update (v k).used g true) r.grans_per_hugepage =
        ground (arith, o.count k p, most, moved, u, c.few) in
      rw word (record {
        order = wrote-Ok r c v n k g true free o p down;
        pages = λ i. wrote-addr v k g true free i;
        fresh = (in_use-at r v n k g c o p q ∙ u, tt);
        entered = wrote-in_use r c v n k g true free o p q;
        left = ground (arith, total-wrote r v k g free true n q, u, p);
      })

  -- What the loop of `grab` does to its hugepage: how many it takes, and that it leaves the rest.
  pub record Grabbed (k g need : ℕ) (v w : ℕ → Hugepage) (out : List ℕ) : Type 0 where
    pub many : length out ≡ min need (zeros (v k).used r.grans_per_hugepage - zeros (v k).used g)
    pub page :
        zeros (w k).used r.grans_per_hugepage + length out ≡ zeros (v k).used r.grans_per_hugepage
    pub others : (j : ℕ) → j ≢ k → w j ≡ v j

  pub grab_from-Takes :
      (fuel : ℕ) (v : ℕ → Hugepage) (n k g need : ℕ)
      → Ok r v n
      → k < n
      → g + fuel ≡ r.grans_per_hugepage
      → Takes r n v (grab_from fuel r k g need v).0 (grab_from fuel r k g need v).1
  unfolding grab_from
  grab_from-Takes zero v n k g need o p q = Takes-none r n v o
  grab_from-Takes (suc fuel) v n k g need o p q = elim (Bool-cases (need == 0)) [
    | inl h ↦ rw h (Takes-none r n v o)
    | inr h ↦ elim (Bool-cases ((v k).used g)) [
      | inl u ↦ rw (h, u) (grab_from-Takes fuel v n k (g + 1) need o p (omega (arith, q)))
      | inr u ↦
          let w = set_gran v k g in
          let a = add64 (v k).addr (g * r.gran) in
          let s = set-Takes v n k g o p (omega (arith, q)) u in
          let t = grab_from-Takes fuel w n k (g + 1) (need - 1) s.order p (omega (arith, q)) in
          rw (h, u)
            (Takes-append r n v w (grab_from fuel r k (g + 1) (need - 1) w).0 (a ∷ [])
              (grab_from fuel r k (g + 1) (need - 1) w).1 s t)
    ]
  ]

  pub grab_from-Grabbed :
      (fuel : ℕ) (v : ℕ → Hugepage) (k g need : ℕ)
      → g + fuel ≡ r.grans_per_hugepage
      → Grabbed k g need v (grab_from fuel r k g need v).0 (grab_from fuel r k g need v).1
  unfolding grab_from
  grab_from-Grabbed zero v k g need q =
      let e : r.grans_per_hugepage ≡ g = omega (arith, q) in
      record { many = rw e (omega arith); page = omega arith; others = λ j h. refl }
  grab_from-Grabbed (suc fuel) v k g need q =
      let size = r.grans_per_hugepage in
      let e : g + 1 + fuel ≡ size = omega (arith, q) in
      let up : zeros (v k).used (g + 1) ≤ zeros (v k).used size =
        subst (λ t. zeros (v k).used (g + 1) ≤ zeros (v k).used t) e
          (zeros_mono (v k).used (g + 1) fuel) in
      let next = zeros-suc (v k).used g in
      elim (Bool-cases (need == 0)) [
        | inl h ↦
            rw h (record { many = ground (arith, h); page = omega arith; others = λ j x. refl })
        | inr h ↦ elim (Bool-cases ((v k).used g)) [
          | inl u ↦
              let ih = grab_from-Grabbed fuel v k (g + 1) need e in
              rw (h, u)
                (record {
                  many = ground (arith, ih.many, next, u);
                  page = ih.page;
                  others = ih.others;
                })
          | inr u ↦
              let w = set_gran v k g in
              let ih = grab_from-Grabbed fuel w k (g + 1) (need - 1) e in
              let here : (w k).used ≡ update (v k).used g true = set_gran-here v k g in
              let all = zeros-update (v k).used g true size (omega (arith, e)) in
              let one = zeros-update (v k).used g true (g + 1) (omega arith) in
              rw (h, u)
                (record {
                  many = ground (arith, h, rw here at ih.many, all, one, u, next, up);
                  page = ground (arith, rw here at ih.page, all, u);
                  others = λ j x. ih.others j x ∙ set_gran-others v k g j x;
                })
        ]
      ]
