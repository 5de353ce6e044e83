-- ===== src/Library/Pool/Sweep.antt =====
-- `sweep` of sw/lib/pim_alloc.c gives out granules that were free, and all of them where it does not
-- find enough.
use pim_sw.Common.{
  inr, ltb, inl, Bool-cases, ◌∙◌, ℕ, zero, suc, ◌+◌, ◌-◌, ◌≤◌, ◌<◌, min, ◌≡◌, ◌≢◌, refl, Bool,
  false, List, [], ◌++◌, arith, length, if_ind, ◌==◌, ◌&&◌, ◌||◌, if◌then◌else◌, length-append,
}
use pim_sw.Driver.Bitmap.{zeros-zero, zeros}
use pim_sw.Library.Geometry.{Region}
use pim_sw.Library.Pool.{Hugepage, grab, sweep_from}
use pim_sw.Library.Pool.Slots.{Cut, Ok}
use pim_sw.Library.Pool.Take.{
  Takes, Takes-none, Takes-append, total, grab_from-Takes, grab_from-Grabbed,
}

-- What one round of the loop of `sweep` does to hugepage `i`.
abbrev visit : Region → Bool → ℕ → ℕ → (ℕ → Hugepage) → (ℕ → Hugepage) × List ℕ
visit r partial_only i need v =
    let free = (v i).free_grans in
    let skip = free == 0 || partial_only && free == r.grans_per_hugepage in
    if skip then (v, []) else grab r i need v

module _ (r : Region) (c : Cut r) (n : ℕ) where
  visit-Takes :
      (partial_only : Bool) (i need : ℕ) (v : ℕ → Hugepage)
      → Ok r v n
      → i < n
      → Takes r n v (visit r partial_only i need v).0 (visit r partial_only i need v).1
  unfolding grab
  visit-Takes partial_only i need v o p =
      if_ind (λ (y : (ℕ → Hugepage) × List ℕ). Takes r n v y.0 y.1) _ (v, []) (grab r i need v)
        (λ _. Takes-none r n v o)
        (λ _. grab_from-Takes r c r.grans_per_hugepage v n i 0 need o p (omega arith))

  pub sweep_from-Takes :
      (fuel : ℕ) (partial_only : Bool) (i need : ℕ) (v : ℕ → Hugepage)
      → Ok r v n
      → i + fuel ≡ n
      → Takes r n v
          (sweep_from fuel r partial_only i need v).0
          (sweep_from fuel r partial_only i need v).1
  unfolding sweep_from
  sweep_from-Takes zero partial_only i need v o e = Takes-none r n v o
  sweep_from-Takes (suc fuel) partial_only i need v o e =
      let (w, here) = visit r partial_only i need v in
      let s = visit-Takes partial_only i need v o (omega (arith, e)) in
      let t =
        sweep_from-Takes fuel partial_only (i + 1) (need - length here) w s.order
          (omega (arith, e)) in
      let rest = sweep_from fuel r partial_only (i + 1) (need - length here) w in
      if_ind (λ (y : (ℕ → Hugepage) × List ℕ). Takes r n v y.0 y.1) (need == 0) (v, [])
        (rest.0, here ++ rest.1) (λ _. Takes-none r n v o)
        (λ _. Takes-append r n v w rest.0 here rest.1 s t)

  -- What one round leaves alone, that it takes no more than is asked for, and that it takes all
  -- there is where that is less.
  record Visited (i need : ℕ) (v w : ℕ → Hugepage) (out : List ℕ) : Type 0 where
    pub most : length out ≤ need
    others : (j : ℕ) → j ≢ i → w j ≡ v j

  visit-Visited :
      (partial_only : Bool) (i need : ℕ) (v : ℕ → Hugepage)
      → Visited i need v (visit r partial_only i need v).0 (visit r partial_only i need v).1
  unfolding grab
  visit-Visited partial_only i need v =
      if_ind (λ (y : (ℕ → Hugepage) × List ℕ). Visited i need v y.0 y.1) _ (v, []) (grab r i need v)
        (λ _. record { most = omega arith; others = λ j h. refl })
        (λ _.
          let b = grab_from-Grabbed r c r.grans_per_hugepage v i 0 need (omega arith) in
          record { most = omega (arith, b.many); others = b.others })

  visit-empties :
      (i need : ℕ) (v : ℕ → Hugepage)
      → Ok r v n
      → i < n
      → length (visit r false i need v).1 < need
      → zeros ((visit r false i need v).0 i).used r.grans_per_hugepage ≡ 0
  unfolding grab
  visit-empties i need v o p =
      if_ind
        (λ (y : (ℕ → Hugepage) × List ℕ).
          length y.1 < need → zeros (y.0 i).used r.grans_per_hugepage ≡ 0)
        _ (v, []) (grab r i need v) (λ h l. ground (arith, h, o.count i p))
        (λ h l.
          let b = grab_from-Grabbed r c r.grans_per_hugepage v i 0 need (omega arith) in
          omega (arith, b.many, b.page, l, zeros-zero (v i).used))

  pub record Swept (i need : ℕ) (v w : ℕ → Hugepage) (out : List ℕ) : Type 0 where
    pub most : length out ≤ need
    pub before : (j : ℕ) → j < i → w j ≡ v j

  pub sweep_from-Swept :
      (fuel : ℕ) (partial_only : Bool) (i need : ℕ) (v : ℕ → Hugepage)
      → Swept i need v
          (sweep_from fuel r partial_only i need v).0
          (sweep_from fuel r partial_only i need v).1
  unfolding sweep_from
  sweep_from-Swept zero partial_only i need v = record { most = omega arith; before = λ j h. refl }
  sweep_from-Swept (suc fuel) partial_only i need v =
      let (w, here) = visit r partial_only i need v in
      let s = visit-Visited partial_only i need v in
      let t = sweep_from-Swept fuel partial_only (i + 1) (need - length here) w in
      let rest = sweep_from fuel r partial_only (i + 1) (need - length here) w in
      if_ind (λ (y : (ℕ → Hugepage) × List ℕ). Swept i need v y.0 y.1) (need == 0) (v, [])
        (rest.0, here ++ rest.1) (λ _. record { most = omega arith; before = λ j h. refl })
        (λ _. record {
          most = omega (arith, s.most, t.most, length-append {0} here rest.1);
          before = λ j h. t.before j (omega (arith, h)) ∙ s.others j (omega (arith, h));
        })

  -- A sweep over all hugepages that finds too little leaves no granule free.
  sweep_from-empties :
      (fuel i need : ℕ) (v : ℕ → Hugepage)
      → Ok r v n
      → i + fuel ≡ n
      → length (sweep_from fuel r false i need v).1 < need
      → (j : ℕ) → i ≤ j
      → j < n
      → zeros ((sweep_from fuel r false i need v).0 j).used r.grans_per_hugepage ≡ 0
  unfolding sweep_from
  sweep_from-empties zero i need v o e l j p q = absurd (omega (arith, e, p, q))
  sweep_from-empties (suc fuel) i need v o e l j p q = elim (Bool-cases (need == 0)) [
    | inl h ↦ absurd (ground (arith, h, l))
    | inr h ↦
        let (w, here) = visit r false i need v in
        let s = visit-Takes false i need v o (omega (arith, e)) in
        let rest = sweep_from fuel r false (i + 1) (need - length here) w in
        let t = sweep_from-Swept fuel false (i + 1) (need - length here) w in
        let short : length (here ++ rest.1) < need = rw h at l in
        let sum = length-append {0} here rest.1 in
        rw h (elim (Bool-cases (j == i)) [
          | inl same ↦
              let a : j ≡ i = ground (arith, same) in
              rw (a, t.before i (omega arith))
                (visit-empties i need v o (omega (arith, e)) (omega (arith, short, sum)))
          | inr other ↦
              sweep_from-empties fuel (i + 1) (need - length here) w s.order (omega (arith, e))
                (omega (arith, short, sum)) j (ground (arith, other, p)) q
        ])
  ]

  total-empty :
      (w : ℕ → Hugepage) (m : ℕ)
      → ((j : ℕ) → j < m → zeros (w j).used r.grans_per_hugepage ≡ 0)
      → total r w m ≡ 0
  unfolding total
  total-empty w zero h = omega arith
  total-empty w (suc m) h =
      omega (arith, h m (omega arith), total-empty w m (λ j p. h j (omega arith)))

  -- `sweep` over all hugepages takes what is asked for or all there is, whichever is less.
  pub sweep_from-length :
      (need : ℕ) (v : ℕ → Hugepage)
      → Ok r v n
      → length (sweep_from n r false 0 need v).1 ≡ min need (total r v n)
  sweep_from-length need v o =
      let out = (sweep_from n r false 0 need v).1 in
      let w = (sweep_from n r false 0 need v).0 in
      let t = sweep_from-Takes n false 0 need v o (omega arith) in
      let s = sweep_from-Swept n false 0 need v in
      elim (Bool-cases (ltb (length out) need)) [
        | inl short ↦
            let none_left : total r w n ≡ 0 = total-empty w n (λ j q.
              sweep_from-empties n 0 need v o (omega arith) (ground (arith, short)) j (omega arith)
                q) in
            omega (arith, none_left, t.left, s.most)
        | inr enough ↦ ground (arith, enough, t.left, s.most)
      ]
