-- ===== src/Library/Pool/Compact.antt =====
-- The loop at the end of `pim_pool_trim` of sw/lib/pim_alloc.c, which closes the gaps in the array.
use pim_sw.Common.{
  update_self, subst, sym, ◌∙◌, ap, update_ne, ℕ, zero, suc, ◌+◌, ◌≤◌, ◌<◌, ◌≡◌, Bool, true, false,
  arith, ltb, ◌==◌, Bool-cases, inl, inr, update,
}
use pim_sw.Driver.Bitmap.{zeros-above, zeros, zeros-full, zeros-reach, zeros-suc, zeros-le}
use pim_sw.Library.Geometry.{Region}
use pim_sw.Library.Pool.{Hugepage, compact}
use pim_sw.Library.Pool.Slots.{Cut, Ok, in_use}
use pim_sw.Library.Pool.Insert.{in_use-Within}

-- The loop that closes the gaps moves each entry that stays down by the number of those that go.
pub record Compacted (n : ℕ) (drop : ℕ → Bool) (v : ℕ → Hugepage) (res : (ℕ → Hugepage) × ℕ)
    : Type 0 where
  pub kept : res.1 ≡ zeros drop n
  pub moved : (j : ℕ) → j < n → drop j ≡ false → res.0 (zeros drop j) ≡ v j

compact_below : (drop : ℕ → Bool) (j i : ℕ) → j < i + 1 → drop j ≡ false → drop i ≡ true → j < i
compact_below drop j i x d u = elim (Bool-cases (j == i)) [
  | inl s ↦ let q : j ≡ i = ground (arith, s) in absurd (ground (arith, ap drop q, d, u))
  | inr s ↦ ground (arith, s, x)
]

pub compact-Compacted :
    (fuel i n : ℕ) (drop : ℕ → Bool) (v w : ℕ → Hugepage)
    → i + fuel ≡ n
    → ((j : ℕ) → j < i → drop j ≡ false → w (zeros drop j) ≡ v j)
    → ((j : ℕ) → i ≤ j → w j ≡ v j)
    → Compacted n drop v (compact fuel i (zeros drop i) drop w)
unfolding compact
compact-Compacted zero i n drop v w e before after =
    let q : n ≡ i = omega (arith, e) in
    record { kept = ap (zeros drop) (sym q); moved = λ j x u. before j (omega (arith, x, q)) u }
compact-Compacted (suc fuel) i n drop v w e before after =
    let next = zeros-suc drop i in
    let low = zeros-le drop i in
    elim (Bool-cases (drop i)) [
      | inl u ↦
          let k : zeros drop (i + 1) ≡ zeros drop i = ground (arith, next, u) in
          rw u (
            subst (λ t. Compacted n drop v (compact fuel (i + 1) t drop w)) k
              (compact-Compacted fuel (i + 1) n drop v w (omega (arith, e))
                (λ j x d. before j (compact_below drop j i x d u) d)
                (λ j x. after j (omega arith))))
      | inr u ↦
          let k : zeros drop (i + 1) ≡ zeros drop i + 1 = ground (arith, next, u) in
          let w2 = update w (zeros drop i) (w i) in
          rw u (
            subst (λ t. Compacted n drop v (compact fuel (i + 1) t drop w2)) k
              (compact-Compacted fuel (i + 1) n drop v w2 (omega (arith, e))
                (λ j x d. elim (Bool-cases (j == i)) [
                  | inl s ↦
                      let q : j ≡ i = ground (arith, s) in
                      subst (λ t. w2 (zeros drop t) ≡ v t) (sym q)
                        (update_self w (zeros drop i) (w i) ∙ after i (omega arith))
                  | inr s ↦
                      let y : j < i = ground (arith, s, x) in
                      update_ne w (zeros drop i) (zeros drop j) (w i)
                        (omega (arith, zeros-above drop j i d y))
                      ∙ before j y d
                ])
                (λ j x.
                  update_ne w (zeros drop i) j (w i) (omega (arith, low, x))
                  ∙ after j (omega (arith, x)))))
    ]

-- The pool without the marked hugepages.
module _ (r : Region) (c : Cut r) (v : ℕ → Hugepage) (n : ℕ) (drop : ℕ → Bool) where
  module _ (w : ℕ → Hugepage) (m : ℕ) (z : Compacted n drop v (w, m)) where
    -- Where an entry that stays was.
    pub stays :
        (i : ℕ) → i < m → (j : ℕ) × (j < n) × (drop j ≡ false) × (zeros drop j ≡ i) × (w i ≡ v j)
    stays i x =
        let (j, y, d, e) = zeros-reach drop n i (subst (λ t. i < t) z.kept x) in
        (j, y, d, e, ap w (sym e) ∙ z.moved j y d)

    stays-order :
        (i j a b : ℕ) → zeros drop a ≡ i → zeros drop b ≡ j → i < j → drop b ≡ false → a < b
    stays-order i j a b e f x d = elim (Bool-cases (ltb a b)) [
      | inl h ↦ ground (arith, h)
      | inr h ↦ elim (Bool-cases (a == b)) [
        | inl s ↦
            let q : a ≡ b = ground (arith, s) in absurd (omega (arith, ap (zeros drop) q, e, f, x))
        | inr s ↦ absurd (omega (arith, zeros-above drop b a d (ground (arith, h, s)), e, f, x))
      ]
    ]

    pub compact-Ok : Ok r v n → Ok r w m
    compact-Ok o = record {
      sorted = λ i j x y.
          let (a, p, d, e, s) = stays i (omega (arith, x, y)) in
          let (b, q, g, f, t) = stays j y in
          rw (s, t) (o.sorted a b (stays-order i j a b e f x g) q);
      place = λ i x. let (a, p, d, e, s) = stays i x in rw s (o.place a p);
      below = λ i x. let (a, p, d, e, s) = stays i x in rw s (o.below a p);
      count = λ i x. let (a, p, d, e, s) = stays i x in rw s (o.count a p);
    }

    pub compact-in_use :
        Ok r v n
        → ((j : ℕ) → drop j ≡ true → (v j).free_grans ≡ r.grans_per_hugepage)
        → in_use r w m ≡ in_use r v n
    compact-in_use o empty =
        in_use-Within r w m v n (λ i x. let (a, p, d, e, s) = stays i x in inr (a, p, sym s))
          (λ k x. elim (Bool-cases (drop k)) [
            | inl d ↦ inl (λ g y.
                zeros-full (v k).used r.grans_per_hugepage g (sym (o.count k x) ∙ empty k d) y)
            | inr d ↦ inr (
              zeros drop k,
              subst (λ t. zeros drop k < t) (sym z.kept) (zeros-above drop k n d x),
              z.moved k x d,
            )
          ])
