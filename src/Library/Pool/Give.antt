-- ===== src/Library/Pool/Give.antt =====
-- `pool_give` of sw/lib/pim_alloc.c takes the granules that it is given out of use, and no other.
use pim_sw.Common.{
  some, subst, sym, ap, ◌∙◌, All-map, ℕ, ◌+◌, ◌*◌, ◌<◌, ◌≡◌, refl, Bool, false, List, [], ◌∷◌, All,
  arith, unmark, update, u32, Bool-cases, inl, inr, fun_ext, ◌==◌,
}
use pim_sw.Driver.Bitmap.{zeros-le, zeros-update, zeros}
use pim_sw.Library.Geometry.{Region}
use pim_sw.Library.Pool.{
  Hugepage, Pool, give_one, give_at, hugepage_find, gran_of, pool_give, clear_gran,
}
use pim_sw.Library.Pool.Slots.{Cut, Ok, in_use, in_use-at}
use pim_sw.Library.Pool.Wrote.{wrote-Ok, wrote-addr, wrote-in_use}
use pim_sw.Library.Pool.Find.{hugepage_find-there, place_of-granule}

-- The address of a granule of one of the first `n` hugepages.
abbrev pub Granule : Region → (ℕ → Hugepage) → ℕ → ℕ → Type 0
Granule r v n a =
    (k : ℕ) × (g : ℕ) × (k < n) × (g < r.grans_per_hugepage) × (a ≡ (v k).addr + g * r.gran)

-- Taking `l` out of use leads from `p` to `q`: the hugepages stay, and nothing else changes.
pub record Gives (r : Region) (p q : Pool) (l : List ℕ) : Type 0 where
  pub order : Ok r q.v q.n
  pub number : q.n ≡ p.n
  pub pages : (i : ℕ) → (q.v i).addr ≡ (p.v i).addr
  pub left : in_use r q.v q.n ≡ unmark l (in_use r p.v p.n)

update_same : (s : ℕ → Bool) (a : ℕ) (b : Bool) → s a ≡ b → s ≡ update s a b
update_same s a b h = fun_ext (λ x. elim (Bool-cases (x == a)) [
  | inl e ↦ let q : x ≡ a = ground (arith, e) in rw (e, q) h
  | inr e ↦ rw e refl
])

module _ (r : Region) (c : Cut r) where
  give_at-Gives :
      (p : Pool) (k g : ℕ)
      → Ok r p.v p.n
      → k < p.n
      → g < r.grans_per_hugepage
      → Gives r p (give_at p (some k) g) (((p.v k).addr + g * r.gran) ∷ [])
  unfolding give_at clear_gran
  give_at-Gives p k g o x y =
      let at = in_use-at r p.v p.n k g c o x y in
      let moved = zeros-update (p.v k).used g false r.grans_per_hugepage y in
      let most = zeros-le (update (p.v k).used g false) r.grans_per_hugepage in
      elim (Bool-cases ((p.v k).used g)) [
        | inl u ↦
            let up : u32 ((p.v k).free_grans + 1)
                ≡ zeros (update (p.v k).used g false) r.grans_per_hugepage =
              ground (arith, o.count k x, moved, most, u, c.few) in
            rw u (record {
              order = wrote-Ok r c p.v p.n k g false _ o x up;
              number = refl;
              pages = λ i. wrote-addr p.v k g false _ i;
              left = wrote-in_use r c p.v p.n k g false _ o x y;
            })
        | inr u ↦ rw u (record {
          order = o;
          number = refl;
          pages = λ i. refl;
          left = update_same (in_use r p.v p.n) ((p.v k).addr + g * r.gran) false (at ∙ u);
        })
      ]

  give_one-Gives :
      (p : Pool) (a : ℕ) → Ok r p.v p.n → Granule r p.v p.n a → Gives r p (give_one r p a) (a ∷ [])
  unfolding give_one
  give_one-Gives p a o (k, g, x, y, e) =
      let b = (p.v k).addr + g * r.gran in
      let (page, gran) = place_of-granule r p.v p.n k g c o x y in
      let step : give_one r p b ≡ give_at p (some k) g =
        ap (λ t. give_at p (hugepage_find p t) (gran_of r b)) page
        ∙ ap (λ t. give_at p t (gran_of r b)) (hugepage_find-there r p k o x)
        ∙ ap (give_at p (some k)) gran in
      subst (λ t. Gives r p (give_one r p t) (t ∷ [])) (sym e)
        (subst (λ q. Gives r p q (b ∷ [])) (sym step) (give_at-Gives p k g o x y))

  -- Granules of the pool's hugepages that are given back leave use, one after another, and nothing
  -- else changes.
  pub pool_give-Gives :
      (l : List ℕ) (p : Pool)
      → Ok r p.v p.n
      → All (Granule r p.v p.n) l
      → Gives r p (pool_give r p l) l
  unfolding pool_give
  pool_give-Gives [] p o h = record { order = o; number = refl; pages = λ i. refl; left = refl }
  pool_give-Gives (a ∷ l) p o (h, hs) =
      let one = give_one-Gives p a o h in
      let q = give_one r p a in
      let rest = pool_give-Gives l q one.order (
        All-map (Granule r p.v p.n) (Granule r q.v q.n) l
          (λ x (k, g, s, t, e).
            (k, g, rw one.number s, t, e ∙ ap (λ m. m + g * r.gran) (sym (one.pages k))))
          hs) in
      record {
        order = rest.order;
        number = rest.number ∙ one.number;
        pages = λ i. rest.pages i ∙ one.pages i;
        left = rest.left ∙ ap (unmark l) one.left;
      }
