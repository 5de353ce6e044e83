-- ===== src/Library/Pool/Slots.antt =====
-- Which granules a pool of sw/lib/pim_alloc.c has given out, described without its search, and that
-- the search of `hugepage_find` agrees with that.
use native.Mathlib.Nat.{mul-le-mul_right}
use pim_sw.Common.{
  ◌∙◌, sym, ◌&&◌, ◌||◌, ◌==◌, ap, block_le, div_of_parts, inr, inl, Bool-cases, ℕ, zero, suc, ◌+◌,
  ◌*◌, ◌/◌, ◌^◌, ◌≤◌, ◌<◌, ◌≡◌, refl, Bool, true, false, arith, ltb,
}
use pim_sw.Driver.Bitmap.{zeros}
use pim_sw.Library.Geometry.{Region}
use pim_sw.Library.Pool.{Hugepage}

-- The hugepages of the region are cut into granules without a rest.
pub record Cut (r : Region) : Type 0 where
  pub gran_pos : 0 < r.gran
  pub few : r.grans_per_hugepage ≤ 64
  pub whole : r.grans_per_hugepage * r.gran ≡ r.hugepage_bytes
  pub some_bytes : 0 < r.hugepage_bytes

-- The array is sorted, each entry is a hugepage of the region, and `free_grans` is the number of
-- its bits that are clear.
pub record Ok (r : Region) (v : ℕ → Hugepage) (n : ℕ) : Type 0 where
  pub sorted : (i j : ℕ) → i < j → j < n → (v i).addr < (v j).addr
  pub place : (i : ℕ) → i < n → (m : ℕ) × ((v i).addr ≡ r.base + m * r.hugepage_bytes)
  pub below : (i : ℕ) → i < n → (v i).addr + r.hugepage_bytes < 2 ^ 64
  pub count : (i : ℕ) → i < n → (v i).free_grans ≡ zeros (v i).used r.grans_per_hugepage

-- One of the first `g` granules of the hugepage is in use and begins at `a`.
abbrev pub page_has : ℕ → ℕ → Hugepage → ℕ → Bool
page_has zero gran h a = false
page_has (suc g) gran h a = a == h.addr + g * gran && h.used g || page_has g gran h a

-- A granule in use of one of the first `n` hugepages begins at `a`.
abbrev pub in_use : Region → (ℕ → Hugepage) → ℕ → ℕ → Bool
in_use r v zero a = false
in_use r v (suc n) a = page_has r.grans_per_hugepage r.gran (v n) a || in_use r v n a

-- The place of a granule in use.
abbrev pub Slot : Region → (ℕ → Hugepage) → ℕ → ℕ → Type 0
Slot r v n a =
    (k : ℕ) × (g : ℕ) × (k < n)
    × (g < r.grans_per_hugepage)
    × (a ≡ (v k).addr + g * r.gran)
    × ((v k).used g ≡ true)

page_has-holds :
    (n gran : ℕ) (h : Hugepage) (g : ℕ)
    → g < n
    → h.used g ≡ true
    → page_has n gran h (h.addr + g * gran) ≡ true
page_has-holds zero gran h g p u = absurd (omega arith)
page_has-holds (suc n) gran h g p u = elim (Bool-cases (g == n)) [
  | inl e ↦ let q : g ≡ n = ground (arith, e) in ground (arith, q, u)
  | inr e ↦ ground (arith, page_has-holds n gran h g (ground (arith, e)) u)
]

page_has-found :
    (n gran : ℕ) (h : Hugepage) (a : ℕ)
    → page_has n gran h a ≡ true
    → (g : ℕ) × (g < n) × (a ≡ h.addr + g * gran) × (h.used g ≡ true)
page_has-found zero gran h a e = absurd (ground (arith, e))
page_has-found (suc n) gran h a e = elim (Bool-cases (a == h.addr + n * gran && h.used n)) [
  | inl here ↦ (n, omega arith, ground (arith, here), ground (arith, here))
  | inr no_here ↦
      let (g, p, q, u) = page_has-found n gran h a (ground (arith, e, no_here)) in
      (g, omega (arith, p), q, u)
]

pub in_use-holds : (r : Region) (v : ℕ → Hugepage) (n a : ℕ) → Slot r v n a → in_use r v n a ≡ true
in_use-holds r v zero a (k, g, p, q, e, u) = absurd (omega arith)
in_use-holds r v (suc n) a (k, g, p, q, e, u) = elim (Bool-cases (k == n)) [
  | inl last ↦
      let s : k ≡ n = ground (arith, last) in
      let h : page_has r.grans_per_hugepage r.gran (v n) ((v n).addr + g * r.gran) ≡ true =
        page_has-holds r.grans_per_hugepage r.gran (v n) g q (rw s at u) in
      let e2 : a ≡ (v n).addr + g * r.gran = rw s at e in rw (e2, h) refl
  | inr other ↦ ground (arith, in_use-holds r v n a (k, g, ground (arith, other), q, e, u))
]

pub in_use-found : (r : Region) (v : ℕ → Hugepage) (n a : ℕ) → in_use r v n a ≡ true → Slot r v n a
in_use-found r v zero a e = absurd (ground (arith, e))
in_use-found r v (suc n) a e = elim (Bool-cases (page_has r.grans_per_hugepage r.gran (v n) a)) [
  | inl here ↦
      let (g, p, q, u) = page_has-found r.grans_per_hugepage r.gran (v n) a here in
      (n, g, omega arith, p, q, u)
  | inr no_here ↦
      let (k, g, p, q, s, u) = in_use-found r v n a (ground (arith, e, no_here)) in
      (k, g, omega (arith, p), q, s, u)
]

-- Two tests that hold at once are equal.
pub bool_ext : (b c : Bool) → (b ≡ true → c ≡ true) → (c ≡ true → b ≡ true) → b ≡ c
bool_ext b c f g = ground (arith, f, g)

mul_cancel : (a b n : ℕ) → 0 < n → a * n ≡ b * n → a ≡ b
mul_cancel a b n p e =
    sym (div_of_parts a 0 n p) ∙ ap (λ (t : ℕ). (t + 0) / n) e ∙ div_of_parts b 0 n p

module _ (r : Region) (c : Cut r) where
  -- Two hugepages of a pool do not overlap.
  pub gap :
      (v : ℕ → Hugepage) (n i j : ℕ)
      → Ok r v n
      → i < j
      → j < n
      → (v i).addr + r.hugepage_bytes ≤ (v j).addr
  gap v n i j o p q =
      let (a, e) = o.place i (omega arith) in
      let (b, f) = o.place j q in
      let most : a < b = elim (Bool-cases (ltb a b)) [
        | inl w ↦ ground (arith, w)
        | inr w ↦ absurd (
            omega (
              arith,
              e,
              f,
              o.sorted i j p q,
              mul-le-mul_right {m = b} {n = a} r.hugepage_bytes (ground (arith, w)),
            ))
      ] in
      omega (arith, e, f, block_le a b r.hugepage_bytes most)

  -- A granule lies within its hugepage.
  pub granule_inside : (g : ℕ) → g < r.grans_per_hugepage → g * r.gran + r.gran ≤ r.hugepage_bytes
  granule_inside g p = omega (arith, block_le g r.grans_per_hugepage r.gran p, c.whole)

  -- A granule has one place.
  pub place_unique :
      (v : ℕ → Hugepage) (n i j g h : ℕ)
      → Ok r v n
      → i < n
      → j < n
      → g < r.grans_per_hugepage
      → h < r.grans_per_hugepage
      → (v i).addr + g * r.gran ≡ (v j).addr + h * r.gran
      → (i ≡ j) × (g ≡ h)
  place_unique v n i j g h o p q s t e =
      let inside_g = granule_inside g s in
      let inside_h = granule_inside h t in
      elim (Bool-cases (ltb i j)) [
        | inl w ↦
            absurd (omega (arith, gap v n i j o (ground (arith, w)) q, e, inside_g, c.gran_pos))
        | inr w ↦ elim (Bool-cases (ltb j i)) [
          | inl x ↦
              absurd (omega (arith, gap v n j i o (ground (arith, x)) p, e, inside_h, c.gran_pos))
          | inr x ↦
              let same : i ≡ j = ground (arith, w, x) in
              let base : (v i).addr ≡ (v j).addr = ap (λ m. (v m).addr) same in
              let times : g * r.gran ≡ h * r.gran = omega (arith, e, base) in
              (same, mul_cancel g h r.gran c.gran_pos times)
        ]
      ]

-- The search over all hugepages reads the bit of a granule.
pub in_use-at :
    (r : Region) (v : ℕ → Hugepage) (n k g : ℕ)
    → Cut r
    → Ok r v n
    → k < n
    → g < r.grans_per_hugepage
    → in_use r v n ((v k).addr + g * r.gran) ≡ (v k).used g
in_use-at r v n k g c o p q =
    bool_ext _ _
      (λ t.
        let (i, h, x, y, e, u) = in_use-found r v n ((v k).addr + g * r.gran) t in
        let (si, sh) = place_unique r c v n k i g h o p x q y e in rw (si, sh) u)
      (λ t. in_use-holds r v n ((v k).addr + g * r.gran) (k, g, p, q, refl, t))
