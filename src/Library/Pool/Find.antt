-- ===== src/Library/Pool/Find.antt =====
-- `hugepage_find` of sw/lib/pim_alloc.c finds the entry with an address, and `pool_give` computes
-- the place of a granule from its address.
use mathlib.Core.Option.{some_inj}
use pim_sw.Common.{
  div_of_parts, mod_of_parts, ◌∙◌, ap, ℕ, zero, suc, ◌+◌, ◌-◌, ◌*◌, ◌/◌, ◌%◌, ◌≤◌, ◌<◌, ◌≡◌, true,
  false, some, arith, ltb, Bool-cases, inl, inr, sub64, u32, ◌==◌,
}
use pim_sw.Library.Geometry.{Region}
use pim_sw.Library.Pool.{Hugepage, Pool, find_from, hugepage_find, page_of, gran_of}
use pim_sw.Library.Pool.Slots.{Cut, Ok, granule_inside}

pub find_from-found :
    (fuel : ℕ) (v : ℕ → Hugepage) (a lo hi k : ℕ)
    → find_from fuel v a lo hi ≡ some k
    → (lo ≤ k) × (k < hi) × ((v k).addr ≡ a)
unfolding find_from
find_from-found zero v a lo hi k e = absurd (ground (arith, e))
find_from-found (suc fuel) v a lo hi k e = elim (Bool-cases (ltb lo hi)) [
  | inr h ↦ absurd (ground (arith, rw h at e))
  | inl h ↦
      let mid = lo + (hi - lo) / 2 in
      elim (Bool-cases ((v mid).addr == a)) [
        | inl s ↦
            let same : mid ≡ k = some_inj.0 (rw (h, s) at e) in
            rw (← same) (omega arith, ground (arith, h), ground (arith, s))
        | inr s ↦ elim (Bool-cases (ltb (v mid).addr a)) [
          | inl l ↦
              let (x, y, z) = find_from-found fuel v a (mid + 1) hi k (rw (h, s, l) at e) in
              (omega (arith, x), y, z)
          | inr l ↦
              let (x, y, z) = find_from-found fuel v a lo mid k (rw (h, s, l) at e) in
              (x, ground (arith, y, h), z)
        ]
      ]
]

pub find_from-there :
    (fuel : ℕ) (v : ℕ → Hugepage) (n lo hi k : ℕ)
    → ((i j : ℕ) → i < j → j < n → (v i).addr < (v j).addr)
    → hi ≤ n
    → hi ≤ lo + fuel
    → lo ≤ k
    → k < hi
    → find_from fuel v (v k).addr lo hi ≡ some k
unfolding find_from
find_from-there zero v n lo hi k sorted x y p q = absurd (omega (arith, y, p, q))
find_from-there (suc fuel) v n lo hi k sorted x y p q =
    let mid = lo + (hi - lo) / 2 in
    let h : ltb lo hi ≡ true = ground (arith, p, q) in
    elim (Bool-cases (ltb mid k)) [
      | inl up ↦
          let less = sorted mid k (ground (arith, up)) (omega (arith, q, x)) in
          let s : ((v mid).addr == (v k).addr) ≡ false = ground (arith, less) in
          let l : ltb (v mid).addr (v k).addr ≡ true = ground (arith, less) in
          rw (h, s, l)
            (find_from-there fuel v n (mid + 1) hi k sorted x (omega (arith, y))
              (ground (arith, up)) q)
      | inr notup ↦ elim (Bool-cases (mid == k)) [
        | inl here ↦
            let e : mid ≡ k = ground (arith, here) in
            let s : ((v mid).addr == (v k).addr) ≡ true = rw e (ground arith) in
            rw (h, s) (ap some e)
        | inr down ↦
            let below : k < mid = ground (arith, notup, down) in
            let less = sorted k mid below (omega (arith, x, p, q)) in
            let s : ((v mid).addr == (v k).addr) ≡ false = ground (arith, less) in
            let l : ltb (v mid).addr (v k).addr ≡ false = ground (arith, less) in
            rw (h, s, l)
              (find_from-there fuel v n lo mid k sorted (omega (arith, x, p, q))
                (omega (arith, y, p, q)) p below)
      ]
    ]

pub hugepage_find-there :
    (r : Region) (p : Pool) (k : ℕ) → Ok r p.v p.n → k < p.n → hugepage_find p (p.v k).addr ≡ some k
unfolding hugepage_find
hugepage_find-there r p k o h =
    find_from-there p.n p.v p.n 0 p.n k o.sorted (omega arith) (omega arith) (omega arith) h

-- The place that `pool_give` computes for the address of a granule.
pub place_of-granule :
    (r : Region) (v : ℕ → Hugepage) (n k g : ℕ)
    → Cut r
    → Ok r v n
    → k < n
    → g < r.grans_per_hugepage
    → let a = (v k).addr + g * r.gran in (page_of r a ≡ (v k).addr) × (gran_of r a ≡ g)
unfolding page_of gran_of
place_of-granule r v n k g c o p q =
    let a = (v k).addr + g * r.gran in
    let (m, e) = o.place k p in
    let room = granule_inside r c g q in
    let off : sub64 a r.base ≡ m * r.hugepage_bytes + g * r.gran =
      omega (arith, e, o.below k p, room, c.gran_pos) in
    let low : sub64 a r.base % r.hugepage_bytes ≡ g * r.gran =
      ap (λ t. t % r.hugepage_bytes) off
      ∙ mod_of_parts m (g * r.gran) r.hugepage_bytes (omega (arith, room, c.gran_pos)) in
    let page : sub64 a (sub64 a r.base % r.hugepage_bytes) ≡ (v k).addr =
      ap (λ t. sub64 a t) low ∙ omega (arith, o.below k p, room) in
    let rest : sub64 a (v k).addr ≡ g * r.gran + 0 = omega (arith, o.below k p, room, c.gran_pos) in
    let quot : sub64 a (v k).addr / r.gran ≡ g =
      ap (λ t. t / r.gran) rest ∙ div_of_parts g 0 r.gran c.gran_pos in
    (page, ap (λ t. u32 (sub64 a t / r.gran)) page ∙ ap u32 quot ∙ omega (arith, q, c.few))
