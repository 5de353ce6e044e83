-- ===== src/Library/Pool/Choose.antt =====
-- Which hugepages `pim_pool_trim` of sw/lib/pim_alloc.c marks, and the extents that it makes of them.
use pim_sw.Common.{
  ◌∙◌, ap, update_ne, ℕ, zero, suc, ◌+◌, ◌-◌, ◌≤◌, ◌<◌, min, ◌≡◌, Bool, true, false, arith, ltb,
  ◌==◌, ◌||◌, Bool-cases, inl, inr, List, [], ◌∷◌, ◌++◌, mem, mem-append, u32, update, add64,
}
use pim_sw.Driver.Bitmap.{zeros, zeros-update}
use pim_sw.Driver.Ledger.{Extent}
use pim_sw.Library.Geometry.{Region}
use pim_sw.Library.Pool.{Hugepage, choose, push_extent, count_free, reverse_onto}
use pim_sw.Library.Pool.Supply.{run, pages_of}
use pim_sw.Library.Pool.Slots.{Ok}

run-prefix :
    (r : Region) (b m n a : ℕ) → m ≤ n → mem a (run r b m) ≡ true → mem a (run r b n) ≡ true
run-prefix r b zero n a h e = absurd (ground (arith, e))
run-prefix r b (suc m) zero a h e = absurd (omega arith)
run-prefix r b (suc m) (suc n) a h e =
    ground (arith, e, run-prefix r (add64 b r.hugepage_bytes) m n a (omega arith))

-- One more entry adds no hugepage but its own.
push_extent-mem :
    (r : Region) (b : ℕ) (es : List Extent) (a : ℕ)
    → mem a (pages_of r (push_extent r b es)) ≡ true
    → (a == b || mem a (pages_of r es)) ≡ true
unfolding push_extent
push_extent-mem r b [] a h = ground (arith, h)
push_extent-mem r b (e ∷ es) a h = elim (Bool-cases (e.addr == add64 b r.hugepage_bytes)) [
  | inr s ↦ rw s at h
  | inl s ↦
      let next : e.addr ≡ add64 b r.hugepage_bytes = ground (arith, s) in
      let n = u32 (e.nr_hugepages + 1) in
      let h2 : mem a (run r b n ++ pages_of r es) ≡ true = rw s at h in
      let split = mem-append (run r b n) (pages_of r es) a in
      let split2 = mem-append (run r e.addr e.nr_hugepages) (pages_of r es) a in
      let more : mem a (run r b n) ≡ true → mem a (b ∷ run r e.addr e.nr_hugepages) ≡ true =
        λ t. rw next (run-prefix r b n (suc e.nr_hugepages) a (omega arith) t) in
      ground (arith, h2, split, split2, more)
]

reverse_onto-mem :
    (r : Region) (es out : List Extent) (a : ℕ)
    → mem a (pages_of r (reverse_onto es out)) ≡ true
    → (mem a (pages_of r es) || mem a (pages_of r out)) ≡ true
unfolding reverse_onto
reverse_onto-mem r [] out a h = ground (arith, h)
reverse_onto-mem r (e ∷ es) out a h = ground (
  arith,
  reverse_onto-mem r es (e ∷ out) a h,
  mem-append (run r e.addr e.nr_hugepages) (pages_of r out) a,
  mem-append (run r e.addr e.nr_hugepages) (pages_of r es) a,
)

-- The marks and the extents agree: each hugepage of an extent is marked, and what is marked is
-- entirely free.
pub record Marked (r : Region) (v : ℕ → Hugepage) (n : ℕ) (es : List Extent) (drop : ℕ → Bool)
    : Type 0 where
  pub empty : (j : ℕ) → drop j ≡ true → (v j).free_grans ≡ r.grans_per_hugepage
  pub listed :
      (a : ℕ)
      → mem a (pages_of r es) ≡ true
      → (j : ℕ) × (j < n) × (drop j ≡ true) × (a ≡ (v j).addr)

pub choose-Marked :
    (r : Region) (v : ℕ → Hugepage) (n i togo : ℕ) (es : List Extent) (drop : ℕ → Bool)
    → i ≤ n
    → Marked r v n es drop
    → Marked r v n (choose i r v togo es drop).0 (choose i r v togo es drop).1
unfolding choose
choose-Marked r v n zero togo es drop x m = m
choose-Marked r v n (suc i) togo es drop x m = elim (Bool-cases (togo == 0)) [
  | inl h ↦ rw h m
  | inr h ↦ elim (Bool-cases ((v i).free_grans == r.grans_per_hugepage)) [
    | inr s ↦ rw (h, s) (choose-Marked r v n i togo es drop (omega arith) m)
    | inl s ↦
        rw (h, s)
          (choose-Marked r v n i (togo - 1) (push_extent r (v i).addr es) (update drop i true)
            (omega arith)
            (record {
              empty = λ j t. elim (Bool-cases (j == i)) [
                | inl e ↦ let q : j ≡ i = ground (arith, e) in rw q (ground (arith, s))
                | inr e ↦ m.empty j (rw e at t)
              ];
              listed = λ a t. elim (Bool-cases (a == (v i).addr)) [
                | inl e ↦ (i, omega arith, ground arith, ground (arith, e))
                | inr e ↦
                    let (j, y, u, z) =
                      m.listed a (ground (arith, e, push_extent-mem r (v i).addr es a t)) in
                    (j, y, ground (arith, u), z)
              ];
            }))
  ]
]

-- How many entries are marked.
pub choose-zeros :
    (r : Region) (v : ℕ → Hugepage) (n i togo : ℕ) (es : List Extent) (drop : ℕ → Bool)
    → i ≤ n
    → ((j : ℕ) → j < i → drop j ≡ false)
    → zeros (choose i r v togo es drop).1 n + min togo (count_free i r v) ≡ zeros drop n
unfolding choose count_free
choose-zeros r v n zero togo es drop x clear = omega arith
choose-zeros r v n (suc i) togo es drop x clear = elim (Bool-cases (togo == 0)) [
  | inl h ↦ rw h (ground (arith, h))
  | inr h ↦ elim (Bool-cases ((v i).free_grans == r.grans_per_hugepage)) [
    | inr s ↦
        rw (h, s)
          (omega
            (arith, choose-zeros r v n i togo es drop (omega arith) (λ j y. clear j (omega arith))))
    | inl s ↦
        let ih =
          choose-zeros r v n i (togo - 1) (push_extent r (v i).addr es) (update drop i true)
            (omega arith)
            (λ j y. update_ne drop i j true (omega (arith, y)) ∙ clear j (omega arith)) in
        rw (h, s)
          (ground (arith, ih, h, zeros-update drop i true n (omega arith), clear i (omega arith)))
  ]
]

-- An entry that is not marked is in none of the extents.
pub listed_out :
    (r : Region) (v : ℕ → Hugepage) (n : ℕ) (es : List Extent) (drop : ℕ → Bool)
    → Ok r v n
    → Marked r v n es drop
    → (k : ℕ) → k < n
    → drop k ≡ false
    → mem (v k).addr (pages_of r (reverse_onto es [])) ≡ false
listed_out r v n es drop o m k x d =
    elim (Bool-cases (mem (v k).addr (pages_of r (reverse_onto es [])))) [
      | inr h ↦ h
      | inl h ↦
          let (j, y, u, e) =
            m.listed (v k).addr (ground (arith, reverse_onto-mem r es [] (v k).addr h)) in
          elim (Bool-cases (j == k)) [
            | inl s ↦ let q : j ≡ k = ground (arith, s) in absurd (ground (arith, ap drop q, u, d))
            | inr s ↦ elim (Bool-cases (ltb j k)) [
              | inl b ↦ absurd (omega (arith, o.sorted j k (ground (arith, b)) x, e))
              | inr b ↦ absurd (omega (arith, o.sorted k j (ground (arith, b, s)) y, e))
            ]
          ]
    ]
