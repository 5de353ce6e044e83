-- ===== src/Library/Device/Pages.antt =====
-- The hugepages that extents name, as addresses and as indices of the ledger.
use native.Mathlib.Nat.{add-mul, mul-le-mul_right}
use mathlib.Core.Option.{some_inj}
use pim_sw.Common.{
  ℕ, zero, suc, ◌+◌, ◌*◌, ◌^◌, ◌≤◌, ◌<◌, ◌≡◌, refl, sym, ◌∙◌, ap, Bool, true, false, Option, none,
  some, List, [], ◌∷◌, All, All-append, length, length-append, add64, mark, mark-mem, mem,
  mem-append, Fresh, Fresh-append, ◌==◌, update, within, arith, Option-cases, Bool-cases, inl, inr,
}
use pim_sw.Driver.Ledger.{Ledger, Extent, addr_to_hugepage, hugepage_addr}
use pim_sw.Driver.Ledger.Extents.{
  HasSpan, covered, total, Fits, hugepage_addr_lem, addr_to_hugepage-hugepage_addr,
  addr_to_hugepage-eq-some,
}
use pim_sw.Library.Geometry.{Region}
use pim_sw.Library.Pool.Supply.{run, pages_of, Place}

-- Each extent is a stretch of hugepages of the ledger.
abbrev pub Stretches : Ledger → List Extent → Type 0
Stretches l [] = Unit
Stretches l (e ∷ es) =
    (idx : ℕ) × (addr_to_hugepage l e.addr ≡ some idx)
    × (idx + e.nr_hugepages ≤ l.nr_hugepages)
    × (0 < e.nr_hugepages)
    × Stretches l es

-- Whether the address is that of a hugepage for which the test holds.
abbrev pub picked : (ℕ → Bool) → Option ℕ → Bool
picked p none = false
picked p (some j) = p j

abbrev pub at_index : Ledger → (ℕ → Bool) → ℕ → Bool
at_index l p a = picked p (addr_to_hugepage l a)

-- A ledger, and the region that the library has of it.
module _ (l : Ledger) (r : Region) (v : HasSpan l) (same_base : l.base ≡ r.base)
    (same_page : l.hugepage_bytes ≡ r.hugepage_bytes) where
  abbrev addr : ℕ → ℕ
  addr i = r.base + i * r.hugepage_bytes

  addr_lem : (i : ℕ) → i < l.nr_hugepages → hugepage_addr l i ≡ addr i
  addr_lem i h = rw (← same_base, ← same_page) (hugepage_addr_lem i v h)

  pub known_at : (i : ℕ) → i < l.nr_hugepages → addr_to_hugepage l (addr i) ≡ some i
  known_at i h = rw (← addr_lem i h) (addr_to_hugepage-hugepage_addr i v h)

  known_only : (a j : ℕ) → addr_to_hugepage l a ≡ some j → (j < l.nr_hugepages) × (a ≡ addr j)
  known_only a j e =
      let (less, at) = addr_to_hugepage-eq-some a j v e in (less, at ∙ addr_lem j less)

  below : (i : ℕ) → i < l.nr_hugepages → addr i + r.hugepage_bytes < 2 ^ 64
  below i h =
      let most = mul-le-mul_right r.hugepage_bytes h in
      omega (
        arith,
        most,
        add-mul i 1 r.hugepage_bytes,
        v.room,
        v.size,
        ap (λ p. l.nr_hugepages * p) same_page,
        same_base,
      )

  next : (i : ℕ) → i < l.nr_hugepages → add64 (addr i) r.hugepage_bytes ≡ addr (i + 1)
  next i h = omega (arith, below i h, add-mul i 1 r.hugepage_bytes)

  mem-run :
      (n idx a : ℕ)
      → idx + n ≤ l.nr_hugepages
      → mem a (run r (addr idx) n) ≡ at_index l (within idx n) a
  mem-run zero idx a h = elim (Option-cases (addr_to_hugepage l a)) [
    | inl miss ↦ ground (arith, miss)
    | inr (j, e) ↦ ground (arith, e)
  ]
  mem-run (suc n) idx a h =
      let ih = mem-run n (idx + 1) a (omega (arith, h)) in
      let step = next idx (omega (arith, h)) in
      elim (Bool-cases (a == addr idx)) [
        | inl here ↦
            let e : a ≡ addr idx = ground (arith, here) in
            let known : addr_to_hugepage l a ≡ some idx = rw e (known_at idx (omega (arith, h))) in
            ground (arith, here, known)
        | inr there ↦ elim (Option-cases (addr_to_hugepage l a)) [
          | inl miss ↦ ground (arith, there, miss, ih, step)
          | inr (j, e) ↦
              let other : (j == idx) ≡ false = elim (Bool-cases (j == idx)) [
                | inr other ↦ other
                | inl same ↦ absurd (ground (arith, there, same, (known_only a j e).1))
              ] in
              ground (arith, there, e, ih, step, other)
        ]
      ]

  pub mem-pages_of :
      (es : List Extent) (a : ℕ)
      → Stretches l es
      → mem a (pages_of r es) ≡ at_index l (λ j. covered l es j) a
  unfolding covered
  mem-pages_of [] a s = elim (Option-cases (addr_to_hugepage l a)) [
    | inl miss ↦ ground (arith, miss)
    | inr (j, e) ↦ ground (arith, e)
  ]
  mem-pages_of (e ∷ es) a (idx, known, fits, pos, rest) =
      let (less, at) = known_only e.addr idx known in
      let first : mem a (run r e.addr e.nr_hugepages) ≡ at_index l (within idx e.nr_hugepages) a =
        rw at (mem-run e.nr_hugepages idx a fits) in
      let ih = mem-pages_of es a rest in
      let parts = mem-append (run r e.addr e.nr_hugepages) (pages_of r es) a in
      elim (Option-cases (addr_to_hugepage l a)) [
        | inl miss ↦ ground (arith, miss, first, ih, parts)
        | inr (j, there) ↦ ground (arith, known, there, first, ih, parts)
      ]

  length-run : (n a : ℕ) → length (run r a n) ≡ n
  length-run zero a = refl
  length-run (suc n) a = ap suc (length-run n (add64 a r.hugepage_bytes))

  pub length-pages_of : (es : List Extent) → length (pages_of r es) ≡ total es
  length-pages_of [] = refl
  length-pages_of (e ∷ es) = omega (
    arith,
    length-append (run r e.addr e.nr_hugepages) (pages_of r es),
    length-run e.nr_hugepages e.addr,
    length-pages_of es,
  )

  run-Place : (n idx : ℕ) → idx + n ≤ l.nr_hugepages → All (Place r) (run r (addr idx) n)
  run-Place zero idx h = tt
  run-Place (suc n) idx h = (
    record { index = idx; place = refl; below = below idx (omega (arith, h)) },
    rw (next idx (omega (arith, h))) (run-Place n (idx + 1) (omega (arith, h))),
  )

  pub pages_of-Place : (es : List Extent) → Stretches l es → All (Place r) (pages_of r es)
  pages_of-Place [] s = tt
  pages_of-Place (e ∷ es) (idx, known, fits, pos, rest) =
      All-append (Place r) (run r e.addr e.nr_hugepages) (pages_of r es)
        (rw (known_only e.addr idx known).1 (run-Place e.nr_hugepages idx fits))
        (pages_of-Place es rest)

  addr_differs : (i j : ℕ) → i < l.nr_hugepages → j < l.nr_hugepages → addr i ≡ addr j → i ≡ j
  addr_differs i j p q e =
      some_inj.0 (sym (known_at i p) ∙ ap (addr_to_hugepage l) e ∙ known_at j q)

  run-Fresh :
      (n idx : ℕ) (h : ℕ → Bool)
      → idx + n ≤ l.nr_hugepages
      → ((i : ℕ) → idx ≤ i → i < idx + n → h (addr i) ≡ false)
      → Fresh (run r (addr idx) n) h
  run-Fresh zero idx h fits free = tt
  run-Fresh (suc n) idx h fits free = (
    free idx (omega arith) (omega arith),
    rw (next idx (omega (arith, fits))) (
        run-Fresh n (idx + 1) (update h (addr idx) true) (omega (arith, fits)) (λ i p q.
          elim (Bool-cases (addr i == addr idx)) [
            | inl same ↦ absurd (
                omega (
                  arith,
                  addr_differs i idx (omega (arith, fits, q)) (omega (arith, fits))
                      (ground (arith, same)),
                  p,
                ))
            | inr other ↦ rw other (free i (omega (arith, p)) (omega (arith, q)))
          ])),
  )

  pub Fits-Stretches : (lo : ℕ) (es : List Extent) → Fits l lo es → Stretches l es
  Fits-Stretches lo [] f = tt
  Fits-Stretches lo (e ∷ es) (idx, a, low, pos, fits, clear, rest) = (
    idx,
    rw a (addr_to_hugepage-hugepage_addr idx v (omega (arith, pos, fits))),
    fits,
    pos,
    Fits-Stretches (idx + e.nr_hugepages) es rest,
  )

  -- Extents of free hugepages name, one by one, hugepages outside any set that has no free one.
  pub pages_of-Fresh :
      (lo : ℕ) (es : List Extent) (h : ℕ → Bool)
      → Fits l lo es
      → ((i : ℕ) → lo ≤ i → i < l.nr_hugepages → l.bitmap i ≡ false → h (addr i) ≡ false)
      → Fresh (pages_of r es) h
  pages_of-Fresh lo [] h f free = tt
  pages_of-Fresh lo (e ∷ es) h (idx, a, low, pos, fits, clear, rest) free =
      let at : e.addr ≡ addr idx = a ∙ addr_lem idx (omega (arith, pos, fits)) in
      let n = e.nr_hugepages in
      rw at (
        Fresh-append (run r (addr idx) n) (pages_of r es) h
          (run-Fresh n idx h fits
            (λ i p q. free i (omega (arith, low, p)) (omega (arith, fits, q)) (clear i p q)))
          (pages_of-Fresh (idx + n) es (mark (run r (addr idx) n) h) rest (λ i p q z. ground (
            arith,
            mark-mem (run r (addr idx) n) h (addr i),
            mem-run n idx (addr i) fits,
            known_at i q,
            p,
            free i (omega (arith, low, p)) q z,
          ))))
