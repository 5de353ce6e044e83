-- ===== src/Library/Pool/Wrote.antt =====
-- Writing the bit of one granule of a pool of sw/lib/pim_alloc.c changes what is in use at its address
-- only.
use pim_sw.Common.{
  update_self, if◌then◌else◌, fun_ext, ◌∙◌, update, sym, ◌&&◌, ◌==◌, ap, inr, inl, Bool-cases, ℕ,
  ◌+◌, ◌*◌, ◌<◌, ◌≡◌, refl, Bool, true, false, arith,
}
use pim_sw.Driver.Bitmap.{zeros}
use pim_sw.Library.Geometry.{Region}
use pim_sw.Library.Pool.{Hugepage}
use pim_sw.Library.Pool.Slots.{
  Cut, Ok, Slot, in_use, in_use-holds, in_use-found, bool_ext, place_unique,
}

-- The array after one bit has been written and `free` granules are left on that hugepage.
abbrev pub wrote : (ℕ → Hugepage) → ℕ → ℕ → Bool → ℕ → ℕ → Hugepage
wrote v k g b free = update v k (record (v k) { used = update (v k).used g b; free_grans = free })

module _ (v : ℕ → Hugepage) (k g : ℕ) (b : Bool) where
  pub wrote-addr : (free i : ℕ) → (wrote v k g b free i).addr ≡ (v i).addr
  wrote-addr free i = elim (Bool-cases (i == k)) [
    | inl e ↦ let q : i ≡ k = ground (arith, e) in rw (e, q) refl
    | inr e ↦ rw e refl
  ]

  pub wrote-used :
      (free i h : ℕ)
      → (wrote v k g b free i).used h ≡ (if i == k && h == g then b else (v i).used h)
  wrote-used free i h = elim (Bool-cases (i == k)) [
    | inl e ↦ let q : i ≡ k = ground (arith, e) in rw (e, q) refl
    | inr e ↦ rw e refl
  ]

  pub wrote-here : (free : ℕ) → (wrote v k g b free k).used ≡ update (v k).used g b
  wrote-here free =
      ap (λ h. h.used)
        (update_self v k (record (v k) { used = update (v k).used g b; free_grans = free }))

module _ (r : Region) (c : Cut r) (v : ℕ → Hugepage) (n k g : ℕ) (b : Bool) where
  -- The pool is still in order, where the count is that of the new bits.
  pub wrote-Ok :
      (free : ℕ)
      → Ok r v n
      → k < n
      → free ≡ zeros (update (v k).used g b) r.grans_per_hugepage
      → Ok r (wrote v k g b free) n
  wrote-Ok free o p e = record {
    sorted =
        λ i j x y. rw (wrote-addr v k g b free i, wrote-addr v k g b free j) (o.sorted i j x y);
    place = λ i x. rw (wrote-addr v k g b free i) (o.place i x);
    below = λ i x. rw (wrote-addr v k g b free i) (o.below i x);
    count = λ i x. elim (Bool-cases (i == k)) [ inl h ↦ rw h e | inr h ↦ rw h (o.count i x) ];
  }

  wrote-there :
      (free a : ℕ)
      → Ok r v n
      → k < n
      → g < r.grans_per_hugepage
      → Slot r (wrote v k g b free) n a
      → update (in_use r v n) ((v k).addr + g * r.gran) b a ≡ true
  wrote-there free a o p q (i, h, x, y, e, u) =
      let e2 : a ≡ (v i).addr + h * r.gran =
        e ∙ ap (λ t. t + h * r.gran) (wrote-addr v k g b free i) in
      let u2 = sym (wrote-used v k g b free i h) ∙ u in
      elim (Bool-cases (a == (v k).addr + g * r.gran)) [
        | inl same ↦
            let (si, sh) = place_unique r c v n i k h g o x p y q (ground (arith, sym e2, same)) in
            let yes_i : (i == k && h == g) ≡ true = ground (arith, si, sh) in
            rw (same) (rw yes_i at u2)
        | inr other ↦ elim (Bool-cases (i == k && h == g)) [
          | inl w ↦
              let si : i ≡ k = ground (arith, w) in
              let sh : h ≡ g = ground (arith, w) in
              absurd (ground (arith, other, rw (si, sh) at e2))
          | inr w ↦ rw other (in_use-holds r v n a (i, h, x, y, e2, rw w at u2))
        ]
      ]

  wrote-back :
      (free a : ℕ)
      → k < n
      → g < r.grans_per_hugepage
      → update (in_use r v n) ((v k).addr + g * r.gran) b a ≡ true
      → Slot r (wrote v k g b free) n a
  wrote-back free a p q t = elim (Bool-cases (a == (v k).addr + g * r.gran)) [
    | inl same ↦
        let e : a ≡ (v k).addr + g * r.gran = ground (arith, same) in
        let one : (k == k && g == g) ≡ true = ground arith in
        (
          k,
          g,
          p,
          q,
          e ∙ ap (λ t. t + g * r.gran) (sym (wrote-addr v k g b free k)),
          wrote-used v k g b free k g ∙ rw one (rw same at t),
        )
    | inr other ↦
        let (i, h, x, y, e, u) = in_use-found r v n a (rw other at t) in
        let off : (i == k && h == g) ≡ false = elim (Bool-cases (i == k && h == g)) [
          | inr w ↦ w
          | inl w ↦
              let si : i ≡ k = ground (arith, w) in
              let sh : h ≡ g = ground (arith, w) in absurd (ground (arith, other, rw (si, sh) at e))
        ] in
        (
          i,
          h,
          x,
          y,
          e ∙ ap (λ t. t + h * r.gran) (sym (wrote-addr v k g b free i)),
          wrote-used v k g b free i h ∙ rw off u,
        )
  ]

  -- What is in use changes at the address of that granule only.
  pub wrote-in_use :
      (free : ℕ)
      → Ok r v n
      → k < n
      → g < r.grans_per_hugepage
      → in_use r (wrote v k g b free) n ≡ update (in_use r v n) ((v k).addr + g * r.gran) b
  wrote-in_use free o p q = fun_ext (λ a.
      bool_ext (in_use r (wrote v k g b free) n a)
        (update (in_use r v n) ((v k).addr + g * r.gran) b a)
        (λ t. wrote-there free a o p q (in_use-found r (wrote v k g b free) n a t))
        (λ t. in_use-holds r (wrote v k g b free) n a (wrote-back free a p q t)))
