-- ===== src/Library/Pool/Trim.antt =====
-- `pim_pool_trim` of sw/lib/pim_alloc.c: what it gives back to the driver is entirely free, and what
-- it keeps is as it was.
use pim_sw.Common.{
  unmark-mem, leb, subst, ◌∙◌, ap, ℕ, ◌+◌, ◌-◌, ◌≡◌, ◌⊎◌, refl, Bool, false, arith, ◌||◌,
  Bool-cases, inl, inr, List, [], ◌∷◌, mem, if◌then◌else◌,
}
use pim_sw.Driver.Bitmap.{zeros_of_empty, zeros-zero, zeros}
use pim_sw.Driver.Ledger.{Extent}
use pim_sw.Library.Geometry.{Region}
use pim_sw.Library.Pool.{Pool, choose, compact, count_free, reverse_onto, drop_marked, pool_trim}
use pim_sw.Library.Pool.Supply.{Source, Lawful, pages_of}
use pim_sw.Library.Pool.Slots.{Cut, Ok, in_use}
use pim_sw.Library.Pool.Run.{InSet}
use pim_sw.Library.Pool.Choose.{Marked, choose-Marked, choose-zeros, listed_out}
use pim_sw.Library.Pool.Compact.{Compacted, compact-Compacted, stays, compact-Ok, compact-in_use}

module _ (r : Region) (c : Cut r) {St : Type 0} (D : Source St) (law : Lawful D r) where
  open law use {held, freed, kept}

  -- Trimming has led from `p` to `q`: what is in use is as it was, and the pool has `gone` hugepages
  -- less or as many as before.
  pub record Trimmed (p q : Pool) (t : St) (gone : ℕ) : Type 0 where
    pub order : Ok r q.v q.n
    pub known : InSet q (held t)
    pub same_use : in_use r q.v q.n ≡ in_use r p.v p.n
    pub number : (q.n ≡ p.n) ⊎ (q.n + gone ≡ p.n)

  Trimmed-self :
      (p : Pool) (t : St) (gone : ℕ) → Ok r p.v p.n → InSet p (held t) → Trimmed p p t gone
  Trimmed-self p t gone o k = record { order = o; known = k; same_use = refl; number = inl refl }

  drop_marked-Trimmed :
      (es : List Extent) (drop : ℕ → Bool) (p : Pool) (s : St) (gone : ℕ)
      → Ok r p.v p.n
      → InSet p (held s)
      → Marked r p.v p.n es drop
      → zeros drop p.n + gone ≡ p.n
      → let (q, t) = drop_marked D es drop p s in Trimmed p q t gone
  unfolding drop_marked
  drop_marked-Trimmed [] drop p s gone o k m e = Trimmed-self p s gone o k
  drop_marked-Trimmed (x ∷ es) drop p s gone o k m e =
      let all = reverse_onto (x ∷ es) [] in
      let w = (compact p.n 0 0 drop p.v).0 in
      let n = (compact p.n 0 0 drop p.v).1 in
      let z : Compacted p.n drop p.v (w, n) =
        subst (λ t. Compacted p.n drop p.v (compact p.n 0 t drop p.v)) (zeros-zero drop)
          (compact-Compacted p.n 0 p.n drop p.v p.v (omega arith) (λ j y. absurd (omega (arith, y)))
            (λ j y. refl)) in
      elim (Bool-cases (D.free all s).0) [
        | inr h ↦ rw h (
            Trimmed-self p (D.free all s).1 gone o
              (λ i y. ap (λ g. g (p.v i).addr) (kept all s h) ∙ k i y))
        | inl h ↦ rw h (record {
          order = compact-Ok r c p.v p.n drop w n z o;
          known = λ i y.
              let (j, q, d, f, g) = stays r c p.v p.n drop w n z i y in
              let out : mem (p.v j).addr (pages_of r all) ≡ false =
                listed_out r p.v p.n (x ∷ es) drop o m j q d in
              ap (λ b. held (D.free all s).1 b.addr) g
              ∙ ap (λ b. b (p.v j).addr) (freed all s h)
              ∙ ground (arith, unmark-mem (pages_of r all) (held s) (p.v j).addr, out, k j q);
          same_use = compact-in_use r c p.v p.n drop w n z o m.empty;
          number = inr (ap (λ t. t + gone) z.kept ∙ e);
        })
      ]

  -- Trimming a pool in order leaves a pool in order, whose hugepages the driver holds for this
  -- process and which has given out the same granules. It has as many hugepages as before, or as
  -- many fewer as there were entirely free ones beyond those to keep.
  pub pool_trim-Trimmed :
      (no_memory : Bool) (spare : ℕ) (everything : Bool) (p : Pool) (s : St)
      → Ok r p.v p.n
      → InSet p (held s)
      → let (q, t) = pool_trim D no_memory r spare everything p s in
        Trimmed p q t (count_free p.n r p.v - (if everything then 0 else spare))
  unfolding pool_trim
  pool_trim-Trimmed no_memory spare everything p s o k =
      let nfree = count_free p.n r p.v in
      let keep : ℕ = if everything then 0 else spare in
      let start : Marked r p.v p.n [] (λ _. false) = record {
        empty = λ j t. absurd (ground (arith, t));
        listed = λ a t. absurd (ground (arith, t));
      } in
      let m = choose-Marked r p.v p.n p.n (nfree - keep) [] (λ _. false) (omega arith) start in
      let z =
        choose-zeros r p.v p.n p.n (nfree - keep) [] (λ _. false) (omega arith) (λ j y. refl) in
      elim (Bool-cases (leb nfree keep || no_memory)) [
        | inl h ↦ rw h (Trimmed-self p s (nfree - keep) o k)
        | inr h ↦ rw h (
            drop_marked-Trimmed (choose p.n r p.v (nfree - keep) [] (λ _. false)).0
              (choose p.n r p.v (nfree - keep) [] (λ _. false)).1 p s (nfree - keep) o k m
              (omega (arith, z, zeros_of_empty p.n)))
      ]
