-- ===== src/Library/Records/Remove.antt =====
-- What `rec_remove` of sw/lib/pim_alloc.c does on a table in order.
use mathlib.Core.Option.{some_inj}
use pim_sw.Common.{
  ℕ, zero, suc, ◌+◌, ◌-◌, ◌≤◌, ◌<◌, ◌≡◌, sym, ◌∙◌, ap, subst, arith, ltb, ◌==◌, some, none,
  Bool-cases, Option-cases, inl, inr,
}
use pim_sw.Library.Records.{Rec, Table, find_exact, remove_at, rec_remove, rec_lookup}
use pim_sw.Library.Records.Lookup.{Inside, Ordered, rec_lookup-Inside}

find_exact-some :
    (fuel : ℕ) (t : Table) (va i k : ℕ)
    → find_exact fuel t va i ≡ some k
    → (i ≤ k) × (k < i + fuel) × ((t.allocs k).vbase ≡ va)
unfolding find_exact
find_exact-some zero t va i k h = absurd (ground arith)
find_exact-some (suc fuel) t va i k h = elim (Bool-cases ((t.allocs i).vbase == va)) [
  | inl here ↦
      let e : i ≡ k = ground (arith, here) in
      subst (λ x. (i ≤ x) × (x < i + suc fuel) × ((t.allocs x).vbase ≡ va)) e
        (omega arith, omega arith, ground (arith, here))
  | inr on ↦
      let (a, b, c) = find_exact-some fuel t va (i + 1) k (rw on at h) in
      (omega (arith, a), omega (arith, b), c)
]

remove_at-Ordered :
    (t : Table) (i : ℕ)
    → Ordered t
    → i < t.nallocs
    → Ordered (record t { allocs = remove_at i t.allocs; nallocs = t.nallocs - 1 })
unfolding remove_at
remove_at-Ordered t i o p = record {
  apart = λ a b q h. ground (arith, o.apart a b, o.apart a (b + 1), o.apart (a + 1) (b + 1));
  filled = λ a h. ground (arith, o.filled a, o.filled (a + 1));
  room = λ a h. ground (arith, o.room a, o.room (a + 1));
}

-- Removing keeps a table in order, whether the address was found or not.
pub rec_remove-Ordered : (t : Table) (va : ℕ) → Ordered t → Ordered (rec_remove t va).1
unfolding rec_remove
rec_remove-Ordered t va o = elim (Option-cases (find_exact t.nallocs t va 0)) [
  | inl miss ↦ rw (miss, rec_remove) o
  | inr (i, found) ↦
      let (a, b, c) = find_exact-some t.nallocs t va 0 i found in
      rw (found, rec_remove) (remove_at-Ordered t i o (omega (arith, b)))
]

-- A pointer into the removed entry lies in none of those that stay.
clash :
    (t : Table) (i j p : ℕ)
    → Ordered t
    → i < t.nallocs
    → j < t.nallocs - 1
    → Inside (t.allocs i) p
    → Inside (remove_at i t.allocs j) p
    → ⊥
unfolding remove_at
clash t i j p o a b (l1, h1) (l2, h2) = elim (Bool-cases (ltb j i)) [
  | inl below ↦ ground (arith, below, o.apart j i, l1, h1, l2, h2)
  | inr above ↦ ground (arith, above, o.apart i (j + 1), l1, h1, l2, h2)
]

-- The entry that a removal from a table in order returns starts at the address, and no pointer into
-- it is resolved any more.
pub rec_lookup-rec_remove :
    (t t' : Table) (va p : ℕ) (r : Rec)
    → Ordered t
    → rec_remove t va ≡ (some r, t')
    → Inside r p
    → (r.vbase ≡ va) × (rec_lookup t' p ≡ none)
unfolding rec_remove remove_at
rec_lookup-rec_remove t t' va p r o h inside = elim (Option-cases (find_exact t.nallocs t va 0)) [
  | inl miss ↦ absurd (ground (arith, miss))
  | inr (i, found) ↦
      let (a, b, c) = find_exact-some t.nallocs t va 0 i found in
      let u : Table = record t { allocs = remove_at i t.allocs; nallocs = t.nallocs - 1 } in
      let e : (some (t.allocs i), u) ≡ (some r, t') = rw (found, rec_remove) at h in
      let same : t.allocs i ≡ r = some_inj.0 (ap (λ x. x.0) e) in
      let left : u ≡ t' = ap (λ x. x.1) e in
      let order = remove_at-Ordered t i o (omega (arith, b)) in
      (
        ap (λ x. x.vbase) (sym same) ∙ c,
        subst (λ x. rec_lookup x p ≡ none) left
            (elim (Option-cases (rec_lookup u p)) [
              | inl gone ↦ gone
              | inr (x, hit) ↦
                  let (j, there, at_j, in_x) = rec_lookup-Inside u p x order hit in
                  absurd (
                    clash t i j p o (omega (arith, b)) there
                      (subst (λ y. Inside y p) (sym same) inside)
                      (subst (λ y. Inside y p) (sym at_j) in_x))
            ]),
      )
]
