-- ===== src/Library/Records/Lookup.antt =====
-- What `rec_lookup` and `rec_insert` of sw/lib/pim_alloc.c do on a table in order.
use mathlib.Core.Option.{some_inj}
use pim_sw.Common.{
  refl, add64, ℕ, suc, ◌+◌, ◌-◌, ◌≤◌, ◌<◌, ◌^◌, ◌≡◌, ◌⊎◌, sym, ◌∙◌, ap, subst, Bool, ◌&&◌, arith,
  ltb, leb, ◌==◌, none, some, Bool-cases, inl, inr,
}
use pim_sw.Library.Records.{Rec, Table, bisect, insert_at, rec_insert, rec_lookup}
use pim_sw.Library.Records.Search.{Border, bisect-Border}

-- The pointer lies in the allocation.
abbrev pub Inside : Rec → ℕ → Type 0
Inside r va = (r.vbase ≤ va) × (va < r.vbase + r.bytes)

-- The entries are in ascending order, do not overlap and are not empty; none wraps.
pub record Ordered (t : Table) : Type 0 where
  pub apart :
      (i j : ℕ)
      → i < j
      → j < t.nallocs
      → (t.allocs i).vbase + (t.allocs i).bytes ≤ (t.allocs j).vbase
  pub filled : (i : ℕ) → i < t.nallocs → 0 < (t.allocs i).bytes
  pub room : (i : ℕ) → i < t.nallocs → (t.allocs i).vbase + (t.allocs i).bytes < 2 ^ 64

vbase_mono :
    (t : Table) (i j : ℕ)
    → Ordered t
    → i ≤ j
    → j < t.nallocs
    → (t.allocs i).vbase ≤ (t.allocs j).vbase
vbase_mono t i j o a b = elim (Bool-cases (i == j)) [
  | inl same ↦ let e : i ≡ j = ground (arith, same) in rw e (omega arith)
  | inr less ↦ omega (arith, o.apart i j (ground (arith, less)) b)
]

-- Where the search of `rec_lookup` ends.
lookup-Border :
    (t : Table) (va : ℕ)
    → Ordered t
    → Border
        (λ i. leb (t.allocs i).vbase va)
        0
        t.nallocs
        (bisect t.nallocs (λ i. leb (t.allocs i).vbase va) 0 t.nallocs)
lookup-Border t va o =
    bisect-Border t.nallocs (λ i. leb (t.allocs i).vbase va) 0 t.nallocs
      (λ i j a b h. ground (arith, vbase_mono t i j o a b)) (omega arith) (omega arith)

-- In a table in order, a pointer into an allocation is resolved to it, wherever in the table it
-- stands.
pub rec_lookup-found :
    (t : Table) (va i : ℕ)
    → Ordered t
    → i < t.nallocs
    → Inside (t.allocs i) va
    → rec_lookup t va ≡ some (t.allocs i)
unfolding rec_lookup
rec_lookup-found t va i o h (low, high) =
    let b = lookup-Border t va o in
    let lo = bisect t.nallocs (λ k. leb (t.allocs k).vbase va) 0 t.nallocs in
    let past : i < lo = elim (Bool-cases (ltb i lo)) [
      | inl below ↦ ground (arith, below)
      | inr above ↦ absurd (ground (arith, b.fails i (ground (arith, above)) h, low))
    ] in
    let last : lo ≡ suc i = elim (Bool-cases (lo == suc i)) [
      | inl same ↦ ground (arith, same)
      | inr more ↦ absurd (
          ground (
            arith,
            o.apart i (suc i) (omega arith) (ground (arith, more, past, b.high)),
            b.holds (suc i) (omega arith) (ground (arith, more, past)),
            high,
          ))
    ] in
    rw last (ground (arith, low, high, o.room i h))

-- In a table in order, what is found is an entry of the table that the pointer lies in.
pub rec_lookup-Inside :
    (t : Table) (va : ℕ) (r : Rec)
    → Ordered t
    → rec_lookup t va ≡ some r
    → (i : ℕ) × (i < t.nallocs) × (t.allocs i ≡ r) × Inside r va
unfolding rec_lookup
rec_lookup-Inside t va r o h =
    let b = lookup-Border t va o in
    let lo = bisect t.nallocs (λ k. leb (t.allocs k).vbase va) 0 t.nallocs in
    elim (Bool-cases (lo == 0)) [
      | inl start ↦ absurd (ground (arith, start))
      | inr on ↦
          elim (Bool-cases (
            leb (t.allocs (lo - 1)).vbase va
            && ltb va (add64 (t.allocs (lo - 1)).vbase (t.allocs (lo - 1)).bytes))) [
              | inr outside ↦ absurd (ground (arith, on, outside))
              | inl within_it ↦
                  let same : t.allocs (lo - 1) ≡ r = some_inj.0 (rw (on, within_it) at h) in
                  let there : lo - 1 < t.nallocs = ground (arith, on, b.high) in
                  (
                    lo - 1,
                    there,
                    same,
                    subst (λ x. Inside x va) same
                        (
                          ground (arith, within_it),
                          ground (arith, within_it, o.room (lo - 1) there),
                        ),
                  )
            ]
    ]

-- The new entry overlaps none of the table, and is one itself.
pub record Fresh (t : Table) (r : Rec) : Type 0 where
  pub some_bytes : 0 < r.bytes
  pub room : r.vbase + r.bytes < 2 ^ 64
  pub clear :
      (i : ℕ)
      → i < t.nallocs
      → ((t.allocs i).vbase + (t.allocs i).bytes ≤ r.vbase)
        ⊎ (r.vbase + r.bytes ≤ (t.allocs i).vbase)

-- The table with the entry at a place that all before it and none from it on start below.
insert_at-Ordered :
    (t : Table) (r : Rec) (lo cap : ℕ)
    → Ordered t
    → Fresh t r
    → Border (λ i. ltb (t.allocs i).vbase r.vbase) 0 t.nallocs lo
    → Ordered
        (record { allocs = insert_at lo r t.allocs; nallocs = t.nallocs + 1; allocs_cap = cap })
unfolding insert_at
insert_at-Ordered t r lo cap o f b = record {
  apart = λ i j p q. ground (
    arith,
    o.apart i j,
    o.apart i (j - 1),
    o.apart (i - 1) (j - 1),
    before i,
    after (j - 1),
    b.high,
  );
  filled = λ i p. ground (arith, o.filled i, o.filled (i - 1), f.some_bytes, b.high);
  room = λ i p. ground (arith, o.room i, o.room (i - 1), f.room, b.high);
}
  where
    before : (i : ℕ) → i < lo → (t.allocs i).vbase + (t.allocs i).bytes ≤ r.vbase
    before i p = elim (f.clear i (omega (arith, b.high))) [
      | inl left ↦ left
      | inr right ↦ absurd (ground (arith, b.holds i (omega arith) p, right))
    ]

    after : (i : ℕ) → lo ≤ i → i < t.nallocs → r.vbase + r.bytes ≤ (t.allocs i).vbase
    after i p q = elim (f.clear i q) [
      | inr right ↦ right
      | inl left ↦ absurd (ground (arith, b.fails i p q, left, o.filled i q))
    ]

insert-Border :
    (t : Table) (r : Rec)
    → Ordered t
    → Border
        (λ i. ltb (t.allocs i).vbase r.vbase)
        0
        t.nallocs
        (bisect t.nallocs (λ i. ltb (t.allocs i).vbase r.vbase) 0 t.nallocs)
insert-Border t r o =
    bisect-Border t.nallocs (λ i. ltb (t.allocs i).vbase r.vbase) 0 t.nallocs
      (λ i j a b h. ground (arith, vbase_mono t i j o a b)) (omega arith) (omega arith)

-- What a successful insertion leaves: the table in order, the new entry at one index, and each old
-- entry at its own or the next one.
record Inserted (t : Table) (r : Rec) (t' : Table) : Type 0 where
  ordered : Ordered t'
  new : (i : ℕ) × (i < t'.nallocs) × (t'.allocs i ≡ r)
  old : (i : ℕ) → i < t.nallocs → (j : ℕ) × (j < t'.nallocs) × (t'.allocs j ≡ t.allocs i)

insert-Inserted :
    (no_memory : Bool) (t t' : Table) (r : Rec)
    → Ordered t
    → Fresh t r
    → rec_insert no_memory t r ≡ some t'
    → Inserted t r t'
unfolding rec_insert insert_at
insert-Inserted no_memory t t' r o f h =
    let lo = bisect t.nallocs (λ i. ltb (t.allocs i).vbase r.vbase) 0 t.nallocs in
    let b = insert-Border t r o in
    elim (Bool-cases (t.nallocs == t.allocs_cap && no_memory)) [
      | inl full ↦ absurd (ground (arith, full))
      | inr fine ↦ subst (Inserted t r) (some_inj.0 (rw fine at h)) (record {
        ordered = insert_at-Ordered t r lo _ o f b;
        new = (lo, omega (arith, b.high), ground arith);
        old = λ i p. elim (Bool-cases (ltb i lo)) [
          | inl below ↦ (i, omega arith, ground (arith, below))
          | inr above ↦ (suc i, omega arith, ground (arith, above))
        ];
      })
    ]

-- A successful insertion of an entry that overlaps none keeps a table in order.
pub rec_insert-Ordered :
    (no_memory : Bool) (t t' : Table) (r : Rec)
    → Ordered t
    → Fresh t r
    → rec_insert no_memory t r ≡ some t'
    → Ordered t'
rec_insert-Ordered no_memory t t' r o f h = (insert-Inserted no_memory t t' r o f h).ordered

-- After a successful insertion, into a table in order, of an entry that overlaps none, every
-- pointer into the new entry is resolved to it.
pub rec_lookup-rec_insert :
    (no_memory : Bool) (t t' : Table) (r : Rec) (va : ℕ)
    → Ordered t
    → Fresh t r
    → rec_insert no_memory t r ≡ some t'
    → Inside r va
    → rec_lookup t' va ≡ some r
rec_lookup-rec_insert no_memory t t' r va o f h inside =
    let n = insert-Inserted no_memory t t' r o f h in
    let (i, there, same) = n.new in
    rec_lookup-found t' va i n.ordered there (subst (λ x. Inside x va) (sym same) inside)
    ∙ ap some same

-- After a successful insertion, into a table in order, of an entry that overlaps none, every
-- pointer that was resolved before is resolved as before.
pub rec_lookup_kept :
    (no_memory : Bool) (t t' : Table) (r x : Rec) (va : ℕ)
    → Ordered t
    → Fresh t r
    → rec_insert no_memory t r ≡ some t'
    → rec_lookup t va ≡ some x
    → rec_lookup t' va ≡ some x
rec_lookup_kept no_memory t t' r x va o f h was =
    let n = insert-Inserted no_memory t t' r o f h in
    let (i, there, same, inside) = rec_lookup-Inside t va x o was in
    let (j, after, equal) = n.old i there in
    let e = equal ∙ same in
    rec_lookup-found t' va j n.ordered after (subst (λ y. Inside y va) (sym e) inside) ∙ ap some e

-- What is found is an entry of the table that the pointer lies in.
pub lookup-cases :
    (t : Table) (va : ℕ)
    → Ordered t
    → (rec_lookup t va ≡ none) ⊎ ((i : ℕ) × (i < t.nallocs) × Inside (t.allocs i) va)
unfolding rec_lookup
lookup-cases t va o =
    let lo = bisect t.nallocs (λ k. leb (t.allocs k).vbase va) 0 t.nallocs in
    let b = lookup-Border t va o in
    elim (Bool-cases (lo == 0)) [
      | inl empty ↦ inl (rw empty refl)
      | inr some_before ↦
          let below : lo - 1 < t.nallocs = ground (arith, some_before, b.high) in
          elim (Bool-cases (
            leb (t.allocs (lo - 1)).vbase va
            && ltb va (add64 (t.allocs (lo - 1)).vbase (t.allocs (lo - 1)).bytes))) [
              | inl here ↦ inr (
                lo - 1,
                below,
                (ground (arith, here), ground (arith, here, o.room (lo - 1) below)),
              )
              | inr outside ↦ inl (rw (some_before, outside) refl)
            ]
    ]
