-- ===== src/Library/Records.antt =====
-- The record table of sw/lib/pim_alloc.c: which allocation a pointer is inside. The array of
-- pointers is a function of the index; what stands at or behind `nallocs` does not count.
pub mod Search
pub mod Lookup
pub mod Remove
mod Tests
use pim_sw.Common.{
  ℕ, zero, suc, ◌+◌, ◌-◌, ◌*◌, ◌/◌, Bool, true, false, ◌&&◌, Option, none, some, ltb, leb, ◌==◌,
  if◌then◌else◌, u32, u64, add64,
}

-- `pim_alloc_rec`; the addresses are those of its granules.
pub record Rec : Type 0 where
  pub vbase : ℕ
  pub bytes : ℕ
  pub mem : ℕ
  pub nr_grans : ℕ
  pub tag : ℕ
  pub gran_addr : ℕ → ℕ

-- The fields of `pim_ctx` that the table has.
pub record Table : Type 0 where
  pub allocs : ℕ → Rec
  pub nallocs : ℕ
  pub allocs_cap : ℕ

-- The loop that `rec_insert`, `rec_lookup` and `pool_insert` share, on fuel: the place from which on
-- the test `before` fails.
unfoldable pub bisect : ℕ → (ℕ → Bool) → ℕ → ℕ → ℕ
bisect zero before lo hi = lo
bisect (suc fuel) before lo hi =
    let mid = lo + (hi - lo) / 2 in
    let low = before mid in
    let rest = bisect fuel before (if low then mid + 1 else lo) (if low then hi else mid) in
    if ltb lo hi then rest else lo

-- `memmove` up by one from `lo`, and the new entry at `lo`.
unfoldable pub insert_at {ℓ} : {A : Type ℓ} → ℕ → A → (ℕ → A) → ℕ → A
insert_at lo a f j = if ltb j lo then f j else if j == lo then a else f (j - 1)

-- `memmove` down by one onto `i`.
unfoldable pub remove_at {ℓ} : {A : Type ℓ} → ℕ → (ℕ → A) → ℕ → A
remove_at i f j = if ltb j i then f j else f (j + 1)

-- `rec_insert`: nothing where the array is full and cannot be enlarged, which `no_memory` says. The
-- count of entries is at most the capacity, a 32-bit number.
pub rec_insert : Bool → Table → Rec → Option Table
unfolding bisect insert_at
rec_insert no_memory t r =
    let full = t.nallocs == t.allocs_cap in
    let lo = bisect t.nallocs (λ i. ltb (t.allocs i).vbase r.vbase) 0 t.nallocs in
    if full && no_memory
    then none
    else some (record {
      allocs = insert_at lo r t.allocs;
      nallocs = t.nallocs + 1;
      allocs_cap =
          if full then if t.allocs_cap == 0 then 16 else u32 (t.allocs_cap * 2) else t.allocs_cap;
    })

unfoldable pub rec_lookup : Table → ℕ → Option Rec
unfolding bisect
rec_lookup t va =
    let lo = bisect t.nallocs (λ i. leb (t.allocs i).vbase va) 0 t.nallocs in
    let r = t.allocs (lo - 1) in
    if lo == 0
    then none
    else if leb r.vbase va && ltb va (add64 r.vbase r.bytes)
    then some r
    else none

-- The loop of `rec_remove` with `fuel` rounds left: the first entry with this address.
unfoldable pub find_exact : ℕ → Table → ℕ → ℕ → Option ℕ
find_exact zero t va i = none
find_exact (suc fuel) t va i =
    let rest = find_exact fuel t va (i + 1) in if (t.allocs i).vbase == va then some i else rest

unfoldable pub rec_remove : Table → ℕ → Option Rec × Table
unfolding find_exact remove_at
rec_remove t va = elim (find_exact t.nallocs t va 0) [
  | none ↦ (none, t)
  | some i ↦
      (some (t.allocs i), record t { allocs = remove_at i t.allocs; nallocs = t.nallocs - 1 })
]
