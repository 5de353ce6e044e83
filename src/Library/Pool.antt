-- ===== src/Library/Pool.antt =====
-- The pools of sw/lib/pim_alloc.c: the hugepages of one region that the library holds, and the
-- granules it cuts them into. The array of hugepages is a function of the index, what stands at or
-- behind `n` does not count, and the word `used` is the test of its bits. What the driver does is
-- a parameter.
pub mod Supply
pub mod Slots
pub mod Wrote
pub mod Take
pub mod Sweep
pub mod Find
pub mod Insert
pub mod Run
pub mod Grow
pub mod Give
pub mod Taken
pub mod Choose
pub mod Compact
pub mod Trim
pub mod Tests
use pim_sw.Common.{
  leb, ℕ, zero, suc, ◌+◌, ◌-◌, ◌*◌, ◌/◌, ◌%◌, ◌^◌, Bool, true, false, ◌&&◌, ◌||◌, not, Option, none,
  some, List, [], ◌∷◌, ◌++◌, length, ltb, ◌==◌, if◌then◌else◌, u32, u64, add64, sub64, update,
}
use pim_sw.Driver.Ledger.{Extent}
use pim_sw.Library.Geometry.{Region}
use pim_sw.Library.Records.{bisect, insert_at}
use pim_sw.Library.Pool.Supply.{Source}

-- `pim_hugepage`
pub record Hugepage : Type 0 where
  pub addr : ℕ
  pub used : ℕ → Bool
  pub free_grans : ℕ

-- `pim_pool`
pub record Pool : Type 0 where
  pub v : ℕ → Hugepage
  pub n : ℕ
  pub cap : ℕ

-- The loop of `hugepage_find` with `fuel` rounds left.
pub find_from : ℕ → (ℕ → Hugepage) → ℕ → ℕ → ℕ → Option ℕ
find_from zero v a lo hi = none
find_from (suc fuel) v a lo hi =
    let mid = lo + (hi - lo) / 2 in
    let here = (v mid).addr in
    let low = ltb here a in
    let rest = find_from fuel v a (if low then mid + 1 else lo) (if low then hi else mid) in
    if not (ltb lo hi) then none else if here == a then some mid else rest

-- Nothing for -1.
pub hugepage_find : Pool → ℕ → Option ℕ
unfolding find_from
hugepage_find p a = find_from p.n p.v a 0 p.n

-- `pool_insert`: nothing where the array is full and cannot be enlarged to the capacity for which
-- `refused` is asked.
pub pool_insert : (ℕ → Bool) → Region → Pool → ℕ → Option Pool
unfolding bisect insert_at
pool_insert refused r p a =
    let full = p.n == p.cap in
    let cap = if p.cap == 0 then 16 else u32 (p.cap * 2) in
    let lo = bisect p.n (λ i. ltb (p.v i).addr a) 0 p.n in
    let blk : Hugepage = record {
      addr = a;
      used = λ _. false;
      free_grans = r.grans_per_hugepage;
    } in
    if full && refused cap
    then none
    else some (record { v = insert_at lo blk p.v; n = p.n + 1; cap = if full then cap else p.cap })

-- `blk->used |= 1ull << gi` and `blk->free_grans--`
pub set_gran : (ℕ → Hugepage) → ℕ → ℕ → ℕ → Hugepage
set_gran v k gi = update v k (record (v k) {
  used = update (v k).used gi true;
  free_grans = u32 ((v k).free_grans + 2 ^ 32 - 1);
})

-- The loop of `grab` on the hugepage `v k` with `fuel` rounds left, and what it writes to `out`.
pub grab_from : ℕ → Region → ℕ → ℕ → ℕ → (ℕ → Hugepage) → (ℕ → Hugepage) × List ℕ
unfolding set_gran
grab_from zero r k gi need v = (v, [])
grab_from (suc fuel) r k gi need v =
    let skip = (v k).used gi in
    let (w, out) =
      grab_from fuel r k (gi + 1) (if skip then need else need - 1)
        (if skip then v else set_gran v k gi) in
    if need == 0
    then (v, [])
    else if skip
    then (w, out)
    else (w, add64 (v k).addr (gi * r.gran) ∷ out)

pub grab : Region → ℕ → ℕ → (ℕ → Hugepage) → (ℕ → Hugepage) × List ℕ
unfolding grab_from
grab r k need v = grab_from r.grans_per_hugepage r k 0 need v

-- The loop of `sweep` with `fuel` rounds left.
pub sweep_from : ℕ → Region → Bool → ℕ → ℕ → (ℕ → Hugepage) → (ℕ → Hugepage) × List ℕ
unfolding grab
sweep_from zero r partial_only i need v = (v, [])
sweep_from (suc fuel) r partial_only i need v =
    let free = (v i).free_grans in
    let skip = free == 0 || partial_only && free == r.grans_per_hugepage in
    let (w, here) = if skip then (v, []) else grab r i need v in
    let (u, out) = sweep_from fuel r partial_only (i + 1) (need - length here) w in
    if need == 0 then (v, []) else (u, here ++ out)

pub sweep : Region → Bool → ℕ → Pool → Pool × List ℕ
unfolding sweep_from
sweep r partial_only need p =
    let (w, out) = sweep_from p.n r partial_only 0 need p.v in (record p { v = w }, out)

-- One round of `pool_give`.
pub clear_gran : (ℕ → Hugepage) → ℕ → ℕ → ℕ → Hugepage
clear_gran v k gi =
    update v k
      (record (v k) { used = update (v k).used gi false; free_grans = u32 ((v k).free_grans + 1) })

-- The address of the hugepage that `a` is in, and the number of its granule.
pub page_of : Region → ℕ → ℕ
page_of r a = sub64 a (sub64 a r.base % r.hugepage_bytes)

pub gran_of : Region → ℕ → ℕ
unfolding page_of
gran_of r a = u32 (sub64 a (page_of r a) / r.gran)

pub give_at : Pool → Option ℕ → ℕ → Pool
unfolding clear_gran
give_at p none gi = p
give_at p (some k) gi = if not ((p.v k).used gi) then p else record p { v = clear_gran p.v k gi }

pub give_one : Region → Pool → ℕ → Pool
unfolding page_of gran_of give_at
give_one r p a = give_at p (hugepage_find p (page_of r a)) (gran_of r a)

pub pool_give : Region → Pool → List ℕ → Pool
unfolding give_one
pool_give r p [] = p
pool_give r p (a ∷ l) = pool_give r (give_one r p a) l

-- The inner loop of `pool_grow` over one extent, of which `left` hugepages from `a` on are to be
-- recorded: the pool, and the part that could not be.
pub insert_run : (ℕ → Bool) → Region → ℕ → ℕ → Pool → Pool × Extent
insert_run refused r a zero p = (p, record { addr = a; nr_hugepages = 0 })
insert_run refused r a (suc left) p = elim (pool_insert refused r p a) [
  | none ↦ (p, record { addr = a; nr_hugepages = suc left })
  | some q ↦ insert_run refused r (add64 a r.hugepage_bytes) left q
]

-- The entries that have to go, from the last one down: the extents, the last made first, and the
-- marks of `drop`.
pub push_extent : Region → ℕ → List Extent → List Extent
push_extent r a [] = record { addr = a; nr_hugepages = 1 } ∷ []
push_extent r a (e ∷ es) =
    if e.addr == add64 a r.hugepage_bytes
    then record { addr = a; nr_hugepages = u32 (e.nr_hugepages + 1) } ∷ es
    else record { addr = a; nr_hugepages = 1 } ∷ e ∷ es

pub choose : ℕ → Region → (ℕ → Hugepage) → ℕ → List Extent → (ℕ → Bool) → List Extent × (ℕ → Bool)
unfolding push_extent
choose zero r v togo es drop = (es, drop)
choose (suc i) r v togo es drop =
    let hit = (v i).free_grans == r.grans_per_hugepage in
    let rest =
      choose i r v (if hit then togo - 1 else togo)
        (if hit then push_extent r (v i).addr es else es)
        (if hit then update drop i true else drop) in
    if togo == 0 then (es, drop) else rest

-- The loop that closes the gaps, with `fuel` rounds left: the array and `kept`.
pub compact : ℕ → ℕ → ℕ → (ℕ → Bool) → (ℕ → Hugepage) → (ℕ → Hugepage) × ℕ
compact zero i kept drop v = (v, kept)
compact (suc fuel) i kept drop v =
    compact fuel (i + 1) (if drop i then kept else kept + 1) drop
      (if drop i then v else update v kept (v i))

-- How many of the first `n` hugepages are entirely free.
pub count_free : ℕ → Region → (ℕ → Hugepage) → ℕ
count_free zero r v = 0
count_free (suc i) r v =
    (if (v i).free_grans == r.grans_per_hugepage then 1 else 0) + count_free i r v

pub reverse_onto : List Extent → List Extent → List Extent
reverse_onto [] out = out
reverse_onto (e ∷ es) out = reverse_onto es (e ∷ out)

module _ {St : Type 0} (D : Source St) where
  open D use {alloc, free}

  pub free_each : List Extent → St → St
  free_each [] s = s
  free_each (e ∷ es) s = free_each es (free (e ∷ []) s).1

  pub insert_all : (ℕ → Bool) → Region → List Extent → Pool → St → Bool × Pool × St
  unfolding insert_run free_each
  insert_all refused r [] p s = (true, p, s)
  insert_all refused r (e ∷ es) p s =
      let (q, rest) = insert_run refused r e.addr e.nr_hugepages p in
      let on = insert_all refused r es q s in
      if rest.nr_hugepages == 0 then on else (false, q, free_each (rest ∷ es) s)

  -- `pool_grow`, where `no_extents` says that its own list cannot be allocated; true for 0.
  pub pool_grow : Bool → (ℕ → Bool) → Region → ℕ → Pool → St → Bool × Pool × St
  unfolding insert_all
  pool_grow no_extents refused r nhugepages p s =
      let (got, t) = alloc nhugepages nhugepages s in
      if no_extents
      then (false, p, s)
      else elim got [ none ↦ (false, p, t) | some es ↦ insert_all refused r es p t ]

  -- The third stage of `pool_take`, for `need` granules beside those in `out`.
  pub take_new : Bool → (ℕ → Bool) → Region → ℕ → List ℕ → Pool → St → Option (List ℕ) × Pool × St
  unfolding pool_grow sweep pool_give
  take_new no_extents refused r need out p s =
      let want = u32 (need + r.grans_per_hugepage - 1) / r.grans_per_hugepage in
      let (grown, q, t) = pool_grow no_extents refused r want p s in
      let (q2, more) = sweep r false need q in
      if not grown
      then (none, pool_give r q out, t)
      else if ltb (length more) need
      then (none, pool_give r q2 (out ++ more), t)
      else (some (out ++ more), q2, t)

  -- The addresses that `pool_take` writes, or nothing for -1.
  pub pool_take : Bool → (ℕ → Bool) → Region → ℕ → Pool → St → Option (List ℕ) × Pool × St
  unfolding take_new
  pool_take no_extents refused r ngrans p s =
      let (p1, out1) = sweep r true ngrans p in
      let (p2, out2) = sweep r false (ngrans - length out1) p1 in
      let out = out1 ++ out2 in
      let new = take_new no_extents refused r (ngrans - length out) out p2 s in
      if ltb (length out) ngrans then new else (some out, p2, s)

  -- The rest of `pool_trim`, with the extents and the marks.
  pub drop_marked : List Extent → (ℕ → Bool) → Pool → St → Pool × St
  unfolding compact reverse_onto
  drop_marked [] drop p s = (p, s)
  drop_marked (e ∷ es) drop p s =
      let (w, kept) = compact p.n 0 0 drop p.v in
      let (accepted, t) = free (reverse_onto (e ∷ es) []) s in
      (if accepted then record p { v = w; n = kept } else p, t)

  -- `pim_pool_trim`, where `no_memory` says that its lists cannot be allocated and `spare` is
  -- `keep_free_hugepages`.
  pub pool_trim : Bool → Region → ℕ → Bool → Pool → St → Pool × St
  unfolding count_free choose drop_marked
  pool_trim no_memory r spare everything p s =
      let nfree = count_free p.n r p.v in
      let keep = if everything then 0 else spare in
      let (es, drop) = choose p.n r p.v (nfree - keep) [] (λ _. false) in
      if leb nfree keep || no_memory then (p, s) else drop_marked es drop p s
