-- ===== src/Driver/Ledger/Extents.antt =====
-- How an extent names hugepages: the address conversion of sw/drv/pim_drv.h inverts, and lists of
-- extents as sets of hugepage indices.
use native.Mathlib.Nat.{mul-le-mul_right, suc-mul, div-add-mod', mul-mod_left, mul-div_cancel}
use pim_sw.Common.{
  ℕ, ◌+◌, ◌-◌, ◌*◌, ◌/◌, ◌%◌, ◌^◌, ◌≤◌, ◌<◌, ◌≡◌, refl, Bool, false, ◌||◌, none, some, List, [],
  ◌∷◌, within, arith,
}
use pim_sw.Driver.Bitmap.{Clear}
use pim_sw.Driver.Ledger.{Ledger, Extent, hugepage_addr, addr_to_hugepage}

-- The span of the ledger: a whole number of hugepages that ends within 64 bits, fewer than 2 ^ 32.
pub record HasSpan (l : Ledger) : Type 0 where
  pub page : 0 < l.hugepage_bytes
  pub size : l.bytes ≡ l.nr_hugepages * l.hugepage_bytes
  pub room : l.base + l.bytes < 2 ^ 64
  pub few : l.nr_hugepages < 2 ^ 32

-- An index of the ledger and its stretch lie within the span, so the address does not wrap.
mul-lt_of_lt : (i n p : ℕ) → i < n → i * p + p ≤ n * p
mul-lt_of_lt i n p h = omega (arith, mul-le-mul_right p h, suc-mul i p)

pub hugepage_addr_lem :
    {l : Ledger} (idx : ℕ)
    → HasSpan l
    → idx < l.nr_hugepages
    → hugepage_addr l idx ≡ l.base + idx * l.hugepage_bytes
unfolding hugepage_addr
hugepage_addr_lem {l} idx v h =
    omega (arith, v.page, v.size, v.room, mul-lt_of_lt idx l.nr_hugepages l.hugepage_bytes h)

-- On a ledger whose span ends within 64 bits, the address of each of its indices converts back to
-- the index.
pub addr_to_hugepage-hugepage_addr :
    {l : Ledger} (idx : ℕ)
    → HasSpan l
    → idx < l.nr_hugepages
    → addr_to_hugepage l (hugepage_addr l idx) ≡ some idx
unfolding addr_to_hugepage
addr_to_hugepage-hugepage_addr {l} idx v h =
    let e : l.base + idx * l.hugepage_bytes - l.base ≡ idx * l.hugepage_bytes = omega arith in
    rw (hugepage_addr_lem idx v h, e)
      (ground (arith, mul-mod_left idx l.hugepage_bytes, mul-div_cancel idx v.page))

accepted :
    (l : Ledger) (addr idx : ℕ)
    → addr_to_hugepage l addr ≡ some idx
    → (idx < l.nr_hugepages)
      × (l.base ≤ addr)
      × ((addr - l.base) % l.hugepage_bytes ≡ 0)
      × ((addr - l.base) / l.hugepage_bytes ≡ idx)
unfolding addr_to_hugepage
accepted l addr idx h = ground arith

-- What `addr_to_hugepage` accepts is the address of the index that it returns.
pub addr_to_hugepage-eq-some :
    {l : Ledger} (addr idx : ℕ)
    → HasSpan l
    → addr_to_hugepage l addr ≡ some idx
    → (idx < l.nr_hugepages) × (addr ≡ hugepage_addr l idx)
addr_to_hugepage-eq-some {l} addr idx v h =
    let (lt, le, r, q) = accepted l addr idx h in
    (
      lt,
      ground (
        arith,
        lt,
        le,
        r,
        q,
        hugepage_addr_lem idx v lt,
        div-add-mod' (addr - l.base) l.hugepage_bytes,
      ),
    )

-- Whether hugepage `j` lies in one of the extents.
unfoldable pub covered : Ledger → List Extent → ℕ → Bool
covered l [] j = false
covered l (e ∷ es) j = elim (addr_to_hugepage l e.addr) [
  | none ↦ covered l es j
  | some idx ↦ within idx e.nr_hugepages j || covered l es j
]

-- How many hugepages the extents name.
abbrev pub total : List Extent → ℕ
total [] = 0
total (e ∷ es) = e.nr_hugepages + total es

-- The extents name ascending, disjoint stretches from index `lo` on that were free in `l`.
abbrev pub Fits : Ledger → ℕ → List Extent → Type 0
Fits l lo [] = Unit
Fits l lo (e ∷ es) =
    (idx : ℕ) × (e.addr ≡ hugepage_addr l idx)
    × (lo ≤ idx)
    × (0 < e.nr_hugepages)
    × (idx + e.nr_hugepages ≤ l.nr_hugepages)
    × Clear l.bitmap idx e.nr_hugepages
    × Fits l (idx + e.nr_hugepages) es

-- The set of hugepages depends on the conversion of addresses alone.
pub covered_ext :
    (l l' : Ledger) (es : List Extent) (j : ℕ)
    → ((a : ℕ) → addr_to_hugepage l a ≡ addr_to_hugepage l' a)
    → covered l es j ≡ covered l' es j
unfolding covered
covered_ext l l' [] j h = refl
covered_ext l l' (e ∷ es) j h = ground (arith, h e.addr, covered_ext l l' es j h)
