-- ===== src/Library/Pool/Supply.antt =====
-- What the library asks of the driver through `pim_ioctl_alloc` and `pim_ioctl_free` of
-- sw/lib/pim_dev.c, for the region of one pool, and what it may rely on.
use pim_sw.Common.{
  ℕ, zero, suc, ◌+◌, ◌*◌, ◌<◌, ◌^◌, ◌≡◌, Bool, true, false, Option, none, some, List, [], ◌∷◌, ◌++◌,
  All, length, add64, mark, unmark, Fresh,
}
use pim_sw.Driver.Ledger.{Extent}
use pim_sw.Library.Geometry.{Region}

pub record Source (St : Type 0) : Type 0 where
  -- The number of hugepages and the room in the list.
  pub alloc : ℕ → ℕ → St → Option (List Extent) × St
  -- Whether the driver has accepted.
  pub free : List Extent → St → Bool × St

-- The addresses of `n` hugepages from `a` on.
abbrev pub run : Region → ℕ → ℕ → List ℕ
run r a zero = []
run r a (suc n) = a ∷ run r (add64 a r.hugepage_bytes) n

-- The hugepages of a list of extents.
abbrev pub pages_of : Region → List Extent → List ℕ
pages_of r [] = []
pages_of r (e ∷ es) = run r e.addr e.nr_hugepages ++ pages_of r es

-- `a` is the address of a hugepage of the region.
pub record Place (r : Region) (a : ℕ) : Type 0 where
  pub index : ℕ
  pub place : a ≡ r.base + index * r.hugepage_bytes
  pub below : a + r.hugepage_bytes < 2 ^ 64

-- The driver keeps the set of hugepages that it has given to this process. A grant names hugepages
-- of the region that were not in the set, as many as were asked for; a free that is accepted takes
-- the hugepages out of the set.
pub record Lawful {St : Type 0} (D : Source St) (r : Region) : Type 0 where
  pub held : St → ℕ → Bool
  pub granted :
      (n room : ℕ) (s : St) (es : List Extent)
      → (D.alloc n room s).0 ≡ some es
      → Fresh (pages_of r es) (held s)
        × (held (D.alloc n room s).1 ≡ mark (pages_of r es) (held s))
        × All (Place r) (pages_of r es)
        × (length (pages_of r es) ≡ n)
  pub refused :
      (n room : ℕ) (s : St) → (D.alloc n room s).0 ≡ none → held (D.alloc n room s).1 ≡ held s
  pub freed :
      (es : List Extent) (s : St)
      → (D.free es s).0 ≡ true
      → held (D.free es s).1 ≡ unmark (pages_of r es) (held s)
  pub kept : (es : List Extent) (s : St) → (D.free es s).0 ≡ false → held (D.free es s).1 ≡ held s
