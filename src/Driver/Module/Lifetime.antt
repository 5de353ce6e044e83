-- ===== src/Driver/Module/Lifetime.antt =====
-- The life of the module from `ledger_init` of sw/drv/pim_main.c on: what holds of every state that
-- it can come to.
use native.Mathlib.Nat.{div-add-mod'}
use pim_sw.Common.{
  ◌%◌, All, ℕ, ◌+◌, ◌*◌, ◌/◌, ◌<◌, ◌^◌, ◌≡◌, sym, subst, ap, true, false, arith, Bool, List, [],
  ◌∷◌, ◌++◌, some,
}
use pim_sw.Driver.Bitmap.{BitmapOps, zeros_of_empty, zeros_ext}
use pim_sw.Driver.Ledger.{Status, Ledger, ok}
use pim_sw.Driver.Ledger.Moves.{bit}
use pim_sw.Driver.File.{File, nregion}
use pim_sw.Driver.Module.{System, Reach, ledger_init}
use pim_sw.Driver.Module.Ownership.{AllOwned, Counts, Reach-Owned, owners, owners-append}

-- A ledger that `ledger_init` has made of a region that ends within 64 bits and has fewer than 2 ^ 32
-- hugepages, which `ledger_init` does not test.
pub record Made (l : Ledger) : Type 0 where
  pub base : ℕ
  pub bytes : ℕ
  pub hugepage : ℕ
  pub track : Bool
  pub made : ledger_init base bytes hugepage track false false ≡ (ok, some l)
  pub page : 0 < hugepage
  pub room : base + bytes < 2 ^ 64
  pub few : bytes / hugepage < 2 ^ 32

-- The module after `pim_init`, with no file open.
pub record Loaded (s : System) : Type 0 where
  pub ledgers : (mem : ℕ) → mem < nregion → Made (s.led mem)
  pub unopened : s.files ≡ []

-- `ledger_init` accepts only a region that is a whole number of hugepages, and leaves all free.
pub init-sizes :
    {l : Ledger} {st : Status} (base bytes hugepage : ℕ) (track no_bitmap no_owner : Bool)
    → ledger_init base bytes hugepage track no_bitmap no_owner ≡ (st, some l)
    → (l.nr_hugepages * l.hugepage_bytes ≡ l.bytes)
      × (l.base ≡ base)
      × (l.bytes ≡ bytes)
      × (l.hugepage_bytes ≡ hugepage)
      × (l.nr_hugepages ≡ bytes / hugepage)
      × (l.nr_free ≡ l.nr_hugepages)
      × (base % hugepage ≡ 0)
      × (0 < bytes)
      × (bytes % hugepage ≡ 0)
unfolding ledger_init
init-sizes base bytes hugepage track no_bitmap no_owner e =
    ground (arith, div-add-mod' bytes hugepage)

init-bits :
    (l : Ledger) (base bytes hugepage : ℕ) (track : Bool)
    → ledger_init base bytes hugepage track false false ≡ (ok, some l)
    → (j : ℕ) → l.bitmap j ≡ false
unfolding ledger_init
init-bits l base bytes hugepage track e j = ground arith

-- The module starts with the invariant.
Loaded-Owned : (s : System) → Loaded s → AllOwned s
Loaded-Owned s d mem h =
    let m = d.ledgers mem h in
    let l = s.led mem in
    let (whole, eb, en, eh, ec, free, _, _, _) =
      init-sizes m.base m.bytes m.hugepage m.track false false m.made in
    let empty = init-bits l m.base m.bytes m.hugepage m.track m.made in
    record {
      span = omega (arith, m.page, m.room, m.few, whole, eb, en, eh, ec);
      free = omega (
        arith,
        free,
        zeros_of_empty l.nr_hugepages,
        zeros_ext l.bitmap (λ _. false) l.nr_hugepages (λ j _. empty j),
      );
      files = subst (All (Counts mem l.nr_hugepages)) (sym d.unopened) tt;
      once = λ j. omega (arith, ap (λ fs. owners mem fs j) d.unopened, ap bit (empty j));
    }

module _ (K : BitmapOps) (s t : System) (load : Loaded s) (run : Reach K s t) where
  -- In every state that a loaded module comes to by opening, allocating, freeing and closing, where
  -- no free request names a hugepage twice, the counters are right, and a hugepage is allocated
  -- exactly while one open file has it.
  pub run-Owned : AllOwned t
  run-Owned = Reach-Owned K (Loaded-Owned s load) run

  -- For a module whose regions end within 64 bits and have fewer than 2 ^ 32 hugepages, which the code
  -- does not test: in every state that it comes to by opening, allocating, freeing and closing,
  -- where no free request names a hugepage twice, no hugepage of a region is in two open files.
  pub run_exclusive :
      (mem j : ℕ) (xs ys zs : List File) (f g : File)
      → mem < nregion
      → t.files ≡ xs ++ (f ∷ (ys ++ (g ∷ zs)))
      → f.hugepages mem j ≡ true
      → g.hugepages mem j ≡ false
  run_exclusive mem j xs ys zs f g h e mine = ground (
    arith,
    (run-Owned mem h).once j,
    ap (λ fs. owners mem fs j) e,
    owners-append mem xs (f ∷ (ys ++ (g ∷ zs))) j,
    owners-append mem ys (g ∷ zs) j,
  )

  -- For a module whose regions end within 64 bits and have fewer than 2 ^ 32 hugepages, which the code
  -- does not test: in every state that it comes to by opening, allocating, freeing and closing,
  -- where no free request names a hugepage twice, once all files are closed, whether they freed what they
  -- held or not, all hugepages are free again.
  pub run_no_leak :
      (mem : ℕ)
      → mem < nregion
      → t.files ≡ []
      → ((t.led mem).nr_free ≡ (t.led mem).nr_hugepages) × ((j : ℕ) → (t.led mem).bitmap j ≡ false)
  run_no_leak mem h e =
      let o = run-Owned mem h in
      let l = t.led mem in
      let empty : (j : ℕ) → l.bitmap j ≡ false =
        λ j. ground (arith, o.once j, ap (λ fs. owners mem fs j) e) in
      (
        omega (
          arith,
          o.free,
          zeros_of_empty l.nr_hugepages,
          zeros_ext l.bitmap (λ _. false) l.nr_hugepages (λ j _. empty j),
        ),
        empty,
      )
