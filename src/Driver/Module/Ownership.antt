-- ===== src/Driver/Module/Ownership.antt =====
-- The invariant of the whole module: in each region every hugepage that the ledger has allocated
-- belongs to exactly one open file, and the counters are right.
use pim_sw.Common.{
  ℕ, ◌+◌, ◌<◌, ◌≡◌, sym, subst, ap, true, false, arith, List, [], ◌∷◌, ◌++◌, All, All-append,
  All-split,
}
use pim_sw.Driver.Bitmap.{BitmapOps, zeros, zeros_of_empty}
use pim_sw.Driver.Ledger.{Ledger}
use pim_sw.Driver.Ledger.Extents.{HasSpan}
use pim_sw.Driver.Ledger.Invariant.{IsValid}
use pim_sw.Driver.Ledger.Moves.{Moves, bit}
use pim_sw.Driver.File.{State, File, share, nregion, dev_open, hugepages_reclaim}
use pim_sw.Driver.File.Shares.{Sound, reclaim-Moved, dev_release_lem, reclaim_all-empty}
use pim_sw.Driver.File.Ioctl.{ioc_alloc-Moved, ioc_free-Moved}
use pim_sw.Driver.Module.{System, Step, Reach, opened, allocated, freed, released, here, next, call}

-- How many of the files have hugepage `j` of the region.
abbrev pub owners : ℕ → List File → ℕ → ℕ
owners mem [] j = 0
owners mem (f ∷ fs) j = bit (f.hugepages mem j) + owners mem fs j

pub owners-append :
    (mem : ℕ) (fs gs : List File) (j : ℕ)
    → owners mem (fs ++ gs) j ≡ owners mem fs j + owners mem gs j
owners-append mem [] gs j = omega arith
owners-append mem (f ∷ fs) gs j = omega (arith, owners-append mem fs gs j)

-- The file's counter of the region counts its bitmap, which lies within the region.
pub record Counts (mem n : ℕ) (f : File) : Type 0 where
  pub held : f.nr_held mem + zeros (f.hugepages mem) n ≡ n
  pub inside : (j : ℕ) → f.hugepages mem j ≡ true → j < n

pub record Owned (mem : ℕ) (s : System) : Type 0 where
  pub span : HasSpan (s.led mem)
  pub free : (s.led mem).nr_free ≡ zeros (s.led mem).bitmap (s.led mem).nr_hugepages
  pub files : All (Counts mem (s.led mem).nr_hugepages) s.files
  pub once : (j : ℕ) → owners mem s.files j ≡ bit ((s.led mem).bitmap j)

-- For each of its files the system is valid.
Owned-IsValid :
    (mem : ℕ) (s : System) (before after : List File) (f : File)
    → Owned mem s
    → s.files ≡ before ++ (f ∷ after)
    → IsValid (share (call s f) mem)
unfolding share
Owned-IsValid mem s before after f o e =
    let mine =
      (All-split (Counts mem _) before (f ∷ after) (subst (All (Counts mem _)) e o.files)).1.0 in
    record {
      span = o.span;
      free = o.free;
      held = mine.held;
      owns = λ j h.
          ground
            (arith, o.once j, ap (λ fs. owners mem fs j) e, owners-append mem before (f ∷ after) j);
      inside = mine.inside;
    }

-- A call that moves hugepages between the ledger and its file keeps the system owned.
Moves-Owned :
    (mem : ℕ) (s : System) (before after : List File) (f : File) (t : State)
    → Owned mem s
    → s.files ≡ before ++ (f ∷ after)
    → Moves (share (call s f) mem) (share t mem)
    → Owned mem (record { led = t.led; files = before ++ (t.file ∷ after) })
unfolding share
Moves-Owned mem s before after f t o e m =
    let n = (s.led mem).nr_hugepages in
    let (bs, cs) =
      All-split (Counts mem n) before (f ∷ after) (subst (All (Counts mem n)) e o.files) in
    let rest = cs.1 in
    record {
      span = m.valid.span;
      free = m.valid.free;
      files =
          All-append (Counts mem _) before (t.file ∷ after)
            (subst (λ k. All (Counts mem k) before) (sym m.count) bs)
            (
              record { held = m.valid.held; inside = m.valid.inside },
              subst (λ k. All (Counts mem k) after) (sym m.count) rest,
            );
      once = λ j. omega (
        arith,
        o.once j,
        ap (λ fs. owners mem fs j) e,
        owners-append mem before (f ∷ after) j,
        owners-append mem before (t.file ∷ after) j,
        m.balance j,
      );
    }

-- A file that holds nothing of the region can be dropped or added.
drop-Owned :
    (mem : ℕ) (led : ℕ → Ledger) (before after : List File) (f : File)
    → ((j : ℕ) → f.hugepages mem j ≡ false)
    → Owned mem (record { led = led; files = before ++ (f ∷ after) })
    → Owned mem (record { led = led; files = before ++ after })
drop-Owned mem led before after f empty o =
    let (bs, cs) = All-split (Counts mem _) before (f ∷ after) o.files in
    record {
      span = o.span;
      free = o.free;
      files = All-append (Counts mem _) before after bs cs.1;
      once = λ j. omega (
        arith,
        o.once j,
        owners-append mem before (f ∷ after) j,
        owners-append mem before after j,
        ap bit (empty j),
      );
    }

opened-Owned :
    (mem : ℕ) (s : System) (seq pid : ℕ)
    → Owned mem s
    → Owned mem (record s { files = s.files ++ (dev_open seq pid ∷ []) })
unfolding dev_open
opened-Owned mem s seq pid o =
    let n = (s.led mem).nr_hugepages in
    record {
      span = o.span;
      free = o.free;
      files =
          All-append (Counts mem n) s.files (dev_open seq pid ∷ []) o.files
            (record { held = omega (arith, zeros_of_empty n); inside = λ j h. cc }, tt);
      once = λ j. omega (arith, o.once j, owners-append mem s.files (dev_open seq pid ∷ []) j);
    }

-- The invariant of all regions.
abbrev pub AllOwned : System → Type 0
AllOwned s = (mem : ℕ) → mem < nregion → Owned mem s

module _ (K : BitmapOps) where
  -- Every call of a file operation keeps the invariant in every region.
  pub Step-Owned : {s t : System} → Step K s t → AllOwned s → AllOwned t
  unfolding share
  Step-Owned {s = s} (opened seq pid) o mem h = opened-Owned mem s seq pid (o mem h)
  Step-Owned {s = s} (allocated before after f fault req e w) o mem h =
      Moves-Owned mem s before after f _ (o mem h) e (
        ioc_alloc-Moved K fault (call s f) req (λ k p. Owned-IsValid k s before after f (o k p) e) w
          mem h)
  Step-Owned {s = s} (freed before after f fault req es e w a) o mem h =
      Moves-Owned mem s before after f _ (o mem h) e (
        ioc_free-Moved K fault (call s f) req es (λ k p. Owned-IsValid k s before after f (o k p) e)
          w a mem h)
  Step-Owned {s = s} (released before after f e) o mem h =
      let v : Sound (call s f) = λ k p. Owned-IsValid k s before after f (o k p) e in
      let t = hugepages_reclaim K (call s f) in
      rw (dev_release_lem K (call s f)) (
        drop-Owned mem t.led before after t.file (λ j. reclaim_all-empty K (call s f) v mem h j)
          (Moves-Owned mem s before after f t (o mem h) e (reclaim-Moved K (call s f) v mem h)))

  pub Reach-Owned : {s t : System} → AllOwned s → Reach K s t → AllOwned t
  Reach-Owned o here = o
  Reach-Owned o (next r st) = Step-Owned st (Reach-Owned o r)
