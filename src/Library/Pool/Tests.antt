-- ===== src/Library/Pool/Tests.antt =====
-- A pool with one hugepage of two granules, and a driver with two more.
use mathlib.Core.Option.{some_inj}
use pim_sw.Common.{
  subst, Bool-cases, inl, inr, All, ℕ, zero, suc, ◌*◌, ◌<◌, ◌≡◌, refl, Bool, true, false, Option,
  none, some, arith, List, [], ◌∷◌, length, mark, unmark, Fresh, if◌then◌else◌, ◌==◌, ◌||◌,
}
use pim_sw.Driver.Bitmap.{zeros}
use pim_sw.Driver.Ledger.{Extent}
use pim_sw.Library.Geometry.{Region}
use pim_sw.Library.Records.{bisect, insert_at}
use pim_sw.Library.Pool.{
  take_new, insert_all, insert_run, pool_insert, sweep, sweep_from, grab, grab_from, set_gran,
  give_one, give_at, clear_gran, hugepage_find, find_from, page_of, gran_of, choose, push_extent,
  drop_marked, compact, reverse_onto, Pool, pool_take, pool_give, pool_trim, pool_grow, count_free,
}
use pim_sw.Library.Pool.Supply.{Source, Lawful, Place, pages_of}
use pim_sw.Library.Pool.Slots.{Cut, Ok}
use pim_sw.Library.Pool.Give.{Gives, pool_give-Gives}
use pim_sw.Library.Pool.Grow.{Settled, pool_grow-Settled}
use pim_sw.Library.Pool.Run.{InSet}

abbrev pub pairs : Region
pairs = record {
  base = 0;
  bytes = 0x6000;
  hugepage_bytes = 0x2000;
  gran = 0x1000;
  nr_hugepages = 3;
  gran_shift = 12;
  grans_per_hugepage = 2;
}

pairs-Cut : Cut pairs
pairs-Cut = record {
  gran_pos = omega arith;
  few = omega arith;
  whole = refl;
  some_bytes = omega arith;
}

-- The driver: its state is what it has given out, and it has the hugepages 0 and 0x2000.
abbrev grant : ℕ → ℕ → (ℕ → Bool) → Option (List Extent) × (ℕ → Bool)
grant zero room s = (some [], s)
grant (suc zero) room s =
    if s 0 then (none, s) else (some (record { addr = 0; nr_hugepages = 1 } ∷ []), mark (0 ∷ []) s)
grant (suc (suc zero)) room s =
    if s 0 || s 0x2000
    then (none, s)
    else (some (record { addr = 0; nr_hugepages = 2 } ∷ []), mark (0 ∷ 0x2000 ∷ []) s)
grant (suc (suc (suc n))) room s = (none, s)

abbrev two_left : Source (ℕ → Bool)
two_left = record { alloc = grant; free = λ es s. (true, unmark (pages_of pairs es) s) }

at_place : (i : ℕ) → i < 3 → Place pairs (i * 0x2000)
at_place i h = record { index = i; place = omega arith; below = omega arith }

-- What the driver promises of a grant of `es` that leads from `s` to `t`.
abbrev Grants : ℕ → (ℕ → Bool) → List Extent → (ℕ → Bool) → Type 0
Grants n s es t =
    Fresh (pages_of pairs es) s
    × (t ≡ mark (pages_of pairs es) s)
    × All (Place pairs) (pages_of pairs es)
    × (length (pages_of pairs es) ≡ n)

grant-Grants :
    (n room : ℕ) (s : ℕ → Bool) (es : List Extent)
    → (grant n room s).0 ≡ some es
    → Grants n s es (grant n room s).1
grant-Grants zero room s es e = subst (λ x. Grants 0 s x s) (some_inj.0 e) (tt, refl, tt, refl)
grant-Grants (suc zero) room s es e = elim (Bool-cases (s 0)) [
  | inl h ↦ absurd (ground (arith, rw h at e))
  | inr h ↦ rw h (
      subst (λ x. Grants 1 s x (mark (0 ∷ []) s)) (some_inj.0 (rw h at e))
        ((h, tt), refl, (at_place 0 (omega arith), tt), refl))
]
grant-Grants (suc (suc zero)) room s es e = elim (Bool-cases (s 0 || s 0x2000)) [
  | inl h ↦ absurd (ground (arith, rw h at e))
  | inr h ↦ rw h (
      subst (λ x. Grants 2 s x (mark (0 ∷ 0x2000 ∷ []) s)) (some_inj.0 (rw h at e))
        (
          (ground (arith, h), (ground (arith, h), tt)),
          refl,
          (at_place 0 (omega arith), (at_place 1 (omega arith), tt)),
          refl,
        ))
]
grant-Grants (suc (suc (suc n))) room s es e = absurd (ground (arith, e))

grant_refused : (n room : ℕ) (s : ℕ → Bool) → (grant n room s).0 ≡ none → (grant n room s).1 ≡ s
grant_refused zero room s e = refl
grant_refused (suc zero) room s e = elim (Bool-cases (s 0)) [
  | inl h ↦ rw h refl
  | inr h ↦ absurd (ground (arith, rw h at e))
]
grant_refused (suc (suc zero)) room s e = elim (Bool-cases (s 0 || s 0x2000)) [
  | inl h ↦ rw h refl
  | inr h ↦ absurd (ground (arith, rw h at e))
]
grant_refused (suc (suc (suc n))) room s e = refl

never_kept : (es : List Extent) (s : ℕ → Bool) → true ≡ false → unmark (pages_of pairs es) s ≡ s
never_kept es s e = absurd (ground (arith, e))

unfoldable two_left-Lawful : Lawful two_left pairs
two_left-Lawful = record {
  held = λ s. s;
  granted = grant-Grants;
  refused = grant_refused;
  freed = λ es s e. refl;
  kept = never_kept;
}

abbrev half : Pool
half = record {
  v = λ _. record { addr = 0x4000; used = λ g. g == 0; free_grans = 1 };
  n = 1;
  cap = 16;
}

half-Ok : Ok pairs half.v 1
unfolding zeros
half-Ok = record {
  sorted = λ i j p q. absurd (omega arith);
  place = λ i p. (2, refl);
  below = λ i p. omega arith;
  count = λ i p. refl;
}

abbrev started : ℕ → Bool
started a = a == 0x4000

half-InSet : InSet half started
half-InSet i p = refl

-- Three granules: the free one of the hugepage that is partly in use, and two of a new one. Four
-- would need two hugepages, and with five there is nothing to be had.
took :
    ((pool_take two_left false (λ _. false) pairs 3 half started).0
      ≡ some (0x5000 ∷ 0 ∷ 0x1000 ∷ []))
    × ((pool_take two_left false (λ _. false) pairs 4 half started).0
        ≡ some (0x5000 ∷ 0 ∷ 0x1000 ∷ 0x2000 ∷ []))
    × ((pool_take two_left false (λ _. false) pairs 6 half started).0 ≡ none)
unfolding pool_take take_new pool_grow insert_all insert_run pool_insert insert_at bisect sweep
    sweep_from grab grab_from set_gran pool_give give_one give_at clear_gran hugepage_find find_from
    page_of gran_of
took = (refl, refl, refl)

pool_grow-Settled_example :
    let (ok, q, t) = pool_grow two_left false (λ _. false) pairs 2 half started in
    Settled two_left pairs two_left-Lawful half q ok t 2
unfolding two_left-Lawful
pool_grow-Settled_example =
    pool_grow-Settled two_left pairs two_left-Lawful false (λ _. false) 2 half started half-Ok
      half-InSet

pool_give-Gives_example : Gives pairs half (pool_give pairs half (0x4000 ∷ [])) (0x4000 ∷ [])
pool_give-Gives_example =
    pool_give-Gives pairs pairs-Cut (0x4000 ∷ []) half half-Ok
      ((0, 0, omega arith, omega arith, refl), tt)

-- A pool with two hugepages that are entirely free.
abbrev idle : Pool
idle = record {
  v = λ i. record { addr = i * 0x2000; used = λ _. false; free_grans = 2 };
  n = 2;
  cap = 16;
}

idle-Ok : Ok pairs idle.v 2
unfolding zeros
idle-Ok = record {
  sorted = λ i j p q. omega arith;
  place = λ i p. (i, omega arith);
  below = λ i p. omega arith;
  count = λ i p. refl;
}

-- One of them is kept, the lower one.
trimmed : ((pool_trim two_left false pairs 1 false idle (λ _. true)).0).n ≡ 1
unfolding pool_trim count_free choose push_extent drop_marked compact reverse_onto
trimmed = refl
