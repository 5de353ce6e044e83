-- ===== src/Library/Records/Tests.antt =====
-- The record table on small data: two allocations, and a third between them.
use pim_sw.Common.{
  ◌⊎◌, ◌^◌, ℕ, zero, suc, ◌+◌, ◌≤◌, ◌<◌, ◌≡◌, refl, false, some, none, arith, inl, inr,
}
use pim_sw.Library.Records.{
  Rec, Table, bisect, insert_at, rec_insert, rec_lookup, rec_remove, find_exact, remove_at,
}
use pim_sw.Library.Records.Lookup.{
  Ordered, Fresh, rec_lookup-found, rec_lookup-rec_insert, rec_lookup_kept,
}
use pim_sw.Library.Records.Remove.{rec_lookup-rec_remove}

abbrev entry : ℕ → Rec
entry va = record { vbase = va; bytes = 16; mem = 0; nr_grans = 1; tag = 0; gran_addr = λ _. 0 }

abbrev rows : ℕ → Rec
rows zero = entry 100
rows (suc i) = entry 300

abbrev two : Table
two = record { allocs = rows; nallocs = 2; allocs_cap = 16 }

two-Ordered : Ordered two
two-Ordered = record {
  apart = λ i j p q. first i j p q;
  filled = λ i p. filled i;
  room = λ i p. room i;
}
  where
    first : (i j : ℕ) → i < j → j < 2 → (rows i).vbase + (rows i).bytes ≤ (rows j).vbase
    first zero zero p q = absurd (omega arith)
    first zero (suc j) p q = omega arith
    first (suc i) j p q = absurd (omega arith)

    filled : (i : ℕ) → 0 < (rows i).bytes
    filled zero = omega arith
    filled (suc i) = omega arith

    room : (i : ℕ) → (rows i).vbase + (rows i).bytes < 2 ^ 64
    room zero = omega arith
    room (suc i) = omega arith

between-Fresh : Fresh two (entry 200)
between-Fresh = record { some_bytes = omega arith; room = omega arith; clear = λ i p. sides i }
  where
    sides : (i : ℕ) → ((rows i).vbase + (rows i).bytes ≤ 200) ⊎ (216 ≤ (rows i).vbase)
    sides zero = inl (omega arith)
    sides (suc i) = inr (omega arith)

abbrev three : Table
three = record { allocs = insert_at 1 (entry 200) rows; nallocs = 3; allocs_cap = 16 }

inserted : rec_insert false two (entry 200) ≡ some three
unfolding rec_insert bisect
inserted = refl

looked_up : (rec_lookup two 307 ≡ some (entry 300)) × (rec_lookup two 116 ≡ none)
unfolding rec_lookup bisect
looked_up = (refl, refl)

abbrev one : Table
one = record { allocs = remove_at 0 rows; nallocs = 1; allocs_cap = 16 }

removed : rec_remove two 100 ≡ (some (entry 100), one)
unfolding rec_remove find_exact
removed = refl

rec_lookup-found_example : rec_lookup two 307 ≡ some (entry 300)
rec_lookup-found_example =
    rec_lookup-found two 307 1 two-Ordered (omega arith) (omega arith, omega arith)

rec_lookup-rec_insert_example : rec_lookup three 208 ≡ some (entry 200)
rec_lookup-rec_insert_example =
    rec_lookup-rec_insert false two three (entry 200) 208 two-Ordered between-Fresh inserted
      (omega arith, omega arith)

rec_lookup_kept_example : rec_lookup three 307 ≡ some (entry 300)
rec_lookup_kept_example =
    rec_lookup_kept false two three (entry 200) (entry 300) 307 two-Ordered between-Fresh inserted
      looked_up.0

rec_lookup-rec_remove_example : ((entry 100).vbase ≡ 100) × (rec_lookup one 110 ≡ none)
rec_lookup-rec_remove_example =
    rec_lookup-rec_remove two one 100 110 (entry 100) two-Ordered removed (omega arith, omega arith)
