-- ===== src/Driver/Ledger/Search.antt =====
-- Stage 2 of `pim_hugepages_alloc`: what the scan for single runs finds, and that it finds enough.
use pim_sw.Common.{
  ℕ, zero, suc, ◌+◌, ◌-◌, ◌^◌, ◌≤◌, ◌<◌, ◌≡◌, refl, true, false, inl, inr, ltb, leb, arith, u32,
  length, Bool-cases,
}
use pim_sw.Driver.Bitmap.{Bitmap, BitmapOps, Clear, zeros, zeros_all_set, zeros-Clear}
use pim_sw.Driver.Ledger.{Ledger, run_length, scan}
use pim_sw.Driver.Ledger.Extents.{Fits, total}

-- The run that the inner loop takes: not more than asked, inside the ledger, all zero, and not
-- empty where it starts on a zero bit.
run_length-le : (l : Ledger) (idx left : ℕ) → run_length l idx left ≤ left
unfolding run_length
run_length-le l idx zero = omega arith
run_length-le l idx (suc left) = ground (arith, run_length-le l (idx + 1) left)

run_length-in :
    (l : Ledger) (idx left : ℕ)
    → idx ≤ l.nr_hugepages
    → idx + run_length l idx left ≤ l.nr_hugepages
unfolding run_length
run_length-in l idx zero h = omega arith
run_length-in l idx (suc left) h = ground (arith, run_length-in l (idx + 1) left)

run_length-Clear : (l : Ledger) (idx left : ℕ) → Clear l.bitmap idx (run_length l idx left)
unfolding run_length
run_length-Clear l idx zero j p q = absurd (omega arith)
run_length-Clear l idx (suc left) j p q = elim (Bool-cases (ltb idx j)) [
  | inl later ↦ ground (arith, run_length-Clear l (idx + 1) left j)
  | inr same ↦ let e : j ≡ idx = ground arith in ground (arith, e)
]

run_length-pos :
    (l : Ledger) (idx left : ℕ)
    → idx < l.nr_hugepages
    → l.bitmap idx ≡ false
    → 0 < left
    → 0 < run_length l idx left
unfolding run_length
run_length-pos l idx zero h z p = absurd (omega arith)
run_length-pos l idx (suc left) h z p = ground arith

-- From one run to the next the count of zeros grows by the length of the run.
run-zeros :
    (m : Bitmap) (idx start run : ℕ)
    → idx ≤ start
    → ((j : ℕ) → idx ≤ j → j < start → m j ≡ true)
    → Clear m start run
    → zeros m (start + run) ≡ zeros m idx + run
run-zeros m idx start run le skipped clear =
    let e : idx + (start - idx) ≡ start = omega arith in
    let gap : zeros m start ≡ zeros m idx =
      rw e at (zeros_all_set m idx (start - idx) (λ j p q. skipped j p (omega arith))) in
    omega (arith, gap, zeros-Clear m start run clear)

rest-zeros :
    (m : Bitmap) (idx n : ℕ)
    → idx ≤ n
    → ((j : ℕ) → idx ≤ j → j < n → m j ≡ true)
    → zeros m n ≡ zeros m idx
rest-zeros m idx n le skipped =
    let e : idx + (n - idx) ≡ n = omega arith in
    rw e at (zeros_all_set m idx (n - idx) (λ j p q. skipped j p (omega arith)))

module _ (K : BitmapOps) (l : Ledger) (nr cap : ℕ) where
  open K use {next_zero_bit, bit_from, bit_zero, bit_first}

  -- The facts of one round that finds a free hugepage.
  record Round (idx got start run : ℕ) : Type 0 where
    from : idx ≤ start
    fits : start + run ≤ l.nr_hugepages
    some_found : 0 < run
    wanted : got + run ≤ nr
    clear : Clear l.bitmap start run
    counted : zeros l.bitmap (start + run) ≡ zeros l.bitmap idx + run

  round :
      (idx got : ℕ)
      → idx ≤ l.nr_hugepages
      → got < nr
      → next_zero_bit l.bitmap l.nr_hugepages idx < l.nr_hugepages
      → let start = next_zero_bit l.bitmap l.nr_hugepages idx in
        Round idx got start (run_length l start (nr - got))
  round idx got h g p =
      let start = next_zero_bit l.bitmap l.nr_hugepages idx in
      let clear = run_length-Clear l start (nr - got) in
      let from = bit_from l.bitmap l.nr_hugepages idx h in
      record {
        from = from;
        fits = run_length-in l start (nr - got) (omega arith);
        some_found =
            run_length-pos l start (nr - got) p (bit_zero l.bitmap l.nr_hugepages idx p)
              (omega arith);
        wanted = omega (arith, run_length-le l start (nr - got));
        clear = clear;
        counted =
            run-zeros l.bitmap idx start _ from
              (λ j a b. bit_first l.bitmap l.nr_hugepages idx j a (omega arith) b) clear;
      }

  -- With as many zeros left as hugepages wanted, the scan finds them all, in at most as many runs.
  pub scan_enough :
      (fuel idx got nex : ℕ)
      → nr - got ≤ fuel
      → idx ≤ l.nr_hugepages
      → got ≤ nr
      → nr + zeros l.bitmap idx ≤ got + zeros l.bitmap l.nr_hugepages
      → ((scan K fuel l nr cap idx got nex).got ≡ nr)
        × ((scan K fuel l nr cap idx got nex).nex + got ≤ nex + nr)
  unfolding scan
  scan_enough zero idx got nex f h g z = omega arith
  scan_enough (suc fuel) idx got nex f h g z = elim (Bool-cases (ltb got nr)) [
    | inr done ↦ ground arith
    | inl more ↦
        elim (Bool-cases (leb l.nr_hugepages (next_zero_bit l.bitmap l.nr_hugepages idx))) [
          | inl end ↦
              let none_left : zeros l.bitmap l.nr_hugepages ≡ zeros l.bitmap idx =
                rest-zeros l.bitmap idx l.nr_hugepages h
                  (λ j a b. bit_first l.bitmap l.nr_hugepages idx j a b (ground arith)) in
              ground (arith, none_left)
          | inr found ↦
              let r = round idx got h (ground arith) (ground arith) in
              ground (
                arith,
                r.from,
                r.fits,
                r.some_found,
                r.wanted,
                r.counted,
                scan_enough fuel _ _ (nex + 1) (omega (arith, r.some_found)) r.fits r.wanted
                    (omega (arith, r.counted)),
              )
        ]
  ]

  -- The scan never finds more than it looks for.
  pub scan_most :
      (fuel idx got nex : ℕ)
      → idx ≤ l.nr_hugepages
      → got ≤ nr
      → (scan K fuel l nr cap idx got nex).got ≤ nr
  unfolding scan
  scan_most zero idx got nex h g = g
  scan_most (suc fuel) idx got nex h g = elim (Bool-cases (ltb got nr)) [
    | inr done ↦ ground arith
    | inl more ↦
        elim (Bool-cases (leb l.nr_hugepages (next_zero_bit l.bitmap l.nr_hugepages idx))) [
          | inl end ↦ ground arith
          | inr found ↦
              let r = round idx got h (ground arith) (ground arith) in
              ground (arith, scan_most fuel _ _ (nex + 1) r.fits r.wanted)
        ]
  ]

  -- Where the runs fit in `cap` extents, `out` lists them all: disjoint, ascending and free.
  pub scan-Fits :
      (fuel idx got nex : ℕ)
      → idx ≤ l.nr_hugepages
      → nr < 2 ^ 32
      → (scan K fuel l nr cap idx got nex).nex ≤ cap
      → Fits l idx (scan K fuel l nr cap idx got nex).out
        × (total (scan K fuel l nr cap idx got nex).out + got
            ≡ (scan K fuel l nr cap idx got nex).got)
        × (length (scan K fuel l nr cap idx got nex).out + nex
            ≡ (scan K fuel l nr cap idx got nex).nex)
  unfolding scan
  scan-Fits zero idx got nex h w c = (tt, omega arith, omega arith)
  scan-Fits (suc fuel) idx got nex h w c = elim (Bool-cases (ltb got nr)) [
    | inr done ↦ rw (done, scan) (tt, omega arith, omega arith)
    | inl more ↦
        elim (Bool-cases (leb l.nr_hugepages (next_zero_bit l.bitmap l.nr_hugepages idx))) [
          | inl end ↦ rw (more, end, scan) (tt, omega arith, omega arith)
          | inr found ↦
              let r = round idx got h (ground arith) (ground arith) in
              let start = next_zero_bit l.bitmap l.nr_hugepages idx in
              let run = run_length l start (nr - got) in
              let ih = scan-Fits fuel (start + run) (got + run) (nex + 1) r.fits w (ground arith) in
              let fit : ltb nex cap ≡ true = ground (arith, ih.2) in
              let same : u32 run ≡ run = omega (arith, r.wanted) in
              rw (more, found, fit, same, scan)
                (
                  (start, refl, r.from, r.some_found, r.fits, r.clear, ih.0),
                  omega (arith, ih.1),
                  omega (arith, ih.2),
                )
        ]
  ]

-- How much is found, and in how many runs, does not depend on the room for extents.
pub scan_room :
    (K : BitmapOps) (l : Ledger) (nr cap cap' fuel idx got nex : ℕ)
    → ((scan K fuel l nr cap idx got nex).got ≡ (scan K fuel l nr cap' idx got nex).got)
      × ((scan K fuel l nr cap idx got nex).nex ≡ (scan K fuel l nr cap' idx got nex).nex)
unfolding scan
scan_room K l nr cap cap' zero idx got nex = (refl, refl)
scan_room K l nr cap cap' (suc fuel) idx got nex =
    let start = K.next_zero_bit l.bitmap l.nr_hugepages idx in
    let run = run_length l start (nr - got) in
    ground (arith, scan_room K l nr cap cap' fuel (start + run) (got + run) (nex + 1))
