-- ===== src/Runtime/MacExact/Latch/Nan.antt =====
-- A product that is no number, in sw/runtime/pim_mac_exact.c: from its lane through its beat and the
-- accumulator to the result.
use pim_sw.Common.{
  ℕ, zero, suc, ◌+◌, ◌*◌, ◌/◌, ◌^◌, ◌≤◌, ◌<◌, ◌≡◌, inl, inr, refl, ap, Bool, true, false, ◌||◌,
  List, ltb, ◌==◌, if◌then◌else◌, arith, Bool-cases, lt→ltb, u32,
}
use pim_sw.Runtime.MacExact.{product_nan, multiply, Lane, lanes, any, Beat, beat_of, ingest}
use pim_sw.Runtime.MacExact.Latch.{Latch, empty_latch, accumulate, beats_from, to_bf16, mac_exact}

or_right : (a b : Bool) → b ≡ true → (a || b) ≡ true
or_right true b e = refl
or_right false b e = e

or_left : (a b : Bool) → a ≡ true → (a || b) ≡ true
or_left a b e = ap (λ c. c || b) e

lane_nan :
    (n idx : ℕ) (w x : ℕ → ℕ) (k i : ℕ)
    → idx ≤ i
    → i < idx + n
    → i < k
    → product_nan (w i) (x i) ≡ true
    → any (λ l. l.nan) (lanes n idx w x k) ≡ true
unfolding lanes any multiply
lane_nan zero idx w x k i from to short e = absurd (omega arith)
lane_nan (suc n) idx w x k i from to short e = elim (Bool-cases (idx == i)) [
  | inl here ↦
      let same : idx ≡ i = ground (arith, here) in
      or_left (multiply (if ltb idx k then w idx else 0) (if ltb idx k then x idx else 0)).nan _
        (rw (same, lt→ltb i k short) e)
  | inr later ↦
      or_right _ _ (lane_nan n (idx + 1) w x k i (ground (arith, later)) (omega arith) short e)
]

beat-nan : (ls : List Lane) → any (λ l. l.nan) ls ≡ true → (beat_of ls).nan ≡ true
unfolding beat_of ingest
beat-nan ls e = or_left _ _ e

latch_keeps_nan : (l : Latch) (b : Beat) → l.nan ≡ true → (accumulate l b).nan ≡ true
unfolding accumulate
latch_keeps_nan l b e = rw e refl

latch_takes_nan : (l : Latch) (b : Beat) → b.nan ≡ true → (accumulate l b).nan ≡ true
unfolding accumulate
latch_takes_nan l b e = elim (Bool-cases l.nan) [
  | inl old ↦ rw old refl
  | inr new ↦ rw (new, e) refl
]

beats_keep_nan :
    (n idx : ℕ) (w x : ℕ → ℕ) (k : ℕ) (l : Latch)
    → l.nan ≡ true
    → (beats_from n idx w x k l).nan ≡ true
unfolding beats_from
beats_keep_nan zero idx w x k l e = e
beats_keep_nan (suc n) idx w x k l e = beats_keep_nan n (idx + 16) w x k _ (latch_keeps_nan l _ e)

beats_take_nan :
    (n idx : ℕ) (w x : ℕ → ℕ) (k i : ℕ) (l : Latch)
    → idx ≤ i
    → i < idx + n * 16
    → i < k
    → product_nan (w i) (x i) ≡ true
    → (beats_from n idx w x k l).nan ≡ true
unfolding beats_from
beats_take_nan zero idx w x k i l from to short e = absurd (omega arith)
beats_take_nan (suc n) idx w x k i l from to short e = elim (Bool-cases (ltb i (idx + 16))) [
  | inl here ↦ beats_keep_nan n (idx + 16) w x k (accumulate l (beat_of (lanes 16 idx w x k))) (
      latch_takes_nan l (beat_of (lanes 16 idx w x k)) (
        beat-nan (lanes 16 idx w x k)
          (lane_nan 16 idx w x k i from (ground (arith, here)) short e)))
  | inr later ↦ beats_take_nan n (idx + 16) w x k i _ (ground (arith, later)) (omega arith) short e
]

result_nan : (l : Latch) → l.nan ≡ true → to_bf16 l ≡ 0x7fc0
unfolding to_bf16
result_nan l e = rw e refl

-- Where `k + 15` is below 2 ^ 32 and does not wrap, if the product of one of the `k` pairs is no number, by the rules of BF16 (an operand that is none,
-- or zero times an infinity), then so is the result: it is 0x7fc0, whatever the other pairs are.
pub nan_spreads :
    (w x : ℕ → ℕ) (k i : ℕ)
    → k + 15 < 2 ^ 32
    → i < k
    → product_nan (w i) (x i) ≡ true
    → mac_exact w x k ≡ 0x7fc0
unfolding mac_exact
nan_spreads w x k i fits short e =
    result_nan (beats_from (u32 (k + 15) / 16) 0 w x k empty_latch)
      (beats_take_nan (u32 (k + 15) / 16) 0 w x k i empty_latch (omega arith) (omega arith) short e)
