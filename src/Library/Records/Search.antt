-- ===== src/Library/Records/Search.antt =====
-- The binary search of sw/lib/pim_alloc.c finds the border of a test that holds up to some place.
use pim_sw.Common.{
  ℕ, zero, suc, ◌+◌, ◌-◌, ◌/◌, ◌≤◌, ◌<◌, ◌≡◌, Bool, true, false, arith, ltb, Bool-cases, inl, inr,
}
use pim_sw.Library.Records.{bisect}

-- The test holds below `r` and fails from `r` on, within `lo .. hi`.
pub record Border (before : ℕ → Bool) (lo hi r : ℕ) : Type 0 where
  pub low : lo ≤ r
  pub high : r ≤ hi
  pub holds : (i : ℕ) → lo ≤ i → i < r → before i ≡ true
  pub fails : (i : ℕ) → r ≤ i → i < hi → before i ≡ false

-- For a test that holds up to some place below `hi`, the loop with a round for each place ends at
-- the border: the test holds below it and fails from it on.
pub bisect-Border :
    (fuel : ℕ) (before : ℕ → Bool) (lo hi : ℕ)
    → ((i j : ℕ) → i ≤ j → j < hi → before j ≡ true → before i ≡ true)
    → lo ≤ hi
    → hi ≤ lo + fuel
    → Border before lo hi (bisect fuel before lo hi)
unfolding bisect
bisect-Border zero before lo hi mono p q = record {
  low = omega arith;
  high = p;
  holds = λ i a b. absurd (omega arith);
  fails = λ i a b. absurd (omega arith);
}
bisect-Border (suc fuel) before lo hi mono p q = elim (Bool-cases (ltb lo hi)) [
  | inr done ↦ rw done (record {
    low = omega arith;
    high = p;
    holds = λ i a b. absurd (omega arith);
    fails = λ i a b. absurd (ground (arith, done));
  })
  | inl more ↦
      let mid = lo + (hi - lo) / 2 in
      elim (Bool-cases (before mid)) [
        | inl yes_mid ↦
            let r =
              bisect-Border fuel before (mid + 1) hi mono (ground (arith, more))
                (ground (arith, more)) in
            rw (more, yes_mid)
              (record {
                low = omega (arith, r.low);
                high = r.high;
                holds = λ i a b. elim (Bool-cases (ltb mid i)) [
                  | inl up ↦ r.holds i (ground (arith, up)) b
                  | inr down ↦ mono i mid (ground (arith, down)) (ground (arith, more)) yes_mid
                ];
                fails = r.fails;
              })
        | inr no_mid ↦
            let r =
              bisect-Border fuel before lo mid (λ i j a b. mono i j a (ground (arith, more)))
                (omega arith) (ground (arith, more)) in
            rw (more, no_mid)
              (record {
                low = r.low;
                high = omega (arith, r.high);
                holds = r.holds;
                fails = λ i a b. elim (Bool-cases (ltb i mid)) [
                  | inl down ↦ r.fails i a (ground (arith, down))
                  | inr up ↦ elim (Bool-cases (before i)) [
                    | inr no_i ↦ no_i
                    | inl yes_i ↦
                        absurd (ground (arith, mono mid i (ground (arith, up)) b yes_i, no_mid))
                  ]
                ];
              })
      ]
]
