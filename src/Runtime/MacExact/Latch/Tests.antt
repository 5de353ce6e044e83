-- ===== src/Runtime/MacExact/Latch/Tests.antt =====
-- Runs of the bit-exact accumulation of sw/runtime/pim_mac_exact.c, and its theorems at concrete
-- inputs.
use pim_sw.Common.{ℕ, zero, suc, ◌<◌, ◌≡◌, inl, inr, refl, List, [], ◌∷◌, arith}
use pim_sw.Runtime.MacExact.{Lane, multiply, product_nan, is_zero, is_inf, is_nan}
use pim_sw.Runtime.MacExact.Latch.{mac_exact}
use pim_sw.Runtime.MacExact.Latch.Nan.{nan_spreads}
use pim_sw.Runtime.MacExact.Latch.Silence.{Vanishes, Replaced, zeros_silence}
use pim_sw.Runtime.MacExact.Latch.Exact.{Exact, beat_of-Exact}

-- 1, 1, 1, ...
abbrev ones : ℕ → ℕ
ones i = 0x3f80

one_times_one : mac_exact ones ones 1 ≡ 0x3f80
unfolding mac_exact
one_times_one = refl

-- Seventeen products take two beats.
seventeen : mac_exact ones ones 17 ≡ 0x4188
unfolding mac_exact
seventeen = refl

-- 1, 1, and an infinity; 1, 1, and 0
abbrev with_infinity : ℕ → ℕ
with_infinity (suc (suc zero)) = 0x7f80
with_infinity i = 0x3f80

abbrev with_zero : ℕ → ℕ
with_zero (suc (suc zero)) = 0
with_zero i = 0x3f80

-- 1, 1, and -2
abbrev with_two : ℕ → ℕ
with_two (suc (suc zero)) = 0xc000
with_two i = 0x3f80

zero_times_infinity : mac_exact with_infinity with_zero 3 ≡ 0x7fc0
unfolding mac_exact
zero_times_infinity = refl

infinity_times_minus_two : mac_exact with_infinity with_two 3 ≡ 0xff80
unfolding mac_exact
infinity_times_minus_two = refl

cancelled : mac_exact ones with_two 3 ≡ 0
unfolding mac_exact
cancelled = refl

-- The third product is zero times an infinity.
nan_spreads_example : mac_exact with_infinity with_zero 3 ≡ 0x7fc0
unfolding product_nan
nan_spreads_example = nan_spreads with_infinity with_zero 3 2 (omega arith) (omega arith) refl

minus_two_times_zero : Vanishes 0xc000 0
unfolding is_zero is_inf is_nan
minus_two_times_zero = record { zero_factor = refl; first = refl; second = refl }

one_times_zero : Vanishes 0x3f80 0
unfolding is_zero is_inf is_nan
one_times_zero = record { zero_factor = refl; first = refl; second = refl }

only_the_last : (i : ℕ) → i < 3 → Replaced with_two with_zero ones with_zero i
only_the_last zero h = inl (refl, refl)
only_the_last (suc zero) h = inl (refl, refl)
only_the_last (suc (suc zero)) h = inr (minus_two_times_zero, one_times_zero)
only_the_last (suc (suc (suc i))) h = absurd (omega arith)

zeros_silence_example : mac_exact with_two with_zero 3 ≡ mac_exact ones with_zero 3
zeros_silence_example = zeros_silence with_two with_zero ones with_zero 3 only_the_last

abbrev two_lanes : List Lane
two_lanes = multiply 0x3f80 0xc000 ∷ multiply 0x3f80 0x3f80 ∷ []

beat_of-Exact_example : Exact two_lanes
beat_of-Exact_example = beat_of-Exact two_lanes (omega arith)
