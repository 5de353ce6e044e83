-- ===== src/Runtime/MatVec/Tests.antt =====
-- Runs of the counts of sw/runtime/pim_matvec.c.
use pim_sw.Common.{◌+◌, ◌≡◌, refl, arith}
use pim_sw.Runtime.MatVec.Slice.{Short, Whole, slice-Whole}
use pim_sw.Runtime.MatVec.{AccMode, slice_chunks, slice_vec_word, matvec_nisr}

three_chunks : slice_chunks 1000 2000 ≡ 3
unfolding slice_chunks
three_chunks = refl

word_of_third : slice_vec_word 1000 2000 2 ≡ 66
unfolding slice_vec_word
word_of_third = refl

five_groups : matvec_nisr 5 1000 2000 AccMode.dual ≡ 1 + 9 + 15 + 5
unfolding matvec_nisr
five_groups = refl

-- 2000 elements from number 1000 on
two_thousand : Short 1000 2000
two_thousand = record { some_element = omega arith; far = omega arith }

slice-Whole_example : Whole 1000 2000
slice-Whole_example = slice-Whole 1000 2000 two_thousand
