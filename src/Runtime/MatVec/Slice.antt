-- ===== src/Runtime/MatVec/Slice.antt =====
-- The chunks of a slice in sw/runtime/pim_matvec.c make up the slice, part by part.
use pim_sw.Common.{ℕ, zero, suc, ◌+◌, ◌-◌, ◌*◌, ◌/◌, ◌%◌, ◌^◌, ◌≤◌, ◌<◌, ◌≡◌, min, max, arith, u32}
use pim_sw.Runtime.MatVec.{
  slice_lo, slice_hi, slice_chunks, slice_part, matvec_beats, vec_words_from, slice_vec_word,
}

-- A slice that has an element, and ends a row and a beat before the numbers do.
pub record Short (off len : ℕ) : Type 0 where
  pub some_element : 1 ≤ len
  pub far : off + len + 1039 ≤ 2 ^ 32

-- The end of chunk number `i - 1`, or the start of the slice.
abbrev reach : ℕ → ℕ → ℕ → ℕ
reach lo hi i = max lo (min hi ((lo / 1024 + i) * 1024))

module _ (off len : ℕ) (short : Short off len) where
  abbrev lo : ℕ
  lo = slice_lo off

  abbrev hi : ℕ
  hi = slice_hi off len

  ends : (lo % 16 ≡ 0) × (hi % 16 ≡ 0) × (lo < hi) × (hi + 1024 ≤ 2 ^ 32)
  unfolding slice_lo slice_hi
  ends = omega (arith, short.far, short.some_element)

  abbrev last : ℕ
  last = (hi - 1) / 1024 - lo / 1024

  chunks_eq : slice_chunks off len ≡ last + 1
  unfolding slice_chunks
  chunks_eq = ground (arith, short.some_element, ends)

  beats_eq : matvec_beats off len ≡ (hi - lo) / 16
  unfolding matvec_beats
  beats_eq = ground (arith, short.some_element, ends)

  part_beats :
      (i : ℕ) → i ≤ last → (slice_part off len i).beats ≡ (reach lo hi (i + 1) - reach lo hi i) / 16
  unfolding slice_part
  part_beats i h = ground (arith, ends)

  -- Each part has a beat, and stays within its row.
  part_fits :
      (i : ℕ)
      → i ≤ last
      → (1 ≤ (slice_part off len i).beats)
        × ((slice_part off len i).col + (slice_part off len i).beats ≤ 64)
  unfolding slice_part
  part_fits i h = ground (arith, ends)

  words_eq :
      (n j used : ℕ)
      → j + n ≤ last + 1
      → used ≡ (reach lo hi j - lo) / 16
      → vec_words_from n j off len used ≡ (reach lo hi (j + n) - lo) / 16
  unfolding vec_words_from
  words_eq zero j used h e = omega (arith, e)
  words_eq (suc n) j used h e =
      let b = part_beats j (omega (arith, h)) in
      let next : u32 (used + (slice_part off len j).beats) ≡ (reach lo hi (j + 1) - lo) / 16 =
        rw b (omega (arith, e, ends)) in
      omega (
        arith,
        words_eq n (j + 1) (u32 (used + (slice_part off len j).beats)) (omega (arith, h)) next,
      )

  words_before : (n : ℕ) → n ≤ last + 1 → slice_vec_word off len n ≡ (reach lo hi n - lo) / 16
  unfolding slice_vec_word
  words_before n h = omega (arith, words_eq n 0 0 (omega (arith, h)) (omega (arith, ends)))

-- The parts of the slice, one behind the other, are the whole of it.
pub record Whole (off len : ℕ) : Type 0 where
  pub all_beats : slice_vec_word off len (slice_chunks off len) ≡ matvec_beats off len
  pub follows :
      (i : ℕ)
      → i < slice_chunks off len
      → slice_vec_word off len (i + 1) ≡ slice_vec_word off len i + (slice_part off len i).beats
  pub fits :
      (i : ℕ)
      → i < slice_chunks off len
      → (1 ≤ (slice_part off len i).beats)
        × ((slice_part off len i).col + (slice_part off len i).beats ≤ 64)

-- For a slice that has an element and ends a row and a beat before the 32-bit numbers do, the words of
-- the vector before each chunk are the beats of the chunks before it, those before the end of the
-- slice are all its beats, and each part has a beat and stays within its row of 64 beats.
pub slice-Whole : (off len : ℕ) → Short off len → Whole off len
slice-Whole off len short =
    let count = chunks_eq off len short in
    let words = words_before off len short in
    let bounds = ends off len short in
    record {
      all_beats = rw count (
          omega
            (arith, words (last off len short + 1) (omega arith), beats_eq off len short, bounds));
      follows = λ i h.
          let i_le : i ≤ last off len short = omega (arith, h, count) in
          omega (
            arith,
            words (i + 1) (omega (arith, i_le)),
            words i (omega (arith, i_le)),
            part_beats off len short i i_le,
            bounds,
            i_le,
          );
      fits = λ i h. part_fits off len short i (omega (arith, h, count));
    }
