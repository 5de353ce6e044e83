-- ===== src/Runtime/MatVec.antt =====
-- sw/runtime/pim_matvec.c: the slice of a matrix-vector product, cut into chunks of one row, and the
-- counts of instructions. The instructions themselves are not made here.
mod Slice
mod Tests
use pim_sw.Common.{
  ℕ, zero, suc, ◌+◌, ◌-◌, ◌*◌, ◌/◌, ◌%◌, ◌^◌, Bool, ltb, ◌==◌, ◌||◌, if◌then◌else◌, u32,
}

-- `pim_acc_mode`
pub data AccMode : Type 0 where
  single dual : AccMode

pub slice_lo : ℕ → ℕ
slice_lo off = off / 16 * 16

pub slice_hi : ℕ → ℕ → ℕ
slice_hi off len = u32 (u32 (off + len) + 16 - 1) / 16 * 16

pub matvec_beats : ℕ → ℕ → ℕ
unfolding slice_lo slice_hi
matvec_beats off len = if len == 0 then 0 else u32 (slice_hi off len + 2 ^ 32 - slice_lo off) / 16

pub slice_chunks : ℕ → ℕ → ℕ
unfolding slice_lo slice_hi
slice_chunks off len =
    let lo = slice_lo off / 1024 in
    let hi = u32 (slice_hi off len + 2 ^ 32 - 1) / 1024 in
    if len == 0 then 0 else u32 (u32 (hi + 2 ^ 32 - lo) + 1)

pub hoist_wrvec : ℕ → ℕ → Bool
unfolding slice_chunks
hoist_wrvec off len = slice_chunks off len == 1

-- A chunk's number, the beats before its part of the slice in its row, and the beats of that part.
pub record Part : Type 0 where
  pub chunk : ℕ
  pub col : ℕ
  pub beats : ℕ

pub slice_part : ℕ → ℕ → ℕ → Part
unfolding slice_lo slice_hi
slice_part off len i =
    let lo = slice_lo off in
    let hi = slice_hi off len in
    let ck = u32 (lo / 1024 + i) in
    let row = u32 (ck * 1024) in
    let beg = if ltb row lo then lo else row in
    let end = if ltb hi (u32 (row + 1024)) then hi else u32 (row + 1024) in
    record { chunk = ck; col = beg % 1024 / 16; beats = u32 (end + 2 ^ 32 - beg) / 16 }

-- The loop over the chunks from number `j` on, `n` of them.
pub vec_words_from : ℕ → ℕ → ℕ → ℕ → ℕ → ℕ
unfolding slice_part
vec_words_from zero j off len used = used
vec_words_from (suc n) j off len used =
    vec_words_from n (j + 1) off len (u32 (used + (slice_part off len j).beats))

pub slice_vec_word : ℕ → ℕ → ℕ → ℕ
unfolding vec_words_from
slice_vec_word off len i = vec_words_from i 0 off len 0

pub latches : AccMode → ℕ
latches AccMode.single = 1
latches AccMode.dual = 2

pub matvec_nwrvec : ℕ → ℕ → ℕ → AccMode → ℕ
unfolding latches slice_chunks hoist_wrvec
matvec_nwrvec count off len mode =
    let nck = slice_chunks off len in
    if count == 0 || nck == 0
    then 0
    else if hoist_wrvec off len
    then 1
    else u32 (u32 (count + latches mode - 1) / latches mode * nck)

-- The loop over the passes, from group `g0` on, with `fuel` rounds left: a round takes one group or
-- more.
pub groups_from : ℕ → ℕ → ℕ → ℕ → ℕ → ℕ → ℕ
groups_from zero g0 count nlatch nck n = n
groups_from (suc fuel) g0 count nlatch nck n =
    let ng = if ltb (u32 (count + 2 ^ 32 - g0)) nlatch then u32 (count + 2 ^ 32 - g0) else nlatch in
    let rest =
      groups_from fuel (u32 (g0 + nlatch)) count nlatch nck (u32 (n + u32 (nck * ng + ng))) in
    if ltb g0 count then rest else n

pub matvec_nisr : ℕ → ℕ → ℕ → AccMode → ℕ
unfolding latches slice_chunks matvec_nwrvec groups_from
matvec_nisr count off len mode =
    let nck = slice_chunks off len in
    if count == 0 || nck == 0
    then 1
    else groups_from count 0 count (latches mode) nck (u32 (1 + matvec_nwrvec count off len mode))
