-- ===== src/Driver/Bitmap.antt =====
-- The kernel's bitmap library, which sw/drv/pim_chunk.c calls and the repository does not hold. It
-- is a parameter: a record of the functions with what linux/bitmap.h and linux/find.h document of
-- them. `test_bit(j, m)` is `m j`.
pub mod Plain
use pim_sw.Common.{
  subst, ltb, inr, update_ne, inl, ◌==◌, Bool-cases, update, ℕ, zero, suc, ◌+◌, ◌-◌, ◌≤◌, ◌<◌, min,
  ◌≡◌, refl, Bool, true, false, arith, if◌then◌else◌, within,
}

abbrev pub Bitmap : Type 0
Bitmap = ℕ → Bool

-- The bits `i .. i + n` are all zero.
abbrev pub Clear : Bitmap → ℕ → ℕ → Type 0
Clear m i n = (j : ℕ) → i ≤ j → j < i + n → m j ≡ false

-- `bitmap_set`, `bitmap_clear`, `bitmap_find_next_zero_area` with align mask 0, and
-- `find_next_zero_bit`. A search that fails returns an index of at least the size.
pub record BitmapOps : Type 0 where
  pub set : Bitmap → ℕ → ℕ → Bitmap
  pub clear : Bitmap → ℕ → ℕ → Bitmap
  pub next_zero_area : Bitmap → ℕ → ℕ → ℕ → ℕ
  pub next_zero_bit : Bitmap → ℕ → ℕ → ℕ
  pub set_bit : (m : Bitmap) (i n j : ℕ) → set m i n j ≡ (if within i n j then true else m j)
  pub clear_bit : (m : Bitmap) (i n j : ℕ) → clear m i n j ≡ (if within i n j then false else m j)
  pub area_fits :
      (m : Bitmap) (size start n : ℕ)
      → next_zero_area m size start n < size
      → next_zero_area m size start n + n ≤ size
  pub area_clear :
      (m : Bitmap) (size start n : ℕ)
      → next_zero_area m size start n < size
      → Clear m (next_zero_area m size start n) n
  pub area_complete :
      (m : Bitmap) (size start n i : ℕ)
      → 0 < n
      → size ≤ next_zero_area m size start n
      → start ≤ i
      → i + n ≤ size
      → ¬ Clear m i n
  pub bit_from : (m : Bitmap) (size off : ℕ) → off ≤ size → off ≤ next_zero_bit m size off
  pub bit_zero :
      (m : Bitmap) (size off : ℕ)
      → next_zero_bit m size off < size
      → m (next_zero_bit m size off) ≡ false
  pub bit_first :
      (m : Bitmap) (size off j : ℕ) → off ≤ j → j < size → j < next_zero_bit m size off → m j ≡ true

-- How many of the bits below `n` are zero.
unfoldable pub zeros : Bitmap → ℕ → ℕ
zeros m zero = 0
zeros m (suc n) = (if m n then 0 else 1) + zeros m n

pub zeros-zero : (m : Bitmap) → zeros m 0 ≡ 0
unfolding zeros
zeros-zero m = omega arith

pub zeros-le : (m : Bitmap) (n : ℕ) → zeros m n ≤ n
unfolding zeros
zeros-le m zero = omega arith
zeros-le m (suc n) = ground (arith, zeros-le m n)

-- Two bitmaps that agree below `n` have the same count.
pub zeros_ext : (m m' : Bitmap) (n : ℕ) → ((j : ℕ) → j < n → m j ≡ m' j) → zeros m n ≡ zeros m' n
unfolding zeros
zeros_ext m m' zero h = refl
zeros_ext m m' (suc n) h =
    ground (arith, h n (omega arith), zeros_ext m m' n (λ j p. h j (omega arith)))

-- A stretch of set bits adds nothing to the count.
pub zeros_all_set :
    (m : Bitmap) (i n : ℕ)
    → ((j : ℕ) → i ≤ j → j < i + n → m j ≡ true)
    → zeros m (i + n) ≡ zeros m i
unfolding zeros
zeros_all_set m i zero h = let e : i + 0 ≡ i = omega arith in rw e refl
zeros_all_set m i (suc n) h =
    let e : i + suc n ≡ suc (i + n) = omega arith in
    rw e (
      ground (
        arith,
        h (i + n) (omega arith) (omega arith),
        zeros_all_set m i n (λ j p q. h j p (omega arith)),
      ))

-- A stretch of zero bits adds its length.
pub zeros-Clear : (m : Bitmap) (i n : ℕ) → Clear m i n → zeros m (i + n) ≡ zeros m i + n
unfolding zeros
zeros-Clear m i zero h = let e : i + 0 ≡ i = omega arith in rw e (omega arith)
zeros-Clear m i (suc n) h =
    let e : i + suc n ≡ suc (i + n) = omega arith in
    rw e (
      ground (
        arith,
        h (i + n) (omega arith) (omega arith),
        zeros-Clear m i n (λ j p q. h j p (omega arith)),
      ))

pub zeros_of_empty : (n : ℕ) → zeros (λ _. false) n ≡ n
unfolding zeros
zeros_of_empty zero = refl
zeros_of_empty (suc n) = omega (arith, zeros_of_empty n)

pub zeros_mono : (m : Bitmap) (i k : ℕ) → zeros m i ≤ zeros m (i + k)
unfolding zeros
zeros_mono m i zero = let e : i + 0 ≡ i = omega arith in rw e (omega arith)
zeros_mono m i (suc k) =
    let e : i + suc k ≡ suc (i + k) = omega arith in rw e (ground (arith, zeros_mono m i k))

module _ (K : BitmapOps) where
  open K use {set, clear, set_bit, clear_bit}

  -- Setting a stretch of zero bits takes its length off the count.
  pub zeros-set :
      (m : Bitmap) (i n size : ℕ)
      → Clear m i n
      → zeros (set m i n) size + (min size (i + n) - min size i) ≡ zeros m size
  unfolding zeros
  zeros-set m i n zero h = omega arith
  zeros-set m i n (suc size) h = ground (arith, zeros-set m i n size h, set_bit m i n size, h size)

  -- Clearing a stretch of set bits adds its length to the count.
  pub zeros-clear :
      (m : Bitmap) (i n size : ℕ)
      → ((j : ℕ) → i ≤ j → j < i + n → m j ≡ true)
      → zeros (clear m i n) size ≡ zeros m size + (min size (i + n) - min size i)
  unfolding zeros
  zeros-clear m i n zero h = omega arith
  zeros-clear m i n (suc size) h =
      ground (arith, zeros-clear m i n size h, clear_bit m i n size, h size)

-- Writing one bit moves the count by what the bit was and what it is.
pub zeros-update :
    (m : Bitmap) (g : ℕ) (b : Bool) (n : ℕ)
    → g < n
    → zeros (update m g b) n + (if m g then 0 else 1) ≡ zeros m n + (if b then 0 else 1)
unfolding zeros
zeros-update m g b zero h = absurd (omega arith)
zeros-update m g b (suc n) h = elim (Bool-cases (n == g)) [
  | inl e ↦
      let q : n ≡ g = ground (arith, e) in
      let same = zeros_ext (update m g b) m n (λ j p. update_ne m g j b (omega (arith, p, q))) in
      ground (arith, same, q)
  | inr e ↦ ground (arith, e, zeros-update m g b n (ground (arith, e)))
]

pub zeros-suc : (m : Bitmap) (n : ℕ) → zeros m (n + 1) ≡ (if m n then 0 else 1) + zeros m n
unfolding zeros
zeros-suc m n = ground arith

-- A count as large as can be says that each bit is zero.
pub zeros-full : (m : Bitmap) (n g : ℕ) → zeros m n ≡ n → g < n → m g ≡ false
unfolding zeros
zeros-full m zero g e h = absurd (omega arith)
zeros-full m (suc n) g e h =
    let most = zeros-le m n in
    elim (Bool-cases (g == n)) [
      | inl same ↦ let q : g ≡ n = ground (arith, same) in rw q (ground (arith, e, most))
      | inr other ↦ zeros-full m n g (ground (arith, e, most)) (ground (arith, other, h))
    ]

-- Each number below the count is the count up to a zero bit.
pub zeros-reach :
    (m : Bitmap) (n k : ℕ) → k < zeros m n → (j : ℕ) × (j < n) × (m j ≡ false) × (zeros m j ≡ k)
unfolding zeros
zeros-reach m zero k h = absurd (omega (arith, h))
zeros-reach m (suc n) k h = elim (Bool-cases (ltb k (zeros m n))) [
  | inl e ↦ let (j, p, q, s) = zeros-reach m n k (ground (arith, e)) in (j, omega (arith, p), q, s)
  | inr e ↦ elim (Bool-cases (m n)) [
    | inl u ↦ absurd (ground (arith, e, u, h))
    | inr u ↦ (n, omega arith, u, ground (arith, e, u, h))
  ]
]

-- A zero bit raises the count of what lies above it.
pub zeros-above : (m : Bitmap) (j i : ℕ) → m j ≡ false → j < i → zeros m j < zeros m i
zeros-above m j i u h =
    let e : j + 1 + (i - (j + 1)) ≡ i = omega arith in
    let up = subst (λ t. zeros m (j + 1) ≤ zeros m t) e (zeros_mono m (j + 1) (i - (j + 1))) in
    ground (arith, up, zeros-suc m j, u)
