-- ===== src/Driver/Bitmap/Plain.antt =====
-- Bitmap operations that meet the documented behaviour: plain scans over the bits. They stand in for
-- the kernel's library where a theorem is applied to concrete data.
use pim_sw.Common.{
  ℕ, zero, suc, ◌+◌, ◌≤◌, ◌<◌, ◌≡◌, refl, Bool, true, false, ◌&&◌, not, arith, ltb, leb, ◌==◌,
  if◌then◌else◌, within, Bool-cases, inl, inr,
}
use pim_sw.Driver.Bitmap.{Bitmap, BitmapOps, Clear}

-- The bits `i .. i + n` are all zero.
unfoldable pub clear_run : Bitmap → ℕ → ℕ → Bool
clear_run m i zero = true
clear_run m i (suc n) = not (m i) && clear_run m (i + 1) n

pub clear_run-Clear : (m : Bitmap) (i n : ℕ) → clear_run m i n ≡ true → Clear m i n
unfolding clear_run
clear_run-Clear m i zero h j p q = absurd (omega arith)
clear_run-Clear m i (suc n) h j p q = elim (Bool-cases (ltb i j)) [
  | inl later ↦ ground (arith, clear_run-Clear m (i + 1) n (ground arith) j)
  | inr same ↦ let e : j ≡ i = ground arith in ground (arith, e)
]

pub Clear-clear_run : (m : Bitmap) (i n : ℕ) → Clear m i n → clear_run m i n ≡ true
unfolding clear_run
Clear-clear_run m i zero h = refl
Clear-clear_run m i (suc n) h = ground (
  arith,
  h i (omega arith) (omega arith),
  Clear-clear_run m (i + 1) n (λ j p q. h j (omega arith) (omega arith)),
)

-- From `i` on, `fuel` places are tried.
unfoldable pub area_from : Bitmap → ℕ → ℕ → ℕ → ℕ → ℕ
area_from m size n zero i = size
area_from m size n (suc fuel) i =
    let rest = area_from m size n fuel (i + 1) in
    if leb (i + n) size && clear_run m i n then i else rest

pub area_from-found :
    (m : Bitmap) (size n fuel i : ℕ)
    → area_from m size n fuel i < size
    → (area_from m size n fuel i + n ≤ size) × (clear_run m (area_from m size n fuel i) n ≡ true)
unfolding area_from
area_from-found m size n zero i h = absurd (omega arith)
area_from-found m size n (suc fuel) i h = elim (Bool-cases (leb (i + n) size && clear_run m i n)) [
  | inl here ↦ rw here (ground (arith, here), ground (arith, here))
  | inr on ↦ rw on (area_from-found m size n fuel (i + 1) (rw on at h))
]

pub area_from-missed :
    (m : Bitmap) (size n fuel i k : ℕ)
    → 0 < n
    → size ≤ area_from m size n fuel i
    → i ≤ k
    → k + n ≤ size
    → size ≤ i + fuel
    → clear_run m k n ≡ false
unfolding area_from
area_from-missed m size n zero i k p h a b c = absurd (omega arith)
area_from-missed m size n (suc fuel) i k p h a b c =
    elim (Bool-cases (leb (i + n) size && clear_run m i n)) [
      | inl here ↦ absurd (ground (arith, here))
      | inr on ↦ elim (Bool-cases (k == i)) [
        | inl same ↦ let e : k ≡ i = ground arith in rw e (ground (arith, on))
        | inr later ↦
            area_from-missed m size n fuel (i + 1) k p (rw on at h) (ground arith) b (omega arith)
      ]
    ]

unfoldable pub bit_from : Bitmap → ℕ → ℕ → ℕ → ℕ
bit_from m size zero i = size
bit_from m size (suc fuel) i =
    let rest = bit_from m size fuel (i + 1) in if leb size i then size else if m i then rest else i

pub bit_from-le : (m : Bitmap) (size fuel i : ℕ) → i ≤ size → i ≤ bit_from m size fuel i
unfolding bit_from
bit_from-le m size zero i h = h
bit_from-le m size (suc fuel) i h = ground (arith, bit_from-le m size fuel (i + 1))

pub bit_from-zero :
    (m : Bitmap) (size fuel i : ℕ)
    → bit_from m size fuel i < size
    → m (bit_from m size fuel i) ≡ false
unfolding bit_from
bit_from-zero m size zero i h = absurd (omega arith)
bit_from-zero m size (suc fuel) i h = elim (Bool-cases (leb size i)) [
  | inl end ↦ absurd (ground (arith, end))
  | inr inside ↦ elim (Bool-cases (m i)) [
    | inl set_here ↦
        rw (inside, set_here) (bit_from-zero m size fuel (i + 1) (rw (inside, set_here) at h))
    | inr free ↦ rw (inside, free) free
  ]
]

pub bit_from-first :
    (m : Bitmap) (size fuel i j : ℕ)
    → i ≤ j
    → j < size
    → j < bit_from m size fuel i
    → size ≤ i + fuel
    → m j ≡ true
unfolding bit_from
bit_from-first m size zero i j a b c d = absurd (omega arith)
bit_from-first m size (suc fuel) i j a b c d = elim (Bool-cases (m i)) [
  | inr free ↦ absurd (ground (arith, free))
  | inl taken ↦ elim (Bool-cases (j == i)) [
    | inl same ↦ let e : j ≡ i = ground arith in rw e taken
    | inr later ↦ ground (arith, taken, bit_from-first m size fuel (i + 1) j)
  ]
]

pub area_from_complete :
    (m : Bitmap) (size start n i : ℕ)
    → 0 < n
    → size ≤ area_from m size n size start
    → start ≤ i
    → i + n ≤ size
    → clear_run m i n ≡ true
    → ⊥
area_from_complete m size start n i p h a b c =
    ground (arith, area_from-missed m size n size start i p h a b (omega arith), c)

unfoldable pub plain_ops : BitmapOps
unfolding area_from bit_from clear_run
plain_ops = record {
  set = λ m i n j. if within i n j then true else m j;
  clear = λ m i n j. if within i n j then false else m j;
  next_zero_area = λ m size start n. area_from m size n size start;
  next_zero_bit = λ m size off. bit_from m size size off;
  set_bit = λ m i n j. refl;
  clear_bit = λ m i n j. refl;
  area_fits = λ m size start n h. (area_from-found m size n size start h).0;
  area_clear = λ m size start n h. clear_run-Clear m _ n (area_from-found m size n size start h).1;
  area_complete = λ m size start n i p h a b c.
      area_from_complete m size start n i p h a b (Clear-clear_run m i n c);
  bit_from = λ m size off h. bit_from-le m size size off h;
  bit_zero = λ m size off h. bit_from-zero m size size off h;
  bit_first = λ m size off j a b c. bit_from-first m size size off j a b c (omega arith);
}
