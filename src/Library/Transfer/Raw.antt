-- ===== src/Library/Transfer/Raw.antt =====
-- The raw window of sw/lib/pim_memcpy.c: no call reaches outside it.
use pim_sw.Common.{
  ℕ, ◌+◌, ◌-◌, ◌^◌, ◌≤◌, ◌<◌, ◌≡◌, ◌↔◌, none, arith, ◌==◌, Bool-cases, Option-cases, inl, inr, List,
  [], ◌∷◌, All,
}
use pim_sw.Library.Transfer.{Dir, Queues, Chunk, Window, raw_ok, axi_move, xfer}
use pim_sw.Library.Transfer.Chunks.{Spans, Told-most, xfer-Outcome}

-- The call stays within `n` bytes from `base` on.
abbrev pub Stays : ℕ → ℕ → Chunk → Type 0
Stays base n c = (base ≤ c.card) × (c.card + c.size ≤ base + n)

Spans-Stays :
    (most axi host n base room : ℕ) (l : List Chunk)
    → base ≤ axi
    → axi + n ≤ base + room
    → Spans most axi host n l
    → All (Stays base room) l
Spans-Stays most axi host n base room [] p q s = tt
Spans-Stays most axi host n base room (c ∷ l) p q (a, h, pos, low, few, s) = (
  (omega (arith, a, p), omega (arith, a, q, few)),
  Spans-Stays most (axi + c.size) (host + c.size) (n - c.size) base room l (omega (arith, p))
      (omega (arith, q, few)) s,
)

-- A range is accepted exactly where the window is open and the range lies within it.
pub raw_ok_iff :
    (w : Window) (axi n : ℕ)
    → (raw_ok w axi n ≡ none)
      ↔ ((0 < w.raw_bytes) × (w.raw_base ≤ axi) × (axi + n ≤ w.raw_base + w.raw_bytes))
unfolding raw_ok
raw_ok_iff w axi n = (λ h. ground (arith, h), λ (a, b, c). ground (arith, a, b, c))

module _ (Q : Queues) (w : Window) (some_size : 0 < w.max_xfer)
    (below : w.raw_base + w.raw_bytes < 2 ^ 64) where
  -- Where the window ends below 2^64 and a call may have at least one byte, every call of a raw
  -- read or write stays within the window, whatever address and size are asked for.
  pub axi_move-Stays :
      (dir : Dir) (axi host n : ℕ)
      → All (Stays w.raw_base w.raw_bytes) (axi_move Q w dir axi host n).0
  unfolding axi_move
  axi_move-Stays dir axi host n = elim (Bool-cases (host == 0)) [
    | inl h ↦ rw h tt
    | inr h ↦ elim (Bool-cases (n == 0)) [
      | inl z ↦ rw (h, z) tt
      | inr z ↦ elim (Option-cases (raw_ok w axi n)) [
        | inr (b, e) ↦ rw (h, z, e) tt
        | inl e ↦
            let (open_, low, high) = (raw_ok_iff w axi n).0 e in
            let x =
              xfer-Outcome Q w.max_xfer some_size dir 0 axi host n 0 (omega (arith, high, below)) in
            rw (h, z, e)
              (Spans-Stays w.max_xfer axi host x.m w.raw_base w.raw_bytes
                (xfer Q w.max_xfer 0 dir axi host n 0).0 low
                (omega (
                  arith,
                  high,
                  Told-most (xfer Q w.max_xfer 0 dir axi host n 0).2 x.m n axi 0 x.told,
                ))
                x.spans)
      ]
    ]
  ]
