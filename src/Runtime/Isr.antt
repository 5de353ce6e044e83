-- ===== src/Runtime/Isr.antt =====
-- A 256-bit instruction word, as a test of the bit's number: bit b of `struct emu_isr` is bit b % 64
-- of `w[b / 64]`. `emu_isr_set` of hwdef/emu_regs.h and `isr_put` of sw/runtime/pim_lower.c.
use pim_sw.Common.{
  ℕ, zero, suc, ◌+◌, ◌-◌, ◌/◌, ◌%◌, ◌^◌, ◌≡◌, Bool, true, false, ◌&&◌, ltb, leb, ◌==◌,
  if◌then◌else◌, update, arith, ap, Bool-cases, inl, inr,
}

abbrev pub Isr : Type 0
Isr = ℕ → Bool

-- `(v >> i) & 1`
abbrev pub bit : ℕ → ℕ → Bool
bit v i = v / 2 ^ i % 2 == 1

-- The loop of `emu_isr_set` with `n` rounds left, from round `i` on. It raises bits and clears none.
set_from : ℕ → ℕ → Isr → ℕ → ℕ → Isr
set_from zero i w lo v = w
set_from (suc n) i w lo v = set_from n (i + 1) (if bit v i then update w (lo + i) true else w) lo v

unfoldable pub isr_set : Isr → ℕ → ℕ → ℕ → Isr
unfolding set_from
isr_set w lo width v = set_from width 0 w lo v

-- The loop of `isr_put` with `n` rounds left, from round `i` on.
clear_from : ℕ → ℕ → Isr → ℕ → Isr
clear_from zero i w lo = w
clear_from (suc n) i w lo = clear_from n (i + 1) (update w (lo + i) false) lo

unfoldable pub isr_put : Isr → ℕ → ℕ → ℕ → Isr
unfolding isr_set clear_from
isr_put w lo width v = isr_set (clear_from width 0 w lo) lo width v

-- The bits of a field, which starts at bit `lo`.
abbrev pub in_field : ℕ → ℕ → ℕ → Bool
in_field lo width b = leb lo b && ltb b (lo + width)

raised :
    (v i : ℕ) (w : Isr) (p b : ℕ)
    → (if bit v i then update w p true else w) b ≡ (if b == p && bit v i then true else w b)
raised v i w p b = ground arith

set_from_lem :
    (n i : ℕ) (w : Isr) (lo v b : ℕ)
    → set_from n i w lo v b ≡ (if in_field (lo + i) n b && bit v (b - lo) then true else w b)
unfolding set_from
set_from_lem zero i w lo v b = ground arith
set_from_lem (suc n) i w lo v b =
    let here : Isr = if bit v i then update w (lo + i) true else w in
    let rest = set_from_lem n (i + 1) here lo v b in
    elim (Bool-cases (b == lo + i)) [
      | inl e ↦
          let at : b - lo ≡ i = ground (arith, e) in
          let first = raised v i w (lo + i) b in ground (arith, rest, first, e, ap (bit v) at)
      | inr e ↦ let first = raised v i w (lo + i) b in ground (arith, rest, first, e)
    ]

clear_from_lem :
    (n i : ℕ) (w : Isr) (lo b : ℕ)
    → clear_from n i w lo b ≡ (if in_field (lo + i) n b then false else w b)
unfolding clear_from
clear_from_lem zero i w lo b = ground arith
clear_from_lem (suc n) i w lo b =
    ground (arith, clear_from_lem n (i + 1) (update w (lo + i) false) lo b)

-- A field that is put holds the low bits of the value, whatever it held before, and no other bit of
-- the word changes.
pub isr_put_lem :
    (w : Isr) (lo width v b : ℕ)
    → isr_put w lo width v b ≡ (if in_field lo width b then bit v (b - lo) else w b)
unfolding isr_put isr_set
isr_put_lem w lo width v b =
    ground
      (arith, set_from_lem width 0 (clear_from width 0 w lo) lo v b, clear_from_lem width 0 w lo b)
