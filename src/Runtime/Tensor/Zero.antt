-- ===== src/Runtime/Tensor/Zero.antt =====
-- The zero contract of sw/include/pimrt/pim_tensor.h for a tensor that grows along the reduction:
-- what `pim_tensor_append` and `pim_tensor_truncate` keep.
use pim_sw.Common.{
  ℕ, ◌+◌, ◌-◌, ◌*◌, ◌/◌, ◌^◌, ◌≤◌, ◌<◌, ◌≡◌, inl, inr, refl, sym, ◌∙◌, ap, Bool, true, false, none,
  ltb, leb, if◌then◌else◌, arith, u32,
}
use pim_sw.Library.Geometry.{Geometry}
use pim_sw.Runtime.Tensor.{
  Layout, Tensor, offset, unit_of, Rect, Card, host_elem, is_red, elems_per_row, elems_per_beat,
}
use pim_sw.Runtime.Tensor.Fill.{scatter, clear_chunks}
use pim_sw.Runtime.Tensor.Place.{Fits}
use pim_sw.Runtime.Tensor.Scatter.{Lawful, Within}
use pim_sw.Runtime.Tensor.Filled.{scatter-Filled}
use pim_sw.Runtime.Tensor.Upload.{Padded, zero_plus}

module _ (C : Card) (law : Lawful C) (g : Geometry) where
  open C use {St, elem}

  -- The element of tensor `t` on the card.
  abbrev pub at : Tensor → St → ℕ → ℕ → ℕ
  at t s out red = elem s (t.base + offset g t out red)

  -- The chunks that count as cleared reach the frontier, and what is in them from the frontier on is
  -- zero.
  pub record IsClear (t : Tensor) (s : St) : Type 0 where
    pub grows : is_red t.layout ≡ true
    pub inside : t.frontier ≤ t.nred
    pub reach : t.frontier ≤ t.zeroed_chunks * elems_per_row
    pub whole : t.zeroed_chunks * elems_per_row < t.nredpad + elems_per_row
    pub zeros :
        (out red : ℕ)
        → out < t.noutpad
        → red < t.nredpad
        → t.frontier ≤ red
        → red < t.zeroed_chunks * elems_per_row
        → at t s out red ≡ 0

  -- The contract of the header: from the frontier to the end of its beat every element is zero.
  pub IsClear-beat :
      (t : Tensor) (s : St)
      → IsClear t s
      → (out red : ℕ) → out < t.noutpad
      → red < t.nredpad
      → t.frontier ≤ red
      → red < (t.frontier + 15) / elems_per_beat * elems_per_beat
      → at t s out red ≡ 0
  IsClear-beat t s c out red p q from to = c.zeros out red p q from (omega (arith, to, c.reach))

  abbrev pub cleared_to : Tensor → ℕ → Tensor
  cleared_to t want = record t { zeroed_chunks = want }

  pub cleared-Fits : (t : Tensor) (want : ℕ) → Fits g t → Fits g (cleared_to t want)
  cleared-Fits t want f = record {
    channels = f.channels;
    banks = f.banks;
    row = f.row;
    unit = f.unit;
    groups = f.groups;
    chunks = f.chunks;
    per_word = f.per_word;
    out_word = f.out_word;
    red_word = f.red_word;
    units_word = f.units_word;
    bytes_word = f.bytes_word;
  }

  -- The bookkeeping is not what places an element.
  pub same_place :
      (t : Tensor) (s : St) (z fr out red : ℕ)
      → at (record t { zeroed_chunks = z; frontier = fr }) s out red ≡ at t s out red
  unfolding offset unit_of
  same_place t s z fr out red = refl

  pub zero_elem : (layout : Layout) (stride i j : ℕ) → host_elem layout none stride i j ≡ 0
  unfolding host_elem
  zero_elem layout stride i j = refl

  module _ (t : Tensor) (f : Fits g t) (pad : Padded t) where
    -- The chunks from `from` to `to` are zero and nothing else has changed.
    pub record Cleared (from to : ℕ) (s s' : St) : Type 0 where
      pub zeros :
          (out red : ℕ)
          → out < t.noutpad
          → red < t.nredpad
          → from * elems_per_row ≤ red
          → red < to * elems_per_row
          → at t s' out red ≡ 0
      pub kept :
          (out red : ℕ)
          → out < t.noutpad
          → red < t.nredpad
          → red < from * elems_per_row
          → at t s' out red ≡ at t s out red

    abbrev chunk_rect : ℕ → ℕ → Rect
    chunk_rect from to = record {
      out0 = 0;
      nout = t.noutpad;
      red0 = from * elems_per_row;
      nred =
          if ltb t.nredpad (to * elems_per_row)
          then t.nredpad - from * elems_per_row
          else (to - from) * elems_per_row;
    }

    -- With numbers that fit, no sum of `clear_chunks` wraps.
    clear_chunks-scatter :
        (no_memory : Bool) (from to : ℕ) (s : St)
        → from < to
        → from * elems_per_row < t.nredpad
        → to * elems_per_row < t.nredpad + elems_per_row
        → clear_chunks C no_memory g t from to s
          ≡ scatter C no_memory g t (chunk_rect from to) none 0 s
    unfolding clear_chunks
    clear_chunks-scatter no_memory from to s less start end =
        let some_chunks : leb to from ≡ false = ground (arith, less) in
        let e0 : u32 (from * elems_per_row) ≡ from * elems_per_row =
          omega (arith, start, f.red_word) in
        let e1 : u32 ((to - from) * elems_per_row) ≡ (to - from) * elems_per_row =
          omega (arith, end, f.red_word) in
        let e2 : u32 (from * elems_per_row + (to - from) * elems_per_row) ≡ to * elems_per_row =
          omega (arith, end, less, f.red_word) in
        let e3 : u32 (t.nredpad + 2 ^ 32 - from * elems_per_row)
            ≡ t.nredpad - from * elems_per_row =
          omega (arith, start, f.red_word) in
        rw some_chunks (rw e0 (rw e1 (rw (e2, e3) refl)))

    pub clear_chunks-Cleared :
        (no_memory : Bool) (from to : ℕ) (s : St)
        → from < to
        → from * elems_per_row < t.nredpad
        → to * elems_per_row < t.nredpad + elems_per_row
        → (clear_chunks C no_memory g t from to s).1 ≡ none
        → Cleared from to s (clear_chunks C no_memory g t from to s).0
    clear_chunks-Cleared no_memory from to s less start end h =
        let same = clear_chunks-scatter no_memory from to s less start end in
        let r = chunk_rect from to in
        let within : Within t r = record {
          outs = omega arith;
          reds = ground (arith, less, start);
        } in
        let filled = scatter-Filled C law g t f no_memory r none 0 s within in
        let good : (scatter C no_memory g t r none 0 s).1 ≡ none = ap (λ d. d.1) (sym same) ∙ h in
        rw same (record {
          zeros = λ out red p q from_here to_here.
              let j = red - from * elems_per_row in
              let e : from * elems_per_row + j ≡ red = omega (arith, from_here) in
              let width : j < r.nred = ground (arith, from_here, to_here, q) in
              sym (λ k. at t (scatter C no_memory g t r none 0 s).0 (zero_plus out k) (e k))
              ∙ filled.filled good out j (omega arith) p width
              ∙ zero_elem t.layout 0 out j;
          kept = λ out red p q before. filled.same out red p q (inr (inl before));
        })
