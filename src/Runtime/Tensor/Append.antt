-- ===== src/Runtime/Tensor/Append.antt =====
-- `pim_tensor_append` of sw/runtime/pim_tensor.c along the reduction: the new steps are on the card,
-- those before them are as they were, and the zero contract holds.
use pim_sw.Common.{ℕ, ◌+◌, ◌*◌, ◌≤◌, ◌<◌, ◌≡◌, Option, ltb, if◌then◌else◌}
use pim_sw.Library.Geometry.{Geometry}
use pim_sw.Runtime.Tensor.{Tensor, Rect, Card, host_elem, elems_per_row}
use pim_sw.Runtime.Tensor.Fill.{Outcome, success, other}
use pim_sw.Runtime.Tensor.Place.{Fits}
use pim_sw.Runtime.Tensor.Scatter.{Lawful}
use pim_sw.Runtime.Tensor.Upload.{Padded}
use pim_sw.Runtime.Tensor.Zero.{at, IsClear, cleared_to}

module _ (C : Card) (law : Lawful C) (g : Geometry) (t : Tensor) (f : Fits g t)
    (pad : Padded t) where
  open C use {St}

  abbrev here : St → ℕ → ℕ → ℕ
  here = at C law g t

  -- The chunks up to `z` count as cleared, and all that `end` lies in are among them.
  record Ahead (s : St) (end : ℕ) (o : Outcome C) : Type 0 where
    z : ℕ
    tensor : o.tensor ≡ cleared_to C law g t z
    reach : end ≤ z * elems_per_row
    more : t.zeroed_chunks ≤ z
    whole : z * elems_per_row < t.nredpad + elems_per_row
    zeros :
        (out red : ℕ)
        → out < t.noutpad
        → red < t.nredpad
        → t.frontier ≤ red
        → red < z * elems_per_row
        → here o.card out red ≡ 0
    kept :
        (out red : ℕ)
        → out < t.noutpad
        → red < t.nredpad
        → red < t.frontier
        → here o.card out red ≡ here s out red

  -- What an append of `count` steps from `first` on leaves.
  pub record Appended (first count : ℕ) (src : Option (ℕ → ℕ)) (s : St) (to : Outcome C)
      : Type 0 where
    pub clear : IsClear C law g to.tensor to.card
    pub frontier :
        to.tensor.frontier ≡ (if ltb t.frontier (first + count) then first + count else t.frontier)
    pub written :
        (out i : ℕ)
        → out < t.nout
        → i < count
        → at C law g to.tensor to.card out (first + i) ≡ host_elem t.layout src (other t) out i
    pub kept :
        (out red : ℕ)
        → out < t.noutpad
        → red < t.nredpad
        → red < first
        → at C law g to.tensor to.card out red ≡ here s out red

  abbrev ready : ℕ → St → Outcome C
  ready z card = success C (cleared_to C law g t z) card

  abbrev steps : ℕ → ℕ → Rect
  steps first count = record { out0 = 0; nout = t.nout; red0 = first; nred = count }

  -- The tensor that an append leaves behind cleared chunks up to `z`.
  abbrev after : ℕ → ℕ → Tensor
  after z end = record t {
    zeroed_chunks = z;
    frontier = if ltb t.frontier end then end else t.frontier;
  }
