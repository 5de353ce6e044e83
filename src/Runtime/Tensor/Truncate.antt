-- ===== src/Runtime/Tensor/Truncate.antt =====
-- `pim_tensor_truncate` of sw/runtime/pim_tensor.c moves the frontier back and keeps the zero
-- contract.
use pim_sw.Common.{ℕ, ◌-◌, ◌<◌, ◌≡◌}
use pim_sw.Library.Geometry.{Geometry}
use pim_sw.Runtime.Tensor.{Tensor, Rect, Card}
use pim_sw.Runtime.Tensor.Fill.{Outcome}
use pim_sw.Runtime.Tensor.Place.{Fits}
use pim_sw.Runtime.Tensor.Scatter.{Lawful}
use pim_sw.Runtime.Tensor.Upload.{Padded}
use pim_sw.Runtime.Tensor.Zero.{at, IsClear}

module _ (C : Card) (law : Lawful C) (g : Geometry) (t : Tensor) (f : Fits g t)
    (pad : Padded t) where
  open C use {St}

  -- What a truncation to `pos` leaves.
  pub record Truncated (pos : ℕ) (s : St) (to : Outcome C) : Type 0 where
    pub clear : IsClear C law g to.tensor to.card
    pub frontier : to.tensor.frontier ≡ pos
    pub kept :
        (out red : ℕ)
        → out < t.noutpad
        → red < t.nredpad
        → red < pos
        → at C law g to.tensor to.card out red ≡ at C law g t s out red

  abbrev back : ℕ → ℕ → Tensor
  back z pos = record t { zeroed_chunks = z; frontier = pos }

  abbrev stale : ℕ → Rect
  stale pos = record { out0 = 0; nout = t.noutpad; red0 = pos; nred = t.frontier - pos }
