-- ===== src/Runtime/Tensor.antt =====
-- sw/runtime/pim_tensor.c and sw/include/pimrt/pim_tensor.h: where the elements of a matrix are on the
-- card, and how they are filled in. A pointer into host memory that holds elements is a function of
-- the index. Elements are 16-bit numbers, two bytes each.
pub mod Fill
pub mod Plan
pub mod Place
pub mod Scatter
pub mod Filled
pub mod Upload
pub mod Zero
pub mod Append
pub mod Truncate
pub mod Transfers
mod Tests
use Prim.Native.Nat.{bit_xor}
use pim_sw.Common.{
  ℕ, zero, suc, ◌+◌, ◌-◌, ◌*◌, ◌/◌, ◌%◌, ◌^◌, Bool, true, false, ◌&&◌, ◌||◌, not, Option, none,
  some, List, [], ◌∷◌, ltb, leb, ◌==◌, if◌then◌else◌, u32, u64,
}
use pim_sw.Library.Geometry.{Geometry}

-- `pim_layout`
pub data Layout : Type 0 where
  out_major red_major : Layout

abbrev pub elems_per_beat : ℕ
elems_per_beat = 16

abbrev pub elems_per_row : ℕ
elems_per_row = 1024

-- `pim_tensor`
pub record Tensor : Type 0 where
  pub base : ℕ
  pub layout : Layout
  pub nout : ℕ
  pub nred : ℕ
  pub noutpad : ℕ
  pub nredpad : ℕ
  pub nchunks : ℕ
  pub last_beats : ℕ
  pub ngroups : ℕ
  pub nch : ℕ
  pub nbank : ℕ
  pub tag : ℕ
  pub frontier : ℕ
  pub zeroed_chunks : ℕ

pub roundup : ℕ → ℕ → ℕ
roundup v to = u32 (u32 (v + to - 1) / to * to)

-- One round of MIX in `pim_tensor_tag`: FNV-1a on 64 bits.
pub mix : ℕ → ℕ → ℕ
mix h v = u64 (bit_xor h v * 0x100_0000_01b3)

pub layout_number : Layout → ℕ
layout_number out_major = 0
layout_number red_major = 1

pub tensor_tag : Geometry → Tensor → ℕ
unfolding mix layout_number
tensor_tag g t =
    let h = mix (mix 0xcbf2_9ce4_8422_2325 0x7465_6e73) (layout_number t.layout) in
    let shape = mix (mix (mix (mix h t.noutpad) t.nredpad) t.nchunks) t.ngroups in
    let all = mix (mix (mix (mix shape g.nch) g.nbank) g.row_bytes) g.unit_bytes in
    if all == 0 then 1 else all

abbrev pub blank : Tensor
blank = record {
  base = 0;
  layout = out_major;
  nout = 0;
  nred = 0;
  noutpad = 0;
  nredpad = 0;
  nchunks = 0;
  last_beats = 0;
  ngroups = 0;
  nch = 0;
  nbank = 0;
  tag = 0;
  frontier = 0;
  zeroed_chunks = 0;
}

-- `pim_tensor_plan` for a shape that is not empty; the tag is put in last.
unfoldable pub shape_of : Geometry → Layout → ℕ → ℕ → Tensor
unfolding roundup
shape_of g layout nout nred =
    let per = u32 (g.nbank * g.nch) in
    let noutpad = roundup nout per in
    let nredpad = roundup nred elems_per_beat in
    let nchunks = u32 (nredpad + elems_per_row - 1) / elems_per_row in
    let before_last = u32 ((nchunks + 2 ^ 32 - 1) * elems_per_row) in
    record {
      base = 0;
      layout = layout;
      nout = nout;
      nred = nred;
      noutpad = noutpad;
      nredpad = nredpad;
      nchunks = nchunks;
      last_beats = u32 (nredpad + 2 ^ 32 - before_last) / elems_per_beat;
      ngroups = noutpad / per;
      nch = g.nch;
      nbank = g.nbank;
      tag = 0;
      frontier = 0;
      zeroed_chunks = 0;
    }

-- `pim_tensor_plan`
unfoldable pub plan : Geometry → Layout → ℕ → ℕ → Tensor
unfolding shape_of tensor_tag
plan g layout nout nred =
    let t = shape_of g layout nout nred in
    if nout == 0 || nred == 0 then blank else record t { tag = tensor_tag g t }

-- `pim_tensor_bytes`
unfoldable pub bytes : Geometry → Tensor → ℕ
bytes g t = u64 (t.ngroups * t.nchunks * g.unit_bytes)

-- `pim_tensor_unit`
unfoldable pub unit_of : Tensor → ℕ → ℕ → ℕ
unit_of t group chunk = u32 (group * t.nchunks + chunk)

-- `pim_tensor_offset`
unfoldable pub offset : Geometry → Tensor → ℕ → ℕ → ℕ
unfolding unit_of
offset g t out red =
    let bank = out % g.nbank in
    let ch = out / g.nbank % g.nch in
    let group = out / u32 (g.nbank * g.nch) in
    let chunk = red / elems_per_row in
    let lane = red % elems_per_row in
    u64 (
      unit_of t group chunk * g.unit_bytes
      + ch * g.nbank * g.row_bytes
      + bank * g.row_bytes
      + lane / elems_per_beat * (elems_per_beat * 2)
      + lane % elems_per_beat * 2)

-- `struct rect`
pub record Rect : Type 0 where
  pub out0 : ℕ
  pub nout : ℕ
  pub red0 : ℕ
  pub nred : ℕ

-- What `pim_memcpy_ctx` to the card does, for the elements on the card.
pub record Card : Type 1 where
  pub St : Type 0
  pub Fault : Type 0
  pub elem : St → ℕ → ℕ
  pub write : St → ℕ → List ℕ → St × Option Fault

-- The messages.
pub data Bad (F : Type 0) : Type 0 where
  no_staging null_argument no_shape no_room past_axis gap not_stamped : Bad F
  failed : F → Bad F

-- `n` elements of the host's memory, from the `i`-th of `f` on.
unfoldable pub gather : ℕ → ℕ → (ℕ → ℕ) → List ℕ
gather zero i f = []
gather (suc n) i f = f i ∷ gather n (i + 1) f

-- What a transfer of `pim_memcpy_ctx` reads at step `k` of the reduction for output `o`: zeros where
-- there is no source, else the element of the host's array, which its layout places.
unfoldable pub host_elem : Layout → Option (ℕ → ℕ) → ℕ → ℕ → ℕ → ℕ
host_elem layout none stride o k = 0
host_elem out_major (some src) stride o k = src (o * stride + k)
host_elem red_major (some src) stride o k = src (k * stride + o)

unfoldable pub is_red : Layout → Bool
is_red out_major = false
is_red red_major = true

unfoldable pub is_none {ℓ} : {A : Type ℓ} → Option A → Bool
is_none none = true
is_none (some a) = false

unfoldable pub tensor_fault : {F : Type 0} → Option F → Option (Bad F)
tensor_fault none = none
tensor_fault (some e) = some (failed e)
