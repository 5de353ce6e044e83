-- ===== src/Runtime/Tensor/Fill.antt =====
-- The transfers of sw/runtime/pim_tensor.c, from `scatter` on: what they write on the card and how
-- they move the frontier. `no_memory` says that the host has no memory for the staging buffer.
use pim_sw.Common.{
  ℕ, zero, suc, ◌+◌, ◌-◌, ◌*◌, ◌/◌, ◌%◌, ◌^◌, Bool, true, false, ◌&&◌, ◌||◌, not, Option, none,
  some, ltb, leb, ◌==◌, if◌then◌else◌, u32,
}
use pim_sw.Library.Geometry.{Geometry}
use pim_sw.Runtime.Tensor.{
  Layout, elems_per_row, Tensor, plan, offset, Rect, Card, Bad, no_staging, null_argument, no_shape,
  no_room, past_axis, gap, not_stamped, gather, host_elem, is_red, is_none, tensor_fault,
}

-- The axis that grows, and the other one.
unfoldable pub grow_max : Tensor → ℕ
unfolding is_red
grow_max t = if is_red t.layout then t.nred else t.nout

unfoldable pub other : Tensor → ℕ
unfolding is_red
other t = if is_red t.layout then t.nout else t.nred

module _ (C : Card) where
  open C use {St, Fault, elem, write}

  abbrev pub Done : Type 0
  Done = St × Option (Bad Fault)

  -- A loop or a call goes on where there is no message.
  unfoldable pub on_success : Done → (St → Done) → Done
  on_success (s, none) go = go s
  on_success (s, some b) go = (s, some b)

  unfoldable pub told : St × Option Fault → Done
  unfolding tensor_fault
  told (s, e) = (s, tensor_fault e)

  -- The inner loop of `scatter` with `fuel` rounds left: output `o` of the rectangle from step `done` on.
  unfoldable pub fill_from : ℕ → Geometry → Tensor → Rect → Option (ℕ → ℕ) → ℕ → ℕ → ℕ → St → Done
  unfolding on_success told gather host_elem
  fill_from zero g t r src stride o done s = (s, none)
  fill_from (suc fuel) g t r src stride o done s =
      let red = u32 (r.red0 + done) in
      let room = elems_per_row - red % elems_per_row in
      let run = if ltb (r.nred - done) room then r.nred - done else room in
      let part = gather run done (host_elem t.layout src stride o) in
      let now = told (write s (t.base + offset g t (u32 (r.out0 + o)) red) part) in
      let rest = on_success now (fill_from fuel g t r src stride o (done + run)) in
      if ltb done r.nred then rest else (s, none)

  -- The outer loop with `n` rounds left, from output `o` of the rectangle on.
  unfoldable pub rows_from : ℕ → Geometry → Tensor → Rect → Option (ℕ → ℕ) → ℕ → ℕ → St → Done
  unfolding on_success fill_from
  rows_from zero g t r src stride o s = (s, none)
  rows_from (suc n) g t r src stride o s =
      on_success (fill_from r.nred g t r src stride o 0 s) (rows_from n g t r src stride (o + 1))

  -- `scatter` on a context that has a geometry
  unfoldable pub scatter : Bool → Geometry → Tensor → Rect → Option (ℕ → ℕ) → ℕ → St → Done
  unfolding rows_from is_none is_red
  scatter no_memory g t r src stride s =
      if r.nout == 0 || r.nred == 0
      then (s, none)
      else if (is_none src || is_red t.layout) && no_memory
      then (s, some no_staging)
      else rows_from r.nout g t r src stride 0 s

  -- What `pim_tensor_upload`, `pim_tensor_append` and `pim_tensor_truncate` leave: the tensor, what is
  -- on the card, and the message.
  pub record Outcome : Type 0 where
    pub tensor : Tensor
    pub card : St
    pub bad : Option (Bad Fault)

  unfoldable pub outcome : Tensor → Done → (St → Outcome) → Outcome
  outcome t (s, none) go = go s
  outcome t (s, some b) go = record { tensor = t; card = s; bad = some b }

  abbrev pub success : Tensor → St → Outcome
  success t s = record { tensor = t; card = s; bad = none }

  -- The two clears of `pim_tensor_upload`.
  unfoldable pub clear_padding : Bool → Geometry → Tensor → St → Done
  unfolding on_success scatter
  clear_padding no_memory g t s =
      let below : Rect = record {
        out0 = t.nout;
        nout = t.noutpad - t.nout;
        red0 = 0;
        nred = t.nredpad;
      } in
      let beside : Rect = record {
        out0 = 0;
        nout = t.nout;
        red0 = t.nred;
        nred = t.nredpad - t.nred;
      } in
      on_success (if ltb t.nout t.noutpad then scatter no_memory g t below none 0 s else (s, none))
        (λ s'. if ltb t.nred t.nredpad then scatter no_memory g t beside none 0 s' else (s', none))

  -- `pim_tensor_upload` on a context and a tensor that are there
  unfoldable pub upload : Bool → Geometry → Tensor → Option (ℕ → ℕ) → St → Outcome
  unfolding clear_padding scatter outcome grow_max other is_none
  upload no_memory g t src s =
      let all : Rect = record { out0 = 0; nout = t.nout; red0 = 0; nred = t.nred } in
      if t.base == 0 || is_none src
      then record { tensor = t; card = s; bad = some null_argument }
      else outcome t
          (on_success (clear_padding no_memory g t s) (scatter no_memory g t all src (other t)))
          (success (record t { zeroed_chunks = t.nchunks; frontier = grow_max t }))

  unfoldable pub clear_chunks : Bool → Geometry → Tensor → ℕ → ℕ → St → Done
  unfolding scatter
  clear_chunks no_memory g t from to s =
      let red0 = u32 (from * elems_per_row) in
      let nred = u32 ((to - from) * elems_per_row) in
      let past = ltb t.nredpad (u32 (red0 + nred)) in
      let r : Rect = record {
        out0 = 0;
        nout = t.noutpad;
        red0 = red0;
        nred = if past then u32 (t.nredpad + 2 ^ 32 - red0) else nred;
      } in
      if leb to from then (s, none) else scatter no_memory g t r none 0 s

  -- The lazy clear of `pim_tensor_append`.
  unfoldable pub clear_ahead : Bool → Geometry → Tensor → ℕ → St → Outcome
  unfolding clear_chunks outcome is_red
  clear_ahead no_memory g t end s =
      let want = u32 (end + elems_per_row - 1) / elems_per_row in
      if is_red t.layout && ltb t.zeroed_chunks want
      then outcome t (clear_chunks no_memory g t t.zeroed_chunks want s)
          (success (record t { zeroed_chunks = want }))
      else success t s

  abbrev pub new_part : Tensor → ℕ → ℕ → Rect
  unfolding is_red
  new_part t first count =
      if is_red t.layout
      then record { out0 = 0; nout = t.nout; red0 = first; nred = count }
      else record { out0 = first; nout = count; red0 = 0; nred = t.nred }

  -- The rest of `pim_tensor_append` once the chunks are clear.
  unfoldable pub append_to : Bool → Geometry → ℕ → ℕ → Option (ℕ → ℕ) → Outcome → Outcome
  unfolding scatter outcome other
  append_to no_memory g first count src o =
      let t = o.tensor in
      let end = u32 (first + count) in
      let part = scatter no_memory g t (new_part t first count) src (other t) o.card in
      let moved = if ltb t.frontier end then record t { frontier = end } else t in
      elim o.bad [ some b ↦ o | none ↦ outcome t part (success moved) ]

  -- `pim_tensor_append` on a context and a tensor that are there
  unfoldable pub append : Bool → Geometry → Tensor → ℕ → ℕ → Option (ℕ → ℕ) → St → Outcome
  unfolding clear_ahead append_to grow_max is_none
  append no_memory g t first count src s =
      let refused : Bad Fault → Outcome = λ b. record { tensor = t; card = s; bad = some b } in
      if t.base == 0 || is_none src
      then refused null_argument
      else if count == 0
      then success t s
      else if ltb (grow_max t) (first + count)
      then refused past_axis
      else if ltb t.frontier first
      then refused gap
      else append_to no_memory g first count src (clear_ahead no_memory g t (u32 (first + count)) s)

  -- `pim_tensor_truncate` on a context and a tensor that are there
  unfoldable pub truncate : Bool → Geometry → Tensor → ℕ → St → Outcome
  unfolding scatter outcome is_red
  truncate no_memory g t pos s =
      let stale : Rect = record {
        out0 = 0;
        nout = t.noutpad;
        red0 = pos;
        nred = t.frontier - pos;
      } in
      let back = record t { frontier = pos } in
      if t.base == 0
      then record { tensor = t; card = s; bad = some null_argument }
      else if leb t.frontier pos || not (is_red t.layout)
      then success back s
      else if pos == 0
      then success (record back { zeroed_chunks = 0 }) s
      else outcome t (scatter no_memory g t stale none 0 s) (success back)

-- `pim_tensor_alloc` on a context that is there: `got` is the answer of `pim_alloc_ex_ctx`, NULL being
-- nothing, and `stamped` whether `pim_tag_set_ctx` has found the allocation. It is freed where not.
pub record Allocated : Type 0 where
  pub tensor : Tensor
  pub freed : Bool
  pub bad : Option (Bad (Unit {0}))

unfoldable pub tensor_alloc :
    Geometry → Layout → ℕ → ℕ → Bool → Option ℕ → Bool → Tensor → Allocated
unfolding plan
tensor_alloc g layout nout nred zero_flag got stamped old =
    let t = plan g layout nout nred in
    let cleared = if zero_flag then record t { zeroed_chunks = t.nchunks } else t in
    if nout == 0 || nred == 0
    then record { tensor = old; freed = false; bad = some no_shape }
    else elim got [
      | none ↦ record { tensor = t; freed = false; bad = some no_room }
      | some base ↦
          if stamped
          then record { tensor = record cleared { base = base }; freed = false; bad = none }
          else record { tensor = cleared; freed = true; bad = some not_stamped }
    ]

-- `pim_tensor_free`: the tensor, and the address that is freed.
unfoldable pub tensor_free : Tensor → Tensor × Option ℕ
tensor_free t =
    if t.base == 0
    then (t, none)
    else (record t { base = 0; frontier = 0; zeroed_chunks = 0 }, some t.base)
