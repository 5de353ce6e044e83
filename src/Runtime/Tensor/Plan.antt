-- ===== src/Runtime/Tensor/Plan.antt =====
-- `pim_tensor_plan` of sw/runtime/pim_tensor.c: the padded shape.
use native.Mathlib.Nat.{mul_comm, mul_assoc, div-add-mod', mod-lt}
use pim_sw.Common.{
  ℕ, ◌+◌, ◌-◌, ◌*◌, ◌/◌, ◌^◌, ◌≤◌, ◌<◌, ◌≡◌, refl, sym, ◌∙◌, ap, false, ◌||◌, ◌==◌, arith, u32,
  div_of_parts, block_le,
}
use pim_sw.Library.Geometry.{Geometry}
use pim_sw.Library.Geometry.Derive.{Usable}
use pim_sw.Runtime.Tensor.{Layout, Tensor, elems_per_row, elems_per_beat, roundup, shape_of, plan}
use pim_sw.Runtime.Tensor.Place.{Fits}
use pim_sw.Runtime.Tensor.Upload.{Padded}

-- The least multiple of `to` from `v` on.
record RoundedUp (v to r : ℕ) : Type 0 where
  multiple : r ≡ r / to * to
  above : v ≤ r
  least : r < v + to

roundup-RoundedUp : (v to : ℕ) → 0 < to → v + to ≤ 2 ^ 32 → RoundedUp v to (roundup v to)
unfolding roundup
roundup-RoundedUp v to pos fits =
    let x = v + to - 1 in
    let word : u32 x ≡ x = omega (arith, pos, fits) in
    let parts = div-add-mod' x to in
    let low = mod-lt x pos in
    let r = x / to * to in
    let same : u32 r ≡ r = omega (arith, parts, fits, pos) in
    let back : r / to ≡ x / to =
      ap (λ n. n / to) (let e : r ≡ r + 0 = omega arith in e) ∙ div_of_parts (x / to) 0 to pos in
    rw word (
      rw same (record {
        multiple = ap (λ n. n * to) (sym back);
        above = omega (arith, parts, low, pos);
        least = omega (arith, parts, pos);
      }))

-- A shape whose numbers the C types hold.
pub record Small (g : Geometry) (layout : Layout) (nout nred : ℕ) : Type 0 where
  pub outs : 0 < nout
  pub reds : 0 < nred
  pub per : g.nch * g.nbank < 2 ^ 32
  pub out_word : nout + g.nch * g.nbank ≤ 2 ^ 32
  pub red_word : nred + 1040 ≤ 2 ^ 32
  pub row : elems_per_row * 2 ≤ g.row_bytes
  pub units_word : (plan g layout nout nred).ngroups * (plan g layout nout nred).nchunks < 2 ^ 32
  pub bytes_word :
      (plan g layout nout nred).ngroups * (plan g layout nout nred).nchunks * g.unit_bytes < 2 ^ 64

-- What is planned.
pub record Planned (g : Geometry) (nout nred : ℕ) (t : Tensor) : Type 0 where
  pub fits : Fits g t
  pub padded : Padded t
  pub asked : (t.nout ≡ nout) × (t.nred ≡ nred)
  pub out_least : t.noutpad < nout + g.nch * g.nbank
  pub red_least : t.nredpad < nred + elems_per_beat
  pub beats : (0 < t.last_beats) × (t.last_beats ≤ 64)
  pub last_chunk :
      t.nredpad + elems_per_row ≡ t.nchunks * elems_per_row + t.last_beats * elems_per_beat

module _ (g : Geometry) (usable : Usable g) (layout : Layout) (nout nred : ℕ) where
  abbrev per : ℕ
  per = g.nch * g.nbank

  abbrev planned : Tensor
  planned = plan g layout nout nred

  -- The fields as `pim_tensor_plan` sets them.
  record Set : Type 0 where
    outs : planned.nout ≡ nout
    reds : planned.nred ≡ nred
    noutpad : planned.noutpad ≡ roundup nout per
    nredpad : planned.nredpad ≡ roundup nred elems_per_beat
    ngroups : planned.ngroups ≡ roundup nout per / per
    nchunks :
        planned.nchunks ≡ u32 (roundup nred elems_per_beat + elems_per_row - 1) / elems_per_row
    last :
        planned.last_beats
        ≡ u32 (
            roundup nred elems_per_beat
            + 2 ^ 32
            - u32 (
                (u32 (roundup nred elems_per_beat + elems_per_row - 1) / elems_per_row + 2 ^ 32 - 1)
                * elems_per_row))
          / elems_per_beat

  plan-Set : Small g layout nout nred → Set
  unfolding plan shape_of
  plan-Set small =
      let some_shape : (nout == 0 || nred == 0) ≡ false = ground (arith, small.outs, small.reds) in
      let e : u32 (g.nbank * g.nch) ≡ per = omega (arith, mul_comm g.nbank g.nch, small.per) in
      record {
        outs = rw some_shape refl;
        reds = rw some_shape refl;
        noutpad = rw some_shape (rw e refl);
        nredpad = rw some_shape refl;
        ngroups = rw some_shape (rw e refl);
        nchunks = rw some_shape refl;
        last = rw some_shape refl;
      }

  -- On a usable geometry whose rows hold 1024 elements, a shape whose numbers the C types hold is
  -- padded to the least number of whole output groups and of whole beats, so that all that offsets rest
  -- on holds. The last chunk has 1 to 64 beats and is where the padded reduction ends.
  pub plan-Planned : Small g layout nout nred → Planned g nout nred planned
  plan-Planned small =
      let set = plan-Set small in
      let pos : 0 < per =
        omega (arith, usable.nch_pos, usable.nbank_pos, block_le 0 g.nch g.nbank usable.nch_pos) in
      let outs = roundup-RoundedUp nout per pos small.out_word in
      let reds =
        roundup-RoundedUp nred elems_per_beat (omega arith) (omega (arith, small.red_word)) in
      let groups : planned.noutpad ≡ planned.ngroups * per =
        set.noutpad ∙ outs.multiple ∙ ap (λ n. n * per) (sym set.ngroups) in
      let unit : g.unit_bytes ≡ per * g.row_bytes =
        usable.unit ∙ sym (mul_assoc g.nch g.nbank g.row_bytes) in
      let m = roundup nred elems_per_beat in
      let beats_of : m ≡ m / elems_per_beat * elems_per_beat = reds.multiple in
      record {
        fits = record {
          channels = usable.nch_pos;
          banks = usable.nbank_pos;
          row = small.row;
          unit = unit;
          groups = groups;
          chunks = omega (arith, set.nredpad, set.nchunks, reds.least, small.red_word);
          per_word = small.per;
          out_word = omega (arith, set.noutpad, outs.least, small.out_word);
          red_word = omega (arith, set.nredpad, reds.least, small.red_word);
          units_word = small.units_word;
          bytes_word = small.bytes_word;
        };
        padded = record {
          outs = omega (arith, set.outs, set.noutpad, outs.above);
          reds = omega (arith, set.reds, set.nredpad, reds.above);
        };
        asked = (set.outs, set.reds);
        out_least = omega (arith, set.noutpad, outs.least);
        red_least = omega (arith, set.nredpad, reds.least);
        beats = (
          omega (arith, set.last, beats_of, reds.above, reds.least, small.reds, small.red_word),
          omega (arith, set.last, beats_of, reds.above, reds.least, small.reds, small.red_word),
        );
        last_chunk = omega (
          arith, set.last, set.nchunks, set.nredpad, beats_of, reds.above, reds.least, small.reds,
          small.red_word,
        );
      }
