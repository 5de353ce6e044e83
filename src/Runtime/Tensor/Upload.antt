-- ===== src/Runtime/Tensor/Upload.antt =====
-- `pim_tensor_upload` of sw/runtime/pim_tensor.c leaves the host's matrix on the card, and zeros in
-- the padding.
use pim_sw.Common.{
  ℕ, ◌+◌, ◌-◌, ◌≤◌, ◌<◌, ◌≡◌, ◌⊎◌, inl, inr, refl, sym, ◌∙◌, ap, Bool, true, false, ◌&&◌, ◌||◌,
  Option, none, some, ltb, ◌==◌, if◌then◌else◌, arith, Bool-cases,
}
use pim_sw.Library.Geometry.{Geometry}
use pim_sw.Runtime.Tensor.{Tensor, Rect, Card, null_argument, host_elem, is_none}
use pim_sw.Runtime.Tensor.Fill.{
  Done, on_success, scatter, Outcome, outcome, success, clear_padding, upload, other, grow_max,
}
use pim_sw.Runtime.Tensor.Place.{Fits}
use pim_sw.Runtime.Tensor.Scatter.{Lawful, Within}
use pim_sw.Runtime.Tensor.Filled.{Filled, elem_at, no_rows, scatter-Filled}

-- The matrix is within the padded one.
pub record Padded (t : Tensor) : Type 0 where
  pub outs : t.nout ≤ t.noutpad
  pub reds : t.nred ≤ t.nredpad

pub zero_plus : (n : ℕ) → 0 + n ≡ n
zero_plus n = omega arith

pub on_success-none :
    (C : Card) (d : Done C) (go : C.St → Done C)
    → (on_success C d go).1 ≡ none
    → (d.1 ≡ none) × (on_success C d go ≡ go d.0)
unfolding on_success
on_success-none C (s, none) go h = (refl, refl)
on_success-none C (s, some b) go h = absurd (let z : some b ≡ none = h in cc)

pub outcome-none :
    (C : Card) (t : Tensor) (d : Done C) (go : C.St → Outcome C)
    → (outcome C t d go).bad ≡ none
    → (d.1 ≡ none) × (outcome C t d go ≡ go d.0)
unfolding outcome
outcome-none C t (s, none) go h = (refl, refl)
outcome-none C t (s, some b) go h = absurd (let z : some b ≡ none = h in cc)

module _ (C : Card) (law : Lawful C) (g : Geometry) (t : Tensor) (f : Fits g t) where
  open C use {St}

  three_done :
      (d : Done C) (go2 go3 : St → Done C)
      → (on_success C (on_success C d go2) go3).1 ≡ none
      → (d.1 ≡ none)
        × ((go2 d.0).1 ≡ none)
        × ((go3 (go2 d.0).0).1 ≡ none)
        × (on_success C (on_success C d go2) go3 ≡ go3 (go2 d.0).0)
  three_done d go2 go3 h =
      let (e, whole) = on_success-none C (on_success C d go2) go3 h in
      let (e1, first) = on_success-none C d go2 e in
      let same = whole ∙ ap (λ x. go3 x.0) first in
      (e1, ap (λ x. x.1) (sym first) ∙ e, ap (λ x. x.1) (sym same) ∙ h, same)

  -- A scatter that is made only where there is something to write.
  maybe-Filled :
      (no_memory : Bool) (r : Rect) (src : Option (ℕ → ℕ)) (stride : ℕ) (b : Bool) (s : St)
      → Within t r
      → (b ≡ false → (r.nout ≤ 0) ⊎ (r.nred ≡ 0))
      → Filled C law g t f r src stride 0 s
          (if b then scatter C no_memory g t r src stride s else (s, none))
  maybe-Filled no_memory r src stride true s within h =
      scatter-Filled C law g t f no_memory r src stride s within
  maybe-Filled no_memory r src stride false s within h =
      no_rows C law g t f r src stride 0 s none (λ e. h refl)

  abbrev below : Rect
  below = record { out0 = t.nout; nout = t.noutpad - t.nout; red0 = 0; nred = t.nredpad }

  abbrev beside : Rect
  beside = record { out0 = 0; nout = t.nout; red0 = t.nred; nred = t.nredpad - t.nred }

  abbrev all : Rect
  all = record { out0 = 0; nout = t.nout; red0 = 0; nred = t.nred }

  -- The element that belongs at a place of the padded matrix.
  abbrev pub wanted : Option (ℕ → ℕ) → ℕ → ℕ → ℕ
  wanted src out red =
      if ltb out t.nout && ltb red t.nred then host_elem t.layout src (other t) out red else 0

  zero_elem : (stride i j : ℕ) → host_elem t.layout none stride i j ≡ 0
  unfolding host_elem
  zero_elem stride i j = refl

  -- After the three transfers every element is as it should be.
  three_parts_lem :
      (src : Option (ℕ → ℕ)) (s : St) (d1 d2 d3 : Done C)
      → Padded t
      → Filled C law g t f below none 0 0 s d1
      → Filled C law g t f beside none 0 0 d1.0 d2
      → Filled C law g t f all src (other t) 0 d2.0 d3
      → d1.1 ≡ none
      → d2.1 ≡ none
      → d3.1 ≡ none
      → (out red : ℕ) → out < t.noutpad
      → red < t.nredpad
      → elem_at C law g t f d3.0 out red ≡ wanted src out red
  three_parts_lem src s d1 d2 d3 pad f1 f2 f3 e1 e2 e3 out red p q =
      elim (Bool-cases (ltb out t.nout)) [
        | inr low ↦
            let ge : t.nout ≤ out = ground (arith, low) in
            let i = out - t.nout in
            let e : t.nout + i ≡ out = omega (arith, ge) in
            let here = f1.filled e1 i red (omega arith) (omega (arith, p, ge)) q in
            rw low (
              f3.same out red p q (inl (inr (omega (arith, ge))))
              ∙ f2.same out red p q (inl (inr (omega (arith, ge))))
              ∙ sym (λ k. elem_at C law g t f d1.0 (e k) (zero_plus red k))
              ∙ here
              ∙ zero_elem 0 i red)
        | inl high ↦
            let less : out < t.nout = ground (arith, high) in
            elim (Bool-cases (ltb red t.nred)) [
              | inr right ↦
                  let ge : t.nred ≤ red = ground (arith, right) in
                  let j = red - t.nred in
                  let e : t.nred + j ≡ red = omega (arith, ge) in
                  let here = f2.filled e2 out j (omega arith) less (omega (arith, q, ge)) in
                  rw (high, right)
                    (f3.same out red p q (inr (inr (omega (arith, ge))))
                      ∙ sym (λ k. elem_at C law g t f d2.0 (zero_plus out k) (e k))
                      ∙ here
                      ∙ zero_elem 0 out j)
              | inl left ↦
                  rw (high, left)
                    (sym (λ k. elem_at C law g t f d3.0 (zero_plus out k) (zero_plus red k))
                      ∙ f3.filled e3 out red (omega arith) less (ground (arith, left)))
            ]
      ]

  -- For a planned tensor whose numbers fit, with a transfer that keeps its promises: where an upload
  -- returns no message, each element of the padded matrix is the one of the host's array that the
  -- layout names, or zero in the padding. The frontier is at the end of the growth axis, and all
  -- chunks count as cleared.
  pub upload-wanted :
      (no_memory : Bool) (src : Option (ℕ → ℕ)) (s : St)
      → Padded t
      → (upload C no_memory g t src s).bad ≡ none
      → ((out red : ℕ)
          → out < t.noutpad
          → red < t.nredpad
          → elem_at C law g t f (upload C no_memory g t src s).card out red ≡ wanted src out red)
        × ((upload C no_memory g t src s).tensor
            ≡ record t { zeroed_chunks = t.nchunks; frontier = grow_max t })
  unfolding upload clear_padding
  upload-wanted no_memory src s pad h = elim (Bool-cases (t.base == 0 || is_none src)) [
    | inl null ↦ absurd (let k : some null_argument ≡ none = rw null at h in cc)
    | inr there ↦
        let d1 =
          if ltb t.nout t.noutpad then scatter C no_memory g t below none 0 s else (s, none) in
        let clear2 = λ (s' : St).
          if ltb t.nred t.nredpad then scatter C no_memory g t beside none 0 s' else (s', none) in
        let d2 = clear2 d1.0 in
        let put = scatter C no_memory g t all src (other t) in
        let finish = success C (record t { zeroed_chunks = t.nchunks; frontier = grow_max t }) in
        let parts = on_success C d1 clear2 in
        let (ok3, same3) = outcome-none C t (on_success C parts put) finish (rw there at h) in
        let (e1, e2, e3, same) = three_done d1 clear2 put ok3 in
        rw there (
          rw (same3, same)
            (
              three_parts_lem src s d1 d2 (put d2.0) pad
                  (maybe-Filled no_memory below none 0 (ltb t.nout t.noutpad) s
                    (record { outs = omega (arith, pad.outs); reds = omega arith })
                    (λ e. inl (ground (arith, e))))
                  (maybe-Filled no_memory beside none 0 (ltb t.nred t.nredpad) d1.0
                    (record { outs = omega (arith, pad.outs); reds = omega (arith, pad.reds) })
                    (λ e. inr (ground (arith, e))))
                  (scatter-Filled C law g t f no_memory all src (other t) d2.0
                    (record { outs = omega (arith, pad.outs); reds = omega (arith, pad.reds) }))
                  e1 e2 e3,
              refl,
            ))
  ]
