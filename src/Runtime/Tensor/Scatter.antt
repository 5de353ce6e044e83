-- ===== src/Runtime/Tensor/Scatter.antt =====
-- `scatter` of sw/runtime/pim_tensor.c writes every element of its rectangle and no other.
use pim_sw.Common.{
  ℕ, zero, suc, ◌+◌, ◌-◌, ◌*◌, ◌%◌, ◌≤◌, ◌<◌, ◌≡◌, ◌⊎◌, inl, inr, refl, ◌∙◌, ap, Option, none, some,
  Option-cases, List, length, get_elem?, ltb, if◌then◌else◌, u32, arith, Bool-cases,
}
use pim_sw.Library.Geometry.{Geometry}
use pim_sw.Runtime.Tensor.{
  Tensor, offset, Rect, Card, Bad, failed, gather, host_elem, tensor_fault, elems_per_row,
}
use pim_sw.Runtime.Tensor.Fill.{Done, on_success, told, fill_from}
use pim_sw.Runtime.Tensor.Place.{Fits, offset_next, run_apart}

-- What the transfer promises: after a success the elements are in their places, and whatever it says,
-- it has changed no byte outside them.
pub record Lawful (C : Card) : Type 0 where
  pub written :
      (s : C.St) (a : ℕ) (xs : List ℕ)
      → (C.write s a xs).1 ≡ none
      → (i v : ℕ) → get_elem? xs i ≡ some v
      → C.elem (C.write s a xs).0 (a + 2 * i) ≡ v
  pub kept :
      (s : C.St) (a : ℕ) (xs : List ℕ) (b : ℕ)
      → (b + 2 ≤ a) ⊎ (a + 2 * length xs ≤ b)
      → C.elem (C.write s a xs).0 b ≡ C.elem s b

pub length-gather : (n i : ℕ) (f : ℕ → ℕ) → length (gather n i f) ≡ n
unfolding gather
length-gather zero i f = refl
length-gather (suc n) i f = ap suc (length-gather n (i + 1) f)

pub get_elem?-gather :
    (n i : ℕ) (f : ℕ → ℕ) (k : ℕ) → k < n → get_elem? (gather n i f) k ≡ some (f (i + k))
unfolding gather
get_elem?-gather zero i f k h = absurd (omega (arith, h))
get_elem?-gather (suc n) i f zero h = let e : i + 0 ≡ i = omega arith in rw e refl
get_elem?-gather (suc n) i f (suc k) h =
    let e : i + suc k ≡ i + 1 + k = omega arith in
    rw e (get_elem?-gather n (i + 1) f k (omega (arith, h)))

-- The rectangle is one of the padded matrix.
pub record Within (t : Tensor) (r : Rect) : Type 0 where
  pub outs : r.out0 + r.nout ≤ t.noutpad
  pub reds : r.red0 + r.nred ≤ t.nredpad

module _ (C : Card) (law : Lawful C) (g : Geometry) (t : Tensor) (f : Fits g t) where
  open C use {St, elem, write}

  -- The element of the matrix on the card.
  abbrev pub at : St → ℕ → ℕ → ℕ
  at s out red = elem s (t.base + offset g t out red)

  -- Of output `o` of the rectangle the elements from step `k` on have been written.
  pub record RowFilled (r : Rect) (src : Option (ℕ → ℕ)) (stride o k : ℕ) (s : St) (to : Done C)
      : Type 0 where
    pub same :
        (out red : ℕ)
        → out < t.noutpad
        → red < t.nredpad
        → (out ≡ r.out0 + o → (red < r.red0 + k) ⊎ (r.red0 + r.nred ≤ red))
        → at to.0 out red ≡ at s out red
    pub filled :
        to.1 ≡ none
        → (j : ℕ) → k ≤ j
        → j < r.nred
        → at to.0 (r.out0 + o) (r.red0 + j) ≡ host_elem t.layout src stride o j

  -- A run of `n` elements of one chunk, `xs` being what is written.
  run_same :
      (s : St) (out red n : ℕ) (xs : List ℕ)
      → length xs ≡ n
      → out < t.noutpad
      → red < t.nredpad
      → red % elems_per_row + n ≤ elems_per_row
      → (out' red' : ℕ) → out' < t.noutpad
      → red' < t.nredpad
      → (out' ≡ out → (red' < red) ⊎ (red + n ≤ red'))
      → at (write s (t.base + offset g t out red) xs).0 out' red' ≡ at s out' red'
  run_same s out red n xs size p q room out' red' p' q' outside =
      law.kept s (t.base + offset g t out red) xs (t.base + offset g t out' red')
        (elim (run_apart g t f out red n out' red' p q room p' q' outside) [
          | inl before ↦ inl (omega (arith, before))
          | inr after ↦ inr (omega (arith, after, size))
        ])

  run_written :
      (s : St) (out red n : ℕ) (from : ℕ) (h : ℕ → ℕ)
      → (write s (t.base + offset g t out red) (gather n from h)).1 ≡ none
      → out < t.noutpad
      → red + n ≤ t.nredpad
      → red % elems_per_row + n ≤ elems_per_row
      → (i : ℕ) → i < n
      → at (write s (t.base + offset g t out red) (gather n from h)).0 out (red + i) ≡ h (from + i)
  run_written s out red n from h done p q room i less =
      let a = t.base + offset g t out red in
      let place : t.base + offset g t out (red + i) ≡ a + 2 * i = omega (
        arith,
        offset_next g t f out red i p (omega (arith, q, less)) (omega (arith, room, less)),
      ) in
      ap (λ b. elem (write s a (gather n from h)).0 b) place
      ∙ law.written s a (gather n from h) done i (h (from + i)) (get_elem?-gather n from h i less)

  nothing_left :
      (r : Rect) (src : Option (ℕ → ℕ)) (stride o k : ℕ) (s : St)
      → r.nred ≤ k
      → RowFilled r src stride o k s (s, none)
  nothing_left r src stride o k s h = record {
    same = λ out red p q e. refl;
    filled = λ e j p q. absurd (omega (arith, h, p, q));
  }

  -- One round, where the transfer succeeds and the loop goes on with `to`.
  round_RowFilled :
      (r : Rect) (src : Option (ℕ → ℕ)) (stride o k n : ℕ) (s : St) (to : Done C)
      → Within t r
      → o < r.nout
      → k + n ≤ r.nred
      → (r.red0 + k) % elems_per_row + n ≤ elems_per_row
      → 0 < n
      → let w =
          write s
            (t.base + offset g t (r.out0 + o) (r.red0 + k))
            (gather n k (host_elem t.layout src stride o)) in
        (w.1 ≡ none) → RowFilled r src stride o (k + n) w.0 to → RowFilled r src stride o k s to
  round_RowFilled r src stride o k n s to within po pn room pos done rest =
      let out = r.out0 + o in
      let red = r.red0 + k in
      let h = host_elem t.layout src stride o in
      let xs = gather n k h in
      let pout : out < t.noutpad = omega (arith, within.outs, po) in
      record {
        same = λ out' red' p q outside.
            rest.same out' red' p q (λ e. elim (outside e) [
              | inl before ↦ inl (omega (arith, before))
              | inr after ↦ inr after
            ])
            ∙ run_same s out red n xs (length-gather n k h) pout
                (omega (arith, within.reds, pn, pos)) room out' red' p q
                (λ e. elim (outside e) [
                  | inl before ↦ inl before
                  | inr after ↦ inr (omega (arith, after, pn))
                ]);
        filled = λ e j p q. elim (Bool-cases (ltb j (k + n))) [
          | inl now ↦
              let i = j - k in
              let less : j < k + n = ground (arith, now) in
              let e1 : r.red0 + j ≡ red + i = omega (arith, p) in
              let e2 : k + i ≡ j = omega (arith, p) in
              rest.same out (r.red0 + j) pout (omega (arith, within.reds, q))
                (λ e'. inl (omega (arith, less)))
              ∙ ap (λ x. at (write s (t.base + offset g t out red) xs).0 out x) e1
              ∙ run_written s out red n k h done pout (omega (arith, within.reds, pn)) room i
                  (omega (arith, less, p))
              ∙ ap h e2
          | inr later ↦ rest.filled e j (ground (arith, later)) q
        ];
      }

  -- One round whose transfer fails.
  failed_RowFilled :
      (r : Rect) (src : Option (ℕ → ℕ)) (stride o k n : ℕ) (s : St) (b : Bad C.Fault)
      → Within t r
      → o < r.nout
      → k + n ≤ r.nred
      → (r.red0 + k) % elems_per_row + n ≤ elems_per_row
      → 0 < n
      → let w =
          write s
            (t.base + offset g t (r.out0 + o) (r.red0 + k))
            (gather n k (host_elem t.layout src stride o)) in
        RowFilled r src stride o k s (w.0, some b)
  failed_RowFilled r src stride o k n s b within po pn room pos = record {
    same = λ out' red' p q outside.
        run_same s (r.out0 + o) (r.red0 + k) n (gather n k (host_elem t.layout src stride o))
          (length-gather n k (host_elem t.layout src stride o)) (omega (arith, within.outs, po))
          (omega (arith, within.reds, pn, pos)) room out' red' p q
          (λ e. elim (outside e) [
            | inl before ↦ inl before
            | inr after ↦ inr (omega (arith, after, pn))
          ]);
    filled = λ e j p q. absurd (let z : some b ≡ none = e in cc);
  }

  pub fill_from-RowFilled :
      (fuel : ℕ) (r : Rect) (src : Option (ℕ → ℕ)) (stride o k : ℕ) (s : St)
      → Within t r
      → o < r.nout
      → k ≤ r.nred
      → r.nred ≤ k + fuel
      → RowFilled r src stride o k s (fill_from C fuel g t r src stride o k s)
  unfolding fill_from on_success told tensor_fault
  fill_from-RowFilled zero r src stride o k s within po pk enough =
      nothing_left r src stride o k s (omega (arith, enough))
  fill_from-RowFilled (suc fuel) r src stride o k s within po pk enough =
      elim (Bool-cases (ltb k r.nred)) [
        | inr no_more ↦ rw no_more (nothing_left r src stride o k s (ground (arith, no_more)))
        | inl more ↦
            let less : k < r.nred = ground (arith, more) in
            let red = r.red0 + k in
            let room = elems_per_row - red % elems_per_row in
            let n = if ltb (r.nred - k) room then r.nred - k else room in
            let pn : k + n ≤ r.nred = ground (arith, less) in
            let fit : red % elems_per_row + n ≤ elems_per_row = ground arith in
            let pos : 0 < n = ground (arith, less) in
            let red_word : u32 red ≡ red = omega (arith, within.reds, less, f.red_word) in
            let out_word : u32 (r.out0 + o) ≡ r.out0 + o =
              omega (arith, within.outs, po, f.out_word) in
            let w =
              write s (t.base + offset g t (r.out0 + o) red)
                (gather n k (host_elem t.layout src stride o)) in
            rw more (
              rw (red_word, out_word)
                (elim (Option-cases w.1) [
                  | inl good ↦ rw good (
                      round_RowFilled r src stride o k n s
                        (fill_from C fuel g t r src stride o (k + n) w.0) within po pn fit pos good
                        (fill_from-RowFilled fuel r src stride o (k + n) w.0 within po pn
                          (omega (arith, enough, pos))))
                  | inr (e, broken) ↦
                      rw broken
                        (failed_RowFilled r src stride o k n s (failed e) within po pn fit pos)
                ]))
      ]
