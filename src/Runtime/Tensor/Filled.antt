-- ===== src/Runtime/Tensor/Filled.antt =====
-- The whole of `scatter` of sw/runtime/pim_tensor.c: all rows of the rectangle.
use pim_sw.Common.{
  ℕ, zero, suc, ◌+◌, ◌≤◌, ◌<◌, ◌≡◌, ◌⊎◌, inl, inr, refl, sym, ◌∙◌, ap, Bool, true, ◌&&◌, ◌||◌,
  Option, none, some, ◌==◌, arith, Bool-cases,
}
use pim_sw.Library.Geometry.{Geometry}
use pim_sw.Runtime.Tensor.{Tensor, Rect, Card, Bad, no_staging, host_elem, is_red, is_none}
use pim_sw.Runtime.Tensor.Fill.{Done, on_success, fill_from, rows_from, scatter}
use pim_sw.Runtime.Tensor.Place.{Fits}
use pim_sw.Runtime.Tensor.Scatter.{Lawful, Within, at, RowFilled, fill_from-RowFilled}

none_in : (a b : ℕ) → (a == 0 || b == 0) ≡ true → (a ≤ 0) ⊎ (b ≡ 0)
none_in a b h = elim (Bool-cases (a == 0)) [
  | inl e ↦ inl (ground (arith, e))
  | inr e ↦ inr (ground (arith, e, h))
]

-- Outside the rectangle from its output `o` on.
abbrev pub Outside : Rect → ℕ → ℕ → ℕ → Type 0
Outside r o out red =
    ((out < r.out0 + o) ⊎ (r.out0 + r.nout ≤ out)) ⊎ ((red < r.red0) ⊎ (r.red0 + r.nred ≤ red))

module _ (C : Card) (law : Lawful C) (g : Geometry) (t : Tensor) (f : Fits g t) where
  open C use {St}

  abbrev pub elem_at : St → ℕ → ℕ → ℕ
  elem_at = at C law g t f

  -- From its output `o` on the rectangle has been written and nothing else has changed: where there is
  -- no message, every element of it is that of the host.
  pub record Filled (r : Rect) (src : Option (ℕ → ℕ)) (stride o : ℕ) (s : St) (to : Done C)
      : Type 0 where
    pub same :
        (out red : ℕ)
        → out < t.noutpad
        → red < t.nredpad
        → Outside r o out red
        → elem_at to.0 out red ≡ elem_at s out red
    pub filled :
        to.1 ≡ none
        → (i j : ℕ) → o ≤ i
        → i < r.nout
        → j < r.nred
        → elem_at to.0 (r.out0 + i) (r.red0 + j) ≡ host_elem t.layout src stride i j

  -- Where a row has been written and the loop goes on with `to`.
  row_done :
      (r : Rect) (src : Option (ℕ → ℕ)) (stride o : ℕ) (s mid : St) (to : Done C)
      → Within t r
      → o < r.nout
      → RowFilled C law g t f r src stride o 0 s (mid, none)
      → Filled r src stride (o + 1) mid to
      → Filled r src stride o s to
  row_done r src stride o s mid to within po row rest = record {
    same = λ out red p q out_of.
        rest.same out red p q (elim out_of [
          | inl (inl above) ↦ inl (inl (omega (arith, above)))
          | inl (inr below) ↦ inl (inr below)
          | inr beside ↦ inr beside
        ])
        ∙ row.same out red p q (λ e. elim out_of [
          | inl (inl above) ↦ absurd (omega (arith, above, e))
          | inl (inr below) ↦ absurd (omega (arith, below, e, po))
          | inr (inl before) ↦ inl (omega (arith, before))
          | inr (inr after) ↦ inr after
        ]);
    filled = λ e i j p q u. elim (Bool-cases (i == o)) [
      | inl here ↦
          let same_row : i ≡ o = ground (arith, here) in
          rest.same (r.out0 + i) (r.red0 + j) (omega (arith, within.outs, q))
            (omega (arith, within.reds, u)) (inl (inl (omega (arith, same_row))))
          ∙ ap (λ x. elem_at mid (r.out0 + x) (r.red0 + j)) same_row
          ∙ row.filled refl j (omega arith) u
          ∙ ap (λ x. host_elem t.layout src stride x j) (sym same_row)
      | inr later ↦ rest.filled e i j (ground (arith, p, later)) q u
    ];
  }

  row_failed :
      (r : Rect) (src : Option (ℕ → ℕ)) (stride o : ℕ) (s mid : St) (b : Bad C.Fault)
      → o < r.nout
      → RowFilled C law g t f r src stride o 0 s (mid, some b)
      → Filled r src stride o s (mid, some b)
  row_failed r src stride o s mid b po row = record {
    same = λ out red p q out_of. row.same out red p q (λ e. elim out_of [
      | inl (inl above) ↦ absurd (omega (arith, above, e))
      | inl (inr below) ↦ absurd (omega (arith, below, e, po))
      | inr (inl before) ↦ inl (omega (arith, before))
      | inr (inr after) ↦ inr after
    ]);
    filled = λ e i j p q u. absurd (let z : some b ≡ none = e in cc);
  }

  pub no_rows :
      (r : Rect) (src : Option (ℕ → ℕ)) (stride o : ℕ) (s : St) (bad : Option (Bad C.Fault))
      → (bad ≡ none → (r.nout ≤ o) ⊎ (r.nred ≡ 0))
      → Filled r src stride o s (s, bad)
  no_rows r src stride o s bad h = record {
    same = λ out red p q out_of. refl;
    filled = λ e i j p q u. elim (h e) [
      | inl all ↦ absurd (omega (arith, all, p, q))
      | inr empty ↦ absurd (omega (arith, empty, u))
    ];
  }

  rows_from-Filled :
      (n : ℕ) (r : Rect) (src : Option (ℕ → ℕ)) (stride o : ℕ) (s : St)
      → Within t r
      → o + n ≡ r.nout
      → Filled r src stride o s (rows_from C n g t r src stride o s)
  unfolding rows_from on_success
  rows_from-Filled zero r src stride o s within all =
      no_rows r src stride o s none (λ e. inl (omega (arith, all)))
  rows_from-Filled (suc n) r src stride o s within all =
      let row =
        fill_from-RowFilled C law g t f r.nred r src stride o 0 s within (omega (arith, all))
          (omega arith) (omega arith) in
      after_row n r src stride o s (fill_from C r.nred g t r src stride o 0 s) within all row
        (λ mid. rows_from-Filled n r src stride (o + 1) mid within (omega (arith, all)))
    where
      after_row :
          (n : ℕ) (r : Rect) (src : Option (ℕ → ℕ)) (stride o : ℕ) (s : St) (now : Done C)
          → Within t r
          → o + suc n ≡ r.nout
          → RowFilled C law g t f r src stride o 0 s now
          → ((mid : St)
              → Filled r src stride (o + 1) mid (rows_from C n g t r src stride (o + 1) mid))
          → Filled r src stride o s (on_success C now (rows_from C n g t r src stride (o + 1)))
      after_row n r src stride o s (mid, none) within all row ih =
          row_done r src stride o s mid (rows_from C n g t r src stride (o + 1) mid) within
            (omega (arith, all)) row (ih mid)
      after_row n r src stride o s (mid, some b) within all row ih =
          row_failed r src stride o s mid b (omega (arith, all)) row

  -- For a planned tensor whose numbers fit, a rectangle of the padded matrix and a transfer that keeps
  -- its promises: whatever `scatter` returns, no element outside the rectangle has changed, and where it
  -- returns no message, every element of the rectangle is zero, if there is no source, or the one of
  -- the host's array that the layout names.
  pub scatter-Filled :
      (no_memory : Bool) (r : Rect) (src : Option (ℕ → ℕ)) (stride : ℕ) (s : St)
      → Within t r
      → Filled r src stride 0 s (scatter C no_memory g t r src stride s)
  unfolding scatter
  scatter-Filled no_memory r src stride s within = elim (Bool-cases (r.nout == 0 || r.nred == 0)) [
    | inl empty ↦ rw empty (no_rows r src stride 0 s none (λ e. none_in r.nout r.nred empty))
    | inr some_in ↦ rw some_in (elim (Bool-cases ((is_none src || is_red t.layout) && no_memory)) [
      | inl refused ↦ rw refused (
          no_rows r src stride 0 s (some no_staging)
            (λ e. absurd (let z : some no_staging ≡ none = e in cc)))
      | inr fine ↦ rw fine (rows_from-Filled r.nout r src stride 0 s within (omega arith))
    ])
  ]
