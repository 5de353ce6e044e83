-- ===== src/Runtime/Tensor/Place.antt =====
-- `pim_tensor_offset` of sw/runtime/pim_tensor.c gives each element of the padded matrix two bytes of
-- its own within the allocation.
use native.Mathlib.Nat.{mul_comm, mul_assoc, add-mul, mod-lt}
use pim_sw.Common.{
  ℕ, ◌+◌, ◌*◌, ◌/◌, ◌%◌, ◌^◌, ◌≤◌, ◌<◌, ◌≡◌, ◌≢◌, ◌⊎◌, inl, inr, refl, sym, ◌∙◌, ap, ltb,
  Bool-cases, u32, arith, three_parts, three_back, parts_of, quotient_lt, block_le,
}
use pim_sw.Library.Geometry.{Geometry}
use pim_sw.Runtime.Tensor.{Tensor, elems_per_row, unit_of, offset, bytes}

-- What the offsets rest on: a broadcast unit is a row of 1024 elements or more in every bank of every
-- channel, and the padded shape, whose numbers the C types hold, is a whole number of units.
pub record Fits (g : Geometry) (t : Tensor) : Type 0 where
  pub channels : 0 < g.nch
  pub banks : 0 < g.nbank
  pub row : elems_per_row * 2 ≤ g.row_bytes
  pub unit : g.unit_bytes ≡ g.nch * g.nbank * g.row_bytes
  pub groups : t.noutpad ≡ t.ngroups * (g.nch * g.nbank)
  pub chunks : t.nredpad ≤ t.nchunks * elems_per_row
  pub per_word : g.nch * g.nbank < 2 ^ 32
  pub out_word : t.noutpad < 2 ^ 32
  pub red_word : t.nredpad + elems_per_row ≤ 2 ^ 32
  pub units_word : t.ngroups * t.nchunks < 2 ^ 32
  pub bytes_word : t.ngroups * t.nchunks * g.unit_bytes < 2 ^ 64

apart_cases : (a b : ℕ) → a ≢ b → (a < b) ⊎ (b + 1 ≤ a)
apart_cases a b h = elim (Bool-cases (ltb a b)) [
  | inl less ↦ inl (ground (arith, less))
  | inr more ↦ inr (ground (arith, more, h))
]

-- The row of a bank in which the element is, counted over the whole allocation.
abbrev pub line : Geometry → Tensor → ℕ → ℕ → ℕ
line g t out red =
    (out / (g.nch * g.nbank) * t.nchunks + red / elems_per_row) * (g.nch * g.nbank)
    + out / g.nbank % g.nch * g.nbank
    + out % g.nbank

module _ (g : Geometry) (t : Tensor) (f : Fits g t) where
  abbrev rest : ℕ → ℕ
  rest out = out / g.nbank % g.nch * g.nbank + out % g.nbank

  rest_lt : (out : ℕ) → rest out < g.nch * g.nbank
  rest_lt out =
      let a = mod-lt (out / g.nbank) f.channels in
      let b = mod-lt out f.banks in
      omega (arith, b, block_le (out / g.nbank % g.nch) g.nch g.nbank a)

  per_pos : 0 < g.nch * g.nbank
  per_pos = omega (arith, rest_lt 0)

  group_lt : (out : ℕ) → out < t.noutpad → out / (g.nch * g.nbank) < t.ngroups
  group_lt out h = quotient_lt out (g.nch * g.nbank) t.ngroups per_pos (omega (arith, h, f.groups))

  chunk_lt : (red : ℕ) → red < t.nredpad → red / elems_per_row < t.nchunks
  chunk_lt red h = omega (arith, h, f.chunks)

  unit_lt :
      (out red : ℕ)
      → out < t.noutpad
      → red < t.nredpad
      → out / (g.nch * g.nbank) * t.nchunks + red / elems_per_row < t.ngroups * t.nchunks
  unit_lt out red p q = omega (
    arith,
    chunk_lt red q,
    block_le (out / (g.nch * g.nbank)) t.ngroups t.nchunks (group_lt out p),
  )

  -- The rows are all within the allocation.
  line_lt :
      (out red : ℕ)
      → out < t.noutpad
      → red < t.nredpad
      → line g t out red < t.ngroups * t.nchunks * (g.nch * g.nbank)
  line_lt out red p q =
      let n = g.nch * g.nbank in
      let u = out / n * t.nchunks + red / elems_per_row in
      omega (arith, rest_lt out, block_le u (t.ngroups * t.nchunks) n (unit_lt out red p q))

  total :
      t.ngroups * t.nchunks * g.unit_bytes ≡ t.ngroups * t.nchunks * (g.nch * g.nbank) * g.row_bytes
  total =
      let m = t.ngroups * t.nchunks in
      ap (λ u. m * u) f.unit ∙ sym (mul_assoc m (g.nch * g.nbank) g.row_bytes)

  line_end :
      (out red : ℕ)
      → out < t.noutpad
      → red < t.nredpad
      → line g t out red * g.row_bytes + g.row_bytes ≤ t.ngroups * t.nchunks * g.unit_bytes
  line_end out red p q =
      let n = t.ngroups * t.nchunks * (g.nch * g.nbank) in
      omega (arith, block_le (line g t out red) n g.row_bytes (line_lt out red p q), total)

  -- The offset is that of the row and of the element in it.
  pub offset-line :
      (out red : ℕ)
      → out < t.noutpad
      → red < t.nredpad
      → offset g t out red ≡ line g t out red * g.row_bytes + red % elems_per_row * 2
  unfolding offset unit_of
  offset-line out red p q =
      let n = g.nch * g.nbank in
      let u = out / n * t.nchunks + red / elems_per_row in
      let ch = out / g.nbank % g.nch in
      let bank = out % g.nbank in
      let per : u32 (g.nbank * g.nch) ≡ n = omega (arith, mul_comm g.nbank g.nch, f.per_word) in
      let word : u32 u ≡ u = omega (arith, unit_lt out red p q, f.units_word) in
      let sum : line g t out red * g.row_bytes
          ≡ u * n * g.row_bytes + ch * g.nbank * g.row_bytes + bank * g.row_bytes =
        omega (
          arith,
          add-mul (u * n + ch * g.nbank) bank g.row_bytes,
          add-mul (u * n) (ch * g.nbank) g.row_bytes,
        ) in
      let unit : u * g.unit_bytes ≡ u * n * g.row_bytes =
        ap (λ x. u * x) f.unit ∙ sym (mul_assoc u n g.row_bytes) in
      let room = line_end out red p q in
      let low = f.row in rw (per, word) (omega (arith, sum, unit, room, low, f.bytes_word))

  -- Two elements of one row of one bank are of the same output and the same chunk.
  pub line-inj :
      (out red out' red' : ℕ)
      → red < t.nredpad
      → red' < t.nredpad
      → line g t out red ≡ line g t out' red'
      → (out ≡ out') × (red / elems_per_row ≡ red' / elems_per_row)
  line-inj out red out' red' q q' e =
      let n = g.nch * g.nbank in
      let back = λ (o r : ℕ).
        three_back (o / n * t.nchunks + r / elems_per_row) (o / g.nbank % g.nch) (o % g.nbank) g.nch
          g.nbank (mod-lt (o / g.nbank) f.channels) (mod-lt o f.banks) in
      let (u, ch, bank) = back out red in
      let (u', ch', bank') = back out' red' in
      let same_u = sym u ∙ ap (λ x. x / n) e ∙ u' in
      let same_ch = sym ch ∙ ap (λ x. x / g.nbank % g.nch) e ∙ ch' in
      let same_bank = sym bank ∙ ap (λ x. x % g.nbank) e ∙ bank' in
      let (grp, chk) =
        parts_of (out / n * t.nchunks + red / elems_per_row) (out / n) (red / elems_per_row)
          t.nchunks refl (chunk_lt red q) in
      let (grp', chk') =
        parts_of (out' / n * t.nchunks + red' / elems_per_row) (out' / n) (red' / elems_per_row)
          t.nchunks refl (chunk_lt red' q') in
      let same_grp = sym grp ∙ ap (λ x. x / t.nchunks) same_u ∙ grp' in
      let same_chk = sym chk ∙ ap (λ x. x % t.nchunks) same_u ∙ chk' in
      let whole = λ (o : ℕ). three_parts o g.nbank g.nch in
      (
        sym (whole out) ∙ (λ i. same_grp i * n + same_ch i * g.nbank + same_bank i) ∙ whole out',
        same_chk,
      )

  line_before : (a b : ℕ) → a < b → a * g.row_bytes + g.row_bytes ≤ b * g.row_bytes
  line_before a b h = block_le a b g.row_bytes h

  -- Elements of one chunk of an output follow one another.
  pub offset_next :
      (out red i : ℕ)
      → out < t.noutpad
      → red + i < t.nredpad
      → red % elems_per_row + i < elems_per_row
      → offset g t out (red + i) ≡ offset g t out red + 2 * i
  offset_next out red i p q h =
      let here = offset-line out red p (omega (arith, q)) in
      let there = offset-line out (red + i) p q in
      let chunk : (red + i) / elems_per_row ≡ red / elems_per_row = omega (arith, h) in
      let lane : (red + i) % elems_per_row ≡ red % elems_per_row + i = omega (arith, h) in
      let same : line g t out (red + i) ≡ line g t out red =
        ap
          (λ c.
            (out / (g.nch * g.nbank) * t.nchunks + c) * (g.nch * g.nbank)
            + out / g.nbank % g.nch * g.nbank
            + out % g.nbank)
          chunk in
      omega (arith, here, there, lane, ap (λ l. l * g.row_bytes) same)

  -- Any other element lies before or after a run of `n` in one chunk.
  pub run_apart :
      (out red n out' red' : ℕ)
      → out < t.noutpad
      → red < t.nredpad
      → red % elems_per_row + n ≤ elems_per_row
      → out' < t.noutpad
      → red' < t.nredpad
      → (out' ≡ out → (red' < red) ⊎ (red + n ≤ red'))
      → (offset g t out' red' + 2 ≤ offset g t out red)
        ⊎ (offset g t out red + 2 * n ≤ offset g t out' red')
  run_apart out red n out' red' p q room p' q' outside =
      let here = offset-line out red p q in
      let there = offset-line out' red' p' q' in
      let l = line g t out red in
      let l' = line g t out' red' in
      let low = f.row in
      let lane : red' % elems_per_row < elems_per_row = omega arith in
      elim (Bool-cases (ltb l' l)) [
        | inl less ↦
            inl (omega (arith, here, there, line_before l' l (ground (arith, less)), low, lane))
        | inr not_less ↦ elim (Bool-cases (ltb l l')) [
          | inl more ↦
              inr (omega (arith, here, there, line_before l l' (ground (arith, more)), low, room))
          | inr not_more ↦
              let same : l' ≡ l = ground (arith, not_less, not_more) in
              let (out_eq, chunk_eq) = line-inj out' red' out red q' q same in
              let rows = ap (λ x. x * g.row_bytes) same in
              elim (outside out_eq) [
                | inl before ↦ inl (omega (arith, here, there, rows, chunk_eq, before))
                | inr after ↦ inr (omega (arith, here, there, rows, chunk_eq, after))
              ]
        ]
      ]

  -- Where the numbers of a planned tensor fit their C types, each element of the padded matrix has two
  -- bytes of its own: they lie within the bytes that `pim_tensor_bytes` asks for, and those of any
  -- other element lie before or after them.
  pub offset-apart :
      (out red : ℕ)
      → out < t.noutpad
      → red < t.nredpad
      → (offset g t out red + 2 ≤ bytes g t)
        × ((out' red' : ℕ)
            → out' < t.noutpad
            → red' < t.nredpad
            → (out' ≡ out → red' ≢ red)
            → (offset g t out' red' + 2 ≤ offset g t out red)
              ⊎ (offset g t out red + 2 ≤ offset g t out' red'))
  unfolding bytes
  offset-apart out red p q =
      let here = offset-line out red p q in
      let room = line_end out red p q in
      let low = f.row in
      (
        omega (arith, here, room, low, f.bytes_word),
        λ out' red' p' q' differ.
            run_apart out red 1 out' red' p q (omega arith) p' q'
              (λ e. apart_cases red' red (differ e)),
      )
