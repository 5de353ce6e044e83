-- ===== src/Library/Geometry/Decode.antt =====
-- `pim_geom_decode` and `pim_geom_encode` of sw/include/pim/pim_geometry.h invert each other under
-- both address maps, on a geometry that a device can be opened with.
use native.Mathlib.Nat.{div-add-mod', mod-lt, mul_comm, mul-le-mul_right}
use pim_sw.Common.{
  factor_pos, ℕ, ◌+◌, ◌-◌, ◌*◌, ◌/◌, ◌%◌, ◌^◌, ◌≤◌, ◌<◌, ◌≡◌, refl, ◌∙◌, ap, false, not, ◌&&◌,
  arith, ◌==◌, u32, u64, sub64, parts_of, quotient_lt, block_le, three_parts, three_back,
  div_of_parts, mod_of_parts,
}
use pim_sw.Library.Geometry.{
  Geometry, Map, ch_ro_ba_co, ro_ch_ba_co, Coord, dram, robaco_row, is_ch_ro, locate, geom_decode,
  encode_in, geom_encode,
}
use pim_sw.Library.Geometry.Derive.{Usable}

-- The offset within a row of all banks has a bank and a byte of its page.
inner_parts :
    (g : Geometry) (x : ℕ)
    → Usable g
    → x < g.nbank * g.row_bytes
    → (x / g.row_bytes * g.row_bytes + x % g.row_bytes ≡ x)
      × (x / g.row_bytes < g.nbank)
      × (x % g.row_bytes < g.row_bytes)
      × (u32 (x / g.row_bytes) ≡ x / g.row_bytes)
      × (u32 (x % g.row_bytes) ≡ x % g.row_bytes)
inner_parts g x v h =
    let pos : 0 < g.row_bytes = omega (arith, v.row_long) in
    let q = quotient_lt x g.row_bytes g.nbank pos h in
    let r = mod-lt x pos in
    (div-add-mod' x g.row_bytes, q, r, omega (arith, q, v.nbank_word), omega (arith, r, v.row_word))

-- Where the four coordinates stand within their fields.
pub record InRange (g : Geometry) (c : Coord) : Type 0 where
  pub ch : c.ch < g.nch
  pub bank : c.bank < g.nbank
  pub col_byte : c.col_byte < g.row_bytes

-- The offset in the region that the parts name under each map, and the rows that it has room for.
located : Map → Geometry → ℕ → ℕ → ℕ → ℕ
located ro_ch_ba_co g row ch rest = row * g.unit_bytes + ch * robaco_row g + rest
located ch_ro_ba_co g row ch rest = ch * ((g.mem dram).bytes / g.nch) + row * robaco_row g + rest

abbrev pub RowFits : Map → Geometry → ℕ → Type 0
RowFits ro_ch_ba_co g row = row * g.unit_bytes + g.unit_bytes ≤ (g.mem dram).bytes
RowFits ch_ro_ba_co g row = row * robaco_row g + robaco_row g ≤ (g.mem dram).bytes / g.nch

-- The span of a channel under the map that puts the channel first.
span-even :
    (g : Geometry)
    → Usable g
    → not ((g.mem dram).bytes % g.nch == 0) ≡ false
    → g.nch * ((g.mem dram).bytes / g.nch) ≡ (g.mem dram).bytes
span-even g v e =
    ground
      (arith, e, div-add-mod' (g.mem dram).bytes g.nch, mul_comm g.nch ((g.mem dram).bytes / g.nch))

inner_pos : (g : Geometry) → Usable g → 0 < g.nbank * g.row_bytes
inner_pos g v = omega (arith, mul-le-mul_right g.row_bytes v.nbank_pos, v.row_long)

located-locate :
    (m : Map) (g : Geometry) (off : ℕ)
    → Usable g
    → (is_ch_ro m && not ((g.mem dram).bytes % g.nch == 0)) ≡ false
    → off < (g.mem dram).bytes
    → let (row, ch, rest) = locate m g off in
      (located m g row ch rest ≡ off) × (ch < g.nch) × (rest < g.nbank * g.row_bytes)
unfolding locate located is_ch_ro
located-locate ro_ch_ba_co g off v e h =
    let b = g.nbank * g.row_bytes in
    let pos : 0 < b = inner_pos g v in
    let q = mod-lt (off / b) v.nch_pos in
    let word : u32 (off / b % g.nch) ≡ off / b % g.nch = omega (arith, q, v.nch_most) in
    rw (v.rbr, v.unit, word) (three_parts off b g.nch, q, mod-lt off pos)
located-locate ch_ro_ba_co g off v e h =
    let b = g.nbank * g.row_bytes in
    let pos : 0 < b = inner_pos g v in
    let span = (g.mem dram).bytes / g.nch in
    let whole = span-even g v e in
    let some_span : 0 < span = factor_pos g.nch span (omega (arith, whole, h)) in
    let q = quotient_lt off span g.nch some_span (omega (arith, whole, h)) in
    let word : u32 (off / span) ≡ off / span = omega (arith, q, v.nch_most) in
    rw (v.rbr, word)
      (
        omega (arith, div-add-mod' off span, div-add-mod' (off % span) b),
        q,
        mod-lt (off % span) pos,
      )

locate-located :
    (m : Map) (g : Geometry) (row ch rest : ℕ)
    → Usable g
    → (is_ch_ro m && not ((g.mem dram).bytes % g.nch == 0)) ≡ false
    → RowFits m g row
    → ch < g.nch
    → rest < g.nbank * g.row_bytes
    → (locate m g (located m g row ch rest) ≡ (row, ch, rest))
      × (located m g row ch rest < (g.mem dram).bytes)
unfolding locate located is_ch_ro
locate-located ro_ch_ba_co g row ch rest v e fits hc hr =
    let b = g.nbank * g.row_bytes in
    let (p, q, r) = three_back row ch rest g.nch b hc hr in
    let word : u32 ch ≡ ch = omega (arith, hc, v.nch_most) in
    rw (v.rbr, v.unit)
      (
        rw (p, q, r, word) refl,
        omega (arith, block_le ch g.nch b hc, v.unit, fits, hr, ap (λ u. row * u) v.unit),
      )
locate-located ch_ro_ba_co g row ch rest v e fits hc hr =
    let b = g.nbank * g.row_bytes in
    let span = (g.mem dram).bytes / g.nch in
    let room : row * b + b ≤ span = omega (arith, fits, v.rbr, ap (λ u. row * u) v.rbr) in
    let sum : ch * span + row * b + rest ≡ ch * span + (row * b + rest) = omega arith in
    let (p, q) =
      parts_of (ch * span + row * b + rest) ch (row * b + rest) span sum
        (omega (arith, room, hr)) in
    let word : u32 ch ≡ ch = omega (arith, hc, v.nch_most) in
    rw v.rbr (
      rw (p, q, div_of_parts row rest b hr, mod_of_parts row rest b hr, word) refl,
      omega (arith, block_le ch g.nch span hc, span-even g v e, room, hr),
    )

encode_in-located :
    (m : Map) (g : Geometry) (inner : ℕ) (c : Coord)
    → encode_in m g inner c ≡ u64 ((g.mem dram).base + located m g c.row c.ch inner)
unfolding encode_in located
encode_in-located ro_ch_ba_co g inner c = omega arith
encode_in-located ch_ro_ba_co g inner c = omega arith

-- On a usable geometry, decoding a 64-bit address of the DRAM region gives coordinates in range,
-- and encoding these gives the address again, under either map.
pub geom_encode-geom_decode :
    (g : Geometry) (a : ℕ)
    → Usable g
    → (g.mem dram).base ≤ a
    → a < (g.mem dram).base + (g.mem dram).bytes
    → a < 2 ^ 64
    → (geom_encode g (geom_decode g a) ≡ a) × InRange g (geom_decode g a)
unfolding geom_encode geom_decode encode_in
geom_encode-geom_decode g a v low high word =
    let base = (g.mem dram).base in
    let off = a - base in
    let e : sub64 a base ≡ off = omega arith in
    let (l, hc, hr) = located-locate g.map g off v v.even (omega arith) in
    let (row, ch, x) = locate g.map g off in
    let (i0, i1, i2, i3, i4) = inner_parts g x v hr in
    let c : Coord = record {
      row = row;
      ch = ch;
      bank = x / g.row_bytes;
      col_byte = x % g.row_bytes;
    } in
    rw (e, i3, i4, i0)
      (
        rw (encode_in-located g.map g x c, l) (omega arith),
        record { ch = hc; bank = i1; col_byte = i2 },
      )

-- On a usable geometry whose DRAM region ends within 64 bits, encoding coordinates in range, of a
-- row that fits, gives an address of the region, and decoding it gives the coordinates again, under
-- either map.
pub geom_decode-geom_encode :
    (g : Geometry) (c : Coord)
    → Usable g
    → InRange g c
    → RowFits g.map g c.row
    → (g.mem dram).base + (g.mem dram).bytes ≤ 2 ^ 64
    → (geom_decode g (geom_encode g c) ≡ c)
      × ((g.mem dram).base ≤ geom_encode g c)
      × (geom_encode g c < (g.mem dram).base + (g.mem dram).bytes)
unfolding geom_encode geom_decode encode_in
geom_decode-geom_encode g c v r fits word =
    let base = (g.mem dram).base in
    let x = c.bank * g.row_bytes + c.col_byte in
    let small : x < g.nbank * g.row_bytes =
      omega (arith, block_le c.bank g.nbank g.row_bytes r.bank, r.col_byte) in
    let off = located g.map g c.row c.ch x in
    let (back, inside) = locate-located g.map g c.row c.ch x v v.even fits r.ch small in
    let (d, m) = parts_of x c.bank c.col_byte g.row_bytes refl r.col_byte in
    let (i0, i1, i2, i3, i4) = inner_parts g x v small in
    let at : encode_in g.map g x c ≡ base + off = encode_in-located g.map g x c ∙ omega arith in
    let e : sub64 (base + off) base ≡ off = omega arith in
    rw (at, e, back, i3, i4, d, m) (refl, omega arith, omega arith)
