-- ===== src/Library/Open/Started.antt =====
-- The driver and the library agree: what a module that has loaded reports passes the checks of the
-- library, but for the number of granules in a hugepage.
use native.Mathlib.Nat.{mod_self, div_self, mul-mod_left, mod-zero, div-add-mod'}
use pim_sw.Library.Geometry.Derive.{geom_derive-Derived}
use pim_sw.Common.{
  Option, refl, false, pow_sum, word_of_pow2, product-IsPow2, pow_mono, ℕ, zero, suc, ◌+◌, ◌-◌, ◌*◌,
  ◌/◌, ◌%◌, ◌^◌, ◌≤◌, ◌<◌, ◌≡◌, ◌↔◌, ◌∙◌, arith, ltb, some, none, Bool-cases, inl, inr, u64, IsPow2,
  IsPow2-pos,
}
use pim_sw.Driver.Ledger.{Ledger, Status, ok}
use pim_sw.Driver.Init.Loads.{Spans, Reports, pim_init-Reports}
use pim_sw.Driver.Init.{RegionInfo, Params, InitFaults, Started, pim_init, get_info}
use pim_sw.Library.Geometry.{Geometry, Region, dram, gpr, geom_derive, geom_check, Fault, is_ch_ro}
use pim_sw.Library.Geometry.Check.{Fits, RegionFits, geom_check_iff}
use pim_sw.Library.Open.{wrong_map, opened, verdict, adopt, map_of, open_geometry}

-- A number that wraps at 64 bits keeps its remainder by a power of two up to 8.
wrap_even : (n a : ℕ) → IsPow2 n → n ≤ 8 → u64 (n * a) % n ≡ 0
wrap_even n a (zero, e) h = rw e (omega arith)
wrap_even n a (suc zero, e) h = rw e (omega arith)
wrap_even n a (suc (suc zero), e) h = rw e (omega arith)
wrap_even n a (suc (suc (suc zero)), e) h = rw e (omega arith)
wrap_even n a (suc (suc (suc (suc k))), e) h =
    absurd (omega (arith, h, e, pow_mono 4 (suc (suc (suc (suc k)))) (omega arith)))

-- The broadcast unit is a power of two, unless the product of the topology has wrapped to 0.
unit-IsPow2 :
    (n b r : ℕ)
    → IsPow2 n
    → IsPow2 b
    → IsPow2 r
    → 0 < u64 (u64 (n * b) * r)
    → IsPow2 (u64 (u64 (n * b) * r))
unit-IsPow2 n b r pn pb pr pos = elim (word_of_pow2 (product-IsPow2 n b pn pb)) [
  | inl fits ↦ elim (word_of_pow2 (product-IsPow2 (n * b) r (product-IsPow2 n b pn pb) pr)) [
    | inl whole ↦ rw (fits, whole) (product-IsPow2 (n * b) r (product-IsPow2 n b pn pb) pr)
    | inr cut ↦ absurd (omega (arith, rw fits at pos, cut))
  ]
  | inr cut ↦ absurd (omega (arith, rw cut at pos))
]

-- A region of the library that has a reported span, for a granule that divides its hugepage.
Spans-RegionFits :
    (r : Region) (i : RegionInfo) (base bytes page gran : ℕ)
    → Spans i base bytes page
    → r.base ≡ i.base
    → r.bytes ≡ i.bytes
    → r.hugepage_bytes ≡ i.hugepage_bytes
    → r.nr_hugepages ≡ i.nr_hugepages
    → r.gran ≡ gran
    → IsPow2 page
    → IsPow2 gran
    → page % gran ≡ 0
    → page / gran ≤ 64
    → RegionFits r
Spans-RegionFits r i base bytes page gran s eb en eh ec eg pp pg d few =
    let hb : r.hugepage_bytes ≡ page = eh ∙ s.hugepage_eq in
    let all : r.bytes ≡ bytes = en ∙ s.bytes_eq in
    record {
      page = rw hb pp;
      grain = rw eg pg;
      divides = rw (hb, eg) (omega (arith, div-add-mod' page gran, d));
      few = rw (hb, eg) few;
      aligned = rw (eb, s.base_eq, hb) s.aligned;
      whole = rw (ec, s.count, hb, all) (omega (arith, div-add-mod' bytes page, s.whole));
      some_bytes = rw all s.some_bytes;
    }

divisor_pos : (a u : ℕ) → 0 < a → a % u ≡ 0 → 0 < u
divisor_pos a zero h e = absurd (omega (arith, h, e, mod-zero a))
divisor_pos a (suc u) h e = omega arith

word_multiple : (v : ℕ) → IsPow2 v → 32 ≤ v → v % 32 ≡ 0
word_multiple v (k, e) h = elim (Bool-cases (ltb k 5)) [
  | inl short ↦ absurd (omega (arith, h, e, pow_mono k 4 (ground (arith, short))))
  | inr long ↦
      let f : k ≡ k - 5 + 5 = ground (arith, long) in
      rw (e, f, pow_sum (k - 5) 5) (mul-mod_left (2 ^ (k - 5)) 32)
]

-- What the library takes over from the report of a started module.
adopted : Started → (ℕ → Ledger) → Geometry
unfolding adopt get_info
adopted d led = adopt (get_info d.tmpl led)

adopted-Fits :
    (p : Params) (d : Started) (led : ℕ → Ledger)
    → Reports p d
    → p.hugepage_size / d.tmpl.unit_bytes ≤ 64
    → Fits (geom_derive (adopted d led))
unfolding adopted
adopted-Fits p d led r few =
    let g = adopted d led in
    let v = geom_derive-Derived g in
    let c = r.checked in
    let d' = geom_derive g in
    let unit_pos : 0 < d.tmpl.unit_bytes =
      divisor_pos p.hugepage_size d.tmpl.unit_bytes (IsPow2-pos c.hugepage_size) c.straddle in
    let unit_pow : IsPow2 d.tmpl.unit_bytes = rw r.unit (
      unit-IsPow2 p.channels p.banks p.row_size c.channels c.banks c.row_size
        (rw r.unit at unit_pos)) in
    let even : (d'.mem dram).bytes % d'.nch ≡ 0 =
      rw (v.bytes dram, r.dram_spans.bytes_eq, v.nch, r.nch)
        (wrap_even p.channels p.ch_span c.channels c.most) in
    record {
      nch = rw (v.nch, r.nch) c.channels;
      most = omega (arith, v.nch, r.nch, c.most);
      nbank = rw (v.nbank, r.nbank) c.banks;
      row_bytes = rw (v.row_bytes, r.row_bytes) c.row_size;
      long_row = omega (arith, v.row_bytes, r.row_bytes, c.long_row);
      unit = rw (v.unit, v.nch, v.nbank, v.row_bytes) (rw (r.nch, r.nbank, r.row_bytes) r.unit);
      dram_fits =
          Spans-RegionFits (d'.mem dram) (d.tmpl.region 0) _ _ _ _ r.dram_spans (v.base dram)
            (v.bytes dram) (v.page dram) (v.count dram) v.gran_dram c.hugepage_size unit_pow
            c.straddle few;
      gpr_fits =
          Spans-RegionFits (d'.mem gpr) (d.tmpl.region 1) _ _ _ p.gpr_page r.gpr_spans (v.base gpr)
            (v.bytes gpr) (v.page gpr) (v.count gpr) (v.gran_gpr ∙ r.gpr_spans.hugepage_eq)
            c.gpr_page c.gpr_page (mod_self p.gpr_page)
            (omega (arith, div_self (IsPow2-pos c.gpr_page)));
      straddle = rw (v.page dram, v.unit, r.dram_spans.hugepage_eq) c.straddle;
      even = ground (arith, even);
      words =
          rw (v.gran_gpr, r.gpr_spans.hugepage_eq)
            (word_multiple p.gpr_page c.gpr_page c.long_page);
    }

-- The check of the library passes on the geometry that a loaded module reports exactly if a hugepage of the DRAM is at most 64 broadcast units.
pub started_check :
    (p : Params) (fault : InitFaults) (bad : Status) (d : Started) (led : ℕ → Ledger)
    → pim_init p fault bad ≡ (ok, some d)
    → (geom_check (geom_derive (adopt (get_info d.tmpl led))) ≡ none)
      ↔ (p.hugepage_size / d.tmpl.unit_bytes ≤ 64)
unfolding adopted
started_check p fault bad d led h =
    let r = pim_init-Reports p fault bad d h in
    let v = geom_derive-Derived (adopted d led) in
    let (to, from) = geom_check_iff (geom_derive (adopted d led)) in
    (
      λ e. rw (v.page dram, v.gran_dram, r.dram_spans.hugepage_eq) at (to e).dram_fits.few,
      λ few. from (adopted-Fits p d led r few),
    )

verdict-opened :
    (o : Option Fault) (g : Geometry)
    → verdict o g ≡ opened g
    → (o ≡ none) × (is_ch_ro g.map ≡ false)
unfolding verdict
verdict-opened (some f) g e = absurd cc
verdict-opened none g e = elim (Bool-cases (is_ch_ro g.map)) [
  | inl linear ↦ absurd (let k : wrong_map ≡ opened g = rw linear at e in cc)
  | inr mixed ↦ (refl, mixed)
]

verdict_none : (g : Geometry) → is_ch_ro g.map ≡ false → verdict none g ≡ opened g
unfolding verdict
verdict_none g e = rw e refl

interleaved : (a : ℕ) → a ≤ 1 → (is_ch_ro (map_of a) ≡ false) ↔ (a ≡ 1)
unfolding is_ch_ro map_of
interleaved zero h = (λ e. absurd cc, λ e. absurd (omega (arith, e)))
interleaved (suc zero) h = (λ e. refl, λ e. refl)
interleaved (suc (suc a)) h = absurd (omega (arith, h))

-- Whatever has been allocated by then, `pim_open` goes on with the geometry that a loaded module
-- reports exactly if a hugepage of the DRAM is at most 64 broadcast units and the module was loaded
-- with the interleaved map, pim_addr_map=1.
pub started_opens :
    (p : Params) (fault : InitFaults) (bad : Status) (d : Started) (led : ℕ → Ledger)
    → pim_init p fault bad ≡ (ok, some d)
    → (open_geometry (get_info d.tmpl led) ≡ opened (geom_derive (adopt (get_info d.tmpl led))))
      ↔ ((p.hugepage_size / d.tmpl.unit_bytes ≤ 64) × (p.addr_map ≡ 1))
unfolding open_geometry get_info
started_opens p fault bad d led h =
    let r = pim_init-Reports p fault bad d h in
    let (to, from) = started_check p fault bad d led h in
    let g = geom_derive (adopt (get_info d.tmpl led)) in
    let map : g.map ≡ map_of d.tmpl.addr_map =
      (geom_derive-Derived (adopt (get_info d.tmpl led))).map in
    let (one, one_back) = interleaved d.tmpl.addr_map (omega (arith, r.addr_map, r.checked.map)) in
    (
      λ e.
          let (passed, mixed) = verdict-opened (geom_check g) g e in
          (to passed, omega (arith, r.addr_map, one (rw map at mixed))),
      λ (few, e).
          let passed = from few in
          let mixed : is_ch_ro g.map ≡ false = rw map (one_back (omega (arith, e, r.addr_map))) in
          rw passed (verdict_none g mixed),
    )
