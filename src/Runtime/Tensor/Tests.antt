-- ===== src/Runtime/Tensor/Tests.antt =====
-- A cache of two outputs that grows to 20 steps, on the card as the library's transfers reach it, and on
-- one whose memory is a function, where the runs are short enough to compute.
use pim_sw.Common.{
  ℕ, zero, suc, ◌+◌, ◌*◌, ◌≤◌, ◌<◌, ◌≡◌, ◌≢◌, ◌⊎◌, inl, inr, refl, ◌∙◌, false, Option, none, some,
  List, [], ◌∷◌, length, get_elem?, update, update_self, ◌==◌, arith,
}
use pim_sw.Library.Geometry.{Geometry, Region, geom_derive}
use pim_sw.Library.Records.{Rec, Table}
use pim_sw.Library.Transfer.Tests.{slow, limits}
use pim_sw.Library.Transfer.Effect.{Stored}
use pim_sw.Runtime.Tensor.Transfers.{transfers, transfers-Lawful, filled_with}
use pim_sw.Library.Geometry.Tests.{board, opened, board-Words, board_passes}
use pim_sw.Library.Geometry.Derive.{Usable, derive-Usable}
use pim_sw.Runtime.Tensor.Plan.{Planned, plan-Planned}
use pim_sw.Runtime.Tensor.{red_major, Tensor, offset, Rect, Card, bytes, plan}
use pim_sw.Runtime.Tensor.Fill.{scatter, upload, grow_max}
use pim_sw.Runtime.Tensor.Place.{Fits, offset-apart}
use pim_sw.Runtime.Tensor.Scatter.{Lawful, Within}
use pim_sw.Runtime.Tensor.Filled.{Filled, scatter-Filled, elem_at}
use pim_sw.Runtime.Tensor.Upload.{Padded, upload-wanted, wanted}

poke : ℕ → List ℕ → (ℕ → ℕ) → ℕ → ℕ
poke a [] s = s
poke a (x ∷ xs) s = poke (a + 2) xs (update s a x)

abbrev memory : Card
memory = record {
  St = ℕ → ℕ;
  Fault = Unit {0};
  elem = λ s b. s b;
  write = λ s a xs. (poke a xs s, none);
}

poke_kept :
    (a : ℕ) (xs : List ℕ) (s : ℕ → ℕ) (b : ℕ)
    → (b + 2 ≤ a) ⊎ (a + 2 * length xs ≤ b)
    → poke a xs s b ≡ s b
unfolding poke
poke_kept a [] s b h = refl
poke_kept a (x ∷ xs) s b (inl h) =
    poke_kept (a + 2) xs (update s a x) b (inl (omega (arith, h)))
    ∙ (let e : (b == a) ≡ false = ground (arith, h) in rw e refl)
poke_kept a (x ∷ xs) s b (inr h) =
    poke_kept (a + 2) xs (update s a x) b (inr (omega (arith, h)))
    ∙ (let e : (b == a) ≡ false = ground (arith, h) in rw e refl)

poke_first : (a : ℕ) (xs : List ℕ) (s : ℕ → ℕ) (b : ℕ) → b < a → poke a xs s b ≡ s b
unfolding poke
poke_first a [] s b h = refl
poke_first a (x ∷ xs) s b h =
    poke_first (a + 2) xs (update s a x) b (omega (arith, h))
    ∙ (let e : (b == a) ≡ false = ground (arith, h) in rw e refl)

poke_written :
    (a : ℕ) (xs : List ℕ) (s : ℕ → ℕ) (i v : ℕ)
    → get_elem? xs i ≡ some v
    → poke a xs s (a + 2 * i) ≡ v
unfolding poke
poke_written a [] s i v h = absurd (let k : none ≡ some v = h in cc)
poke_written a (x ∷ xs) s zero v h =
    let e : a + 2 * 0 ≡ a = omega arith in
    rw e (
      poke_first (a + 2) xs (update s a x) a (omega arith)
      ∙ update_self s a x
      ∙ (let k : x ≡ v = cc in k))
poke_written a (x ∷ xs) s (suc i) v h =
    let e : a + 2 * suc i ≡ a + 2 + 2 * i = omega arith in
    rw e (poke_written (a + 2) xs (update s a x) i v h)

memory-Lawful : Lawful memory
memory-Lawful = record {
  written = λ s a xs e i v h. poke_written a xs s i v h;
  kept = λ s a xs b h. poke_kept a xs s b h;
}

-- The cache stands in one unit of the DRAM; the queue moves at most 2000 bytes in a call.
abbrev unit_rec : Rec
unit_rec = record {
  vbase = 0x10000;
  bytes = 0x20000;
  mem = 0;
  nr_grans = 1;
  tag = 0;
  gran_addr = λ _. 0x020400040000;
}

-- The board, with a granule of one unit.
abbrev granules : Region
granules = record {
  base = 0x020400000000;
  bytes = 0x400000000;
  hugepage_bytes = 0x200000;
  gran = 0x20000;
  nr_hugepages = 8192;
  gran_shift = 17;
  grans_per_hugepage = 16;
}

abbrev cut_board : Geometry
cut_board = record board { mem = λ _. granules }

abbrev one_rec : Table
one_rec = record { allocs = λ _. unit_rec; nallocs = 1; allocs_cap = 16 }

one_rec-Stored : Stored cut_board one_rec
one_rec-Stored = record {
  ordered = record {
    apart = λ i j p q. absurd (omega arith);
    filled = λ i p. omega arith;
    room = λ i p. omega arith;
  };
  covers =
      λ k p. record { shift = refl; size = refl; few = omega arith; below = λ i p. omega arith };
  one_each = λ i j x y p q a b e. (omega (arith, p, q), omega (arith, a, b, e));
}

abbrev board_card : Card
board_card = transfers (λ _. slow) limits (omega arith) cut_board one_rec 0x70000 (omega arith)

board_card-Lawful : Lawful board_card
board_card-Lawful =
    transfers-Lawful (λ _. slow) limits (omega arith) cut_board one_rec 0x70000 (omega arith)
      one_rec-Stored

seven : board_card.St
seven = filled_with (λ _. slow) limits (omega arith) cut_board one_rec 0x70000 (omega arith) 7

board-Usable : Usable opened
board-Usable = derive-Usable board board-Words board_passes

-- [2 x 20] is padded to [64 x 32].
abbrev cache : Tensor
cache = record {
  base = 0x10000;
  layout = red_major;
  nout = 2;
  nred = 20;
  noutpad = 64;
  nredpad = 32;
  nchunks = 1;
  last_beats = 2;
  ngroups = 1;
  nch = 4;
  nbank = 16;
  tag = 0;
  frontier = 0;
  zeroed_chunks = 0;
}

cache_fits : (fr z : ℕ) → Fits board (record cache { frontier = fr; zeroed_chunks = z })
cache_fits fr z = record {
  channels = omega arith;
  banks = omega arith;
  row = omega arith;
  unit = refl;
  groups = refl;
  chunks = omega arith;
  per_word = omega arith;
  out_word = omega arith;
  red_word = omega arith;
  units_word = omega arith;
  bytes_word = omega arith;
}

cache-Fits : Fits board cache
cache-Fits = cache_fits 0 0

cache-Padded : Padded cache
cache-Padded = record { outs = omega arith; reds = omega arith }

abbrev nothing : ℕ → ℕ
nothing b = 7

-- Three tokens of two values.
abbrev tokens : Option (ℕ → ℕ)
tokens = some (λ i. i + 1)

abbrev whole_cache : Rect
whole_cache = record { out0 = 0; nout = 2; red0 = 4; nred = 5 }

whole-Within : Within cache whole_cache
whole-Within = record { outs = omega arith; reds = omega arith }

scatter-Filled_example :
    Filled board_card board_card-Lawful board cache cache-Fits whole_cache tokens 2 0 seven
      (scatter board_card false board cache whole_cache tokens 2 seven)
scatter-Filled_example =
    scatter-Filled board_card board_card-Lawful board cache cache-Fits false whole_cache tokens 2
      seven whole-Within

upload-wanted_example :
    ((out red : ℕ)
      → out < cache.noutpad
      → red < cache.nredpad
      → elem_at memory memory-Lawful board cache cache-Fits
          (upload memory false board cache tokens nothing).card
          out
          red
        ≡ wanted memory memory-Lawful board cache cache-Fits tokens out red)
    × ((upload memory false board cache tokens nothing).tensor
        ≡ record cache { zeroed_chunks = cache.nchunks; frontier = grow_max cache })
unfolding upload
upload-wanted_example =
    upload-wanted memory memory-Lawful board cache cache-Fits false tokens nothing cache-Padded refl

-- Five steps have been written.
abbrev grown : Tensor
grown = record cache { frontier = 5; zeroed_chunks = 1 }

abbrev zeros : ℕ → ℕ
zeros b = 0

offset-apart_example :
    (offset board cache 1 17 + 2 ≤ bytes board cache)
    × ((out' red' : ℕ)
        → out' < cache.noutpad
        → red' < cache.nredpad
        → (out' ≡ 1 → red' ≢ 17)
        → (offset board cache out' red' + 2 ≤ offset board cache 1 17)
          ⊎ (offset board cache 1 17 + 2 ≤ offset board cache out' red'))
offset-apart_example = offset-apart board cache cache-Fits 1 17 (omega arith) (omega arith)

plan-Planned_example : Planned opened 2 20 (plan opened red_major 2 20)
unfolding plan geom_derive
plan-Planned_example = plan-Planned opened board-Usable red_major 2 20 (record {
  outs = omega arith;
  reds = omega arith;
  per = omega arith;
  out_word = omega arith;
  red_word = omega arith;
  row = omega arith;
  units_word = omega arith;
  bytes_word = omega arith;
})
