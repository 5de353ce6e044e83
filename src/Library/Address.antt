-- ===== src/Library/Address.antt =====
-- sw/lib/pim_addr.c: the addresses from which commands are built, one for each broadcast unit of a
-- buffer in DRAM, or a range of words of the GPR.
pub mod Units
mod Tests
use pim_sw.Common.{
  ℕ, ◌+◌, ◌-◌, ◌*◌, ◌/◌, ◌%◌, Bool, true, false, ◌||◌, not, Option, none, some, ltb, leb, ◌==◌,
  if◌then◌else◌, u32, u64, add64,
}
use pim_sw.Library.Geometry.{Geometry, dram, gpr, gpr_word_bytes, geom_decode, Coord}
use pim_sw.Library.Records.{Table}
use pim_sw.Library.Resolve.{
  Resolved, null_argument, not_inside, too_long, found, resolve, usable, where_is,
}

-- `pim_addr_unit_count_ctx` on a context that is there.
pub unit_count : Geometry → Table → ℕ → ℕ → ℕ
unit_count g t p len =
    let avail = usable t p in
    if p == 0 || len == 0 then 0 else elim (where_is t p) [
      | none ↦ 0
      | some m ↦
          if not (m == dram)
          then 0
          else if avail == 0 || ltb avail len
          then 0
          else if not (avail % g.unit_bytes == 0)
          then 0
          else u64 (len + g.unit_bytes - 1) / g.unit_bytes
    ]

-- The messages of `pim_addr_unit_ctx`, and `pim_unit`.
pub data UnitReply : Type 0 where
  no_output gpr_pointer not_units : UnitReply
  past_end : (i n : ℕ) → UnitReply
  unresolved : Resolved → UnitReply
  broken_up : ℕ → UnitReply
  unit_at : (card_addr row unit_index : ℕ) → UnitReply

-- From the answer of `pim_resolve_ctx` on, for the `i`-th unit.
pub unit_from : Geometry → ℕ → Resolved → UnitReply
unit_from g i (found mem axi off run) =
    if not (run == g.unit_bytes) then broken_up run else unit_at axi (geom_decode g axi).row (u32 i)
unit_from g i r = unresolved r

in_gpr : Option ℕ → Bool
in_gpr none = false
in_gpr (some m) = not (m == dram)

pub addr_unit : Geometry → Table → ℕ → ℕ → ℕ → Bool → UnitReply
unfolding unit_count unit_from in_gpr
addr_unit g t p len i no_out =
    let n = unit_count g t p len in
    if no_out
    then no_output
    else if n == 0
    then if in_gpr (where_is t p) then gpr_pointer else not_units
    else if leb n i
    then past_end i n
    else unit_from g i (resolve g t (u64 (p + i * g.unit_bytes)) g.unit_bytes)

-- The messages of `pim_addr_gpr_words_ctx`, and what it stores through `word` and `nwords`.
pub data WordsReply : Type 0 where
  null_or_empty not_live dram_pointer : WordsReply
  not_resolved : Resolved → WordsReply
  split_at not_whole : ℕ → WordsReply
  words : (word nwords : ℕ) → WordsReply

-- From the answer of `pim_resolve_ctx` on.
unfoldable pub words_from : ℕ → Resolved → WordsReply
words_from len (found mem axi off run) =
    if ltb run len
    then split_at run
    else if not (off % gpr_word_bytes == 0)
    then not_whole off
    else words (u32 (off / gpr_word_bytes)) (u32 (u64 (len + gpr_word_bytes - 1) / gpr_word_bytes))
words_from len r = not_resolved r

-- `pim_addr_gpr_words_ctx` on a context that is there and with places to store the results.
unfoldable pub gpr_words : Geometry → Table → ℕ → ℕ → WordsReply
unfolding words_from
gpr_words g t p len = if p == 0 || len == 0 then null_or_empty else elim (where_is t p) [
  | none ↦ not_live
  | some m ↦ if not (m == gpr) then dram_pointer else words_from len (resolve g t p len)
]
