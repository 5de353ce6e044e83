-- ===== src/Runtime/Lower.antt =====
-- sw/runtime/pim_lower.c with the types of sw/include/pimrt/pim_logical.h: a logical program, and what
-- it becomes once the addresses are known. The caller's arrays are lists with a capacity beside them;
-- a count of the source is the length of its list.
pub mod Built
pub mod Placed
pub mod Lowered
pub mod Atoms
pub mod Runs
mod Tests
use pim_sw.Common.{
  ℕ, zero, suc, ◌+◌, ◌-◌, ◌*◌, ◌^◌, Bool, true, false, ◌&&◌, ◌||◌, not, Option, none, some, List,
  [], ◌∷◌, ◌++◌, length, get_elem?, ltb, leb, ◌==◌, if◌then◌else◌, u32,
}
use pim_sw.Library.Geometry.{Geometry}
use pim_sw.Library.Records.{Table, bisect}
use pim_sw.Library.Allocator.{tag_get}
use pim_sw.Library.Address.{UnitReply, unit_at, addr_unit, WordsReply, words, gpr_words}
use pim_sw.Runtime.Isr.{Isr, isr_put}

-- `pim_ref_kind` and `pim_split`
pub data Kind : Type 0 where
  dram_unit gpr_word : Kind

pub data Split : Type 0 where
  whole per_channel : Split

-- `pim_ref`
pub record Ref : Type 0 where
  pub isr : ℕ
  pub kind : Kind
  pub split : Split
  pub base : ℕ
  pub len : ℕ
  pub index : ℕ
  pub tag : ℕ
  pub nsplit_before : ℕ

-- `pim_atom`
pub record Atom : Type 0 where
  pub first : ℕ
  pub last : ℕ

-- `pim_logical`
pub record Logical : Type 0 where
  pub isr : List Isr
  pub isr_cap : ℕ
  pub ref : List Ref
  pub ref_cap : ℕ
  pub atom : List Atom
  pub atom_cap : ℕ
  pub nch : ℕ
  pub nsplit : ℕ
  pub nlatch : ℕ

-- `pim_prog`
pub record Prog : Type 0 where
  pub w : List Isr
  pub cap : ℕ

-- The messages.
pub data Bad : Type 0 where
  null_argument isr_full ref_full atom_full bad_range atoms_too_many : Bad
  channels latches needs_more prog_full imem_full : Bad
  row_too_big past_word : ℕ → Bad
  unit_unknown : UnitReply → Bad
  words_unknown : WordsReply → Bad
  layout_differs : (isr got : ℕ) → Bad

pub data Reply {ℓ} (A : Type ℓ) : Type ℓ where
  accepted : A → Reply A
  refused : Bad → Reply A

-- `if ((bad = ...)) return bad;`
infixl 5 ◌>>=◌
abbrev pub ◌>>=◌ {ℓ κ} : {A : Type ℓ} {B : Type κ} → Reply A → (A → Reply B) → Reply B
refused why >>= next = refused why
accepted x >>= next = next x

-- `pim_logical_init`
pub logical_init : ℕ → ℕ → ℕ → ℕ → ℕ → Logical
logical_init isr_cap ref_cap atom_cap nch nlatch = record {
  isr = [];
  isr_cap = isr_cap;
  ref = [];
  ref_cap = ref_cap;
  atom = [];
  atom_cap = atom_cap;
  nch = nch;
  nsplit = 0;
  nlatch = if nlatch == 0 then 1 else nlatch;
}

-- `pim_logical_push` on pointers that are there
pub logical_push : Logical → Isr → Reply Logical
logical_push lp w =
    if length lp.isr == lp.isr_cap
    then refused isr_full
    else accepted (record lp { isr = lp.isr ++ w ∷ [] })

pub is_per_channel : Split → Bool
is_per_channel whole = false
is_per_channel per_channel = true

-- The last part of `pim_logical_push_ref`, with `lp` as the push of the instruction has left it.
pub add_ref : Kind → Split → ℕ → ℕ → ℕ → ℕ → Logical → Logical
unfolding is_per_channel
add_ref kind split base len index tag lp = record lp {
  ref =
      lp.ref
      ++ record {
        isr = length lp.isr - 1;
        kind = kind;
        split = split;
        base = base;
        len = len;
        index = index;
        tag = tag;
        nsplit_before = lp.nsplit;
      }
        ∷ [];
  nsplit = if is_per_channel split then lp.nsplit + 1 else lp.nsplit;
}

-- `pim_logical_push_ref`
pub logical_push_ref : Logical → Isr → Kind → Split → ℕ → ℕ → ℕ → ℕ → Reply Logical
unfolding logical_push add_ref
logical_push_ref lp w kind split base len index tag =
    if base == 0
    then refused null_argument
    else if length lp.ref == lp.ref_cap
    then refused ref_full
    else (logical_push lp w >>= λ pushed. accepted (add_ref kind split base len index tag pushed))

-- `pim_logical_atom`
pub logical_atom : Logical → ℕ → ℕ → Reply Logical
logical_atom lp first last =
    if length lp.atom == lp.atom_cap
    then refused atom_full
    else if ltb last first || leb (length lp.isr) last
    then refused bad_range
    else accepted (record lp { atom = lp.atom ++ record { first = first; last = last } ∷ [] })

-- By how much a split makes a program longer: `lp->nch ? lp->nch - 1u : 0u`.
pub growth : Logical → ℕ
growth lp = if lp.nch == 0 then 0 else lp.nch - 1

-- `pim_lower_isr_count`
pub isr_count : Logical → ℕ
unfolding growth
isr_count lp = u32 (length lp.isr + lp.nsplit * growth lp)

-- The test of the binary search in `mapped`: is the reference before instruction `i`?
pub ref_before : List Ref → ℕ → ℕ → Bool
ref_before refs i mid = elim (get_elem? refs mid) [ none ↦ false | some r ↦ ltb r.isr i ]

-- How many splits there are before the reference that the search has found, if it has.
pub splits_before : Logical → Option Ref → ℕ
splits_before lp none = lp.nsplit
splits_before lp (some r) = r.nsplit_before

pub mapped : Logical → ℕ → ℕ
unfolding bisect ref_before splits_before growth
mapped lp i =
    let lo = bisect (length lp.ref) (ref_before lp.ref i) 0 (length lp.ref) in
    u32 (i + splits_before lp (get_elem? lp.ref lo) * growth lp)

-- One round of `pim_lower_atoms`, and its loop.
pub map_atom : Logical → Atom → Atom
unfolding mapped
map_atom lp a = record {
  first = mapped lp a.first;
  last = u32 (mapped lp (u32 (a.last + 1)) + 2 ^ 32 - 1);
}

pub map_atoms : Logical → List Atom → List Atom
unfolding map_atom
map_atoms lp [] = []
map_atoms lp (a ∷ l) = map_atom lp a ∷ map_atoms lp l

-- `pim_lower_atoms` with a place for `cap` entries.
pub lower_atoms : Logical → ℕ → Reply (List Atom)
unfolding map_atoms
lower_atoms lp cap =
    if ltb cap (length lp.atom) then refused atoms_too_many else accepted (map_atoms lp lp.atom)

-- EMU_ISR_ROW_MAX and EMU_IMEM_WORDS
abbrev pub row_max : ℕ
row_max = 2 ^ 17 - 1

abbrev pub imem_words : ℕ
imem_words = 16384

-- `put_row`, with ISR_F_ROW
pub put_row : Isr → ℕ → Reply Isr
unfolding isr_put
put_row w row =
    if ltb row_max row then refused (row_too_big row) else accepted (isr_put w 6 17 (u32 row))

-- The channel's bit in CH_MASK: ISR_F_CHMASK
pub put_channel : Isr → ℕ → Isr
unfolding isr_put
put_channel w ch = isr_put w 27 8 (u32 (2 ^ ch))

-- `pim_prog_push`
pub prog_push : Prog → Isr → Reply Prog
prog_push p w =
    if leb p.cap (length p.w)
    then refused prog_full
    else if leb imem_words (length p.w)
    then refused imem_full
    else accepted (record p { w = p.w ++ w ∷ [] })

-- The parts of `resolve_one` after the answer of the address query.
pub row_of_unit : UnitReply → Reply ℕ
row_of_unit (unit_at axi row i) = accepted row
row_of_unit r = refused (unit_unknown r)

pub row_of_words : ℕ → WordsReply → Reply ℕ
row_of_words at (words word nwords) =
    if leb nwords at then refused (past_word at) else accepted (u32 (word + at))
row_of_words at r = refused (words_unknown r)

-- The cursor: the references from the first one on that does not stand before instruction `i`.
pub advance : ℕ → List Ref → List Ref
advance i [] = []
advance i (r ∷ refs) = if ltb r.isr i then advance i refs else r ∷ refs

-- The reference under the cursor, if it is that of instruction `i`.
pub ref_at : ℕ → List Ref → Option Ref
ref_at i [] = none
ref_at i (r ∷ refs) = if r.isr == i then some r else none

-- A message that a check has given, or else `m`.
pub unless : Option Bad → Reply Prog → Reply Prog
unless none m = m
unless (some e) m = refused e

module _ (g : Geometry) (t : Table) where
  pub resolve_kind : Kind → Ref → ℕ → Reply ℕ
  unfolding row_of_unit row_of_words
  resolve_kind dram_unit r ch_bump = row_of_unit (addr_unit g t r.base r.len r.index false)
  resolve_kind gpr_word r ch_bump =
      row_of_words (u32 (r.index + ch_bump)) (gpr_words g t r.base r.len)

  -- `resolve_one`
  pub resolve_one : Ref → ℕ → Reply ℕ
  unfolding resolve_kind
  resolve_one r ch_bump = resolve_kind r.kind r ch_bump

  -- The loop over the channels with `n` rounds left, from channel `ch` on.
  pub lower_channels : ℕ → ℕ → Ref → Isr → Prog → Reply Prog
  unfolding resolve_one put_row put_channel prog_push
  lower_channels zero ch r w out = accepted out
  lower_channels (suc n) ch r w out = resolve_one r ch >>= λ row.
      put_row (put_channel w ch) row >>= λ x. prog_push out x >>= lower_channels n (ch + 1) r w

  pub lower_whole : Ref → Isr → Prog → Reply Prog
  unfolding resolve_one put_row prog_push
  lower_whole r w out = resolve_one r 0 >>= λ row. put_row w row >>= prog_push out

  -- The layout check: nothing where the tags agree or the reference claims none.
  pub check_tag : Ref → ℕ → Option Bad
  check_tag r i =
      let got = tag_get t r.base in
      if r.tag == 0 || got == r.tag then none else some (layout_differs i got)

  -- What the loop does for instruction `i` with its reference.
  pub lower_ref : Ref → ℕ → Isr → Prog → Reply Prog
  unfolding check_tag unless lower_channels lower_whole is_per_channel
  lower_ref r i w out =
      unless (check_tag r i)
        (if is_per_channel r.split then lower_channels g.nch 0 r w out else lower_whole r w out)

  pub lower_isr : Option Ref → ℕ → Isr → Prog → Reply Prog
  unfolding prog_push lower_ref
  lower_isr none i w out = prog_push out w
  lower_isr (some r) i w out = lower_ref r i w out

  -- The loop of `pim_prog_lower_ctx` over the instructions, from the `i`-th on.
  pub lower_from : ℕ → List Isr → List Ref → Prog → Reply Prog
  unfolding advance ref_at lower_isr
  lower_from i [] refs out = accepted out
  lower_from i (w ∷ isrs) refs out =
      let rest = advance i refs in
      lower_isr (ref_at i rest) i w out >>= lower_from (i + 1) isrs rest

  -- `pim_prog_lower_ctx` on a context and programs that are there; `allow_t` is the flag.
  pub prog_lower : Logical → Prog → Bool → Reply Prog
  unfolding isr_count lower_from
  prog_lower lp out allow_t =
      if not (lp.nch == g.nch)
      then refused channels
      else if ltb 1 lp.nlatch && not allow_t
      then refused latches
      else if ltb out.cap (isr_count lp)
      then refused needs_more
      else lower_from 0 lp.isr lp.ref out
