-- ===== src/Runtime/Lower/Runs.antt =====
-- `pim_prog_lower_ctx` of sw/runtime/pim_lower.c succeeds wherever nothing stands against it.
use pim_sw.Common.{
  ℕ, zero, suc, ◌+◌, ◌*◌, ◌^◌, ◌≤◌, ◌<◌, ◌≡◌, ◌⊎◌, refl, ◌∙◌, Bool, true, false, ◌&&◌, ◌||◌, not,
  Option, none, some, List, [], ◌∷◌, ◌++◌, length, length-append, All, ltb, leb, ◌==◌,
  if◌then◌else◌, u32, arith, Bool-cases, inl, inr,
}
use pim_sw.Library.Geometry.{Geometry}
use pim_sw.Library.Records.{Table}
use pim_sw.Library.Allocator.{tag_get}
use pim_sw.Runtime.Isr.{Isr, isr_put}
use pim_sw.Runtime.Lower.{
  Split, whole, per_channel, Ref, Logical, Prog, Reply, accepted, ◌>>=◌, is_per_channel, growth,
  isr_count, row_max, imem_words, put_row, put_channel, prog_push, resolve_one, lower_channels,
  lower_whole, check_tag, unless, lower_ref, advance, ref_at, lower_isr, lower_from, prog_lower,
}
use pim_sw.Runtime.Lower.Built.{Built, place}
use pim_sw.Runtime.Lower.Placed.{ref_of, size_of, image_size}
use pim_sw.Runtime.Lower.Lowered.{
  Later, Refs-Later, advance-Later, ref_of-advance, ref_at-advance, next_place, whole_size, start,
}
use pim_sw.Runtime.Lower.Atoms.{place-le}

abbrev longer : Prog → Isr → Prog
longer out x = record out { w = out.w ++ x ∷ [] }

push_runs :
    (out : Prog) (x : Isr)
    → length out.w < out.cap
    → length out.w < imem_words
    → prog_push out x ≡ accepted (longer out x)
unfolding prog_push
push_runs out x p q =
    let a : leb out.cap (length out.w) ≡ false = ground (arith, p) in
    let b : leb imem_words (length out.w) ≡ false = ground (arith, q) in rw (a, b) refl

put_row_runs :
    (w : Isr) (row : ℕ) → row ≤ row_max → put_row w row ≡ accepted (isr_put w 6 17 (u32 row))
unfolding put_row
put_row_runs w row p = let a : ltb row_max row ≡ false = ground (arith, p) in rw a refl

latch_ok : (n : ℕ) (allow_t : Bool) → (1 < n → allow_t ≡ true) → (ltb 1 n && not allow_t) ≡ false
latch_ok n allow_t h = elim (Bool-cases (ltb 1 n)) [
  | inl two ↦ let e : allow_t ≡ true = h (ground (arith, two)) in rw (two, e) refl
  | inr one ↦ rw one refl
]

-- `n` more instructions have been pushed.
record Pushed (out : Prog) (n : ℕ) (m : Reply Prog) : Type 0 where
  to : Prog
  done : m ≡ accepted to
  count : length to.w ≡ length out.w + n
  same : to.cap ≡ out.cap

record Room (out : Prog) (n : ℕ) : Type 0 where
  buffer : length out.w + n ≤ out.cap
  imem : length out.w + n ≤ imem_words

module _ (g : Geometry) (t : Table) where
  abbrev pub Found : Ref → ℕ → Type 0
  Found r ch = (row : ℕ) × (resolve_one g t r ch ≡ accepted row) × (row ≤ row_max)

  abbrev pub FoundBy : Split → Ref → Type 0
  FoundBy whole r = Found r 0
  FoundBy per_channel r = (ch : ℕ) → ch < g.nch → Found r ch

  -- The reference claims no layout or the one its allocation has, and every row that it stands for
  -- is found and fits the field.
  abbrev pub IsReady : Ref → Type 0
  IsReady r = ((r.tag ≡ 0) ⊎ (tag_get t r.base ≡ r.tag)) × FoundBy r.split r

  one_runs :
      (r : Ref) (ch : ℕ) (w : Isr) (out : Prog)
      → Found r ch
      → Room out 1
      → Pushed out 1 (resolve_one g t r ch >>= λ row. put_row w row >>= prog_push out)
  one_runs r ch w out (row, found, fits) room =
      let x = isr_put w 6 17 (u32 row) in
      record {
        to = longer out x;
        done = rw found (
            rw (put_row_runs w row fits)
              (push_runs out x (omega (arith, room.buffer)) (omega (arith, room.imem))));
        count = length-append out.w (x ∷ []);
        same = refl;
      }

  channels_run :
      (n ch : ℕ) (r : Ref) (w : Isr) (out : Prog)
      → ((c : ℕ) → c < g.nch → Found r c)
      → ch + n ≤ g.nch
      → Room out n
      → Pushed out n (lower_channels g t n ch r w out)
  unfolding lower_channels
  channels_run zero ch r w out all bound room = record {
    to = out;
    done = refl;
    count = omega arith;
    same = refl;
  }
  channels_run (suc n) ch r w out all bound room =
      let (row, found, fits) = all ch (omega (arith, bound)) in
      let x = isr_put (put_channel w ch) 6 17 (u32 row) in
      let size = length-append out.w (x ∷ []) in
      let rest = channels_run n (ch + 1) r w (longer out x) all (omega (arith, bound)) (record {
        buffer = omega (arith, size, room.buffer);
        imem = omega (arith, size, room.imem);
      }) in
      let push = push_runs out x (omega (arith, room.buffer)) (omega (arith, room.imem)) in
      record {
        to = rest.to;
        done = rw found (rw (put_row_runs (put_channel w ch) row fits) (rw push rest.done));
        count = omega (arith, rest.count, size);
        same = rest.same;
      }

  split_run :
      (s : Split) (r : Ref) (w : Isr) (out : Prog)
      → FoundBy s r
      → Room out (size_of g t s)
      → Pushed out
          (size_of g t s)
          (if is_per_channel s then lower_channels g t g.nch 0 r w out else lower_whole g t r w out)
  unfolding is_per_channel lower_whole
  split_run per_channel r w out found room = channels_run g.nch 0 r w out found (omega arith) room
  split_run whole r w out found room = one_runs r 0 w out found room

  abbrev MaybeReady : Option Ref → Type 0
  MaybeReady none = Unit
  MaybeReady (some r) = IsReady r

  tag_passes :
      (r : Ref) (i : ℕ) → (r.tag ≡ 0) ⊎ (tag_get t r.base ≡ r.tag) → check_tag g t r i ≡ none
  unfolding check_tag
  tag_passes r i (inl e) = let a : (r.tag == 0) ≡ true = ground (arith, e) in rw a refl
  tag_passes r i (inr e) =
      let a : (r.tag == 0 || tag_get t r.base == r.tag) ≡ true = ground (arith, e) in rw a refl

  isr_run :
      (o : Option Ref) (i : ℕ) (w : Isr) (out : Prog)
      → MaybeReady o
      → Room out (image_size g t o)
      → Pushed out (image_size g t o) (lower_isr g t o i w out)
  unfolding lower_isr lower_ref unless
  isr_run none i w out ready room = record {
    to = longer out w;
    done = push_runs out w (omega (arith, room.buffer)) (omega (arith, room.imem));
    count = length-append out.w (w ∷ []);
    same = refl;
  }
  isr_run (some r) i w out (tag, found) room =
      let p = split_run r.split r w out found room in
      record { to = p.to; done = rw (tag_passes r i tag) p.done; count = p.count; same = p.same }

  ready_at : (i : ℕ) (refs : List Ref) → All IsReady refs → MaybeReady (ref_of i refs)
  ready_at i [] h = tt
  ready_at i (r ∷ refs) (h, rest) = elim (Bool-cases (r.isr == i)) [
    | inl here ↦ rw here h
    | inr there ↦ rw there (ready_at i refs rest)
  ]

  module _ (lp : Logical) (built : Built lp) (ready : All IsReady lp.ref) where
    from_runs :
        0 < g.nch
        → lp.nch ≡ g.nch
        → (i : ℕ) (ws : List Isr) (refs : List Ref) (base : ℕ) (out : Prog) → Later 0 refs
        → ((j : ℕ) → i ≤ j → ref_of j refs ≡ ref_of j lp.ref)
        → i + length ws ≡ length lp.isr
        → length out.w ≡ base + place lp i
        → base + place lp (length lp.isr) ≤ out.cap
        → base + place lp (length lp.isr) ≤ imem_words
        → (to : Prog) × (lower_from g t i ws refs out ≡ accepted to)
    unfolding lower_from
    from_runs pos same i [] refs base out later found all at cap imem = (out, refl)
    from_runs pos same i (w ∷ ws) refs base out later found all at cap imem =
        let rest = advance i refs in
        let o = ref_of i lp.ref in
        let n = length lp.isr in
        let ref_found : ref_at i rest ≡ o = ref_at-advance i 0 refs later ∙ found i (omega arith) in
        let step = next_place g t lp built pos same i in
        let more = place-le lp (i + 1) n (omega (arith, all)) in
        let p = isr_run o i w out (ready_at i lp.ref ready) (record {
          buffer = omega (arith, at, step, more, cap);
          imem = omega (arith, at, step, more, imem);
        }) in
        let (to, e) =
          from_runs pos same (i + 1) ws rest base p.to (advance-Later i 0 refs later)
            (λ j q. ref_of-advance i j refs (omega (arith, q)) ∙ found j (omega (arith, q)))
            (omega (arith, all)) (omega (arith, p.count, at, step)) (omega (arith, p.same, cap))
            imem in
        (to, rw ref_found (rw p.done e))

    -- With a channel at least and a program whose lowered length is a 32-bit number, a program that the
    -- calls have built is lowered wherever nothing stands against it: it was built for the card's
    -- channels, a second latch is allowed if it uses one, the lowered program has room for all its
    -- instructions behind those already there, in the buffer and in IMEM, and each reference is ready.
    pub prog_lower_runs :
        (out : Prog) (allow_t : Bool)
        → 0 < g.nch
        → length lp.isr + lp.nsplit * growth lp < 2 ^ 32
        → lp.nch ≡ g.nch
        → (1 < lp.nlatch → allow_t ≡ true)
        → length out.w + isr_count lp ≤ out.cap
        → length out.w + isr_count lp ≤ imem_words
        → (to : Prog) × (prog_lower g t lp out allow_t ≡ accepted to)
    unfolding prog_lower
    prog_lower_runs out allow_t pos fits same latch cap imem =
        let board : not (lp.nch == g.nch) ≡ false = ground (arith, same) in
        let size = whole_size lp built fits in
        let zero_place = start lp built in
        let room : ltb out.cap (isr_count lp) ≡ false = ground (arith, cap) in
        let later = Refs-Later 0 0 lp.ref (length lp.isr) lp.nsplit built.refs in
        rw board (
          rw (latch_ok lp.nlatch allow_t latch) (
            rw room (
              from_runs pos same 0 lp.isr lp.ref (length out.w) out later (λ j q. refl)
                (omega arith) (omega (arith, zero_place)) (omega (arith, cap, size))
                (omega (arith, imem, size)))))
