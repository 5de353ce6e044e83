-- ===== src/Runtime/Lower/Lowered.antt =====
-- The whole of `pim_prog_lower_ctx` of sw/runtime/pim_lower.c: the cursor finds each instruction's
-- reference, and the program that comes out has the length and the places that were foretold.
use mathlib.Core.List.{append_assoc, append-nil}
use native.Mathlib.Nat.{add-mul}
use pim_sw.Common.{
  ℕ, ◌+◌, ◌*◌, ◌^◌, ◌≤◌, ◌<◌, ◌≡◌, refl, sym, ◌∙◌, ap, Bool, true, false, ◌&&◌, not, Option, none,
  some, List, [], ◌∷◌, ◌++◌, length, length-append, ltb, ◌==◌, ==_iff, if◌then◌else◌, arith,
  Bool-cases, inl, inr,
}
use pim_sw.Library.Geometry.{Geometry}
use pim_sw.Library.Records.{Table}
use pim_sw.Runtime.Isr.{Isr}
use pim_sw.Runtime.Lower.{
  Split, whole, per_channel, Ref, Logical, Prog, accepted, refused, growth, isr_count, channels,
  latches, needs_more, advance, ref_at, lower_isr, lower_from, prog_lower,
}
use pim_sw.Runtime.Lower.Built.{Refs, one_if, below, below_end, Built, place, mapped-place}
use pim_sw.Runtime.Lower.Placed.{
  >>=-accepted, checked, accepted-inj, Grown, Images, ref_of, size_of, image_size, isr-Image,
}

-- Ever later instructions, from `lo` on.
abbrev pub Later : ℕ → List Ref → Type 0
Later lo [] = Unit
Later lo (r ∷ refs) = (lo ≤ r.isr) × Later (r.isr + 1) refs

pub Refs-Later : (lo n : ℕ) (refs : List Ref) (hi m : ℕ) → Refs lo n refs hi m → Later lo refs
Refs-Later lo n [] hi m h = tt
Refs-Later lo n (r ∷ refs) hi m (q, e, rest) =
    (q, Refs-Later (r.isr + 1) (n + one_if r.split) refs hi m rest)

Later-mono : (lo k : ℕ) (refs : List Ref) → lo ≤ k → Later k refs → Later lo refs
Later-mono lo k [] p h = tt
Later-mono lo k (r ∷ refs) p (q, rest) = (omega (arith, p, q), rest)

pub advance-Later : (i lo : ℕ) (refs : List Ref) → Later lo refs → Later lo (advance i refs)
unfolding advance
advance-Later i lo [] h = tt
advance-Later i lo (r ∷ refs) (q, rest) = elim (Bool-cases (ltb r.isr i)) [
  | inl e ↦ rw e (advance-Later i lo refs (Later-mono lo (r.isr + 1) refs (omega (arith, q)) rest))
  | inr e ↦ rw e (q, rest)
]

ref_of-none : (i lo : ℕ) (refs : List Ref) → i < lo → Later lo refs → ref_of i refs ≡ none
ref_of-none i lo [] p h = refl
ref_of-none i lo (r ∷ refs) p (q, rest) =
    ground (arith, p, q, ref_of-none i (r.isr + 1) refs (omega (arith, p, q)) rest)

pub ref_of-advance : (i j : ℕ) (refs : List Ref) → i ≤ j → ref_of j (advance i refs) ≡ ref_of j refs
unfolding advance
ref_of-advance i j [] p = refl
ref_of-advance i j (r ∷ refs) p = ground (arith, p, ref_of-advance i j refs p)

pub ref_at-advance :
    (i lo : ℕ) (refs : List Ref) → Later lo refs → ref_at i (advance i refs) ≡ ref_of i refs
unfolding advance ref_at
ref_at-advance i lo [] h = refl
ref_at-advance i lo (r ∷ refs) (q, rest) = elim (Bool-cases (ltb r.isr i)) [
  | inl e ↦
      let other : (r.isr == i) ≡ false = ground (arith, e) in
      rw (e, other) (ref_at-advance i (r.isr + 1) refs rest)
  | inr e ↦ elim (Bool-cases (r.isr == i)) [
    | inl here ↦ rw e (rw here refl)
    | inr past ↦
        rw e (rw past (sym (ref_of-none i (r.isr + 1) refs (ground (arith, e, past)) rest)))
  ]
]

below_past : (i lo : ℕ) (refs : List Ref) → i ≤ lo → Later lo refs → below i refs ≡ 0
below_past i lo [] p h = refl
below_past i lo (r ∷ refs) p (q, rest) =
    ground (arith, p, q, below_past i (r.isr + 1) refs (omega (arith, p, q)) rest)

abbrev split_at : Option Ref → ℕ
split_at none = 0
split_at (some r) = one_if r.split

below_next :
    (i lo : ℕ) (refs : List Ref)
    → Later lo refs
    → below (i + 1) refs ≡ below i refs + split_at (ref_of i refs)
below_next i lo [] h = refl
below_next i lo (r ∷ refs) (q, rest) = elim (Bool-cases (r.isr == i)) [
  | inl here ↦
      let e : r.isr ≡ i = (==_iff r.isr i).0 here in
      let a = below_past (i + 1) (r.isr + 1) refs (omega (arith, e)) rest in
      let b = below_past i (r.isr + 1) refs (omega (arith, e)) rest in
      let yes_next : ltb r.isr (i + 1) ≡ true = ground (arith, e) in
      let no_now : ltb r.isr i ≡ false = ground (arith, e) in
      rw here (rw (yes_next, no_now) (omega (arith, a, b)))
  | inr there ↦
      let ih = below_next i (r.isr + 1) refs rest in
      let same : ltb r.isr (i + 1) ≡ ltb r.isr i = ground (arith, there) in
      rw there (rw same (omega (arith, ih)))
]

-- The whole lowered program is as long as was foretold.
pub whole_size :
    (lp : Logical)
    → Built lp
    → length lp.isr + lp.nsplit * growth lp < 2 ^ 32
    → isr_count lp ≡ place lp (length lp.isr)
unfolding isr_count
whole_size lp built fits =
    let n = length lp.isr in
    let e = below_end 0 0 lp.ref n lp.nsplit built.refs in
    let same_count : below n lp.ref ≡ lp.nsplit = omega (arith, e) in
    rw same_count (omega (arith, fits))

pub start : (lp : Logical) → Built lp → place lp 0 ≡ 0
start lp built =
    let later = Refs-Later 0 0 lp.ref (length lp.isr) lp.nsplit built.refs in
    let e : below 0 lp.ref ≡ 0 = below_past 0 0 lp.ref (omega arith) later in rw e (omega arith)

module _ (g : Geometry) (t : Table) (lp : Logical) (built : Built lp) where
  split_size : (s : Split) → 0 < g.nch → lp.nch ≡ g.nch → size_of g t s ≡ 1 + one_if s * growth lp
  unfolding growth
  split_size whole pos same = omega arith
  split_size per_channel pos same = ground (arith, pos, same)

  sized :
      (o : Option Ref) → 0 < g.nch → lp.nch ≡ g.nch → image_size g t o ≡ 1 + split_at o * growth lp
  sized none pos same = omega arith
  sized (some r) pos same = split_size r.split pos same

  -- The image of an instruction ends where the next one's begins.
  pub next_place :
      0 < g.nch
      → lp.nch ≡ g.nch
      → (i : ℕ) → place lp i + image_size g t (ref_of i lp.ref) ≡ place lp (i + 1)
  next_place pos same i =
      let o = ref_of i lp.ref in
      let later = Refs-Later 0 0 lp.ref (length lp.isr) lp.nsplit built.refs in
      let e = ap (λ n. n * growth lp) (below_next i 0 lp.ref later) in
      omega (arith, e, add-mul (below i lp.ref) (split_at o) (growth lp), sized o pos same)

  module _ (pos : 0 < g.nch) (small : g.nch ≤ 8) (same : lp.nch ≡ g.nch)
      (fits : length lp.isr + lp.nsplit * growth lp < 2 ^ 32) where
    -- From instruction `i` on, with the references that the cursor has left.
    from-Images :
        (i : ℕ) (ws : List Isr) (refs : List Ref) (out to : Prog)
        → Later 0 refs
        → ((j : ℕ) → i ≤ j → ref_of j refs ≡ ref_of j lp.ref)
        → i + length ws ≡ length lp.isr
        → lower_from g t i ws refs out ≡ accepted to
        → (l : List Isr) × Grown out to l
          × (place lp i + length l ≡ place lp (length lp.isr))
          × Images g t lp i (place lp i) ws l
    unfolding lower_from
    from-Images i [] refs out to later found all h =
        let e : i ≡ length lp.isr = omega (arith, all) in
        (
          [],
          ap (λ p. p.w) (sym (accepted-inj h)) ∙ sym (append-nil out.w),
          rw e (omega arith),
          refl,
        )
    from-Images i (w ∷ ws) refs out to later found all h =
        let rest = advance i refs in
        let (mid, first, more) =
          >>=-accepted (lower_isr g t (ref_at i rest) i w out) (lower_from g t (i + 1) ws rest) h in
        let o = ref_of i lp.ref in
        let ref_found : ref_at i rest ≡ o = ref_at-advance i 0 refs later ∙ found i (omega arith) in
        let (a, grown, count, image) =
          isr-Image g t o i w out mid small
            (ap (λ r. lower_isr g t r i w out) (sym ref_found) ∙ first) in
        let (b, grown2, total, images) =
          from-Images (i + 1) ws rest mid to (advance-Later i 0 refs later)
            (λ j p. ref_of-advance i j refs (omega (arith, p)) ∙ found j (omega (arith, p)))
            (omega (arith, all)) more in
        let step : place lp i + length a ≡ place lp (i + 1) =
          ap (λ n. place lp i + n) count ∙ next_place pos same i in
        (
          a ++ b,
          grown2 ∙ ap (λ x. x ++ b) grown ∙ append_assoc out.w a b,
          omega (arith, length-append a b, step, total),
          (
            a,
            b,
            refl,
            sym (mapped-place lp built fits i (omega (arith, all))),
            image,
            rw step images,
          ),
        )

  -- With one to eight channels and a program whose lowered length is a 32-bit number, lowering a
  -- program that the calls have built, where it succeeds, appends as many instructions as
  -- `pim_lower_isr_count` says. They are the images of the logical instructions in their order, each
  -- from the place on that `mapped` gives: an instruction with no reference stays as it is, one whose
  -- reference is not split gets its row, and one that is split becomes one for each channel, with that
  -- channel alone in CH_MASK and its own row. The tag that a reference claims is that of its allocation.
  pub prog_lower-Images :
      (out to : Prog) (allow_t : Bool)
      → 0 < g.nch
      → g.nch ≤ 8
      → length lp.isr + lp.nsplit * growth lp < 2 ^ 32
      → prog_lower g t lp out allow_t ≡ accepted to
      → (l : List Isr) × (to.w ≡ out.w ++ l)
        × (length l ≡ isr_count lp)
        × Images g t lp 0 0 lp.isr l
  unfolding prog_lower
  prog_lower-Images out to allow_t pos small fits h =
      let go = lower_from g t 0 lp.isr lp.ref out in
      let room = if ltb out.cap (isr_count lp) then refused needs_more else go in
      let (board, h1) =
        checked (not (lp.nch == g.nch)) channels
          (if ltb 1 lp.nlatch && not allow_t then refused latches else room) h in
      let (latch, h2) = checked (ltb 1 lp.nlatch && not allow_t) latches room h1 in
      let (space, h3) = checked (ltb out.cap (isr_count lp)) needs_more go h2 in
      let same : lp.nch ≡ g.nch = ground (arith, board) in
      let later = Refs-Later 0 0 lp.ref (length lp.isr) lp.nsplit built.refs in
      let (l, grown, count, images) =
        from-Images pos small same fits 0 lp.isr lp.ref out to later (λ j p. refl) (omega arith)
          h3 in
      let zero_place = start lp built in
      (
        l,
        grown,
        omega (arith, count, zero_place, whole_size lp built fits),
        rw zero_place at images,
      )
