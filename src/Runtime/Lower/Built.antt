-- ===== src/Runtime/Lower/Built.antt =====
-- Logical programs as the calls of sw/runtime/pim_lower.c build them, and where an instruction is in
-- the lowered program.
use pim_sw.Common.{
  ℕ, zero, suc, ◌+◌, ◌-◌, ◌*◌, ◌^◌, ◌≤◌, ◌<◌, ◌≡◌, refl, sym, ◌∙◌, true, false, ◌||◌, List, [], ◌∷◌,
  ◌++◌, All, All-map, All-append, length, length-append, get_elem?, ltb, leb, if◌then◌else◌, arith,
  Bool-cases, inl, inr,
}
use native.Mathlib.Nat.{mul-le-mul_right}
use pim_sw.Library.Records.{bisect}
use pim_sw.Library.Records.Search.{bisect-Border}
use pim_sw.Runtime.Isr.{Isr}
use pim_sw.Runtime.Lower.{
  Kind, Split, per_channel, whole, Ref, Atom, Logical, accepted, logical_init, logical_push,
  logical_push_ref, logical_atom, is_per_channel, add_ref, growth, ref_before, splits_before,
  mapped,
}

-- How many references are split, and how many of those stand before instruction `i`.
abbrev pub one_if : Split → ℕ
one_if whole = 0
one_if per_channel = 1

abbrev pub below : ℕ → List Ref → ℕ
below i [] = 0
below i (r ∷ refs) = (if ltb r.isr i then one_if r.split else 0) + below i refs

-- The references belong to ever later instructions, from `lo` on and before `hi`, and each counts the
-- splits before it, from `n` on up to `m`.
abbrev pub Refs : ℕ → ℕ → List Ref → ℕ → ℕ → Type 0
Refs lo n [] hi m = (lo ≤ hi) × (n ≡ m)
Refs lo n (r ∷ refs) hi m =
    (lo ≤ r.isr) × (r.nsplit_before ≡ n) × Refs (r.isr + 1) (n + one_if r.split) refs hi m

abbrev pub InProgram : ℕ → Atom → Type 0
InProgram n a = (a.first ≤ a.last) × (a.last < n)

pub record Built (lp : Logical) : Type 0 where
  pub refs : Refs 0 0 lp.ref (length lp.isr) lp.nsplit
  pub atoms : All (InProgram (length lp.isr)) lp.atom
  pub latch : 0 < lp.nlatch

Refs-later :
    (lo n : ℕ) (refs : List Ref) (hi m h : ℕ) → hi ≤ h → Refs lo n refs hi m → Refs lo n refs h m
Refs-later lo n [] hi m h p (q, e) = (omega arith, e)
Refs-later lo n (r ∷ refs) hi m h p (q, e, rest) =
    (q, e, Refs-later (r.isr + 1) (n + one_if r.split) refs hi m h p rest)

Refs-snoc :
    (lo n : ℕ) (refs : List Ref) (hi m : ℕ) (r : Ref)
    → r.isr ≡ hi
    → r.nsplit_before ≡ m
    → Refs lo n refs hi m
    → Refs lo n (refs ++ r ∷ []) (hi + 1) (m + one_if r.split)
Refs-snoc lo n [] hi m r e f (q, d) =
    (omega (arith, q, e), f ∙ sym d, (omega (arith, e), omega (arith, d)))
Refs-snoc lo n (s ∷ refs) hi m r e f (q, d, rest) =
    (q, d, Refs-snoc (s.isr + 1) (n + one_if s.split) refs hi m r e f rest)

-- What one call makes of a program that it accepts.
pub data Call (lp : Logical) : Logical → Type 0 where
  pushed : {to : Logical} (w : Isr) → logical_push lp w ≡ accepted to → Call lp to
  referred :
      {to : Logical} (w : Isr) (kind : Kind) (split : Split) (base len index tag : ℕ)
      → logical_push_ref lp w kind split base len index tag ≡ accepted to
      → Call lp to
  marked : {to : Logical} (first last : ℕ) → logical_atom lp first last ≡ accepted to → Call lp to

-- The programs that `pim_logical_init` and the three calls build.
pub data Made : Logical → Type 0 where
  init :
      (isr_cap ref_cap atom_cap nch nlatch : ℕ)
      → Made (logical_init isr_cap ref_cap atom_cap nch nlatch)
  next : {lp to : Logical} → Made lp → Call lp to → Made to

push-accepted :
    (lp : Logical) (w : Isr) (to : Logical)
    → logical_push lp w ≡ accepted to
    → record lp { isr = lp.isr ++ w ∷ [] } ≡ to
unfolding logical_push
push-accepted lp w to h = ground (arith, h)

one_more : (lp : Logical) (w : Isr) → length (lp.isr ++ w ∷ []) ≡ length lp.isr + 1
one_more lp w = length-append lp.isr (w ∷ [])

push-Built : (lp : Logical) (w : Isr) → Built lp → Built (record lp { isr = lp.isr ++ w ∷ [] })
push-Built lp w b =
    let e = one_more lp w in
    let n = length lp.isr in
    record {
      refs = rw e (Refs-later 0 0 lp.ref n lp.nsplit (n + 1) (omega arith) b.refs);
      atoms = rw e (
          All-map (InProgram n) (InProgram (n + 1)) lp.atom (λ a h. (h.0, omega (arith, h.1)))
            b.atoms);
      latch = b.latch;
    }

counted : (split : Split) (n : ℕ) → (if is_per_channel split then n + 1 else n) ≡ n + one_if split
unfolding is_per_channel
counted whole n = omega arith
counted per_channel n = refl

add_ref-Built :
    (lp : Logical) (w : Isr) (kind : Kind) (split : Split) (base len index tag : ℕ)
    → Built lp
    → Built (add_ref kind split base len index tag (record lp { isr = lp.isr ++ w ∷ [] }))
unfolding add_ref
add_ref-Built lp w kind split base len index tag b =
    let e = one_more lp w in
    let n = length lp.isr in
    let p = push-Built lp w b in
    let last : Ref = record {
      isr = n + 1 - 1;
      kind = kind;
      split = split;
      base = base;
      len = len;
      index = index;
      tag = tag;
      nsplit_before = lp.nsplit;
    } in
    record {
      refs =
          rw (e, counted split lp.nsplit)
            (Refs-snoc 0 0 lp.ref n lp.nsplit last (omega arith) refl b.refs);
      atoms = p.atoms;
      latch = b.latch;
    }

push_ref-Built :
    (lp : Logical) (w : Isr) (kind : Kind) (split : Split) (base len index tag : ℕ) (to : Logical)
    → Built lp
    → logical_push_ref lp w kind split base len index tag ≡ accepted to
    → Built to
unfolding logical_push_ref logical_push
push_ref-Built lp w kind split base len index tag to b h =
    let made = add_ref-Built lp w kind split base len index tag b in
    let e : add_ref kind split base len index tag (record lp { isr = lp.isr ++ w ∷ [] }) ≡ to =
      ground (arith, h) in
    rw (sym e) made

atom-Built :
    (lp : Logical) (first last : ℕ) (to : Logical)
    → Built lp
    → logical_atom lp first last ≡ accepted to
    → Built to
unfolding logical_atom
atom-Built lp first last to b h = elim (Bool-cases (ltb last first || leb (length lp.isr) last)) [
  | inl out ↦ absurd (ground (arith, h, out))
  | inr fits ↦
      let a : Atom = record { first = first; last = last } in
      let e : record lp { atom = lp.atom ++ a ∷ [] } ≡ to = ground (arith, h, fits) in
      rw (sym e) (record {
        refs = b.refs;
        atoms =
            All-append (InProgram (length lp.isr)) lp.atom (a ∷ []) b.atoms
              ((ground (arith, fits), ground (arith, fits)), tt);
        latch = b.latch;
      })
]

Call-Built : {lp to : Logical} → Call lp to → Built lp → Built to
Call-Built {lp} {to} (pushed w h) b = rw (sym (push-accepted lp w to h)) (push-Built lp w b)
Call-Built {lp} {to} (referred w kind split base len index tag h) b =
    push_ref-Built lp w kind split base len index tag to b h
Call-Built {lp} {to} (marked first last h) b = atom-Built lp first last to b h

-- In a program that the calls have built, the references belong to ever later instructions of the
-- program and each knows how many splits come before it, all splits are counted, every atom is a
-- range of the program, and there is a latch.
pub made-Built : {lp : Logical} → Made lp → Built lp
unfolding logical_init
made-Built (init isr_cap ref_cap atom_cap nch nlatch) = record {
  refs = (omega arith, refl);
  atoms = tt;
  latch = ground arith;
}
made-Built (next r st) = Call-Built st (made-Built r)

-- Where instruction `i` begins in the lowered program.
abbrev pub place : Logical → ℕ → ℕ
place lp i = i + below i lp.ref * growth lp

below_none :
    (lo n i : ℕ) (refs : List Ref) (hi m : ℕ) → i ≤ lo → Refs lo n refs hi m → below i refs ≡ 0
below_none lo n i [] hi m p q = refl
below_none lo n i (r ∷ refs) hi m p (q, e, rest) = ground (
  arith,
  below_none (r.isr + 1) (n + one_if r.split) i refs hi m (omega (arith, p, q)) rest,
  p,
  q,
)

pub below_all :
    (lo n i : ℕ) (refs : List Ref) (hi m : ℕ) → Refs lo n refs hi m → n + below i refs ≤ m
below_all lo n i [] hi m (q, e) = omega (arith, e)
below_all lo n i (r ∷ refs) hi m (q, e, rest) =
    ground (arith, below_all (r.isr + 1) (n + one_if r.split) i refs hi m rest)

Refs-le : (lo n : ℕ) (refs : List Ref) (hi m : ℕ) → Refs lo n refs hi m → lo ≤ hi
Refs-le lo n [] hi m (q, e) = q
Refs-le lo n (r ∷ refs) hi m (q, e, rest) =
    omega (arith, q, Refs-le (r.isr + 1) (n + one_if r.split) refs hi m rest)

-- Before the end of the program stand all the splits.
pub below_end :
    (lo n : ℕ) (refs : List Ref) (hi m : ℕ) → Refs lo n refs hi m → n + below hi refs ≡ m
below_end lo n [] hi m (q, e) = omega (arith, e)
below_end lo n (r ∷ refs) hi m (q, e, rest) =
    let p = Refs-le (r.isr + 1) (n + one_if r.split) refs hi m rest in
    ground (arith, below_end (r.isr + 1) (n + one_if r.split) refs hi m rest, p)

ref_before-lo :
    (lo n : ℕ) (refs : List Ref) (hi m i j : ℕ)
    → Refs lo n refs hi m
    → ref_before refs i j ≡ true
    → lo < i
unfolding ref_before
ref_before-lo lo n [] hi m i j q h = absurd (ground (arith, h))
ref_before-lo lo n (r ∷ refs) hi m i zero (q, e, rest) h = ground (arith, h, q)
ref_before-lo lo n (r ∷ refs) hi m i (suc j) (q, e, rest) h =
    omega (arith, q, ref_before-lo (r.isr + 1) (n + one_if r.split) refs hi m i j rest h)

ref_before_mono :
    (lo n : ℕ) (refs : List Ref) (hi m i a b : ℕ)
    → Refs lo n refs hi m
    → a ≤ b
    → ref_before refs i b ≡ true
    → ref_before refs i a ≡ true
unfolding ref_before
ref_before_mono lo n [] hi m i a b q p h = absurd (ground (arith, h))
ref_before_mono lo n (r ∷ refs) hi m i zero zero q p h = h
ref_before_mono lo n (r ∷ refs) hi m i zero (suc b) (q, e, rest) p h =
    ground (arith, ref_before-lo (r.isr + 1) (n + one_if r.split) refs hi m i b rest h)
ref_before_mono lo n (r ∷ refs) hi m i (suc a) zero q p h = absurd (omega (arith, p))
ref_before_mono lo n (r ∷ refs) hi m i (suc a) (suc b) (q, e, rest) p h =
    ref_before_mono (r.isr + 1) (n + one_if r.split) refs hi m i a b rest (omega (arith, p)) h

-- At the border the count of splits is that of the references before the instruction.
at_border :
    (lp : Logical) (lo n : ℕ) (refs : List Ref) (hi i k : ℕ)
    → Refs lo n refs hi lp.nsplit
    → k ≤ length refs
    → ((j : ℕ) → j < k → ref_before refs i j ≡ true)
    → ((j : ℕ) → k ≤ j → j < length refs → ref_before refs i j ≡ false)
    → splits_before lp (get_elem? refs k) ≡ n + below i refs
unfolding splits_before ref_before
at_border lp lo n [] hi i k (q, e) p f g = omega (arith, e)
at_border lp lo n (r ∷ refs) hi i zero (q, e, rest) p f g =
    let far = g 0 (omega arith) (omega arith) in
    let none_below =
      below_none (r.isr + 1) (n + one_if r.split) i refs hi lp.nsplit (ground (arith, far)) rest in
    ground (arith, e, none_below, far)
at_border lp lo n (r ∷ refs) hi i (suc k) (q, e, rest) p f g =
    let near = f 0 (omega arith) in
    let ih =
      at_border lp (r.isr + 1) (n + one_if r.split) refs hi i k rest (omega (arith, p))
        (λ j h. f (suc j) (omega (arith, h)))
        (λ j h u. g (suc j) (omega (arith, h)) (omega (arith, u))) in
    ground (arith, ih, near)

module _ (lp : Logical) (b : Built lp) (fits : length lp.isr + lp.nsplit * growth lp < 2 ^ 32) where
  pub place_fits : (i : ℕ) → i ≤ length lp.isr → place lp i < 2 ^ 32
  place_fits i h =
      let most = below_all 0 0 i lp.ref (length lp.isr) lp.nsplit b.refs in
      omega (
        arith,
        fits,
        h,
        mul-le-mul_right (growth lp)
            (let m : below i lp.ref ≤ lp.nsplit = omega (arith, most) in m),
      )

  -- `mapped` finds the number of splits before an instruction, whichever it is.
  pub mapped-place : (i : ℕ) → i ≤ length lp.isr → mapped lp i ≡ place lp i
  unfolding mapped
  mapped-place i h =
      let n = length lp.ref in
      let border =
        bisect-Border n (ref_before lp.ref i) 0 n
          (λ x y p q u. ref_before_mono 0 0 lp.ref (length lp.isr) lp.nsplit i x y b.refs p u)
          (omega arith) (omega arith) in
      let k = bisect n (ref_before lp.ref i) 0 n in
      let e =
        at_border lp 0 0 lp.ref (length lp.isr) i k b.refs border.high
          (λ j u. border.holds j (omega arith) u) (λ j u v. border.fails j u v) in
      let same : splits_before lp (get_elem? lp.ref k) ≡ below i lp.ref = omega (arith, e) in
      rw same (omega (arith, place_fits i h))
