-- ===== src/Runtime/Lower/Placed.antt =====
-- What `pim_prog_lower_ctx` of sw/runtime/pim_lower.c appends to a program: the image of each logical
-- instruction, where `mapped` says that it begins.
use mathlib.Core.List.{append_assoc, append-nil}
use pim_sw.Common.{
  ℕ, zero, suc, ◌+◌, ◌-◌, ◌^◌, ◌≤◌, ◌<◌, ◌≡◌, ◌⊎◌, refl, sym, ◌∙◌, ap, Bool, true, false, ◌||◌,
  Option, none, some, List, [], ◌∷◌, ◌++◌, length, ltb, leb, ◌==◌, if◌then◌else◌, u32, arith, inl,
  inr, pow_mono, ==_iff,
}
use pim_sw.Library.Geometry.{Geometry}
use pim_sw.Library.Records.{Table}
use pim_sw.Library.Allocator.{tag_get}
use pim_sw.Runtime.Isr.{Isr, isr_put, isr_put_lem, bit, in_field}
use pim_sw.Runtime.Lower.{
  Split, whole, per_channel, Ref, Logical, Prog, Bad, prog_full, imem_full, layout_differs,
  row_too_big, imem_words, Reply, accepted, refused, ◌>>=◌, is_per_channel, row_max, put_row,
  put_channel, prog_push, resolve_one, mapped, lower_channels, lower_whole, check_tag, unless,
  lower_ref, lower_isr,
}

-- Where two steps succeed, so does each.
pub >>=-accepted {ℓ κ} :
    {X : Type ℓ} {Y : Type κ} (first : Reply X) (next : X → Reply Y) {out : Y}
    → (first >>= next) ≡ accepted out
    → (x : X) × (first ≡ accepted x) × (next x ≡ accepted out)
>>=-accepted (refused why) next done = cc
>>=-accepted (accepted x) next done = (x, refl, done)

-- The instruction with `row` in its ROW field, 17 bits from bit 6 on.
abbrev pub WithRow : Isr → ℕ → Isr → Type 0
WithRow w row x =
    (row ≤ row_max) × ((b : ℕ) → x b ≡ (if in_field 6 17 b then bit row (b - 6) else w b))

-- And with the one bit of channel `ch` in CH_MASK, 8 bits from bit 27 on.
abbrev pub WithChannel : Isr → ℕ → ℕ → Isr → Type 0
WithChannel w row ch x =
    (row ≤ row_max)
    × ((b : ℕ)
        → x b ≡ (
            if in_field 6 17 b
            then bit row (b - 6)
            else if in_field 27 8 b
            then bit (2 ^ ch) (b - 27)
            else w b))

-- The reference that belongs to instruction `i`.
abbrev pub ref_of : ℕ → List Ref → Option Ref
ref_of i [] = none
ref_of i (r ∷ refs) = if r.isr == i then some r else ref_of i refs

module _ (g : Geometry) (t : Table) where
  -- One instruction for each of `n` channels from `ch` on, each with the row that its channel resolves to.
  abbrev pub Channels : Ref → Isr → ℕ → ℕ → List Isr → Type 0
  Channels r w zero ch l = l ≡ []
  Channels r w (suc n) ch [] = ⊥
  Channels r w (suc n) ch (x ∷ l) =
      ((row : ℕ) × (resolve_one g t r ch ≡ accepted row) × WithChannel w row ch x)
      × Channels r w n (ch + 1) l

  abbrev pub Resolved : Split → Ref → Isr → List Isr → Type 0
  Resolved whole r w l =
      (row : ℕ) × (x : Isr) × (l ≡ x ∷ []) × (resolve_one g t r 0 ≡ accepted row) × WithRow w row x
  Resolved per_channel r w l = Channels r w g.nch 0 l

  -- What becomes of an instruction: it stays as it is, or its reference, whose layout claim is true,
  -- is resolved.
  abbrev pub Image : Option Ref → Isr → List Isr → Type 0
  Image none w l = l ≡ w ∷ []
  Image (some r) w l = ((r.tag ≡ 0) ⊎ (tag_get t r.base ≡ r.tag)) × Resolved r.split r w l

  -- The images of the instructions from the `i`-th on, in order, each beginning at `mapped`.
  abbrev pub Images : Logical → ℕ → ℕ → List Isr → List Isr → Type 0
  Images lp i at [] l = l ≡ []
  Images lp i at (w ∷ ws) l =
      (a : List Isr) × (b : List Isr) × (l ≡ a ++ b)
      × (at ≡ mapped lp i)
      × Image (ref_of i lp.ref) w a
      × Images lp (i + 1) (at + length a) ws b

pub checked {ℓ} :
    {A : Type ℓ} (b : Bool) (e : Bad) (m : Reply A) {x : A}
    → (if b then refused e else m) ≡ accepted x
    → (b ≡ false) × (m ≡ accepted x)
checked true e m h = cc
checked false e m h = (refl, h)

pub accepted-inj {ℓ} : {A : Type ℓ} {x y : A} → accepted x ≡ accepted y → x ≡ y
accepted-inj h = cc

abbrev pub Grown : Prog → Prog → List Isr → Type 0
Grown out to l = to.w ≡ out.w ++ l

passed : (b : Bool) (e : Bad) → (if b then none else some e) ≡ none → b ≡ true
passed true e h = refl
passed false e h = cc

one_of {ℓ κ} :
    {P : Type ℓ} {Q : Type κ} (a b : Bool)
    → (a ≡ true → P)
    → (b ≡ true → Q)
    → (a || b) ≡ true
    → P ⊎ Q
one_of true b p q h = inl (p refl)
one_of false b p q h = inr (q h)

unless-accepted :
    (o : Option Bad) (m : Reply Prog) {to : Prog}
    → unless o m ≡ accepted to
    → (o ≡ none) × (m ≡ accepted to)
unfolding unless
unless-accepted none m h = (refl, h)
unless-accepted (some e) m h = cc

push_grown :
    (out : Prog) (x : Isr) (to : Prog) → prog_push out x ≡ accepted to → to.w ≡ out.w ++ x ∷ []
unfolding prog_push
push_grown out x to h =
    let longer = record out { w = out.w ++ x ∷ [] } in
    let room = if leb imem_words (length out.w) then refused imem_full else accepted longer in
    let (a, h1) = checked (leb out.cap (length out.w)) prog_full room h in
    let (b, h2) = checked (leb imem_words (length out.w)) imem_full (accepted longer) h1 in
    ap (λ (p : Prog). p.w) (sym (accepted-inj h2))

small_row : (row : ℕ) → ltb row_max row ≡ false → (row ≤ row_max) × (u32 row ≡ row)
small_row row h = let p : row ≤ row_max = ground (arith, h) in (p, omega (arith, p))

put_row-WithRow : (w : Isr) (row : ℕ) (x : Isr) → put_row w row ≡ accepted x → WithRow w row x
unfolding put_row
put_row-WithRow w row x h =
    let (fits, e) =
      checked (ltb row_max row) (row_too_big row) (accepted (isr_put w 6 17 (u32 row))) h in
    let (low, same) = small_row row fits in
    (low, λ b. rw (sym (accepted-inj e), same) (isr_put_lem w 6 17 row b))

channel_bit : (ch : ℕ) → ch < 8 → u32 (2 ^ ch) ≡ 2 ^ ch
channel_bit ch h = let p : 2 ^ ch ≤ 2 ^ 7 = pow_mono ch 7 (omega (arith, h)) in omega (arith, p)

put_channel-WithChannel :
    (w : Isr) (row ch : ℕ) (x : Isr)
    → ch < 8
    → put_row (put_channel w ch) row ≡ accepted x
    → WithChannel w row ch x
unfolding put_channel
put_channel-WithChannel w row ch x small h =
    let (low, row_put) = put_row-WithRow (isr_put w 27 8 (u32 (2 ^ ch))) row x h in
    (
      low,
      λ b.
          row_put b
          ∙ ap (λ y. if in_field 6 17 b then bit row (b - 6) else y)
              (isr_put_lem w 27 8 (u32 (2 ^ ch)) b
                ∙ ap (λ v. if in_field 27 8 b then bit v (b - 27) else w b) (channel_bit ch small)),
    )

module _ (g : Geometry) (t : Table) where
  drain-Channels :
      (n ch : ℕ) (r : Ref) (w : Isr) (out to : Prog)
      → ch + n ≤ 8
      → lower_channels g t n ch r w out ≡ accepted to
      → (l : List Isr) × Grown out to l × (length l ≡ n) × Channels g t r w n ch l
  unfolding lower_channels
  drain-Channels zero ch r w out to small h =
      ([], ap (λ p. p.w) (sym (accepted-inj h)) ∙ sym (append-nil out.w), refl, refl)
  drain-Channels (suc n) ch r w out to small h =
      let put = λ (row : ℕ). put_row (put_channel w ch) row in
      let go = λ (x : Isr). prog_push out x >>= lower_channels g t n (ch + 1) r w in
      let (row, found, h1) = >>=-accepted (resolve_one g t r ch) (λ row. put row >>= go) h in
      let (x, is_put, h2) = >>=-accepted (put row) go h1 in
      let (mid, push, later) =
        >>=-accepted (prog_push out x) (lower_channels g t n (ch + 1) r w) h2 in
      let (l, grown, count, more) =
        drain-Channels n (ch + 1) r w mid to (omega (arith, small)) later in
      let e : to.w ≡ out.w ++ x ∷ l =
        grown ∙ ap (λ ws. ws ++ l) (push_grown out x mid push) ∙ append_assoc out.w (x ∷ []) l in
      (
        x ∷ l,
        e,
        ap suc count,
        ((row, found, put_channel-WithChannel w row ch x (omega (arith, small)) is_put), more),
      )

  abbrev pub size_of : Split → ℕ
  size_of whole = 1
  size_of per_channel = g.nch

  split-Resolved :
      (s : Split) (r : Ref) (w : Isr) (out to : Prog)
      → g.nch ≤ 8
      → (if is_per_channel s then lower_channels g t g.nch 0 r w out else lower_whole g t r w out)
        ≡ accepted to
      → (l : List Isr) × Grown out to l × (length l ≡ size_of s) × Resolved g t s r w l
  unfolding is_per_channel lower_whole
  split-Resolved per_channel r w out to small h =
      drain-Channels g.nch 0 r w out to (omega (arith, small)) h
  split-Resolved whole r w out to small h =
      let (row, found, h1) =
        >>=-accepted (resolve_one g t r 0) (λ row. put_row w row >>= prog_push out) h in
      let (x, put, push) = >>=-accepted (put_row w row) (prog_push out) h1 in
      (x ∷ [], push_grown out x to push, refl, (row, x, refl, found, put_row-WithRow w row x put))

  abbrev pub image_size : Option Ref → ℕ
  image_size none = 1
  image_size (some r) = size_of r.split

  tag_checked :
      (r : Ref) (i : ℕ) → check_tag g t r i ≡ none → (r.tag ≡ 0) ⊎ (tag_get t r.base ≡ r.tag)
  unfolding check_tag
  tag_checked r i h =
      one_of (r.tag == 0) (tag_get t r.base == r.tag) (==_iff r.tag 0).0
        (==_iff (tag_get t r.base) r.tag).0 (passed _ (layout_differs i (tag_get t r.base)) h)

  pub isr-Image :
      (o : Option Ref) (i : ℕ) (w : Isr) (out to : Prog)
      → g.nch ≤ 8
      → lower_isr g t o i w out ≡ accepted to
      → (l : List Isr) × Grown out to l × (length l ≡ image_size o) × Image g t o w l
  unfolding lower_isr lower_ref
  isr-Image none i w out to small h = (w ∷ [], push_grown out w to h, refl, refl)
  isr-Image (some r) i w out to small h =
      let (claim, k) =
        unless-accepted (check_tag g t r i)
          (if is_per_channel r.split
            then lower_channels g t g.nch 0 r w out
            else lower_whole g t r w out)
          h in
      let (l, grown, count, image) = split-Resolved r.split r w out to small k in
      (l, grown, count, (tag_checked r i claim, image))
