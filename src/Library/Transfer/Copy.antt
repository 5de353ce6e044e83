-- ===== src/Library/Transfer/Copy.antt =====
-- `pim_memcpy_ctx` of sw/lib/pim_memcpy.c moves each byte to or from the place that the table of
-- granules has for it.
use native.Mathlib.Nat.{one-le-pow, mod-lt}
use pim_sw.Common.{
  ◌||◌, sub64, subst, quotient_lt, ◌∙◌, ap, sym, ℕ, zero, suc, ◌+◌, ◌-◌, ◌/◌, ◌%◌, ◌^◌, ◌≤◌, ◌<◌,
  ◌≡◌, ◌≢◌, refl, false, Option, none, some, arith, ltb, ◌==◌, Bool-cases, inl, inr, List, [], ◌∷◌,
  ◌++◌, if◌then◌else◌, add64,
}
use pim_sw.Library.Geometry.{Geometry, Region}
use pim_sw.Library.Records.{Table, Rec}
use pim_sw.Library.Records.Lookup.{Ordered, Inside}
use pim_sw.Library.Resolve.{Resolved, found}
use pim_sw.Library.Resolve.Run.{Covers}
use pim_sw.Library.Resolve.Pointer.{resolve-run}
use pim_sw.Library.Transfer.{
  null_pointer, to_dev, from_dev, axi_of, run_of, other_dir, is_other, Dir, Queues, Chunk, Bad,
  Window, copied, copy_from, memcpy, xfer, is_to,
}
use pim_sw.Library.Transfer.Chunks.{Spans, Outcome, xfer-Outcome}

-- The calls move `n` bytes in order, those from offset `off` of the allocation and those from `host`
-- on, and each byte stands on the card where the granules of the record have it.
abbrev pub Placed : Rec → ℕ → ℕ → ℕ → ℕ → List Chunk → Type 0
Placed r gran off host n [] = n ≡ 0
Placed r gran off host n (c ∷ l) =
    (c.host ≡ host)
    × (0 < c.size)
    × (c.size ≤ n)
    × ((b : ℕ) → b < c.size → c.card + b ≡ r.gran_addr ((off + b) / gran) + (off + b) % gran)
    × Placed r gran (off + c.size) (host + c.size) (n - c.size) l

Placed-append :
    (r : Rec) (gran off host m n : ℕ) (xs ys : List Chunk)
    → Placed r gran off host m xs
    → Placed r gran (off + m) (host + m) n ys
    → Placed r gran off host (m + n) (xs ++ ys)
Placed-append r gran off host m n [] ys p q =
    let a : off + m ≡ off = omega (arith, p) in
    let b : host + m ≡ host = omega (arith, p) in
    let d : m + n ≡ n = omega (arith, p) in rw d (rw (a, b) at q)
Placed-append r gran off host m n (c ∷ xs) ys (h, s, l, e, p) q =
    let a : off + m ≡ off + c.size + (m - c.size) = omega (arith, l) in
    let b : host + m ≡ host + c.size + (m - c.size) = omega (arith, l) in
    let d : m + n - c.size ≡ m - c.size + n = omega (arith, l) in
    (
      h,
      s,
      omega (arith, l),
      e,
      rw d (
          Placed-append r gran (off + c.size) (host + c.size) (m - c.size) n xs ys p
            (rw (a, b) at q)),
    )

-- The calls over one run of card addresses.
Spans-Placed :
    (r : Rec) (gran most off axi host run m : ℕ) (l : List Chunk)
    → ((b : ℕ) → b < run → axi + b ≡ r.gran_addr ((off + b) / gran) + (off + b) % gran)
    → m ≤ run
    → Spans most axi host m l
    → Placed r gran off host m l
Spans-Placed r gran most off axi host run m [] e h s = s
Spans-Placed r gran most off axi host run m (c ∷ l) e h (ca, ho, pos, low, few, s) = (
  ho,
  pos,
  few,
  λ b x. ap (λ t. t + b) ca ∙ e b (omega (arith, x, few, h)),
  Spans-Placed r gran most (off + c.size) (axi + c.size) (host + c.size) (run - c.size) (m - c.size)
      l
      (λ b x.
        let p : axi + c.size + b ≡ axi + (c.size + b) = omega arith in
        let q : off + c.size + b ≡ off + (c.size + b) = omega arith in
        rw (p, q) (e (c.size + b) (omega (arith, x))))
      (omega (arith, h)) s,
)

-- All `n` bytes have moved where there is no message, and fewer where there is one.
abbrev pub Counted : Option Bad → ℕ → ℕ → Type 0
Counted none m n = m ≡ n
Counted (some b) m n = m < n

pub record Copied (r : Rec) (gran off host n : ℕ) (calls : List Chunk) (bad : Option Bad)
    : Type 0 where
  pub m : ℕ
  pub placed : Placed r gran off host m calls
  pub counted : Counted bad m n

Counted-after :
    (bad : Option Bad) (m n run : ℕ) → run ≤ n → Counted bad m (n - run) → Counted bad (run + m) n
Counted-after none m n run h t = omega (arith, h, t)
Counted-after (some b) m n run h t = omega (arith, h, t)

-- One run has been moved, and the loop has gone on where there was no message.
copied-Copied :
    (r : Rec) (gran most mem axi x off host run j n : ℕ) (calls : List Chunk) (bad : Option Bad)
    (rest : List Chunk × Option Bad)
    → ((b : ℕ) → b < run → axi + b ≡ r.gran_addr ((off + b) / gran) + (off + b) % gran)
    → run ≤ n
    → Outcome most axi host run j calls bad
    → (i : ℕ) → Copied r gran (off + run) (host + run) (n - run) rest.0 rest.1
    → let res = copied (found mem axi x run) (calls, i, bad) rest in
      Copied r gran off host n res.0 res.1
unfolding copied
copied-Copied r gran most mem axi x off host run j n calls none rest e h o i c =
    let whole = o.told in
    record {
      m = run + c.m;
      placed =
          Placed-append r gran off host run c.m calls rest.0
            (rw whole at (
              Spans-Placed r gran most off axi host run o.m calls e (omega (arith, whole)) o.spans))
            c.placed;
      counted = Counted-after rest.1 c.m n run h c.counted;
    }
copied-Copied r gran most mem axi x off host run j n calls (some b) rest e h o i c =
    let (less, names) = o.told in
    record {
      m = o.m;
      placed = Spans-Placed r gran most off axi host run o.m calls e (omega (arith, less)) o.spans;
      counted = omega (arith, less, h);
    }

-- A run of an allocation does not reach the end of the addresses.
run_fits :
    (region : Region) (r : Rec) (axi off run : ℕ)
    → Covers region r
    → 0 < run
    → off + run ≤ r.bytes
    → ((b : ℕ)
        → b < run
        → axi + b ≡ r.gran_addr ((off + b) / region.gran) + (off + b) % region.gran)
    → axi + run < 2 ^ 64
run_fits region r axi off run c pos h e =
    let last = off + (run - 1) in
    let gran_pos : 0 < region.gran = omega (arith, c.shift, one-le-pow region.gran_shift 2) in
    let g = quotient_lt last region.gran r.nr_grans gran_pos (omega (arith, c.size, h, pos)) in
    omega (
      arith,
      e (run - 1) (omega (arith, pos)),
      c.below (last / region.gran) g,
      mod-lt last gran_pos,
      pos,
    )

module _ (Q : Queues) (w : Window) (some_size : 0 < w.max_xfer) (g : Geometry) (t : Table)
    (o : Ordered t) (k : ℕ) (there : k < t.nallocs)
    (c : Covers (g.mem (t.allocs k).mem) (t.allocs k)) where
  abbrev rec : Rec
  rec = t.allocs k

  abbrev region : Region
  region = g.mem rec.mem

  copy_from-Copied :
      (fuel i : ℕ) (dir : Dir) (card host done n : ℕ)
      → 0 < card
      → rec.vbase ≤ card
      → card + n ≤ rec.vbase + rec.bytes
      → done ≤ n
      → n < done + fuel
      → let res = copy_from Q fuel w g t i dir card host done n in
        Copied rec region.gran (card - rec.vbase + done) (host + done) (n - done) res.0 res.1
  unfolding copy_from axi_of run_of
  copy_from-Copied zero i dir card host done n x y z p q = absurd (omega (arith, p, q))
  copy_from-Copied (suc fuel) i dir card host done n x y z p q = elim (Bool-cases (ltb done n)) [
    | inr h ↦ rw h (record { m = 0; placed = refl; counted = ground (arith, h, p) })
    | inl h ↦
        let less : done < n = ground (arith, h) in
        let inside : Inside rec (card + done) = (omega (arith, y), omega (arith, z, less)) in
        let (axi, run, e, some_run, most, bytes) =
          resolve-run t (card + done) k o there inside (omega (arith, x)) g (n - done) c
            (omega (arith, less)) (omega (arith, z, less)) in
        let ptr : add64 card done ≡ card + done = omega (arith, z, less, o.room k there) in
        let at : card + done - rec.vbase ≡ card - rec.vbase + done = omega (arith, y) in
        let bytes2 = rw at at bytes in
        let fits =
          run_fits region rec axi (card - rec.vbase + done) run c some_run
            (omega (arith, y, z, most, less)) bytes2 in
        let now = xfer Q w.max_xfer i dir axi (host + done) run done in
        let moved = xfer-Outcome Q w.max_xfer some_size dir i axi (host + done) run done fits in
        let rest =
          copy_from-Copied fuel now.1 dir card host (done + run) n x y z (omega (arith, most, less))
            (omega (arith, q, some_run)) in
        let step : Resolved → List Chunk × Option Bad = λ x.
          let nw = xfer Q w.max_xfer i dir (axi_of x) (host + done) (run_of x) done in
          copied x nw (copy_from Q fuel w g t nw.1 dir card host (done + run_of x) n) in
        let off2 : card - rec.vbase + (done + run) ≡ card - rec.vbase + done + run = omega arith in
        let host2 : host + (done + run) ≡ host + done + run = omega arith in
        let n2 : n - (done + run) ≡ n - done - run = omega arith in
        rw (h, ptr)
          (subst
            (λ x.
              Copied rec region.gran (card - rec.vbase + done) (host + done) (n - done) (step x).0
                (step x).1)
            (sym e)
            (copied-Copied rec region.gran w.max_xfer rec.mem axi (sub64 axi region.base)
              (card - rec.vbase + done) (host + done) run done (n - done) now.0 now.2
              (copy_from Q fuel w g t now.1 dir card host (done + run) n) bytes2 most moved now.1
              (rw (off2, host2, n2) at rest)))
  ]

  -- The tests of the two pointers and of the number of bytes pass.
  abbrev Accepted : Dir → ℕ → ℕ → ℕ → ℕ → ℕ → Type 0
  Accepted dir card host dst src n =
      let res : List Chunk × Option Bad =
        if dst == 0 || src == 0
        then ([], some null_pointer)
        else if n == 0
        then ([], none)
        else copy_from Q (suc n) w g t 0 dir card host 0 n in
      Copied rec region.gran (card - rec.vbase) host n res.0 res.1

  accepted :
      (dir : Dir) (card host dst src n : ℕ)
      → (dst == 0 || src == 0) ≡ false
      → 0 < card
      → rec.vbase ≤ card
      → card + n ≤ rec.vbase + rec.bytes
      → Accepted dir card host dst src n
  accepted dir card host dst src n h p x y = elim (Bool-cases (n == 0)) [
    | inl z ↦ rw (h, z) (record { m = 0; placed = refl; counted = ground (arith, z) })
    | inr z ↦
        let a : card - rec.vbase + 0 ≡ card - rec.vbase = omega arith in
        let b : host + 0 ≡ host = omega arith in
        let d : n - 0 ≡ n = omega arith in
        rw (h, z)
          (rw (a, b, d) at
            (copy_from-Copied (suc n) 0 dir card host 0 n p x y (omega arith) (omega arith)))
  ]

  -- In a table in order, with a bound of at least one byte for a call, a transfer to or from an
  -- allocation that its granules cover, which stays within it, ends. The calls move bytes in the
  -- order of the host's memory, each byte to or from the place on the card where the granules have
  -- it: all `n`, or fewer and there is a message.
  pub memcpy-Copied :
      (dir : Dir) (card host n : ℕ)
      → dir ≢ other_dir
      → 0 < card
      → 0 < host
      → rec.vbase ≤ card
      → card + n ≤ rec.vbase + rec.bytes
      → let to = is_to dir in
        let res = memcpy Q w g t (if to then card else host) (if to then host else card) n dir 0 in
        Copied rec region.gran (card - rec.vbase) host n res.0 res.1
  unfolding memcpy is_to is_other
  memcpy-Copied to_dev card host n d p q x y =
      accepted to_dev card host card host n (ground (arith, p, q)) p x y
  memcpy-Copied from_dev card host n d p q x y =
      accepted from_dev card host host card n (ground (arith, p, q)) p x y
  memcpy-Copied other_dir card host n d p q x y = absurd (d refl)
