-- ===== src/Library/Transfer/Effect.antt =====
-- What a transfer to the card, `pim_memcpy_ctx` of sw/lib/pim_memcpy.c, does to the bytes on the card.
-- That a `pwrite` which moves `size` bytes stores them one behind the other is what it is documented
-- to do.
use pim_sw.Common.{
  ℕ, ◌+◌, ◌-◌, ◌/◌, ◌%◌, ◌^◌, ◌≤◌, ◌<◌, ◌≡◌, ◌≢◌, ◌⊎◌, inl, inr, refl, sym, ◌∙◌, ap, false, true,
  ◌&&◌, ◌||◌, Option, none, some, List, [], ◌∷◌, ltb, leb, ◌==◌, if◌then◌else◌, add64, arith,
  Bool-cases,
}
use pim_sw.Library.Geometry.{Geometry}
use pim_sw.Library.Records.{Table, Rec, rec_lookup}
use pim_sw.Library.Records.Lookup.{Ordered, lookup-cases}
use pim_sw.Library.Resolve.{Resolved, resolve, too_long, not_inside}
use pim_sw.Library.Resolve.Run.{Covers}
use pim_sw.Library.Resolve.Pointer.{usable-where_is}
use pim_sw.Library.Transfer.{
  Queues, Chunk, Bad, Window, to_dev, memcpy, copy_from, copied, is_to, is_other, unresolved,
}
use pim_sw.Library.Transfer.Copy.{Placed, Copied, memcpy-Copied}

-- One call, of the bytes `host` of the host's memory.
unfoldable pub store : (ℕ → ℕ) → Chunk → (ℕ → ℕ) → ℕ → ℕ
store host c s y =
    if leb c.card y && ltb y (c.card + c.size) then host (c.host + (y - c.card)) else s y

unfoldable pub store_all : (ℕ → ℕ) → List Chunk → (ℕ → ℕ) → ℕ → ℕ
unfolding store
store_all host [] s = s
store_all host (c ∷ l) s = store_all host l (store host c s)

-- The place on the card of a byte of an allocation.
abbrev pub spot : Rec → ℕ → ℕ → ℕ
spot r gran x = r.gran_addr (x / gran) + x % gran

store_other :
    (host : ℕ → ℕ) (c : Chunk) (s : ℕ → ℕ) (y : ℕ)
    → ((b : ℕ) → b < c.size → y ≢ c.card + b)
    → store host c s y ≡ s y
unfolding store
store_other host c s y h = elim (Bool-cases (leb c.card y && ltb y (c.card + c.size))) [
  | inl hit ↦ absurd (h (y - c.card) (ground (arith, hit)) (ground (arith, hit)))
  | inr miss ↦ rw miss refl
]

store_here :
    (host : ℕ → ℕ) (c : Chunk) (s : ℕ → ℕ) (b : ℕ)
    → b < c.size
    → store host c s (c.card + b) ≡ host (c.host + b)
unfolding store
store_here host c s b h =
    let hit : (leb c.card (c.card + b) && ltb (c.card + b) (c.card + c.size)) ≡ true =
      ground (arith, h) in
    let e : c.card + b - c.card ≡ b = omega arith in rw (hit, e) refl

pub store_all-other :
    (r : Rec) (gran : ℕ) (mem : ℕ → ℕ) (off host n : ℕ) (l : List Chunk) (s : ℕ → ℕ) (y : ℕ)
    → Placed r gran off host n l
    → ((b : ℕ) → b < n → y ≢ spot r gran (off + b))
    → store_all mem l s y ≡ s y
unfolding store_all
store_all-other r gran mem off host n [] s y p h = refl
store_all-other r gran mem off host n (c ∷ l) s y (ho, pos, few, e, p) h =
    store_all-other r gran mem (off + c.size) (host + c.size) (n - c.size) l (store mem c s) y p
      (λ b q.
        let a : off + c.size + b ≡ off + (c.size + b) = omega arith in
        rw a (h (c.size + b) (omega (arith, q, few))))
    ∙ store_other mem c s y (λ b q z. h b (omega (arith, q, few)) (z ∙ e b q))

-- No two bytes of the allocation have one place.
abbrev pub OneToOne : Rec → ℕ → Type 0
OneToOne r gran = (x y : ℕ) → x < r.bytes → y < r.bytes → spot r gran x ≡ spot r gran y → x ≡ y

pub store_all-here :
    (r : Rec) (gran : ℕ) (mem : ℕ → ℕ) (off host n : ℕ) (l : List Chunk) (s : ℕ → ℕ) (b : ℕ)
    → OneToOne r gran
    → off + n ≤ r.bytes
    → Placed r gran off host n l
    → b < n
    → store_all mem l s (spot r gran (off + b)) ≡ mem (host + b)
unfolding store_all
store_all-here r gran mem off host n [] s b one room p h = absurd (omega (arith, p, h))
store_all-here r gran mem off host n (c ∷ l) s b one room (ho, pos, few, e, p) h =
    elim (Bool-cases (ltb b c.size)) [
      | inl now ↦
          let less : b < c.size = ground (arith, now) in
          store_all-other r gran mem (off + c.size) (host + c.size) (n - c.size) l (store mem c s)
            (spot r gran (off + b)) p
            (λ b' q z. absurd (
              omega (
                arith,
                one (off + b) (off + c.size + b') (omega (arith, room, h))
                    (omega (arith, room, q, few)) z,
                less,
              )))
          ∙ ap (λ y. store mem c s y) (sym (e b less))
          ∙ store_here mem c s b less
          ∙ ap (λ a. mem (a + b)) ho
      | inr later ↦
          let rest : c.size ≤ b = ground (arith, later) in
          let a : off + b ≡ off + c.size + (b - c.size) = omega (arith, rest) in
          let d : host + b ≡ host + c.size + (b - c.size) = omega (arith, rest) in
          rw (a, d)
            (store_all-here r gran mem (off + c.size) (host + c.size) (n - c.size) l (store mem c s)
              (b - c.size) one (omega (arith, room, few)) p (omega (arith, rest, h, few)))
    ]

-- The allocations of a table: in order, covered by their granules, and no byte of one has the place
-- on the card of another byte.
pub record Stored (g : Geometry) (t : Table) : Type 0 where
  pub ordered : Ordered t
  pub covers : (k : ℕ) → k < t.nallocs → Covers (g.mem (t.allocs k).mem) (t.allocs k)
  pub one_each :
      (i j x y : ℕ)
      → i < t.nallocs
      → j < t.nallocs
      → x < (t.allocs i).bytes
      → y < (t.allocs j).bytes
      → spot (t.allocs i) (g.mem (t.allocs i).mem).gran x
        ≡ spot (t.allocs j) (g.mem (t.allocs j).mem).gran y
      → (i ≡ j) × (x ≡ y)

-- A transfer moves nothing, and then there is a message unless there was nothing to move, or it is
-- one within an allocation.
pub record Aimed (g : Geometry) (t : Table) (card host n : ℕ) (res : List Chunk × Option Bad)
    : Type 0 where
  pub rec_index : ℕ
  pub there : rec_index < t.nallocs
  pub not_null : 0 < card
  pub low : (t.allocs rec_index).vbase ≤ card
  pub high : card + n ≤ (t.allocs rec_index).vbase + (t.allocs rec_index).bytes
  pub moved :
      Copied
        (t.allocs rec_index)
        (g.mem (t.allocs rec_index).mem).gran
        (card - (t.allocs rec_index).vbase)
        host
        n
        res.0
        res.1

abbrev pub Idle : ℕ → List Chunk × Option Bad → Type 0
Idle n res = (res.0 ≡ []) × (res.1 ≡ none → n ≡ 0)

module _ (Q : Queues) (w : Window) (some_size : 0 < w.max_xfer) (g : Geometry) (t : Table)
    (kept : Stored g t) where
  -- What the first round makes of a pointer that is not resolved.
  abbrev StopsAt : Resolved → Type 0
  StopsAt at =
      (now : List Chunk × ℕ × Option Bad) (rest : List Chunk × Option Bad)
      → copied at now rest ≡ ([], some (unresolved at))

  refused-Idle :
      (card host n : ℕ) (at : Resolved)
      → 0 < card
      → card < 2 ^ 64
      → 0 < host
      → resolve g t card n ≡ at
      → StopsAt at
      → Idle n (memcpy Q w g t card host n to_dev 0)
  unfolding memcpy copy_from is_other is_to
  refused-Idle card host n at pos word buf e stop = elim (Bool-cases (n == 0)) [
    | inl nothing ↦
        let a : (card == 0 || host == 0) ≡ false = ground (arith, pos, buf) in
        rw (a, nothing) (refl, λ h. ground (arith, nothing))
    | inr some_bytes ↦
        let a : (card == 0 || host == 0) ≡ false = ground (arith, pos, buf) in
        let more : ltb 0 n ≡ true = ground (arith, some_bytes) in
        let ptr : add64 card 0 ≡ card = omega (arith, word) in
        let len : n - 0 ≡ n = omega arith in
        let end : memcpy Q w g t card host n to_dev 0 ≡ ([], some (unresolved at)) =
          rw (a, some_bytes, more, ptr, len, e) (stop _ _) in
        (
          ap (λ r. r.0) end,
          λ h. absurd (let k : some (unresolved at) ≡ none = sym (ap (λ r. r.1) end) ∙ h in cc),
        )
  ]

  null-Idle : (host n : ℕ) → Idle n (memcpy Q w g t 0 host n to_dev 0)
  unfolding memcpy
  null-Idle host n = (refl, λ h. absurd cc)

  not_found : (card n : ℕ) → 0 < card → rec_lookup t card ≡ none → resolve g t card n ≡ not_inside
  unfolding resolve
  not_found card n pos missing =
      let a : (card == 0) ≡ false = ground (arith, pos) in rw (a, missing) refl

  stops_outside : StopsAt not_inside
  unfolding copied
  stops_outside now rest = refl

  stops_long : (left : ℕ) → StopsAt (too_long left)
  unfolding copied
  stops_long left now rest = refl

  aimed :
      (card host n k : ℕ)
      → 0 < host
      → 0 < card
      → k < t.nallocs
      → (t.allocs k).vbase ≤ card
      → card + n ≤ (t.allocs k).vbase + (t.allocs k).bytes
      → Aimed g t card host n (memcpy Q w g t card host n to_dev 0)
  unfolding is_to
  aimed card host n k buf pos there low high = record {
    rec_index = k;
    there = there;
    not_null = pos;
    low = low;
    high = high;
    moved =
        memcpy-Copied Q w some_size g t kept.ordered k there (kept.covers k there) to_dev card host
          n (λ e. cc) pos buf low high;
  }

  pub memcpy-cases :
      (card host n : ℕ)
      → card < 2 ^ 64
      → 0 < host
      → let res = memcpy Q w g t card host n to_dev 0 in Idle n res ⊎ Aimed g t card host n res
  memcpy-cases card host n word buf = elim (Bool-cases (card == 0)) [
    | inl null ↦ let e : card ≡ 0 = ground (arith, null) in inl (rw e (null-Idle host n))
    | inr real ↦
        let pos : 0 < card = ground (arith, real) in
        elim (lookup-cases t card kept.ordered) [
          | inl missing ↦ inl (
              refused-Idle card host n not_inside pos word buf (not_found card n pos missing)
                stops_outside)
          | inr (k, there, inside) ↦
              elim (Bool-cases (ltb ((t.allocs k).vbase + (t.allocs k).bytes) (card + n))) [
                | inl long ↦ inl (
                    refused-Idle card host n _ pos word buf
                      (usable-where_is t card k kept.ordered there inside pos g n
                        (ground (arith, long))).2
                      (stops_long _))
                | inr fits ↦ inr (aimed card host n k buf pos there inside.0 (ground (arith, fits)))
              ]
        ]
  ]
