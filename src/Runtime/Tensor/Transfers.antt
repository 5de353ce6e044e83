-- ===== src/Runtime/Tensor/Transfers.antt =====
-- The transfer that sw/runtime/pim_tensor.c calls is `pim_memcpy_ctx` of sw/lib/pim_memcpy.c: on the
-- model of it in Library/Transfer.antt the interface `Card` has its laws.
use pim_sw.Common.{
  ℕ, zero, suc, ◌+◌, ◌-◌, ◌*◌, ◌/◌, ◌%◌, ◌^◌, ◌≤◌, ◌<◌, ◌≡◌, ◌⊎◌, inl, inr, refl, sym, ◌∙◌, ap,
  subst, true, false, Option, none, some, List, [], ◌∷◌, length, get_elem?, ltb, ◌==◌,
  if◌then◌else◌, arith, Bool-cases,
}
use pim_sw.Library.Geometry.{Geometry}
use pim_sw.Library.Records.{Table, rec_lookup}
use pim_sw.Library.Records.Lookup.{Inside, lookup-cases}
use pim_sw.Library.Resolve.{Resolved, found, resolve}
use pim_sw.Library.Resolve.Pointer.{resolve-run}
use pim_sw.Library.Transfer.{Queues, Chunk, Bad, Window, to_dev, memcpy}
use pim_sw.Library.Transfer.Copy.{Counted}
use pim_sw.Library.Transfer.Effect.{
  store_all, store_all-other, store_all-here, spot, Stored, Aimed, Idle, memcpy-cases,
}
use pim_sw.Runtime.Tensor.{Card}
use pim_sw.Runtime.Tensor.Scatter.{Lawful}

-- The `i`-th number of a list, 0 behind its end.
nth : List ℕ → ℕ → ℕ
nth [] i = 0
nth (x ∷ xs) zero = x
nth (x ∷ xs) (suc i) = nth xs i

-- The bytes of a list of 16-bit numbers that stands at `at`, the low byte of each first. What a number
-- has above 16 bits would stand in its upper byte.
host_bytes : ℕ → List ℕ → ℕ → ℕ
unfolding nth
host_bytes at xs p = let x = nth xs ((p - at) / 2) in if (p - at) % 2 == 0 then x % 256 else x / 256

-- The byte on the card that a byte of an allocation has; 0 for a pointer to none.
seen_at : (ℕ → ℕ) → Resolved → ℕ
seen_at s (found mem axi off run) = s axi
seen_at s r = 0

nth-get : (xs : List ℕ) (i v : ℕ) → get_elem? xs i ≡ some v → (nth xs i ≡ v) × (i < length xs)
unfolding nth
nth-get [] i v e = absurd cc
nth-get (x ∷ xs) zero v e = (cc, omega arith)
nth-get (x ∷ xs) (suc i) v e = let (a, b) = nth-get xs i v e in (a, omega (arith, b))

low_byte : (at : ℕ) (xs : List ℕ) (i v : ℕ) → nth xs i ≡ v → host_bytes at xs (at + 2 * i) ≡ v % 256
unfolding host_bytes
low_byte at xs i v e =
    let a : (at + 2 * i - at) / 2 ≡ i = omega arith in
    let b : ((at + 2 * i - at) % 2 == 0) ≡ true = ground arith in rw (b, a, e) refl

high_byte :
    (at : ℕ) (xs : List ℕ) (i v : ℕ) → nth xs i ≡ v → host_bytes at xs (at + (2 * i + 1)) ≡ v / 256
unfolding host_bytes
high_byte at xs i v e =
    let a : (at + (2 * i + 1) - at) / 2 ≡ i = omega arith in
    let b : ((at + (2 * i + 1) - at) % 2 == 0) ≡ false = ground arith in rw (b, a, e) refl

first_apart : (a n b : ℕ) → (b + 2 ≤ a) ⊎ (a + n ≤ b) → (b < a) ⊎ (a + n ≤ b)
first_apart a n b (inl h) = inl (omega (arith, h))
first_apart a n b (inr h) = inr h

second_apart : (a n b : ℕ) → (b + 2 ≤ a) ⊎ (a + n ≤ b) → (b + 1 < a) ⊎ (a + n ≤ b + 1)
second_apart a n b (inl h) = inl (omega (arith, h))
second_apart a n b (inr h) = inr (omega (arith, h))

moved_le : (bad : Option Bad) (m n : ℕ) → Counted bad m n → m ≤ n
moved_le none m n h = omega (arith, h)
moved_le (some b) m n h = omega (arith, h)

-- The staging buffer stands at `buf`. A number that is no 64-bit pointer is taken for NULL.
module _ (Q : ℕ → Queues) (w : Window) (some_size : 0 < w.max_xfer) (g : Geometry) (t : Table)
    (buf : ℕ) (real : 0 < buf) where
  abbrev pointer : ℕ → ℕ
  pointer a = if ltb a (2 ^ 64) then a else 0

  byte_at : (ℕ → ℕ) → ℕ → ℕ
  unfolding seen_at
  byte_at s p = seen_at s (resolve g t p 1)

  -- The calls of the transfer number `turn`, and its message.
  abbrev answer : ℕ → ℕ → List ℕ → List Chunk × Option Bad
  answer turn a xs = memcpy (Q turn) w g t (pointer a) buf (2 * length xs) to_dev 0

  -- The state is the number of transfers made and the bytes on the card.
  unfoldable pub transfers : Card
  unfolding byte_at host_bytes
  transfers = record {
    St = ℕ × (ℕ → ℕ);
    Fault = Bad;
    elem = λ s a. byte_at s.1 a + 256 * byte_at s.1 (a + 1);
    write = λ s a xs.
        let res = answer s.0 a xs in ((s.0 + 1, store_all (host_bytes buf xs) res.0 s.1), res.1);
  }

  -- The card before the first transfer, with the same number in every byte.
  pub filled_with : ℕ → transfers.St
  unfolding transfers
  filled_with v = (0, λ _. v)

  module _ (kept : Stored g t) where
    -- A byte of an allocation is seen at its place.
    byte_at_lem :
        (s : ℕ → ℕ) (p k : ℕ)
        → k < t.nallocs
        → Inside (t.allocs k) p
        → 0 < p
        → byte_at s p ≡ s (spot (t.allocs k) (g.mem (t.allocs k).mem).gran (p - (t.allocs k).vbase))
    unfolding byte_at seen_at
    byte_at_lem s p k there inside pos =
        let (axi, run, e, some_run, most, bytes) =
          resolve-run t p k kept.ordered there inside pos g 1 (kept.covers k there) (omega arith)
            (omega (arith, inside.1)) in
        let b : axi + 0 ≡ axi = omega arith in
        let o : p - (t.allocs k).vbase + 0 ≡ p - (t.allocs k).vbase = omega arith in
        rw e (ap s (sym b ∙ rw o at (bytes 0 some_run)))

    nothing_there : (s : ℕ → ℕ) (p : ℕ) → rec_lookup t p ≡ none → byte_at s p ≡ 0
    unfolding byte_at seen_at resolve
    nothing_there s p e = elim (Bool-cases (p == 0)) [
      | inl null ↦ rw null refl
      | inr real ↦ rw (real, e) refl
    ]

    null_byte : (s : ℕ → ℕ) → byte_at s 0 ≡ 0
    unfolding byte_at seen_at resolve
    null_byte s = refl

    spared :
        (a n : ℕ) (res : List Chunk × Option Bad) (mem s : ℕ → ℕ) (p : ℕ)
        → Aimed g t a buf n res
        → (p < a) ⊎ (a + n ≤ p)
        → byte_at (store_all mem res.0 s) p ≡ byte_at s p
    spared a n res mem s p h away = elim (lookup-cases t p kept.ordered) [
      | inl missing ↦
          nothing_there (store_all mem res.0 s) p missing ∙ sym (nothing_there s p missing)
      | inr (j, there, inside) ↦ elim (Bool-cases (p == 0)) [
        | inl null ↦
            let e : p ≡ 0 = ground (arith, null) in
            rw e (null_byte (store_all mem res.0 s) ∙ sym (null_byte s))
        | inr some_place ↦
            let pos : 0 < p = ground (arith, some_place) in
            let k = h.rec_index in
            let r = t.allocs k in
            let few : h.moved.m ≤ n = moved_le res.1 h.moved.m n h.moved.counted in
            byte_at_lem (store_all mem res.0 s) p j there inside pos
            ∙ store_all-other r (g.mem r.mem).gran mem (a - r.vbase) buf h.moved.m res.0 s _
                h.moved.placed
                (λ b q e.
                  let (same, at) =
                    kept.one_each j k (p - (t.allocs j).vbase) (a - r.vbase + b) there h.there
                      (omega (arith, inside.0, inside.1)) (omega (arith, h.low, h.high, q, few))
                      e in
                  let base : (t.allocs j).vbase ≡ r.vbase = ap (λ i. (t.allocs i).vbase) same in
                  elim away [
                    | inl before ↦ absurd (omega (arith, before, at, base, h.low, inside.0))
                    | inr after ↦ absurd (omega (arith, after, at, base, h.low, inside.0, q, few))
                  ])
            ∙ sym (byte_at_lem s p j there inside pos)
      ]
    ]

    landed :
        (a n : ℕ) (res : List Chunk × Option Bad) (mem s : ℕ → ℕ) (b : ℕ)
        → Aimed g t a buf n res
        → res.1 ≡ none
        → b < n
        → byte_at (store_all mem res.0 s) (a + b) ≡ mem (buf + b)
    landed a n res mem s b h done less =
        let k = h.rec_index in
        let r = t.allocs k in
        let all : h.moved.m ≡ n = subst (λ x. Counted x h.moved.m n) done h.moved.counted in
        let at : a + b - r.vbase ≡ a - r.vbase + b = omega (arith, h.low) in
        byte_at_lem (store_all mem res.0 s) (a + b) k h.there
          (omega (arith, h.low), omega (arith, h.high, less)) (omega (arith, h.not_null))
        ∙ ap (λ x. store_all mem res.0 s (spot r (g.mem r.mem).gran x)) at
        ∙ store_all-here r (g.mem r.mem).gran mem (a - r.vbase) buf h.moved.m res.0 s b
            (λ x y p q e. (kept.one_each k k x y h.there h.there p q e).1)
            (omega (arith, all, h.low, h.high)) h.moved.placed (omega (arith, less, all))

    -- Whether it moves anything or not, a transfer has been told the pointer that it was given.
    answered_cases :
        (turn a : ℕ) (xs : List ℕ)
        → Idle (2 * length xs) (answer turn a xs)
          ⊎ Aimed g t a buf (2 * length xs) (answer turn a xs)
    answered_cases turn a xs =
        elim (memcpy-cases (Q turn) w some_size g t kept (pointer a) buf (2 * length xs)
          (ground arith) real) [
            | inl idle ↦ inl idle
            | inr h ↦
                let e : pointer a ≡ a = ground (arith, h.not_null) in
                inr (subst (λ c. Aimed g t c buf (2 * length xs) (answer turn a xs)) e h)
          ]

    byte_kept :
        (turn a : ℕ) (xs : List ℕ) (s : ℕ → ℕ) (p : ℕ)
        → (p < a) ⊎ (a + 2 * length xs ≤ p)
        → byte_at (store_all (host_bytes buf xs) (answer turn a xs).0 s) p ≡ byte_at s p
    unfolding store_all
    byte_kept turn a xs s p away = elim (answered_cases turn a xs) [
      | inl idle ↦ ap (λ l. byte_at (store_all (host_bytes buf xs) l s) p) idle.0
      | inr h ↦ spared a (2 * length xs) (answer turn a xs) (host_bytes buf xs) s p h away
    ]

    byte_written :
        (turn a : ℕ) (xs : List ℕ) (s : ℕ → ℕ) (b : ℕ)
        → (answer turn a xs).1 ≡ none
        → b < 2 * length xs
        → byte_at (store_all (host_bytes buf xs) (answer turn a xs).0 s) (a + b)
          ≡ host_bytes buf xs (buf + b)
    byte_written turn a xs s b done less = elim (answered_cases turn a xs) [
      | inl idle ↦ absurd (omega (arith, idle.1 done, less))
      | inr h ↦ landed a (2 * length xs) (answer turn a xs) (host_bytes buf xs) s b h done less
    ]

    -- The library's transfers keep the laws that the tensors rely on, for a table of allocations each
    -- byte of which has a place on the card of its own, whatever the queue answers.
    pub transfers-Lawful : Lawful transfers
    unfolding transfers
    transfers-Lawful = record {
      written = λ s a xs done i v e.
          let (is, less) = nth-get xs i v e in
          let next : a + 2 * i + 1 ≡ a + (2 * i + 1) = omega arith in
          let low =
            byte_written s.0 a xs s.1 (2 * i) done (omega (arith, less)) ∙ low_byte buf xs i v is in
          let high =
            byte_written s.0 a xs s.1 (2 * i + 1) done (omega (arith, less))
            ∙ high_byte buf xs i v is in
          rw next (omega (arith, low, high));
      kept = λ s a xs b away.
          let first = byte_kept s.0 a xs s.1 b (first_apart a (2 * length xs) b away) in
          let second = byte_kept s.0 a xs s.1 (b + 1) (second_apart a (2 * length xs) b away) in
          rw (first, second) refl;
    }
