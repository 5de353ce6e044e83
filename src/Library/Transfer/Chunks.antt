-- ===== src/Library/Transfer/Chunks.antt =====
-- `xfer` of sw/lib/pim_memcpy.c moves the bytes in order, from the first on, all of them or up to
-- the place that its message names.
use pim_sw.Common.{
  sym, ℕ, zero, suc, ◌+◌, ◌-◌, ◌^◌, ◌≤◌, ◌<◌, ◌≡◌, ◌⊎◌, refl, Option, none, some, arith, ltb, ◌==◌,
  Bool-cases, inl, inr, List, [], ◌∷◌, if◌then◌else◌, add64,
}
use pim_sw.Library.Transfer.{
  amount, answered, Dir, Returned, error, moved, Queues, Chunk, Bad, failed_at, stuck_at, xfer_from,
  xfer,
}

-- The calls move `n` bytes, from `axi` on the card and `host` in the host's memory on, in order, each
-- at least one byte and at most `most`.
abbrev pub Spans : ℕ → ℕ → ℕ → ℕ → List Chunk → Type 0
Spans most axi host n [] = n ≡ 0
Spans most axi host n (c ∷ l) =
    (c.card ≡ axi)
    × (c.host ≡ host)
    × (0 < c.size)
    × (c.size ≤ most)
    × (c.size ≤ n)
    × Spans most (axi + c.size) (host + c.size) (n - c.size) l

-- The message names the place on the card and the offset of the first byte that has not moved.
abbrev pub Names : Bad → ℕ → ℕ → Type 0
Names b axi at = (b ≡ failed_at axi at) ⊎ (b ≡ stuck_at axi at)

-- All `n` bytes have moved where there is no message; fewer where there is one, and it says so.
abbrev pub Told : Option Bad → ℕ → ℕ → ℕ → ℕ → Type 0
Told none m n axi at = m ≡ n
Told (some b) m n axi at = (m < n) × Names b (axi + m) (at + m)

pub Told-most : (bad : Option Bad) (m n axi at : ℕ) → Told bad m n axi at → m ≤ n
Told-most none m n axi at t = omega (arith, t)
Told-most (some b) m n axi at t = omega (arith, t.0)

-- `m` bytes have moved.
pub record Outcome (most axi host n at : ℕ) (calls : List Chunk) (bad : Option Bad) : Type 0 where
  pub m : ℕ
  pub spans : Spans most axi host m calls
  pub told : Told bad m n axi at

none_left : (most axi host n at : ℕ) → n ≡ 0 → Outcome most axi host n at [] none
none_left most axi host n at e = record { m = 0; spans = refl; told = sym e }

-- A round that fails has moved nothing.
gave_up :
    (most axi host n at : ℕ) (b : Bad)
    → 0 < n
    → Names b axi at
    → Outcome most axi host n at [] (some b)
gave_up most axi host n at b h names =
    let e : axi + 0 ≡ axi = omega arith in
    let f : at + 0 ≡ at = omega arith in record { m = 0; spans = refl; told = (h, rw (e, f) names) }

-- The message after a first call of `k` bytes.
Told-after :
    (bad : Option Bad) (m n axi at k : ℕ)
    → k ≤ n
    → Told bad m (n - k) (axi + k) (at + k)
    → Told bad (k + m) n axi at
Told-after none m n axi at k h t = omega (arith, h, t)
Told-after (some b) m n axi at k h (less, names) =
    let e : axi + (k + m) ≡ axi + k + m = omega arith in
    let f : at + (k + m) ≡ at + k + m = omega arith in (omega (arith, less), rw (e, f) names)

answered-Outcome :
    (most axi host n at i : ℕ) (a : Returned) (rest : List Chunk × ℕ × Option Bad)
    → 0 < n
    → axi + n < 2 ^ 64
    → amount a ≤ most
    → amount a ≤ n
    → (0 < amount a
        → Outcome most
            (add64 axi (amount a))
            (host + amount a)
            (n - amount a)
            (at + amount a)
            rest.0
            rest.2)
    → Outcome most axi host n at (answered a i axi host at rest).0 (answered a i axi host at rest).2
unfolding answered amount
answered-Outcome most axi host n at i error rest pos w low few ih =
    gave_up most axi host n at (failed_at axi at) pos (inl refl)
answered-Outcome most axi host n at i (moved k) rest pos w low few ih = elim (Bool-cases (k == 0)) [
  | inl h ↦ rw h (gave_up most axi host n at (stuck_at axi at) pos (inr refl))
  | inr h ↦
      let some_k : 0 < k = ground (arith, h) in
      let next : add64 axi k ≡ axi + k = omega (arith, w, few) in
      let x = rw next at (ih some_k) in
      rw h (record {
        m = k + x.m;
        spans =
            let back : k + x.m - k ≡ x.m = omega arith in
            (refl, refl, some_k, low, omega arith, rw back x.spans);
        told = Told-after rest.2 x.m n axi at k few x.told;
      })
]

within_want : (a : Returned) (want : ℕ) → ((k : ℕ) → a ≡ moved k → k ≤ want) → amount a ≤ want
unfolding amount
within_want error want h = omega arith
within_want (moved k) want h = h k refl

module _ (Q : Queues) (max_xfer : ℕ) (some_size : 0 < max_xfer) (dir : Dir) where
  open Q use {call, within_request}

  xfer_from-Outcome :
      (fuel i axi host n at : ℕ)
      → n < fuel
      → axi + n < 2 ^ 64
      → let (calls, j, bad) = xfer_from Q fuel max_xfer i dir axi host n at in
        Outcome max_xfer axi host n at calls bad
  unfolding xfer_from
  xfer_from-Outcome zero i axi host n at h w = absurd (omega (arith, h))
  xfer_from-Outcome (suc fuel) i axi host n at h w = elim (Bool-cases (n == 0)) [
    | inl z ↦ rw z (none_left max_xfer axi host n at (ground (arith, z)))
    | inr z ↦
        let want = if ltb max_xfer n then max_xfer else n in
        let a = call i dir axi host want in
        let k = amount a in
        let few = within_want a want (λ m e. within_request i dir axi host want m e) in
        let rest =
          xfer_from Q fuel max_xfer (i + 1) dir (add64 axi k) (host + k) (n - k) (at + k) in
        rw z (
          answered-Outcome max_xfer axi host n at i a rest (ground (arith, z)) w
            (ground (arith, few)) (ground (arith, few))
            (λ pos.
              xfer_from-Outcome fuel (i + 1) (add64 axi k) (host + k) (n - k) (at + k)
                (ground (arith, h, pos, z)) (ground (arith, w, few))))
  ]

  -- On a card whose addresses do not wrap and with a bound of at least one byte for a call, `xfer`
  -- ends: either all `n` bytes have moved, in order and by calls within the bound, or fewer have and
  -- the message names the first that has not.
  pub xfer-Outcome :
      (i axi host n at : ℕ)
      → axi + n < 2 ^ 64
      → let (calls, j, bad) = xfer Q max_xfer i dir axi host n at in
        Outcome max_xfer axi host n at calls bad
  unfolding xfer
  xfer-Outcome i axi host n at w = xfer_from-Outcome (suc n) i axi host n at (omega arith) w
