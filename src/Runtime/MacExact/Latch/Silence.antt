-- ===== src/Runtime/MacExact/Latch/Silence.antt =====
-- Lanes with a factor of zero, in sw/runtime/pim_mac_exact.c: what the other factor is does not
-- show in the result.
use pim_sw.Common.{
  ℕ, zero, suc, ◌+◌, ◌*◌, ◌/◌, ◌%◌, ◌^◌, ◌<◌, ◌≡◌, ◌⊎◌, inl, inr, refl, sym, ◌∙◌, ap, Bool, true,
  false, ◌&&◌, ◌||◌, not, List, ltb, ltb_ℤ, if◌then◌else◌, arith, Bool-cases, ltb→lt, u32, ℤ, pos,
  sub_ℕ, ◌+ℤ◌,
}
use native.Mathlib.Nat.{zero-div}
use pim_sw.Runtime.MacExact.{
  is_zero, is_inf, is_nan, product_nan, product_inf, product_zero, multiply, Lane, lanes, any,
  beat_of, max_exp, max_from, sum_from, aligned, ingest,
}
use pim_sw.Runtime.MacExact.Latch.{Latch, empty_latch, accumulate, beats_from, to_bf16, mac_exact}

-- Lanes that are the same, but that the sign is any where they add nothing.
record Alike (l l' : Lane) : Type 0 where
  exponents : l.exp ≡ l'.exp
  mantissas : l.man ≡ l'.man
  infinite : l.inf ≡ l'.inf
  none : l.nan ≡ l'.nan
  signs : (l.sign ≡ l'.sign) ⊎ ((l.man ≡ 0) × (l.inf ≡ false))

-- Of two numbers one is zero and the other finite.
pub record Vanishes (a b : ℕ) : Type 0 where
  pub zero_factor : (is_zero a || is_zero b) ≡ true
  pub first : (is_inf a || is_nan a) ≡ false
  pub second : (is_inf b || is_nan b) ≡ false

-- The lane that such a product gives.
record Silent (l : Lane) : Type 0 where
  exponent : l.exp ≡ pos 0
  mantissa : l.man ≡ 0
  finite : l.inf ≡ false
  number : l.nan ≡ false

flags_vanish :
    (za zb ia ib na nb : Bool)
    → (za || zb) ≡ true
    → (ia || na) ≡ false
    → (ib || nb) ≡ false
    → ((na || nb || (za && ib || ia && zb)) ≡ false) × ((ia || ib) ≡ false)
flags_vanish za zb ia ib na nb z a b = ground arith

multiply-Silent : (a b : ℕ) → Vanishes a b → Silent (multiply a b)
unfolding multiply product_nan product_inf product_zero
multiply-Silent a b v =
    let flags =
      flags_vanish (is_zero a) (is_zero b) (is_inf a) (is_inf b) (is_nan a) (is_nan b) v.zero_factor
        v.first v.second in
    let n = flags.0 in
    let i = flags.1 in
    let z = v.zero_factor in
    record {
      exponent = rw (n, i, z) refl;
      mantissa = rw (n, i, z) refl;
      finite = rw (n, i) refl;
      number = n;
    }

both_quiet : (l l' : Lane) → Silent l → Silent l' → Alike l l'
both_quiet l l' s s' = record {
  exponents = s.exponent ∙ sym s'.exponent;
  mantissas = s.mantissa ∙ sym s'.mantissa;
  infinite = s.finite ∙ sym s'.finite;
  none = s.number ∙ sym s'.number;
  signs = inr (s.mantissa, s.finite);
}

same_lane : (l : Lane) → Alike l l
same_lane l = record {
  exponents = refl;
  mantissas = refl;
  infinite = refl;
  none = refl;
  signs = inl refl;
}

with_sign :
    (f : Bool → Bool) (l l' : Lane) → Alike l l' → (l.inf && f l.sign) ≡ (l'.inf && f l'.sign)
with_sign f l l' a = elim a.signs [
  | inl e ↦ rw (a.infinite, e) refl
  | inr (m, i) ↦ let i' : l'.inf ≡ false = sym a.infinite ∙ i in rw (i, i') refl
]

no_shift : (over : Bool) (n d : ℕ) → n ≡ 0 → (if over then 0 else n % 2 ^ 16 * 2 ^ 8 / d) ≡ 0
no_shift true n d e = refl
no_shift false n d e = rw e (zero-div d)

aligned_zero : (m : ℤ) (l : Lane) → l.man ≡ 0 → aligned m l ≡ 0
unfolding aligned
aligned_zero m l e = no_shift _ l.man _ e

same_aligned : (m : ℤ) (l l' : Lane) → Alike l l' → aligned m l ≡ aligned m l'
unfolding aligned
same_aligned m l l' a = rw (a.exponents, a.mantissas) refl

abbrev signed : Bool → ℕ → ℤ
signed s n = if s then sub_ℕ 0 n else pos n

signed_zero : (s : Bool) → signed s 0 ≡ pos 0
signed_zero true = refl
signed_zero false = refl

term : ℤ → Lane → ℤ
term m l = signed l.sign (aligned m l)

term_zero : (m : ℤ) (l : Lane) → l.man ≡ 0 → term m l ≡ pos 0
unfolding term
term_zero m l e = ap (λ a. signed l.sign a) (aligned_zero m l e) ∙ signed_zero l.sign

same_term : (m : ℤ) (l l' : Lane) → Alike l l' → term m l ≡ term m l'
unfolding term
same_term m l l' a = elim a.signs [
  | inl e ↦ ap (λ s. signed s (aligned m l)) e ∙ ap (λ n. signed l'.sign n) (same_aligned m l l' a)
  | inr (z, i) ↦ term_zero m l z ∙ sym (term_zero m l' (sym a.mantissas ∙ z))
]

same_beat :
    (ls ls' : List Lane)
    → max_exp ls ≡ max_exp ls'
    → ((m : ℤ) → sum_from m (pos 0) ls ≡ sum_from m (pos 0) ls')
    → ((p : Lane → Bool) → ((l l' : Lane) → Alike l l' → p l ≡ p l') → any p ls ≡ any p ls')
    → beat_of ls ≡ beat_of ls'
unfolding beat_of
same_beat ls ls' e f g =
    let pinf = g (λ l. l.inf && not l.sign) (λ l l' a. with_sign not l l' a) in
    let ninf = g (λ l. l.inf && l.sign) (λ l l' a. with_sign (λ b. b) l l' a) in
    let nan = g (λ l. l.nan) (λ l l' a. a.none) in
    let gather = λ (m s : ℤ) (p n a : Bool).
      ingest m s ((p || n) && not (a || (p && n))) (a || (p && n))
        (if (a || (p && n)) then false else if p then false else true) in
    ap
      (λ m.
        gather m (sum_from m (pos 0) ls) (any (λ l. l.inf && not l.sign) ls)
          (any (λ l. l.inf && l.sign) ls) (any (λ l. l.nan) ls))
      e
    ∙ ap
        (λ s.
          gather (max_exp ls') s (any (λ l. l.inf && not l.sign) ls) (any (λ l. l.inf && l.sign) ls)
            (any (λ l. l.nan) ls))
        (f (max_exp ls'))
    ∙ ap
        (λ p.
          gather (max_exp ls') (sum_from (max_exp ls') (pos 0) ls') p
            (any (λ l. l.inf && l.sign) ls) (any (λ l. l.nan) ls))
        pinf
    ∙ ap
        (λ p.
          gather (max_exp ls') (sum_from (max_exp ls') (pos 0) ls')
            (any (λ l. l.inf && not l.sign) ls') p (any (λ l. l.nan) ls))
        ninf
    ∙ ap
        (λ p.
          gather (max_exp ls') (sum_from (max_exp ls') (pos 0) ls')
            (any (λ l. l.inf && not l.sign) ls') (any (λ l. l.inf && l.sign) ls') p)
        nan

abbrev lane : (ℕ → ℕ) → (ℕ → ℕ) → ℕ → ℕ → Lane
lane w x k i = multiply (if ltb i k then w i else 0) (if ltb i k then x i else 0)

-- Operands of which each lane is alike.
module _ (w x w' x' : ℕ → ℕ) (k : ℕ) (h : (i : ℕ) → Alike (lane w x k i) (lane w' x' k i)) where
  maxima : (n idx : ℕ) (m : ℤ) → max_from m (lanes n idx w x k) ≡ max_from m (lanes n idx w' x' k)
  unfolding lanes max_from
  maxima zero idx m = refl
  maxima (suc n) idx m =
      rw (h idx).exponents
        (maxima n (idx + 1) (if ltb_ℤ m (lane w' x' k idx).exp then (lane w' x' k idx).exp else m))

  sums :
      (n idx : ℕ) (m s : ℤ) → sum_from m s (lanes n idx w x k) ≡ sum_from m s (lanes n idx w' x' k)
  unfolding lanes sum_from term
  sums zero idx m s = refl
  sums (suc n) idx m s =
      ap (λ t. sum_from m (s +ℤ t) (lanes n (idx + 1) w x k))
        (same_term m (lane w x k idx) (lane w' x' k idx) (h idx))
      ∙ sums n (idx + 1) m (s +ℤ term m (lane w' x' k idx))

  flags :
      (p : Lane → Bool)
      → ((l l' : Lane) → Alike l l' → p l ≡ p l')
      → (n idx : ℕ) → any p (lanes n idx w x k) ≡ any p (lanes n idx w' x' k)
  unfolding lanes any
  flags p q zero idx = refl
  flags p q (suc n) idx =
      rw (q (lane w x k idx) (lane w' x' k idx) (h idx), flags p q n (idx + 1)) refl

  beat_eq : (idx : ℕ) → beat_of (lanes 16 idx w x k) ≡ beat_of (lanes 16 idx w' x' k)
  unfolding lanes max_exp
  beat_eq idx =
      same_beat (lanes 16 idx w x k) (lanes 16 idx w' x' k)
        (ap (λ m. max_from m (lanes 15 (idx + 1) w x k)) (h idx).exponents
          ∙ maxima 15 (idx + 1) (lane w' x' k idx).exp)
        (λ m. sums 16 idx m (pos 0)) (λ p q. flags p q 16 idx)

  same_latches : (n idx : ℕ) (l : Latch) → beats_from n idx w x k l ≡ beats_from n idx w' x' k l
  unfolding beats_from
  same_latches zero idx l = refl
  same_latches (suc n) idx l =
      ap (λ b. beats_from n (idx + 16) w x k (accumulate l b)) (beat_eq idx)
      ∙ same_latches n (idx + 16) (accumulate l (beat_of (lanes 16 idx w' x' k)))

abbrev pub Replaced : (w x w' x' : ℕ → ℕ) → ℕ → Type 0
Replaced w x w' x' i =
    ((w i ≡ w' i) × (x i ≡ x' i)) ⊎ (Vanishes (w i) (x i) × Vanishes (w' i) (x' i))

each_lane :
    (w x w' x' : ℕ → ℕ) (k : ℕ)
    → ((i : ℕ) → i < k → Replaced w x w' x' i)
    → (i : ℕ) → Alike (lane w x k i) (lane w' x' k i)
each_lane w x w' x' k h i = elim (Bool-cases (ltb i k)) [
  | inl inside ↦ rw inside (elim (h i (ltb→lt i k inside)) [
    | inl (e, f) ↦ rw (e, f) (same_lane (multiply (w' i) (x' i)))
    | inr (v, v') ↦
        both_quiet (multiply (w i) (x i)) (multiply (w' i) (x' i)) (multiply-Silent (w i) (x i) v)
          (multiply-Silent (w' i) (x' i) v')
  ])
  | inr outside ↦ rw outside (same_lane (multiply 0 0))
]

-- A pair of which one number is zero and the other finite may be replaced by any other such pair
-- without a change of the result, a zero's sign included: so the finite numbers that a buffer holds
-- against the zeros of a padding do not show.
pub zeros_silence :
    (w x w' x' : ℕ → ℕ) (k : ℕ)
    → ((i : ℕ) → i < k → Replaced w x w' x' i)
    → mac_exact w x k ≡ mac_exact w' x' k
unfolding mac_exact
zeros_silence w x w' x' k h =
    ap to_bf16
      (same_latches w x w' x' k (each_lane w x w' x' k h) (u32 (k + 15) / 16) 0 empty_latch)
