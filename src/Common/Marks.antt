-- ===== src/Common/Marks.antt =====
-- Sets of numbers as tests, and the lists that enter them or leave them one by one.
use pim_sw.Common.Tests.{◌==◌, update, Bool-cases}
use Prim.Native.Nat.{ℕ}
use mathlib.Core.Path.{◌≡◌, refl, fun_ext}
use mathlib.Core.Bool.{Bool, true, false, ◌||◌, ◌&&◌, not}
use mathlib.Core.Logic.{inl, inr}
use mathlib.Core.List.{List, [], ◌∷◌, ◌++◌}
use native.Mathlib.Omega.{arith}

abbrev pub mark : List ℕ → (ℕ → Bool) → ℕ → Bool
mark [] s = s
mark (x ∷ l) s = mark l (update s x true)

abbrev pub unmark : List ℕ → (ℕ → Bool) → ℕ → Bool
unmark [] s = s
unmark (x ∷ l) s = unmark l (update s x false)

-- Each number is outside the set when its turn to enter comes.
abbrev pub Fresh : List ℕ → (ℕ → Bool) → Type 0
Fresh [] s = Unit
Fresh (x ∷ l) s = (s x ≡ false) × Fresh l (update s x true)

pub mark-append : (xs ys : List ℕ) (s : ℕ → Bool) → mark (xs ++ ys) s ≡ mark ys (mark xs s)
mark-append [] ys s = refl
mark-append (x ∷ xs) ys s = mark-append xs ys (update s x true)

pub Fresh-append :
    (xs ys : List ℕ) (s : ℕ → Bool) → Fresh xs s → Fresh ys (mark xs s) → Fresh (xs ++ ys) s
Fresh-append [] ys s p q = q
Fresh-append (x ∷ xs) ys s p q = (p.0, Fresh-append xs ys (update s x true) p.1 q)

abbrev pub mem : ℕ → List ℕ → Bool
mem a [] = false
mem a (x ∷ l) = a == x || mem a l

pub mark-mem : (l : List ℕ) (s : ℕ → Bool) (a : ℕ) → mark l s a ≡ (s a || mem a l)
mark-mem [] s a = ground arith
mark-mem (x ∷ l) s a = ground (arith, mark-mem l (update s x true) a)

pub unmark-mem : (l : List ℕ) (s : ℕ → Bool) (a : ℕ) → unmark l s a ≡ (s a && not (mem a l))
unmark-mem [] s a = ground arith
unmark-mem (x ∷ l) s a = ground (arith, unmark-mem l (update s x false) a)

pub Fresh-mem : (l : List ℕ) (s : ℕ → Bool) (a : ℕ) → Fresh l s → mem a l ≡ true → s a ≡ false
Fresh-mem [] s a f h = absurd (ground (arith, h))
Fresh-mem (x ∷ l) s a f h = elim (Bool-cases (a == x)) [
  | inl e ↦ let q : a ≡ x = ground (arith, e) in rw q f.0
  | inr e ↦ ground (arith, e, h, Fresh-mem l (update s x true) a f.1)
]

-- A list that entered and leaves again has changed nothing.
pub unmark-mark : (l : List ℕ) (s : ℕ → Bool) → Fresh l s → unmark l (mark l s) ≡ s
unmark-mark l s f =
    fun_ext (λ a. ground (arith, unmark-mem l (mark l s) a, mark-mem l s a, Fresh-mem l s a f))

pub mem-append : (xs ys : List ℕ) (a : ℕ) → mem a (xs ++ ys) ≡ (mem a xs || mem a ys)
mem-append [] ys a = ground arith
mem-append (x ∷ xs) ys a = ground (arith, mem-append xs ys a)

pub Fresh-split :
    (xs ys : List ℕ) (s : ℕ → Bool) → Fresh (xs ++ ys) s → Fresh xs s × Fresh ys (mark xs s)
Fresh-split [] ys s f = (tt, f)
Fresh-split (x ∷ xs) ys s f = let (g, h) = Fresh-split xs ys (update s x true) f.1 in ((f.0, g), h)

pub Fresh-out : (l : List ℕ) (s : ℕ → Bool) (a : ℕ) → Fresh l s → s a ≡ true → mem a l ≡ false
Fresh-out l s a f h = elim (Bool-cases (mem a l)) [
  | inr e ↦ e
  | inl e ↦ absurd (ground (arith, Fresh-mem l s a f e, h))
]

-- What is in the set stays in it.
pub mark-keeps : (l : List ℕ) (s : ℕ → Bool) (a : ℕ) → s a ≡ true → mark l s a ≡ true
mark-keeps l s a h = ground (arith, mark-mem l s a, h)
