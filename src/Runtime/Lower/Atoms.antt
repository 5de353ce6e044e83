-- ===== src/Runtime/Lower/Atoms.antt =====
-- `pim_lower_atoms` of sw/runtime/pim_lower.c: where the atoms are in the lowered program.
use native.Mathlib.Nat.{mul-le-mul_right}
use pim_sw.Common.{
  ℕ, ◌+◌, ◌*◌, ◌^◌, ◌≤◌, ◌<◌, ◌≡◌, refl, subst, List, [], ◌∷◌, length, All, ltb, u32, arith,
}
use pim_sw.Runtime.Lower.{
  Ref, Atom, Logical, accepted, growth, map_atom, map_atoms, lower_atoms, atoms_too_many,
}
use pim_sw.Runtime.Lower.Built.{below, InProgram, Built, place, place_fits, mapped-place}
use pim_sw.Runtime.Lower.Placed.{checked, accepted-inj}

below_mono : (i j : ℕ) (refs : List Ref) → i ≤ j → below i refs ≤ below j refs
below_mono i j [] h = omega arith
below_mono i j (r ∷ refs) h = ground (arith, below_mono i j refs h)

-- An atom of the lowered program is not empty, begins where its first instruction does and ends
-- where the instruction after its last one begins.
abbrev pub Moved : Logical → Atom → Atom → Type 0
Moved lp a b =
    (b.first ≡ place lp a.first) × (b.first ≤ b.last) × (b.last + 1 ≡ place lp (a.last + 1))

abbrev pub AllMoved : Logical → List Atom → List Atom → Type 0
AllMoved lp [] [] = Unit
AllMoved lp [] (b ∷ l) = ⊥
AllMoved lp (a ∷ k) [] = ⊥
AllMoved lp (a ∷ k) (b ∷ l) = Moved lp a b × AllMoved lp k l

pub place-le : (lp : Logical) (i j : ℕ) → i ≤ j → place lp i ≤ place lp j
place-le lp i j h =
    omega (arith, h, mul-le-mul_right (growth lp) (below_mono i j lp.ref (omega (arith, h))))

place_later : (lp : Logical) (i j : ℕ) → i < j → place lp i < place lp j
place_later lp i j h =
    omega (arith, h, mul-le-mul_right (growth lp) (below_mono i j lp.ref (omega (arith, h))))

module _ (lp : Logical) (built : Built lp)
    (fits : length lp.isr + lp.nsplit * growth lp + 1 < 2 ^ 32) where
  map_atom-Moved : (a : Atom) → InProgram (length lp.isr) a → Moved lp a (map_atom lp a)
  unfolding map_atom
  map_atom-Moved a (order, inside) =
      let n = a.last + 1 in
      let whole : length lp.isr + lp.nsplit * growth lp < 2 ^ 32 = omega (arith, fits) in
      let word : u32 n ≡ n = omega (arith, fits, inside) in
      let at = mapped-place lp built whole n (omega (arith, inside)) in
      let from = mapped-place lp built whole a.first (omega (arith, order, inside)) in
      let later = place_later lp a.first n (omega (arith, order)) in
      let bound = place_fits lp built whole n (omega (arith, inside)) in
      rw word (rw (at, from) (refl, omega (arith, later, bound), omega (arith, later, bound)))

  all-AllMoved :
      (l : List Atom) → All (InProgram (length lp.isr)) l → AllMoved lp l (map_atoms lp l)
  unfolding map_atoms
  all-AllMoved [] h = tt
  all-AllMoved (a ∷ l) (h, rest) = (map_atom-Moved a h, all-AllMoved l rest)

  -- In a program that the calls have built, whose lowered length is less than a 32-bit number holds,
  -- each atom that is reported covers, in order, just what its instructions become: from the place of
  -- the first to before the place of the one after the last, which is never empty.
  pub lower_atoms-AllMoved :
      (cap : ℕ) (l : List Atom) → lower_atoms lp cap ≡ accepted l → AllMoved lp lp.atom l
  unfolding lower_atoms
  lower_atoms-AllMoved cap l h =
      let (room, e) =
        checked (ltb cap (length lp.atom)) atoms_too_many (accepted (map_atoms lp lp.atom)) h in
      subst (AllMoved lp lp.atom) (accepted-inj e) (all-AllMoved lp.atom built.atoms)
