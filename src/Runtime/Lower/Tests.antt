-- ===== src/Runtime/Lower/Tests.antt =====
-- A program of two instructions, the second of which is split over two channels, lowered on a card
-- with a buffer of the GPR.
use pim_sw.Common.{
  ℕ, zero, suc, inl, if◌then◌else◌, ◌-◌, ◌<◌, ◌≡◌, refl, false, true, List, [], ◌∷◌, length, ◌++◌,
  arith,
}
use pim_sw.Library.Geometry.{Geometry}
use pim_sw.Library.Records.{rec_lookup, bisect}
use pim_sw.Library.Resolve.{resolve, resolve_in, extend, where_is}
use pim_sw.Library.Resolve.Tests.{card, table}
use pim_sw.Library.Address.{gpr_words}
use pim_sw.Runtime.Isr.{Isr, isr_put, isr_put_lem, in_field, bit}
use pim_sw.Runtime.Lower.Atoms.{AllMoved, lower_atoms-AllMoved}
use pim_sw.Runtime.Lower.Runs.{Found, prog_lower_runs}
use pim_sw.Runtime.Lower.{
  Logical, Ref, Atom, lower_atoms, logical_atom, resolve_one, Prog, Reply, accepted, refused,
  logical_init, logical_push, logical_push_ref, gpr_word, per_channel, isr_count, growth, mapped,
  prog_lower,
}
use pim_sw.Runtime.Lower.Built.{
  Made, Built, init, next, pushed, referred, marked, made-Built, place, mapped-place,
}
use pim_sw.Runtime.Lower.Placed.{Images}
use pim_sw.Runtime.Lower.Lowered.{prog_lower-Images}

abbrev board : Geometry
board = record card { nch = 2 }

abbrev got : Reply Logical → Logical
got (accepted lp) = lp
got (refused e) = logical_init 0 0 0 0 0

abbrev made : Reply Prog → Prog
made (accepted p) = p
made (refused e) = record { w = []; cap = 0 }

abbrev blank : Isr
blank b = false

abbrev one : Logical
one = record (logical_init 8 8 8 2 1) { isr = blank ∷ [] }

abbrev two : Logical
unfolding logical_push_ref
two = got (logical_push_ref one blank gpr_word per_channel 0x10020 100 1 0)

two-Made : Made two
unfolding logical_init logical_push logical_push_ref
two-Made =
    next (next (init 8 8 8 2 1) (pushed blank refl))
      (referred blank gpr_word per_channel 0x10020 100 1 0 refl)

two-Built : Built two
two-Built = made-Built two-Made

abbrev empty : Prog
empty = record { w = []; cap = 16 }

lowered :
    prog_lower board table two empty false
    ≡ accepted (made (prog_lower board table two empty false))
unfolding prog_lower logical_push_ref gpr_words where_is resolve resolve_in extend rec_lookup bisect
    logical_init
lowered = refl

prog_lower-Images_example :
    (l : List Isr) × ((made (prog_lower board table two empty false)).w ≡ [] ++ l)
    × (length l ≡ isr_count two)
    × Images board table two 0 0 two.isr l
unfolding logical_push_ref logical_init growth
prog_lower-Images_example =
    prog_lower-Images board table two two-Built empty
      (made (prog_lower board table two empty false)) false (omega arith) (omega arith)
      (omega arith) lowered

mapped-place_example : mapped two 2 ≡ place two 2
unfolding logical_push_ref logical_init growth
mapped-place_example = mapped-place two two-Built (omega arith) 2 (omega arith)

made-Built_example : Built two
unfolding logical_push_ref
made-Built_example = made-Built two-Made

abbrev split_ref : Ref
split_ref = record {
  isr = 1;
  kind = gpr_word;
  split = per_channel;
  base = 0x10020;
  len = 100;
  index = 1;
  tag = 0;
  nsplit_before = 0;
}

two_words : (ch : ℕ) → ch < 2 → Found board table split_ref ch
unfolding resolve_one gpr_words where_is resolve resolve_in extend rec_lookup bisect
two_words zero h = (514, refl, omega arith)
two_words (suc zero) h = (515, refl, omega arith)
two_words (suc (suc ch)) h = absurd (omega (arith, h))

prog_lower_runs_example : (to : Prog) × (prog_lower board table two empty false ≡ accepted to)
unfolding logical_push_ref logical_init growth isr_count
prog_lower_runs_example =
    prog_lower_runs board table two two-Built ((inl refl, two_words), tt) empty false (omega arith)
      (omega arith) refl (λ h. absurd (omega (arith, h))) (omega arith) (omega arith)

-- An atom of both instructions, of which the second becomes two.
abbrev three : Logical
unfolding logical_atom logical_push_ref logical_init
three = got (logical_atom two 0 1)

three-Built : Built three
unfolding logical_atom logical_push_ref logical_init
three-Built = made-Built (next two-Made (marked 0 1 refl))

abbrev atoms : List Atom
atoms = record { first = 0; last = 2 } ∷ []

lower_atoms-AllMoved_example : AllMoved three three.atom atoms
unfolding logical_atom logical_push_ref logical_init growth lower_atoms bisect
lower_atoms-AllMoved_example = lower_atoms-AllMoved three three-Built (omega arith) 8 atoms refl

-- ROW over a word that is all ones: bit 6 is the lowest bit of the row.
isr_put_lem_example :
    isr_put (λ _. true) 6 17 5 7 ≡ (if in_field 6 17 7 then bit 5 (7 - 6) else true)
isr_put_lem_example = isr_put_lem (λ _. true) 6 17 5 7
