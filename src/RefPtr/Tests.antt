-- ===== src/RefPtr/Tests.antt =====
-- A program on two variables, for lib/ebl/memory.h.
use cxkernel.Base.{◌==◌, if◌then◌else◌, ◌≡◌, refl, arith, true, false, [], ◌∷◌}
use cxkernel.RefPtr.{
  Refs, make_ref, copy, drop_ref, destroy, from_raw, adopt_ref, adopt, construct, add_ref, release,
}
use cxkernel.RefPtr.Counts.{IsSound}
use cxkernel.RefPtr.Lists.{clear_refs}
use cxkernel.RefPtr.Clear.{Listed, clear_refs-IsSound}
use cxkernel.LinkedList.Ring.{Returns}
use cxkernel.LinkedList.Samples.{three, three-IsRing}
use cxkernel.RefPtr.Steps.{Reaches, Reaches-IsSound, run, making, copying, dropping, start, next}

abbrev nothing : Refs
nothing = record { slots = 0 ∷ 0 ∷ []; ref_count = λ p. 0; live = λ p. false }

nothing-IsSound : IsSound nothing
nothing-IsSound = record {
  size = omega arith;
  counted = λ p ne. ground (arith, ne);
  exists = λ p ne. ground (arith, ne);
}

abbrev made : Refs
made = run (making 0 5) nothing

abbrev shared : Refs
shared = run (copying 1 0) made

shared-Reaches : Reaches nothing shared
unfolding run make_ref adopt_ref adopt construct
shared-Reaches =
    next nothing made (copying 1 0)
      (next nothing nothing (making 0 5) (start nothing) (omega arith, refl, refl))
      (omega arith, refl)

one_left : (run (dropping 0) shared).live 5 ≡ true
unfolding run make_ref copy drop_ref destroy from_raw adopt_ref adopt construct add_ref release
one_left = refl

Reaches_example : IsSound shared
Reaches_example = Reaches-IsSound nothing shared shared-Reaches nothing-IsSound

-- The list of the nodes 1, 2 and 3, and a variable that points to 2.
abbrev listed : Refs
listed = record {
  slots = 2 ∷ [];
  ref_count = λ p. if p == 2 then 2 else if p == 1 then 1 else if p == 3 then 1 else 0;
  live = λ p. if p == 2 then true else if p == 1 then true else if p == 3 then true else false;
}

listed-Listed : Listed (1 ∷ 2 ∷ 3 ∷ []) listed
listed-Listed = record {
  size = omega arith;
  counted = λ p ne. ground (arith, ne);
  exists = λ p ne. ground (arith, ne);
}

clear_example :
    Returns (λ refs' t. IsSound refs' × (refs'.slots ≡ listed.slots)) (clear_refs 4 1 listed three)
clear_example =
    clear_refs-IsSound (1 ∷ 2 ∷ 3 ∷ []) 4 three 1 listed (omega arith) three-IsRing listed-Listed
