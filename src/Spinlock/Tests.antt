-- ===== src/Spinlock/Tests.antt =====
-- Two locks, at 0x1000 and 0x2000, of a processor with interrupts enabled.
use cxkernel.Base.{◌≡◌, refl, none, some, [], ◌∷◌, arith}
use cxkernel.Spinlock.{Cpu, spin_lock}
use cxkernel.Spinlock.Stuck.{unlock_all, taken, spin_lock_once}

abbrev idle : Cpu
idle = record { words = λ _. 0; flags = 0x202 }

twice_example :
    (spin_lock 0 0x1000 idle ≡ some (taken idle))
    × (spin_lock 5 0x2000 (unlock_all (0x1000 ∷ []) (taken idle)) ≡ none)
twice_example =
    spin_lock_once idle 0x1000 (0x1000 ∷ []) 0x2000 5 refl (omega arith) refl refl (omega arith, tt)
