-- ===== src/Spinlock/Scope.antt =====
-- What a guard of lib/ebl/guard.h does to the processor from its construction to its destruction.
use cxkernel.Base.{ℕ, zero, suc, ◌/◌, ◌%◌, ◌^◌, ◌<◌, ◌≡◌, arith, some}
use cxkernel.Spinlock.{
  Cpu, Kind, irq, no_irq, Policy, spin, spin_lock, bit_test_set, lock, unlock, release, guard,
  disable_interrupts, spin_save_state,
}

-- whether the processor takes interrupts
abbrev pub interrupts : Cpu → ℕ
interrupts s = s.flags / 2 ^ 9 % 2

spin-flags : (fuel p : ℕ) (s s' : Cpu) → spin fuel p s ≡ some s' → s'.flags ≡ s.flags
unfolding spin
spin-flags zero p s s' h = ground arith
spin-flags (suc fuel) p s s' h =
    ground (arith, spin-flags fuel p s s', spin-flags fuel p (bit_test_set p s).1 s')

spin_lock-flags : (fuel p : ℕ) (s s' : Cpu) → spin_lock fuel p s ≡ some s' → s'.flags ≡ s.flags
unfolding spin_lock
spin_lock-flags fuel p s s' h =
    ground (arith, spin-flags fuel (s.words p) (bit_test_set (s.words p) s).1 s')

-- the flags register between the construction and the end of the scope
abbrev pub Within : Kind → Cpu → Cpu → Type 0
Within irq s s' = interrupts s' ≡ 0
Within no_irq s s' = s'.flags ≡ s.flags

-- the flags register behind the scope
abbrev pub Behind : Kind → Cpu → Cpu → Cpu → Type 0
Behind irq s body s' = s'.flags ≡ s.flags
Behind no_irq s body s' = s'.flags ≡ body.flags

held-irq :
    (fuel p : ℕ) (s s' : Cpu) (g : Policy)
    → guard irq fuel p s ≡ some (g, s')
    → (g.lock ≡ some p) × (g.irq_flags ≡ s.flags % 2 ^ 32) × (interrupts s' ≡ 0)
unfolding guard lock spin_save_state
held-irq fuel p s s' g h =
    let off = spin_lock-flags fuel p (disable_interrupts s) s' in
    let cleared : interrupts (disable_interrupts s) ≡ 0 =
      unfold disable_interrupts in ground arith in
    (ground arith, ground arith, ground (arith, off, cleared))

held-no_irq :
    (fuel p : ℕ) (s s' : Cpu) (g : Policy)
    → guard no_irq fuel p s ≡ some (g, s')
    → (g.lock ≡ some p) × (s'.flags ≡ s.flags)
unfolding guard lock
held-no_irq fuel p s s' g h = (ground arith, ground (arith, spin_lock-flags fuel p s s'))

-- Where a guard could be made, with the flags below 2^32: a `Spinlock`'s has disabled the
-- interrupts, a `SpinlockNoIrq`'s has left the flags. Whatever the scope has done in between, the
-- first release stores 0 in the lock's word; the flags are then those before the guard for a
-- `Spinlock`, and those that the scope has left for the other. A further release, the destructor's
-- included, does nothing.
guard_scope :
    (kind : Kind) (fuel p : ℕ) (s s' : Cpu) (g : Policy) (body t : Cpu)
    → s.flags < 2 ^ 32
    → guard kind fuel p s ≡ some (g, s')
    → Within kind s s'
      × ((release kind g body).1.words p ≡ 0)
      × Behind kind s body (release kind g body).1
      × (release kind (release kind g body).0 t ≡ ((release kind g body).0, t))
unfolding release unlock
guard_scope irq fuel p s s' g body t small h =
    let held = held-irq fuel p s s' g h in
    (held.2, ground (arith, held), ground (arith, held), ground (arith, held))
guard_scope no_irq fuel p s s' g body t small h =
    let held = held-no_irq fuel p s s' g h in
    (held.1, ground (arith, held), ground (arith, held), ground (arith, held))
