-- ===== src/Spinlock.antt =====
-- The spinlocks of core/spinlock.cc and core/include/core/spinlock.h over the primitives of
-- arch/x86-64/interface.h and asm.h, and the scoped guard of lib/ebl/guard.h. One processor runs:
-- its 32-bit words of memory at their addresses, and its flags register. A lock is the address of
-- `SpinlockBackend::x`.
pub mod Stuck
pub mod Scope
mod Tests
use cxkernel.Base.{
  ℕ, zero, suc, ◌+◌, ◌-◌, ◌/◌, ◌%◌, ◌^◌, Bool, true, false, Option, none, some, ◌==◌, if◌then◌else◌,
}
use cxkernel.Bits.{u32}

pub record Cpu : Type 0 where
  pub words : ℕ → ℕ
  pub flags : ℕ

abbrev pub poke : (ℕ → ℕ) → ℕ → ℕ → ℕ → ℕ
poke words p v q = if q == p then v else words q

-- bit 0 of a word
abbrev pub is_set : (ℕ → ℕ) → ℕ → Bool
is_set words p = words p % 2 == 1

-- `lock bts $0, (p)`: the carry flag, which is the bit as it was, and the word with the bit set
unfoldable pub bit_test_set : ℕ → Cpu → Bool × Cpu
bit_test_set p s = (
  is_set s.words p,
  record s { words = if is_set s.words p then s.words else poke s.words p (s.words p + 1) },
)

-- From the label `1:` on, with fuel for the rounds: `pause`, `testl`, `jne 1b`, `lock bts`, `jc 1b`.
unfoldable pub spin : ℕ → ℕ → Cpu → Option Cpu
unfolding bit_test_set
spin zero p s = none
spin (suc fuel) p s =
    let b = bit_test_set p s in
    let again = spin fuel p s in
    let again' = spin fuel p b.1 in
    if is_set s.words p then again else if b.0 then again' else some b.1

-- The operand of the assembly, "r"(lock->x), is the value of the lock's word, and the instructions
-- use it as an address.
unfoldable pub spin_lock : ℕ → ℕ → Cpu → Option Cpu
unfolding bit_test_set spin
spin_lock fuel lock s =
    let operand = s.words lock in
    let b = bit_test_set operand s in if b.0 then spin fuel operand b.1 else some b.1

unfoldable pub spin_unlock : ℕ → Cpu → Cpu
spin_unlock lock s = record s { words = poke s.words lock 0 }

-- `save_flags`, `restore_flags`, and `cli`, which clears bit 9
unfoldable pub save_flags : Cpu → ℕ
save_flags s = u32 s.flags

unfoldable pub restore_flags : ℕ → Cpu → Cpu
restore_flags flags s = record s { flags = flags }

unfoldable pub disable_interrupts : Cpu → Cpu
disable_interrupts s = record s {
  flags = if s.flags / 2 ^ 9 % 2 == 1 then s.flags - 2 ^ 9 else s.flags;
}

-- The state saved, and the processor.
unfoldable pub spin_save_state : Cpu → ℕ × Cpu
unfolding save_flags disable_interrupts
spin_save_state s = (save_flags s, disable_interrupts s)

unfoldable pub spin_restore_state : ℕ → Cpu → Cpu
unfolding restore_flags
spin_restore_state state s = restore_flags state s

-- A lock by its class: `Spinlock`, which saves and disables interrupts, or `SpinlockNoIrq`.
pub data Kind : Type 0 where
  irq no_irq : Kind

-- `Policy`: `irq_flags_`, and `lock_`, `none` for null
pub record Policy : Type 0 where
  pub irq_flags : ℕ
  pub lock : Option ℕ

-- `Spinlock::lock` and `SpinlockNoIrq::lock`: what the first leaves in `irq_flags_`, and the processor.
unfoldable pub lock : Kind → ℕ → ℕ → ℕ → Cpu → Option (ℕ × Cpu)
unfolding spin_save_state
lock irq fuel p old s =
    let saved = spin_save_state s in
    elim (spin_lock fuel p saved.1) [ none ↦ none | some s' ↦ some (saved.0, s') ]
lock no_irq fuel p old s = elim (spin_lock fuel p s) [ none ↦ none | some s' ↦ some (old, s') ]

-- `Spinlock::unlock` and `SpinlockNoIrq::unlock`
unfoldable pub unlock : Kind → ℕ → ℕ → Cpu → Cpu
unfolding spin_unlock spin_restore_state
unlock irq p flags s = spin_unlock p (spin_restore_state flags s)
unlock no_irq p flags s = spin_unlock p s

-- `Policy::unlock`, which is also `Guard::release` and `~Guard`
unfoldable pub release : Kind → Policy → Cpu → Policy × Cpu
release kind g s = elim (g.lock) [
  | none ↦ (g, s)
  | some p ↦ (record g { lock = none }, unlock kind p g.irq_flags s)
]

-- `Guard(T* lock)`
unfoldable pub guard : Kind → ℕ → ℕ → Cpu → Option (Policy × Cpu)
guard kind fuel p s = elim (lock kind fuel p 0 s) [
  | none ↦ none
  | some r ↦ some (record { irq_flags = r.0; lock = some p }, r.1)
]

-- `Guard(T* lock1, Guard<T>&& lock2)`: the new guard, the old one, and the processor.
unfoldable pub guard_over : Kind → ℕ → ℕ → Policy → Cpu → Option (Policy × Policy × Cpu)
guard_over kind fuel p g s =
    let released = release kind g s in
    elim (guard kind fuel p released.1) [ none ↦ none | some r ↦ some (r.0, released.0, r.1) ]
