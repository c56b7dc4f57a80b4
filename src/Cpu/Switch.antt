-- ===== src/Cpu/Switch.antt =====
-- What `switch_thread` of arch/x86-64/thread.cc keeps of the thread that it leaves, and what it loads.
use cxkernel.Base.{ℕ, ◌+◌, ◌^◌, ◌<◌, ◌≤◌, ◌≡◌, ◌≢◌, ◌⊎◌, arith, refl}
use cxkernel.LinkedList.{Ptr}
use cxkernel.Cpu.{Cpu, push_all, pop_all, push, pop, switch_thread}

-- `t` has the saved registers, the flags and the stack pointer of `s`.
pub record Resumed (t s : Cpu) : Type 0 where
  pub rsp : t.rsp ≡ s.rsp
  pub rflags : t.rflags ≡ s.rflags
  pub rbx : t.rbx ≡ s.rbx
  pub rbp : t.rbp ≡ s.rbp
  pub r12 : t.r12 ≡ s.r12
  pub r13 : t.r13 ≡ s.r13
  pub r14 : t.r14 ≡ s.r14
  pub r15 : t.r15 ≡ s.r15

-- When the stack has room for seven words and the old thread's field is not among them, then after
-- the switch the field `sp` of the old thread is the address of its context: the pops of a switch,
-- begun there, give back all its saved registers, its flags and its stack pointer. The current thread
-- is the new one.
pub switch_thread-Resumed :
    (newthread : Ptr) (old_sp new_sp : ℕ) (s : Cpu)
    → 56 ≤ s.rsp
    → s.rsp < 2 ^ 64
    → old_sp + 64 ≤ s.rsp ⊎ s.rsp ≤ old_sp
    → let t = switch_thread newthread old_sp new_sp s in
      Resumed (pop_all (record t { rsp = t.mem old_sp })) s × t.curthread ≡ newthread
unfolding switch_thread push_all pop_all push pop
switch_thread-Resumed newthread old_sp new_sp s room small apart = (
  record {
    rsp = ground arith;
    rflags = ground arith;
    rbx = ground arith;
    rbp = ground arith;
    r12 = ground arith;
    r13 = ground arith;
    r14 = ground arith;
    r15 = ground arith;
  },
  refl,
)

-- The stack pointer that a switch leaves is 56 above the address of the new thread's field `sp`, and
-- `r15` is the word that this field holds: what the field holds is loaded as a register, and is never
-- the stack pointer. The conditions are that the field is at least 56 below the end of the addresses
-- and away from the words that the switch stores.
pub switch_thread-rsp :
    (newthread : Ptr) (old_sp new_sp : ℕ) (s : Cpu)
    → 56 ≤ s.rsp
    → s.rsp < 2 ^ 64
    → new_sp + 56 < 2 ^ 64
    → new_sp + 64 ≤ s.rsp ⊎ s.rsp ≤ new_sp
    → old_sp ≢ new_sp
    → let t = switch_thread newthread old_sp new_sp s in
      (t.rsp ≡ new_sp + 56) × (t.r15 ≡ s.mem new_sp)
unfolding switch_thread push_all pop_all push pop
switch_thread-rsp newthread old_sp new_sp s room small end apart other = (omega arith, ground arith)
