-- ===== src/Cpu/Tests.antt =====
-- A switch between two threads whose fields are at 0x5000 and 0x6000, and the start of a processor.
use cxkernel.Base.{◌≡◌, inr, arith, some, ◌==◌, if◌then◌else◌, refl}
use cxkernel.Interrupts.Gates.{init_idt}
use cxkernel.VmRegion.Roots.{init_aspace}
use cxkernel.Cpu.{Cpu, Boot, pop_all, switch_thread, arch_init}
use cxkernel.Cpu.Switch.{Resumed, switch_thread-Resumed, switch_thread-rsp}
use cxkernel.Cpu.Samples.{places, stubs, off}
use cxkernel.Cpu.Startup.{IsStarted, arch_init-IsStarted}

-- The new thread's field, at 0x6000, holds 0x7000.
abbrev running : Cpu
running = record {
  mem = λ p. if p == 0x6000 then 0x7000 else 9;
  rsp = 0x4000;
  rflags = 0x202;
  rbx = 1;
  rbp = 2;
  r12 = 3;
  r13 = 4;
  r14 = 5;
  r15 = 6;
  curthread = 1;
}

context_example :
    let t = switch_thread 2 0x5000 0x6000 running in
    Resumed (pop_all (record t { rsp = t.mem 0x5000 })) running × (t.curthread ≡ 2)
context_example =
    switch_thread-Resumed 2 0x5000 0x6000 running (omega arith) (omega arith) (inr (omega arith))

rsp_example : let t = switch_thread 2 0x5000 0x6000 running in (t.rsp ≡ 0x6038) × (t.r15 ≡ 0x7000)
rsp_example =
    switch_thread-rsp 2 0x5000 0x6000 running (omega arith) (omega arith) (omega arith)
      (inr (omega arith)) (ground arith)

started_example :
    (b' : Boot) × (arch_init places 7 0 1 0x9000 8 stubs off ≡ some b')
    × IsStarted places 7 0 8 b'
    × ((b'.aspace, b'.regions) ≡ init_aspace 0x9000 off.aspace off.regions)
    × ((b'.idt, b'.handlers) ≡ init_idt stubs off.idt off.handlers)
started_example =
    arch_init-IsStarted places 7 0 1 0x9000 8 stubs off (ground arith) (ground arith) (omega arith)
      (omega arith) refl
