-- ===== src/Cpu.antt =====
-- arch/x86-64/thread.cc and init.cc: the switch of threads, and the set-up of a processor's state. The
-- memory is that of 64-bit words at their addresses; a field of a struct is its address.
pub mod Switch
pub mod Startup
pub mod Samples
mod Tests
use cxkernel.Base.{
  ℕ, zero, suc, ◌+◌, ◌-◌, ◌%◌, ◌^◌, Bool, true, false, Option, none, some, ◌==◌, if◌then◌else◌,
}
use cxkernel.Bits.{u64, sub64}
use cxkernel.LinkedList.{Ptr}
use cxkernel.Interrupts.{Handlers}
use cxkernel.Interrupts.Gates.{Idt, init_idt}
use cxkernel.RefPtr.{Refs, adopt_ref, move_assign, drop_ref}
use cxkernel.VmRegion.{Store}
use cxkernel.VmRegion.Roots.{AddressSpace, init_aspace}

abbrev pub poke : (ℕ → ℕ) → ℕ → ℕ → ℕ → ℕ
poke m p v q = if q == p then v else m q

-- the registers that the switch saves, and the stack pointer
pub record Cpu : Type 0 where
  pub mem : ℕ → ℕ
  pub rsp : ℕ
  pub rflags : ℕ
  pub rbx : ℕ
  pub rbp : ℕ
  pub r12 : ℕ
  pub r13 : ℕ
  pub r14 : ℕ
  pub r15 : ℕ
  pub curthread : Ptr

unfoldable pub push : ℕ → Cpu → Cpu
push v s = let sp = sub64 s.rsp 8 in record s { mem = poke s.mem sp v; rsp = sp }

-- the word on the stack, and the stack without it
unfoldable pub pop : Cpu → ℕ × Cpu
pop s = (s.mem s.rsp, record s { rsp = u64 (s.rsp + 8) })

-- `pushf` and the pushes
unfoldable pub push_all : Cpu → Cpu
unfolding push
push_all s =
    push s.r15 (push s.r14 (push s.r13 (push s.r12 (push s.rbp (push s.rbx (push s.rflags s))))))

-- the pops and `popf`
unfoldable pub pop_all : Cpu → Cpu
unfolding pop
pop_all s0 =
    let (r15, s1) = pop s0 in
    let (r14, s2) = pop s1 in
    let (r13, s3) = pop s2 in
    let (r12, s4) = pop s3 in
    let (rbp, s5) = pop s4 in
    let (rbx, s6) = pop s5 in
    let (rflags, s7) = pop s6 in
    record s7 { r15 = r15; r14 = r14; r13 = r13; r12 = r12; rbp = rbp; rbx = rbx; rflags = rflags }

-- `switch_thread`, with `&oldthread->backend.sp` and `&newthread->backend.sp`: the stack pointer is
-- stored through the first operand, and the second operand itself is moved to it.
unfoldable pub switch_thread : Ptr → ℕ → ℕ → Cpu → Cpu
unfolding push_all pop_all
switch_thread newthread old_sp new_sp s =
    let pushed = push_all (record s { curthread = newthread }) in
    pop_all (record pushed { mem = poke pushed.mem old_sp pushed.rsp; rsp = new_sp })

-- `arch::PerCPU`
pub record PerCpu : Type 0 where
  pub self : ℕ
  pub cpu_num : ℕ
  pub curthread : Ptr

abbrev pub max_smp_cpus : ℕ
max_smp_cpus = 32

-- What `arch::init` sets up: the array of `PerCPU`, by index; the index of the one that the gs base
-- points to; the address spaces, the counts and the tables of interrupts.
pub record Boot : Type 0 where
  pub percpu_array : ℕ → PerCpu
  pub gs : ℕ
  pub aspace : AddressSpace
  pub regions : Store
  pub refs : Refs
  pub idt : Idt
  pub handlers : Handlers

-- The loop over the array, whose element `i` is at `addr i`.
unfoldable pub init_percpu : (ℕ → ℕ) → ℕ → ℕ → (ℕ → PerCpu) → ℕ → PerCpu
init_percpu addr i zero a = a
init_percpu addr i (suc left) a =
    init_percpu addr (i + 1) left
      (λ j. if j == i then record { self = addr i; cpu_num = i; curthread = 0 } else a j)

-- through the gs base
abbrev pub cpu_num : Boot → ℕ
cpu_num b = (b.percpu_array b.gs).cpu_num

abbrev pub get_percpu : Boot → ℕ
get_percpu b = (b.percpu_array b.gs).self

abbrev pub get_current_thread : Boot → Ptr
get_current_thread b = (b.percpu_array b.gs).curthread

-- `arch::init`, with the places of the array, the boot thread and its variable `address_space`, the
-- variable of the temporary that `AdoptRef` makes, what `read_cr3` gives, the place of the address
-- space, and the stubs; `none` is a failed assertion.
unfoldable pub arch_init : (ℕ → ℕ) → Ptr → ℕ → ℕ → ℕ → Ptr → (ℕ → ℕ) → Boot → Option Boot
arch_init addr boot_thread slot temporary cr3 boot_aspace stubs b =
    let b1 = record b { percpu_array = init_percpu addr 0 max_smp_cpus b.percpu_array; gs = 0 } in
    if cpu_num b1 == 0
    then (if get_percpu b1 == addr 0
        then (let made = init_aspace cr3 b1.aspace b1.regions in
            let b2 = record b1 {
              aspace = made.0;
              regions = made.1;
              refs =
                  drop_ref temporary
                    (move_assign slot temporary (adopt_ref temporary boot_aspace b1.refs));
              percpu_array = λ j.
                  if j == 0
                  then record (b1.percpu_array 0) { curthread = boot_thread }
                  else b1.percpu_array j;
            } in
            if get_current_thread b2 == boot_thread
            then (let tables = init_idt stubs b2.idt b2.handlers in
                some (record b2 { idt = tables.0; handlers = tables.1 }))
            else none)
        else none)
    else none
