-- ===== src/Kernel.antt =====
-- `kernel_entry` of core/main.cc: the order in which the kernel starts its parts, up to the breakpoint
-- that it ends with. The constructors of global objects have run; `int $0x3` is the dispatch of the
-- frame that the processor and the stub push.
pub mod Entry
mod Tests
use cxkernel.Base.{ℕ, Option, none, some, true, false, ◌==◌, ◌&&◌}
use cxkernel.LinkedList.{Ptr, Links}
use cxkernel.Text.{Memory}
use cxkernel.Console.{Device, History, console_init, console_puts, platform_init}
use cxkernel.Boot.Handoff.{LoaderState, check_state}
use cxkernel.Cpu.{Boot, arch_init}
use cxkernel.Interrupts.{isr_handler, handled, exception, unhandled}
use cxkernel.Interrupts.Exception.{IntFrame, End, exception_handler}
use cxkernel.Stdio.Streams.{Streams}

-- The addresses that the linker and the processor give: the greeting, the array of `PerCPU`, the boot thread,
-- its variable and the temporary, the boot address space, the stubs of the vectors, and the control
-- registers.
pub record Places : Type 0 where
  pub greeting : ℕ
  pub percpu : ℕ → ℕ
  pub boot_thread : Ptr
  pub slot : ℕ
  pub temporary : ℕ
  pub boot_aspace : Ptr
  pub stubs : ℕ → ℕ
  pub cr3 : ℕ
  pub cr2 : ℕ

-- How it ends: the console does not take the greeting, the loader's lists lead to null, an
-- assertion fails, or the breakpoint is dispatched, to a handler, or to a report that ends as given.
pub data Ended : Type 0 where
  not_printed null_read asserted : Ended
  called : ℕ → Ended
  reported : History → Boot → End → Ended
  not_handled : ℕ → Ended

-- `int $0x3`, after which the kernel halts
unfoldable pub breakpoint : ℕ → Places → IntFrame → ℕ → Streams → History → Boot → Ended
breakpoint fuel l r rsp s h b = elim (isr_handler b.handlers r.vector) [
  | handled fn ↦ called fn
  | exception v fault ↦ reported h b (exception_handler fuel r rsp l.cr2 s)
  | unhandled v ↦ not_handled v
]

-- With the state that the loader left, and the links of its lists.
unfoldable pub kernel_entry :
    ℕ
    → ℕ
    → Device
    → Memory
    → Places
    → LoaderState
    → Links
    → IntFrame
    → ℕ
    → Streams
    → Boot
    → History
    → Ended
unfolding breakpoint
kernel_entry fuel patience d m l state links r rsp s b h =
    elim (console_puts fuel patience d m l.greeting (console_init h)) [
      | none ↦ not_printed
      | some h' ↦ elim (state.magic_start == 0xCAFEB0BA && state.magic_end == 0xBADBEEEF) [
        | false ↦ asserted
        | true ↦ elim (check_state fuel state links) [
          | none ↦ null_read
          | some (false, links') ↦ asserted
          | some (true, links') ↦
              elim (arch_init l.percpu l.boot_thread l.slot l.temporary l.cr3 l.boot_aspace l.stubs
                b) [ none ↦ asserted | some b' ↦ breakpoint fuel l r rsp s (platform_init h') b' ]
        ]
      ]
    ]
