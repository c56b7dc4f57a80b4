-- ===== src/Interrupts.antt =====
-- arch/x86-64/interrupts.cc: the table of handlers and the dispatch of an interrupt. A handler is
-- its address, 0 for none; a vector is the byte that the stub pushed.
pub mod Dispatch
pub mod Exception
pub mod Crash
pub mod Gates
mod Tests
use cxkernel.Base.{ℕ, zero, suc, ◌+◌, ◌==◌, ltb, if◌then◌else◌, Bool}
use cxkernel.Bits.{u8}

abbrev pub Handlers : Type 0
Handlers = ℕ → ℕ

-- `irq_install_handler`
unfoldable pub irq_install_handler : Handlers → ℕ → ℕ → Handlers
irq_install_handler t vector fn v = if v == vector then fn else t v

-- `irq_remove_handler`
unfoldable pub irq_remove_handler : Handlers → ℕ → Handlers
irq_remove_handler t vector v = if v == vector then 0 else t v

-- `irq_get_handler`
unfoldable pub irq_get_handler : Handlers → ℕ → ℕ
irq_get_handler t vector = t vector

-- `init_idt`, the loop over the handlers from `i` on
unfoldable pub clear_handlers : ℕ → ℕ → Handlers → Handlers
clear_handlers i zero t = t
clear_handlers i (suc left) t = clear_handlers (i + 1) left (irq_remove_handler t i)

unfoldable pub init_handlers : Handlers → Handlers
init_handlers t = clear_handlers 0 256 t

-- What `isr_handler` does: it calls a handler, prints an exception and halts, with the
-- page fault's lines or without, or reports an unhandled interrupt and halts.
pub data Dispatched : Type 0 where
  handled : ℕ → Dispatched
  exception : ℕ → Bool → Dispatched
  unhandled : ℕ → Dispatched

unfoldable pub isr_handler : Handlers → ℕ → Dispatched
isr_handler t vector =
    if t vector == 0
    then (if ltb vector 32 then exception vector (vector == 14) else unhandled vector)
    else handled (t vector)
