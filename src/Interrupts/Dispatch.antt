-- ===== src/Interrupts/Dispatch.antt =====
-- What the dispatch of arch/x86-64/interrupts.cc does after the table has changed.
use cxkernel.Base.{ℕ, zero, suc, ◌+◌, ◌==◌, ◌≡◌, ◌≢◌, ◌<◌, ltb, leb, ◌&&◌, if◌then◌else◌, arith}
use cxkernel.Interrupts.{
  Handlers, irq_install_handler, irq_remove_handler, irq_get_handler, clear_handlers, init_handlers,
  Dispatched, handled, exception, unhandled, isr_handler,
}

clear_handlers_lem :
    (i left : ℕ) (t : Handlers) (v : ℕ)
    → clear_handlers i left t v ≡ (if leb i v && ltb v (i + left) then 0 else t v)
unfolding clear_handlers irq_remove_handler
clear_handlers_lem i zero t v = ground arith
clear_handlers_lem i (suc left) t v =
    let ih = clear_handlers_lem (i + 1) left (irq_remove_handler t i) v in ground (arith, ih)

-- The dispatch without a handler.
abbrev pub default : ℕ → Dispatched
default v = if ltb v 32 then exception v (v == 14) else unhandled v

-- After the table is cleared no byte has a handler. A handler installed for a vector, not null, is
-- what that vector is dispatched to and what the table gives back; removed again, the
-- vector is an exception below 32 and unhandled from 32 on. Other vectors are dispatched as before.
isr_handler-install :
    (t : Handlers) (vector fn u : ℕ)
    → fn ≢ 0
    → u ≢ vector
    → u < 256
    → (isr_handler (init_handlers t) u ≡ default u)
      × (isr_handler (irq_install_handler t vector fn) vector ≡ handled fn)
      × (irq_get_handler (irq_install_handler t vector fn) vector ≡ fn)
      × (isr_handler (irq_remove_handler (irq_install_handler t vector fn) vector) vector
          ≡ default vector)
      × (isr_handler (irq_install_handler t vector fn) u ≡ isr_handler t u)
      × (isr_handler (irq_remove_handler t vector) u ≡ isr_handler t u)
unfolding isr_handler init_handlers irq_install_handler irq_remove_handler irq_get_handler
isr_handler-install t vector fn u set other byte =
    let cleared = clear_handlers_lem 0 256 t u in
    (ground (arith, cleared), ground arith, ground arith, ground arith, ground arith, ground arith)
