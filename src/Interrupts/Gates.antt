-- ===== src/Interrupts/Gates.antt =====
-- `x86_64::init_idt` of arch/x86-64/interrupts.cc: the gates and the table of handlers. The stubs of
-- entry.asm are a table of addresses.
use cxkernel.Base.{
  ℕ, zero, suc, ◌+◌, ◌^◌, ◌<◌, ◌≡◌, ◌&&◌, ◌==◌, ltb, leb, if◌then◌else◌, arith, ap, refl, ◌∙◌,
}
use cxkernel.Paging.{IdtEntry, idt_entry, idt_offset, idt_entry_offset}
use cxkernel.Interrupts.{Handlers, isr_handler}
use cxkernel.Interrupts.Dispatch.{default}

abbrev pub Idt : Type 0
Idt = ℕ → IdtEntry

abbrev pub interrupt_gate : ℕ
interrupt_gate = 0b1110

-- The loop from `i` on.
unfoldable pub init_loop : (ℕ → ℕ) → ℕ → ℕ → Idt → Handlers → Idt × Handlers
init_loop stubs i zero idt t = (idt, t)
init_loop stubs i (suc left) idt t =
    init_loop stubs (i + 1) left (λ v. if v == i then idt_entry (stubs i) interrupt_gate else idt v)
      (λ v. if v == i then 0 else t v)

unfoldable pub init_idt : (ℕ → ℕ) → Idt → Handlers → Idt × Handlers
init_idt stubs idt t = init_loop stubs 0 256 idt t

init_loop_lem :
    (stubs : ℕ → ℕ) (i left : ℕ) (idt : Idt) (t : Handlers) (v : ℕ)
    → ((init_loop stubs i left idt t).0 v
        ≡ (if leb i v && ltb v (i + left) then idt_entry (stubs v) interrupt_gate else idt v))
      × ((init_loop stubs i left idt t).1 v ≡ (if leb i v && ltb v (i + left) then 0 else t v))
unfolding init_loop
init_loop_lem stubs i zero idt t v = (ground arith, ground arith)
init_loop_lem stubs i (suc left) idt t v =
    let ih =
      init_loop_lem stubs (i + 1) left
        (λ v. if v == i then idt_entry (stubs i) interrupt_gate else idt v)
        (λ v. if v == i then 0 else t v) v in
    (ih.0 ∙ ground arith, ih.1 ∙ ground arith)

-- Without its gate: the dispatch after `init_idt`.
pub init_idt-default :
    (stubs : ℕ → ℕ) (idt : Idt) (t : Handlers) (v : ℕ)
    → v < 256
    → isr_handler (init_idt stubs idt t).1 v ≡ default v
unfolding init_idt isr_handler
init_idt-default stubs idt t v byte =
    let cleared : (init_idt stubs idt t).1 v ≡ 0 =
      (init_loop_lem stubs 0 256 idt t v).1 ∙ ground arith in
    ground (arith, cleared)

-- After `init_idt` every byte's gate is present, is an interrupt gate of the kernel's code segment and leads to the vector's
-- stub, an address of 64 bits, and the byte is dispatched as without a handler.
init_idt-gates :
    (stubs : ℕ → ℕ) (idt : Idt) (t : Handlers) (v : ℕ)
    → v < 256
    → stubs v < 2 ^ 64
    → let r = init_idt stubs idt t in
      (idt_offset (r.0 v) ≡ stubs v)
      × ((r.0 v).type ≡ interrupt_gate)
      × ((r.0 v).present ≡ 1)
      × ((r.0 v).selector ≡ 8)
      × (isr_handler r.1 v ≡ default v)
unfolding init_idt
init_idt-gates stubs idt t v byte small =
    let at : (init_idt stubs idt t).0 v ≡ idt_entry (stubs v) interrupt_gate =
      (init_loop_lem stubs 0 256 idt t v).0 ∙ ground arith in
    (
      ap idt_offset at ∙ idt_entry_offset (stubs v) interrupt_gate small,
      ap (λ (e : IdtEntry). e.type) at ∙ unfold idt_entry in refl,
      ap (λ (e : IdtEntry). e.present) at ∙ unfold idt_entry in refl,
      ap (λ (e : IdtEntry). e.selector) at ∙ unfold idt_entry in refl,
      init_idt-default stubs idt t v byte,
    )
