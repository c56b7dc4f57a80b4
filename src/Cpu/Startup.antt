-- ===== src/Cpu/Startup.antt =====
-- What `arch::init` of arch/x86-64/init.cc leaves.
use cxkernel.Base.{
  ℕ, zero, suc, ◌+◌, ◌<◌, ◌≡◌, ◌≢◌, ◌&&◌, arith, refl, ap, sym, ◌∙◌, ◌==◌, ltb, leb, if◌then◌else◌,
  some, List, [], ◌∷◌, length,
}
use cxkernel.LinkedList.{Ptr}
use cxkernel.Interrupts.{isr_handler}
use cxkernel.Interrupts.Dispatch.{default}
use cxkernel.Interrupts.Gates.{init_idt, init_idt-default}
use cxkernel.RefPtr.{Refs, put, adopt_ref, move_assign, drop_ref, destroy, adopt, assign, get}
use cxkernel.RefPtr.Slots.{length-put}
use cxkernel.VmRegion.{Store}
use cxkernel.VmRegion.Roots.{AddressSpace, init_aspace}
use cxkernel.Cpu.{
  PerCpu, Boot, init_percpu, max_smp_cpus, cpu_num, get_percpu, get_current_thread, arch_init,
}

init_percpu_lem :
    (addr : ℕ → ℕ) (i left : ℕ) (a : ℕ → PerCpu) (j : ℕ)
    → init_percpu addr i left a j ≡ (
        if leb i j && ltb j (i + left)
        then record { self = addr j; cpu_num = j; curthread = 0 }
        else a j)
unfolding init_percpu
init_percpu_lem addr i zero a j = ground arith
init_percpu_lem addr i (suc left) a j =
    init_percpu_lem addr (i + 1) left
      (λ j'. if j' == i then record { self = addr i; cpu_num = i; curthread = 0 } else a j') j
    ∙ ground arith

get-put_same : (xs : List ℕ) (i v : ℕ) → i < length xs → get (put xs i v) i ≡ v
get-put_same [] i v h = absurd (omega (arith, h))
get-put_same (x ∷ xs) zero v h = refl
get-put_same (x ∷ xs) (suc i) v h = get-put_same xs i v (omega (arith, h))

get-put_other : (xs : List ℕ) (i j v : ℕ) → i ≢ j → get (put xs i v) j ≡ get xs j
get-put_other [] i j v ne = refl
get-put_other (x ∷ xs) zero zero v ne = absurd (ne refl)
get-put_other (x ∷ xs) zero (suc j) v ne = refl
get-put_other (x ∷ xs) (suc i) zero v ne = refl
get-put_other (x ∷ xs) (suc i) (suc j) v ne = get-put_other xs i j v (λ e. ne (ap suc e))

destroy_null : (p : ℕ) (s : Refs) → p ≡ 0 → destroy p s ≡ s
unfolding destroy
destroy_null p s e = ground (arith, e)

adopt_ref_lem : (t p : ℕ) (s : Refs) → p ≢ 0 → adopt_ref t p s ≡ adopt p (assign t p s)
unfolding adopt_ref
adopt_ref_lem t p s ok = ground (arith, ok)

move_assign_null :
    (i t : ℕ) (s : Refs)
    → i ≢ t
    → get s.slots i ≡ 0
    → move_assign i t s ≡ assign i (get s.slots t) (assign t 0 s)
unfolding move_assign
move_assign_null i t s ne e = destroy_null _ _ (get-put_other s.slots t i 0 (λ e'. ne (sym e')) ∙ e)

-- An adopted object in a temporary, moved to a variable that was null: the variable has it, and its
-- count is 1.
adopt-moved :
    (i t p : ℕ) (s : Refs)
    → i ≢ t
    → p ≢ 0
    → i < length s.slots
    → t < length s.slots
    → get s.slots i ≡ 0
    → let s' = drop_ref t (move_assign i t (adopt_ref t p s)) in
      (get s'.slots i ≡ p) × (s'.ref_count p ≡ 1)
unfolding drop_ref adopt
adopt-moved i t p s ne ok in_i in_t empty =
    let a = adopt p (assign t p s) in
    let ne' : t ≢ i = λ e. ne (sym e) in
    let was : get a.slots t ≡ p = get-put_same s.slots t p in_t in
    let m = move_assign_null i t a ne (get-put_other s.slots t i p ne' ∙ empty) in
    let moved = assign i (get a.slots t) (assign t 0 a) in
    let gone : get moved.slots t ≡ 0 =
      get-put_other _ i t _ ne ∙ get-put_same _ t 0 (rw length-put in_t) in
    let all : drop_ref t (move_assign i t (adopt_ref t p s)) ≡ assign t 0 moved =
      rw (adopt_ref_lem t p s ok, m) (ap (assign t 0) (destroy_null _ moved gone)) in
    (
      ap (λ (r : Refs). get r.slots i) all
          ∙ get-put_other _ t i 0 ne'
          ∙ get-put_same _ i _ (rw (length-put, length-put) in_i)
          ∙ was,
      ap (λ (r : Refs). r.ref_count p) all ∙ ground arith,
    )

-- the state of a processor that has started
pub record IsStarted (addr : ℕ → ℕ) (boot_thread : Ptr) (slot boot_aspace : ℕ) (b : Boot)
    : Type 0 where
  pub current : get_current_thread b ≡ boot_thread
  pub number : cpu_num b ≡ 0
  pub self : get_percpu b ≡ addr 0
  pub others :
      (j : ℕ)
      → 0 < j
      → j < max_smp_cpus
      → b.percpu_array j ≡ record { self = addr j; cpu_num = j; curthread = 0 }
  pub held : get b.refs.slots slot ≡ boot_aspace
  pub counted : b.refs.ref_count boot_aspace ≡ 1
  pub dispatched : (v : ℕ) → v < 256 → isr_handler b.handlers v ≡ default v

module _ (addr : ℕ → ℕ) (boot_thread : Ptr) (slot temporary cr3 : ℕ) (boot_aspace : Ptr)
    (stubs : ℕ → ℕ) (b : Boot) where
  abbrev percpus : ℕ → PerCpu
  percpus = init_percpu addr 0 max_smp_cpus b.percpu_array

  abbrev made : AddressSpace × Store
  made = init_aspace cr3 b.aspace b.regions

  abbrev started : Boot
  started = record {
    percpu_array =
        λ j. if j == 0 then record (percpus 0) { curthread = boot_thread } else percpus j;
    gs = 0;
    aspace = made.0;
    regions = made.1;
    refs = drop_ref temporary (move_assign slot temporary (adopt_ref temporary boot_aspace b.refs));
    idt = (init_idt stubs b.idt b.handlers).0;
    handlers = (init_idt stubs b.idt b.handlers).1;
  }

  arch_init_lem : arch_init addr boot_thread slot temporary cr3 boot_aspace stubs b ≡ some started
  unfolding arch_init
  arch_init_lem =
      let first : percpus 0 ≡ record { self = addr 0; cpu_num = 0; curthread = 0 } =
        init_percpu_lem addr 0 max_smp_cpus b.percpu_array 0 in
      let n : (percpus 0).cpu_num ≡ 0 = ap (λ (c : PerCpu). c.cpu_num) first in
      let own : (percpus 0).self ≡ addr 0 = ap (λ (c : PerCpu). c.self) first in
      ground (arith, n, own)

-- When the boot thread's variable `address_space` is null and apart from the temporary, and the boot
-- address space is not at null, `arch::init` passes its assertions. After it the boot thread is the
-- current one, on CPU 0; each other CPU has its own place and number and no thread; the variable has
-- the address space, whose count is 1; the gates and the regions are what `init_idt` and
-- `init_aspace` make; and every byte is dispatched as without a handler.
pub arch_init-IsStarted :
    (addr : ℕ → ℕ) (boot_thread : Ptr) (slot temporary cr3 : ℕ) (boot_aspace : Ptr) (stubs : ℕ → ℕ)
    (b : Boot)
    → slot ≢ temporary
    → boot_aspace ≢ 0
    → slot < length b.refs.slots
    → temporary < length b.refs.slots
    → get b.refs.slots slot ≡ 0
    → (b' : Boot) × (arch_init addr boot_thread slot temporary cr3 boot_aspace stubs b ≡ some b')
      × IsStarted addr boot_thread slot boot_aspace b'
      × ((b'.aspace, b'.regions) ≡ init_aspace cr3 b.aspace b.regions)
      × ((b'.idt, b'.handlers) ≡ init_idt stubs b.idt b.handlers)
arch_init-IsStarted addr boot_thread slot temporary cr3 boot_aspace stubs b ne ok in_s in_t empty =
    let b' = started addr boot_thread slot temporary cr3 boot_aspace stubs b in
    let first = init_percpu_lem addr 0 max_smp_cpus b.percpu_array 0 in
    let (held, counted) = adopt-moved slot temporary boot_aspace b.refs ne ok in_s in_t empty in
    (
      b',
      arch_init_lem addr boot_thread slot temporary cr3 boot_aspace stubs b,
      record {
        current = refl;
        number = ap (λ (c : PerCpu). c.cpu_num) first;
        self = ap (λ (c : PerCpu). c.self) first;
        others = λ j pos lt.
            let own = init_percpu_lem addr 0 max_smp_cpus b.percpu_array j in ground (arith, own);
        held = held;
        counted = counted;
        dispatched = λ v byte. init_idt-default stubs b.idt b.handlers v byte;
      },
      refl,
      refl,
    )
