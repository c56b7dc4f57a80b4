-- ===== src/Cpu/Samples.antt =====
-- A processor before the start, for the runs of arch/x86-64/init.cc and core/main.cc.
use cxkernel.Base.{ℕ, ◌+◌, ◌*◌, [], ◌∷◌, true}
use cxkernel.Mutex
use cxkernel.Paging.{idt_entry}
use cxkernel.VmRegion.Roots.{construct}
use cxkernel.Cpu.{Boot}

abbrev pub places : ℕ → ℕ
places i = 0xFFFF800000200000 + 64 * i

abbrev pub stubs : ℕ → ℕ
stubs v = 0xFFFF800000100000 + 16 * v

abbrev pub off : Boot
off = record {
  percpu_array = λ j. record { self = 0; cpu_num = 0; curthread = 0 };
  gs = 0;
  aspace = record { user_root = 1; kernel_root = 2; pml4 = 0; lock = Mutex.new };
  regions = λ p. construct 0 0 0;
  refs = record { slots = 0 ∷ 0 ∷ []; ref_count = λ p. 0; live = λ p. true };
  idt = λ v. idt_entry 0 0;
  handlers = λ v. 0;
}
