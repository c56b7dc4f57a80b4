-- ===== src/Interrupts/Exception.antt =====
-- What `exception_handler` of arch/x86-64/interrupts.cc prints before it halts.
use Prim.Native.String.{String}
use cxkernel.Base.{ℕ, List, [], ◌∷◌, ◌++◌, none, some, ◌==◌, if◌then◌else◌, get_elem?, codes}
use cxkernel.Stdio.Format.{Arg, word, text}
use cxkernel.Stdio.Streams.{Streams, kerr}

-- `int_frame` of arch/x86-64/types.h
pub record IntFrame : Type 0 where
  pub rdi : ℕ
  pub rsi : ℕ
  pub rbp : ℕ
  pub rbx : ℕ
  pub rdx : ℕ
  pub rcx : ℕ
  pub rax : ℕ
  pub r8 : ℕ
  pub r9 : ℕ
  pub r10 : ℕ
  pub r11 : ℕ
  pub r12 : ℕ
  pub r13 : ℕ
  pub r14 : ℕ
  pub r15 : ℕ
  pub vector : ℕ
  pub err_code : ℕ
  pub rip : ℕ
  pub cs : ℕ
  pub flags : ℕ
  pub user_sp : ℕ
  pub user_ss : ℕ

unfoldable pub exception_messages : List (List ℕ)
exception_messages =
    codes "#DE Division By Zero"
    ∷ codes "#DB Debug"
    ∷ codes "Non Maskable Interrupt"
    ∷ codes "#BP Breakpoint"
    ∷ codes "#OF Into Detected Overflow"
    ∷ codes "#BR Out of Bounds"
    ∷ codes "#UD Invalid Opcode"
    ∷ codes "#NM No Coprocessor"
    ∷ codes "#DF Double Fault"
    ∷ codes "Coprocessor Segment Overrun"
    ∷ codes "#TS Bad TSS"
    ∷ codes "#NP Segment Not Present"
    ∷ codes "#SS Stack-Segment Fault"
    ∷ codes "#GP General Protection Fault"
    ∷ codes "#PF Page Fault"
    ∷ codes "Unknown Interrupt"
    ∷ codes "#MF Coprocessor Fault"
    ∷ codes "#AC Alignment Check"
    ∷ codes "#MC Machine Check"
    ∷ codes "#XF SIMD Floating-Point Exception"
    ∷ codes "#VE Virtualization Exception"
    ∷ codes "Reserved"
    ∷ codes "#SX Security Exception"
    ∷ codes "Reserved"
    ∷ codes "Triple Fault"
    ∷ codes "#FERR Legacy"
    ∷ codes "Reserved"
    ∷ codes "Reserved"
    ∷ codes "Reserved"
    ∷ codes "Reserved"
    ∷ codes "Reserved"
    ∷ codes "Reserved"
    ∷ []

unfoldable pub page_fault_messages : List (List ℕ)
page_fault_messages =
    codes "Supervisory process tried to read a non-present page entry"
    ∷ codes "Supervisory process tried to read a page and caused a protection fault"
    ∷ codes "Supervisory process tried to write to a non-present page entry"
    ∷ codes "Supervisory process tried to write a page and caused a protection fault"
    ∷ codes "User process tried to read a non-present page entry"
    ∷ codes "User process tried to read a page and caused a protection fault"
    ∷ codes "User process tried to write to a non-present page entry"
    ∷ codes "User process tried to write a page and caused a protection fault"
    ∷ []

-- lines of text
abbrev lines : List String → List ℕ
lines [] = []
lines (s ∷ ss) = codes s ++ 10 ∷ lines ss

unfoldable pub registers_format : List ℕ
registers_format = lines (
    "" ∷ "=== KERNEL UNHANDLED EXCEPTION 0x%02lX ===" ∷ "=== %s"
    ∷ "=== Dumping register contents below"
    ∷ "> rax: 0x%016lX rbx: 0x%016lX rcx: 0x%016lX rdx: 0x%016lX"
    ∷ "> rsi: 0x%016lX rdi: 0x%016lX rsp: 0x%016lX rbp: 0x%016lX"
    ∷ "> r8:  0x%016lX r9:  0x%016lX r10: 0x%016lX r11: 0x%016lX"
    ∷ "> r12: 0x%016lX r13: 0x%016lX r14: 0x%016lX r15: 0x%016lX" ∷ "> rip: 0x%016lX eflags: 0x%lX"
    ∷ "=== Error code: 0x%016lX" ∷ [])

unfoldable pub page_fault_format : List ℕ
page_fault_format =
    lines ("=== Page fault data:" ∷ "=== %s" ∷ "=== Faulting address: 0x%016lX" ∷ [])

unfoldable pub blank_format : List ℕ
blank_format = lines ("" ∷ [])

unfoldable pub halted_format : List ℕ
halted_format = lines (
    "+===============================================+"
    ∷ "|                                               |"
    ∷ "|  Kernel panic: The system has halted.         |"
    ∷ "|  Please reboot the system.                    |"
    ∷ "|  If you see this message again, please report |"
    ∷ "|  this to the developers.                      |"
    ∷ "|               _                               |"
    ∷ "|         __   |-|           THE SYSTEM         |"
    ∷ "|  jgs   [Ll]  |=|          IS DEAD! x.x        |"
    ∷ "|        ====`o'^'                              |"
    ∷ "+===============================================+" ∷ "" ∷ [])

-- the arguments of the first call, with the text of the exception
unfoldable pub registers : IntFrame → List ℕ → ℕ → List Arg
registers r message rsp =
    word r.vector
    ∷ text message
    ∷ word r.rax
    ∷ word r.rbx
    ∷ word r.rcx
    ∷ word r.rdx
    ∷ word r.rsi
    ∷ word r.rdi
    ∷ word rsp
    ∷ word r.rbp
    ∷ word r.r8
    ∷ word r.r9
    ∷ word r.r10
    ∷ word r.r11
    ∷ word r.r12
    ∷ word r.r13
    ∷ word r.r14
    ∷ word r.r15
    ∷ word r.rip
    ∷ word r.flags
    ∷ word r.err_code
    ∷ []

-- How the handler ends: it halts; it reads behind a table; or a print is undefined, or has
-- not enough fuel.
pub data End : Type 0 where
  halted : Streams → End
  past_table not_printed : End

-- a print, and what comes after it
abbrev pub then_print : ℕ → List ℕ → List Arg → Streams → (Streams → End) → End
then_print fuel format args s next = elim (kerr fuel format args s) [
  | none ↦ not_printed
  | some r ↦ next r.1
]

-- the lines for a page fault, with what `read_cr2` gives
unfoldable pub print_page_fault : ℕ → IntFrame → ℕ → Streams → (Streams → End) → End
print_page_fault fuel r cr2 s next =
    if r.vector == 14
    then elim (get_elem? page_fault_messages r.err_code) [
      | none ↦ past_table
      | some m ↦ then_print fuel page_fault_format (text m ∷ word cr2 ∷ []) s next
    ]
    else next s

unfoldable pub exception_handler : ℕ → IntFrame → ℕ → ℕ → Streams → End
unfolding print_page_fault
exception_handler fuel r rsp cr2 s = elim (get_elem? exception_messages r.vector) [
  | none ↦ past_table
  | some m ↦ then_print fuel registers_format (registers r m rsp) s λ s1.
      print_page_fault fuel r cr2 s1
        λ s2. then_print fuel blank_format [] s2 λ s3. then_print fuel halted_format [] s3 halted
]
