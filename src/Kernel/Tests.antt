-- ===== src/Kernel/Tests.antt =====
-- A start with a database of three pages, the greeting "ok" at 0x100, and lines that are ready.
use cxkernel.Base.{ℕ, ◌≡◌, ◌==◌, if◌then◌else◌, [], ◌∷◌, arith, refl, All}
use cxkernel.LinkedList.Samples.{three, three-IsRing}
use cxkernel.Text.{Memory}
use cxkernel.Console.{History, Device, com1, com2, console_init, platform_init}
use cxkernel.Console.Sent.{Sent, IsReadyWithin, HasText}
use cxkernel.Boot.Samples.{pages-IsPage}
use cxkernel.Boot.Shift.{seen}
use cxkernel.Boot.Handoff.{hand_over, pfndb_offset}
use cxkernel.Cpu.{Boot}
use cxkernel.Cpu.Samples.{places, stubs, off}
use cxkernel.Cpu.Startup.{IsStarted}
use cxkernel.Stdio.Streams.{Streams}
use cxkernel.Stdio.Print.Taken.{IsWord}
use cxkernel.Interrupts.Exception.{IntFrame, registers, halted}
use cxkernel.Kernel.{Places, kernel_entry, reported}
use cxkernel.Kernel.Entry.{kernel_entry-halted}

abbrev ready : Device
ready port h = 0x20

ready-IsReadyWithin : (port : ℕ) → IsReadyWithin ready port 0
ready-IsReadyWithin port h = (0, omega arith, ground arith)

abbrev greeting : Memory
greeting a = if a == 0x100 then b'o' else if a == 0x101 then b'k' else 0

greeting-HasText : HasText greeting 0x100 (b'o' ∷ b'k' ∷ [])
greeting-HasText = (refl, omega arith, omega arith, (refl, omega arith, omega arith, refl))

abbrev linked : Places
linked = record {
  greeting = 0x100;
  percpu = places;
  boot_thread = 7;
  slot = 0;
  temporary = 1;
  boot_aspace = 8;
  stubs = stubs;
  cr3 = 0x9000;
  cr2 = 0;
}

-- the frame of the breakpoint
abbrev frame : IntFrame
frame = record {
  rdi = 1;
  rsi = 2;
  rbp = 3;
  rbx = 4;
  rdx = 5;
  rcx = 6;
  rax = 7;
  r8 = 8;
  r9 = 9;
  r10 = 10;
  r11 = 11;
  r12 = 12;
  r13 = 13;
  r14 = 14;
  r15 = 15;
  vector = 3;
  err_code = 0;
  rip = 16;
  cs = 8;
  flags = 0x202;
  user_sp = 0;
  user_ss = 0;
}

words : All IsWord (registers frame [] 0x8000)
words = unfold registers in omega arith

abbrev streams : Streams
streams = record { org = λ a. 0; out = 0; log = 0; console = [] }

halted_example :
    let given = hand_over 1 0x200000 1 3 1 0 three in
    (h' : History) × (b' : Boot) × (s' : Streams) × (kernel_entry 700 1 ready greeting linked
        given.0
        (seen (pfndb_offset 1) given.1)
        frame
        0x8000
        streams
        off
        []
      ≡ reported (platform_init h') b' (halted s'))
    × Sent ready com1 (b'o' ∷ b'k' ∷ []) (console_init []) h'
    × IsStarted places 7 0 8 b'
halted_example =
    kernel_entry-halted 700 1 0 ready greeting (b'o' ∷ b'k' ∷ []) linked 1 0x200000 3 1 1 0 three
      (1 ∷ 2 ∷ 3 ∷ []) [] frame 0x8000 streams off [] (ready-IsReadyWithin com1)
      (ready-IsReadyWithin com2) (omega arith) greeting-HasText (omega arith)
      (λ e. ground (arith, e)) pages-IsPage tt three-IsRing refl refl (omega arith) (omega arith)
      (ground arith) (ground arith) (omega arith) (omega arith) refl (omega arith) words
      (omega arith) refl
