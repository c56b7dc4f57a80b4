-- ===== src/Interrupts/Tests.antt =====
-- The report of a page fault.
use cxkernel.Base.{ℕ, ◌≡◌, ◌==◌, ◌&&◌, leb, if◌then◌else◌, [], All, arith, List, some, get_elem?}
use cxkernel.Stdio.Streams.{Streams}
use cxkernel.Stdio.Print.Taken.{IsWord}
use cxkernel.Interrupts.Exception.{
  IntFrame, registers, exception_handler, past_table, halted, exception_messages, registers_format,
  blank_format, halted_format,
}
use cxkernel.Interrupts.Crash.{exception_handler-ends, Prints, FaultText, after}

-- a write to a page that is not present
abbrev frame : IntFrame
frame = record {
  rdi = 1;
  rsi = 2;
  rbp = 3;
  rbx = 4;
  rdx = 5;
  rcx = 6;
  rax = 7;
  r8 = 8;
  r9 = 9;
  r10 = 10;
  r11 = 11;
  r12 = 12;
  r13 = 13;
  r14 = 14;
  r15 = 15;
  vector = 14;
  err_code = 2;
  rip = 16;
  cs = 8;
  flags = 2;
  user_sp = 0;
  user_ss = 0;
}

abbrev streams : Streams
streams = record { org = λ a. 0; out = 0; log = 0; console = [] }

exception_example :
    (m : List ℕ) × (t1 : List ℕ) × (t2 : List ℕ) × (t3 : List ℕ) × (t4 : List ℕ) × (get_elem?
        exception_messages frame.vector
      ≡ some m)
    × Prints 700 registers_format (registers frame m 0x8000) t1
    × FaultText 700 frame 0x5000 t2
    × Prints 700 blank_format [] t3
    × Prints 700 halted_format [] t4
    × (exception_handler 700 frame 0x8000 0x5000 streams ≡ (
        if (frame.vector == 14) && leb 8 frame.err_code
        then past_table
        else halted (after t4 (after t3 (after t2 (after t1 streams))))))
exception_example =
    exception_handler-ends 700 frame 0x8000 0x5000 streams (omega arith) words (omega arith)
      (omega arith)
  where
    words : All IsWord (registers frame [] 0x8000)
    words = unfold registers in omega arith
