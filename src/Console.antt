-- ===== src/Console.antt =====
-- The serial console of platform/pc/console.cc, and platform/pc/init.cc. What happens at the ports is a
-- history, newest event first; a device answers a read by the port and what has happened before.
pub mod Sent
mod Tests
use cxkernel.Base.{
  ℕ, zero, suc, ◌+◌, Option, none, some, List, [], ◌∷◌, ◌==◌, if◌then◌else◌, bit_and, true, false,
}
use cxkernel.Bits.{u8, u16}
use cxkernel.Text.{Memory}

pub data Event : Type 0 where
  read : ℕ → ℕ → Event
  write : ℕ → ℕ → Event

abbrev pub History : Type 0
History = List Event

-- The byte that a read of the port gets after the history.
abbrev pub Device : Type 0
Device = ℕ → History → ℕ

abbrev pub com1 : ℕ
com1 = 0x3F8

abbrev pub com2 : ℕ
com2 = 0x2F8

unfoldable pub outb : ℕ → ℕ → History → History
outb port value h = write (u16 port) (u8 value) ∷ h

-- the byte, and the history with the read
unfoldable pub inb : Device → ℕ → History → ℕ × History
inb d port h = (d (u16 port) h, read (u16 port) (d (u16 port) h) ∷ h)

unfoldable pub console_init_port : ℕ → History → History
unfolding outb
console_init_port port h = outb (port + 4) 0x0B (
    outb (port + 2) 0xC7 (
      outb (port + 3) 0x03 (
        outb (port + 1) 0x00
          (outb (port + 0) 0x03 (outb (port + 3) 0x80 (outb (port + 1) 0x00 h))))))

unfoldable pub console_init : History → History
unfolding console_init_port
console_init h = console_init_port com2 (console_init_port com1 h)

-- `while((inb(port + 5) & 0x20) == 0)`, with fuel for the reads
unfoldable pub wait : ℕ → Device → ℕ → History → Option History
unfolding inb
wait zero d port h = none
wait (suc patience) d port h =
    let r = inb d (port + 5) h in
    let rest = wait patience d port r.1 in if bit_and r.0 0x20 == 0 then rest else some r.1

unfoldable pub send : ℕ → Device → ℕ → ℕ → History → Option History
unfolding outb
send patience d port c h = elim (wait patience d port h) [
  | none ↦ none
  | some h' ↦ some (outb port c h')
]

unfoldable pub console_emit : ℕ → Device → ℕ → History → Option History
console_emit patience d c h = send patience d com1 c h

-- The loop over the characters of a string, at either port.
unfoldable pub send_all : ℕ → ℕ → Device → ℕ → Memory → ℕ → History → Option History
send_all zero patience d port m c h = none
send_all (suc fuel) patience d port m c h = elim (m c == 0) [
  | true ↦ some h
  | false ↦ elim (send patience d port (m c) h) [
    | none ↦ none
    | some h' ↦ send_all fuel patience d port m (c + 1) h'
  ]
]

unfoldable pub console_puts : ℕ → ℕ → Device → Memory → ℕ → History → Option History
console_puts fuel patience d m c h = send_all fuel patience d com1 m c h

unfoldable pub console_log : ℕ → ℕ → Device → Memory → ℕ → History → Option History
console_log fuel patience d m c h = send_all fuel patience d com2 m c h

-- `platform::init`
unfoldable pub platform_init : History → History
unfolding outb
platform_init h = outb 0x21 0xFF (outb 0xA1 0xFF h)
