-- ===== src/Console/Tests.antt =====
-- A line that is busy at the first look after each character, and the text "ok" at 0x100.
use cxkernel.Base.{ℕ, ◌≡◌, ◌==◌, if◌then◌else◌, [], ◌∷◌, ◌++◌, arith, refl, some, reverse}
use cxkernel.Text.{Memory}
use cxkernel.Console.{read, History, Device, com1, com2, console_puts, console_log}
use cxkernel.Console.Sent.{Sent, written, IsReadyWithin, HasText, console_puts-Transmitted}

abbrev slow : Device
slow port (read p v ∷ h) = 0x20
slow port h = 0

abbrev text : Memory
text a = if a == 0x100 then b'o' else if a == 0x101 then b'k' else 0

slow-IsReadyWithin : (port : ℕ) → IsReadyWithin slow port 1
slow-IsReadyWithin port h = (1, omega arith, ground arith)

puts_example :
    ((h' : History) × (console_puts 3 2 slow text 0x100 [] ≡ some h')
      × Sent slow com1 (b'o' ∷ b'k' ∷ []) [] h'
      × (written com1 h' ≡ reverse (b'o' ∷ b'k' ∷ []) ++ written com1 []))
    × ((h' : History) × (console_log 3 2 slow text 0x100 [] ≡ some h')
        × Sent slow com2 (b'o' ∷ b'k' ∷ []) [] h'
        × (written com2 h' ≡ reverse (b'o' ∷ b'k' ∷ []) ++ written com2 []))
puts_example =
    console_puts-Transmitted slow 1 2 text (b'o' ∷ b'k' ∷ []) 0x100 3 [] (slow-IsReadyWithin com1)
      (slow-IsReadyWithin com2) (omega arith) string (omega arith)
  where
    string : HasText text 0x100 (b'o' ∷ b'k' ∷ [])
    string = (refl, omega arith, omega arith, (refl, omega arith, omega arith, refl))
