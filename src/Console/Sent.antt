-- ===== src/Console/Sent.antt =====
-- What the loops of platform/pc/console.cc do at a port, as a protocol of the serial line.
use cxkernel.Base.{
  ℕ, zero, suc, ◌+◌, ◌<◌, ◌≤◌, ◌≡◌, ◌≢◌, arith, refl, some, List, [], ◌∷◌, ◌++◌, ◌==◌,
  if◌then◌else◌, bit_and, Bool-cases, inl, inr, reverse, length, ◌^◌, ◌∙◌, sym, ne→==, ==_self,
  ==→ne, ==→eq,
}
use mathlib.Core.List.{append_assoc, reverse-cons}
use cxkernel.Bits.{u8, u16}
use cxkernel.Text.{Memory}
use cxkernel.Console.{
  read, write, History, Device, outb, wait, send, send_all, com1, com2, console_puts, console_log,
}

-- the answer lets the port take a character
abbrev pub CanSend : ℕ → Type 0
CanSend v = bit_and v 0x20 ≢ 0

-- From the first history to the second the characters are written to the port one after the other,
-- each right behind a read of the line's status that allows it; all other events are
-- reads of the status that do not.
pub data Sent (d : Device) (port : ℕ) : List ℕ → History → History → Type 0 where
  done : {h : History} → Sent d port [] h h
  busy :
      {cs : List ℕ} {h h' : History}
      → bit_and (d (port + 5) h) 0x20 ≡ 0
      → Sent d port cs (read (port + 5) (d (port + 5) h) ∷ h) h'
      → Sent d port cs h h'
  char :
      {c : ℕ} {cs : List ℕ} {h h' : History}
      → CanSend (d (port + 5) h)
      → Sent d port cs (write port c ∷ read (port + 5) (d (port + 5) h) ∷ h) h'
      → Sent d port (c ∷ cs) h h'

-- what has been written to the port, newest first
pub written : ℕ → History → List ℕ
written port [] = []
written port (read p v ∷ h) = written port h
written port (write p v ∷ h) = if p == port then v ∷ written port h else written port h

-- the history after `n` more reads of the status
abbrev pub polled : Device → ℕ → ℕ → History → History
polled d port zero h = h
polled d port (suc n) h = polled d port n (read (port + 5) (d (port + 5) h) ∷ h)

-- Whatever has happened, the line is ready within `k` reads of its status.
abbrev pub IsReadyWithin : Device → ℕ → ℕ → Type 0
IsReadyWithin d port k =
    (h : History) → (j : ℕ) × (j ≤ k) × CanSend (d (port + 5) (polled d port j h))

-- the bytes of a string up to its terminator
abbrev pub HasText : Memory → ℕ → List ℕ → Type 0
HasText m p [] = m p ≡ 0
HasText m p (c ∷ cs) = (m p ≡ c) × (c ≢ 0) × (c < 256) × HasText m (p + 1) cs

module _ (d : Device) (port : ℕ) (small : port + 5 < 2 ^ 16) where
  -- the history in which a character is written
  abbrev answered : History → History
  answered h = read (port + 5) (d (port + 5) h) ∷ h

  wait-suc :
      (patience : ℕ) (h : History)
      → wait (suc patience) d port h ≡ (
          if bit_and (d (port + 5) h) 0x20 == 0
          then wait patience d port (answered h)
          else some (answered h))
  unfolding wait
  wait-suc patience h = let e : u16 (port + 5) ≡ port + 5 = omega arith in rw e

  -- what a wait that returns is good for
  abbrev Waited : ℕ → History → Type 0
  Waited patience h =
      (h' : History) × (wait patience d port h ≡ some h')
      × (written port h' ≡ written port h)
      × ((c : ℕ) (cs : List ℕ) (h'' : History)
          → Sent d port cs (write port c ∷ h') h''
          → Sent d port (c ∷ cs) h h'')

  wait-ready :
      (patience j : ℕ) (h : History)
      → j < patience
      → CanSend (d (port + 5) (polled d port j h))
      → Waited patience h
  unfolding written
  wait-ready zero j h lt ready = absurd (omega arith)
  wait-ready (suc patience) zero h lt ready = (
    answered h,
    wait-suc patience h ∙ ground (arith, ready),
    refl,
    λ c cs h'' sent. char ready sent,
  )
  wait-ready (suc patience) (suc j) h lt ready =
      elim (Bool-cases (bit_and (d (port + 5) h) 0x20 == 0)) [
        | inl e ↦
            let (h', run, same, next) = wait-ready patience j (answered h) (omega arith) ready in
            (
              h',
              wait-suc patience h ∙ rw e run,
              same,
              λ c cs h'' sent. busy (==→eq _ 0 e) (next c cs h'' sent),
            )
        | inr e ↦
            (answered h, wait-suc patience h ∙ rw e, refl, λ c cs h'' sent. char (==→ne _ 0 e) sent)
      ]

  -- what a loop that returns has done
  abbrev pub Transmitted : List ℕ → History → History → Type 0
  Transmitted cs h h' = Sent d port cs h h' × (written port h' ≡ reverse cs ++ written port h)

  send-written :
      (patience v c : ℕ) (h h' : History)
      → wait patience d port h ≡ some h'
      → v ≡ c
      → c < 256
      → send patience d port v h ≡ some (write port c ∷ h')
  unfolding send outb
  send-written patience v c h h' run e lt =
      let p : u16 port ≡ port = omega arith in
      let b : u8 v ≡ c = omega arith in rw (send, run, outb, p, b)

  send_all-suc :
      (fuel patience : ℕ) (m : Memory) (p : ℕ) (h h' : History)
      → m p ≢ 0
      → send patience d port (m p) h ≡ some h'
      → send_all (suc fuel) patience d port m p h ≡ send_all fuel patience d port m (p + 1) h'
  unfolding send_all
  send_all-suc fuel patience m p h h' ne e = rw (send_all, ne→== _ 0 ne, e)

  written_self : (c : ℕ) (h : History) → written port (write port c ∷ h) ≡ c ∷ written port h
  unfolding written
  written_self c h = rw (==_self port)

  -- Where the line is ready within `k` reads of its status, whatever has happened, and the loop is
  -- as patient, a string is sent character by character, with fuel above its length.
  pub send_all-Transmitted :
      (k patience : ℕ) (m : Memory) (cs : List ℕ) (p fuel : ℕ) (h : History)
      → IsReadyWithin d port k
      → k < patience
      → HasText m p cs
      → length cs < fuel
      → (h' : History) × (send_all fuel patience d port m p h ≡ some h') × Transmitted cs h h'
  unfolding send_all
  send_all-Transmitted k patience m cs p zero h ready lt text room = absurd (omega arith)
  send_all-Transmitted k patience m [] p (suc fuel) h ready lt text room =
      (h, ground (arith, text), (done, refl))
  send_all-Transmitted k patience m (c ∷ cs) p (suc fuel) h ready lt text room =
      let (j, le, can) = ready h in
      let (h', run, same, next) = wait-ready patience j h (omega arith) can in
      let out = send-written patience (m p) c h h' run text.0 text.2 in
      let (h'', rest, (sent, eq)) =
        send_all-Transmitted k patience m cs (p + 1) fuel (write port c ∷ h') ready lt text.3
          (omega arith) in
      (
        h'',
        send_all-suc fuel patience m p h (write port c ∷ h') (λ e. text.1 (sym text.0 ∙ e)) out
            ∙ rest,
        (next c cs h'' sent, eq ∙ rw (written_self c h', same, reverse-cons c cs, append_assoc)),
      )

-- Where both lines are ready within `k` reads of their status, whatever has happened, and the loops
-- are as patient, `console_puts` and `console_log` return, with fuel above the string's length: each
-- sends the string, character by character and in order, to its own port.
pub console_puts-Transmitted :
    (d : Device) (k patience : ℕ) (m : Memory) (cs : List ℕ) (p fuel : ℕ) (h : History)
    → IsReadyWithin d com1 k
    → IsReadyWithin d com2 k
    → k < patience
    → HasText m p cs
    → length cs < fuel
    → ((h' : History) × (console_puts fuel patience d m p h ≡ some h')
        × Sent d com1 cs h h'
        × (written com1 h' ≡ reverse cs ++ written com1 h))
      × ((h' : History) × (console_log fuel patience d m p h ≡ some h')
          × Sent d com2 cs h h'
          × (written com2 h' ≡ reverse cs ++ written com2 h))
unfolding console_puts console_log
console_puts-Transmitted d k patience m cs p fuel h ready1 ready2 lt text room =
    let a =
      send_all-Transmitted d com1 (omega arith) k patience m cs p fuel h ready1 lt text room in
    let b =
      send_all-Transmitted d com2 (omega arith) k patience m cs p fuel h ready2 lt text room in
    ((a.0, a.1, a.2.0, a.2.1), (b.0, b.1, b.2.0, b.2.1))
