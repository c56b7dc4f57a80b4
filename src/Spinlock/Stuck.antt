-- ===== src/Spinlock/Stuck.antt =====
-- What `spin_lock` of arch/x86-64/interface.h does after a lock has been taken once.
use cxkernel.Base.{
  ℕ, zero, suc, ◌+◌, ◌≡◌, ◌≢◌, true, false, none, some, List, [], ◌∷◌, All, arith, refl,
}
use cxkernel.Spinlock.{Cpu, is_set, poke, spin, spin_lock, spin_unlock}

-- A bit that is set is waited for without end.
spin-set : (fuel p : ℕ) (s : Cpu) → is_set s.words p ≡ true → spin fuel p s ≡ none
unfolding spin
spin-set zero p s h = refl
spin-set (suc fuel) p s h = ground (arith, h, spin-set fuel p s h)

-- Locks one after the other are released.
pub unlock_all : List ℕ → Cpu → Cpu
unlock_all [] s = s
unlock_all (p ∷ ps) s = unlock_all ps (spin_unlock p s)

unlock_all-words :
    (ps : List ℕ) (s : Cpu) (a : ℕ) → All (λ p. a ≢ p) ps → (unlock_all ps s).words a ≡ s.words a
unfolding unlock_all spin_unlock
unlock_all-words [] s a h = refl
unlock_all-words (p ∷ ps) s a h =
    let ih = unlock_all-words ps (spin_unlock p s) a h.1 in ground (arith, ih, h.0)

-- A lock's word stays 0.
unlock_all-free : (ps : List ℕ) (s : Cpu) (q : ℕ) → s.words q ≡ 0 → (unlock_all ps s).words q ≡ 0
unfolding unlock_all spin_unlock
unlock_all-free [] s q h = h
unlock_all-free (p ∷ ps) s q h = unlock_all-free ps (spin_unlock p s) q (ground (arith, h))

-- the processor after the first lock
abbrev pub taken : Cpu → Cpu
taken s = record s { words = poke s.words 0 (s.words 0 + 1) }

-- For locks at other addresses than 0 whose words are 0, as they are when constructed: where bit 0
-- of the word at address 0 is clear, `spin_lock` of the first returns without waiting and sets
-- that bit, not the lock's. Whatever locks, none of them at address 0, are then released,
-- `spin_lock` of any lock, the same or another, does not return, whatever the fuel is.
pub spin_lock_once :
    (s : Cpu) (p : ℕ) (ps : List ℕ) (q fuel : ℕ)
    → s.words p ≡ 0
    → q ≢ 0
    → s.words q ≡ 0
    → is_set s.words 0 ≡ false
    → All (λ r. 0 ≢ r) ps
    → (spin_lock 0 p s ≡ some (taken s)) × (spin_lock fuel q (unlock_all ps (taken s)) ≡ none)
unfolding spin_lock
spin_lock_once s p ps q fuel hp q0 hq clear apart =
    let u = unlock_all ps (taken s) in
    let word : u.words q ≡ 0 = unlock_all-free ps (taken s) q (ground (arith, hq, q0)) in
    let bit : is_set u.words 0 ≡ true =
      ground (arith, unlock_all-words ps (taken s) 0 apart, clear) in
    (ground (arith, hp, clear), rw (word, bit) (spin-set fuel 0 u bit))
