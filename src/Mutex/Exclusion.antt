-- ===== src/Mutex/Exclusion.antt =====
-- What holds in every reachable state of the mutex of core/mutex.cc: the theorems.
use cxkernel.Base.{
  ◌≡◌, ◌≢◌, refl, true, false, Option, none, some, List, [], ◌∷◌, ◌++◌, arith, All, ap, subst, ◌⊎◌,
  inl, inr,
}
use cxkernel.Mutex.{
  Tid, State, free, locked, Mutex, new, do_i_hold, acquired, blocked, lock, lock_by, lock_woken,
  unlock, unlock_by, Pc, outside, asleep, woken, inside, System, update, wake, Step, lock_free,
  lock_wait, resume, leave, init, Reach, start, later, holding,
}
use cxkernel.Mutex.Safety.{
  Inv, lock_free-Inv, lock_wait-Inv, resume-Inv, unlock_none-Inv, unlock_some-Inv,
}

lock_by-acquired :
    (s : State) (m m' : Mutex) (t : Tid)
    → lock_by s m t ≡ acquired m'
    → (s ≡ free) × (record m { state = locked; owner = some t } ≡ m')
unfolding lock_by
lock_by-acquired free m m' t e = ground arith
lock_by-acquired locked m m' t e = ground arith

lock_by-blocked :
    (s : State) (m m' : Mutex) (t : Tid)
    → lock_by s m t ≡ blocked m'
    → (s ≡ locked) × (record m { wait_queue = m.wait_queue ++ t ∷ [] } ≡ m')
unfolding lock_by
lock_by-blocked free m m' t e = ground arith
lock_by-blocked locked m m' t e = ground arith

lock_woken-some :
    (m m' : Mutex) (t : Tid) → lock_woken m t ≡ some m' → record m { owner = some t } ≡ m'
unfolding lock_woken
lock_woken-some m m' t e = ground arith

unlock_by-Inv :
    (q : List Tid) (m m' : Mutex) (pc : Tid → Pc) (t : Tid) (w : Option Tid)
    → Inv m pc
    → pc t ≡ inside
    → m.wait_queue ≡ q
    → unlock_by q m ≡ (m', w)
    → Inv m' (wake (update pc t outside) w)
unfolding unlock_by
unlock_by-Inv [] m m' pc t w i o e h =
    subst (λ r. Inv r.0 (wake (update pc t outside) r.1)) h (unlock_none-Inv m pc t i o e)
unlock_by-Inv (v ∷ q) m m' pc t w i o e h =
    subst (λ r. Inv r.0 (wake (update pc t outside) r.1)) h (unlock_some-Inv m pc t v q i o e)

unlock-some :
    (m m' : Mutex) (t : Tid) (w : Option Tid)
    → unlock m t ≡ some (m', w)
    → unlock_by m.wait_queue m ≡ (m', w)
unfolding unlock
unlock-some m m' t w e = ground arith

Step-Inv : {s s' : System} → Inv s.mutex s.pc → Step s s' → Inv s'.mutex s'.pc
unfolding lock
Step-Inv {s} i (lock_free t {m} o e) =
    let r = lock_by-acquired s.mutex.state s.mutex m t e in
    subst (λ x. Inv x (update s.pc t inside)) r.1 (lock_free-Inv s.mutex s.pc t i o r.0)
Step-Inv {s} i (lock_wait t {m} o e) =
    let r = lock_by-blocked s.mutex.state s.mutex m t e in
    subst (λ x. Inv x (update s.pc t asleep)) r.1 (lock_wait-Inv s.mutex s.pc t i o r.0)
Step-Inv {s} i (resume t {m} o e) =
    subst (λ x. Inv x (update s.pc t inside)) (lock_woken-some s.mutex m t e)
      (resume-Inv s.mutex s.pc t i o)
Step-Inv {s} i (leave t {m} {w} o e) =
    unlock_by-Inv s.mutex.wait_queue s.mutex m s.pc t w i o refl (unlock-some s.mutex m t w e)

init-Inv : Inv init.mutex init.pc
init-Inv = record {
  owned = λ u h. ground arith;
  fresh = λ u h. ground arith;
  unique = λ u v h k. ground arith;
  idle = λ u h. refl;
  empty = λ h. refl;
  waiting = tt;
  distinct = tt;
}

Reach-Inv : {s : System} → Reach s → Inv s.mutex s.pc
Reach-Inv start = init-Inv
Reach-Inv (later r e) = Step-Inv (Reach-Inv r) e

-- In every state that threads calling `lock` and `unlock` can reach, at most one thread is inside.
pub inside_unique : (s : System) (t u : Tid) → Reach s → s.pc t ≡ inside → s.pc u ≡ inside → t ≡ u
inside_unique s t u r h k = (Reach-Inv r).unique t u (ap holding h) (ap holding k)

holds_by : (m : Mutex) (t : Tid) → m.owner ≡ some t → do_i_hold m t ≡ true
unfolding do_i_hold
holds_by m t e = ground arith

holds_not :
    (o : Option Tid) (m : Mutex) (t : Tid) → m.owner ≡ o → m.owner ≢ some t → do_i_hold m t ≡ false
unfolding do_i_hold
holds_not none m t e h = ground arith
holds_not (some u) m t e h = ground arith

free-new : (m : Mutex) → m.wait_queue ≡ [] → record m { state = free; owner = none } ≡ new
free-new m e = ground arith

unlock-queue :
    (q : List Tid) (m : Mutex) (pc : Tid → Pc) (t : Tid)
    → m.wait_queue ≡ q
    → do_i_hold m t ≡ true
    → All (λ u. pc u ≡ asleep) q
    → ((m.wait_queue ≡ []) × (unlock m t ≡ some (new, none)))
      ⊎ ((u : Tid) × (p : List Tid) × (m.wait_queue ≡ u ∷ p)
          × (pc u ≡ asleep)
          × (unlock m t ≡ some (record m { wait_queue = p }, some u)))
unfolding unlock unlock_by
unlock-queue [] m pc t e h a = inl (e, let f = free-new m e in ground arith)
unlock-queue (v ∷ q) m pc t e h a = inr (v, q, e, a.0, ground arith)

-- In a reachable state the assertion in the second half of `lock` holds for a woken thread: the
-- thread goes on, the owner becomes that thread, and state and queue stay as they are.
pub lock_woken-Reach :
    (s : System) (t : Tid)
    → Reach s
    → s.pc t ≡ woken
    → lock_woken s.mutex t ≡ some (record s.mutex { owner = some t })
unfolding lock_woken
lock_woken-Reach s t r h =
    let no = holds_not s.mutex.owner s.mutex t refl ((Reach-Inv r).fresh t h) in ground arith

-- In a reachable state the assertion of `unlock` holds for a thread that is inside. If no thread
-- waits, `unlock` leaves a new mutex; otherwise it takes the thread that has waited longest, which
-- is asleep, off the queue and wakes it, and changes nothing else of the mutex.
pub unlock-Reach :
    (s : System) (t : Tid)
    → Reach s
    → s.pc t ≡ inside
    → ((s.mutex.wait_queue ≡ []) × (unlock s.mutex t ≡ some (new, none)))
      ⊎ ((u : Tid) × (q : List Tid) × (s.mutex.wait_queue ≡ u ∷ q)
          × (s.pc u ≡ asleep)
          × (unlock s.mutex t ≡ some (record s.mutex { wait_queue = q }, some u)))
unlock-Reach s t r h =
    let i = Reach-Inv r in
    unlock-queue s.mutex.wait_queue s.mutex s.pc t refl (holds_by s.mutex t (i.owned t h)) i.waiting
